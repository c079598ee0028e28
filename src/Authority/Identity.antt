-- ===== src/Authority/Identity.antt =====
-- The deterministic identities of a job's operations: `app/inventory/snapshot_identity.py`,
-- `mutation_identity.py` and `rollback_identity.py`, and the methods of the authority that derive
-- them inside a transaction and check them against what the row holds.
use Prim.Native.String.{count, ◌++◌ as text_append}
use hubinet_ops.Prelude.{
  ℕ, String, Bool, true, not, ◌&&◌, ◌||◌, Option, none, some, List, [], ◌∷◌, ◌++◌, ◌==◌, ltb,
  any_of, string_eq, nat_eq, if◌then◌else◌,
}
use hubinet_ops.Authority.Result.{
  Result, ok, err, value_error, authority_conflict, authority_invariant, or_raise,
}
use hubinet_ops.Authority.Platform.{Platform}
use hubinet_ops.Authority.Checks.{require_uuid}
use hubinet_ops.Authority.Tables.{Job, Detail}
use hubinet_ops.Authority.Tx.{Tx, ◌>>=◌, ◌>>◌, pure, lift, gets, ensure}

pub record SnapshotIdentity : Type 0 where
  pub snapshot_operation_id : String
  pub snapshot_name : String

pub record SnapshotOwnership : Type 0 where
  pub protocol : ℕ
  pub kind : String
  pub job_id : String
  pub resource_id : String
  pub continuity_revision : ℕ
  pub inventory_source_id : String
  pub backend_instance_id : String

-- A column that is NULL, or holds exactly this value.
abbrev pub null_or : Option String → String → Bool
null_or none v = true
null_or (some w) v = w == v

module _ (p : Platform) where
  abbrev pub positive_integer : ℕ → Result ℕ
  positive_integer n = if ltb 0 n then ok n else err value_error

  -- `_identity_payload`, which the three derivations share.
  unfoldable pub identity_payload : String → String → String → ℕ → Tx (List (String × Detail))
  identity_payload backend job resource revision = do
    b ← lift (require_uuid p backend)
    j ← lift (require_uuid p job)
    r ← lift (require_uuid p resource)
    n ← lift (positive_integer revision)
    pure (
        ("backend_instance_id", Detail.str b)
        ∷ ("job_id", Detail.str j)
        ∷ ("resource_id", Detail.str r)
        ∷ ("resource_continuity_revision", Detail.number n)
        ∷ [])

  unfoldable pub validate_pve_snapshot_name : String → Result String
  validate_pve_snapshot_name value =
      if not (p.fullmatch "[A-Za-z][A-Za-z0-9_-]+" value)
        || ltb 40 (count value)
        || any_of (λ reserved. reserved == p.lower value) ("current" ∷ "vzdump" ∷ [])
      then err value_error
      else ok value

  unfoldable pub derive_pre_update_snapshot_identity :
      String → String → String → ℕ → Tx SnapshotIdentity
  unfolding identity_payload validate_pve_snapshot_name
  derive_pre_update_snapshot_identity backend job resource revision = do
    payload ← identity_payload backend job resource revision
    name ← lift (
        validate_pve_snapshot_name (
          text_append "hubinet-preupd-" (
            p.prefix 24 (
              p.sha256_hex "hubinet-ops/package-update/pre-update-snapshot-name/v1"
                (payload ∷ [])))))
    operation ← lift (
        require_uuid p
          (p.sha256_uuid "hubinet-ops/package-update/snapshot-operation-id/v1" (payload ∷ [])))
    pure (record { snapshot_operation_id = operation; snapshot_name = name })

  unfoldable pub derive_package_mutation_identity : String → String → String → ℕ → Tx String
  unfolding identity_payload
  derive_package_mutation_identity backend job resource revision = do
    payload ← identity_payload backend job resource revision
    lift (
        require_uuid p (
          p.sha256_uuid "hubinet-ops/package-update/package-mutation-operation-id/v1"
            (payload ∷ [])))

  unfoldable pub derive_package_rollback_identity :
      String → String → String → ℕ → String → String → Tx String
  unfolding identity_payload
  derive_package_rollback_identity backend job resource revision operation name = do
    ensure (not (name == "")) value_error
    payload ← identity_payload backend job resource revision
    o ← lift (require_uuid p operation)
    lift (
        require_uuid p (
          p.sha256_uuid "hubinet-ops/package-update/rollback-operation-id/v1" (
            (payload
              ++ ("snapshot_operation_id", Detail.str o) ∷ ("snapshot_name", Detail.str name) ∷ [])
            ∷ [])))

  -- `_snapshot_identity_in_transaction`
  unfoldable pub snapshot_identity : Job → Tx SnapshotIdentity
  unfolding derive_pre_update_snapshot_identity
  snapshot_identity job = do
    backend ← gets (λ db. db.backend_instance_id)
    identity ←
        derive_pre_update_snapshot_identity backend job.job_id job.context.resource_id
          job.context.expected_continuity_revision
    ensure
        (null_or job.snapshot_name identity.snapshot_name
          && null_or job.snapshot_operation_id identity.snapshot_operation_id)
        authority_invariant
    pure identity

  -- `_snapshot_ownership_in_transaction` over `build_snapshot_ownership`
  unfoldable pub snapshot_ownership : Job → Tx SnapshotOwnership
  snapshot_ownership job = do
    backend ← gets (λ db. db.backend_instance_id)
    j ← lift (require_uuid p job.job_id)
    r ← lift (require_uuid p job.context.resource_id)
    n ← lift (positive_integer job.context.expected_continuity_revision)
    s ← lift (require_uuid p job.context.inventory_source_id)
    b ← lift (require_uuid p backend)
    pure (record {
      protocol = 1;
      kind = "pre_update";
      job_id = j;
      resource_id = r;
      continuity_revision = n;
      inventory_source_id = s;
      backend_instance_id = b;
    })

  -- `_mutation_identity_in_transaction`
  unfoldable pub mutation_identity : Job → Tx String
  unfolding derive_package_mutation_identity
  mutation_identity job = do
    backend ← gets (λ db. db.backend_instance_id)
    identity ←
        derive_package_mutation_identity backend job.job_id job.context.resource_id
          job.context.expected_continuity_revision
    ensure (null_or job.mutation_operation_id identity) authority_invariant
    pure identity

  -- `_rollback_identity_in_transaction`
  unfoldable pub rollback_identity : Job → Tx String
  unfolding derive_package_rollback_identity
  rollback_identity job = do
    backend ← gets (λ db. db.backend_instance_id)
    _ ← lift (or_raise job.snapshot_confirmed_at authority_conflict)
    operation ← lift (or_raise job.snapshot_operation_id authority_conflict)
    name ← lift (or_raise job.snapshot_name authority_conflict)
    identity ←
        derive_package_rollback_identity backend job.job_id job.context.resource_id
          job.context.expected_continuity_revision operation name
    ensure (null_or job.rollback_operation_id identity) authority_invariant
    pure identity
