-- ===== src/Stages/Reads.antt =====
-- The reads of a stage that go through `app/inventory/authority.py` and `app/inventory/store.py`: the
-- job as an object, and the requests that a stage sends to the host. None of them writes.
use Prim.Native.String.{◌++◌ as text_append}
use hubinet_ops.Prelude.{
  ℕ, String, Bool, not, Option, none, some, List, [], ◌∷◌, ◌==◌, length, string_eq, nat_eq,
  if◌then◌else◌,
}
use hubinet_ops.Models.{active, status_eq}
use hubinet_ops.Authority.Result.{authority_invariant}
use hubinet_ops.Authority.Platform.{Platform}
use hubinet_ops.Authority.Checks.{require_uuid, sorted, text_leb}
use hubinet_ops.Authority.Tables.{Job, Material}
use hubinet_ops.Authority.Query.{select_by}
use hubinet_ops.Authority.Tx.{Tx, ◌>>=◌, ◌>>◌, pure, lift, gets, ensure, require_job_row}
use hubinet_ops.Authority.Identity.{
  SnapshotIdentity, SnapshotOwnership, snapshot_identity, snapshot_ownership, mutation_identity,
}
use hubinet_ops.Authority.Scans.{material_rows}
use hubinet_ops.Authority.HealthStage.{job_health}
use hubinet_ops.Stages.Run.{PackageUpdateJob}

-- `PackageUpdateMutationRequest`
pub record MutationRequest : Type 0 where
  pub mutation_operation_id : String
  pub plan_fingerprint : String
  pub backend_instance_id : String
  pub job_id : String
  pub resource_id : String
  pub binding_id : String
  pub locator_generation : ℕ
  pub continuity_revision : ℕ
  pub vmid : ℕ
  pub expected_node : String
  pub packages : List Material

-- The order of Python's tuples on the material of a package.
abbrev pub material_leb : Material → Material → Bool
material_leb a b =
    if not (a.package_name == b.package_name)
    then text_leb a.package_name b.package_name
    else if not (a.architecture == b.architecture)
    then text_leb a.architecture b.architecture
    else if not (a.installed_version == b.installed_version)
    then text_leb a.installed_version b.installed_version
    else text_leb a.candidate_version b.candidate_version

-- `str(rows[0]["job_id"])` of rows that are known to be there.
abbrev pub first_id : List Job → String
first_id [] = ""
first_id (j ∷ js) = j.job_id

module _ (p : Platform) where
  -- `InventoryAuthorityStore.package_update_job` over `_package_update_job`
  unfoldable pub stored_job : String → Tx PackageUpdateJob
  unfolding job_health
  stored_job id = do
    job ← require_job_row id
    probes ← job_health p job
    pure (record { row = job; health_probes = probes })

  -- `InventoryAuthority.package_update_job`
  unfoldable pub read_job : String → Tx PackageUpdateJob
  unfolding stored_job
  read_job id = do canonical ← lift (require_uuid p id); stored_job canonical

  -- `active_package_update_job`; the number of active rows is `only` or an invariant error.
  unfoldable pub read_active_job : Tx (Option PackageUpdateJob)
  unfolding stored_job select_by
  read_active_job = do
    rows ← gets (λ db. select_by (λ (j : Job). j.status == active) db.jobs)
    if length rows == 0 then pure none else (do
      ensure (length rows == 1) authority_invariant
      job ← stored_job (first_id rows)
      pure (some job))

  -- `package_update_snapshot_identity` and `package_update_snapshot_ownership`
  unfoldable pub read_snapshot_identity : String → Tx SnapshotIdentity
  read_snapshot_identity job_id = do
    id ← lift (require_uuid p job_id)
    job ← require_job_row id
    snapshot_identity p job

  unfoldable pub read_snapshot_ownership : String → Tx SnapshotOwnership
  read_snapshot_ownership job_id = do
    id ← lift (require_uuid p job_id)
    job ← require_job_row id
    snapshot_ownership p job

  -- `package_update_mutation_request`
  unfoldable pub mutation_request : String → Tx MutationRequest
  unfolding mutation_identity material_rows sorted
  mutation_request job_id = do
    id ← lift (require_uuid p job_id)
    job ← require_job_row id
    identity ← mutation_identity p job
    backend ← gets (λ db. db.backend_instance_id)
    packages ← gets (λ db. sorted material_leb (material_rows db.job_packages id))
    ensure (not (length packages == 0)) authority_invariant
    pure (record {
      mutation_operation_id = identity;
      plan_fingerprint = job.approved_plan_fingerprint;
      backend_instance_id = backend;
      job_id = id;
      resource_id = job.context.resource_id;
      binding_id = job.context.expected_binding_id;
      locator_generation = job.context.expected_locator_generation;
      continuity_revision = job.context.expected_continuity_revision;
      vmid = job.context.expected_vmid;
      expected_node = job.context.expected_node_name;
      packages = packages;
    })

-- `result.reason or text`
abbrev pub reason_or : Option String → String → String
reason_or none text = text
reason_or (some reason) text = if reason == "" then text else reason

infixr 65 ◌<>◌
abbrev pub ◌<>◌ : String → String → String
a <> b = text_append a b
