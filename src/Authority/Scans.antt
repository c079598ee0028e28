-- ===== src/Authority/Scans.antt =====
-- The latest package scan, exact package material, and the frozen health contract of a job:
-- `app/inventory/authority.py` and the readers of `app/inventory/store.py`.
use hubinet_ops.Prelude.{
  ℕ, ◌+◌, String, Bool, true, false, not, ◌&&◌, ◌||◌, Option, none, some, List, [], ◌∷◌, map, ◌==◌,
  leb, length, any_of, all_of, string_eq, nat_eq, if◌then◌else◌,
}
use hubinet_ops.Models.{status_eq, mutation_may_have_started, checkpoint_rank}
use hubinet_ops.Authority.Result.{authority_invariant}
use hubinet_ops.Authority.Tables.{
  Context, Job, Material, PackageRow, FrozenProbe, Scan, Contract, Db,
}
use hubinet_ops.Authority.Tx.{Tx, ◌>>=◌, ◌>>◌, pure, lift, gets, ensure, when_null}
use hubinet_ops.Authority.Query.{is_some, find_by, select_by, is_just, is_number, str_of}
use hubinet_ops.Authority.Platform.{Platform}
use hubinet_ops.Authority.Checks.{sorted}
use hubinet_ops.Authority.Plans.{
  ProbeSpec, same_probe, package_plan_fingerprint, health_contract_fingerprint,
}
use hubinet_ops.Authority.Locator.{scan_context_is_current}
use hubinet_ops.Authority.Source.{source_context_is_current}

-- `_pending_post_update_package_scan_request_rows` for one resource, as a test.
abbrev pub scan_is_running : List Scan → Option String → Bool
scan_is_running scans none = false
scan_is_running scans (some id) =
    any_of (λ s. s.scan_run_id == id && s.lifecycle == "running") scans

unfoldable pub post_update_scan_is_pending : Db → String → Bool
post_update_scan_is_pending db resource_id =
    any_of
      (λ r.
        r.resource_id == resource_id
        && (not (is_some r.scan_run_id) || scan_is_running db.scans r.scan_run_id))
      db.post_scan_requests

-- `_latest_package_scan_row`: of the scans with the highest attempt, the first.
abbrev pub later : Option Scan → Scan → Option Scan
later none s = some s
later (some t) s = if leb s.attempt_sequence t.attempt_sequence then some t else some s

unfoldable pub latest_scan_from : Option Scan → String → List Scan → Option Scan
latest_scan_from best id [] = best
latest_scan_from best id (s ∷ ss) =
    latest_scan_from (if s.context.resource_id == id then later best s else best) id ss

abbrev pub rows_of : String → List PackageRow → List PackageRow
rows_of id = select_by (λ r. r.owner_id == id)

abbrev pub same_material : Material → Material → Bool
same_material a b =
    a.package_name == b.package_name
    && a.architecture == b.architecture
    && a.installed_version == b.installed_version
    && a.candidate_version == b.candidate_version

-- Equality of two `frozenset`s.
unfoldable pub same_material_set : List Material → List Material → Bool
same_material_set xs ys =
    all_of (λ x. any_of (same_material x) ys) xs && all_of (λ y. any_of (same_material y) xs) ys

-- `_package_material_rows`
unfoldable pub material_rows : List PackageRow → String → List Material
unfolding select_by
material_rows rows id = map (λ (r : PackageRow). r.material) (rows_of id rows)

-- `_package_scan_context_matches_job`
abbrev pub same_context : Context → Context → Bool
same_context a b =
    a.resource_id == b.resource_id
    && a.inventory_source_id == b.inventory_source_id
    && a.source_config_revision == b.source_config_revision
    && a.endpoint_id == b.endpoint_id
    && a.canonical_transport_locator == b.canonical_transport_locator
    && a.canonicalization_contract_version == b.canonicalization_contract_version
    && a.transport_trust_revision == b.transport_trust_revision
    && a.provider_contract_version == b.provider_contract_version
    && a.expected_binding_id == b.expected_binding_id
    && a.expected_locator_generation == b.expected_locator_generation
    && a.expected_continuity_revision == b.expected_continuity_revision
    && a.expected_vmid == b.expected_vmid
    && a.expected_node_id == b.expected_node_id
    && a.expected_node_name == b.expected_node_name

module _ (p : Platform) where
  -- `_successful_package_scan_fingerprint`
  unfoldable pub successful_scan_fingerprint : Scan → Tx String
  unfolding select_by
  successful_scan_fingerprint scan = do
    rows ← gets (λ db. rows_of scan.scan_run_id db.scan_packages)
    ensure (is_number scan.pending_count (length rows)) authority_invariant
    recomputed ← lift (package_plan_fingerprint p rows)
    ensure (recomputed == str_of scan.plan_fingerprint) authority_invariant
    pure recomputed

  -- `_package_scan_is_current_and_approvable`
  unfoldable pub scan_is_current_and_approvable : Scan → Tx Bool
  unfolding successful_scan_fingerprint scan_context_is_current source_context_is_current
  scan_is_current_and_approvable scan =
      if not (scan.lifecycle == "completed" && is_just scan.outcome "success")
      then pure false
      else (do
        _ ← successful_scan_fingerprint scan
        if is_number scan.pending_count 0 then pure false else (do
          here ← gets (λ db. scan_context_is_current db scan.context)
          if here then source_context_is_current scan.context else pure false))

  -- `_resource_health_contract`; the probe rows are the contract's own here, so their number is
  -- not a second fact.
  unfoldable pub resource_health_contract : String → Tx (Option Contract)
  unfolding find_by
  resource_health_contract id = do
    row ← gets (λ db. find_by (λ c. c.resource_id == id) db.contracts)
    when_null row (pure none) (λ c. do
      fingerprint ← lift (health_contract_fingerprint p c.probes)
      ensure (fingerprint == c.fingerprint) authority_invariant
      pure (some c))

  abbrev pub same_probes : List ProbeSpec → List ProbeSpec → Bool
  same_probes [] [] = true
  same_probes (a ∷ as_) (b ∷ bs) = same_probe a b && same_probes as_ bs
  same_probes _ _ = false

  -- `... WHERE job_id=? ORDER BY probe_index`
  abbrev pub frozen_probes : Db → String → List FrozenProbe
  frozen_probes db id =
      sorted (λ (a : FrozenProbe) (b : FrozenProbe). leb a.probe_index b.probe_index)
        (select_by (λ r. r.job_id == id) db.job_probes)

  abbrev pub indexes_from : ℕ → List FrozenProbe → Bool
  indexes_from n [] = true
  indexes_from n (r ∷ rs) = r.probe_index == n && indexes_from (n + 1) rs

  -- `_frozen_health_contract_drift`: whether there is a drift.
  unfoldable pub frozen_health_contract_drifts : Job → Tx Bool
  unfolding resource_health_contract select_by sorted
  frozen_health_contract_drifts job =
      if leb (checkpoint_rank mutation_may_have_started) (checkpoint_rank job.checkpoint)
      then pure false
      else (do
        contract ← resource_health_contract job.context.resource_id
        frozen ← gets (λ db. frozen_probes db job.job_id)
        when_null contract (pure true) (λ c. pure (
            not (
              c.revision == job.health_contract_revision
              && c.fingerprint == job.health_contract_fingerprint
              && length c.probes == job.health_contract_probe_count
              && indexes_from 0 frozen
              && same_probes (map (λ (r : FrozenProbe). (r.kind, r.target)) frozen) c.probes))))
