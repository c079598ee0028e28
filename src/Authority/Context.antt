-- ===== src/Authority/Context.antt =====
-- `_package_update_job_current_authority_detail` of `app/inventory/authority.py`: whether current
-- authority still permits a job to advance.
use hubinet_ops.Prelude.{
  Bool, true, false, not, ◌&&◌, ◌||◌, Option, none, some, ◌==◌, length, string_eq, nat_eq,
  if◌then◌else◌, Eq, dec_eq,
}
use hubinet_ops.Models.{active, status_eq}
use hubinet_ops.Authority.Result.{authority_conflict, authority_invariant}
use hubinet_ops.Authority.Platform.{Platform}
use hubinet_ops.Authority.Tables.{Time, Job, Scan}
use hubinet_ops.Authority.Tx.{Tx, ◌>>=◌, ◌>>◌, pure, raise, gets, ensure}
use hubinet_ops.Authority.Locator.{scan_context_is_current}
use hubinet_ops.Authority.Source.{source_context_is_current, materialize_due_expiry}
use hubinet_ops.Authority.Scans.{
  post_update_scan_is_pending, latest_scan_from, same_material_set, material_rows, same_context,
  successful_scan_fingerprint, scan_is_current_and_approvable, frozen_health_contract_drifts,
}
use hubinet_ops.Authority.Query.{is_just}

pub data AuthorityState : Type 0 where
  current stale temporarily_unavailable : AuthorityState

unfoldable pub AuthorityState-discrete : Discrete AuthorityState
AuthorityState-discrete = hlevel

instance abbrev pub state_eq : Eq AuthorityState
state_eq = dec_eq AuthorityState-discrete

-- What the proof found, and whether a reason comes with it. The text of the reason is left out:
-- callers ask whether there is one, and put it in a message.
pub record Finding : Type 0 where
  pub state : AuthorityState
  pub has_reason : Bool

abbrev is_current : Finding
is_current = record { state = current; has_reason = false }

abbrev is_stale : Bool → Finding
is_stale reason = record { state = stale; has_reason = reason }

abbrev is_unavailable : Finding
is_unavailable = record { state = temporarily_unavailable; has_reason = true }

module _ (p : Platform) where
  -- From the exact plan of the latest scan on.
  unfoldable pub plan_finding : Job → Scan → Tx Finding
  unfolding successful_scan_fingerprint frozen_health_contract_drifts same_material_set
      material_rows
  plan_finding job scan = do
    fingerprint ← successful_scan_fingerprint p scan
    if not (fingerprint == job.approved_plan_fingerprint) then pure (is_stale true) else (do
      scanned ← gets (λ db. material_rows db.scan_packages scan.scan_run_id)
      frozen ← gets (λ db. material_rows db.job_packages job.job_id)
      if length scanned == 0 || not (same_material_set scanned frozen)
          then pure (is_stale true)
          else (do
            drifts ← frozen_health_contract_drifts p job
            pure (if drifts then is_stale true else is_current)))

  -- From the latest package scan on.
  unfoldable pub scan_finding : Job → Option Scan → Tx Finding
  unfolding plan_finding scan_is_current_and_approvable
  scan_finding job none = pure (is_stale true)
  scan_finding job (some scan) =
      if scan.lifecycle == "running"
      then pure is_unavailable
      else if not (scan.lifecycle == "completed" && is_just scan.outcome "success")
      then pure (is_stale true)
      else (do
        approvable ← scan_is_current_and_approvable p scan
        if approvable && same_context scan.context job.context
            then plan_finding job scan
            else pure (is_stale true))

  -- From the resource and source contexts on.
  unfoldable pub context_finding : Job → Tx Finding
  unfolding scan_finding scan_context_is_current source_context_is_current
      post_update_scan_is_pending latest_scan_from
  context_finding job = do
    here ← gets (λ db. scan_context_is_current db job.context)
    source ← if here then source_context_is_current job.context else pure false
    if not source then pure (is_stale false) else (do
      pending ← gets (λ db. post_update_scan_is_pending db job.context.resource_id)
      latest ← gets (λ db. latest_scan_from none job.context.resource_id db.scans)
      if pending then pure is_unavailable else scan_finding job latest)

  -- `_package_update_job_current_authority_detail`
  unfoldable pub current_authority_detail : Time → Job → Tx Finding
  unfolding context_finding materialize_due_expiry
  current_authority_detail now job = do
    ensure (job.status == active) authority_conflict
    ensure (job.expected_resource_type == "lxc") authority_invariant
    _ ← materialize_due_expiry job.context.inventory_source_id now
    context_finding job

  -- `_package_update_job_authority_is_current`
  unfoldable pub authority_is_current : Time → Job → Tx Bool
  unfolding current_authority_detail
  authority_is_current now job = do
    found ← current_authority_detail now job
    if found.state == current
        then pure true
        else if found.has_reason
        then raise authority_conflict
        else pure false
