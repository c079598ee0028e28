-- ===== src/Authority/Gate.antt =====
-- The execution-time plan gate of `app/inventory/authority.py`: a job with its confirmed snapshot is
-- compared with a fresh plan, and released where authority is stale or the plan differs.
use hubinet_ops.Prelude.{
  String, Bool, true, false, not, ◌&&◌, List, [], ◌∷◌, ◌==◌, length, ltb, string_eq, if◌then◌else◌,
}
use hubinet_ops.Models.{
  active, blocked, status_eq, Checkpoint, checkpoint_eq, info, warning, error, EventType,
  EventLevel, ExecutionOutcome,
}
use hubinet_ops.Authority.Result.{Result, authority_conflict, temporarily_unavailable}
use hubinet_ops.Authority.Platform.{Platform}
use hubinet_ops.Authority.Checks.{require_uuid}
use hubinet_ops.Authority.Tables.{Job, Material, PackageRow, Detail, Db}
use hubinet_ops.Authority.Tx.{
  Tx, ◌>>=◌, ◌>>◌, pure, raise, lift, gets, ensure, transaction, require_job_row, update_job,
  append_event, bump_published,
}
use hubinet_ops.Authority.Plans.{validate_package_plan}
use hubinet_ops.Authority.Scans.{same_material_set, material_rows}
use hubinet_ops.Authority.Context.{
  current, temporarily_unavailable as unavailable, state_eq, current_authority_detail,
}
use hubinet_ops.Authority.Rows.{active_at, terminalize}
use hubinet_ops.Authority.Host.{Clock}

module _ (p : Platform) where
  -- `_require_active_execution_gate_job`
  unfoldable pub require_active_execution_gate_job : Job → Tx (Unit {0})
  require_active_execution_gate_job job = do
    ensure (job.status == active) authority_conflict
    ensure (job.checkpoint == Checkpoint.snapshot_confirmed) authority_conflict

  -- `UPDATE ... SET status='blocked'` with its event, for a job at its confirmed snapshot.
  unfoldable pub release_gate_job :
      Clock → String → EventLevel → EventType → String → List (String × Detail) → Tx (Unit {0})
  release_gate_job clock id level event reason details = do
    update_job id (active_at Checkpoint.snapshot_confirmed)
        (terminalize blocked clock.recorded_at reason)
    append_event p id clock.recorded_at level Checkpoint.snapshot_confirmed event reason details
    bump_published clock.published_at

  abbrev pub stale_reason : Bool → String
  stale_reason true =
      "package update job's current resource/source/approval authority became stale before package mutation (plan); retained but released for a fresh plan and job"
  stale_reason false =
      "package update job's current resource/source/approval authority became stale before package mutation; retained but released for a fresh plan and job"

  -- `_terminalize_execution_gate_job_if_authority_stale`
  unfoldable pub terminalize_if_stale : Clock → Job → Tx Bool
  unfolding release_gate_job current_authority_detail
  terminalize_if_stale clock job = do
    found ← current_authority_detail p clock.decided_at job
    if found.state == current
        then pure false
        else if found.state == unavailable
        then raise temporarily_unavailable
        else (do
          release_gate_job clock job.job_id warning EventType.execution_authority_stale_released
              (stale_reason found.has_reason) []
          pure true)

  -- `revalidate_or_release_stale_package_update_execution`
  unfoldable pub revalidate_or_release : Clock → String → Db → Result Bool × Db
  unfolding require_active_execution_gate_job terminalize_if_stale
  revalidate_or_release clock job_id = transaction (do
    id ← lift (require_uuid p job_id)
    job ← require_job_row id
    require_active_execution_gate_job job
    released ← terminalize_if_stale clock job
    pure (not released))

  -- `job_material and job_material == fresh_material`
  abbrev pub plan_matches : List Material → List Material → Bool
  plan_matches frozen fresh = ltb 0 (length frozen) && same_material_set frozen fresh

  -- The branch of a plan that differs, which the gate and the arming share.
  unfoldable pub mismatch : Clock → String → List Material → List Material → Tx ExecutionOutcome
  unfolding release_gate_job
  mismatch clock id frozen fresh = do
    release_gate_job clock id error EventType.execution_plan_mismatch
        "fresh execution-time APT simulation no longer exactly matches this job's frozen approved material"
        (("job_package_count", Detail.number (length frozen))
          ∷ ("fresh_package_count", Detail.number (length fresh))
          ∷ [])
    pure ExecutionOutcome.mismatched

  -- `evaluate_package_update_execution_plan`
  unfoldable pub evaluate_execution_plan :
      Clock → String → List PackageRow → Db → Result ExecutionOutcome × Db
  unfolding require_active_execution_gate_job terminalize_if_stale mismatch same_material_set
      material_rows validate_package_plan
  evaluate_execution_plan clock job_id packages = transaction (do
    id ← lift (require_uuid p job_id)
    fresh ← lift (validate_package_plan p packages)
    job ← require_job_row id
    require_active_execution_gate_job job
    released ← terminalize_if_stale clock job
    if released then pure ExecutionOutcome.authority_stale else (do
      frozen ← gets (λ db. material_rows db.job_packages id)
      if plan_matches frozen fresh
          then (do
            append_event p id clock.recorded_at info Checkpoint.snapshot_confirmed
                EventType.execution_plan_verified
                "fresh execution-time APT simulation exactly matched this job's frozen approved material"
                (("package_count", Detail.number (length frozen)) ∷ [])
            pure ExecutionOutcome.matched)
          else mismatch clock id frozen fresh))
