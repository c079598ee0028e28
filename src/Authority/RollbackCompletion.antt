-- ===== src/Authority/RollbackCompletion.antt =====
-- The two ways out of an armed rollback in `app/inventory/authority.py`: its proven completion, and
-- its release where the host never submitted it.
use hubinet_ops.Prelude.{String, Bool, true, ◌&&◌, List, [], ◌∷◌, ◌==◌, some, if◌then◌else◌}
use hubinet_ops.Models.{
  blocked, rolled_back, status_eq, Checkpoint, checkpoint_eq, HostRollbackState, rollback_state_eq,
  warning, EventType,
}
use hubinet_ops.Authority.Result.{Result, authority_conflict, authority_invariant}
use hubinet_ops.Authority.Platform.{Platform}
use hubinet_ops.Authority.Checks.{require_uuid, require_text}
use hubinet_ops.Authority.Tables.{Job, Detail, Db}
use hubinet_ops.Authority.Query.{is_some, str_of}
use hubinet_ops.Authority.Tx.{
  Tx, ◌>>=◌, ◌>>◌, pure, lift, ensure, transaction, require_job_row, update_job, append_event,
  bump_published,
}
use hubinet_ops.Authority.Identity.{snapshot_ownership, rollback_identity}
use hubinet_ops.Authority.Rows.{is_null, active_at, terminalize, set_rolled_back}
use hubinet_ops.Authority.Host.{Clock, Host, Sealed, release}
use hubinet_ops.Authority.Ownership.{
  ObservedSnapshot, require_exactly_one_job_owned_snapshot, require_current_parent_is,
}
use hubinet_ops.Authority.Rollback.{require_armed_rollback}

module _ (p : Platform) where
  -- `resolve_pre_rollback_block` over `_commit_pre_rollback_block`
  unfoldable pub resolve_pre_rollback_block :
      {W A : Type 0}
      → Clock
      → String
      → Host W (Sealed HostRollbackState A)
      → Db
      → W
      → Result (Bool × A) × Db × W
  unfolding release require_armed_rollback
  resolve_pre_rollback_block clock job_id =
      release
        (do
          job ← require_armed_rollback p job_id
          ensure (is_null job.rollback_completed_at) authority_invariant
          ensure (is_null job.rollback_task_upid) authority_conflict)
        (λ s. s == HostRollbackState.sealed_not_submitted)
        (λ reason. do
          bounded ← lift (require_text p reason 500)
          update_job job_id
              (λ j.
                active_at Checkpoint.rollback_may_have_started j
                && is_null j.rollback_completed_at
                && is_null j.rollback_task_upid)
              (terminalize blocked clock.recorded_at bounded)
          append_event p job_id clock.recorded_at warning Checkpoint.rollback_may_have_started
              EventType.rollback_blocked_before_submission bounded []
          bump_published clock.published_at)

  abbrev pub may_complete_rollback : Job → Bool
  may_complete_rollback j =
      active_at Checkpoint.rollback_may_have_started j
      && is_null j.rollback_completed_at
      && is_some j.rollback_task_upid

  -- The branch of a job that is not rolled back yet.
  unfoldable pub complete_armed_rollback :
      Clock → String → List ObservedSnapshot → Bool → Tx (Unit {0})
  unfolding require_armed_rollback rollback_identity snapshot_ownership
  complete_armed_rollback clock id observed task_succeeded = do
    job ← require_armed_rollback p id
    _ ← rollback_identity p job
    ensure task_succeeded authority_conflict
    ensure (is_some job.rollback_task_upid) authority_conflict
    expected ← snapshot_ownership p job
    _ ← lift (
        require_exactly_one_job_owned_snapshot id (some (str_of job.snapshot_name)) observed
          expected)
    lift (require_current_parent_is observed (str_of job.snapshot_name))
    update_job id may_complete_rollback (
        set_rolled_back clock.recorded_at
          "same-job rollback to this job's own confirmed pre-update snapshot completed; the guest is stopped")
    append_event p id clock.recorded_at warning Checkpoint.rollback_completed
        EventType.rollback_completed
        "terminal non-error PVE task and fresh canonical evidence prove this job rolled back to its own snapshot"
        (("snapshot_name", Detail.str (str_of job.snapshot_name))
          ∷ ("rollback_task_upid", Detail.str (str_of job.rollback_task_upid))
          ∷ ("mutation_was_proven_complete", Detail.flag (is_some job.mutation_completed_at))
          ∷ ("guest_left_stopped", Detail.flag true)
          ∷ [])
    bump_published clock.published_at

  -- `complete_package_update_rollback`
  unfoldable pub complete_rollback :
      Clock → String → List ObservedSnapshot → Bool → Db → Result (Unit {0}) × Db
  unfolding complete_armed_rollback rollback_identity
  complete_rollback clock job_id observed task_succeeded = transaction (do
    id ← lift (require_uuid p job_id)
    job ← require_job_row id
    if job.status == rolled_back && is_some job.rollback_completed_at
        then (do _ ← rollback_identity p job; pure tt)
        else complete_armed_rollback clock id observed task_succeeded)
