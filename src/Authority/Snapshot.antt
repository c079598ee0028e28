-- ===== src/Authority/Snapshot.antt =====
-- The snapshot transitions of a job in `app/inventory/authority.py`, from its preflight to the
-- confirmed snapshot. A transition returns what it decides; the row it reads back afterwards is
-- the job in the tables that it leaves.
use hubinet_ops.Prelude.{
  String, Bool, true, false, ◌&&◌, some, List, [], ◌∷◌, ◌==◌, string_eq, if◌then◌else◌,
}
use hubinet_ops.Models.{
  active, status_eq, Checkpoint, checkpoint_eq, submission_state_eq, info, warning, EventType,
}
use hubinet_ops.Authority.Result.{Result, ok, err, authority_conflict, snapshot_submission_refused}
use hubinet_ops.Authority.Platform.{Platform}
use hubinet_ops.Authority.Checks.{require_uuid, require_pve_upid}
use hubinet_ops.Authority.Tables.{Job, Detail, Db}
use hubinet_ops.Authority.Query.{str_of}
use hubinet_ops.Authority.Tx.{
  Tx, ◌>>=◌, ◌>>◌, pure, lift, ensure, transaction, when_null, require_job_row, update_job,
  append_event, bump_published,
}
use hubinet_ops.Authority.Identity.{snapshot_identity, snapshot_ownership}
use hubinet_ops.Authority.Context.{authority_is_current}
use hubinet_ops.Authority.Rows.{
  is_null, active_at, set_preflight, set_snapshot_intent, set_snapshot_task, set_snapshot_confirmed,
}
use hubinet_ops.Authority.Host.{Clock, Host, submission}
use hubinet_ops.Authority.Ownership.{
  ObservedSnapshot, require_exactly_one_job_owned_snapshot, is_named,
}

-- What follows a transaction that kept its writes: a stale context is refused after the commit.
abbrev pub or_stale : Result Bool × Db → Result (Unit {0}) × Db
or_stale (ok true, db) = (ok tt, db)
or_stale (ok false, db) = (err authority_conflict, db)
or_stale (err e, db) = (err e, db)

module _ (p : Platform) where
  -- `record_package_update_preflight_passed`
  unfoldable pub record_preflight_passed : Clock → String → Db → Result (Unit {0}) × Db
  unfolding authority_is_current require_job_row update_job append_event bump_published
  record_preflight_passed clock job_id db = or_stale (
      transaction
        (do
          id ← lift (require_uuid p job_id)
          job ← require_job_row id
          holds ← authority_is_current p clock.decided_at job
          if holds
              then if job.checkpoint == Checkpoint.issued
                then (do
                  update_job id (active_at Checkpoint.issued) set_preflight
                  append_event p id clock.recorded_at info Checkpoint.preflight_passed
                      EventType.preflight_passed
                      "package update job preflight authority revalidated" []
                  bump_published clock.published_at
                  pure true)
                else (do
                  ensure (job.checkpoint == Checkpoint.preflight_passed) authority_conflict
                  pure true)
              else pure false)
        db)

  -- `_commit_snapshot_intent`
  unfoldable pub commit_snapshot_intent : Clock → String → String → String → Tx (Unit {0})
  commit_snapshot_intent clock id operation name = do
    update_job id (λ j. active_at Checkpoint.preflight_passed j && is_null j.snapshot_operation_id)
        (set_snapshot_intent operation name clock.recorded_at)
    append_event p id clock.recorded_at warning Checkpoint.snapshot_may_have_started
        EventType.snapshot_intent_recorded
        "pre-update snapshot operation may be submitted from here on"
        (("snapshot_operation_id", Detail.str operation) ∷ ("snapshot_name", Detail.str name) ∷ [])
    bump_published clock.published_at

  -- `record_package_update_snapshot_intent`
  unfoldable pub record_snapshot_intent : Clock → String → Db → Result (Unit {0}) × Db
  unfolding commit_snapshot_intent snapshot_identity
  record_snapshot_intent clock job_id db = or_stale (
      transaction
        (do
          id ← lift (require_uuid p job_id)
          job ← require_job_row id
          holds ← authority_is_current p clock.decided_at job
          if holds
              then (do
                identity ← snapshot_identity p job
                if job.checkpoint == Checkpoint.preflight_passed
                    then (do
                      commit_snapshot_intent clock id identity.snapshot_operation_id
                          identity.snapshot_name
                      pure true)
                    else (do
                      ensure (job.checkpoint == Checkpoint.snapshot_may_have_started)
                          authority_conflict
                      pure true))
              else pure false)
        db)

  -- The guards that the transitions inside a snapshot operation share.
  unfoldable pub require_snapshot_operation : String → Tx Job
  require_snapshot_operation job_id = do
    id ← lift (require_uuid p job_id)
    job ← require_job_row id
    ensure (job.status == active) authority_conflict
    ensure (job.checkpoint == Checkpoint.snapshot_may_have_started) authority_conflict
    pure job

  -- `execute_snapshot_submission_if_current`
  unfoldable pub execute_snapshot_submission_if_current :
      {W A : Type 0} → Clock → String → Host W A → Db → W → Result A × Db × W
  unfolding submission require_snapshot_operation
  execute_snapshot_submission_if_current clock job_id submit =
      submission
        (do job ← require_snapshot_operation job_id; authority_is_current p clock.decided_at job)
        snapshot_submission_refused submit

  -- `record_package_update_snapshot_task`
  unfoldable pub record_snapshot_task : Clock → String → String → Db → Result (Unit {0}) × Db
  unfolding require_snapshot_operation
  record_snapshot_task clock job_id task_upid = transaction (do
    upid ← lift (require_pve_upid p task_upid)
    job ← require_snapshot_operation job_id
    when_null job.snapshot_task_upid
        (do
          update_job job_id
              (λ j.
                active_at Checkpoint.snapshot_may_have_started j && is_null j.snapshot_task_upid)
              (set_snapshot_task upid)
          append_event p job_id clock.recorded_at info Checkpoint.snapshot_may_have_started
              EventType.snapshot_task_observed "observed the PVE task for this snapshot operation"
              (("snapshot_task_upid", Detail.str upid) ∷ []))
        (λ existing. ensure (existing == upid) authority_conflict))

  -- `confirm_package_update_snapshot`
  unfoldable pub confirm_snapshot :
      Clock → String → List ObservedSnapshot → Db → Result (Unit {0}) × Db
  unfolding snapshot_ownership
  confirm_snapshot clock job_id observed db = or_stale (
      transaction
        (do
          id ← lift (require_uuid p job_id)
          job ← require_job_row id
          holds ← authority_is_current p clock.decided_at job
          if holds
              then if job.checkpoint == Checkpoint.snapshot_may_have_started
                then (do
                  expected ← snapshot_ownership p job
                  _ ← lift (
                      require_exactly_one_job_owned_snapshot id (some (str_of job.snapshot_name))
                        observed expected)
                  update_job id
                      (λ j.
                        active_at Checkpoint.snapshot_may_have_started j
                        && is_null j.snapshot_confirmed_at
                        && is_named j.snapshot_name (str_of job.snapshot_name))
                      (set_snapshot_confirmed clock.recorded_at)
                  append_event p id clock.recorded_at info Checkpoint.snapshot_confirmed
                      EventType.snapshot_confirmed
                      "job-owned pre-update snapshot confirmed canonically"
                      (("snapshot_name", Detail.str (str_of job.snapshot_name)) ∷ [])
                  bump_published clock.published_at
                  pure true)
                else (do
                  ensure (job.checkpoint == Checkpoint.snapshot_confirmed) authority_conflict
                  pure true)
              else pure false)
        db)
