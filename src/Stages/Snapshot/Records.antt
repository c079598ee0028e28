-- ===== src/Stages/Snapshot/Records.antt =====
-- The host boundary of `app/package_update_snapshot.py`, and what the stage records of an answer:
-- `_read_inspection`, `_uncertain`, `_persist_known_task`, and the branches of `_apply_host_result`
-- for a task that failed or completed.
use hubinet_ops.Prelude.{
  ℕ, String, Bool, false, not, ◌&&◌, Option, none, some, List, ◌==◌, if◌then◌else◌, string_eq,
}
use hubinet_ops.Models.{
  active, status_eq, Checkpoint, checkpoint_eq, HostSubmissionState, submission_state_eq,
}
use hubinet_ops.Authority.Platform.{Platform}
use hubinet_ops.Authority.Identity.{SnapshotOwnership}
use hubinet_ops.Authority.Ownership.{ObservedSnapshot}
use hubinet_ops.Authority.Snapshot.{record_snapshot_task, confirm_snapshot}
use hubinet_ops.Authority.SnapshotRelease.{
  record_snapshot_uncertain, fail_snapshot, block_after_snapshot_success_with_stale_authority,
}
use hubinet_ops.Stages.Run.{
  Raised, authority, Reply, Environment, PackageUpdateJob, Stage, ◌>>=◌, ◌>>◌, pure, raise, attempt,
  on_conflict, calling, reading, asking, when_null, moving,
}
use hubinet_ops.Authority.Result.{is_authority_conflict}
use hubinet_ops.Stages.Reads.{stored_job, read_job, reason_or, ◌<>◌}
use hubinet_ops.Stages.Task.{
  OperationOutcome, TaskStatus, has_succeeded, HostTaskResult, Phases, unproven,
}

-- The keyword arguments of the host operations.
pub record SnapshotRequest : Type 0 where
  pub snapshot_operation_id : String
  pub snapshot_name : String
  pub vmid : ℕ
  pub expected_node : String
  pub ownership : SnapshotOwnership

abbrev pub HostSnapshotResult : Type 0
HostSnapshotResult = HostTaskResult HostSubmissionState

-- `PackageUpdateSnapshotHostControl`
pub record SnapshotHost (W : Type 0) : Type 0 where
  pub submit : SnapshotRequest → W → Reply HostSnapshotResult × W
  pub inspect_state : SnapshotRequest → W → Reply HostSnapshotResult × W
  pub seal : SnapshotRequest → W → Reply HostSnapshotResult × W

pub record SnapshotStageResult : Type 0 where
  pub outcome : OperationOutcome
  pub job : PackageUpdateJob
  pub reason : Option String

abbrev pub snapshot_phases : Phases HostSubmissionState
snapshot_phases = record {
  task_known = HostSubmissionState.task_known;
  is_task_known = λ s. s == HostSubmissionState.task_known;
  is_submitted = λ s. s == HostSubmissionState.submitted;
}

abbrev pub staged : OperationOutcome → PackageUpdateJob → Option String → SnapshotStageResult
staged outcome job reason = record { outcome = outcome; job = job; reason = reason }

-- `_validated`
unfoldable pub validated : HostSnapshotResult → String → HostSnapshotResult
validated result operation =
    if result.operation_id == operation
    then result
    else unproven operation "snapshot host operation answered a different operation"

-- `_read_inspection`
unfoldable pub read_inspection :
    {W : Type 0} → Environment W → SnapshotHost W → SnapshotRequest → Stage W HostSnapshotResult
unfolding validated
read_inspection env host request =
    attempt (asking (host.inspect_state request))
      (λ answer. pure (validated answer request.snapshot_operation_id))
      (λ e. pure (
        unproven request.snapshot_operation_id
          ("snapshot host inspection did not return an outcome: " <> env.name e)))

abbrev pub is_in_snapshot : PackageUpdateJob → Bool
is_in_snapshot j =
    j.row.status == active && j.row.checkpoint == Checkpoint.snapshot_may_have_started

module _ (p : Platform) {W : Type 0} (env : Environment W) where
  -- `_uncertain`
  unfoldable pub uncertain : String → String → Stage W SnapshotStageResult
  uncertain job_id reason =
      attempt
        (do
          clock ← moving env.clock
          calling (record_snapshot_uncertain p clock job_id (p.prefix 500 reason))
          reading (stored_job p job_id))
        (λ job. pure (staged OperationOutcome.uncertain job (some reason)))
        (λ e. on_conflict e (do
          job ← reading (read_job p job_id)
          if is_in_snapshot job
              then raise e
              else pure (
                  staged OperationOutcome.uncertain job (
                    some
                      "a concurrent invocation already resolved this job before this uncertainty could be durably recorded; the job's own current state is authoritative and was left untouched"))))

  -- `_persist_known_task`
  unfoldable pub persist_known_task : String → Option String → Stage W (Option SnapshotStageResult)
  unfolding uncertain
  persist_known_task job_id upid = when_null upid (pure none) (λ u.
      attempt
        (do
          clock ← moving env.clock
          calling (record_snapshot_task p clock job_id u)
          reading (stored_job p job_id))
        (λ job. pure none)
        (λ e. do
          result ← uncertain job_id "observed PVE snapshot task conflicts with the durable one"
          pure (some result)))

  -- The branch of `_apply_host_result` for a task that failed.
  unfoldable pub apply_failed : String → HostSnapshotResult → Stage W SnapshotStageResult
  unfolding uncertain
  apply_failed job_id result =
      when_null result.snapshots
        (uncertain job_id "snapshot task failed without canonical evidence of absence")
        (λ listing.
          attempt
            (do
              clock ← moving env.clock
              calling (
                  fail_snapshot p clock job_id (reason_or result.reason "PVE snapshot task failed")
                    listing)
              reading (stored_job p job_id))
            (λ job. pure (staged OperationOutcome.failed job result.reason))
            (λ e.
              uncertain job_id "snapshot task failed but canonical state does not prove absence"))

  abbrev pub confirm_once : String → List ObservedSnapshot → Stage W PackageUpdateJob
  confirm_once job_id listing = do
    clock ← moving env.clock
    calling (confirm_snapshot p clock job_id listing)
    reading (stored_job p job_id)

  -- Confirmation met an `AuthorityConflict`: the snapshot is retained where authority is stale, and
  -- confirmation is tried once more where it is not.
  unfoldable pub confirm_again : String → List ObservedSnapshot → Stage W SnapshotStageResult
  unfolding uncertain
  confirm_again job_id listing =
      attempt {A = Bool × PackageUpdateJob}
        (do
          clock ← moving env.clock
          blocked ←
              calling (block_after_snapshot_success_with_stale_authority p clock job_id listing)
          job ← reading (stored_job p job_id)
          pure (blocked, job))
        (λ answer.
          if answer.0
          then pure (
              staged OperationOutcome.completed answer.1 (
                some
                  "snapshot exists but current package authority became stale; retained but not authorized for rollback"))
          else attempt (confirm_once job_id listing)
              (λ job. pure (staged OperationOutcome.completed job none))
              (λ e. uncertain job_id (
                "canonical snapshot confirmation failed closed after authority became current: "
                <> env.name e)))
        (λ e. uncertain job_id ("canonical snapshot confirmation failed closed: " <> env.name e))

  -- `except AuthorityConflict`, then `except Exception`
  abbrev pub on_confirmation : String → List ObservedSnapshot → Raised → Stage W SnapshotStageResult
  on_confirmation job_id listing (authority e) =
      if is_authority_conflict e
      then confirm_again job_id listing
      else uncertain job_id
          ("canonical snapshot confirmation failed closed: " <> env.name (authority e))
  on_confirmation job_id listing e =
      uncertain job_id ("canonical snapshot confirmation failed closed: " <> env.name e)

  abbrev pub is_unsuccessful : Option TaskStatus → Bool
  is_unsuccessful none = false
  is_unsuccessful (some t) = not (has_succeeded t)

  -- The branch of `_apply_host_result` for a task that completed.
  unfoldable pub apply_completed : String → HostSnapshotResult → Stage W SnapshotStageResult
  unfolding confirm_again uncertain
  apply_completed job_id result =
      if is_unsuccessful result.task
      then uncertain job_id "snapshot operation reported completion without a successful task"
      else when_null result.snapshots
          (uncertain job_id "snapshot operation completed without a canonical listing")
          (λ listing.
            attempt (confirm_once job_id listing)
              (λ job. pure (staged OperationOutcome.completed job none))
              (on_confirmation job_id listing))
