-- ===== src/Stages/Rollback/Records.antt =====
-- The host boundary of `app/package_update_rollback.py`, and what the stage records of an answer:
-- `_read_inspection`, `_uncertain`, `_persist_known_task`, and the branches of `_apply_host_result`
-- for a task that failed or completed.
use hubinet_ops.Prelude.{
  String, Bool, true, false, not, ◌&&◌, Option, none, some, ◌==◌, if◌then◌else◌, string_eq,
}
use hubinet_ops.Models.{
  active, status_eq, Checkpoint, checkpoint_eq, HostRollbackState, rollback_state_eq,
}
use hubinet_ops.Authority.Platform.{Platform}
use hubinet_ops.Authority.Rollback.{
  RollbackRequest, record_rollback_task, record_rollback_uncertain,
  record_rollback_terminal_failure,
}
use hubinet_ops.Authority.RollbackCompletion.{complete_rollback}
use hubinet_ops.Stages.Run.{
  Raised, authority, Reply, Environment, PackageUpdateJob, Stage, ◌>>=◌, ◌>>◌, pure, raise, attempt,
  on_conflict, calling, reading, asking, when_null, moving,
}
use hubinet_ops.Authority.Result.{is_authority_conflict}
use hubinet_ops.Stages.Reads.{stored_job, read_job, reason_or, ◌<>◌}
use hubinet_ops.Stages.Task.{
  OperationOutcome, TaskStatus, has_succeeded, HostTaskResult, Phases, unproven,
}

abbrev pub HostRollbackResult : Type 0
HostRollbackResult = HostTaskResult HostRollbackState

-- `PackageUpdateRollbackHostControl`
pub record RollbackHost (W : Type 0) : Type 0 where
  pub submit : RollbackRequest → W → Reply HostRollbackResult × W
  pub inspect_state : RollbackRequest → W → Reply HostRollbackResult × W
  pub seal : RollbackRequest → W → Reply HostRollbackResult × W

pub record RollbackStageResult : Type 0 where
  pub outcome : OperationOutcome
  pub job : PackageUpdateJob
  pub reason : Option String

abbrev pub rollback_phases : Phases HostRollbackState
rollback_phases = record {
  task_known = HostRollbackState.task_known;
  is_task_known = λ s. s == HostRollbackState.task_known;
  is_submitted = λ s. s == HostRollbackState.submitted;
}

abbrev pub staged : OperationOutcome → PackageUpdateJob → Option String → RollbackStageResult
staged outcome job reason = record { outcome = outcome; job = job; reason = reason }

-- `_validated`
unfoldable pub validated : HostRollbackResult → String → HostRollbackResult
validated result operation =
    if result.operation_id == operation
    then result
    else unproven operation "rollback host operation answered a different operation"

-- `_read_inspection`
unfoldable pub read_inspection :
    {W : Type 0} → Environment W → RollbackHost W → RollbackRequest → Stage W HostRollbackResult
unfolding validated
read_inspection env host request =
    attempt (asking (host.inspect_state request))
      (λ answer. pure (validated answer request.rollback_operation_id))
      (λ e. pure (
        unproven request.rollback_operation_id
          ("rollback host inspection did not return an outcome: " <> env.name e)))

abbrev pub is_in_rollback : PackageUpdateJob → Bool
is_in_rollback j =
    j.row.status == active && j.row.checkpoint == Checkpoint.rollback_may_have_started

module _ (p : Platform) {W : Type 0} (env : Environment W) where
  -- `_uncertain`
  unfoldable pub uncertain : String → String → Stage W RollbackStageResult
  uncertain job_id reason =
      attempt
        (do
          clock ← moving env.clock
          calling (record_rollback_uncertain p clock job_id (p.prefix 500 reason))
          reading (stored_job p job_id))
        (λ job. pure (staged OperationOutcome.uncertain job (some reason)))
        (λ e. on_conflict e (do
          job ← reading (read_job p job_id)
          if is_in_rollback job
              then raise e
              else pure (
                  staged OperationOutcome.uncertain job (
                    some
                      "a concurrent invocation already resolved this job before this uncertainty could be durably recorded; the job's own current state is authoritative and was left untouched"))))

  -- `_persist_known_task`
  unfoldable pub persist_known_task : String → Option String → Stage W (Option RollbackStageResult)
  unfolding uncertain
  persist_known_task job_id upid = when_null upid (pure none) (λ u.
      attempt
        (do
          clock ← moving env.clock
          calling (record_rollback_task p clock job_id u)
          reading (stored_job p job_id))
        (λ job. pure none)
        (λ e. do
          result ← uncertain job_id "observed PVE rollback task conflicts with the durable one"
          pure (some result)))

  -- The branch of `_apply_host_result` for a task that failed.
  unfoldable pub apply_failed : String → HostRollbackResult → Stage W RollbackStageResult
  apply_failed job_id result = do
    clock ← moving env.clock
    calling (
        record_rollback_terminal_failure p clock job_id
          (p.prefix 500 (reason_or result.reason "PVE rollback task failed")))
    job ← reading (stored_job p job_id)
    pure (staged OperationOutcome.failed job result.reason)

  -- `except AuthorityConflict`, then `except Exception`
  abbrev pub on_completion : String → Raised → Stage W RollbackStageResult
  on_completion job_id (authority e) = uncertain job_id (
      "canonical rollback completion failed closed: "
      <> (if is_authority_conflict e then env.text (authority e) else env.name (authority e)))
  on_completion job_id e =
      uncertain job_id ("canonical rollback completion failed closed: " <> env.name e)

  abbrev pub is_successful : Option TaskStatus → Bool
  is_successful none = false
  is_successful (some t) = has_succeeded t

  -- The branch of `_apply_host_result` for a task that completed.
  unfoldable pub apply_completed : String → HostRollbackResult → Stage W RollbackStageResult
  unfolding uncertain
  apply_completed job_id result =
      if not (is_successful result.task)
      then uncertain job_id
          "rollback operation reported completion without a successful terminal PVE task"
      else when_null result.snapshots
          (uncertain job_id "rollback operation completed without a canonical listing")
          (λ listing.
            attempt
              (do
                clock ← moving env.clock
                calling (complete_rollback p clock job_id listing true)
                reading (stored_job p job_id))
              (λ job. pure (staged OperationOutcome.completed job none)) (on_completion job_id))
