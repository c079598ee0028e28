-- ===== src/Stages/Worker/Cycle.antt =====
-- What one cycle of `app/package_update_worker.py` reports, the stages that it composes, and the
-- reasons for which it stops.
use hubinet_ops.Prelude.{String, Option, none, some, List, [], ◌∷◌}
use hubinet_ops.Models.{JobStatus, Checkpoint}
use hubinet_ops.Stages.Run.{Reply, PackageUpdateJob}
use hubinet_ops.Stages.Task.{OperationOutcome, TaskSettings}
use hubinet_ops.Stages.Snapshot.Records.{SnapshotHost}
use hubinet_ops.Stages.Execution.{ExecutionHost, ExecutionGateStatus}
use hubinet_ops.Stages.Mutation.Boundary.{
  MutationHost, MutationSettings, MutationStageStatus, Parsers,
}
use hubinet_ops.Stages.Health.{HealthHost, HealthStageStatus}
use hubinet_ops.Stages.Rollback.Records.{RollbackHost}

-- The arguments of the constructor of `PackageUpdateWorker`.
pub record WorkerStages (W : Type 0) : Type 0 where
  pub snapshot : SnapshotHost W
  pub snapshot_settings : TaskSettings
  pub execution : ExecutionHost W
  pub mutation : MutationHost W
  pub mutation_settings : MutationSettings
  pub rollback : RollbackHost W
  pub rollback_settings : TaskSettings
  pub health : HealthHost W
  pub parsers : Parsers
  -- `post_update_scan_wake`
  pub wake : Option (W → Reply (Unit {0}) × W)

pub data CycleStatus : Type 0 where
  idle terminal stopped busy error : CycleStatus

pub record WorkerCycle : Type 0 where
  pub status : CycleStatus
  pub job_id : Option String
  pub job_status : Option JobStatus
  pub checkpoint : Option Checkpoint
  pub stop_reason : Option String

-- `PACKAGE_UPDATE_WORKER_STOP_REASONS`
abbrev pub stop_reasons : List String
stop_reasons =
    "snapshot_failed" ∷ "snapshot_uncertain" ∷ "snapshot_not_submitted"
    ∷ "execution_plan_mismatched" ∷ "execution_authority_stale"
    ∷ "execution_authority_temporarily_unavailable" ∷ "execution_host_failure"
    ∷ "execution_job_not_ready" ∷ "mutation_running" ∷ "mutation_terminal_failure"
    ∷ "mutation_uncertain" ∷ "mutation_not_submitted" ∷ "mutation_mismatched"
    ∷ "mutation_authority_stale" ∷ "mutation_authority_temporarily_unavailable"
    ∷ "mutation_host_failure" ∷ "mutation_job_not_ready" ∷ "health_failed" ∷ "health_unknown"
    ∷ "rollback_failed" ∷ "rollback_uncertain" ∷ "rollback_not_submitted"
    ∷ "stage_precondition_changed" ∷ "no_automatic_continuation" ∷ []

abbrev pub cycle_of : CycleStatus → Option PackageUpdateJob → Option String → WorkerCycle
cycle_of status none reason = record {
  status = status;
  job_id = none;
  job_status = none;
  checkpoint = none;
  stop_reason = reason;
}
cycle_of status (some job) reason = record {
  status = status;
  job_id = some job.row.job_id;
  job_status = some job.row.status;
  checkpoint = some job.row.checkpoint;
  stop_reason = reason;
}

-- Why the worker stops after a stage; `none` where it goes on.
unfoldable pub snapshot_stop : OperationOutcome → Option String
snapshot_stop OperationOutcome.completed = none
snapshot_stop OperationOutcome.failed = some "snapshot_failed"
snapshot_stop OperationOutcome.uncertain = some "snapshot_uncertain"
snapshot_stop OperationOutcome.not_submitted = some "snapshot_not_submitted"

unfoldable pub gate_stop : ExecutionGateStatus → Option String
gate_stop ExecutionGateStatus.matched = none
gate_stop ExecutionGateStatus.mismatched = some "execution_plan_mismatched"
gate_stop ExecutionGateStatus.authority_stale = some "execution_authority_stale"
gate_stop ExecutionGateStatus.authority_temporarily_unavailable =
    some "execution_authority_temporarily_unavailable"
gate_stop ExecutionGateStatus.host_failure = some "execution_host_failure"
gate_stop ExecutionGateStatus.job_not_ready = some "execution_job_not_ready"

unfoldable pub mutation_stop : MutationStageStatus → Option String
mutation_stop MutationStageStatus.completed = none
mutation_stop MutationStageStatus.running = some "mutation_running"
mutation_stop MutationStageStatus.terminal_failure = some "mutation_terminal_failure"
mutation_stop MutationStageStatus.uncertain = some "mutation_uncertain"
mutation_stop MutationStageStatus.not_submitted = some "mutation_not_submitted"
mutation_stop MutationStageStatus.mismatched = some "mutation_mismatched"
mutation_stop MutationStageStatus.authority_stale = some "mutation_authority_stale"
mutation_stop MutationStageStatus.authority_temporarily_unavailable =
    some "mutation_authority_temporarily_unavailable"
mutation_stop MutationStageStatus.host_failure = some "mutation_host_failure"
mutation_stop MutationStageStatus.job_not_ready = some "mutation_job_not_ready"

unfoldable pub health_stop : HealthStageStatus → Option String
health_stop HealthStageStatus.passed = none
health_stop HealthStageStatus.failed = some "health_failed"
health_stop HealthStageStatus.unknown = some "health_unknown"

unfoldable pub rollback_stop : OperationOutcome → Option String
rollback_stop OperationOutcome.completed = none
rollback_stop OperationOutcome.failed = some "rollback_failed"
rollback_stop OperationOutcome.uncertain = some "rollback_uncertain"
rollback_stop OperationOutcome.not_submitted = some "rollback_not_submitted"
