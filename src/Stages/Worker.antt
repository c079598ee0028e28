-- ===== src/Stages/Worker.antt =====
-- `app/package_update_worker.py`: one cycle of the worker, which reads the one active job and composes
-- the stages for it until it stops advancing. The thread and its events are left out: a cycle is what
-- a wake runs. `drive` recurs on the transitions that are left, ten at the start as in the code.
pub mod Cycle
pub mod Calls
pub mod Bound
pub mod Safety
pub mod Keeps
use Cycle.{
  WorkerStages, WorkerCycle, CycleStatus, stop_reasons, cycle_of, snapshot_stop, gate_stop,
  mutation_stop, health_stop, rollback_stop,
}
use hubinet_ops.Prelude.{
  ℕ, zero, suc, ◌≤◌, String, Bool, true, false, not, ◌&&◌, ◌||◌, Option, none, some, List, [], ◌∷◌,
  ◌==◌, leb, length, any_of, if◌then◌else◌, string_eq,
}
use hubinet_ops.Models.{
  active, succeeded, status_eq, Checkpoint, checkpoint_eq, checkpoint_rank, checkpoint_order,
}
use hubinet_ops.Authority.Result.{authority_not_found, is_authority_conflict}
use hubinet_ops.Authority.Platform.{Platform}
use hubinet_ops.Stages.Run.{
  Raised, authority, fault, snapshot_error, mutation_error, rollback_error, health_error, assertion,
  stop_iteration, out_of_fuel, Environment, PackageUpdateJob, Stage, ◌>>=◌, ◌>>◌, pure, raise,
  attempt, reading, asking, when_null,
}
use hubinet_ops.Stages.Reads.{read_job, read_active_job}
use hubinet_ops.Stages.Task.{OperationOutcome}
use hubinet_ops.Stages.Snapshot.Records.{SnapshotStageResult}
use hubinet_ops.Stages.Snapshot.{ensure_job_owned_snapshot}
use hubinet_ops.Stages.Execution.{ExecutionGateOutcome, ExecutionGateStatus, run_execution_gate}
use hubinet_ops.Stages.Mutation.Boundary.{MutationStageResult, MutationStageStatus}
use hubinet_ops.Stages.Mutation.Recovery.{recover_job_owned_mutation}
use hubinet_ops.Stages.Mutation.{execute_job_owned_mutation}
use hubinet_ops.Stages.Health.{HealthStageResult, HealthStageStatus, evaluate_job_health}
use hubinet_ops.Stages.Rollback.Records.{RollbackStageResult}
use hubinet_ops.Stages.Rollback.{roll_back_to_job_snapshot}

-- `_MAX_STAGE_TRANSITIONS_PER_CYCLE`
abbrev pub max_stage_transitions : ℕ
max_stage_transitions = length checkpoint_order

abbrev pub or_job : Option PackageUpdateJob → PackageUpdateJob → PackageUpdateJob
or_job none job = job
or_job (some j) job = j

module _ (p : Platform) {W : Type 0} (env : Environment W) (stages : WorkerStages W) where
  -- `_stopped`
  unfoldable pub stopped : Option PackageUpdateJob → String → Stage W WorkerCycle
  stopped job reason =
      if any_of (λ r. r == reason) stop_reasons
      then pure (cycle_of CycleStatus.stopped job (some reason))
      else raise assertion

  abbrev pub keep_on_missing : PackageUpdateJob → Raised → Stage W PackageUpdateJob
  keep_on_missing job (authority authority_not_found) = pure job
  keep_on_missing job e = raise e

  -- `_reread` of a job, and of no job.
  unfoldable pub reread : PackageUpdateJob → Stage W PackageUpdateJob
  reread job = attempt (reading (read_job p job.row.job_id)) pure (keep_on_missing job)

  unfoldable pub reread_any : Option PackageUpdateJob → Stage W (Option PackageUpdateJob)
  unfolding reread
  reread_any none = pure none
  reread_any (some job) = do found ← reread job; pure (some found)

  -- `_terminal`. A failing wake is logged and otherwise ignored.
  unfoldable pub terminal : PackageUpdateJob → Stage W WorkerCycle
  terminal job =
      if not (job.row.status == succeeded)
      then pure (cycle_of CycleStatus.terminal (some job) none)
      else when_null stages.wake (pure (cycle_of CycleStatus.terminal (some job) none)) (λ wake.
        attempt (asking wake) (λ u. pure (cycle_of CycleStatus.terminal (some job) none))
          (λ e. pure (cycle_of CycleStatus.terminal (some job) none)))

  abbrev pub stop_after : PackageUpdateJob → String → Stage W (Option WorkerCycle)
  stop_after job reason = do
    found ← reread job
    cycle ← stopped (some found) reason
    pure (some cycle)

  abbrev pub stop_or_advance : PackageUpdateJob → Option String → Stage W (Option WorkerCycle)
  stop_or_advance job reason = when_null reason (pure none) (stop_after job)

  -- `_run_snapshot`
  unfoldable pub run_snapshot : PackageUpdateJob → Stage W (Option WorkerCycle)
  unfolding reread stopped
  run_snapshot job = do
    result ← ensure_job_owned_snapshot p env stages.snapshot stages.snapshot_settings job.row.job_id
    stop_or_advance result.job (snapshot_stop result.outcome)

  -- `_after_mutation`
  unfoldable pub after_mutation :
      PackageUpdateJob → MutationStageResult → Stage W (Option WorkerCycle)
  unfolding reread stopped
  after_mutation job result = stop_or_advance (or_job result.job job) (mutation_stop result.status)

  abbrev pub stop_any : Option PackageUpdateJob → String → Stage W (Option WorkerCycle)
  stop_any job reason = do found ← reread_any job; cycle ← stopped found reason; pure (some cycle)

  -- `_run_execution_gate_then_mutation`
  unfoldable pub run_gate_then_mutation : PackageUpdateJob → Stage W (Option WorkerCycle)
  unfolding after_mutation reread_any stopped
  run_gate_then_mutation job = do
    gate ← run_execution_gate p env stages.execution stages.parsers job.row.job_id
    when_null (gate_stop gate.status)
        (do
          result ←
              execute_job_owned_mutation p env stages.mutation stages.parsers
                stages.mutation_settings job.row.job_id
          after_mutation job result)
        (stop_any gate.job)

  -- `_run_mutation_recovery`
  unfoldable pub run_mutation_recovery : PackageUpdateJob → Stage W (Option WorkerCycle)
  unfolding after_mutation
  run_mutation_recovery job = do
    result ←
        recover_job_owned_mutation p env stages.mutation stages.parsers stages.mutation_settings
          job.row.job_id
    after_mutation job result

  -- `_run_health`
  unfoldable pub run_health : PackageUpdateJob → Stage W (Option WorkerCycle)
  unfolding reread stopped
  run_health job = do
    result ← evaluate_job_health p env stages.health job.row.job_id
    stop_or_advance result.job (health_stop result.status)

  -- `_run_rollback`, of a job at its rollback boundary.
  unfoldable pub run_rollback : PackageUpdateJob → Stage W (Option WorkerCycle)
  unfolding reread stopped terminal
  run_rollback job = do
    result ←
        roll_back_to_job_snapshot p env stages.rollback stages.rollback_settings job.row.job_id []
    when_null (rollback_stop result.outcome)
        (do found ← reread result.job; cycle ← terminal found; pure (some cycle))
        (stop_after result.job)

  abbrev pub stop_here : PackageUpdateJob → String → Stage W (Option WorkerCycle)
  stop_here job reason = do cycle ← stopped (some job) reason; pure (some cycle)

  -- `_step`, by the checkpoint.
  unfoldable pub step_at : PackageUpdateJob → Checkpoint → Stage W (Option WorkerCycle)
  unfolding run_snapshot run_gate_then_mutation run_mutation_recovery run_health run_rollback
      stopped
  step_at job Checkpoint.issued = run_snapshot job
  step_at job Checkpoint.preflight_passed = run_snapshot job
  step_at job Checkpoint.snapshot_may_have_started = run_snapshot job
  step_at job Checkpoint.snapshot_confirmed = run_gate_then_mutation job
  step_at job Checkpoint.mutation_may_have_started = run_mutation_recovery job
  step_at job Checkpoint.mutation_completed = run_health job
  step_at job Checkpoint.health_started = run_health job
  step_at job Checkpoint.health_completed = stop_here job "health_failed"
  step_at job Checkpoint.rollback_may_have_started = run_rollback job
  step_at job Checkpoint.rollback_completed = stop_here job "no_automatic_continuation"

  -- The `except` clause around `_step`.
  abbrev pub on_moved : PackageUpdateJob → Stage W WorkerCycle
  on_moved job = do found ← reread job; stopped (some found) "stage_precondition_changed"

  abbrev pub on_step : PackageUpdateJob → Raised → Stage W WorkerCycle
  on_step job snapshot_error = on_moved job
  on_step job mutation_error = on_moved job
  on_step job rollback_error = on_moved job
  on_step job (health_error reason) = on_moved job
  on_step job (authority e) = if is_authority_conflict e then on_moved job else raise (authority e)
  on_step job e = raise e

  abbrev pub not_after : ℕ → Option ℕ → Bool
  not_after rank none = false
  not_after rank (some previous) = leb rank previous

  -- The body of the loop for a job that was read; `again` is the rest of the loop.
  unfoldable pub visit : Option ℕ → Stage W WorkerCycle → PackageUpdateJob → Stage W WorkerCycle
  unfolding terminal stopped step_at reread
  visit previous again job =
      if not (job.row.status == active)
      then terminal job
      else if not_after (checkpoint_rank job.row.checkpoint) previous
      then stopped (some job) "no_automatic_continuation"
      else attempt (step_at job job.row.checkpoint) (λ outcome. when_null outcome again pure)
          (on_step job)

  -- `except AuthorityNotFound`
  abbrev pub on_gone : String → Raised → Stage W WorkerCycle
  on_gone job_id (authority authority_not_found) = pure (record {
    status = CycleStatus.idle;
    job_id = some job_id;
    job_status = none;
    checkpoint = none;
    stop_reason = none;
  })
  on_gone job_id e = raise e

  -- The loop of `_drive`, with the number of transitions that are left.
  unfoldable pub drive : ℕ → Option ℕ → String → Stage W WorkerCycle
  unfolding visit reread stopped
  drive zero previous job_id = do
    job ← reading (read_job p job_id)
    found ← reread job
    stopped (some found) "no_automatic_continuation"
  drive (suc left) previous job_id =
      attempt (reading (read_job p job_id))
        (λ job. visit previous (drive left (some (checkpoint_rank job.row.checkpoint)) job_id) job)
        (on_gone job_id)

  -- The error boundary of `run_once`. What the model adds, `out_of_fuel`, is no exception.
  abbrev pub on_drive : String → Raised → Stage W WorkerCycle
  on_drive job_id out_of_fuel = raise out_of_fuel
  on_drive job_id e = pure (record {
    status = CycleStatus.error;
    job_id = some job_id;
    job_status = none;
    checkpoint = none;
    stop_reason = none;
  })

  -- `run_once`, of a worker whose lock is free or held.
  unfoldable pub run_once : Bool → Stage W WorkerCycle
  unfolding drive
  run_once true = pure (cycle_of CycleStatus.busy none none)
  run_once false = do
    found ← reading (read_active_job p)
    when_null found (pure (cycle_of CycleStatus.idle none none)) (λ job.
        attempt (drive max_stage_transitions none job.row.job_id) pure (on_drive job.row.job_id))
