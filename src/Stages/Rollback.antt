-- ===== src/Stages/Rollback.antt =====
-- `app/package_update_rollback.py`: the stage that takes a job back to its own snapshot. The host is
-- a parameter.
pub mod Records
pub mod Calls
pub mod Bound
use Records.{
  HostRollbackResult, RollbackHost, RollbackStageResult, rollback_phases, staged, validated,
  read_inspection, uncertain, persist_known_task, apply_completed, apply_failed,
}
use hubinet_ops.Prelude.{
  String, Bool, true, false, not, Option, none, some, List, ◌==◌, ltb, if◌then◌else◌, string_eq,
  nat_eq,
}
use hubinet_ops.Models.{
  active, status_eq, Checkpoint, checkpoint_eq, checkpoint_rank, HostRollbackState,
  rollback_state_eq,
}
use hubinet_ops.Authority.Result.{Result, ok, rollback_submission_refused}
use hubinet_ops.Authority.Platform.{Platform}
use hubinet_ops.Authority.Host.{Host, Sealed}
use hubinet_ops.Authority.Ownership.{ObservedSnapshot}
use hubinet_ops.Authority.Rows.{is_rollback_eligible}
use hubinet_ops.Authority.Rollback.{
  RollbackRequest, rollback_request, arm_rollback, execute_rollback_submission_if_current,
}
use hubinet_ops.Authority.RollbackCompletion.{resolve_pre_rollback_block}
use hubinet_ops.Stages.Run.{
  Raised, authority, fault, rollback_error, Reply, answered, failed, Environment, PackageUpdateJob,
  Stage, ◌>>=◌, ◌>>◌, pure, raise, attempt, calling, hosted, reading, when_null, as_callback,
  moving,
}
use hubinet_ops.Stages.Reads.{stored_job, read_job, reason_or, ◌<>◌}
use hubinet_ops.Stages.Task.{
  OperationOutcome, outcome_eq, HostTaskResult, TaskSettings, unproven, poll_until_resolved,
}

abbrev pub is_sealed : Option HostRollbackState → Bool
is_sealed (some HostRollbackState.sealed_not_submitted) = true
is_sealed _ = false

abbrev pub is_submission_permitted : Option HostRollbackState → Bool
is_submission_permitted (some HostRollbackState.absent) = true
is_submission_permitted (some HostRollbackState.intent) = true
is_submission_permitted _ = false

module _ (p : Platform) {W : Type 0} (env : Environment W) (host : RollbackHost W)
    (settings : TaskSettings) where
  -- The branches of `_apply_host_result`, by the outcome. `block` is the seal where it is allowed.
  unfoldable pub apply_outcome :
      Option (Stage W RollbackStageResult)
      → PackageUpdateJob
      → HostRollbackResult
      → OperationOutcome
      → Stage W RollbackStageResult
  unfolding apply_failed apply_completed
  apply_outcome none job result OperationOutcome.not_submitted =
      uncertain p env job.row.job_id
        (reason_or result.reason "rollback operation was not durably sealed before submission")
  apply_outcome (some block) job result OperationOutcome.not_submitted = block
  apply_outcome block job result OperationOutcome.uncertain =
      uncertain p env job.row.job_id
        (reason_or result.reason "rollback operation outcome is uncertain")
  apply_outcome block job result OperationOutcome.failed = apply_failed p env job.row.job_id result
  apply_outcome block job result OperationOutcome.completed =
      apply_completed p env job.row.job_id result

  -- `_apply_host_result`
  unfoldable pub apply_host_result :
      Option (Stage W RollbackStageResult)
      → PackageUpdateJob
      → RollbackRequest
      → HostRollbackResult
      → Stage W RollbackStageResult
  unfolding apply_outcome persist_known_task
  apply_host_result block job request result =
      if not (result.operation_id == request.rollback_operation_id)
      then uncertain p env job.row.job_id "rollback host operation answered a different operation"
      else (do
        conflict ← persist_known_task p env job.row.job_id result.task_upid
        when_null conflict (apply_outcome block job result result.outcome) pure)

  -- `_finish`
  unfoldable pub finish :
      Option (Stage W RollbackStageResult)
      → PackageUpdateJob
      → RollbackRequest
      → HostRollbackResult
      → Stage W RollbackStageResult
  unfolding apply_host_result persist_known_task read_inspection
  finish block job request result = do
    early ← persist_known_task p env job.row.job_id result.task_upid
    when_null early
        (do
          polled ←
              poll_until_resolved rollback_phases env (read_inspection env host request) settings
                job.row.rollback_task_upid result
          apply_host_result block job request polled)
        pure

  abbrev pub seal_reason : Bool → String
  seal_reason true = "host durably sealed this rollback operation before submission"
  seal_reason false = "host did not durably seal this rollback operation before submission"

  abbrev pub sealed_answer : HostRollbackResult → Sealed HostRollbackState HostRollbackResult
  sealed_answer fresh = record {
    state = fresh.state;
    reason = seal_reason (is_sealed fresh.state);
    evidence = fresh;
  }

  abbrev pub of_seal_reply :
      String
      → Reply HostRollbackResult × W
      → Result (Sealed HostRollbackState HostRollbackResult) × W
  of_seal_reply operation (answered a, w) = (ok (sealed_answer (validated a operation)), w)
  of_seal_reply operation (failed f, w) = (
    ok (
        sealed_answer (
          unproven operation
            ("rollback host seal did not return an outcome: " <> env.name (fault f)))),
    w,
  )

  -- The callback `_seal`
  unfoldable pub seal : RollbackRequest → Host W (Sealed HostRollbackState HostRollbackResult)
  unfolding validated
  seal request w = of_seal_reply request.rollback_operation_id (host.seal request w)

  -- `_resolve_pre_rollback_block`
  unfoldable pub resolve_block : PackageUpdateJob → RollbackRequest → Stage W RollbackStageResult
  unfolding finish seal
  resolve_block job request =
      attempt
        (do
          clock ← moving env.clock
          hosted (resolve_pre_rollback_block p clock job.row.job_id (seal request)))
        (λ answer.
          if answer.0
          then (do
            updated ← reading (read_job p job.row.job_id)
            pure (staged OperationOutcome.not_submitted updated answer.1.reason))
          else finish none job request answer.1)
        (λ e.
          uncertain p env job.row.job_id
            "a durable host seal proved this rollback was never submitted, but durable job state contradicts it")

  abbrev pub on_submission :
      PackageUpdateJob → RollbackRequest → Raised → Stage W RollbackStageResult
  on_submission job request (authority rollback_submission_refused) = resolve_block job request
  on_submission job request e =
      uncertain p env job.row.job_id
        ("rollback host submission did not return an outcome: " <> env.name e)

  -- Step C of `roll_back_to_job_snapshot`: the only branch that may submit.
  unfoldable pub submit : PackageUpdateJob → RollbackRequest → Stage W RollbackStageResult
  unfolding finish resolve_block validated
  submit job request =
      attempt
        (hosted (
          execute_rollback_submission_if_current p job.row.job_id
            (as_callback (host.submit request))))
        (λ answer.
          finish (some (resolve_block job request)) job request
            (validated answer request.rollback_operation_id))
        (on_submission job request)

  -- What follows the first inspection.
  unfoldable pub after_inspection :
      PackageUpdateJob → RollbackRequest → HostRollbackResult → Stage W RollbackStageResult
  unfolding submit finish resolve_block
  after_inspection job request result =
      if is_sealed result.state
      then resolve_block job request
      else if result.outcome == OperationOutcome.not_submitted
      then resolve_block job request
      else if is_submission_permitted result.state
      then submit job request
      else finish (some (resolve_block job request)) job request result

  -- The part of `roll_back_to_job_snapshot` that follows the arming.
  unfoldable pub drive_rollback : PackageUpdateJob → Stage W RollbackStageResult
  unfolding after_inspection read_inspection rollback_request
  drive_rollback job = do
    request ← reading (rollback_request p job.row.job_id)
    result ← read_inspection env host request
    after_inspection job request result

  -- `except RollbackSubmissionRefusedBeforeCallback`, where nothing durable exists yet.
  abbrev pub on_arming : String → Raised → Stage W RollbackStageResult
  on_arming job_id (authority rollback_submission_refused) = do
    job ← reading (read_job p job_id)
    pure (
        staged OperationOutcome.not_submitted job
          (some (env.text (authority rollback_submission_refused))))
  on_arming job_id e = raise e

  -- Step A of `roll_back_to_job_snapshot`, and what follows it.
  unfoldable pub arm_and_drive : String → List ObservedSnapshot → Stage W RollbackStageResult
  unfolding drive_rollback
  arm_and_drive job_id observed =
      attempt
        (do
          clock ← moving env.clock
          calling (arm_rollback p clock job_id observed)
          reading (stored_job p job_id))
        drive_rollback (on_arming job_id)

  -- `roll_back_to_job_snapshot`
  unfoldable pub roll_back_to_job_snapshot :
      String → List ObservedSnapshot → Stage W RollbackStageResult
  unfolding drive_rollback arm_and_drive
  roll_back_to_job_snapshot job_id observed = do
    job ← reading (read_job p job_id)
    if not (job.row.status == active)
        then raise rollback_error
        else if job.row.checkpoint == Checkpoint.rollback_may_have_started
        then drive_rollback job
        else if not (is_rollback_eligible job.row.checkpoint)
        then raise rollback_error
        else arm_and_drive job_id observed
