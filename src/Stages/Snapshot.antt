-- ===== src/Stages/Snapshot.antt =====
-- `app/package_update_snapshot.py`: the stage that takes a job from its issuance to its confirmed
-- snapshot. The host is a parameter.
pub mod Records
pub mod Calls
pub mod Bound
use Records.{
  SnapshotRequest, HostSnapshotResult, SnapshotHost, SnapshotStageResult, snapshot_phases, staged,
  validated, read_inspection, uncertain, persist_known_task, apply_completed, apply_failed,
}
use hubinet_ops.Prelude.{
  String, Bool, true, false, not, Option, none, some, ◌==◌, ltb, if◌then◌else◌, string_eq, nat_eq,
}
use hubinet_ops.Models.{
  active, status_eq, Checkpoint, checkpoint_eq, checkpoint_rank, HostSubmissionState,
  submission_state_eq,
}
use hubinet_ops.Authority.Result.{Result, ok, snapshot_submission_refused}
use hubinet_ops.Authority.Platform.{Platform}
use hubinet_ops.Authority.Host.{Host, Sealed}
use hubinet_ops.Authority.Identity.{SnapshotIdentity}
use hubinet_ops.Authority.Snapshot.{
  record_preflight_passed, record_snapshot_intent, execute_snapshot_submission_if_current,
}
use hubinet_ops.Authority.SnapshotRelease.{resolve_pre_submission_block}
use hubinet_ops.Stages.Run.{
  Raised, authority, fault, snapshot_error, Reply, answered, failed, Environment, PackageUpdateJob,
  Stage, ◌>>=◌, ◌>>◌, pure, raise, attempt, calling, hosted, reading, when_null, as_callback,
  moving,
}
use hubinet_ops.Stages.Reads.{
  stored_job, read_job, read_snapshot_identity, read_snapshot_ownership, reason_or, ◌<>◌,
}
use hubinet_ops.Stages.Task.{
  OperationOutcome, outcome_eq, HostTaskResult, TaskSettings, unproven, poll_until_resolved,
}

abbrev pub is_sealed : Option HostSubmissionState → Bool
is_sealed (some HostSubmissionState.sealed_not_submitted) = true
is_sealed _ = false

abbrev pub is_submission_permitted : Option HostSubmissionState → Bool
is_submission_permitted (some HostSubmissionState.absent) = true
is_submission_permitted (some HostSubmissionState.intent) = true
is_submission_permitted _ = false

module _ (p : Platform) {W : Type 0} (env : Environment W) (host : SnapshotHost W)
    (settings : TaskSettings) where
  -- The branches of `_apply_host_result`, by the outcome. `block` is the seal where it is allowed.
  unfoldable pub apply_outcome :
      Option (Stage W SnapshotStageResult)
      → PackageUpdateJob
      → HostSnapshotResult
      → OperationOutcome
      → Stage W SnapshotStageResult
  unfolding apply_failed apply_completed
  apply_outcome none job result OperationOutcome.not_submitted =
      uncertain p env job.row.job_id
        (reason_or result.reason "snapshot operation was not durably sealed before submission")
  apply_outcome (some block) job result OperationOutcome.not_submitted = block
  apply_outcome block job result OperationOutcome.uncertain =
      uncertain p env job.row.job_id
        (reason_or result.reason "snapshot operation outcome is uncertain")
  apply_outcome block job result OperationOutcome.failed = apply_failed p env job.row.job_id result
  apply_outcome block job result OperationOutcome.completed =
      apply_completed p env job.row.job_id result

  -- `_apply_host_result`
  unfoldable pub apply_host_result :
      Option (Stage W SnapshotStageResult)
      → PackageUpdateJob
      → SnapshotRequest
      → HostSnapshotResult
      → Stage W SnapshotStageResult
  unfolding apply_outcome persist_known_task
  apply_host_result block job request result =
      if not (result.operation_id == request.snapshot_operation_id)
      then uncertain p env job.row.job_id "snapshot host operation answered a different operation"
      else (do
        conflict ← persist_known_task p env job.row.job_id result.task_upid
        when_null conflict (apply_outcome block job result result.outcome) pure)

  -- `_finish`
  unfoldable pub finish :
      Option (Stage W SnapshotStageResult)
      → PackageUpdateJob
      → SnapshotRequest
      → HostSnapshotResult
      → Stage W SnapshotStageResult
  unfolding apply_host_result persist_known_task read_inspection
  finish block job request result = do
    early ← persist_known_task p env job.row.job_id result.task_upid
    when_null early
        (do
          polled ←
              poll_until_resolved snapshot_phases env (read_inspection env host request) settings
                job.row.snapshot_task_upid result
          apply_host_result block job request polled)
        pure

  abbrev pub seal_reason : Bool → String
  seal_reason true = "host durably sealed this snapshot operation before submission"
  seal_reason false = "host did not durably seal this snapshot operation before submission"

  abbrev pub sealed_answer : HostSnapshotResult → Sealed HostSubmissionState HostSnapshotResult
  sealed_answer fresh = record {
    state = fresh.state;
    reason = seal_reason (is_sealed fresh.state);
    evidence = fresh;
  }

  abbrev pub of_seal_reply :
      String
      → Reply HostSnapshotResult × W
      → Result (Sealed HostSubmissionState HostSnapshotResult) × W
  of_seal_reply operation (answered a, w) = (ok (sealed_answer (validated a operation)), w)
  of_seal_reply operation (failed f, w) = (
    ok (
        sealed_answer (
          unproven operation
            ("snapshot host seal did not return an outcome: " <> env.name (fault f)))),
    w,
  )

  -- The callback `_seal`
  unfoldable pub seal : SnapshotRequest → Host W (Sealed HostSubmissionState HostSnapshotResult)
  unfolding validated
  seal request w = of_seal_reply request.snapshot_operation_id (host.seal request w)

  -- `_resolve_pre_submission_block`
  unfoldable pub resolve_block : PackageUpdateJob → SnapshotRequest → Stage W SnapshotStageResult
  unfolding finish seal
  resolve_block job request =
      attempt
        (do
          clock ← moving env.clock
          hosted (resolve_pre_submission_block p clock job.row.job_id (seal request)))
        (λ answer.
          if answer.0
          then (do
            updated ← reading (read_job p job.row.job_id)
            pure (staged OperationOutcome.not_submitted updated answer.1.reason))
          else finish none job request answer.1)
        (λ e.
          uncertain p env job.row.job_id
            "a durable host seal proved this operation was never submitted, but durable job state contradicts it")

  abbrev pub on_submission :
      PackageUpdateJob → SnapshotRequest → Raised → Stage W SnapshotStageResult
  on_submission job request (authority snapshot_submission_refused) = resolve_block job request
  on_submission job request e =
      uncertain p env job.row.job_id
        ("snapshot host submission did not return an outcome: " <> env.name e)

  -- Step E2 of `ensure_job_owned_snapshot`: the only branch that may submit.
  unfoldable pub submit : PackageUpdateJob → SnapshotRequest → Stage W SnapshotStageResult
  unfolding finish resolve_block validated
  submit job request =
      attempt
        (do
          clock ← moving env.clock
          hosted (
              execute_snapshot_submission_if_current p clock job.row.job_id
                (as_callback (host.submit request))))
        (λ answer.
          finish (some (resolve_block job request)) job request
            (validated answer request.snapshot_operation_id))
        (on_submission job request)

  -- What follows the first inspection.
  unfoldable pub after_inspection :
      PackageUpdateJob → SnapshotRequest → HostSnapshotResult → Stage W SnapshotStageResult
  unfolding submit finish resolve_block
  after_inspection job request result =
      if is_sealed result.state
      then resolve_block job request
      else if result.outcome == OperationOutcome.not_submitted
      then resolve_block job request
      else if is_submission_permitted result.state
      then submit job request
      else finish (some (resolve_block job request)) job request result

  -- Steps A to D of `ensure_job_owned_snapshot`.
  unfoldable pub prepare : String → PackageUpdateJob → Stage W PackageUpdateJob
  prepare job_id job =
      if job.row.checkpoint == Checkpoint.snapshot_may_have_started then pure job else (do
        clock ← moving env.clock
        calling (record_preflight_passed p clock job_id)
        passed ← reading (stored_job p job_id)
        later ← moving env.clock
        calling (record_snapshot_intent p later passed.row.job_id)
        reading (stored_job p passed.row.job_id))

  -- The part of `ensure_job_owned_snapshot` that acts.
  unfoldable pub drive_snapshot : String → PackageUpdateJob → Stage W SnapshotStageResult
  unfolding prepare after_inspection read_inspection
  drive_snapshot job_id found = do
    job ← prepare job_id found
    identity ← reading (read_snapshot_identity p job.row.job_id)
    ownership ← reading (read_snapshot_ownership p job.row.job_id)
    let request : SnapshotRequest = record {
      snapshot_operation_id = identity.snapshot_operation_id;
      snapshot_name = identity.snapshot_name;
      vmid = job.row.context.expected_vmid;
      expected_node = job.row.context.expected_node_name;
      ownership = ownership;
    }
    result ← read_inspection env host request
    after_inspection job request result

  -- `ensure_job_owned_snapshot`
  unfoldable pub ensure_job_owned_snapshot : String → Stage W SnapshotStageResult
  unfolding drive_snapshot
  ensure_job_owned_snapshot job_id = do
    job ← reading (read_job p job_id)
    if not (job.row.status == active)
        then raise snapshot_error
        else if job.row.checkpoint == Checkpoint.snapshot_confirmed
        then pure (staged OperationOutcome.completed job none)
        else if ltb (checkpoint_rank Checkpoint.snapshot_confirmed)
            (checkpoint_rank job.row.checkpoint)
        then raise snapshot_error
        else drive_snapshot job_id job
