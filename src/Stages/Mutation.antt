-- ===== src/Stages/Mutation.antt =====
-- `app/package_update_mutation.py`: the stage that takes a job from its confirmed snapshot through
-- the write-ahead boundary and the one submission to its proven mutation. The host and the parsers
-- of `app/package_scan.py` are parameters. A poll takes fuel, one unit for a sleep.
pub mod Boundary
pub mod Calls
pub mod Asks
pub mod Bound
pub mod Polling
pub mod Records
pub mod Recovery
pub mod Submits
use Boundary.{
  HostMutationResult, MutationHost, Parsers, Parsed, parsed, malformed, MutationStageStatus,
  MutationStageResult, MutationSettings,
}
use Polling.{validated, is_submitted}
use Records.{settled, uncertain, record_submitted}
use Recovery.{
  absent, not_ready, resolve_pre_mutation_block_stage, resolve, recover_job_owned_mutation,
  on_absent,
}
use hubinet_ops.Prelude.{
  ℕ, zero, suc, ◌<◌, String, Bool, true, false, not, ◌&&◌, Option, none, some, List, [], ◌∷◌, ◌==◌,
  ltb, if◌then◌else◌, string_eq,
}
use hubinet_ops.Models.{
  JobStatus, active, status_eq, Checkpoint, checkpoint_eq, checkpoint_rank, HostMutationState,
  mutation_state_eq, ExecutionOutcome, ArmOutcome,
}
use hubinet_ops.Authority.Result.{
  Error, Result, ok, evidence_not_accepted, mutation_submission_refused, temporarily_unavailable,
  authority_not_found, is_authority_conflict,
}
use hubinet_ops.Authority.Platform.{Platform}
use hubinet_ops.Authority.Tables.{PackageRow}
use hubinet_ops.Authority.Host.{Host, Sealed}
use hubinet_ops.Authority.Mutation.{
  arm_mutation, execute_mutation_submission_if_current, record_mutation_uncertain,
  record_mutation_submitted, record_mutation_terminal_failure, complete_mutation,
}
use hubinet_ops.Authority.MutationRelease.{resolve_pre_mutation_block}
use hubinet_ops.Completion.{PostState}
use hubinet_ops.Stages.Run.{
  ScanFailure, Fault, scan_failed, timed_out, Raised, authority, fault, Outcome, Reply, answered,
  failed, timeout, execution_failed, malformed_plan, Environment, PackageUpdateJob, Stage, ◌>>=◌,
  ◌>>◌, pure, raise, attempt, on_conflict, calling, hosted, reading, asking, as_callback, when_null,
  observing, moving,
}
use hubinet_ops.Stages.Reads.{
  stored_job, read_job, MutationRequest, mutation_request, reason_or, ◌<>◌,
}

abbrev pub host_failed : PackageUpdateJob → ScanFailure → String → MutationStageResult
host_failed job failure reason = record {
  status = MutationStageStatus.host_failure;
  job = some job;
  failure_class = some failure;
  reason = some reason;
}

-- What a preparation must carry.
pub record Prepared : Type 0 where
  pub digest : String
  pub simulation_stdout : String
  pub native_architecture : String
  pub installed_inventory : String
  pub os_release : String

abbrev pub prepared_of : HostMutationResult → Option Prepared
prepared_of r = elim (r.prepared_evidence_digest) [
  | none ↦ none
  | some digest ↦ elim (r.simulation_stdout) [
    | none ↦ none
    | some stdout ↦ elim (r.native_architecture) [
      | none ↦ none
      | some native ↦ elim (r.installed_inventory) [
        | none ↦ none
        | some inventory ↦ elim (r.os_release) [
          | none ↦ none
          | some os ↦ some (record {
            digest = digest;
            simulation_stdout = stdout;
            native_architecture = native;
            installed_inventory = inventory;
            os_release = os;
          })
        ]
      ]
    ]
  ]
]

-- `HostMutationState.value`
abbrev state_value : HostMutationState → String
state_value HostMutationState.absent = "absent"
state_value HostMutationState.intent = "intent"
state_value HostMutationState.sealed_not_submitted = "sealed_not_submitted"
state_value HostMutationState.submitted = "submitted"
state_value HostMutationState.terminal_success = "terminal_success"
state_value HostMutationState.terminal_failure = "terminal_failure"

abbrev preparation_failed : PackageUpdateJob → Raised → MutationStageResult
preparation_failed job (fault (scan_failed failure message)) = host_failed job failure message
preparation_failed job (fault timed_out) =
    host_failed job timeout "package mutation preparation timed out"
preparation_failed job _ = host_failed job execution_failed "package mutation preparation failed"

module _ (p : Platform) {W : Type 0} (env : Environment W) (host : MutationHost W)
    (parsers : Parsers) (settings : MutationSettings) where
  -- `parse_os_release`, then `parse_apt_simulation`
  unfoldable pub fresh_packages : Prepared → Parsed (List PackageRow)
  fresh_packages m = elim (parsers.os_release m.os_release) [
    | malformed text ↦ malformed text
    | parsed _ ↦
        parsers.apt_simulation m.simulation_stdout m.native_architecture m.installed_inventory
  ]

  -- What follows the submission that answered.
  unfoldable pub after_submission :
      PackageUpdateJob → MutationRequest → HostMutationResult → Stage W MutationStageResult
  unfolding resolve record_submitted
  after_submission job request submitted =
      if is_submitted submitted
      then (do
        updated ← record_submitted p env job
        resolve p env host parsers settings updated request submitted)
      else resolve p env host parsers settings job request submitted

  -- The `except` clauses of the submission, in their order.
  abbrev pub on_submission :
      PackageUpdateJob → MutationRequest → Raised → Stage W MutationStageResult
  on_submission job request (authority evidence_not_accepted) =
      uncertain p env job (env.text (authority evidence_not_accepted))
  on_submission job request (authority mutation_submission_refused) =
      resolve_pre_mutation_block_stage p env host parsers settings job request
  on_submission job request e =
      uncertain p env job ("package mutation submission did not return an outcome: " <> env.name e)

  -- Part D of `_prove_arm_and_submit`: the only place that may run a package command.
  unfoldable pub submit : PackageUpdateJob → MutationRequest → String → Stage W MutationStageResult
  unfolding after_submission validated
  submit job request digest =
      attempt
        (do
          clock ← moving env.clock
          hosted (
              execute_mutation_submission_if_current p clock job.row.job_id digest
                (as_callback (host.execute request digest))))
        (λ answer. after_submission job request (validated answer request.mutation_operation_id))
        (on_submission job request)

  -- What follows the arming, by its outcomes.
  unfoldable pub after_arming :
      PackageUpdateJob
      → MutationRequest
      → String
      → ExecutionOutcome
      → ArmOutcome
      → Stage W MutationStageResult
  unfolding submit recover_job_owned_mutation
  after_arming job request digest ExecutionOutcome.mismatched armed =
      pure (settled MutationStageStatus.mismatched job none)
  after_arming job request digest ExecutionOutcome.authority_stale armed =
      pure (settled MutationStageStatus.authority_stale job none)
  after_arming job request digest ExecutionOutcome.matched ArmOutcome.armed_now =
      submit job request digest
  after_arming job request digest ExecutionOutcome.matched ArmOutcome.already_armed =
      recover_job_owned_mutation p env host parsers settings job.row.job_id

  abbrev pub on_arming : PackageUpdateJob → Raised → Stage W MutationStageResult
  on_arming job (authority temporarily_unavailable) = pure (
      settled MutationStageStatus.authority_temporarily_unavailable job
        (some (env.text (authority temporarily_unavailable))))
  on_arming job e = on_conflict e (pure (not_ready job (env.text e)))

  -- Part C of `_prove_arm_and_submit`, of a plan that was parsed.
  unfoldable pub arm_and_submit :
      PackageUpdateJob
      → MutationRequest
      → String
      → Parsed (List PackageRow)
      → Stage W MutationStageResult
  unfolding after_arming
  arm_and_submit job request digest (malformed text) = pure (host_failed job malformed_plan text)
  arm_and_submit job request digest (parsed packages) =
      attempt {A = (ExecutionOutcome × ArmOutcome) × PackageUpdateJob}
        (do
          clock ← moving env.clock
          outcome ← calling (arm_mutation p clock job.row.job_id packages digest)
          updated ← reading (stored_job p job.row.job_id)
          pure (outcome, updated))
        (λ answer. after_arming answer.1 request digest answer.0.0 answer.0.1) (on_arming job)

  -- What follows the preparation.
  unfoldable pub after_preparation :
      PackageUpdateJob → MutationRequest → HostMutationResult → Stage W MutationStageResult
  unfolding arm_and_submit fresh_packages
  after_preparation job request prepared =
      if not (prepared.state == HostMutationState.absent)
      then pure (
          host_failed job execution_failed (
            "host package mutation evidence is past preparation while the job is not armed ("
            <> state_value prepared.state
            <> ")"))
      else when_null (prepared_of prepared)
          (pure (
            host_failed job execution_failed
              "host returned malformed package mutation preparation"))
          (λ m. arm_and_submit job request m.digest (fresh_packages m))

  -- `_prove_arm_and_submit`
  unfoldable pub prove_arm_and_submit : PackageUpdateJob → Stage W MutationStageResult
  unfolding after_preparation validated
  prove_arm_and_submit job = do
    request ← reading (mutation_request p job.row.job_id)
    attempt (asking (host.prepare request))
        (λ answer. after_preparation job request (validated answer request.mutation_operation_id))
        (λ e. pure (preparation_failed job e))

  -- `execute_job_owned_mutation`, of a job that was found.
  unfoldable pub execute_found : String → PackageUpdateJob → Stage W MutationStageResult
  unfolding prove_arm_and_submit recover_job_owned_mutation
  execute_found job_id job =
      if not (job.row.status == active)
      then pure (not_ready job "package update job is terminal")
      else if ltb (checkpoint_rank Checkpoint.mutation_completed)
          (checkpoint_rank job.row.checkpoint)
      then pure (not_ready job "package update job has advanced past the mutation stage")
      else if job.row.checkpoint == Checkpoint.mutation_completed
      then pure (settled MutationStageStatus.completed job none)
      else if job.row.checkpoint == Checkpoint.mutation_may_have_started
      then recover_job_owned_mutation p env host parsers settings job_id
      else if not (job.row.checkpoint == Checkpoint.snapshot_confirmed)
      then pure (not_ready job "package update job has no confirmed pre-update snapshot")
      else prove_arm_and_submit job

  -- `execute_job_owned_mutation`
  unfoldable pub execute_job_owned_mutation : String → Stage W MutationStageResult
  unfolding execute_found
  execute_job_owned_mutation job_id =
      attempt (reading (read_job p job_id)) (execute_found job_id) on_absent
