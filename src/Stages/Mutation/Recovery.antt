-- ===== src/Stages/Mutation/Recovery.antt =====
-- The resolution of a mutation from evidence in `app/package_update_mutation.py`: `_complete`,
-- `_resolve`, `_resolve_pre_mutation_block` and `recover_job_owned_mutation`.
use hubinet_ops.Stages.Mutation.Boundary.{
  HostMutationResult, HostMutationEvidence, MutationHost, Parsers, Parsed, parsed, malformed,
  MutationStageStatus, MutationStageResult, MutationSettings,
}
use hubinet_ops.Stages.Mutation.Polling.{unresolved, validated, poll_until_terminal, inspect}
use hubinet_ops.Stages.Mutation.Records.{settled, uncertain, terminal_failure, parsed_post_state}
use hubinet_ops.Prelude.{String, not, Option, none, some, ◌==◌, if◌then◌else◌, string_eq}
use hubinet_ops.Models.{
  active, status_eq, Checkpoint, checkpoint_eq, HostMutationState, mutation_state_eq,
}
use hubinet_ops.Authority.Result.{Result, ok, authority_not_found}
use hubinet_ops.Authority.Platform.{Platform}
use hubinet_ops.Authority.Host.{Host, Sealed}
use hubinet_ops.Authority.Mutation.{complete_mutation}
use hubinet_ops.Authority.MutationRelease.{resolve_pre_mutation_block}
use hubinet_ops.Completion.{PostState}
use hubinet_ops.Stages.Run.{
  Raised, authority, fault, Reply, answered, failed, Environment, PackageUpdateJob, Stage, ◌>>=◌,
  ◌>>◌, pure, raise, attempt, on_conflict, calling, hosted, reading, moving,
}
use hubinet_ops.Stages.Reads.{
  stored_job, read_job, MutationRequest, mutation_request, reason_or, ◌<>◌,
}

-- A job that does not exist.
abbrev pub absent : MutationStageResult
absent = record {
  status = MutationStageStatus.job_not_ready;
  job = none;
  failure_class = none;
  reason = some "package update job does not exist";
}

abbrev pub not_ready : PackageUpdateJob → String → MutationStageResult
not_ready job reason = settled MutationStageStatus.job_not_ready job (some reason)

-- `except AuthorityNotFound`
abbrev pub on_absent : {W : Type 0} → Raised → Stage W MutationStageResult
on_absent (authority authority_not_found) = pure absent
on_absent e = raise e

module _ (p : Platform) {W : Type 0} (env : Environment W) (host : MutationHost W)
    (parsers : Parsers) (settings : MutationSettings) where
  -- `_complete`, of evidence that was read.
  unfoldable pub complete_with : PackageUpdateJob → Parsed PostState → Stage W MutationStageResult
  complete_with job (malformed m) =
      uncertain p env job ("package mutation post-state evidence is malformed: " <> m)
  complete_with job (parsed post) =
      attempt
        (do
          clock ← moving env.clock
          calling (complete_mutation p clock job.row.job_id post)
          reading (stored_job p job.row.job_id))
        (λ updated. pure (settled MutationStageStatus.completed updated none))
        (λ e. on_conflict e (uncertain p env job (env.text e)))

  -- `_complete`
  unfoldable pub complete :
      PackageUpdateJob → Option HostMutationEvidence → Stage W MutationStageResult
  unfolding complete_with
  complete job none = uncertain p env job "host reported a terminal mutation without its evidence"
  complete job (some evidence) = complete_with job (parsed_post_state parsers evidence)

  -- The branches of `_resolve` after the poll, by the state of the answer.
  unfoldable pub resolve_polled :
      PackageUpdateJob → HostMutationResult → HostMutationState → Stage W MutationStageResult
  unfolding complete
  resolve_polled job result HostMutationState.submitted =
      if result.running
      then pure (
          settled MutationStageStatus.running job
            (some (reason_or result.reason "package mutation is still running")))
      else uncertain p env job (
          reason_or result.reason
            "package mutation was submitted but reached no terminal result; its outcome is unknown")
  resolve_polled job result HostMutationState.terminal_failure = terminal_failure p env job result
  resolve_polled job result HostMutationState.terminal_success = complete job result.evidence
  resolve_polled job result _ =
      uncertain p env job (reason_or result.reason "package mutation state is not recognized")

  -- The branch of `_resolve` before a submission.
  unfoldable pub when_sealable :
      Option (Stage W MutationStageResult)
      → PackageUpdateJob
      → HostMutationResult
      → String
      → Stage W MutationStageResult
  when_sealable none job result text = uncertain p env job (reason_or result.reason text)
  when_sealable (some block) job result text = block

  -- `_resolve`. `block` is the seal where it is allowed; without one the job stays uncertain.
  unfoldable pub resolve_from :
      Option (Stage W MutationStageResult)
      → PackageUpdateJob
      → MutationRequest
      → HostMutationResult
      → HostMutationState
      → Stage W MutationStageResult
  unfolding when_sealable resolve_polled
  resolve_from block job request result HostMutationState.absent =
      when_sealable block job result "package mutation was not durably sealed before submission"
  resolve_from block job request result HostMutationState.intent =
      when_sealable block job result "package mutation was not durably sealed before submission"
  resolve_from block job request result HostMutationState.sealed_not_submitted =
      when_sealable block job result "package mutation seal was not applied"
  resolve_from block job request result HostMutationState.submitted = do
    polled ← poll_until_terminal env host settings request result
    resolve_polled job polled polled.state
  resolve_from block job request result other = resolve_polled job result other

  abbrev pub seal_reason : HostMutationState → String
  seal_reason HostMutationState.sealed_not_submitted =
      "host durably proved this package mutation was never submitted and can never be submitted; no workload package changed"
  seal_reason _ = "host did not durably seal this package mutation"

  abbrev pub sealed_answer : HostMutationResult → Sealed HostMutationState HostMutationResult
  sealed_answer fresh = record {
    state = some fresh.state;
    reason = seal_reason fresh.state;
    evidence = fresh;
  }

  abbrev pub of_seal_reply :
      String
      → Reply HostMutationResult × W
      → Result (Sealed HostMutationState HostMutationResult) × W
  of_seal_reply operation (answered a, w) = (ok (sealed_answer (validated a operation)), w)
  of_seal_reply operation (failed f, w) = (
    ok (
        sealed_answer (
          unresolved operation
            ("package mutation seal did not return an outcome: " <> env.name (fault f)))),
    w,
  )

  -- The callback `_seal`, which answers whatever the host does.
  unfoldable pub seal : MutationRequest → Host W (Sealed HostMutationState HostMutationResult)
  unfolding validated
  seal request w = of_seal_reply request.mutation_operation_id (host.seal request w)

  -- `_resolve_pre_mutation_block`
  unfoldable pub resolve_pre_mutation_block_stage :
      PackageUpdateJob → MutationRequest → Stage W MutationStageResult
  unfolding resolve_from seal
  resolve_pre_mutation_block_stage job request =
      attempt
        (do
          clock ← moving env.clock
          hosted (resolve_pre_mutation_block p clock job.row.job_id (seal request)))
        (λ answer.
          if answer.0
          then (do
            updated ← reading (read_job p job.row.job_id)
            pure (settled MutationStageStatus.not_submitted updated answer.1.reason))
          else resolve_from none job request answer.1 answer.1.state)
        (λ e.
          uncertain p env job
            "a durable host seal proved this mutation was never submitted, but durable job state contradicts it")

  -- `_resolve` with `allow_seal=True`
  unfoldable pub resolve :
      PackageUpdateJob → MutationRequest → HostMutationResult → Stage W MutationStageResult
  unfolding resolve_from resolve_pre_mutation_block_stage
  resolve job request result =
      resolve_from (some (resolve_pre_mutation_block_stage job request)) job request result
        result.state

  -- `recover_job_owned_mutation`, of a job that was found.
  unfoldable pub recover_found : PackageUpdateJob → Stage W MutationStageResult
  unfolding resolve inspect
  recover_found job =
      if not (job.row.status == active)
      then pure (not_ready job "package update job is terminal")
      else if job.row.checkpoint == Checkpoint.mutation_completed
      then pure (settled MutationStageStatus.completed job none)
      else if not (job.row.checkpoint == Checkpoint.mutation_may_have_started)
      then pure (not_ready job "package update job is not inside a package mutation")
      else (do
        request ← reading (mutation_request p job.row.job_id)
        result ← inspect env host request
        resolve job request result)

  -- `recover_job_owned_mutation`
  unfoldable pub recover_job_owned_mutation : String → Stage W MutationStageResult
  unfolding recover_found
  recover_job_owned_mutation job_id = attempt (reading (read_job p job_id)) recover_found on_absent
