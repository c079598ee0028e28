-- ===== src/Stages/Mutation/Calls.antt =====
-- What the mutation stage of `app/package_update_mutation.py` does to the tables, by the rules of its
-- constructs.
use hubinet_ops.Prelude.{String, Bool, true, false, ℕ, zero, suc, Option, none, some}
use hubinet_ops.Authority.Platform.{Platform}
use hubinet_ops.Authority.Result.{authority_not_found}
use hubinet_ops.Authority.Calls.{Call}
use hubinet_ops.Models.{HostMutationState}
use hubinet_ops.Completion.{PostState}
use hubinet_ops.Stages.Run.{Raised, authority, Environment, PackageUpdateJob, Stage}
use hubinet_ops.Stages.Reads.{MutationRequest}
use hubinet_ops.Stages.Reach.{Reaches}
use hubinet_ops.Stages.Reach.Rules.{
  constructs, mutation_uncertain_reach, mutation_submitted_reach, mutation_failure_reach,
  mutation_completion_reach, mutation_seal_reach,
}
use hubinet_ops.Stages.Mutation.Boundary.{
  HostMutationResult, MutationHost, Parsers, Parsed, parsed, malformed, HostMutationEvidence,
  MutationStageResult, MutationSettings,
}
use hubinet_ops.Stages.Mutation.Polling.{inspect, poll, poll_until_terminal}
use hubinet_ops.Stages.Mutation.Records.{
  uncertain, record_submitted, terminal_failure, parsed_post_state,
}
use hubinet_ops.Stages.Mutation.Recovery.{
  complete_with, complete, resolve_polled, when_sealable, resolve_from,
  resolve_pre_mutation_block_stage, resolve, recover_found, on_absent, recover_job_owned_mutation,
}

module _ (p : Platform) {W : Type 0} where
  -- The calls of a recovery: it neither arms nor submits.
  abbrev pub may_recover : (A : Type 0) → Call p W A → Bool
  may_recover A (Call.mutation_uncertain _ _ _) = true
  may_recover A (Call.mutation_submitted _ _ _) = true
  may_recover A (Call.mutation_failure _ _ _) = true
  may_recover A (Call.mutation_complete _ _ _) = true
  may_recover A (Call.seal_mutation _ _ _) = true
  may_recover A _ = false

  -- An optional stage, where there is one.
  abbrev Admits : Option (Stage W MutationStageResult) → Type 1
  Admits none = Unit
  Admits (some m) = Reaches p W may_recover m

  pub uncertain-Reaches :
      (env : Environment W) (j : PackageUpdateJob) (reason : String)
      → Reaches p W may_recover (uncertain p env j reason)
  unfolding uncertain
  uncertain-Reaches env j reason = search (constructs, mutation_uncertain_reach) depth 40

  pub submitted-Reaches :
      (env : Environment W) (j : PackageUpdateJob)
      → Reaches p W may_recover (record_submitted p env j)
  unfolding record_submitted
  submitted-Reaches env j = search (constructs, mutation_submitted_reach) depth 40

  failure-Reaches :
      (env : Environment W) (j : PackageUpdateJob) (r : HostMutationResult)
      → Reaches p W may_recover (terminal_failure p env j r)
  unfolding terminal_failure
  failure-Reaches env j r = search (constructs, mutation_failure_reach) depth 40

  pub absent-Reaches : (e : Raised) → Reaches p W may_recover (on_absent e)
  absent-Reaches (authority authority_not_found) = search constructs depth 40
  absent-Reaches e = search constructs depth 40

  module _ (env : Environment W) (host : MutationHost W) where
    inspect-Reaches : (r : MutationRequest) → Reaches p W may_recover (inspect env host r)
    unfolding inspect
    inspect-Reaches r = search constructs depth 40

    poll-Reaches :
        (fuel i d : ℕ) (r : MutationRequest) (x : HostMutationResult)
        → Reaches p W may_recover (poll env host fuel i d r x)
    unfolding poll
    poll-Reaches zero i d r x = search constructs depth 40
    poll-Reaches (suc fuel) i d r x =
        search (constructs, inspect-Reaches, poll-Reaches fuel i d) depth 40

    module _ (parsers : Parsers) (settings : MutationSettings) where
      terminal-Reaches :
          (r : MutationRequest) (x : HostMutationResult)
          → Reaches p W may_recover (poll_until_terminal env host settings r x)
      unfolding poll_until_terminal
      terminal-Reaches r x = search (constructs, poll-Reaches) depth 40

      with-Reaches :
          (j : PackageUpdateJob) (post : Parsed PostState)
          → Reaches p W may_recover (complete_with p env host parsers settings j post)
      unfolding complete_with
      with-Reaches j (malformed m) = uncertain-Reaches env j _
      with-Reaches j (parsed post) =
          search (constructs, mutation_completion_reach, uncertain-Reaches) depth 40

      complete-Reaches :
          (j : PackageUpdateJob) (e : Option HostMutationEvidence)
          → Reaches p W may_recover (complete p env host parsers settings j e)
      unfolding complete
      complete-Reaches j none = uncertain-Reaches env j _
      complete-Reaches j (some e) = with-Reaches j (parsed_post_state parsers e)

      polled-Reaches :
          (j : PackageUpdateJob) (r : HostMutationResult) (s : HostMutationState)
          → Reaches p W may_recover (resolve_polled p env host parsers settings j r s)
      unfolding resolve_polled
      polled-Reaches j r HostMutationState.submitted =
          search (constructs, uncertain-Reaches) depth 40
      polled-Reaches j r HostMutationState.terminal_failure = failure-Reaches env j r
      polled-Reaches j r HostMutationState.terminal_success = complete-Reaches j r.evidence
      polled-Reaches j r s = uncertain-Reaches env j _

      sealable-Reaches :
          (block : Option (Stage W MutationStageResult)) (j : PackageUpdateJob)
          (r : HostMutationResult) (text : String)
          → Admits block
          → Reaches p W may_recover (when_sealable p env host parsers settings block j r text)
      unfolding when_sealable
      sealable-Reaches none j r text h = uncertain-Reaches env j _
      sealable-Reaches (some m) j r text h = h

      from-Reaches :
          (block : Option (Stage W MutationStageResult)) (j : PackageUpdateJob)
          (q : MutationRequest) (r : HostMutationResult) (s : HostMutationState)
          → Admits block
          → Reaches p W may_recover (resolve_from p env host parsers settings block j q r s)
      unfolding resolve_from
      from-Reaches block j q r HostMutationState.absent h = sealable-Reaches block j r _ h
      from-Reaches block j q r HostMutationState.intent h = sealable-Reaches block j r _ h
      from-Reaches block j q r HostMutationState.sealed_not_submitted h =
          sealable-Reaches block j r _ h
      from-Reaches block j q r HostMutationState.submitted h =
          search (constructs, terminal-Reaches, polled-Reaches) depth 40
      from-Reaches block j q r HostMutationState.terminal_success h =
          polled-Reaches j r HostMutationState.terminal_success
      from-Reaches block j q r HostMutationState.terminal_failure h =
          polled-Reaches j r HostMutationState.terminal_failure

      pub block-Reaches :
          (j : PackageUpdateJob) (q : MutationRequest)
          → Reaches p W may_recover
              (resolve_pre_mutation_block_stage p env host parsers settings j q)
      unfolding resolve_pre_mutation_block_stage
      block-Reaches j q =
          let unsealed = λ (r : HostMutationResult). from-Reaches none j q r r.state tt in
          search (constructs, mutation_seal_reach, uncertain-Reaches, unsealed) depth 40

      pub resolve-Reaches :
          (j : PackageUpdateJob) (q : MutationRequest) (r : HostMutationResult)
          → Reaches p W may_recover (resolve p env host parsers settings j q r)
      unfolding resolve
      resolve-Reaches j q r =
          from-Reaches (some (resolve_pre_mutation_block_stage p env host parsers settings j q)) j q
            r r.state (block-Reaches j q)

      found-Reaches :
          (j : PackageUpdateJob)
          → Reaches p W may_recover (recover_found p env host parsers settings j)
      unfolding recover_found
      found-Reaches j = search (constructs, inspect-Reaches, resolve-Reaches) depth 40

      -- What the recovery of a mutation does to the tables: it records evidence of the mutation,
      -- completes it or seals it.
      pub recovery-Reaches :
          (id : String)
          → Reaches p W may_recover (recover_job_owned_mutation p env host parsers settings id)
      unfolding recover_job_owned_mutation
      recovery-Reaches id = search (constructs, found-Reaches, absent-Reaches) depth 40
