-- ===== src/Stages/Mutation/Submits.antt =====
-- What `execute_job_owned_mutation` of `app/package_update_mutation.py` does to the tables.
use hubinet_ops.Prelude.{String, Bool, true, List, ◌≡◌, arith}
use hubinet_ops.Models.{ExecutionOutcome, ArmOutcome}
use hubinet_ops.Authority.Platform.{Platform}
use hubinet_ops.Authority.Result.{
  evidence_not_accepted, mutation_submission_refused, temporarily_unavailable,
}
use hubinet_ops.Authority.Tables.{PackageRow}
use hubinet_ops.Authority.Calls.{Call}
use hubinet_ops.Stages.Run.{Raised, authority, Environment, PackageUpdateJob}
use hubinet_ops.Stages.Reads.{MutationRequest}
use hubinet_ops.Stages.Reach.{Reaches, Reaches-mono}
use hubinet_ops.Stages.Reach.Rules.{constructs, arming_reach, mutation_submission_reach}
use hubinet_ops.Stages.Mutation.Boundary.{
  HostMutationResult, MutationHost, MutationSettings, Parsers, Parsed, parsed, malformed,
}
use hubinet_ops.Stages.Mutation.Records.{uncertain, record_submitted}
use hubinet_ops.Stages.Mutation.Recovery.{
  resolve_pre_mutation_block_stage, resolve, on_absent, recover_job_owned_mutation,
}
use hubinet_ops.Stages.Mutation.Calls.{
  may_recover, uncertain-Reaches, submitted-Reaches, block-Reaches, resolve-Reaches, absent-Reaches,
  recovery-Reaches,
}
use hubinet_ops.Stages.Mutation.{
  after_submission, on_submission, submit, after_arming, on_arming, arm_and_submit,
  after_preparation, prove_arm_and_submit, execute_found, execute_job_owned_mutation,
}

module _ (p : Platform) {W : Type 0} where
  -- The calls of a mutation stage.
  abbrev pub may_mutate : (A : Type 0) → Call p W A → Bool
  may_mutate A (Call.arm _ _ _ _) = true
  may_mutate A (Call.submit_mutation _ _ _ _) = true
  may_mutate A c = may_recover p A c

  mutates : (A : Type 0) (c : Call p W A) → may_recover p A c ≡ true → may_mutate A c ≡ true
  mutates A c h = ground arith

  module _ (env : Environment W) (host : MutationHost W) (parsers : Parsers)
      (settings : MutationSettings) where
    uncertain-Mutates :
        (j : PackageUpdateJob) (reason : String) → Reaches p W may_mutate (uncertain p env j reason)
    uncertain-Mutates j reason = Reaches-mono p W mutates (uncertain-Reaches p env j reason)

    submitted-Mutates : (j : PackageUpdateJob) → Reaches p W may_mutate (record_submitted p env j)
    submitted-Mutates j = Reaches-mono p W mutates (submitted-Reaches p env j)

    block-Mutates :
        (j : PackageUpdateJob) (q : MutationRequest)
        → Reaches p W may_mutate (resolve_pre_mutation_block_stage p env host parsers settings j q)
    block-Mutates j q = Reaches-mono p W mutates (block-Reaches p env host parsers settings j q)

    resolve-Mutates :
        (j : PackageUpdateJob) (q : MutationRequest) (r : HostMutationResult)
        → Reaches p W may_mutate (resolve p env host parsers settings j q r)
    resolve-Mutates j q r =
        Reaches-mono p W mutates (resolve-Reaches p env host parsers settings j q r)

    recovery-Mutates :
        (id : String)
        → Reaches p W may_mutate (recover_job_owned_mutation p env host parsers settings id)
    recovery-Mutates id = Reaches-mono p W mutates (recovery-Reaches p env host parsers settings id)

    absent-Mutates : (e : Raised) → Reaches p W may_mutate (on_absent e)
    absent-Mutates e = Reaches-mono p W mutates (absent-Reaches p e)

    after-Mutates :
        (j : PackageUpdateJob) (q : MutationRequest) (r : HostMutationResult)
        → Reaches p W may_mutate (after_submission p env host parsers settings j q r)
    unfolding after_submission
    after-Mutates j q r = search (constructs, submitted-Mutates, resolve-Mutates) depth 40

    refused-Mutates :
        (j : PackageUpdateJob) (q : MutationRequest) (e : Raised)
        → Reaches p W may_mutate (on_submission p env host parsers settings j q e)
    refused-Mutates j q (authority evidence_not_accepted) = uncertain-Mutates j _
    refused-Mutates j q (authority mutation_submission_refused) = block-Mutates j q
    refused-Mutates j q e = uncertain-Mutates j _

    submit-Mutates :
        (j : PackageUpdateJob) (q : MutationRequest) (digest : String)
        → Reaches p W may_mutate (submit p env host parsers settings j q digest)
    unfolding submit
    submit-Mutates j q digest =
        search (constructs, mutation_submission_reach, after-Mutates, refused-Mutates) depth 40

    armed-Mutates :
        (j : PackageUpdateJob) (q : MutationRequest) (digest : String) (o : ExecutionOutcome)
        (a : ArmOutcome)
        → Reaches p W may_mutate (after_arming p env host parsers settings j q digest o a)
    unfolding after_arming
    armed-Mutates j q digest ExecutionOutcome.mismatched a = search constructs depth 40
    armed-Mutates j q digest ExecutionOutcome.authority_stale a = search constructs depth 40
    armed-Mutates j q digest ExecutionOutcome.matched ArmOutcome.armed_now =
        submit-Mutates j q digest
    armed-Mutates j q digest ExecutionOutcome.matched ArmOutcome.already_armed =
        recovery-Mutates j.row.job_id

    unarmed-Mutates :
        (j : PackageUpdateJob) (e : Raised)
        → Reaches p W may_mutate (on_arming p env host parsers settings j e)
    unarmed-Mutates j (authority temporarily_unavailable) = search constructs depth 40
    unarmed-Mutates j e = search constructs depth 40

    arming-Mutates :
        (j : PackageUpdateJob) (q : MutationRequest) (digest : String)
        (plan : Parsed (List PackageRow))
        → Reaches p W may_mutate (arm_and_submit p env host parsers settings j q digest plan)
    unfolding arm_and_submit
    arming-Mutates j q digest (malformed text) = search constructs depth 40
    arming-Mutates j q digest (parsed packages) =
        search (constructs, arming_reach, armed-Mutates, unarmed-Mutates) depth 40

    preparation-Mutates :
        (j : PackageUpdateJob) (q : MutationRequest) (r : HostMutationResult)
        → Reaches p W may_mutate (after_preparation p env host parsers settings j q r)
    unfolding after_preparation
    preparation-Mutates j q r = search (constructs, arming-Mutates) depth 40

    prove-Mutates :
        (j : PackageUpdateJob)
        → Reaches p W may_mutate (prove_arm_and_submit p env host parsers settings j)
    unfolding prove_arm_and_submit
    prove-Mutates j = search (constructs, preparation-Mutates) depth 40

    found-Mutates :
        (id : String) (j : PackageUpdateJob)
        → Reaches p W may_mutate (execute_found p env host parsers settings id j)
    unfolding execute_found
    found-Mutates id j = search (constructs, recovery-Mutates, prove-Mutates) depth 40

    pub execution-Mutates :
        (id : String)
        → Reaches p W may_mutate (execute_job_owned_mutation p env host parsers settings id)
    unfolding execute_job_owned_mutation
    execution-Mutates id = search (constructs, found-Mutates, absent-Mutates) depth 40
