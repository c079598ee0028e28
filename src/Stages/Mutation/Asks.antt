-- ===== src/Stages/Mutation/Asks.antt =====
-- What the recovery of a mutation in `app/package_update_mutation.py` asks of the host.
use hubinet_ops.Prelude.{String, ◌≡◌, refl, ap, ◌∙◌, ℕ, zero, suc, Option, none, some}
use hubinet_ops.Authority.Platform.{Platform}
use hubinet_ops.Authority.Result.{authority_not_found}
use hubinet_ops.Authority.Tables.{Db}
use hubinet_ops.Authority.Host.{Clock}
use hubinet_ops.Authority.MutationRelease.{
  is_mutation_sealed, guard_mutation_release, commit_pre_mutation_block, resolve_pre_mutation_block,
}
use hubinet_ops.Models.{HostMutationState}
use hubinet_ops.Completion.{PostState}
use hubinet_ops.Stages.Run.{
  Raised, authority, Reply, answered, failed, Environment, PackageUpdateJob, Stage, hosted, moving,
  asking,
}
use hubinet_ops.Stages.Reads.{MutationRequest}
use hubinet_ops.Stages.Reach.{Reach}
use hubinet_ops.Stages.Leaves.{Leaves, keeping, asking_rule, moving_rule, release_rule}
use hubinet_ops.Stages.Mutation.Boundary.{
  HostMutationResult, MutationHost, Parsers, Parsed, parsed, malformed, HostMutationEvidence,
  MutationStageResult, MutationSettings,
}
use hubinet_ops.Stages.Mutation.Polling.{inspect, poll, poll_until_terminal}
use hubinet_ops.Stages.Mutation.Calls.{may_recover, recovery-Reaches}
use hubinet_ops.Stages.Mutation.Records.{uncertain, terminal_failure, parsed_post_state}
use hubinet_ops.Stages.Mutation.Recovery.{
  complete_with, complete, resolve_polled, when_sealable, resolve_from, seal, of_seal_reply,
  resolve_pre_mutation_block_stage, resolve, recover_found, on_absent, recover_job_owned_mutation,
}

module _ (p : Platform) {W : Type 0} (env : Environment W) (host : MutationHost W) (amount : W → ℕ)
    (clock_keeps : (w : W) → amount (env.clock w).1 ≡ amount w)
    (sleep_keeps : (i : ℕ) (w : W) → amount (env.sleep i w) ≡ amount w)
    (inspect_keeps : (r : MutationRequest) (w : W) → amount (host.inspect_state r w).1 ≡ amount w)
    (seal_keeps : (r : MutationRequest) (w : W) → amount (host.seal r w).1 ≡ amount w) where
  -- An optional stage, where there is one.
  abbrev Admits : Option (Stage W MutationStageResult) → Type 0
  Admits none = Unit
  Admits (some m) = Leaves amount m

  clock-Leaves : Leaves amount (moving env.clock)
  clock-Leaves = moving_rule amount env.clock clock_keeps

  sleep-Leaves : (i : ℕ) → Leaves amount (moving {A = Unit {0}} (λ w. (tt, env.sleep i w)))
  sleep-Leaves i = moving_rule amount _ (sleep_keeps i)

  ask-Leaves : (r : MutationRequest) → Leaves amount (asking (host.inspect_state r))
  ask-Leaves r = asking_rule amount _ (inspect_keeps r)

  uncertain-Leaves :
      (j : PackageUpdateJob) (reason : String) → Leaves amount (uncertain p env j reason)
  unfolding uncertain
  uncertain-Leaves j reason = search (keeping, clock-Leaves) depth 40

  failure-Leaves :
      (j : PackageUpdateJob) (r : HostMutationResult) → Leaves amount (terminal_failure p env j r)
  unfolding terminal_failure
  failure-Leaves j r = search (keeping, clock-Leaves) depth 40

  absent-Leaves : (e : Raised) → Leaves amount (on_absent e)
  absent-Leaves (authority authority_not_found) = search keeping depth 40
  absent-Leaves e = search keeping depth 40

  inspect-Leaves : (r : MutationRequest) → Leaves amount (inspect env host r)
  unfolding inspect
  inspect-Leaves r = search (keeping, ask-Leaves) depth 40

  poll-Leaves :
      (fuel i d : ℕ) (r : MutationRequest) (x : HostMutationResult)
      → Leaves amount (poll env host fuel i d r x)
  unfolding poll
  poll-Leaves zero i d r x = search keeping depth 40
  poll-Leaves (suc fuel) i d r x =
      search (keeping, sleep-Leaves, inspect-Leaves, poll-Leaves fuel i d) depth 40

  module _ (parsers : Parsers) (settings : MutationSettings) where
    of_seal_reply_world :
        (operation : String) (r : Reply HostMutationResult × W)
        → (of_seal_reply p env host parsers settings operation r).1 ≡ r.1
    of_seal_reply_world operation (answered a, w) = refl
    of_seal_reply_world operation (failed f, w) = refl

    seal-keeps :
        (r : MutationRequest) (w : W) → amount (seal p env host parsers settings r w).1 ≡ amount w
    unfolding seal
    seal-keeps r w =
        ap amount (of_seal_reply_world r.mutation_operation_id (host.seal r w)) ∙ seal_keeps r w

    sealing-Leaves :
        (clock : Clock) (id : String) (r : MutationRequest)
        → Leaves amount
            (hosted (resolve_pre_mutation_block p clock id (seal p env host parsers settings r)))
    unfolding resolve_pre_mutation_block
    sealing-Leaves clock id r =
        release_rule amount (guard_mutation_release p id) (is_mutation_sealed p)
          (commit_pre_mutation_block p clock id) (seal p env host parsers settings r) (seal-keeps r)

    terminal-Leaves :
        (r : MutationRequest) (x : HostMutationResult)
        → Leaves amount (poll_until_terminal env host settings r x)
    unfolding poll_until_terminal
    terminal-Leaves r x = search (keeping, poll-Leaves) depth 40

    with-Leaves :
        (j : PackageUpdateJob) (post : Parsed PostState)
        → Leaves amount (complete_with p env host parsers settings j post)
    unfolding complete_with
    with-Leaves j (malformed m) = uncertain-Leaves j _
    with-Leaves j (parsed post) = search (keeping, clock-Leaves, uncertain-Leaves) depth 40

    complete-Leaves :
        (j : PackageUpdateJob) (e : Option HostMutationEvidence)
        → Leaves amount (complete p env host parsers settings j e)
    unfolding complete
    complete-Leaves j none = uncertain-Leaves j _
    complete-Leaves j (some e) = with-Leaves j (parsed_post_state parsers e)

    polled-Leaves :
        (j : PackageUpdateJob) (r : HostMutationResult) (s : HostMutationState)
        → Leaves amount (resolve_polled p env host parsers settings j r s)
    unfolding resolve_polled
    polled-Leaves j r HostMutationState.submitted = search (keeping, uncertain-Leaves) depth 40
    polled-Leaves j r HostMutationState.terminal_failure = failure-Leaves j r
    polled-Leaves j r HostMutationState.terminal_success = complete-Leaves j r.evidence
    polled-Leaves j r s = uncertain-Leaves j _

    sealable-Leaves :
        (block : Option (Stage W MutationStageResult)) (j : PackageUpdateJob)
        (r : HostMutationResult) (text : String)
        → Admits block
        → Leaves amount (when_sealable p env host parsers settings block j r text)
    unfolding when_sealable
    sealable-Leaves none j r text h = uncertain-Leaves j _
    sealable-Leaves (some m) j r text h = h

    from-Leaves :
        (block : Option (Stage W MutationStageResult)) (j : PackageUpdateJob) (q : MutationRequest)
        (r : HostMutationResult) (s : HostMutationState)
        → Admits block
        → Leaves amount (resolve_from p env host parsers settings block j q r s)
    unfolding resolve_from
    from-Leaves block j q r HostMutationState.absent h = sealable-Leaves block j r _ h
    from-Leaves block j q r HostMutationState.intent h = sealable-Leaves block j r _ h
    from-Leaves block j q r HostMutationState.sealed_not_submitted h = sealable-Leaves block j r _ h
    from-Leaves block j q r HostMutationState.submitted h =
        search (keeping, terminal-Leaves, polled-Leaves) depth 40
    from-Leaves block j q r HostMutationState.terminal_success h =
        polled-Leaves j r HostMutationState.terminal_success
    from-Leaves block j q r HostMutationState.terminal_failure h =
        polled-Leaves j r HostMutationState.terminal_failure

    block-Leaves :
        (j : PackageUpdateJob) (q : MutationRequest)
        → Leaves amount (resolve_pre_mutation_block_stage p env host parsers settings j q)
    unfolding resolve_pre_mutation_block_stage
    block-Leaves j q =
        let unsealed = λ (r : HostMutationResult). from-Leaves none j q r r.state tt in
        search (keeping, clock-Leaves, sealing-Leaves, uncertain-Leaves, unsealed) depth 40

    resolve-Leaves :
        (j : PackageUpdateJob) (q : MutationRequest) (r : HostMutationResult)
        → Leaves amount (resolve p env host parsers settings j q r)
    unfolding resolve
    resolve-Leaves j q r =
        from-Leaves (some (resolve_pre_mutation_block_stage p env host parsers settings j q)) j q r
          r.state (block-Leaves j q)

    found-Leaves :
        (j : PackageUpdateJob) → Leaves amount (recover_found p env host parsers settings j)
    unfolding recover_found
    found-Leaves j = search (keeping, clock-Leaves, inspect-Leaves, resolve-Leaves) depth 40

    recovery-Leaves :
        (id : String) → Leaves amount (recover_job_owned_mutation p env host parsers settings id)
    unfolding recover_job_owned_mutation
    recovery-Leaves id = search (keeping, found-Leaves, absent-Leaves) depth 40

    -- Let an amount be one that the clock, the sleep, the inspection and the seal leave alone, such as
    -- the number of package commands that the host was made to run. A recovery of a mutation leaves it
    -- as it was, whatever the host answers, so it calls neither the submission nor the preparation of
    -- the host. The tables after it are reached from those before it by calls that record evidence
    -- of the mutation, complete it or seal it.
    pub recovery_keeps_host :
        (id : String) (db : Db) (w : W)
        → (amount (recover_job_owned_mutation p env host parsers settings id db w).2 ≡ amount w)
          × Reach p W
              (may_recover p)
              db
              (recover_job_owned_mutation p env host parsers settings id db w).1
    recovery_keeps_host id db w = (
      (recovery-Leaves id).leaves db w,
      (recovery-Reaches p env host parsers settings id).reaches db w,
    )
