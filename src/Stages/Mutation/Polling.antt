-- ===== src/Stages/Mutation/Polling.antt =====
-- The bounded reads of `app/package_update_mutation.py`: `_inspect`, `_poll_until_terminal` and
-- `_validated`.
use hubinet_ops.Prelude.{
  ℕ, zero, suc, ◌+◌, String, Bool, false, not, ◌&&◌, none, some, ◌==◌, leb, if◌then◌else◌,
  string_eq,
}
use hubinet_ops.Models.{HostMutationState, mutation_state_eq}
use hubinet_ops.Stages.Run.{
  out_of_fuel, Environment, Stage, ◌>>=◌, ◌>>◌, pure, raise, attempt, asking, observing, moving,
}
use hubinet_ops.Stages.Reads.{MutationRequest, ◌<>◌}
use hubinet_ops.Stages.Mutation.Boundary.{HostMutationResult, MutationHost, MutationSettings}

-- An answer that is treated as submitted, which never releases a job.
abbrev pub unresolved : String → String → HostMutationResult
unresolved operation reason = record {
  mutation_operation_id = operation;
  state = HostMutationState.submitted;
  running = false;
  reason = some reason;
  os_release = none;
  native_architecture = none;
  installed_inventory = none;
  simulation_stdout = none;
  prepared_evidence_digest = none;
  evidence = none;
}

-- `_validated`
unfoldable pub validated : HostMutationResult → String → HostMutationResult
validated result operation =
    if result.mutation_operation_id == operation
    then result
    else unresolved operation "host answered about a different package mutation operation"

abbrev pub is_submitted : HostMutationResult → Bool
is_submitted result = result.state == HostMutationState.submitted

module _ {W : Type 0} (env : Environment W) (host : MutationHost W) where
  -- `_inspect`
  unfoldable pub inspect : MutationRequest → Stage W HostMutationResult
  unfolding validated
  inspect request =
      attempt (asking (host.inspect_state request))
        (λ answer. pure (validated answer request.mutation_operation_id))
        (λ e. pure (
          unresolved request.mutation_operation_id
            ("package mutation host inspection did not return an outcome: " <> env.name e)))

  -- The `while True` of `_poll_until_terminal`.
  unfoldable pub poll :
      ℕ → ℕ → ℕ → MutationRequest → HostMutationResult → Stage W HostMutationResult
  unfolding inspect
  poll zero interval deadline request result = do
    now ← observing env.monotonic
    if leb deadline now then pure result else raise out_of_fuel
  poll (suc fuel) interval deadline request result = do
    now ← observing env.monotonic
    if leb deadline now then pure result else (do
      moving (λ w. (tt, env.sleep interval w))
      fresh ← inspect request
      if not (is_submitted fresh && fresh.running)
          then pure fresh
          else poll fuel interval deadline request fresh)

  -- `_poll_until_terminal`
  unfoldable pub poll_until_terminal :
      MutationSettings → MutationRequest → HostMutationResult → Stage W HostMutationResult
  unfolding poll
  poll_until_terminal settings request result =
      if not (is_submitted result && result.running) then pure result else (do
        now ← observing env.monotonic
        poll settings.poll_fuel settings.poll_interval (now + settings.poll_timeout) request result)
