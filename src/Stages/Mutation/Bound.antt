-- ===== src/Stages/Mutation/Bound.antt =====
-- The rounds of the poll of `app/package_update_mutation.py`.
use hubinet_ops.Prelude.{ℕ, zero, suc, ◌+◌, ◌*◌, ◌≤◌, not, ◌&&◌, refl, arith, leb}
use hubinet_ops.Authority.Tables.{Db}
use hubinet_ops.Stages.Run.{Environment}
use hubinet_ops.Stages.Reads.{MutationRequest}
use hubinet_ops.Stages.Task.Bound.{
  Ticks, Inspects, Answers, asking-Inspects, next-Answers, if-Answers, later, spent, enough_later,
}
use hubinet_ops.Stages.Mutation.Boundary.{HostMutationResult, MutationHost, MutationSettings}
use hubinet_ops.Stages.Mutation.Polling.{inspect, is_submitted, poll, poll_until_terminal}

module _ {W : Type 0} (env : Environment W) (host : MutationHost W) (request : MutationRequest)
    (ticks : Ticks env (host.inspect_state request)) where
  inspection-Inspects : Inspects env (inspect env host request)
  unfolding inspect
  inspection-Inspects = asking-Inspects env (host.inspect_state request) ticks _ _

  slept :
      (db : Db) (w : W) (interval : ℕ)
      → env.monotonic w + interval
        ≤ env.monotonic (inspect env host request db (env.sleep interval w)).2
  slept db w interval =
      let sleeping = ticks.sleeps interval w in
      let asking = inspection-Inspects.lasts db (env.sleep interval w) in omega arith

  poll-Answers :
      (fuel interval deadline : ℕ) (result : HostMutationResult) (db : Db) (w : W)
      → deadline ≤ env.monotonic w + fuel * interval
      → Answers (poll env host fuel interval deadline request result db w)
  unfolding poll
  poll-Answers zero interval deadline result db w h =
      if-Answers (leb deadline (env.monotonic w)) _ _ _ _ (result, refl)
        (λ early.
          let late = spent deadline _ (env.monotonic w) interval h (omega arith) in
          let soon = later deadline (env.monotonic w) early in absurd (ground arith))
  poll-Answers (suc fuel) interval deadline result db w h =
      if-Answers (leb deadline (env.monotonic w)) _ _ _ _ (result, refl)
        (λ early.
          next-Answers (inspect env host request db (env.sleep interval w)) _
            (inspection-Inspects.answers db (env.sleep interval w))
            (λ fresh.
              if-Answers (not (is_submitted fresh && fresh.running)) _ _ _ _ (fresh, refl)
                (λ waits. poll-Answers fuel interval deadline fresh _ _ (
                  enough_later deadline (env.monotonic w) (env.monotonic w) _ interval fuel h
                    (omega arith) (slept db w interval)))))

  -- Where a sleep takes at least its time, the monotonic clock does not go back while the host is
  -- asked, and the rounds of fuel cover the timeout, the poll of a mutation gives a result, whatever
  -- the host answers.
  pub mutation_poll-Answers :
      (settings : MutationSettings) (result : HostMutationResult) (db : Db) (w : W)
      → settings.poll_timeout ≤ settings.poll_fuel * settings.poll_interval
      → Answers (poll_until_terminal env host settings request result db w)
  unfolding poll_until_terminal
  mutation_poll-Answers settings result db w h =
      if-Answers (not (is_submitted result && result.running)) _ _ _ _ (result, refl)
        (λ waits.
          poll-Answers settings.poll_fuel settings.poll_interval
            (env.monotonic w + settings.poll_timeout) result db w (omega arith))
