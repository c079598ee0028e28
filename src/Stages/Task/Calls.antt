-- ===== src/Stages/Task/Calls.antt =====
-- The poll of a PVE task makes no call of the authority.
use hubinet_ops.Prelude.{String, Bool, not, ℕ, zero, suc, Option}
use hubinet_ops.Authority.Platform.{Platform}
use hubinet_ops.Authority.Calls.{Call}
use hubinet_ops.Stages.Run.{Environment, Stage}
use hubinet_ops.Stages.Task.{
  Phases, HostTaskResult, TaskSettings, durable_proof, proven_in_flight, pending, poll,
  poll_until_resolved,
}
use hubinet_ops.Stages.Reach.{Reaches, bind_reach, if_reach, pure_reach}
use hubinet_ops.Stages.Reach.Rules.{constructs}

module _ (p : Platform) (W : Type 0) (may : (A : Type 0) → Call p W A → Bool) where
  poll-Reaches :
      {S : Type 0} (phases : Phases S) (env : Environment W) (inspect : Stage W (HostTaskResult S))
      → Reaches p W may inspect
      → (fuel interval deadline : ℕ) (proven : Option S)
      → Reaches p W may (poll phases env inspect fuel interval deadline proven)
  unfolding poll
  poll-Reaches phases env inspect x zero interval deadline proven = bind_reach p W may x (λ fresh.
      if_reach p W may (not (pending phases fresh (proven_in_flight phases fresh proven)))
        (pure_reach p W may fresh) (search constructs depth 40))
  poll-Reaches phases env inspect x (suc fuel) interval deadline proven =
      let later = poll-Reaches phases env inspect x fuel interval deadline in
      bind_reach p W may x (λ fresh.
        if_reach p W may (not (pending phases fresh (proven_in_flight phases fresh proven)))
          (pure_reach p W may fresh) (search (constructs, later) depth 40))

  pub resolved-Reaches :
      {S : Type 0} (phases : Phases S) (env : Environment W) (inspect : Stage W (HostTaskResult S))
      (settings : TaskSettings) (recorded : Option String) (result : HostTaskResult S)
      → Reaches p W may inspect
      → Reaches p W may (poll_until_resolved phases env inspect settings recorded result)
  unfolding poll_until_resolved
  resolved-Reaches phases env inspect settings recorded result x =
      let proven = proven_in_flight phases result (durable_proof phases recorded) in
      let loop = poll-Reaches phases env inspect x in
      if_reach p W may (not (pending phases result proven)) (pure_reach p W may result)
        (search (constructs, loop) depth 40)
