-- ===== src/Stages/Execution/Calls.antt =====
-- What the gate of `app/package_update_execution.py` does to the tables.
use hubinet_ops.Prelude.{String, Bool, true, false, List}
use hubinet_ops.Authority.Platform.{Platform}
use hubinet_ops.Authority.Result.{authority_not_found, temporarily_unavailable}
use hubinet_ops.Authority.Tables.{PackageRow}
use hubinet_ops.Authority.Calls.{Call}
use hubinet_ops.Stages.Run.{Raised, authority, Environment, PackageUpdateJob}
use hubinet_ops.Stages.Mutation.Boundary.{Parsers, Parsed, parsed, malformed}
use hubinet_ops.Stages.Reach.{Reaches}
use hubinet_ops.Stages.Reach.Rules.{constructs, revalidation_reach, evaluation_reach}
use hubinet_ops.Stages.Execution.{
  ExecutionHost, on_refusal, decide, simulate, revalidate_and_simulate, on_missing,
  run_execution_gate,
}

module _ (p : Platform) {W : Type 0} where
  -- The calls of the gate.
  abbrev pub may_gate : (A : Type 0) → Call p W A → Bool
  may_gate A (Call.revalidate _ _) = true
  may_gate A (Call.evaluate _ _ _) = true
  may_gate A _ = false

  module _ (env : Environment W) (host : ExecutionHost W) (parsers : Parsers) where
    refusal-Reaches :
        (j : PackageUpdateJob) (e : Raised)
        → Reaches p W may_gate (on_refusal p env host parsers j e)
    refusal-Reaches j (authority authority_not_found) = search constructs depth 40
    refusal-Reaches j (authority temporarily_unavailable) = search constructs depth 40
    refusal-Reaches j e = search constructs depth 40

    missing-Reaches : (e : Raised) → Reaches p W may_gate (on_missing p env host parsers e)
    missing-Reaches (authority authority_not_found) = search constructs depth 40
    missing-Reaches e = search constructs depth 40

    decide-Reaches :
        (id : String) (j : PackageUpdateJob) (plan : Parsed (List PackageRow))
        → Reaches p W may_gate (decide p env host parsers id j plan)
    unfolding decide
    decide-Reaches id j (malformed text) = search constructs depth 40
    decide-Reaches id j (parsed packages) =
        search (constructs, evaluation_reach, refusal-Reaches) depth 40

    simulate-Reaches :
        (id : String) (j : PackageUpdateJob)
        → Reaches p W may_gate (simulate p env host parsers id j)
    unfolding simulate
    simulate-Reaches id j = search (constructs, decide-Reaches) depth 40

    revalidate-Reaches :
        (id : String) (j : PackageUpdateJob)
        → Reaches p W may_gate (revalidate_and_simulate p env host parsers id j)
    unfolding revalidate_and_simulate
    revalidate-Reaches id j =
        search (constructs, revalidation_reach, simulate-Reaches, refusal-Reaches) depth 40

    -- Whatever the host answers, the tables after the execution gate are reached from those before
    -- it by calls that release a stale job or compare the plan: no call arms or submits anything.
    pub gate-Reaches :
        (id : String) → Reaches p W may_gate (run_execution_gate p env host parsers id)
    unfolding run_execution_gate
    gate-Reaches id = search (constructs, revalidate-Reaches, missing-Reaches) depth 40
