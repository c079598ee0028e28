-- ===== src/Stages/Health/Calls.antt =====
-- What the health stage of `app/package_update_health.py` does to the tables.
use hubinet_ops.Prelude.{ℕ, String, Bool, true, false, Option, none, some, List}
use hubinet_ops.Models.{HealthOutcome}
use hubinet_ops.Authority.Platform.{Platform}
use hubinet_ops.Authority.Result.{health_context_changed}
use hubinet_ops.Authority.HealthStage.{HealthRequest}
use hubinet_ops.Authority.Calls.{Call}
use hubinet_ops.Health.{Observation}
use hubinet_ops.Stages.Run.{Raised, authority, fault, health_refused, Environment, PackageUpdateJob}
use hubinet_ops.Stages.Reach.{Reaches}
use hubinet_ops.Stages.Reach.Rules.{constructs, health_start_reach, verdict_reach, no_verdict_reach}
use hubinet_ops.Stages.Health.{
  HostHealthResult, HealthStageStatus, HealthHost, Validation, accepted, rejected, unknown_with,
  no_answer, no_verdict, on_completion, commit, stop_or_unknown, after_aggregate, judge,
  after_validation, on_host, ask_host, evaluate_started, evaluate_job_health,
}

module _ (p : Platform) {W : Type 0} where
  -- The calls of a health stage.
  abbrev pub may_evaluate : (A : Type 0) → Call p W A → Bool
  may_evaluate A (Call.start _ _) = true
  may_evaluate A (Call.verdict _ _ _) = true
  may_evaluate A (Call.no_verdict _ _ _ _ _ _ _) = true
  may_evaluate A _ = false

  module _ (env : Environment W) where
    unknown-Reaches :
        (id token detail : String) (os : List Observation) (x y z : Option ℕ)
        → Reaches p W may_evaluate (unknown_with p env id token detail os x y z)
    unfolding unknown_with
    unknown-Reaches id token detail os x y z = search (constructs, no_verdict_reach) depth 40

    answer-Reaches :
        (id token detail : String) → Reaches p W may_evaluate (no_answer p env id token detail)
    unfolding no_answer
    answer-Reaches id token detail = unknown-Reaches id token detail _ _ _ _

    verdict-Reaches :
        (id token detail : String) (os : List Observation) (r : HostHealthResult)
        → Reaches p W may_evaluate (no_verdict p env id token detail os r)
    unfolding no_verdict
    verdict-Reaches id token detail os r = unknown-Reaches id token detail _ _ _ _

    completion-Reaches :
        (id : String) (e : Raised) → Reaches p W may_evaluate (on_completion p env id e)
    completion-Reaches id (authority health_context_changed) = answer-Reaches id _ _
    completion-Reaches id e = search constructs depth 40

    commit-Reaches :
        (id : String) (os : List Observation) (s : HealthStageStatus)
        → Reaches p W may_evaluate (commit p env id os s)
    unfolding commit
    commit-Reaches id os s = search (constructs, verdict_reach, completion-Reaches) depth 40

    stop-Reaches :
        (id : String) (os : List Observation) (r : HostHealthResult) (o : Option Observation)
        → Reaches p W may_evaluate (stop_or_unknown p env id os r o)
    stop-Reaches id os r none = search constructs depth 40
    stop-Reaches id os r (some o) = verdict-Reaches id _ _ os r

    aggregate-Reaches :
        (id : String) (os : List Observation) (r : HostHealthResult) (o : Option HealthOutcome)
        → Reaches p W may_evaluate (after_aggregate p env id os r o)
    unfolding after_aggregate
    aggregate-Reaches id os r none = search constructs depth 40
    aggregate-Reaches id os r (some HealthOutcome.unknown) = stop-Reaches id os r _
    aggregate-Reaches id os r (some HealthOutcome.passed) = commit-Reaches id os _
    aggregate-Reaches id os r (some HealthOutcome.failed) = commit-Reaches id os _

    judge-Reaches :
        (id : String) (os : List Observation) (r : HostHealthResult)
        → Reaches p W may_evaluate (judge p env id os r)
    unfolding judge
    judge-Reaches id os r = search (constructs, verdict-Reaches, aggregate-Reaches) depth 40

    validation-Reaches :
        (id : String) (r : HostHealthResult) (v : Validation (List Observation))
        → Reaches p W may_evaluate (after_validation p env id r v)
    unfolding after_validation
    validation-Reaches id r (rejected m) = answer-Reaches id _ m
    validation-Reaches id r (accepted os) =
        search (constructs, judge-Reaches, answer-Reaches) depth 40

    host-Reaches : (id : String) (e : Raised) → Reaches p W may_evaluate (on_host p env id e)
    host-Reaches id (fault (health_refused reason message)) = answer-Reaches id reason message
    host-Reaches id e = answer-Reaches id _ _

    module _ (host : HealthHost W) where
      ask-Reaches :
          (j : PackageUpdateJob) (q : HealthRequest)
          → Reaches p W may_evaluate (ask_host p env host j q)
      unfolding ask_host
      ask-Reaches j q = search (constructs, validation-Reaches, host-Reaches) depth 40

      started-Reaches :
          (j : PackageUpdateJob) → Reaches p W may_evaluate (evaluate_started p env host j)
      unfolding evaluate_started
      started-Reaches j =
          search (constructs, health_start_reach, ask-Reaches, answer-Reaches) depth 40

      -- Whatever the host answers, the tables after a health evaluation are reached from those before
      -- it by the calls that start it, commit its verdict, or record that there is none.
      pub evaluation-Reaches :
          (id : String) → Reaches p W may_evaluate (evaluate_job_health p env host id)
      unfolding evaluate_job_health
      evaluation-Reaches id = search (constructs, started-Reaches) depth 40
