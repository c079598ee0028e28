-- ===== src/Authority/Evolution/Rollbacks.antt =====
-- The health stage, the rollback and the recovery of `app/inventory/authority.py`, by the rules of
-- their statements.
use hubinet_ops.Prelude.{String, Bool, List, Option, ℕ, [], ◌∷◌, sym}
use mathlib.Core.List.{append-nil}
use hubinet_ops.Models.{EventLevel, EventType, HostRollbackState, HealthOutcome}
use hubinet_ops.Authority.Platform.{Platform}
use hubinet_ops.Authority.Tables.{Db, Job, Time, FrozenProbe}
use hubinet_ops.Authority.Host.{Clock, Host, Sealed}
use hubinet_ops.Authority.Ownership.{ObservedSnapshot}
use hubinet_ops.Authority.Evolution.{Evolves, Evolving, JobsEvolve-refl, transaction-Evolves}
use hubinet_ops.Authority.Evolution.Proofs.{
  statements, snapshot_ownership-Evolving, rollback_identity-Evolving,
}
use hubinet_ops.Authority.Evolution.Updates.{updates}
use hubinet_ops.Authority.Evolution.Hosts.{submission-Evolves, release-Evolves}
use hubinet_ops.Prelude.{none, some}
use hubinet_ops.Health.{Observation}
use hubinet_ops.Authority.HealthStage.{
  job_health, require_coherent_frozen_contract, start_health, insert_results,
  insert_post_scan_request, commit_passed, commit_failed, commit_verdict, complete_health,
}
use hubinet_ops.Authority.HealthUnknown.{evidence_details, record_health_outcome_unknown}
use hubinet_ops.Authority.Rollback.{
  commit_rollback_intent, arm_rollback, require_armed_rollback, rollback_proof,
  execute_rollback_submission_if_current, record_rollback_task, record_rollback_event,
}
use hubinet_ops.Authority.RollbackCompletion.{
  resolve_pre_rollback_block, complete_armed_rollback, complete_rollback,
}
use hubinet_ops.Authority.Recovery.{interrupt_jobs, bump_if_any, recover_interrupted}

module _ (p : Platform) where
  health-Evolving : (job : Job) → Evolving p (job_health p job)
  unfolding job_health
  health-Evolving job = search statements depth 40

  frozen-Evolving : (id : String) → Evolving p (require_coherent_frozen_contract p id)
  unfolding require_coherent_frozen_contract
  frozen-Evolving id = search (statements, health-Evolving) depth 40

  results-Evolving :
      (at : Time) (id : String) (seen : List Observation) → Evolving p (insert_results p at id seen)
  unfolding insert_results
  results-Evolving at id seen = record {
    evolves = λ db. record {
      jobs = JobsEvolve-refl p db.jobs;
      added = [];
      events = sym (append-nil db.events);
    };
  }

  request-Evolving :
      (id resource : String) (at : Time) → Evolving p (insert_post_scan_request p id resource at)
  unfolding insert_post_scan_request
  request-Evolving id resource at = record {
    evolves = λ db. record {
      jobs = JobsEvolve-refl p db.jobs;
      added = [];
      events = sym (append-nil db.events);
    };
  }

  verdict-Evolving :
      (clock : Clock) (id : String) (job : Job) (probes : List FrozenProbe)
      (seen : List Observation) (o : Option HealthOutcome)
      → Evolving p (commit_verdict p clock id job probes seen o)
  unfolding commit_verdict commit_passed commit_failed
  verdict-Evolving clock id job probes seen none = search statements
  verdict-Evolving clock id job probes seen (some HealthOutcome.passed) =
      search (statements, updates, results-Evolving, request-Evolving) depth 40
  verdict-Evolving clock id job probes seen (some HealthOutcome.failed) =
      search (statements, updates, results-Evolving) depth 40
  verdict-Evolving clock id job probes seen (some HealthOutcome.unknown) = search statements

  pub health_start-Evolves :
      (clock : Clock) (id : String) (db : Db) → Evolves p db (start_health p clock id db).1
  unfolding start_health
  health_start-Evolves clock id db =
      search (transaction-Evolves, statements, updates, frozen-Evolving) depth 40

  pub health_verdict-Evolves :
      (clock : Clock) (id : String) (seen : List Observation) (db : Db)
      → Evolves p db (complete_health p clock id seen db).1
  unfolding complete_health
  health_verdict-Evolves clock id seen db =
      search (transaction-Evolves, statements, frozen-Evolving, verdict-Evolving) depth 40

  evidence-Evolving : (seen : List Observation) → Evolving p (evidence_details seen)
  unfolding evidence_details
  evidence-Evolving [] = search statements
  evidence-Evolving (o ∷ os) = let rest = evidence-Evolving os in search statements depth 40

  pub health_unknown-Evolves :
      (clock : Clock) (id reason : String) (seen : List Observation)
      (rounds settled span : Option ℕ) (db : Db)
      → Evolves p db (record_health_outcome_unknown p clock id reason seen rounds settled span db).1
  unfolding record_health_outcome_unknown
  health_unknown-Evolves clock id reason seen rounds settled span db =
      search (transaction-Evolves, statements, evidence-Evolving) depth 40

  intent-Evolving :
      (clock : Clock) (id operation : String) (job : Job)
      → Evolving p (commit_rollback_intent p clock id operation job)
  unfolding commit_rollback_intent
  intent-Evolving clock id operation job = search (statements, updates) depth 40

  armed-Evolving : (id : String) → Evolving p (require_armed_rollback p id)
  unfolding require_armed_rollback
  armed-Evolving id = search statements depth 40

  pub rollback_arming-Evolves :
      (clock : Clock) (id : String) (observed : List ObservedSnapshot) (db : Db)
      → Evolves p db (arm_rollback p clock id observed db).1
  unfolding arm_rollback
  rollback_arming-Evolves clock id observed db =
      search
        (
          transaction-Evolves, statements, intent-Evolving, rollback_identity-Evolving,
          snapshot_ownership-Evolving,
        )
        depth 40

  rollback_proof-Evolving : (id : String) → Evolving p (rollback_proof p id)
  unfolding rollback_proof
  rollback_proof-Evolving id =
      search (statements, armed-Evolving, rollback_identity-Evolving) depth 40

  pub rollback_submission-Evolves :
      {W A : Type 0} (id : String) (submit : Host W A) (db : Db) (w : W)
      → Evolves p db (execute_rollback_submission_if_current p id submit db w).1
  unfolding execute_rollback_submission_if_current
  rollback_submission-Evolves id submit db w = search (submission-Evolves, rollback_proof-Evolving)

  pub rollback_task-Evolves :
      (clock : Clock) (id upid : String) (db : Db)
      → Evolves p db (record_rollback_task p clock id upid db).1
  unfolding record_rollback_task
  rollback_task-Evolves clock id upid db =
      search (transaction-Evolves, statements, updates, armed-Evolving) depth 40

  pub rollback_event-Evolves :
      (level : EventLevel) (event : EventType) (clock : Clock) (id reason : String) (db : Db)
      → Evolves p db (record_rollback_event p level event clock id reason db).1
  unfolding record_rollback_event
  rollback_event-Evolves level event clock id reason db =
      search (transaction-Evolves, statements, armed-Evolving) depth 40

  pub rollback_release-Evolves :
      {W A : Type 0} (clock : Clock) (id : String) (seal : Host W (Sealed HostRollbackState A))
      (db : Db) (w : W)
      → Evolves p db (resolve_pre_rollback_block p clock id seal db w).1
  unfolding resolve_pre_rollback_block
  rollback_release-Evolves clock id seal db w =
      search (release-Evolves, statements, updates, armed-Evolving) depth 40

  completion-Evolving :
      (clock : Clock) (id : String) (observed : List ObservedSnapshot) (succeeded : Bool)
      → Evolving p (complete_armed_rollback p clock id observed succeeded)
  unfolding complete_armed_rollback
  completion-Evolving clock id observed succeeded =
      search
        (
          statements, updates, armed-Evolving, rollback_identity-Evolving,
          snapshot_ownership-Evolving,
        )
        depth 40

  pub rollback_completion-Evolves :
      (clock : Clock) (id : String) (observed : List ObservedSnapshot) (succeeded : Bool) (db : Db)
      → Evolves p db (complete_rollback p clock id observed succeeded db).1
  unfolding complete_rollback
  rollback_completion-Evolves clock id observed succeeded db =
      search (transaction-Evolves, statements, completion-Evolving, rollback_identity-Evolving)
        depth 40

  interrupt-Evolving : (clock : Clock) (rows : List Job) → Evolving p (interrupt_jobs p clock rows)
  unfolding interrupt_jobs
  interrupt-Evolving clock [] = search statements
  interrupt-Evolving clock (row ∷ rows) =
      let rest = interrupt-Evolving clock rows in search (statements, updates) depth 40

  bump-Evolving : (clock : Clock) (rows : List Job) → Evolving p (bump_if_any p clock rows)
  bump-Evolving clock [] = search statements
  bump-Evolving clock (row ∷ rows) = search statements

  pub recovery-Evolves : (clock : Clock) (db : Db) → Evolves p db (recover_interrupted p clock db).1
  unfolding recover_interrupted
  recovery-Evolves clock db =
      search (transaction-Evolves, statements, interrupt-Evolving, bump-Evolving) depth 40
