-- ===== src/Authority/Evolution/Mutations.antt =====
-- The execution gate and the package mutation of `app/inventory/authority.py`, by the rules of their
-- statements.
use hubinet_ops.Prelude.{String, List}
use hubinet_ops.Models.{EventLevel, EventType, HostMutationState}
use hubinet_ops.Authority.Platform.{Platform}
use hubinet_ops.Authority.Tables.{Db, Job, Detail, Material, PackageRow}
use hubinet_ops.Authority.Host.{Clock, Host, Sealed}
use hubinet_ops.Authority.Evolution.{Evolves, Evolving, pure_rule, raise_rule, transaction-Evolves}
use hubinet_ops.Authority.Evolution.Proofs.{
  statements, authority-Evolving, detail-Evolving, mutation_identity-Evolving,
}
use hubinet_ops.Authority.Evolution.Updates.{updates}
use hubinet_ops.Authority.Evolution.Hosts.{submission-Evolves, release-Evolves}
use hubinet_ops.Completion.{Verdict, proven, refused, PostState}
use hubinet_ops.Authority.Gate.{
  release_gate_job, terminalize_if_stale, require_active_execution_gate_job, revalidate_or_release,
  mismatch, evaluate_execution_plan,
}
use hubinet_ops.Authority.Mutation.{
  commit_mutation_intent, arm_confirmed, arm_mutation, require_armed_mutation, mutation_proof,
  execute_mutation_submission_if_current, record_mutation_event, require_proven, complete_mutation,
}
use hubinet_ops.Authority.MutationRelease.{
  guard_mutation_release, commit_pre_mutation_block, resolve_pre_mutation_block,
}

module _ (p : Platform) where
  gate-Evolving :
      (clock : Clock) (id : String) (level : EventLevel) (event : EventType) (reason : String)
      (details : List (String × Detail))
      → Evolving p (release_gate_job p clock id level event reason details)
  unfolding release_gate_job
  gate-Evolving clock id level event reason details = search (statements, updates) depth 40

  stale-Evolving : (clock : Clock) (job : Job) → Evolving p (terminalize_if_stale p clock job)
  unfolding terminalize_if_stale
  stale-Evolving clock job = search (statements, gate-Evolving, detail-Evolving) depth 40

  awaits-Evolving : (job : Job) → Evolving p (require_active_execution_gate_job p job)
  unfolding require_active_execution_gate_job
  awaits-Evolving job = search statements depth 40

  mismatch-Evolving :
      (clock : Clock) (id : String) (frozen fresh : List Material)
      → Evolving p (mismatch p clock id frozen fresh)
  unfolding mismatch
  mismatch-Evolving clock id frozen fresh = search (statements, gate-Evolving) depth 40

  pub revalidation-Evolves :
      (clock : Clock) (id : String) (db : Db) → Evolves p db (revalidate_or_release p clock id db).1
  unfolding revalidate_or_release
  revalidation-Evolves clock id db =
      search (transaction-Evolves, statements, stale-Evolving, awaits-Evolving) depth 40

  pub evaluation-Evolves :
      (clock : Clock) (id : String) (packages : List PackageRow) (db : Db)
      → Evolves p db (evaluate_execution_plan p clock id packages db).1
  unfolding evaluate_execution_plan
  evaluation-Evolves clock id packages db =
      search (transaction-Evolves, statements, stale-Evolving, awaits-Evolving, mismatch-Evolving)
        depth 40

  intent-Evolving :
      (clock : Clock) (id operation : String) (frozen : List Material) (digest : String)
      → Evolving p (commit_mutation_intent p clock id operation frozen digest)
  unfolding commit_mutation_intent
  intent-Evolving clock id operation frozen digest = search (statements, updates) depth 40

  confirmed-Evolving :
      (clock : Clock) (id : String) (job : Job) (fresh : List Material) (digest : String)
      → Evolving p (arm_confirmed p clock id job fresh digest)
  unfolding arm_confirmed
  confirmed-Evolving clock id job fresh digest =
      search
        (statements, stale-Evolving, mutation_identity-Evolving, intent-Evolving, mismatch-Evolving)
        depth 40

  armed-Evolving : (id : String) → Evolving p (require_armed_mutation p id)
  unfolding require_armed_mutation
  armed-Evolving id = search statements depth 40

  pub mutation_arming-Evolves :
      (clock : Clock) (id : String) (packages : List PackageRow) (digest : String) (db : Db)
      → Evolves p db (arm_mutation p clock id packages digest db).1
  unfolding arm_mutation
  mutation_arming-Evolves clock id packages digest db =
      search (transaction-Evolves, statements, confirmed-Evolving, mutation_identity-Evolving) depth
        40

  mutation_proof-Evolving :
      (clock : Clock) (id digest : String) → Evolving p (mutation_proof p clock id digest)
  unfolding mutation_proof
  mutation_proof-Evolving clock id digest =
      search (statements, armed-Evolving, authority-Evolving) depth 40

  pub mutation_submission-Evolves :
      {W A : Type 0} (clock : Clock) (id digest : String) (submit : Host W A) (db : Db) (w : W)
      → Evolves p db (execute_mutation_submission_if_current p clock id digest submit db w).1
  unfolding execute_mutation_submission_if_current
  mutation_submission-Evolves clock id digest submit db w =
      search (submission-Evolves, mutation_proof-Evolving)

  pub mutation_event-Evolves :
      (level : EventLevel) (event : EventType) (clock : Clock) (id reason : String) (db : Db)
      → Evolves p db (record_mutation_event p level event clock id reason db).1
  unfolding record_mutation_event
  mutation_event-Evolves level event clock id reason db =
      search (transaction-Evolves, statements, armed-Evolving) depth 40

  proven-Evolving : (v : Verdict) → Evolving p (require_proven p v)
  proven-Evolving proven = pure_rule p tt
  proven-Evolving (refused r) = raise_rule p _

  pub mutation_completion-Evolves :
      (clock : Clock) (id : String) (post_state : PostState) (db : Db)
      → Evolves p db (complete_mutation p clock id post_state db).1
  unfolding complete_mutation
  mutation_completion-Evolves clock id post_state db =
      search (transaction-Evolves, statements, updates, proven-Evolving) depth 40

  pub mutation_release-Evolves :
      {W A : Type 0} (clock : Clock) (id : String) (seal : Host W (Sealed HostMutationState A))
      (db : Db) (w : W)
      → Evolves p db (resolve_pre_mutation_block p clock id seal db w).1
  unfolding resolve_pre_mutation_block guard_mutation_release commit_pre_mutation_block
  mutation_release-Evolves clock id seal db w =
      search (release-Evolves, statements, updates, armed-Evolving) depth 40
