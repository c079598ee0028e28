-- ===== src/Authority/Calls/History.antt =====
-- Histories of the calls of `app/inventory/authority.py`, by the rules of each call.
use hubinet_ops.Prelude.{List, [], ◌∷◌}
use hubinet_ops.Authority.Platform.{Platform}
use hubinet_ops.Authority.Tables.{Db}
use hubinet_ops.Authority.Mutation.{
  record_mutation_uncertain, record_mutation_submitted, record_mutation_terminal_failure,
}
use hubinet_ops.Authority.Rollback.{
  record_rollback_submitted, record_rollback_uncertain, record_rollback_terminal_failure,
}
use hubinet_ops.Authority.Evolution.{Evolves, Evolves-refl, Evolves-trans}
use hubinet_ops.Authority.Evolution.Snapshots.{
  preflight-Evolves, snapshot_intent-Evolves, snapshot_submission-Evolves, snapshot_task-Evolves,
  snapshot_uncertain-Evolves, snapshot_confirm-Evolves, stale_snapshot-Evolves,
  snapshot_failure-Evolves, snapshot_release-Evolves, rollback_target-Evolves,
}
use hubinet_ops.Authority.Evolution.Mutations.{
  revalidation-Evolves, evaluation-Evolves, mutation_arming-Evolves, mutation_submission-Evolves,
  mutation_event-Evolves, mutation_completion-Evolves, mutation_release-Evolves,
}
use hubinet_ops.Authority.Evolution.Rollbacks.{
  health_start-Evolves, health_verdict-Evolves, health_unknown-Evolves, rollback_arming-Evolves,
  rollback_submission-Evolves, rollback_task-Evolves, rollback_event-Evolves,
  rollback_completion-Evolves, rollback_release-Evolves, recovery-Evolves,
}
use hubinet_ops.Authority.Calls.{Call, run_db, replay}

module _ (p : Platform) {W A : Type 0} where
  pub run-Evolves : (c : Call p W A) (db : Db) (w : W) → Evolves p db (run_db p W A c db w)
  unfolding run_db record_mutation_uncertain record_mutation_submitted
      record_mutation_terminal_failure record_rollback_submitted record_rollback_uncertain
      record_rollback_terminal_failure
  run-Evolves (Call.preflight c id) db w = preflight-Evolves p c id db
  run-Evolves (Call.snapshot_intent c id) db w = snapshot_intent-Evolves p c id db
  run-Evolves (Call.revalidate c id) db w = revalidation-Evolves p c id db
  run-Evolves (Call.start c id) db w = health_start-Evolves p c id db
  run-Evolves (Call.submit_snapshot c id f) db w = snapshot_submission-Evolves p c id f db w
  run-Evolves (Call.snapshot_task c id u) db w = snapshot_task-Evolves p c id u db
  run-Evolves (Call.snapshot_uncertain c id r) db w = snapshot_uncertain-Evolves p c id r db
  run-Evolves (Call.snapshot_confirm c id o) db w = snapshot_confirm-Evolves p c id o db
  run-Evolves (Call.snapshot_stale c id o) db w = stale_snapshot-Evolves p c id o db
  run-Evolves (Call.snapshot_failure c id r o) db w = snapshot_failure-Evolves p c id r o db
  run-Evolves (Call.seal_snapshot c id f) db w = snapshot_release-Evolves p c id f db w
  run-Evolves (Call.rollback_target id o) db w = rollback_target-Evolves p id o db
  run-Evolves (Call.evaluate c id k) db w = evaluation-Evolves p c id k db
  run-Evolves (Call.arm c id k d) db w = mutation_arming-Evolves p c id k d db
  run-Evolves (Call.submit_mutation c id d f) db w = mutation_submission-Evolves p c id d f db w
  run-Evolves (Call.mutation_uncertain c id r) db w = mutation_event-Evolves p _ _ c id r db
  run-Evolves (Call.mutation_submitted c id r) db w = mutation_event-Evolves p _ _ c id r db
  run-Evolves (Call.mutation_failure c id r) db w = mutation_event-Evolves p _ _ c id r db
  run-Evolves (Call.mutation_complete c id s) db w = mutation_completion-Evolves p c id s db
  run-Evolves (Call.seal_mutation c id f) db w = mutation_release-Evolves p c id f db w
  run-Evolves (Call.verdict c id o) db w = health_verdict-Evolves p c id o db
  run-Evolves (Call.no_verdict c id r o x y z) db w = health_unknown-Evolves p c id r o x y z db
  run-Evolves (Call.arm_back c id o) db w = rollback_arming-Evolves p c id o db
  run-Evolves (Call.submit_rollback id f) db w = rollback_submission-Evolves p id f db w
  run-Evolves (Call.rollback_task c id u) db w = rollback_task-Evolves p c id u db
  run-Evolves (Call.rollback_submitted c id r) db w = rollback_event-Evolves p _ _ c id r db
  run-Evolves (Call.rollback_uncertain c id r) db w = rollback_event-Evolves p _ _ c id r db
  run-Evolves (Call.rollback_failure c id r) db w = rollback_event-Evolves p _ _ c id r db
  run-Evolves (Call.rollback_complete c id o b) db w = rollback_completion-Evolves p c id o b db
  run-Evolves (Call.seal_rollback c id f) db w = rollback_release-Evolves p c id f db w
  run-Evolves (Call.restart c) db w = recovery-Evolves p c db

  pub replay-Evolves :
      (cs : List (Call p W A)) (db : Db) (w : W) → Evolves p db (replay p W A cs db w)
  unfolding replay
  replay-Evolves [] db w = Evolves-refl p db
  replay-Evolves (c ∷ cs) db w = Evolves-trans p (run-Evolves c db w) (replay-Evolves cs _ _)
