-- ===== src/Authority/Calls.antt =====
-- Every transition of `app/inventory/authority.py` that writes a job, as a call, and the histories
-- that sequences of calls make. Writers are serialized by BEGIN IMMEDIATE, so a history is a list.
pub mod History
pub mod Safety
pub mod Endings
use hubinet_ops.Prelude.{String, Bool, List, [], ◌∷◌, Option, ℕ}
use hubinet_ops.Models.{
  EventLevel, EventType, HostSubmissionState, HostMutationState, HostRollbackState,
}
use hubinet_ops.Authority.Platform.{Platform}
use hubinet_ops.Authority.Tables.{Db, PackageRow}
use hubinet_ops.Authority.Host.{Clock, Host, Sealed}
use hubinet_ops.Authority.Ownership.{ObservedSnapshot}
use hubinet_ops.Completion.{PostState}
use hubinet_ops.Health.{Observation}
use hubinet_ops.Authority.Snapshot.{
  record_preflight_passed, record_snapshot_intent, execute_snapshot_submission_if_current,
  record_snapshot_task, confirm_snapshot,
}
use hubinet_ops.Authority.SnapshotRelease.{
  record_snapshot_uncertain, fail_snapshot, resolve_pre_submission_block,
  block_after_snapshot_success_with_stale_authority, select_rollback_target,
}
use hubinet_ops.Authority.Gate.{revalidate_or_release, evaluate_execution_plan}
use hubinet_ops.Authority.Mutation.{
  arm_mutation, execute_mutation_submission_if_current, record_mutation_uncertain,
  record_mutation_submitted, record_mutation_terminal_failure, complete_mutation,
}
use hubinet_ops.Authority.MutationRelease.{resolve_pre_mutation_block}
use hubinet_ops.Authority.HealthStage.{start_health, complete_health}
use hubinet_ops.Authority.HealthUnknown.{record_health_outcome_unknown}
use hubinet_ops.Authority.Rollback.{
  arm_rollback, execute_rollback_submission_if_current, record_rollback_task,
  record_rollback_submitted, record_rollback_uncertain, record_rollback_terminal_failure,
}
use hubinet_ops.Authority.RollbackCompletion.{resolve_pre_rollback_block, complete_rollback}
use hubinet_ops.Authority.Recovery.{recover_interrupted}

module _ (p : Platform) (W A : Type 0) where
  pub data Call : Type 0 where
    preflight snapshot_intent revalidate start : Clock → String → Call
    submit_snapshot : Clock → String → Host W A → Call
    snapshot_task snapshot_uncertain : Clock → String → String → Call
    snapshot_confirm snapshot_stale : Clock → String → List ObservedSnapshot → Call
    snapshot_failure : Clock → String → String → List ObservedSnapshot → Call
    seal_snapshot : Clock → String → Host W (Sealed HostSubmissionState A) → Call
    rollback_target : String → List ObservedSnapshot → Call
    evaluate : Clock → String → List PackageRow → Call
    arm : Clock → String → List PackageRow → String → Call
    submit_mutation : Clock → String → String → Host W A → Call
    mutation_uncertain mutation_submitted mutation_failure : Clock → String → String → Call
    mutation_complete : Clock → String → PostState → Call
    seal_mutation : Clock → String → Host W (Sealed HostMutationState A) → Call
    verdict : Clock → String → List Observation → Call
    no_verdict : Clock → String → String → List Observation → Option ℕ → Option ℕ → Option ℕ → Call
    arm_back : Clock → String → List ObservedSnapshot → Call
    submit_rollback : String → Host W A → Call
    rollback_task rollback_submitted rollback_uncertain rollback_failure :
        Clock → String → String → Call
    rollback_complete : Clock → String → List ObservedSnapshot → Bool → Call
    seal_rollback : Clock → String → Host W (Sealed HostRollbackState A) → Call
    restart : Clock → Call

  -- The tables after one call, and the host; what the call answers is left aside.
  unfoldable pub run_db : Call → Db → W → Db
  run_db (Call.preflight c id) db w = (record_preflight_passed p c id db).1
  run_db (Call.snapshot_intent c id) db w = (record_snapshot_intent p c id db).1
  run_db (Call.revalidate c id) db w = (revalidate_or_release p c id db).1
  run_db (Call.start c id) db w = (start_health p c id db).1
  run_db (Call.submit_snapshot c id f) db w =
      (execute_snapshot_submission_if_current p c id f db w).1
  run_db (Call.snapshot_task c id u) db w = (record_snapshot_task p c id u db).1
  run_db (Call.snapshot_uncertain c id r) db w = (record_snapshot_uncertain p c id r db).1
  run_db (Call.snapshot_confirm c id o) db w = (confirm_snapshot p c id o db).1
  run_db (Call.snapshot_stale c id o) db w =
      (block_after_snapshot_success_with_stale_authority p c id o db).1
  run_db (Call.snapshot_failure c id r o) db w = (fail_snapshot p c id r o db).1
  run_db (Call.seal_snapshot c id f) db w = (resolve_pre_submission_block p c id f db w).1
  run_db (Call.rollback_target id o) db w = (select_rollback_target p id o db).1
  run_db (Call.evaluate c id k) db w = (evaluate_execution_plan p c id k db).1
  run_db (Call.arm c id k d) db w = (arm_mutation p c id k d db).1
  run_db (Call.submit_mutation c id d f) db w =
      (execute_mutation_submission_if_current p c id d f db w).1
  run_db (Call.mutation_uncertain c id r) db w = (record_mutation_uncertain p c id r db).1
  run_db (Call.mutation_submitted c id r) db w = (record_mutation_submitted p c id r db).1
  run_db (Call.mutation_failure c id r) db w = (record_mutation_terminal_failure p c id r db).1
  run_db (Call.mutation_complete c id s) db w = (complete_mutation p c id s db).1
  run_db (Call.seal_mutation c id f) db w = (resolve_pre_mutation_block p c id f db w).1
  run_db (Call.verdict c id o) db w = (complete_health p c id o db).1
  run_db (Call.no_verdict c id r o x y z) db w =
      (record_health_outcome_unknown p c id r o x y z db).1
  run_db (Call.arm_back c id o) db w = (arm_rollback p c id o db).1
  run_db (Call.submit_rollback id f) db w = (execute_rollback_submission_if_current p id f db w).1
  run_db (Call.rollback_task c id u) db w = (record_rollback_task p c id u db).1
  run_db (Call.rollback_submitted c id r) db w = (record_rollback_submitted p c id r db).1
  run_db (Call.rollback_uncertain c id r) db w = (record_rollback_uncertain p c id r db).1
  run_db (Call.rollback_failure c id r) db w = (record_rollback_terminal_failure p c id r db).1
  run_db (Call.rollback_complete c id o b) db w = (complete_rollback p c id o b db).1
  run_db (Call.seal_rollback c id f) db w = (resolve_pre_rollback_block p c id f db w).1
  run_db (Call.restart c) db w = (recover_interrupted p c db).1

  unfoldable pub run_host : Call → Db → W → W
  run_host (Call.submit_snapshot c id f) db w =
      (execute_snapshot_submission_if_current p c id f db w).2
  run_host (Call.seal_snapshot c id f) db w = (resolve_pre_submission_block p c id f db w).2
  run_host (Call.submit_mutation c id d f) db w =
      (execute_mutation_submission_if_current p c id d f db w).2
  run_host (Call.seal_mutation c id f) db w = (resolve_pre_mutation_block p c id f db w).2
  run_host (Call.submit_rollback id f) db w = (execute_rollback_submission_if_current p id f db w).2
  run_host (Call.seal_rollback c id f) db w = (resolve_pre_rollback_block p c id f db w).2
  run_host _ db w = w

  -- The tables after a history of calls.
  unfoldable pub replay : List Call → Db → W → Db
  unfolding run_db run_host
  replay [] db w = db
  replay (c ∷ cs) db w = replay cs (run_db c db w) (run_host c db w)
