-- ===== src/Authority/Evolution/Snapshots.antt =====
-- The snapshot transitions of `app/inventory/authority.py`, by the rules of their statements.
use hubinet_ops.Prelude.{String, Bool, List}
use hubinet_ops.Models.{HostSubmissionState, EventLevel, EventType}
use hubinet_ops.Authority.Platform.{Platform}
use hubinet_ops.Authority.Tables.{Db, Job, Detail}
use hubinet_ops.Authority.Host.{Clock, Host, Sealed}
use hubinet_ops.Authority.Ownership.{ObservedSnapshot}
use hubinet_ops.Authority.Snapshot.{
  record_preflight_passed, commit_snapshot_intent, record_snapshot_intent,
  require_snapshot_operation, execute_snapshot_submission_if_current, record_snapshot_task,
  confirm_snapshot,
}
use hubinet_ops.Authority.SnapshotRelease.{
  block_snapshot_job, record_snapshot_uncertain, fail_snapshot, resolve_pre_submission_block,
  block_after_snapshot_success_with_stale_authority, select_rollback_target,
}
use hubinet_ops.Authority.Evolution.{Evolves, Evolving, transaction-Evolves}
use hubinet_ops.Authority.Evolution.Proofs.{
  statements, authority-Evolving, detail-Evolving, snapshot_identity-Evolving,
  snapshot_ownership-Evolving,
}
use hubinet_ops.Authority.Evolution.Updates.{updates}
use hubinet_ops.Authority.Evolution.Hosts.{stale-Evolves, submission-Evolves, release-Evolves}

module _ (p : Platform) where
  pub preflight-Evolves :
      (clock : Clock) (id : String) (db : Db)
      → Evolves p db (record_preflight_passed p clock id db).1
  unfolding record_preflight_passed
  preflight-Evolves clock id db =
      search (stale-Evolves, statements, updates, authority-Evolving) depth 40

  pub snapshot_intent-Evolves :
      (clock : Clock) (id : String) (db : Db)
      → Evolves p db (record_snapshot_intent p clock id db).1
  unfolding record_snapshot_intent commit_snapshot_intent
  snapshot_intent-Evolves clock id db =
      search (stale-Evolves, statements, updates, authority-Evolving, snapshot_identity-Evolving)
        depth 40

  operation-Evolving : (id : String) → Evolving p (require_snapshot_operation p id)
  unfolding require_snapshot_operation
  operation-Evolving id = search statements depth 40

  pub snapshot_submission-Evolves :
      {W A : Type 0} (clock : Clock) (id : String) (submit : Host W A) (db : Db) (w : W)
      → Evolves p db (execute_snapshot_submission_if_current p clock id submit db w).1
  unfolding execute_snapshot_submission_if_current
  snapshot_submission-Evolves clock id submit db w =
      search (submission-Evolves, statements, operation-Evolving, authority-Evolving) depth 40

  pub snapshot_task-Evolves :
      (clock : Clock) (id upid : String) (db : Db)
      → Evolves p db (record_snapshot_task p clock id upid db).1
  unfolding record_snapshot_task
  snapshot_task-Evolves clock id upid db =
      search (transaction-Evolves, statements, updates, operation-Evolving) depth 40

  pub snapshot_confirm-Evolves :
      (clock : Clock) (id : String) (observed : List ObservedSnapshot) (db : Db)
      → Evolves p db (confirm_snapshot p clock id observed db).1
  unfolding confirm_snapshot
  snapshot_confirm-Evolves clock id observed db =
      search (stale-Evolves, statements, updates, authority-Evolving, snapshot_ownership-Evolving)
        depth 40

  block-Evolving :
      (clock : Clock) (id : String) (guard : Job → Bool) (level : EventLevel) (event : EventType)
      (reason : String) (details : List (String × Detail))
      → Evolving p (block_snapshot_job p clock id guard level event reason details)
  unfolding block_snapshot_job
  block-Evolving clock id guard level event reason details = search (statements, updates) depth 40

  pub snapshot_uncertain-Evolves :
      (clock : Clock) (id reason : String) (db : Db)
      → Evolves p db (record_snapshot_uncertain p clock id reason db).1
  unfolding record_snapshot_uncertain
  snapshot_uncertain-Evolves clock id reason db =
      search (transaction-Evolves, statements, operation-Evolving) depth 40

  pub snapshot_failure-Evolves :
      (clock : Clock) (id reason : String) (observed : List ObservedSnapshot) (db : Db)
      → Evolves p db (fail_snapshot p clock id reason observed db).1
  unfolding fail_snapshot
  snapshot_failure-Evolves clock id reason observed db =
      search (transaction-Evolves, statements, operation-Evolving, block-Evolving) depth 40

  pub snapshot_release-Evolves :
      {W A : Type 0} (clock : Clock) (id : String) (seal : Host W (Sealed HostSubmissionState A))
      (db : Db) (w : W)
      → Evolves p db (resolve_pre_submission_block p clock id seal db w).1
  unfolding resolve_pre_submission_block
  snapshot_release-Evolves clock id seal db w =
      search (release-Evolves, statements, operation-Evolving, block-Evolving) depth 40

  pub stale_snapshot-Evolves :
      (clock : Clock) (id : String) (observed : List ObservedSnapshot) (db : Db)
      → Evolves p db (block_after_snapshot_success_with_stale_authority p clock id observed db).1
  unfolding block_after_snapshot_success_with_stale_authority
  stale_snapshot-Evolves clock id observed db =
      search
        (
          transaction-Evolves, statements, operation-Evolving, block-Evolving,
          snapshot_ownership-Evolving, detail-Evolving,
        )
        depth 40

  pub rollback_target-Evolves :
      (id : String) (observed : List ObservedSnapshot) (db : Db)
      → Evolves p db (select_rollback_target p id observed db).1
  unfolding select_rollback_target
  rollback_target-Evolves id observed db =
      search (transaction-Evolves, statements, snapshot_ownership-Evolving) depth 40
