-- ===== src/Authority/Calls/Endings.antt =====
-- The terminal jobs of `app/inventory/authority.py` over histories of calls.
use hubinet_ops.Prelude.{
  String, true, false, List, [], ◌∷◌, ◌==◌, some, ◌≡◌, arith, All, Bool-cases, string_eq, inl, inr,
}
use hubinet_ops.Models.{succeeded, rolled_back, status_eq, HealthOutcome, checkpoint_eq}
use hubinet_ops.Authority.Platform.{Platform}
use hubinet_ops.Authority.Tables.{Db, Job}
use hubinet_ops.Authority.Tx.{find_job}
use hubinet_ops.Authority.Query.{is_some}
use hubinet_ops.Authority.Machine.Constraints.{
  status_checks, snapshot_checks, mutation_checks, rollback_checks,
}
use hubinet_ops.Authority.Machine.Kept.{row_checks_parts}
use hubinet_ops.Authority.Calls.{Call, replay}
use hubinet_ops.Authority.Calls.Safety.{IsChecked, replay-IsChecked}

find-IsChecked :
    (id : String) (js : List Job) (k : Job)
    → find_job id js ≡ some k
    → All IsChecked js
    → IsChecked k
unfolding find_job
find-IsChecked id [] k h a = cc
find-IsChecked id (j ∷ js) k h a = elim (Bool-cases (j.job_id == id)) [
  | inl here ↦ ground (arith, a.0)
  | inr there ↦ find-IsChecked id js k (ground arith) a.1
]

-- What a success claims.
pub record IsProvenGood (k : Job) : Type 0 where
  pub snapshot : is_some k.snapshot_confirmed_at ≡ true
  pub mutation : is_some k.mutation_completed_at ≡ true
  pub evaluated : is_some k.health_started_at ≡ true
  pub passed : k.health_outcome ≡ some HealthOutcome.passed
  pub not_rolled_back : is_some k.rollback_operation_id ≡ false

-- What a rollback claims.
pub record IsProvenBack (k : Job) : Type 0 where
  pub snapshot : is_some k.snapshot_confirmed_at ≡ true
  pub mutation : is_some k.mutation_may_have_started_at ≡ true
  pub task : is_some k.rollback_task_upid ≡ true
  pub completed : is_some k.rollback_completed_at ≡ true

good_lem :
    (k : Job)
    → k.status ≡ succeeded
    → status_checks k ≡ true
    → snapshot_checks k ≡ true
    → rollback_checks k ≡ true
    → IsProvenGood k
good_lem k s a b d = ground arith

back_lem :
    (k : Job)
    → k.status ≡ rolled_back
    → status_checks k ≡ true
    → snapshot_checks k ≡ true
    → mutation_checks k ≡ true
    → rollback_checks k ≡ true
    → IsProvenBack k
back_lem k s a b c d = ground arith

module _ (p : Platform) {W A : Type 0} where
  -- After any history of calls over a checked table, a job that has succeeded has its confirmed
  -- snapshot, a mutation that was proven complete, a health evaluation that passed, and no rollback.
  pub replay-succeeded :
      (cs : List (Call p W A)) (db : Db) (w : W) (id : String) (k : Job)
      → All IsChecked db.jobs
      → find_job id (replay p W A cs db w).jobs ≡ some k
      → k.status ≡ succeeded
      → IsProvenGood k
  replay-succeeded cs db w id k h found s =
      let (_, a, b, c, d, e) =
        row_checks_parts k (find-IsChecked id _ k found (replay-IsChecked p cs db w h)) in
      good_lem k s a b e

  -- After any history of calls over a checked table, a job that was rolled back has its confirmed
  -- snapshot, a mutation that may have started, and the task of the rollback that completed.
  pub replay-rolled_back :
      (cs : List (Call p W A)) (db : Db) (w : W) (id : String) (k : Job)
      → All IsChecked db.jobs
      → find_job id (replay p W A cs db w).jobs ≡ some k
      → k.status ≡ rolled_back
      → IsProvenBack k
  replay-rolled_back cs db w id k h found s =
      let (_, a, b, c, d, e) =
        row_checks_parts k (find-IsChecked id _ k found (replay-IsChecked p cs db w h)) in
      back_lem k s a b c e
