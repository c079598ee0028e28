-- ===== src/Stages/Worker/Safety.antt =====
-- A cycle of `app/package_update_worker.py` as a sequence of calls of the authority.
use hubinet_ops.Prelude.{
  ℕ, zero, suc, String, Bool, true, false, not, ◌==◌, Option, some, List, [], ◌∷◌, ◌≡◌, refl, inl,
  inr, ap, ◌∙◌, arith, Bool-cases, Option-cases, string_eq, if◌then◌else◌,
}
use text.Mathlib.TextEquality.{eq_iff}
use hubinet_ops.Models.{
  active, status_eq, Checkpoint, Checkpoint-discrete, checkpoint_eq, checkpoint_rank,
}
use hubinet_ops.Authority.Result.{Result, ok, err}
use hubinet_ops.Authority.Platform.{Platform}
use hubinet_ops.Authority.Tables.{Db, Job}
use hubinet_ops.Authority.Tx.{find_job, require_job_row}
use hubinet_ops.Authority.Checks.{require_uuid}
use hubinet_ops.Stages.Run.{
  Raised, authority, Environment, PackageUpdateJob, Stage, of_read, handled,
}
use hubinet_ops.Stages.Reads.{read_job, stored_job}
use hubinet_ops.Stages.Reach.{
  Reach, Reaches, Reaches-mono, handled-Reach, bind_reach, null_reach, pure_reach,
}
use hubinet_ops.Stages.Rollback.Records.{RollbackHost}
use hubinet_ops.Stages.Task.{TaskSettings}
use hubinet_ops.Stages.Rollback.{drive_rollback, roll_back_to_job_snapshot}
use hubinet_ops.Stages.Rollback.Calls.{drive-Reaches}
use hubinet_ops.Stages.Reach.Rules.{constructs}
use hubinet_ops.Stages.Worker.Cycle.{WorkerStages, WorkerCycle}
use hubinet_ops.Stages.Worker.Calls.{
  may_work, rollback_works, stopped-Reaches, reread-Reaches, terminal-Reaches, step-Reaches,
  on_step-Reaches, gone-Reaches, on_drive-Reaches,
}
use hubinet_ops.Stages.Worker.{run_rollback, step_at, not_after, visit, drive, run_once}

find_job-id : (id : String) (js : List Job) (j : Job) → find_job id js ≡ some j → j.job_id ≡ id
unfolding find_job
find_job-id id [] j h = cc
find_job-id id (k ∷ js) j h = elim (Bool-cases (k.job_id == id)) [
  | inl here ↦ ground (arith, eq_iff k.job_id id)
  | inr there ↦ find_job-id id js j (ground arith)
]

module _ (p : Platform) where
  -- The job that a read answers has the id that was asked for.
  read_job-id :
      (id : String) (db new : Db) (j : PackageUpdateJob)
      → read_job p id db ≡ ok (j, new)
      → j.row.job_id ≡ id
  unfolding read_job stored_job require_job_row require_uuid
  read_job-id id db new j h = elim (Option-cases (find_job id db.jobs)) [
    | inl absent ↦ ground arith
    | inr (row, found) ↦ ground (arith, find_job-id id db.jobs row found)
  ]

  module _ {W : Type 0} (env : Environment W) (host : RollbackHost W)
      (settings : TaskSettings) where
    roll_back_armed :
        (id : String) (db new : Db) (w : W) (j : PackageUpdateJob)
        → read_job p id db ≡ ok (j, new)
        → j.row.status ≡ active
        → j.row.checkpoint ≡ Checkpoint.rollback_may_have_started
        → roll_back_to_job_snapshot p env host settings id [] db w
          ≡ drive_rollback p env host settings j db w
    unfolding roll_back_to_job_snapshot
    roll_back_armed id db new w j e s c = ground arith

module _ (p : Platform) {W : Type 0} where
  if-Reach :
      {A : Type 0} (b : Bool) (m k : Stage W A) (db : Db) (w : W)
      → (b ≡ true → Reach p W (may_work p) db (m db w).1)
      → (b ≡ false → Reach p W (may_work p) db (k db w).1)
      → Reach p W (may_work p) db ((if b then m else k) db w).1
  if-Reach true m k db w x y = x refl
  if-Reach false m k db w x y = y refl

  -- A read whose answer is used in the tables where it was made.
  read-Reach :
      {A B : Type 0} (db : Db) (w : W) (r : Result (A × Db)) (f : A → Stage W B)
      (h : Raised → Stage W B)
      → ((a : A) (new : Db) → r ≡ ok (a, new) → Reach p W (may_work p) db (f a db w).1)
      → ((e : Raised) → Reaches p W (may_work p) (h e))
      → Reach p W (may_work p) db (handled f h (of_read db w r)).1
  read-Reach db w (ok (a, new)) f h x y = x a new refl
  read-Reach db w (err e) f h x y = (y (authority e)).reaches db w

  module _ (env : Environment W) (stages : WorkerStages W) where
    rollback-Reach :
        (j : PackageUpdateJob) (db new : Db) (w : W)
        → read_job p j.row.job_id db ≡ ok (j, new)
        → j.row.status ≡ active
        → j.row.checkpoint ≡ Checkpoint.rollback_may_have_started
        → Reach p W (may_work p) db (run_rollback p env stages j db w).1
    unfolding run_rollback
    rollback-Reach j db new w e s c = rw (roll_back_armed p env _ _ _ db new w j e s c) (
        (bind_reach p W (may_work p)
            (Reaches-mono p W (rollback_works p) (drive-Reaches p env _ _ j))
            (λ r.
              search (constructs, reread-Reaches, terminal-Reaches, stopped-Reaches) depth
                40)).reaches
          db w)

    step-Reach :
        (j : PackageUpdateJob) (db new : Db) (w : W)
        → read_job p j.row.job_id db ≡ ok (j, new)
        → j.row.status ≡ active
        → Reach p W (may_work p) db (step_at p env stages j j.row.checkpoint db w).1
    unfolding step_at run_rollback
    step-Reach j db new w e s =
        elim (Checkpoint-discrete j.row.checkpoint Checkpoint.rollback_may_have_started) [
          | yes c ↦ rw c (rollback-Reach j db new w e s c)
          | no c ↦ (step-Reaches p env stages j j.row.checkpoint c).reaches db w
        ]

    visit-Reach :
        (previous : Option ℕ) (again : Stage W WorkerCycle) (j : PackageUpdateJob) (db new : Db)
        (w : W)
        → read_job p j.row.job_id db ≡ ok (j, new)
        → Reaches p W (may_work p) again
        → Reach p W (may_work p) db (visit p env stages previous again j db w).1
    unfolding visit
    visit-Reach previous again j db new w e x =
        if-Reach (not (j.row.status == active)) _ _ db w
          (λ ended. (terminal-Reaches p env stages j).reaches db w)
          (λ running.
            if-Reach (not_after p env stages (checkpoint_rank j.row.checkpoint) previous) _ _ db w
              (λ stuck.
                (stopped-Reaches p env stages (some j) "no_automatic_continuation").reaches db w)
              (λ moved.
                handled-Reach p W (may_work p) db (step_at p env stages j j.row.checkpoint db w) _ _
                  (step-Reach j db new w e (ground arith))
                  (λ o. null_reach p W (may_work p) o x (λ c. pure_reach p W (may_work p) c))
                  (on_step-Reaches p env stages j)))

    drive-Works :
        (left : ℕ) (previous : Option ℕ) (id : String)
        → Reaches p W (may_work p) (drive p env stages left previous id)
    unfolding drive
    drive-Works zero previous id = search (constructs, reread-Reaches, stopped-Reaches) depth 40
    drive-Works (suc left) previous id = record {
      reaches = λ db w.
          read-Reach db w (read_job p id db) _ _
            (λ j new e.
              visit-Reach previous _ j db new w
                (ap (λ i. read_job p i db) (read_job-id p id db new j e) ∙ e)
                (drive-Works left _ id))
            (gone-Reaches p env stages id);
    }

    -- Whatever the hosts answer, the tables after a cycle of the worker are reached from those before
    -- it by a sequence of calls of the authority, none of which arms a rollback, selects a rollback
    -- target or is the recovery at a restart.
    pub run_once-Reaches : (locked : Bool) → Reaches p W (may_work p) (run_once p env stages locked)
    unfolding run_once
    run_once-Reaches true = search constructs depth 40
    run_once-Reaches false = search (constructs, drive-Works, on_drive-Reaches) depth 40
