-- ===== src/Stages/Worker/Keeps.antt =====
-- What a cycle of `app/package_update_worker.py` leaves of the tables it started from.
use hubinet_ops.Prelude.{Bool, ◌≤◌, String, some, ◌≡◌, ◌≢◌, ◌∙◌, ap, All}
use hubinet_ops.Models.{active}
use hubinet_ops.Authority.Platform.{Platform}
use hubinet_ops.Authority.Tables.{Db, Job}
use hubinet_ops.Authority.Tx.{find_job}
use hubinet_ops.Authority.Machine.Progress.{Advances, RowSteps-Advances, RowSteps-terminal}
use hubinet_ops.Authority.Evolution.{Evolves, Evolves-refl, Evolves-trans}
use hubinet_ops.Authority.Calls.{Call}
use hubinet_ops.Authority.Calls.History.{run-Evolves}
use hubinet_ops.Authority.Calls.Safety.{
  IsChecked, active_count, jobs-IsChecked, jobs-find, jobs-active_count,
}
use hubinet_ops.Stages.Run.{Environment}
use hubinet_ops.Stages.Reach.{Reach, stay, step}
use hubinet_ops.Stages.Worker.Cycle.{WorkerStages}
use hubinet_ops.Stages.Worker.{run_once}
use hubinet_ops.Stages.Worker.Safety.{run_once-Reaches}

module _ (p : Platform) where
  Reach-Evolves :
      {W : Type 0} {may : (A : Type 0) → Call p W A → Bool} {before after : Db}
      → Reach p W may before after
      → Evolves p before after
  Reach-Evolves stay = Evolves-refl p _
  Reach-Evolves (step c w h r) = Evolves-trans p (run-Evolves p c _ w) (Reach-Evolves r)

  module _ {W : Type 0} (env : Environment W) (stages : WorkerStages W) (locked : Bool) (db : Db)
      (w : W) where
    cycle-Evolves : Evolves p db (run_once p env stages locked db w).1
    cycle-Evolves = Reach-Evolves ((run_once-Reaches p env stages locked).reaches db w)

    -- In a table whose rows all pass `row_checks`, every row still does after a cycle of the worker,
    -- whatever the hosts answer. `row_checks` are the table-level CHECK constraints of
    -- `package_update_jobs` and the column constraints on the stored verdict, the resource type and
    -- the number of probes; it has none of those on the shape of texts or on the other numbers.
    pub cycle-IsChecked :
        All IsChecked db.jobs → All IsChecked (run_once p env stages locked db w).1.jobs
    cycle-IsChecked h = jobs-IsChecked p cycle-Evolves.jobs h

    -- Over a cycle of the worker a job stays in the table under its id, the rank of its checkpoint
    -- does not fall, and `Advances` holds: the context, the resource type, the fingerprint of the
    -- plan and the fingerprint, revision and probe count of the health contract stay as they were
    -- issued; each operation id, task id and timestamp of the snapshot, the mutation, the health
    -- evaluation and the rollback, and the accepted digest, stays once it is set; the name and the
    -- intent time of the snapshot stay once its operation is set, and the verdict once its completion
    -- time is.
    pub cycle-Advances :
        (id : String) (j : Job)
        → find_job id db.jobs ≡ some j
        → (k : Job) × (find_job id (run_once p env stages locked db w).1.jobs ≡ some k)
          × Advances j k
    cycle-Advances id j h =
        let (k, found, s) = jobs-find p id j cycle-Evolves.jobs h in
        (k, found, RowSteps-Advances p s)

    -- A cycle of the worker writes nothing to a job that is not active.
    pub cycle-terminal :
        (id : String) (j : Job)
        → find_job id db.jobs ≡ some j
        → j.status ≢ active
        → find_job id (run_once p env stages locked db w).1.jobs ≡ some j
    cycle-terminal id j h t =
        let (k, found, s) = jobs-find p id j cycle-Evolves.jobs h in
        found ∙ ap some (RowSteps-terminal p s t)

    -- A cycle of the worker makes no further job active, so where at most one job holds the global
    -- slot, at most one does afterwards.
    pub cycle-active_count :
        active_count (run_once p env stages locked db w).1.jobs ≤ active_count db.jobs
    cycle-active_count = jobs-active_count p cycle-Evolves.jobs
