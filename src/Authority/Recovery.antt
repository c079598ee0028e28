-- ===== src/Authority/Recovery.antt =====
-- `recover_interrupted_package_update_jobs` of `app/inventory/authority.py`: what a restart does to
-- the jobs that were active. The rows are read in the order of the table, which is that of issuance.
use hubinet_ops.Prelude.{String, Bool, true, false, ◌&&◌, List, [], ◌∷◌, map, ◌==◌}
use hubinet_ops.Models.{active, interrupted, status_eq, Checkpoint, warning, EventType}
use hubinet_ops.Authority.Result.{Result}
use hubinet_ops.Authority.Platform.{Platform}
use hubinet_ops.Authority.Tables.{Job, Db}
use hubinet_ops.Authority.Query.{select_by}
use hubinet_ops.Authority.Tx.{
  Tx, ◌>>=◌, ◌>>◌, pure, gets, transaction, update_job, append_event, bump_published,
}
use hubinet_ops.Authority.Rows.{terminalize}
use hubinet_ops.Authority.Host.{Clock}

-- `_STARTUP_INTERRUPTIBLE_CHECKPOINTS`
abbrev pub is_interruptible : Checkpoint → Bool
is_interruptible Checkpoint.issued = true
is_interruptible Checkpoint.preflight_passed = true
is_interruptible Checkpoint.snapshot_confirmed = true
is_interruptible _ = false

abbrev pub is_recovered : Job → Bool
is_recovered j = j.status == active && is_interruptible j.checkpoint

module _ (p : Platform) where
  unfoldable pub interrupt_jobs : Clock → List Job → Tx (Unit {0})
  interrupt_jobs clock [] = pure tt
  interrupt_jobs clock (row ∷ rest) = do
    update_job row.job_id (λ j. j.status == active)
        (terminalize interrupted clock.recorded_at
          "backend restarted before package mutation began")
    append_event p row.job_id clock.recorded_at warning row.checkpoint EventType.restart_interrupted
        "backend restarted before package mutation began" []
    interrupt_jobs clock rest

  abbrev pub bump_if_any : Clock → List Job → Tx (Unit {0})
  bump_if_any clock [] = pure tt
  bump_if_any clock (row ∷ rest) = bump_published clock.published_at

  unfoldable pub recover_interrupted : Clock → Db → Result (List String) × Db
  unfolding interrupt_jobs select_by
  recover_interrupted clock = transaction (do
    rows ← gets (λ db. select_by is_recovered db.jobs)
    interrupt_jobs clock rows
    bump_if_any clock rows
    pure (map (λ (j : Job). j.job_id) rows))
