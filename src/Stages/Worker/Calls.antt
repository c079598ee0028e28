-- ===== src/Stages/Worker/Calls.antt =====
-- What a cycle of `app/package_update_worker.py` does to the tables: calls of the authority, none of
-- which arms a rollback.
use hubinet_ops.Prelude.{
  String, Bool, true, false, Option, none, some, ◌≡◌, ◌≢◌, refl, arith, string_eq,
}
use hubinet_ops.Models.{status_eq, Checkpoint, checkpoint_eq}
use hubinet_ops.Authority.Result.{authority_not_found}
use hubinet_ops.Authority.Platform.{Platform}
use hubinet_ops.Authority.Calls.{Call}
use hubinet_ops.Stages.Run.{
  Raised, authority, snapshot_error, mutation_error, rollback_error, health_error, out_of_fuel,
  Environment, PackageUpdateJob,
}
use hubinet_ops.Stages.Reach.{Reaches, Reaches-mono}
use hubinet_ops.Stages.Reach.Rules.{constructs}
use hubinet_ops.Stages.Snapshot.{ensure_job_owned_snapshot}
use hubinet_ops.Stages.Snapshot.Calls.{may_snapshot, snapshot-Reaches}
use hubinet_ops.Stages.Execution.{run_execution_gate}
use hubinet_ops.Stages.Execution.Calls.{may_gate, gate-Reaches}
use hubinet_ops.Stages.Mutation.Boundary.{MutationStageResult}
use hubinet_ops.Stages.Mutation.Recovery.{recover_job_owned_mutation}
use hubinet_ops.Stages.Mutation.Calls.{may_recover, recovery-Reaches}
use hubinet_ops.Stages.Mutation.{execute_job_owned_mutation}
use hubinet_ops.Stages.Mutation.Submits.{may_mutate, execution-Mutates}
use hubinet_ops.Stages.Health.{evaluate_job_health}
use hubinet_ops.Stages.Health.Calls.{may_evaluate, evaluation-Reaches}
use hubinet_ops.Stages.Rollback.Calls.{may_roll_back}
use hubinet_ops.Stages.Worker.Cycle.{WorkerStages}
use hubinet_ops.Stages.Worker.{
  stopped, keep_on_missing, reread, reread_any, terminal, run_snapshot, after_mutation,
  run_gate_then_mutation, run_mutation_recovery, run_health, step_at, on_moved, on_step, on_gone,
  on_drive,
}

module _ (p : Platform) {W : Type 0} where
  -- The calls of a worker: every transition but the arming of a rollback, the choice of its target
  -- and the recovery at a restart.
  abbrev pub may_work : (A : Type 0) → Call p W A → Bool
  may_work A (Call.arm_back _ _ _) = false
  may_work A (Call.rollback_target _ _) = false
  may_work A (Call.restart _) = false
  may_work A _ = true

  snapshot_works : (A : Type 0) (c : Call p W A) → may_snapshot p A c ≡ true → may_work A c ≡ true
  snapshot_works A c h = ground arith

  gate_works : (A : Type 0) (c : Call p W A) → may_gate p A c ≡ true → may_work A c ≡ true
  gate_works A c h = ground arith

  recovery_works : (A : Type 0) (c : Call p W A) → may_recover p A c ≡ true → may_work A c ≡ true
  recovery_works A c h = ground arith

  mutation_works : (A : Type 0) (c : Call p W A) → may_mutate p A c ≡ true → may_work A c ≡ true
  mutation_works A c h = ground arith

  health_works : (A : Type 0) (c : Call p W A) → may_evaluate p A c ≡ true → may_work A c ≡ true
  health_works A c h = ground arith

  pub rollback_works :
      (A : Type 0) (c : Call p W A) → may_roll_back p A c ≡ true → may_work A c ≡ true
  rollback_works A c h = ground arith

  module _ (env : Environment W) (stages : WorkerStages W) where
    pub stopped-Reaches :
        (j : Option PackageUpdateJob) (reason : String)
        → Reaches p W may_work (stopped p env stages j reason)
    unfolding stopped
    stopped-Reaches j reason = search constructs depth 40

    keep-Reaches :
        (j : PackageUpdateJob) (e : Raised)
        → Reaches p W may_work (keep_on_missing p env stages j e)
    keep-Reaches j (authority authority_not_found) = search constructs depth 40
    keep-Reaches j e = search constructs depth 40

    pub reread-Reaches : (j : PackageUpdateJob) → Reaches p W may_work (reread p env stages j)
    unfolding reread
    reread-Reaches j = search (constructs, keep-Reaches) depth 40

    any-Reaches : (j : Option PackageUpdateJob) → Reaches p W may_work (reread_any p env stages j)
    unfolding reread_any
    any-Reaches none = search constructs depth 40
    any-Reaches (some j) = search (constructs, reread-Reaches) depth 40

    pub terminal-Reaches : (j : PackageUpdateJob) → Reaches p W may_work (terminal p env stages j)
    unfolding terminal
    terminal-Reaches j = search constructs depth 40

    snapshot-Works :
        (id : String)
        → Reaches p W may_work
            (ensure_job_owned_snapshot p env stages.snapshot stages.snapshot_settings id)
    snapshot-Works id = Reaches-mono p W snapshot_works (snapshot-Reaches p env _ _ id)

    gate-Works :
        (id : String)
        → Reaches p W may_work (run_execution_gate p env stages.execution stages.parsers id)
    gate-Works id = Reaches-mono p W gate_works (gate-Reaches p env _ _ id)

    execution-Works :
        (id : String)
        → Reaches p W may_work (
            execute_job_owned_mutation p env stages.mutation stages.parsers stages.mutation_settings
              id)
    execution-Works id = Reaches-mono p W mutation_works (execution-Mutates p env _ _ _ id)

    recovery-Works :
        (id : String)
        → Reaches p W may_work (
            recover_job_owned_mutation p env stages.mutation stages.parsers stages.mutation_settings
              id)
    recovery-Works id = Reaches-mono p W recovery_works (recovery-Reaches p env _ _ _ id)

    health-Works : (id : String) → Reaches p W may_work (evaluate_job_health p env stages.health id)
    health-Works id = Reaches-mono p W health_works (evaluation-Reaches p env _ id)

    after-Reaches :
        (j : PackageUpdateJob) (r : MutationStageResult)
        → Reaches p W may_work (after_mutation p env stages j r)
    unfolding after_mutation
    after-Reaches j r = search (constructs, reread-Reaches, stopped-Reaches) depth 40

    run_snapshot-Reaches :
        (j : PackageUpdateJob) → Reaches p W may_work (run_snapshot p env stages j)
    unfolding run_snapshot
    run_snapshot-Reaches j =
        search (constructs, snapshot-Works, reread-Reaches, stopped-Reaches) depth 40

    run_mutation-Reaches :
        (j : PackageUpdateJob) → Reaches p W may_work (run_gate_then_mutation p env stages j)
    unfolding run_gate_then_mutation
    run_mutation-Reaches j =
        search
          (constructs, gate-Works, execution-Works, after-Reaches, any-Reaches, stopped-Reaches)
          depth 40

    run_recovery-Reaches :
        (j : PackageUpdateJob) → Reaches p W may_work (run_mutation_recovery p env stages j)
    unfolding run_mutation_recovery
    run_recovery-Reaches j = search (constructs, recovery-Works, after-Reaches) depth 40

    run_health-Reaches : (j : PackageUpdateJob) → Reaches p W may_work (run_health p env stages j)
    unfolding run_health
    run_health-Reaches j =
        search (constructs, health-Works, reread-Reaches, stopped-Reaches) depth 40

    -- Every step but that of an armed rollback, whatever the tables are.
    pub step-Reaches :
        (j : PackageUpdateJob) (c : Checkpoint)
        → c ≢ Checkpoint.rollback_may_have_started
        → Reaches p W may_work (step_at p env stages j c)
    unfolding step_at
    step-Reaches j Checkpoint.issued h = run_snapshot-Reaches j
    step-Reaches j Checkpoint.preflight_passed h = run_snapshot-Reaches j
    step-Reaches j Checkpoint.snapshot_may_have_started h = run_snapshot-Reaches j
    step-Reaches j Checkpoint.snapshot_confirmed h = run_mutation-Reaches j
    step-Reaches j Checkpoint.mutation_may_have_started h = run_recovery-Reaches j
    step-Reaches j Checkpoint.mutation_completed h = run_health-Reaches j
    step-Reaches j Checkpoint.health_started h = run_health-Reaches j
    step-Reaches j Checkpoint.health_completed h = search (constructs, stopped-Reaches) depth 40
    step-Reaches j Checkpoint.rollback_may_have_started h = absurd (h refl)
    step-Reaches j Checkpoint.rollback_completed h = search (constructs, stopped-Reaches) depth 40

    moved-Reaches : (j : PackageUpdateJob) → Reaches p W may_work (on_moved p env stages j)
    moved-Reaches j = search (constructs, reread-Reaches, stopped-Reaches) depth 40

    pub on_step-Reaches :
        (j : PackageUpdateJob) (e : Raised) → Reaches p W may_work (on_step p env stages j e)
    on_step-Reaches j snapshot_error = moved-Reaches j
    on_step-Reaches j mutation_error = moved-Reaches j
    on_step-Reaches j rollback_error = moved-Reaches j
    on_step-Reaches j (health_error reason) = moved-Reaches j
    on_step-Reaches j (authority e) = search (constructs, moved-Reaches) depth 40
    on_step-Reaches j e = search constructs depth 40

    pub gone-Reaches : (id : String) (e : Raised) → Reaches p W may_work (on_gone p env stages id e)
    gone-Reaches id (authority authority_not_found) = search constructs depth 40
    gone-Reaches id e = search constructs depth 40

    pub on_drive-Reaches :
        (id : String) (e : Raised) → Reaches p W may_work (on_drive p env stages id e)
    on_drive-Reaches id out_of_fuel = search constructs depth 40
    on_drive-Reaches id e = search constructs depth 40
