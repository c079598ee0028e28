-- ===== src/Authority/Machine.antt =====
-- The state machine of one job: a step for each UPDATE of `package_update_jobs` in
-- `app/inventory/authority.py`, with its guard.
pub mod Constraints
pub mod Kept
pub mod Progress
use hubinet_ops.Prelude.{
  ℕ, ◌≤◌, String, Bool, true, false, ◌&&◌, Option, none, some, ◌==◌, ◌≡◌, ◌≢◌, refl, sym, arith,
}
use hubinet_ops.Models.{
  JobStatus, active, blocked, interrupted, status_eq, Checkpoint, checkpoint_eq, checkpoint_rank,
  HealthOutcome,
}
use hubinet_ops.Authority.Tables.{Time, Job}
use hubinet_ops.Authority.Query.{is_some}
use hubinet_ops.Authority.Rows.{
  is_null, active_at, terminalize, set_preflight, set_snapshot_intent, set_snapshot_task,
  set_snapshot_confirmed, set_mutation_intent, set_mutation_completed, set_health_started,
  set_health_passed, set_health_failed, set_rollback_intent, set_rollback_task, set_rolled_back,
}
use hubinet_ops.Authority.Mutation.{is_unarmed}
use hubinet_ops.Authority.HealthStage.{is_ready_for_health, is_in_health}
use hubinet_ops.Authority.Rollback.{may_arm_rollback}
use hubinet_ops.Authority.RollbackCompletion.{may_complete_rollback}
use hubinet_ops.Authority.Platform.{Platform}

-- The checkpoints at which a job may be blocked.
abbrev pub is_releasable : Checkpoint → Bool
is_releasable Checkpoint.snapshot_may_have_started = true
is_releasable Checkpoint.snapshot_confirmed = true
is_releasable Checkpoint.mutation_may_have_started = true
is_releasable Checkpoint.rollback_may_have_started = true
is_releasable _ = false

module _ (p : Platform) where
  pub data RowStep : Job → Job → Type 0 where
    preflight : {j : Job} → active_at Checkpoint.issued j ≡ true → RowStep j (set_preflight j)
    snapshot_intent :
        {j : Job} (operation name : String) (at : Time)
        → (active_at Checkpoint.preflight_passed j && is_null j.snapshot_operation_id) ≡ true
        → RowStep j (set_snapshot_intent operation name at j)
    snapshot_task :
        {j : Job} (upid : String)
        → (active_at Checkpoint.snapshot_may_have_started j && is_null j.snapshot_task_upid) ≡ true
        → RowStep j (set_snapshot_task upid j)
    snapshot_confirm :
        {j : Job} (at : Time)
        → (active_at Checkpoint.snapshot_may_have_started j && is_null j.snapshot_confirmed_at)
          ≡ true
        → RowStep j (set_snapshot_confirmed at j)
    mutation_intent :
        {j : Job} (operation : String) (at : Time) (digest : String)
        → is_unarmed p j ≡ true
        → RowStep j (set_mutation_intent operation at digest j)
    mutation_complete :
        {j : Job} (at : Time)
        → (active_at Checkpoint.mutation_may_have_started j && is_null j.mutation_completed_at)
          ≡ true
        → RowStep j (set_mutation_completed at j)
    health_start :
        {j : Job} (at : Time) → is_ready_for_health p j ≡ true → RowStep j (set_health_started at j)
    health_pass :
        {j : Job} (at : Time) (reason : String)
        → is_in_health p j ≡ true
        → RowStep j (set_health_passed at reason j)
    health_fail :
        {j : Job} (at : Time) → is_in_health p j ≡ true → RowStep j (set_health_failed at j)
    rollback_intent :
        {j : Job} (operation : String) (at : Time)
        → may_arm_rollback p j ≡ true
        → RowStep j (set_rollback_intent operation at j)
    rollback_task :
        {j : Job} (upid : String)
        → (active_at Checkpoint.rollback_may_have_started j && is_null j.rollback_task_upid) ≡ true
        → RowStep j (set_rollback_task upid j)
    rollback_complete :
        {j : Job} (at : Time) (reason : String)
        → may_complete_rollback p j ≡ true
        → RowStep j (set_rolled_back at reason j)
    block :
        {j : Job} (at : Time) (reason : String)
        → (j.status == active && is_releasable j.checkpoint) ≡ true
        → RowStep j (terminalize blocked at reason j)
    interrupt :
        {j : Job} (at : Time) (reason : String)
        → (j.status == active) ≡ true
        → RowStep j (terminalize interrupted at reason j)

  pub data RowSteps : Job → Job → Type 0 where
    done : {j : Job} → RowSteps j j
    more : {j k l : Job} → RowStep j k → RowSteps k l → RowSteps j l

  pub RowSteps-trans : {j k l : Job} → RowSteps j k → RowSteps k l → RowSteps j l
  RowSteps-trans done t = t
  RowSteps-trans (more s r) t = more s (RowSteps-trans r t)
