-- ===== src/Authority/Evolution/Updates.antt =====
-- Each UPDATE of a job as a step of its state machine.
use hubinet_ops.Prelude.{String, Bool, ◌&&◌, ◌==◌, arith}
use hubinet_ops.Models.{Checkpoint, active, blocked, interrupted, status_eq, checkpoint_eq}
use hubinet_ops.Authority.Platform.{Platform}
use hubinet_ops.Authority.Tables.{Time, Job}
use hubinet_ops.Authority.Tx.{update_job}
use hubinet_ops.Authority.Ownership.{is_named}
use hubinet_ops.Authority.Rows.{
  is_null, active_at, terminalize, set_preflight, set_snapshot_intent, set_snapshot_task,
  set_snapshot_confirmed, set_mutation_intent, set_mutation_completed, set_health_started,
  set_health_passed, set_health_failed, set_rollback_intent, set_rollback_task, set_rolled_back,
}
use hubinet_ops.Authority.Mutation.{is_unarmed}
use hubinet_ops.Authority.HealthStage.{is_ready_for_health, is_in_health}
use hubinet_ops.Authority.Rollback.{may_arm_rollback}
use hubinet_ops.Authority.RollbackCompletion.{may_complete_rollback}
use hubinet_ops.Authority.Machine.{RowStep}
use hubinet_ops.Authority.Evolution.{Evolving, update_job-Evolving}

module _ (p : Platform) where
  pub preflight_rule :
      (id : String) → Evolving p (update_job id (active_at Checkpoint.issued) set_preflight)
  preflight_rule id = update_job-Evolving p id (λ j h. RowStep.preflight h)

  pub snapshot_intent_rule :
      (id operation name : String) (at : Time)
      → Evolving p (
          update_job id
            (λ j. active_at Checkpoint.preflight_passed j && is_null j.snapshot_operation_id)
            (set_snapshot_intent operation name at))
  snapshot_intent_rule id operation name at =
      update_job-Evolving p id (λ j h. RowStep.snapshot_intent operation name at h)

  pub snapshot_task_rule :
      (id upid : String)
      → Evolving p (
          update_job id
            (λ j. active_at Checkpoint.snapshot_may_have_started j && is_null j.snapshot_task_upid)
            (set_snapshot_task upid))
  snapshot_task_rule id upid = update_job-Evolving p id (λ j h. RowStep.snapshot_task upid h)

  pub snapshot_confirm_rule :
      (id name : String) (at : Time)
      → Evolving p (
          update_job id
            (λ j.
              active_at Checkpoint.snapshot_may_have_started j
              && is_null j.snapshot_confirmed_at
              && is_named j.snapshot_name name)
            (set_snapshot_confirmed at))
  snapshot_confirm_rule id name at =
      update_job-Evolving p id (λ j h. RowStep.snapshot_confirm at (ground arith))

  pub mutation_intent_rule :
      (id operation : String) (at : Time) (digest : String)
      → Evolving p (update_job id (is_unarmed p) (set_mutation_intent operation at digest))
  mutation_intent_rule id operation at digest =
      update_job-Evolving p id (λ j h. RowStep.mutation_intent operation at digest h)

  pub mutation_complete_rule :
      (id : String) (at : Time)
      → Evolving p (
          update_job id
            (λ j.
              active_at Checkpoint.mutation_may_have_started j && is_null j.mutation_completed_at)
            (set_mutation_completed at))
  mutation_complete_rule id at = update_job-Evolving p id (λ j h. RowStep.mutation_complete at h)

  pub health_start_rule :
      (id : String) (at : Time)
      → Evolving p (update_job id (is_ready_for_health p) (set_health_started at))
  health_start_rule id at = update_job-Evolving p id (λ j h. RowStep.health_start at h)

  pub health_pass_rule :
      (id : String) (at : Time) (reason : String)
      → Evolving p (update_job id (is_in_health p) (set_health_passed at reason))
  health_pass_rule id at reason = update_job-Evolving p id (λ j h. RowStep.health_pass at reason h)

  pub health_fail_rule :
      (id : String) (at : Time) → Evolving p (update_job id (is_in_health p) (set_health_failed at))
  health_fail_rule id at = update_job-Evolving p id (λ j h. RowStep.health_fail at h)

  pub rollback_intent_rule :
      (id operation : String) (at : Time)
      → Evolving p (update_job id (may_arm_rollback p) (set_rollback_intent operation at))
  rollback_intent_rule id operation at =
      update_job-Evolving p id (λ j h. RowStep.rollback_intent operation at h)

  pub rollback_task_rule :
      (id upid : String)
      → Evolving p (
          update_job id
            (λ j. active_at Checkpoint.rollback_may_have_started j && is_null j.rollback_task_upid)
            (set_rollback_task upid))
  rollback_task_rule id upid = update_job-Evolving p id (λ j h. RowStep.rollback_task upid h)

  pub rollback_complete_rule :
      (id : String) (at : Time) (reason : String)
      → Evolving p (update_job id (may_complete_rollback p) (set_rolled_back at reason))
  rollback_complete_rule id at reason =
      update_job-Evolving p id (λ j h. RowStep.rollback_complete at reason h)

  -- A job inside a snapshot operation, under whatever further guard.
  pub block_snapshot_rule :
      (id : String) (guard : Job → Bool) (at : Time) (reason : String)
      → Evolving p (
          update_job id
            (λ j. active_at Checkpoint.snapshot_may_have_started j && guard j)
            (terminalize blocked at reason))
  block_snapshot_rule id guard at reason =
      update_job-Evolving p id (λ j h. RowStep.block at reason (ground arith))

  pub block_gate_rule :
      (id : String) (at : Time) (reason : String)
      → Evolving p
          (update_job id (active_at Checkpoint.snapshot_confirmed) (terminalize blocked at reason))
  block_gate_rule id at reason =
      update_job-Evolving p id (λ j h. RowStep.block at reason (ground arith))

  pub block_mutation_rule :
      (id : String) (at : Time) (reason : String)
      → Evolving p (
          update_job id
            (λ j.
              active_at Checkpoint.mutation_may_have_started j && is_null j.mutation_completed_at)
            (terminalize blocked at reason))
  block_mutation_rule id at reason =
      update_job-Evolving p id (λ j h. RowStep.block at reason (ground arith))

  pub block_rollback_rule :
      (id : String) (at : Time) (reason : String)
      → Evolving p (
          update_job id
            (λ j.
              active_at Checkpoint.rollback_may_have_started j
              && is_null j.rollback_completed_at
              && is_null j.rollback_task_upid)
            (terminalize blocked at reason))
  block_rollback_rule id at reason =
      update_job-Evolving p id (λ j h. RowStep.block at reason (ground arith))

  pub interrupt_rule :
      (id : String) (at : Time) (reason : String)
      → Evolving p (update_job id (λ j. j.status == active) (terminalize interrupted at reason))
  interrupt_rule id at reason = update_job-Evolving p id (λ j h. RowStep.interrupt at reason h)

pub ruleset updates = (
  preflight_rule, snapshot_intent_rule, snapshot_task_rule, snapshot_confirm_rule,
  mutation_intent_rule, mutation_complete_rule, health_start_rule, health_pass_rule,
  health_fail_rule, rollback_intent_rule, rollback_task_rule, rollback_complete_rule,
  block_snapshot_rule, block_gate_rule, block_mutation_rule, block_rollback_rule, interrupt_rule,
)
