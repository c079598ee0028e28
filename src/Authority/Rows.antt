-- ===== src/Authority/Rows.antt =====
-- The guards and assignments of the UPDATE statements on `package_update_jobs`.
use hubinet_ops.Prelude.{String, Bool, true, false, ◌&&◌, Option, none, some, ◌==◌}
use hubinet_ops.Models.{
  JobStatus, active, rolled_back, succeeded, status_eq, Checkpoint, preflight_passed,
  snapshot_may_have_started, snapshot_confirmed, mutation_may_have_started, mutation_completed,
  health_started, health_completed, rollback_may_have_started, rollback_completed, checkpoint_eq,
  HealthOutcome, health_outcome_eq,
}
use hubinet_ops.Authority.Tables.{Time, Job}

abbrev pub is_null {ℓ} : {A : Type ℓ} → Option A → Bool
is_null none = true
is_null (some _) = false

-- `status='active' AND checkpoint=...`
abbrev pub active_at : Checkpoint → Job → Bool
active_at c j = j.status == active && j.checkpoint == c

abbrev pub terminalize : JobStatus → Time → String → Job → Job
terminalize status at reason j = record j {
  status = status;
  terminalized_at = some at;
  terminal_reason = some reason;
}

abbrev pub set_preflight : Job → Job
set_preflight j = record j { checkpoint = preflight_passed }

abbrev pub set_snapshot_intent : String → String → Time → Job → Job
set_snapshot_intent operation name at j = record j {
  checkpoint = snapshot_may_have_started;
  snapshot_operation_id = some operation;
  snapshot_name = some name;
  snapshot_intent_recorded_at = some at;
}

abbrev pub set_snapshot_task : String → Job → Job
set_snapshot_task upid j = record j { snapshot_task_upid = some upid }

abbrev pub set_snapshot_confirmed : Time → Job → Job
set_snapshot_confirmed at j = record j {
  checkpoint = snapshot_confirmed;
  snapshot_confirmed_at = some at;
}

abbrev pub set_mutation_intent : String → Time → String → Job → Job
set_mutation_intent operation at digest j = record j {
  checkpoint = mutation_may_have_started;
  mutation_operation_id = some operation;
  mutation_may_have_started_at = some at;
  accepted_evidence_digest = some digest;
}

abbrev pub set_mutation_completed : Time → Job → Job
set_mutation_completed at j = record j {
  checkpoint = mutation_completed;
  mutation_completed_at = some at;
}

abbrev pub set_health_started : Time → Job → Job
set_health_started at j = record j { checkpoint = health_started; health_started_at = some at }

abbrev pub set_health_passed : Time → String → Job → Job
set_health_passed at reason j = record j {
  checkpoint = health_completed;
  health_completed_at = some at;
  health_outcome = some HealthOutcome.passed;
  status = succeeded;
  terminalized_at = some at;
  terminal_reason = some reason;
}

abbrev pub set_health_failed : Time → Job → Job
set_health_failed at j = record j {
  checkpoint = health_completed;
  health_completed_at = some at;
  health_outcome = some HealthOutcome.failed;
}

-- The guard of `_commit_rollback_intent` on the checkpoint and the verdict.
abbrev pub is_rollback_eligible : Checkpoint → Bool
is_rollback_eligible mutation_may_have_started = true
is_rollback_eligible mutation_completed = true
is_rollback_eligible health_started = true
is_rollback_eligible health_completed = true
is_rollback_eligible _ = false

abbrev pub null_or_failed : Option HealthOutcome → Bool
null_or_failed none = true
null_or_failed (some o) = o == HealthOutcome.failed

abbrev pub set_rollback_intent : String → Time → Job → Job
set_rollback_intent operation at j = record j {
  checkpoint = rollback_may_have_started;
  rollback_operation_id = some operation;
  rollback_may_have_started_at = some at;
}

abbrev pub set_rollback_task : String → Job → Job
set_rollback_task upid j = record j { rollback_task_upid = some upid }

abbrev pub set_rolled_back : Time → String → Job → Job
set_rolled_back at reason j = record j {
  checkpoint = rollback_completed;
  rollback_completed_at = some at;
  status = rolled_back;
  terminalized_at = some at;
  terminal_reason = some reason;
}
