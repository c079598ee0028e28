-- ===== src/Authority/Rollback.antt =====
-- The same-job rollback in `app/inventory/authority.py`: the write-ahead boundary, the one
-- submission, and what is recorded of its outcome.
pub mod Guards
use hubinet_ops.Prelude.{
  ℕ, String, Bool, false, not, ◌&&◌, Option, none, some, List, [], ◌∷◌, ◌==◌, string_eq,
  if◌then◌else◌,
}
use hubinet_ops.Models.{
  active, status_eq, Checkpoint, checkpoint_eq, HealthOutcome, health_outcome_eq, info, warning,
  error, EventType, EventLevel,
}
use hubinet_ops.Authority.Result.{Result, authority_conflict, rollback_submission_refused}
use hubinet_ops.Authority.Platform.{Platform}
use hubinet_ops.Authority.Checks.{require_uuid, require_text}
use hubinet_ops.Authority.Tables.{Job, Detail, Db}
use hubinet_ops.Authority.Query.{is_some, str_of}
use hubinet_ops.Authority.Tx.{
  Tx, ◌>>=◌, ◌>>◌, pure, lift, gets, ensure, transaction, when_null, require_job_row, update_job,
  append_event, bump_published,
}
use hubinet_ops.Authority.Identity.{SnapshotOwnership, snapshot_ownership, rollback_identity}
use hubinet_ops.Authority.Locator.{post_mutation_context_is_current}
use hubinet_ops.Authority.Rows.{
  is_null, active_at, is_rollback_eligible, null_or_failed, set_rollback_intent, set_rollback_task,
}
use hubinet_ops.Authority.Host.{Clock, Host, submission}
use hubinet_ops.Authority.Ownership.{ObservedSnapshot, require_exactly_one_job_owned_snapshot}

-- `PackageUpdateRollbackRequest`
pub record RollbackRequest : Type 0 where
  pub rollback_operation_id : String
  pub backend_instance_id : String
  pub job_id : String
  pub resource_id : String
  pub binding_id : String
  pub locator_generation : ℕ
  pub continuity_revision : ℕ
  pub vmid : ℕ
  pub expected_node : String
  pub snapshot_name : String
  pub snapshot_operation_id : String
  pub expected_snapshot_ownership : SnapshotOwnership

abbrev pub checkpoint_value : Checkpoint → String
checkpoint_value Checkpoint.issued = "issued"
checkpoint_value Checkpoint.preflight_passed = "preflight_passed"
checkpoint_value Checkpoint.snapshot_may_have_started = "snapshot_may_have_started"
checkpoint_value Checkpoint.snapshot_confirmed = "snapshot_confirmed"
checkpoint_value Checkpoint.mutation_may_have_started = "mutation_may_have_started"
checkpoint_value Checkpoint.mutation_completed = "mutation_completed"
checkpoint_value Checkpoint.health_started = "health_started"
checkpoint_value Checkpoint.health_completed = "health_completed"
checkpoint_value Checkpoint.rollback_may_have_started = "rollback_may_have_started"
checkpoint_value Checkpoint.rollback_completed = "rollback_completed"

abbrev pub outcome_detail : Option HealthOutcome → Detail
outcome_detail none = Detail.null
outcome_detail (some HealthOutcome.passed) = Detail.str "passed"
outcome_detail (some HealthOutcome.failed) = Detail.str "failed"
outcome_detail (some HealthOutcome.unknown) = Detail.str "unknown"

abbrev pub is_failed : Option HealthOutcome → Bool
is_failed none = false
is_failed (some o) = o == HealthOutcome.failed

module _ (p : Platform) where
  -- `package_update_rollback_request`
  unfoldable pub rollback_request : String → Tx RollbackRequest
  unfolding rollback_identity snapshot_ownership
  rollback_request job_id = do
    id ← lift (require_uuid p job_id)
    job ← require_job_row id
    identity ← rollback_identity p job
    ownership ← snapshot_ownership p job
    backend ← gets (λ db. db.backend_instance_id)
    pure (record {
      rollback_operation_id = identity;
      backend_instance_id = backend;
      job_id = id;
      resource_id = job.context.resource_id;
      binding_id = job.context.expected_binding_id;
      locator_generation = job.context.expected_locator_generation;
      continuity_revision = job.context.expected_continuity_revision;
      vmid = job.context.expected_vmid;
      expected_node = job.context.expected_node_name;
      snapshot_name = str_of job.snapshot_name;
      snapshot_operation_id = str_of job.snapshot_operation_id;
      expected_snapshot_ownership = ownership;
    })

  abbrev pub may_arm_rollback : Job → Bool
  may_arm_rollback j =
      j.status == active
      && is_rollback_eligible j.checkpoint
      && null_or_failed j.health_outcome
      && is_null j.rollback_operation_id
      && is_null j.rollback_may_have_started_at

  -- `_commit_rollback_intent`
  unfoldable pub commit_rollback_intent : Clock → String → String → Job → Tx (Unit {0})
  commit_rollback_intent clock id operation job = do
    update_job id may_arm_rollback (set_rollback_intent operation clock.recorded_at)
    append_event p id clock.recorded_at warning Checkpoint.rollback_may_have_started
        EventType.rollback_may_have_started
        "same-job PVE rollback may be submitted from here on; a successful rollback leaves this guest stopped"
        (("rollback_operation_id", Detail.str operation)
          ∷ ("snapshot_name", Detail.str (str_of job.snapshot_name))
          ∷ ("mutation_was_proven_complete", Detail.flag (is_some job.mutation_completed_at))
          ∷ ("entered_from_checkpoint", Detail.str (checkpoint_value job.checkpoint))
          ∷ ("health_outcome", outcome_detail job.health_outcome)
          ∷ [])
    bump_published clock.published_at

  -- `arm_package_update_rollback`
  unfoldable pub arm_rollback : Clock → String → List ObservedSnapshot → Db → Result (Unit {0}) × Db
  unfolding rollback_identity snapshot_ownership commit_rollback_intent
  arm_rollback clock job_id observed = transaction (do
    id ← lift (require_uuid p job_id)
    job ← require_job_row id
    ensure (job.status == active) authority_conflict
    operation ← rollback_identity p job
    if job.checkpoint == Checkpoint.rollback_may_have_started then pure tt else (do
      ensure (is_rollback_eligible job.checkpoint) authority_conflict
      ensure
          (not
            (job.checkpoint == Checkpoint.health_completed && not (is_failed job.health_outcome)))
          authority_conflict
      here ← gets (λ db. post_mutation_context_is_current db job)
      ensure here rollback_submission_refused
      expected ← snapshot_ownership p job
      _ ← lift (require_exactly_one_job_owned_snapshot id job.snapshot_name observed expected)
      commit_rollback_intent clock id operation job))

  -- `_require_armed_rollback_job`, after the job was read.
  unfoldable pub require_armed_rollback : String → Tx Job
  require_armed_rollback job_id = do
    id ← lift (require_uuid p job_id)
    job ← require_job_row id
    ensure (job.status == active) authority_conflict
    ensure (job.checkpoint == Checkpoint.rollback_may_have_started) authority_conflict
    pure job

  -- What `execute_rollback_submission_if_current` proves before it calls the host.
  unfoldable pub rollback_proof : String → Tx Bool
  unfolding require_armed_rollback rollback_identity post_mutation_context_is_current
  rollback_proof job_id = do
    job ← require_armed_rollback job_id
    _ ← rollback_identity p job
    gets (λ db. post_mutation_context_is_current db job)

  -- `execute_rollback_submission_if_current`
  unfoldable pub execute_rollback_submission_if_current :
      {W A : Type 0} → String → Host W A → Db → W → Result A × Db × W
  unfolding submission rollback_proof
  execute_rollback_submission_if_current job_id submit =
      submission (rollback_proof job_id) rollback_submission_refused submit

  -- `record_package_update_rollback_task`
  unfoldable pub record_rollback_task : Clock → String → String → Db → Result (Unit {0}) × Db
  unfolding require_armed_rollback
  record_rollback_task clock job_id task_upid = transaction (do
    id ← lift (require_uuid p job_id)
    upid ← lift (require_text p task_upid 300)
    job ← require_armed_rollback id
    when_null job.rollback_task_upid
        (do
          update_job id
              (λ j.
                active_at Checkpoint.rollback_may_have_started j && is_null j.rollback_task_upid)
              (set_rollback_task upid)
          append_event p id clock.recorded_at info Checkpoint.rollback_may_have_started
              EventType.rollback_task_observed "observed the PVE task identity for this rollback"
              (("rollback_task_upid", Detail.str upid) ∷ []))
        (λ existing. ensure (existing == upid) authority_conflict))

  -- The body of `record_package_update_rollback_submitted`, `..._uncertain` and
  -- `..._terminal_failure`, which differ in the event that they append.
  unfoldable pub record_rollback_event :
      EventLevel → EventType → Clock → String → String → Db → Result (Unit {0}) × Db
  unfolding require_armed_rollback
  record_rollback_event level event clock job_id reason = transaction (do
    id ← lift (require_uuid p job_id)
    bounded ← lift (require_text p reason 500)
    _ ← require_armed_rollback id
    append_event p id clock.recorded_at level Checkpoint.rollback_may_have_started event bounded [])

  unfoldable pub record_rollback_submitted : Clock → String → String → Db → Result (Unit {0}) × Db
  unfolding record_rollback_event
  record_rollback_submitted = record_rollback_event warning EventType.rollback_submitted

  unfoldable pub record_rollback_uncertain : Clock → String → String → Db → Result (Unit {0}) × Db
  unfolding record_rollback_event
  record_rollback_uncertain = record_rollback_event warning EventType.rollback_outcome_uncertain

  unfoldable pub record_rollback_terminal_failure :
      Clock → String → String → Db → Result (Unit {0}) × Db
  unfolding record_rollback_event
  record_rollback_terminal_failure = record_rollback_event error EventType.rollback_terminal_failure
