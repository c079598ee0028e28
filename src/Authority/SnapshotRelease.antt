-- ===== src/Authority/SnapshotRelease.antt =====
-- The ways out of a snapshot operation without a confirmed snapshot, and the choice of the rollback
-- target, in `app/inventory/authority.py`.
use hubinet_ops.Prelude.{String, Bool, true, false, ◌&&◌, if◌then◌else◌, List, [], ◌==◌, string_eq}
use hubinet_ops.Models.{
  blocked, status_eq, Checkpoint, checkpoint_eq, HostSubmissionState, sealed_not_submitted,
  submission_state_eq, warning, error, EventType, EventLevel,
}
use hubinet_ops.Authority.Result.{Result, authority_conflict, authority_invariant}
use hubinet_ops.Authority.Platform.{Platform}
use hubinet_ops.Authority.Checks.{require_text}
use hubinet_ops.Authority.Tables.{Job, Detail, Db}
use hubinet_ops.Authority.Query.{str_of}
use hubinet_ops.Authority.Tx.{
  Tx, ◌>>=◌, ◌>>◌, lift, ensure, transaction, update_job, append_event, bump_published,
}
use hubinet_ops.Authority.Rows.{is_null, active_at, terminalize}
use hubinet_ops.Authority.Host.{Clock, Host, Sealed, release}
use hubinet_ops.Authority.Ownership.{ObservedSnapshot, require_no_trace}
use hubinet_ops.Authority.Snapshot.{require_snapshot_operation}
use hubinet_ops.Authority.Identity.{snapshot_ownership}
use hubinet_ops.Authority.Context.{current, state_eq, current_authority_detail}
use hubinet_ops.Prelude.{ℕ, leb, some, ◌∷◌}
use hubinet_ops.Models.{checkpoint_rank, active, status_eq}
use hubinet_ops.Authority.Tables.{Time}
use hubinet_ops.Authority.Result.{or_raise}
use hubinet_ops.Authority.Checks.{require_uuid}
use hubinet_ops.Authority.Query.{str_of}
use hubinet_ops.Authority.Tx.{require_job_row, pure}
use hubinet_ops.Authority.Ownership.{require_exactly_one_job_owned_snapshot}

-- `PackageUpdateRollbackTarget`
pub record RollbackTarget : Type 0 where
  pub job_id : String
  pub resource_id : String
  pub expected_vmid : ℕ
  pub expected_node_name : String
  pub snapshot_name : String
  pub snapshot_operation_id : String
  pub snapshot_confirmed_at : Time

module _ (p : Platform) where
  abbrev retained_reason : String
  retained_reason =
      "snapshot exists but current package authority became stale; retained but not authorized for rollback"

  -- `UPDATE ... SET status='blocked'` with its event, for a job inside a snapshot operation.
  unfoldable pub block_snapshot_job :
      Clock
      → String
      → (Job → Bool)
      → EventLevel
      → EventType
      → String
      → List (String × Detail)
      → Tx (Unit {0})
  block_snapshot_job clock id guard level event reason details = do
    update_job id (λ j. active_at Checkpoint.snapshot_may_have_started j && guard j)
        (terminalize blocked clock.recorded_at reason)
    append_event p id clock.recorded_at level Checkpoint.snapshot_may_have_started event reason
        details
    bump_published clock.published_at

  -- `record_package_update_snapshot_uncertain`
  unfoldable pub record_snapshot_uncertain : Clock → String → String → Db → Result (Unit {0}) × Db
  record_snapshot_uncertain clock job_id reason = transaction (do
    bounded ← lift (require_text p reason 500)
    _ ← require_snapshot_operation p job_id
    append_event p job_id clock.recorded_at error Checkpoint.snapshot_may_have_started
        EventType.snapshot_outcome_uncertain bounded [])

  -- `fail_package_update_snapshot`
  unfoldable pub fail_snapshot :
      Clock → String → String → List ObservedSnapshot → Db → Result (Unit {0}) × Db
  unfolding block_snapshot_job
  fail_snapshot clock job_id reason observed = transaction (do
    bounded ← lift (require_text p reason 500)
    job ← require_snapshot_operation p job_id
    lift (require_no_trace job_id (str_of job.snapshot_name) observed)
    block_snapshot_job clock job_id (λ j. true) error EventType.snapshot_failed bounded [])

  -- `resolve_pre_submission_block` over `_commit_pre_submission_block`
  unfoldable pub resolve_pre_submission_block :
      {W A : Type 0}
      → Clock
      → String
      → Host W (Sealed HostSubmissionState A)
      → Db
      → W
      → Result (Bool × A) × Db × W
  unfolding release block_snapshot_job
  resolve_pre_submission_block clock job_id =
      release
        (do
          job ← require_snapshot_operation p job_id
          ensure (is_null job.snapshot_task_upid) authority_conflict
          ensure (is_null job.snapshot_confirmed_at) authority_invariant)
        (λ s. s == sealed_not_submitted)
        (λ reason. do
          bounded ← lift (require_text p reason 500)
          block_snapshot_job clock job_id
              (λ j. is_null j.snapshot_task_upid && is_null j.snapshot_confirmed_at) warning
              EventType.snapshot_blocked_before_submission bounded [])

  -- `block_package_update_after_snapshot_success_with_stale_authority`. The wrapper's
  -- `AuthorityConflict` is caught there, so every finding but a current one is staleness.
  unfoldable pub block_after_snapshot_success_with_stale_authority :
      Clock → String → List ObservedSnapshot → Db → Result Bool × Db
  unfolding block_snapshot_job snapshot_ownership current_authority_detail
  block_after_snapshot_success_with_stale_authority clock job_id observed = transaction (do
    job ← require_snapshot_operation p job_id
    ensure (is_null job.snapshot_confirmed_at) authority_invariant
    expected ← snapshot_ownership p job
    _ ← lift (
        require_exactly_one_job_owned_snapshot job_id (some (str_of job.snapshot_name)) observed
          expected)
    found ← current_authority_detail p clock.decided_at job
    if found.state == current then pure false else (do
      block_snapshot_job clock job_id (λ j. is_null j.snapshot_confirmed_at) warning
          EventType.snapshot_retained_authority_stale retained_reason
          (("snapshot_name", Detail.str (str_of job.snapshot_name)) ∷ [])
      pure true))

  -- `select_package_update_rollback_target`
  unfoldable pub select_rollback_target :
      String → List ObservedSnapshot → Db → Result RollbackTarget × Db
  unfolding snapshot_ownership
  select_rollback_target job_id observed = transaction (do
    id ← lift (require_uuid p job_id)
    job ← require_job_row id
    expected ← snapshot_ownership p job
    ensure (job.status == active) authority_conflict
    confirmed_at ← lift (or_raise job.snapshot_confirmed_at authority_conflict)
    name ← lift (or_raise job.snapshot_name authority_conflict)
    ensure (leb (checkpoint_rank Checkpoint.snapshot_confirmed) (checkpoint_rank job.checkpoint))
        authority_invariant
    _ ← lift (require_exactly_one_job_owned_snapshot id (some name) observed expected)
    pure (record {
      job_id = id;
      resource_id = job.context.resource_id;
      expected_vmid = job.context.expected_vmid;
      expected_node_name = job.context.expected_node_name;
      snapshot_name = name;
      snapshot_operation_id = str_of job.snapshot_operation_id;
      snapshot_confirmed_at = confirmed_at;
    }))
