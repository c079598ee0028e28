-- ===== src/Tests/Histories.antt =====
-- Histories of calls, and calls into the host.
use hubinet_ops.Prelude.{
  ◌⊎◌, ℕ, suc, true, some, List, [], ◌∷◌, ◌++◌, ◌≡◌, ◌≢◌, ◌≤◌, refl, All, arith,
}
use hubinet_ops.Models.{Checkpoint, HostMutationState, aggregate_health_outcome}
use hubinet_ops.Authority.Tables.{Job, Event}
use hubinet_ops.Authority.Host.{Host, Sealed}
use hubinet_ops.Authority.Result.{ok}
use hubinet_ops.Authority.Calls.{run_db, run_host, replay}
use hubinet_ops.Authority.Checks.{
  insert as insert_sorted, sorted, require_uuid, require_pve_upid, require_text,
  optional_bounded_text, require_architecture, require_evidence_digest,
}
use hubinet_ops.Authority.Context.{
  plan_finding, scan_finding, context_finding, current_authority_detail, authority_is_current,
}
use hubinet_ops.Authority.Gate.{
  require_active_execution_gate_job, release_gate_job, terminalize_if_stale, revalidate_or_release,
  mismatch, evaluate_execution_plan,
}
use hubinet_ops.Authority.HealthStage.{
  job_health, require_coherent_frozen_contract, health_request, start_health, insert_results,
  insert_post_scan_request, commit_passed, commit_failed, commit_verdict, complete_health,
}
use hubinet_ops.Authority.HealthUnknown.{evidence_details, record_health_outcome_unknown}
use hubinet_ops.Authority.Host.{submission, release}
use hubinet_ops.Authority.Identity.{
  identity_payload, validate_pve_snapshot_name, derive_pre_update_snapshot_identity,
  derive_package_mutation_identity, derive_package_rollback_identity, snapshot_identity,
  snapshot_ownership, mutation_identity, rollback_identity,
}
use hubinet_ops.Authority.Locator.{
  current_resource, locator_is_current, post_mutation_context_is_current, scan_context_is_current,
}
use hubinet_ops.Authority.Machine.Constraints.{row_checks}
use hubinet_ops.Authority.Mutation.{
  commit_mutation_intent, arm_confirmed, arm_mutation, require_armed_mutation, mutation_proof,
  execute_mutation_submission_if_current, record_mutation_event, record_mutation_uncertain,
  record_mutation_submitted, record_mutation_terminal_failure, complete_mutation,
}
use hubinet_ops.Authority.MutationRelease.{
  guard_mutation_release, commit_pre_mutation_block, resolve_pre_mutation_block,
}
use hubinet_ops.Authority.Ownership.{
  examine, owned_matches, require_exactly_one_job_owned_snapshot, require_no_trace,
  require_current_parent_is,
}
use hubinet_ops.Authority.Plans.{
  validate_packages, validate_package_plan, package_plan_fingerprint, require_probe_target,
  normalize_probes, canonical_health_probes, health_contract_fingerprint,
}
use hubinet_ops.Authority.Query.{find_by, select_by}
use hubinet_ops.Authority.Recovery.{interrupt_jobs, recover_interrupted}
use hubinet_ops.Authority.Rollback.{
  rollback_proof, rollback_request, commit_rollback_intent, arm_rollback, require_armed_rollback,
  execute_rollback_submission_if_current, record_rollback_task, record_rollback_event,
  record_rollback_submitted, record_rollback_uncertain, record_rollback_terminal_failure,
}
use hubinet_ops.Authority.RollbackCompletion.{
  resolve_pre_rollback_block, complete_armed_rollback, complete_rollback,
}
use hubinet_ops.Authority.Scans.{
  post_update_scan_is_pending, latest_scan_from, same_material_set, material_rows,
  successful_scan_fingerprint, scan_is_current_and_approvable, resource_health_contract,
  frozen_health_contract_drifts,
}
use hubinet_ops.Authority.Snapshot.{
  record_preflight_passed, commit_snapshot_intent, record_snapshot_intent,
  require_snapshot_operation, execute_snapshot_submission_if_current, record_snapshot_task,
  confirm_snapshot,
}
use hubinet_ops.Authority.SnapshotRelease.{
  block_snapshot_job, record_snapshot_uncertain, fail_snapshot, resolve_pre_submission_block,
  block_after_snapshot_success_with_stale_authority, select_rollback_target,
}
use hubinet_ops.Authority.Source.{
  require_source_row, require_active_endpoint_row, source_has_current_authority,
  source_context_is_current, update_health, expire_if_due, materialize_due_expiry,
}
use hubinet_ops.Authority.Tx.{
  find_job, update_rows, row_count, require_job_row, update_job, last_sequence, append_event,
  bump_published,
}
use hubinet_ops.Completion.{approved_of, checks, compare_states, prove_package_mutation_completion}
use hubinet_ops.Completion.Maps.{lookup, keys, insert}
use hubinet_ops.Health.{
  is_health_probe_reason, require_health_probe_semantics, require_health_probe_reason,
  require_unresolved_health_reason, coherent_observation, has_duplicate_index, order_observations,
  match_observations,
}
use hubinet_ops.Models.{aggregate_health_outcome}
use hubinet_ops.Models.{
  JobStatus-discrete, Checkpoint-discrete, ProbeKind-discrete, ProbeOutcome-discrete,
  HealthOutcome-discrete, HostMutationState-discrete,
}
use hubinet_ops.Authority.Context.{AuthorityState-discrete}
use hubinet_ops.Authority.Machine.Progress.{Advances}
use hubinet_ops.Authority.Calls.{Call}
use hubinet_ops.Authority.Calls.Safety.{
  IsChecked, active_count, replay-IsChecked, replay-Advances, replay-terminal, replay-events,
  replay-active_count,
}
use hubinet_ops.Authority.Calls.Endings.{
  IsProvenGood, replay-succeeded, IsProvenBack, replay-rolled_back,
}
use hubinet_ops.Authority.Mutation.Guards.{IsArmedFor, mutation_submission-IsArmedFor}
use hubinet_ops.Authority.Rollback.Guards.{IsArmedBack, rollback_submission-IsArmedBack}
use hubinet_ops.Authority.Host.Releases.{mutation_release-sealed}
use hubinet_ops.Authority.Mutation.Completions.{complete_mutation-IsExact}
use hubinet_ops.Authority.Rows.{set_health_passed}
use hubinet_ops.Tests.Data.{
  platform, clock, armed_job, evaluated_job, blocked_job, db_with, good, upgraded,
}
use hubinet_ops.Models.{rolled_back}
use hubinet_ops.Completion.Exact.{IsExact}

abbrev HostCall : Type 0
HostCall = Call platform ℕ ℕ

abbrev calls : List HostCall
calls = Call.verdict clock "j" (good ∷ []) ∷ []

abbrev succeeded_job : Job
succeeded_job =
    set_health_passed 7
      "every probe of this job's frozen health contract generation was positively proven"
      evaluated_job

replay-IsChecked_example : All IsChecked (replay platform ℕ ℕ calls (db_with evaluated_job) 0).jobs
unfolding row_checks JobStatus-discrete Checkpoint-discrete HealthOutcome-discrete
replay-IsChecked_example = replay-IsChecked platform calls (db_with evaluated_job) 0 (refl, tt)

found_lem :
    find_job "j" (replay platform ℕ ℕ calls (db_with evaluated_job) 0).jobs ≡ some succeeded_job
unfolding JobStatus-discrete Checkpoint-discrete ProbeKind-discrete ProbeOutcome-discrete
    HealthOutcome-discrete HostMutationState-discrete AuthorityState-discrete run_db run_host replay
    insert_sorted sorted require_uuid require_pve_upid require_text optional_bounded_text
    require_architecture require_evidence_digest plan_finding scan_finding context_finding
    current_authority_detail authority_is_current require_active_execution_gate_job release_gate_job
    terminalize_if_stale revalidate_or_release mismatch evaluate_execution_plan job_health
    require_coherent_frozen_contract health_request start_health insert_results
    insert_post_scan_request commit_passed commit_failed commit_verdict complete_health
    evidence_details record_health_outcome_unknown submission release identity_payload
    validate_pve_snapshot_name derive_pre_update_snapshot_identity derive_package_mutation_identity
    derive_package_rollback_identity snapshot_identity snapshot_ownership mutation_identity
    rollback_identity current_resource locator_is_current post_mutation_context_is_current
    scan_context_is_current row_checks commit_mutation_intent arm_confirmed arm_mutation
    require_armed_mutation mutation_proof execute_mutation_submission_if_current
    record_mutation_event record_mutation_uncertain record_mutation_submitted
    record_mutation_terminal_failure complete_mutation guard_mutation_release
    commit_pre_mutation_block resolve_pre_mutation_block examine owned_matches
    require_exactly_one_job_owned_snapshot require_no_trace require_current_parent_is
    validate_packages validate_package_plan package_plan_fingerprint require_probe_target
    normalize_probes canonical_health_probes health_contract_fingerprint find_by select_by
    interrupt_jobs recover_interrupted rollback_request commit_rollback_intent arm_rollback
    require_armed_rollback execute_rollback_submission_if_current record_rollback_task
    record_rollback_event record_rollback_submitted record_rollback_uncertain
    record_rollback_terminal_failure resolve_pre_rollback_block complete_armed_rollback
    complete_rollback post_update_scan_is_pending latest_scan_from same_material_set material_rows
    successful_scan_fingerprint scan_is_current_and_approvable resource_health_contract
    frozen_health_contract_drifts record_preflight_passed commit_snapshot_intent
    record_snapshot_intent require_snapshot_operation execute_snapshot_submission_if_current
    record_snapshot_task confirm_snapshot block_snapshot_job record_snapshot_uncertain fail_snapshot
    resolve_pre_submission_block block_after_snapshot_success_with_stale_authority
    select_rollback_target require_source_row require_active_endpoint_row
    source_has_current_authority source_context_is_current update_health expire_if_due
    materialize_due_expiry find_job update_rows row_count require_job_row update_job last_sequence
    append_event bump_published approved_of checks compare_states prove_package_mutation_completion
    lookup keys insert is_health_probe_reason require_health_probe_semantics
    require_health_probe_reason require_unresolved_health_reason coherent_observation
    has_duplicate_index order_observations match_observations aggregate_health_outcome
found_lem = refl

succeeded_example : IsProvenGood succeeded_job
unfolding row_checks JobStatus-discrete Checkpoint-discrete HealthOutcome-discrete
succeeded_example =
    replay-succeeded platform calls (db_with evaluated_job) 0 "j" succeeded_job (refl, tt) found_lem
      refl

replay-Advances_example :
    (k : Job) × (find_job "j" (replay platform ℕ ℕ calls (db_with evaluated_job) 0).jobs ≡ some k)
    × Advances evaluated_job k
unfolding find_job
replay-Advances_example =
    replay-Advances platform calls (db_with evaluated_job) 0 "j" evaluated_job refl

terminal_example :
    find_job "j" (replay platform ℕ ℕ calls (db_with blocked_job) 0).jobs ≡ some blocked_job
unfolding find_job
terminal_example =
    replay-terminal platform calls (db_with blocked_job) 0 "j" blocked_job refl (λ e. cc)

events_example :
    (added : List Event) × ((replay platform ℕ ℕ calls (db_with evaluated_job) 0).events
      ≡ [] ++ added)
events_example = replay-events platform calls (db_with evaluated_job) 0

active_example : active_count (replay platform ℕ ℕ calls (db_with evaluated_job) 0).jobs ≤ 1
unfolding JobStatus-discrete
active_example = replay-active_count platform calls (db_with evaluated_job) 0

abbrev rollback_job : Job
rollback_job = record armed_job {
  checkpoint = Checkpoint.rollback_completed;
  status = rolled_back;
  rollback_operation_id = some "u";
  rollback_may_have_started_at = some 4;
  rollback_task_upid = some "t";
  rollback_completed_at = some 5;
  terminalized_at = some 5;
  terminal_reason = some "rolled back";
}

rolled_lem :
    find_job "j" (replay platform ℕ ℕ calls (db_with rollback_job) 0).jobs ≡ some rollback_job
unfolding JobStatus-discrete Checkpoint-discrete ProbeKind-discrete ProbeOutcome-discrete
    HealthOutcome-discrete HostMutationState-discrete AuthorityState-discrete run_db run_host replay
    insert_sorted sorted require_uuid require_pve_upid require_text optional_bounded_text
    require_architecture require_evidence_digest plan_finding scan_finding context_finding
    current_authority_detail authority_is_current require_active_execution_gate_job release_gate_job
    terminalize_if_stale revalidate_or_release mismatch evaluate_execution_plan job_health
    require_coherent_frozen_contract health_request start_health insert_results
    insert_post_scan_request commit_passed commit_failed commit_verdict complete_health
    evidence_details record_health_outcome_unknown submission release identity_payload
    validate_pve_snapshot_name derive_pre_update_snapshot_identity derive_package_mutation_identity
    derive_package_rollback_identity snapshot_identity snapshot_ownership mutation_identity
    rollback_identity current_resource locator_is_current post_mutation_context_is_current
    scan_context_is_current row_checks commit_mutation_intent arm_confirmed arm_mutation
    require_armed_mutation mutation_proof execute_mutation_submission_if_current
    record_mutation_event record_mutation_uncertain record_mutation_submitted
    record_mutation_terminal_failure complete_mutation guard_mutation_release
    commit_pre_mutation_block resolve_pre_mutation_block examine owned_matches
    require_exactly_one_job_owned_snapshot require_no_trace require_current_parent_is
    validate_packages validate_package_plan package_plan_fingerprint require_probe_target
    normalize_probes canonical_health_probes health_contract_fingerprint find_by select_by
    interrupt_jobs recover_interrupted rollback_request commit_rollback_intent arm_rollback
    require_armed_rollback execute_rollback_submission_if_current record_rollback_task
    record_rollback_event record_rollback_submitted record_rollback_uncertain
    record_rollback_terminal_failure resolve_pre_rollback_block complete_armed_rollback
    complete_rollback post_update_scan_is_pending latest_scan_from same_material_set material_rows
    successful_scan_fingerprint scan_is_current_and_approvable resource_health_contract
    frozen_health_contract_drifts record_preflight_passed commit_snapshot_intent
    record_snapshot_intent require_snapshot_operation execute_snapshot_submission_if_current
    record_snapshot_task confirm_snapshot block_snapshot_job record_snapshot_uncertain fail_snapshot
    resolve_pre_submission_block block_after_snapshot_success_with_stale_authority
    select_rollback_target require_source_row require_active_endpoint_row
    source_has_current_authority source_context_is_current update_health expire_if_due
    materialize_due_expiry find_job update_rows row_count require_job_row update_job last_sequence
    append_event bump_published approved_of checks compare_states prove_package_mutation_completion
    lookup keys insert is_health_probe_reason require_health_probe_semantics
    require_health_probe_reason require_unresolved_health_reason coherent_observation
    has_duplicate_index order_observations match_observations aggregate_health_outcome
rolled_lem = refl

rolled_back_example : IsProvenBack rollback_job
unfolding row_checks JobStatus-discrete Checkpoint-discrete HealthOutcome-discrete
rolled_back_example =
    replay-rolled_back platform calls (db_with rollback_job) 0 "j" rollback_job (refl, tt)
      rolled_lem refl

-- The host counts the calls that it gets.
abbrev submit : Host ℕ ℕ
submit w = (ok 5, suc w)

submitted_lem :
    (execute_mutation_submission_if_current platform clock "j" "d" submit (db_with armed_job) 0).2
    ≢ 0
unfolding JobStatus-discrete Checkpoint-discrete ProbeKind-discrete ProbeOutcome-discrete
    HealthOutcome-discrete HostMutationState-discrete AuthorityState-discrete run_db run_host replay
    insert_sorted sorted require_uuid require_pve_upid require_text optional_bounded_text
    require_architecture require_evidence_digest plan_finding scan_finding context_finding
    current_authority_detail authority_is_current require_active_execution_gate_job release_gate_job
    terminalize_if_stale revalidate_or_release mismatch evaluate_execution_plan job_health
    require_coherent_frozen_contract health_request start_health insert_results
    insert_post_scan_request commit_passed commit_failed commit_verdict complete_health
    evidence_details record_health_outcome_unknown submission release identity_payload
    validate_pve_snapshot_name derive_pre_update_snapshot_identity derive_package_mutation_identity
    derive_package_rollback_identity snapshot_identity snapshot_ownership mutation_identity
    rollback_identity current_resource locator_is_current post_mutation_context_is_current
    scan_context_is_current row_checks commit_mutation_intent arm_confirmed arm_mutation
    require_armed_mutation mutation_proof execute_mutation_submission_if_current
    record_mutation_event record_mutation_uncertain record_mutation_submitted
    record_mutation_terminal_failure complete_mutation guard_mutation_release
    commit_pre_mutation_block resolve_pre_mutation_block examine owned_matches
    require_exactly_one_job_owned_snapshot require_no_trace require_current_parent_is
    validate_packages validate_package_plan package_plan_fingerprint require_probe_target
    normalize_probes canonical_health_probes health_contract_fingerprint find_by select_by
    interrupt_jobs recover_interrupted rollback_request commit_rollback_intent arm_rollback
    require_armed_rollback execute_rollback_submission_if_current record_rollback_task
    record_rollback_event record_rollback_submitted record_rollback_uncertain
    record_rollback_terminal_failure resolve_pre_rollback_block complete_armed_rollback
    complete_rollback post_update_scan_is_pending latest_scan_from same_material_set material_rows
    successful_scan_fingerprint scan_is_current_and_approvable resource_health_contract
    frozen_health_contract_drifts record_preflight_passed commit_snapshot_intent
    record_snapshot_intent require_snapshot_operation execute_snapshot_submission_if_current
    record_snapshot_task confirm_snapshot block_snapshot_job record_snapshot_uncertain fail_snapshot
    resolve_pre_submission_block block_after_snapshot_success_with_stale_authority
    select_rollback_target require_source_row require_active_endpoint_row
    source_has_current_authority source_context_is_current update_health expire_if_due
    materialize_due_expiry find_job update_rows row_count require_job_row update_job last_sequence
    append_event bump_published approved_of checks compare_states prove_package_mutation_completion
    lookup keys insert is_health_probe_reason require_health_probe_semantics
    require_health_probe_reason require_unresolved_health_reason coherent_observation
    has_duplicate_index order_observations match_observations aggregate_health_outcome
submitted_lem e = omega (arith, e)

submission_example : IsArmedFor platform (db_with armed_job) "j" "d"
submission_example =
    mutation_submission-IsArmedFor platform clock "j" "d" submit (db_with armed_job) 0 submitted_lem

abbrev seal : Host ℕ (Sealed HostMutationState ℕ)
seal w = (
  ok (record {
    state = some HostMutationState.sealed_not_submitted;
    reason = "sealed";
    evidence = 3;
  }),
  suc w,
)

release_example :
    ((answer : Sealed HostMutationState ℕ) × (v : ℕ) × (seal 0 ≡ (ok answer, v))
      × (answer.state ≡ some HostMutationState.sealed_not_submitted)
      × ((resolve_pre_mutation_block platform clock "j" seal (db_with armed_job) 0).0
          ≡ ok (true, answer.evidence)))
    ⊎ (((resolve_pre_mutation_block platform clock "j" seal (db_with armed_job) 0).1
          ≡ db_with armed_job)
        × ((a : ℕ)
            → (resolve_pre_mutation_block platform clock "j" seal (db_with armed_job) 0).0
              ≢ ok (true, a)))
release_example = mutation_release-sealed platform clock "j" seal (db_with armed_job) 0

completed_lem : (complete_mutation platform clock "j" upgraded (db_with armed_job)).0 ≡ ok tt
unfolding JobStatus-discrete Checkpoint-discrete ProbeKind-discrete ProbeOutcome-discrete
    HealthOutcome-discrete HostMutationState-discrete AuthorityState-discrete run_db run_host replay
    insert_sorted sorted require_uuid require_pve_upid require_text optional_bounded_text
    require_architecture require_evidence_digest plan_finding scan_finding context_finding
    current_authority_detail authority_is_current require_active_execution_gate_job release_gate_job
    terminalize_if_stale revalidate_or_release mismatch evaluate_execution_plan job_health
    require_coherent_frozen_contract health_request start_health insert_results
    insert_post_scan_request commit_passed commit_failed commit_verdict complete_health
    evidence_details record_health_outcome_unknown submission release identity_payload
    validate_pve_snapshot_name derive_pre_update_snapshot_identity derive_package_mutation_identity
    derive_package_rollback_identity snapshot_identity snapshot_ownership mutation_identity
    rollback_identity current_resource locator_is_current post_mutation_context_is_current
    scan_context_is_current row_checks commit_mutation_intent arm_confirmed arm_mutation
    require_armed_mutation mutation_proof execute_mutation_submission_if_current
    record_mutation_event record_mutation_uncertain record_mutation_submitted
    record_mutation_terminal_failure complete_mutation guard_mutation_release
    commit_pre_mutation_block resolve_pre_mutation_block examine owned_matches
    require_exactly_one_job_owned_snapshot require_no_trace require_current_parent_is
    validate_packages validate_package_plan package_plan_fingerprint require_probe_target
    normalize_probes canonical_health_probes health_contract_fingerprint find_by select_by
    interrupt_jobs recover_interrupted rollback_request commit_rollback_intent arm_rollback
    require_armed_rollback execute_rollback_submission_if_current record_rollback_task
    record_rollback_event record_rollback_submitted record_rollback_uncertain
    record_rollback_terminal_failure resolve_pre_rollback_block complete_armed_rollback
    complete_rollback post_update_scan_is_pending latest_scan_from same_material_set material_rows
    successful_scan_fingerprint scan_is_current_and_approvable resource_health_contract
    frozen_health_contract_drifts record_preflight_passed commit_snapshot_intent
    record_snapshot_intent require_snapshot_operation execute_snapshot_submission_if_current
    record_snapshot_task confirm_snapshot block_snapshot_job record_snapshot_uncertain fail_snapshot
    resolve_pre_submission_block block_after_snapshot_success_with_stale_authority
    select_rollback_target require_source_row require_active_endpoint_row
    source_has_current_authority source_context_is_current update_health expire_if_due
    materialize_due_expiry find_job update_rows row_count require_job_row update_job last_sequence
    append_event bump_published approved_of checks compare_states prove_package_mutation_completion
    lookup keys insert is_health_probe_reason require_health_probe_semantics
    require_health_probe_reason require_unresolved_health_reason coherent_observation
    has_duplicate_index order_observations match_observations aggregate_health_outcome
completed_lem = refl

mutation_example :
    (material_rows (db_with armed_job).job_packages "j" ≢ [])
    × (upgraded.post_unfinished ≡ [])
    × IsExact
        (approved_of (material_rows (db_with armed_job).job_packages "j"))
        upgraded.pre_installed
        upgraded.post_installed
mutation_example =
    complete_mutation-IsExact platform clock "j" upgraded (db_with armed_job) completed_lem

abbrev returning_job : Job
returning_job = record armed_job {
  checkpoint = Checkpoint.rollback_may_have_started;
  rollback_operation_id = some "u";
  rollback_may_have_started_at = some 4;
}

rollback_submitted_lem :
    (execute_rollback_submission_if_current platform "j" submit (db_with returning_job) 0).2 ≢ 0
unfolding JobStatus-discrete Checkpoint-discrete ProbeKind-discrete ProbeOutcome-discrete
    HealthOutcome-discrete HostMutationState-discrete AuthorityState-discrete run_db run_host replay
    insert_sorted sorted require_uuid require_pve_upid require_text optional_bounded_text
    require_architecture require_evidence_digest plan_finding scan_finding context_finding
    current_authority_detail authority_is_current require_active_execution_gate_job release_gate_job
    terminalize_if_stale revalidate_or_release mismatch evaluate_execution_plan job_health
    require_coherent_frozen_contract health_request start_health insert_results
    insert_post_scan_request commit_passed commit_failed commit_verdict complete_health
    evidence_details record_health_outcome_unknown submission release identity_payload
    validate_pve_snapshot_name derive_pre_update_snapshot_identity derive_package_mutation_identity
    derive_package_rollback_identity snapshot_identity snapshot_ownership mutation_identity
    rollback_identity current_resource locator_is_current post_mutation_context_is_current
    scan_context_is_current row_checks commit_mutation_intent arm_confirmed arm_mutation
    require_armed_mutation mutation_proof execute_mutation_submission_if_current
    record_mutation_event record_mutation_uncertain record_mutation_submitted
    record_mutation_terminal_failure complete_mutation guard_mutation_release
    commit_pre_mutation_block resolve_pre_mutation_block examine owned_matches
    require_exactly_one_job_owned_snapshot require_no_trace require_current_parent_is
    validate_packages validate_package_plan package_plan_fingerprint require_probe_target
    normalize_probes canonical_health_probes health_contract_fingerprint find_by select_by
    interrupt_jobs recover_interrupted rollback_request rollback_proof commit_rollback_intent
    arm_rollback require_armed_rollback execute_rollback_submission_if_current record_rollback_task
    record_rollback_event record_rollback_submitted record_rollback_uncertain
    record_rollback_terminal_failure resolve_pre_rollback_block complete_armed_rollback
    complete_rollback post_update_scan_is_pending latest_scan_from same_material_set material_rows
    successful_scan_fingerprint scan_is_current_and_approvable resource_health_contract
    frozen_health_contract_drifts record_preflight_passed commit_snapshot_intent
    record_snapshot_intent require_snapshot_operation execute_snapshot_submission_if_current
    record_snapshot_task confirm_snapshot block_snapshot_job record_snapshot_uncertain fail_snapshot
    resolve_pre_submission_block block_after_snapshot_success_with_stale_authority
    select_rollback_target require_source_row require_active_endpoint_row
    source_has_current_authority source_context_is_current update_health expire_if_due
    materialize_due_expiry find_job update_rows row_count require_job_row update_job last_sequence
    append_event bump_published approved_of checks compare_states prove_package_mutation_completion
    lookup keys insert is_health_probe_reason require_health_probe_semantics
    require_health_probe_reason require_unresolved_health_reason coherent_observation
    has_duplicate_index order_observations match_observations aggregate_health_outcome
rollback_submitted_lem e = omega (arith, e)

rollback_submission_example : IsArmedBack platform (db_with returning_job) "j"
rollback_submission_example =
    rollback_submission-IsArmedBack platform "j" submit (db_with returning_job) 0
      rollback_submitted_lem
