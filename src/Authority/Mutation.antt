-- ===== src/Authority/Mutation.antt =====
-- The package mutation of a job in `app/inventory/authority.py`: the write-ahead boundary, the one
-- submission, and what is recorded of its outcome.
pub mod Completions
pub mod Guards
use hubinet_ops.Prelude.{
  String, Bool, true, false, not, ◌&&◌, ◌||◌, Option, none, some, List, [], ◌∷◌, ◌==◌, length,
  string_eq, if◌then◌else◌,
}
use hubinet_ops.Models.{
  active, status_eq, Checkpoint, checkpoint_eq, info, warning, error, EventType, EventLevel,
  ExecutionOutcome, ArmOutcome,
}
use hubinet_ops.Authority.Result.{
  Error, Result, ok, err, authority_conflict, authority_invariant, mutation_submission_refused,
  evidence_not_accepted, or_raise,
}
use hubinet_ops.Authority.Platform.{Platform}
use hubinet_ops.Authority.Checks.{require_uuid, require_text, require_evidence_digest}
use hubinet_ops.Authority.Tables.{Job, Material, PackageRow, Detail, Db}
use hubinet_ops.Authority.Tx.{
  Tx, ◌>>=◌, ◌>>◌, pure, raise, lift, gets, ensure, transaction, require_job_row, update_job,
  append_event, bump_published,
}
use hubinet_ops.Authority.Plans.{validate_package_plan}
use hubinet_ops.Authority.Scans.{same_material_set, material_rows}
use hubinet_ops.Authority.Identity.{mutation_identity}
use hubinet_ops.Authority.Context.{authority_is_current}
use hubinet_ops.Authority.Gate.{terminalize_if_stale, plan_matches, mismatch}
use hubinet_ops.Authority.Rows.{is_null, active_at, set_mutation_intent, set_mutation_completed}
use hubinet_ops.Authority.Host.{Clock, Host, submission}
use hubinet_ops.Completion.{Verdict, proven, refused, PostState, prove_package_mutation_completion}

module _ (p : Platform) where
  abbrev pub is_unarmed : Job → Bool
  is_unarmed j =
      active_at Checkpoint.snapshot_confirmed j
      && is_null j.mutation_operation_id
      && is_null j.mutation_may_have_started_at
      && is_null j.accepted_evidence_digest

  -- `_commit_package_mutation_intent`
  unfoldable pub commit_mutation_intent :
      Clock → String → String → List Material → String → Tx (Unit {0})
  commit_mutation_intent clock id operation frozen digest = do
    update_job id is_unarmed (set_mutation_intent operation clock.recorded_at digest)
    append_event p id clock.recorded_at warning Checkpoint.mutation_may_have_started
        EventType.mutation_may_have_started
        "real workload package mutation may be submitted from here on"
        (("mutation_operation_id", Detail.str operation)
          ∷ ("package_count", Detail.number (length frozen))
          ∷ ("accepted_prepared_evidence_digest", Detail.str digest)
          ∷ [])
    bump_published clock.published_at

  -- The branch of a job with its confirmed snapshot.
  unfoldable pub arm_confirmed :
      Clock → String → Job → List Material → String → Tx (ExecutionOutcome × ArmOutcome)
  unfolding terminalize_if_stale same_material_set material_rows mutation_identity
      commit_mutation_intent mismatch
  arm_confirmed clock id job fresh digest = do
    released ← terminalize_if_stale p clock job
    if released then pure (ExecutionOutcome.authority_stale, ArmOutcome.already_armed) else (do
      frozen ← gets (λ db. material_rows db.job_packages id)
      if plan_matches p frozen fresh
          then (do
            operation ← mutation_identity p job
            commit_mutation_intent clock id operation frozen digest
            pure (ExecutionOutcome.matched, ArmOutcome.armed_now))
          else (do
            outcome ← mismatch p clock id frozen fresh
            pure (outcome, ArmOutcome.already_armed)))

  -- `arm_package_update_mutation`
  unfoldable pub arm_mutation :
      Clock → String → List PackageRow → String → Db → Result (ExecutionOutcome × ArmOutcome) × Db
  unfolding arm_confirmed mutation_identity validate_package_plan
  arm_mutation clock job_id packages evidence = transaction (do
    id ← lift (require_uuid p job_id)
    digest ← lift (require_evidence_digest p evidence)
    fresh ← lift (validate_package_plan p packages)
    job ← require_job_row id
    ensure (job.status == active) authority_conflict
    if job.checkpoint == Checkpoint.mutation_may_have_started
        then (do
          _ ← mutation_identity p job
          pure (ExecutionOutcome.matched, ArmOutcome.already_armed))
        else if not (job.checkpoint == Checkpoint.snapshot_confirmed)
        then raise authority_conflict
        else arm_confirmed clock id job fresh digest)

  -- `_require_armed_package_mutation_job`, after the job was read.
  unfoldable pub require_armed_mutation : String → Tx Job
  require_armed_mutation job_id = do
    id ← lift (require_uuid p job_id)
    job ← require_job_row id
    ensure (job.status == active) authority_conflict
    ensure (job.checkpoint == Checkpoint.mutation_may_have_started) authority_conflict
    pure job

  -- A digest that is NULL or empty is refused as an incoherent row.
  abbrev pub accepted_digest : Option String → Result String
  accepted_digest none = err authority_invariant
  accepted_digest (some d) = if d == "" then err authority_invariant else ok d

  -- What `execute_package_mutation_submission_if_current` proves before it calls the host.
  unfoldable pub mutation_proof : Clock → String → String → Tx Bool
  unfolding require_armed_mutation
  mutation_proof clock job_id evidence = do
    id ← lift (require_uuid p job_id)
    digest ← lift (require_evidence_digest p evidence)
    job ← require_armed_mutation id
    accepted ← lift (accepted_digest job.accepted_evidence_digest)
    ensure (accepted == digest) evidence_not_accepted
    authority_is_current p clock.decided_at job

  -- `execute_package_mutation_submission_if_current`
  unfoldable pub execute_mutation_submission_if_current :
      {W A : Type 0} → Clock → String → String → Host W A → Db → W → Result A × Db × W
  unfolding submission mutation_proof
  execute_mutation_submission_if_current clock job_id evidence submit =
      submission (mutation_proof clock job_id evidence) mutation_submission_refused submit

  -- The body of `record_package_update_mutation_uncertain`, `..._submitted` and
  -- `..._terminal_failure`, which differ in the event that they append.
  unfoldable pub record_mutation_event :
      EventLevel → EventType → Clock → String → String → Db → Result (Unit {0}) × Db
  unfolding require_armed_mutation
  record_mutation_event level event clock job_id reason = transaction (do
    id ← lift (require_uuid p job_id)
    bounded ← lift (require_text p reason 500)
    _ ← require_armed_mutation id
    append_event p id clock.recorded_at level Checkpoint.mutation_may_have_started event bounded [])

  unfoldable pub record_mutation_uncertain : Clock → String → String → Db → Result (Unit {0}) × Db
  unfolding record_mutation_event
  record_mutation_uncertain = record_mutation_event error EventType.mutation_outcome_uncertain

  unfoldable pub record_mutation_submitted : Clock → String → String → Db → Result (Unit {0}) × Db
  unfolding record_mutation_event
  record_mutation_submitted = record_mutation_event warning EventType.mutation_submitted

  unfoldable pub record_mutation_terminal_failure :
      Clock → String → String → Db → Result (Unit {0}) × Db
  unfolding record_mutation_event
  record_mutation_terminal_failure = record_mutation_event error EventType.mutation_terminal_failure

  -- `mutation_may_have_started` or `mutation_completed`
  abbrev pub is_in_mutation : Checkpoint → Bool
  is_in_mutation Checkpoint.mutation_may_have_started = true
  is_in_mutation Checkpoint.mutation_completed = true
  is_in_mutation _ = false

  abbrev pub require_proven : Verdict → Tx (Unit {0})
  require_proven proven = pure tt
  require_proven (refused _) = raise authority_conflict

  -- `complete_package_update_mutation`
  unfoldable pub complete_mutation : Clock → String → PostState → Db → Result (Unit {0}) × Db
  unfolding material_rows prove_package_mutation_completion
  complete_mutation clock job_id post_state = transaction (do
    id ← lift (require_uuid p job_id)
    job ← require_job_row id
    ensure (job.status == active) authority_conflict
    ensure (is_in_mutation job.checkpoint) authority_conflict
    frozen ← gets (λ db. material_rows db.job_packages id)
    verdict ← lift (prove_package_mutation_completion frozen post_state)
    require_proven verdict
    if job.checkpoint == Checkpoint.mutation_completed then pure tt else (do
      update_job id
          (λ j. active_at Checkpoint.mutation_may_have_started j && is_null j.mutation_completed_at)
          (set_mutation_completed clock.recorded_at)
      append_event p id clock.recorded_at info Checkpoint.mutation_completed
          EventType.mutation_completed
          "independent dpkg post-state proves the exact approved package mutation is complete"
          (("package_count", Detail.number (length frozen)) ∷ [])
      bump_published clock.published_at))
