-- ===== src/Stages/Reach/Rules.antt =====
-- The transitions of `app/inventory/authority.py` as steps of a stage: the rule of each, which asks
-- that the test admits its call.
use hubinet_ops.Prelude.{ℕ, String, Bool, true, Option, List, ◌≡◌, refl}
use hubinet_ops.Models.{HostSubmissionState, HostMutationState, HostRollbackState}
use hubinet_ops.Authority.Platform.{Platform}
use hubinet_ops.Authority.Tables.{PackageRow}
use hubinet_ops.Authority.Host.{Clock, Host, Sealed}
use hubinet_ops.Authority.Ownership.{ObservedSnapshot}
use hubinet_ops.Completion.{PostState}
use hubinet_ops.Health.{Observation}
use hubinet_ops.Authority.Snapshot.{
  record_preflight_passed, record_snapshot_intent, execute_snapshot_submission_if_current,
  record_snapshot_task, confirm_snapshot,
}
use hubinet_ops.Authority.SnapshotRelease.{
  record_snapshot_uncertain, fail_snapshot, resolve_pre_submission_block,
  block_after_snapshot_success_with_stale_authority,
}
use hubinet_ops.Authority.Gate.{revalidate_or_release, evaluate_execution_plan}
use hubinet_ops.Authority.Mutation.{
  arm_mutation, execute_mutation_submission_if_current, record_mutation_uncertain,
  record_mutation_submitted, record_mutation_terminal_failure, complete_mutation,
}
use hubinet_ops.Authority.MutationRelease.{resolve_pre_mutation_block}
use hubinet_ops.Authority.HealthStage.{start_health, complete_health}
use hubinet_ops.Authority.HealthUnknown.{record_health_outcome_unknown}
use hubinet_ops.Authority.Rollback.{
  arm_rollback, execute_rollback_submission_if_current, record_rollback_task,
  record_rollback_uncertain, record_rollback_terminal_failure,
}
use hubinet_ops.Authority.RollbackCompletion.{complete_rollback, resolve_pre_rollback_block}
use hubinet_ops.Authority.Calls.{Call, run_db}
use hubinet_ops.Stages.Run.{calling, hosted}
use hubinet_ops.Stages.Reach.{
  Reaches, calling_reach, hosted_reach, bind_reach, then_reach, attempt_reach, pure_reach,
  raise_reach, if_reach, null_reach, conflict_reach, reading_reach, asking_reach, observing_reach,
  moving_reach,
}

module _ (p : Platform) (W : Type 0) (may : (A : Type 0) → Call p W A → Bool) where
  pub preflight_reach :
      (c : Clock) (id : String)
      → may (Unit {0}) (Call.preflight c id) ≡ true
      → Reaches p W may (calling (record_preflight_passed p c id))
  unfolding run_db
  preflight_reach c id h = calling_reach p W may _ (Call.preflight c id) h (λ db w. refl)

  pub snapshot_intent_reach :
      (c : Clock) (id : String)
      → may (Unit {0}) (Call.snapshot_intent c id) ≡ true
      → Reaches p W may (calling (record_snapshot_intent p c id))
  unfolding run_db
  snapshot_intent_reach c id h =
      calling_reach p W may _ (Call.snapshot_intent c id) h (λ db w. refl)

  pub snapshot_submission_reach :
      {A : Type 0} (c : Clock) (id : String) (f : Host W A)
      → may A (Call.submit_snapshot c id f) ≡ true
      → Reaches p W may (hosted (execute_snapshot_submission_if_current p c id f))
  unfolding run_db
  snapshot_submission_reach c id f h =
      hosted_reach p W may _ (Call.submit_snapshot c id f) h (λ db w. refl)

  pub snapshot_task_reach :
      (c : Clock) (id upid : String)
      → may (Unit {0}) (Call.snapshot_task c id upid) ≡ true
      → Reaches p W may (calling (record_snapshot_task p c id upid))
  unfolding run_db
  snapshot_task_reach c id upid h =
      calling_reach p W may _ (Call.snapshot_task c id upid) h (λ db w. refl)

  pub snapshot_confirm_reach :
      (c : Clock) (id : String) (o : List ObservedSnapshot)
      → may (Unit {0}) (Call.snapshot_confirm c id o) ≡ true
      → Reaches p W may (calling (confirm_snapshot p c id o))
  unfolding run_db
  snapshot_confirm_reach c id o h =
      calling_reach p W may _ (Call.snapshot_confirm c id o) h (λ db w. refl)

  pub snapshot_uncertain_reach :
      (c : Clock) (id r : String)
      → may (Unit {0}) (Call.snapshot_uncertain c id r) ≡ true
      → Reaches p W may (calling (record_snapshot_uncertain p c id r))
  unfolding run_db
  snapshot_uncertain_reach c id r h =
      calling_reach p W may _ (Call.snapshot_uncertain c id r) h (λ db w. refl)

  pub snapshot_failure_reach :
      (c : Clock) (id r : String) (o : List ObservedSnapshot)
      → may (Unit {0}) (Call.snapshot_failure c id r o) ≡ true
      → Reaches p W may (calling (fail_snapshot p c id r o))
  unfolding run_db
  snapshot_failure_reach c id r o h =
      calling_reach p W may _ (Call.snapshot_failure c id r o) h (λ db w. refl)

  pub snapshot_seal_reach :
      {A : Type 0} (c : Clock) (id : String) (f : Host W (Sealed HostSubmissionState A))
      → may A (Call.seal_snapshot c id f) ≡ true
      → Reaches p W may (hosted (resolve_pre_submission_block p c id f))
  unfolding run_db
  snapshot_seal_reach c id f h = hosted_reach p W may _ (Call.seal_snapshot c id f) h (λ db w. refl)

  pub snapshot_stale_reach :
      (c : Clock) (id : String) (o : List ObservedSnapshot)
      → may (Unit {0}) (Call.snapshot_stale c id o) ≡ true
      → Reaches p W may (calling (block_after_snapshot_success_with_stale_authority p c id o))
  unfolding run_db
  snapshot_stale_reach c id o h =
      calling_reach p W may _ (Call.snapshot_stale c id o) h (λ db w. refl)

  pub revalidation_reach :
      (c : Clock) (id : String)
      → may (Unit {0}) (Call.revalidate c id) ≡ true
      → Reaches p W may (calling (revalidate_or_release p c id))
  unfolding run_db
  revalidation_reach c id h = calling_reach p W may _ (Call.revalidate c id) h (λ db w. refl)

  pub evaluation_reach :
      (c : Clock) (id : String) (k : List PackageRow)
      → may (Unit {0}) (Call.evaluate c id k) ≡ true
      → Reaches p W may (calling (evaluate_execution_plan p c id k))
  unfolding run_db
  evaluation_reach c id k h = calling_reach p W may _ (Call.evaluate c id k) h (λ db w. refl)

  pub arming_reach :
      (c : Clock) (id : String) (k : List PackageRow) (d : String)
      → may (Unit {0}) (Call.arm c id k d) ≡ true
      → Reaches p W may (calling (arm_mutation p c id k d))
  unfolding run_db
  arming_reach c id k d h = calling_reach p W may _ (Call.arm c id k d) h (λ db w. refl)

  pub mutation_submission_reach :
      {A : Type 0} (c : Clock) (id d : String) (f : Host W A)
      → may A (Call.submit_mutation c id d f) ≡ true
      → Reaches p W may (hosted (execute_mutation_submission_if_current p c id d f))
  unfolding run_db
  mutation_submission_reach c id d f h =
      hosted_reach p W may _ (Call.submit_mutation c id d f) h (λ db w. refl)

  pub mutation_uncertain_reach :
      (c : Clock) (id r : String)
      → may (Unit {0}) (Call.mutation_uncertain c id r) ≡ true
      → Reaches p W may (calling (record_mutation_uncertain p c id r))
  unfolding run_db
  mutation_uncertain_reach c id r h =
      calling_reach p W may _ (Call.mutation_uncertain c id r) h (λ db w. refl)

  pub mutation_submitted_reach :
      (c : Clock) (id r : String)
      → may (Unit {0}) (Call.mutation_submitted c id r) ≡ true
      → Reaches p W may (calling (record_mutation_submitted p c id r))
  unfolding run_db
  mutation_submitted_reach c id r h =
      calling_reach p W may _ (Call.mutation_submitted c id r) h (λ db w. refl)

  pub mutation_failure_reach :
      (c : Clock) (id r : String)
      → may (Unit {0}) (Call.mutation_failure c id r) ≡ true
      → Reaches p W may (calling (record_mutation_terminal_failure p c id r))
  unfolding run_db
  mutation_failure_reach c id r h =
      calling_reach p W may _ (Call.mutation_failure c id r) h (λ db w. refl)

  pub mutation_completion_reach :
      (c : Clock) (id : String) (s : PostState)
      → may (Unit {0}) (Call.mutation_complete c id s) ≡ true
      → Reaches p W may (calling (complete_mutation p c id s))
  unfolding run_db
  mutation_completion_reach c id s h =
      calling_reach p W may _ (Call.mutation_complete c id s) h (λ db w. refl)

  pub mutation_seal_reach :
      {A : Type 0} (c : Clock) (id : String) (f : Host W (Sealed HostMutationState A))
      → may A (Call.seal_mutation c id f) ≡ true
      → Reaches p W may (hosted (resolve_pre_mutation_block p c id f))
  unfolding run_db
  mutation_seal_reach c id f h = hosted_reach p W may _ (Call.seal_mutation c id f) h (λ db w. refl)

  pub health_start_reach :
      (c : Clock) (id : String)
      → may (Unit {0}) (Call.start c id) ≡ true
      → Reaches p W may (calling (start_health p c id))
  unfolding run_db
  health_start_reach c id h = calling_reach p W may _ (Call.start c id) h (λ db w. refl)

  pub verdict_reach :
      (c : Clock) (id : String) (o : List Observation)
      → may (Unit {0}) (Call.verdict c id o) ≡ true
      → Reaches p W may (calling (complete_health p c id o))
  unfolding run_db
  verdict_reach c id o h = calling_reach p W may _ (Call.verdict c id o) h (λ db w. refl)

  pub no_verdict_reach :
      (c : Clock) (id r : String) (o : List Observation) (x y z : Option ℕ)
      → may (Unit {0}) (Call.no_verdict c id r o x y z) ≡ true
      → Reaches p W may (calling (record_health_outcome_unknown p c id r o x y z))
  unfolding run_db
  no_verdict_reach c id r o x y z h =
      calling_reach p W may _ (Call.no_verdict c id r o x y z) h (λ db w. refl)

  pub rollback_arming_reach :
      (c : Clock) (id : String) (o : List ObservedSnapshot)
      → may (Unit {0}) (Call.arm_back c id o) ≡ true
      → Reaches p W may (calling (arm_rollback p c id o))
  unfolding run_db
  rollback_arming_reach c id o h = calling_reach p W may _ (Call.arm_back c id o) h (λ db w. refl)

  pub rollback_submission_reach :
      {A : Type 0} (id : String) (f : Host W A)
      → may A (Call.submit_rollback id f) ≡ true
      → Reaches p W may (hosted (execute_rollback_submission_if_current p id f))
  unfolding run_db
  rollback_submission_reach id f h =
      hosted_reach p W may _ (Call.submit_rollback id f) h (λ db w. refl)

  pub rollback_task_reach :
      (c : Clock) (id upid : String)
      → may (Unit {0}) (Call.rollback_task c id upid) ≡ true
      → Reaches p W may (calling (record_rollback_task p c id upid))
  unfolding run_db
  rollback_task_reach c id upid h =
      calling_reach p W may _ (Call.rollback_task c id upid) h (λ db w. refl)

  pub rollback_uncertain_reach :
      (c : Clock) (id r : String)
      → may (Unit {0}) (Call.rollback_uncertain c id r) ≡ true
      → Reaches p W may (calling (record_rollback_uncertain p c id r))
  unfolding run_db
  rollback_uncertain_reach c id r h =
      calling_reach p W may _ (Call.rollback_uncertain c id r) h (λ db w. refl)

  pub rollback_failure_reach :
      (c : Clock) (id r : String)
      → may (Unit {0}) (Call.rollback_failure c id r) ≡ true
      → Reaches p W may (calling (record_rollback_terminal_failure p c id r))
  unfolding run_db
  rollback_failure_reach c id r h =
      calling_reach p W may _ (Call.rollback_failure c id r) h (λ db w. refl)

  pub rollback_completion_reach :
      (c : Clock) (id : String) (o : List ObservedSnapshot) (b : Bool)
      → may (Unit {0}) (Call.rollback_complete c id o b) ≡ true
      → Reaches p W may (calling (complete_rollback p c id o b))
  unfolding run_db
  rollback_completion_reach c id o b h =
      calling_reach p W may _ (Call.rollback_complete c id o b) h (λ db w. refl)

  pub rollback_seal_reach :
      {A : Type 0} (c : Clock) (id : String) (f : Host W (Sealed HostRollbackState A))
      → may A (Call.seal_rollback c id f) ≡ true
      → Reaches p W may (hosted (resolve_pre_rollback_block p c id f))
  unfolding run_db
  rollback_seal_reach c id f h = hosted_reach p W may _ (Call.seal_rollback c id f) h (λ db w. refl)

pub ruleset constructs = (
  bind_reach, then_reach, attempt_reach, pure_reach, raise_reach, if_reach, null_reach,
  conflict_reach, reading_reach, asking_reach, observing_reach, moving_reach,
)

pub ruleset transitions = (
  preflight_reach, snapshot_intent_reach, snapshot_submission_reach, snapshot_task_reach,
  snapshot_confirm_reach, snapshot_uncertain_reach, snapshot_failure_reach, snapshot_seal_reach,
  snapshot_stale_reach, revalidation_reach, evaluation_reach, arming_reach,
  mutation_submission_reach, mutation_uncertain_reach, mutation_submitted_reach,
  mutation_failure_reach, mutation_completion_reach, mutation_seal_reach, health_start_reach,
  verdict_reach, no_verdict_reach, rollback_arming_reach, rollback_submission_reach,
  rollback_task_reach, rollback_uncertain_reach, rollback_failure_reach, rollback_completion_reach,
  rollback_seal_reach,
)
