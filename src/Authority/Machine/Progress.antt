-- ===== src/Authority/Machine/Progress.antt =====
-- The rank, the write-once columns and the end of a job over its steps. The triggers of
-- `app/inventory/store.py` guard the same columns.
use hubinet_ops.Prelude.{◌≤◌, Option, none, ◌≡◌, ◌≢◌, ◌⊎◌, inl, inr, refl, sym, arith, ◌∙◌}
use hubinet_ops.Models.{active, status_eq, checkpoint_eq, checkpoint_rank}
use hubinet_ops.Authority.Tables.{Job}
use hubinet_ops.Authority.Machine.{RowStep, RowSteps, done, more}
use hubinet_ops.Authority.Platform.{Platform}

-- A column that was set stays as it is.
abbrev pub IsKept : {A : Type 0} → Option A → Option A → Type 0
IsKept o q = (o ≡ none) ⊎ (q ≡ o)

IsKept-trans : {A : Type 0} {o q r : Option A} → IsKept o q → IsKept q r → IsKept o r
IsKept-trans (inl e) b = inl e
IsKept-trans (inr e) (inl f) = inl (sym e ∙ f)
IsKept-trans (inr e) (inr f) = inr (f ∙ e)

-- A column that one statement writes with a companion stays as it is once the companion is set.
abbrev pub IsKeptWith : {A B : Type 0} → Option A → Option B → Option B → Type 0
IsKeptWith o v w = (o ≡ none) ⊎ (w ≡ v)

IsKeptWith-trans :
    {A B : Type 0} {o q : Option A} {u v w : Option B}
    → IsKept o q
    → IsKeptWith o u v
    → IsKeptWith q v w
    → IsKeptWith o u w
IsKeptWith-trans k (inl e) b = inl e
IsKeptWith-trans (inl e) (inr f) b = inl e
IsKeptWith-trans (inr e) (inr f) (inl g) = inl (sym e ∙ g)
IsKeptWith-trans (inr e) (inr f) (inr g) = inr (g ∙ f)

-- The columns that an issuance freezes, and those that are written once. The reason and the time of
-- the end are not among them: no step leads on from an ended job.
pub record Advances (j k : Job) : Type 0 where
  pub rank : checkpoint_rank j.checkpoint ≤ checkpoint_rank k.checkpoint
  pub same_id : k.job_id ≡ j.job_id
  pub same_context : k.context ≡ j.context
  pub same_resource_type : k.expected_resource_type ≡ j.expected_resource_type
  pub same_plan : k.approved_plan_fingerprint ≡ j.approved_plan_fingerprint
  pub same_contract : k.health_contract_fingerprint ≡ j.health_contract_fingerprint
  pub same_revision : k.health_contract_revision ≡ j.health_contract_revision
  pub same_probe_count : k.health_contract_probe_count ≡ j.health_contract_probe_count
  pub snapshot_operation_id : IsKept j.snapshot_operation_id k.snapshot_operation_id
  pub snapshot_name : IsKeptWith j.snapshot_operation_id j.snapshot_name k.snapshot_name
  pub snapshot_intent_recorded_at :
      IsKeptWith j.snapshot_operation_id j.snapshot_intent_recorded_at k.snapshot_intent_recorded_at
  pub snapshot_task_upid : IsKept j.snapshot_task_upid k.snapshot_task_upid
  pub snapshot_confirmed_at : IsKept j.snapshot_confirmed_at k.snapshot_confirmed_at
  pub mutation_operation_id : IsKept j.mutation_operation_id k.mutation_operation_id
  pub mutation_may_have_started_at :
      IsKept j.mutation_may_have_started_at k.mutation_may_have_started_at
  pub accepted_evidence_digest : IsKept j.accepted_evidence_digest k.accepted_evidence_digest
  pub mutation_completed_at : IsKept j.mutation_completed_at k.mutation_completed_at
  pub health_started_at : IsKept j.health_started_at k.health_started_at
  pub health_completed_at : IsKept j.health_completed_at k.health_completed_at
  pub health_outcome : IsKeptWith j.health_completed_at j.health_outcome k.health_outcome
  pub rollback_operation_id : IsKept j.rollback_operation_id k.rollback_operation_id
  pub rollback_may_have_started_at :
      IsKept j.rollback_may_have_started_at k.rollback_may_have_started_at
  pub rollback_task_upid : IsKept j.rollback_task_upid k.rollback_task_upid
  pub rollback_completed_at : IsKept j.rollback_completed_at k.rollback_completed_at

Advances-refl : (j : Job) → Advances j j
Advances-refl j = ground arith

Advances-trans : (j k l : Job) → Advances j k → Advances k l → Advances j l
Advances-trans j k l a b = record {
  rank = omega (arith, a.rank, b.rank);
  same_id = b.same_id ∙ a.same_id;
  same_context = b.same_context ∙ a.same_context;
  same_resource_type = b.same_resource_type ∙ a.same_resource_type;
  same_plan = b.same_plan ∙ a.same_plan;
  same_contract = b.same_contract ∙ a.same_contract;
  same_revision = b.same_revision ∙ a.same_revision;
  same_probe_count = b.same_probe_count ∙ a.same_probe_count;
  snapshot_name = IsKeptWith-trans a.snapshot_operation_id a.snapshot_name b.snapshot_name;
  snapshot_intent_recorded_at =
      IsKeptWith-trans a.snapshot_operation_id a.snapshot_intent_recorded_at
        b.snapshot_intent_recorded_at;
  health_outcome = IsKeptWith-trans a.health_completed_at a.health_outcome b.health_outcome;
  snapshot_operation_id = IsKept-trans a.snapshot_operation_id b.snapshot_operation_id;
  snapshot_task_upid = IsKept-trans a.snapshot_task_upid b.snapshot_task_upid;
  snapshot_confirmed_at = IsKept-trans a.snapshot_confirmed_at b.snapshot_confirmed_at;
  mutation_operation_id = IsKept-trans a.mutation_operation_id b.mutation_operation_id;
  mutation_may_have_started_at =
      IsKept-trans a.mutation_may_have_started_at b.mutation_may_have_started_at;
  accepted_evidence_digest = IsKept-trans a.accepted_evidence_digest b.accepted_evidence_digest;
  mutation_completed_at = IsKept-trans a.mutation_completed_at b.mutation_completed_at;
  health_started_at = IsKept-trans a.health_started_at b.health_started_at;
  health_completed_at = IsKept-trans a.health_completed_at b.health_completed_at;
  rollback_operation_id = IsKept-trans a.rollback_operation_id b.rollback_operation_id;
  rollback_may_have_started_at =
      IsKept-trans a.rollback_may_have_started_at b.rollback_may_have_started_at;
  rollback_task_upid = IsKept-trans a.rollback_task_upid b.rollback_task_upid;
  rollback_completed_at = IsKept-trans a.rollback_completed_at b.rollback_completed_at;
}

module _ (p : Platform) where
  step_lem : (j k : Job) → RowStep p j k → Advances j k
  step_lem j k (RowStep.preflight g) = ground arith
  step_lem j k (RowStep.snapshot_intent o n t g) = ground arith
  step_lem j k (RowStep.snapshot_task u g) = ground arith
  step_lem j k (RowStep.snapshot_confirm t g) = ground arith
  step_lem j k (RowStep.mutation_intent o t d g) = ground arith
  step_lem j k (RowStep.mutation_complete t g) = ground arith
  step_lem j k (RowStep.health_start t g) = ground arith
  step_lem j k (RowStep.health_pass t r g) = ground arith
  step_lem j k (RowStep.health_fail t g) = ground arith
  step_lem j k (RowStep.rollback_intent o t g) = ground arith
  step_lem j k (RowStep.rollback_task u g) = ground arith
  step_lem j k (RowStep.rollback_complete t r g) = ground arith
  step_lem j k (RowStep.block t r g) = ground arith
  step_lem j k (RowStep.interrupt t r g) = ground arith

  -- Over any steps a job advances: its rank does not fall, and what `Advances` names stays.
  pub RowSteps-Advances : {j k : Job} → RowSteps p j k → Advances j k
  RowSteps-Advances done = Advances-refl _
  RowSteps-Advances (more s r) = Advances-trans _ _ _ (step_lem _ _ s) (RowSteps-Advances r)

  pub step-active : (j k : Job) → RowStep p j k → j.status ≡ active
  step-active j k (RowStep.preflight g) = ground arith
  step-active j k (RowStep.snapshot_intent o n t g) = ground arith
  step-active j k (RowStep.snapshot_task u g) = ground arith
  step-active j k (RowStep.snapshot_confirm t g) = ground arith
  step-active j k (RowStep.mutation_intent o t d g) = ground arith
  step-active j k (RowStep.mutation_complete t g) = ground arith
  step-active j k (RowStep.health_start t g) = ground arith
  step-active j k (RowStep.health_pass t r g) = ground arith
  step-active j k (RowStep.health_fail t g) = ground arith
  step-active j k (RowStep.rollback_intent o t g) = ground arith
  step-active j k (RowStep.rollback_task u g) = ground arith
  step-active j k (RowStep.rollback_complete t r g) = ground arith
  step-active j k (RowStep.block t r g) = ground arith
  step-active j k (RowStep.interrupt t r g) = ground arith

  -- A job that is not active stays exactly as it is.
  pub RowSteps-terminal : {j k : Job} → RowSteps p j k → j.status ≢ active → k ≡ j
  RowSteps-terminal done h = refl
  RowSteps-terminal (more s r) h = absurd (h (step-active _ _ s))
