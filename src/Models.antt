-- ===== src/Models.antt =====
-- The enumerations of `app/inventory/models.py`, the order of the checkpoints, and the verdict over
-- a complete set of health probes.
pub mod Ranks
pub mod Verdict
use hubinet_ops.Prelude.{
  ℕ, ◌+◌, Bool, true, false, Option, none, some, List, [], ◌∷◌, Eq, dec_eq, ◌==◌, any_of, all_of,
  if◌then◌else◌,
}

pub data JobStatus : Type 0 where
  active succeeded blocked failed rolled_back interrupted manual_intervention : JobStatus

pub data Checkpoint : Type 0 where
  issued preflight_passed snapshot_may_have_started snapshot_confirmed : Checkpoint
  mutation_may_have_started mutation_completed health_started health_completed : Checkpoint
  rollback_may_have_started rollback_completed : Checkpoint

-- The durable host journal phases of a snapshot, a package mutation and a rollback.
pub data HostSubmissionState : Type 0 where
  absent intent sealed_not_submitted submitted task_known terminal : HostSubmissionState

pub data HostMutationState : Type 0 where
  absent intent sealed_not_submitted submitted terminal_success terminal_failure : HostMutationState

pub data HostRollbackState : Type 0 where
  absent intent sealed_not_submitted submitted task_known terminal : HostRollbackState

pub data ProbeKind : Type 0 where
  systemd_unit_active guest_operational : ProbeKind

pub data ProbeOutcome : Type 0 where
  passed failed unknown : ProbeOutcome

pub data HealthOutcome : Type 0 where
  passed failed unknown : HealthOutcome

pub data EventLevel : Type 0 where
  info warning error : EventLevel

pub data EventType : Type 0 where
  job_issued restart_interrupted preflight_passed snapshot_intent_recorded : EventType
  snapshot_task_observed snapshot_confirmed snapshot_outcome_uncertain snapshot_failed : EventType
  snapshot_blocked_before_submission snapshot_retained_authority_stale : EventType
  execution_plan_verified execution_plan_mismatch execution_authority_stale_released : EventType
  mutation_may_have_started mutation_submitted mutation_terminal_failure : EventType
  mutation_outcome_uncertain mutation_completed mutation_blocked_before_submission : EventType
  health_started health_passed post_update_scan_requested health_failed : EventType
  health_outcome_unknown rollback_may_have_started rollback_submitted : EventType
  rollback_task_observed rollback_outcome_uncertain rollback_terminal_failure : EventType
  rollback_completed rollback_blocked_before_submission : EventType

pub data ExecutionOutcome : Type 0 where
  matched mismatched authority_stale : ExecutionOutcome

pub data ArmOutcome : Type 0 where
  armed_now already_armed : ArmOutcome

unfoldable pub JobStatus-discrete : Discrete JobStatus
JobStatus-discrete = hlevel

unfoldable pub Checkpoint-discrete : Discrete Checkpoint
Checkpoint-discrete = hlevel

unfoldable pub HostSubmissionState-discrete : Discrete HostSubmissionState
HostSubmissionState-discrete = hlevel

unfoldable pub HostMutationState-discrete : Discrete HostMutationState
HostMutationState-discrete = hlevel

unfoldable pub HostRollbackState-discrete : Discrete HostRollbackState
HostRollbackState-discrete = hlevel

unfoldable pub ProbeKind-discrete : Discrete ProbeKind
ProbeKind-discrete = hlevel

unfoldable pub ProbeOutcome-discrete : Discrete ProbeOutcome
ProbeOutcome-discrete = hlevel

unfoldable pub HealthOutcome-discrete : Discrete HealthOutcome
HealthOutcome-discrete = hlevel

instance abbrev pub status_eq : Eq JobStatus
status_eq = dec_eq JobStatus-discrete

instance abbrev pub checkpoint_eq : Eq Checkpoint
checkpoint_eq = dec_eq Checkpoint-discrete

instance abbrev pub submission_state_eq : Eq HostSubmissionState
submission_state_eq = dec_eq HostSubmissionState-discrete

instance abbrev pub mutation_state_eq : Eq HostMutationState
mutation_state_eq = dec_eq HostMutationState-discrete

instance abbrev pub rollback_state_eq : Eq HostRollbackState
rollback_state_eq = dec_eq HostRollbackState-discrete

instance abbrev pub kind_eq : Eq ProbeKind
kind_eq = dec_eq ProbeKind-discrete

instance abbrev pub probe_outcome_eq : Eq ProbeOutcome
probe_outcome_eq = dec_eq ProbeOutcome-discrete

instance abbrev pub health_outcome_eq : Eq HealthOutcome
health_outcome_eq = dec_eq HealthOutcome-discrete

-- `CHECKPOINT_ORDER`.
abbrev pub checkpoint_order : List Checkpoint
checkpoint_order =
    issued ∷ preflight_passed ∷ snapshot_may_have_started ∷ snapshot_confirmed
    ∷ mutation_may_have_started ∷ mutation_completed ∷ health_started ∷ health_completed
    ∷ rollback_may_have_started ∷ rollback_completed ∷ []

-- `enumerate`, from a first number.
abbrev pub enumerate : {A : Type 0} → ℕ → List A → List (A × ℕ)
enumerate n [] = []
enumerate n (x ∷ xs) = (x, n) ∷ enumerate (n + 1) xs

-- `_CHECKPOINT_RANKS`
abbrev pub checkpoint_ranks : List (Checkpoint × ℕ)
checkpoint_ranks = enumerate 1 checkpoint_order

-- `checkpoint_rank`, as the table that `_CHECKPOINT_RANKS` amounts to: `Ranks` proves that every
-- rank here is what the enumeration holds.
abbrev pub checkpoint_rank : Checkpoint → ℕ
checkpoint_rank issued = 1
checkpoint_rank preflight_passed = 2
checkpoint_rank snapshot_may_have_started = 3
checkpoint_rank snapshot_confirmed = 4
checkpoint_rank mutation_may_have_started = 5
checkpoint_rank mutation_completed = 6
checkpoint_rank health_started = 7
checkpoint_rank health_completed = 8
checkpoint_rank rollback_may_have_started = 9
checkpoint_rank rollback_completed = 10

-- `aggregate_health_outcome`; `none` stands for the `AuthorityInvariantError` on an empty set.
unfoldable pub aggregate_health_outcome : List ProbeOutcome → Option HealthOutcome
aggregate_health_outcome [] = none
aggregate_health_outcome (o ∷ os) =
    if any_of (λ x. x == ProbeOutcome.failed) (o ∷ os)
    then some HealthOutcome.failed
    else if all_of (λ x. x == ProbeOutcome.passed) (o ∷ os)
    then some HealthOutcome.passed
    else some HealthOutcome.unknown
