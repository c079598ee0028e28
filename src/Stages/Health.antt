-- ===== src/Stages/Health.antt =====
-- `app/package_update_health.py`: the validation of the host's answer against the frozen contract of
-- a job, and the stage that takes the job to its verdict. The host is a parameter.
pub mod Calls
pub mod Exact
use hubinet_ops.Prelude.{
  ℕ, String, Bool, true, false, not, ◌&&◌, ◌||◌, Option, none, some, List, [], ◌∷◌, map, ◌==◌,
  length, any_of, if◌then◌else◌, Eq, dec_eq, string_eq, nat_eq,
}
use hubinet_ops.Models.{
  active, status_eq, Checkpoint, checkpoint_eq, kind_eq, ProbeOutcome, probe_outcome_eq,
  HealthOutcome, aggregate_health_outcome,
}
use hubinet_ops.Authority.Result.{Result, ok, err, authority_invariant, health_context_changed}
use hubinet_ops.Authority.Platform.{Platform}
use hubinet_ops.Authority.Tables.{FrozenProbe}
use hubinet_ops.Authority.Query.{find_by}
use hubinet_ops.Authority.Plans.{same_target}
use hubinet_ops.Authority.HealthStage.{HealthRequest, health_request, start_health, complete_health}
use hubinet_ops.Authority.HealthUnknown.{record_health_outcome_unknown}
use hubinet_ops.Health.{Observation, is_in, has_duplicate_index, require_health_probe_semantics}
use hubinet_ops.Stages.Run.{
  Fault, health_refused, Raised, authority, fault, health_error, stop_iteration, Reply, Environment,
  PackageUpdateJob, Stage, ◌>>=◌, ◌>>◌, pure, raise, attempt, on_conflict, calling, reading, asking,
  moving,
}
use hubinet_ops.Stages.Reads.{stored_job, read_job, ◌<>◌}

-- `HOST_PROBE_REASONS`
abbrev pub host_probe_reasons : List String
host_probe_reasons =
    "unit_active" ∷ "unit_not_active" ∷ "unit_activating" ∷ "unit_deactivating" ∷ "unit_reloading"
    ∷ "unit_job_pending" ∷ "guest_operational_confirmed" ∷ "probe_target_not_exact"
    ∷ "probe_target_ambiguous" ∷ "guest_unavailable" ∷ "command_failed" ∷ "command_timed_out"
    ∷ "malformed_output" ∷ "settling_budget_exhausted" ∷ []

pub data EvaluationStatus : Type 0 where
  decisive unresolved : EvaluationStatus

unfoldable pub EvaluationStatus-discrete : Discrete EvaluationStatus
EvaluationStatus-discrete = hlevel

instance abbrev pub evaluation_eq : Eq EvaluationStatus
evaluation_eq = dec_eq EvaluationStatus-discrete

-- A `HostProbeResult` has the fields of an observation. Seconds are in milliseconds.
pub record HostHealthResult : Type 0 where
  pub contract_revision : ℕ
  pub contract_fingerprint : String
  pub probes : List Observation
  pub evaluation_status : EvaluationStatus
  pub settling_rounds : Option ℕ
  pub settling_seconds : Option ℕ
  pub last_round_span_ms : Option ℕ

pub data HealthStageStatus : Type 0 where
  passed failed unknown : HealthStageStatus

pub record HealthStageResult : Type 0 where
  pub status : HealthStageStatus
  pub job : PackageUpdateJob
  pub reason : Option String

abbrev pub HealthHost : Type 0 → Type 0
HealthHost W = HealthRequest → W → Reply HostHealthResult × W

-- `PackageUpdateHealthError` with its message, or the observations.
pub data Validation (A : Type 0) : Type 0 where
  accepted : A → Validation A
  rejected : String → Validation A

abbrev pub is_unknown : Observation → Bool
is_unknown o = o.outcome == ProbeOutcome.unknown

-- The checks on the result of one frozen probe, in the order of the source.
unfoldable pub check_probe : FrozenProbe → Observation → Validation Observation
unfolding require_health_probe_semantics
check_probe probe seen =
    if not (seen.kind == probe.kind)
    then rejected "host result describes a different probe kind than the frozen one"
    else if not (same_target seen.target probe.target)
    then rejected "host result describes a different probe target than the frozen one"
    else if not (is_in seen.reason host_probe_reasons)
    then rejected "host returned a probe reason outside its bounded taxonomy"
    else elim (require_health_probe_semantics probe.kind seen.outcome seen.reason) [
      | err e ↦ rejected "host returned a probe reason that contradicts its outcome or kind"
      | ok reason ↦ accepted (record {
        probe_index = probe.probe_index;
        kind = probe.kind;
        target = probe.target;
        outcome = seen.outcome;
        reason = seen.reason;
      })
    ]

abbrev pub check_found : FrozenProbe → Option Observation → Validation Observation
check_found probe none = rejected "host result is missing a frozen probe"
check_found probe (some seen) = check_probe probe seen

abbrev pub with_first :
    Validation Observation → Validation (List Observation) → Validation (List Observation)
with_first (rejected m) rest = rejected m
with_first (accepted o) (rejected m) = rejected m
with_first (accepted o) (accepted os) = accepted (o ∷ os)

-- The loop over the frozen probes.
unfoldable pub check_probes : List FrozenProbe → List Observation → Validation (List Observation)
unfolding check_probe find_by
check_probes [] seen = accepted []
check_probes (probe ∷ rest) seen =
    with_first (check_found probe (find_by (λ o. o.probe_index == probe.probe_index) seen))
      (check_probes rest seen)

abbrev pub not_contradictory :
    EvaluationStatus → Validation (List Observation) → Validation (List Observation)
not_contradictory status (rejected m) = rejected m
not_contradictory status (accepted os) =
    if status == decisive && any_of is_unknown os
    then rejected "host claimed a decisive round while a probe remained unknown"
    else accepted os

-- `validate_host_health_result`
unfoldable pub validate_host_health_result :
    PackageUpdateJob → HostHealthResult → Validation (List Observation)
unfolding check_probes has_duplicate_index
validate_host_health_result job result =
    if not (result.contract_revision == job.row.health_contract_revision)
    then rejected "host answered about a different health contract revision"
    else if not (result.contract_fingerprint == job.row.health_contract_fingerprint)
    then rejected "host answered about a different health contract fingerprint"
    else if not (length job.health_probes == job.row.health_contract_probe_count)
    then rejected "package update job frozen health contract is incoherent"
    else if not (length result.probes == length job.health_probes)
    then rejected
        "host returned a different number of probe results than the frozen contract declares"
    else if has_duplicate_index result.probes
    then rejected "host returned a duplicate probe result"
    else not_contradictory result.evaluation_status (check_probes job.health_probes result.probes)

abbrev pub blocking_reason : Option Observation → String
blocking_reason none = "host_response_rejected"
blocking_reason (some o) = o.reason

module _ (p : Platform) {W : Type 0} (env : Environment W) where
  -- `_unknown`
  unfoldable pub unknown_with :
      String
      → String
      → String
      → List Observation
      → Option ℕ
      → Option ℕ
      → Option ℕ
      → Stage W HealthStageResult
  unknown_with job_id token detail evidence rounds settled span =
      attempt
        (do
          clock ← moving env.clock
          calling (record_health_outcome_unknown p clock job_id token evidence rounds settled span)
          reading (stored_job p job_id))
        (λ job.
          pure (record { status = HealthStageStatus.unknown; job = job; reason = some detail }))
        (λ e. on_conflict e (do
          job ← reading (read_job p job_id)
          pure (record { status = HealthStageStatus.unknown; job = job; reason = some detail })))

  -- `_unknown` without evidence.
  unfoldable pub no_answer : String → String → String → Stage W HealthStageResult
  unfolding unknown_with
  no_answer job_id token detail = unknown_with job_id token detail [] none none none

  -- `_unknown` with the evidence of the host.
  unfoldable pub no_verdict :
      String → String → String → List Observation → HostHealthResult → Stage W HealthStageResult
  unfolding unknown_with
  no_verdict job_id token detail os result =
      unknown_with job_id token detail os result.settling_rounds result.settling_seconds
        result.last_round_span_ms

  -- `except PackageUpdateHealthContextChanged`
  abbrev pub on_completion : String → Raised → Stage W HealthStageResult
  on_completion job_id (authority health_context_changed) =
      no_answer job_id "resource_context_changed" (env.text (authority health_context_changed))
  on_completion job_id e = raise e

  unfoldable pub commit : String → List Observation → HealthStageStatus → Stage W HealthStageResult
  unfolding no_answer
  commit job_id os status =
      attempt
        (do
          clock ← moving env.clock
          calling (complete_health p clock job_id os)
          reading (stored_job p job_id))
        (λ job. pure (record { status = status; job = job; reason = none })) (on_completion job_id)

  abbrev pub stop_or_unknown :
      String → List Observation → HostHealthResult → Option Observation → Stage W HealthStageResult
  stop_or_unknown job_id os result none = raise stop_iteration
  stop_or_unknown job_id os result (some o) =
      no_verdict job_id o.reason
        ("at least one frozen probe could not be evaluated truthfully (" <> o.reason <> ")") os
        result

  -- The verdict over a decisive round.
  unfoldable pub after_aggregate :
      String
      → List Observation
      → HostHealthResult
      → Option HealthOutcome
      → Stage W HealthStageResult
  unfolding commit no_verdict find_by
  after_aggregate job_id os result none = raise (authority authority_invariant)
  after_aggregate job_id os result (some HealthOutcome.unknown) =
      stop_or_unknown job_id os result (find_by is_unknown os)
  after_aggregate job_id os result (some HealthOutcome.passed) =
      commit job_id os HealthStageStatus.passed
  after_aggregate job_id os result (some HealthOutcome.failed) =
      commit job_id os HealthStageStatus.failed

  -- Steps F and what follows, of observations that were validated in their context.
  unfoldable pub judge : String → List Observation → HostHealthResult → Stage W HealthStageResult
  unfolding after_aggregate no_verdict find_by
  judge job_id os result =
      if not (result.evaluation_status == decisive)
      then no_verdict job_id (blocking_reason (find_by is_unknown os))
          ("the host's bounded settling window did not reach a decisive round ("
            <> blocking_reason (find_by is_unknown os)
            <> ")")
          os result
      else after_aggregate job_id os result
          (aggregate_health_outcome (map (λ (o : Observation). o.outcome) os))

  -- Step E: the context of the resource is proved again before the observations are used.
  unfoldable pub after_validation :
      String → HostHealthResult → Validation (List Observation) → Stage W HealthStageResult
  unfolding judge no_answer
  after_validation job_id result (rejected m) = no_answer job_id "host_response_rejected" m
  after_validation job_id result (accepted os) =
      attempt (reading (health_request p job_id)) (λ request. judge job_id os result)
        (λ e. on_conflict e (no_answer job_id "resource_context_changed" (env.text e)))

  -- The `except` clauses of the host round trip.
  abbrev pub on_host : String → Raised → Stage W HealthStageResult
  on_host job_id (fault (health_refused reason message)) = no_answer job_id reason message
  on_host job_id e =
      no_answer job_id "host_unreachable"
        ("health host evaluation did not return an answer: " <> env.name e)

  module _ (host : HealthHost W) where
    -- Steps C to F.
    unfoldable pub ask_host : PackageUpdateJob → HealthRequest → Stage W HealthStageResult
    unfolding after_validation validate_host_health_result no_answer
    ask_host job request =
        attempt (asking (host request))
          (λ result.
            after_validation job.row.job_id result (validate_host_health_result job result))
          (on_host job.row.job_id)

    -- Steps A and B, and what follows.
    unfoldable pub evaluate_started : PackageUpdateJob → Stage W HealthStageResult
    unfolding ask_host no_answer
    evaluate_started found = do
      clock ← moving env.clock
      calling (start_health p clock found.row.job_id)
      job ← reading (stored_job p found.row.job_id)
      attempt (reading (health_request p job.row.job_id)) (ask_host job)
          (λ e. on_conflict e (no_answer job.row.job_id "resource_context_changed" (env.text e)))

    -- `evaluate_job_health`
    unfoldable pub evaluate_job_health : String → Stage W HealthStageResult
    unfolding evaluate_started
    evaluate_job_health job_id = do
      job ← reading (read_job p job_id)
      if not (job.row.status == active)
          then raise (health_error "host_response_rejected")
          else if job.row.checkpoint == Checkpoint.mutation_completed
              || job.row.checkpoint == Checkpoint.health_started
          then evaluate_started job
          else raise (health_error "host_response_rejected")
