-- ===== src/Health.antt =====
-- What a health observation may say: `app/inventory/health_observation.py`, and the match of a set
-- of observations with the frozen probes of a job in `app/inventory/authority.py`.
use hubinet_ops.Prelude.{
  ℕ, String, Bool, true, false, not, ◌&&◌, ◌||◌, Option, List, [], ◌∷◌, ◌++◌, ◌==◌, length, any_of,
  string_eq, nat_eq, if◌then◌else◌,
}
use hubinet_ops.Models.{ProbeKind, ProbeOutcome, systemd_unit_active, guest_operational, kind_eq}
use hubinet_ops.Authority.Result.{
  Result, ok, err, authority_conflict, value_error, ◌>>=◌, ◌>>◌, require, or_raise,
}
use hubinet_ops.Authority.Tables.{FrozenProbe}
use hubinet_ops.Authority.Query.{find_by}
use hubinet_ops.Authority.Plans.{same_target}

pub record Observation : Type 0 where
  pub probe_index : ℕ
  pub kind : ProbeKind
  pub target : Option String
  pub outcome : ProbeOutcome
  pub reason : String

abbrev pub passed_reasons : List String
passed_reasons = "unit_active" ∷ "guest_operational_confirmed" ∷ []

abbrev pub failed_reasons : List String
failed_reasons = "unit_not_active" ∷ []

-- `UNRESOLVED_HEALTH_REASONS`
abbrev pub unknown_reasons : List String
unknown_reasons =
    "probe_target_not_exact" ∷ "probe_target_ambiguous" ∷ "guest_unavailable" ∷ "command_failed"
    ∷ "command_timed_out" ∷ "malformed_output" ∷ "host_unreachable" ∷ "host_response_rejected"
    ∷ "resource_context_changed" ∷ "unit_activating" ∷ "unit_deactivating" ∷ "unit_reloading"
    ∷ "unit_job_pending" ∷ "settling_budget_exhausted" ∷ []

-- `HEALTH_PROBE_REASONS_BY_OUTCOME`
abbrev pub reasons_of : ProbeOutcome → List String
reasons_of ProbeOutcome.passed = passed_reasons
reasons_of ProbeOutcome.failed = failed_reasons
reasons_of ProbeOutcome.unknown = unknown_reasons

abbrev pub is_in : String → List String → Bool
is_in reason = any_of (λ r. r == reason)

-- `HEALTH_PROBE_REASONS`, a set: the union over the outcomes.
unfoldable pub is_health_probe_reason : String → Bool
is_health_probe_reason reason = is_in reason (passed_reasons ++ failed_reasons ++ unknown_reasons)

-- The keys of `HEALTH_PROBE_REASON_KINDS` that demand a unit.
abbrev pub unit_reasons : List String
unit_reasons =
    "unit_active" ∷ "unit_not_active" ∷ "unit_activating" ∷ "unit_deactivating" ∷ "unit_reloading"
    ∷ "unit_job_pending" ∷ "probe_target_not_exact" ∷ "probe_target_ambiguous" ∷ []

abbrev pub is_kind_allowed : ProbeKind → String → Bool
is_kind_allowed kind reason =
    if is_in reason unit_reasons
    then kind == systemd_unit_active
    else if reason == "guest_operational_confirmed"
    then kind == guest_operational
    else true

-- `require_health_probe_semantics`
unfoldable pub require_health_probe_semantics : ProbeKind → ProbeOutcome → String → Result String
unfolding is_health_probe_reason
require_health_probe_semantics kind outcome reason = do
  require (is_health_probe_reason reason) value_error
  require (is_in reason (reasons_of outcome)) value_error
  require (is_kind_allowed kind reason) value_error
  ok reason

-- `_require_health_probe_reason`
unfoldable pub require_health_probe_reason : String → Result String
unfolding is_health_probe_reason
require_health_probe_reason reason = do
  require (is_health_probe_reason reason) authority_conflict
  ok reason

-- `_require_unresolved_health_reason`
unfoldable pub require_unresolved_health_reason : String → Result String
unfolding require_health_probe_reason
require_unresolved_health_reason reason = do
  known ← require_health_probe_reason reason
  require (is_in known unknown_reasons) authority_conflict
  ok known

abbrev pub as_conflict : {A : Type 0} → Result A → Result A
as_conflict (ok a) = ok a
as_conflict (err _) = err authority_conflict

-- `_coherent_health_observation`
unfoldable pub coherent_observation : FrozenProbe → Observation → Result Observation
unfolding require_health_probe_semantics
coherent_observation probe seen = do
  reason ← as_conflict (require_health_probe_semantics probe.kind seen.outcome seen.reason)
  ok (record {
    probe_index = probe.probe_index;
    kind = probe.kind;
    target = probe.target;
    outcome = seen.outcome;
    reason = reason;
  })

unfoldable pub has_duplicate_index : List Observation → Bool
has_duplicate_index [] = false
has_duplicate_index (o ∷ os) =
    any_of (λ x. x.probe_index == o.probe_index) os || has_duplicate_index os

-- The second loop of the match: the observation of each probe, in the order of the probes.
unfoldable pub order_observations : List FrozenProbe → List Observation → Result (List Observation)
unfolding find_by coherent_observation
order_observations [] seen = ok []
order_observations (probe ∷ rest) seen = do
  found ← or_raise (find_by (λ o. o.probe_index == probe.probe_index) seen) authority_conflict
  require (found.kind == probe.kind && same_target found.target probe.target) authority_conflict
  coherent ← coherent_observation probe found
  others ← order_observations rest seen
  ok (coherent ∷ others)

-- `_match_health_observations_to_frozen_probes`
unfoldable pub match_observations : List FrozenProbe → List Observation → Result (List Observation)
unfolding has_duplicate_index order_observations
match_observations probes seen = do
  require (length seen == length probes) authority_conflict
  require (not (has_duplicate_index seen)) authority_conflict
  order_observations probes seen
