-- ===== src/Authority/HealthUnknown.antt =====
-- `record_package_update_health_outcome_unknown` of `app/inventory/authority.py`: a health evaluation
-- without a verdict. The seconds of the settling window are given in milliseconds, to which the
-- source rounds them.
use hubinet_ops.Prelude.{
  ℕ, String, Bool, true, false, not, ◌&&◌, Option, none, some, List, [], ◌∷◌, ◌++◌, ◌==◌, leb,
  string_eq, if◌then◌else◌,
}
use hubinet_ops.Models.{
  active, status_eq, Checkpoint, checkpoint_eq, ProbeOutcome, warning, EventType,
}
use hubinet_ops.Authority.Result.{Result, authority_conflict}
use hubinet_ops.Authority.Platform.{Platform}
use hubinet_ops.Authority.Checks.{require_uuid}
use hubinet_ops.Authority.Tables.{Detail, Db}
use hubinet_ops.Authority.Tx.{
  Tx, ◌>>=◌, ◌>>◌, pure, lift, gets, ensure, transaction, require_job_row, append_event,
}
use hubinet_ops.Authority.Locator.{post_mutation_context_is_current}
use hubinet_ops.Authority.Host.{Clock}
use hubinet_ops.Health.{Observation, require_health_probe_reason, require_unresolved_health_reason}

abbrev pub has_evidence : List Observation → Bool
has_evidence [] = false
has_evidence (o ∷ os) = true

unfoldable pub evidence_details : List Observation → Tx (List (ℕ × ProbeOutcome × String))
unfolding require_health_probe_reason
evidence_details [] = pure []
evidence_details (o ∷ os) = do
  reason ← lift (require_health_probe_reason o.reason)
  rest ← evidence_details os
  pure ((o.probe_index, o.outcome, reason) ∷ rest)

-- A number that is given and in its bounds.
abbrev pub bounded_detail : String → ℕ → Option ℕ → List (String × Detail)
bounded_detail key bound none = []
bounded_detail key bound (some n) = if leb n bound then (key, Detail.number n) ∷ [] else []

abbrev pub probes_detail : List (ℕ × ProbeOutcome × String) → List (String × Detail)
probes_detail [] = []
probes_detail (x ∷ xs) = ("probes", Detail.probes (x ∷ xs)) ∷ []

-- The evidence is about the guest that the job names; where that guest is gone it is dropped.
abbrev pub is_out_of_context : List Observation → Bool → Bool
is_out_of_context evidence here = has_evidence evidence && not here

module _ (p : Platform) where
  unfoldable pub record_health_outcome_unknown :
      Clock
      → String
      → String
      → List Observation
      → Option ℕ
      → Option ℕ
      → Option ℕ
      → Db
      → Result (Unit {0}) × Db
  unfolding evidence_details require_unresolved_health_reason post_mutation_context_is_current
  record_health_outcome_unknown clock job_id reason evidence rounds settled span = transaction (do
    id ← lift (require_uuid p job_id)
    bounded ← lift (require_unresolved_health_reason reason)
    job ← require_job_row id
    ensure (job.status == active) authority_conflict
    ensure (job.checkpoint == Checkpoint.health_started) authority_conflict
    here ← gets (λ db. post_mutation_context_is_current db job)
    probes ← evidence_details (if is_out_of_context evidence here then [] else evidence)
    append_event p id clock.recorded_at warning Checkpoint.health_started
        EventType.health_outcome_unknown
        "this job's frozen health contract could not be evaluated truthfully; no verdict was recorded"
        ((
          "reason",
          Detail.str
              (if is_out_of_context evidence here then "resource_context_changed" else bounded),
        )
          ∷ (probes_detail probes
              ++ bounded_detail "rounds" 1000 rounds
              ++ bounded_detail "settled_seconds" 3600000 settled
              ++ bounded_detail "last_round_span_ms" 3600000 span)))
