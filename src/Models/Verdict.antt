-- ===== src/Models/Verdict.antt =====
-- `aggregate_health_outcome` of `app/inventory/models.py` over a complete set of probe outcomes.
use hubinet_ops.Prelude.{
  ◌≡◌, ◌≢◌, refl, ◌↔◌, inl, inr, true, none, some, List, [], ◌∷◌, ◌==◌, any_of, all_of, All, Any,
  arith,
}
use hubinet_ops.Models.{ProbeOutcome, HealthOutcome, probe_outcome_eq, aggregate_health_outcome}

abbrev pub IsPassed : ProbeOutcome → Type 0
IsPassed o = o ≡ ProbeOutcome.passed

abbrev pub IsFailed : ProbeOutcome → Type 0
IsFailed o = o ≡ ProbeOutcome.failed

all_of-All :
    (os : List ProbeOutcome) → all_of (λ x. x == ProbeOutcome.passed) os ≡ true → All IsPassed os
all_of-All [] h = tt
all_of-All (o ∷ os) h = ground (arith, all_of-All os)

All-all_of :
    (os : List ProbeOutcome) → All IsPassed os → all_of (λ x. x == ProbeOutcome.passed) os ≡ true
All-all_of [] h = refl
All-all_of (o ∷ os) h = ground (arith, All-all_of os h.1)

any_of-Any :
    (os : List ProbeOutcome) → any_of (λ x. x == ProbeOutcome.failed) os ≡ true → Any IsFailed os
any_of-Any [] h = cc
any_of-Any (o ∷ os) h = ground (arith, any_of-Any os)

Any-any_of :
    (os : List ProbeOutcome) → Any IsFailed os → any_of (λ x. x == ProbeOutcome.failed) os ≡ true
Any-any_of [] h = absurd h
Any-any_of (o ∷ os) (inl h) = ground arith
Any-any_of (o ∷ os) (inr h) = ground (arith, Any-any_of os h)

not_both : (os : List ProbeOutcome) → All IsPassed os → Any IsFailed os → ⊥
not_both [] a h = h
not_both (o ∷ os) a (inl h) = cc (a.0)
not_both (o ∷ os) a (inr h) = not_both os a.1 h

-- A verdict is reached for every non-empty set of outcomes and for no other. It is `passed` exactly
-- when there is an outcome and every outcome is `passed`, and `failed` exactly when some outcome is
-- `failed`, whatever the others are.
pub aggregate_health_outcome_verdict :
    (os : List ProbeOutcome)
    → ((aggregate_health_outcome os ≡ none) ↔ (os ≡ []))
      × ((aggregate_health_outcome os ≡ some HealthOutcome.passed) ↔ ((os ≢ []) × All IsPassed os))
      × ((aggregate_health_outcome os ≡ some HealthOutcome.failed) ↔ Any IsFailed os)
unfolding aggregate_health_outcome
aggregate_health_outcome_verdict [] =
    ((λ _. refl, λ _. refl), (λ e. cc, λ h. absurd (h.0 refl)), (λ e. cc, λ h. absurd h))
aggregate_health_outcome_verdict (o ∷ os) = ground (
  arith,
  any_of-Any (o ∷ os),
  Any-any_of (o ∷ os),
  all_of-All (o ∷ os),
  All-all_of (o ∷ os),
  not_both (o ∷ os),
)
