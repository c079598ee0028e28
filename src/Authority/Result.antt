-- ===== src/Authority/Result.antt =====
-- The exceptions of `app/inventory/models.py` as values. A message is not modelled, only the class
-- that a caller can tell apart.
use hubinet_ops.Prelude.{String, Bool, true, false, Option, none, some, ◌≡◌, refl, ◌⊎◌, inl, inr}

pub data Error : Type 0 where
  authority_conflict authority_not_found authority_invariant value_error : Error
  snapshot_submission_refused mutation_submission_refused rollback_submission_refused : Error
  evidence_not_accepted temporarily_unavailable health_context_changed : Error
  -- `PackageUpdateIssuanceRefused` with its reason
  issuance_refused : String → Error
  -- `int(None)`
  type_error : Error
  -- what a callback into the host raised
  host_failure : Error

-- `except AuthorityConflict` also takes its subclasses.
abbrev pub is_authority_conflict : Error → Bool
is_authority_conflict authority_not_found = false
is_authority_conflict authority_invariant = false
is_authority_conflict value_error = false
is_authority_conflict type_error = false
is_authority_conflict host_failure = false
is_authority_conflict _ = true

pub data Result {ℓ} (A : Type ℓ) : Type ℓ where
  ok : A → Result A
  err : Error → Result A

pub Result-cases {ℓ} :
    {A : Type ℓ} (r : Result A) → ((a : A) × (r ≡ ok a)) ⊎ ((e : Error) × (r ≡ err e))
Result-cases (ok a) = inl (a, refl)
Result-cases (err e) = inr (e, refl)

infixl 5 ◌>>◌ ◌>>=◌
abbrev pub ◌>>=◌ {ℓ κ} : {A : Type ℓ} {B : Type κ} → Result A → (A → Result B) → Result B
ok a >>= f = f a
err e >>= f = err e

abbrev pub require : Bool → Error → Result (Unit {0})
require true e = ok tt
require false e = err e

abbrev pub or_raise {ℓ} : {A : Type ℓ} → Option A → Error → Result A
or_raise none e = err e
or_raise (some a) e = ok a

abbrev pub ◌>>◌ {ℓ} : {B : Type ℓ} → Result (Unit {0}) → Result B → Result B
m >> k = m >>= λ _. k
