-- ===== src/Authority/Ownership/Exactly.antt =====
-- What it means that a canonical listing holds exactly one snapshot of a job, against
-- `_require_exactly_one_job_owned_snapshot` of `app/inventory/authority.py`.
use hubinet_ops.Prelude.{
  String, true, false, List, [], ◌∷◌, some, ◌≡◌, ◌≢◌, refl, ◌↔◌, ◌⊎◌, inl, inr, arith, subst, All,
  string_eq,
}
use text.Mathlib.TextEquality.{eq_iff}
use hubinet_ops.Authority.Result.{ok}
use hubinet_ops.Authority.Identity.{SnapshotOwnership}
use hubinet_ops.Authority.Ownership.{
  ObservedSnapshot, carries, claims, examine, owned_matches, require_exactly_one_job_owned_snapshot,
}

module _ (job_id name : String) (expected : SnapshotOwnership) where
  -- The complete snapshot of this name that carries exactly the expected ownership.
  pub record IsOwned (s : ObservedSnapshot) : Type 0 where
    pub stored : s.is_current_pseudo_entry ≡ false
    pub named : s.name ≡ name
    pub complete : s.incomplete ≡ false
    pub well_formed : s.ownership_malformed ≡ false
    pub owned : carries s.ownership expected ≡ true

  -- An entry of another name: the entry for the running state, or a snapshot whose ownership is
  -- readable and does not claim the job.
  abbrev pub IsForeign : ObservedSnapshot → Type 0
  IsForeign s =
      (s.name ≢ name)
      × ((s.is_current_pseudo_entry ≡ true)
          ⊎ ((claims job_id s.ownership ≡ false) × (s.ownership_malformed ≡ false)))

  examine-IsOwned : (s : ObservedSnapshot) → examine job_id name expected s ≡ ok true → IsOwned s
  unfolding examine
  examine-IsOwned s h = ground (arith, eq_iff s.name name)

  IsOwned-examine : (s : ObservedSnapshot) → IsOwned s → examine job_id name expected s ≡ ok true
  unfolding examine
  IsOwned-examine s h = ground (arith, eq_iff s.name name)

  examine-IsForeign :
      (s : ObservedSnapshot) → examine job_id name expected s ≡ ok false → IsForeign s
  unfolding examine
  examine-IsForeign s h = ground (arith, eq_iff s.name name)

  IsForeign-examine :
      (s : ObservedSnapshot) → IsForeign s → examine job_id name expected s ≡ ok false
  unfolding examine
  IsForeign-examine s h = ground (arith, eq_iff s.name name)

  -- One owned entry between foreign ones.
  pub data IsExactlyOne (s : ObservedSnapshot) : List ObservedSnapshot → Type 0 where
    this :
        {rest : List ObservedSnapshot} → IsOwned s → All IsForeign rest → IsExactlyOne s (s ∷ rest)
    later :
        {t : ObservedSnapshot} {rest : List ObservedSnapshot}
        → IsForeign t
        → IsExactlyOne s rest
        → IsExactlyOne s (t ∷ rest)

  matches_nil :
      (obs : List ObservedSnapshot)
      → owned_matches job_id name expected obs ≡ ok []
      → All IsForeign obs
  unfolding owned_matches
  matches_nil [] h = tt
  matches_nil (t ∷ obs) h = ground (arith, matches_nil obs, examine-IsForeign t)

  nil_matches :
      (obs : List ObservedSnapshot)
      → All IsForeign obs
      → owned_matches job_id name expected obs ≡ ok []
  unfolding owned_matches
  nil_matches [] h = refl
  nil_matches (t ∷ obs) h = rw (IsForeign-examine t h.0, nil_matches obs h.1)

  one_lem :
      (t s : ObservedSnapshot) (obs : List ObservedSnapshot)
      → owned_matches job_id name expected (t ∷ obs) ≡ ok (s ∷ [])
      → ((examine job_id name expected t ≡ ok true)
          × (owned_matches job_id name expected obs ≡ ok [])
          × (t ≡ s))
        ⊎ ((examine job_id name expected t ≡ ok false)
            × (owned_matches job_id name expected obs ≡ ok (s ∷ [])))
  unfolding owned_matches
  one_lem t s obs h = ground arith

  matches_one :
      (obs : List ObservedSnapshot) (s : ObservedSnapshot)
      → owned_matches job_id name expected obs ≡ ok (s ∷ [])
      → IsExactlyOne s obs
  unfolding owned_matches
  matches_one [] s h = cc
  matches_one (t ∷ obs) s h = elim (one_lem t s obs h) [
    | inl (hit, rest, e) ↦
        subst (λ x. IsExactlyOne x (t ∷ obs)) e
          (this (examine-IsOwned t hit) (matches_nil obs rest))
    | inr (miss, rest) ↦ later (examine-IsForeign t miss) (matches_one obs s rest)
  ]

  one_matches :
      {s : ObservedSnapshot} {obs : List ObservedSnapshot}
      → IsExactlyOne s obs
      → owned_matches job_id name expected obs ≡ ok (s ∷ [])
  unfolding owned_matches
  one_matches {s = s} (this {rest = rest} o f) = rw (IsOwned-examine s o, nil_matches rest f)
  one_matches (later {t = t} f x) = rw (IsForeign-examine t f, one_matches x)

  accepted_lem :
      (obs : List ObservedSnapshot) (s : ObservedSnapshot)
      → require_exactly_one_job_owned_snapshot job_id (some name) obs expected ≡ ok s
      → owned_matches job_id name expected obs ≡ ok (s ∷ [])
  unfolding require_exactly_one_job_owned_snapshot
  accepted_lem obs s h = ground arith

  -- The match answers a snapshot exactly when the listing holds that snapshot, stored, complete, of
  -- the expected name and with exactly the expected ownership, and every other entry has another
  -- name and is either the entry for the running state or a snapshot whose readable ownership does
  -- not claim the job.
  pub exactly_one-IsExactlyOne :
      (obs : List ObservedSnapshot) (s : ObservedSnapshot)
      → (require_exactly_one_job_owned_snapshot job_id (some name) obs expected ≡ ok s)
        ↔ IsExactlyOne s obs
  unfolding require_exactly_one_job_owned_snapshot
  exactly_one-IsExactlyOne obs s =
      (λ h. matches_one obs s (accepted_lem obs s h), λ x. rw (one_matches x))
