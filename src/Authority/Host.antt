-- ===== src/Authority/Host.antt =====
-- Callbacks into the host that run inside a writer transaction of the authority. The host is a
-- state of its own, `W`: what a callback did there stays done whether the transaction commits or
-- rolls back.
pub mod Releases
pub mod Submissions
use hubinet_ops.Prelude.{String, Bool, true, false, Option, none, some}
use hubinet_ops.Authority.Result.{Error, Result, ok, err}
use hubinet_ops.Authority.Tables.{Time, Db}
use hubinet_ops.Authority.Tx.{Tx}

-- The readings of the clock that one call makes: for the rows, for the proof of authority, and
-- for the published revision.
pub record Clock : Type 0 where
  pub recorded_at : Time
  pub decided_at : Time
  pub published_at : Time

abbrev pub Host : Type 0 → Type 0 → Type 0
Host W A = W → Result A × W

module _ {W A : Type 0} where
  abbrev pub after_submit : Db → Db → Result A × W → Result A × Db × W
  after_submit old new (ok a, w) = (ok a, new, w)
  after_submit old new (err e, w) = (err e, old, w)

  -- What follows the proof: where authority does not hold the callback is not run.
  abbrev pub after_proof : Error → Host W A → Db → W → Result (Bool × Db) → Result A × Db × W
  after_proof refused submit db w (err e) = (err e, db, w)
  after_proof refused submit db w (ok (true, new)) = after_submit db new (submit w)
  after_proof refused submit db w (ok (false, new)) = (err refused, new, w)

  -- The body of the three `execute_..._if_current` methods: the proof and the callback share one
  -- transaction.
  unfoldable pub submission : Tx Bool → Error → Host W A → Db → W → Result A × Db × W
  submission proof refused submit db w = after_proof refused submit db w (proof db)

-- What a seal answers: the state that the host journal is in, a reason, and evidence.
pub record Sealed (S A : Type 0) : Type 0 where
  pub state : Option S
  pub reason : String
  pub evidence : A

module _ {W A : Type 0} where
  abbrev pub after_block : Db → A → W → Result ((Unit {0}) × Db) → Result (Bool × A) × Db × W
  after_block old evidence w (ok r) = (ok (true, evidence), r.1, w)
  after_block old evidence w (err e) = (err e, old, w)

  abbrev pub after_sealed :
      Bool → (String → Tx (Unit {0})) → Db → Db → String → A → W → Result (Bool × A) × Db × W
  after_sealed true block old new reason evidence w = after_block old evidence w (block reason new)
  after_sealed false block old new reason evidence w = (ok (false, evidence), new, w)

abbrev pub is_sealed_as : {S : Type 0} → (S → Bool) → Option S → Bool
is_sealed_as is_sealed none = false
is_sealed_as is_sealed (some s) = is_sealed s

module _ {W S A : Type 0} where
  abbrev pub after_seal :
      (S → Bool)
      → (String → Tx (Unit {0}))
      → Db
      → Db
      → Result (Sealed S A) × W
      → Result (Bool × A) × Db × W
  after_seal is_sealed block old new (err e, w) = (err e, old, w)
  after_seal is_sealed block old new (ok answer, w) =
      after_sealed (is_sealed_as is_sealed answer.state) block old new answer.reason answer.evidence
        w

  abbrev pub after_guards :
      (S → Bool)
      → (String → Tx (Unit {0}))
      → Host W (Sealed S A)
      → Db
      → W
      → Result ((Unit {0}) × Db)
      → Result (Bool × A) × Db × W
  after_guards is_sealed block seal db w (err e) = (err e, db, w)
  after_guards is_sealed block seal db w (ok r) = after_seal is_sealed block db r.1 (seal w)

  -- The body of the three `resolve_pre_..._block` methods: guards, one seal of the host, and the
  -- release of the job where the host proved that it never submitted and never will.
  unfoldable pub release :
      Tx (Unit {0})
      → (S → Bool)
      → (String → Tx (Unit {0}))
      → Host W (Sealed S A)
      → Db
      → W
      → Result (Bool × A) × Db × W
  release guards is_sealed block seal db w = after_guards is_sealed block seal db w (guards db)
