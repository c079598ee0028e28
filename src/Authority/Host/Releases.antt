-- ===== src/Authority/Host/Releases.antt =====
-- The answer of the host under `resolve_pre_mutation_block` of `app/inventory/authority.py`.
use hubinet_ops.Prelude.{
  String, Bool, true, false, Option, some, ◌≡◌, ◌≢◌, ◌⊎◌, inl, inr, refl, arith, ◌==◌,
}
use hubinet_ops.Models.{HostMutationState, mutation_state_eq}
use hubinet_ops.Authority.Platform.{Platform}
use hubinet_ops.Authority.Result.{Result, ok, err}
use hubinet_ops.Authority.Tables.{Db}
use hubinet_ops.Authority.Tx.{Tx}
use hubinet_ops.Authority.Tx.Reads.{Unchanged, Reads, only_reads}
use hubinet_ops.Authority.Mutation.{require_armed_mutation}
use hubinet_ops.Authority.Host.{
  Clock, Host, Sealed, is_sealed_as, after_sealed, after_seal, after_guards, after_block, release,
}
use hubinet_ops.Authority.MutationRelease.{
  is_mutation_sealed, guard_mutation_release, commit_pre_mutation_block, resolve_pre_mutation_block,
}

module _ {W S A : Type 0} (is_sealed : S → Bool) where
  -- The host answered in a state that passes the test, and the call reports the release.
  abbrev IsReleased : Host W (Sealed S A) → W → Result (Bool × A) → Type 0
  IsReleased seal w r =
      (answer : Sealed S A) × (v : W) × (seal w ≡ (ok answer, v))
      × (is_sealed_as is_sealed answer.state ≡ true)
      × (r ≡ ok (true, answer.evidence))

  -- The tables are those before it, and no release is reported.
  abbrev IsRefused : Db → Result (Bool × A) × Db × W → Type 0
  IsRefused db r = (r.1 ≡ db) × ((a : A) → r.0 ≢ ok (true, a))

  module _ (block : String → Tx (Unit {0})) (seal : Host W (Sealed S A)) (w : W) (db : Db) where
    block_lem :
        (answer : Sealed S A) (v : W) (r : Result ((Unit {0}) × Db))
        → seal w ≡ (ok answer, v)
        → is_sealed_as is_sealed answer.state ≡ true
        → IsReleased seal w (after_block db answer.evidence v r).0
          ⊎ IsRefused db (after_block db answer.evidence v r)
    block_lem answer v (ok r) e t = inl (answer, v, e, t, refl)
    block_lem answer v (err x) e t = inr (refl, λ a h. ground arith)

    sealed_lem :
        (b : Bool) (new : Db) (answer : Sealed S A) (v : W)
        → new ≡ db
        → seal w ≡ (ok answer, v)
        → is_sealed_as is_sealed answer.state ≡ b
        → IsReleased seal w (after_sealed b block db new answer.reason answer.evidence v).0
          ⊎ IsRefused db (after_sealed b block db new answer.reason answer.evidence v)
    sealed_lem true new answer v n e t = block_lem answer v (block answer.reason new) e t
    sealed_lem false new answer v n e t = inr (n, λ a h. ground arith)

    answer_lem :
        (new : Db) (r : Result (Sealed S A) × W)
        → new ≡ db
        → seal w ≡ r
        → IsReleased seal w (after_seal is_sealed block db new r).0
          ⊎ IsRefused db (after_seal is_sealed block db new r)
    answer_lem new (err x, v) n e = inr (refl, λ a h. ground arith)
    answer_lem new (ok answer, v) n e =
        sealed_lem (is_sealed_as is_sealed answer.state) new answer v n e refl

    guards_lem :
        (r : Result ((Unit {0}) × Db))
        → Unchanged db r
        → IsReleased seal w (after_guards is_sealed block seal db w r).0
          ⊎ IsRefused db (after_guards is_sealed block seal db w r)
    guards_lem (err x) h = inr (refl, λ a e. ground arith)
    guards_lem (ok r) h = answer_lem r.1 (seal w) h refl

    release_lem :
        (guards : Tx (Unit {0}))
        → Reads guards
        → IsReleased seal w (release guards is_sealed block seal db w).0
          ⊎ IsRefused db (release guards is_sealed block seal db w)
    unfolding release
    release_lem guards h = guards_lem (guards db) (h.reads db)

state_lem :
    (o : Option HostMutationState)
    → is_sealed_as (λ s. s == HostMutationState.sealed_not_submitted) o ≡ true
    → o ≡ some HostMutationState.sealed_not_submitted
state_lem o h = ground arith

module _ (p : Platform) where
  armed-Reads : (id : String) → Reads (require_armed_mutation p id)
  unfolding require_armed_mutation
  armed-Reads id = search only_reads depth 40

  guard-Reads : (id : String) → Reads (guard_mutation_release p id)
  unfolding guard_mutation_release
  guard-Reads id = search (only_reads, armed-Reads) depth 40

  module _ {W A : Type 0} where
    -- A call that asks the host to seal an armed mutation either leaves the tables exactly as they were
    -- and does not report a release, or it reports one and the seal that was asked under the same
    -- transaction answered `sealed_not_submitted`.
    pub mutation_release-sealed :
        (clock : Clock) (id : String) (seal : Host W (Sealed HostMutationState A)) (db : Db) (w : W)
        → ((answer : Sealed HostMutationState A) × (v : W) × (seal w ≡ (ok answer, v))
            × (answer.state ≡ some HostMutationState.sealed_not_submitted)
            × ((resolve_pre_mutation_block p clock id seal db w).0 ≡ ok (true, answer.evidence)))
          ⊎ (((resolve_pre_mutation_block p clock id seal db w).1 ≡ db)
              × ((a : A) → (resolve_pre_mutation_block p clock id seal db w).0 ≢ ok (true, a)))
    unfolding resolve_pre_mutation_block
    mutation_release-sealed clock id seal db w =
        elim (release_lem (is_mutation_sealed p) (commit_pre_mutation_block p clock id) seal w db
          (guard_mutation_release p id) (guard-Reads id)) [
            | inl (answer, v, e, s, r) ↦ inl (answer, v, e, state_lem answer.state s, r)
            | inr refused ↦ inr refused
          ]
