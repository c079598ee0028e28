-- ===== src/Models/Ranks.antt =====
-- `checkpoint_rank` and `CHECKPOINT_ORDER` of `app/inventory/models.py`.
use hubinet_ops.Prelude.{
  ℕ, zero, suc, ◌≡◌, Option, none, some, List, [], ◌∷◌, arith, refl, ◌↔◌, ◌==◌, if◌then◌else◌,
}
use hubinet_ops.Models.{
  Checkpoint, checkpoint_order, checkpoint_rank, checkpoint_ranks, checkpoint_eq,
}

abbrev pub get_elem? {ℓ} : {A : Type ℓ} → List A → ℕ → Option A
get_elem? [] i = none
get_elem? (x ∷ xs) zero = some x
get_elem? (x ∷ xs) (suc i) = get_elem? xs i

-- The value of a key in a dictionary.
abbrev pub value_of : Checkpoint → List (Checkpoint × ℕ) → Option ℕ
value_of c [] = none
value_of c ((d, n) ∷ rest) = if d == c then some n else value_of c rest

key_lem : (c : Checkpoint) → value_of c checkpoint_ranks ≡ some (checkpoint_rank c)
unfolding hubinet_ops.Models.Checkpoint-discrete
key_lem Checkpoint.issued = refl
key_lem Checkpoint.preflight_passed = refl
key_lem Checkpoint.snapshot_may_have_started = refl
key_lem Checkpoint.snapshot_confirmed = refl
key_lem Checkpoint.mutation_may_have_started = refl
key_lem Checkpoint.mutation_completed = refl
key_lem Checkpoint.health_started = refl
key_lem Checkpoint.health_completed = refl
key_lem Checkpoint.rollback_may_have_started = refl
key_lem Checkpoint.rollback_completed = refl

position :
    (c : Checkpoint) (n : ℕ) → (get_elem? checkpoint_order n ≡ some c) ↔ (checkpoint_rank c ≡ suc n)
position Checkpoint.issued n = ground arith
position Checkpoint.preflight_passed n = ground arith
position Checkpoint.snapshot_may_have_started n = ground arith
position Checkpoint.snapshot_confirmed n = ground arith
position Checkpoint.mutation_may_have_started n = ground arith
position Checkpoint.mutation_completed n = ground arith
position Checkpoint.health_started n = ground arith
position Checkpoint.health_completed n = ground arith
position Checkpoint.rollback_may_have_started n = ground arith
position Checkpoint.rollback_completed n = ground arith

-- The rank of every checkpoint is what the dictionary holds that enumerates the order from 1, and a
-- checkpoint stands at place n of the order, from 0, if and only if its rank is n + 1.
pub checkpoint_rank_places :
    (c : Checkpoint)
    → (value_of c checkpoint_ranks ≡ some (checkpoint_rank c))
      × ((n : ℕ) → (get_elem? checkpoint_order n ≡ some c) ↔ (checkpoint_rank c ≡ suc n))
checkpoint_rank_places c = (key_lem c, position c)

pub checkpoint_rank_injective : (c d : Checkpoint) → checkpoint_rank c ≡ checkpoint_rank d → c ≡ d
checkpoint_rank_injective c d h = ground arith
