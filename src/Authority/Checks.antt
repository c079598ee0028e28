-- ===== src/Authority/Checks.antt =====
-- The argument checks at the end of `app/inventory/authority.py`, and the canonical health contract
-- of `app/inventory/health_contract.py`. Each returns its argument or raises `ValueError`.
use Prim.Native.Char.{Char, code}
use Prim.Native.Nat.{Ordering}
use Prim.Native.String.{String, count, compare}
use hubinet_ops.Prelude.{
  ℕ, Bool, true, false, not, ◌&&◌, ◌||◌, Option, none, some, List, [], ◌∷◌, ◌==◌, ltb, leb, any_of,
  string_eq, nat_eq, if◌then◌else◌,
}
use hubinet_ops.Models.{kind_eq}
use hubinet_ops.Authority.Result.{Result, ok, err, value_error, ◌>>=◌}
use hubinet_ops.Authority.Platform.{Platform}

abbrev pub codes : String → List ℕ
codes String.[] = []
codes (String.◌∷◌ c s) = code c ∷ codes s

abbrev pub chars : String → List Char
chars String.[] = []
chars (String.◌∷◌ c s) = c ∷ chars s

abbrev pub text_leb : String → String → Bool
text_leb a b = elim (compare a b) [ Ordering.gt ↦ false | _ ↦ true ]

-- `sorted`: insertion sort, which is stable.
module _ {ℓ} {A : Type ℓ} (le : A → A → Bool) where
  unfoldable pub insert : A → List A → List A
  insert a [] = a ∷ []
  insert a (x ∷ xs) = if le a x then a ∷ x ∷ xs else x ∷ insert a xs

  unfoldable pub sorted : List A → List A
  sorted [] = []
  sorted (x ∷ xs) = insert x (sorted xs)

module _ (p : Platform) where
  unfoldable pub require_uuid : String → Result String
  require_uuid value = elim (p.parse_uuid value) [
    | none ↦ err value_error
    | some parsed ↦ if parsed.0 == 0 || not (parsed.1 == value) then err value_error else ok value
  ]

  unfoldable pub require_pve_upid : String → Result String
  require_pve_upid value =
      if ltb 300 (count value) || not (p.fullmatch upid_re value) then err value_error else ok value
    where
      upid_re : String
      upid_re =
          "UPID:(?P<node>[a-zA-Z0-9](?:[a-zA-Z0-9\\-]*[a-zA-Z0-9])?):[0-9A-Fa-f]{8}:[0-9A-Fa-f]{8,9}:[0-9A-Fa-f]{8}:[^:\\s/]+:[^:\\s/]*:[^:\\s/]+:"

  unfoldable pub require_text : String → ℕ → Result String
  require_text value max_length =
      if p.strip value == ""
        || ltb max_length (count value)
        || any_of (λ c. ltb c 0x20 || c == 0x7F) (codes value)
      then err value_error
      else ok value

  unfoldable pub optional_bounded_text : Option String → ℕ → Result (Option String)
  unfolding require_text
  optional_bounded_text none max_length = ok none
  optional_bounded_text (some value) max_length = do
    bounded ← require_text value max_length
    ok (some bounded)

  unfoldable pub require_architecture : String → Result String
  require_architecture value =
      if leb 2 (count value)
        && leb (count value) 32
        && p.fullmatch "[a-z][a-z0-9]*(-[a-z0-9]+)*" value
      then ok value
      else err value_error

  unfoldable pub require_evidence_digest : String → Result String
  require_evidence_digest value =
      if p.fullmatch "[0-9a-f]{64}" value then ok value else err value_error
