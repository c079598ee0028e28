-- ===== src/Authority/Query.antt =====
-- Selections over a table, and the tests of a column that may be NULL.
use hubinet_ops.Prelude.{
  ℕ, String, Bool, true, false, Option, none, some, List, [], ◌∷◌, ◌==◌, string_eq, nat_eq,
  if◌then◌else◌,
}

abbrev pub is_some {ℓ} : {A : Type ℓ} → Option A → Bool
is_some none = false
is_some (some _) = true

module _ {A : Type 0} where
  unfoldable pub find_by : (A → Bool) → List A → Option A
  find_by test [] = none
  find_by test (x ∷ xs) = if test x then some x else find_by test xs

abbrev pub is_just : Option String → String → Bool
is_just none v = false
is_just (some w) v = w == v

abbrev pub is_number : Option ℕ → ℕ → Bool
is_number none v = false
is_number (some w) v = w == v

abbrev pub only {ℓ} : {A : Type ℓ} → List A → Option A
only (x ∷ []) = some x
only _ = none

unfoldable pub select_by {ℓ} : {A : Type ℓ} → (A → Bool) → List A → List A
select_by test [] = []
select_by test (x ∷ xs) = if test x then x ∷ select_by test xs else select_by test xs

-- `str` of a column.
abbrev pub str_of : Option String → String
str_of none = "None"
str_of (some v) = v
