-- ===== src/Completion/Maps.antt =====
-- A Python `dict` as an association list: the first entry of a key counts.
use hubinet_ops.Prelude.{
  Bool, true, false, Option, none, some, List, [], ◌∷◌, ◌==◌, Eq, if◌then◌else◌,
}

abbrev pub Dict : Type 0 → Type 0 → Type 0
Dict K V = List (K × V)

module _ {K V : Type 0} ⦃e : Eq K⦄ where
  unfoldable pub lookup : K → Dict K V → Option V
  lookup k [] = none
  lookup k ((j, v) ∷ d) = if j == k then some v else lookup k d

  abbrev pub contains : K → Dict K V → Bool
  contains k d = elim (lookup k d) [ none ↦ false | some _ ↦ true ]

  unfoldable pub keys : Dict K V → List K
  keys [] = []
  keys ((j, v) ∷ d) = j ∷ keys d

  unfoldable pub insert : K → V → Dict K V → Dict K V
  insert k v d = (k, v) ∷ d
