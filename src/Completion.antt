-- ===== src/Completion.antt =====
-- The completion proof of one package mutation, `app/inventory/mutation_completion.py`. A `dict` is
-- an association list in which the first entry of a key counts; its items are read by key. The
-- text of a refusal is left out, the packages that it names are kept.
pub mod Maps
pub mod Exact
use hubinet_ops.Prelude.{
  String, Bool, true, false, not, ◌&&◌, Option, none, some, List, [], ◌∷◌, ◌==◌, if◌then◌else◌, Eq,
  string_eq, ◌≡◌, ◌↔◌, arith,
}
use Maps.{Dict, lookup, contains, keys, insert}
use hubinet_ops.Authority.Result.{Result, ok, err, authority_invariant}
use hubinet_ops.Authority.Tables.{Material}
use hubinet_ops.Authority.Query.{select_by}
use text.Mathlib.TextEquality.{eq_iff}

-- The identity (package_name, architecture) of a binary package.
pub record Package : Type 0 where
  pub name : String
  pub architecture : String

abbrev pub same_key : Package → Package → Bool
same_key a b = a.name == b.name && a.architecture == b.architecture

pub same_key_iff : (a b : Package) → (same_key a b ≡ true) ↔ (a ≡ b)
same_key_iff a b = ground (arith, eq_iff a.name b.name, eq_iff a.architecture b.architecture)

instance abbrev pub package_eq : Eq Package
package_eq = record { beq = same_key; beq_iff = same_key_iff }

pub record PostState : Type 0 where
  pub pre_installed : Dict Package String
  pub post_installed : Dict Package String
  pub post_unfinished : List (Package × String)

-- The versions (installed, candidate) that the plan approved.
abbrev pub Versions : Type 0
Versions = String × String

abbrev pub identity : Material → Package
identity m = record { name = m.package_name; architecture = m.architecture }

unfoldable pub approved_of : List Material → Dict Package Versions
approved_of [] = []
approved_of (m ∷ ms) =
    insert (identity m) (m.installed_version, m.candidate_version) (approved_of ms)

abbrev pub is_version : Option String → String → Bool
is_version none v = false
is_version (some w) v = w == v

abbrev pub starts_there : Dict Package String → Option Versions → Package → Bool
starts_there pre none k = true
starts_there pre (some v) k = is_version (lookup k pre) v.0

abbrev pub ends_there : Dict Package String → Option Versions → Package → Bool
ends_there post none k = true
ends_there post (some v) k = is_version (lookup k post) v.1

abbrev pub same_version : Option String → Option String → Bool
same_version none none = true
same_version (some v) (some w) = v == w
same_version _ _ = false

-- `identity in changed`, of a key of `post`
abbrev pub is_changed : Dict Package String → Dict Package String → Package → Bool
is_changed pre post k = contains k post && not (same_version (lookup k pre) (lookup k post))

pub data Refusal : Type 0 where
  unfinished : List (Package × String) → Refusal
  wrong_start wrong_end appeared disappeared unapproved missing : List Package → Refusal

pub data Verdict : Type 0 where
  proven : Verdict
  refused : Refusal → Verdict

abbrev pub refuse_or : List Package → (List Package → Refusal) → Verdict → Verdict
refuse_or [] refusal rest = rest
refuse_or (k ∷ ks) refusal rest = refused (refusal (k ∷ ks))

abbrev pub Check : Type 0
Check = List Package × (List Package → Refusal)

abbrev pub first_refusal : List Check → Verdict
first_refusal [] = proven
first_refusal ((ks, refusal) ∷ rest) = refuse_or ks refusal (first_refusal rest)

abbrev pub select_keys : {V : Type 0} → (Package → Bool) → Dict Package V → List Package
select_keys test d = select_by test (keys d)

-- The checks in the order of the source.
unfoldable pub checks :
    Dict Package Versions → Dict Package String → Dict Package String → List Check
unfolding keys lookup
checks approved pre post =
    (select_keys (λ k. not (starts_there pre (lookup k approved) k)) approved, wrong_start)
    ∷ (select_keys (λ k. not (ends_there post (lookup k approved) k)) approved, wrong_end)
    ∷ (select_keys (λ k. not (contains k pre)) post, appeared)
    ∷ (select_keys (λ k. not (contains k post)) pre, disappeared)
    ∷ (select_keys (λ k. is_changed pre post k && not (contains k approved)) post, unapproved)
    ∷ (select_keys (λ k. not (is_changed pre post k)) approved, missing)
    ∷ []

unfoldable pub compare_states :
    Dict Package Versions → Dict Package String → Dict Package String → Verdict
unfolding checks
compare_states approved pre post = first_refusal (checks approved pre post)

-- `prove_package_mutation_completion`
unfoldable pub prove_package_mutation_completion : List Material → PostState → Result Verdict
unfolding compare_states approved_of
prove_package_mutation_completion [] state = err authority_invariant
prove_package_mutation_completion (m ∷ ms) state = elim (state.post_unfinished) [
  | [] ↦ ok (compare_states (approved_of (m ∷ ms)) state.pre_installed state.post_installed)
  | x ∷ xs ↦ ok (refused (unfinished (x ∷ xs)))
]
