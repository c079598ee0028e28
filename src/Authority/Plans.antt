-- ===== src/Authority/Plans.antt =====
-- `_validate_package_plan` and `package_plan_fingerprint` of `app/inventory/authority.py`, and the
-- canonical health contract of `app/inventory/health_contract.py`.
pub mod Bounds
use hubinet_ops.Prelude.{
  ℕ, String, Bool, true, false, not, ◌&&◌, ◌||◌, Option, none, some, List, [], ◌∷◌, map, ◌==◌, ltb,
  length, any_of, string_eq, if◌then◌else◌,
}
use Prim.Native.String.{count}
use hubinet_ops.Models.{ProbeKind, systemd_unit_active, guest_operational, kind_eq}
use hubinet_ops.Authority.Result.{Result, ok, err, value_error, ◌>>=◌, ◌>>◌, require}
use hubinet_ops.Authority.Platform.{Platform}
use hubinet_ops.Authority.Tables.{Material, PackageRow, Detail}
use hubinet_ops.Authority.Checks.{
  chars, text_leb, sorted, require_text, optional_bounded_text, require_architecture,
}

abbrev pub same_package : Material → Material → Bool
same_package a b = a.package_name == b.package_name && a.architecture == b.architecture

-- `sorted(key=lambda package: (package.package_name, package.architecture))`
abbrev pub package_leb : Material → Material → Bool
package_leb a b =
    if a.package_name == b.package_name
    then text_leb a.architecture b.architecture
    else text_leb a.package_name b.package_name

-- `security in {True, None}`
abbrev pub is_true_or_unknown : Option Bool → Bool
is_true_or_unknown (some false) = false
is_true_or_unknown _ = true

abbrev pub ProbeSpec : Type 0
ProbeSpec = ProbeKind × Option String

abbrev pub same_target : Option String → Option String → Bool
same_target none none = true
same_target (some a) (some b) = a == b
same_target _ _ = false

abbrev pub same_probe : ProbeSpec → ProbeSpec → Bool
same_probe (k, t) (l, u) = k == l && same_target t u

abbrev pub kind_value : ProbeKind → String
kind_value systemd_unit_active = "systemd_unit_active"
kind_value guest_operational = "guest_operational"

abbrev pub target_or_empty : Option String → String
target_or_empty none = ""
target_or_empty (some t) = t

-- `sorted(key=lambda probe: (probe.kind.value, probe.target or ""))`
abbrev pub probe_leb : ProbeSpec → ProbeSpec → Bool
probe_leb (k, t) (l, u) =
    if k == l
    then text_leb (target_or_empty t) (target_or_empty u)
    else text_leb (kind_value k) (kind_value l)

abbrev pub min_health_probes : ℕ
min_health_probes = 1

abbrev pub max_health_probes : ℕ
max_health_probes = 32

module _ (p : Platform) where
  unfoldable pub validate_packages : List Material → List PackageRow → Result (List Material)
  validate_packages seen [] = ok []
  validate_packages seen (row ∷ rest) = do
    name ← require_text p row.material.package_name 300
    architecture ← require_architecture p row.material.architecture
    installed ← require_text p row.material.installed_version 500
    candidate ← require_text p row.material.candidate_version 500
    require (not (any_of (same_package row.material) seen)) value_error
    require (is_true_or_unknown row.security) value_error
    _ ← optional_bounded_text p row.origin 500
    _ ← optional_bounded_text p row.description 500
    others ← validate_packages (row.material ∷ seen) rest
    ok (row.material ∷ others)

  -- The set of material is what the callers keep, so the rows stand for the tuple.
  unfoldable pub validate_package_plan : List PackageRow → Result (List Material)
  unfolding validate_packages
  validate_package_plan packages = do
    normalized ← validate_packages [] packages
    ok (sorted package_leb normalized)

  abbrev pub material_json : Material → List (String × Detail)
  material_json m =
      ("architecture", Detail.str m.architecture)
      ∷ ("candidate_version", Detail.str m.candidate_version)
      ∷ ("installed_version", Detail.str m.installed_version)
      ∷ ("package_name", Detail.str m.package_name)
      ∷ []

  unfoldable pub package_plan_fingerprint : List PackageRow → Result String
  unfolding validate_package_plan
  package_plan_fingerprint packages = do
    canonical ← validate_package_plan packages
    ok (p.sha256_hex "" (map material_json canonical))

  unfoldable pub require_probe_target : ProbeSpec → Result (Option String)
  require_probe_target (guest_operational, none) = ok none
  require_probe_target (guest_operational, some _) = err value_error
  require_probe_target (systemd_unit_active, none) = err value_error
  require_probe_target (systemd_unit_active, some value) =
      if value == ""
        || ltb 200 (count value)
        || any_of
            (λ c.
              p.is_space c
              || any_of (λ k. k == p.category c) ("Cc" ∷ "Cf" ∷ "Cs" ∷ "Co" ∷ "Cn" ∷ []))
            (chars value)
      then err value_error
      else ok (some value)

  unfoldable pub normalize_probes : List ProbeSpec → List ProbeSpec → Result (List ProbeSpec)
  unfolding require_probe_target
  normalize_probes seen [] = ok []
  normalize_probes seen (probe ∷ rest) = do
    target ← require_probe_target probe
    require (not (any_of (same_probe (probe.0, target)) seen)) value_error
    others ← normalize_probes ((probe.0, target) ∷ seen) rest
    ok ((probe.0, target) ∷ others)

  unfoldable pub canonical_health_probes : List ProbeSpec → Result (List ProbeSpec)
  unfolding normalize_probes
  canonical_health_probes probes = do
    normalized ← normalize_probes [] probes
    require (not (ltb (length normalized) min_health_probes)) value_error
    require (not (ltb max_health_probes (length normalized))) value_error
    require
        (not
          (ltb 1 (length normalized) && any_of (λ probe. probe.0 == guest_operational) normalized))
        value_error
    ok (sorted probe_leb normalized)

  abbrev pub probe_json : ProbeSpec → List (String × Detail)
  probe_json (k, t) =
      ("kind", Detail.str (kind_value k))
      ∷ ("target", elim t [ none ↦ Detail.null | some v ↦ Detail.str v ])
      ∷ []

  unfoldable pub health_contract_fingerprint : List ProbeSpec → Result String
  unfolding canonical_health_probes
  health_contract_fingerprint probes = do
    canonical ← canonical_health_probes probes
    ok (p.sha256_hex "hubinet-ops/resource-health-contract/v1" (map probe_json canonical))
