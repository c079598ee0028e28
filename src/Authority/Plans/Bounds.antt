-- ===== src/Authority/Plans/Bounds.antt =====
-- The number of probes in a health contract that `app/inventory/health_contract.py` accepts.
use hubinet_ops.Prelude.{
  ℕ, String, Bool, true, false, not, ◌&&◌, List, [], ◌∷◌, ◌≡◌, refl, sym, arith, leb, ltb, length,
  any_of, ◌==◌, subst,
}
use hubinet_ops.Models.{guest_operational, kind_eq}
use hubinet_ops.Authority.Result.{Error, Result, ok, err, value_error, ◌>>=◌, ◌>>◌, require}
use hubinet_ops.Authority.Platform.{Platform}
use hubinet_ops.Authority.Checks.{sorted}
use hubinet_ops.Authority.Plans.{
  ProbeSpec, same_probe, require_probe_target, normalize_probes, canonical_health_probes,
  health_contract_fingerprint, min_health_probes, max_health_probes, probe_leb,
}

-- A chain of results that ends well has a first part that does.
bind_ok :
    {A B : Type 0} (r : Result A) (f : A → Result B) (b : B)
    → (r >>= f) ≡ ok b
    → (a : A) × (r ≡ ok a) × (f a ≡ ok b)
bind_ok (ok a) f b h = (a, refl, h)
bind_ok (err e) f b h = ground arith

require_ok :
    {B : Type 0} (c : Bool) (e : Error) (k : Result B) (b : B)
    → (require c e >> k) ≡ ok b
    → (c ≡ true) × (k ≡ ok b)
require_ok true e k b h = (refl, h)
require_ok false e k b h = ground arith

ok_length : (xs ys : List ProbeSpec) → ok xs ≡ ok ys → length xs ≡ length ys
ok_length xs ys h = cc

-- As many probes as a contract may have.
abbrev pub IsBounded : List ProbeSpec → Type 0
IsBounded probes =
    (leb min_health_probes (length probes) ≡ true) × (leb (length probes) max_health_probes ≡ true)

module _ (p : Platform) where
  normalized_length :
      (seen probes normalized : List ProbeSpec)
      → normalize_probes p seen probes ≡ ok normalized
      → length normalized ≡ length probes
  unfolding normalize_probes
  normalized_length seen [] normalized h = sym (ok_length [] normalized h)
  normalized_length seen (probe ∷ rest) normalized h =
      let (target, _, h1) = bind_ok (require_probe_target p probe) _ normalized h in
      let (_, h2) =
        require_ok (not (any_of (same_probe (probe.0, target)) seen)) value_error
          (normalize_probes p ((probe.0, target) ∷ seen) rest >>= λ others.
            ok ((probe.0, target) ∷ others))
          normalized h1 in
      let (others, e, h3) =
        bind_ok (normalize_probes p ((probe.0, target) ∷ seen) rest) _ normalized h2 in
      let rest_length = normalized_length ((probe.0, target) ∷ seen) rest others e in
      let whole = ok_length ((probe.0, target) ∷ others) normalized h3 in
      omega (arith, whole, rest_length)

  within :
      (n : ℕ)
      → not (ltb n min_health_probes) ≡ true
      → not (ltb max_health_probes n) ≡ true
      → (leb min_health_probes n ≡ true) × (leb n max_health_probes ≡ true)
  within n h k = ground arith

  pub fingerprint-IsBounded :
      (probes : List ProbeSpec) (fingerprint : String)
      → health_contract_fingerprint p probes ≡ ok fingerprint
      → IsBounded probes
  unfolding health_contract_fingerprint canonical_health_probes
  fingerprint-IsBounded probes fingerprint h =
      let (canonical, c, _) = bind_ok (canonical_health_probes p probes) _ fingerprint h in
      let (normalized, n, h1) = bind_ok (normalize_probes p [] probes) _ canonical c in
      let (low, h2) =
        require_ok (not (ltb (length normalized) min_health_probes)) value_error
          (require (not (ltb max_health_probes (length normalized))) value_error
            >> (require
                  (not (
                    ltb 1 (length normalized)
                    && any_of (λ (probe : ProbeSpec). probe.0 == guest_operational) normalized))
                  value_error
                >> ok (sorted probe_leb normalized)))
          canonical h1 in
      let (high, _) =
        require_ok (not (ltb max_health_probes (length normalized))) value_error _ canonical h2 in
      subst (λ n. (leb min_health_probes n ≡ true) × (leb n max_health_probes ≡ true))
        (normalized_length [] probes normalized n) (within (length normalized) low high)
