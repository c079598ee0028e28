-- ===== src/Stages/Health/Exact.antt =====
-- What `validate_host_health_result` of `app/package_update_health.py` accepts.
use hubinet_ops.Prelude.{
  String, Bool, true, false, not, ◌&&◌, Option, none, some, List, [], ◌∷◌, ◌==◌, ◌≡◌, refl, sym, ap,
  subst, length, ◌∙◌, arith, inl, inr, Bool-cases, any_of, if◌then◌else◌, string_eq, nat_eq,
}
use mathlib.Core.List.{Memᴰ}
use text.Mathlib.TextEquality.{eq_iff}
use hubinet_ops.Models.{ProbeKind, ProbeOutcome, kind_eq, probe_outcome_eq}
use hubinet_ops.Authority.Result.{Result, ok, err, value_error, require, ◌>>◌}
use hubinet_ops.Authority.Tables.{FrozenProbe}
use hubinet_ops.Authority.Query.{find_by}
use hubinet_ops.Authority.Plans.{same_target}
use hubinet_ops.Health.{
  Observation, is_in, is_health_probe_reason, reasons_of, is_kind_allowed, has_duplicate_index,
  require_health_probe_semantics,
}
use hubinet_ops.Stages.Run.{PackageUpdateJob}
use hubinet_ops.Stages.Health.{
  HostHealthResult, EvaluationStatus, decisive, evaluation_eq, Validation, accepted, rejected,
  host_probe_reasons, is_unknown, check_probe, check_found, check_probes, with_first,
  not_contradictory, validate_host_health_result,
}

-- An observation that the host reported, of this frozen probe, with a reason that its outcome and
-- its kind can have.
pub record IsAnswer (seen : List Observation) (probe : FrozenProbe) (o : Observation) : Type 0 where
  pub reported : Memᴰ o seen
  pub index : o.probe_index ≡ probe.probe_index
  pub kind : o.kind ≡ probe.kind
  pub target : o.target ≡ probe.target
  pub known : is_in o.reason host_probe_reasons ≡ true
  pub fits_outcome : is_in o.reason (reasons_of o.outcome) ≡ true
  pub fits_kind : is_kind_allowed probe.kind o.reason ≡ true

-- One observation for each probe, in the order of the probes.
pub data AnswerEach (seen : List Observation) : List FrozenProbe → List Observation → Type 0 where
  none_left : AnswerEach seen [] []
  one_more :
      {probe : FrozenProbe} {o : Observation} {ps : List FrozenProbe} {os : List Observation}
      → IsAnswer seen probe o
      → AnswerEach seen ps os
      → AnswerEach seen (probe ∷ ps) (o ∷ os)

same_target_lem : (a b : Option String) → same_target a b ≡ true → a ≡ b
same_target_lem none none h = refl
same_target_lem none (some b) h = ground arith
same_target_lem (some a) none h = ground arith
same_target_lem (some a) (some b) h = ap some ((eq_iff a b).0 h)

required :
    (a b c : Bool) (r s : String)
    → (do require a value_error; require b value_error; require c value_error; ok r) ≡ ok s
    → (s ≡ r) × (b ≡ true) × (c ≡ true)
required a b c r s h = ground arith

semantics_lem :
    (k : ProbeKind) (x : ProbeOutcome) (r s : String)
    → require_health_probe_semantics k x r ≡ ok s
    → (s ≡ r) × (is_in r (reasons_of x) ≡ true) × (is_kind_allowed k r ≡ true)
unfolding require_health_probe_semantics
semantics_lem k x r s h =
    required (is_health_probe_reason r) (is_in r (reasons_of x)) (is_kind_allowed k r) r s h

hit_lem :
    (b : Bool) (x y : Observation) (o : Option Observation)
    → b ≡ true
    → (if b then some y else o) ≡ some x
    → x ≡ y
hit_lem true x y o b h = cc
hit_lem false x y o b h = ground arith

find_by_hit :
    (test : Observation → Bool) (xs : List Observation) (x : Observation)
    → find_by test xs ≡ some x
    → Memᴰ x xs × (test x ≡ true)
unfolding find_by
find_by_hit test [] x h = ground arith
find_by_hit test (y ∷ ys) x h = elim (Bool-cases (test y)) [
  | inl hit ↦ let same = hit_lem (test y) x y _ hit h in (Memᴰ.head same, ap test same ∙ hit)
  | inr miss ↦ let (m, t) = find_by_hit test ys x (ground arith) in (Memᴰ.tail m, t)
]

-- The shape of `check_probe`: three tests, then the semantics.
tested :
    (a b c : Bool) (k l m n : String) (r : Result String) (f : String → Observation)
    (o : Observation)
    → (if not a
        then rejected k
        else if not b
        then rejected l
        else if not c
        then rejected m
        else elim r [ err e ↦ rejected n | ok x ↦ accepted (f x) ])
      ≡ accepted o
    → (a ≡ true) × (b ≡ true) × (c ≡ true) × (x : String) × (r ≡ ok x) × (f x ≡ o)
tested a b c k l m n r f o h = ground arith

kind_lem : (k l : ProbeKind) → (k == l) ≡ true → k ≡ l
kind_lem k l h = ground arith

rebuilt :
    (s : Observation) (probe : FrozenProbe)
    → s.probe_index ≡ probe.probe_index
    → s.kind ≡ probe.kind
    → s.target ≡ probe.target
    → record {
      probe_index = probe.probe_index;
      kind = probe.kind;
      target = probe.target;
      outcome = s.outcome;
      reason = s.reason;
    }
      ≡ s
rebuilt s probe i k t = cc

check_probe-IsAnswer :
    (seen : List Observation) (probe : FrozenProbe) (s o : Observation)
    → Memᴰ s seen
    → s.probe_index ≡ probe.probe_index
    → check_probe probe s ≡ accepted o
    → IsAnswer seen probe o
unfolding check_probe
check_probe-IsAnswer seen probe s o m i h =
    let (k, t, n, x, e, q) =
      tested (s.kind == probe.kind) (same_target s.target probe.target)
        (is_in s.reason host_probe_reasons) _ _ _
        "host returned a probe reason that contradicts its outcome or kind"
        (require_health_probe_semantics probe.kind s.outcome s.reason)
        (λ r. record {
          probe_index = probe.probe_index;
          kind = probe.kind;
          target = probe.target;
          outcome = s.outcome;
          reason = s.reason;
        })
        o h in
    let (same, fits, allowed) = semantics_lem probe.kind s.outcome s.reason x e in
    subst (λ z. IsAnswer seen probe z)
      (sym (rebuilt s probe i (kind_lem _ _ k) (same_target_lem _ _ t)) ∙ q)
      (record {
        reported = m;
        index = i;
        kind = kind_lem _ _ k;
        target = same_target_lem _ _ t;
        known = n;
        fits_outcome = fits;
        fits_kind = allowed;
      })

-- An accepted list splits as its first check and the rest.
split :
    (v : Validation Observation) (w : Validation (List Observation)) (os : List Observation)
    → with_first v w ≡ accepted os
    → (x : Observation) × (xs : List Observation) × (v ≡ accepted x)
      × (w ≡ accepted xs)
      × ((x ∷ xs) ≡ os)
split v w os h = ground arith

check_found-IsAnswer :
    (probe : FrozenProbe) (seen : List Observation) (r : Option Observation) (o : Observation)
    → find_by (λ x. x.probe_index == probe.probe_index) seen ≡ r
    → check_found probe r ≡ accepted o
    → IsAnswer seen probe o
check_found-IsAnswer probe seen none o f h = ground arith
check_found-IsAnswer probe seen (some s) o f h =
    let (m, t) = find_by_hit (λ x. x.probe_index == probe.probe_index) seen s f in
    check_probe-IsAnswer seen probe s o m (ground arith) h

accepted_nil : (os : List Observation) → accepted [] ≡ accepted os → [] ≡ os
accepted_nil os h = cc

check_probes-AnswerEach :
    (probes : List FrozenProbe) (seen os : List Observation)
    → check_probes probes seen ≡ accepted os
    → AnswerEach seen probes os
unfolding check_probes
check_probes-AnswerEach [] seen os h = subst (AnswerEach seen []) (accepted_nil os h) none_left
check_probes-AnswerEach (probe ∷ rest) seen os h =
    let (x, xs, first, others, e) =
      split (check_found probe (find_by (λ o. o.probe_index == probe.probe_index) seen))
        (check_probes rest seen) os h in
    subst (AnswerEach seen (probe ∷ rest)) e (
      one_more (check_found-IsAnswer probe seen _ x refl first)
        (check_probes-AnswerEach rest seen xs others))

-- What an accepted answer of the host is.
pub record IsFaithful (job : PackageUpdateJob) (result : HostHealthResult) (os : List Observation)
    : Type 0 where
  pub same_revision : result.contract_revision ≡ job.row.health_contract_revision
  pub same_fingerprint : result.contract_fingerprint ≡ job.row.health_contract_fingerprint
  pub whole : length job.health_probes ≡ job.row.health_contract_probe_count
  pub none_extra : length result.probes ≡ length job.health_probes
  pub each : AnswerEach result.probes job.health_probes os
  pub decided : (result.evaluation_status == decisive && any_of is_unknown os) ≡ false

-- The shape of `validate_host_health_result`.
five_tests :
    (a b c d e : Bool) (k l m n o : String) (v : Validation (List Observation))
    (os : List Observation)
    → (if not a
        then rejected k
        else if not b
        then rejected l
        else if not c
        then rejected m
        else if not d
        then rejected n
        else if e
        then rejected o
        else v)
      ≡ accepted os
    → (a ≡ true) × (b ≡ true) × (c ≡ true) × (d ≡ true) × (v ≡ accepted os)
five_tests a b c d e k l m n o v os h = ground arith

decided_lem :
    (s : EvaluationStatus) (v : Validation (List Observation)) (os : List Observation)
    → not_contradictory s v ≡ accepted os
    → (v ≡ accepted os) × ((s == decisive && any_of is_unknown os) ≡ false)
decided_lem s v os h = ground arith

-- Where the validation accepts the answer of a host, it is about the contract that was frozen for the
-- job, and the observations that are used are the host's own, one for each frozen probe in order, of
-- its index, kind and target, each with a reason that its outcome and kind can have; and none of them
-- is unknown where the host called the round decisive.
pub validated-IsFaithful :
    (job : PackageUpdateJob) (result : HostHealthResult) (os : List Observation)
    → validate_host_health_result job result ≡ accepted os
    → IsFaithful job result os
unfolding validate_host_health_result
validated-IsFaithful job result os h =
    let (a, b, c, d, v) =
      five_tests (result.contract_revision == job.row.health_contract_revision)
        (result.contract_fingerprint == job.row.health_contract_fingerprint)
        (length job.health_probes == job.row.health_contract_probe_count)
        (length result.probes == length job.health_probes) (has_duplicate_index result.probes) _ _ _
        _ _ _ os h in
    let (checked, decided) = decided_lem result.evaluation_status _ os v in
    record {
      same_revision = ground arith;
      same_fingerprint = (eq_iff _ _).0 b;
      whole = ground arith;
      none_extra = ground arith;
      each = check_probes-AnswerEach job.health_probes result.probes os checked;
      decided = decided;
    }
