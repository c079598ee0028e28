-- ===== src/Completion/Exact.antt =====
-- What it means that the packages of a guest moved exactly as a plan approves, against the proof of
-- `app/inventory/mutation_completion.py`.
use hubinet_ops.Prelude.{
  String, Bool, true, false, not, ◌&&◌, Option, none, some, List, [], ◌∷◌, ◌==◌, Eq, ◌≡◌, ◌≢◌, refl,
  ◌↔◌, ap, inl, inr, arith, All, Bool-cases, Option-cases, sym, string_eq,
}
use mathlib.Core.List.{Memᴰ}
use text.Mathlib.TextEquality.{eq_iff}
use hubinet_ops.Authority.Tables.{Material}
use hubinet_ops.Authority.Result.{ok}
use hubinet_ops.Completion.{
  Package, package_eq, Check, checks, Versions, Verdict, proven, first_refusal, starts_there,
  ends_there, is_changed, compare_states, approved_of, PostState, prove_package_mutation_completion,
}
use hubinet_ops.Completion.Maps.{Dict, lookup, contains, keys}
use hubinet_ops.Authority.Query.{select_by}

module _ {A : Type 0} (test : A → Bool) where
  select_none : (xs : List A) {x : A} → select_by test xs ≡ [] → Memᴰ x xs → test x ≡ false
  unfolding select_by
  select_none [] h m = elim m [ ]
  select_none (y ∷ xs) h (Memᴰ.head p) = elim (Bool-cases (test y)) [
    | inl hit ↦ ground arith
    | inr miss ↦ rw p miss
  ]
  select_none (y ∷ xs) h (Memᴰ.tail m) = elim (Bool-cases (test y)) [
    | inl hit ↦ ground arith
    | inr miss ↦ select_none xs (ground arith) m
  ]

  none_select : (xs : List A) → ((x : A) → Memᴰ x xs → test x ≡ false) → select_by test xs ≡ []
  unfolding select_by
  none_select [] h = refl
  none_select (y ∷ xs) h = rw (h y (Memᴰ.head refl)) (none_select xs (λ x m. h x (Memᴰ.tail m)))

module _ {K V : Type 0} ⦃e : Eq K⦄ where
  keys_contain : (d : Dict K V) (k : K) (v : V) → lookup k d ≡ some v → Memᴰ k (keys d)
  unfolding lookup keys
  keys_contain [] k v h = cc
  keys_contain ((j, w) ∷ d) k v h = elim (Bool-cases (j == k)) [
    | inl here ↦ Memᴰ.head (sym ((e.beq_iff j k).0 here))
    | inr there ↦ Memᴰ.tail (keys_contain d k v (ground arith))
  ]

  keys_found : (d : Dict K V) (k : K) → Memᴰ k (keys d) → (v : V) × (lookup k d ≡ some v)
  unfolding lookup keys
  keys_found [] k m = elim m [ ]
  keys_found ((j, w) ∷ d) k m = elim (Bool-cases (j == k)) [
    | inl here ↦ (w, rw here)
    | inr there ↦ elim m [
      | Memᴰ.head p ↦ absurd (ground (arith, e.beq_iff j k))
      | Memᴰ.tail n ↦ let (v, h) = keys_found d k n in (v, rw there h)
    ]
  ]

-- The versions that a package had before and after, where the plan names it, and where it does not.
abbrev pub MovedAsApproved : Dict Package String → Dict Package String → Package → Versions → Type 0
MovedAsApproved pre post k v =
    (lookup k pre ≡ some (v.0)) × (lookup k post ≡ some (v.1)) × (v.0 ≢ v.1)

pub record IsExact (approved : Dict Package Versions) (pre post : Dict Package String)
    : Type 0 where
  pub moved :
      (k : Package) (v : Versions) → lookup k approved ≡ some v → MovedAsApproved pre post k v
  pub unmoved : (k : Package) → lookup k approved ≡ none → lookup k post ≡ lookup k pre

abbrev pub HasNone : Check → Type 0
HasNone c = c.0 ≡ []

first_refusal-proven : (cs : List Check) → (first_refusal cs ≡ proven) ↔ All HasNone cs
first_refusal-proven [] = (λ _. tt, λ _. refl)
first_refusal-proven (([], r) ∷ cs) =
    (λ h. (refl, (first_refusal-proven cs).0 h), λ h. (first_refusal-proven cs).1 h.1)
first_refusal-proven ((k ∷ ks, r) ∷ cs) = (λ h. cc, λ h. cc (h.0))

-- What it means that none of the checks refuses.
record NoRefusal (approved : Dict Package Versions) (pre post : Dict Package String) : Type 0 where
  start :
      (k : Package) → Memᴰ k (keys approved) → not (starts_there pre (lookup k approved) k) ≡ false
  end : (k : Package) → Memᴰ k (keys approved) → not (ends_there post (lookup k approved) k) ≡ false
  old : (k : Package) → Memᴰ k (keys post) → not (contains k pre) ≡ false
  kept : (k : Package) → Memᴰ k (keys pre) → not (contains k post) ≡ false
  only_approved :
      (k : Package)
      → Memᴰ k (keys post)
      → (is_changed pre post k && not (contains k approved)) ≡ false
  changed : (k : Package) → Memᴰ k (keys approved) → not (is_changed pre post k) ≡ false

proven-NoRefusal :
    (approved : Dict Package Versions) (pre post : Dict Package String)
    → compare_states approved pre post ≡ proven
    → NoRefusal approved pre post
unfolding compare_states checks
proven-NoRefusal approved pre post h =
    let a = (first_refusal-proven (checks approved pre post)).0 h in
    record {
      start = λ k m. select_none _ _ a.0 m;
      end = λ k m. select_none _ _ a.1.0 m;
      old = λ k m. select_none _ _ a.1.1.0 m;
      kept = λ k m. select_none _ _ a.1.1.1.0 m;
      only_approved = λ k m. select_none _ _ a.1.1.1.1.0 m;
      changed = λ k m. select_none _ _ a.1.1.1.1.1.0 m;
    }

NoRefusal-proven :
    (approved : Dict Package Versions) (pre post : Dict Package String)
    → NoRefusal approved pre post
    → compare_states approved pre post ≡ proven
unfolding compare_states checks
NoRefusal-proven approved pre post n = (first_refusal-proven (checks approved pre post)).1 (
  none_select _ _ n.start,
  (
    none_select _ _ n.end,
    (
      none_select _ _ n.old,
      (none_select _ _ n.kept, (none_select _ _ n.only_approved, (none_select _ _ n.changed, tt))),
    ),
  ),
)

-- What the checks say of one key.
start_lem :
    (pre post : Dict Package String) (k : Package) (v : Versions)
    → (o : Option Versions) → o ≡ some v
    → not (starts_there pre o k) ≡ false
    → not (ends_there post o k) ≡ false
    → not (is_changed pre post k) ≡ false
    → MovedAsApproved pre post k v
start_lem pre post k v none h s e c = cc
start_lem pre post k v (some w) h s e c = elim (Option-cases (lookup k pre)) [
  | inl gone ↦ cc
  | inr (a, was) ↦ elim (Option-cases (lookup k post)) [
    | inl gone ↦ cc
    | inr (b, is) ↦ ground (arith, eq_iff a w.0, eq_iff b w.1, eq_iff a b)
  ]
]

lookup_unchanged :
    (pre post : Dict Package String) (k : Package) (v : String)
    → lookup k post ≡ some v
    → contains k pre ≡ true
    → is_changed pre post k ≡ false
    → lookup k post ≡ lookup k pre
lookup_unchanged pre post k v here there same = elim (Option-cases (lookup k pre)) [
  | inl gone ↦ cc
  | inr (w, was) ↦ ground (arith, eq_iff w v)
]

NoRefusal-IsExact :
    (approved : Dict Package Versions) (pre post : Dict Package String)
    → NoRefusal approved pre post
    → IsExact approved pre post
NoRefusal-IsExact approved pre post n = record {
  moved = λ k v h.
      let m = keys_contain approved k v h in
      start_lem pre post k v (lookup k approved) h (n.start k m) (n.end k m) (n.changed k m);
  unmoved = λ k h. elim (Option-cases (lookup k post)) [
    | inl gone ↦ elim (Option-cases (lookup k pre)) [
      | inl absent ↦ ground arith
      | inr (w, there) ↦ ground (arith, n.kept k (keys_contain pre k w there))
    ]
    | inr (v, here) ↦
        let m = keys_contain post k v here in
        lookup_unchanged pre post k v here (ground (arith, n.old k m))
          (ground (arith, n.only_approved k m))
  ];
}

moved_lem :
    (pre post : Dict Package String) (k : Package) (v : Versions) (o : Option Versions)
    → o ≡ some v
    → MovedAsApproved pre post k v
    → (not (starts_there pre o k) ≡ false)
      × (not (ends_there post o k) ≡ false)
      × (not (is_changed pre post k) ≡ false)
moved_lem pre post k v none h x = cc
moved_lem pre post k v (some w) h x =
    ground (arith, eq_iff w.0 v.0, eq_iff w.1 v.1, eq_iff v.0 v.0, eq_iff v.1 v.1, eq_iff v.0 v.1)

contained_lem :
    {V : Type 0} (d : Dict Package V) (k : Package) → Memᴰ k (keys d) → not (contains k d) ≡ false
contained_lem d k m = let (v, h) = keys_found d k m in ground arith

-- A key that the plan does not name.
unmoved_lem :
    (pre post : Dict Package String) (k : Package)
    → lookup k post ≡ lookup k pre
    → (contains k pre ≡ contains k post) × (is_changed pre post k ≡ false)
unmoved_lem pre post k h = elim (Option-cases (lookup k pre)) [
  | inl gone ↦ ground arith
  | inr (v, there) ↦ ground (arith, eq_iff v v)
]

IsExact-NoRefusal :
    (approved : Dict Package Versions) (pre post : Dict Package String)
    → IsExact approved pre post
    → NoRefusal approved pre post
IsExact-NoRefusal approved pre post x = record {
  start = λ k m.
      let (v, h) = keys_found approved k m in
      (moved_lem pre post k v (lookup k approved) h (x.moved k v h)).0;
  end = λ k m.
      let (v, h) = keys_found approved k m in
      (moved_lem pre post k v (lookup k approved) h (x.moved k v h)).1;
  old = λ k m. elim (Option-cases (lookup k approved)) [
    | inl h ↦
        let u = unmoved_lem pre post k (x.unmoved k h) in ground (arith, contained_lem post k m)
    | inr (v, h) ↦ ground (arith, x.moved k v h)
  ];
  kept = λ k m. elim (Option-cases (lookup k approved)) [
    | inl h ↦
        let u = unmoved_lem pre post k (x.unmoved k h) in ground (arith, contained_lem pre k m)
    | inr (v, h) ↦ ground (arith, x.moved k v h)
  ];
  only_approved = λ k m. elim (Option-cases (lookup k approved)) [
    | inl h ↦ let u = unmoved_lem pre post k (x.unmoved k h) in ground arith
    | inr (v, h) ↦ ground arith
  ];
  changed = λ k m.
      let (v, h) = keys_found approved k m in
      (moved_lem pre post k v (lookup k approved) h (x.moved k v h)).2;
}

verdict_lem : (v w : Verdict) → (ok v ≡ ok w) → v ≡ w
verdict_lem v w h = cc

completion_lem :
    (m : Material) (ms : List Material) (pre post : Dict Package String)
    (unfinished : List (Package × String))
    → (prove_package_mutation_completion
          (m ∷ ms)
          (record { pre_installed = pre; post_installed = post; post_unfinished = unfinished })
        ≡ ok proven)
      ↔ ((unfinished ≡ []) × IsExact (approved_of (m ∷ ms)) pre post)
unfolding prove_package_mutation_completion
completion_lem m ms pre post [] = (
  λ h. (refl, NoRefusal-IsExact _ _ _ (proven-NoRefusal _ _ _ (verdict_lem _ _ h))),
  λ h. ap ok (NoRefusal-proven _ _ _ (IsExact-NoRefusal _ _ _ h.1)),
)
completion_lem m ms pre post (u ∷ us) = (λ h. cc, λ h. cc (h.0))

-- The proof of a mutation whose plan names at least one package holds exactly when dpkg reports no
-- unfinished package, every package that the plan names moved from its approved version to another,
-- the approved one, and every package that the plan does not name has the version that it had, or is
-- absent as it was.
pub completion-IsExact :
    (m : Material) (ms : List Material) (state : PostState)
    → (prove_package_mutation_completion (m ∷ ms) state ≡ ok proven) ↔ (
        (state.post_unfinished ≡ [])
        × IsExact (approved_of (m ∷ ms)) state.pre_installed state.post_installed)
completion-IsExact m ms state =
    completion_lem m ms state.pre_installed state.post_installed state.post_unfinished
