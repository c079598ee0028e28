-- ===== src/Authority/Issuance/Sound/Rules.antt =====
-- A computation that keeps the table of jobs sound, and one that also answers only what satisfies a
-- predicate: one rule for each construct.
use hubinet_ops.Prelude.{
  ◌≤◌, Bool, true, false, Option, none, some, ◌≡◌, refl, All, string_eq, if◌then◌else◌,
}
use hubinet_ops.Models.{status_eq}
use hubinet_ops.Authority.Result.{Error, Result, ok, err}
use hubinet_ops.Authority.Tables.{Db}
use hubinet_ops.Authority.Tx.{Tx, ◌>>=◌, ◌>>◌, pure, raise, gets, lift, when_null}
use hubinet_ops.Authority.Calls.Safety.{IsChecked, active_count}

-- Every row passes `row_checks`, and at most one job is active.
abbrev pub IsSound : Db → Type 0
IsSound db = All IsChecked db.jobs × (active_count db.jobs ≤ 1)

abbrev pub Ends : {A : Type 0} → Result (A × Db) → Type 0
Ends (ok r) = IsSound r.1
Ends (err e) = Unit

pub record Sound {A : Type 0} (m : Tx A) : Type 0 where
  pub sound : (db : Db) → IsSound db → Ends (m db)

pub bind-Ends :
    {A B : Type 0} (r : Result (A × Db)) (f : A → Tx B)
    → Ends r
    → ((a : A) → Sound (f a))
    → Ends (elim r [ ok x ↦ f x.0 x.1 | err e ↦ err e ])
bind-Ends (ok r) f s y = (y r.0).sound r.1 s
bind-Ends (err e) f s y = tt

pub bind_rule :
    {A B : Type 0} {m : Tx A} {f : A → Tx B} → Sound m → ((a : A) → Sound (f a)) → Sound (m >>= f)
bind_rule {m = m} {f = f} x y = record { sound = λ db h. bind-Ends (m db) f (x.sound db h) y }

pub then_rule : {B : Type 0} {m : Tx (Unit {0})} {k : Tx B} → Sound m → Sound k → Sound (m >> k)
then_rule x y = bind_rule x (λ _. y)

pub pure_rule : {A : Type 0} (a : A) → Sound (pure a)
pure_rule a = record { sound = λ db h. h }

pub raise_rule : {A : Type 0} (e : Error) → Sound (raise {A = A} e)
raise_rule e = record { sound = λ db h. tt }

pub gets_rule : {A : Type 0} (f : Db → A) → Sound (gets f)
gets_rule f = record { sound = λ db h. h }

pub if_rule : {A : Type 0} (b : Bool) {m k : Tx A} → Sound m → Sound k → Sound (if b then m else k)
if_rule true x y = x
if_rule false x y = y

pub null_rule :
    {A B : Type 0} (o : Option B) {n : Tx A} {s : B → Tx A}
    → Sound n
    → ((b : B) → Sound (s b))
    → Sound (when_null o n s)
null_rule none x y = x
null_rule (some b) x y = y b

-- A computation that keeps the tables sound and returns only what satisfies a predicate.
abbrev pub EndsIn : {A : Type 0} → (A → Type 0) → Result (A × Db) → Type 0
EndsIn P (ok r) = IsSound r.1 × P r.0
EndsIn P (err e) = Unit

pub record Yields {A : Type 0} (P : A → Type 0) (m : Tx A) : Type 0 where
  pub yields : (db : Db) → IsSound db → EndsIn P (m db)

pub bind-EndsIn :
    {A B : Type 0} {P : B → Type 0} (r : Result (A × Db)) (f : A → Tx B)
    → Ends r
    → ((a : A) → Yields P (f a))
    → EndsIn P (elim r [ ok x ↦ f x.0 x.1 | err e ↦ err e ])
bind-EndsIn (ok r) f s y = (y r.0).yields r.1 s
bind-EndsIn (err e) f s y = tt

pub post_bind :
    {A B : Type 0} {P : B → Type 0} {m : Tx A} {f : A → Tx B}
    → Sound m
    → ((a : A) → Yields P (f a))
    → Yields P (m >>= f)
post_bind {m = m} {f = f} x y = record { yields = λ db h. bind-EndsIn (m db) f (x.sound db h) y }

pub post_lift :
    {A B : Type 0} {P : B → Type 0} (r : Result A) (f : A → Tx B)
    → ((a : A) → r ≡ ok a → Yields P (f a))
    → Yields P (lift r >>= f)
post_lift (ok a) f y = record { yields = λ db h. (y a refl).yields db h }
post_lift (err e) f y = record { yields = λ db h. tt }

pub post_pure : {A : Type 0} {P : A → Type 0} (a : A) → P a → Yields P (pure a)
post_pure a x = record { yields = λ db h. (h, x) }

pub post_raise : {A : Type 0} {P : A → Type 0} (e : Error) → Yields P (raise e)
post_raise e = record { yields = λ db h. tt }

pub post_if :
    {A : Type 0} {P : A → Type 0} (b : Bool) {m k : Tx A}
    → Yields P m
    → Yields P k
    → Yields P (if b then m else k)
post_if true x y = x
post_if false x y = y

pub use-Ends :
    {A B : Type 0} {P : A → Type 0} (r : Result (A × Db)) (f : A → Tx B)
    → EndsIn P r
    → ((a : A) → P a → Sound (f a))
    → Ends (elim r [ ok x ↦ f x.0 x.1 | err e ↦ err e ])
use-Ends (ok r) f s y = (y r.0 s.1).sound r.1 s.0
use-Ends (err e) f s y = tt

pub use_rule :
    {A B : Type 0} {P : A → Type 0} {m : Tx A} {f : A → Tx B}
    → Yields P m
    → ((a : A) → P a → Sound (f a))
    → Sound (m >>= f)
use_rule {m = m} {f = f} x y = record { sound = λ db h. use-Ends (m db) f (x.yields db h) y }

pub yield-Ends :
    {A B : Type 0} {P : A → Type 0} {Q : B → Type 0} (r : Result (A × Db)) (f : A → Tx B)
    → EndsIn P r
    → ((a : A) → P a → Yields Q (f a))
    → EndsIn Q (elim r [ ok x ↦ f x.0 x.1 | err e ↦ err e ])
yield-Ends (ok r) f s y = (y r.0 s.1).yields r.1 s.0
yield-Ends (err e) f s y = tt

pub post_use :
    {A B : Type 0} {P : A → Type 0} {Q : B → Type 0} {m : Tx A} {f : A → Tx B}
    → Yields P m
    → ((a : A) → P a → Yields Q (f a))
    → Yields Q (m >>= f)
post_use {m = m} {f = f} x y = record { yields = λ db h. yield-Ends (m db) f (x.yields db h) y }

-- A test whose outcome the branches know.
pub known_if :
    {A : Type 0} (b : Bool) {m k : Tx A}
    → (b ≡ true → Sound m)
    → (b ≡ false → Sound k)
    → Sound (if b then m else k)
known_if true x y = x refl
known_if false x y = y refl

pub ruleset spine = (bind_rule, then_rule, pure_rule, raise_rule, gets_rule, if_rule, null_rule)
