-- ===== src/Stages/Task/Bound.antt =====
-- The rounds of `poll_until_resolved`, and what is assumed of the clock.
use hubinet_ops.Prelude.{
  ℕ, zero, suc, ◌+◌, ◌*◌, ◌≤◌, ◌<◌, String, Bool, true, false, not, Option, ◌≡◌, refl, sym, subst,
  arith, leb, if◌then◌else◌,
}
use native.Mathlib.Nat.{suc-mul}
use hubinet_ops.Authority.Tables.{Db}
use hubinet_ops.Stages.Run.{
  Outcome, done, raised, Raised, fault, Reply, answered, failed, attempt, asking, handled, of_reply,
  Environment, Stage, next, pure,
}
use hubinet_ops.Stages.Task.{
  HostTaskResult, Phases, TaskSettings, durable_proof, proven_in_flight, pending, poll,
  poll_until_resolved,
}

-- What the code relies on: a sleep takes at least the time that was asked for, and the monotonic
-- clock does not go back while the host is asked.
pub record Ticks {W A : Type 0} (env : Environment W) (ask : W → Reply A × W) : Type 0 where
  pub sleeps : (i : ℕ) (w : W) → env.monotonic w + i ≤ env.monotonic (env.sleep i w)
  pub asks : (w : W) → env.monotonic w ≤ env.monotonic (ask w).1

-- An inspection that always answers, and that the clock goes on in.
pub record Inspects {W A : Type 0} (env : Environment W) (inspect : Stage W A) : Type 0 where
  pub answers : (db : Db) (w : W) → (r : A) × ((inspect db w).0 ≡ done r)
  pub sleeps : (i : ℕ) (w : W) → env.monotonic w + i ≤ env.monotonic (env.sleep i w)
  pub lasts : (db : Db) (w : W) → env.monotonic w ≤ env.monotonic (inspect db w).2

-- A stage that answers in a state of the world.
abbrev pub Answers : {W A : Type 0} → Outcome A × Db × W → Type 0
Answers {A = A} r = (a : A) × (r.0 ≡ done a)

pub next-Answers :
    {W A B : Type 0} (r : Outcome A × Db × W) (f : A → Stage W B)
    → Answers r
    → ((a : A) → Answers (f a r.1 r.2))
    → Answers (next f r)
next-Answers (done a, db, w) f (b, e) h = h a
next-Answers (raised x, db, w) f (b, e) h = ground arith

pub if-Answers :
    {W A : Type 0} (b : Bool) (x y : Stage W A) (db : Db) (w : W)
    → Answers (x db w)
    → (b ≡ false → Answers (y db w))
    → Answers ((if b then x else y) db w)
if-Answers true x y db w h k = h
if-Answers false x y db w h k = k refl

pub later : (deadline now : ℕ) → leb deadline now ≡ false → now < deadline
later deadline now h = ground arith

pub spent :
    (deadline before after i : ℕ) → deadline ≤ before + 0 * i → before ≤ after → deadline ≤ after
spent deadline before after i h k = omega arith

pub enough_later :
    (deadline before asked after i fuel : ℕ)
    → deadline ≤ before + suc fuel * i
    → before ≤ asked
    → asked + i ≤ after
    → deadline ≤ after + fuel * i
enough_later deadline before asked after i fuel h k l = let e = suc-mul fuel i in omega arith

-- An inspection that turns every failure of the host into an answer.
module _ {W A B : Type 0} (env : Environment W) (ask : W → Reply A × W) (ticks : Ticks env ask)
    (f : A → B) (g : Raised → B) where
  replied-Answers :
      (db : Db) (r : Reply A × W)
      → Answers (handled (λ a. pure (f a)) (λ e. pure (g e)) (of_reply db r))
  replied-Answers db (answered a, w) = (f a, refl)
  replied-Answers db (failed x, w) = (g (fault x), refl)

  replied-world :
      (db : Db) (r : Reply A × W)
      → (handled (λ a. pure (f a)) (λ e. pure (g e)) (of_reply db r)).2 ≡ r.1
  replied-world db (answered a, w) = refl
  replied-world db (failed x, w) = refl

  pub asking-Inspects : Inspects env (attempt (asking ask) (λ a. pure (f a)) (λ e. pure (g e)))
  asking-Inspects = record {
    answers = λ db w. replied-Answers db (ask w);
    sleeps = ticks.sleeps;
    lasts = λ db w.
        subst (λ x. env.monotonic w ≤ env.monotonic x) (sym (replied-world db (ask w)))
          (ticks.asks w);
  }

module _ {S W : Type 0} (phases : Phases S) (env : Environment W)
    (inspect : Stage W (HostTaskResult S)) (inspects : Inspects env inspect) where
  poll-Answers :
      (fuel interval deadline : ℕ) (proven : Option S) (db : Db) (w : W)
      → deadline ≤ env.monotonic w + fuel * interval
      → Answers (poll phases env inspect fuel interval deadline proven db w)
  unfolding poll
  poll-Answers zero interval deadline proven db w h =
      next-Answers (inspect db w) _ (inspects.answers db w) (λ fresh.
        if-Answers (not (pending phases fresh (proven_in_flight phases fresh proven))) _ _ _ _
          (fresh, refl)
          (λ waits.
            if-Answers (leb deadline (env.monotonic (inspect db w).2)) _ _ _ _ (fresh, refl)
              (λ early.
                let late = spent deadline _ _ interval h (inspects.lasts db w) in
                let soon = later deadline (env.monotonic (inspect db w).2) early in
                absurd (ground arith))))
  poll-Answers (suc fuel) interval deadline proven db w h =
      next-Answers (inspect db w) _ (inspects.answers db w) (λ fresh.
        if-Answers (not (pending phases fresh (proven_in_flight phases fresh proven))) _ _ _ _
          (fresh, refl)
          (λ waits.
            if-Answers (leb deadline (env.monotonic (inspect db w).2)) _ _ _ _ (fresh, refl)
              (λ early.
                poll-Answers fuel interval deadline (proven_in_flight phases fresh proven) _ _ (
                  enough_later deadline _ _ _ interval fuel h (inspects.lasts db w)
                    (inspects.sleeps interval (inspect db w).2)))))

  pub resolved-Answers :
      (settings : TaskSettings) (recorded : Option String) (result : HostTaskResult S) (db : Db)
      (w : W)
      → settings.poll_timeout ≤ settings.poll_fuel * settings.poll_interval
      → Answers (poll_until_resolved phases env inspect settings recorded result db w)
  unfolding poll_until_resolved
  resolved-Answers settings recorded result db w h =
      if-Answers
        (not
          (pending phases result (proven_in_flight phases result (durable_proof phases recorded))))
        _ _ _ _ (result, refl)
        (λ waits.
          poll-Answers settings.poll_fuel settings.poll_interval
            (env.monotonic w + settings.poll_timeout) _ db w (omega arith))
