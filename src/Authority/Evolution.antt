-- ===== src/Authority/Evolution.antt =====
-- What a transaction of `app/inventory/authority.py` may do to the tables: each job takes steps of its
-- state machine, the number and the order of the jobs stay, and events are only appended. One rule
-- for each statement that the transitions are made of.
pub mod Proofs
pub mod Updates
pub mod Hosts
pub mod Snapshots
pub mod Mutations
pub mod Rollbacks
use hubinet_ops.Prelude.{
  String, Bool, true, false, ◌&&◌, Option, none, some, List, [], ◌∷◌, ◌++◌, ◌==◌, ◌≡◌, refl, sym,
  ap, ◌∙◌, inl, inr, arith, Bool-cases, if◌then◌else◌, string_eq, nat_eq, ◌↔◌,
}
use mathlib.Core.List.{append_assoc, append-nil}
use text.Mathlib.TextEquality.{eq_iff}
use hubinet_ops.Models.{Checkpoint, EventLevel, EventType}
use hubinet_ops.Authority.Result.{
  Error, Result, ok, err, value_error, authority_not_found, authority_conflict,
}
use hubinet_ops.Authority.Platform.{Platform}
use hubinet_ops.Authority.Tables.{Time, Job, Event, Detail, Db}
use hubinet_ops.Authority.Tx.{
  Tx, ◌>>=◌, ◌>>◌, pure, raise, lift, gets, ensure, committed, transaction, when_null,
  require_job_row, update_job, update_rows, find_job, append_event, bump_published,
}
use hubinet_ops.Authority.Machine.{RowStep, RowSteps, done, more, RowSteps-trans}

module _ (p : Platform) where
  pub data JobsEvolve : List Job → List Job → Type 0 where
    none_left : JobsEvolve [] []
    one_more :
        {j k : Job} {js ks : List Job}
        → RowSteps p j k
        → JobsEvolve js ks
        → JobsEvolve (j ∷ js) (k ∷ ks)

  pub JobsEvolve-refl : (js : List Job) → JobsEvolve js js
  JobsEvolve-refl [] = none_left
  JobsEvolve-refl (j ∷ js) = one_more done (JobsEvolve-refl js)

  pub JobsEvolve-trans :
      {js ks ls : List Job} → JobsEvolve js ks → JobsEvolve ks ls → JobsEvolve js ls
  JobsEvolve-trans none_left none_left = none_left
  JobsEvolve-trans (one_more s a) (one_more t b) =
      one_more (RowSteps-trans p s t) (JobsEvolve-trans a b)

  pub record Evolves (old new : Db) : Type 0 where
    pub jobs : JobsEvolve old.jobs new.jobs
    pub added : List Event
    pub events : new.events ≡ old.events ++ added

  pub Evolves-refl : (db : Db) → Evolves db db
  Evolves-refl db = record {
    jobs = JobsEvolve-refl db.jobs;
    added = [];
    events = sym (append-nil db.events);
  }

  pub Evolves-trans : {a b c : Db} → Evolves a b → Evolves b c → Evolves a c
  Evolves-trans s t = record {
    jobs = JobsEvolve-trans s.jobs t.jobs;
    added = s.added ++ t.added;
    events = t.events ∙ ap (λ es. es ++ t.added) s.events ∙ append_assoc _ s.added t.added;
  }

  abbrev pub After {ℓ} : {A : Type ℓ} → Db → Result (A × Db) → Type 0
  After db (ok r) = Evolves db r.1
  After db (err e) = Unit

  pub record Evolving {ℓ} {A : Type ℓ} (m : Tx A) : Type 0 where
    pub evolves : (db : Db) → After db (m db)

  After-trans {ℓ} :
      {A : Type ℓ} {a b : Db} (r : Result (A × Db)) → Evolves a b → After b r → After a r
  After-trans (ok r) s t = Evolves-trans s t
  After-trans (err e) s t = tt

  bind-After {ℓ κ} :
      {A : Type ℓ} {B : Type κ} (db : Db) (r : Result (A × Db)) (f : A → Tx B)
      → After db r
      → ((a : A) → Evolving (f a))
      → After db (elim r [ ok x ↦ f x.0 x.1 | err e ↦ err e ])
  bind-After db (ok r) f s y = After-trans (f r.0 r.1) s ((y r.0).evolves r.1)
  bind-After db (err e) f s y = tt

  pub bind_rule {ℓ κ} :
      {A : Type ℓ} {B : Type κ} {m : Tx A} {f : A → Tx B}
      → Evolving m
      → ((a : A) → Evolving (f a))
      → Evolving (m >>= f)
  bind_rule {m = m} {f = f} x y = record { evolves = λ db. bind-After db (m db) f (x.evolves db) y }

  pub then_rule {ℓ} :
      {B : Type ℓ} {m : Tx (Unit {0})} {k : Tx B} → Evolving m → Evolving k → Evolving (m >> k)
  then_rule x y = bind_rule x (λ _. y)

  pub pure_rule {ℓ} : {A : Type ℓ} (a : A) → Evolving (pure a)
  pure_rule a = record { evolves = λ db. Evolves-refl db }

  pub raise_rule {ℓ} : {A : Type ℓ} (e : Error) → Evolving (raise {A = A} e)
  raise_rule e = record { evolves = λ db. tt }

  pub lift_rule {ℓ} : {A : Type ℓ} (r : Result A) → Evolving (lift r)
  lift_rule (ok a) = record { evolves = λ db. Evolves-refl db }
  lift_rule (err e) = record { evolves = λ db. tt }

  pub gets_rule {ℓ} : {A : Type ℓ} (f : Db → A) → Evolving (gets f)
  gets_rule f = record { evolves = λ db. Evolves-refl db }

  pub ensure_rule : (b : Bool) (e : Error) → Evolving (ensure b e)
  ensure_rule true e = pure_rule tt
  ensure_rule false e = raise_rule e

  pub if_rule {ℓ} :
      {A : Type ℓ} (b : Bool) {m k : Tx A} → Evolving m → Evolving k → Evolving (if b then m else k)
  if_rule true x y = x
  if_rule false x y = y

  pub null_rule {ℓ κ} :
      {A : Type ℓ} {B : Type κ} (o : Option B) {n : Tx A} {s : B → Tx A}
      → Evolving n
      → ((b : B) → Evolving (s b))
      → Evolving (when_null o n s)
  null_rule none x y = x
  null_rule (some b) x y = y b

  pub bump_published-Evolving : (at : Time) → Evolving (bump_published at)
  unfolding bump_published
  bump_published-Evolving at = record {
    evolves = λ db. record {
      jobs = JobsEvolve-refl db.jobs;
      added = [];
      events = sym (append-nil db.events);
    };
  }

  find-After :
      (db : Db) (o : Option Job)
      → After db (elim o [ none ↦ err authority_not_found | some j ↦ ok (j, db) ])
  find-After db none = tt
  find-After db (some j) = Evolves-refl db

  pub require_job_row-Evolving : (id : String) → Evolving (require_job_row id)
  unfolding require_job_row
  require_job_row-Evolving id = record { evolves = λ db. find-After db (find_job id db.jobs) }

  append-After :
      (db : Db) (r : Result String) (b : Bool) (e : String → Event)
      → After db (elim r [
        | err x ↦ err x
        | ok m ↦
            if b then err value_error else ok (tt {0}, record db { events = db.events ++ e m ∷ [] })
      ])
  append-After db (err x) b e = tt
  append-After db (ok m) true e = tt
  append-After db (ok m) false e = record {
    jobs = JobsEvolve-refl db.jobs;
    added = e m ∷ [];
    events = refl;
  }

  pub append_event-Evolving :
      (id : String) (at : Time) (level : EventLevel) (stage : Checkpoint) (event : EventType)
      (message : String) (details : List (String × Detail))
      → Evolving (append_event p id at level stage event message details)
  unfolding append_event
  append_event-Evolving id at level stage event message details = record {
    evolves = λ db. append-After db _ _ _;
  }

  update_rows-JobsEvolve :
      (where_ : Job → Bool) (set : Job → Job)
      → ((j : Job) → where_ j ≡ true → RowStep p j (set j))
      → (js : List Job) → JobsEvolve js (update_rows where_ set js)
  unfolding update_rows
  update_rows-JobsEvolve where_ set step [] = none_left
  update_rows-JobsEvolve where_ set step (j ∷ js) = elim (Bool-cases (where_ j)) [
    | inl hit ↦
        rw hit (one_more (more (step j hit) done) (update_rows-JobsEvolve where_ set step js))
    | inr miss ↦ rw miss (one_more done (update_rows-JobsEvolve where_ set step js))
  ]

  update-After :
      (db : Db) (b : Bool) (js : List Job)
      → JobsEvolve db.jobs js
      → After db (if b then ok (tt {0}, record db { jobs = js }) else err authority_conflict)
  update-After db true js s = record { jobs = s; added = []; events = sym (append-nil db.events) }
  update-After db false js s = tt

  -- One UPDATE whose guard permits a step of the state machine.
  pub update_job-Evolving :
      (id : String) {guard : Job → Bool} {set : Job → Job}
      → ((j : Job) → guard j ≡ true → RowStep p j (set j))
      → Evolving (update_job id guard set)
  unfolding update_job
  update_job-Evolving id {guard = guard} {set = set} step = record {
    evolves = λ db.
        update-After db _ _ (update_rows-JobsEvolve _ set (λ j h. step j (ground arith)) db.jobs);
  }

  transaction-After :
      {A : Type 0} (db : Db) (r : Result (A × Db)) → After db r → Evolves db (committed db r).1
  transaction-After db (ok r) s = s
  transaction-After db (err e) s = Evolves-refl db

  -- A whole transaction: where its body raises, the tables are those before it.
  pub transaction-Evolves :
      {A : Type 0} {m : Tx A} → Evolving m → (db : Db) → Evolves db (transaction m db).1
  transaction-Evolves {m = m} x db = transaction-After db (m db) (x.evolves db)
