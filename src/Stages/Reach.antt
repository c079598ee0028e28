-- ===== src/Stages/Reach.antt =====
-- What a stage does to the tables: a sequence of the calls of `Authority.Calls` that a test admits,
-- with the host free to move between them. One rule for each construct of a stage.
pub mod Rules
use hubinet_ops.Prelude.{Bool, true, false, ◌≡◌, Option, none, some, if◌then◌else◌}
use hubinet_ops.Authority.Result.{Result, ok, err, is_authority_conflict}
use hubinet_ops.Authority.Platform.{Platform}
use hubinet_ops.Authority.Tables.{Db}
use hubinet_ops.Authority.Tx.{Tx}
use hubinet_ops.Authority.Calls.{Call, run_db}
use hubinet_ops.Stages.Run.{
  Raised, authority, Outcome, done, raised, Reply, answered, failed, Stage, ◌>>=◌, ◌>>◌, next, pure,
  raise, handled, attempt, on_conflict, of_result, of_hosted, of_read, calling, hosted, reading,
  of_reply, asking, observing, moving, when_null,
}

module _ (p : Platform) (W : Type 0) (may : (A : Type 0) → Call p W A → Bool) where
  pub data Reach : Db → Db → Type 1 where
    stay : {db : Db} → Reach db db
    step :
        {db new : Db} {A : Type 0} (c : Call p W A) (w : W)
        → may A c ≡ true
        → Reach (run_db p W A c db w) new
        → Reach db new

  pub Reach-trans : {a b c : Db} → Reach a b → Reach b c → Reach a c
  Reach-trans stay r = r
  Reach-trans (step c w h l) r = step c w h (Reach-trans l r)

  -- A stage that changes the tables by admitted calls alone, however it ends.
  pub record Reaches {A : Type 0} (m : Stage W A) : Type 1 where
    pub reaches : (db : Db) (w : W) → Reach db (m db w).1

  next-Reach :
      {A B : Type 0} (db : Db) (r : Outcome A × Db × W) (f : A → Stage W B)
      → Reach db r.1
      → ((a : A) → Reaches (f a))
      → Reach db (next f r).1
  next-Reach db (done a, db', w) f x y = Reach-trans x ((y a).reaches db' w)
  next-Reach db (raised e, db', w) f x y = x

  pub handled-Reach :
      {A B : Type 0} (db : Db) (r : Outcome A × Db × W) (f : A → Stage W B) (h : Raised → Stage W B)
      → Reach db r.1
      → ((a : A) → Reaches (f a))
      → ((e : Raised) → Reaches (h e))
      → Reach db (handled f h r).1
  handled-Reach db (done a, db', w) f h x y z = Reach-trans x ((y a).reaches db' w)
  handled-Reach db (raised e, db', w) f h x y z = Reach-trans x ((z e).reaches db' w)

  pub bind_reach :
      {A B : Type 0} {m : Stage W A} {f : A → Stage W B}
      → Reaches m
      → ((a : A) → Reaches (f a))
      → Reaches (m >>= f)
  bind_reach {m = m} {f = f} x y = record {
    reaches = λ db w. next-Reach db (m db w) f (x.reaches db w) y;
  }

  pub then_reach :
      {B : Type 0} {m : Stage W (Unit {0})} {k : Stage W B}
      → Reaches m
      → Reaches k
      → Reaches (m >> k)
  then_reach x y = bind_reach x (λ _. y)

  pub attempt_reach :
      {A B : Type 0} {m : Stage W A} {f : A → Stage W B} {h : Raised → Stage W B}
      → Reaches m
      → ((a : A) → Reaches (f a))
      → ((e : Raised) → Reaches (h e))
      → Reaches (attempt m f h)
  attempt_reach {m = m} {f = f} {h = h} x y z = record {
    reaches = λ db w. handled-Reach db (m db w) f h (x.reaches db w) y z;
  }

  pub pure_reach : {A : Type 0} (a : A) → Reaches (pure a)
  pure_reach a = record { reaches = λ db w. stay }

  pub raise_reach : {A : Type 0} (e : Raised) → Reaches (raise {A = A} e)
  raise_reach e = record { reaches = λ db w. stay }

  pub if_reach :
      {A : Type 0} (b : Bool) {m k : Stage W A}
      → Reaches m
      → Reaches k
      → Reaches (if b then m else k)
  if_reach true x y = x
  if_reach false x y = y

  pub null_reach :
      {A B : Type 0} (o : Option B) {n : Stage W A} {s : B → Stage W A}
      → Reaches n
      → ((b : B) → Reaches (s b))
      → Reaches (when_null o n s)
  null_reach none x y = x
  null_reach (some b) x y = y b

  pub conflict_reach :
      {B : Type 0} (e : Raised) {h : Stage W B} → Reaches h → Reaches (on_conflict e h)
  conflict_reach (authority e) x = if_reach (is_authority_conflict e) x (raise_reach _)
  conflict_reach (Raised.fault f) x = raise_reach _
  conflict_reach Raised.snapshot_error x = raise_reach _
  conflict_reach Raised.mutation_error x = raise_reach _
  conflict_reach Raised.rollback_error x = raise_reach _
  conflict_reach (Raised.health_error r) x = raise_reach _
  conflict_reach Raised.assertion x = raise_reach _
  conflict_reach Raised.stop_iteration x = raise_reach _
  conflict_reach Raised.out_of_fuel x = raise_reach _

  read-Reach : {A : Type 0} (db : Db) (w : W) (r : Result (A × Db)) → Reach db (of_read db w r).1
  read-Reach db w (ok r) = stay
  read-Reach db w (err e) = stay

  pub reading_reach : {A : Type 0} (m : Tx A) → Reaches (reading m)
  reading_reach m = record { reaches = λ db w. read-Reach db w (m db) }

  reply-Reach : {A : Type 0} (db : Db) (r : Reply A × W) → Reach db (of_reply db r).1
  reply-Reach db (answered a, w) = stay
  reply-Reach db (failed f, w) = stay

  pub asking_reach : {A : Type 0} (f : W → Reply A × W) → Reaches (asking f)
  asking_reach f = record { reaches = λ db w. reply-Reach db (f w) }

  pub observing_reach : {A : Type 0} (f : W → A) → Reaches (observing f)
  observing_reach f = record { reaches = λ db w. stay }

  pub moving_reach : {A : Type 0} (f : W → A × W) → Reaches (moving f)
  moving_reach f = record { reaches = λ db w. stay }

  result-Reach :
      {A : Type 0} (db : Db) (w : W) (r : Result A × Db) → Reach db r.1 → Reach db (of_result w r).1
  result-Reach db w (ok a, new) x = x
  result-Reach db w (err e, new) x = x

  pub calling_reach :
      {A B : Type 0} (f : Db → Result A × Db) (c : Call p W B)
      → may B c ≡ true
      → ((db : Db) (w : W) → run_db p W B c db w ≡ (f db).1)
      → Reaches (calling f)
  calling_reach f c h e = record {
    reaches = λ db w. result-Reach db w (f db) (rw (← e db w) (step c w h stay));
  }

  hosted-Reach :
      {A : Type 0} (db : Db) (r : Result A × Db × W) → Reach db r.1 → Reach db (of_hosted r).1
  hosted-Reach db (ok a, new, w) x = x
  hosted-Reach db (err e, new, w) x = x

  pub hosted_reach :
      {A B : Type 0} (f : Db → W → Result A × Db × W) (c : Call p W B)
      → may B c ≡ true
      → ((db : Db) (w : W) → run_db p W B c db w ≡ (f db w).1)
      → Reaches (hosted f)
  hosted_reach f c h e = record {
    reaches = λ db w. hosted-Reach db (f db w) (rw (← e db w) (step c w h stay));
  }

module _ (p : Platform) (W : Type 0)
    {some_calls more_calls : (A : Type 0) → Call p W A → Bool} where
  pub Reach-mono :
      ((A : Type 0) (c : Call p W A) → some_calls A c ≡ true → more_calls A c ≡ true)
      → {a b : Db} → Reach p W some_calls a b
      → Reach p W more_calls a b
  Reach-mono h stay = stay
  Reach-mono h (step c w admitted r) = step c w (h _ c admitted) (Reach-mono h r)

  pub Reaches-mono :
      ((A : Type 0) (c : Call p W A) → some_calls A c ≡ true → more_calls A c ≡ true)
      → {A : Type 0} {m : Stage W A} → Reaches p W some_calls m
      → Reaches p W more_calls m
  Reaches-mono h x = record { reaches = λ db w. Reach-mono h (x.reaches db w) }
