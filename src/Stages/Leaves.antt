-- ===== src/Stages/Leaves.antt =====
-- What a stage does to the host: a quantity of the world, such as the number of package commands
-- that ran, that none of its host calls changes. One rule for each construct of a stage.
use hubinet_ops.Prelude.{
  ℕ, String, Bool, true, false, ◌≡◌, refl, ap, ◌∙◌, Option, none, some, if◌then◌else◌,
}
use hubinet_ops.Authority.Result.{Result, ok, err, is_authority_conflict}
use hubinet_ops.Authority.Tables.{Db}
use hubinet_ops.Authority.Tx.{Tx}
use hubinet_ops.Authority.Host.{
  Host, Sealed, is_sealed_as, after_block, after_sealed, after_seal, after_guards, release,
}
use hubinet_ops.Stages.Run.{
  Raised, authority, Outcome, done, raised, Reply, answered, failed, Stage, ◌>>=◌, ◌>>◌, next, pure,
  raise, handled, attempt, on_conflict, of_result, of_hosted, of_read, calling, hosted, reading,
  of_reply, asking, observing, moving, when_null,
}

module _ {W : Type 0} (q : W → ℕ) where
  pub record Leaves {A : Type 0} (m : Stage W A) : Type 0 where
    pub leaves : (db : Db) (w : W) → q (m db w).2 ≡ q w

  next-q :
      {A B : Type 0} (w : W) (r : Outcome A × Db × W) (f : A → Stage W B)
      → q r.2 ≡ q w
      → ((a : A) → Leaves (f a))
      → q (next f r).2 ≡ q w
  next-q w (done a, db, v) f e y = (y a).leaves db v ∙ e
  next-q w (raised x, db, v) f e y = e

  handled-q :
      {A B : Type 0} (w : W) (r : Outcome A × Db × W) (f : A → Stage W B) (h : Raised → Stage W B)
      → q r.2 ≡ q w
      → ((a : A) → Leaves (f a))
      → ((x : Raised) → Leaves (h x))
      → q (handled f h r).2 ≡ q w
  handled-q w (done a, db, v) f h e y z = (y a).leaves db v ∙ e
  handled-q w (raised x, db, v) f h e y z = (z x).leaves db v ∙ e

  pub bind_rule :
      {A B : Type 0} {m : Stage W A} {f : A → Stage W B}
      → Leaves m
      → ((a : A) → Leaves (f a))
      → Leaves (m >>= f)
  bind_rule {m = m} {f = f} x y = record { leaves = λ db w. next-q w (m db w) f (x.leaves db w) y }

  pub then_rule :
      {B : Type 0} {m : Stage W (Unit {0})} {k : Stage W B} → Leaves m → Leaves k → Leaves (m >> k)
  then_rule x y = bind_rule x (λ _. y)

  pub attempt_rule :
      {A B : Type 0} {m : Stage W A} {f : A → Stage W B} {h : Raised → Stage W B}
      → Leaves m
      → ((a : A) → Leaves (f a))
      → ((e : Raised) → Leaves (h e))
      → Leaves (attempt m f h)
  attempt_rule {m = m} {f = f} {h = h} x y z = record {
    leaves = λ db w. handled-q w (m db w) f h (x.leaves db w) y z;
  }

  pub pure_rule : {A : Type 0} (a : A) → Leaves (pure a)
  pure_rule a = record { leaves = λ db w. refl }

  pub raise_rule : {A : Type 0} (e : Raised) → Leaves (raise {A = A} e)
  raise_rule e = record { leaves = λ db w. refl }

  pub if_rule :
      {A : Type 0} (b : Bool) {m k : Stage W A} → Leaves m → Leaves k → Leaves (if b then m else k)
  if_rule true x y = x
  if_rule false x y = y

  pub null_rule :
      {A B : Type 0} (o : Option B) {n : Stage W A} {s : B → Stage W A}
      → Leaves n
      → ((b : B) → Leaves (s b))
      → Leaves (when_null o n s)
  null_rule none x y = x
  null_rule (some b) x y = y b

  pub conflict_rule :
      {B : Type 0} (e : Raised) {h : Stage W B} → Leaves h → Leaves (on_conflict e h)
  conflict_rule (authority e) x = if_rule (is_authority_conflict e) x (raise_rule _)
  conflict_rule (Raised.fault f) x = raise_rule _
  conflict_rule Raised.snapshot_error x = raise_rule _
  conflict_rule Raised.mutation_error x = raise_rule _
  conflict_rule Raised.rollback_error x = raise_rule _
  conflict_rule (Raised.health_error r) x = raise_rule _
  conflict_rule Raised.assertion x = raise_rule _
  conflict_rule Raised.stop_iteration x = raise_rule _
  conflict_rule Raised.out_of_fuel x = raise_rule _

  read-q : {A : Type 0} (db : Db) (w : W) (r : Result (A × Db)) → q (of_read db w r).2 ≡ q w
  read-q db w (ok r) = refl
  read-q db w (err e) = refl

  pub reading_rule : {A : Type 0} (m : Tx A) → Leaves (reading m)
  reading_rule m = record { leaves = λ db w. read-q db w (m db) }

  result-q : {A : Type 0} (w : W) (r : Result A × Db) → q (of_result w r).2 ≡ q w
  result-q w (ok a, db) = refl
  result-q w (err e, db) = refl

  pub calling_rule : {A : Type 0} (f : Db → Result A × Db) → Leaves (calling f)
  calling_rule f = record { leaves = λ db w. result-q w (f db) }

  reply-q :
      {A : Type 0} (db : Db) (w : W) (r : Reply A × W) → q r.1 ≡ q w → q (of_reply db r).2 ≡ q w
  reply-q db w (answered a, v) e = e
  reply-q db w (failed f, v) e = e

  pub asking_rule :
      {A : Type 0} (f : W → Reply A × W) → ((w : W) → q (f w).1 ≡ q w) → Leaves (asking f)
  asking_rule f h = record { leaves = λ db w. reply-q db w (f w) (h w) }

  pub observing_rule : {A : Type 0} (f : W → A) → Leaves (observing f)
  observing_rule f = record { leaves = λ db w. refl }

  pub moving_rule : {A : Type 0} (f : W → A × W) → ((w : W) → q (f w).1 ≡ q w) → Leaves (moving f)
  moving_rule f h = record { leaves = λ db w. h w }

  hosted-q : {A : Type 0} (w : W) (r : Result A × Db × W) → q r.2 ≡ q w → q (of_hosted r).2 ≡ q w
  hosted-q w (ok a, db, v) e = e
  hosted-q w (err x, db, v) e = e

  block-q :
      {A : Type 0} (old : Db) (a : A) (v : W) (r : Result ((Unit {0}) × Db))
      → (after_block old a v r).2 ≡ v
  block-q old a v (ok r) = refl
  block-q old a v (err e) = refl

  sealed-q :
      {A : Type 0} (b : Bool) (block : String → Tx (Unit {0})) (old new : Db) (reason : String)
      (a : A) (v : W)
      → (after_sealed b block old new reason a v).2 ≡ v
  sealed-q true block old new reason a v = block-q old a v (block reason new)
  sealed-q false block old new reason a v = refl

  seal-q :
      {S A : Type 0} (is_sealed : S → Bool) (block : String → Tx (Unit {0})) (old new : Db) (w : W)
      (r : Result (Sealed S A) × W)
      → q r.1 ≡ q w
      → q (after_seal is_sealed block old new r).2 ≡ q w
  seal-q is_sealed block old new w (err e, v) h = h
  seal-q is_sealed block old new w (ok answer, v) h =
      ap q (
        sealed-q (is_sealed_as is_sealed answer.state) block old new answer.reason answer.evidence
          v)
      ∙ h

  guards-q :
      {S A : Type 0} (is_sealed : S → Bool) (block : String → Tx (Unit {0}))
      (seal : Host W (Sealed S A)) (db : Db) (w : W) (r : Result ((Unit {0}) × Db))
      → ((w : W) → q (seal w).1 ≡ q w)
      → q (after_guards is_sealed block seal db w r).2 ≡ q w
  guards-q is_sealed block seal db w (err e) h = refl
  guards-q is_sealed block seal db w (ok r) h = seal-q is_sealed block db r.1 w (seal w) (h w)

  -- A seal of the host under a transaction is one call of the host.
  pub release_rule :
      {S A : Type 0} (guards : Tx (Unit {0})) (is_sealed : S → Bool)
      (block : String → Tx (Unit {0})) (seal : Host W (Sealed S A))
      → ((w : W) → q (seal w).1 ≡ q w)
      → Leaves (hosted (release guards is_sealed block seal))
  unfolding release
  release_rule guards is_sealed block seal h = record {
    leaves = λ db w. hosted-q w _ (guards-q is_sealed block seal db w (guards db) h);
  }

pub ruleset keeping = (
  bind_rule, then_rule, attempt_rule, pure_rule, raise_rule, if_rule, null_rule, conflict_rule,
  reading_rule, calling_rule, observing_rule,
)
