-- ===== src/Authority/Tx/Reads.antt =====
-- Transactions of `app/inventory/authority.py` that only read: where one returns, the tables are those
-- before it.
use hubinet_ops.Prelude.{String, Bool, true, false, ◌≡◌, refl, ◌∙◌, Option, none, some}
use hubinet_ops.Authority.Result.{Error, Result, ok, err, authority_not_found}
use hubinet_ops.Authority.Tables.{Job, Db}
use hubinet_ops.Authority.Tx.{Tx, ◌>>=◌, ◌>>◌, pure, lift, ensure, find_job, require_job_row}

abbrev pub Unchanged : {A : Type 0} → Db → Result (A × Db) → Type 0
Unchanged db (ok r) = r.1 ≡ db
Unchanged db (err e) = Unit

pub record Reads {A : Type 0} (m : Tx A) : Type 0 where
  pub reads : (db : Db) → Unchanged db (m db)

after-Unchanged :
    {A : Type 0} {db new : Db} (r : Result (A × Db)) → new ≡ db → Unchanged new r → Unchanged db r
after-Unchanged (ok r) e h = h ∙ e
after-Unchanged (err x) e h = tt

bind-Unchanged :
    {A B : Type 0} (db : Db) (r : Result (A × Db)) (f : A → Tx B)
    → Unchanged db r
    → ((a : A) → Reads (f a))
    → Unchanged db (elim r [ ok x ↦ f x.0 x.1 | err e ↦ err e ])
bind-Unchanged db (ok r) f h y = after-Unchanged (f r.0 r.1) h ((y r.0).reads r.1)
bind-Unchanged db (err e) f h y = tt

pub bind_rule :
    {A B : Type 0} {m : Tx A} {f : A → Tx B} → Reads m → ((a : A) → Reads (f a)) → Reads (m >>= f)
bind_rule {m = m} {f = f} x y = record { reads = λ db. bind-Unchanged db (m db) f (x.reads db) y }

pub then_rule : {B : Type 0} {m : Tx (Unit {0})} {k : Tx B} → Reads m → Reads k → Reads (m >> k)
then_rule x y = bind_rule x (λ _. y)

pub pure_rule : {A : Type 0} (a : A) → Reads (pure a)
pure_rule a = record { reads = λ db. refl }

pub lift_rule : {A : Type 0} (r : Result A) → Reads (lift r)
lift_rule (ok a) = record { reads = λ db. refl }
lift_rule (err e) = record { reads = λ db. tt }

pub ensure_rule : (b : Bool) (e : Error) → Reads (ensure b e)
ensure_rule true e = record { reads = λ db. refl }
ensure_rule false e = record { reads = λ db. tt }

find-Unchanged :
    (db : Db) (o : Option Job)
    → Unchanged db (elim o [ none ↦ err authority_not_found | some j ↦ ok (j, db) ])
find-Unchanged db none = tt
find-Unchanged db (some j) = refl

pub require_job_row-Reads : (id : String) → Reads (require_job_row id)
unfolding require_job_row
require_job_row-Reads id = record { reads = λ db. find-Unchanged db (find_job id db.jobs) }

pub ruleset only_reads =
    (bind_rule, then_rule, pure_rule, lift_rule, ensure_rule, require_job_row-Reads)
