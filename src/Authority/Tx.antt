-- ===== src/Authority/Tx.antt =====
-- A writer transaction of `InventoryAuthorityStore._transaction`, and the statements on the job
-- tables that the transitions share. The body runs on the tables and may raise; what it wrote is
-- kept only if it returns.
pub mod Reads
pub mod Sequences
use hubinet_ops.Prelude.{
  ℕ, suc, ◌+◌, String, Bool, true, false, ◌&&◌, Option, none, some, List, [], ◌∷◌, ◌++◌, ◌==◌,
  string_eq, ltb, leb, nat_eq, if◌then◌else◌,
}
use hubinet_ops.Models.{Checkpoint, EventLevel, EventType}
use hubinet_ops.Authority.Result.{
  Error, Result, ok, err, authority_conflict, authority_not_found, value_error,
}
use hubinet_ops.Authority.Platform.{Platform}
use hubinet_ops.Authority.Checks.{require_text}
use hubinet_ops.Authority.Tables.{Time, Job, Event, Detail, Db}

abbrev pub Tx {ℓ} : Type ℓ → Type ℓ
Tx A = Db → Result (A × Db)

infixl 5 ◌>>=◌ ◌>>◌
abbrev pub ◌>>=◌ {ℓ κ} : {A : Type ℓ} {B : Type κ} → Tx A → (A → Tx B) → Tx B
◌>>=◌ m f db = elim (m db) [ ok r ↦ f r.0 r.1 | err e ↦ err e ]

abbrev pub ◌>>◌ {ℓ} : {B : Type ℓ} → Tx (Unit {0}) → Tx B → Tx B
m >> k = m >>= λ _. k

abbrev pub pure {ℓ} : {A : Type ℓ} → A → Tx A
pure a db = ok (a, db)

abbrev pub raise {ℓ} : {A : Type ℓ} → Error → Tx A
raise e db = err e

abbrev pub lift {ℓ} : {A : Type ℓ} → Result A → Tx A
lift r db = elim r [ ok a ↦ ok (a, db) | err e ↦ err e ]

abbrev pub gets {ℓ} : {A : Type ℓ} → (Db → A) → Tx A
gets f db = ok (f db, db)

abbrev pub ensure : Bool → Error → Tx (Unit {0})
ensure true e = pure tt
ensure false e = raise e

-- `if value is None: ... else: ...`
abbrev pub when_null {ℓ κ} : {A : Type ℓ} {B : Type κ} → Option B → Tx A → (B → Tx A) → Tx A
when_null none absent present = absent
when_null (some b) absent present = present b

-- BEGIN IMMEDIATE, then COMMIT, or ROLLBACK where the body raises.
abbrev pub committed {ℓ} : {A : Type ℓ} → Db → Result (A × Db) → Result A × Db
committed db (ok r) = (ok r.0, r.1)
committed db (err e) = (err e, db)

abbrev pub transaction {ℓ} : {A : Type ℓ} → Tx A → Db → Result A × Db
transaction m db = committed db (m db)

unfoldable pub find_job : String → List Job → Option Job
find_job id [] = none
find_job id (j ∷ js) = if j.job_id == id then some j else find_job id js

-- `UPDATE ... WHERE`: the rows after it, and how many it changed.
unfoldable pub update_rows : (Job → Bool) → (Job → Job) → List Job → List Job
update_rows where_ set [] = []
update_rows where_ set (j ∷ js) = (if where_ j then set j else j) ∷ update_rows where_ set js

unfoldable pub row_count : (Job → Bool) → List Job → ℕ
row_count where_ [] = 0
row_count where_ (j ∷ js) = if where_ j then suc (row_count where_ js) else row_count where_ js

-- `_require_package_update_job_row`
unfoldable pub require_job_row : String → Tx Job
unfolding find_job
require_job_row id db = elim (find_job id db.jobs) [
  | none ↦ err authority_not_found
  | some j ↦ ok (j, db)
]

-- One UPDATE of `package_update_jobs` that must change exactly one row.
unfoldable pub update_job : String → (Job → Bool) → (Job → Job) → Tx (Unit {0})
unfolding update_rows row_count
update_job id guard set db =
    if row_count (λ j. j.job_id == id && guard j) db.jobs == 1
    then ok (tt, record db { jobs = update_rows (λ j. j.job_id == id && guard j) set db.jobs })
    else err authority_conflict

-- `COALESCE(MAX(sequence), 0)` over one job's events.
unfoldable pub last_sequence : String → List Event → ℕ
last_sequence id [] = 0
last_sequence id (e ∷ es) =
    let rest = last_sequence id es in
    if e.job_id == id && leb rest e.sequence then e.sequence else rest

module _ (p : Platform) where
  -- `_append_package_update_job_event`
  unfoldable pub append_event :
      String
      → Time
      → EventLevel
      → Checkpoint
      → EventType
      → String
      → List (String × Detail)
      → Tx (Unit {0})
  unfolding last_sequence
  append_event id created_at level stage event_type message details db =
      elim (require_text p message 500) [
        | err e ↦ err e
        | ok canonical_message ↦
            if ltb 4000 (p.json_length details)
            then err value_error
            else ok (
              tt,
              record db {
                events =
                    db.events
                    ++ record {
                      job_id = id;
                      sequence = last_sequence id db.events + 1;
                      created_at = created_at;
                      level = level;
                      stage = stage;
                      event_type = event_type;
                      message = canonical_message;
                      details = details;
                    }
                      ∷ [];
              },
            )
      ]

-- `_bump_global_revisions(inventory_changed=False, published_changed=True)`. The table
-- `backend_instance` has its one row by construction.
unfoldable pub bump_published : Time → Tx (Unit {0})
bump_published at db = ok (
  tt,
  record db { published_state_revision = db.published_state_revision + 1; published_at = at },
)
