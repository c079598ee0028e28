-- ===== src/Authority/Tx/Sequences.antt =====
-- The sequence numbers that `_append_package_update_job_event` of `app/inventory/authority.py` gives.
use hubinet_ops.Prelude.{◌+◌, ◌≤◌, ◌<◌, String, List, [], ◌∷◌, ◌++◌, ◌≡◌, refl, arith, string_eq}
use mathlib.Core.List.{Memᴰ}
use text.Mathlib.TextEquality.{eq_iff}
use hubinet_ops.Models.{EventLevel, EventType, Checkpoint}
use hubinet_ops.Authority.Platform.{Platform}
use hubinet_ops.Authority.Result.{ok}
use hubinet_ops.Authority.Checks.{require_text}
use hubinet_ops.Authority.Tables.{Time, Event, Detail, Db}
use hubinet_ops.Authority.Tx.{last_sequence, append_event}

last_lem :
    (id : String) (es : List Event) (e : Event)
    → Memᴰ e es
    → e.job_id ≡ id
    → e.sequence ≤ last_sequence id es
unfolding last_sequence
last_lem id [] e m h = elim m [ ]
last_lem id (x ∷ es) e (Memᴰ.head q) h = ground (arith, eq_iff x.job_id id)
last_lem id (x ∷ es) e (Memᴰ.tail m) h = let rest = last_lem id es e m h in ground arith

module _ (p : Platform) where
  abbrev new_event :
      String
      → Time
      → EventLevel
      → Checkpoint
      → EventType
      → String
      → List (String × Detail)
      → Db
      → Event
  new_event id at level stage type message details db = record {
    job_id = id;
    sequence = last_sequence id db.events + 1;
    created_at = at;
    level = level;
    stage = stage;
    event_type = type;
    message = message;
    details = details;
  }

  -- An event that is appended for a job has the job's id and a sequence number above that of each
  -- event that the job had.
  pub append_event-sequence :
      (id : String) (at : Time) (level : EventLevel) (stage : Checkpoint) (type : EventType)
      (message : String) (details : List (String × Detail)) (db new : Db)
      → append_event p id at level stage type message details db ≡ ok (tt, new)
      → (e : Event) × (new.events ≡ db.events ++ e ∷ [])
        × (e.job_id ≡ id)
        × ((x : Event) → Memᴰ x db.events → x.job_id ≡ id → x.sequence < e.sequence)
  unfolding append_event require_text
  append_event-sequence id at level stage type message details db new h = (
    new_event id at level stage type message details db,
    ground arith,
    refl,
    λ x m same. let bound = last_lem id db.events x m same in omega (arith, bound),
  )
