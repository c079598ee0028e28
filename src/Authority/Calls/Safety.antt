-- ===== src/Authority/Calls/Safety.antt =====
-- The job table of `app/inventory/store.py` over histories of calls.
use hubinet_ops.Prelude.{
  ℕ, ◌≤◌, suc, String, true, false, List, [], ◌∷◌, ◌++◌, ◌==◌, some, ◌≡◌, ◌≢◌, sym, ap, subst, ◌∙◌,
  inl, inr, arith, All, Bool-cases, if◌then◌else◌, string_eq,
}
use hubinet_ops.Models.{active, status_eq}
use hubinet_ops.Authority.Platform.{Platform}
use hubinet_ops.Authority.Tables.{Db, Job, Event}
use hubinet_ops.Authority.Tx.{find_job}
use hubinet_ops.Authority.Machine.{RowSteps, done, more}
use hubinet_ops.Authority.Machine.Constraints.{row_checks}
use hubinet_ops.Authority.Machine.Kept.{row_checks-RowSteps}
use hubinet_ops.Authority.Machine.Progress.{
  Advances, step-active, RowSteps-Advances, RowSteps-terminal,
}
use hubinet_ops.Authority.Evolution.{JobsEvolve, none_left, one_more}
use hubinet_ops.Authority.Calls.{Call, replay}
use hubinet_ops.Authority.Calls.History.{replay-Evolves}

-- A row that passes `row_checks`.
abbrev pub IsChecked : Job → Type 0
IsChecked j = row_checks j ≡ true

-- The rows that `one_active_package_update_job_globally` counts.
abbrev pub active_count : List Job → ℕ
active_count [] = 0
active_count (j ∷ js) = if j.status == active then suc (active_count js) else active_count js

module _ (p : Platform) where
  pub jobs-IsChecked : {js ks : List Job} → JobsEvolve p js ks → All IsChecked js → All IsChecked ks
  jobs-IsChecked none_left h = tt
  jobs-IsChecked (one_more s r) h = (row_checks-RowSteps p s h.0, jobs-IsChecked r h.1)

  some_lem : {A : Type 0} (a b : A) → some a ≡ some b → a ≡ b
  some_lem a b h = cc

  find_hit :
      (id : String) (j : Job) (js : List Job)
      → (j.job_id == id) ≡ true
      → find_job id (j ∷ js) ≡ some j
  unfolding find_job
  find_hit id j js h = rw h

  find_miss :
      (id : String) (j : Job) (js : List Job)
      → (j.job_id == id) ≡ false
      → find_job id (j ∷ js) ≡ find_job id js
  unfolding find_job
  find_miss id j js h = rw h

  same_test : (id : String) {j k : Job} → RowSteps p j k → (k.job_id == id) ≡ (j.job_id == id)
  same_test id s = ap (λ x. x == id) (RowSteps-Advances p s).same_id

  pub jobs-find :
      {js ks : List Job} (id : String) (j : Job)
      → JobsEvolve p js ks
      → find_job id js ≡ some j
      → (k : Job) × (find_job id ks ≡ some k) × RowSteps p j k
  unfolding find_job
  jobs-find id j none_left h = cc
  jobs-find id j (one_more {j = a} {k = b} {js = js} {ks = ks} s r) h =
      elim (Bool-cases (a.job_id == id)) [
        | inl here ↦
            let e = some_lem a j (sym (find_hit id a js here) ∙ h) in
            (b, find_hit id b ks (same_test id s ∙ here), subst (λ x. RowSteps p x b) e s)
        | inr there ↦
            let (k, found, steps) = jobs-find id j r (sym (find_miss id a js there) ∙ h) in
            (k, find_miss id b ks (same_test id s ∙ there) ∙ found, steps)
      ]

  active_lem : {j k : Job} → RowSteps p j k → k.status ≡ active → j.status ≡ active
  active_lem done h = h
  active_lem (more s r) h = step-active p _ _ s

  pub jobs-active_count :
      {js ks : List Job} → JobsEvolve p js ks → active_count ks ≤ active_count js
  jobs-active_count none_left = omega arith
  jobs-active_count (one_more {j = a} {k = b} s r) =
      let rest = jobs-active_count r in let back = active_lem s in ground (arith, rest, back)

  -- In a table whose rows all pass `row_checks`, every row still does after any history of calls.
  -- `row_checks` are the table-level CHECK constraints of `package_update_jobs`, which relate the
  -- status, the checkpoint and the columns, and the column constraints on the stored verdict, the
  -- resource type and the number of probes; it has none of those on the shape of texts or on the
  -- other numbers.
  pub replay-IsChecked :
      {W A : Type 0} (cs : List (Call p W A)) (db : Db) (w : W)
      → All IsChecked db.jobs
      → All IsChecked (replay p W A cs db w).jobs
  replay-IsChecked cs db w h = jobs-IsChecked (replay-Evolves p cs db w).jobs h

  -- Over any history of calls, a job stays in the table under its id, the rank of its checkpoint
  -- does not fall, and `Advances` holds: the context, the resource type, the fingerprint of the plan
  -- and the fingerprint, revision and probe count of the health contract stay as they were issued;
  -- each operation id, task id and timestamp of the snapshot, the mutation, the health evaluation
  -- and the rollback, and the accepted digest, stays once it is set; the name and the intent time of
  -- the snapshot stay once its operation is set, and the verdict once its completion time is.
  pub replay-Advances :
      {W A : Type 0} (cs : List (Call p W A)) (db : Db) (w : W) (id : String) (j : Job)
      → find_job id db.jobs ≡ some j
      → (k : Job) × (find_job id (replay p W A cs db w).jobs ≡ some k) × Advances j k
  replay-Advances cs db w id j h =
      let (k, found, s) = jobs-find id j (replay-Evolves p cs db w).jobs h in
      (k, found, RowSteps-Advances p s)

  -- A job that is not active is, after any history of calls, exactly the row that it was.
  pub replay-terminal :
      {W A : Type 0} (cs : List (Call p W A)) (db : Db) (w : W) (id : String) (j : Job)
      → find_job id db.jobs ≡ some j
      → j.status ≢ active
      → find_job id (replay p W A cs db w).jobs ≡ some j
  replay-terminal cs db w id j h t =
      let (k, found, s) = jobs-find id j (replay-Evolves p cs db w).jobs h in
      found ∙ ap some (RowSteps-terminal p s t)

  -- Over any history of calls the event log is only appended to.
  pub replay-events :
      {W A : Type 0} (cs : List (Call p W A)) (db : Db) (w : W)
      → (added : List Event) × ((replay p W A cs db w).events ≡ db.events ++ added)
  replay-events cs db w = let e = replay-Evolves p cs db w in (e.added, e.events)

  -- No history of calls makes more jobs active, so where at most one job holds the global slot, at
  -- most one does afterwards.
  pub replay-active_count :
      {W A : Type 0} (cs : List (Call p W A)) (db : Db) (w : W)
      → active_count (replay p W A cs db w).jobs ≤ active_count db.jobs
  replay-active_count cs db w = jobs-active_count (replay-Evolves p cs db w).jobs
