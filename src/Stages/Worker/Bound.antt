-- ===== src/Stages/Worker/Bound.antt =====
-- The bound on the stage transitions of one cycle of `app/package_update_worker.py`,
-- `_MAX_STAGE_TRANSITIONS_PER_CYCLE`.
use hubinet_ops.Prelude.{
  ℕ, zero, suc, ◌+◌, ◌≤◌, ◌<◌, String, Bool, true, false, not, Option, none, some, ◌≡◌, ◌∙◌, ◌⊎◌,
  refl, inl, inr, ap, arith, ◌==◌, if◌then◌else◌,
}
use mathlib.Core.Path.{fun_ext}
use hubinet_ops.Stages.Run.{pure, when_null}
use hubinet_ops.Models.{active, status_eq, Checkpoint, checkpoint_eq, checkpoint_rank}
use hubinet_ops.Authority.Platform.{Platform}
use hubinet_ops.Stages.Run.{Environment, PackageUpdateJob, Stage, attempt, reading}
use hubinet_ops.Stages.Reads.{read_job}
use hubinet_ops.Stages.Worker.Cycle.{WorkerStages, WorkerCycle}
use hubinet_ops.Stages.Worker.{
  max_stage_transitions, not_after, visit, step_at, stopped, terminal, on_gone, on_step, drive,
}

checkpoint_rank-le : (c : Checkpoint) → checkpoint_rank c ≤ 10
checkpoint_rank-le c = ground arith

checkpoint_rank-positive : (c : Checkpoint) → 0 < checkpoint_rank c
checkpoint_rank-positive c = ground arith

rank_last : (c : Checkpoint) → 10 ≤ checkpoint_rank c → c ≡ Checkpoint.rollback_completed
rank_last c h = ground arith

-- The rank of the checkpoint that was visited last, 0 before the first visit.
abbrev rank_before : Option ℕ → ℕ
rank_before none = 0
rank_before (some rank) = rank

le_or_lt : (m n : ℕ) → (m ≤ n) ⊎ (n < m)
le_or_lt m n = ground arith

suc_add : (m n : ℕ) → suc m + n ≡ suc (m + n)
suc_add m n = omega arith

-- Two branches that only differ behind a test that holds, or not at all, are equal.
guarded {ℓ} :
    {A : Type ℓ} (s t : Bool) (x y a b : A)
    → t ≡ true
    → (if s then x else if t then y else a) ≡ (if s then x else if t then y else b)
guarded true t x y a b h = refl
guarded false true x y a b h = refl
guarded false false x y a b h = ground arith

last_branch {ℓ} :
    {A : Type ℓ} (s t : Bool) (x y a b : A)
    → a ≡ b
    → (if s then x else if t then y else a) ≡ (if s then x else if t then y else b)
last_branch s t x y a b h = ap (λ z. if s then x else if t then y else z) h

module _ (p : Platform) {W : Type 0} (env : Environment W) (stages : WorkerStages W) where
  not_after_lem :
      (rank : ℕ) (previous : Option ℕ)
      → 0 < rank
      → rank ≤ rank_before previous
      → not_after p env stages rank previous ≡ true
  not_after_lem rank none positive h = ground arith
  not_after_lem rank (some previous) positive h = ground arith

  -- A job whose checkpoint has not advanced stops the loop, whatever would follow.
  visit_stuck :
      (previous : Option ℕ) (a b : Stage W WorkerCycle) (j : PackageUpdateJob)
      → checkpoint_rank j.row.checkpoint ≤ rank_before previous
      → visit p env stages previous a j ≡ visit p env stages previous b j
  unfolding visit
  visit_stuck previous a b j h =
      guarded (not (j.row.status == active))
        (not_after p env stages (checkpoint_rank j.row.checkpoint) previous)
        (terminal p env stages j) (stopped p env stages (some j) "no_automatic_continuation")
        (attempt (step_at p env stages j j.row.checkpoint) (λ outcome. when_null outcome a pure)
          (on_step p env stages j))
        (attempt (step_at p env stages j j.row.checkpoint) (λ outcome. when_null outcome b pure)
          (on_step p env stages j))
        (not_after_lem _ previous (checkpoint_rank-positive j.row.checkpoint) h)

  step_last :
      (a b : Stage W WorkerCycle) (j : PackageUpdateJob) (c : Checkpoint)
      → c ≡ Checkpoint.rollback_completed
      → attempt
          (step_at p env stages j c)
          (λ outcome. when_null outcome a pure)
          (on_step p env stages j)
        ≡ attempt
            (step_at p env stages j c)
            (λ outcome. when_null outcome b pure)
            (on_step p env stages j)
  unfolding step_at stopped
  step_last a b j c h = rw h

  -- So does a job at the last checkpoint.
  visit_last :
      (previous : Option ℕ) (a b : Stage W WorkerCycle) (j : PackageUpdateJob)
      → j.row.checkpoint ≡ Checkpoint.rollback_completed
      → visit p env stages previous a j ≡ visit p env stages previous b j
  unfolding visit
  visit_last previous a b j h =
      last_branch (not (j.row.status == active))
        (not_after p env stages (checkpoint_rank j.row.checkpoint) previous)
        (terminal p env stages j) (stopped p env stages (some j) "no_automatic_continuation") _ _
        (step_last a b j j.row.checkpoint h)

  -- Hence the rest of the loop matters only after an advance to an earlier checkpoint.
  visit_again :
      (previous : Option ℕ) (rest rest' : ℕ → Stage W WorkerCycle) (j : PackageUpdateJob)
      → ((rank : ℕ) → rank_before previous < rank → rank < 10 → rest rank ≡ rest' rank)
      → visit p env stages previous (rest (checkpoint_rank j.row.checkpoint)) j
        ≡ visit p env stages previous (rest' (checkpoint_rank j.row.checkpoint)) j
  visit_again previous rest rest' j h =
      elim (le_or_lt (checkpoint_rank j.row.checkpoint) (rank_before previous)) [
        | inl stuck ↦ visit_stuck previous _ _ j stuck
        | inr advanced ↦ elim (le_or_lt 10 (checkpoint_rank j.row.checkpoint)) [
          | inl last ↦ visit_last previous _ _ j (rank_last _ last)
          | inr earlier ↦ ap (λ again. visit p env stages previous again j) (h _ advanced earlier)
        ]
      ]

  -- With transitions left for the checkpoints that follow the one visited last, and one of them at
  -- least, further transitions change nothing.
  drive_enough :
      (left more : ℕ) (previous : Option ℕ) (job_id : String)
      → 0 < left
      → 10 ≤ rank_before previous + left
      → drive p env stages (left + more) previous job_id ≡ drive p env stages left previous job_id
  unfolding drive
  drive_enough zero more previous job_id positive enough = elim positive [ ]
  drive_enough (suc left) more previous job_id positive enough =
      ap (λ n. drive p env stages n previous job_id) (suc_add left more)
      ∙ ap (λ f. attempt (reading (read_job p job_id)) f (on_gone p env stages job_id))
          (fun_ext (λ j.
            visit_again previous (λ rank. drive p env stages (left + more) (some rank) job_id)
              (λ rank. drive p env stages left (some rank) job_id) j
              (λ rank advanced earlier.
                drive_enough left more (some rank) job_id (omega arith) (omega arith))))

  -- The loop of a cycle stops by itself within the ten transitions it is given: with any number of
  -- transitions more, from any tables and any state of the hosts, it does and answers the same.
  pub drive_within_bound :
      (more : ℕ) (job_id : String)
      → drive p env stages (max_stage_transitions + more) none job_id
        ≡ drive p env stages max_stage_transitions none job_id
  drive_within_bound more job_id =
      drive_enough max_stage_transitions more none job_id (omega arith) (omega arith)
