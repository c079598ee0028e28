-- ===== src/Authority/Machine/Kept.antt =====
-- The steps of a job keep the CHECK constraints of `Constraints`.
use hubinet_ops.Prelude.{String, Bool, true, ◌&&◌, string_eq, ◌≡◌, arith, nat_eq}
use hubinet_ops.Models.{active, status_eq, checkpoint_eq, health_outcome_eq}
use hubinet_ops.Authority.Tables.{Time, Job}
use hubinet_ops.Authority.Rows.{set_rollback_intent}
use hubinet_ops.Authority.Rollback.{may_arm_rollback}
use hubinet_ops.Authority.Machine.{RowStep, RowSteps, done, more}
use hubinet_ops.Authority.Platform.{Platform}
use hubinet_ops.Authority.Machine.Constraints.{
  started_check, issue_checks, status_checks, snapshot_checks, mutation_checks, health_checks,
  rollback_checks, row_checks,
}

health_checks-started : (j : Job) → health_checks j ≡ true → started_check j ≡ true
health_checks-started j h = ground arith

and_parts :
    (i a b c d e : Bool)
    → (i && a && b && c && d && e) ≡ true
    → (i ≡ true) × (a ≡ true) × (b ≡ true) × (c ≡ true) × (d ≡ true) × (e ≡ true)
and_parts i a b c d e h = ground arith

pub row_checks_parts :
    (j : Job)
    → row_checks j ≡ true
    → (issue_checks j ≡ true)
      × (status_checks j ≡ true)
      × (snapshot_checks j ≡ true)
      × (mutation_checks j ≡ true)
      × (health_checks j ≡ true)
      × (rollback_checks j ≡ true)
unfolding row_checks
row_checks_parts j h =
    and_parts (issue_checks j) (status_checks j) (snapshot_checks j) (mutation_checks j)
      (health_checks j) (rollback_checks j) h

row_checks_whole :
    (j : Job)
    → issue_checks j ≡ true
    → status_checks j ≡ true
    → snapshot_checks j ≡ true
    → mutation_checks j ≡ true
    → health_checks j ≡ true
    → rollback_checks j ≡ true
    → row_checks j ≡ true
unfolding row_checks
row_checks_whole j i a b c d e = rw (i, a, b, c, d, e)

module _ (p : Platform) where
  active_lem : (j : Job) → may_arm_rollback p j ≡ true → j.status ≡ active
  active_lem j g = ground arith

  status_arm :
      (j : Job) (operation : String) (at : Time)
      → j.status ≡ active
      → status_checks j ≡ true
      → status_checks (set_rollback_intent operation at j) ≡ true
  status_arm j operation at s a = ground arith

  status_step :
      (j k : Job)
      → RowStep p j k
      → status_checks j ≡ true
      → started_check j ≡ true
      → status_checks k ≡ true
  status_step j k (RowStep.preflight g) a _ = ground arith
  status_step j k (RowStep.snapshot_intent o n t g) a _ = ground arith
  status_step j k (RowStep.snapshot_task u g) a _ = ground arith
  status_step j k (RowStep.snapshot_confirm t g) a _ = ground arith
  status_step j k (RowStep.mutation_intent o t d g) a _ = ground arith
  status_step j k (RowStep.mutation_complete t g) a _ = ground arith
  status_step j k (RowStep.health_start t g) a _ = ground arith
  status_step j k (RowStep.health_pass t r g) a b = ground arith
  status_step j k (RowStep.health_fail t g) a _ = ground arith
  status_step j k (RowStep.rollback_intent o t g) a _ = status_arm j o t (active_lem j g) a
  status_step j k (RowStep.rollback_task u g) a _ = ground arith
  status_step j k (RowStep.rollback_complete t r g) a _ = ground arith
  status_step j k (RowStep.block t r g) a _ = ground arith
  status_step j k (RowStep.interrupt t r g) a _ = ground arith

  issue_step : (j k : Job) → RowStep p j k → issue_checks j ≡ true → issue_checks k ≡ true
  issue_step j k (RowStep.preflight g) a = ground arith
  issue_step j k (RowStep.snapshot_intent o n t g) a = ground arith
  issue_step j k (RowStep.snapshot_task u g) a = ground arith
  issue_step j k (RowStep.snapshot_confirm t g) a = ground arith
  issue_step j k (RowStep.mutation_intent o t d g) a = ground arith
  issue_step j k (RowStep.mutation_complete t g) a = ground arith
  issue_step j k (RowStep.health_start t g) a = ground arith
  issue_step j k (RowStep.health_pass t r g) a = ground arith
  issue_step j k (RowStep.health_fail t g) a = ground arith
  issue_step j k (RowStep.rollback_intent o t g) a = ground arith
  issue_step j k (RowStep.rollback_task u g) a = ground arith
  issue_step j k (RowStep.rollback_complete t r g) a = ground arith
  issue_step j k (RowStep.block t r g) a = ground arith
  issue_step j k (RowStep.interrupt t r g) a = ground arith

  snapshot_step : (j k : Job) → RowStep p j k → snapshot_checks j ≡ true → snapshot_checks k ≡ true
  snapshot_step j k (RowStep.preflight g) a = ground arith
  snapshot_step j k (RowStep.snapshot_intent o n t g) a = ground arith
  snapshot_step j k (RowStep.snapshot_task u g) a = ground arith
  snapshot_step j k (RowStep.snapshot_confirm t g) a = ground arith
  snapshot_step j k (RowStep.mutation_intent o t d g) a = ground arith
  snapshot_step j k (RowStep.mutation_complete t g) a = ground arith
  snapshot_step j k (RowStep.health_start t g) a = ground arith
  snapshot_step j k (RowStep.health_pass t r g) a = ground arith
  snapshot_step j k (RowStep.health_fail t g) a = ground arith
  snapshot_step j k (RowStep.rollback_intent o t g) a = ground arith
  snapshot_step j k (RowStep.rollback_task u g) a = ground arith
  snapshot_step j k (RowStep.rollback_complete t r g) a = ground arith
  snapshot_step j k (RowStep.block t r g) a = ground arith
  snapshot_step j k (RowStep.interrupt t r g) a = ground arith

  mutation_step : (j k : Job) → RowStep p j k → mutation_checks j ≡ true → mutation_checks k ≡ true
  mutation_step j k (RowStep.preflight g) a = ground arith
  mutation_step j k (RowStep.snapshot_intent o n t g) a = ground arith
  mutation_step j k (RowStep.snapshot_task u g) a = ground arith
  mutation_step j k (RowStep.snapshot_confirm t g) a = ground arith
  mutation_step j k (RowStep.mutation_intent o t d g) a = ground arith
  mutation_step j k (RowStep.mutation_complete t g) a = ground arith
  mutation_step j k (RowStep.health_start t g) a = ground arith
  mutation_step j k (RowStep.health_pass t r g) a = ground arith
  mutation_step j k (RowStep.health_fail t g) a = ground arith
  mutation_step j k (RowStep.rollback_intent o t g) a = ground arith
  mutation_step j k (RowStep.rollback_task u g) a = ground arith
  mutation_step j k (RowStep.rollback_complete t r g) a = ground arith
  mutation_step j k (RowStep.block t r g) a = ground arith
  mutation_step j k (RowStep.interrupt t r g) a = ground arith

  health_step :
      (j k : Job)
      → RowStep p j k
      → health_checks j ≡ true
      → mutation_checks j ≡ true
      → health_checks k ≡ true
  health_step j k (RowStep.preflight g) a b = ground arith
  health_step j k (RowStep.snapshot_intent o n t g) a b = ground arith
  health_step j k (RowStep.snapshot_task u g) a b = ground arith
  health_step j k (RowStep.snapshot_confirm t g) a b = ground arith
  health_step j k (RowStep.mutation_intent o t d g) a b = ground arith
  health_step j k (RowStep.mutation_complete t g) a b = ground arith
  health_step j k (RowStep.health_start t g) a b = ground arith
  health_step j k (RowStep.health_pass t r g) a b = ground arith
  health_step j k (RowStep.health_fail t g) a b = ground arith
  health_step j k (RowStep.rollback_intent o t g) a b = ground arith
  health_step j k (RowStep.rollback_task u g) a b = ground arith
  health_step j k (RowStep.rollback_complete t r g) a b = ground arith
  health_step j k (RowStep.block t r g) a b = ground arith
  health_step j k (RowStep.interrupt t r g) a b = ground arith

  rollback_step : (j k : Job) → RowStep p j k → rollback_checks j ≡ true → rollback_checks k ≡ true
  rollback_step j k (RowStep.preflight g) a = ground arith
  rollback_step j k (RowStep.snapshot_intent o n t g) a = ground arith
  rollback_step j k (RowStep.snapshot_task u g) a = ground arith
  rollback_step j k (RowStep.snapshot_confirm t g) a = ground arith
  rollback_step j k (RowStep.mutation_intent o t d g) a = ground arith
  rollback_step j k (RowStep.mutation_complete t g) a = ground arith
  rollback_step j k (RowStep.health_start t g) a = ground arith
  rollback_step j k (RowStep.health_pass t r g) a = ground arith
  rollback_step j k (RowStep.health_fail t g) a = ground arith
  rollback_step j k (RowStep.rollback_intent o t g) a = ground arith
  rollback_step j k (RowStep.rollback_task u g) a = ground arith
  rollback_step j k (RowStep.rollback_complete t r g) a = ground arith
  rollback_step j k (RowStep.block t r g) a = ground arith
  rollback_step j k (RowStep.interrupt t r g) a = ground arith

  step_lem : (j k : Job) → RowStep p j k → row_checks j ≡ true → row_checks k ≡ true
  unfolding row_checks
  step_lem j k s h =
      let (i, a, b, c, d, e) = row_checks_parts j h in
      row_checks_whole k (issue_step j k s i) (status_step j k s a (health_checks-started j d))
        (snapshot_step j k s b) (mutation_step j k s c) (health_step j k s d c)
        (rollback_step j k s e)

  -- A job that passes `row_checks` still does after any steps.
  pub row_checks-RowSteps : {j k : Job} → RowSteps p j k → row_checks j ≡ true → row_checks k ≡ true
  row_checks-RowSteps done h = h
  row_checks-RowSteps (more s r) h = row_checks-RowSteps r (step_lem _ _ s h)
