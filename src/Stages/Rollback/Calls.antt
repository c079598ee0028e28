-- ===== src/Stages/Rollback/Calls.antt =====
-- What the rollback stage of `app/package_update_rollback.py` does to the tables, by the rules of its
-- constructs.
use hubinet_ops.Prelude.{String, Bool, true, false, not, ◌==◌, string_eq, Option, none, some}
use hubinet_ops.Authority.Platform.{Platform}
use hubinet_ops.Authority.Result.{rollback_submission_refused}
use hubinet_ops.Authority.Calls.{Call}
use hubinet_ops.Stages.Run.{Raised, authority, Environment, PackageUpdateJob, Stage}
use hubinet_ops.Stages.Task.{OperationOutcome, outcome_eq, TaskSettings}
use hubinet_ops.Stages.Reach.{Reaches, bind_reach, if_reach, null_reach, pure_reach}
use hubinet_ops.Stages.Task.Calls.{resolved-Reaches}
use hubinet_ops.Stages.Reach.Rules.{
  constructs, rollback_submission_reach, rollback_task_reach, rollback_uncertain_reach,
  rollback_failure_reach, rollback_completion_reach, rollback_seal_reach,
}
use hubinet_ops.Authority.Rollback.{RollbackRequest}
use hubinet_ops.Stages.Rollback.Records.{
  HostRollbackResult, RollbackHost, RollbackStageResult, read_inspection, uncertain,
  persist_known_task, apply_failed, on_completion, apply_completed,
}
use hubinet_ops.Stages.Rollback.{
  is_sealed, is_submission_permitted, apply_outcome, apply_host_result, finish, resolve_block,
  on_submission, submit, after_inspection, drive_rollback,
}

module _ (p : Platform) {W : Type 0} where
  -- The calls of a rollback stage.
  abbrev pub may_roll_back : (A : Type 0) → Call p W A → Bool
  may_roll_back A (Call.submit_rollback _ _) = true
  may_roll_back A (Call.rollback_task _ _ _) = true
  may_roll_back A (Call.rollback_uncertain _ _ _) = true
  may_roll_back A (Call.rollback_failure _ _ _) = true
  may_roll_back A (Call.rollback_complete _ _ _ _) = true
  may_roll_back A (Call.seal_rollback _ _ _) = true
  may_roll_back A _ = false

  -- An optional stage, where there is one.
  abbrev Admits : Option (Stage W RollbackStageResult) → Type 1
  Admits none = Unit
  Admits (some m) = Reaches p W may_roll_back m

  module _ (env : Environment W) where
    uncertain-Reaches : (id reason : String) → Reaches p W may_roll_back (uncertain p env id reason)
    unfolding uncertain
    uncertain-Reaches id reason = search (constructs, rollback_uncertain_reach) depth 40

    task-Reaches :
        (id : String) (upid : Option String)
        → Reaches p W may_roll_back (persist_known_task p env id upid)
    unfolding persist_known_task
    task-Reaches id upid = search (constructs, rollback_task_reach, uncertain-Reaches) depth 40

    failed-Reaches :
        (id : String) (r : HostRollbackResult) → Reaches p W may_roll_back (apply_failed p env id r)
    unfolding apply_failed
    failed-Reaches id r = search (constructs, rollback_failure_reach, uncertain-Reaches) depth 40

    incomplete-Reaches :
        (id : String) (e : Raised) → Reaches p W may_roll_back (on_completion p env id e)
    incomplete-Reaches id (authority e) = uncertain-Reaches _ _
    incomplete-Reaches id e = uncertain-Reaches _ _

    completed-Reaches :
        (id : String) (r : HostRollbackResult)
        → Reaches p W may_roll_back (apply_completed p env id r)
    unfolding apply_completed
    completed-Reaches id r =
        search (constructs, rollback_completion_reach, incomplete-Reaches, uncertain-Reaches) depth
          40

  module _ (env : Environment W) (host : RollbackHost W) (settings : TaskSettings) where
    outcome-Reaches :
        (block : Option (Stage W RollbackStageResult)) (j : PackageUpdateJob)
        (r : HostRollbackResult) (o : OperationOutcome)
        → Admits block
        → Reaches p W may_roll_back (apply_outcome p env host settings block j r o)
    unfolding apply_outcome
    outcome-Reaches none j r OperationOutcome.not_submitted h = uncertain-Reaches env _ _
    outcome-Reaches (some m) j r OperationOutcome.not_submitted h = h
    outcome-Reaches block j r OperationOutcome.uncertain h = uncertain-Reaches env _ _
    outcome-Reaches block j r OperationOutcome.failed h = failed-Reaches env _ r
    outcome-Reaches block j r OperationOutcome.completed h = completed-Reaches env _ r

    apply-Reaches :
        (block : Option (Stage W RollbackStageResult)) (j : PackageUpdateJob) (q : RollbackRequest)
        (r : HostRollbackResult)
        → Admits block
        → Reaches p W may_roll_back (apply_host_result p env host settings block j q r)
    unfolding apply_host_result
    apply-Reaches block j q r h =
        let outcome = outcome-Reaches block j r r.outcome h in
        if_reach p W may_roll_back (not (r.operation_id == q.rollback_operation_id))
          (uncertain-Reaches env _ _)
          (bind_reach p W may_roll_back (task-Reaches env _ r.task_upid) (λ conflict.
            null_reach p W may_roll_back conflict outcome
              (λ early. pure_reach p W may_roll_back early)))

    inspection-Reaches :
        (q : RollbackRequest) → Reaches p W may_roll_back (read_inspection env host q)
    unfolding read_inspection
    inspection-Reaches q = search constructs depth 40

    finish-Reaches :
        (block : Option (Stage W RollbackStageResult)) (j : PackageUpdateJob) (q : RollbackRequest)
        (r : HostRollbackResult)
        → Admits block
        → Reaches p W may_roll_back (finish p env host settings block j q r)
    unfolding finish
    finish-Reaches block j q r h =
        let applied = λ (x : HostRollbackResult). apply-Reaches block j q x h in
        search (constructs, task-Reaches, resolved-Reaches, inspection-Reaches, applied) depth 40

    block-Reaches :
        (j : PackageUpdateJob) (q : RollbackRequest)
        → Reaches p W may_roll_back (resolve_block p env host settings j q)
    unfolding resolve_block
    block-Reaches j q =
        let unsealed = λ (x : HostRollbackResult). finish-Reaches none j q x tt in
        search (constructs, rollback_seal_reach, uncertain-Reaches, unsealed) depth 40

    refused-Reaches :
        (j : PackageUpdateJob) (q : RollbackRequest) (e : Raised)
        → Reaches p W may_roll_back (on_submission p env host settings j q e)
    refused-Reaches j q (authority rollback_submission_refused) = block-Reaches j q
    refused-Reaches j q e = uncertain-Reaches env _ _

    submit-Reaches :
        (j : PackageUpdateJob) (q : RollbackRequest)
        → Reaches p W may_roll_back (submit p env host settings j q)
    unfolding submit
    submit-Reaches j q =
        let finished = λ (x : HostRollbackResult).
          finish-Reaches (some (resolve_block p env host settings j q)) j q x (block-Reaches j q) in
        search (constructs, rollback_submission_reach, refused-Reaches, finished) depth 40

    after-Reaches :
        (j : PackageUpdateJob) (q : RollbackRequest) (r : HostRollbackResult)
        → Reaches p W may_roll_back (after_inspection p env host settings j q r)
    unfolding after_inspection
    after-Reaches j q r =
        let finished =
          finish-Reaches (some (resolve_block p env host settings j q)) j q r (block-Reaches j q) in
        if_reach p W may_roll_back (is_sealed r.state) (block-Reaches j q) (
          if_reach p W may_roll_back (r.outcome == OperationOutcome.not_submitted)
            (block-Reaches j q)
            (if_reach p W may_roll_back (is_submission_permitted r.state) (submit-Reaches j q)
              finished))

    -- What follows the arming of a rollback makes no call that arms one.
    pub drive-Reaches :
        (j : PackageUpdateJob) → Reaches p W may_roll_back (drive_rollback p env host settings j)
    unfolding drive_rollback
    drive-Reaches j = search (constructs, inspection-Reaches, after-Reaches) depth 40
