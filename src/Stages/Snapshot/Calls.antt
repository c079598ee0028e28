-- ===== src/Stages/Snapshot/Calls.antt =====
-- What the snapshot stage of `app/package_update_snapshot.py` does to the tables, by the rules of its
-- constructs.
use hubinet_ops.Prelude.{String, Bool, true, false, not, ◌==◌, string_eq, Option, none, some, List}
use hubinet_ops.Authority.Platform.{Platform}
use hubinet_ops.Authority.Result.{snapshot_submission_refused}
use hubinet_ops.Authority.Ownership.{ObservedSnapshot}
use hubinet_ops.Authority.Calls.{Call}
use hubinet_ops.Stages.Run.{Raised, authority, Environment, PackageUpdateJob, Stage}
use hubinet_ops.Stages.Task.{OperationOutcome, outcome_eq, TaskSettings}
use hubinet_ops.Stages.Reach.{Reaches, bind_reach, if_reach, null_reach, pure_reach}
use hubinet_ops.Stages.Task.Calls.{resolved-Reaches}
use hubinet_ops.Stages.Reach.Rules.{
  constructs, preflight_reach, snapshot_intent_reach, snapshot_submission_reach,
  snapshot_task_reach, snapshot_uncertain_reach, snapshot_confirm_reach, snapshot_stale_reach,
  snapshot_failure_reach, snapshot_seal_reach,
}
use hubinet_ops.Stages.Snapshot.Records.{
  SnapshotRequest, HostSnapshotResult, SnapshotHost, SnapshotStageResult, read_inspection,
  uncertain, persist_known_task, apply_failed, confirm_again, on_confirmation, apply_completed,
}
use hubinet_ops.Stages.Snapshot.{
  is_sealed, is_submission_permitted, apply_outcome, apply_host_result, finish, resolve_block,
  on_submission, submit, after_inspection, prepare, drive_snapshot, ensure_job_owned_snapshot,
}

module _ (p : Platform) {W : Type 0} where
  -- The calls of a snapshot stage.
  abbrev pub may_snapshot : (A : Type 0) → Call p W A → Bool
  may_snapshot A (Call.preflight _ _) = true
  may_snapshot A (Call.snapshot_intent _ _) = true
  may_snapshot A (Call.submit_snapshot _ _ _) = true
  may_snapshot A (Call.snapshot_task _ _ _) = true
  may_snapshot A (Call.snapshot_uncertain _ _ _) = true
  may_snapshot A (Call.snapshot_confirm _ _ _) = true
  may_snapshot A (Call.snapshot_stale _ _ _) = true
  may_snapshot A (Call.snapshot_failure _ _ _ _) = true
  may_snapshot A (Call.seal_snapshot _ _ _) = true
  may_snapshot A _ = false

  -- An optional stage, where there is one.
  abbrev Admits : Option (Stage W SnapshotStageResult) → Type 1
  Admits none = Unit
  Admits (some m) = Reaches p W may_snapshot m

  module _ (env : Environment W) where
    uncertain-Reaches : (id reason : String) → Reaches p W may_snapshot (uncertain p env id reason)
    unfolding uncertain
    uncertain-Reaches id reason = search (constructs, snapshot_uncertain_reach) depth 40

    task-Reaches :
        (id : String) (upid : Option String)
        → Reaches p W may_snapshot (persist_known_task p env id upid)
    unfolding persist_known_task
    task-Reaches id upid = search (constructs, snapshot_task_reach, uncertain-Reaches) depth 40

    failed-Reaches :
        (id : String) (r : HostSnapshotResult) → Reaches p W may_snapshot (apply_failed p env id r)
    unfolding apply_failed
    failed-Reaches id r = search (constructs, snapshot_failure_reach, uncertain-Reaches) depth 40

    again-Reaches :
        (id : String) (l : List ObservedSnapshot)
        → Reaches p W may_snapshot (confirm_again p env id l)
    unfolding confirm_again
    again-Reaches id l =
        search (constructs, snapshot_stale_reach, snapshot_confirm_reach, uncertain-Reaches) depth
          40

    unconfirmed-Reaches :
        (id : String) (l : List ObservedSnapshot) (e : Raised)
        → Reaches p W may_snapshot (on_confirmation p env id l e)
    unconfirmed-Reaches id l (authority e) =
        search (constructs, again-Reaches, uncertain-Reaches) depth 40
    unconfirmed-Reaches id l e = uncertain-Reaches _ _

    completed-Reaches :
        (id : String) (r : HostSnapshotResult)
        → Reaches p W may_snapshot (apply_completed p env id r)
    unfolding apply_completed
    completed-Reaches id r =
        search (constructs, snapshot_confirm_reach, unconfirmed-Reaches, uncertain-Reaches) depth 40

  module _ (env : Environment W) (host : SnapshotHost W) (settings : TaskSettings) where
    outcome-Reaches :
        (block : Option (Stage W SnapshotStageResult)) (j : PackageUpdateJob)
        (r : HostSnapshotResult) (o : OperationOutcome)
        → Admits block
        → Reaches p W may_snapshot (apply_outcome p env host settings block j r o)
    unfolding apply_outcome
    outcome-Reaches none j r OperationOutcome.not_submitted h = uncertain-Reaches env _ _
    outcome-Reaches (some m) j r OperationOutcome.not_submitted h = h
    outcome-Reaches block j r OperationOutcome.uncertain h = uncertain-Reaches env _ _
    outcome-Reaches block j r OperationOutcome.failed h = failed-Reaches env _ r
    outcome-Reaches block j r OperationOutcome.completed h = completed-Reaches env _ r

    apply-Reaches :
        (block : Option (Stage W SnapshotStageResult)) (j : PackageUpdateJob) (q : SnapshotRequest)
        (r : HostSnapshotResult)
        → Admits block
        → Reaches p W may_snapshot (apply_host_result p env host settings block j q r)
    unfolding apply_host_result
    apply-Reaches block j q r h =
        let outcome = outcome-Reaches block j r r.outcome h in
        if_reach p W may_snapshot (not (r.operation_id == q.snapshot_operation_id))
          (uncertain-Reaches env _ _)
          (bind_reach p W may_snapshot (task-Reaches env _ r.task_upid) (λ conflict.
            null_reach p W may_snapshot conflict outcome
              (λ early. pure_reach p W may_snapshot early)))

    inspection-Reaches :
        (q : SnapshotRequest) → Reaches p W may_snapshot (read_inspection env host q)
    unfolding read_inspection
    inspection-Reaches q = search constructs depth 40

    finish-Reaches :
        (block : Option (Stage W SnapshotStageResult)) (j : PackageUpdateJob) (q : SnapshotRequest)
        (r : HostSnapshotResult)
        → Admits block
        → Reaches p W may_snapshot (finish p env host settings block j q r)
    unfolding finish
    finish-Reaches block j q r h =
        let applied = λ (x : HostSnapshotResult). apply-Reaches block j q x h in
        search (constructs, task-Reaches, resolved-Reaches, inspection-Reaches, applied) depth 40

    block-Reaches :
        (j : PackageUpdateJob) (q : SnapshotRequest)
        → Reaches p W may_snapshot (resolve_block p env host settings j q)
    unfolding resolve_block
    block-Reaches j q =
        let unsealed = λ (x : HostSnapshotResult). finish-Reaches none j q x tt in
        search (constructs, snapshot_seal_reach, uncertain-Reaches, unsealed) depth 40

    refused-Reaches :
        (j : PackageUpdateJob) (q : SnapshotRequest) (e : Raised)
        → Reaches p W may_snapshot (on_submission p env host settings j q e)
    refused-Reaches j q (authority snapshot_submission_refused) = block-Reaches j q
    refused-Reaches j q e = uncertain-Reaches env _ _

    submit-Reaches :
        (j : PackageUpdateJob) (q : SnapshotRequest)
        → Reaches p W may_snapshot (submit p env host settings j q)
    unfolding submit
    submit-Reaches j q =
        let finished = λ (x : HostSnapshotResult).
          finish-Reaches (some (resolve_block p env host settings j q)) j q x (block-Reaches j q) in
        search (constructs, snapshot_submission_reach, refused-Reaches, finished) depth 40

    after-Reaches :
        (j : PackageUpdateJob) (q : SnapshotRequest) (r : HostSnapshotResult)
        → Reaches p W may_snapshot (after_inspection p env host settings j q r)
    unfolding after_inspection
    after-Reaches j q r =
        let finished =
          finish-Reaches (some (resolve_block p env host settings j q)) j q r (block-Reaches j q) in
        if_reach p W may_snapshot (is_sealed r.state) (block-Reaches j q) (
          if_reach p W may_snapshot (r.outcome == OperationOutcome.not_submitted)
            (block-Reaches j q)
            (if_reach p W may_snapshot (is_submission_permitted r.state) (submit-Reaches j q)
              finished))

    prepare-Reaches :
        (id : String) (j : PackageUpdateJob)
        → Reaches p W may_snapshot (prepare p env host settings id j)
    unfolding prepare
    prepare-Reaches id j = search (constructs, preflight_reach, snapshot_intent_reach) depth 40

    drive-Reaches :
        (id : String) (j : PackageUpdateJob)
        → Reaches p W may_snapshot (drive_snapshot p env host settings id j)
    unfolding drive_snapshot
    drive-Reaches id j =
        search (constructs, prepare-Reaches, inspection-Reaches, after-Reaches) depth 40

    pub snapshot-Reaches :
        (id : String) → Reaches p W may_snapshot (ensure_job_owned_snapshot p env host settings id)
    unfolding ensure_job_owned_snapshot
    snapshot-Reaches id = search (constructs, drive-Reaches) depth 40
