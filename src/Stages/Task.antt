-- ===== src/Stages/Task.antt =====
-- What the snapshot stage of `app/package_update_snapshot.py` and the rollback stage of
-- `app/package_update_rollback.py` have in common: the answer of the host about an operation that is
-- a PVE task, and the poll that reads it again. The journal phases of the two are a parameter.
pub mod Calls
pub mod Bound
use hubinet_ops.Prelude.{
  ℕ, zero, suc, ◌+◌, String, Bool, true, false, not, ◌&&◌, Option, none, some, List, ◌==◌, leb,
  if◌then◌else◌, Eq, dec_eq,
}
use hubinet_ops.Authority.Query.{is_some}
use hubinet_ops.Authority.Ownership.{ObservedSnapshot}
use hubinet_ops.Stages.Run.{
  out_of_fuel, Environment, Stage, ◌>>=◌, ◌>>◌, pure, raise, observing, moving,
}

-- `SnapshotTaskState`
pub data TaskState : Type 0 where
  running succeeded warned failed unknown : TaskState

pub record TaskStatus : Type 0 where
  pub upid : String
  pub terminal : Bool
  pub state : TaskState

-- `SnapshotTaskStatus.succeeded`
abbrev pub is_good : TaskState → Bool
is_good TaskState.succeeded = true
is_good TaskState.warned = true
is_good _ = false

abbrev pub has_succeeded : TaskStatus → Bool
has_succeeded t = t.terminal && is_good t.state

-- `SnapshotOperationOutcome` and `RollbackOperationOutcome`
pub data OperationOutcome : Type 0 where
  completed failed uncertain not_submitted : OperationOutcome

unfoldable pub OperationOutcome-discrete : Discrete OperationOutcome
OperationOutcome-discrete = hlevel

instance abbrev pub outcome_eq : Eq OperationOutcome
outcome_eq = dec_eq OperationOutcome-discrete

-- `HostSnapshotResult` and `HostRollbackResult`, over their journal phases.
pub record HostTaskResult (S : Type 0) : Type 0 where
  pub outcome : OperationOutcome
  pub operation_id : String
  pub task_upid : Option String
  pub task : Option TaskStatus
  pub snapshots : Option (List ObservedSnapshot)
  pub reason : Option String
  pub state : Option S
  pub in_progress : Bool

-- The phases that a poll tells apart.
pub record Phases (S : Type 0) : Type 0 where
  pub task_known : S
  pub is_task_known : S → Bool
  pub is_submitted : S → Bool

-- The arguments of the constructors, in milliseconds, and the fuel of one poll.
pub record TaskSettings : Type 0 where
  pub poll_timeout : ℕ
  pub poll_interval : ℕ
  pub poll_fuel : ℕ

-- An answer that proves nothing.
abbrev pub unproven : {S : Type 0} → String → String → HostTaskResult S
unproven operation reason = record {
  outcome = OperationOutcome.uncertain;
  operation_id = operation;
  task_upid = none;
  task = none;
  snapshots = none;
  reason = some reason;
  state = none;
  in_progress = false;
}

module _ {S : Type 0} (phases : Phases S) where
  abbrev pub is_known : Option S → Bool
  is_known none = false
  is_known (some s) = phases.is_task_known s

  -- `_durable_proof`, of the task that the job has recorded.
  abbrev pub durable_proof : Option String → Option S
  durable_proof none = none
  durable_proof (some upid) = some phases.task_known

  abbrev pub proven_by : Option S → Bool → Option S → Option S
  proven_by none in_progress previous = if in_progress then previous else none
  proven_by (some s) in_progress previous =
      if phases.is_task_known s
      then some s
      else if phases.is_submitted s
      then if is_known previous then previous else some s
      else if in_progress
      then previous
      else none

  -- `_proven_in_flight`
  unfoldable pub proven_in_flight : HostTaskResult S → Option S → Option S
  proven_in_flight candidate previous = proven_by candidate.state candidate.in_progress previous

  abbrev pub is_terminal : Option TaskStatus → Bool
  is_terminal none = false
  is_terminal (some t) = t.terminal

  abbrev pub pending_by : Option S → Option TaskStatus → Bool
  pending_by none task = false
  pending_by (some s) task =
      if phases.is_submitted s then true else phases.is_task_known s && not (is_terminal task)

  -- `_pending`
  unfoldable pub pending : HostTaskResult S → Option S → Bool
  pending candidate proven =
      if not (candidate.outcome == OperationOutcome.uncertain)
      then false
      else if candidate.in_progress
      then is_some proven
      else pending_by candidate.state candidate.task

  module _ {W : Type 0} (env : Environment W) (inspect : Stage W (HostTaskResult S)) where
    -- The `while True` of `_poll_until_resolved`.
    unfoldable pub poll : ℕ → ℕ → ℕ → Option S → Stage W (HostTaskResult S)
    poll zero interval deadline proven = do
      fresh ← inspect
      if not (pending fresh (proven_in_flight fresh proven)) then pure fresh else (do
        now ← observing env.monotonic
        if leb deadline now then pure fresh else raise out_of_fuel)
    poll (suc fuel) interval deadline proven = do
      fresh ← inspect
      if not (pending fresh (proven_in_flight fresh proven)) then pure fresh else (do
        now ← observing env.monotonic
        if leb deadline now then pure fresh else (do
          moving (λ w. (tt, env.sleep interval w))
          poll fuel interval deadline (proven_in_flight fresh proven)))

    -- `_poll_until_resolved`, of a job with this recorded task.
    unfoldable pub poll_until_resolved :
        TaskSettings → Option String → HostTaskResult S → Stage W (HostTaskResult S)
    unfolding poll
    poll_until_resolved settings recorded result =
        let proven = proven_in_flight result (durable_proof recorded) in
        if not (pending result proven) then pure result else (do
          now ← observing env.monotonic
          poll settings.poll_fuel settings.poll_interval (now + settings.poll_timeout) proven)
