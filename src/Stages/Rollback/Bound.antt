-- ===== src/Stages/Rollback/Bound.antt =====
-- The rounds of the poll of `app/package_update_rollback.py`.
use hubinet_ops.Prelude.{◌*◌, ◌≤◌, String, Option}
use hubinet_ops.Authority.Rollback.{RollbackRequest}
use hubinet_ops.Authority.Tables.{Db}
use hubinet_ops.Stages.Run.{Environment}
use hubinet_ops.Stages.Task.{TaskSettings, poll_until_resolved}
use hubinet_ops.Stages.Task.Bound.{Ticks, Inspects, Answers, asking-Inspects, resolved-Answers}
use hubinet_ops.Stages.Rollback.Records.{
  RollbackHost, HostRollbackResult, rollback_phases, read_inspection,
}

module _ {W : Type 0} (env : Environment W) (host : RollbackHost W) (request : RollbackRequest)
    (ticks : Ticks env (host.inspect_state request)) where
  inspection-Inspects : Inspects env (read_inspection env host request)
  unfolding read_inspection
  inspection-Inspects = asking-Inspects env (host.inspect_state request) ticks _ _

  -- Where a sleep takes at least its time, the monotonic clock does not go back while the host is
  -- asked, and the rounds of fuel cover the timeout, the poll of a rollback operation gives a result,
  -- whatever the host answers.
  pub rollback_poll-Answers :
      (settings : TaskSettings) (recorded : Option String) (result : HostRollbackResult) (db : Db)
      (w : W)
      → settings.poll_timeout ≤ settings.poll_fuel * settings.poll_interval
      → Answers (
          poll_until_resolved rollback_phases env
            (read_inspection env host request)
            settings
            recorded
            result
            db
            w)
  rollback_poll-Answers settings recorded result db w h =
      resolved-Answers rollback_phases env (read_inspection env host request) inspection-Inspects
        settings recorded result db w h
