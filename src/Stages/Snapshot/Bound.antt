-- ===== src/Stages/Snapshot/Bound.antt =====
-- The rounds of the poll of `app/package_update_snapshot.py`.
use hubinet_ops.Prelude.{◌*◌, ◌≤◌, String, Option}
use hubinet_ops.Stages.Snapshot.Records.{SnapshotRequest}
use hubinet_ops.Authority.Tables.{Db}
use hubinet_ops.Stages.Run.{Environment}
use hubinet_ops.Stages.Task.{TaskSettings, poll_until_resolved}
use hubinet_ops.Stages.Task.Bound.{Ticks, Inspects, Answers, asking-Inspects, resolved-Answers}
use hubinet_ops.Stages.Snapshot.Records.{
  SnapshotHost, HostSnapshotResult, snapshot_phases, read_inspection,
}

module _ {W : Type 0} (env : Environment W) (host : SnapshotHost W) (request : SnapshotRequest)
    (ticks : Ticks env (host.inspect_state request)) where
  inspection-Inspects : Inspects env (read_inspection env host request)
  unfolding read_inspection
  inspection-Inspects = asking-Inspects env (host.inspect_state request) ticks _ _

  -- Where a sleep takes at least its time, the monotonic clock does not go back while the host is
  -- asked, and the rounds of fuel cover the timeout, the poll of a snapshot operation gives a result,
  -- whatever the host answers.
  pub snapshot_poll-Answers :
      (settings : TaskSettings) (recorded : Option String) (result : HostSnapshotResult) (db : Db)
      (w : W)
      → settings.poll_timeout ≤ settings.poll_fuel * settings.poll_interval
      → Answers (
          poll_until_resolved snapshot_phases env
            (read_inspection env host request)
            settings
            recorded
            result
            db
            w)
  snapshot_poll-Answers settings recorded result db w h =
      resolved-Answers snapshot_phases env (read_inspection env host request) inspection-Inspects
        settings recorded result db w h
