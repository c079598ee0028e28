-- ===== src/Authority/MutationRelease.antt =====
-- The one way out of an armed package mutation that was never submitted:
-- `resolve_pre_mutation_block` over `_commit_pre_mutation_block` of `app/inventory/authority.py`.
use hubinet_ops.Prelude.{String, Bool, ◌&&◌, [], ◌==◌}
use hubinet_ops.Models.{
  blocked, status_eq, Checkpoint, checkpoint_eq, HostMutationState, mutation_state_eq, warning,
  EventType,
}
use hubinet_ops.Authority.Result.{Result, authority_invariant}
use hubinet_ops.Authority.Platform.{Platform}
use hubinet_ops.Authority.Checks.{require_text}
use hubinet_ops.Authority.Tables.{Db}
use hubinet_ops.Authority.Tx.{
  Tx, ◌>>=◌, ◌>>◌, lift, ensure, update_job, append_event, bump_published,
}
use hubinet_ops.Authority.Rows.{is_null, active_at, terminalize}
use hubinet_ops.Authority.Host.{Clock, Host, Sealed, release}
use hubinet_ops.Authority.Mutation.{require_armed_mutation}

module _ (p : Platform) where
  -- The guards of `resolve_pre_mutation_block`.
  unfoldable pub guard_mutation_release : String → Tx (Unit {0})
  unfolding require_armed_mutation
  guard_mutation_release job_id = do
    job ← require_armed_mutation p job_id
    ensure (is_null job.mutation_completed_at) authority_invariant

  -- `_commit_pre_mutation_block`
  unfoldable pub commit_pre_mutation_block : Clock → String → String → Tx (Unit {0})
  commit_pre_mutation_block clock job_id reason = do
    bounded ← lift (require_text p reason 500)
    update_job job_id
        (λ j. active_at Checkpoint.mutation_may_have_started j && is_null j.mutation_completed_at)
        (terminalize blocked clock.recorded_at bounded)
    append_event p job_id clock.recorded_at warning Checkpoint.mutation_may_have_started
        EventType.mutation_blocked_before_submission bounded []
    bump_published clock.published_at

  abbrev pub is_mutation_sealed : HostMutationState → Bool
  is_mutation_sealed s = s == HostMutationState.sealed_not_submitted

  unfoldable pub resolve_pre_mutation_block :
      {W A : Type 0}
      → Clock
      → String
      → Host W (Sealed HostMutationState A)
      → Db
      → W
      → Result (Bool × A) × Db × W
  unfolding release guard_mutation_release commit_pre_mutation_block
  resolve_pre_mutation_block clock job_id =
      release (guard_mutation_release job_id) is_mutation_sealed
        (commit_pre_mutation_block clock job_id)
