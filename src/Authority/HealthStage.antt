-- ===== src/Authority/HealthStage.antt =====
-- The health stage of a job in `app/inventory/authority.py`: its frozen contract, its start, and its
-- one definitive verdict.
use hubinet_ops.Prelude.{
  ℕ, ◌+◌, String, Bool, true, not, ◌&&◌, Option, none, some, List, [], ◌∷◌, ◌++◌, map, ◌==◌, leb,
  length, any_of, all_of, string_eq, nat_eq, if◌then◌else◌,
}
use hubinet_ops.Models.{
  active, status_eq, Checkpoint, checkpoint_eq, ProbeOutcome, probe_outcome_eq, HealthOutcome,
  health_outcome_eq, aggregate_health_outcome, info, error, EventType, kind_eq,
}
use hubinet_ops.Authority.Result.{
  Result, ok, authority_conflict, authority_invariant, health_context_changed,
}
use hubinet_ops.Authority.Platform.{Platform}
use hubinet_ops.Authority.Checks.{require_uuid, sorted}
use hubinet_ops.Authority.Tables.{Time, Job, FrozenProbe, ProbeResult, Detail, Db}
use hubinet_ops.Authority.Tx.{
  Tx, ◌>>=◌, ◌>>◌, pure, raise, lift, gets, ensure, transaction, require_job_row, update_job,
  append_event, bump_published,
}
use hubinet_ops.Authority.Query.{select_by, is_some}
use hubinet_ops.Authority.Plans.{health_contract_fingerprint}
use hubinet_ops.Authority.Scans.{frozen_probes, indexes_from}
use hubinet_ops.Authority.Locator.{post_mutation_context_is_current}
use hubinet_ops.Authority.Rows.{
  is_null, active_at, set_health_started, set_health_passed, set_health_failed,
}
use hubinet_ops.Authority.Host.{Clock}
use hubinet_ops.Health.{Observation, match_observations}

-- `PackageUpdateHealthRequest`
pub record HealthRequest : Type 0 where
  pub job_id : String
  pub backend_instance_id : String
  pub resource_id : String
  pub binding_id : String
  pub locator_generation : ℕ
  pub continuity_revision : ℕ
  pub vmid : ℕ
  pub expected_node : String
  pub health_contract_revision : ℕ
  pub health_contract_fingerprint : String
  pub probes : List FrozenProbe

abbrev pub results_of : Db → String → List ProbeResult
results_of db id =
    sorted (λ (a : ProbeResult) (b : ProbeResult). leb a.probe_index b.probe_index)
      (select_by (λ r. r.job_id == id) db.probe_results)

abbrev pub result_indexes_from : ℕ → ℕ → List ProbeResult → Bool
result_indexes_from n end [] = n == end
result_indexes_from n end (r ∷ rs) = r.probe_index == n && result_indexes_from (n + 1) end rs

-- The results that a verdict must be backed by.
abbrev pub verdict_is_backed : HealthOutcome → List ProbeResult → Bool
verdict_is_backed HealthOutcome.passed rs = all_of (λ r. r.outcome == ProbeOutcome.passed) rs
verdict_is_backed HealthOutcome.failed rs = any_of (λ r. r.outcome == ProbeOutcome.failed) rs
verdict_is_backed HealthOutcome.unknown rs = true

abbrev pub results_are_coherent : Job → List ProbeResult → Bool
results_are_coherent job rs = elim (job.health_outcome) [
  | none ↦ length rs == 0 && is_null job.health_completed_at
  | some outcome ↦
      result_indexes_from 0 job.health_contract_probe_count rs
      && is_some job.health_started_at
      && is_some job.health_completed_at
      && verdict_is_backed outcome rs
]

module _ (p : Platform) where
  -- `_package_update_job_health`
  unfoldable pub job_health : Job → Tx (List FrozenProbe)
  unfolding health_contract_fingerprint select_by sorted
  job_health job = do
    probes ← gets (λ db. frozen_probes p db job.job_id)
    ensure (length probes == job.health_contract_probe_count && indexes_from p 0 probes)
        authority_invariant
    fingerprint ←
        lift (health_contract_fingerprint p (map (λ (r : FrozenProbe). (r.kind, r.target)) probes))
    ensure (fingerprint == job.health_contract_fingerprint) authority_invariant
    results ← gets (λ db. results_of db job.job_id)
    ensure (results_are_coherent job results) authority_invariant
    pure probes

  -- `_require_coherent_frozen_health_contract`
  unfoldable pub require_coherent_frozen_contract : String → Tx (List FrozenProbe)
  unfolding job_health
  require_coherent_frozen_contract id = do
    job ← require_job_row id
    probes ← job_health job
    ensure (not (length probes == 0)) authority_invariant
    pure probes

  -- `package_update_health_request`
  unfoldable pub health_request : String → Tx HealthRequest
  unfolding require_coherent_frozen_contract post_mutation_context_is_current
  health_request job_id = do
    id ← lift (require_uuid p job_id)
    job ← require_job_row id
    ensure (job.status == active) authority_conflict
    here ← gets (λ db. post_mutation_context_is_current db job)
    ensure here authority_conflict
    probes ← require_coherent_frozen_contract id
    backend ← gets (λ db. db.backend_instance_id)
    pure (record {
      job_id = id;
      backend_instance_id = backend;
      resource_id = job.context.resource_id;
      binding_id = job.context.expected_binding_id;
      locator_generation = job.context.expected_locator_generation;
      continuity_revision = job.context.expected_continuity_revision;
      vmid = job.context.expected_vmid;
      expected_node = job.context.expected_node_name;
      health_contract_revision = job.health_contract_revision;
      health_contract_fingerprint = job.health_contract_fingerprint;
      probes = probes;
    })

  abbrev pub contract_details : Job → List FrozenProbe → List (String × Detail)
  contract_details job probes =
      ("health_contract_revision", Detail.number job.health_contract_revision)
      ∷ ("health_contract_fingerprint", Detail.str job.health_contract_fingerprint)
      ∷ ("probe_count", Detail.number (length probes))
      ∷ []

  abbrev pub is_ready_for_health : Job → Bool
  is_ready_for_health j =
      active_at Checkpoint.mutation_completed j
      && is_some j.mutation_completed_at
      && is_null j.health_started_at

  -- `start_package_update_health`
  unfoldable pub start_health : Clock → String → Db → Result (Unit {0}) × Db
  unfolding require_coherent_frozen_contract
  start_health clock job_id = transaction (do
    id ← lift (require_uuid p job_id)
    job ← require_job_row id
    ensure (job.status == active) authority_conflict
    if job.checkpoint == Checkpoint.health_started
        then (do _ ← require_coherent_frozen_contract id; pure tt)
        else if not (job.checkpoint == Checkpoint.mutation_completed)
        then raise authority_conflict
        else (do
          probes ← require_coherent_frozen_contract id
          update_job id is_ready_for_health (set_health_started clock.recorded_at)
          append_event p id clock.recorded_at info Checkpoint.health_started
              EventType.health_started
              "evaluating this job's own frozen health contract generation; the live contract no longer applies"
              (contract_details job probes)
          bump_published clock.published_at))

  abbrev pub result_rows : Time → String → List Observation → List ProbeResult
  result_rows at id [] = []
  result_rows at id (o ∷ os) =
      record {
        job_id = id;
        probe_index = o.probe_index;
        outcome = o.outcome;
        checked_at = at;
        reason = o.reason;
      }
      ∷ result_rows at id os

  -- `executemany("INSERT INTO package_update_job_health_probe_results ...")`; an observation
  -- carries the index of its probe after the match.
  unfoldable pub insert_results : Time → String → List Observation → Tx (Unit {0})
  insert_results at id seen db =
      ok (tt, record db { probe_results = db.probe_results ++ result_rows at id seen })

  unfoldable pub insert_post_scan_request : String → String → Time → Tx (Unit {0})
  insert_post_scan_request id resource_id at db = ok (
    tt,
    record db {
      post_scan_requests =
          db.post_scan_requests
          ++ record {
            job_id = id;
            resource_id = resource_id;
            requested_at = at;
            scan_run_id = none;
          }
            ∷ [];
    },
  )

  abbrev pub indexes_with : ProbeOutcome → List Observation → List ℕ
  indexes_with outcome seen =
      map (λ (o : Observation). o.probe_index) (select_by (λ o. o.outcome == outcome) seen)

  abbrev pub verdict_details : Job → List FrozenProbe → List Observation → List (String × Detail)
  verdict_details job probes seen =
      contract_details job probes
      ++ ("failed_probe_indexes", Detail.numbers (indexes_with ProbeOutcome.failed seen))
        ∷ ("unknown_probe_indexes", Detail.numbers (indexes_with ProbeOutcome.unknown seen))
        ∷ []

  abbrev pub is_in_health : Job → Bool
  is_in_health j = active_at Checkpoint.health_started j && is_null j.health_completed_at

  -- What follows a verdict: the results, the row, and the events.
  unfoldable pub commit_passed :
      Clock → String → Job → List FrozenProbe → List Observation → Tx (Unit {0})
  unfolding insert_results insert_post_scan_request select_by
  commit_passed clock id job probes seen = do
    insert_results clock.recorded_at id seen
    update_job id is_in_health (
        set_health_passed clock.recorded_at
          "every probe of this job's frozen health contract generation was positively proven")
    append_event p id clock.recorded_at info Checkpoint.health_completed EventType.health_passed
        "every frozen health probe passed; this update job succeeded"
        (verdict_details job probes seen)
    insert_post_scan_request id job.context.resource_id clock.recorded_at
    append_event p id clock.recorded_at info Checkpoint.health_completed
        EventType.post_update_scan_requested
        "successful update requested one fresh package scan from the independent scan scheduler"
        (("resource_id", Detail.str job.context.resource_id) ∷ [])
    bump_published clock.published_at

  unfoldable pub commit_failed :
      Clock → String → Job → List FrozenProbe → List Observation → Tx (Unit {0})
  unfolding insert_results select_by
  commit_failed clock id job probes seen = do
    insert_results clock.recorded_at id seen
    update_job id is_in_health (set_health_failed clock.recorded_at)
    append_event p id clock.recorded_at error Checkpoint.health_completed EventType.health_failed
        "at least one frozen health probe was proven to fail; this job stays active and rollback-capable"
        (verdict_details job probes seen)
    bump_published clock.published_at

  -- `outcome not in DEFINITIVE_HEALTH_OUTCOMES` refuses an unknown verdict.
  unfoldable pub commit_verdict :
      Clock
      → String
      → Job
      → List FrozenProbe
      → List Observation
      → Option HealthOutcome
      → Tx (Unit {0})
  unfolding commit_passed commit_failed
  commit_verdict clock id job probes seen none = raise authority_invariant
  commit_verdict clock id job probes seen (some HealthOutcome.passed) =
      commit_passed clock id job probes seen
  commit_verdict clock id job probes seen (some HealthOutcome.failed) =
      commit_failed clock id job probes seen
  commit_verdict clock id job probes seen (some HealthOutcome.unknown) = raise authority_conflict

  -- `complete_package_update_health`
  unfoldable pub complete_health : Clock → String → List Observation → Db → Result (Unit {0}) × Db
  unfolding commit_verdict require_coherent_frozen_contract match_observations
      aggregate_health_outcome
  complete_health clock job_id reported = transaction (do
    id ← lift (require_uuid p job_id)
    job ← require_job_row id
    ensure (job.status == active) authority_conflict
    ensure (job.checkpoint == Checkpoint.health_started) authority_conflict
    probes ← require_coherent_frozen_contract id
    here ← gets (λ db. post_mutation_context_is_current db job)
    ensure here health_context_changed
    seen ← lift (match_observations probes reported)
    ensure (not (any_of (λ o. o.outcome == ProbeOutcome.unknown) seen)) authority_conflict
    commit_verdict clock id job probes seen
        (aggregate_health_outcome (map (λ (o : Observation). o.outcome) seen)))
