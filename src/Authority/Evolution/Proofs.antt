-- ===== src/Authority/Evolution/Proofs.antt =====
-- The proofs of authority and the reads of a job, as statements of a transaction.
use hubinet_ops.Prelude.{String, Option, none, some, sym, [], string_eq}
use mathlib.Core.List.{append-nil}
use hubinet_ops.Authority.Platform.{Platform}
use hubinet_ops.Authority.Tables.{Time, Job, Context, Scan, SourceHealth}
use hubinet_ops.Authority.Source.{
  require_source_row, require_active_endpoint_row, source_context_is_current, update_health,
  expire_if_due, materialize_due_expiry,
}
use hubinet_ops.Authority.Context.{
  plan_finding, scan_finding, context_finding, current_authority_detail, authority_is_current,
}
use hubinet_ops.Authority.Scans.{
  successful_scan_fingerprint, scan_is_current_and_approvable, frozen_health_contract_drifts,
  resource_health_contract,
}
use hubinet_ops.Authority.Identity.{
  identity_payload, derive_pre_update_snapshot_identity, derive_package_mutation_identity,
  derive_package_rollback_identity, snapshot_identity, snapshot_ownership, mutation_identity,
  rollback_identity,
}
use hubinet_ops.Authority.Evolution.{
  Evolving, JobsEvolve-refl, bind_rule, then_rule, pure_rule, raise_rule, lift_rule, gets_rule,
  ensure_rule, if_rule, null_rule, bump_published-Evolving, require_job_row-Evolving,
  append_event-Evolving,
}

pub ruleset statements = (
  bind_rule, then_rule, pure_rule, raise_rule, lift_rule, gets_rule, ensure_rule, if_rule,
  null_rule, bump_published-Evolving, require_job_row-Evolving, append_event-Evolving,
)

module _ (p : Platform) where
  pub fingerprint-Evolving : (scan : Scan) → Evolving p (successful_scan_fingerprint p scan)
  unfolding successful_scan_fingerprint
  fingerprint-Evolving scan = search statements depth 40

  source_row-Evolving : (id : String) → Evolving p (require_source_row id)
  unfolding require_source_row
  source_row-Evolving id = search statements depth 40

  endpoint_row-Evolving : (id : String) → Evolving p (require_active_endpoint_row id)
  unfolding require_active_endpoint_row
  endpoint_row-Evolving id = search statements depth 40

  update_health-Evolving : (id reason : String) → Evolving p (update_health id reason)
  unfolding update_health
  update_health-Evolving id reason = record {
    evolves = λ db. record {
      jobs = JobsEvolve-refl p db.jobs;
      added = [];
      events = sym (append-nil db.events);
    };
  }

  expire-Evolving :
      (id : String) (now : Time) (h : SourceHealth) → Evolving p (expire_if_due id now h)
  unfolding expire_if_due
  expire-Evolving id now h = search (statements, update_health-Evolving) depth 40

  pub expiry-Evolving : (id : String) (now : Time) → Evolving p (materialize_due_expiry id now)
  unfolding materialize_due_expiry
  expiry-Evolving id now =
      search (statements, source_row-Evolving, endpoint_row-Evolving, expire-Evolving) depth 40

  source_context-Evolving : (c : Context) → Evolving p (source_context_is_current c)
  unfolding source_context_is_current
  source_context-Evolving c =
      search (statements, source_row-Evolving, endpoint_row-Evolving) depth 40

  pub approvable-Evolving : (scan : Scan) → Evolving p (scan_is_current_and_approvable p scan)
  unfolding scan_is_current_and_approvable
  approvable-Evolving scan =
      search (statements, fingerprint-Evolving, source_context-Evolving) depth 40

  contract-Evolving : (id : String) → Evolving p (resource_health_contract p id)
  unfolding resource_health_contract
  contract-Evolving id = search statements depth 40

  drift-Evolving : (job : Job) → Evolving p (frozen_health_contract_drifts p job)
  unfolding frozen_health_contract_drifts
  drift-Evolving job = search (statements, contract-Evolving) depth 40

  plan-Evolving : (job : Job) (scan : Scan) → Evolving p (plan_finding p job scan)
  unfolding plan_finding
  plan-Evolving job scan = search (statements, fingerprint-Evolving, drift-Evolving) depth 40

  scan-Evolving : (job : Job) (scan : Option Scan) → Evolving p (scan_finding p job scan)
  unfolding scan_finding
  scan-Evolving job none = search statements depth 40
  scan-Evolving job (some scan) = search (statements, approvable-Evolving, plan-Evolving) depth 40

  context-Evolving : (job : Job) → Evolving p (context_finding p job)
  unfolding context_finding
  context-Evolving job = search (statements, source_context-Evolving, scan-Evolving) depth 40

  pub detail-Evolving : (now : Time) (job : Job) → Evolving p (current_authority_detail p now job)
  unfolding current_authority_detail
  detail-Evolving now job = search (statements, expiry-Evolving, context-Evolving) depth 40

  pub authority-Evolving : (now : Time) (job : Job) → Evolving p (authority_is_current p now job)
  unfolding authority_is_current
  authority-Evolving now job = search (statements, detail-Evolving) depth 40

  payload-Evolving : (b j r : String) (n : _) → Evolving p (identity_payload p b j r n)
  unfolding identity_payload
  payload-Evolving b j r n = search statements depth 40

  pub snapshot_identity-Evolving : (job : Job) → Evolving p (snapshot_identity p job)
  unfolding snapshot_identity derive_pre_update_snapshot_identity
  snapshot_identity-Evolving job = search (statements, payload-Evolving) depth 40

  pub snapshot_ownership-Evolving : (job : Job) → Evolving p (snapshot_ownership p job)
  unfolding snapshot_ownership
  snapshot_ownership-Evolving job = search statements depth 40

  pub mutation_identity-Evolving : (job : Job) → Evolving p (mutation_identity p job)
  unfolding mutation_identity derive_package_mutation_identity
  mutation_identity-Evolving job = search (statements, payload-Evolving) depth 40

  pub rollback_identity-Evolving : (job : Job) → Evolving p (rollback_identity p job)
  unfolding rollback_identity derive_package_rollback_identity
  rollback_identity-Evolving job = search (statements, payload-Evolving) depth 40
