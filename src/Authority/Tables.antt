-- ===== src/Authority/Tables.antt =====
-- The tables of the authority database (`app/inventory/store.py`) that the job transitions read and
-- write: one record for a row, one list for a table, `Option` for a column that may be NULL.
-- Timestamps are numbers, since the code only stores and compares them.
use hubinet_ops.Prelude.{ℕ, String, Bool, Option, List, string_eq}
use hubinet_ops.Models.{
  JobStatus, Checkpoint, ProbeKind, ProbeOutcome, HealthOutcome, EventLevel, EventType,
}

abbrev pub Time : Type 0
Time = ℕ

-- (package_name, architecture, installed_version, candidate_version)
pub record Material : Type 0 where
  pub package_name : String
  pub architecture : String
  pub installed_version : String
  pub candidate_version : String

-- The columns that a package scan and a job share: the resource, the committed context of its
-- source, and the locator at which the guest was seen.
pub record Context : Type 0 where
  pub resource_id : String
  pub inventory_source_id : String
  pub source_config_revision : ℕ
  pub endpoint_id : String
  pub canonical_transport_locator : String
  pub canonicalization_contract_version : ℕ
  pub transport_trust_revision : ℕ
  pub provider_contract_version : ℕ
  pub expected_binding_id : String
  pub expected_locator_generation : ℕ
  pub expected_continuity_revision : ℕ
  pub expected_vmid : ℕ
  pub expected_node_id : String
  pub expected_node_name : String

-- `package_update_jobs`. The columns above `status` are fixed at issuance.
pub record Job : Type 0 where
  pub job_id : String
  pub context : Context
  pub expected_resource_type : String
  pub approved_plan_fingerprint : String
  pub health_contract_revision : ℕ
  pub health_contract_fingerprint : String
  pub health_contract_probe_count : ℕ
  pub status : JobStatus
  pub checkpoint : Checkpoint
  pub snapshot_operation_id : Option String
  pub snapshot_name : Option String
  pub snapshot_intent_recorded_at : Option Time
  pub snapshot_task_upid : Option String
  pub snapshot_confirmed_at : Option Time
  pub mutation_operation_id : Option String
  pub mutation_may_have_started_at : Option Time
  pub accepted_evidence_digest : Option String
  pub mutation_completed_at : Option Time
  pub health_started_at : Option Time
  pub health_completed_at : Option Time
  pub health_outcome : Option HealthOutcome
  pub rollback_operation_id : Option String
  pub rollback_may_have_started_at : Option Time
  pub rollback_task_upid : Option String
  pub rollback_completed_at : Option Time
  pub terminalized_at : Option Time
  pub terminal_reason : Option String

-- The details of an event before they are written as JSON.
pub data Detail : Type 0 where
  str : String → Detail
  number : ℕ → Detail
  flag : Bool → Detail
  numbers : List ℕ → Detail
  -- index, outcome and reason of each probe
  probes : List (ℕ × ProbeOutcome × String) → Detail
  null : Detail

-- `package_update_job_events`.
pub record Event : Type 0 where
  pub job_id : String
  pub sequence : ℕ
  pub created_at : Time
  pub level : EventLevel
  pub stage : Checkpoint
  pub event_type : EventType
  pub message : String
  pub details : List (String × Detail)

-- `package_update_job_packages` and `package_scan_packages`.
pub record PackageRow : Type 0 where
  pub owner_id : String
  pub material : Material
  pub origin : Option String
  pub description : Option String
  pub security : Option Bool

-- `package_update_job_health_probes`.
pub record FrozenProbe : Type 0 where
  pub job_id : String
  pub probe_index : ℕ
  pub kind : ProbeKind
  pub target : Option String

-- `package_update_job_health_probe_results`.
pub record ProbeResult : Type 0 where
  pub job_id : String
  pub probe_index : ℕ
  pub outcome : ProbeOutcome
  pub checked_at : Time
  pub reason : String

-- `package_update_post_scan_requests`.
pub record PostScanRequest : Type 0 where
  pub job_id : String
  pub resource_id : String
  pub requested_at : Time
  pub scan_run_id : Option String

-- `resource_incarnations`, `resource_locator_bindings` and `inventory_nodes`.
pub record Incarnation : Type 0 where
  pub resource_id : String
  pub inventory_source_id : String
  pub vmid : ℕ
  pub continuity_revision : ℕ
  pub resource_type : String
  pub presence : String
  pub lifecycle : String
  pub status : String
  pub current_node_id : Option String

pub record Binding : Type 0 where
  pub binding_id : String
  pub resource_id : String
  pub locator_generation : ℕ
  pub valid_to_run_sequence : Option ℕ

pub record Node : Type 0 where
  pub node_id : String
  pub external_node_name : String
  pub available : Bool

-- `inventory_sources`, the active row of `source_endpoints`, and `source_runtime_health`.
pub record Source : Type 0 where
  pub inventory_source_id : String
  pub source_config_revision : ℕ
  pub provider_contract_version : ℕ

pub record Endpoint : Type 0 where
  pub endpoint_id : String
  pub inventory_source_id : String
  pub lifecycle : String
  pub canonical_transport_locator : String
  pub canonicalization_contract_version : ℕ
  pub transport_trust_revision : ℕ

pub record SourceHealth : Type 0 where
  pub inventory_source_id : String
  pub health : String
  pub freshness : String
  pub health_origin : String
  pub health_reason : Option String
  pub freshness_reference_at : Option Time
  pub freshness_valid_until : Option Time
  pub committed_source_config_revision : Option ℕ
  pub committed_endpoint_id : Option String
  pub committed_canonical_transport_locator : Option String
  pub committed_canonicalization_contract_version : Option ℕ
  pub committed_transport_trust_revision : Option ℕ

-- `package_scan_runs`.
pub record Scan : Type 0 where
  pub scan_run_id : String
  pub context : Context
  pub attempt_sequence : ℕ
  pub lifecycle : String
  pub outcome : Option String
  pub pending_count : Option ℕ
  pub plan_fingerprint : Option String

-- `resource_health_contracts` with its probes in canonical order.
pub record Contract : Type 0 where
  pub resource_id : String
  pub revision : ℕ
  pub fingerprint : String
  pub probes : List (ProbeKind × Option String)

pub record Db : Type 0 where
  pub backend_instance_id : String
  pub published_state_revision : ℕ
  pub published_at : Time
  pub jobs : List Job
  pub job_packages : List PackageRow
  pub job_probes : List FrozenProbe
  pub probe_results : List ProbeResult
  pub events : List Event
  pub post_scan_requests : List PostScanRequest
  pub incarnations : List Incarnation
  pub bindings : List Binding
  pub nodes : List Node
  pub sources : List Source
  pub endpoints : List Endpoint
  pub source_healths : List SourceHealth
  pub scans : List Scan
  pub scan_packages : List PackageRow
  pub contracts : List Contract
