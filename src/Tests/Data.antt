-- ===== src/Tests/Data.antt =====
-- The tables of the tests: one LXC with one job, a listing of two entries, and a plan of
-- one package.
use hubinet_ops.Prelude.{String, true, false, none, some, [], ◌∷◌}
use hubinet_ops.Models.{active, blocked, Checkpoint, ProbeOutcome, guest_operational}
use hubinet_ops.Authority.Platform.{Platform}
use hubinet_ops.Authority.Tables.{
  Context, Job, Db, Material, PackageRow, FrozenProbe, Incarnation, Binding, Node, Source, Endpoint,
  SourceHealth, Scan,
}
use hubinet_ops.Authority.Host.{Clock}
use hubinet_ops.Authority.Identity.{SnapshotOwnership}
use hubinet_ops.Health.{Observation}
use hubinet_ops.Completion.{PostState, Package}

abbrev pub platform : Platform
platform = record {
  parse_uuid = λ s. some (1, s);
  fullmatch = λ r s. true;
  strip = λ s. s;
  lower = λ s. s;
  prefix = λ n s. s;
  starts_with = λ n s. false;
  ends_with = λ n s. true;
  is_space = λ c. false;
  category = λ c. "Ll";
  sha256_hex = λ d o. "f";
  sha256_uuid = λ d o. "u";
  json_length = λ d. 2;
}

abbrev pub clock : Clock
clock = record { recorded_at = 7; decided_at = 7; published_at = 8 }

abbrev pub context : Context
context = record {
  resource_id = "r";
  inventory_source_id = "s";
  source_config_revision = 1;
  endpoint_id = "e";
  canonical_transport_locator = "https://pve";
  canonicalization_contract_version = 1;
  transport_trust_revision = 1;
  provider_contract_version = 1;
  expected_binding_id = "b";
  expected_locator_generation = 1;
  expected_continuity_revision = 1;
  expected_vmid = 101;
  expected_node_id = "n";
  expected_node_name = "pve";
}

-- A job at its mutation boundary.
abbrev pub armed_job : Job
armed_job = record {
  job_id = "j";
  context = context;
  expected_resource_type = "lxc";
  approved_plan_fingerprint = "f";
  health_contract_revision = 1;
  health_contract_fingerprint = "f";
  health_contract_probe_count = 1;
  status = active;
  checkpoint = Checkpoint.mutation_may_have_started;
  snapshot_operation_id = some "u";
  snapshot_name = some "hubinet-preupd-f";
  snapshot_intent_recorded_at = some 1;
  snapshot_task_upid = none;
  snapshot_confirmed_at = some 2;
  mutation_operation_id = some "u";
  mutation_may_have_started_at = some 3;
  accepted_evidence_digest = some "d";
  mutation_completed_at = none;
  health_started_at = none;
  health_completed_at = none;
  health_outcome = none;
  rollback_operation_id = none;
  rollback_may_have_started_at = none;
  rollback_task_upid = none;
  rollback_completed_at = none;
  terminalized_at = none;
  terminal_reason = none;
}

-- The same job inside its health evaluation, and blocked.
abbrev pub evaluated_job : Job
evaluated_job = record armed_job {
  checkpoint = Checkpoint.health_started;
  mutation_completed_at = some 4;
  health_started_at = some 5;
}

abbrev pub blocked_job : Job
blocked_job = record armed_job {
  status = blocked;
  terminalized_at = some 6;
  terminal_reason = some "released";
}

abbrev pub material : Material
material = record {
  package_name = "openssl";
  architecture = "amd64";
  installed_version = "1";
  candidate_version = "2";
}

abbrev pub row : String → PackageRow
row owner = record {
  owner_id = owner;
  material = material;
  origin = none;
  description = none;
  security = none;
}

abbrev pub scan : Scan
scan = record {
  scan_run_id = "c";
  context = context;
  attempt_sequence = 1;
  lifecycle = "completed";
  outcome = some "success";
  pending_count = some 1;
  plan_fingerprint = some "f";
}

abbrev pub incarnation : Incarnation
incarnation = record {
  resource_id = "r";
  inventory_source_id = "s";
  vmid = 101;
  continuity_revision = 1;
  resource_type = "lxc";
  presence = "present";
  lifecycle = "active";
  status = "running";
  current_node_id = some "n";
}

abbrev pub binding : Binding
binding = record {
  binding_id = "b";
  resource_id = "r";
  locator_generation = 1;
  valid_to_run_sequence = none;
}

abbrev pub node : Node
node = record { node_id = "n"; external_node_name = "pve"; available = true }

abbrev pub source : Source
source = record {
  inventory_source_id = "s";
  source_config_revision = 1;
  provider_contract_version = 1;
}

abbrev pub endpoint : Endpoint
endpoint = record {
  endpoint_id = "e";
  inventory_source_id = "s";
  lifecycle = "active";
  canonical_transport_locator = "https://pve";
  canonicalization_contract_version = 1;
  transport_trust_revision = 1;
}

abbrev pub source_health : SourceHealth
source_health = record {
  inventory_source_id = "s";
  health = "healthy";
  freshness = "fresh";
  health_origin = "poll";
  health_reason = none;
  freshness_reference_at = some 1;
  freshness_valid_until = some 100;
  committed_source_config_revision = some 1;
  committed_endpoint_id = some "e";
  committed_canonical_transport_locator = some "https://pve";
  committed_canonicalization_contract_version = some 1;
  committed_transport_trust_revision = some 1;
}

abbrev pub probe : FrozenProbe
probe = record { job_id = "j"; probe_index = 0; kind = guest_operational; target = none }

abbrev pub db_with : Job → Db
db_with job = record {
  backend_instance_id = "i";
  published_state_revision = 1;
  published_at = 1;
  jobs = job ∷ [];
  job_packages = row "j" ∷ [];
  job_probes = probe ∷ [];
  probe_results = [];
  events = [];
  post_scan_requests = [];
  incarnations = incarnation ∷ [];
  bindings = binding ∷ [];
  nodes = node ∷ [];
  sources = source ∷ [];
  endpoints = endpoint ∷ [];
  source_healths = source_health ∷ [];
  scans = scan ∷ [];
  scan_packages = row "c" ∷ [];
  contracts = [];
}

abbrev pub good : Observation
good = record {
  probe_index = 0;
  kind = guest_operational;
  target = none;
  outcome = ProbeOutcome.passed;
  reason = "guest_operational_confirmed";
}

abbrev pub openssl : Package
openssl = record { name = "openssl"; architecture = "amd64" }

abbrev pub upgraded : PostState
upgraded = record {
  pre_installed = (openssl, "1") ∷ [];
  post_installed = (openssl, "2") ∷ [];
  post_unfinished = [];
}

abbrev pub ownership : SnapshotOwnership
ownership = record {
  protocol = 1;
  kind = "pre_update";
  job_id = "j";
  resource_id = "r";
  continuity_revision = 1;
  inventory_source_id = "s";
  backend_instance_id = "i";
}
