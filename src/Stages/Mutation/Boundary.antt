-- ===== src/Stages/Mutation/Boundary.antt =====
-- The host boundary of `app/package_update_mutation.py`: what it answers, its four operations, and the
-- parsers of `app/package_scan.py` that read the evidence.
use hubinet_ops.Prelude.{ℕ, String, Bool, Option, List}
use hubinet_ops.Models.{HostMutationState}
use hubinet_ops.Authority.Tables.{PackageRow}
use hubinet_ops.Completion.{Package}
use hubinet_ops.Completion.Maps.{Dict}
use hubinet_ops.Stages.Run.{ScanFailure, Reply, PackageUpdateJob}
use hubinet_ops.Stages.Reads.{MutationRequest}

-- The exit code is only printed, so it is the text of the number.
pub record HostMutationEvidence : Type 0 where
  pub exit_code : String
  pub timed_out : Bool
  pub pre_native_architecture : String
  pub pre_installed_inventory : String
  pub post_native_architecture : String
  pub post_installed_inventory : String

pub record HostMutationResult : Type 0 where
  pub mutation_operation_id : String
  pub state : HostMutationState
  pub running : Bool
  pub reason : Option String
  pub os_release : Option String
  pub native_architecture : Option String
  pub installed_inventory : Option String
  pub simulation_stdout : Option String
  pub prepared_evidence_digest : Option String
  pub evidence : Option HostMutationEvidence

-- `PackageUpdateMutationHostControl`
pub record MutationHost (W : Type 0) : Type 0 where
  pub prepare : MutationRequest → W → Reply HostMutationResult × W
  pub execute : MutationRequest → String → W → Reply HostMutationResult × W
  pub seal : MutationRequest → W → Reply HostMutationResult × W
  pub inspect_state : MutationRequest → W → Reply HostMutationResult × W

-- `PackageScanParseError` with its text, or what was read.
pub data Parsed (A : Type 0) : Type 0 where
  parsed : A → Parsed A
  malformed : String → Parsed A

pub record InventoryState : Type 0 where
  pub installed : Dict Package String
  pub unfinished : List (Package × String)

-- `parse_os_release`, `parse_native_architecture`, `parse_apt_simulation` of an output, an
-- architecture and an inventory, and `parse_installed_inventory_state`.
pub record Parsers : Type 0 where
  pub os_release : String → Parsed (Unit {0})
  pub native_architecture : String → Parsed (Unit {0})
  pub apt_simulation : String → String → String → Parsed (List PackageRow)
  pub inventory_state : String → Parsed InventoryState

pub data MutationStageStatus : Type 0 where
  completed running not_submitted terminal_failure uncertain mismatched : MutationStageStatus
  authority_stale authority_temporarily_unavailable job_not_ready : MutationStageStatus
  host_failure : MutationStageStatus

pub record MutationStageResult : Type 0 where
  pub status : MutationStageStatus
  pub job : Option PackageUpdateJob
  pub failure_class : Option ScanFailure
  pub reason : Option String

-- The arguments of the constructor, in milliseconds, and the fuel of one poll.
pub record MutationSettings : Type 0 where
  pub poll_timeout : ℕ
  pub poll_interval : ℕ
  pub poll_fuel : ℕ
