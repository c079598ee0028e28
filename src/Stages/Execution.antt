-- ===== src/Stages/Execution.antt =====
-- `app/package_update_execution.py`: the execution-time plan gate of a job with its confirmed
-- snapshot. The host and the parsers of `app/package_scan.py` are parameters.
pub mod Calls
use hubinet_ops.Prelude.{
  ℕ, String, Bool, true, false, not, ◌&&◌, ◌||◌, Option, none, some, List, ◌==◌, if◌then◌else◌,
  string_eq, nat_eq,
}
use hubinet_ops.Models.{active, status_eq, Checkpoint, checkpoint_eq, ExecutionOutcome}
use hubinet_ops.Authority.Result.{authority_not_found, temporarily_unavailable}
use hubinet_ops.Authority.Platform.{Platform}
use hubinet_ops.Authority.Tables.{PackageRow}
use hubinet_ops.Authority.Gate.{revalidate_or_release, evaluate_execution_plan}
use hubinet_ops.Stages.Run.{
  ScanFailure, Fault, scan_failed, timed_out, stale_target, malformed_plan, timeout,
  execution_failed, Raised, authority, fault, Reply, Environment, PackageUpdateJob, Stage, ◌>>=◌,
  ◌>>◌, pure, raise, attempt, on_conflict, calling, reading, asking, moving,
}
use hubinet_ops.Stages.Reads.{stored_job, read_job}
use hubinet_ops.Stages.Mutation.Boundary.{Parsers, Parsed, parsed, malformed}

-- The five facts of `expected_execution_host_context`.
pub record ExecutionContext : Type 0 where
  pub job_id : String
  pub resource_id : String
  pub binding_id : String
  pub locator_generation : ℕ
  pub continuity_revision : ℕ

-- A context that is no mapping of exactly these keys is `none`.
pub record HostExecutionResult : Type 0 where
  pub context : Option ExecutionContext
  pub os_release : String
  pub native_architecture : String
  pub installed_inventory : String
  pub simulation_stdout : String

abbrev pub ExecutionHost : Type 0 → Type 0
ExecutionHost W = PackageUpdateJob → W → Reply HostExecutionResult × W

pub data ExecutionGateStatus : Type 0 where
  matched mismatched job_not_ready authority_stale : ExecutionGateStatus
  authority_temporarily_unavailable host_failure : ExecutionGateStatus

pub record ExecutionGateOutcome : Type 0 where
  pub status : ExecutionGateStatus
  pub job : Option PackageUpdateJob
  pub failure_class : Option ScanFailure
  pub message : Option String

abbrev pub gate :
    ExecutionGateStatus → Option PackageUpdateJob → Option String → ExecutionGateOutcome
gate status job message = record {
  status = status;
  job = job;
  failure_class = none;
  message = message;
}

abbrev pub host_failed : PackageUpdateJob → ScanFailure → String → ExecutionGateOutcome
host_failed job failure message = record {
  status = ExecutionGateStatus.host_failure;
  job = some job;
  failure_class = some failure;
  message = some message;
}

-- `expected_execution_host_context`
abbrev pub expected_context : PackageUpdateJob → ExecutionContext
expected_context job = record {
  job_id = job.row.job_id;
  resource_id = job.row.context.resource_id;
  binding_id = job.row.context.expected_binding_id;
  locator_generation = job.row.context.expected_locator_generation;
  continuity_revision = job.row.context.expected_continuity_revision;
}

abbrev pub same_context : Option ExecutionContext → ExecutionContext → Bool
same_context none expected = false
same_context (some c) expected =
    c.job_id == expected.job_id
    && c.resource_id == expected.resource_id
    && c.binding_id == expected.binding_id
    && c.locator_generation == expected.locator_generation
    && c.continuity_revision == expected.continuity_revision

-- The `except` clauses of the host round trip.
abbrev pub host_outcome : PackageUpdateJob → Raised → ExecutionGateOutcome
host_outcome job (fault (scan_failed failure message)) = host_failed job failure message
host_outcome job (fault timed_out) =
    host_failed job timeout "package update execution host-control request timed out"
host_outcome job _ = host_failed job execution_failed "package update execution host-control failed"

module _ (p : Platform) {W : Type 0} (env : Environment W) (host : ExecutionHost W)
    (parsers : Parsers) where
  -- `parse_os_release`, then `parse_apt_simulation`
  unfoldable pub simulated_packages : HostExecutionResult → Parsed (List PackageRow)
  simulated_packages r = elim (parsers.os_release r.os_release) [
    | malformed text ↦ malformed text
    | parsed _ ↦
        parsers.apt_simulation r.simulation_stdout r.native_architecture r.installed_inventory
  ]

  -- `except AuthorityNotFound`, `except ...TemporarilyUnavailable`, `except AuthorityConflict`
  abbrev pub on_refusal : PackageUpdateJob → Raised → Stage W ExecutionGateOutcome
  on_refusal job (authority authority_not_found) =
      pure (gate ExecutionGateStatus.job_not_ready none (some "package update job does not exist"))
  on_refusal job (authority temporarily_unavailable) = pure (
      gate ExecutionGateStatus.authority_temporarily_unavailable (some job)
        (some (env.text (authority temporarily_unavailable))))
  on_refusal job e =
      on_conflict e (pure (gate ExecutionGateStatus.job_not_ready (some job) (some (env.text e))))

  abbrev pub status_of : ExecutionOutcome → ExecutionGateStatus
  status_of ExecutionOutcome.matched = ExecutionGateStatus.matched
  status_of ExecutionOutcome.authority_stale = ExecutionGateStatus.authority_stale
  status_of ExecutionOutcome.mismatched = ExecutionGateStatus.mismatched

  -- The decision over a plan that was parsed.
  unfoldable pub decide :
      String → PackageUpdateJob → Parsed (List PackageRow) → Stage W ExecutionGateOutcome
  decide job_id job (malformed text) = pure (host_failed job malformed_plan text)
  decide job_id job (parsed packages) =
      attempt {A = ExecutionOutcome × PackageUpdateJob}
        (do
          clock ← moving env.clock
          outcome ← calling (evaluate_execution_plan p clock job_id packages)
          decided ← reading (stored_job p job_id)
          pure (outcome, decided))
        (λ answer. pure (gate (status_of answer.0) (some answer.1) none)) (on_refusal job)

  -- The host round trip, outside every transaction.
  unfoldable pub simulate : String → PackageUpdateJob → Stage W ExecutionGateOutcome
  unfolding decide simulated_packages
  simulate job_id job =
      attempt (asking (host job))
        (λ result.
          if not (same_context result.context (expected_context job))
          then pure (
              host_failed job stale_target
                "host-control response context does not match the execution request")
          else decide job_id job (simulated_packages result))
        (λ e. pure (host_outcome job e))

  -- The cheap check of current authority before the round trip.
  unfoldable pub revalidate_and_simulate : String → PackageUpdateJob → Stage W ExecutionGateOutcome
  unfolding simulate
  revalidate_and_simulate job_id job =
      attempt {A = Bool × PackageUpdateJob}
        (do
          clock ← moving env.clock
          is_current ← calling (revalidate_or_release p clock job_id)
          updated ← reading (stored_job p job_id)
          pure (is_current, updated))
        (λ answer.
          if not answer.0
          then pure (gate ExecutionGateStatus.authority_stale (some answer.1) none)
          else simulate job_id answer.1)
        (on_refusal job)

  abbrev pub on_missing : Raised → Stage W ExecutionGateOutcome
  on_missing (authority authority_not_found) =
      pure (gate ExecutionGateStatus.job_not_ready none (some "package update job does not exist"))
  on_missing e = raise e

  -- `run_package_update_execution_gate`
  unfoldable pub run_execution_gate : String → Stage W ExecutionGateOutcome
  unfolding revalidate_and_simulate
  run_execution_gate job_id =
      attempt (reading (read_job p job_id))
        (λ job.
          if not (job.row.status == active)
            || not (job.row.checkpoint == Checkpoint.snapshot_confirmed)
          then pure (
              gate ExecutionGateStatus.job_not_ready (some job)
                (some "package update job is not awaiting the execution-time plan gate"))
          else revalidate_and_simulate job_id job)
        on_missing
