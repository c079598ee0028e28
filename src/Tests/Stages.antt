-- ===== src/Tests/Stages.antt =====
-- The worker and its stages at a concrete job, with hosts that answer.
use hubinet_ops.Prelude.{
  ℕ, ◌+◌, ◌≤◌, true, false, none, some, [], ◌∷◌, ◌≡◌, refl, All, arith, string_eq, ◌==◌,
  if◌then◌else◌,
}
use hubinet_ops.Models.{
  JobStatus-discrete, Checkpoint-discrete, ProbeKind-discrete, ProbeOutcome-discrete,
  HostMutationState,
}
use hubinet_ops.Authority.Tables.{Job}
use hubinet_ops.Stages.Run.{timed_out, answered, failed, Environment, PackageUpdateJob}
use hubinet_ops.Stages.Task.{TaskSettings}
use hubinet_ops.Stages.Snapshot.Records.{SnapshotHost}
use hubinet_ops.Stages.Health.{HostHealthResult, EvaluationStatus}
use hubinet_ops.Stages.Rollback.Records.{RollbackHost}
use hubinet_ops.Stages.Mutation.Boundary.{
  HostMutationEvidence, HostMutationResult, MutationHost, MutationSettings, parsed, Parsers,
}
use hubinet_ops.Stages.Worker.Cycle.{WorkerStages}
use hubinet_ops.Authority.Tx.{find_job}
use hubinet_ops.Authority.Machine.Progress.{Advances}
use hubinet_ops.Authority.Calls.Safety.{IsChecked, active_count}
use hubinet_ops.Stages.Reads.{MutationRequest}
use hubinet_ops.Stages.Reach.{Reach, Reaches}
use hubinet_ops.Stages.Task.{poll_until_resolved, unproven}
use hubinet_ops.Stages.Task.Bound.{Ticks, Answers}
use hubinet_ops.Stages.Snapshot.Records.{
  HostSnapshotResult, SnapshotRequest, snapshot_phases, read_inspection,
}
use hubinet_ops.Stages.Snapshot.Bound.{snapshot_poll-Answers}
use hubinet_ops.Stages.Mutation.Polling.{poll_until_terminal}
use hubinet_ops.Stages.Mutation.Bound.{mutation_poll-Answers}
use hubinet_ops.Stages.Mutation.Recovery.{recover_job_owned_mutation}
use hubinet_ops.Stages.Mutation.Calls.{may_recover}
use hubinet_ops.Stages.Mutation.Asks.{recovery_keeps_host}
use hubinet_ops.Stages.Execution.{run_execution_gate}
use hubinet_ops.Stages.Execution.Calls.{may_gate, gate-Reaches}
use hubinet_ops.Stages.Health.{
  EvaluationStatus-discrete, evaluate_job_health, validate_host_health_result,
}
use hubinet_ops.Stages.Health.Calls.{may_evaluate, evaluation-Reaches}
use hubinet_ops.Stages.Health.Exact.{IsFaithful, validated-IsFaithful}
use hubinet_ops.Stages.Worker.{max_stage_transitions, drive, run_once}
use hubinet_ops.Stages.Worker.Calls.{may_work}
use hubinet_ops.Stages.Worker.Safety.{run_once-Reaches}
use hubinet_ops.Stages.Worker.Bound.{drive_within_bound}
use hubinet_ops.Stages.Worker.Keeps.{
  cycle-IsChecked, cycle-Advances, cycle-terminal, cycle-active_count,
}
use hubinet_ops.Tests.Data.{
  platform, clock, armed_job, blocked_job, db_with, good, probe, upgraded, material, ownership,
}
use hubinet_ops.Authority.Machine.Constraints.{row_checks}

-- The world is the time of the monotonic clock.
abbrev env : Environment ℕ
env = record {
  clock = λ w. (clock, w);
  monotonic = λ w. w;
  sleep = λ i w. w + i;
  text = λ e. "conflict";
  name = λ e. "TimeoutError";
}

abbrev evidence : HostMutationEvidence
evidence = record {
  exit_code = "0";
  timed_out = false;
  pre_native_architecture = "amd64";
  pre_installed_inventory = "before";
  post_native_architecture = "amd64";
  post_installed_inventory = "after";
}

abbrev completed : HostMutationResult
completed = record {
  mutation_operation_id = "u";
  state = HostMutationState.terminal_success;
  running = false;
  reason = none;
  os_release = none;
  native_architecture = none;
  installed_inventory = none;
  simulation_stdout = none;
  prepared_evidence_digest = none;
  evidence = some evidence;
}

abbrev mutation_host : MutationHost ℕ
mutation_host = record {
  prepare = λ q w. (failed timed_out, w);
  execute = λ q d w. (failed timed_out, w);
  seal = λ q w. (failed timed_out, w);
  inspect_state = λ q w. (answered completed, w + 1);
}

abbrev parsers : Parsers
parsers = record {
  os_release = λ t. parsed tt;
  native_architecture = λ t. parsed tt;
  apt_simulation = λ t a i. parsed [];
  inventory_state = λ t. parsed (record {
    installed = if t == "before" then upgraded.pre_installed else upgraded.post_installed;
    unfinished = [];
  });
}

abbrev health_answer : HostHealthResult
health_answer = record {
  contract_revision = 1;
  contract_fingerprint = "f";
  probes = good ∷ [];
  evaluation_status = EvaluationStatus.decisive;
  settling_rounds = some 1;
  settling_seconds = some 1;
  last_round_span_ms = some 1;
}

abbrev settings : TaskSettings
settings = record { poll_timeout = 10; poll_interval = 5; poll_fuel = 2 }

abbrev mutation_settings : MutationSettings
mutation_settings = record { poll_timeout = 10; poll_interval = 5; poll_fuel = 2 }

abbrev snapshot_host : SnapshotHost ℕ
snapshot_host = record {
  submit = λ q w. (failed timed_out, w);
  inspect_state = λ q w. (failed timed_out, w + 1);
  seal = λ q w. (failed timed_out, w);
}

abbrev rollback_host : RollbackHost ℕ
rollback_host = record {
  submit = λ q w. (failed timed_out, w);
  inspect_state = λ q w. (failed timed_out, w + 1);
  seal = λ q w. (failed timed_out, w);
}

abbrev stages : WorkerStages ℕ
stages = record {
  snapshot = snapshot_host;
  snapshot_settings = settings;
  execution = λ j w. (failed timed_out, w);
  mutation = mutation_host;
  mutation_settings = mutation_settings;
  rollback = rollback_host;
  rollback_settings = settings;
  health = λ q w. (answered health_answer, w + 1);
  parsers = parsers;
  wake = none;
}

abbrev frozen : PackageUpdateJob
frozen = record { row = armed_job; health_probes = probe ∷ [] }

-- The worker finds the job at its mutation boundary, reads that the mutation completed, and evaluates
-- the health of the guest.
run_once-Reaches_example :
    Reaches platform ℕ (may_work platform) (run_once platform env stages false)
run_once-Reaches_example = run_once-Reaches platform env stages false

within_bound_example :
    drive platform env stages (max_stage_transitions + 5) none "j"
    ≡ drive platform env stages max_stage_transitions none "j"
within_bound_example = drive_within_bound platform env stages 5 "j"

cycle-IsChecked_example :
    All IsChecked (run_once platform env stages false (db_with armed_job) 0).1.jobs
unfolding row_checks JobStatus-discrete Checkpoint-discrete
cycle-IsChecked_example = cycle-IsChecked platform env stages false (db_with armed_job) 0 (refl, tt)

cycle-Advances_example :
    (k : Job) × (find_job "j" (run_once platform env stages false (db_with armed_job) 0).1.jobs
      ≡ some k)
    × Advances armed_job k
unfolding find_job
cycle-Advances_example =
    cycle-Advances platform env stages false (db_with armed_job) 0 "j" armed_job refl

cycle_terminal_example :
    find_job "j" (run_once platform env stages false (db_with blocked_job) 0).1.jobs
    ≡ some blocked_job
unfolding find_job
cycle_terminal_example =
    cycle-terminal platform env stages false (db_with blocked_job) 0 "j" blocked_job refl
      (λ e. ground arith)

cycle_active_example :
    active_count (run_once platform env stages false (db_with armed_job) 0).1.jobs ≤ 1
unfolding JobStatus-discrete
cycle_active_example = cycle-active_count platform env stages false (db_with armed_job) 0

-- A world that counts the package commands that ran, beside the time.
abbrev counting_env : Environment (ℕ × ℕ)
counting_env = record {
  clock = λ w. (clock, w);
  monotonic = λ w. w.0;
  sleep = λ i w. (w.0 + i, w.1);
  text = λ e. "conflict";
  name = λ e. "TimeoutError";
}

abbrev counting_host : MutationHost (ℕ × ℕ)
counting_host = record {
  prepare = λ q w. (failed timed_out, w);
  execute = λ q d w. (failed timed_out, (w.0, w.1 + 1));
  seal = λ q w. (failed timed_out, w);
  inspect_state = λ q w. (answered completed, (w.0 + 1, w.1));
}

recovery_example :
    ((recover_job_owned_mutation platform counting_env counting_host parsers mutation_settings "j"
        (db_with armed_job)
        (0, 1)).2.1
      ≡ 1)
    × Reach platform
        (ℕ × ℕ)
        (may_recover platform)
        (db_with armed_job)
        (recover_job_owned_mutation platform counting_env counting_host parsers mutation_settings
          "j"
          (db_with armed_job)
          (0, 1)).1
recovery_example =
    recovery_keeps_host platform counting_env counting_host (λ w. w.1) (λ w. refl) (λ i w. refl)
      (λ r w. refl) (λ r w. refl) parsers mutation_settings "j" (db_with armed_job) (0, 1)

gate_example :
    Reaches platform ℕ
      (may_gate platform)
      (run_execution_gate platform env stages.execution parsers "j")
gate_example = gate-Reaches platform env stages.execution parsers "j"

evaluation_example :
    Reaches platform ℕ (may_evaluate platform) (evaluate_job_health platform env stages.health "j")
evaluation_example = evaluation-Reaches platform env stages.health "j"

abbrev snapshot_request : SnapshotRequest
snapshot_request = record {
  snapshot_operation_id = "u";
  snapshot_name = "hubinet-preupd-f";
  vmid = 101;
  expected_node = "pve";
  ownership = ownership;
}

snapshot-Ticks : Ticks env (snapshot_host.inspect_state snapshot_request)
snapshot-Ticks = record { sleeps = λ i w. omega arith; asks = λ w. omega arith }

abbrev in_flight : HostSnapshotResult
in_flight = record (unproven "u" "the task is running") { in_progress = true }

-- The task of the snapshot is known and running, and the host fails afterwards.
snapshot_poll_example : Answers (
    poll_until_resolved snapshot_phases env
      (read_inspection env snapshot_host snapshot_request)
      settings
      (some "UPID")
      in_flight
      (db_with armed_job)
      0)
snapshot_poll_example =
    snapshot_poll-Answers env snapshot_host snapshot_request snapshot-Ticks settings (some "UPID")
      in_flight (db_with armed_job) 0 (omega arith)

abbrev mutation_request : MutationRequest
mutation_request = record {
  mutation_operation_id = "u";
  plan_fingerprint = "f";
  backend_instance_id = "i";
  job_id = "j";
  resource_id = "r";
  binding_id = "b";
  locator_generation = 1;
  continuity_revision = 1;
  vmid = 101;
  expected_node = "pve";
  packages = material ∷ [];
}

mutation-Ticks : Ticks env (mutation_host.inspect_state mutation_request)
mutation-Ticks = record { sleeps = λ i w. omega arith; asks = λ w. omega arith }

abbrev launched : HostMutationResult
launched = record completed { state = HostMutationState.submitted; running = true }

-- The mutation was launched and runs, and has completed when the host is asked again.
mutation_poll_example : Answers (
    poll_until_terminal env mutation_host mutation_settings mutation_request launched
      (db_with armed_job)
      0)
mutation_poll_example =
    mutation_poll-Answers env mutation_host mutation_request mutation-Ticks mutation_settings
      launched (db_with armed_job) 0 (omega arith)

validated_example : IsFaithful frozen health_answer (good ∷ [])
unfolding validate_host_health_result ProbeKind-discrete EvaluationStatus-discrete
    ProbeOutcome-discrete
validated_example = validated-IsFaithful frozen health_answer (good ∷ []) refl
