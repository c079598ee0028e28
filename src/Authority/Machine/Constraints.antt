-- ===== src/Authority/Machine/Constraints.antt =====
-- CHECK constraints of `package_update_jobs` in `app/inventory/store.py`, as a test of a row.
use hubinet_ops.Prelude.{
  ℕ, Bool, true, false, not, ◌&&◌, ◌||◌, string_eq, Option, none, some, ◌==◌, leb, nat_eq,
}
use hubinet_ops.Models.{
  active, rolled_back, succeeded, status_eq, Checkpoint, checkpoint_eq, checkpoint_rank,
  HealthOutcome, health_outcome_eq,
}
use hubinet_ops.Authority.Tables.{Job}
use hubinet_ops.Authority.Plans.{max_health_probes, min_health_probes}
use hubinet_ops.Authority.Query.{is_some}
use hubinet_ops.Authority.Rows.{is_null}

abbrev pub at_least : ℕ → Job → Bool
at_least n j = leb n (checkpoint_rank j.checkpoint)

abbrev pub is_outcome : HealthOutcome → Option HealthOutcome → Bool
is_outcome o none = false
is_outcome o (some v) = v == o

infixr 2 ◌implies◌
abbrev pub ◌implies◌ : Bool → Bool → Bool
true implies b = b
false implies b = true

abbrev pub same : Bool → Bool → Bool
same true b = b
same false b = not b

abbrev pub status_checks : Job → Bool
status_checks j =
    same (j.status == active) (is_null j.terminalized_at)
    && same (j.status == active) (is_null j.terminal_reason)
    && ((j.status == rolled_back) implies is_some j.rollback_completed_at)
    && ((j.status == succeeded)
        implies (is_some j.mutation_completed_at
            && is_some j.health_started_at
            && is_some j.health_completed_at
            && is_outcome HealthOutcome.passed j.health_outcome
            && j.checkpoint == Checkpoint.health_completed))
    && (is_outcome HealthOutcome.passed j.health_outcome implies (j.status == succeeded))
    && ((j.checkpoint == Checkpoint.rollback_completed) implies (j.status == rolled_back))

abbrev pub snapshot_checks : Job → Bool
snapshot_checks j =
    same (is_null j.snapshot_operation_id) (is_null j.snapshot_intent_recorded_at)
    && (is_some j.snapshot_operation_id implies is_some j.snapshot_name)
    && (is_some j.snapshot_task_upid implies is_some j.snapshot_operation_id)
    && (is_some j.snapshot_confirmed_at
        implies (is_some j.snapshot_name && is_some j.snapshot_operation_id))
    && same (at_least 3 j) (is_some j.snapshot_operation_id)
    && same (at_least 4 j) (is_some j.snapshot_confirmed_at)

abbrev pub mutation_checks : Job → Bool
mutation_checks j =
    same (at_least 5 j) (is_some j.mutation_operation_id)
    && same (at_least 5 j) (is_some j.mutation_may_have_started_at)
    && same (at_least 5 j) (is_some j.accepted_evidence_digest)
    && ((j.checkpoint == Checkpoint.mutation_completed) implies is_some j.mutation_completed_at)
    && (is_some j.mutation_completed_at implies at_least 6 j)

abbrev pub started_check : Job → Bool
started_check j =
    (j.checkpoint == Checkpoint.health_started)
    implies (is_some j.mutation_completed_at && is_some j.health_started_at)

-- `health_outcome IN ('passed', 'failed')`
abbrev pub verdict_check : Job → Bool
verdict_check j =
    is_null j.health_outcome
    || is_outcome HealthOutcome.passed j.health_outcome
    || is_outcome HealthOutcome.failed j.health_outcome

abbrev pub health_checks : Job → Bool
health_checks j =
    started_check j
    && (is_some j.health_started_at implies (is_some j.mutation_completed_at && at_least 7 j))
    && ((j.checkpoint == Checkpoint.health_completed)
        implies (is_some j.health_completed_at
            && is_some j.health_outcome
            && is_some j.health_started_at))
    && same (is_null j.health_completed_at) (is_null j.health_outcome)
    && verdict_check j
    && (is_some j.health_completed_at implies (is_some j.health_started_at && at_least 8 j))

abbrev pub rollback_checks : Job → Bool
rollback_checks j =
    same (at_least 9 j) (is_some j.rollback_operation_id)
    && same (at_least 9 j) (is_some j.rollback_may_have_started_at)
    && (is_some j.rollback_task_upid implies at_least 9 j)
    && same (at_least 10 j) (is_some j.rollback_completed_at)
    && (is_some j.rollback_completed_at implies is_some j.rollback_task_upid)

-- `expected_resource_type = 'lxc'`
abbrev pub container_check : Job → Bool
container_check j = j.expected_resource_type == "lxc"

-- `health_contract_probe_count BETWEEN {MIN_HEALTH_PROBES} AND {MAX_HEALTH_PROBES}`
abbrev pub probe_count_check : Job → Bool
probe_count_check j =
    leb min_health_probes j.health_contract_probe_count
    && leb j.health_contract_probe_count max_health_probes

-- What an issuance freezes.
abbrev pub issue_checks : Job → Bool
issue_checks j = container_check j && probe_count_check j

-- The constraints on the table that relate the status, the checkpoint and the columns, and the
-- column constraints on the stored verdict, the resource type and the number of probes. What
-- follows from the others, such as a rollback that needs its confirmed snapshot, is not repeated.
-- The remaining column constraints, on the shape of texts (identifiers, names, task identifiers,
-- digests, fingerprints, reasons) and on copied numbers being positive, are not part of it.
unfoldable pub row_checks : Job → Bool
row_checks j =
    issue_checks j
    && status_checks j
    && snapshot_checks j
    && mutation_checks j
    && health_checks j
    && rollback_checks j
