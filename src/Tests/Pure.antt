-- ===== src/Tests/Pure.antt =====
-- Verdicts, listings, completion proofs and events.
use hubinet_ops.Prelude.{
  ℕ, suc, true, false, none, some, [], ◌∷◌, ◌++◌, ◌≡◌, ◌≢◌, ◌<◌, refl, ◌↔◌, All, Any,
}
use mathlib.Core.List.{Memᴰ}
use hubinet_ops.Models.{
  Checkpoint, ProbeOutcome, HealthOutcome, aggregate_health_outcome, checkpoint_order,
  checkpoint_ranks, warning, EventType,
}
use hubinet_ops.Models.Verdict.{aggregate_health_outcome_verdict, IsPassed, IsFailed}
use hubinet_ops.Authority.Tables.{PackageRow, Event}
use hubinet_ops.Authority.Result.{ok}
use hubinet_ops.Models.Ranks.{value_of, get_elem?, checkpoint_rank_places}
use hubinet_ops.Authority.Checks.{
  require_text, require_architecture, optional_bounded_text, insert, sorted,
}
use hubinet_ops.Authority.Plans.{validate_package_plan, validate_packages}
use hubinet_ops.Authority.Tx.{append_event, last_sequence}
use hubinet_ops.Authority.Tx.Sequences.{append_event-sequence}
use hubinet_ops.Authority.Ownership.{ObservedSnapshot, require_exactly_one_job_owned_snapshot}
use hubinet_ops.Authority.Ownership.Exactly.{IsExactlyOne, exactly_one-IsExactlyOne}
use hubinet_ops.Completion.{approved_of, proven, prove_package_mutation_completion}
use hubinet_ops.Completion.Exact.{IsExact, completion-IsExact}
use hubinet_ops.Tests.Data.{ownership, platform, armed_job, material, db_with, upgraded}

aggregate_example :
    ((aggregate_health_outcome (ProbeOutcome.passed ∷ []) ≡ none)
      ↔ ((ProbeOutcome.passed ∷ []) ≡ []))
    × ((aggregate_health_outcome (ProbeOutcome.passed ∷ []) ≡ some HealthOutcome.passed)
        ↔ (((ProbeOutcome.passed ∷ []) ≢ []) × All IsPassed (ProbeOutcome.passed ∷ [])))
    × ((aggregate_health_outcome (ProbeOutcome.passed ∷ []) ≡ some HealthOutcome.failed)
        ↔ Any IsFailed (ProbeOutcome.passed ∷ []))
aggregate_example = aggregate_health_outcome_verdict (ProbeOutcome.passed ∷ [])

rank_example :
    (value_of Checkpoint.snapshot_confirmed checkpoint_ranks ≡ some 4)
    × ((n : ℕ) → (get_elem? checkpoint_order n ≡ some Checkpoint.snapshot_confirmed) ↔ (4 ≡ suc n))
rank_example = checkpoint_rank_places Checkpoint.snapshot_confirmed

completion_example : (prove_package_mutation_completion (material ∷ []) upgraded ≡ ok proven) ↔ (
    (upgraded.post_unfinished ≡ [])
    × IsExact (approved_of (material ∷ [])) upgraded.pre_installed upgraded.post_installed)
completion_example = completion-IsExact material [] upgraded

abbrev running_entry : ObservedSnapshot
running_entry = record {
  name = "current";
  is_current_pseudo_entry = true;
  incomplete = false;
  parent = none;
  ownership = none;
  ownership_malformed = false;
}

abbrev job_snapshot : ObservedSnapshot
job_snapshot = record {
  name = "hubinet-preupd-f";
  is_current_pseudo_entry = false;
  incomplete = false;
  parent = none;
  ownership = some ownership;
  ownership_malformed = false;
}

exactly_one_example :
    (require_exactly_one_job_owned_snapshot "j"
        (some "hubinet-preupd-f")
        (running_entry ∷ job_snapshot ∷ [])
        ownership
      ≡ ok job_snapshot)
    ↔ IsExactlyOne "j" "hubinet-preupd-f" ownership job_snapshot (running_entry ∷ job_snapshot ∷ [])
exactly_one_example =
    exactly_one-IsExactlyOne "j" "hubinet-preupd-f" ownership (running_entry ∷ job_snapshot ∷ [])
      job_snapshot

abbrev submitted_event : Event
submitted_event = record {
  job_id = "j";
  sequence = 1;
  created_at = 7;
  level = warning;
  stage = Checkpoint.mutation_may_have_started;
  event_type = EventType.mutation_submitted;
  message = "submitted";
  details = [];
}

event_example :
    (e : Event) × ((submitted_event ∷ []) ≡ [] ++ e ∷ [])
    × (e.job_id ≡ "j")
    × ((x : Event) → Memᴰ x [] → x.job_id ≡ "j" → x.sequence < e.sequence)
unfolding append_event require_text last_sequence
event_example =
    append_event-sequence platform "j" 7 warning Checkpoint.mutation_may_have_started
      EventType.mutation_submitted "submitted" [] (db_with armed_job)
      (record (db_with armed_job) { events = submitted_event ∷ [] }) refl

-- A row whose candidate is the installed version is part of a valid plan.
abbrev unchanged_row : PackageRow
unchanged_row = record {
  owner_id = "c";
  material = record material { candidate_version = "1" };
  origin = none;
  description = none;
  security = none;
}

unchanged_lem :
    validate_package_plan platform (unchanged_row ∷ [])
    ≡ ok (record material { candidate_version = "1" } ∷ [])
unfolding validate_package_plan validate_packages require_text require_architecture
    optional_bounded_text insert sorted
unchanged_lem = refl
