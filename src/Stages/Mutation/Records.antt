-- ===== src/Stages/Mutation/Records.antt =====
-- What `app/package_update_mutation.py` records of a mutation that is not proven: `_uncertain`,
-- `_record_submitted` and `_terminal_failure`; and the reading of its evidence.
use hubinet_ops.Prelude.{
  String, Bool, ◌&&◌, Option, none, some, [], ◌∷◌, ◌==◌, if◌then◌else◌, string_eq,
}
use hubinet_ops.Models.{active, status_eq, Checkpoint, checkpoint_eq, mutation_state_eq}
use hubinet_ops.Authority.Platform.{Platform}
use hubinet_ops.Authority.Host.{Clock}
use hubinet_ops.Authority.Mutation.{
  record_mutation_uncertain, record_mutation_submitted, record_mutation_terminal_failure,
}
use hubinet_ops.Completion.{PostState}
use hubinet_ops.Stages.Mutation.Boundary.{
  HostMutationResult, HostMutationEvidence, Parsers, Parsed, parsed, malformed, InventoryState,
  MutationStageStatus, MutationStageResult,
}
use hubinet_ops.Stages.Run.{
  Environment, PackageUpdateJob, Stage, ◌>>=◌, ◌>>◌, pure, raise, attempt, on_conflict, calling,
  reading, moving,
}
use hubinet_ops.Stages.Reads.{stored_job, read_job, ◌<>◌}

abbrev pub settled : MutationStageStatus → PackageUpdateJob → Option String → MutationStageResult
settled status job reason = record {
  status = status;
  job = some job;
  failure_class = none;
  reason = reason;
}

-- `PackageUpdateJobStatus.ACTIVE` and `MUTATION_MAY_HAVE_STARTED`
abbrev pub is_armed : PackageUpdateJob → Bool
is_armed j = j.row.status == active && j.row.checkpoint == Checkpoint.mutation_may_have_started

module _ (p : Platform) {W : Type 0} (env : Environment W) where
  -- A transition that answers the job as it is read back.
  abbrev pub recorded :
      (Clock → String → String → Stage W (Unit {0})) → String → String → Stage W PackageUpdateJob
  recorded transition id reason = do
    clock ← moving env.clock
    transition clock id reason
    reading (stored_job p id)

  -- `_uncertain`
  unfoldable pub uncertain : PackageUpdateJob → String → Stage W MutationStageResult
  uncertain job reason =
      attempt
        (recorded (λ c id r. calling (record_mutation_uncertain p c id r)) job.row.job_id
          (p.prefix 500 reason))
        (λ updated. pure (settled MutationStageStatus.uncertain updated (some reason)))
        (λ e. on_conflict e (do
          updated ← reading (read_job p job.row.job_id)
          if is_armed updated
              then raise e
              else pure (
                  settled MutationStageStatus.uncertain updated (
                    some
                      "a concurrent invocation already resolved this job before this uncertainty could be durably recorded; the job's own current state is authoritative and was left untouched"))))

  -- `_record_submitted`
  unfoldable pub record_submitted : PackageUpdateJob → Stage W PackageUpdateJob
  record_submitted job =
      attempt
        (recorded (λ c id r. calling (record_mutation_submitted p c id r)) job.row.job_id
          "host durably journaled this package mutation before launching it")
        pure (λ e. on_conflict e (reading (read_job p job.row.job_id)))

  abbrev pub failure_detail : Option HostMutationEvidence → String
  failure_detail none = "package mutation command reached a failed terminal result"
  failure_detail (some e) =
      "package mutation command reached a failed terminal result (exit_code="
      <> e.exit_code
      <> ", timed_out="
      <> (if e.timed_out then "True)" else "False)")

  -- `_terminal_failure`
  unfoldable pub terminal_failure :
      PackageUpdateJob → HostMutationResult → Stage W MutationStageResult
  terminal_failure job result =
      let detail = failure_detail result.evidence in
      attempt
        (recorded (λ c id r. calling (record_mutation_terminal_failure p c id r)) job.row.job_id
          detail)
        (λ updated. pure (settled MutationStageStatus.terminal_failure updated (some detail)))
        (λ e. on_conflict e (do
          updated ← reading (read_job p job.row.job_id)
          pure (settled MutationStageStatus.terminal_failure updated (some detail))))

module _ (parsers : Parsers) where
  abbrev pub post_state_of : InventoryState → InventoryState → Parsed PostState
  post_state_of pre post = elim (pre.unfinished) [
    | [] ↦ parsed (record {
      pre_installed = pre.installed;
      post_installed = post.installed;
      post_unfinished = post.unfinished;
    })
    | x ∷ xs ↦ malformed "guest already had unfinished dpkg package state before the mutation"
  ]

  -- `_parsed_post_state`
  unfoldable pub parsed_post_state : HostMutationEvidence → Parsed PostState
  parsed_post_state e = elim (parsers.native_architecture e.pre_native_architecture) [
    | malformed m ↦ malformed m
    | parsed _ ↦ elim (parsers.native_architecture e.post_native_architecture) [
      | malformed m ↦ malformed m
      | parsed _ ↦ elim (parsers.inventory_state e.pre_installed_inventory) [
        | malformed m ↦ malformed m
        | parsed pre ↦ elim (parsers.inventory_state e.post_installed_inventory) [
          | malformed m ↦ malformed m
          | parsed post ↦ post_state_of pre post
        ]
      ]
    ]
  ]
