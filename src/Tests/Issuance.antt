-- ===== src/Tests/Issuance.antt =====
-- The issuance of a job for an approved plan, and the same request again.
use hubinet_ops.Prelude.{none, [], ◌∷◌, ◌≡◌, refl, arith}
use hubinet_ops.Models.{JobStatus-discrete, Checkpoint-discrete, guest_operational}
use hubinet_ops.Authority.Tables.{Contract}
use hubinet_ops.Authority.Result.{ok}
use hubinet_ops.Authority.Machine.Constraints.{row_checks}
use hubinet_ops.Authority.Checks.{
  require_uuid, require_text, require_architecture, optional_bounded_text,
}
use hubinet_ops.Authority.Plans.{package_plan_fingerprint, health_contract_fingerprint}
use hubinet_ops.Authority.Source.{
  materialize_due_expiry, require_source_row, require_active_endpoint_row,
}
use hubinet_ops.Authority.Scans.{post_update_scan_is_pending, scan_is_current_and_approvable}
use hubinet_ops.Authority.Tx.{append_event}
use hubinet_ops.Authority.Issuance.Records.{Approval, no_fence, held}
use hubinet_ops.Authority.Issuance.{Book, settle, issue_body, issue_job}
use hubinet_ops.Authority.Issuance.Sound.Rules.{IsSound}
use hubinet_ops.Authority.Issuance.Sound.{issue_job-IsSound}
use hubinet_ops.Authority.Issuance.Repeats.{issue_job-repeated}
use hubinet_ops.Tests.Data.{platform, clock, blocked_job, db_with}

abbrev approval : Approval
approval = record {
  approval_id = "a";
  resource_id = "r";
  reviewed_scan_run_id = "c";
  approved_plan_fingerprint = "f";
  approved_at = 1;
}

abbrev contract : Contract
contract = record {
  resource_id = "r";
  revision = 1;
  fingerprint = "f";
  probes = (guest_operational, none) ∷ [];
}

-- The last job of the guest is blocked, and its plan is approved again.
abbrev book : Book
book = record {
  db = record (db_with blocked_job) { contracts = contract ∷ [] };
  approvals = approval ∷ [];
  requests = [];
}

issue_job-IsSound_example : IsSound (issue_job platform clock no_fence "new" "r" "a" "q" book).1.db
unfolding row_checks JobStatus-discrete Checkpoint-discrete
issue_job-IsSound_example =
    issue_job-IsSound platform clock no_fence "new" "r" "a" "q" book ((refl, tt), omega arith)

abbrev after : Book
after = (issue_job platform clock no_fence "new" "r" "a" "q" book).1

issue_job-repeated_example :
    issue_job platform clock held "later" "r" "a" "q" after ≡ (ok "new", after)
unfolding issue_job issue_body settle require_uuid post_update_scan_is_pending
    package_plan_fingerprint require_text require_architecture optional_bounded_text
    materialize_due_expiry require_source_row require_active_endpoint_row
    scan_is_current_and_approvable health_contract_fingerprint JobStatus-discrete append_event
issue_job-repeated_example =
    issue_job-repeated platform clock clock no_fence held "new" "later" "r" "a" "q" "new" book after
      refl
