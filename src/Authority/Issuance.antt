-- ===== src/Authority/Issuance.antt =====
-- The issuance of a job in `app/inventory/authority.py`, `issue_package_update_job`, with the rules of
-- `app/inventory/health_execution.py`. The columns of `package_update_jobs` that only an issuance
-- writes and reads are rows of their own here, and the fence file is an argument.
pub mod Records
pub mod Sound
pub mod Repeats
use hubinet_ops.Prelude.{
  ◌+◌, String, not, ◌&&◌, ◌||◌, Option, none, some, List, [], ◌∷◌, ◌++◌, ◌==◌, length, string_eq,
  nat_eq, if◌then◌else◌,
}
use hubinet_ops.Models.{status_eq, Checkpoint, info, EventType}
use hubinet_ops.Authority.Result.{
  Result, ok, err, authority_not_found, authority_invariant, issuance_refused,
}
use hubinet_ops.Authority.Platform.{Platform}
use hubinet_ops.Authority.Checks.{require_uuid}
use hubinet_ops.Authority.Tables.{Scan, Contract, Db}
use hubinet_ops.Authority.Tx.{
  Tx, ◌>>=◌, ◌>>◌, pure, raise, gets, ensure, when_null, append_event, bump_published,
}
use hubinet_ops.Authority.Query.{find_by}
use hubinet_ops.Authority.Locator.{CurrentResource}
use hubinet_ops.Authority.Source.{materialize_due_expiry}
use hubinet_ops.Authority.Scans.{
  post_update_scan_is_pending, latest_scan_from, rows_of, same_context, successful_scan_fingerprint,
  scan_is_current_and_approvable, resource_health_contract,
}
use hubinet_ops.Authority.Host.{Clock}
use hubinet_ops.Authority.Issuance.Records.{
  Approval, Request, Fence, no_fence, held, unreadable, Decision, already, stale, issued, refused,
  require_issuance_target, approval_is_consumed, is_successful, last_issuance, is_executable,
  issued_job, insert_job, issuance_details,
}

module _ (p : Platform) where
  -- The checks on the approval and the scan that was reviewed; its fingerprint.
  unfoldable pub reviewed_scan : Approval → String → Tx Scan
  unfolding find_by successful_scan_fingerprint
  reviewed_scan approval resource_id = do
    found ← gets (λ db. find_by (λ s. s.scan_run_id == approval.reviewed_scan_run_id) db.scans)
    when_null found (raise authority_not_found) (λ reviewed. do
      ensure (reviewed.context.resource_id == resource_id) authority_invariant
      ensure (is_successful reviewed) authority_invariant
      fingerprint ← successful_scan_fingerprint p reviewed
      ensure (fingerprint == approval.approved_plan_fingerprint) authority_invariant
      pure reviewed)

  abbrev pub no_plan : Option Scan → String
  no_plan none = "plan_not_approved"
  no_plan (some s) =
      if s.lifecycle == "running" then "source_authority_unavailable" else "plan_not_approved"

  -- The latest scan, which must be the approved plan.
  abbrev pub require_successful : Option Scan → Tx Scan
  require_successful none = refused (no_plan none)
  require_successful (some s) = if is_successful s then pure s else refused (no_plan (some s))

  unfoldable pub approved_plan : Approval → String → Tx Scan
  unfolding latest_scan_from successful_scan_fingerprint
  approved_plan approval resource_id = do
    latest ← gets (λ db. latest_scan_from none resource_id db.scans)
    current ← require_successful latest
    fingerprint ← successful_scan_fingerprint p current
    if fingerprint == approval.approved_plan_fingerprint
        then pure current
        else refused "plan_not_approved"

  -- The contract of the resource, which the executor must be able to evaluate.
  unfoldable pub executable_contract : String → Tx Contract
  unfolding resource_health_contract is_executable
  executable_contract resource_id = do
    found ← resource_health_contract p resource_id
    when_null found (refused "health_contract_unconfigured") (λ contract.
        if is_executable p contract.probes
        then pure contract
        else refused "health_contract_not_executable")

  module _ (clock : Clock) (requests : List Request)
      (new_id request_id resource_id approval_id : String) where
    -- The rows of a job for a plan whose authority is current.
    unfoldable pub issue_current : Approval → CurrentResource → Scan → Tx Decision
    unfolding executable_contract issued_job insert_job last_issuance
    issue_current approval resource scan = do
      packages ← gets (λ db. rows_of scan.scan_run_id db.scan_packages)
      if length packages == 0 then refused "plan_empty" else (do
        contract ← executable_contract resource_id
        insert_job p contract.probes packages
            (issued_job p new_id resource scan approval.approved_plan_fingerprint contract)
        append_event p new_id clock.decided_at info Checkpoint.issued EventType.job_issued
            "package update job authority issued" (issuance_details p approval scan contract)
        bump_published clock.published_at
        pure (
            issued (record {
              job_id = new_id;
              request_id = request_id;
              issued_at = clock.decided_at;
              issuance_sequence = last_issuance resource_id requests + 1;
              resource_id = resource_id;
              approval_id = approval_id;
              approval_reviewed_scan_run_id = approval.reviewed_scan_run_id;
              approval_approved_at = approval.approved_at;
              current_plan_scan_run_id = scan.scan_run_id;
            })))

    -- From the approval on: what was reviewed, what is current, and whether both still hold.
    unfoldable pub issue_approved : CurrentResource → Approval → Tx Decision
    unfolding reviewed_scan approved_plan issue_current
    issue_approved resource approval = do
      reviewed ← reviewed_scan approval resource_id
      current ← approved_plan approval resource_id
      _ ← materialize_due_expiry current.context.inventory_source_id clock.decided_at
      valid ← scan_is_current_and_approvable p current
      if valid && same_context current.context reviewed.context
          then issue_current approval resource current
          else pure stale

    -- A request that no job has yet.
    unfoldable pub issue_new : List Approval → Fence → Tx Decision
    unfolding require_issuance_target approval_is_consumed issue_approved
    issue_new approvals unreadable = raise authority_invariant
    issue_new approvals held = refused "product_update_in_progress"
    issue_new approvals no_fence = do
      resource ← require_issuance_target resource_id
      if not (resource.incarnation.resource_type == "lxc")
          then refused "resource_unsupported"
          else (do
            pending ← gets (λ db. post_update_scan_is_pending db resource_id)
            if pending
                then refused "source_authority_unavailable"
                else when_null (find_by (λ (a : Approval). a.resource_id == resource_id) approvals)
                    (refused "no_current_approval")
                    (λ approval. do
                      consumed ← gets (λ db. approval_is_consumed requests db.jobs approval_id)
                      if not (approval.approval_id == approval_id)
                          then refused "approval_not_current"
                          else if consumed
                          then refused "approval_consumed"
                          else issue_approved resource approval))

    abbrev pub repeated : Request → Tx Decision
    repeated r =
        if r.resource_id == resource_id && r.approval_id == approval_id
        then pure (already r.job_id)
        else refused "request_id_conflict"

    -- The body of the transaction.
    unfoldable pub issue_body : List Approval → Fence → Tx Decision
    unfolding issue_new find_by
    issue_body approvals fence =
        when_null (find_by (λ (r : Request). r.request_id == request_id) requests)
          (issue_new approvals fence) repeated

-- The tables that an issuance reads and writes.
pub record Book : Type 0 where
  pub db : Db
  pub approvals : List Approval
  pub requests : List Request

-- The commit, and what is answered after it: a stale authority is refused, but its expiry stays.
unfoldable pub settle : Book → Result (Decision × Db) → Result String × Book
settle book (err e) = (err e, book)
settle book (ok (already id, db)) = (ok id, record book { db = db })
settle book (ok (stale, db)) = (err (issuance_refused "plan_not_approved"), record book { db = db })
settle book (ok (issued r, db)) =
    (ok r.job_id, record book { db = db; requests = book.requests ++ r ∷ [] })

-- An identifier that is checked before the transaction begins.
abbrev pub checked : Book → Result String → (String → Result String × Book) → Result String × Book
checked book (err e) f = (err e, book)
checked book (ok id) f = f id

-- `issue_package_update_job`, with the id that `_new_uuid` gives. It answers the id of the job.
unfoldable pub issue_job :
    Platform → Clock → Fence → String → String → String → String → Book → Result String × Book
unfolding issue_body settle
issue_job p clock fence new_id resource_id approval_id request_id book =
    checked book (require_uuid p resource_id) (λ resource.
      checked book (require_uuid p approval_id) (λ approval.
        checked book (require_uuid p request_id) (λ request. settle book (
          issue_body p clock book.requests new_id request resource approval book.approvals fence
            book.db))))
