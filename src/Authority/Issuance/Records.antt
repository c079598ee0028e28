-- ===== src/Authority/Issuance/Records.antt =====
-- The rows that `issue_package_update_job` of `app/inventory/authority.py` reads and inserts, and the
-- rules of `app/inventory/health_execution.py` on the probes of a contract.
use hubinet_ops.Prelude.{
  ℕ, ◌+◌, String, Bool, true, false, not, ◌&&◌, ◌||◌, none, some, List, [], ◌∷◌, ◌++◌, map, ◌==◌,
  leb, length, any_of, string_eq, nat_eq, if◌then◌else◌,
}
use hubinet_ops.Models.{
  active, succeeded, status_eq, Checkpoint, systemd_unit_active, guest_operational,
}
use hubinet_ops.Authority.Result.{ok, err, authority_not_found, issuance_refused}
use hubinet_ops.Authority.Platform.{Platform}
use hubinet_ops.Authority.Tables.{Time, Job, PackageRow, FrozenProbe, Scan, Contract, Detail}
use hubinet_ops.Authority.Tx.{Tx, ◌>>=◌, pure, raise, gets, when_null}
use hubinet_ops.Authority.Query.{is_some, is_just}
use hubinet_ops.Authority.Plans.{ProbeSpec}
use hubinet_ops.Authority.Locator.{CurrentResource, current_resource}

-- `package_plan_approvals`
pub record Approval : Type 0 where
  pub approval_id : String
  pub resource_id : String
  pub reviewed_scan_run_id : String
  pub approved_plan_fingerprint : String
  pub approved_at : Time

-- The columns of `package_update_jobs` that name the request, its approval and the order of issuance.
pub record Request : Type 0 where
  pub job_id : String
  pub request_id : String
  pub issued_at : Time
  pub issuance_sequence : ℕ
  pub resource_id : String
  pub approval_id : String
  pub approval_reviewed_scan_run_id : String
  pub approval_approved_at : Time
  pub current_plan_scan_run_id : String

-- What `read_product_update_fence` finds.
pub data Fence : Type 0 where
  no_fence held unreadable : Fence

-- How the transaction ends: a job that the request already has, a stale authority, or a new job.
pub data Decision : Type 0 where
  already : String → Decision
  stale : Decision
  issued : Request → Decision

abbrev pub refused : {A : Type 0} → String → Tx A
refused reason = raise (issuance_refused reason)

-- `_require_package_scan_target`, whose conflict is reported as a refusal.
abbrev pub has_binding : CurrentResource → Bool
has_binding r =
    r.incarnation.presence == "present"
    && r.incarnation.lifecycle == "active"
    && is_some r.binding
    && is_some r.incarnation.current_node_id
    && is_some r.node

unfoldable pub require_issuance_target : String → Tx CurrentResource
unfolding current_resource
require_issuance_target id = do
  found ← gets (λ db. current_resource db id)
  when_null found (raise authority_not_found)
      (λ r. if has_binding r then pure r else refused "resource_not_current")

-- `_package_plan_approval_is_consumed`
unfoldable pub approval_is_consumed : List Request → List Job → String → Bool
approval_is_consumed requests jobs id =
    any_of
      (λ r.
        r.approval_id == id
        && any_of (λ (j : Job). j.job_id == r.job_id && j.status == succeeded) jobs)
      requests

abbrev pub is_successful : Scan → Bool
is_successful s = s.lifecycle == "completed" && is_just s.outcome "success"

-- `SELECT MAX(issuance_sequence) ... WHERE resource_id=?`, 0 where there is none.
unfoldable pub last_issuance : String → List Request → ℕ
last_issuance id [] = 0
last_issuance id (r ∷ rs) =
    let rest = last_issuance id rs in
    if r.resource_id == id && leb rest r.issuance_sequence then r.issuance_sequence else rest

abbrev pub systemd_unit_suffixes : List String
systemd_unit_suffixes =
    ".service" ∷ ".socket" ∷ ".target" ∷ ".timer" ∷ ".mount" ∷ ".automount" ∷ ".path" ∷ ".slice"
    ∷ ".scope" ∷ ".device" ∷ ".swap" ∷ []

module _ (p : Platform) where
  abbrev pub is_unit_name : String → Bool
  is_unit_name t =
      p.fullmatch "[A-Za-z0-9][A-Za-z0-9:_.@-]{0,199}" t
      && not (p.starts_with "-" t)
      && any_of (λ suffix. p.ends_with suffix t) systemd_unit_suffixes

  abbrev pub is_executable_probe : ProbeSpec → Bool
  is_executable_probe (systemd_unit_active, none) = false
  is_executable_probe (systemd_unit_active, some t) = is_unit_name t
  is_executable_probe (guest_operational, target) = not (is_some target)

  -- `require_health_contract_execution_eligible`
  unfoldable pub is_executable : List ProbeSpec → Bool
  is_executable [] = true
  is_executable (s ∷ ss) = is_executable_probe s && is_executable ss

  -- The frozen probes and packages of a new job.
  abbrev pub freeze_probes : String → ℕ → List ProbeSpec → List FrozenProbe
  freeze_probes id n [] = []
  freeze_probes id n ((kind, target) ∷ rest) =
      record { job_id = id; probe_index = n; kind = kind; target = target }
      ∷ freeze_probes id (n + 1) rest

  abbrev pub freeze_package : String → PackageRow → PackageRow
  freeze_package id row = record row { owner_id = id }

  -- The row of a new job, which is active at its first checkpoint.
  unfoldable pub issued_job : String → CurrentResource → Scan → String → Contract → Job
  issued_job id resource scan fingerprint contract = record {
    job_id = id;
    context = scan.context;
    expected_resource_type = resource.incarnation.resource_type;
    approved_plan_fingerprint = fingerprint;
    health_contract_revision = contract.revision;
    health_contract_fingerprint = contract.fingerprint;
    health_contract_probe_count = length contract.probes;
    status = active;
    checkpoint = Checkpoint.issued;
    snapshot_operation_id = none;
    snapshot_name = none;
    snapshot_intent_recorded_at = none;
    snapshot_task_upid = none;
    snapshot_confirmed_at = none;
    mutation_operation_id = none;
    mutation_may_have_started_at = none;
    accepted_evidence_digest = none;
    mutation_completed_at = none;
    health_started_at = none;
    health_completed_at = none;
    health_outcome = none;
    rollback_operation_id = none;
    rollback_may_have_started_at = none;
    rollback_task_upid = none;
    rollback_completed_at = none;
    terminalized_at = none;
    terminal_reason = none;
  }

  -- The rows of a new job. The unique indexes admit one active job, and a fresh id. The CHECK
  -- constraints on the row of the job refuse nothing here that `row_checks` covers, since an issued
  -- row passes it; those on the shape of texts and on positive numbers are not asked.
  unfoldable pub insert_job : List ProbeSpec → List PackageRow → Job → Tx (Unit {0})
  insert_job probes packages job db =
      if any_of (λ (j : Job). j.status == active || j.job_id == job.job_id) db.jobs
      then err (issuance_refused "another_job_active")
      else ok (
        tt,
        record db {
          jobs = db.jobs ++ job ∷ [];
          job_packages = db.job_packages ++ map (freeze_package job.job_id) packages;
          job_probes = db.job_probes ++ freeze_probes job.job_id 0 probes;
        },
      )

  abbrev pub issuance_details : Approval → Scan → Contract → List (String × Detail)
  issuance_details approval scan contract =
      ("approval_reviewed_scan_run_id", Detail.str approval.reviewed_scan_run_id)
      ∷ ("current_plan_scan_run_id", Detail.str scan.scan_run_id)
      ∷ ("health_contract_revision", Detail.number contract.revision)
      ∷ ("health_contract_fingerprint", Detail.str contract.fingerprint)
      ∷ ("health_contract_probe_count", Detail.number (length contract.probes))
      ∷ []
