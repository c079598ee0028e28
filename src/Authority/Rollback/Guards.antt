-- ===== src/Authority/Rollback/Guards.antt =====
-- What `execute_rollback_submission_if_current` of `app/inventory/authority.py` asks for before it
-- calls the host.
use hubinet_ops.Prelude.{
  String, true, none, some, ◌≡◌, ◌≢◌, inl, inr, Option-cases, arith, string_eq, nat_eq,
}
use hubinet_ops.Models.{active, status_eq, Checkpoint, checkpoint_eq}
use hubinet_ops.Authority.Platform.{Platform}
use hubinet_ops.Authority.Result.{ok}
use hubinet_ops.Authority.Tables.{Db, Job}
use hubinet_ops.Authority.Tx.{find_job, require_job_row}
use hubinet_ops.Authority.Checks.{require_uuid}
use hubinet_ops.Authority.Identity.{rollback_identity}
use hubinet_ops.Authority.Host.Submissions.{after_proof-changed}
use hubinet_ops.Authority.Host.{Host, submission}
use hubinet_ops.Authority.Rollback.{
  rollback_proof, require_armed_rollback, execute_rollback_submission_if_current,
}

module _ (p : Platform) where
  pub record IsArmedBack (db : Db) (id : String) : Type 0 where
    pub job : Job
    pub found : find_job id db.jobs ≡ some job
    pub is_active : job.status ≡ active
    pub at_boundary : job.checkpoint ≡ Checkpoint.rollback_may_have_started
    pub confirmed : job.snapshot_confirmed_at ≢ none

  no_job_lem :
      (id : String) (db new : Db)
      → rollback_proof p id db ≡ ok (true, new)
      → find_job id db.jobs ≢ none
  unfolding rollback_proof require_armed_rollback require_job_row require_uuid
  no_job_lem id db new h e = ground arith

  job_lem :
      (id : String) (db new : Db) (job : Job)
      → rollback_proof p id db ≡ ok (true, new)
      → find_job id db.jobs ≡ some job
      → (job.status ≡ active) × (job.checkpoint ≡ Checkpoint.rollback_may_have_started)
  unfolding rollback_proof require_armed_rollback require_job_row require_uuid
  job_lem id db new job h e = ground arith

  confirmed_lem :
      (id : String) (db new : Db) (job : Job)
      → rollback_proof p id db ≡ ok (true, new)
      → find_job id db.jobs ≡ some job
      → job.snapshot_confirmed_at ≢ none
  unfolding rollback_proof require_armed_rollback require_job_row require_uuid rollback_identity
  confirmed_lem id db new job h e c = ground arith

  proof_lem :
      (id : String) (db new : Db) → rollback_proof p id db ≡ ok (true, new) → IsArmedBack db id
  proof_lem id db new h = elim (Option-cases (find_job id db.jobs)) [
    | inl absent ↦ absurd (no_job_lem id db new h absent)
    | inr (job, found) ↦
        let (s, c) = job_lem id db new job h found in
        record {
          job = job;
          found = found;
          is_active = s;
          at_boundary = c;
          confirmed = confirmed_lem id db new job h found;
        }
  ]

  -- A rollback submission that changes anything on the host was made for a job that is active at its
  -- rollback boundary and has a confirmed snapshot.
  pub rollback_submission-IsArmedBack :
      {W A : Type 0} (id : String) (submit : Host W A) (db : Db) (w : W)
      → (execute_rollback_submission_if_current p id submit db w).2 ≢ w
      → IsArmedBack db id
  unfolding execute_rollback_submission_if_current submission
  rollback_submission-IsArmedBack id submit db w h =
      let (new, proof) = after_proof-changed _ submit db w (rollback_proof p id db) h in
      proof_lem id db new proof
