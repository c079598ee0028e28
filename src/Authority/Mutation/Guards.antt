-- ===== src/Authority/Mutation/Guards.antt =====
-- What `execute_package_mutation_submission_if_current` of `app/inventory/authority.py` asks for
-- before it calls the host.
use hubinet_ops.Prelude.{
  String, true, none, some, ◌≡◌, ◌≢◌, inl, inr, Option-cases, arith, string_eq, nat_eq,
}
use text.Mathlib.TextEquality.{eq_iff}
use hubinet_ops.Models.{active, status_eq, Checkpoint, checkpoint_eq}
use hubinet_ops.Authority.Platform.{Platform}
use hubinet_ops.Authority.Result.{ok}
use hubinet_ops.Authority.Tables.{Db, Job}
use hubinet_ops.Authority.Tx.{find_job, require_job_row}
use hubinet_ops.Authority.Checks.{require_uuid, require_evidence_digest}
use hubinet_ops.Authority.Host.Submissions.{after_proof-changed}
use hubinet_ops.Authority.Host.{Clock, Host, submission}
use hubinet_ops.Authority.Mutation.{
  mutation_proof, require_armed_mutation, execute_mutation_submission_if_current,
}

module _ (p : Platform) where
  pub record IsArmedFor (db : Db) (id digest : String) : Type 0 where
    pub job : Job
    pub found : find_job id db.jobs ≡ some job
    pub is_active : job.status ≡ active
    pub at_boundary : job.checkpoint ≡ Checkpoint.mutation_may_have_started
    pub accepted : job.accepted_evidence_digest ≡ some digest

  no_job_lem :
      (clock : Clock) (id digest : String) (db new : Db)
      → mutation_proof p clock id digest db ≡ ok (true, new)
      → find_job id db.jobs ≢ none
  unfolding mutation_proof require_armed_mutation require_job_row require_uuid
      require_evidence_digest
  no_job_lem clock id digest db new h e = ground arith

  job_lem :
      (clock : Clock) (id digest : String) (db new : Db) (job : Job)
      → mutation_proof p clock id digest db ≡ ok (true, new)
      → find_job id db.jobs ≡ some job
      → (job.status ≡ active)
        × (job.checkpoint ≡ Checkpoint.mutation_may_have_started)
        × (job.accepted_evidence_digest ≡ some digest)
  unfolding mutation_proof require_armed_mutation require_job_row require_uuid
      require_evidence_digest
  job_lem clock id digest db new job h e = elim (Option-cases job.accepted_evidence_digest) [
    | inl unset ↦ ground arith
    | inr (a, set) ↦ ground (arith, eq_iff a digest)
  ]

  proof_lem :
      (clock : Clock) (id digest : String) (db new : Db)
      → mutation_proof p clock id digest db ≡ ok (true, new)
      → IsArmedFor db id digest
  proof_lem clock id digest db new h = elim (Option-cases (find_job id db.jobs)) [
    | inl absent ↦ absurd (no_job_lem clock id digest db new h absent)
    | inr (job, found) ↦
        let (s, c, a) = job_lem clock id digest db new job h found in
        record { job = job; found = found; is_active = s; at_boundary = c; accepted = a }
  ]

  -- A submission that changes anything on the host was made for a job that is active at its mutation
  -- boundary and that accepted exactly the evidence that the call carries.
  pub mutation_submission-IsArmedFor :
      {W A : Type 0} (clock : Clock) (id digest : String) (submit : Host W A) (db : Db) (w : W)
      → (execute_mutation_submission_if_current p clock id digest submit db w).2 ≢ w
      → IsArmedFor db id digest
  unfolding execute_mutation_submission_if_current submission
  mutation_submission-IsArmedFor clock id digest submit db w h =
      let (new, proof) =
        after_proof-changed _ submit db w (mutation_proof p clock id digest db) h in
      proof_lem clock id digest db new proof
