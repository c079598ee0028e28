-- ===== src/Authority/Mutation/Completions.antt =====
-- What `complete_package_update_mutation` of `app/inventory/authority.py` asks for.
use hubinet_ops.Prelude.{
  String, List, [], ◌∷◌, ◌≡◌, ◌≢◌, refl, arith, Option-cases, string_eq, inl, inr,
}
use hubinet_ops.Models.{status_eq, checkpoint_eq}
use hubinet_ops.Authority.Platform.{Platform}
use hubinet_ops.Authority.Result.{Result, ok, err}
use hubinet_ops.Authority.Tables.{Db, Material}
use hubinet_ops.Authority.Tx.{find_job, require_job_row}
use hubinet_ops.Authority.Checks.{require_uuid}
use hubinet_ops.Authority.Scans.{material_rows}
use hubinet_ops.Authority.Host.{Clock}
use hubinet_ops.Authority.Mutation.{complete_mutation}
use hubinet_ops.Completion.{
  Verdict, proven, refused, PostState, approved_of, prove_package_mutation_completion,
}
use hubinet_ops.Completion.Exact.{IsExact, completion-IsExact}

module _ (p : Platform) where
  verdict_lem :
      (clock : Clock) (id : String) (state : PostState) (db : Db) (r : Result Verdict)
      → (complete_mutation p clock id state db).0 ≡ ok tt
      → prove_package_mutation_completion (material_rows db.job_packages id) state ≡ r
      → r ≡ ok proven
  unfolding complete_mutation require_uuid require_job_row
  verdict_lem clock id state db (err x) h e = elim (Option-cases (find_job id db.jobs)) [
    | inl absent ↦ ground arith
    | inr (job, found) ↦ ground arith
  ]
  verdict_lem clock id state db (ok (refused x)) h e = elim (Option-cases (find_job id db.jobs)) [
    | inl absent ↦ ground arith
    | inr (job, found) ↦ ground arith
  ]
  verdict_lem clock id state db (ok proven) h e = refl

exact_lem :
    (ms : List Material) (state : PostState)
    → prove_package_mutation_completion ms state ≡ ok proven
    → (ms ≢ [])
      × (state.post_unfinished ≡ [])
      × IsExact (approved_of ms) state.pre_installed state.post_installed
unfolding prove_package_mutation_completion
exact_lem [] state h = cc
exact_lem (m ∷ ms) state h = let (u, x) = (completion-IsExact m ms state).0 h in (λ e. cc, u, x)

module _ (p : Platform) where
  -- A call that completes the mutation of a job, or confirms that it is complete, returns only where
  -- the job has frozen material, dpkg reports no unfinished package, and the guest's packages moved
  -- exactly as that material approves.
  pub complete_mutation-IsExact :
      (clock : Clock) (id : String) (state : PostState) (db : Db)
      → (complete_mutation p clock id state db).0 ≡ ok tt
      → (material_rows db.job_packages id ≢ [])
        × (state.post_unfinished ≡ [])
        × IsExact
            (approved_of (material_rows db.job_packages id))
            state.pre_installed
            state.post_installed
  complete_mutation-IsExact clock id state db h =
      exact_lem (material_rows db.job_packages id) state (verdict_lem p clock id state db _ h refl)
