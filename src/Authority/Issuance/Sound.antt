-- ===== src/Authority/Issuance/Sound.antt =====
-- What an issuance keeps of the table of jobs.
pub mod Rules
use Rules.{
  Sound, bind-Ends, bind_rule, then_rule, pure_rule, raise_rule, gets_rule, if_rule, null_rule,
  Yields, bind-EndsIn, post_bind, post_lift, post_pure, post_raise, post_if, use-Ends, use_rule,
  yield-Ends, post_use, known_if, spine, IsSound, Ends, EndsIn,
}
use hubinet_ops.Prelude.{
  ◌≤◌, String, Bool, true, false, not, ◌||◌, Option, none, some, List, [], ◌∷◌, ◌++◌, ◌==◌, ◌≡◌,
  refl, sym, subst, arith, any_of, All, string_eq, if◌then◌else◌,
}
use hubinet_ops.Models.{
  Checkpoint, EventLevel, EventType, active, status_eq, JobStatus-discrete, Checkpoint-discrete,
}
use hubinet_ops.Authority.Result.{Error, Result, ok, err, authority_invariant}
use hubinet_ops.Authority.Checks.{require_uuid}
use hubinet_ops.Authority.Platform.{Platform}
use hubinet_ops.Authority.Tables.{Time, Detail, Job, PackageRow, Scan, Contract, Db}
use hubinet_ops.Authority.Tx.{
  Tx, ◌>>=◌, ◌>>◌, pure, raise, gets, lift, ensure, when_null, append_event, bump_published,
}
use hubinet_ops.Authority.Plans.{ProbeSpec, health_contract_fingerprint}
use hubinet_ops.Authority.Plans.Bounds.{IsBounded, fingerprint-IsBounded}
use hubinet_ops.Authority.Locator.{CurrentResource}
use hubinet_ops.Authority.Scans.{resource_health_contract}
use hubinet_ops.Authority.Host.{Clock}
use hubinet_ops.Authority.Machine.Constraints.{row_checks}
use hubinet_ops.Authority.Evolution.{
  Evolves, Evolving, ensure_rule, append_event-Evolving, bump_published-Evolving,
}
use hubinet_ops.Authority.Evolution.Proofs.{
  statements, fingerprint-Evolving, expiry-Evolving, approvable-Evolving,
}
use hubinet_ops.Authority.Calls.Safety.{IsChecked, active_count, jobs-IsChecked, jobs-active_count}
use hubinet_ops.Authority.Issuance.Records.{
  Approval, Request, Fence, no_fence, held, unreadable, Decision, already, stale, issued,
  require_issuance_target, is_executable, refused, issued_job, insert_job,
}
use hubinet_ops.Authority.Issuance.{
  reviewed_scan, require_successful, approved_plan, executable_contract, issue_current,
  issue_approved, issue_new, issue_body, Book, settle, checked, issue_job,
}

All-snoc : (js : List Job) (j : Job) → All IsChecked js → IsChecked j → All IsChecked (js ++ j ∷ [])
All-snoc [] j h c = (c, tt)
All-snoc (k ∷ ks) j h c = (h.0, All-snoc ks j h.1 c)

none_active :
    (id : String) (js : List Job) (j : Job)
    → any_of (λ (k : Job). k.status == active || k.job_id == id) js ≡ false
    → active_count (js ++ j ∷ []) ≤ 1
none_active id [] j h = ground arith
none_active id (k ∷ ks) j h = ground (arith, none_active id ks j)

module _ (p : Platform) where
  Evolves-Ends :
      {A : Type 0} (db : Db) (r : Result (A × Db))
      → elim r as (λ _. Type 0) [ ok x ↦ Evolves p db x.1 | err e ↦ Unit ]
      → IsSound db
      → Ends r
  Evolves-Ends db (ok r) e h =
      let fewer = jobs-active_count p e.jobs in
      (jobs-IsChecked p e.jobs h.0, omega (arith, fewer, h.1))
  Evolves-Ends db (err x) e h = tt

  keeping_rule : {A : Type 0} {m : Tx A} → Evolving p m → Sound m
  keeping_rule {m = m} x = record { sound = λ db h. Evolves-Ends db (m db) (x.evolves db) h }

  issued-IsChecked :
      (id : String) (resource : CurrentResource) (scan : Scan) (fingerprint : String)
      (contract : Contract)
      → (resource.incarnation.resource_type == "lxc") ≡ true
      → IsBounded contract.probes
      → IsChecked (issued_job p id resource scan fingerprint contract)
  unfolding issued_job row_checks JobStatus-discrete Checkpoint-discrete
  issued-IsChecked id resource scan fingerprint contract lxc bounded =
      rw (lxc, bounded.0, bounded.1) refl

  insert-Ends :
      (b : Bool) (e : Error) (id : String) (j : Job) (db new : Db)
      → b ≡ any_of (λ (k : Job). k.status == active || k.job_id == id) db.jobs
      → new.jobs ≡ db.jobs ++ j ∷ []
      → IsChecked j
      → IsSound db
      → Ends (if b then err e else ok (tt {0}, new))
  insert-Ends true e id j db new i n c h = tt
  insert-Ends false e id j db new i n c h = (
    subst (All IsChecked) (sym n) (All-snoc db.jobs j h.0 c),
    subst (λ js. active_count js ≤ 1) (sym n) (none_active id db.jobs j (sym i)),
  )

  insert_rule :
      (probes : List ProbeSpec) (packages : List PackageRow) (j : Job)
      → IsChecked j
      → Sound (insert_job p probes packages j)
  unfolding insert_job
  insert_rule probes packages j c = record {
    sound = λ db h. insert-Ends _ _ j.job_id j db _ refl refl c h;
  }

  issued_insert :
      (packages : List PackageRow) (id : String) (resource : CurrentResource) (scan : Scan)
      (fingerprint : String) (contract : Contract)
      → (resource.incarnation.resource_type == "lxc") ≡ true
      → IsBounded contract.probes
      → Sound (
          insert_job p contract.probes packages
            (issued_job p id resource scan fingerprint contract))
  issued_insert packages id resource scan fingerprint contract lxc bounded =
      insert_rule contract.probes packages _
        (issued-IsChecked id resource scan fingerprint contract lxc bounded)

  event_rule :
      (id : String) (at : Time) (level : EventLevel) (stage : Checkpoint) (event : EventType)
      (message : String) (details : List (String × Detail))
      → Sound (append_event p id at level stage event message details)
  event_rule id at level stage event message details =
      keeping_rule (append_event-Evolving p id at level stage event message details)

  bump_rule : (at : Time) → Sound (bump_published at)
  bump_rule at = keeping_rule (bump_published-Evolving p at)

  target_rule : (id : String) → Sound (require_issuance_target id)
  unfolding require_issuance_target
  target_rule id = keeping_rule (search statements depth 40)

  reviewed_rule : (a : Approval) (id : String) → Sound (reviewed_scan p a id)
  unfolding reviewed_scan
  reviewed_rule a id = keeping_rule (search (statements, fingerprint-Evolving) depth 40)

  successful-Evolving : (s : Option Scan) → Evolving p (require_successful p s)
  successful-Evolving none = search statements depth 40
  successful-Evolving (some s) = search statements depth 40

  plan_rule : (a : Approval) (id : String) → Sound (approved_plan p a id)
  unfolding approved_plan
  plan_rule a id =
      keeping_rule (search (statements, successful-Evolving, fingerprint-Evolving) depth 40)

  -- What is known of a contract that was read.
  abbrev IsUsable : Option Contract → Type 0
  IsUsable none = Unit
  IsUsable (some c) = IsBounded c.probes

  -- A contract that is read from its rows has an accepted number of probes.
  stored_rule :
      (row : Option Contract)
      → Yields IsUsable (
          when_null row (pure none) (λ c. do
            fingerprint ← lift (health_contract_fingerprint p c.probes)
            ensure (fingerprint == c.fingerprint) authority_invariant
            pure (some c)))
  stored_rule none = post_pure none tt
  stored_rule (some c) = post_lift (health_contract_fingerprint p c.probes) _ (λ fingerprint e.
      post_bind (keeping_rule (ensure_rule p _ _))
        (λ _. post_pure (some c) (fingerprint-IsBounded p c.probes fingerprint e)))

  read_rule : (id : String) → Yields IsUsable (resource_health_contract p id)
  unfolding resource_health_contract
  read_rule id = post_bind (gets_rule _) stored_rule

  found_rule :
      (found : Option Contract)
      → IsUsable found
      → Yields
          (λ (c : Contract). IsBounded c.probes)
          (when_null found (refused "health_contract_unconfigured") (λ c.
            if is_executable p c.probes then pure c else refused "health_contract_not_executable"))
  found_rule none h = post_raise _
  found_rule (some c) h = post_if _ (post_pure c h) (post_raise _)

  contract_rule : (id : String) → Yields (λ c. IsBounded c.probes) (executable_contract p id)
  unfolding executable_contract
  contract_rule id = post_use (read_rule id) found_rule

  contract_use :
      (id : String) {B : Type 0} {f : Contract → Tx B}
      → ((c : Contract) → IsBounded c.probes → Sound (f c))
      → Sound (executable_contract p id >>= f)
  contract_use id y = use_rule (contract_rule id) y

  module _ (clock : Clock) (requests : List Request)
      (new_id request resource approval : String) where
    current_rule :
        (a : Approval) (r : CurrentResource) (s : Scan)
        → (r.incarnation.resource_type == "lxc") ≡ true
        → Sound (issue_current p clock requests new_id request resource approval a r s)
    unfolding issue_current
    current_rule a r s lxc =
        search (spine, contract_use, issued_insert, event_rule, bump_rule) depth 40

    approved_rule :
        (r : CurrentResource) (a : Approval)
        → (r.incarnation.resource_type == "lxc") ≡ true
        → Sound (issue_approved p clock requests new_id request resource approval r a)
    unfolding issue_approved
    approved_rule r a lxc = bind_rule (reviewed_rule a _) (λ reviewed.
        bind_rule (plan_rule a _) (λ current.
          bind_rule (keeping_rule (expiry-Evolving p _ _)) (λ expired.
            bind_rule (keeping_rule (approvable-Evolving p current))
              (λ valid. if_rule _ (current_rule a r current lxc) (pure_rule _)))))

    lxc_lem : (b : Bool) → not b ≡ false → b ≡ true
    lxc_lem b h = ground arith

    new_rule :
        (approvals : List Approval) (fence : Fence)
        → Sound (issue_new p clock requests new_id request resource approval approvals fence)
    unfolding issue_new
    new_rule approvals unreadable = raise_rule _
    new_rule approvals held = raise_rule _
    new_rule approvals no_fence = bind_rule (target_rule resource) (λ r.
        known_if (not (r.incarnation.resource_type == "lxc")) (λ _. raise_rule _)
          (λ b.
            let approved = λ (a : Approval). approved_rule r a (lxc_lem _ b) in
            search (spine, approved) depth 40))

    body_rule :
        (approvals : List Approval) (fence : Fence)
        → Sound (issue_body p clock requests new_id request resource approval approvals fence)
    unfolding issue_body
    body_rule approvals fence = search (spine, new_rule) depth 40

  settle_rule :
      (book : Book) (r : Result (Decision × Db))
      → IsSound book.db
      → Ends r
      → IsSound (settle book r).1.db
  unfolding settle
  settle_rule book (err e) h s = h
  settle_rule book (ok (already id, db)) h s = s
  settle_rule book (ok (stale, db)) h s = s
  settle_rule book (ok (issued r, db)) h s = s

  checked_rule :
      (book : Book) (r : Result String) (f : String → Result String × Book)
      → IsSound book.db
      → ((a : String) → IsSound (f a).1.db)
      → IsSound (checked book r f).1.db
  checked_rule book (err e) f h k = h
  checked_rule book (ok a) f h k = k a

  -- Where every row of the table of jobs passes `row_checks` and at most one job is active, the same
  -- holds after the issuance of a job, whether it is issued or refused. That a new row is of a
  -- container, with an accepted number of probes, follows from what the issuance tests; that no
  -- second job becomes active is the unique index that the insertion meets.
  pub issue_job-IsSound :
      (clock : Clock) (fence : Fence) (new_id resource approval request : String) (book : Book)
      → IsSound book.db
      → IsSound (issue_job p clock fence new_id resource approval request book).1.db
  unfolding issue_job
  issue_job-IsSound clock fence new_id resource approval request book h =
      checked_rule book (require_uuid p resource) _ h (λ r.
        checked_rule book (require_uuid p approval) _ h (λ a.
          checked_rule book (require_uuid p request) _ h (λ t.
            settle_rule book _ h
              ((body_rule clock book.requests new_id t r a book.approvals fence).sound book.db h))))
