-- ===== src/Authority/Issuance/Repeats.antt =====
-- A request for a job that is made again.
use hubinet_ops.Prelude.{
  ℕ, String, Bool, true, false, ◌&&◌, Option, none, some, List, [], ◌∷◌, ◌++◌, ◌==◌, ◌≡◌, refl, ap,
  subst, ◌∙◌, arith, string_eq, if◌then◌else◌, inl, inr, Option-cases, Bool-cases,
}
use text.Mathlib.TextEquality.{eq_iff}
use hubinet_ops.Authority.Result.{Error, Result, ok, err, issuance_refused}
use hubinet_ops.Authority.Platform.{Platform}
use hubinet_ops.Authority.Checks.{require_uuid}
use hubinet_ops.Authority.Query.{find_by}
use hubinet_ops.Authority.Tables.{Time, Scan, Db}
use hubinet_ops.Authority.Tx.{Tx, ◌>>=◌, ◌>>◌, pure, raise, when_null}
use hubinet_ops.Authority.Locator.{CurrentResource}
use hubinet_ops.Authority.Host.{Clock}
use hubinet_ops.Authority.Issuance.Records.{
  Approval, Request, Fence, no_fence, held, unreadable, Decision, already, stale, issued,
}
use hubinet_ops.Authority.Issuance.{
  issue_current, issue_approved, issue_new, issue_body, Book, settle, checked, issue_job,
}

module _ (request resource approval : String) where
  -- A decision of a new issuance: it names what it was asked for.
  abbrev IsNamed : Decision → Type 0
  IsNamed (already id) = ⊥
  IsNamed stale = Unit
  IsNamed (issued r) =
      (r.request_id ≡ request) × (r.resource_id ≡ resource) × (r.approval_id ≡ approval)

  abbrev Ends : Result (Decision × Db) → Type 0
  Ends (ok r) = IsNamed r.0
  Ends (err e) = Unit

  record Names (m : Tx Decision) : Type 0 where
    names : (db : Db) → Ends (m db)

  bind-Ends :
      {A : Type 0} (r : Result (A × Db)) (f : A → Tx Decision)
      → ((a : A) → Names (f a))
      → Ends (elim r [ ok x ↦ f x.0 x.1 | err e ↦ err e ])
  bind-Ends (ok r) f y = (y r.0).names r.1
  bind-Ends (err e) f y = tt

  bind_rule :
      {A : Type 0} (m : Tx A) {f : A → Tx Decision} → ((a : A) → Names (f a)) → Names (m >>= f)
  bind_rule m {f = f} y = record { names = λ db. bind-Ends (m db) f y }

  then_rule : (m : Tx (Unit {0})) {k : Tx Decision} → Names k → Names (m >> k)
  then_rule m x = bind_rule m (λ _. x)

  pure_rule : (d : Decision) → IsNamed d → Names (pure d)
  pure_rule d h = record { names = λ db. h }

  raise_rule : (e : Error) → Names (raise e)
  raise_rule e = record { names = λ db. tt }

  if_rule : (b : Bool) {m k : Tx Decision} → Names m → Names k → Names (if b then m else k)
  if_rule true x y = x
  if_rule false x y = y

  null_rule :
      {B : Type 0} (o : Option B) {n : Tx Decision} {s : B → Tx Decision}
      → Names n
      → ((b : B) → Names (s b))
      → Names (when_null o n s)
  null_rule none x y = x
  null_rule (some b) x y = y b

  done_rule :
      (job_id : String) (at : Time) (n : ℕ) (reviewed : String) (approved : Time) (current : String)
      → Names (
          pure (
            issued (record {
              job_id = job_id;
              request_id = request;
              issued_at = at;
              issuance_sequence = n;
              resource_id = resource;
              approval_id = approval;
              approval_reviewed_scan_run_id = reviewed;
              approval_approved_at = approved;
              current_plan_scan_run_id = current;
            })))
  done_rule job_id at n reviewed approved current = pure_rule _ (refl, refl, refl)

  stale_rule : Names (pure stale)
  stale_rule = pure_rule stale tt

  module _ (p : Platform) (clock : Clock) (requests : List Request) (new_id : String) where
    current_rule :
        (a : Approval) (r : CurrentResource) (s : Scan)
        → Names (issue_current p clock requests new_id request resource approval a r s)
    unfolding issue_current
    current_rule a r s = search (bind_rule, then_rule, if_rule, raise_rule, done_rule) depth 40

    approved_rule :
        (r : CurrentResource) (a : Approval)
        → Names (issue_approved p clock requests new_id request resource approval r a)
    unfolding issue_approved
    approved_rule r a = search (bind_rule, if_rule, stale_rule, current_rule) depth 40

    new_rule :
        (approvals : List Approval) (fence : Fence)
        → Names (issue_new p clock requests new_id request resource approval approvals fence)
    unfolding issue_new
    new_rule approvals unreadable = raise_rule _
    new_rule approvals held = raise_rule _
    new_rule approvals no_fence =
        search (bind_rule, if_rule, null_rule, raise_rule, approved_rule) depth 40

both : (a b : Bool) → true ≡ (a && b) → (a ≡ true) × (b ≡ true)
both a b h = ground arith

holds : (a b : Bool) → a ≡ true → b ≡ true → (a && b) ≡ true
holds a b h k = ground arith

-- A search finds what was put at the end, where it found nothing before.
find_last :
    (test : Request → Bool) (rs : List Request) (r : Request)
    → find_by test rs ≡ none
    → test r ≡ true
    → find_by test (rs ++ r ∷ []) ≡ some r
unfolding find_by
find_last test [] r h t = rw t refl
find_last test (x ∷ xs) r h t = elim (Bool-cases (test x)) [
  | inl hit ↦ ground arith
  | inr miss ↦ rw miss (find_last test xs r (ground arith) t)
]

module _ (p : Platform) (request resource approval : String) where
  -- Where a body answers a job, the request names it afterwards.
  abbrev Answered : Book → Result String × Book → Type 0
  Answered book (err e, after) = Unit
  Answered book (ok id, after) =
      (r : Request) × (find_by (λ (x : Request). x.request_id == request) after.requests ≡ some r)
      × (r.resource_id ≡ resource)
      × (r.approval_id ≡ approval)
      × (r.job_id ≡ id)

  new-Answered :
      (book : Book) (d : Result (Decision × Db))
      → find_by (λ (x : Request). x.request_id == request) book.requests ≡ none
      → Ends request resource approval d
      → Answered book (settle book d)
  unfolding settle
  new-Answered book (err e) n h = tt
  new-Answered book (ok (already id, db)) n h = absurd h
  new-Answered book (ok (stale, db)) n h = tt
  new-Answered book (ok (issued r, db)) n (i, j, k) =
      (r, find_last _ book.requests r n ((eq_iff r.request_id request).1 i), j, k, refl)

  old-Answered :
      (book : Book) (r : Request) (b : Bool)
      → find_by (λ (x : Request). x.request_id == request) book.requests ≡ some r
      → b ≡ (r.resource_id == resource && r.approval_id == approval)
      → Answered book (
          settle book (
            (if b then pure (already r.job_id) else raise (issuance_refused "request_id_conflict"))
              book.db))
  unfolding settle
  old-Answered book r true f t =
      let (x, y) = both (r.resource_id == resource) (r.approval_id == approval) t in
      (r, f, (eq_iff r.resource_id resource).0 x, (eq_iff r.approval_id approval).0 y, refl)
  old-Answered book r false f t = tt

  body-Answered :
      (clock : Clock) (fence : Fence) (new_id : String) (book : Book)
      → Answered book (
          settle book (
            issue_body p clock book.requests new_id request resource approval book.approvals fence
              book.db))
  unfolding issue_body
  body-Answered clock fence new_id book =
      elim (Option-cases (find_by (λ (x : Request). x.request_id == request) book.requests)) [
        | inl absent ↦ rw absent (
            new-Answered book _ absent (
              (new_rule request resource approval p clock book.requests new_id book.approvals
                  fence).names
                book.db))
        | inr (r, found) ↦ rw found (old-Answered book r _ found refl)
      ]

  same_answer :
      (book : Book) (r : Request) (b : Bool) (id : String)
      → b ≡ true
      → r.job_id ≡ id
      → settle book (
          (if b then pure (already r.job_id) else raise (issuance_refused "request_id_conflict"))
            book.db)
        ≡ (ok id, book)
  unfolding settle
  same_answer book r true id h e = ap (λ x. (ok x, book)) e
  same_answer book r false id h e = ground arith

  body_again :
      (clock : Clock) (fence : Fence) (new_id id : String) (book before : Book)
      → Answered before (ok id, book)
      → settle book (
          issue_body p clock book.requests new_id request resource approval book.approvals fence
            book.db)
        ≡ (ok id, book)
  unfolding issue_body
  body_again clock fence new_id id book before (r, found, x, y, e) = rw found (
      same_answer book r _ id
        (holds (r.resource_id == resource) (r.approval_id == approval)
          ((eq_iff r.resource_id resource).1 x) ((eq_iff r.approval_id approval).1 y))
        e)

module _ (p : Platform) where
  checked_ok :
      (book : Book) (r : Result String) (f : String → Result String × Book) (id : String)
      (after : Book)
      → checked book r f ≡ (ok id, after)
      → (x : String) × (r ≡ ok x) × (f x ≡ (ok id, after))
  checked_ok book (ok x) f id after h = (x, refl, h)
  checked_ok book (err e) f id after h = ground arith

  checked_step :
      (book : Book) (r : Result String) (x : String) (f : String → Result String × Book)
      → r ≡ ok x
      → checked book r f ≡ f x
  checked_step book r x f q = ap (λ z. checked book z f) q

  -- A request that was answered with a job is answered with the same job when it is made again for
  -- the same resource and approval, whatever the clock, the fence and the fresh id are by then, and
  -- nothing is written.
  pub issue_job-repeated :
      (clock clock' : Clock) (fence fence' : Fence)
      (new_id new_id' resource approval request id : String) (book after : Book)
      → issue_job p clock fence new_id resource approval request book ≡ (ok id, after)
      → issue_job p clock' fence' new_id' resource approval request after ≡ (ok id, after)
  unfolding issue_job
  issue_job-repeated clock clock' fence fence' new_id new_id' resource approval request id book
        after h =
      let (r, q, h1) = checked_ok book (require_uuid p resource) _ id after h in
      let (a, q1, h2) = checked_ok book (require_uuid p approval) _ id after h1 in
      let (t, q2, h3) = checked_ok book (require_uuid p request) _ id after h2 in
      checked_step after _ r _ q
      ∙ checked_step after _ a _ q1
      ∙ checked_step after _ t _ q2
      ∙ body_again p t r a clock' fence' new_id' id after book
          (subst (Answered p t r a book) h3 (body-Answered p t r a clock fence new_id book))
