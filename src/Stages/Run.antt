-- ===== src/Stages/Run.antt =====
-- A stage of `app/package_update_*.py` as a program over the tables and the world: it reads clocks,
-- calls transitions of `app/inventory/authority.py`, each a transaction of its own, and asks the host.
-- An exception stops it and keeps what was committed.
use hubinet_ops.Prelude.{ℕ, String, Option, none, some, List, if◌then◌else◌}
use hubinet_ops.Authority.Result.{Error, Result, ok, err, is_authority_conflict, host_failure}
use hubinet_ops.Authority.Tables.{Db, Job, FrozenProbe}
use hubinet_ops.Authority.Tx.{Tx}
use hubinet_ops.Authority.Host.{Clock, Host}

-- `PackageScanFailure`
pub data ScanFailure : Type 0 where
  guest_unavailable unsupported_resource_type unsupported_os package_manager_busy : ScanFailure
  metadata_refresh_failed simulation_failed timeout malformed_plan stale_target : ScanFailure
  execution_failed : ScanFailure

-- What a call of a host control raises: `HostScanFailure`, `TimeoutError`,
-- `PackageUpdateHealthError` with its reason, or anything else.
pub data Fault : Type 0 where
  scan_failed : ScanFailure → String → Fault
  timed_out : Fault
  health_refused : String → String → Fault
  other_fault : Fault

-- An exception inside a stage. `out_of_fuel` is no exception of the code: it marks a polling loop
-- of the model that was given too few rounds.
pub data Raised : Type 0 where
  authority : Error → Raised
  fault : Fault → Raised
  snapshot_error mutation_error rollback_error : Raised
  health_error : String → Raised
  assertion stop_iteration out_of_fuel : Raised

pub data Outcome (A : Type 0) : Type 0 where
  done : A → Outcome A
  raised : Raised → Outcome A

pub data Reply (A : Type 0) : Type 0 where
  answered : A → Reply A
  failed : Fault → Reply A

-- The clocks and the texts of exceptions. Durations are in milliseconds.
pub record Environment (W : Type 0) : Type 0 where
  pub clock : W → Clock × W
  pub monotonic : W → ℕ
  pub sleep : ℕ → W → W
  -- `str(exc)` and `type(exc).__name__`
  pub text : Raised → String
  pub name : Raised → String

-- `PackageUpdateJob`, as the store reads it: the row, and its frozen health contract.
pub record PackageUpdateJob : Type 0 where
  pub row : Job
  pub health_probes : List FrozenProbe

abbrev pub Stage : Type 0 → Type 0 → Type 0
Stage W A = Db → W → Outcome A × Db × W

module _ {W : Type 0} where
  abbrev pub next : {A B : Type 0} → (A → Stage W B) → Outcome A × Db × W → Outcome B × Db × W
  next f (done a, db, w) = f a db w
  next f (raised e, db, w) = (raised e, db, w)

  infixl 5 ◌>>=◌ ◌>>◌
  abbrev pub ◌>>=◌ : {A B : Type 0} → Stage W A → (A → Stage W B) → Stage W B
  ◌>>=◌ m f db w = next f (m db w)

  abbrev pub ◌>>◌ : {B : Type 0} → Stage W (Unit {0}) → Stage W B → Stage W B
  m >> k = m >>= λ _. k

  abbrev pub pure : {A : Type 0} → A → Stage W A
  pure a db w = (done a, db, w)

  abbrev pub raise : {A : Type 0} → Raised → Stage W A
  raise e db w = (raised e, db, w)

  abbrev pub handled :
      {A B : Type 0}
      → (A → Stage W B)
      → (Raised → Stage W B)
      → Outcome A × Db × W
      → Outcome B × Db × W
  handled f h (done a, db, w) = f a db w
  handled f h (raised e, db, w) = h e db w

  -- `try: a = m; except ...: h; else: f a`
  abbrev pub attempt :
      {A B : Type 0} → Stage W A → (A → Stage W B) → (Raised → Stage W B) → Stage W B
  attempt m f h db w = handled f h (m db w)

  -- `except AuthorityConflict`
  abbrev pub on_conflict : {B : Type 0} → Raised → Stage W B → Stage W B
  on_conflict (authority e) h = if is_authority_conflict e then h else raise (authority e)
  on_conflict other h = raise other

  abbrev pub of_result : {A : Type 0} → W → Result A × Db → Outcome A × Db × W
  of_result w (ok a, db) = (done a, db, w)
  of_result w (err e, db) = (raised (authority e), db, w)

  abbrev pub of_hosted : {A : Type 0} → Result A × Db × W → Outcome A × Db × W
  of_hosted (ok a, db, w) = (done a, db, w)
  of_hosted (err e, db, w) = (raised (authority e), db, w)

  abbrev pub of_read : {A : Type 0} → Db → W → Result (A × Db) → Outcome A × Db × W
  of_read db w (ok r) = (done r.0, db, w)
  of_read db w (err e) = (raised (authority e), db, w)

  -- `if value is None: ... else: ...`
  abbrev pub when_null : {A B : Type 0} → Option B → Stage W A → (B → Stage W A) → Stage W A
  when_null none absent present = absent
  when_null (some b) absent present = present b

  -- A transition, one that calls into the host, and a read transaction.
  abbrev pub calling : {A : Type 0} → (Db → Result A × Db) → Stage W A
  calling f db w = of_result w (f db)

  abbrev pub hosted : {A : Type 0} → (Db → W → Result A × Db × W) → Stage W A
  hosted f db w = of_hosted (f db w)

  abbrev pub reading : {A : Type 0} → Tx A → Stage W A
  reading m db w = of_read db w (m db)

  abbrev pub of_reply : {A : Type 0} → Db → Reply A × W → Outcome A × Db × W
  of_reply db (answered a, w) = (done a, db, w)
  of_reply db (failed f, w) = (raised (fault f), db, w)

  -- A host call outside every transaction.
  abbrev pub asking : {A : Type 0} → (W → Reply A × W) → Stage W A
  asking f db w = of_reply db (f w)

  abbrev pub to_host : {A : Type 0} → Reply A × W → Result A × W
  to_host (answered a, w) = (ok a, w)
  to_host (failed f, w) = (err host_failure, w)

  -- The same call as a callback inside a transaction.
  abbrev pub as_callback : {A : Type 0} → (W → Reply A × W) → Host W A
  as_callback f w = to_host (f w)

  abbrev pub observing : {A : Type 0} → (W → A) → Stage W A
  observing f db w = (done (f w), db, w)

  abbrev pub moving : {A : Type 0} → (W → A × W) → Stage W A
  moving f db w = let (a, w') = f w in (done a, db, w')
