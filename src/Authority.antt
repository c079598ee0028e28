-- ===== src/Authority.antt =====
-- `app/inventory/authority.py`: the durable authority over package update jobs. `Tables` is the
-- state, `Tx` the transactions, `Checks` the validation of arguments, `Context` the proof that
-- current authority holds, and the other children the transitions of a job.
pub mod Result
pub mod Tables
pub mod Platform
pub mod Checks
pub mod Plans
pub mod Tx
pub mod Identity
pub mod Query
pub mod Locator
pub mod Source
pub mod Scans
pub mod Context
pub mod Host
pub mod Rows
pub mod Ownership
pub mod Snapshot
pub mod SnapshotRelease
pub mod Gate
pub mod Mutation
pub mod MutationRelease
pub mod HealthStage
pub mod HealthUnknown
pub mod Rollback
pub mod RollbackCompletion
pub mod Recovery
pub mod Issuance
pub mod Machine
pub mod Evolution
pub mod Calls
