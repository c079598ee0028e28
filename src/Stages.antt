-- ===== src/Stages.antt =====
-- The stages of an update job, `app/package_update_*.py`: what calls the transitions of the
-- authority and the host, and the worker that composes them.
pub mod Rollback
pub mod Run
pub mod Reads
pub mod Snapshot
pub mod Task
pub mod Worker
pub mod Leaves
pub mod Reach
pub mod Execution
pub mod Health
pub mod Mutation
