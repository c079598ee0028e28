-- ===== src/Lib.antt =====
-- Hubinet Ops: the durable authority over package update jobs.
--
-- The program updates the packages of Proxmox LXC guests. A job is one row of the table
-- `package_update_jobs` that advances through ten checkpoints: preflight, a snapshot of its own, the
-- execution-time plan gate, one package mutation, a health evaluation, and, where the update went
-- wrong, a rollback to its own snapshot. Every transition is one writer transaction of
-- `InventoryAuthority` (app/inventory/authority.py) on the SQLite store (app/inventory/store.py);
-- the stages in app/package_update_*.py call the transitions, and pass the host in as a callback
-- where a submission or a seal has to share the transaction; the worker composes the stages.
--
-- Files:
--   Models          app/inventory/models.py: enumerations, CHECKPOINT_ORDER, checkpoint_rank,
--                   aggregate_health_outcome
--   Completion      app/inventory/mutation_completion.py: prove_package_mutation_completion
--   Health          app/inventory/health_observation.py, and the match of observations with the
--                   frozen probes of a job in app/inventory/authority.py
--   Authority       app/inventory/authority.py. Children: Tables (the rows), Tx (a transaction as a
--                   state and error monad, and its statements), Checks, Plans and Identity (argument
--                   checks, plans, contracts and the derived identities of
--                   app/inventory/health_contract.py, snapshot_identity.py, mutation_identity.py and
--                   rollback_identity.py), Source, Locator, Scans and Context (the proof that current
--                   authority holds, with the expiry of freshness that it writes), Rows (what each
--                   UPDATE sets), Host (transactions that call into the host), Snapshot,
--                   SnapshotRelease, Ownership, Gate, Mutation, MutationRelease, HealthStage,
--                   HealthUnknown, Rollback, RollbackCompletion and Recovery (the transitions, named
--                   after the methods), and Issuance (issue_package_update_job, with
--                   app/inventory/health_execution.py)
--   Authority/Machine    the state machine of one job, a step for each UPDATE with its guard,
--                   CHECK constraints of app/inventory/store.py, and that the steps keep them
--   Authority/Evolution  what a transaction may do to the tables, and a rule for each statement
--   Authority/Calls      the transitions as calls, and histories of calls
--   Stages          app/package_update_*.py. Children: Run (a stage as a program over the tables and
--                   the state of the hosts, with its exceptions), Reads (what it reads of the store),
--                   Snapshot, Execution, Mutation, Health and Rollback (the stage of each file), Task
--                   (the polls and answers that the snapshot and the rollback have in common), Worker
--                   (one cycle of app/package_update_worker.py), Reach (a stage as a sequence of
--                   calls of the authority, with a rule for each construct) and Leaves (what the
--                   host calls of a stage leave alone). In a stage, Calls is about the calls of the
--                   authority that it makes, Asks about its calls of the host and Bound about its
--                   loops
--   Tests           the properties at concrete inputs
--
-- How the code is modelled. A table is a list of records and a row that may be NULL in a column has
-- an `Option` there. A transaction is a function on the tables that answers a result and the new
-- tables, or an error, in which case nothing is kept. `SELECT` of one row takes the first match, and
-- an `UPDATE` changes every row that its guard admits and must have changed exactly one. Exceptions
-- keep their class and lose their text. A transition answers what it decides; the row that the code
-- reads back afterwards is the row in the tables that it leaves. Timestamps are natural numbers and
-- the readings of the clock are an argument. The host is a state of its own, which a transaction
-- that rolls back does not restore. Writers exclude each other by BEGIN IMMEDIATE, so concurrent
-- calls are a list of calls. The constraints and triggers of the schema are not enforced by the
-- model, but for the unique indexes on active jobs and on ids, which the insertion of a job meets.
-- The CHECK constraints that relate the status, the checkpoint and the columns of a job, and those on
-- the stored verdict, the resource type and the number of probes, are a predicate on rows,
-- `row_checks`. The column constraints on the shape of texts (ids, names, task ids, digests,
-- fingerprints, reasons) and on positive numbers are not modelled; SQLite would raise on a row that
-- breaks one, such as a rollback task id that is no UPID, where the model keeps the row.
--
-- Parameters. `Authority.Platform.Platform` stands for what the code takes from Python's standard
-- library: uuid, re, hashlib, json and the tests on characters. Nothing is assumed of it. The stages
-- take the hosts as functions on a state of their own, an `Environment` of clocks and of the texts
-- of exceptions, and the parsers of app/package_scan.py as `Parsers`. Only the bounds of the polls
-- assume anything of these: `Ticks`, that a sleep takes its time and that the clock does not go back.
--
-- Fuel. The loops of the authority recur over lists. The loop of a worker cycle recurs over the
-- transitions that are left, ten as in the code, and the polls over a number of rounds in their
-- settings. A round waits for an interval, so rounds that cover the timeout are enough: 450 for a
-- snapshot, 900 for a rollback and 1080 for a mutation, by the defaults of the code.
--
-- Not modelled: the approval of plans, the writes of health contracts,
-- discovery and publication, the parsing of package scans, the schedulers, the thread and the
-- events of the worker, SSH and HTTP, the opening of the database file, the Home Assistant
-- integration and the deployment helpers. A stage runs by itself: the calls of other writers do not
-- come in between two of its calls. A failure of the host inside a callback of the authority keeps
-- no name, the message of a refused pair of outcome and reason is fixed, the logger is left out,
-- and a read of a job does not compare the number of its packages with its column. The description
-- and time of an observed snapshot are never read by the transitions and are left out. The hooks
-- for tests (`_after_...`) do nothing in the code and have no counterpart. The reason inside a
-- message about staleness is replaced by a fixed word. Checks of the type of an argument are given
-- by the types of the model.
pub mod Authority
pub mod Completion
pub mod Health
pub mod Models
pub mod Prelude
pub mod Stages
pub mod Tests
