-- ===== src/Lib.antt =====
-- OrchKit: the ledger of the orchestrator (orch/core.py), the review policy
-- (orch/review_policy.py), and the contracts, frames and sessions by which a worker reaches its run
-- (orch/worker_operations.py, orch/bridge_local_protocol.py, orch/bridge_authorization.py,
-- orch/bridge_file_read.py).
--
-- The orchestrator keeps plans, tasks, runs, snapshots, approvals, events and settings in an SQLite
-- file, and a capability file for each live run. A plan puts tasks into a queue; `claim` starts a
-- run, an attempt at a task, of the first eligible task, and gives its worker a lease; the worker
-- sends heartbeats and checkpoints, submits a receipt and confirms that it is quiet; `verify` runs
-- the checks and passes the run on, to a review or to its completion; the operator pauses, cancels,
-- aborts, approves and completes. A writer key stands for a workspace: one run at a time may hold
-- it. A worker process may talk to the orchestrator over a local socket: it sends frames with
-- requests, and a session routes each of them to a run, which the ledger and the capability file
-- must confirm each time.
--
-- The files:
--   Prelude      names of the libraries, tables with a key, texts, lists, patterns
--   Result       the errors that an operation raises
--   Path         normalize_relative_path, path_allowed
--   Ledger       the tables (Orchestrator._initialize), the joins and the writes that the operations share
--   Lifecycle    an abstract view of the ledger, its moves, their invariant, and how writes of rows are moves
--   Planning     load_plan, behind the parsing of the document; Graph is validate_dependency_graph
--   Claim        claim and next_work with _claim_git_state, _claim_workspace_guard, _repair_claim_guard
--   Attempt      heartbeat, checkpoint, submit, quiesce
--   Verification verify, _block_verification, _workspace_scope_evidence
--   Review       decide_review, import_review
--   Completion   complete, approve, _assert_snapshot_current
--   Publication  publish, _publication_update, _finalize_publication, reconcile_publication
--   Control      pause, resume, pause_project, resume_project, record_project_removed,
--                project_removal_guard, cancel_task, abort
--   Json         the values of json
--   Worker       orch/worker_operations.py: _identifier, _file_target, the __post_init__ tests,
--                require_matching_worker_run, validate_worker_outcome, requires_independent_readback
--   Bridge       orch/bridge_local_protocol.py: LocalServiceLimits, decode_payload, encode_payload,
--                _receive_exact, receive_frame, send_frame, native_payload_budget (Frame), _common,
--                validate_hello, validate_request (Request); orch/bridge_authorization.py with
--                lease_from_capability of orch/core.py (Session); orch/bridge_file_read.py (Read)
--   History      all of the operations on the ledger as commands, in any order, but for
--                reconcile_publication
--   Examples     a plan of two tasks, run through to its end, messages on a connection, sessions, and an
--                interrupted publication
--
-- The state is a record of tables, each a list of rows in the order of insertion. An operation
-- takes the ledger and the time and returns a new ledger with its reply, or an error, behind which
-- the ledger is the old one, as the source rolls its transaction back; a publication keeps what its
-- phases wrote, and returns its error beside the ledger. What an operation observes outside of the
-- ledger is an argument: the state of the workspace, what git answers and lists, the outcome of the checks, of the
-- parsing of a receipt, a report or a plan, of the tests for unresolved executions and processes,
-- and the random texts of a run id and of a lease. The pattern matcher fnmatch of Python is an
-- argument too. JSON columns are the values that they encode, and times are numbers. Path works on
-- code points; pathlib is its PurePosixPath. A socket is the list of the bytes still to come and of
-- what each call of `recv` before the deadline gives; json.loads and json.dumps are arguments, with
-- the reading back of a text that was written as a hypothesis on the values that are sent.
-- Recursion is on lists or texts, but for the visits of validate_dependency_graph, which recur on a
-- depth: the number of items and one more, which is enough, since each visit inside another marks
-- an item that had no mark; and for the loop of the file reader, which recurs on the limit and two
-- more, since each of its calls adds a byte.
--
-- History takes each command as one step. The source runs most operations in one transaction;
-- `verify` has two, with the checks between them, and Verification/Race is about what may happen
-- there. `claim` has a second one that aborts the run when its capability file cannot be written,
-- and `publish` one for each phase.
--
-- Not modelled: readmission and the views of the queue in orch/core.py; the schema checks of a
-- plan's items, which are one outcome of the loading; the file system, git and subprocesses; the
-- administration of the state (orch/state.py); the services of the bridge, of which
-- orch/bridge_worker_lifecycle.py writes rows of runs itself, beside the operations; the command line
-- and the reports, which call the operations or the operating system. The tests of the form of a
-- project id in resume_project, record_project_removed and project_removal_guard are not modelled
-- either: these take an id that has the form.
mod Prelude
pub mod Result
pub mod Path
pub mod Ledger
pub mod Lifecycle
pub mod Attempt
pub mod Review
pub mod Verification
pub mod Completion
pub mod Control
pub mod Claim
pub mod Planning
pub mod Publication
pub mod History
pub mod Json
pub mod Worker
pub mod Bridge
mod Examples
