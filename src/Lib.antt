-- ===== src/Lib.antt =====
-- The skills of this repository drive long coding tasks. This development models the state machines
-- behind five of them.
--
-- Executor (skills/complex-coding-executor/scripts). A task has a contract with stages, and an
-- append-only ledger of events. The ledger is the truth: the run state is what its replay gives.
--   Executor/Errors      harness_state_errors.py: an error is its code; TypeError, KeyError apart
--   Executor/Time        harness_time.py: RFC 3339 texts, over code points
--   Executor/Validation  harness_validation_schema.py: validate_validation_record
--   Executor/Review      harness_state_schema.py: validate_review_record
--   Executor/Event       harness_state_schema.py: validate_event
--   Executor/Event/Build  harness_state_io.py: build_event
--   Executor/Contract    harness_state.py: stage_definitions, stage_order, required_validation_ids
--   Executor/State       harness_state.py: the state, next_ready_stage, commit_evidence_gaps
--   Executor/Reducer     harness_state.py: apply_event, a function for each branch
--   Executor/Ledger      harness_state.py: apply_event and replay_events
--   Executor/Snapshot    harness_state_io.py: load_state, the written object, state_differences
--   Executor/Gate        harness_execution.py: check_preflight, check_transition, check_final,
--                        reconcile_snapshot
-- The source mutates one dict for the state, and five more values; here they are the record Replay,
-- which each handler takes and returns. A raised error is the result `err`. A ledger event is a JSON
-- object, read with Python's tests; an event that passed them is the record Event. A number with a
-- fraction or an exponent is no value of the model. Executor/Ledger/Standing is a specification: it says
-- of the log alone which reviews and validations of a stage are in force.
--
-- Verifier (skills/electron-ui-verifier/scripts/electron_verifier). A mutation of the user interface
-- is an operation in a file, found again by its request id, and carried out by one task.
--   Verifier/Errors          errors.py: an error is its code
--   Verifier/Operations      operations.py: OperationStore
--   Verifier/Operations/Run  operations.py: OperationContext and OperationService._run
--   Verifier/Operations/Cancel  operations.py: OperationService.cancel
--   Verifier/Risk            risk_authorization.py: receipts for actions with a risk
-- The UUID parser, the digests, the digest of a request id, the size test of a record, the executor and the
-- writes of other tasks are arguments of these definitions, and so are the message and the details that
-- the envelope of an error adds to its code.
--
-- Manager (skills/process-manager/scripts/process_manager). A manager runs services; one central
-- state indexes the active services, the runs and the sessions that own runs.
--   Manager/Errors   errors.py: an error is its class
--   Manager/State    models.py: the records, and the index checks of validate_state
--   Manager/Runs     state.py: StateStore.reserve, update, claim_finalization, commit_finalization
--   Manager/Fence    state.py: work_summary and the intake fence
--   Manager/History  resources.py: the tombstones and compact_session
--   Manager/Leases   sessions.py: the leases of SessionController, and open
--   Manager/Closing  sessions.py: renew, reserve_run, close and the finalizer _finalize
--   Manager/Sweep    sessions.py: sweep_once
--   Manager/Steps    the commits of all of them as one step relation
-- A transaction reads the state and commits it whole or not at all, so that an operation is a function
-- from the state to a result; a session operation that commits before it raises returns both. The
-- finalizer of runs, the clocks, fresh ids and the measurements of the disk are arguments; times are
-- microseconds. An update outside the finalization is a step only where it makes no ended run active, and
-- where a run that it ends leaves its index and gives its claim back. The automatic pruning behind a
-- finalization, and the check of the whole state before each commit, are not modelled.
--
-- Gitlab (skills/gitlab-pat-ops/scripts/gitlab_ops). A list is read page by page.
--   Gitlab/Pagination  pagination.py: paginate, and the next page that the headers name
-- The client is an argument; the loop runs on the number of pages that the caller allows.
--
-- Reviewer (skills/complex-coding-reviewer/scripts/complex_coding_reviewer). A review is dispatched to
-- an agent, or falls back; the host records the outcome.
--   Reviewer/Dispatch  dispatch_lifecycle.py: _validate_outcome and _reviewer_for, over typed outcomes
--
-- Base holds the shared tests, lists, association lists, JSON values and texts. The tests and the
-- examples of the theorems are in Executor/Tests, Gitlab/Tests, Manager/Tests,
-- Reviewer/Tests and Verifier/Tests.
--
-- Bounds: the loop of stage_order runs on fuel, one round for each stage, and each round takes a
-- stage away, so that it never ends for lack of fuel.
--
-- The contract is typed, since it is read after the planner's check: a stage is an object with a text
-- id that is not empty. Not modelled: messages of errors where they are not stored, files and their
-- atomic writes, the other checkers that the gates call (their answers stand in the bundle), locks and
-- tables of tasks, the submission checks and the shutdown of the operation service, the threads, files,
-- journals and history pruning of the process manager, and the other skills.
pub mod Base
pub mod Executor
pub mod Gitlab
pub mod Manager
pub mod Reviewer
pub mod Verifier
