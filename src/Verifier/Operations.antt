-- ===== src/Verifier/Operations.antt =====
-- skills/electron-ui-verifier/scripts/electron_verifier/operations.py: the operation files and the
-- request index of `OperationStore`, and the task of one operation. The files are written only by
-- the store, so they are typed; an I/O error of a write is not modelled.
pub mod Run
pub mod Final
pub mod Ends
pub mod Repeats
pub mod Cancel
use dev_skills.Base.{
  end, ℕ, suc, ◌+◌, Bool, true, false, not, ◌&&◌, ◌||◌, Option, none, some, String, List, [], ◌∷◌,
  ◌==◌, leb, length, if◌then◌else◌, Dict, lookup, insert, Fields,
}
use dev_skills.Verifier.Errors.{
  Code, Result, ok, err, ◌>>=◌, ◌>>◌, require, require_some, invalid_operation_id,
  operation_not_found, operation_store_invalid, operation_transition_invalid, artifact_too_large,
  operation_request_conflict, operation_history_full, service_restarted_before_execution,
  service_interrupted,
}

-- OPEN_STATES and FINAL_STATES
pub data OperationState : Type 0 where
  queued running succeeded failed cancelled deadline_exceeded unknown : OperationState

abbrev pub is_final : OperationState → Bool
is_final queued = false
is_final running = false
is_final _ = true

-- _TRANSITIONS
abbrev pub allowed : OperationState → OperationState → Bool
allowed queued running = true
allowed queued failed = true
allowed queued cancelled = true
allowed queued deadline_exceeded = true
allowed running succeeded = true
allowed running failed = true
allowed running cancelled = true
allowed running deadline_exceeded = true
allowed running unknown = true
allowed _ _ = false

abbrev pub is_running : OperationState → Bool
is_running running = true
is_running _ = false

-- the `error` field: its code, whether it says `"outcome": "unknown"`, and what else it says
pub record Failure : Type 0 where
  pub code : Code
  pub outcome_unknown : Bool
  pub others : Fields

pub record Operation : Type 0 where
  pub operation_id : String
  pub request_id : String
  pub request_fingerprint : String
  pub kind : String
  pub run_id : String
  pub state : OperationState
  pub done : Bool
  pub cancel_requested : Bool
  pub deadline_at : String
  pub created_at : String
  pub updated_at : String
  pub revision : ℕ
  pub asset_id : Option String
  pub started_at : Option String
  pub finished_at : Option String
  pub response : Option Fields
  pub error : Option Failure

pub record Index : Type 0 where
  pub request_id : String
  pub request_fingerprint : String
  pub operation_id : String

-- the files below the root, under the operation id, and those of `requests`, under their digest
pub record Store : Type 0 where
  pub operations : Dict Operation
  pub requests : Dict Index

-- the keyword arguments of `transition`
pub record Update : Type 0 where
  pub response : Option Fields
  pub error : Option Failure

-- `dict.update` of one field
abbrev override {ℓ} : {A : Type ℓ} → Option A → Option A → Option A
override none old = old
override (some new) old = some new

-- the two readings of the clock of one call
pub record Clock : Type 0 where
  pub now : String
  pub saved : String

abbrev pub moved : Operation → OperationState → Update → Clock → Operation
moved operation state fields clock = record operation {
  response = override fields.response operation.response;
  error = override fields.error operation.error;
  state = state;
  done = is_final state;
  started_at = if is_running state then some clock.now else operation.started_at;
  finished_at = if is_final state then some clock.now else operation.finished_at;
}

abbrev pub restarted : Update
restarted = record {
  response = none;
  error =
      some (record {
        code = service_restarted_before_execution;
        outcome_unknown = false;
        others = end;
      });
}

abbrev interrupted : Update
interrupted = record {
  response = none;
  error = some (record { code = service_interrupted; outcome_unknown = true; others = end });
}

-- `_uuid`: the canonical text of a UUID that is not zero. A record fits when its JSON has at most
-- `operation_record_bytes` bytes.
module _ (uuid : String → Option String) (fits : Operation → Bool) where
  unfoldable pub load : Store → String → Result Operation
  load store operation_id = do
    key ← require_some (uuid operation_id) invalid_operation_id
    operation ← require_some (lookup key store.operations) operation_not_found
    require (operation.operation_id == key) operation_store_invalid
    ok operation

  -- `_save`, with the store and the operation that it leaves
  unfoldable pub save : Store → String → Operation → Result (Store × Operation)
  save store saved operation = do
    let new = record operation { updated_at = saved; revision = operation.revision + 1 }
    key ← require_some (uuid new.operation_id) invalid_operation_id
    require (fits new) artifact_too_large
    ok (record store { operations = insert key new store.operations }, new)

  unfoldable pub transition :
      Store → String → OperationState → Update → Clock → Result (Store × Operation)
  transition store operation_id state fields clock = do
    operation ← load store operation_id
    if is_final operation.state then ok (store, operation) else (do
      require (allowed operation.state state) operation_transition_invalid
      save store clock.saved (moved operation state fields clock))

  unfoldable pub request_cancel : Store → String → String → Result (Store × Operation)
  request_cancel store operation_id saved = do
    operation ← load store operation_id
    if not (is_final operation.state) && not operation.cancel_requested
        then save store saved (record operation { cancel_requested = true })
        else ok (store, operation)

  -- one file of `recover`: the store that is left, and the id if the file was open
  unfoldable pub recover_one : Store → Clock → Operation → Result (Store × Option String)
  recover_one store clock operation = elim operation.state [
    | queued ↦ (do
      (after, _) ← transition store operation.operation_id cancelled restarted clock
      ok (after, some operation.operation_id))
    | running ↦ (do
      (after, _) ← transition store operation.operation_id unknown interrupted clock
      ok (after, some operation.operation_id))
    | _ ↦ ok (store, none)
  ]

  -- `recover`: the paths below the root in their order; an error ends the start of the service
  unfoldable pub recover_from : Store → Clock → List String → Result (Store × List String)
  recover_from store clock [] = ok (store, [])
  recover_from store clock (path ∷ paths) = do
    operation ← require_some (lookup path store.operations) operation_not_found
    (after, found) ← recover_one store clock operation
    (last, recovered) ← recover_from after clock paths
    ok (last, elim found [ none ↦ recovered | some id ↦ id ∷ recovered ])

-- A submission: `requestId`, its keyed fingerprint, and the fields that `create` copies.
pub record Request : Type 0 where
  pub request_id : String
  pub request_fingerprint : String
  pub kind : String
  pub run_id : String
  pub asset_id : Option String
  pub deadline_at : String

abbrev pub new_operation : Request → String → String → String → Operation
new_operation request request_id fresh now = record {
  operation_id = fresh;
  request_id = request_id;
  request_fingerprint = request.request_fingerprint;
  kind = request.kind;
  run_id = request.run_id;
  state = queued;
  done = false;
  cancel_requested = false;
  deadline_at = request.deadline_at;
  created_at = now;
  updated_at = now;
  revision = 1;
  asset_id = request.asset_id;
  started_at = none;
  finished_at = none;
  response = none;
  error = none;
}

abbrev pub new_index : Request → String → String → Index
new_index request request_id fresh = record {
  request_id = request_id;
  request_fingerprint = request.request_fingerprint;
  operation_id = fresh;
}

-- The name of an index file is the digest of the request id.
module _ (uuid : String → Option String) (fits : Operation → Bool) (request_key : String → String)
    (history_limit : ℕ) where
  -- the operation of an index entry, if the request is the same one
  unfoldable pub repeated : Store → Index → String → Result (Operation × Bool)
  repeated store existing fingerprint = do
    require (existing.request_fingerprint == fingerprint) operation_request_conflict
    operation ← load uuid fits store existing.operation_id
    ok (operation, false)

  -- `exclusive_write_json` of the index: the first writer wins
  unfoldable pub claim_request :
      Store → Request → String → String → Operation → Store × Result (Operation × Bool)
  claim_request store request request_id fresh operation =
      elim (lookup (request_key request_id) store.requests) [
        | some existing ↦ (store, repeated store existing request.request_fingerprint)
        | none ↦ (
          record store {
            requests =
                insert (request_key request_id) (new_index request request_id fresh) store.requests;
          },
          ok (operation, true),
        )
      ]

  -- the write of a new operation; `others` is what other writers do before the index is written
  unfoldable pub create_new :
      Store
      → Request
      → String
      → String
      → String
      → (Store → Store)
      → Store × Result (Operation × Bool)
  create_new store request request_id fresh now others =
      let operation = new_operation request request_id fresh now in
      let written =
        others (record store { operations = insert fresh operation store.operations }) in
      if fits operation
      then claim_request written request request_id fresh operation
      else (store, err artifact_too_large)

  unfoldable pub create :
      Store → Request → String → String → (Store → Store) → Store × Result (Operation × Bool)
  create store request fresh now others = elim (uuid request.request_id) [
    | none ↦ (store, err invalid_operation_id)
    | some request_id ↦ elim (lookup (request_key request_id) store.requests) [
      | some existing ↦ (store, repeated store existing request.request_fingerprint)
      | none ↦
          if leb history_limit (length store.operations)
          then (store, err operation_history_full)
          else create_new store request request_id fresh now others
    ]
  ]
