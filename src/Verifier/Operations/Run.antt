-- ===== src/Verifier/Operations/Run.antt =====
-- operations.py: `OperationContext`, and `_run`, the task of one operation. The time that remains is
-- an argument, and so is the executor: it ends with a response or an exception, and other tasks
-- may have written the store and the context meanwhile. The lock and the tables of running tasks
-- are not modelled.
use dev_skills.Base.{
  ℕ, Bool, true, false, not, ◌||◌, Option, none, some, String, if◌then◌else◌, leb, Fields, end,
  field, bool, str,
}
use dev_skills.Verifier.Errors.{
  Code, Result, ok, err, ◌>>◌, require, operation_cancelled, operation_deadline_exceeded,
  operation_internal_error, operation_result_failed, operation_outcome_unknown,
}
use dev_skills.Verifier.Operations.{
  OperationState, running, succeeded, failed, cancelled, deadline_exceeded, unknown, Operation,
  Store, Update, Clock, Failure, transition,
}

pub record Context : Type 0 where
  pub cancel_requested : Bool
  pub mutation_inflight : Bool
  pub outcome_unknown : Bool

unfoldable pub checkpoint : Context → ℕ → Result (Unit {0})
checkpoint context remaining = do
  require (not context.cancel_requested) operation_cancelled
  require (leb 1 remaining) operation_deadline_exceeded

unfoldable pub begin_mutation : Context → ℕ → Result Context
begin_mutation context remaining = do
  checkpoint context remaining
  ok (record context { mutation_inflight = true })

abbrev end_mutation : Context → Context
end_mutation context = record context { mutation_inflight = false }

abbrev mark_outcome_unknown : Context → Context
mark_outcome_unknown context = record context { outcome_unknown = true }

-- `OperationContext.request_cancel`
abbrev ask_cancel : Context → Context
ask_cancel context = record context { cancel_requested = true }

-- An exception of the task: a `VerifierError` with the message and the details of its projected
-- envelope, any other one with the name of its class.
pub data Raised : Type 0 where
  timed_out interrupted : Raised
  crashed : String → Raised
  raised : Code → Fields → Raised

-- A response, with `response.get("ok") is False`, or an exception.
pub data Ending : Type 0 where
  returned : Fields → Bool → Ending
  stopped : Raised → Ending

abbrev pub is_unknown : Context → Bool
is_unknown context = context.mutation_inflight || context.outcome_unknown

abbrev pub only_error : Code → Fields → Bool → Update
only_error code others outcome = record {
  response = none;
  error = some (record { code = code; outcome_unknown = outcome; others = others });
}

abbrev with_response : Fields → Option Failure → Update
with_response response error = record { response = some response; error = error }

-- the state and the error that each exception handler gives
abbrev pub settled : Context → Raised → OperationState × Update
settled context timed_out = (
  if is_unknown context then unknown else deadline_exceeded,
  only_error operation_deadline_exceeded end (is_unknown context),
)
settled context interrupted = (
  if is_unknown context then unknown else cancelled,
  only_error operation_cancelled end (is_unknown context),
)
settled context (crashed name) = (
  if is_unknown context then unknown else failed,
  only_error operation_internal_error (field "ok" (bool false) (field "error" (str name) end))
      (is_unknown context),
)
settled context (raised code others) =
    (if is_unknown context then unknown else failed, only_error code others (is_unknown context))

-- the state and the fields that a response gives
abbrev pub answered : Context → Fields → Bool → OperationState × Update
answered context response is_failed =
    if context.outcome_unknown
    then (
      unknown,
      with_response response (
          some (record { code = operation_outcome_unknown; outcome_unknown = true; others = end })),
    )
    else if is_failed
    then (
      failed,
      with_response response
          (some (record { code = operation_result_failed; outcome_unknown = false; others = end })),
    )
    else (succeeded, with_response response none)

module _ (uuid : String → Option String) (fits : Operation → Bool) (operation_id : String) where
  -- the handlers of the exceptions
  unfoldable pub settle : Store → Context → Raised → Clock → Result (Store × Operation)
  settle store context exception clock =
      let (state, fields) = settled context exception in
      transition uuid fits store operation_id state fields clock

-- `envelope` gives the message and the details of the errors that the checks and the writes raise
module _ (uuid : String → Option String) (fits : Operation → Bool) (envelope : Code → Fields)
    (operation_id : String) where
  -- the rest of the `try` once the executor has ended; an error of the write is caught too
  unfoldable pub conclude : Store → Context → Ending → Clock → Clock → Result (Store × Operation)
  conclude store context (stopped exception) clock last =
      settle uuid fits operation_id store context exception last
  conclude store context (returned response is_failed) clock last =
      let (state, fields) = answered context response is_failed in
      elim (transition uuid fits store operation_id state fields clock) [
        | ok done ↦ ok done
        | err code ↦ settle uuid fits operation_id store context (raised code (envelope code)) last
      ]

  -- `_run`; `waited` is the exception that ended the wait for the lock, if one did
  unfoldable pub run :
      Store
      → Option Raised
      → Context
      → ℕ
      → (Store → Context → Store × Context × Ending)
      → Clock
      → Clock
      → Clock
      → Result (Store × Operation)
  run store (some exception) context remaining executor first clock last =
      settle uuid fits operation_id store context exception last
  run store none context remaining executor first clock last = elim (checkpoint context remaining) [
    | err code ↦ settle uuid fits operation_id store context (raised code (envelope code)) last
    | ok _ ↦
        elim (transition uuid fits store operation_id running
          (record { response = none; error = none }) first) [
            | err code ↦
                settle uuid fits operation_id store context (raised code (envelope code)) last
            | ok (begun, _) ↦
                let (after, context', ending) = executor begun context in
                conclude after context' ending clock last
          ]
  ]
