-- ===== src/Executor/Ledger/Standing.antt =====
-- harness_state.py: what the events of a ledger say of the evidence of a stage, read off the log alone
-- and apart from the dictionaries that `apply_event` keeps.
pub mod Payloads
pub mod Carried
pub mod Steps
pub mod Log
use dev_skills.Base.{
  ℕ, suc, Bool, true, false, not, ◌&&◌, Option, none, some, String, List, [], ◌∷◌, nat_eq,
  if◌then◌else◌, mem, Dict, lookup, keys, Fields, get, is_str,
}
use dev_skills.Executor.Errors.{ok, err}
use dev_skills.Executor.Event.{
  Event, EventType, stage_started, attempt_failed, validation_recorded, review_recorded,
  amendment_approved, given, validate_event,
}
use dev_skills.Executor.Contract.{Stage, Contract}
use dev_skills.Executor.State.{Evidence, recorded, carried, Replay}
use dev_skills.Executor.Reducer.Guards.{same_stage}
use dev_skills.Executor.Reducer.Amendment.{carried_stages}
use dev_skills.Executor.Ledger.Evidence.{or_empty}

abbrev pub is_about : String → Event → Bool
is_about s e = same_stage e.stage_id (some s)

-- an attempt behind the first one
abbrev pub is_retry : Option ℕ → Bool
is_retry none = true
is_retry (some n) = not (nat_eq n 1)

-- Whether the stage has a passed review in force after an event, given whether it had one: a failed
-- attempt, a retry, a validation that did not pass and a review that did not pass end it.
abbrev pub review_after : String → EventType → Event → Bool → Bool
review_after s stage_started e b = if is_about s e && is_retry e.attempt then false else b
review_after s attempt_failed e b = if is_about s e then false else b
review_after s validation_recorded e b =
    if is_about s e && not (is_str (get "result" e.payload) "passed") then false else b
review_after s review_recorded e b =
    if is_about s e then is_str (get "verdict" e.payload) "passed" else b
review_after s _ e b = b

abbrev pub is_carried : Dict Stage → String → Event → Bool
is_carried definitions s e = elim (carried_stages definitions e.payload) [
  | ok ids ↦ mem s ids
  | err code ↦ false
]

-- Whether the last record of a validation in the attempt passed: a failed attempt and a retry end
-- it, and so does an amendment that carries the stage over.
abbrev pub validation_after : Dict Stage → String → String → EventType → Event → Bool → Bool
validation_after definitions s id stage_started e b =
    if is_about s e && is_retry e.attempt then false else b
validation_after definitions s id attempt_failed e b = if is_about s e then false else b
validation_after definitions s id validation_recorded e b =
    if is_about s e && is_str (get "validation_id" e.payload) id
    then is_str (get "result" e.payload) "passed"
    else b
validation_after definitions s id amendment_approved e b =
    if is_carried definitions s e then false else b
validation_after definitions s id _ e b = b

module _ (definitions : Dict Stage) (contract : Contract) where
  -- the answer after the events of a log, from the one before them
  unfoldable pub after_log : (EventType → Event → Bool → Bool) → ℕ → Bool → List Fields → Bool
  after_log step seq b [] = b
  after_log step seq b (raw ∷ events) =
      after_log step (suc seq)
        (elim (validate_event raw seq contract.task_id contract.plan_revision (keys definitions)) [
          | ok e ↦ step e.type e b
          | err code ↦ b
        ])
        events

  -- the log gives the stage a passed review that nothing took away later
  abbrev pub review_stands : String → List Fields → Bool
  review_stands s events = after_log (review_after s) 1 false events

  -- the last record of the validation in the last attempt of the stage passed
  abbrev pub validation_stands : String → String → List Fields → Bool
  validation_stands s id events = after_log (validation_after definitions s id) 1 false events

abbrev pub review_held : String → Replay → Bool
review_held s r = given (lookup s r.stage_reviews)

abbrev pub is_recorded : Option Evidence → Bool
is_recorded none = false
is_recorded (some (recorded v)) = true
is_recorded (some carried) = false

abbrev pub validation_held : String → String → Replay → Bool
validation_held s id r = is_recorded (lookup id (or_empty (lookup s r.passed_validations)))
