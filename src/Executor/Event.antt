-- ===== src/Executor/Event.antt =====
-- skills/complex-coding-executor/scripts/harness_state_schema.py: the ledger events and
-- `validate_event`.
pub mod Build
use Prim.Native.Nat.{◌/◌, ◌%◌}
use Prim.Native.String.{◌++◌ as ◌<>◌}
use dev_skills.Base.{
  ℕ, zero, suc, ◌+◌, Bool, true, false, not, ◌&&◌, ◌||◌, Option, none, some, String, List, [], ◌∷◌,
  ◌==◌, nat_eq, leb, if◌then◌else◌, all, mem, subset, Json, Fields, Items, null, pos, field_names,
  get, as_obj, as_nat, as_arr, is_int, is_str, texts, is_absolute, path_parts, ◌≡◌, refl,
}
use dev_skills.Executor.Errors.{
  Result, ok, ◌>>=◌, ◌>>◌, require, require_some, hashed, ledger_unknown_field,
  ledger_missing_field, ledger_sequence_gap, ledger_event_id_invalid, ledger_task_mismatch,
  ledger_revision_mismatch, ledger_event_type_invalid, ledger_stage_unknown, ledger_stage_required,
  ledger_attempt_invalid, ledger_attempt_required, ledger_payload_invalid, ledger_evidence_invalid,
}
use dev_skills.Executor.Time.{parse_timestamp}

abbrev pub event_fields : List String
event_fields =
    "seq" ∷ "event_id" ∷ "occurred_at" ∷ "task_id" ∷ "plan_revision" ∷ "stage_id" ∷ "type"
    ∷ "attempt" ∷ "payload" ∷ "evidence_refs" ∷ []

-- EVENT_TYPES
pub data EventType : Type 0 where
  execution_started stage_started attempt_failed validation_recorded review_recorded : EventType
  stage_completed blocked resumed research_drift amendment_requested amendment_approved : EventType
  commit_recorded completed aborted note heartbeat : EventType

event_types : List (String × EventType)
event_types =
    ("execution_started", execution_started)
    ∷ ("stage_started", stage_started)
    ∷ ("attempt_failed", attempt_failed)
    ∷ ("validation_recorded", validation_recorded)
    ∷ ("review_recorded", review_recorded)
    ∷ ("stage_completed", stage_completed)
    ∷ ("blocked", blocked)
    ∷ ("resumed", resumed)
    ∷ ("research_drift", research_drift)
    ∷ ("amendment_requested", amendment_requested)
    ∷ ("amendment_approved", amendment_approved)
    ∷ ("commit_recorded", commit_recorded)
    ∷ ("completed", completed)
    ∷ ("aborted", aborted)
    ∷ ("note", note)
    ∷ ("heartbeat", heartbeat)
    ∷ []

named : String → List (String × EventType) → Option EventType
named s [] = none
named s ((name, type) ∷ rest) = if name == s then some type else named s rest

unfoldable pub event_type_of : Option String → Option EventType
unfolding event_types named
event_type_of none = none
event_type_of (some s) = named s event_types

-- STAGE_EVENT_TYPES
abbrev pub needs_stage : EventType → Bool
needs_stage stage_started = true
needs_stage attempt_failed = true
needs_stage validation_recorded = true
needs_stage stage_completed = true
needs_stage _ = false

abbrev pub needs_attempt : EventType → Bool
needs_attempt stage_started = true
needs_attempt attempt_failed = true
needs_attempt validation_recorded = true
needs_attempt _ = false

-- An event that passed its checks, with the fields that the reducer reads.
pub record Event : Type 0 where
  pub occurred_at : String
  pub stage_id : Option String
  pub type : EventType
  pub attempt : Option ℕ
  pub payload : Fields
  pub evidence_refs : List String

-- `f"EVT-{seq:06d}"`
digit : ℕ → String
digit zero = "0"
digit (suc zero) = "1"
digit (suc (suc zero)) = "2"
digit (suc (suc (suc zero))) = "3"
digit (suc (suc (suc (suc zero)))) = "4"
digit (suc (suc (suc (suc (suc zero))))) = "5"
digit (suc (suc (suc (suc (suc (suc zero)))))) = "6"
digit (suc (suc (suc (suc (suc (suc (suc zero))))))) = "7"
digit (suc (suc (suc (suc (suc (suc (suc (suc zero)))))))) = "8"
digit (suc (suc (suc (suc (suc (suc (suc (suc (suc n))))))))) = "9"

-- at least `width` decimal digits of `n`; the first number bounds the digits
decimal : ℕ → ℕ → ℕ → String
unfolding digit
decimal zero width n = ""
decimal (suc fuel) width n = elim (leb width 0 && nat_eq n 0) [
  | true ↦ ""
  | false ↦ decimal fuel (elim width [ zero ↦ 0 | suc w ↦ w ]) (n / 10) <> digit (n % 10)
]

unfoldable pub event_name : ℕ → String
unfolding decimal
event_name seq = "EVT-" <> decimal (seq + 6) 6 seq

event_name_12 : event_name 12 ≡ "EVT-000012"
unfolding event_name
event_name_12 = refl

event_name_large : event_name 1234567 ≡ "EVT-1234567"
unfolding event_name
event_name_large = refl

-- `None`, or a known stage
unfoldable pub check_stage : Option Json → List String → Result (Option String)
check_stage (some null) known = ok none
check_stage none known = ok none
check_stage value known = do
  text ← hashed value
  stage ← require_some text ledger_stage_unknown
  require (mem stage known) ledger_stage_unknown
  ok (some stage)

-- `None`, or a positive integer that is no boolean
unfoldable pub check_attempt : Option Json → Result (Option ℕ)
check_attempt (some null) = ok none
check_attempt none = ok none
check_attempt value = do
  attempt ← require_some (as_nat value) ledger_attempt_invalid
  require (leb 1 attempt) ledger_attempt_invalid
  ok (some attempt)

abbrev pub is_safe_ref : String → Bool
is_safe_ref ref = not (is_absolute ref) && not (mem ".." (path_parts ref))

texts_of : Option Items → Option (List String)
texts_of none = none
texts_of (some xs) = texts xs

abbrev pub given {ℓ} : {A : Type ℓ} → Option A → Bool
given none = false
given (some a) = true

-- the checks down to the revision; the timestamp is the result
unfoldable pub check_identity : Fields → ℕ → String → ℕ → Result String
check_identity event expected_seq task_id plan_revision = do
  require (subset (field_names event) event_fields) ledger_unknown_field
  require (subset event_fields (field_names event)) ledger_missing_field
  require (is_int (get "seq" event) (pos expected_seq)) ledger_sequence_gap
  require (is_str (get "event_id" event) (event_name expected_seq)) ledger_event_id_invalid
  occurred_at ← parse_timestamp (get "occurred_at" event)
  require (is_str (get "task_id" event) task_id) ledger_task_mismatch
  require (is_int (get "plan_revision" event) (pos plan_revision)) ledger_revision_mismatch
  ok occurred_at

pub record Subject : Type 0 where
  pub type : EventType
  pub stage_id : Option String
  pub attempt : Option ℕ

-- the checks of the type, the stage and the attempt
unfoldable pub check_subject : Fields → List String → Result Subject
check_subject event known_stages = do
  type_text ← hashed (get "type" event)
  type ← require_some (event_type_of type_text) ledger_event_type_invalid
  stage_id ← check_stage (get "stage_id" event) known_stages
  require (not (needs_stage type) || given stage_id) ledger_stage_required
  attempt ← check_attempt (get "attempt" event)
  require (not (needs_attempt type) || given attempt) ledger_attempt_required
  ok (record { type = type; stage_id = stage_id; attempt = attempt })

unfoldable pub check_refs : Fields → Result (List String)
unfolding texts_of
check_refs event = do
  refs ← require_some (texts_of (as_arr (get "evidence_refs" event))) ledger_evidence_invalid
  require (all is_safe_ref refs) ledger_evidence_invalid
  ok refs

unfoldable pub validate_event : Fields → ℕ → String → ℕ → List String → Result Event
validate_event event expected_seq task_id plan_revision known_stages = do
  occurred_at ← check_identity event expected_seq task_id plan_revision
  subject ← check_subject event known_stages
  payload ← require_some (as_obj (get "payload" event)) ledger_payload_invalid
  refs ← check_refs event
  ok (record {
    occurred_at = occurred_at;
    stage_id = subject.stage_id;
    type = subject.type;
    attempt = subject.attempt;
    payload = payload;
    evidence_refs = refs;
  })
