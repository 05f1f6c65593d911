-- ===== src/Reviewer/Dispatch.antt =====
-- skills/complex-coding-reviewer/scripts/complex_coding_reviewer/dispatch_lifecycle.py: the checks of
-- an outcome that the host recorded, and the reviewer that follows from it. The outcome is typed: its
-- fields and their types are read before. Times are numbers, and an error is its code.
pub mod Claims
use dev_skills.Base.{
  ℕ, Bool, true, false, not, ◌&&◌, ◌||◌, Option, none, some, String, List, ◌==◌, nat_eq, leb, ltb,
  if◌then◌else◌, mem, has_text, codes, is_space, any, Fallible, ok, err, ◌>>=◌, ◌>>◌, require,
}

pub data Error : Type 0 where
  review_dispatch_policy_violation review_dispatch_provenance_mismatch : Error

abbrev pub Result {ℓ} : Type ℓ → Type ℓ
Result A = Fallible Error A

-- LIFECYCLE_STATUSES; `fallback` is `fallen_back`
pub data Status : Type 0 where
  completed fallen_back blocked failed : Status

pub data Decision : Type 0 where
  delegate fall_back block : Decision

pub record Failure : Type 0 where
  pub code : String
  pub reason : String
  pub retryable : Bool

pub data CloseStatus : Type 0 where
  closed close_failed not_required : CloseStatus

pub record Close : Type 0 where
  pub required : Bool
  pub attempted : Bool
  pub status : CloseStatus
  pub closed_at : Option ℕ
  pub error : Option String

pub data FallbackMode : Type 0 where
  no_fallback same_context blocked_mode : FallbackMode

pub record Fallback : Type 0 where
  pub mode : FallbackMode
  pub reason_code : Option String
  pub reason : Option String

pub record Outcome : Type 0 where
  pub status : Status
  pub agent_id : Option String
  pub fork_context : Option Bool
  pub started_at : Option ℕ
  pub completed_at : Option ℕ
  pub schema_repair_count : ℕ
  pub context_expansion_requested : Bool
  pub parent_judgment_included : Bool
  pub recursive_delegation_allowed : Bool
  pub failure : Option Failure
  pub close : Close
  pub fallback : Fallback

-- the fields of a preparation that are read
pub record Preparation : Type 0 where
  pub prepared_at : ℕ
  pub decision : Decision
  pub policy_disabled : Bool
  pub capability_policy_disabled : Bool
  pub available_tools : List String
  pub attempt : ℕ
  pub max_attempts : ℕ

abbrev pub given {ℓ} : {A : Type ℓ} → Option A → Bool
given none = false
given (some a) = true

abbrev violation : Bool → Result (Unit {0})
violation allowed = require allowed review_dispatch_policy_violation

unfoldable pub validate_failure : Option Failure → Result (Unit {0})
validate_failure none = ok tt
validate_failure (some failure) = violation (has_text failure.code && has_text failure.reason)

-- `nullable_string`
abbrev text_or_none : Option String → Bool
text_or_none none = true
text_or_none (some text) = has_text text

abbrev close_evidence : Close → Bool
close_evidence close = elim close.status [
  | closed ↦ close.required && close.attempted && given close.closed_at && not (given close.error)
  | close_failed ↦ close.required && close.attempted && given close.error
  | not_required ↦
      not close.required
      && not close.attempted
      && not (given close.closed_at)
      && not (given close.error)
]

unfoldable pub validate_close : Close → Result (Unit {0})
validate_close close = do violation (text_or_none close.error); violation (close_evidence close)

unfoldable pub validate_fallback : Fallback → Result (Unit {0})
validate_fallback fallback = do
  violation (text_or_none fallback.reason_code)
  violation (text_or_none fallback.reason)
  violation (elim fallback.mode [
    | no_fallback ↦ not (given fallback.reason_code) && not (given fallback.reason)
    | _ ↦ given fallback.reason_code && given fallback.reason
  ])

abbrev pub was_closed : CloseStatus → Bool
was_closed closed = true
was_closed _ = false

abbrev pub is_not_required : CloseStatus → Bool
is_not_required not_required = true
is_not_required _ = false

abbrev pub is_close_failed : CloseStatus → Bool
is_close_failed close_failed = true
is_close_failed _ = false

abbrev pub is_no_fallback : FallbackMode → Bool
is_no_fallback no_fallback = true
is_no_fallback _ = false

abbrev pub is_same_context : FallbackMode → Bool
is_same_context same_context = true
is_same_context _ = false

abbrev pub is_blocked_mode : FallbackMode → Bool
is_blocked_mode blocked_mode = true
is_blocked_mode _ = false

abbrev pub is_delegate : Decision → Bool
is_delegate delegate = true
is_delegate _ = false

abbrev pub is_fall_back : Decision → Bool
is_fall_back fall_back = true
is_fall_back _ = false

abbrev pub is_block : Decision → Bool
is_block block = true
is_block _ = false

-- the first time, if it is given, is not after the second
abbrev pub not_after : Option ℕ → Option ℕ → Bool
not_after (some first) (some second) = leb first second
not_after _ _ = true

-- the time of closing, of a session that was closed
abbrev pub time_of_closing : Close → Option ℕ
time_of_closing close = if was_closed close.status then close.closed_at else none

unfoldable pub validate_times : Outcome → Preparation → Result (Unit {0})
validate_times outcome preparation = do
  violation (not_after (some preparation.prepared_at) outcome.started_at)
  violation (not_after (some preparation.prepared_at) outcome.completed_at)
  violation (not_after (some preparation.prepared_at) (time_of_closing outcome.close))
  violation (not_after outcome.started_at outcome.completed_at)
  violation (not_after outcome.completed_at (time_of_closing outcome.close))

-- `fork_context is not False` does not hold
abbrev pub is_isolated : Option Bool → Bool
is_isolated (some false) = true
is_isolated _ = false

unfoldable pub validate_completed : Outcome → Preparation → Result (Unit {0})
validate_completed outcome preparation = violation (
    is_delegate preparation.decision
    && given outcome.agent_id
    && is_isolated outcome.fork_context
    && given outcome.started_at
    && given outcome.completed_at
    && not outcome.context_expansion_requested
    && not (given outcome.failure)
    && was_closed outcome.close.status
    && is_no_fallback outcome.fallback.mode)

-- an outcome without an agent
abbrev no_agent : Outcome → Bool
no_agent outcome =
    not (given outcome.agent_id)
    && not (given outcome.fork_context)
    && not (given outcome.started_at)
    && nat_eq outcome.schema_repair_count 0
    && not outcome.context_expansion_requested
    && is_not_required outcome.close.status

abbrev expected_reason_code : Preparation → String
expected_reason_code preparation =
    if preparation.policy_disabled || preparation.capability_policy_disabled
    then "REVIEW_DISPATCH_POLICY_DISABLED"
    else "REVIEW_HOST_TOOLS_UNAVAILABLE"

abbrev is_text : Option String → String → Bool
is_text none text = false
is_text (some given) text = given == text

unfoldable pub validate_same_context : Outcome → Preparation → Result (Unit {0})
validate_same_context outcome preparation = violation (
    is_fall_back preparation.decision
    && no_agent outcome
    && given outcome.completed_at
    && not (given outcome.failure)
    && is_same_context outcome.fallback.mode
    && is_text outcome.fallback.reason_code (expected_reason_code preparation))

abbrev is_unavailable : Option Failure → Bool
is_unavailable none = false
is_unavailable (some failure) =
    failure.code == "REVIEW_DISPATCH_REQUIRED_UNAVAILABLE" && not failure.retryable

unfoldable pub validate_blocked : Outcome → Preparation → Result (Unit {0})
validate_blocked outcome preparation = violation (
    is_block preparation.decision
    && no_agent outcome
    && given outcome.completed_at
    && is_unavailable outcome.failure
    && is_blocked_mode outcome.fallback.mode)

abbrev differ : Bool → Bool → Bool
differ true b = not b
differ false b = b

unfoldable pub validate_failed : Outcome → Preparation → Result (Unit {0})
validate_failed outcome preparation = elim outcome.failure [
  | none ↦ err review_dispatch_policy_violation
  | some failure ↦ (do
    violation (
        is_delegate preparation.decision
        && given outcome.completed_at
        && is_no_fallback outcome.fallback.mode)
    violation (
        if given outcome.agent_id
        then is_isolated outcome.fork_context
          && given outcome.started_at
          && not (is_not_required outcome.close.status)
        else no_agent outcome)
    let final_attempt = nat_eq preparation.attempt preparation.max_attempts
    violation (not (final_attempt && failure.retryable))
    violation (
        if outcome.context_expansion_requested
        then failure.code == "REVIEW_CONTEXT_EXPANSION_REQUIRED"
          && differ failure.retryable final_attempt
          && was_closed outcome.close.status
        else not (failure.code == "REVIEW_CONTEXT_EXPANSION_REQUIRED"))
    violation (
        not (is_close_failed outcome.close.status)
        || failure.code == "REVIEW_DISPATCH_AGENT_UNCLOSED" && not failure.retryable)
    violation (not (failure.code == "REVIEW_DISPATCH_STALE" && failure.retryable)))
]

unfoldable pub validate_status : Outcome → Preparation → Result (Unit {0})
validate_status outcome preparation = elim outcome.status [
  | completed ↦ validate_completed outcome preparation
  | fallen_back ↦ validate_same_context outcome preparation
  | blocked ↦ validate_blocked outcome preparation
  | failed ↦ validate_failed outcome preparation
]

-- AGENT_ID
abbrev is_agent_id : String → Bool
is_agent_id id = not (id == "") && not (any is_space (codes id))

unfoldable pub validate_outcome : Outcome → Preparation → Result Outcome
validate_outcome outcome preparation = do
  violation (elim outcome.agent_id [ none ↦ true | some id ↦ is_agent_id id ])
  violation (leb outcome.schema_repair_count 1)
  require
      (not (nat_eq outcome.schema_repair_count 1) || mem "send_input" preparation.available_tools)
      review_dispatch_provenance_mismatch
  validate_failure outcome.failure
  validate_close outcome.close
  validate_fallback outcome.fallback
  validate_times outcome preparation
  require (not (outcome.parent_judgment_included || outcome.recursive_delegation_allowed))
      review_dispatch_provenance_mismatch
  validate_status outcome preparation
  ok outcome

pub data ReviewerMode : Type 0 where
  same_context_review external_agent : ReviewerMode

-- without the texts of the limits
pub record Reviewer : Type 0 where
  pub mode : ReviewerMode
  pub agent : Option String
  pub independence_claim : Bool

abbrev pub is_completed : Status → Bool
is_completed completed = true
is_completed _ = false

abbrev is_fallback : Status → Bool
is_fallback fallen_back = true
is_fallback _ = false

abbrev same_context_reviewer : Reviewer
same_context_reviewer = record {
  mode = same_context_review;
  agent = none;
  independence_claim = false;
}

unfoldable pub reviewer_for : Outcome → Reviewer
reviewer_for outcome =
    if is_fallback outcome.status then same_context_reviewer else (elim outcome.agent_id [
      | none ↦ same_context_reviewer
      | some id ↦ record {
        mode = external_agent;
        agent = some id;
        independence_claim = is_completed outcome.status;
      }
    ])
