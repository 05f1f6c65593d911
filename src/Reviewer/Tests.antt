-- ===== src/Reviewer/Tests.antt =====
-- A completed review and a failed first attempt.
use dev_skills.Base.{
  ℕ, ◌≤◌, true, false, none, some, String, [], ◌∷◌, ◌==◌, ok, ◌≡◌, ◌≢◌, refl, has_text,
}
use dev_skills.Reviewer.Dispatch.{
  completed, failed, delegate, Failure, closed, no_fallback, Outcome, Preparation, validate_failure,
  validate_close, validate_fallback, validate_times, validate_completed, validate_failed,
  validate_status, validate_outcome, reviewer_for, is_close_failed,
}
use dev_skills.Reviewer.Dispatch.Claims.{independence_is_backed, retries_end}

abbrev preparation : Preparation
preparation = record {
  prepared_at = 10;
  decision = delegate;
  policy_disabled = false;
  capability_policy_disabled = false;
  available_tools = "close_agent" ∷ "spawn_agent" ∷ "wait_agent" ∷ [];
  attempt = 1;
  max_attempts = 2;
}

abbrev review : Outcome
review = record {
  status = completed;
  agent_id = some "agent-7";
  fork_context = some false;
  started_at = some 11;
  completed_at = some 20;
  schema_repair_count = 0;
  context_expansion_requested = false;
  parent_judgment_included = false;
  recursive_delegation_allowed = false;
  failure = none;
  close = record {
    required = true;
    attempted = true;
    status = closed;
    closed_at = some 21;
    error = none;
  };
  fallback = record { mode = no_fallback; reason_code = none; reason = none };
}

review_accepted : validate_outcome review preparation ≡ ok review
unfolding validate_outcome validate_failure validate_close validate_fallback validate_times
    validate_status validate_completed
review_accepted = refl

claims : (reviewer_for review).independence_claim ≡ true
unfolding reviewer_for
claims = refl

independence_is_backed_example :
    (agent : String) × (started ended closed_at : ℕ) × (preparation.decision ≡ delegate)
    × ((reviewer_for review).agent ≡ some agent)
    × (review.fork_context ≡ some false)
    × (review.started_at ≡ some started)
    × (review.completed_at ≡ some ended)
    × (review.close.closed_at ≡ some closed_at)
    × (preparation.prepared_at ≤ started)
    × (started ≤ ended)
    × (ended ≤ closed_at)
    × (review.failure ≡ none)
    × (review.parent_judgment_included ≡ false)
    × (review.recursive_delegation_allowed ≡ false)
independence_is_backed_example =
    independence_is_backed review review preparation review_accepted claims

abbrev timeout : Failure
timeout = record { code = "REVIEW_AGENT_TIMEOUT"; reason = "no answer"; retryable = true }

abbrev attempt : Outcome
attempt = record review { status = failed; failure = some timeout }

attempt_accepted : validate_outcome attempt preparation ≡ ok attempt
unfolding validate_outcome validate_failure has_text validate_close validate_fallback validate_times
    validate_status validate_failed
attempt_accepted = refl

retries_end_example :
    (attempt.status ≡ failed)
    × (preparation.attempt ≢ preparation.max_attempts)
    × (is_close_failed attempt.close.status ≡ false)
    × ((timeout.code == "REVIEW_DISPATCH_STALE") ≡ false)
retries_end_example = retries_end attempt attempt preparation timeout attempt_accepted refl refl
