-- ===== src/Reviewer/Dispatch/Claims.antt =====
-- dispatch_lifecycle.py: what an outcome that was accepted lets the dispatch claim.
use dev_skills.Base.{
  ℕ, ◌≤◌, true, false, none, some, String, ◌==◌, ok, ◌≡◌, ◌≢◌, refl, sym, arith, inl, inr, ap,
  subst, ◌∙◌, Option-cases,
}
use dev_skills.Reviewer.Dispatch.{
  Status, completed, fallen_back, blocked, failed, delegate, Failure, Close, Outcome, Preparation,
  was_closed, validate_close, validate_times, validate_completed, validate_same_context,
  validate_blocked, validate_failed, validate_status, validate_outcome, reviewer_for,
  is_close_failed,
}

outcome_parts :
    (outcome checked : Outcome) (preparation : Preparation)
    → validate_outcome outcome preparation ≡ ok checked
    → (checked ≡ outcome)
      × (validate_close outcome.close ≡ ok tt)
      × (validate_times outcome preparation ≡ ok tt)
      × (validate_status outcome preparation ≡ ok tt)
      × (outcome.parent_judgment_included ≡ false)
      × (outcome.recursive_delegation_allowed ≡ false)
unfolding validate_outcome
outcome_parts outcome checked preparation h = ground arith

claim_status :
    (outcome : Outcome)
    → (reviewer_for outcome).independence_claim ≡ true
    → outcome.status ≡ completed
unfolding reviewer_for
claim_status outcome h = ground arith

completed_parts :
    (outcome : Outcome) (preparation : Preparation)
    → validate_completed outcome preparation ≡ ok tt
    → (agent : String) × (started ended : ℕ) × (preparation.decision ≡ delegate)
      × (outcome.agent_id ≡ some agent)
      × (outcome.fork_context ≡ some false)
      × (outcome.started_at ≡ some started)
      × (outcome.completed_at ≡ some ended)
      × (outcome.failure ≡ none)
      × (was_closed outcome.close.status ≡ true)
unfolding validate_completed
completed_parts outcome preparation h = elim (Option-cases outcome.agent_id) [
  | inl e ↦ absurd (ground arith)
  | inr (agent, e) ↦ elim (Option-cases outcome.started_at) [
    | inl f ↦ absurd (ground arith)
    | inr (started, f) ↦ elim (Option-cases outcome.completed_at) [
      | inl g ↦ absurd (ground arith)
      | inr (ended, g) ↦
          (agent, started, ended, ground arith, e, ground arith, f, g, ground arith, ground arith)
    ]
  ]
]

closed_time :
    (close : Close)
    → validate_close close ≡ ok tt
    → was_closed close.status ≡ true
    → (time : ℕ) × (close.closed_at ≡ some time)
unfolding validate_close
closed_time close h e = elim (Option-cases close.closed_at) [
  | inl f ↦ absurd (ground arith)
  | inr (time, f) ↦ (time, f)
]

times_parts :
    (outcome : Outcome) (preparation : Preparation) (started ended closed_at : ℕ)
    → validate_times outcome preparation ≡ ok tt
    → outcome.started_at ≡ some started
    → outcome.completed_at ≡ some ended
    → outcome.close.closed_at ≡ some closed_at
    → was_closed outcome.close.status ≡ true
    → (preparation.prepared_at ≤ started) × (started ≤ ended) × (ended ≤ closed_at)
unfolding validate_times
times_parts outcome preparation started ended closed_at h s e c d = ground arith

-- An accepted outcome whose reviewer claims independence is that of a delegated agent with an
-- isolated context: it started after the preparation, completed without a failure and was closed,
-- in this order, with no judgment of the parent and no further delegation; and the reviewer is
-- this agent.
pub independence_is_backed :
    (outcome checked : Outcome) (preparation : Preparation)
    → validate_outcome outcome preparation ≡ ok checked
    → (reviewer_for checked).independence_claim ≡ true
    → (agent : String) × (started ended closed_at : ℕ) × (preparation.decision ≡ delegate)
      × ((reviewer_for checked).agent ≡ some agent)
      × (checked.fork_context ≡ some false)
      × (checked.started_at ≡ some started)
      × (checked.completed_at ≡ some ended)
      × (checked.close.closed_at ≡ some closed_at)
      × (preparation.prepared_at ≤ started)
      × (started ≤ ended)
      × (ended ≤ closed_at)
      × (checked.failure ≡ none)
      × (checked.parent_judgment_included ≡ false)
      × (checked.recursive_delegation_allowed ≡ false)
unfolding reviewer_for validate_status
independence_is_backed outcome checked preparation h claim =
    let (same, close, times, status, parent, recursive) =
      outcome_parts outcome checked preparation h in
    let claimed : (reviewer_for outcome).independence_claim ≡ true =
      subst (λ (o : Outcome). (reviewer_for o).independence_claim ≡ true) same claim in
    let done : outcome.status ≡ completed = claim_status outcome claimed in
    let (agent, started, ended, decision, has_agent, fork, s, e, no_failure, shut) =
      completed_parts outcome preparation (ground arith) in
    let (time, t) = closed_time outcome.close close shut in
    let (p, q, r) = times_parts outcome preparation started ended time times s e t shut in
    (
      agent,
      started,
      ended,
      time,
      decision,
      ap (λ (o : Outcome). (reviewer_for o).agent) same ∙ ground arith,
      ap (λ (o : Outcome). o.fork_context) same ∙ fork,
      ap (λ (o : Outcome). o.started_at) same ∙ s,
      ap (λ (o : Outcome). o.completed_at) same ∙ e,
      ap (λ (o : Outcome). o.close.closed_at) same ∙ t,
      p,
      q,
      r,
      ap (λ (o : Outcome). o.failure) same ∙ no_failure,
      ap (λ (o : Outcome). o.parent_judgment_included) same ∙ parent,
      ap (λ (o : Outcome). o.recursive_delegation_allowed) same ∙ recursive,
    )

retry_parts :
    (outcome : Outcome) (preparation : Preparation) (failure : Failure) (status : Status)
    → outcome.status ≡ status
    → validate_status outcome preparation ≡ ok tt
    → outcome.failure ≡ some failure
    → failure.retryable ≡ true
    → (outcome.status ≡ failed)
      × (preparation.attempt ≢ preparation.max_attempts)
      × (is_close_failed outcome.close.status ≡ false)
      × ((failure.code == "REVIEW_DISPATCH_STALE") ≡ false)
unfolding validate_status validate_completed validate_same_context validate_blocked validate_failed
retry_parts outcome preparation failure completed e h f r = absurd (ground arith)
retry_parts outcome preparation failure fallen_back e h f r = absurd (ground arith)
retry_parts outcome preparation failure blocked e h f r = absurd (ground arith)
retry_parts outcome preparation failure failed e h f r =
    (e, ground arith, ground arith, ground arith)

-- An accepted outcome with a failure that may be retried is a failed attempt, not with the number of
-- the last one, whose closing did not fail and whose code is not that of a stale target.
pub retries_end :
    (outcome checked : Outcome) (preparation : Preparation) (failure : Failure)
    → validate_outcome outcome preparation ≡ ok checked
    → checked.failure ≡ some failure
    → failure.retryable ≡ true
    → (checked.status ≡ failed)
      × (preparation.attempt ≢ preparation.max_attempts)
      × (is_close_failed checked.close.status ≡ false)
      × ((failure.code == "REVIEW_DISPATCH_STALE") ≡ false)
retries_end outcome checked preparation failure h f r =
    let (same, close, times, status, parent, recursive) =
      outcome_parts outcome checked preparation h in
    let (a, b, c, d) =
      retry_parts outcome preparation failure outcome.status refl status
        (sym (ap (λ (o : Outcome). o.failure) same) ∙ f) r in
    (
      ap (λ (o : Outcome). o.status) same ∙ a,
      b,
      ap (λ (o : Outcome). is_close_failed o.close.status) same ∙ c,
      d,
    )
