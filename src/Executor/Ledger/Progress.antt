-- ===== src/Executor/Ledger/Progress.antt =====
-- Which stages are completed and which remain, in every state that a replay reaches.
use dev_skills.Base.{
  Bool, true, Option, none, some, String, List, [], ◌≡◌, inl, inr, arith, Bool-cases, all, mem,
  subset, without, distinct, Dict, obj,
}
use dev_skills.Executor.Errors.{ok, >>=-eq-ok}
use dev_skills.Executor.Review.{ReviewRecord, validate_review_record}
use dev_skills.Executor.Event.{Event}
use dev_skills.Executor.Contract.{Stage, dependencies}
use dev_skills.Executor.State.{Replay}
use dev_skills.Executor.Reducer.Stages.{on_execution_started, on_stage_started, on_attempt_failed}
use dev_skills.Executor.Reducer.Records.{
  is_delta, on_validation_recorded, on_review_recorded, on_stage_review, on_final_review,
}
use dev_skills.Executor.Reducer.Completion.{on_completed, on_aborted}
use dev_skills.Executor.Reducer.Stops.{
  on_blocked, on_research_drift, on_amendment_requested, on_resumed,
}
use dev_skills.Executor.Reducer.Commits.{on_commit_recorded, record_commit}

-- each completed stage has its dependencies among the completed ones
abbrev pub closed : Dict Stage → List String → Bool
closed definitions l = all (λ s. subset (dependencies definitions s) l) l

abbrev pub is_in : Option String → List String → Bool
is_in none l = true
is_in (some s) l = mem s l

abbrev pub is_ready : Dict Stage → Option String → List String → Bool
is_ready definitions none l = true
is_ready definitions (some s) l = subset (dependencies definitions s) l

-- `order` is the topological order that the replay starts with.
pub record Progress (definitions : Dict Stage) (order : List String) (r : Replay) : Type 0 where
  pub partition : r.remaining_stage_ids ≡ without r.completed_stage_ids order
  pub known : subset r.completed_stage_ids order ≡ true
  pub unique : distinct r.completed_stage_ids ≡ true
  pub dependencies_first : closed definitions r.completed_stage_ids ≡ true
  pub active : is_in r.current_stage_id r.remaining_stage_ids ≡ true
  pub ready : is_ready definitions r.current_stage_id r.completed_stage_ids ≡ true

-- Before the first event nothing is completed or active.
pub record Fresh (r : Replay) : Type 0 where
  pub at_start : r.last_event_seq ≡ 0 → (r.completed_stage_ids ≡ []) × (r.current_stage_id ≡ none)

-- What a handler that leaves the three stage fields alone keeps.
pub Progress-frame :
    (definitions : Dict Stage) (order : List String) (r r' : Replay)
    → r'.completed_stage_ids ≡ r.completed_stage_ids
    → r'.remaining_stage_ids ≡ r.remaining_stage_ids
    → r'.current_stage_id ≡ r.current_stage_id
    → Progress definitions order r
    → Progress definitions order r'
Progress-frame definitions order r r' c m a p = ground arith

module _ (definitions : Dict Stage) (order : List String) (r r' : Replay) where
  abbrev pub Kept : Type 0
  Kept = Progress definitions order r → Progress definitions order r'

  pub on_execution_started-Progress : on_execution_started r ≡ ok r' → Kept
  unfolding on_execution_started
  on_execution_started-Progress h p = ground arith

  pub on_stage_started-Progress : (e : Event) → on_stage_started definitions r e ≡ ok r' → Kept
  unfolding on_stage_started dependencies
  on_stage_started-Progress e h p = ground arith

  pub on_attempt_failed-Progress : (e : Event) → on_attempt_failed r e ≡ ok r' → Kept
  unfolding on_attempt_failed
  on_attempt_failed-Progress e h p = ground arith

  pub on_validation_recorded-Progress :
      (e : Event) → on_validation_recorded definitions r e ≡ ok r' → Kept
  unfolding on_validation_recorded
  on_validation_recorded-Progress e h p = ground arith

  pub on_stage_review-Progress :
      (e : Event) (v : ReviewRecord) → on_stage_review r e v ≡ ok r' → Kept
  unfolding on_stage_review
  on_stage_review-Progress e v h p = ground arith

  pub on_final_review-Progress : (v : ReviewRecord) → on_final_review r v ≡ ok r' → Kept
  unfolding on_final_review
  on_final_review-Progress v h p = ground arith

  pub on_blocked-Progress : (e : Event) → on_blocked r e ≡ ok r' → Kept
  unfolding on_blocked
  on_blocked-Progress e h p = ground arith

  pub on_research_drift-Progress : (e : Event) → on_research_drift r e ≡ ok r' → Kept
  unfolding on_research_drift
  on_research_drift-Progress e h p = ground arith

  pub on_amendment_requested-Progress : (e : Event) → on_amendment_requested r e ≡ ok r' → Kept
  unfolding on_amendment_requested
  on_amendment_requested-Progress e h p = ground arith

  pub on_resumed-Progress : (e : Event) → on_resumed r e ≡ ok r' → Kept
  unfolding on_resumed
  on_resumed-Progress e h p = ground arith

  pub record_commit-Progress : (s : Option String) → record_commit definitions r s ≡ ok r' → Kept
  unfolding record_commit
  record_commit-Progress none h p = ground arith
  record_commit-Progress (some s) h p = ground arith

  pub on_completed-Progress : on_completed r ≡ ok r' → Kept
  unfolding on_completed
  on_completed-Progress h p = ground arith

  pub on_aborted-Progress : (e : Event) → on_aborted r e ≡ ok r' → Kept
  unfolding on_aborted
  on_aborted-Progress e h p = ground arith

  pub on_review_recorded-Progress : (e : Event) → on_review_recorded r e ≡ ok r' → Kept
  unfolding on_review_recorded
  on_review_recorded-Progress e h p =
      let (v, _, h') =
        >>=-eq-ok (validate_review_record (obj e.payload) e.stage_id e.attempt) _ h in
      elim (Bool-cases (is_delta v.scope)) [
        | inl d ↦ on_stage_review-Progress e v (rw d at h') p
        | inr d ↦ on_final_review-Progress v (rw d at h') p
      ]

  pub on_commit_recorded-Progress : (e : Event) → on_commit_recorded definitions r e ≡ ok r' → Kept
  unfolding on_commit_recorded
  on_commit_recorded-Progress e h p = ground (arith, record_commit-Progress e.stage_id)
