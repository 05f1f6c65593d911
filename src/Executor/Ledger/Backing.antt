-- ===== src/Executor/Ledger/Backing.antt =====
-- Every handler keeps the evidence of the completed stages.
use dev_skills.Base.{
  ℕ, ◌+◌, get_or, obj, true, false, Option, none, some, String, List, ◌==◌, if◌then◌else◌, ◌≡◌,
  refl, ap, ◌∙◌, ◌⊎◌, arith, mem, without, Dict, insert, delete, lookup-insert, lookup-delete,
  mem-without, Option-cases, inl, inr,
}
use dev_skills.Executor.Errors.{ok, >>=-eq-ok}
use dev_skills.Executor.Validation.{ValidationRecord, validate_validation_record}
use dev_skills.Executor.Review.{
  ReviewRecord, Scope, stage_delta, final_integration, validate_review_record,
}
use dev_skills.Executor.Review.Scopes.{ScopeOf, validate_review_record-eq-ok}
use dev_skills.Executor.Event.{Event}
use dev_skills.Executor.Contract.{Stage}
use dev_skills.Executor.State.{recorded, Replay}
use dev_skills.Executor.Reducer.Guards.{records_of, same_stage, same_stage→≡}
use dev_skills.Executor.Reducer.Stages.{on_execution_started, on_stage_started, on_attempt_failed}
use dev_skills.Executor.Reducer.Records.{
  is_delta, record_validation, on_validation_recorded, on_review_recorded, on_stage_review,
  on_final_review,
}
use dev_skills.Executor.Reducer.Completion.{on_completed, on_aborted}
use dev_skills.Executor.Reducer.Stops.{
  on_blocked, on_research_drift, on_amendment_requested, on_resumed,
}
use dev_skills.Executor.Reducer.Commits.{on_commit_recorded, record_commit}
use dev_skills.Executor.Ledger.Progress.{Progress}
use dev_skills.Executor.Ledger.Evidence.{Backed, Backed-frame, Backed-at, ne_of_mem}

Scope-cases :
    (s : Scope) → ((k : String) × (n : ℕ) × (s ≡ stage_delta k n)) ⊎ (s ≡ final_integration)
Scope-cases (stage_delta k n) = inl (k, n, refl)
Scope-cases final_integration = inr refl

-- the current stage is not completed
apart :
    (definitions : Dict Stage) (order : List String) (r : Replay) (s : String)
    → Progress definitions order r
    → r.current_stage_id ≡ some s
    → mem s r.completed_stage_ids ≡ false
apart definitions order r s p c =
    let left : mem s (without r.completed_stage_ids order) ≡ true =
      rw (← p.partition) (rw c at p.active) in
    ground (arith, mem-without s r.completed_stage_ids order)

remaining_apart :
    (definitions : Dict Stage) (order : List String) (r : Replay) (s : String)
    → Progress definitions order r
    → mem s r.remaining_stage_ids ≡ true
    → mem s r.completed_stage_ids ≡ false
remaining_apart definitions order r s p m =
    let left : mem s (without r.completed_stage_ids order) ≡ true = rw p.partition at m in
    ground (arith, mem-without s r.completed_stage_ids order)

module _ (definitions : Dict Stage) (required order : List String) (r r' : Replay)
    (p : Progress definitions order r) (b : Backed definitions required r) where
  abbrev B : Type 0
  B = Backed definitions required r'

  pub on_execution_started-Backed : on_execution_started r ≡ ok r' → B
  unfolding on_execution_started
  on_execution_started-Backed h =
      Backed-frame definitions required r r' (ground arith) (λ v e. ground (arith, b.final v)) b

  pub on_blocked-Backed : (e : Event) → on_blocked r e ≡ ok r' → B
  unfolding on_blocked
  on_blocked-Backed e h =
      Backed-frame definitions required r r' (ground arith) (λ v e. ground (arith, b.final v)) b

  pub on_research_drift-Backed : (e : Event) → on_research_drift r e ≡ ok r' → B
  unfolding on_research_drift
  on_research_drift-Backed e h =
      Backed-frame definitions required r r' (ground arith) (λ v e. ground (arith, b.final v)) b

  pub on_amendment_requested-Backed : (e : Event) → on_amendment_requested r e ≡ ok r' → B
  unfolding on_amendment_requested
  on_amendment_requested-Backed e h =
      Backed-frame definitions required r r' (ground arith) (λ v e. ground (arith, b.final v)) b

  pub on_resumed-Backed : (e : Event) → on_resumed r e ≡ ok r' → B
  unfolding on_resumed
  on_resumed-Backed e h =
      Backed-frame definitions required r r' (ground arith) (λ v e. ground (arith, b.final v)) b

  pub on_completed-Backed : on_completed r ≡ ok r' → B
  unfolding on_completed
  on_completed-Backed h =
      Backed-frame definitions required r r' (ground arith) (λ v e. ground (arith, b.final v)) b

  pub on_aborted-Backed : (e : Event) → on_aborted r e ≡ ok r' → B
  unfolding on_aborted
  on_aborted-Backed e h =
      Backed-frame definitions required r r' (ground arith) (λ v e. ground (arith, b.final v)) b

  pub on_final_review-Backed : (w : ReviewRecord) → on_final_review r w ≡ ok r' → B
  unfolding on_final_review
  on_final_review-Backed w h =
      Backed-frame definitions required r r' (ground arith) (λ v e. ground arith) b

  record_commit-Backed : (s : Option String) → record_commit definitions r s ≡ ok r' → B
  unfolding record_commit
  record_commit-Backed none h =
      Backed-frame definitions required r r' (ground arith) (λ v e. ground (arith, b.final v)) b
  record_commit-Backed (some s) h =
      Backed-frame definitions required r r' (ground arith) (λ v e. ground (arith, b.final v)) b

  pub on_commit_recorded-Backed : (e : Event) → on_commit_recorded definitions r e ≡ ok r' → B
  unfolding on_commit_recorded
  on_commit_recorded-Backed e h = record_commit-Backed e.stage_id (ground arith)

  pub on_stage_started-Backed : (e : Event) → on_stage_started definitions r e ≡ ok r' → B
  unfolding on_stage_started
  on_stage_started-Backed e h = elim (Option-cases e.stage_id) [
    | inl absent ↦ absurd (ground arith)
    | inr (k, found) ↦
        let new = remaining_apart definitions order r k p (ground arith) in
        Backed-at definitions required r r' (ground arith) (ground arith) (ground arith)
          (λ s m.
            let ne = ne_of_mem k s r.completed_stage_ids new m in
            record {
              review = ground (arith, lookup-delete s k r.stage_reviews);
              attempt = ground (arith, lookup-insert s k (get_or k 0 r.attempts + 1) r.attempts);
              records = ground (arith, lookup-delete s k r.passed_validations);
            })
          (λ s v q. ground (arith, lookup-delete s k r.stage_reviews)) b
  ]

  -- the events below are about the current stage
  module _ (e : Event) (k : String) (found : e.stage_id ≡ some k) where
    current_stage : same_stage r.current_stage_id e.stage_id ≡ true → r.current_stage_id ≡ some k
    current_stage h = same_stage→≡ r.current_stage_id e.stage_id h ∙ found

    off_stage :
        same_stage r.current_stage_id e.stage_id ≡ true
        → (s : String) → mem s r.completed_stage_ids ≡ true
        → (k == s) ≡ false
    off_stage h s m =
        ne_of_mem k s r.completed_stage_ids (apart definitions order r k p (current_stage h)) m

    pub on_attempt_failed-Backed : on_attempt_failed r e ≡ ok r' → B
    unfolding on_attempt_failed
    on_attempt_failed-Backed h =
        Backed-at definitions required r r' (ground arith) (ground arith) (ground arith)
          (λ s m.
            let ne = off_stage (ground arith) s m in
            record {
              review = ground (arith, lookup-delete s k r.stage_reviews);
              attempt = ground arith;
              records = ground (arith, lookup-delete s k r.passed_validations);
            })
          (λ s v q. ground (arith, lookup-delete s k r.stage_reviews)) b

    pub on_stage_review-Backed : (w : ReviewRecord) → on_stage_review r e w ≡ ok r' → B
    unfolding on_stage_review
    on_stage_review-Backed w h =
        Backed-at definitions required r r' (ground arith) (ground arith) (ground arith)
          (λ s m.
            let ne = off_stage (ground arith) s m in
            record {
              review =
                  ground
                    (arith, lookup-delete s k r.stage_reviews, lookup-insert s k w r.stage_reviews);
              attempt = ground arith;
              records = ground arith;
            })
          (λ s v q.
            ground (arith, lookup-delete s k r.stage_reviews, lookup-insert s k w r.stage_reviews))
          b

    record_validation-Backed :
        (v : ValidationRecord)
        → same_stage r.current_stage_id e.stage_id ≡ true
        → r' ≡ record_validation r k v
        → B
    record_validation-Backed v c h =
        let kept = insert v.validation_id (recorded v) (records_of r k) in
        let dropped = delete v.validation_id (records_of r k) in
        Backed-at definitions required r r' (ground arith) (ground arith) (ground arith)
          (λ s m.
            let ne = off_stage c s m in
            record {
              review = ground (arith, lookup-delete s k r.stage_reviews);
              attempt = ground arith;
              records = ground (
                arith,
                lookup-insert s k kept r.passed_validations,
                lookup-insert s k dropped r.passed_validations,
              );
            })
          (λ s w q. ground (arith, lookup-delete s k r.stage_reviews)) b

    pub on_validation_recorded-Backed : on_validation_recorded definitions r e ≡ ok r' → B
    unfolding on_validation_recorded
    on_validation_recorded-Backed h =
        let parts : (v : ValidationRecord) × (validate_validation_record (obj e.payload) e.attempt
              ≡ ok v)
            × (same_stage r.current_stage_id e.stage_id ≡ true)
            × (r' ≡ record_validation r k v) =
          ground arith in
        record_validation-Backed parts.0 parts.2 parts.3

  pub on_review_recorded-Backed : (e : Event) → on_review_recorded r e ≡ ok r' → B
  unfolding on_review_recorded
  on_review_recorded-Backed e h =
      let (w, valid, h') =
        >>=-eq-ok (validate_review_record (obj e.payload) e.stage_id e.attempt) _ h in
      by_scope e w (validate_review_record-eq-ok (obj e.payload) e.stage_id e.attempt w valid).0 h'
    where
      by_scope :
          (e : Event) (w : ReviewRecord)
          → ScopeOf e.stage_id e.attempt w.scope
          → (if is_delta w.scope then on_stage_review r e w else on_final_review r w) ≡ ok r'
          → B
      by_scope e w scoped g = elim (Scope-cases w.scope) [
        | inl (k, n, delta) ↦
            on_stage_review-Backed e k (rw delta at scoped).0 w (rw (ap is_delta delta) at g)
        | inr final ↦ on_final_review-Backed w (rw (ap is_delta final) at g)
      ]
