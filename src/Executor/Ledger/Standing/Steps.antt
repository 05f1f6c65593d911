-- ===== src/Executor/Ledger/Standing/Steps.antt =====
-- Every handler gives and takes the evidence of a stage as the event says.
use dev_skills.Base.{
  true, Option, none, some, String, List, [], ◌==◌, ◌≡◌, refl, sym, ap, ◌∙◌, arith, Dict, obj, get,
  is_str, lookup, insert, delete, if◌then◌else◌, lookup-insert, lookup-delete, Bool-cases, inl, inr,
  eq→≡,
}
use dev_skills.Executor.Errors.{ok, >>=-eq-ok, ok-injective}
use dev_skills.Executor.Validation
use dev_skills.Executor.Validation.{Outcome, ValidationRecord, validate_validation_record}
use dev_skills.Executor.Review
use dev_skills.Executor.Review.{
  ReviewRecord, Scope, stage_delta, final_integration, validate_review_record,
}
use dev_skills.Executor.Review.Scopes.{ScopeOf, validate_review_record-eq-ok}
use dev_skills.Executor.Event.{
  Event, EventType, execution_started, stage_started, attempt_failed, validation_recorded,
  review_recorded, stage_completed, blocked, resumed, research_drift, amendment_requested,
  amendment_approved, commit_recorded, completed, aborted, note, heartbeat, needs_stage, given,
}
use dev_skills.Executor.Contract.{Stage}
use dev_skills.Executor.State.{recorded, Evidence, Replay}
use dev_skills.Executor.Reducer.Guards.{same_stage, records_of}
use dev_skills.Executor.Reducer.Stages.{on_execution_started, on_stage_started, on_attempt_failed}
use dev_skills.Executor.Reducer.Records.{
  is_delta, record_validation, on_validation_recorded, on_review_recorded, on_stage_review,
  on_final_review,
}
use dev_skills.Executor.Reducer.Completion.{on_stage_completed, on_completed, on_aborted}
use dev_skills.Executor.Reducer.Stops.{
  on_blocked, on_research_drift, on_amendment_requested, on_resumed,
}
use dev_skills.Executor.Reducer.Commits.{on_commit_recorded, record_commit}
use dev_skills.Executor.Reducer.Amendment.{on_amendment_approved, carried_stages, carry_validations}
use dev_skills.Executor.Ledger.{dispatch}
use dev_skills.Executor.Ledger.Evidence.{or_empty}
use dev_skills.Executor.Ledger.Standing.{
  review_after, validation_after, review_held, validation_held, is_recorded,
}
use dev_skills.Executor.Ledger.Standing.Payloads.{validation_payload, review_payload}
use dev_skills.Executor.Ledger.Standing.Carried.{lookup-carry_validations}

module _ (definitions : Dict Stage) (r r' : Replay) (e : Event) (s id : String) where
  -- the evidence of the stage goes on as the event says
  pub record Follows (t : EventType) : Type 0 where
    pub review : review_held s r' ≡ review_after s t e (review_held s r)
    pub validation :
        validation_held s id r' ≡ validation_after definitions s id t e (validation_held s id r)

  -- the handlers that leave the evidence alone
  same_review : r'.stage_reviews ≡ r.stage_reviews → review_held s r' ≡ review_held s r
  same_review h = ap (λ (d : Dict ReviewRecord). given (lookup s d)) h

  same_validation :
      r'.passed_validations ≡ r.passed_validations
      → validation_held s id r' ≡ validation_held s id r
  same_validation h =
      ap (λ (d : Dict (Dict Evidence)). is_recorded (lookup id (or_empty (lookup s d)))) h

  on_execution_started-Follows : on_execution_started r ≡ ok r' → Follows execution_started
  unfolding on_execution_started
  on_execution_started-Follows h = record {
    review = same_review (ground arith);
    validation = same_validation (ground arith);
  }

  on_stage_completed-Follows :
      (required : List String)
      → on_stage_completed definitions required r e ≡ ok r'
      → Follows stage_completed
  unfolding on_stage_completed
  on_stage_completed-Follows required h = record {
    review = same_review (ground arith);
    validation = same_validation (ground arith);
  }

  on_blocked-Follows : on_blocked r e ≡ ok r' → Follows blocked
  unfolding on_blocked
  on_blocked-Follows h = record {
    review = same_review (ground arith);
    validation = same_validation (ground arith);
  }

  on_resumed-Follows : on_resumed r e ≡ ok r' → Follows resumed
  unfolding on_resumed
  on_resumed-Follows h = record {
    review = same_review (ground arith);
    validation = same_validation (ground arith);
  }

  on_research_drift-Follows : on_research_drift r e ≡ ok r' → Follows research_drift
  unfolding on_research_drift
  on_research_drift-Follows h = record {
    review = same_review (ground arith);
    validation = same_validation (ground arith);
  }

  on_amendment_requested-Follows : on_amendment_requested r e ≡ ok r' → Follows amendment_requested
  unfolding on_amendment_requested
  on_amendment_requested-Follows h = record {
    review = same_review (ground arith);
    validation = same_validation (ground arith);
  }

  on_completed-Follows : on_completed r ≡ ok r' → Follows completed
  unfolding on_completed
  on_completed-Follows h = record {
    review = same_review (ground arith);
    validation = same_validation (ground arith);
  }

  on_aborted-Follows : on_aborted r e ≡ ok r' → Follows aborted
  unfolding on_aborted
  on_aborted-Follows h = record {
    review = same_review (ground arith);
    validation = same_validation (ground arith);
  }

  record_commit-Follows :
      (k : Option String) → record_commit definitions r k ≡ ok r' → Follows commit_recorded
  unfolding record_commit
  record_commit-Follows none h = record {
    review = same_review (ground arith);
    validation = same_validation (ground arith);
  }
  record_commit-Follows (some k) h = record {
    review = same_review (ground arith);
    validation = same_validation (ground arith);
  }

  on_commit_recorded-Follows : on_commit_recorded definitions r e ≡ ok r' → Follows commit_recorded
  unfolding on_commit_recorded
  on_commit_recorded-Follows h = record_commit-Follows e.stage_id (ground arith)

  amendment_parts :
      on_amendment_approved definitions r e ≡ ok r'
      → (ids : List String) × (carried_stages definitions e.payload ≡ ok ids)
        × (r'.passed_validations ≡ carry_validations definitions ids r.passed_validations)
        × (r'.stage_reviews ≡ r.stage_reviews)
  unfolding on_amendment_approved
  amendment_parts h = ground arith

  on_amendment_approved-Follows :
      on_amendment_approved definitions r e ≡ ok r' → Follows amendment_approved
  on_amendment_approved-Follows h =
      let (ids, chosen, records, reviews) = amendment_parts h in
      record {
        review = same_review reviews;
        validation =
            ground (arith, lookup-carry_validations definitions s id ids r.passed_validations);
      }

  -- the events below are about one stage
  module _ (k : String) (found : e.stage_id ≡ some k) where
    on_attempt_failed-Follows : on_attempt_failed r e ≡ ok r' → Follows attempt_failed
    unfolding on_attempt_failed lookup
    on_attempt_failed-Follows h = record {
      review = ground (arith, lookup-delete s k r.stage_reviews);
      validation = ground (arith, lookup-delete s k r.passed_validations);
    }

    on_stage_started-Follows : on_stage_started definitions r e ≡ ok r' → Follows stage_started
    unfolding on_stage_started lookup
    on_stage_started-Follows h = record {
      review = ground (arith, lookup-delete s k r.stage_reviews);
      validation = ground (arith, lookup-delete s k r.passed_validations);
    }

    on_stage_review-Follows :
        (w : ReviewRecord)
        → is_str (get "verdict" e.payload) "passed" ≡ Review.is_passed w.verdict
        → on_stage_review r e w ≡ ok r'
        → Follows review_recorded
    unfolding on_stage_review
    on_stage_review-Follows w says h = record {
      review =
          ground (arith, lookup-delete s k r.stage_reviews, lookup-insert s k w r.stage_reviews);
      validation = same_validation (ground arith);
    }

    -- the stage of the validation, and any other one
    record_validation-review :
        (v : ValidationRecord)
        → is_str (get "result" e.payload) "passed" ≡ Validation.is_passed v.result
        → r' ≡ record_validation r k v
        → review_held s r' ≡ review_after s validation_recorded e (review_held s r)
    record_validation-review v says h = ground (arith, lookup-delete s k r.stage_reviews)

    records_at : (k == s) ≡ true → records_of r k ≡ or_empty (lookup s r.passed_validations)
    records_at is = ap (λ x. records_of r x) (eq→≡ k s is) ∙ either (lookup s r.passed_validations)
      where
        either : (o : Option (Dict Evidence)) → elim o [ none ↦ [] | some w ↦ w ] ≡ or_empty o
        either none = refl
        either (some w) = refl

    kept_records : ValidationRecord → Dict Evidence
    kept_records v = insert v.validation_id (recorded v) (records_of r k)

    left_records : ValidationRecord → Dict Evidence
    left_records v = delete v.validation_id (records_of r k)

    record_validation-validation :
        (v : ValidationRecord)
        → is_str (get "validation_id" e.payload) id ≡ (v.validation_id == id)
        → is_str (get "result" e.payload) "passed" ≡ Validation.is_passed v.result
        → r' ≡ record_validation r k v
        → validation_held s id r'
          ≡ validation_after definitions s id validation_recorded e (validation_held s id r)
    unfolding kept_records left_records
    record_validation-validation v names says h = elim (Bool-cases (k == s)) [
      | inr other ↦ ground (
        arith,
        lookup-insert s k (kept_records v) r.passed_validations,
        lookup-insert s k (left_records v) r.passed_validations,
      )
      | inl is ↦
          let same = records_at is in
          ground (
            arith,
            lookup-insert s k (kept_records v) r.passed_validations,
            lookup-insert s k (left_records v) r.passed_validations,
            lookup-insert id v.validation_id (recorded v) (records_of r k),
            lookup-delete id v.validation_id (records_of r k),
          )
    ]

    validation_parts :
        on_validation_recorded definitions r e ≡ ok r'
        → (v : ValidationRecord) × (validate_validation_record (obj e.payload) e.attempt ≡ ok v)
          × (r' ≡ record_validation r k v)
    unfolding on_validation_recorded
    validation_parts h = ground arith

    on_validation_recorded-Follows :
        on_validation_recorded definitions r e ≡ ok r' → Follows validation_recorded
    on_validation_recorded-Follows h =
        let (v, valid, after) = validation_parts h in
        let (name, says) = validation_payload e.payload e.attempt v valid in
        record {
          review = record_validation-review v says after;
          validation = record_validation-validation v (ground (arith, name)) says after;
        }

  -- a final review is about no stage
  on_final_review-Follows :
      (w : ReviewRecord) → e.stage_id ≡ none → on_final_review r w ≡ ok r' → Follows review_recorded
  unfolding on_final_review
  on_final_review-Follows w absent h = record {
    review =
        same_review (ground arith)
        ∙ ap
            (λ (o : Option String).
              if same_stage o (some s)
              then is_str (get "verdict" e.payload) "passed"
              else review_held s r)
            (sym absent);
    validation = same_validation (ground arith);
  }

  on_review_recorded-Follows : on_review_recorded r e ≡ ok r' → Follows review_recorded
  unfolding on_review_recorded
  on_review_recorded-Follows h =
      let (w, valid, h') =
        >>=-eq-ok (validate_review_record (obj e.payload) e.stage_id e.attempt) _ h in
      by_scope w.scope w refl
        (validate_review_record-eq-ok (obj e.payload) e.stage_id e.attempt w valid).0
        (review_payload e.payload e.stage_id e.attempt w valid) h'
    where
      by_scope :
          (scope : Scope) (w : ReviewRecord)
          → w.scope ≡ scope
          → ScopeOf e.stage_id e.attempt w.scope
          → is_str (get "verdict" e.payload) "passed" ≡ Review.is_passed w.verdict
          → (if is_delta w.scope then on_stage_review r e w else on_final_review r w) ≡ ok r'
          → Follows review_recorded
      by_scope (stage_delta k n) w q scoped says g =
          on_stage_review-Follows k (rw q at scoped).0 w says (rw (ap is_delta q) at g)
      by_scope final_integration w q scoped says g =
          on_final_review-Follows w (rw q at scoped).0 (rw (ap is_delta q) at g)

  given_stage : (o : Option String) → given o ≡ true → (k : String) × (o ≡ some k)
  given_stage none h = cc
  given_stage (some k) h = (k, refl)

  -- what `apply_event` does to the evidence of a stage is what the event says
  pub dispatch-Follows :
      (required : List String) (t : EventType)
      → (needs_stage t ≡ true → given e.stage_id ≡ true)
      → dispatch definitions required t r e ≡ ok r'
      → Follows t
  unfolding dispatch
  dispatch-Follows required execution_started n h = on_execution_started-Follows h
  dispatch-Follows required stage_started n h =
      let (k, found) = given_stage e.stage_id (n refl) in on_stage_started-Follows k found h
  dispatch-Follows required attempt_failed n h =
      let (k, found) = given_stage e.stage_id (n refl) in on_attempt_failed-Follows k found h
  dispatch-Follows required validation_recorded n h =
      let (k, found) = given_stage e.stage_id (n refl) in on_validation_recorded-Follows k found h
  dispatch-Follows required review_recorded n h = on_review_recorded-Follows h
  dispatch-Follows required stage_completed n h = on_stage_completed-Follows required h
  dispatch-Follows required blocked n h = on_blocked-Follows h
  dispatch-Follows required resumed n h = on_resumed-Follows h
  dispatch-Follows required research_drift n h = on_research_drift-Follows h
  dispatch-Follows required amendment_requested n h = on_amendment_requested-Follows h
  dispatch-Follows required amendment_approved n h = on_amendment_approved-Follows h
  dispatch-Follows required commit_recorded n h = on_commit_recorded-Follows h
  dispatch-Follows required completed n h = on_completed-Follows h
  dispatch-Follows required aborted n h = on_aborted-Follows h
  dispatch-Follows required note n h = record {
    review = same_review (ground (arith, ok-injective h));
    validation = same_validation (ground (arith, ok-injective h));
  }
  dispatch-Follows required heartbeat n h = record {
    review = same_review (ground (arith, ok-injective h));
    validation = same_validation (ground (arith, ok-injective h));
  }
