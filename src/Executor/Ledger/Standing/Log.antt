-- ===== src/Executor/Ledger/Standing/Log.antt =====
-- A replay keeps the evidence that its log gives, and a backed stage has it.
use dev_skills.Base.{
  ℕ, suc, Bool, true, false, not, ◌&&◌, ◌||◌, Option, none, some, String, List, [], ◌∷◌, ◌≡◌, refl,
  sym, ap, ◌∙◌, arith, Dict, Fields, keys, lookup, all, mem, subset, mem_of_subset, mem_head, inl,
  inr, Bool-cases,
}
use dev_skills.Executor.Errors.{
  ok, ◌>>=◌, >>=-eq-ok, require-eq-ok, ok-injective, run_state_terminal,
}
use dev_skills.Executor.Review.{ReviewRecord}
use dev_skills.Executor.Event.{Event, given, validate_event}
use dev_skills.Executor.Contract.{Stage, Contract}
use dev_skills.Executor.State.{Evidence, recorded, carried, Replay}
use dev_skills.Executor.Reducer.Guards.{is_terminal}
use dev_skills.Executor.Reducer.Completion.{evidence_matches}
use dev_skills.Executor.Ledger.{apply_event, dispatch, stamp, replay_event, replay_from}
use dev_skills.Executor.Ledger.Induction.{validate_event-HasStage}
use dev_skills.Executor.Ledger.Evidence.{is_backed, or_empty, required_ids, reviewed}
use dev_skills.Executor.Ledger.Standing.{
  review_after, validation_after, after_log, review_stands, validation_stands, review_held,
  validation_held, is_recorded,
}
use dev_skills.Executor.Ledger.Standing.Steps.{dispatch-Follows}

recorded_of_all :
    (target : String) (attempt : Option ℕ) (id : String) (records : Dict Evidence)
    → all (evidence_matches target attempt) records ≡ true
    → mem id (keys records) ≡ true
    → is_recorded (lookup id records) ≡ true
unfolding lookup mem
recorded_of_all target attempt id [] h m = absurd (ground arith)
recorded_of_all target attempt id ((k, recorded v) ∷ l) h m =
    ground (arith, recorded_of_all target attempt id l)
recorded_of_all target attempt id ((k, carried) ∷ l) h m = absurd (ground arith)

all_of_mem :
    (p : String → Bool) (l : List String)
    → ((x : String) → mem x l ≡ true → p x ≡ true)
    → all p l ≡ true
unfolding mem
all_of_mem p [] h = refl
all_of_mem p (x ∷ l) h =
    ground (arith, h x, mem_head x l, all_of_mem p l (λ y m. h y (ground arith)))

-- what a backed stage holds, if it was not carried over
reviewed-held :
    (needed : List String) (o : Option ReviewRecord) (attempt : Option ℕ) (records : Dict Evidence)
    (s : String)
    → reviewed needed o attempt records s ≡ true
    → (given o && all (λ id. is_recorded (lookup id records)) needed) ≡ true
reviewed-held needed none attempt records s h = absurd (ground arith)
reviewed-held needed (some v) attempt records s h =
    let matches : all (evidence_matches v.target_digest attempt) records ≡ true = ground arith in
    let there : subset needed (keys records) ≡ true = ground arith in
    all_of_mem (λ id. is_recorded (lookup id records)) needed
      (λ id m.
        recorded_of_all v.target_digest attempt id records matches
          (mem_of_subset id needed (keys records) there m))

all_cong : (p q : String → Bool) (l : List String) → ((x : String) → p x ≡ q x) → all p l ≡ all q l
all_cong p q [] h = refl
all_cong p q (x ∷ l) h = ground (arith, h x, all_cong p q l h)

module _ (definitions : Dict Stage) (required : List String) (contract : Contract) where
  event_parts :
      (seq : ℕ) (r : Replay) (raw : Fields) (r' : Replay)
      → replay_event definitions required contract seq r raw ≡ ok r'
      → (e : Event) × (t : Replay) × (validate_event raw seq contract.task_id contract.plan_revision
            (keys definitions)
          ≡ ok e)
        × (dispatch definitions required e.type r e ≡ ok t)
        × (stamp definitions t seq e ≡ r')
  unfolding replay_event apply_event
  event_parts seq r raw r' h =
      let (e, seen, h1) =
        >>=-eq-ok
          (validate_event raw seq contract.task_id contract.plan_revision (keys definitions))
          (λ e. apply_event definitions required r e >>= λ t. ok (stamp definitions t seq e)) h in
      let (t, applied, h2) =
        >>=-eq-ok (apply_event definitions required r e) (λ t. ok (stamp definitions t seq e)) h1 in
      let (_, done) = require-eq-ok (not (is_terminal r.lifecycle)) run_state_terminal _ applied in
      (e, t, seen, done, ok-injective h2)

  module _ (s id : String) where
    -- The evidence that a replay holds is the one that the log gives.
    pub replay_from-held :
        (seq : ℕ) (r : Replay) (events : List Fields) (r' : Replay)
        → replay_from definitions required contract seq r events ≡ ok r'
        → (review_held s r'
            ≡ after_log definitions contract (review_after s) seq (review_held s r) events)
          × (validation_held s id r'
              ≡ after_log definitions contract
                  (validation_after definitions s id)
                  seq
                  (validation_held s id r)
                  events)
    unfolding replay_from after_log stamp
    replay_from-held seq r [] r' h = (
      ap (review_held s) (sym (ok-injective h)),
      ap (validation_held s id) (sym (ok-injective h)),
    )
    replay_from-held seq r (raw ∷ events) r' h =
        let (next, first, later) =
          >>=-eq-ok (replay_event definitions required contract seq r raw) _ h in
        let (e, t, seen, done, stamped) = event_parts seq r raw next first in
        let checked =
          validate_event-HasStage raw seq contract.task_id contract.plan_revision (keys definitions)
            e seen in
        let follows = dispatch-Follows definitions r t e s id required e.type checked.needed done in
        let (review, validation) = replay_from-held (suc seq) next events r' later in
        let review_now : review_held s next ≡ review_after s e.type e (review_held s r) =
          ap (review_held s) (sym stamped) ∙ follows.review in
        let validation_now : validation_held s id next
            ≡ validation_after definitions s id e.type e (validation_held s id r) =
          ap (validation_held s id) (sym stamped) ∙ follows.validation in
        rw seen (
          review
              ∙ ap (λ b. after_log definitions contract (review_after s) (suc seq) b events)
                  review_now,
          validation
              ∙ ap
                  (λ b.
                    after_log definitions contract (validation_after definitions s id) (suc seq) b
                      events)
                  validation_now,
        )

  -- a backed stage that was not carried over has what the log gives
  pub backed_stands :
      (r r' : Replay) (events : List Fields) (s : String)
      → r.stage_reviews ≡ []
      → r.passed_validations ≡ []
      → replay_from definitions required contract 1 r events ≡ ok r'
      → is_backed definitions required r' s ≡ true
      → (mem s r'.carried_stage_ids
          || (review_stands definitions contract s events
              && all
                  (λ id. validation_stands definitions contract s id events)
                  (required_ids definitions required s)))
        ≡ true
  unfolding lookup
  backed_stands r r' events s no_review no_record h b =
      elim (Bool-cases (mem s r'.carried_stage_ids)) [
        | inl c ↦ ground arith
        | inr c ↦
            let needed = required_ids definitions required s in
            let held =
              reviewed-held needed (lookup s r'.stage_reviews) (lookup s r'.attempts)
                (or_empty (lookup s r'.passed_validations)) s (ground arith) in
            let start : (review_held s r ≡ false)
                × ((id : String) → validation_held s id r ≡ false) =
              rw (no_review, no_record) (refl, λ id. refl) in
            let review : review_held s r' ≡ review_stands definitions contract s events =
              (replay_from-held s s 1 r events r' h).0
              ∙ ap (λ x. after_log definitions contract (review_after s) 1 x events) start.0 in
            let records =
              all_cong (λ id. validation_held s id r')
                (λ id. validation_stands definitions contract s id events) needed
                (λ id.
                  (replay_from-held s id 1 r events r' h).1
                  ∙ ap
                      (λ x.
                        after_log definitions contract (validation_after definitions s id) 1 x
                          events)
                      (start.1 id)) in
            ground arith
      ]
