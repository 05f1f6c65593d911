-- ===== src/Executor/Ledger/Closing.antt =====
-- Completing a stage and carrying stages over give the new completed stages their evidence, so a
-- replay keeps it.
use dev_skills.Base.{
  ℕ, true, not, Option, none, some, String, List, [], ◌∷◌, ◌++◌, ◌==◌, ◌≡◌, refl, sym, ap, ◌∙◌,
  arith, without, within, Dict, lookup, mem-append, mem-without, mem-within, mem-singleton,
  Bool-cases, Option-cases, inl, inr, subst, eq→≡,
}
use dev_skills.Executor.Errors.{ok}
use dev_skills.Executor.Event.{Event, given}
use dev_skills.Executor.Contract.{Stage}
use dev_skills.Executor.State.{Replay}
use dev_skills.Executor.Ledger.Progress.{Progress}
use dev_skills.Executor.Ledger.Evidence.{Backed, Backed-frame, is_backed, or_empty, required_ids}
use dev_skills.Base.{subst, Fields}
use dev_skills.Executor.Errors.{require-eq-ok, run_state_terminal, ok-injective}
use dev_skills.Executor.Event.{
  EventType, execution_started, stage_started, attempt_failed, validation_recorded, review_recorded,
  stage_completed, blocked, resumed, research_drift, amendment_requested, amendment_approved,
  commit_recorded, completed, aborted, note, heartbeat, needs_stage, given,
}
use dev_skills.Executor.Contract.{Contract}
use dev_skills.Executor.State.{update_next_action}
use dev_skills.Executor.Reducer.Guards.{is_terminal}
use dev_skills.Executor.Reducer.Completion.{on_stage_completed}
use dev_skills.Executor.Reducer.Amendment.{on_amendment_approved, carried_stages}
use dev_skills.Executor.Ledger.{dispatch, apply_event, stamp, replay_event}
use dev_skills.Executor.Ledger.Induction.{replay_event-eq-ok}
use dev_skills.Executor.Ledger.Evidence.{reviewed, is_backed-SameAt}
use dev_skills.Executor.Ledger.Backing.{
  on_execution_started-Backed, on_stage_started-Backed, on_attempt_failed-Backed,
  on_validation_recorded-Backed, on_review_recorded-Backed, on_blocked-Backed, on_resumed-Backed,
  on_research_drift-Backed, on_amendment_requested-Backed, on_commit_recorded-Backed,
  on_completed-Backed, on_aborted-Backed,
}

given_stage : (o : Option String) → given o ≡ true → (k : String) × (o ≡ some k)
given_stage none h = cc
given_stage (some k) h = (k, refl)

-- What the checks of `stage_completed` found, and what it changes.
record Completes (definitions : Dict Stage) (required : List String) (r r' : Replay) (k : String)
    : Type 0 where
  now : r'.completed_stage_ids ≡ r.completed_stage_ids ++ k ∷ []
  same_carried : r'.carried_stage_ids ≡ r.carried_stage_ids
  same_reviews : r'.stage_reviews ≡ r.stage_reviews
  same_attempts : r'.attempts ≡ r.attempts
  same_records : r'.passed_validations ≡ r.passed_validations
  same_final : r'.final_review ≡ r.final_review

module _ (definitions : Dict Stage) (required : List String) (r r' : Replay) (e : Event)
    (k : String) where
  completes :
      e.stage_id ≡ some k
      → on_stage_completed definitions required r e ≡ ok r'
      → Completes definitions required r r' k
  unfolding on_stage_completed
  completes found h = ground arith

  Backed-now :
      e.stage_id ≡ some k
      → on_stage_completed definitions required r e ≡ ok r'
      → Backed definitions required r
      → reviewed
          (required_ids definitions required k)
          (lookup k r.stage_reviews)
          (lookup k r.attempts)
          (or_empty (lookup k r.passed_validations))
          k
        ≡ true
  unfolding on_stage_completed
  Backed-now found h b = elim (Option-cases (lookup k r.stage_reviews)) [
    | inl absent ↦ absurd (ground arith)
    | inr (v, held) ↦ ground (arith, b.reviews k v)
  ]

  on_stage_completed-Backed :
      e.stage_id ≡ some k
      → on_stage_completed definitions required r e ≡ ok r'
      → Backed definitions required r
      → Backed definitions required r'
  on_stage_completed-Backed found h b =
      let c = completes found h in
      let same = λ (s : String).
        is_backed-SameAt definitions required s r r' c.same_carried (record {
          review = ap (lookup s) c.same_reviews;
          attempt = ap (lookup s) c.same_attempts;
          records = ap (lookup s) c.same_records;
        }) in
      record {
        stages = λ s m. elim (Bool-cases (k == s)) [
          | inl is ↦
              let here = eq→≡ k s is in
              subst (λ t. is_backed definitions required r' t ≡ true) here
                (same k ∙ ground (arith, Backed-now found h b))
          | inr other ↦
              same s
              ∙ b.stages s (
                  ground
                    (arith, c.now, mem-append s r.completed_stage_ids (k ∷ []), mem-singleton s k))
        ];
        reviews = λ s v q. b.reviews s v (sym (ap (lookup s) c.same_reviews) ∙ q);
        final = λ v q. b.final v (sym c.same_final ∙ q);
      }

module _ (definitions : Dict Stage) (required order : List String) (r r' : Replay) (e : Event) where
  amendment_carries :
      on_amendment_approved definitions r e ≡ ok r'
      → (ids : List String) × (carried_stages definitions e.payload ≡ ok ids)
        × (r'.completed_stage_ids ≡ within ids r.remaining_stage_ids)
        × (r'.carried_stage_ids ≡ r.carried_stage_ids ++ without r.carried_stage_ids ids)
        × (r'.stage_reviews ≡ r.stage_reviews)
        × (r'.final_review ≡ r.final_review)
  unfolding on_amendment_approved
  amendment_carries h = ground arith

  on_amendment_approved-Backed :
      on_amendment_approved definitions r e ≡ ok r'
      → Backed definitions required r
      → Backed definitions required r'
  on_amendment_approved-Backed h b =
      let (ids, _, done, carries, same_reviews, same_final) = amendment_carries h in
      record {
        stages = λ s m. ground (
          arith,
          mem-within s ids r.remaining_stage_ids,
          mem-append s r.carried_stage_ids (without r.carried_stage_ids ids),
          mem-without s r.carried_stage_ids ids,
        );
        reviews = λ s v q. b.reviews s v (sym (ap (lookup s) same_reviews) ∙ q);
        final = λ v q. b.final v (sym same_final ∙ q);
      }

  dispatch-Backed :
      (t : EventType)
      → (needs_stage t ≡ true → given e.stage_id ≡ true)
      → dispatch definitions required t r e ≡ ok r'
      → Progress definitions order r
      → Backed definitions required r
      → Backed definitions required r'
  unfolding dispatch
  dispatch-Backed execution_started n h p b =
      on_execution_started-Backed definitions required order r r' p b h
  dispatch-Backed stage_started n h p b =
      on_stage_started-Backed definitions required order r r' p b e h
  dispatch-Backed attempt_failed n h p b =
      let (k, found) = given_stage e.stage_id (n refl) in
      on_attempt_failed-Backed definitions required order r r' p b e k found h
  dispatch-Backed validation_recorded n h p b =
      let (k, found) = given_stage e.stage_id (n refl) in
      on_validation_recorded-Backed definitions required order r r' p b e k found h
  dispatch-Backed review_recorded n h p b =
      on_review_recorded-Backed definitions required order r r' p b e h
  dispatch-Backed stage_completed n h p b =
      let (k, found) = given_stage e.stage_id (n refl) in
      on_stage_completed-Backed definitions required r r' e k found h b
  dispatch-Backed blocked n h p b = on_blocked-Backed definitions required order r r' p b e h
  dispatch-Backed resumed n h p b = on_resumed-Backed definitions required order r r' p b e h
  dispatch-Backed research_drift n h p b =
      on_research_drift-Backed definitions required order r r' p b e h
  dispatch-Backed amendment_requested n h p b =
      on_amendment_requested-Backed definitions required order r r' p b e h
  dispatch-Backed amendment_approved n h p b = on_amendment_approved-Backed h b
  dispatch-Backed commit_recorded n h p b =
      on_commit_recorded-Backed definitions required order r r' p b e h
  dispatch-Backed completed n h p b = on_completed-Backed definitions required order r r' p b h
  dispatch-Backed aborted n h p b = on_aborted-Backed definitions required order r r' p b e h
  dispatch-Backed note n h p b = subst (Backed definitions required) (ok-injective h) b
  dispatch-Backed heartbeat n h p b = subst (Backed definitions required) (ok-injective h) b

stamp-Backed :
    (definitions : Dict Stage) (required : List String) (s : Replay) (seq : ℕ) (e : Event)
    → Backed definitions required s
    → Backed definitions required (stamp definitions s seq e)
unfolding stamp update_next_action
stamp-Backed definitions required s seq e b =
    Backed-frame definitions required s (stamp definitions s seq e) (ground arith)
      (λ v q. b.final v q) b

-- One round keeps the evidence.
pub replay_event-Backed :
    (definitions : Dict Stage) (required order : List String) (contract : Contract) (seq : ℕ)
    (r : Replay) (raw : Fields) (r' : Replay)
    → replay_event definitions required contract seq r raw ≡ ok r'
    → Progress definitions order r
    → Backed definitions required r
    → Backed definitions required r'
unfolding apply_event
replay_event-Backed definitions required order contract seq r raw r' h p b =
    let (e, s, checked, applied, stamped) =
      replay_event-eq-ok definitions required contract seq r raw r' h in
    let (_, done) = require-eq-ok (not (is_terminal r.lifecycle)) run_state_terminal _ applied in
    subst (Backed definitions required) stamped (
      stamp-Backed definitions required s seq e
        (dispatch-Backed definitions required order r s e e.type checked.needed done p b))
