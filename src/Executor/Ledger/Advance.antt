-- ===== src/Executor/Ledger/Advance.antt =====
-- Completing a stage and opening a revision keep the progress, and so does every event.
use dev_skills.Base.{
  ℕ, suc, Bool, true, false, not, ◌&&◌, none, some, String, List, [], ◌∷◌, ◌++◌, ◌≡◌, refl, sym, ap,
  inl, inr, arith, all, mem, subset, without, within, remove, distinct, Dict, mem-append,
  mem-without, mem-within, mem_of_subset, subset_of_mem, remove-without, distinct-snoc,
  distinct-within, without-nil, mem_head, subset_mono, mem_of_tail, all_at, all_of, keys, ◌∙◌,
  Fields, subst, Option-cases,
}
use dev_skills.Executor.Errors.{ok, require-eq-ok, run_state_terminal, ok-injective}
use dev_skills.Executor.Event.{
  Event, EventType, execution_started, stage_started, attempt_failed, validation_recorded,
  review_recorded, stage_completed, blocked, resumed, research_drift, amendment_requested,
  amendment_approved, commit_recorded, completed, aborted, note, heartbeat, needs_stage, given,
}
use dev_skills.Executor.Contract.{Stage, Contract, dependencies}
use dev_skills.Executor.State.{Replay, update_next_action}
use dev_skills.Executor.Reducer.Guards.{is_terminal, same_stage→≡}
use dev_skills.Executor.Reducer.Completion.{on_stage_completed}
use dev_skills.Executor.Reducer.Amendment.{carried_stages, on_amendment_approved}
use dev_skills.Executor.Ledger.{dispatch, apply_event, stamp, replay_event}
use dev_skills.Executor.Ledger.Induction.{replay_event-eq-ok}
use dev_skills.Executor.Ledger.Progress.{
  Progress, Fresh, closed, on_execution_started-Progress, on_stage_started-Progress,
  on_attempt_failed-Progress, on_validation_recorded-Progress, on_review_recorded-Progress,
  on_blocked-Progress, on_research_drift-Progress, on_amendment_requested-Progress,
  on_resumed-Progress, on_commit_recorded-Progress, on_completed-Progress, on_aborted-Progress,
}

closed_mono :
    (definitions : Dict Stage) (ks l m : List String)
    → ((x : String) → mem x l ≡ true → mem x m ≡ true)
    → all (λ s. subset (dependencies definitions s) l) ks ≡ true
    → all (λ s. subset (dependencies definitions s) m) ks ≡ true
closed_mono definitions [] l m h c = refl
closed_mono definitions (k ∷ ks) l m h c =
    ground (arith, closed_mono definitions ks l m h, subset_mono (dependencies definitions k) l m)

all-append {ℓ} :
    {A : Type ℓ} (p : A → Bool) (xs ys : List A) → all p (xs ++ ys) ≡ (all p xs && all p ys)
all-append p [] ys = refl
all-append p (x ∷ xs) ys = ground (arith, all-append p xs ys)

mem_left : (x : String) (l m : List String) → mem x l ≡ true → mem x (l ++ m) ≡ true
mem_left x l m h = ground (arith, mem-append x l m)

closed-snoc :
    (definitions : Dict Stage) (s : String) (l : List String)
    → closed definitions l ≡ true
    → subset (dependencies definitions s) l ≡ true
    → closed definitions (l ++ s ∷ []) ≡ true
closed-snoc definitions s l c d =
    let keeps = λ (x : String). mem_left x l (s ∷ []) in
    ground (
      arith,
      all-append (λ k. subset (dependencies definitions k) (l ++ s ∷ [])) l (s ∷ []),
      closed_mono definitions l l (l ++ s ∷ []) keeps c,
      subset_mono (dependencies definitions s) l (l ++ s ∷ []) d keeps,
    )

subset-snoc :
    (s : String) (l m : List String)
    → subset l m ≡ true
    → mem s m ≡ true
    → subset (l ++ s ∷ []) m ≡ true
unfolding subset
subset-snoc s [] m h k = ground arith
subset-snoc s (x ∷ l) m h k = ground (arith, subset-snoc s l m)

module _ (definitions : Dict Stage) (required order : List String) (r r' : Replay) (e : Event) where
  completion_fields :
      (s : String)
      → e.stage_id ≡ some s
      → on_stage_completed definitions required r e ≡ ok r'
      → (r.current_stage_id ≡ some s)
        × (r'.current_stage_id ≡ none)
        × (r'.completed_stage_ids ≡ r.completed_stage_ids ++ s ∷ [])
        × (r'.remaining_stage_ids ≡ remove s r.remaining_stage_ids)
  unfolding on_stage_completed
  completion_fields s g h = ground (arith, same_stage→≡ r.current_stage_id e.stage_id)

  on_stage_completed-Progress :
      distinct order ≡ true
      → (s : String) → e.stage_id ≡ some s
      → on_stage_completed definitions required r e ≡ ok r'
      → Progress definitions order r
      → Progress definitions order r'
  on_stage_completed-Progress d s g h p =
      let (c, c', done, left) = completion_fields s g h in
      let inside : mem s r.remaining_stage_ids ≡ true = rw c at p.active in
      let was = r.completed_stage_ids in
      let split : mem s r.remaining_stage_ids ≡ (not (mem s was) && mem s order) =
        rw p.partition (mem-without s was order) in
      let new : mem s was ≡ false = ground arith in
      let listed : mem s order ≡ true = ground arith in
      record {
        partition = rw (left, done, p.partition) (remove-without was s order d new);
        known = rw done (subset-snoc s was order p.known listed);
        unique = rw done (distinct-snoc was s p.unique new);
        dependencies_first =
            rw done (closed-snoc definitions s was p.dependencies_first (rw c at p.ready));
        active = rw c';
        ready = rw c';
      }

-- the carried stages in their order cover the same stages
without-within :
    (ids l rest : List String)
    → ((x : String) → mem x rest ≡ true → mem x l ≡ true)
    → without (within ids l) rest ≡ without ids rest
unfolding without
without-within ids l [] h = refl
without-within ids l (x ∷ rest) h =
    let further = λ (y : String) (k : mem y rest ≡ true). h y (mem_of_tail y x rest k) in
    ground (arith, without-within ids l rest further, mem-within x ids l, h x (mem_head x rest))

closed-within :
    (definitions : Dict Stage) (ids order : List String)
    → ((x : String) → mem x ids ≡ true → mem x order ≡ true)
    → closed definitions ids ≡ true
    → closed definitions (within ids order) ≡ true
closed-within definitions ids order k c = all_of _ (within ids order) λ s m.
    subset_of_mem (dependencies definitions s) (within ids order) λ x q.
      let inside : mem s ids ≡ true = ground (arith, mem-within s ids order) in
      let found = mem_of_subset x (dependencies definitions s) ids (all_at _ s ids c inside) q in
      ground (arith, mem-within x ids order, k x found)

subset-within : (ids order : List String) → subset (within ids order) order ≡ true
subset-within ids order =
    subset_of_mem (within ids order) order (λ x m. ground (arith, mem-within x ids order))

carried_stages-eq-ok :
    (definitions : Dict Stage) (payload : Fields) {ids : List String}
    → carried_stages definitions payload ≡ ok ids
    → (subset ids (keys definitions) ≡ true) × (closed definitions ids ≡ true)
unfolding carried_stages
carried_stages-eq-ok definitions payload h = ground arith

module _ (definitions : Dict Stage) (r r' : Replay) (e : Event) where
  pub amendment_fields :
      on_amendment_approved definitions r e ≡ ok r'
      → (ids : List String) × (carried_stages definitions e.payload ≡ ok ids)
        × (r.last_event_seq ≡ 0)
        × (r'.completed_stage_ids ≡ within ids r.remaining_stage_ids)
        × (r'.remaining_stage_ids ≡ without ids r.remaining_stage_ids)
        × (r'.current_stage_id ≡ r.current_stage_id)
  unfolding on_amendment_approved
  amendment_fields h = ground arith

  on_amendment_approved-Progress :
      (order : List String)
      → distinct order ≡ true
      → subset (keys definitions) order ≡ true
      → Fresh r
      → on_amendment_approved definitions r e ≡ ok r'
      → Progress definitions order r
      → Progress definitions order r'
  on_amendment_approved-Progress order d k f h p =
      let (ids, found, zeroth, done, left, same) = amendment_fields h in
      let (within_keys, shut) = carried_stages-eq-ok definitions e.payload found in
      let (none_done, none_active) = f.at_start zeroth in
      let whole : r.remaining_stage_ids ≡ order =
        p.partition ∙ ap (λ l. without l order) none_done ∙ without-nil order in
      let listed = λ (x : String) (m : mem x ids ≡ true).
        mem_of_subset x (keys definitions) order k
          (mem_of_subset x ids (keys definitions) within_keys m) in
      record {
        partition = rw (left, done, whole) (sym (without-within ids order order (λ x m. m)));
        known = rw (done, whole) (subset-within ids order);
        unique = rw (done, whole) (distinct-within ids order d);
        dependencies_first = rw (done, whole) (closed-within definitions ids order listed shut);
        active = rw (same, none_active);
        ready = rw (same, none_active);
      }

module _ (definitions : Dict Stage) (required order : List String) (d : distinct order ≡ true)
    (k : subset (keys definitions) order ≡ true) where
  dispatch-Progress :
      (t : EventType) (r r' : Replay) (e : Event)
      → (needs_stage t ≡ true → given e.stage_id ≡ true)
      → Fresh r
      → dispatch definitions required t r e ≡ ok r'
      → Progress definitions order r
      → Progress definitions order r'
  unfolding dispatch
  dispatch-Progress execution_started r r' e n f h p =
      on_execution_started-Progress definitions order r r' h p
  dispatch-Progress stage_started r r' e n f h p =
      on_stage_started-Progress definitions order r r' e h p
  dispatch-Progress attempt_failed r r' e n f h p =
      on_attempt_failed-Progress definitions order r r' e h p
  dispatch-Progress validation_recorded r r' e n f h p =
      on_validation_recorded-Progress definitions order r r' e h p
  dispatch-Progress review_recorded r r' e n f h p =
      on_review_recorded-Progress definitions order r r' e h p
  dispatch-Progress stage_completed r r' e n f h p = elim (Option-cases e.stage_id) [
    | inl absent ↦ cc (n refl, absent)
    | inr (s, found) ↦ on_stage_completed-Progress definitions required order r r' e d s found h p
  ]
  dispatch-Progress blocked r r' e n f h p = on_blocked-Progress definitions order r r' e h p
  dispatch-Progress resumed r r' e n f h p = on_resumed-Progress definitions order r r' e h p
  dispatch-Progress research_drift r r' e n f h p =
      on_research_drift-Progress definitions order r r' e h p
  dispatch-Progress amendment_requested r r' e n f h p =
      on_amendment_requested-Progress definitions order r r' e h p
  dispatch-Progress amendment_approved r r' e n f h p =
      on_amendment_approved-Progress definitions r r' e order d k f h p
  dispatch-Progress commit_recorded r r' e n f h p =
      on_commit_recorded-Progress definitions order r r' e h p
  dispatch-Progress completed r r' e n f h p = on_completed-Progress definitions order r r' h p
  dispatch-Progress aborted r r' e n f h p = on_aborted-Progress definitions order r r' e h p
  dispatch-Progress note r r' e n f h p = subst (Progress definitions order) (ok-injective h) p
  dispatch-Progress heartbeat r r' e n f h p = subst (Progress definitions order) (ok-injective h) p

  stamp-Progress :
      (s : Replay) (seq : ℕ) (e : Event)
      → Progress definitions order s
      → Progress definitions order (stamp definitions s seq e)
  unfolding stamp update_next_action
  stamp-Progress s seq e p = ground arith

  stamp-Fresh : (s : Replay) (seq : ℕ) (e : Event) → Fresh (stamp definitions s (suc seq) e)
  unfolding stamp update_next_action
  stamp-Fresh s seq e = ground arith

  -- One round keeps the progress; after it the replay is no longer at its start.
  pub replay_event-Progress :
      (contract : Contract) (seq : ℕ) (r : Replay) (raw : Fields) (r' : Replay)
      → replay_event definitions required contract (suc seq) r raw ≡ ok r'
      → Progress definitions order r × Fresh r
      → Progress definitions order r' × Fresh r'
  unfolding apply_event
  replay_event-Progress contract seq r raw r' h (p, f) =
      let (e, s, checked, applied, stamped) =
        replay_event-eq-ok definitions required contract (suc seq) r raw r' h in
      let (_, done) = require-eq-ok (not (is_terminal r.lifecycle)) run_state_terminal _ applied in
      (
        subst (Progress definitions order) stamped
            (stamp-Progress s (suc seq) e (dispatch-Progress e.type r s e checked.needed f done p)),
        subst Fresh stamped (stamp-Fresh s seq e),
      )
