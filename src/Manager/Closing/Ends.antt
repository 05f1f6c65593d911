-- ===== src/Manager/Closing/Ends.antt =====
-- sessions.py: when a session is closed.
use dev_skills.Base.{
  ℕ, true, none, some, String, List, ◌≡◌, ◌≢◌, arith, inl, inr, subst, ap, ◌∙◌, lookup, eq_refl,
  Option-cases,
}
use dev_skills.Manager.Errors.{Result, ok, Fallible-cases}
use dev_skills.Manager.State.{
  is_active, Ownership, session_owned, Run, State, OwnerHolds, Tombstone,
}
use dev_skills.Manager.Runs.Commits.{IsSound}
use dev_skills.Manager.Steps.{Steps, Steps-IsSound}
use dev_skills.Manager.Leases.{Controller, closed_session}
use dev_skills.Manager.Closing.{
  gone, Finalizer, Governor, conclude, finalize_session, finalize_runs, closing_name, marked, close,
}
use dev_skills.Manager.Closing.Keeps.{
  close-Steps, marked-Steps, finalize_runs-Steps, conclude_cases, closed_state,
}

-- no active run belongs to a session that is gone
pub unowned :
    (state : State) (id key : String) (run : Run)
    → IsSound state
    → lookup id state.sessions ≡ none
    → lookup key state.processes ≡ some run
    → is_active run.status ≡ true
    → run.ownership ≢ session_owned id
unowned state id key run s gone_by found a owned =
    let holds : OwnerHolds state.sessions key (session_owned id) =
      subst (λ (x : Ownership). OwnerHolds state.sessions key x) owned
        (s.consistent.run_owned key run found a) in
    ground arith

conclude-gone :
    (governor : Governor) (state after : State) (id : String) (failures : List String) (now : ℕ)
    (tombstone : Tombstone)
    → IsSound state
    → conclude governor state id failures now ≡ (after, ok tombstone)
    → lookup id after.sessions ≡ none
unfolding conclude
conclude-gone governor state after id failures now tombstone s h =
    elim (Option-cases (lookup id state.sessions)) [
      | inl e ↦
          let same : state ≡ after = ground arith in
          subst (λ (x : State). lookup id x.sessions ≡ none) same e
      | inr (session, e) ↦ elim (conclude_cases governor state id failures now session e) [
        | inl (l, r) ↦ absurd (ground arith)
        | inr (l, inl (error, r)) ↦ absurd (ground arith)
        | inr (l, inr (last, t, c, r)) ↦
            let (sessions, generation, drops, result) =
              closed_state governor state last id session now t (s.named id session e) c in
            let same : last ≡ after = ground arith in
            let empty : lookup id last.sessions ≡ none =
              ap (λ (x : State). lookup id x.sessions) result
              ∙ ground (arith, drops id, eq_refl id) in
            subst (λ (x : State). lookup id x.sessions ≡ none) same empty
      ]
    ]

module _ (finalize_record : Finalizer)
    (commits : (state : State) (run : Run) (reason : String)
      → Steps state (finalize_record state run reason).0)
    (governor : Governor) where
  finalize_session-gone :
      (state after : State) (id : String) (now : ℕ) (tombstone : Tombstone)
      → IsSound state
      → finalize_session finalize_record governor state id now ≡ (after, ok tombstone)
      → lookup id after.sessions ≡ none
  unfolding finalize_session
  finalize_session-gone state after id now tombstone s h =
      elim (Option-cases (lookup id state.sessions)) [
        | inl e ↦
            let same : state ≡ after = ground arith in
            subst (λ (x : State). lookup id x.sessions ≡ none) same e
        | inr (session, e) ↦
            let name = closing_name session.closing_reason in
            let runs = finalize_runs finalize_record name state session.run_keys in
            let sound =
              Steps-IsSound state runs.0
                (finalize_runs-Steps finalize_record commits name state session.run_keys) s in
            conclude-gone governor runs.0 after id runs.1 now tombstone sound (ground arith)
      ]

  close_parts :
      (c after : Controller) (id reason : String) (now generation : ℕ) (tombstone : Tombstone)
      → IsSound c.state
      → close finalize_record governor c id reason now ≡ (after, ok (tombstone, generation))
      → (lookup id after.state.sessions ≡ none) × (generation ≡ after.state.work_generation)
  unfolding close gone
  close_parts c after id reason now generation tombstone s h =
      elim (Option-cases (lookup id c.state.sessions)) [
        | inl e ↦
            let same : c ≡ after = ground arith in
            (
              subst (λ (x : Controller). lookup id x.state.sessions ≡ none) same e,
              elim (Option-cases (closed_session c.state id)) [
                | inl f ↦ absurd (ground arith)
                | inr (t, f) ↦
                    let g : generation ≡ c.state.work_generation = ground arith in
                    g ∙ ap (λ (x : Controller). x.state.work_generation) same
              ],
            )
        | inr (session, e) ↦
            let closing = marked c session id reason in
            let last = finalize_session finalize_record governor closing.state id now in
            let sound =
              Steps-IsSound c.state closing.state (marked-Steps c session id reason s e) s in
            elim (Fallible-cases last.1) [
              | inr (error, f) ↦ absurd (ground arith)
              | inl (t, f) ↦
                  let left : last.0 ≡ after.state = ground arith in
                  let g : generation ≡ last.0.work_generation = ground arith in
                  (
                    subst (λ (x : State). lookup id x.sessions ≡ none) left
                        (finalize_session-gone closing.state last.0 id now t sound (ground arith)),
                    g ∙ ap (λ (x : State). x.work_generation) left,
                  )
            ]
      ]

  -- A `close` that returns leaves no session and no active run of it: on a sound state, with a
  -- finalizer of runs that only makes commits, the session is gone, every active run belongs to
  -- another owner, and the work generation that it returns is that of the state it leaves.
  pub close_leaves_nothing :
      (c after : Controller) (id reason : String) (now generation : ℕ) (tombstone : Tombstone)
      → IsSound c.state
      → close finalize_record governor c id reason now ≡ (after, ok (tombstone, generation))
      → (lookup id after.state.sessions ≡ none)
        × ((key : String) (run : Run)
            → lookup key after.state.processes ≡ some run
            → is_active run.status ≡ true
            → run.ownership ≢ session_owned id)
        × (generation ≡ after.state.work_generation)
  close_leaves_nothing c after id reason now generation tombstone s h =
      let (gone_by, g) = close_parts c after id reason now generation tombstone s h in
      let kept : IsSound (close finalize_record governor c id reason now).0.state =
        Steps-IsSound c.state _ (close-Steps finalize_record commits governor c id reason now s)
          s in
      let left : IsSound after.state =
        subst (λ (x : Controller × Result (Tombstone × ℕ)). IsSound x.0.state) h kept in
      (gone_by, λ key run p a. unowned after.state id key run left gone_by p a, g)
