-- ===== src/Manager/Closing/Keeps.antt =====
-- sessions.py: the operations on sessions only make commits of the central state.
use dev_skills.Base.{
  ℕ, ◌+◌, true, false, none, some, String, List, [], ◌∷◌, ◌==◌, ◌≡◌, refl, sym, arith, ◌⊎◌, inl,
  inr, if◌then◌else◌, is_empty, mem, Dict, subst, lookup, insert, delete, lookup-insert,
  lookup-delete, Bool-cases, Option-cases, mem_head,
}
use dev_skills.Manager.Errors.{Error, session_cleanup_pending_error, ok, err, Fallible-cases}
use dev_skills.Manager.State.{
  Ownership, session_owned, Run, Session, SessionState, opened, terminating, expired,
  cleanup_failed, closed, is_live, State, OwnerHolds, Tombstone,
}
use dev_skills.Manager.Runs.Commits.{IsSound}
use dev_skills.Manager.Steps.{
  Step, Steps, done, then_step, Steps-append, Steps-IsSound, changing, dropping,
}
use dev_skills.Manager.History.{compact_session, add_tombstone, session_tombstone, tombstone_of}
use dev_skills.Manager.Leases.{Controller, commit_session, set_closing}
use dev_skills.Manager.Leases.Owners.{without_session}
use dev_skills.Manager.Closing.{
  Finalizer, Governor, finalize_run, finalize_runs, conclude, finalize_session, closed_of,
  failed_of, may_close, marked, close, closing_name,
}

first_key : (l : List String) → is_empty l ≡ false → (x : String) × (mem x l ≡ true)
first_key [] h = absurd (cc)
first_key (x ∷ l) h = (x, mem_head x l)

-- a session that lists a run is live
pub listing_live :
    (state : State) (id : String) (session : Session)
    → IsSound state
    → lookup id state.sessions ≡ some session
    → is_empty session.run_keys ≡ false
    → is_live session.state ≡ true
listing_live state id session s held some_key =
    let first = first_key session.run_keys some_key in
    let (run, at, a, o) = s.consistent.owned_run id session first.0 held first.1 in
    let holds : OwnerHolds state.sessions first.0 (session_owned id) =
      subst (λ (x : Ownership). OwnerHolds state.sessions first.0 x) o
        (s.consistent.run_owned first.0 run at a) in
    let same : holds.0 ≡ session = ground arith in
    subst (λ (x : Session). is_live x.state ≡ true) same holds.2

module _ (finalize_record : Finalizer)
    (commits : (state : State) (run : Run) (reason : String)
      → Steps state (finalize_record state run reason).0) where
  finalize_run-Steps :
      (reason : String) (state : State) (key : String)
      → Steps state (finalize_run finalize_record reason state key).0
  unfolding finalize_run
  finalize_run-Steps reason state key = elim (Option-cases (lookup key state.processes)) [
    | inl e ↦ rw (e, finalize_run) (done state)
    | inr (run, e) ↦ rw (e, finalize_run) (commits state run reason)
  ]

  pub finalize_runs-Steps :
      (reason : String) (state : State) (keys : List String)
      → Steps state (finalize_runs finalize_record reason state keys).0
  unfolding finalize_runs
  finalize_runs-Steps reason state [] = done state
  finalize_runs-Steps reason state (key ∷ keys) =
      Steps-append state (finalize_run finalize_record reason state key).0 _
        (finalize_run-Steps reason state key)
        (finalize_runs-Steps reason (finalize_run finalize_record reason state key).0 keys)

compact_parts :
    (governor : Governor) (state after : State) (session : Session) (now : ℕ)
    (tombstone : Tombstone)
    → compact_session governor.max_tombstones governor.fits governor.verified state session now
      ≡ ok (after, tombstone)
    → after
      ≡ without_session state
          (delete session.session_id state.sessions)
          after.tombstones
          state.work_generation
unfolding compact_session
compact_parts governor state after session now tombstone h =
    elim (Fallible-cases (
      add_tombstone governor.max_tombstones governor.fits state
        (session_tombstone session.session_id) (tombstone_of session now))) [
          | inl (tombstones, e) ↦
              let result : after
                  ≡ without_session state (delete session.session_id state.sessions) tombstones
                      state.work_generation =
                ground arith in
              subst
                (λ (x : State).
                  x
                  ≡ without_session state (delete session.session_id state.sessions) x.tombstones
                      state.work_generation)
                (sym result) refl
          | inr (error, e) ↦ absurd (ground arith)
        ]

Step-Steps : (state after : State) → Step state after → Steps state after
Step-Steps state after s = then_step state after after s (done after)

empty_keys : (l : List String) → is_empty l ≡ true → l ≡ []
empty_keys [] h = refl
empty_keys (x ∷ l) h = absurd (cc)

-- The last transaction keeps a session that lists a run, and drops one that lists none, unless its
-- compaction fails.
pub conclude_cases :
    (governor : Governor) (state : State) (id : String) (failures : List String) (now : ℕ)
    (session : Session)
    → lookup id state.sessions ≡ some session
    → ((is_empty session.run_keys ≡ false)
        × (conclude governor state id failures now ≡ (
          commit_session state (failed_of session failures now) 0,
          err session_cleanup_pending_error,
        )))
      ⊎ ((session.run_keys ≡ [])
          × (((e : Error) × (conclude governor state id failures now ≡ (state, err e)))
              ⊎ ((after : State) × (tombstone : Tombstone) × (compact_session
                      governor.max_tombstones governor.fits governor.verified
                      (commit_session state (closed_of session now) 1)
                      (closed_of session now)
                      now
                    ≡ ok (after, tombstone))
                  × (conclude governor state id failures now ≡ (after, ok tombstone)))))
unfolding conclude
conclude_cases governor state id failures now session held =
    elim (Bool-cases (is_empty session.run_keys)) [
      | inr l ↦ inl (l, ground arith)
      | inl l ↦ inr (
        empty_keys session.run_keys l,
        elim (Fallible-cases (
            compact_session governor.max_tombstones governor.fits governor.verified
              (commit_session state (closed_of session now) 1) (closed_of session now) now)) [
                | inl ((after, tombstone), e) ↦ inr (after, tombstone, e, ground arith)
                | inr (error, e) ↦ inl (error, ground arith)
              ],
      )
    ]

-- a compacted session is gone, and nothing else of the runs and sessions has changed
pub closed_state :
    (governor : Governor) (state after : State) (id : String) (session : Session) (now : ℕ)
    (tombstone : Tombstone)
    → session.session_id ≡ id
    → compact_session governor.max_tombstones governor.fits governor.verified
        (commit_session state (closed_of session now) 1)
        (closed_of session now)
        now
      ≡ ok (after, tombstone)
    → (sessions : Dict Session) × (generation : ℕ) × ((i : String)
        → lookup i sessions ≡ (if id == i then none else lookup i state.sessions))
      × (after ≡ without_session state sessions after.tombstones generation)
unfolding commit_session
closed_state governor state after id session now tombstone named h =
    let closing = closed_of session now in
    let sessions = delete session.session_id (insert session.session_id closing state.sessions) in
    (
      sessions,
      state.work_generation + 1,
      λ i.
          subst
            (λ (x : String). lookup i sessions ≡ (if x == i then none else lookup i state.sessions))
            named
            (ground (
              arith,
              lookup-delete i session.session_id (insert session.session_id closing state.sessions),
              lookup-insert i session.session_id closing state.sessions,
            )),
      compact_parts governor (commit_session state closing 1) after closing now tombstone h,
    )

-- The last transaction of the finalizer is one commit at most.
pub conclude-Steps :
    (governor : Governor) (state : State) (id : String) (failures : List String) (now : ℕ)
    → IsSound state
    → Steps state (conclude governor state id failures now).0
conclude-Steps governor state id failures now s = elim (Option-cases (lookup id state.sessions)) [
  | inl e ↦ unfold conclude in rw (e, conclude) (done state)
  | inr (session, e) ↦ elim (conclude_cases governor state id failures now session e) [
    | inl (l, r) ↦ rw r (
        Step-Steps state _ (
          changing state session (failed_of session failures now) 0
            (subst (λ (x : String). lookup x state.sessions ≡ some session)
              (sym (s.named id session e)) e)
            refl (listing_live state id session s e l) refl))
    | inr (l, inl (error, r)) ↦ rw r (done state)
    | inr (l, inr (after, tombstone, c, r)) ↦
        let (sessions, generation, drops, result) =
          closed_state governor state after id session now tombstone (s.named id session e) c in
        rw r (
          Step-Steps state after (
            subst (λ (x : State). Step state x) (sym result)
              (dropping state id session sessions after.tombstones generation e l drops)))
  ]
]

closable_live : (state : SessionState) → may_close state ≡ true → is_live state ≡ true
closable_live opened h = refl
closable_live terminating h = refl
closable_live expired h = refl
closable_live cleanup_failed h = refl
closable_live closed h = h

-- a live session that is set to a closing state
pub closing-Step :
    (state : State) (id : String) (session : Session) (to : SessionState) (reason : String)
    → IsSound state
    → lookup id state.sessions ≡ some session
    → is_live session.state ≡ true
    → is_live to ≡ true
    → Step state (commit_session state (set_closing session to reason) 0)
unfolding set_closing
closing-Step state id session to reason s held was live =
    changing state session _ 0
      (subst (λ (x : String). lookup x state.sessions ≡ some session)
        (sym (s.named id session held)) held)
      refl was live

pub marked-Steps :
    (c : Controller) (session : Session) (id reason : String)
    → IsSound c.state
    → lookup id c.state.sessions ≡ some session
    → Steps c.state (marked c session id reason).state
unfolding marked
marked-Steps c session id reason s held = elim (Bool-cases (may_close session.state)) [
  | inl e ↦
      rw (e, marked)
        (Step-Steps c.state _ (
          closing-Step c.state id session terminating reason s held (closable_live session.state e)
            refl))
  | inr e ↦ rw (e, marked) (done c.state)
]

module _ (finalize_record : Finalizer)
    (commits : (state : State) (run : Run) (reason : String)
      → Steps state (finalize_record state run reason).0)
    (governor : Governor) where
  pub finalize_session-Steps :
      (state : State) (id : String) (now : ℕ)
      → IsSound state
      → Steps state (finalize_session finalize_record governor state id now).0
  unfolding finalize_session
  finalize_session-Steps state id now s = elim (Option-cases (lookup id state.sessions)) [
    | inl e ↦ rw (e, finalize_session) (done state)
    | inr (session, e) ↦
        let name = closing_name session.closing_reason in
        let runs = finalize_runs finalize_record name state session.run_keys in
        let before = finalize_runs-Steps finalize_record commits name state session.run_keys in
        rw (e, finalize_session)
          (Steps-append state runs.0 _ before
            (conclude-Steps governor runs.0 id runs.1 now (Steps-IsSound state runs.0 before s)))
  ]

  -- `close` only makes commits.
  pub close-Steps :
      (c : Controller) (id reason : String) (now : ℕ)
      → IsSound c.state
      → Steps c.state (close finalize_record governor c id reason now).0.state
  unfolding close
  close-Steps c id reason now s = elim (Option-cases (lookup id c.state.sessions)) [
    | inl e ↦ rw (e, close) (done c.state)
    | inr (session, e) ↦
        let first = marked-Steps c session id reason s e in
        rw (e, close)
          (Steps-append c.state (marked c session id reason).state _ first (
            finalize_session-Steps (marked c session id reason).state id now
              (Steps-IsSound c.state (marked c session id reason).state first s)))
  ]
