-- ===== src/Manager/Leases/Owners.antt =====
-- sessions.py: a session that is opened, changed or dropped keeps the indexes of the runs.
use dev_skills.Base.{
  ℕ, true, none, some, String, List, [], ◌==◌, ◌≡◌, refl, sym, arith, inl, inr, if◌then◌else◌, mem,
  Dict, subst, ap, ◌∙◌, lookup, insert, lookup-insert, eq_iff, eq→≡, Bool-cases,
}
use dev_skills.Manager.State.{
  is_active, Ownership, persistent, session_owned, Run, Session, is_live, State, OwnerHolds, count,
  Tombstone,
}
use dev_skills.Manager.Runs.Owners.{keeps_owner, named_insert}
use dev_skills.Manager.Runs.Commits.{IsSound}
use dev_skills.Manager.Leases.{commit_session}

module _ (state : State) (s : IsSound state) (new : Session) (delta : ℕ) where
  changed_owned :
      (old : Session)
      → lookup new.session_id state.sessions ≡ some old
      → new.run_keys ≡ old.run_keys
      → (id : String) (session : Session) (key : String)
      → lookup id (insert new.session_id new state.sessions) ≡ some session
      → mem key session.run_keys ≡ true
      → (run : Run) × (lookup key state.processes ≡ some run)
        × (is_active run.status ≡ true)
        × (run.ownership ≡ session_owned id)
  changed_owned old held e id session key p m = elim (Bool-cases (new.session_id == id)) [
    | inr q ↦
        s.consistent.owned_run id session key
          (ground (arith, lookup-insert id new.session_id new state.sessions)) m
    | inl q ↦
        let same : session ≡ new =
          ground (arith, lookup-insert id new.session_id new state.sessions) in
        let listed : mem key old.run_keys ≡ true =
          subst (λ (l : List String). mem key l ≡ true) e
            (subst (λ (x : Session). mem key x.run_keys ≡ true) same m) in
        let (run, at, a, o) = s.consistent.owned_run new.session_id old key held listed in
        (run, at, a, o ∙ ap session_owned (eq→≡ new.session_id id q))
  ]

  -- A live session that changes, its runs as they were.
  pub changed_session-IsSound :
      (old : Session)
      → lookup new.session_id state.sessions ≡ some old
      → new.run_keys ≡ old.run_keys
      → (is_live old.state ≡ true → is_live new.state ≡ true)
      → IsSound (commit_session state new delta)
  unfolding commit_session
  changed_session-IsSound old held e live = record {
    consistent = record {
      indexed_run = s.consistent.indexed_run;
      run_indexed = s.consistent.run_indexed;
      run_owned = λ key run p a.
          keeps_owner state.sessions key new.session_id old new held live key run.ownership
            (ap (λ (l : List String). count key l) e) (s.consistent.run_owned key run p a);
      owned_run = changed_owned old held e;
    };
    named = named_insert state.sessions new.session_id new refl s.named;
    claimed_active = s.claimed_active;
  }

  added_owner :
      (key : String) (owner : Ownership)
      → lookup new.session_id state.sessions ≡ none
      → OwnerHolds state.sessions key owner
      → OwnerHolds (insert new.session_id new state.sessions) key owner
  added_owner key persistent free h = h
  added_owner key (session_owned id) free h = (
    h.0,
    ground
        (arith, lookup-insert id new.session_id new state.sessions, eq_iff new.session_id id, h.1),
    h.2,
    h.3,
  )

  -- A new session without runs.
  pub added_session-IsSound :
      lookup new.session_id state.sessions ≡ none
      → new.run_keys ≡ []
      → IsSound (commit_session state new delta)
  unfolding commit_session mem
  added_session-IsSound free e = record {
    consistent = record {
      indexed_run = s.consistent.indexed_run;
      run_indexed = s.consistent.run_indexed;
      run_owned =
          λ key run p a. added_owner key run.ownership free (s.consistent.run_owned key run p a);
      owned_run = λ id session key p m. elim (Bool-cases (new.session_id == id)) [
        | inr q ↦
            s.consistent.owned_run id session key
              (ground (arith, lookup-insert id new.session_id new state.sessions)) m
        | inl q ↦
            let same : session ≡ new =
              ground (arith, lookup-insert id new.session_id new state.sessions) in
            absurd (
              ground (
                arith,
                subst (λ (l : List String). mem key l ≡ true) e
                    (subst (λ (x : Session). mem key x.run_keys ≡ true) same m),
              ))
      ];
    };
    named = named_insert state.sessions new.session_id new refl s.named;
    claimed_active = s.claimed_active;
  }

-- the state once a session is dropped
abbrev pub without_session : State → Dict Session → Dict Tombstone → ℕ → State
without_session state sessions tombstones generation = record state {
  sessions = sessions;
  tombstones = tombstones;
  work_generation = generation;
}

module _ (state : State) (s : IsSound state) (id : String) (old : Session) (sessions : Dict Session)
    (held : lookup id state.sessions ≡ some old) (idle : old.run_keys ≡ [])
    (drops : (i : String)
      → lookup i sessions ≡ (if id == i then none else lookup i state.sessions)) where
  dropped_owner :
      (key : String) (owner : Ownership)
      → OwnerHolds state.sessions key owner
      → OwnerHolds sessions key owner
  dropped_owner key persistent h = h
  dropped_owner key (session_owned i) h = elim (Bool-cases (id == i)) [
    | inr q ↦ (h.0, ground (arith, drops i, h.1), h.2, h.3)
    | inl q ↦
        let at : lookup id state.sessions ≡ some h.0 =
          subst (λ (x : String). lookup x state.sessions ≡ some h.0) (sym (eq→≡ id i q)) h.1 in
        let same : h.0 ≡ old = ground arith in
        let once : count key [] ≡ 1 =
          subst (λ (l : List String). count key l ≡ 1) idle
            (subst (λ (x : Session). count key x.run_keys ≡ 1) same h.3) in
        absurd (omega arith)
  ]

  -- A session without runs that goes.
  pub dropped_session-IsSound :
      (tombstones : Dict Tombstone) (generation : ℕ)
      → IsSound (without_session state sessions tombstones generation)
  dropped_session-IsSound tombstones generation = record {
    consistent = record {
      indexed_run = s.consistent.indexed_run;
      run_indexed = s.consistent.run_indexed;
      run_owned =
          λ key run p a. dropped_owner key run.ownership (s.consistent.run_owned key run p a);
      owned_run =
          λ i session key p m. s.consistent.owned_run i session key (ground (arith, drops i)) m;
    };
    named = λ i session p. s.named i session (ground (arith, drops i));
    claimed_active = s.claimed_active;
  }
