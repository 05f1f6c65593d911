-- ===== src/Manager/Runs/Moves.antt =====
-- state.py: the indexes of the runs after a run has changed in its place.
use dev_skills.Base.{
  ℕ, Bool, true, false, none, some, String, ◌==◌, ◌≡◌, sym, arith, ◌⊎◌, inl, inr, mem, Dict, subst,
  ap, ◌∙◌, lookup, insert, lookup-insert, lookup-delete, eq_iff, eq→≡, eq_refl, Bool-cases,
  Option-cases,
}
use dev_skills.Manager.Errors.{ok}
use dev_skills.Manager.State.{
  is_active, Ownership, session_owned, Run, Session, State, IsConsistent, OwnerHolds,
}
use dev_skills.Manager.Runs.{cleared, ended_sessions}
use dev_skills.Manager.Runs.Owners.{Frees, release_run-Frees}

-- A run that changes in its place, and leaves the indexes as it ends.
module _ (state : State) (key : String) (run new : Run) (clear : Bool) (sessions : Dict Session)
    (generation : ℕ) (c : IsConsistent state) (found : lookup key state.processes ≡ some run)
    (same_service : new.service ≡ run.service) (same_owner : new.ownership ≡ run.ownership)
    (ended : ended_sessions state.sessions key run new.status ≡ ok sessions)
    (goes_on : is_active new.status ≡ true → is_active run.status ≡ true)
    (clears : is_active new.status ≡ false → is_active run.status ≡ true → clear ≡ true)
    (ends : clear ≡ true → is_active new.status ≡ false) where
  abbrev pub moved_state : State
  moved_state = record state {
    active = cleared clear state.active run key;
    processes = insert key new state.processes;
    sessions = sessions;
    work_generation = generation;
  }

  -- the owners: nothing changes for the other runs, and the sessions list no ended run
  pub moved_owners :
      Frees state.sessions sessions key run.ownership
      ⊎ ((sessions ≡ state.sessions) × (is_active new.status ≡ is_active run.status))
  moved_owners = elim (Bool-cases (is_active run.status)) [
    | inl a ↦ elim (Bool-cases (is_active new.status)) [
      | inl b ↦ inr (ground arith, ground arith)
      | inr b ↦ inl (release_run-Frees state.sessions sessions key run.ownership (ground arith))
    ]
    | inr a ↦ inr (ground arith, ground arith)
  ]

  cleared_kept :
      (service k : String)
      → lookup service (cleared clear state.active run key) ≡ some k
      → lookup service state.active ≡ some k
  cleared_kept service k h = ground (arith, lookup-delete service run.service state.active)

  cleared_other :
      (service k : String)
      → lookup service state.active ≡ some k
      → (key == k) ≡ false
      → lookup service (cleared clear state.active run key) ≡ some k
  cleared_other service k h e = elim (Option-cases (lookup run.service state.active)) [
    | inl n ↦ ground arith
    | inr (i, n) ↦ ground (
      arith,
      lookup-delete service run.service state.active,
      eq_iff run.service service,
      eq_iff i key,
      eq_iff key k,
      eq_iff i k,
    )
  ]

  cleared_gone :
      clear ≡ true
      → lookup run.service state.active ≡ some key
      → lookup run.service (cleared clear state.active run key) ≡ none
  cleared_gone h e =
      ground (
        arith,
        lookup-delete run.service run.service state.active,
        eq_refl run.service,
        eq_refl key,
      )

  moved_indexed :
      (service k : String)
      → lookup service moved_state.active ≡ some k
      → (r : Run) × (lookup k moved_state.processes ≡ some r)
        × (r.service ≡ service)
        × (is_active r.status ≡ true)
  moved_indexed service k h =
      let old = c.indexed_run service k (cleared_kept service k h) in
      elim (Bool-cases (key == k)) [
        | inr e ↦
            (old.0, ground (arith, lookup-insert k key new state.processes, old.1), old.2, old.3)
        | inl e ↦
            let at : lookup key state.processes ≡ some old.0 =
              subst (λ (x : String). lookup x state.processes ≡ some old.0) (sym (eq→≡ key k e))
                old.1 in
            let same : old.0 ≡ run = ground arith in
            let here : run.service ≡ service =
              subst (λ (x : Run). x.service ≡ service) same old.2 in
            let a : is_active run.status ≡ true =
              subst (λ (x : Run). is_active x.status ≡ true) same old.3 in
            elim (Bool-cases (is_active new.status)) [
              | inl b ↦ (
                new,
                ground (arith, lookup-insert k key new state.processes),
                same_service ∙ here,
                b,
              )
              | inr b ↦
                  let gone = cleared_gone (clears b a) (c.run_indexed key run found a) in
                  absurd (
                    ground (
                      arith,
                      subst (λ (x : String). lookup x (cleared clear state.active run key) ≡ none)
                          here gone,
                    ))
            ]
      ]

  moved_owned :
      (id : String) (session : Session) (k : String)
      → lookup id moved_state.sessions ≡ some session
      → mem k session.run_keys ≡ true
      → (r : Run) × (lookup k moved_state.processes ≡ some r)
        × (is_active r.status ≡ true)
        × (r.ownership ≡ session_owned id)
  moved_owned id session k p m = elim (moved_owners) [
    | inl frees ↦
        let old = frees.lists id session k p m in
        let r = c.owned_run id old.0 k old.1 old.2 in
        let other : (key == k) ≡ false = elim (Bool-cases (key == k)) [
          | inr e ↦ e
          | inl e ↦
              let at : lookup key state.processes ≡ some r.0 =
                subst (λ (x : String). lookup x state.processes ≡ some r.0) (sym (eq→≡ key k e))
                  r.1 in
              let same : r.0 ≡ run = ground arith in
              old.3 (subst (λ (x : Run). x.ownership ≡ session_owned id) same r.3)
        ] in
        (r.0, ground (arith, lookup-insert k key new state.processes, r.1), r.2, r.3)
    | inr (same_sessions, same_status) ↦
        let r =
          c.owned_run id session k
            (subst (λ (d : Dict Session). lookup id d ≡ some session) same_sessions p) m in
        elim (Bool-cases (key == k)) [
          | inr e ↦ (r.0, ground (arith, lookup-insert k key new state.processes, r.1), r.2, r.3)
          | inl e ↦
              let at : lookup key state.processes ≡ some r.0 =
                subst (λ (x : String). lookup x state.processes ≡ some r.0) (sym (eq→≡ key k e))
                  r.1 in
              let same : r.0 ≡ run = ground arith in
              (
                new,
                ground (arith, lookup-insert k key new state.processes),
                same_status ∙ subst (λ (x : Run). is_active x.status ≡ true) same r.2,
                same_owner ∙ subst (λ (x : Run). x.ownership ≡ session_owned id) same r.3,
              )
        ]
  ]

  -- a run that goes on keeps its owner as it is
  kept_sessions : is_active new.status ≡ true → sessions ≡ state.sessions
  kept_sessions b = ground arith

  moved_run_indexed :
      (k : String) (r : Run)
      → lookup k moved_state.processes ≡ some r
      → is_active r.status ≡ true
      → lookup r.service moved_state.active ≡ some k
  moved_run_indexed k r p a = elim (Bool-cases (key == k)) [
    | inl e ↦
        let same : new ≡ r = ground (arith, lookup-insert k key new state.processes) in
        let b : is_active new.status ≡ true =
          subst (λ (x : Run). is_active x.status ≡ true) (sym same) a in
        let here : lookup run.service state.active ≡ some key =
          c.run_indexed key run found (goes_on b) in
        let kept : lookup run.service (cleared clear state.active run key) ≡ some k =
          ground (arith, eq→≡ key k e) in
        subst (λ (x : String). lookup x (cleared clear state.active run key) ≡ some k)
          (sym same_service ∙ ap (λ (x : Run). x.service) same) kept
    | inr e ↦
        cleared_other r.service k
          (c.run_indexed k r (ground (arith, lookup-insert k key new state.processes)) a) e
  ]

  moved_run_owned :
      (k : String) (r : Run)
      → lookup k moved_state.processes ≡ some r
      → is_active r.status ≡ true
      → OwnerHolds sessions k r.ownership
  moved_run_owned k r p a = elim (Bool-cases (key == k)) [
    | inl e ↦
        let same : new ≡ r = ground (arith, lookup-insert k key new state.processes) in
        let b : is_active new.status ≡ true =
          subst (λ (x : Run). is_active x.status ≡ true) (sym same) a in
        let old : OwnerHolds state.sessions key run.ownership =
          c.run_owned key run found (goes_on b) in
        let now : OwnerHolds sessions key run.ownership =
          subst (λ (d : Dict Session). OwnerHolds d key run.ownership) (sym (kept_sessions b))
            old in
        subst (λ (x : Run). OwnerHolds sessions k x.ownership) same
          (subst (λ (o : Ownership). OwnerHolds sessions k o) (sym same_owner)
            (subst (λ (x : String). OwnerHolds sessions x run.ownership) (eq→≡ key k e) now))
    | inr e ↦
        let old = c.run_owned k r (ground (arith, lookup-insert k key new state.processes)) a in
        elim (moved_owners) [
          | inl frees ↦ frees.keeps k r.ownership e old
          | inr (same, status) ↦
              subst (λ (d : Dict Session). OwnerHolds d k r.ownership) (sym same) old
        ]
  ]

  pub moved-IsConsistent : IsConsistent moved_state
  moved-IsConsistent = record {
    indexed_run = moved_indexed;
    run_indexed = moved_run_indexed;
    run_owned = moved_run_owned;
    owned_run = moved_owned;
  }
