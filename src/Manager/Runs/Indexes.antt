-- ===== src/Manager/Runs/Indexes.antt =====
-- state.py: the indexes of the runs after a new run was reserved.
use dev_skills.Base.{
  true, none, some, String, ◌==◌, ◌≡◌, sym, arith, inl, inr, Dict, subst, ap, ◌∙◌, lookup,
  lookup-insert, eq_iff, eq→≡, eq_refl, Bool-cases,
}
use dev_skills.Manager.State.{is_active, Run, Session, State, IsConsistent, OwnerHolds}
use dev_skills.Manager.Runs.{with_run}
use dev_skills.Manager.Runs.Owners.{Binds}

-- A new run under an unused key, for a service with no active run.
module _ (state : State) (run : Run) (sessions : Dict Session) (c : IsConsistent state)
    (starts : is_active run.status ≡ true) (fresh : lookup run.key state.processes ≡ none)
    (free : lookup run.service state.active ≡ none)
    (binds : Binds state.sessions sessions run.key run.ownership) where
  added_indexed :
      (service key : String)
      → lookup service (with_run state run sessions).active ≡ some key
      → (r : Run) × (lookup key (with_run state run sessions).processes ≡ some r)
        × (r.service ≡ service)
        × (is_active r.status ≡ true)
  added_indexed service key h = elim (Bool-cases (run.service == service)) [
    | inl e ↦ (
      run,
      ground (
        arith,
        lookup-insert service run.service run.key state.active,
        lookup-insert key run.key run state.processes,
        eq_refl key,
        eq_refl run.key,
      ),
      eq→≡ run.service service e,
      starts,
    )
    | inr e ↦
        let old =
          c.indexed_run service key
            (ground (arith, lookup-insert service run.service run.key state.active)) in
        (
          old.0,
          ground (arith, lookup-insert key run.key run state.processes, eq_iff run.key key, old.1),
          old.2,
          old.3,
        )
  ]

  pub with_run-IsConsistent : IsConsistent (with_run state run sessions)
  with_run-IsConsistent = record {
    indexed_run = added_indexed;
    run_indexed = λ key r p a. elim (Bool-cases (run.key == key)) [
      | inl e ↦
          let same : r ≡ run = ground (arith, lookup-insert key run.key run state.processes) in
          let at : lookup run.service (with_run state run sessions).active ≡ some run.key = ground (
            arith,
            lookup-insert run.service run.service run.key state.active,
            eq_refl run.service,
          ) in
          subst (λ (x : Run). lookup x.service (with_run state run sessions).active ≡ some key)
            (sym same) (at ∙ ap some (eq→≡ run.key key e))
      | inr e ↦
          let old =
            c.run_indexed key r (ground (arith, lookup-insert key run.key run state.processes)) a in
          ground (
            arith,
            lookup-insert r.service run.service run.key state.active,
            eq_iff run.service r.service,
            old,
          )
    ];
    run_owned = λ key r p a. elim (Bool-cases (run.key == key)) [
      | inl e ↦
          let same : run ≡ r = ground (arith, lookup-insert key run.key run state.processes) in
          subst (λ (x : Run). OwnerHolds sessions key x.ownership) same
            (subst (λ (k : String). OwnerHolds sessions k run.ownership) (eq→≡ run.key key e)
              binds.own)
      | inr e ↦
          binds.keeps key r.ownership e
            (c.run_owned key r (ground (arith, lookup-insert key run.key run state.processes)) a)
    ];
    owned_run = λ id session key p m. elim (binds.lists id session key p m) [
      | inl (e, o) ↦ (
        run,
        ground (arith, lookup-insert key run.key run state.processes, eq_iff run.key key),
        starts,
        o,
      )
      | inr (old, held, m) ↦
          let r = c.owned_run id old key held m in
          (
            r.0,
            ground (arith, lookup-insert key run.key run state.processes, eq_iff run.key key, r.1),
            r.2,
            r.3,
          )
    ];
  }
