-- ===== src/Manager/Runs/Owners.antt =====
-- state.py: what binding and releasing a run does to the runs of the sessions.
use dev_skills.Base.{
  ℕ, ◌+◌, true, false, Option, some, String, List, [], ◌∷◌, ◌++◌, ◌==◌, ◌≡◌, refl, sym, arith, ◌⊎◌,
  inl, inr, if◌then◌else◌, mem, without, mem-without, mem-append, mem-singleton, Dict, subst, ap,
  ◌∙◌, lookup, insert, lookup-insert, eq_iff, eq→≡, eq_refl, Bool-cases,
}
use dev_skills.Manager.Errors.{ok, ok-injective}
use dev_skills.Manager.State.{
  Ownership, persistent, session_owned, is_live, Session, count, OwnerHolds, Named,
}
use dev_skills.Manager.Runs.{bind_run, release_run}

pub count_absent : (key : String) (l : List String) → mem key l ≡ false → count key l ≡ 0
unfolding mem
count_absent key [] h = refl
count_absent key (x ∷ l) h = ground (arith, count_absent key l)

pub count-snoc :
    (key new : String) (l : List String)
    → count key (l ++ new ∷ []) ≡ count key l + (if new == key then 1 else 0)
count-snoc key new [] = ground arith
count-snoc key new (x ∷ l) = ground (arith, count-snoc key new l)

count-without :
    (key gone : String) (l : List String)
    → (gone == key) ≡ false
    → count key (without (gone ∷ []) l) ≡ count key l
unfolding without mem
count-without key gone [] h = refl
count-without key gone (x ∷ l) h =
    ground (arith, count-without key gone l, eq_iff gone x, eq_iff x key, eq_iff gone key)

-- The sessions after a run was bound to its owner, against the sessions before.
pub record Binds (before after : Dict Session) (key : String) (owner : Ownership) : Type 0 where
  pub own : OwnerHolds after key owner
  pub keeps :
      (other : String) (o : Ownership)
      → (key == other) ≡ false
      → OwnerHolds before other o
      → OwnerHolds after other o
  pub names : Named before → Named after
  pub lists :
      (id : String) (session : Session) (other : String)
      → lookup id after ≡ some session
      → mem other session.run_keys ≡ true
      → ((other ≡ key) × (owner ≡ session_owned id))
        ⊎ ((old : Session) × (lookup id before ≡ some old) × (mem other old.run_keys ≡ true))

pub named_insert :
    (before : Dict Session) (id : String) (new : Session)
    → new.session_id ≡ id
    → Named before
    → Named (insert id new before)
named_insert before id new e named i s h = elim (Bool-cases (id == i)) [
  | inl p ↦
      let same : new ≡ s = ground (arith, lookup-insert i id new before) in
      sym (ap (λ (x : Session). x.session_id) same) ∙ e ∙ eq→≡ id i p
  | inr p ↦ named i s (ground (arith, lookup-insert i id new before))
]

pub bind_parts :
    (before after : Dict Session) (key id instance_id : String) (expected : Option ℕ)
    → bind_run before key (session_owned id) instance_id expected ≡ ok after
    → (session : Session) × (lookup id before ≡ some session)
      × (is_live session.state ≡ true)
      × (mem key session.run_keys ≡ false)
      × (after
          ≡ insert id
              (record session {
                run_keys = session.run_keys ++ key ∷ [];
                revision = session.revision + 1;
              })
              before)
unfolding bind_run
bind_parts before after key id instance_id expected h = ground arith

module _ (before : Dict Session) (key id : String) (old new : Session)
    (held : lookup id before ≡ some old)
    (still_live : is_live old.state ≡ true → is_live new.state ≡ true) where
  -- What a session that only changes its runs does to the owners of the other runs.
  pub keeps_owner :
      (other : String) (owner : Ownership)
      → count other new.run_keys ≡ count other old.run_keys
      → OwnerHolds before other owner
      → OwnerHolds (insert id new before) other owner
  keeps_owner other persistent e h = h
  keeps_owner other (session_owned i) e h = elim (Bool-cases (id == i)) [
    | inl p ↦
        let q : i ≡ id = sym (eq→≡ id i p) in
        let r : h.0 ≡ old = ground arith in
        (
          new,
          ground (arith, lookup-insert i id new before),
          still_live (subst (λ (s : Session). is_live s.state ≡ true) r h.2),
          e ∙ subst (λ (s : Session). count other s.run_keys ≡ 1) r h.3,
        )
    | inr p ↦ (h.0, ground (arith, lookup-insert i id new before), h.2, h.3)
  ]

bind_lists :
    (before : Dict Session) (key id i other : String) (session s : Session)
    → lookup id before ≡ some session
    → lookup i (
        insert id
          (record session {
            run_keys = session.run_keys ++ key ∷ [];
            revision = session.revision + 1;
          })
          before)
      ≡ some s
    → mem other s.run_keys ≡ true
    → ((other ≡ key) × (session_owned id ≡ session_owned i))
      ⊎ ((old : Session) × (lookup i before ≡ some old) × (mem other old.run_keys ≡ true))
bind_lists before key id i other session s held p q =
    let new : Session = record session {
      run_keys = session.run_keys ++ key ∷ [];
      revision = session.revision + 1;
    } in
    elim (Bool-cases (id == i)) [
      | inl e ↦
          let same : id ≡ i = eq→≡ id i e in
          let r : s ≡ new = ground (arith, lookup-insert i id new before) in
          let m : mem other (session.run_keys ++ key ∷ []) ≡ true =
            subst (λ (t : Session). mem other t.run_keys ≡ true) r q in
          elim (Bool-cases (key == other)) [
            | inl k ↦ inl (sym (eq→≡ key other k), ap session_owned same)
            | inr k ↦ inr (
              session,
              subst (λ (j : String). lookup j before ≡ some session) same held,
              ground (arith, mem-append other session.run_keys (key ∷ []), mem-singleton other key),
            )
          ]
      | inr e ↦ inr (s, ground (arith, lookup-insert i id new before), q)
    ]

pub bind_run-Binds :
    (before after : Dict Session) (key instance_id : String) (owner : Ownership)
    (expected : Option ℕ)
    → bind_run before key owner instance_id expected ≡ ok after
    → Binds before after key owner
unfolding bind_run
bind_run-Binds before after key instance_id persistent expected h = record {
  own = tt;
  keeps = λ other o p q. subst (λ (d : Dict Session). OwnerHolds d other o) (ok-injective h) q;
  names = λ n. subst Named (ok-injective h) n;
  lists = λ id session other p q. inr (
    session,
    subst (λ (d : Dict Session). lookup id d ≡ some session) (sym (ok-injective h)) p,
    q,
  );
}
bind_run-Binds before after key instance_id (session_owned id) expected h =
    let parts = bind_parts before after key id instance_id expected h in
    let session : Session = parts.0 in
    let new : Session = record session {
      run_keys = session.run_keys ++ key ∷ [];
      revision = session.revision + 1;
    } in
    let result : after ≡ insert id new before = parts.4 in
    subst (λ (d : Dict Session). Binds before d key (session_owned id)) (sym result)
      (record {
        own = (
          new,
          ground (arith, lookup-insert id id new before, eq_refl id),
          parts.2,
          count-snoc key key session.run_keys
              ∙ ground (arith, count_absent key session.run_keys parts.3, eq_refl key),
        );
        keeps = λ other o p q.
            keeps_owner before key id session new parts.1 (λ e. e) other o
              (ground (arith, count-snoc other key session.run_keys)) q;
        names = λ n. named_insert before id new (n id session parts.1) n;
        lists = λ i s other p q. bind_lists before key id i other session s parts.1 p q;
      })

-- The sessions after an ended run was taken from its owner, against the sessions before.
pub record Frees (before after : Dict Session) (key : String) (owner : Ownership) : Type 0 where
  pub keeps :
      (other : String) (o : Ownership)
      → (key == other) ≡ false
      → OwnerHolds before other o
      → OwnerHolds after other o
  pub names : Named before → Named after
  pub lists :
      (id : String) (session : Session) (other : String)
      → lookup id after ≡ some session
      → mem other session.run_keys ≡ true
      → (old : Session) × (lookup id before ≡ some old)
        × (mem other old.run_keys ≡ true)
        × (owner ≡ session_owned id → (key == other) ≡ false)

released : Session → String → Session
released session key = record session {
  run_keys = without (key ∷ []) session.run_keys;
  revision = session.revision + 1;
}

release_parts :
    (before after : Dict Session) (key id : String)
    → release_run before key (session_owned id) ≡ ok after
    → (session : Session) × (lookup id before ≡ some session)
      × (after ≡ insert id (released session key) before)
unfolding release_run released
release_parts before after key id h = ground arith

release_lists :
    (before : Dict Session) (key id i other : String) (session s : Session)
    → lookup id before ≡ some session
    → lookup i (insert id (released session key) before) ≡ some s
    → mem other s.run_keys ≡ true
    → (old : Session) × (lookup i before ≡ some old)
      × (mem other old.run_keys ≡ true)
      × (session_owned id ≡ session_owned i → (key == other) ≡ false)
unfolding released
release_lists before key id i other session s held p q = elim (Bool-cases (id == i)) [
  | inl e ↦
      let same : id ≡ i = eq→≡ id i e in
      let r : s ≡ released session key =
        ground (arith, lookup-insert i id (released session key) before) in
      let m : mem other (without (key ∷ []) session.run_keys) ≡ true =
        subst (λ (t : Session). mem other t.run_keys ≡ true) r q in
      let out : ((key == other) ≡ false) × (mem other session.run_keys ≡ true) =
        ground (arith, mem-without other (key ∷ []) session.run_keys, mem-singleton other key) in
      (session, subst (λ (j : String). lookup j before ≡ some session) same held, out.1, λ f. out.0)
  | inr e ↦ (
    s,
    ground (arith, lookup-insert i id (released session key) before),
    q,
    λ f. ground (arith, eq_refl i),
  )
]

pub release_run-Frees :
    (before after : Dict Session) (key : String) (owner : Ownership)
    → release_run before key owner ≡ ok after
    → Frees before after key owner
unfolding release_run released
release_run-Frees before after key persistent h =
    subst (λ (d : Dict Session). Frees before d key persistent) (ok-injective h)
      (record {
        keeps = λ other o p q. q;
        names = λ n. n;
        lists = λ id session other p q. (session, p, q, λ f. absurd (cc));
      })
release_run-Frees before after key (session_owned id) h =
    let parts = release_parts before after key id h in
    let session : Session = parts.0 in
    let result : after ≡ insert id (released session key) before = parts.2 in
    subst (λ (d : Dict Session). Frees before d key (session_owned id)) (sym result)
      (record {
        keeps = λ other o p q.
            keeps_owner before key id session (released session key) parts.1 (λ e. e) other o
              (count-without other key session.run_keys p) q;
        names = λ n. named_insert before id (released session key) (n id session parts.1) n;
        lists = λ i s other p q. release_lists before key id i other session s parts.1 p q;
      })
