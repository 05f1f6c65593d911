-- ===== src/Manager/Closing/Expiry.antt =====
-- sessions.py: what an expired lease prevents, in `renew` and `reserve_run`.
use dev_skills.Base.{
  subst, ℕ, ◌+◌, ◌≤◌, ◌<◌, Bool, true, false, none, some, String, ◌==◌, ◌≡◌, sym, arith, inl, inr,
  Dict, ap, ◌∙◌, lookup, insert, delete, lookup-insert, lookup-delete, eq→≡, eq_refl, Bool-cases,
  Option-cases, Json,
}
use dev_skills.Manager.Errors.{session_expired_error, Error, ok, err, Fallible-cases}
use dev_skills.Manager.State.{Run, Session, is_open, State, session_owned, process_key}
use dev_skills.Manager.Runs.{reserve}
use dev_skills.Manager.Closing.Given.{Given, reserve-Given}
use dev_skills.Manager.Runs.Commits.{IsSound}
use dev_skills.Manager.Leases.{
  Clock, Identity, Controller, seconds, ttl_of, ownership_of, find_session, expiry_reason,
  anchor_valid, commit_session, expire_session, is_session_id,
}
use dev_skills.Manager.Closing.{
  Finalizer, Governor, finalize_session, renew, reserve_run, open_one, open_here,
  expire_and_finalize, renewed_session,
}

-- What the clocks say of a lease that has not run out.
pub record IsValidLease (self : Identity) (deadlines : Dict ℕ) (session : Session) (clock : Clock)
    : Type 0 where
  pub instance_kept : session.manager_instance_id ≡ self.manager_instance_id
  pub in_time :
      (deadline : ℕ) × (lookup session.session_id deadlines ≡ some deadline)
      × (clock.monotonic < deadline)
  pub not_over : clock.wall < session.expires_at
  pub forward : self.anchor.monotonic ≤ clock.monotonic
  pub drift_low :
      self.anchor.wall + clock.monotonic ≤ clock.wall + self.anchor.monotonic + self.drift_tolerance
  pub drift_high :
      clock.wall + self.anchor.monotonic ≤ self.anchor.wall + clock.monotonic + self.drift_tolerance

pub expiry_reason-IsValidLease :
    (self : Identity) (deadlines : Dict ℕ) (session : Session) (clock : Clock)
    → expiry_reason self deadlines session clock ≡ none
    → IsValidLease self deadlines session clock
unfolding expiry_reason anchor_valid
expiry_reason-IsValidLease self deadlines session clock h =
    elim (Bool-cases (session.manager_instance_id == self.manager_instance_id)) [
      | inr e ↦ absurd (ground arith)
      | inl e ↦ elim (Option-cases (lookup session.session_id deadlines)) [
        | inl f ↦ absurd (ground arith)
        | inr (deadline, f) ↦ record {
          instance_kept = eq→≡ session.manager_instance_id self.manager_instance_id e;
          in_time = (deadline, f, ground arith);
          not_over = ground arith;
          forward = ground arith;
          drift_low = ground arith;
          drift_high = ground arith;
        }
      ]
    ]

ttl_bounds : (value : Json) (ttl : ℕ) → ttl_of value ≡ ok ttl → (60 ≤ ttl) × (ttl ≤ 86_400)
unfolding ttl_of
ttl_bounds value ttl h = ground arith

open_parts :
    (state : State) (id : String) (session : Session)
    → open_one state id ≡ ok session
    → (lookup id state.sessions ≡ some session) × (is_open session.state ≡ true)
unfolding open_one find_session
open_parts state id session h = ground arith

-- a session whose lease ran out gives an error, and its deadline is forgotten
expire_and_finalize-err {ℓ} :
    {A : Type ℓ} (finalize_record : Finalizer) (governor : Governor) (c : Controller)
    (session : Session) (id reason : String) (now : ℕ)
    → (error : Error) × ((expire_and_finalize {A = A} finalize_record governor c session id reason
          now).1
        ≡ err error)
      × (lookup session.session_id
            (expire_and_finalize {A = A} finalize_record governor c session id reason
              now).0.deadlines
          ≡ none)
unfolding expire_and_finalize expire_session
expire_and_finalize-err finalize_record governor c session id reason now =
    let last =
      finalize_session finalize_record governor (expire_session c session reason).state id now in
    let forgotten : lookup session.session_id (delete session.session_id c.deadlines) ≡ none =
      ground (
        arith,
        lookup-delete session.session_id session.session_id c.deadlines,
        eq_refl session.session_id,
      ) in
    elim (Fallible-cases last.1) [
      | inl (t, e) ↦ (session_expired_error, ground arith, forgotten)
      | inr (error, e) ↦ (error, ground arith, forgotten)
    ]

here_parts :
    (self : Identity) (state : State) (id : String) (session : Session)
    → open_here self state id ≡ ok session
    → (lookup id state.sessions ≡ some session)
      × (is_open session.state ≡ true)
      × (session.workspace_digest ≡ self.workspace_digest)
unfolding open_here find_session
here_parts self state id session h = elim (Option-cases (lookup id state.sessions)) [
  | inl e ↦ absurd (ground arith)
  | inr (found, e) ↦
      let same : found ≡ session = ground arith in
      let digest : (session.workspace_digest == self.workspace_digest) ≡ true = ground arith in
      (e ∙ ap some same, ground arith, eq→≡ session.workspace_digest self.workspace_digest digest)
]

module _ (self : Identity) (finalize_record : Finalizer) (governor : Governor) (c : Controller)
    (clock : Clock) (now : ℕ) where
  -- A `renew` that returns found the session open with a lease valid on both clocks; it gives the
  -- session, its runs as they were, a new expiry and a new deadline, each a lease of 60 to 86400
  -- seconds from now.
  pub renew_extends :
      (after : Controller) (id : String) (ttl_seconds : Json) (new : Session)
      → renew self finalize_record governor c id ttl_seconds clock now ≡ (after, ok new)
      → (session : Session) × (ttl : ℕ) × (lookup id c.state.sessions ≡ some session)
        × (is_open session.state ≡ true)
        × IsValidLease self c.deadlines session clock
        × (60 ≤ ttl)
        × (ttl ≤ 86_400)
        × (lookup session.session_id after.state.sessions ≡ some new)
        × (new.run_keys ≡ session.run_keys)
        × (new.state ≡ session.state)
        × (new.expires_at ≡ clock.wall + seconds ttl)
        × (lookup id after.deadlines ≡ some (clock.monotonic + seconds ttl))
  unfolding renew commit_session
  renew_extends after id ttl_seconds new h = elim (Fallible-cases (ttl_of ttl_seconds)) [
    | inr (error, e) ↦ absurd (ground arith)
    | inl (ttl, e) ↦ elim (Fallible-cases (open_one c.state id)) [
      | inr (error, f) ↦ absurd (ground arith)
      | inl (session, f) ↦ elim (Option-cases (expiry_reason self c.deadlines session clock)) [
        | inr (reason, g) ↦
            let (error, r, d) =
              expire_and_finalize-err {A = Session} finalize_record governor c session id reason
                now in
            absurd (ground arith)
        | inl g ↦
            let (low, high) = ttl_bounds ttl_seconds ttl e in
            let (held, is_open_now) = open_parts c.state id session f in
            let made : new ≡ renewed_session session ttl clock = ground arith in
            let left : after ≡ record {
              state = commit_session c.state (renewed_session session ttl clock) 0;
              deadlines = insert id (clock.monotonic + seconds ttl) c.deadlines;
            } =
              ground arith in
            (
              session,
              ttl,
              held,
              is_open_now,
              expiry_reason-IsValidLease self c.deadlines session clock g,
              low,
              high,
              ap (λ (x : Controller). lookup session.session_id x.state.sessions) left
                  ∙ ground (
                    arith,
                    lookup-insert session.session_id session.session_id
                        (renewed_session session ttl clock) c.state.sessions,
                    eq_refl session.session_id,
                  )
                  ∙ sym (ap some made),
              ap (λ (x : Session). x.run_keys) made,
              ap (λ (x : Session). x.state) made,
              ap (λ (x : Session). x.expires_at) made,
              ap (λ (x : Controller). lookup id x.deadlines) left
                  ∙ ground (
                    arith,
                    lookup-insert id id (clock.monotonic + seconds ttl) c.deadlines,
                    eq_refl id,
                  ),
            )
      ]
    ]
  ]

  -- A `reserve_run` for a session that returns a run on a state whose indexes agree, with an unused
  -- key, found the session open in this workspace with a lease valid on both clocks, no intake fence
  -- and no active run of the service; the run is then active under its service, and it is the one
  -- new run of the session, which lists it once. So an expired lease gets no run.
  pub reserve_run_needs_lease :
      (max_active_runs : ℕ) (fits_budget : State → Bool) (after : Controller)
      (service run_id id : String) (run : Run)
      → IsSound c.state
      → lookup (process_key service run_id) c.state.processes ≡ none
      → reserve_run self max_active_runs fits_budget finalize_record governor c service run_id
          (some id)
          false
          clock
          now
        ≡ (after, ok run)
      → (session : Session) × (lookup id c.state.sessions ≡ some session)
        × (is_open session.state ≡ true)
        × (session.workspace_digest ≡ self.workspace_digest)
        × IsValidLease self c.deadlines session clock
        × Given c.state after.state session service run_id id run
        × (after.deadlines ≡ c.deadlines)
  unfolding reserve_run ownership_of
  reserve_run_needs_lease max_active_runs fits_budget after service run_id id run sound fresh h =
      elim (Bool-cases (is_session_id id)) [
        | inr e ↦ absurd (ground arith)
        | inl e ↦ elim (Fallible-cases (open_here self c.state id)) [
          | inr (error, f) ↦ absurd (ground arith)
          | inl (session, f) ↦ elim (Option-cases (expiry_reason self c.deadlines session clock)) [
            | inr (reason, g) ↦
                let (error, r, d) =
                  expire_and_finalize-err {A = Run} finalize_record governor c session id reason
                    now in
                absurd (ground arith)
            | inl g ↦
                let (held, is_open_now, here) = here_parts self c.state id session f in
                let attempt =
                  reserve max_active_runs fits_budget c.state service run_id
                    self.manager_instance_id (session_owned id) (some session.revision) in
                elim (Fallible-cases attempt) [
                  | inr (error, r) ↦ absurd (ground arith)
                  | inl ((state, made), r) ↦
                      let left : after ≡ record c { state = state } = ground arith in
                      let is : made ≡ run = ground arith in
                      (
                        session,
                        held,
                        is_open_now,
                        here,
                        expiry_reason-IsValidLease self c.deadlines session clock g,
                        subst
                            (λ (x : Controller).
                              Given c.state x.state session service run_id id run)
                            (sym left)
                            (subst (Given c.state state session service run_id id) is (
                              reserve-Given max_active_runs fits_budget c.state state service run_id
                                self.manager_instance_id id (some session.revision) session made
                                sound fresh held r)),
                        ap (λ (x : Controller). x.deadlines) left,
                      )
                ]
          ]
        ]
      ]
