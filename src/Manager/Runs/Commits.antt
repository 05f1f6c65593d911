-- ===== src/Manager/Runs/Commits.antt =====
-- state.py: what the calls of `StateStore` on a run have committed when they return.
use dev_skills.Base.{
  ℕ, zero, Bool, true, false, ◌&&◌, Option, none, some, String, ◌==◌, ◌≡◌, refl, sym, arith, inl,
  inr, mem, Dict, subst, ap, ◌∙◌, lookup, lookup-insert, ◌<◌, Bool-cases,
}
use dev_skills.Manager.Errors.{ok}
use dev_skills.Manager.State.{
  is_active, Ownership, Claim, Run, Session, State, IsConsistent, Named, process_key,
}
use dev_skills.Manager.Runs.{
  bind_run, reserve, starting_run, with_run, update, Change, changed_run, updated, ended_sessions,
  active_count, claim_is,
}
use dev_skills.Manager.Runs.Owners.{bind_run-Binds}
use dev_skills.Manager.Runs.Indexes.{with_run-IsConsistent}
use dev_skills.Manager.Runs.Moves.{moved_owners, moved-IsConsistent}

-- The indexes agree, each session stands under its id, and only an active run is claimed for its
-- finalization.
pub record IsSound (state : State) : Type 0 where
  pub consistent : IsConsistent state
  pub named : Named state.sessions
  pub claimed_active :
      (key : String) (run : Run) (claim : Claim)
      → lookup key state.processes ≡ some run
      → run.cleanup_claim ≡ some claim
      → is_active run.status ≡ true

pub reserve_parts :
    (max_active_runs : ℕ) (fits_budget : State → Bool) (state after : State)
    (service run_id manager_instance_id : String) (owner : Ownership) (expected : Option ℕ)
    (run : Run)
    → reserve max_active_runs fits_budget state service run_id manager_instance_id owner expected
      ≡ ok (after, run)
    → (sessions : Dict Session) × (state.intake_fence ≡ none)
      × (lookup service state.active ≡ none)
      × (active_count state.processes < max_active_runs)
      × (bind_run state.sessions (process_key service run_id) owner manager_instance_id expected
          ≡ ok sessions)
      × (run ≡ starting_run service (process_key service run_id) owner manager_instance_id)
      × (after ≡ with_run state run sessions)
unfolding reserve
reserve_parts max_active_runs fits_budget state after service run_id instance_id owner expected run
      h =
    ground arith

pub reserve-IsSound :
    (max_active_runs : ℕ) (fits_budget : State → Bool) (state after : State)
    (service run_id manager_instance_id : String) (owner : Ownership) (expected : Option ℕ)
    (run : Run)
    → IsSound state
    → lookup (process_key service run_id) state.processes ≡ none
    → reserve max_active_runs fits_budget state service run_id manager_instance_id owner expected
      ≡ ok (after, run)
    → IsSound after
unfolding is_active mem
reserve-IsSound max_active_runs fits_budget state after service run_id instance_id owner expected
      run s fresh h =
    let parts =
      reserve_parts max_active_runs fits_budget state after service run_id instance_id owner
        expected run h in
    let key = process_key service run_id in
    let new = starting_run service key owner instance_id in
    let binds = bind_run-Binds state.sessions parts.0 key instance_id owner expected parts.4 in
    let result : after ≡ with_run state new parts.0 =
      parts.6 ∙ ap (λ (r : Run). with_run state r parts.0) parts.5 in
    subst IsSound (sym result) (record {
      named = binds.names s.named;
      consistent = with_run-IsConsistent state new parts.0 s.consistent refl fresh parts.2 binds;
      claimed_active = λ k r claim p q. elim (Bool-cases (key == k)) [
        | inl e ↦
            let same : new ≡ r = ground (arith, lookup-insert k key new state.processes) in
            subst (λ (x : Run). is_active x.status ≡ true) same refl
        | inr e ↦
            s.claimed_active k r claim (ground (arith, lookup-insert k key new state.processes)) q
      ];
    })

pub update_parts :
    (state after : State) (key status : String) (change : Change) (now : ℕ) (new : Run)
    → update state key status change now ≡ ok (after, new)
    → (run : Run) × (sessions : Dict Session) × (lookup key state.processes ≡ some run)
      × ((change.clear_active && is_active status) ≡ false)
      × (claim_is change.expected_claim run.cleanup_claim ≡ true)
      × (ended_sessions state.sessions key run status ≡ ok sessions)
      × (new ≡ changed_run run status change now)
      × (after ≡ updated state key run new change.clear_active sessions)
unfolding update
update_parts state after key status change now new h = ground arith

-- A run that goes on, or that leaves the active index as it ends, keeps the state sound.
pub update-IsSound :
    (state after : State) (key status : String) (change : Change) (now : ℕ) (new : Run)
    → IsSound state
    → ((run : Run)
        → lookup key state.processes ≡ some run
        → claim_is change.expected_claim run.cleanup_claim ≡ true
        → is_active status ≡ true
        → is_active run.status ≡ true)
    → (is_active status ≡ false → change.clear_active ≡ true)
    → (is_active status ≡ false → change.claim ≡ some none)
    → update state key status change now ≡ ok (after, new)
    → IsSound after
update-IsSound state after key status change now new s goes_on clears unclaims h =
    let parts = update_parts state after key status change now new h in
    let run : Run = parts.0 in
    let stored : Run = changed_run run status change now in
    let result : after ≡ updated state key run stored change.clear_active parts.1 =
      parts.7 ∙ ap (λ (r : Run). updated state key run r change.clear_active parts.1) parts.6 in
    let owners =
      moved_owners state key run stored change.clear_active parts.1 zero s.consistent parts.2 refl
        refl parts.5 (goes_on run parts.2 parts.4) (λ e a. clears e) (λ e. ground arith) in
    subst IsSound (sym result) (record {
      named = elim owners [
        | inl frees ↦ frees.names s.named
        | inr (same, e) ↦ subst Named (sym same) s.named
      ];
      consistent =
          moved-IsConsistent state key run stored change.clear_active parts.1 _ s.consistent parts.2
            refl refl parts.5 (goes_on run parts.2 parts.4) (λ e a. clears e) (λ e. ground arith);
      claimed_active = λ k r claim p q. elim (Bool-cases (key == k)) [
        | inl e ↦
            let same : stored ≡ r = ground (arith, lookup-insert k key stored state.processes) in
            let made : stored.cleanup_claim ≡ some claim =
              subst (λ (x : Run). x.cleanup_claim ≡ some claim) (sym same) q in
            subst (λ (x : Run). is_active x.status ≡ true) same
              (elim (Bool-cases (is_active status)) [
                | inl a ↦ a
                | inr a ↦ absurd (ground (arith, unclaims a))
              ])
        | inr e ↦
            s.claimed_active k r claim (ground (arith, lookup-insert k key stored state.processes))
              q
      ];
    })
