-- ===== src/Manager/Closing/Given.antt =====
-- state.py: the run that `reserve` gives to a session.
use dev_skills.Base.{
  Option, [], ◌∷◌, ◌++◌, refl, ℕ, ◌+◌, Bool, none, some, String, ◌≡◌, arith, ap, ◌∙◌, lookup,
  lookup-insert, eq_refl,
}
use dev_skills.Manager.Errors.{ok}
use dev_skills.Manager.State.{Run, Session, State, session_owned, count, process_key}
use dev_skills.Manager.Runs.{reserve}
use dev_skills.Manager.Runs.Owners.{bind_run-Binds, bind_parts}
use dev_skills.Manager.Runs.Commits.{IsSound, reserve_parts, reserve-IsSound}

-- The run that a session was given, in the state that the reservation left.
pub record Given (before after : State) (session : Session) (service run_id id : String) (run : Run)
    : Type 0 where
  pub unfenced : before.intake_fence ≡ none
  pub idle : lookup service before.active ≡ none
  pub sound : IsSound after
  pub active : lookup service after.active ≡ some (process_key service run_id)
  pub stored : lookup (process_key service run_id) after.processes ≡ some run
  pub owned : run.ownership ≡ session_owned id
  pub listed :
      (new : Session) × (lookup id after.sessions ≡ some new)
      × (new.run_keys ≡ session.run_keys ++ process_key service run_id ∷ [])
      × (count (process_key service run_id) new.run_keys ≡ 1)

pub reserve-Given :
    (max_active_runs : ℕ) (fits_budget : State → Bool) (state after : State)
    (service run_id instance_id id : String) (expected : Option ℕ) (session : Session) (run : Run)
    → IsSound state
    → lookup (process_key service run_id) state.processes ≡ none
    → lookup id state.sessions ≡ some session
    → reserve max_active_runs fits_budget state service run_id instance_id
        (session_owned id)
        expected
      ≡ ok (after, run)
    → Given state after session service run_id id run
reserve-Given max_active_runs fits_budget state after service run_id instance_id id expected session
      run sound fresh found h =
    let key = process_key service run_id in
    let (sessions, unfenced, idle, _, bound, made, result) =
      reserve_parts max_active_runs fits_budget state after service run_id instance_id
        (session_owned id) expected run h in
    let (old, held, _, _, placed) =
      bind_parts state.sessions sessions key id instance_id expected bound in
    let (new, there, _, once) =
      (bind_run-Binds state.sessions sessions key instance_id (session_owned id) expected
        bound).own in
    let same : old ≡ session = ground arith in
    let added = record old { run_keys = old.run_keys ++ key ∷ []; revision = old.revision + 1 } in
    let is : new ≡ added = ground (arith, lookup-insert id id added state.sessions, eq_refl id) in
    record {
      unfenced = unfenced;
      idle = idle;
      sound =
          reserve-IsSound max_active_runs fits_budget state after service run_id instance_id
            (session_owned id) expected run sound fresh h;
      active =
          rw (result, made)
            (rw (lookup-insert service service key state.active, eq_refl service) refl);
      stored =
          rw result (ground (arith, lookup-insert key run.key run state.processes, eq_refl key));
      owned = ap (λ (r : Run). r.ownership) made;
      listed = (
        new,
        rw result there,
        ap (λ (s : Session). s.run_keys) is ∙ ap (λ (s : Session). s.run_keys ++ key ∷ []) same,
        once,
      );
    }
