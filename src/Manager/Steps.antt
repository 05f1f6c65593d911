-- ===== src/Manager/Steps.antt =====
-- skills/process-manager/scripts/process_manager: the commits of the central state as steps, of
-- the runs (state.py) and of the sessions (sessions.py).
pub mod Quiet
use dev_skills.Base.{
  ℕ, Bool, true, false, Option, none, some, String, List, [], Dict, lookup, ◌≡◌, refl, sym, subst,
  ◌⊎◌, inl, inr, ◌==◌, Option-cases, if◌then◌else◌, arith, Json,
}
use dev_skills.Manager.Errors.{Fallible-cases, ok, ◌>>=◌, ◌>>◌, require}
use dev_skills.Manager.State.{
  is_active, Ownership, Public, Run, Session, SessionState, is_live, State, process_key, Tombstone,
  Fence, IsConsistent,
}
use dev_skills.Manager.Runs.{
  reserve, update, Change, claim_is, claim_finalization, commit_finalization, Finalization,
}
use dev_skills.Manager.Runs.Commits.{IsSound, reserve-IsSound, update-IsSound}
use dev_skills.Manager.Runs.Finalizers.{claim_finalization-IsSound, commit_finalization-IsSound}
use dev_skills.Manager.Fence.{install_intake_fence, clear_intake_fence}
use dev_skills.Manager.Leases.{
  commit_session, open_session, leased_session, Identity, Clock, Controller, ttl_of,
}
use dev_skills.Manager.Leases.Owners.{
  without_session, changed_session-IsSound, added_session-IsSound, dropped_session-IsSound,
}

-- One commit. A new run has an unused key, and a new session an unused id; an update outside the
-- finalization makes no ended run active, and ends a run together with its index and its claim; a
-- live session changes without its runs, and goes when it has none.
pub data Step : State → State → Type 0 where
  reserving :
      (max_active_runs : ℕ) (fits_budget : State → Bool) (state after : State)
      (service run_id manager_instance_id : String) (owner : Ownership) (expected : Option ℕ)
      (run : Run)
      → lookup (process_key service run_id) state.processes ≡ none
      → reserve max_active_runs fits_budget state service run_id manager_instance_id owner expected
        ≡ ok (after, run)
      → Step state after
  updating :
      (state after : State) (key status : String) (change : Change) (now : ℕ) (old new : Run)
      → lookup key state.processes ≡ some old
      → (is_active status ≡ true → is_active old.status ≡ true)
      → (is_active status ≡ false → (change.clear_active ≡ true) × (change.claim ≡ some none))
      → update state key status change now ≡ ok (after, new)
      → Step state after
  claiming :
      (state after : State) (key reason manager_instance_id : String) (seconds : ℕ)
      (inspected : Bool) (claim_id : String) (now : ℕ) (run : Run)
      → claim_finalization state key reason manager_instance_id seconds inspected claim_id now
        ≡ ok (after, run)
      → Step state after
  committing :
      (state after : State) (key terminal_status : String) (result : Finalization)
      (claim_id : String) (others : Public → Public) (now : ℕ) (run : Run)
      → commit_finalization state key terminal_status result claim_id others now ≡ ok (after, run)
      → Step state after
  fencing :
      (state after : State) (operation_id kind : String) (generation : ℕ) (idle : Bool) (now : ℕ)
      (fence : Fence)
      → install_intake_fence state operation_id kind generation idle now ≡ ok (after, fence)
      → Step state after
  unfencing :
      (state after : State) (operation_id : String)
      → clear_intake_fence state operation_id ≡ ok after
      → Step state after
  opening :
      (self : Identity) (max_open max_records : ℕ) (fits_budget : State → Bool)
      (state after : State) (deadlines later : Dict ℕ) (kind : String) (ttl_seconds : Json)
      (holder id : String) (clock : Clock) (session : Session)
      → lookup id state.sessions ≡ none
      → open_session self max_open max_records fits_budget
          (record { state = state; deadlines = deadlines })
          kind
          ttl_seconds
          holder
          id
          clock
        ≡ ok (record { state = after; deadlines = later }, session)
      → Step state after
  changing :
      (state : State) (old new : Session) (delta : ℕ)
      → lookup new.session_id state.sessions ≡ some old
      → new.run_keys ≡ old.run_keys
      → is_live old.state ≡ true
      → is_live new.state ≡ true
      → Step state (commit_session state new delta)
  dropping :
      (state : State) (id : String) (old : Session) (sessions : Dict Session)
      (tombstones : Dict Tombstone) (generation : ℕ)
      → lookup id state.sessions ≡ some old
      → old.run_keys ≡ []
      → ((i : String) → lookup i sessions ≡ (if id == i then none else lookup i state.sessions))
      → Step state (without_session state sessions tombstones generation)

pub data Steps : State → State → Type 0 where
  done : (state : State) → Steps state state
  then_step :
      (state middle after : State) → Step state middle → Steps middle after → Steps state after

pub Steps-append : (a b c : State) → Steps a b → Steps b c → Steps a c
Steps-append a b c (done _) t = t
Steps-append a b c (then_step _ middle _ s r) t =
    then_step a middle c s (Steps-append middle b c r t)

abbrev refenced : State → Option Fence → State
refenced state fence = record state { intake_fence = fence }

refenced-IsSound :
    (state : State) (fence : Option Fence) → IsSound state → IsSound (refenced state fence)
refenced-IsSound state fence s = record {
  consistent = record {
    indexed_run = s.consistent.indexed_run;
    run_indexed = s.consistent.run_indexed;
    run_owned = s.consistent.run_owned;
    owned_run = s.consistent.owned_run;
  };
  named = s.named;
  claimed_active = s.claimed_active;
}

install_parts :
    (state after : State) (operation_id kind : String) (generation : ℕ) (idle : Bool) (now : ℕ)
    (fence : Fence)
    → install_intake_fence state operation_id kind generation idle now ≡ ok (after, fence)
    → (after ≡ state) ⊎ (after ≡ refenced state (some fence))
unfolding install_intake_fence
install_parts state after operation_id kind generation idle now fence h =
    elim (Option-cases state.intake_fence) [
      | inl e ↦ inr (ground arith)
      | inr (f, e) ↦ inl (ground arith)
    ]

pub clear_parts :
    (state after : State) (operation_id : String)
    → clear_intake_fence state operation_id ≡ ok after
    → (after ≡ state) ⊎ (after ≡ refenced state none)
unfolding clear_intake_fence
clear_parts state after operation_id h = elim (Option-cases state.intake_fence) [
  | inl e ↦ inl (ground arith)
  | inr (f, e) ↦ inr (ground arith)
]

-- what `open` checked, and the commit that it made
pub open_parts :
    (self : Identity) (max_open max_records : ℕ) (fits_budget : State → Bool) (state after : State)
    (deadlines later : Dict ℕ) (kind : String) (ttl_seconds : Json) (holder id : String)
    (clock : Clock) (session : Session)
    → open_session self max_open max_records fits_budget
        (record { state = state; deadlines = deadlines })
        kind
        ttl_seconds
        holder
        id
        clock
      ≡ ok (record { state = after; deadlines = later }, session)
    → (ttl : ℕ) × (state.intake_fence ≡ none)
      × (after ≡ commit_session state (leased_session self id holder kind ttl clock) 1)
unfolding open_session
open_parts self max_open max_records fits state after deadlines later kind ttl_seconds holder id
      clock session h =
    elim (Fallible-cases (ttl_of ttl_seconds)) [
      | inr (error, e) ↦ absurd (ground arith)
      | inl (ttl, e) ↦ (ttl, ground arith, ground arith)
    ]

pub Step-IsSound : (state after : State) → Step state after → IsSound state → IsSound after
Step-IsSound state after
      (reserving m fits _ _ service run_id instance_id owner expected run fresh h) s =
    reserve-IsSound m fits state after service run_id instance_id owner expected run s fresh h
Step-IsSound state after (updating _ _ key status change now old new found a b h) s =
    update-IsSound state after key status change now new s
      (λ run p q e.
        subst (λ (o : Option Run). (x : Run) → o ≡ some x → is_active x.status ≡ true) (sym found)
          (λ x f.
            let same : old ≡ x = ground arith in
            subst (λ (y : Run). is_active y.status ≡ true) same (a e))
          run p)
      (λ e. (b e).0) (λ e. (b e).1) h
Step-IsSound state after (claiming _ _ key reason instance_id seconds inspected claim_id now run h)
      s =
    claim_finalization-IsSound state after key reason instance_id seconds inspected claim_id now run
      s h
Step-IsSound state after (committing _ _ key terminal_status result claim_id others now run h) s =
    commit_finalization-IsSound state after key terminal_status result claim_id others now run s h
Step-IsSound state after (fencing _ _ operation_id kind generation idle now fence h) s =
    elim (install_parts state after operation_id kind generation idle now fence h) [
      | inl e ↦ subst IsSound (sym e) s
      | inr e ↦ subst IsSound (sym e) (refenced-IsSound state (some fence) s)
    ]
Step-IsSound state after (unfencing _ _ operation_id h) s =
    elim (clear_parts state after operation_id h) [
      | inl e ↦ subst IsSound (sym e) s
      | inr e ↦ subst IsSound (sym e) (refenced-IsSound state none s)
    ]
Step-IsSound state after
      (opening self max_open max_records fits _ _ deadlines later kind ttl_seconds holder id clock
        session free h)
      s =
    let (ttl, fence, opens) =
      open_parts self max_open max_records fits state after deadlines later kind ttl_seconds holder
        id clock session h in
    subst IsSound (sym opens)
      (added_session-IsSound state s (leased_session self id holder kind ttl clock) 1 free refl)
Step-IsSound state after (changing _ old new delta held e was live) s =
    changed_session-IsSound state s new delta old held e (λ p. live)
Step-IsSound state after (dropping _ id old sessions tombstones generation held idle drops) s =
    dropped_session-IsSound state s id old sessions held idle drops tombstones generation

-- Whatever commits follow on a state whose indexes agree, whose sessions stand under their ids and
-- whose claimed runs are active, the same holds of the state that they reach.
-- New runs and sessions have unused names, an update outside the finalization makes no ended run
-- active and ends a run together with its index and its claim, and a live session changes without its
-- runs, and goes when it has none.
pub Steps-IsSound : (state after : State) → Steps state after → IsSound state → IsSound after
Steps-IsSound state after (done _) s = s
Steps-IsSound state after (then_step _ middle _ one rest) s =
    Steps-IsSound middle after rest (Step-IsSound state middle one s)
