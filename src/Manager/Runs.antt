-- ===== src/Manager/Runs.antt =====
-- skills/process-manager/scripts/process_manager/state.py: `StateStore.reserve`, `update`,
-- `claim_finalization`, `commit_finalization` and the intake fence. A failed call commits nothing.
-- What the resource governor measures on the disk, and the history that it prunes before a
-- reservation, are arguments.
pub mod Owners
pub mod Indexes
pub mod Moves
pub mod Finalizers
pub mod Commits
use dev_skills.Base.{
  ℕ, zero, suc, ◌+◌, ◌-◌, Bool, true, false, not, ◌&&◌, ◌||◌, Option, none, some, String, List, [],
  ◌∷◌, ◌++◌, ◌==◌, nat_eq, leb, ltb, if◌then◌else◌, is_empty, mem, without, Dict, lookup, insert,
  delete,
}
use dev_skills.Manager.Errors.{
  Result, ok, err, ◌>>=◌, ◌>>◌, require, require_some, state_error, conflict_error, not_found_error,
  resource_budget_error,
}
use dev_skills.Manager.State.{
  is_active, Ownership, persistent, session_owned, Claim, Public, Run, SessionState, is_live,
  is_open, Session, Fence, State, process_key, count,
}

abbrev pub absent {ℓ} : {A : Type ℓ} → Option A → Bool
absent none = true
absent (some a) = false

abbrev pub is_value : Option ℕ → ℕ → Bool
is_value none actual = true
is_value (some n) actual = nat_eq n actual

abbrev pub claim_is : Option String → Option Claim → Bool
claim_is none claim = true
claim_is (some id) none = false
claim_is (some id) (some claim) = claim.claim_id == id

-- `record["public"]` of a new run
abbrev pub unpublished : Public
unpublished = record {
  termination_reason = none;
  cleanup_attempt = 0;
  cleanup_error = none;
  owner_empty = false;
  cleanup_verified = false;
  finalized_at = none;
}

abbrev pub starting_run : String → String → Ownership → String → Run
starting_run service key ownership manager_instance_id = record {
  service = service;
  key = key;
  status = "starting";
  updated_at = none;
  revision = 1;
  cleanup_claim = none;
  ownership = ownership;
  published = unpublished;
  manager_instance_id = manager_instance_id;
}

-- the sessions once the new run is bound to its owner
unfoldable pub bind_run :
    Dict Session → String → Ownership → String → Option ℕ → Result (Dict Session)
bind_run sessions key persistent manager_instance_id expected = ok sessions
bind_run sessions key (session_owned id) manager_instance_id expected = do
  session ← require_some (lookup id sessions) conflict_error
  require
      (is_open session.state
        && session.manager_instance_id == manager_instance_id
        && (elim expected [ none ↦ false | some revision ↦ nat_eq session.revision revision ]))
      conflict_error
  require (not (mem key session.run_keys)) state_error
  ok (
      insert id
        (record session {
          run_keys = session.run_keys ++ key ∷ [];
          revision = session.revision + 1;
        })
        sessions)

abbrev pub active_count : Dict Run → ℕ
active_count [] = 0
active_count ((key, run) ∷ l) =
    let rest = active_count l in if is_active run.status then suc rest else rest

-- the state with the new run in its indexes
abbrev pub with_run : State → Run → Dict Session → State
with_run state run sessions = record state {
  active = insert run.service run.key state.active;
  processes = insert run.key run state.processes;
  sessions = sessions;
  work_generation = state.work_generation + 1;
}

-- `max_active_runs` is the limit of the configuration, `fits_budget` the answer for the disk
unfoldable pub reserve :
    ℕ
    → (State → Bool)
    → State
    → String
    → String
    → String
    → Ownership
    → Option ℕ
    → Result (State × Run)
reserve max_active_runs fits_budget state service run_id manager_instance_id ownership expected = do
  require (absent state.intake_fence) conflict_error
  require (absent (lookup service state.active)) conflict_error
  require (ltb (active_count state.processes) max_active_runs) resource_budget_error
  require (fits_budget state) resource_budget_error
  let key = process_key service run_id
  let run = starting_run service key ownership manager_instance_id
  sessions ← bind_run state.sessions key ownership manager_instance_id expected
  ok (with_run state run sessions, run)

-- the sessions once an ended run is taken from its owner
unfoldable pub release_run : Dict Session → String → Ownership → Result (Dict Session)
release_run sessions key persistent = ok sessions
release_run sessions key (session_owned id) = do
  session ← require_some (lookup id sessions) state_error
  require (nat_eq (count key session.run_keys) 1) state_error
  ok (
      insert id
        (record session {
          run_keys = without (key ∷ []) session.run_keys;
          revision = session.revision + 1;
        })
        sessions)

-- The arguments of `update` that may be left out. `cleanupClaim` is the one top-level field that
-- may be updated.
pub record Change : Type 0 where
  pub publish : Public → Public
  pub claim : Option (Option Claim)
  pub clear_active : Bool
  pub expected_revision : Option ℕ
  pub expected_claim : Option String

abbrev pub changed_run : Run → String → Change → ℕ → Run
changed_run run status change now = record run {
  status = status;
  updated_at = some now;
  revision = run.revision + 1;
  published = change.publish run.published;
  cleanup_claim = elim change.claim [ none ↦ run.cleanup_claim | some claim ↦ claim ];
}

-- the index without the run, if it stands for its service
abbrev pub cleared : Bool → Dict String → Run → String → Dict String
cleared false active run key = active
cleared true active run key = elim (lookup run.service active) [
  | none ↦ active
  | some indexed ↦ if indexed == key then delete run.service active else active
]

-- the runs of the owner, if the run ends
abbrev pub ended_sessions : Dict Session → String → Run → String → Result (Dict Session)
ended_sessions sessions key run status =
    if is_active run.status && not (is_active status)
    then release_run sessions key run.ownership
    else ok sessions

abbrev pub differs : Bool → Bool → Bool
differs true b = not b
differs false b = b

-- the state with the changed run in its place
abbrev pub updated : State → String → Run → Run → Bool → Dict Session → State
updated state key run new clear sessions = record state {
  active = cleared clear state.active run key;
  processes = insert key new state.processes;
  sessions = sessions;
  work_generation =
      if differs (is_active run.status) (is_active new.status)
      then state.work_generation + 1
      else state.work_generation;
}

unfoldable pub update : State → String → String → Change → ℕ → Result (State × Run)
update state key status change now = do
  run ← require_some (lookup key state.processes) state_error
  require (not (mem key state.pruning)) conflict_error
  require (is_value change.expected_revision run.revision) conflict_error
  require (claim_is change.expected_claim run.cleanup_claim) conflict_error
  require (not (change.clear_active && is_active status)) state_error
  sessions ← ended_sessions state.sessions key run status
  let new = changed_run run status change now
  ok (updated state key run new change.clear_active sessions, new)

-- `max(1.0, claim_seconds)`, in microseconds
abbrev pub claim_time : ℕ → ℕ
claim_time claim_time_asked = if leb 1_000_000 claim_time_asked then claim_time_asked else 1_000_000

-- another finalizer holds the claim, or its takeover was not inspected
abbrev pub is_held : Option Claim → ℕ → Bool → Bool
is_held none now inspected = false
is_held (some claim) now inspected = ltb now claim.deadline_at || not inspected

abbrev pub is_own : Option Claim → String → ℕ → Bool
is_own none manager_instance_id now = false
is_own (some claim) manager_instance_id now =
    claim.manager_instance_id == manager_instance_id && ltb now claim.deadline_at

abbrev pub claimed_public : String → Public → Public
claimed_public reason published = record {
  termination_reason = some reason;
  cleanup_attempt = published.cleanup_attempt + 1;
  cleanup_error = none;
  owner_empty = false;
  cleanup_verified = false;
  finalized_at = none;
}

unfoldable pub claim_finalization :
    State → String → String → String → ℕ → Bool → String → ℕ → Result (State × Run)
claim_finalization state key reason manager_instance_id seconds inspected claim_id now = do
  run ← require_some (lookup key state.processes) not_found_error
  if not (is_active run.status) || is_own run.cleanup_claim manager_instance_id now
      then ok (state, run)
      else (do
        require (not (is_held run.cleanup_claim now inspected)) conflict_error
        update state key "terminating"
            (record {
              publish = claimed_public reason;
              claim = some (
                  some (record {
                    claim_id = claim_id;
                    manager_instance_id = manager_instance_id;
                    claimed_at = now;
                    deadline_at = now + claim_time seconds;
                  }));
              clear_active = false;
              expected_revision = some run.revision;
              expected_claim = none;
            })
            now)

-- what the finalizer found
pub record Finalization : Type 0 where
  pub owner_empty : Bool
  pub cleanup_verified : Bool
  pub error : Option String

abbrev pub is_complete : Finalization → Bool
is_complete result = result.owner_empty && result.cleanup_verified

abbrev finalized_public : Finalization → ℕ → Public → Public
finalized_public result now published = record published {
  cleanup_error = result.error;
  owner_empty = result.owner_empty;
  cleanup_verified = result.cleanup_verified;
  finalized_at = if is_complete result then some now else none;
}

-- without the collection of history that follows
unfoldable pub commit_finalization :
    State → String → String → Finalization → String → (Public → Public) → ℕ → Result (State × Run)
commit_finalization state key terminal_status result claim_id others now = do
  require (not (terminal_status == "") && not (is_active terminal_status)) state_error
  update state key (if is_complete result then terminal_status else "terminating")
      (record {
        publish = λ published. finalized_public result now (others published);
        claim = some none;
        clear_active = is_complete result;
        expected_revision = none;
        expected_claim = some claim_id;
      })
      now
