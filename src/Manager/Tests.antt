-- ===== src/Manager/Tests.antt =====
-- Runs of the process manager on concrete states, and the theorems at them.
mod Closings
use dev_skills.Base.{
  ℕ, zero, suc, ◌+◌, ◌≤◌, ◌<◌, Bool, true, false, Option, none, some, String, List, [], ◌∷◌, ◌++◌,
  ◌==◌, ◌≡◌, ◌≢◌, refl, sym, arith, ◌⊎◌, inl, inr, if◌then◌else◌, mem, not, ◌||◌, ◌&&◌, length, map,
  Dict, lookup, insert, delete, keys, distinct, Fallible, Json, int, pos, eq_iff,
}
use dev_skills.Manager.Errors.{Error, Result, ok, err, Fallible-cases, state_error}
use dev_skills.Manager.State.{
  is_active, Ownership, persistent, session_owned, Claim, Public, Run, Session, SessionState,
  is_live, is_open, State, OwnerHolds, Tombstone, process_key, IsConsistent, Fence,
}
use dev_skills.Manager.Runs.{
  reserve, with_run, starting_run, bind_run, update, claim_finalization, commit_finalization,
  Finalization, release_run, is_complete,
}
use dev_skills.Manager.Runs.Commits.{IsSound, reserve-IsSound}
use dev_skills.Manager.Runs.Finalizers.{claim_finalization-IsSound, commit_finalization-ends}
use dev_skills.Manager.Fence.{install_intake_fence, active_run_keys, active_session_ids}
use dev_skills.Manager.History.{
  eligible, drop_oldest, trim_tombstones, add_tombstone, compact_session, session_tombstone,
}
use dev_skills.Manager.History.Bounds.{add_tombstone-bounded}
use dev_skills.Manager.Leases.{
  Clock, Identity, Controller, leased_session, commit_session, open_session, is_holder, ttl_of,
  seconds, find_session, anchor_valid, expiry_reason, set_closing, expire_session, is_session_id,
  ownership_of,
}
use dev_skills.Manager.Leases.Owners.{added_session-IsSound}
use dev_skills.Manager.Steps.{
  Step, Steps, opening, reserving, claiming, fencing, committing, done, then_step, Steps-IsSound,
}
use dev_skills.Manager.Steps.Quiet.{IsQuiet, install_intake_fence-IsQuiet, Steps-IsQuiet}
use dev_skills.Manager.Closing.{
  Finalizer, Governor, finalize_run, finalize_runs, gone, conclude, finalize_session, marked, close,
  renew, open_one, open_here, reserve_run, expire_and_finalize,
}
use dev_skills.Manager.Closing.Ends.{close_leaves_nothing}
use dev_skills.Manager.Sweep.{Sweeper, window, sweep_once}

abbrev sid : String
sid = "0123456789abcdef0123456789abcdef"

abbrev start : Clock
start = record { wall = 1_000; monotonic = 500 }

abbrev self : Identity
self = record {
  manager_instance_id = "instance";
  workspace_digest = "workspace";
  anchor = start;
  drift_tolerance = 5_000_000;
}

abbrev empty : State
empty = record {
  active = [];
  processes = [];
  sessions = [];
  pruning = [];
  tombstones = [];
  work_generation = 0;
  intake_fence = none;
}

abbrev leased : Session
leased = leased_session self sid "holder" "task" 60 start

abbrev open_state : State
open_state = record empty { sessions = (sid, leased) ∷ []; work_generation = 1 }

empty-IsSound : IsSound empty
unfolding lookup
empty-IsSound = record {
  consistent = record {
    indexed_run = λ service key h. absurd (cc);
    run_indexed = λ key run h a. absurd (cc);
    run_owned = λ key run h a. absurd (cc);
    owned_run = λ id session key h m. absurd (cc);
  };
  named = λ id session h. absurd (cc);
  claimed_active = λ key run claim h e. absurd (cc);
}

open_state-IsSound : IsSound open_state
unfolding commit_session lookup insert
open_state-IsSound = added_session-IsSound empty empty-IsSound leased 1 refl refl

abbrev key : String
key = "web.run-1"

abbrev managed : Run
managed = starting_run "web" key (session_owned sid) "instance"

abbrev run_state : State
run_state =
    with_run open_state managed ((sid, record leased { run_keys = key ∷ []; revision = 2 }) ∷ [])

reserved_run :
    reserve 5 (λ state. true) open_state "web" "run-1" "instance" (session_owned sid) (some 1)
    ≡ ok (run_state, managed)
unfolding reserve lookup bind_run mem insert
reserved_run = refl

run_state-IsSound : IsSound run_state
unfolding lookup
run_state-IsSound =
    reserve-IsSound 5 (λ state. true) open_state run_state "web" "run-1" "instance"
      (session_owned sid) (some 1) managed open_state-IsSound refl reserved_run

abbrev value_of {ℓ} : {A : Type ℓ} → Result A → A → A
value_of (err error) other = other
value_of (ok value) other = value

abbrev claimed : State × Run
claimed =
    value_of (claim_finalization run_state key "stop" "instance" 30_000_000 false "claim-1" 2_000)
      (run_state, managed)

claimed_run :
    claim_finalization run_state key "stop" "instance" 30_000_000 false "claim-1" 2_000
    ≡ ok (claimed.0, claimed.1)
unfolding claim_finalization update lookup insert is_active mem
claimed_run = refl

claimed-IsSound : IsSound claimed.0
claimed-IsSound =
    claim_finalization-IsSound run_state claimed.0 key "stop" "instance" 30_000_000 false "claim-1"
      2_000 claimed.1 run_state-IsSound claimed_run

abbrev clean : Finalization
clean = record { owner_empty = true; cleanup_verified = true; error = none }

abbrev committed : State × Run
committed =
    value_of (commit_finalization claimed.0 key "stopped" clean "claim-1" (λ p. p) 3_000)
      (run_state, managed)

committed_run :
    commit_finalization claimed.0 key "stopped" clean "claim-1" (λ p. p) 3_000
    ≡ ok (committed.0, committed.1)
unfolding commit_finalization claim_finalization update is_active mem lookup insert release_run
committed_run = refl

commit_finalization-ends_example :
    (lookup key committed.0.processes ≡ some committed.1)
    × (committed.1.cleanup_claim ≡ none)
    × (is_active committed.1.status ≡ not (clean.owner_empty && clean.cleanup_verified))
    × ((clean.owner_empty && clean.cleanup_verified) ≡ true
        → ((service : String) → lookup service committed.0.active ≢ some key)
          × ((id : String) (session : Session)
              → lookup id committed.0.sessions ≡ some session
              → mem key session.run_keys ≡ false))
    × ((clean.owner_empty && clean.cleanup_verified) ≡ false
        → lookup committed.1.service committed.0.active ≡ some key)
commit_finalization-ends_example =
    commit_finalization-ends claimed.0 committed.0 key "stopped" clean "claim-1" (λ p. p) 3_000
      committed.1 claimed-IsSound committed_run

opened_now :
    open_session self 5 10
      (λ state. true)
      (record { state = empty; deadlines = [] })
      "task"
      (int (pos 60))
      "holder"
      sid
      start
    ≡ ok (record { state = open_state; deadlines = (sid, 60_000_500) ∷ [] }, leased)
unfolding open_session ttl_of is_holder mem insert commit_session
opened_now = refl

open_Step : Step empty open_state
unfolding lookup
open_Step =
    opening self 5 10 (λ state. true) empty open_state [] ((sid, 60_000_500) ∷ []) "task"
      (int (pos 60)) "holder" sid start leased refl opened_now

run_Steps : Steps open_state claimed.0
unfolding lookup
run_Steps =
    then_step open_state run_state claimed.0
      (reserving 5 (λ state. true) open_state run_state "web" "run-1" "instance" (session_owned sid)
        (some 1) managed refl reserved_run)
      (then_step run_state claimed.0 claimed.0
        (claiming run_state claimed.0 key "stop" "instance" 30_000_000 false "claim-1" 2_000
          claimed.1 claimed_run)
        (done claimed.0))

Steps-IsSound_example : IsSound claimed.0
Steps-IsSound_example =
    Steps-IsSound empty claimed.0 (then_step empty open_state claimed.0 open_Step run_Steps)
      empty-IsSound

abbrev fence : Fence
fence = record { operation_id = "stop-1"; kind = "stop"; expected_generation = 0; installed_at = 7 }

abbrev fenced : State
fenced = record empty { intake_fence = some fence }

fenced_empty : install_intake_fence empty "stop-1" "stop" 0 true 7 ≡ ok (fenced, fence)
unfolding install_intake_fence active_run_keys active_session_ids
fenced_empty = refl

install_intake_fence-IsQuiet_example : IsQuiet fenced
install_intake_fence-IsQuiet_example =
    install_intake_fence-IsQuiet empty fenced "stop-1" "stop" 0 7 fence refl fenced_empty

fence_Step : Step empty fenced
fence_Step = fencing empty fenced "stop-1" "stop" 0 true 7 fence fenced_empty

fenced_again : install_intake_fence fenced "stop-1" "stop" 0 true 9 ≡ ok (fenced, fence)
unfolding install_intake_fence
fenced_again = refl

Steps-IsQuiet_example :
    IsQuiet fenced
    ⊎ ((middle : State) × Steps fenced middle × Steps middle fenced × (middle.intake_fence ≡ none))
Steps-IsQuiet_example =
    Steps-IsQuiet fenced fenced
      (then_step fenced fenced fenced
        (fencing fenced fenced "stop-1" "stop" 0 true 9 fence fenced_again) (done fenced))
      (Steps-IsSound empty fenced (then_step empty fenced fenced fence_Step (done fenced))
        empty-IsSound)
      install_intake_fence-IsQuiet_example

abbrev tombstone : Tombstone
tombstone = record {
  key = sid;
  session_kind = "task";
  closing_reason = some "close_requested";
  created_at = 1_000;
  finalized_at = 4_000;
  pruned_at = 4_000;
  retained = false;
}

abbrev remembering : State
remembering = record empty {
  tombstones =
      ("run:web.run-0", record tombstone { retained = true })
      ∷ ("session:old", record tombstone { pruned_at = 9 })
      ∷ [];
}

abbrev remembered : Dict Tombstone
remembered =
    ("run:web.run-0", record tombstone { retained = true }) ∷ ("session:new", tombstone) ∷ []

added_tombstone : add_tombstone 2 (λ t. true) remembering "session:new" tombstone ≡ ok remembered
unfolding add_tombstone trim_tombstones drop_oldest eligible mem delete insert
added_tombstone = refl

add_tombstone-bounded_example :
    (length remembered ≤ 2)
    × (lookup "session:new" remembered ≡ some tombstone)
    × ((key : String) (old : Tombstone)
        → lookup key remembering.tombstones ≡ some old
        → ("session:new" == key) ≡ false
        → (old.retained || mem key []) ≡ true
        → lookup key remembered ≡ some old)
unfolding distinct mem
add_tombstone-bounded_example =
    add_tombstone-bounded 2 (λ t. true) remembering "session:new" tombstone remembered refl
      added_tombstone
