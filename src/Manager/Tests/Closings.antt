-- ===== src/Manager/Tests/Closings.antt =====
-- Sessions that are renewed, closed and swept, and the theorems at them.
use dev_skills.Base.{
  ℕ, ◌+◌, ◌≤◌, true, false, none, some, String, [], ◌∷◌, ◌≡◌, ◌≢◌, refl, arith, mem, without,
  length, lookup, insert, delete, Fallible, int, pos,
}
use dev_skills.Manager.Errors.{Result, ok, err}
use dev_skills.Manager.State.{is_active, session_owned, process_key, Run, Session, is_open, State}
use dev_skills.Manager.Runs.{
  claim_finalization, commit_finalization, update, release_run, reserve, starting_run, bind_run,
}
use dev_skills.Manager.History.{
  eligible, drop_oldest, trim_tombstones, add_tombstone, compact_session,
}
use dev_skills.Manager.Leases.{
  Clock, Controller, ttl_of, seconds, find_session, anchor_valid, expiry_reason, set_closing,
  is_session_id, commit_session, ownership_of,
}
use dev_skills.Manager.Steps.{Steps, claiming, committing, done, then_step}
use dev_skills.Manager.Closing.{
  Finalizer, Governor, finalize_run, finalize_runs, gone, conclude, finalize_session, marked, close,
  renew, open_one, open_here, reserve_run, renewed_session,
}
use dev_skills.Manager.Closing.Ends.{close_leaves_nothing}
use dev_skills.Manager.Closing.Expiry.{renew_extends, reserve_run_needs_lease, IsValidLease}
use dev_skills.Manager.Closing.Given.{Given}
use dev_skills.Manager.Sweep.{Sweeper, window, take, sweep_once}
use dev_skills.Manager.Sweep.Window.{sweep_once_bounded, window_resumes}
use dev_skills.Manager.Tests.{
  sid, self, run_state, run_state-IsSound, clean, tombstone, leased, key,
}

-- a finalizer of runs that claims a run and commits that its owner is empty
abbrev committing_run : State → Run → Result (State × Run) → State × Fallible String Run
committing_run state owned (err error) = (state, err "StateError")
committing_run state owned (ok (after, last)) = (after, ok last)

abbrev claiming_run : State → Run → Result (State × Run) → State × Fallible String Run
claiming_run state owned (err error) = (state, err "ConflictError")
claiming_run state owned (ok (after, claimed)) =
    committing_run after claimed
      (commit_finalization after owned.key "stopped" clean "claim-1" (λ p. p) 3_000)

finisher : Finalizer
finisher state owned reason =
    claiming_run state owned
      (claim_finalization state owned.key reason "instance" 30_000_000 false "claim-1" 2_000)

committing-Steps :
    (state : State) (owned claimed : Run) (result : Result (State × Run))
    → commit_finalization state owned.key "stopped" clean "claim-1" (λ p. p) 3_000 ≡ result
    → Steps state (committing_run state claimed result).0
committing-Steps state owned claimed (err error) e = done state
committing-Steps state owned claimed (ok (after, last)) e =
    then_step state after after
      (committing state after owned.key "stopped" clean "claim-1" (λ p. p) 3_000 last e)
      (done after)

claiming-Steps :
    (state : State) (owned : Run) (reason : String) (result : Result (State × Run))
    → claim_finalization state owned.key reason "instance" 30_000_000 false "claim-1" 2_000 ≡ result
    → Steps state (claiming_run state owned result).0
claiming-Steps state owned reason (err error) e = done state
claiming-Steps state owned reason (ok (after, claimed)) e =
    then_step state after _
      (claiming state after owned.key reason "instance" 30_000_000 false "claim-1" 2_000 claimed e)
      (committing-Steps after owned claimed _ refl)

finisher-Steps :
    (state : State) (owned : Run) (reason : String) → Steps state (finisher state owned reason).0
unfolding finisher
finisher-Steps state owned reason = claiming-Steps state owned reason _ refl

abbrev governor : Governor
governor = record { max_tombstones = 10; fits = λ t. true; verified = λ s. true }

abbrev c : Controller
c = record { state = run_state; deadlines = (sid, 60_000_500) ∷ [] }

abbrev closed_controller : Controller
closed_controller = (close finisher governor c sid "close_requested" 4_000).0

close_run :
    close finisher governor c sid "close_requested" 4_000 ≡ (closed_controller, ok (tombstone, 4))
unfolding close lookup finalize_session marked commit_session insert set_closing conclude
    finalize_runs finalize_run finisher claim_finalization is_active mem update commit_finalization
    release_run delete without gone add_tombstone compact_session drop_oldest eligible
    trim_tombstones
close_run = refl

close_leaves_nothing_example :
    (lookup sid closed_controller.state.sessions ≡ none)
    × ((key : String) (run : Run)
        → lookup key closed_controller.state.processes ≡ some run
        → is_active run.status ≡ true
        → run.ownership ≢ session_owned sid)
    × (◌≡◌ {A = ℕ} 4 closed_controller.state.work_generation)
close_leaves_nothing_example =
    close_leaves_nothing finisher finisher-Steps governor c closed_controller sid "close_requested"
      4_000 4 tombstone run_state-IsSound close_run

abbrev later : Clock
later = record { wall = 2_001_000; monotonic = 2_000_500 }

abbrev too_late : Clock
too_late = record { wall = 70_001_000; monotonic = 70_000_500 }

abbrev bound : Session
bound = record leased { run_keys = key ∷ []; revision = 2 }

abbrev renewed_controller : Controller
renewed_controller = (renew self finisher governor c sid (int (pos 120)) later 5_000).0

renew_run :
    renew self finisher governor c sid (int (pos 120)) later 5_000
    ≡ (renewed_controller, ok (renewed_session bound 120 later))
unfolding renew ttl_of open_one find_session lookup expiry_reason anchor_valid
renew_run = refl

renew_extends_example :
    (session : Session) × (ttl : ℕ) × (lookup sid c.state.sessions ≡ some session)
    × (is_open session.state ≡ true)
    × IsValidLease self c.deadlines session later
    × (60 ≤ ttl)
    × (ttl ≤ 86_400)
    × (lookup session.session_id renewed_controller.state.sessions
        ≡ some (renewed_session bound 120 later))
    × ((renewed_session bound 120 later).run_keys ≡ session.run_keys)
    × ((renewed_session bound 120 later).state ≡ session.state)
    × ((renewed_session bound 120 later).expires_at ≡ later.wall + seconds ttl)
    × (lookup sid renewed_controller.deadlines ≡ some (later.monotonic + seconds ttl))
renew_extends_example =
    renew_extends self finisher governor c later 5_000 renewed_controller sid (int (pos 120))
      (renewed_session bound 120 later) renew_run

abbrev second_controller : Controller
second_controller =
    (reserve_run self 5 (λ s. true) finisher governor c "api" "run-2" (some sid) false later
      5_000).0

abbrev second_run : Run
second_run = starting_run "api" (process_key "api" "run-2") (session_owned sid) "instance"

reserve_second :
    reserve_run self 5 (λ s. true) finisher governor c "api" "run-2" (some sid) false later 5_000
    ≡ (second_controller, ok second_run)
unfolding reserve_run ownership_of is_session_id open_here find_session lookup expiry_reason
    anchor_valid reserve insert is_active mem bind_run
reserve_second = refl

reserve_run_needs_lease_example :
    (session : Session) × (lookup sid c.state.sessions ≡ some session)
    × (is_open session.state ≡ true)
    × (session.workspace_digest ≡ self.workspace_digest)
    × IsValidLease self c.deadlines session later
    × Given c.state second_controller.state session "api" "run-2" sid second_run
    × (second_controller.deadlines ≡ c.deadlines)
unfolding lookup insert
reserve_run_needs_lease_example =
    reserve_run_needs_lease self finisher governor c later 5_000 5 (λ s. true) second_controller
      "api" "run-2" sid second_run run_state-IsSound refl reserve_second

abbrev sweeper : Sweeper
sweeper = record { controller = c; cursor = none; errors = [] }

sweep_once_bounded_example :
    ((sweep_once self finisher governor 8 too_late (λ id. too_late) 5_000 sweeper).1 ≤ 8)
    × (length (sweep_once self finisher governor 8 too_late (λ id. too_late) 5_000 sweeper).2
        ≤ (sweep_once self finisher governor 8 too_late (λ id. too_late) 5_000 sweeper).1)
    × (length (sweep_once self finisher governor 8 too_late (λ id. too_late) 5_000 sweeper).0.errors
        ≤ 16)
sweep_once_bounded_example =
    sweep_once_bounded finisher governor 5_000 self 8 too_late (λ id. too_late) sweeper
      (omega arith)

window_resumes_example : window 2 (some "b") ("a" ∷ "b" ∷ "c" ∷ []) ≡ take 2 ("c" ∷ "a" ∷ "b" ∷ [])
unfolding mem
window_resumes_example = window_resumes 2 "b" ("a" ∷ []) ("c" ∷ []) refl
