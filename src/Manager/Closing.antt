-- ===== src/Manager/Closing.antt =====
-- skills/process-manager/scripts/process_manager/sessions.py: `renew`, `reserve_run`, `close`,
-- `status` and the finalizer that they share. `finalize_record` is an
-- argument; an operation returns the controller as it leaves it, also where it raises.
pub mod Keeps
pub mod Ends
pub mod Given
pub mod Expiry
use Prim.Native.String.{◌++◌ as ◌<>◌}
use dev_skills.Base.{
  ℕ, ◌+◌, Bool, true, false, not, ◌&&◌, ◌||◌, Option, none, some, String, List, [], ◌∷◌, ◌++◌, ◌==◌,
  if◌then◌else◌, is_empty, Dict, lookup, insert, delete, Json, Fallible,
}
use dev_skills.Manager.Errors.{
  Result, ok, err, ◌>>=◌, ◌>>◌, require, require_some, state_error, session_expired_error,
  session_not_found_error, session_cleanup_pending_error,
}
use dev_skills.Manager.State.{
  Ownership, persistent, session_owned, Run, SessionState, opened, terminating, cleanup_failed,
  closed, is_open, Cleanup, Session, State, Tombstone,
}
use dev_skills.Manager.Runs.{absent, reserve}
use dev_skills.Manager.History.{compact_session}
use dev_skills.Manager.Leases.{
  Clock, Identity, Controller, seconds, ttl_of, ownership_of, closed_session, find_session,
  expiry_reason, set_closing, commit_session, expire_session,
}

-- `finalize_record` of the constructor: the state that it leaves, and the run that it committed or
-- the class of the error that it raised
abbrev pub Finalizer : Type 0
Finalizer = State → Run → String → State × Fallible String Run

-- what `compact_session` of the governor reads beside the state
pub record Governor : Type 0 where
  pub max_tombstones : ℕ
  pub fits : Tombstone → Bool
  pub verified : Session → Bool

abbrev cleanup_of : Bool → List String → ℕ → Cleanup
cleanup_of verified failures now = record {
  owner_empty = verified;
  cleanup_verified = verified;
  closed_at = now;
  failures = failures;
}

abbrev committed_failures : String → Fallible String Run → List String
committed_failures key (err name) = (key <> (":" <> name)) ∷ []
committed_failures key (ok run) =
    if run.published.cleanup_verified then [] else (key <> ":cleanup_unverified") ∷ []

-- one round of the loop over the runs of the session
unfoldable pub finalize_run : Finalizer → String → State → String → State × List String
finalize_run finalize_record reason state key = elim (lookup key state.processes) [
  | none ↦ (state, (key <> ":NotFoundError") ∷ [])
  | some run ↦
      let step = finalize_record state run reason in (step.0, committed_failures key step.1)
]

unfoldable pub finalize_runs : Finalizer → String → State → List String → State × List String
finalize_runs finalize_record reason state [] = (state, [])
finalize_runs finalize_record reason state (key ∷ keys) =
    let step = finalize_run finalize_record reason state key in
    let rest = finalize_runs finalize_record reason step.0 keys in (rest.0, step.1 ++ rest.1)

abbrev pub closing_name : Option String → String
closing_name none = "session_closing"
closing_name (some reason) = if reason == "" then "session_closing" else "session_" <> reason

-- the tombstone of a closed session, for one that is gone
unfoldable pub gone : State → String → Result Tombstone
gone state id = require_some (closed_session state id) session_not_found_error

abbrev pub closed_of : Session → ℕ → Session
closed_of session now = record session {
  revision = session.revision + 1;
  state = closed;
  cleanup = some (cleanup_of true [] now);
}

abbrev pub failed_of : Session → List String → ℕ → Session
failed_of session failures now = record session {
  revision = session.revision + 1;
  state = cleanup_failed;
  cleanup =
      some (
        cleanup_of false (if is_empty failures then "owned_runs_remaining" ∷ [] else failures) now);
}

-- the transaction at the end of `_finalize`
unfoldable pub conclude : Governor → State → String → List String → ℕ → State × Result Tombstone
conclude governor state id failures now = elim (lookup id state.sessions) [
  | none ↦ (state, gone state id)
  | some session ↦ elim (is_empty session.run_keys) [
    | false ↦
        (commit_session state (failed_of session failures now) 0, err session_cleanup_pending_error)
    | true ↦
        elim (compact_session governor.max_tombstones governor.fits governor.verified
          (commit_session state (closed_of session now) 1) (closed_of session now) now) [
            | err e ↦ (state, err e)
            | ok (after, tombstone) ↦ (after, ok tombstone)
          ]
  ]
]

-- `_finalize`
unfoldable pub finalize_session :
    Finalizer → Governor → State → String → ℕ → State × Result Tombstone
finalize_session finalize_record governor state id now = elim (lookup id state.sessions) [
  | none ↦ (state, gone state id)
  | some session ↦
      let runs =
        finalize_runs finalize_record (closing_name session.closing_reason) state
          session.run_keys in
      conclude governor runs.0 id runs.1 now
]

-- what `renew` and `reserve_run` do with a session whose lease ran out
unfoldable pub expire_and_finalize {ℓ} :
    {A : Type ℓ}
    → Finalizer
    → Governor
    → Controller
    → Session
    → String
    → String
    → ℕ
    → Controller × Result A
expire_and_finalize finalize_record governor c session id reason now =
    let gone_by = expire_session c session reason in
    let last = finalize_session finalize_record governor gone_by.state id now in
    (
      record gone_by { state = last.0 },
      elim last.1 [ err e ↦ err e | ok tombstone ↦ err session_expired_error ],
    )

abbrev pub renewed_session : Session → ℕ → Clock → Session
renewed_session session ttl clock = record session {
  revision = session.revision + 1;
  lease_seconds = ttl;
  renewed_at = clock.wall;
  expires_at = clock.wall + seconds ttl;
}

abbrev renewed : Controller → Session → String → ℕ → Clock → Controller
renewed c session id ttl clock = record {
  state = commit_session c.state (renewed_session session ttl clock) 0;
  deadlines = insert id (clock.monotonic + seconds ttl) c.deadlines;
}

-- the open session of an id
unfoldable pub open_one : State → String → Result Session
open_one state id = do
  session ← find_session state id
  require (is_open session.state) session_expired_error
  ok session

unfoldable pub renew :
    Identity
    → Finalizer
    → Governor
    → Controller
    → String
    → Json
    → Clock
    → ℕ
    → Controller × Result Session
renew self finalize_record governor c id ttl_seconds clock now = elim (ttl_of ttl_seconds) [
  | err e ↦ (c, err e)
  | ok ttl ↦ elim (open_one c.state id) [
    | err e ↦ (c, err e)
    | ok session ↦ elim (expiry_reason self c.deadlines session clock) [
      | some reason ↦ expire_and_finalize finalize_record governor c session id reason now
      | none ↦ (renewed c session id ttl clock, ok (renewed_session session ttl clock))
    ]
  ]
]

abbrev pub reserved : Controller → Result (State × Run) → Controller × Result Run
reserved c (err e) = (c, err e)
reserved c (ok (state, run)) = (record c { state = state }, ok run)

-- the open session of this workspace
unfoldable pub open_here : Identity → State → String → Result Session
open_here self state id = do
  session ← find_session state id
  require (session.workspace_digest == self.workspace_digest) state_error
  require (is_open session.state) session_expired_error
  ok session

unfoldable pub reserve_run :
    Identity
    → ℕ
    → (State → Bool)
    → Finalizer
    → Governor
    → Controller
    → String
    → String
    → Option String
    → Bool
    → Clock
    → ℕ
    → Controller × Result Run
reserve_run self max_active_runs fits_budget finalize_record governor c service run_id session_id
      keep clock now =
    elim (ownership_of session_id keep) [
      | err e ↦ (c, err e)
      | ok persistent ↦ reserved c (
          reserve max_active_runs fits_budget c.state service run_id self.manager_instance_id
            persistent none)
      | ok (session_owned id) ↦ elim (open_here self c.state id) [
        | err e ↦ (c, err e)
        | ok session ↦ elim (expiry_reason self c.deadlines session clock) [
          | some reason ↦ expire_and_finalize finalize_record governor c session id reason now
          | none ↦ reserved c (
              reserve max_active_runs fits_budget c.state service run_id self.manager_instance_id
                (session_owned id) (some session.revision))
        ]
      ]
    ]

-- `session["state"] in {"open", "cleanup_failed"}`
abbrev pub may_close : SessionState → Bool
may_close opened = true
may_close cleanup_failed = true
may_close _ = false

-- the session once `close` has marked it
unfoldable pub marked : Controller → Session → String → String → Controller
marked c session id reason = record {
  state =
      if may_close session.state
      then commit_session c.state (set_closing session terminating reason) 0
      else c.state;
  deadlines = delete id c.deadlines;
}

unfoldable pub close :
    Finalizer → Governor → Controller → String → String → ℕ → Controller × Result (Tombstone × ℕ)
close finalize_record governor c id reason now = elim (lookup id c.state.sessions) [
  | none ↦ (c, do tombstone ← gone c.state id; ok (tombstone, c.state.work_generation))
  | some session ↦
      let closing = marked c session id reason in
      let last = finalize_session finalize_record governor closing.state id now in
      (
        record closing { state = last.0 },
        do tombstone ← last.1; ok (tombstone, last.0.work_generation),
      )
]
