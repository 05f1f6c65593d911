-- ===== src/Manager/Leases.antt =====
-- skills/process-manager/scripts/process_manager/sessions.py: the leases of `SessionController`,
-- and `open`. Times are numbers of microseconds; the two clocks are arguments, and so are the fresh
-- ids and what the governor measures on the disk. A number beyond ℕ is refused as below the bound.
pub mod Owners
use dev_skills.Base.{
  ℕ, ◌+◌, ◌-◌, ◌*◌, Bool, true, false, not, ◌&&◌, ◌||◌, Option, none, some, String, List, [], ◌∷◌,
  ◌==◌, nat_eq, leb, ltb, if◌then◌else◌, length, all, any, mem, Dict, lookup, insert, delete, Json,
  as_nat, codes, is_lower_hex,
}
use dev_skills.Manager.Errors.{
  Result, ok, err, ◌>>=◌, ◌>>◌, require, require_some, conflict_error, resource_budget_error,
  validation_error, session_expired_error, session_not_found_error,
}
use dev_skills.Manager.State.{
  Ownership, persistent, session_owned, SessionState, opened, terminating, expired, cleanup_failed,
  is_live, is_open, Session, State, Tombstone,
}
use dev_skills.Manager.Runs.{absent}
use dev_skills.Manager.History.{session_tombstone}

pub record Clock : Type 0 where
  pub wall : ℕ
  pub monotonic : ℕ

-- what `__init__` fixes
pub record Identity : Type 0 where
  pub manager_instance_id : String
  pub workspace_digest : String
  pub anchor : Clock
  pub drift_tolerance : ℕ

pub record Controller : Type 0 where
  pub state : State
  pub deadlines : Dict ℕ

abbrev pub seconds : ℕ → ℕ
seconds n = n * 1_000_000

unfoldable pub ttl_of : Json → Result ℕ
ttl_of value = do
  ttl ← require_some (as_nat (some value)) validation_error
  require (leb 60 ttl && leb ttl 86_400) validation_error
  ok ttl

-- SESSION_ID_RE
unfoldable pub is_session_id : String → Bool
is_session_id s = nat_eq (length (codes s)) 32 && all is_lower_hex (codes s)

unfoldable pub ownership_of : Option String → Bool → Result Ownership
ownership_of none true = ok persistent
ownership_of (some id) true = err validation_error
ownership_of none false = err validation_error
ownership_of (some id) false = do require (is_session_id id) validation_error; ok (session_owned id)

-- `_closed`
abbrev pub closed_session : State → String → Option Tombstone
closed_session state id = lookup (session_tombstone id) state.tombstones

-- `_session`
unfoldable pub find_session : State → String → Result Session
find_session state id = elim (lookup id state.sessions) [
  | some session ↦ ok session
  | none ↦
      err (
        if absent (closed_session state id) then session_not_found_error else session_expired_error)
]

-- |wall - anchor.wall - (monotonic - anchor.monotonic)| is within the tolerance
unfoldable pub anchor_valid : Identity → Clock → Bool
anchor_valid self clock =
    let ahead = clock.wall + self.anchor.monotonic in
    let behind = self.anchor.wall + clock.monotonic in
    leb self.anchor.monotonic clock.monotonic
    && leb (ahead - behind) self.drift_tolerance
    && leb (behind - ahead) self.drift_tolerance

unfoldable pub expiry_reason : Identity → Dict ℕ → Session → Clock → Option String
expiry_reason self deadlines session clock =
    if not (session.manager_instance_id == self.manager_instance_id)
    then some "manager_instance_changed"
    else (elim (lookup session.session_id deadlines) [
      | none ↦ some "monotonic_anchor_missing"
      | some deadline ↦
          if not (anchor_valid self clock)
          then some "clock_anomaly"
          else (if leb deadline clock.monotonic || leb session.expires_at clock.wall
              then some "lease_expired"
              else none)
    ])

-- `session.get("closingReason") or reason`
abbrev pub first_reason : Option String → String → Option String
first_reason none reason = some reason
first_reason (some given) reason = some (if given == "" then reason else given)

unfoldable pub set_closing : Session → SessionState → String → Session
set_closing session state reason = record session {
  revision = session.revision + 1;
  state = state;
  closing_reason = first_reason session.closing_reason reason;
  cleanup = none;
}

unfoldable pub commit_session : State → Session → ℕ → State
commit_session state session work_delta = record state {
  sessions = insert session.session_id session state.sessions;
  work_generation = state.work_generation + work_delta;
}

unfoldable pub expire_session : Controller → Session → String → Controller
expire_session c session reason = record {
  state = commit_session c.state (set_closing session expired reason) 0;
  deadlines = delete session.session_id c.deadlines;
}

-- `len(s.encode("utf-8"))`
abbrev utf8_length : List ℕ → ℕ
utf8_length [] = 0
utf8_length (c ∷ l) =
    let rest = utf8_length l in
    (if ltb c 128 then 1 else (if ltb c 2_048 then 2 else (if ltb c 65_536 then 3 else 4))) + rest

unfoldable pub is_holder : String → Bool
is_holder holder =
    not (holder == "")
    && leb (utf8_length (codes holder)) 256
    && not (any (λ c. ltb c 32) (codes holder))

abbrev open_count : Dict Session → ℕ
open_count [] = 0
open_count ((id, session) ∷ l) =
    let rest = open_count l in if is_open session.state then rest + 1 else rest

abbrev pub leased_session : Identity → String → String → String → ℕ → Clock → Session
leased_session self id holder kind ttl clock = record {
  session_id = id;
  revision = 1;
  holder = holder;
  kind = kind;
  state = opened;
  workspace_digest = self.workspace_digest;
  manager_instance_id = self.manager_instance_id;
  lease_seconds = ttl;
  created_at = clock.wall;
  renewed_at = clock.wall;
  expires_at = clock.wall + seconds ttl;
  closing_reason = none;
  run_keys = [];
  cleanup = none;
}

-- `open`, with the two limits of the configuration and the answer for the disk
unfoldable pub open_session :
    Identity
    → ℕ
    → ℕ
    → (State → Bool)
    → Controller
    → String
    → Json
    → String
    → String
    → Clock
    → Result (Controller × Session)
open_session self max_open max_records fits_budget c kind ttl_seconds holder id clock = do
  ttl ← ttl_of ttl_seconds
  require (mem kind ("validation" ∷ "task" ∷ [])) validation_error
  require (is_holder holder) validation_error
  require (absent c.state.intake_fence) conflict_error
  require (ltb (open_count c.state.sessions) max_open && ltb (length c.state.sessions) max_records)
      resource_budget_error
  require (fits_budget c.state) resource_budget_error
  let session = leased_session self id holder kind ttl clock
  ok (
    record {
      state = commit_session c.state session 1;
      deadlines = insert id (clock.monotonic + seconds ttl) c.deadlines;
    },
    session,
  )
