-- ===== src/Manager/History.antt =====
-- skills/process-manager/scripts/process_manager/resources.py: the tombstones of closed sessions
-- and pruned runs, and the session that is compacted to one. What the file of the session and the
-- size of the tombstone show is an argument.
pub mod Bounds
use Prim.Native.String.{compare, ◌++◌ as ◌<>◌}
use text.Mathlib.Text.{is_le}
use dev_skills.Base.{
  ℕ, zero, suc, ◌+◌, ◌-◌, Bool, true, false, not, ◌&&◌, ◌||◌, Option, none, some, String, List, [],
  ◌∷◌, ◌==◌, nat_eq, leb, ltb, if◌then◌else◌, length, map, mem, Dict, lookup, insert, delete, keys,
}
use dev_skills.Manager.Errors.{
  Result, ok, ◌>>=◌, ◌>>◌, require, resource_budget_error, resource_usage_unverifiable_error,
}
use dev_skills.Manager.State.{Session, State, Tombstone, Cleanup}

abbrev pub session_tombstone : String → String
session_tombstone session_id = "session:" <> session_id

-- `(prunedAt, key)` in the order of tuples
abbrev is_older : ℕ × String → ℕ × String → Bool
is_older (m, j) (n, k) = ltb m n || nat_eq m n && is_le (compare j k)

abbrev place_older : ℕ × String → List (ℕ × String) → List (ℕ × String)
place_older e [] = e ∷ []
place_older e (f ∷ l) = let rest = place_older e l in if is_older e f then e ∷ f ∷ l else f ∷ rest

abbrev pub may_go : List String → Option String → String → Tombstone → Bool
may_go pinned incoming key tombstone =
    not tombstone.retained
    && not (elim incoming [ none ↦ false | some id ↦ key == id ])
    && not (mem key pinned)

-- the tombstones that may go, the oldest first
unfoldable pub eligible : List String → Option String → Dict Tombstone → List (ℕ × String)
eligible pinned incoming [] = []
eligible pinned incoming ((key, tombstone) ∷ l) =
    let rest = eligible pinned incoming l in
    if may_go pinned incoming key tombstone
    then place_older (tombstone.pruned_at, key) rest
    else rest

unfoldable pub drop_oldest : ℕ → Dict Tombstone → List (ℕ × String) → Dict Tombstone
drop_oldest target tombstones [] = tombstones
drop_oldest target tombstones ((time, key) ∷ l) =
    drop_oldest target
      (if ltb target (length tombstones) then delete key tombstones else tombstones) l

abbrev pub is_new : String → Dict Tombstone → ℕ
is_new id tombstones = if mem id (keys tombstones) then 0 else 1

unfoldable pub trim_tombstones : ℕ → State → Option String → Dict Tombstone
trim_tombstones max_tombstones state incoming =
    drop_oldest
      (max_tombstones - (elim incoming [ none ↦ 0 | some id ↦ is_new id state.tombstones ]))
      state.tombstones
      (eligible (map (λ key. "run:" <> key) state.pruning) incoming state.tombstones)

unfoldable pub add_tombstone :
    ℕ → (Tombstone → Bool) → State → String → Tombstone → Result (Dict Tombstone)
add_tombstone max_tombstones fits state id tombstone = do
  let kept = trim_tombstones max_tombstones state (some id)
  require (leb (length kept + is_new id kept) max_tombstones) resource_budget_error
  require (fits tombstone) resource_budget_error
  ok (insert id tombstone kept)

abbrev closing_time : Option Cleanup → ℕ → ℕ
closing_time none now = now
closing_time (some cleanup) now = cleanup.closed_at

abbrev pub tombstone_of : Session → ℕ → Tombstone
tombstone_of session now = record {
  key = session.session_id;
  session_kind = session.kind;
  closing_reason = session.closing_reason;
  created_at = session.created_at;
  finalized_at = closing_time session.cleanup now;
  pruned_at = now;
  retained = false;
}

-- `verified` tells that the file of the session is within its cap
unfoldable pub compact_session :
    ℕ → (Tombstone → Bool) → (Session → Bool) → State → Session → ℕ → Result (State × Tombstone)
compact_session max_tombstones fits verified state session now = do
  require (verified session) resource_usage_unverifiable_error
  let tombstone = tombstone_of session now
  tombstones ←
      add_tombstone max_tombstones fits state (session_tombstone session.session_id) tombstone
  ok (
    record state { tombstones = tombstones; sessions = delete session.session_id state.sessions },
    tombstone,
  )
