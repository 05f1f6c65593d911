-- ===== src/Manager/Sweep.antt =====
-- skills/process-manager/scripts/process_manager/sessions.py: `sweep_once`, which expires and
-- finalizes a window of the sessions. Each candidate is judged by a reading of the clocks of its
-- own, which is an argument. What other threads commit during a sweep is not modelled.
pub mod Window
use dev_skills.Base.{
  ℕ, zero, suc, ◌+◌, ◌-◌, Bool, true, false, not, ◌&&◌, ◌||◌, Option, none, some, String, List, [],
  ◌∷◌, ◌++◌, ◌==◌, if◌then◌else◌, length, mem, Dict, lookup, keys, sorted,
}
use dev_skills.Manager.Errors.{Error, ok, err}
use dev_skills.Manager.State.{SessionState, is_live, is_open, Session, State, Tombstone}
use dev_skills.Manager.Leases.{
  Clock, Identity, Controller, find_session, expiry_reason, expire_session,
}
use dev_skills.Manager.Closing.{Finalizer, Governor, finalize_session}

abbrev pub take {ℓ} : {A : Type ℓ} → ℕ → List A → List A
take zero l = []
take (suc n) [] = []
take (suc n) (x ∷ l) = x ∷ take n l

abbrev pub drop {ℓ} : {A : Type ℓ} → ℕ → List A → List A
drop zero l = l
drop (suc n) [] = []
drop (suc n) (x ∷ l) = drop n l

-- `l.index(x)`, for an `x` of the list
abbrev index : String → List String → ℕ
index x [] = 0
index x (y ∷ l) = let rest = index x l in if y == x then 0 else suc rest

abbrev pub start_of : Option String → List String → ℕ
start_of none ids = 0
start_of (some cursor) ids = if mem cursor ids then suc (index cursor ids) else 0

unfoldable pub window : ℕ → Option String → List String → List String
window sweep_batch cursor ids =
    take sweep_batch (drop (start_of cursor ids) ids ++ take (start_of cursor ids) ids)

abbrev pub last : List String → Option String
last [] = none
last (x ∷ l) = elim (last l) [ none ↦ some x | some y ↦ some y ]

pub record Sweeper : Type 0 where
  pub controller : Controller
  pub cursor : Option String
  pub errors : List (String × Error)

-- `_record_error`: the last sixteen stay
unfoldable pub record_error : Sweeper → String → Error → Sweeper
record_error sweeper id error =
    let errors = sweeper.errors ++ (id, error) ∷ [] in
    record sweeper { errors = drop (length errors - 16) errors }

-- the reason of a candidate, which `none` has if it is closing already
abbrev candidate : Identity → Controller → Clock → String → List (String × Option String)
candidate self c clock id = elim (lookup id c.state.sessions) [
  | none ↦ []
  | some session ↦
      if not (is_live session.state)
      then []
      else (if is_open session.state
          then (elim (expiry_reason self c.deadlines session clock) [
            | none ↦ []
            | some reason ↦ (id, some reason) ∷ []
          ])
          else (id, none) ∷ [])
]

unfoldable pub candidates :
    Identity → Controller → Clock → List String → List (String × Option String)
candidates self c clock [] = []
candidates self c clock (id ∷ ids) = candidate self c clock id ++ candidates self c clock ids

unfoldable pub finish_one : Finalizer → Governor → Sweeper → String → ℕ → Sweeper × List String
finish_one finalize_record governor sweeper id now =
    let step = finalize_session finalize_record governor sweeper.controller.state id now in
    let next = record sweeper { controller = record sweeper.controller { state = step.0 } } in
    elim step.1 [ ok tombstone ↦ (next, id ∷ []) | err error ↦ (record_error next id error, []) ]

-- one round of the loop over the candidates, with the closed sessions
unfoldable pub sweep_one :
    Identity
    → Finalizer
    → Governor
    → Clock
    → ℕ
    → Sweeper
    → String × Option String
    → Sweeper × List String
sweep_one self finalize_record governor clock now sweeper (id, none) =
    finish_one finalize_record governor sweeper id now
sweep_one self finalize_record governor clock now sweeper (id, some reason) =
    elim (find_session sweeper.controller.state id) [
      | err error ↦ (record_error sweeper id error, [])
      | ok session ↦
          if not (is_open session.state)
          then finish_one finalize_record governor sweeper id now
          else (elim (expiry_reason self sweeper.controller.deadlines session clock) [
            | none ↦ (sweeper, [])
            | some current ↦
                finish_one finalize_record governor
                  (record sweeper {
                    controller = expire_session sweeper.controller session current;
                  })
                  id now
          ])
    ]

unfoldable pub sweep_all :
    Identity
    → Finalizer
    → Governor
    → (String → Clock)
    → ℕ
    → Sweeper
    → List (String × Option String)
    → Sweeper × List String
sweep_all self finalize_record governor clocks now sweeper [] = (sweeper, [])
sweep_all self finalize_record governor clocks now sweeper (one ∷ rest) =
    let first = sweep_one self finalize_record governor (clocks one.0) now sweeper one in
    let others = sweep_all self finalize_record governor clocks now first.0 rest in
    (others.0, first.1 ++ others.1)

-- the sweeper that it leaves, how many it processed, and the sessions that it closed
unfoldable pub sweep_once :
    Identity
    → Finalizer
    → Governor
    → ℕ
    → Clock
    → (String → Clock)
    → ℕ
    → Sweeper
    → Sweeper × ℕ × List String
sweep_once self finalize_record governor sweep_batch clock clocks now sweeper =
    let inspected =
      window sweep_batch sweeper.cursor (sorted (keys sweeper.controller.state.sessions)) in
    let chosen = candidates self sweeper.controller clock inspected in
    let result =
      sweep_all self finalize_record governor clocks now
        (record sweeper { cursor = last inspected }) chosen in
    (result.0, length chosen, result.1)
