-- ===== src/Executor/Reducer/Guards.antt =====
-- skills/complex-coding-executor/scripts/harness_state.py, `apply_event`: the tests that the handlers share.
use dev_skills.Base.{
  ◌≡◌, refl, ap, arith, eq→≡, ℕ, Bool, true, false, Option, none, some, String, List, [], ◌==◌,
  nat_eq, mem, Dict, get_or, Fields,
}
use dev_skills.Executor.Errors.{Result, require_some, text_at, run_state_event_evidence_invalid}
use dev_skills.Executor.State.{
  Lifecycle, approved, in_progress, blocked, completed, aborted, Evidence, Replay,
}

abbrev pub is_terminal : Lifecycle → Bool
is_terminal completed = true
is_terminal aborted = true
is_terminal _ = false

abbrev pub is_completed : Lifecycle → Bool
is_completed completed = true
is_completed _ = false

abbrev pub is_approved : Lifecycle → Bool
is_approved approved = true
is_approved _ = false

abbrev pub is_in_progress : Lifecycle → Bool
is_in_progress in_progress = true
is_in_progress _ = false

abbrev pub is_blocked : Lifecycle → Bool
is_blocked blocked = true
is_blocked _ = false

-- `str(stage_id)`
abbrev pub key : Option String → String
key none = "None"
key (some s) = s

-- `==` of two optional stage ids, and of two optional numbers
abbrev pub same_stage : Option String → Option String → Bool
same_stage none none = true
same_stage (some s) (some t) = s == t
same_stage _ _ = false

abbrev pub same_attempt : Option ℕ → Option ℕ → Bool
same_attempt none none = true
same_attempt (some m) (some n) = nat_eq m n
same_attempt _ _ = false

-- `stage_id in ids`
abbrev pub mem_stage : Option String → List String → Bool
mem_stage none ids = false
mem_stage (some s) ids = mem s ids

abbrev pub payload_text : String → Fields → Result String
payload_text name payload = require_some (text_at name payload) run_state_event_evidence_invalid

-- `passed_validations.setdefault(stage, {})`
abbrev pub records_of : Replay → String → Dict Evidence
records_of r stage = get_or stage [] r.passed_validations

pub same_stage→≡ : (s t : Option String) → same_stage s t ≡ true → s ≡ t
same_stage→≡ none none h = refl
same_stage→≡ none (some t) h = cc
same_stage→≡ (some s) none h = cc
same_stage→≡ (some s) (some t) h = ap some (eq→≡ s t h)

pub same_attempt→≡ : (m n : Option ℕ) → same_attempt m n ≡ true → m ≡ n
same_attempt→≡ none none h = refl
same_attempt→≡ none (some n) h = cc
same_attempt→≡ (some m) none h = cc
same_attempt→≡ (some m) (some n) h = ground arith
