-- ===== src/Manager/State.antt =====
-- skills/process-manager/scripts/process_manager/models.py: the records of the central state, and
-- the index checks of `validate_state`. Texts of times are numbers of microseconds.
use Prim.Native.String.{◌++◌ as ◌<>◌}
use dev_skills.Base.{
  ℕ, suc, Bool, true, false, Option, some, String, List, [], ◌∷◌, ◌==◌, if◌then◌else◌, mem, Dict,
  lookup, ◌≡◌,
}

-- ACTIVE_STATES
abbrev active_states : List String
active_states = "starting" ∷ "running" ∷ "stopping" ∷ "terminating" ∷ []

unfoldable pub is_active : String → Bool
is_active status = mem status active_states

pub data Ownership : Type 0 where
  persistent : Ownership
  session_owned : String → Ownership

-- CLEANUP_CLAIM_KEYS
pub record Claim : Type 0 where
  pub claim_id : String
  pub manager_instance_id : String
  pub claimed_at : ℕ
  pub deadline_at : ℕ

-- the fields of `public` that the finalization writes; `state` is the status of the run
pub record Public : Type 0 where
  pub termination_reason : Option String
  pub cleanup_attempt : ℕ
  pub cleanup_error : Option String
  pub owner_empty : Bool
  pub cleanup_verified : Bool
  pub finalized_at : Option ℕ

pub record Run : Type 0 where
  pub service : String
  pub key : String
  pub status : String
  pub updated_at : Option ℕ
  pub revision : ℕ
  pub cleanup_claim : Option Claim
  pub ownership : Ownership
  pub published : Public
  pub manager_instance_id : String

-- `open` of the source is `opened`
pub data SessionState : Type 0 where
  opened terminating expired cleanup_failed closed : SessionState

-- SESSION_ACTIVE_STATES
abbrev pub is_live : SessionState → Bool
is_live closed = false
is_live _ = true

abbrev pub is_open : SessionState → Bool
is_open opened = true
is_open _ = false

pub record Cleanup : Type 0 where
  pub owner_empty : Bool
  pub cleanup_verified : Bool
  pub closed_at : ℕ
  pub failures : List String

-- SESSION_KEYS
pub record Session : Type 0 where
  pub session_id : String
  pub revision : ℕ
  pub holder : String
  pub kind : String
  pub state : SessionState
  pub workspace_digest : String
  pub manager_instance_id : String
  pub lease_seconds : ℕ
  pub created_at : ℕ
  pub renewed_at : ℕ
  pub expires_at : ℕ
  pub closing_reason : Option String
  pub run_keys : List String
  pub cleanup : Option Cleanup

-- INTAKE_FENCE_KEYS
pub record Fence : Type 0 where
  pub operation_id : String
  pub kind : String
  pub expected_generation : ℕ
  pub installed_at : ℕ

-- `retained` tells that a retained path is noted; the session kind and the reason stand in the
-- summary of a session's tombstone
pub record Tombstone : Type 0 where
  pub key : String
  pub session_kind : String
  pub closing_reason : Option String
  pub created_at : ℕ
  pub finalized_at : ℕ
  pub pruned_at : ℕ
  pub retained : Bool

pub record State : Type 0 where
  pub active : Dict String
  pub processes : Dict Run
  pub sessions : Dict Session
  -- the process keys of the pending prunes
  pub pruning : List String
  -- under `session:` or `run:` and the id
  pub tombstones : Dict Tombstone
  pub work_generation : ℕ
  pub intake_fence : Option Fence

-- `process_key`
abbrev pub process_key : String → String → String
process_key service run_id = (service <> ".") <> run_id

abbrev pub count : String → List String → ℕ
count key [] = 0
count key (x ∷ l) = let rest = count key l in if x == key then suc rest else rest

-- the owner of an active run: a live session that lists the run once
abbrev pub OwnerHolds : Dict Session → String → Ownership → Type 0
OwnerHolds sessions key persistent = Unit
OwnerHolds sessions key (session_owned id) =
    (session : Session) × (lookup id sessions ≡ some session)
    × (is_live session.state ≡ true)
    × (count key session.run_keys ≡ 1)

-- each session stands under its own id
abbrev pub Named : Dict Session → Type 0
Named sessions =
    (id : String) (session : Session) → lookup id sessions ≡ some session → session.session_id ≡ id

-- The indexes agree: of the active services, of the runs, and of the runs of each session.
pub record IsConsistent (state : State) : Type 0 where
  pub indexed_run :
      (service key : String)
      → lookup service state.active ≡ some key
      → (run : Run) × (lookup key state.processes ≡ some run)
        × (run.service ≡ service)
        × (is_active run.status ≡ true)
  pub run_indexed :
      (key : String) (run : Run)
      → lookup key state.processes ≡ some run
      → is_active run.status ≡ true
      → lookup run.service state.active ≡ some key
  pub run_owned :
      (key : String) (run : Run)
      → lookup key state.processes ≡ some run
      → is_active run.status ≡ true
      → OwnerHolds state.sessions key run.ownership
  pub owned_run :
      (id : String) (session : Session) (key : String)
      → lookup id state.sessions ≡ some session
      → mem key session.run_keys ≡ true
      → (run : Run) × (lookup key state.processes ≡ some run)
        × (is_active run.status ≡ true)
        × (run.ownership ≡ session_owned id)
