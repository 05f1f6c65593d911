-- ===== src/Executor/Ledger/Induction.antt =====
-- What `validate_event` guarantees to the reducer, and induction over a replay.
use native.Mathlib.Nat.{add-zero}
use dev_skills.Base.{
  ℕ, suc, ◌+◌, true, Option, some, String, List, [], ◌∷◌, ◌++◌, ◌≡◌, subst, ◌∙◌, arith, Dict, keys,
  Fields, length, mem, Json, get,
}
use dev_skills.Executor.Errors.{ok, ◌>>=◌, >>=-eq-ok, bind_cong, bind_assoc, ok-injective}
use dev_skills.Executor.Event.{
  Event, needs_stage, given, Subject, check_stage, check_subject, validate_event,
}
use dev_skills.Executor.Contract.{Stage, Contract}
use dev_skills.Executor.State.{Replay}
use dev_skills.Executor.Ledger.{apply_event, stamp, replay_event, replay_from}

-- An event that needs a stage has one, and its stage is one of the contract.
pub record HasStage (known : List String) (e : Event) : Type 0 where
  pub needed : needs_stage e.type ≡ true → given e.stage_id ≡ true
  pub in_contract : (s : String) → e.stage_id ≡ some s → mem s known ≡ true

check_subject_needed :
    (raw : Fields) (known : List String) (b : Subject)
    → check_subject raw known ≡ ok b
    → needs_stage b.type ≡ true
    → given b.stage_id ≡ true
unfolding check_subject
check_subject_needed raw known b h n = ground arith

check_stage_known :
    (v : Option Json) (known : List String) (s : String)
    → check_stage v known ≡ ok (some s)
    → mem s known ≡ true
unfolding check_stage
check_stage_known v known s h = ground arith

check_subject_known :
    (raw : Fields) (known : List String) (b : Subject) (s : String)
    → check_subject raw known ≡ ok b
    → b.stage_id ≡ some s
    → mem s known ≡ true
unfolding check_subject
check_subject_known raw known b s h n =
    ground (arith, check_stage_known (get "stage_id" raw) known s)

validate_event-eq-ok :
    (raw : Fields) (seq : ℕ) (task : String) (revision : ℕ) (known : List String) (e : Event)
    → validate_event raw seq task revision known ≡ ok e
    → (b : Subject) × (check_subject raw known ≡ ok b)
      × (e.type ≡ b.type)
      × (e.stage_id ≡ b.stage_id)
      × (e.attempt ≡ b.attempt)
unfolding validate_event
validate_event-eq-ok raw seq task revision known e h = ground arith

pub validate_event-HasStage :
    (raw : Fields) (seq : ℕ) (task : String) (revision : ℕ) (known : List String) (e : Event)
    → validate_event raw seq task revision known ≡ ok e
    → HasStage known e
validate_event-HasStage raw seq task revision known e h =
    let (b, found, type, stage, _) = validate_event-eq-ok raw seq task revision known e h in
    record {
      needed = rw (type, stage) (check_subject_needed raw known b found);
      in_contract = λ s. rw stage (check_subject_known raw known b s found);
    }

shift : (m n : ℕ) → m + suc n ≡ suc m + n
shift m n = omega arith

module _ (definitions : Dict Stage) (required : List String) (contract : Contract) where
  -- The parts of a round that ended without an error.
  pub replay_event-eq-ok :
      (seq : ℕ) (r : Replay) (raw : Fields) (r' : Replay)
      → replay_event definitions required contract seq r raw ≡ ok r'
      → (e : Event) × (s : Replay) × HasStage (keys definitions) e
        × (apply_event definitions required r e ≡ ok s)
        × (stamp definitions s seq e ≡ r')
  unfolding replay_event
  replay_event-eq-ok seq r raw r' h =
      let (e, seen, h1) =
        >>=-eq-ok
          (validate_event raw seq contract.task_id contract.plan_revision (keys definitions))
          (λ e. apply_event definitions required r e >>= λ s. ok (stamp definitions s seq e)) h in
      let (s, applied, h2) =
        >>=-eq-ok (apply_event definitions required r e) (λ s. ok (stamp definitions s seq e)) h1 in
      (
        e,
        s,
        validate_event-HasStage raw seq contract.task_id contract.plan_revision (keys definitions) e
            seen,
        applied,
        ok-injective h2,
      )

  pub replay_induction {ℓ} :
      (P : Replay → Type ℓ)
      → ((seq : ℕ) (r : Replay) (raw : Fields) (r' : Replay)
          → replay_event definitions required contract (suc seq) r raw ≡ ok r'
          → P r
          → P r')
      → (seq : ℕ) (r : Replay) (events : List Fields) (r' : Replay)
      → replay_from definitions required contract (suc seq) r events ≡ ok r'
      → P r
      → P r'
  unfolding replay_from
  replay_induction P step seq r [] r' h p = subst P (ground arith) p
  replay_induction P step seq r (raw ∷ events) r' h p =
      let (s, first, later) =
        >>=-eq-ok (replay_event definitions required contract (suc seq) r raw) _ h in
      replay_induction P step (suc seq) s events r' later (step seq r raw s first p)

  pub replay_from-append :
      (seq : ℕ) (r : Replay) (before after : List Fields)
      → replay_from definitions required contract seq r (before ++ after) ≡ (
          replay_from definitions required contract seq r before >>= λ s.
          replay_from definitions required contract (seq + length before) s after)
  unfolding replay_from
  replay_from-append seq r [] after = rw add-zero
  replay_from-append seq r (raw ∷ before) after =
      bind_cong (replay_event definitions required contract seq r raw)
        (λ r'. replay_from definitions required contract (suc seq) r' (before ++ after))
        (λ r'. replay_from definitions required contract (suc seq) r' before >>= λ s.
          replay_from definitions required contract (seq + suc (length before)) s after)
        (λ r'. rw (shift seq (length before)) (replay_from-append (suc seq) r' before after))
      ∙ bind_assoc (replay_event definitions required contract seq r raw)
          (λ r'. replay_from definitions required contract (suc seq) r' before)
          (λ s. replay_from definitions required contract (seq + suc (length before)) s after)
