-- ===== src/Executor/Ledger/Reached.antt =====
-- Every replay starts from the definitions and their order, and keeps the progress.
use dev_skills.Base.{
  true, Option, none, some, String, List, [], ◌∷◌, ◌++◌, ◌≡◌, refl, sym, arith, Dict, keys, Fields,
  subset, without, mem, mem-append, subset_mono, subset_of_mem, without-nil, distinct,
  mem-singleton, eq_iff, Bool-cases, inl, inr,
}
use dev_skills.Executor.Errors.{ok}
use dev_skills.Executor.Contract.{
  Stage, Contract, dependencies, stage_definitions, stage_order, required_validation_ids,
}
use dev_skills.Executor.Contract.Order.{IsTopological, IsOrder}
use dev_skills.Executor.Contract.Acyclic.{stage_definitions-distinct, stage_order-IsOrder}
use dev_skills.Executor.State.{Replay, initial_state, first_ready, next_ready_stage}
use dev_skills.Executor.Ledger.{replay_from, initial_replay, replay_events}
use dev_skills.Executor.Ledger.Induction.{replay_induction}
use dev_skills.Executor.Ledger.Progress.{Progress, Fresh}
use dev_skills.Executor.Ledger.Advance.{replay_event-Progress}

pub initial-Progress :
    (definitions : Dict Stage) (order : List String) (contract : Contract) (at : Option String)
    → Progress definitions order (initial_replay contract order at)
      × Fresh (initial_replay contract order at)
unfolding initial_replay initial_state subset distinct
initial-Progress definitions order contract at = (
  record {
    partition = sym (without-nil order);
    known = refl;
    unique = refl;
    dependencies_first = refl;
    active = refl;
    ready = refl;
  },
  record { at_start = λ e. (refl, refl) },
)

-- the first member, if there is one
abbrev pub head? : List String → Option String
head? [] = none
head? (s ∷ l) = some s

first_ready-without :
    (definitions : Dict Stage) (seen completed order : List String)
    → IsTopological definitions seen order
    → ((x : String) → mem x seen ≡ true → mem x completed ≡ true)
    → first_ready definitions completed (without completed order) ≡ head? (without completed order)
unfolding first_ready without
first_ready-without definitions seen completed [] t h = refl
first_ready-without definitions seen completed (s ∷ order) t h =
    elim (Bool-cases (mem s completed)) [
      | inl e ↦ rw e (
          first_ready-without definitions (seen ++ s ∷ []) completed order t.1
            (λ x m. ground (arith, mem-append x seen (s ∷ []), mem-singleton x s, eq_iff s x, h x)))
      | inr e ↦ rw (e, subset_mono (dependencies definitions s) seen completed t.0 h)
    ]

-- A contract whose stages have an order, and a replay of its ledger that returned.
module _ (contract : Contract) (definitions : Dict Stage) (order : List String)
    (defined : stage_definitions contract ≡ ok definitions)
    (ordered : stage_order definitions ≡ ok order) (events : List Fields) (at : Option String)
    (r : Replay) (replayed : replay_events contract events at ≡ ok r) where
  pub replay_events-eq-ok :
      replay_from definitions
        (required_validation_ids contract)
        contract
        1
        (initial_replay contract order at)
        events
      ≡ ok r
  unfolding replay_events
  replay_events-eq-ok = ground arith

  pub contract-IsOrder : IsOrder definitions order
  contract-IsOrder =
      stage_order-IsOrder definitions order
        (stage_definitions-distinct contract definitions defined) ordered

  pub keys-order : subset (keys definitions) order ≡ true
  keys-order =
      subset_of_mem (keys definitions) order (λ x m. ground (arith, contract-IsOrder.members x))

  -- In every state that a replay reaches, the completed and the remaining stages are the stages of
  -- the order, each once, the remaining ones in that order; a completed stage has its dependencies
  -- completed; the current stage remains, with its dependencies completed.
  pub replay_events-Progress : Progress definitions order r
  replay_events-Progress =
      let (progress, _) =
        replay_induction definitions (required_validation_ids contract) contract
          (λ s. Progress definitions order s × Fresh s)
          (replay_event-Progress definitions (required_validation_ids contract) order
            contract-IsOrder.once keys-order contract)
          0 (initial_replay contract order at) events r replay_events-eq-ok
          (initial-Progress definitions order contract at) in
      progress

  -- In every state that a replay reaches, the first remaining stage is the ready one.
  pub next_ready_stage-eq-head : next_ready_stage r.state definitions ≡ head? r.remaining_stage_ids
  unfolding next_ready_stage mem
  next_ready_stage-eq-head = rw replay_events-Progress.partition (
      first_ready-without definitions [] r.completed_stage_ids order contract-IsOrder.in_order
        (λ x m. cc))
