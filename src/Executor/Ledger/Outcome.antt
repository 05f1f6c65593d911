-- ===== src/Executor/Ledger/Outcome.antt =====
-- What the replay of a whole ledger guarantees.
use dev_skills.Base.{
  suc, ◌+◌, true, false, ◌||◌, ◌&&◌, all, Option, none, some, String, List, [], ◌∷◌, ◌++◌, ◌≡◌, ◌≢◌,
  refl, sym, ◌∙◌, arith, Dict, keys, Fields, mem, is_empty, length, lookup, mem-without, without,
  mem_of_subset,
}
use dev_skills.Executor.Errors.{ok, >>=-eq-ok}
use dev_skills.Executor.Review
use dev_skills.Executor.Review.{ReviewRecord}
use dev_skills.Executor.Event.{given}
use dev_skills.Executor.Contract.{
  Stage, Contract, stage_definitions, stage_order, required_validation_ids,
}
use dev_skills.Executor.State.{Replay, initial_state}
use dev_skills.Executor.Reducer.Guards.{is_terminal, is_completed, is_blocked}
use dev_skills.Executor.Ledger.{replay_event, replay_from, initial_replay, replay_events}
use dev_skills.Executor.Ledger.Induction.{replay_induction, replay_from-append}
use dev_skills.Executor.Ledger.Progress.{Progress, Fresh}
use dev_skills.Executor.Ledger.Advance.{replay_event-Progress}
use dev_skills.Executor.Ledger.Evidence.{Backed, is_backed, required_ids}
use dev_skills.Executor.Ledger.Standing.{review_stands, validation_stands}
use dev_skills.Executor.Ledger.Standing.Log.{backed_stands}
use dev_skills.Executor.Ledger.Closing.{replay_event-Backed}
use dev_skills.Executor.Ledger.Lifecycles.{Ended, Halted, replay_event-life, replay_event_terminal}
use dev_skills.Executor.Ledger.Reached.{
  replay_events-eq-ok, contract-IsOrder, keys-order, initial-Progress,
}

held : (o : Option ReviewRecord) → given o ≡ true → (v : ReviewRecord) × (o ≡ some v)
held none h = cc
held (some v) h = (v, refl)

-- with nothing left over, every stage of the order is completed
nothing_left :
    (s : String) (completed order : List String)
    → is_empty (without completed order) ≡ true
    → mem s order ≡ true
    → mem s completed ≡ true
nothing_left s completed order e m =
    ground (arith, mem-without s completed order, empty_lem s (without completed order) e)
  where
    empty_lem : (s : String) (l : List String) → is_empty l ≡ true → mem s l ≡ false
    empty_lem s [] e = unfold mem in refl
    empty_lem s (x ∷ l) e = cc

record Kept (definitions : Dict Stage) (required order : List String) (r : Replay) : Type 0 where
  progress : Progress definitions order r
  fresh : Fresh r
  backed : Backed definitions required r
  life : Ended r × Halted r

initial-Kept :
    (definitions : Dict Stage) (required order : List String) (contract : Contract)
    (at : Option String)
    → Kept definitions required order (initial_replay contract order at)
unfolding initial_replay initial_state mem lookup
initial-Kept definitions required order contract at =
    let (progress, fresh) = initial-Progress definitions order contract at in
    record {
      progress = progress;
      fresh = fresh;
      backed = record { stages = λ s m. cc; reviews = λ s v e. cc; final = λ v e. cc };
      life = (ground arith, ground arith);
    }

module _ (contract : Contract) (definitions : Dict Stage) (order : List String)
    (defined : stage_definitions contract ≡ ok definitions)
    (ordered : stage_order definitions ≡ ok order) (events : List Fields) (at : Option String)
    (r : Replay) (replayed : replay_events contract events at ≡ ok r) where
  kept : Kept definitions (required_validation_ids contract) order r
  kept =
      let required = required_validation_ids contract in
      let once =
        (contract-IsOrder contract definitions order defined ordered events at r replayed).once in
      let whole = keys-order contract definitions order defined ordered events at r replayed in
      replay_induction definitions required contract (Kept definitions required order)
        (λ seq s raw s' h k.
          let (progress, fresh) =
            replay_event-Progress definitions required order once whole contract seq s raw s' h
              (k.progress, k.fresh) in
          record {
            progress = progress;
            fresh = fresh;
            backed =
                replay_event-Backed definitions required order contract (suc seq) s raw s' h
                  k.progress k.backed;
            life = replay_event-life definitions required contract (suc seq) s raw s' h k.life;
          })
        0 (initial_replay contract order at) events r
        (replay_events-eq-ok contract definitions order defined ordered events at r replayed)
        (initial-Kept definitions required order contract at)

  -- Every completed stage of a replay is backed: an approved amendment carried it over, or it has a
  -- passed review of its current attempt whose target is that of all its recorded validations, and
  -- all the validations that it declares and the contract requires are among them. And the log itself
  -- shows it for a stage that was not carried over: its last recorded review passed, with no failed
  -- attempt, no retry and no validation without a pass of the stage behind that review, and of each
  -- of those validations the last record in the current attempt passed.
  pub completed_stage_is_backed :
      (s : String)
      → mem s r.completed_stage_ids ≡ true
      → (is_backed definitions (required_validation_ids contract) r s ≡ true)
        × ((mem s r.carried_stage_ids
              || (review_stands definitions contract s events
                  && all
                      (λ id. validation_stands definitions contract s id events)
                      (required_ids definitions (required_validation_ids contract) s)))
            ≡ true)
  unfolding initial_replay
  completed_stage_is_backed s m =
      let backed = kept.backed.stages s m in
      (
        backed,
        backed_stands definitions (required_validation_ids contract) contract
            (initial_replay contract order at) r events s refl refl
            (replay_events-eq-ok contract definitions order defined ordered events at r replayed)
            backed,
      )

  -- A replay that ends in `completed` has every stage of the contract completed and backed, no stage
  -- active, and a passed final review.
  pub completed_task_is_backed :
      is_completed r.lifecycle ≡ true
      → ((s : String)
          → mem s (keys definitions) ≡ true
          → (mem s r.completed_stage_ids ≡ true)
            × (is_backed definitions (required_validation_ids contract) r s ≡ true))
        × (r.current_stage_id ≡ none)
        × (v : ReviewRecord) × (r.final_review ≡ some v)
        × (Review.is_passed v.verdict ≡ true)
  completed_task_is_backed done =
      let (empty, idle, reviewed) = kept.life.0.at_end done in
      let (v, found) = held r.final_review reviewed in
      (
        λ s m.
            let all_done =
              nothing_left s r.completed_stage_ids order (rw kept.progress.partition at empty) (
                mem_of_subset s (keys definitions) order
                  (keys-order contract definitions order defined ordered events at r replayed) m) in
            (all_done, kept.backed.stages s all_done),
        idle,
        v,
        found,
        kept.backed.final v found,
      )

  -- A replayed ledger that has ended is closed: with any further event its replay fails.
  pub ended_ledger_is_closed :
      (raw : Fields) (more : List Fields) (r' : Replay)
      → is_terminal r.lifecycle ≡ true
      → replay_events contract (events ++ raw ∷ more) at ≢ ok r'
  unfolding replay_from
  ended_ledger_is_closed raw more r' t h =
      let required = required_validation_ids contract in
      let start = initial_replay contract order at in
      let run =
        replay_events-eq-ok contract definitions order defined ordered (events ++ raw ∷ more) at r'
          h in
      let first =
        replay_events-eq-ok contract definitions order defined ordered events at r replayed in
      let split = replay_from-append definitions required contract 1 start events (raw ∷ more) in
      let rest = rw first at (sym split ∙ run) in
      let (s, step, _) =
        >>=-eq-ok (replay_event definitions required contract (1 + length events) r raw) _ rest in
      replay_event_terminal definitions required contract (1 + length events) r raw s t step

  -- While a replayed state asks for a new approval, its task is blocked or has ended.
  pub reapproval_stops :
      r.reapproval_required ≡ true → (is_blocked r.lifecycle || is_terminal r.lifecycle) ≡ true
  reapproval_stops = kept.life.1.stopped
