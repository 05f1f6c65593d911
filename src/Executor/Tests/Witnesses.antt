-- ===== src/Executor/Tests/Witnesses.antt =====
-- The theorems about the task ledger, at the ledgers of the tests.
use dev_skills.Base.{
  ℕ, ◌<◌, obj, subset, has_text, is_absolute, is_sha256, path_parts, Bool, true, false, none, some,
  String, List, [], ◌∷◌, ◌++◌, ◌==◌, if◌then◌else◌, Json, null, ◌≡◌, ◌||◌, ◌≢◌, ◌&&◌, all, refl,
  arith, sym, eq→≡, distinct, lookup, mem, keys,
}
use dev_skills.Executor.Errors.{ok, err, out_of_fuel}
use dev_skills.Executor.Review
use dev_skills.Executor.Review.{
  validate_review_record, validate_review_scope, validate_count_object, check_mode, check_verdict,
  check_summaries, check_counts, check_receipt, is_clear, stage_delta,
}
use dev_skills.Executor.Review.Scopes.{ScopeOf, IsTallied, validate_review_record-eq-ok}
use dev_skills.Executor.Contract.{stage_order, dependencies, required_validation_ids}
use dev_skills.Executor.Contract.Order.{IsOrder}
use dev_skills.Executor.Contract.Acyclic.{
  IsRanked, stage_order-ne-out_of_fuel, stage_order_total, stage_order-IsOrder,
}
use dev_skills.Executor.State.{next_ready_stage}
use dev_skills.Executor.Ledger.{replay_events}
use dev_skills.Executor.Ledger.Evidence.{is_backed, required_ids}
use dev_skills.Executor.Ledger.Standing.{review_stands, validation_stands}
use dev_skills.Executor.Ledger.Progress.{Progress}
use dev_skills.Executor.Ledger.Reached.{head?, replay_events-Progress, next_ready_stage-eq-head}
use dev_skills.Executor.Ledger.Outcome.{
  completed_stage_is_backed, completed_task_is_backed, ended_ledger_is_closed, reapproval_stops,
}
use dev_skills.Executor.Reducer.Guards.{is_blocked, is_terminal}
use dev_skills.Executor.Tests.{
  plan, plan_definitions, plan_order, plan-defined, plan-ordered, entry, fields, review,
  stage_scope, digest, number, no_counts, finished, drifted, ended, stopped, ended_replayed,
  stopped_replayed, ended_is_completed, first_is_completed, ended_is_terminal,
  stopped_needs_approval,
}

completed_stage_is_backed_example :
    (is_backed plan_definitions (required_validation_ids plan) ended "S1" ≡ true)
    × ((mem "S1" ended.carried_stage_ids
          || (review_stands plan_definitions plan "S1" finished
              && all
                  (λ id. validation_stands plan_definitions plan "S1" id finished)
                  (required_ids plan_definitions (required_validation_ids plan) "S1")))
        ≡ true)
completed_stage_is_backed_example =
    completed_stage_is_backed plan plan_definitions plan_order plan-defined plan-ordered finished
      none ended ended_replayed "S1" first_is_completed

completed_task_is_backed_example :
    ((s : String)
      → mem s (keys plan_definitions) ≡ true
      → (mem s ended.completed_stage_ids ≡ true)
        × (is_backed plan_definitions (required_validation_ids plan) ended s ≡ true))
    × (ended.current_stage_id ≡ none)
    × (v : Review.ReviewRecord) × (ended.final_review ≡ some v)
    × (Review.is_passed v.verdict ≡ true)
completed_task_is_backed_example =
    completed_task_is_backed plan plan_definitions plan_order plan-defined plan-ordered finished
      none ended ended_replayed ended_is_completed

ended_ledger_is_closed_example :
    replay_events plan (finished ++ entry 11 "note" null null [] ∷ []) none ≢ ok ended
ended_ledger_is_closed_example =
    ended_ledger_is_closed plan plan_definitions plan_order plan-defined plan-ordered finished none
      ended ended_replayed (entry 11 "note" null null []) [] ended ended_is_terminal

reapproval_stops_example : (is_blocked stopped.lifecycle || is_terminal stopped.lifecycle) ≡ true
reapproval_stops_example =
    reapproval_stops plan plan_definitions plan_order plan-defined plan-ordered drifted none stopped
      stopped_replayed stopped_needs_approval

replay_events-Progress_example : Progress plan_definitions plan_order ended
replay_events-Progress_example =
    replay_events-Progress plan plan_definitions plan_order plan-defined plan-ordered finished none
      ended ended_replayed

next_ready_stage-eq-head_example :
    next_ready_stage stopped.state plan_definitions ≡ head? stopped.remaining_stage_ids
next_ready_stage-eq-head_example =
    next_ready_stage-eq-head plan plan_definitions plan_order plan-defined plan-ordered drifted none
      stopped stopped_replayed

plan_distinct : distinct (keys plan_definitions) ≡ true
unfolding distinct mem
plan_distinct = refl

stage_order-IsOrder_example : IsOrder plan_definitions plan_order
stage_order-IsOrder_example =
    stage_order-IsOrder plan_definitions plan_order plan_distinct plan-ordered

-- the first stage is below the second
abbrev rank : String → ℕ
rank s = if s == "S1" then 0 else 1

plan_dependencies :
    (s : String) → dependencies plan_definitions s ≡ (if "S2" == s then "S1" ∷ [] else [])
unfolding dependencies lookup
plan_dependencies s = ground arith

ranked_at :
    (s z : String) (b : Bool)
    → ("S2" == s) ≡ b
    → mem z (if b then "S1" ∷ [] else []) ≡ true
    → (mem z (keys plan_definitions) ≡ true) × (rank z < rank s)
unfolding mem
ranked_at s z true e m =
    rw (sym (eq→≡ "S2" s e), sym (eq→≡ "S1" z (ground arith))) (refl, omega arith)
ranked_at s z false e m = cc

plan-IsRanked : IsRanked rank plan_definitions
plan-IsRanked = record {
  listed = λ s z m n. ranked_at s z ("S2" == s) refl (rw (plan_dependencies s) at n);
}

stage_order_total_example : (order : List String) × (stage_order plan_definitions ≡ ok order)
stage_order_total_example = stage_order_total rank plan_definitions plan-IsRanked plan_distinct

stage_order-ne-out_of_fuel_example : stage_order plan_definitions ≢ err out_of_fuel
stage_order-ne-out_of_fuel_example = stage_order-ne-out_of_fuel plan_definitions

abbrev receipt_payload : Json
receipt_payload = obj (fields (review (stage_scope "S1")))

abbrev receipt_record : Review.ReviewRecord
receipt_record = record {
  review_id = "R1";
  scope = stage_delta "S1" 1;
  target_digest = digest;
  verdict = Review.passed;
  open_counts = fields (("advisory", number 0) ∷ no_counts);
  gap_counts = fields no_counts;
  payload = fields (review (stage_scope "S1"));
}

receipt_accepted :
    Review.validate_review_record receipt_payload (some "S1") (some 1) ≡ ok receipt_record
unfolding validate_review_record validate_review_scope validate_count_object check_mode
    check_verdict check_summaries check_counts check_receipt is_clear has_text is_absolute is_sha256
    path_parts subset mem
receipt_accepted = refl

validate_review_record-eq-ok_example :
    ScopeOf (some "S1") (some 1) receipt_record.scope
    × IsTallied receipt_record.verdict receipt_record.open_counts receipt_record.gap_counts
validate_review_record-eq-ok_example =
    validate_review_record-eq-ok receipt_payload (some "S1") (some 1) receipt_record
      receipt_accepted
