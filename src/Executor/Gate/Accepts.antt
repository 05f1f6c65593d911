-- ===== src/Executor/Gate/Accepts.antt =====
-- harness_execution.py: what a gate that lets a bundle pass has seen.
use dev_skills.Base.{
  ℕ, Bool, true, false, not, ◌&&◌, ◌||◌, Option, none, some, String, List, [], ◌≡◌, ◌∷◌, refl, ap,
  subst, get, is_none, ◌∙◌, arith, any, is_empty, subset, Fields, inl, inr, ◌⊎◌, nat_eq,
}
use dev_skills.Executor.Errors.{
  Code, Result, ok, ◌>>◌, require, >>=-eq-ok, run_state_drift, task_pointer_not_closed,
  attestation_commit_denied, run_state_commit_evidence_missing, ok-injective,
  run_state_reapproval_required, run_state_blocked, run_state_not_executable,
  run_state_stage_active, run_state_not_started,
}
use dev_skills.Executor.Review.{ReviewRecord}
use dev_skills.Executor.Event.{given}
use dev_skills.Executor.Contract.{Contract}
use dev_skills.Executor.State.{RunState, Replay, is_commit, commit_evidence_gaps}
use dev_skills.Executor.Reducer.Guards.{
  is_terminal, is_approved, is_in_progress, is_blocked, is_completed,
}
use dev_skills.Executor.Snapshot.{File, load_state, state_differences}
use dev_skills.Executor.Snapshot.Differences.{state_differences-nil}
use dev_skills.Executor.Gate.{
  Attestation, Bundle, replay_bundle, require_clean_snapshot, check_preflight, check_transition,
  covered_stages, expected_stages, check_commits, check_finished, check_final,
}

required : (c : Bool) (code : Code) → require c code ≡ ok tt → c ≡ true
required true code h = refl
required false code h = cc

-- the snapshot is the replayed state, or nothing has happened and there is none
abbrev pub IsClean : File → Replay → Type 0
IsClean file r =
    (load_state file ≡ ok (some r.state)) ⊎ ((load_state file ≡ ok none) × (r.last_event_seq ≡ 0))

right_holds : (a e : Bool) → (a && false || e) ≡ true → e ≡ true
right_holds a e h = ground arith

absent_differs :
    (a : Bool) (t : RunState) → (a && true || is_empty (state_differences none t)) ≡ true → a ≡ true
unfolding state_differences
absent_differs a t h = ground arith

IsClean-cases :
    (file : File) (r : Replay) (snapshot : Option RunState)
    → load_state file ≡ ok snapshot
    → (nat_eq r.last_event_seq 0 && not (given snapshot)
        || is_empty (state_differences snapshot r.state))
      ≡ true
    → IsClean file r
IsClean-cases file r none found h =
    inr (found, zero_seq r.last_event_seq (absent_differs (nat_eq r.last_event_seq 0) r.state h))
  where
    zero_seq : (n : ℕ) → nat_eq n 0 ≡ true → n ≡ 0
    zero_seq n e = ground arith
IsClean-cases file r (some s) found h =
    let none_differs =
      right_holds (nat_eq r.last_event_seq 0) (is_empty (state_differences (some s) r.state)) h in
    let same : s ≡ r.state = state_differences-nil s r.state none_differs in
    inl (found ∙ ap (λ t. ok (some t)) same)

require_clean_snapshot-IsClean :
    (file : File) (r : Replay) → require_clean_snapshot file r ≡ ok tt → IsClean file r
unfolding require_clean_snapshot
require_clean_snapshot-IsClean file r h =
    let (snapshot, found, rest) = >>=-eq-ok (load_state file) _ h in
    IsClean-cases file r snapshot found (required _ run_state_drift rest)

preflight_tests :
    (hold clean : Result (Unit {0})) (a b c : Bool) (seen attestation : Attestation)
    → (hold
        >> (clean
            >> (require (not a) run_state_reapproval_required
                >> (require (not b) run_state_blocked
                    >> (require (not c) run_state_not_executable >> ok seen)))))
      ≡ ok attestation
    → (clean ≡ ok tt) × (a ≡ false) × (b ≡ false) × (c ≡ false) × (seen ≡ attestation)
preflight_tests hold clean a b c seen attestation h = ground arith

check_preflight-parts :
    (bundle : Bundle) (attestation : Attestation)
    → check_preflight bundle ≡ ok attestation
    → (r : Replay) × (events : List Fields) × (replay_bundle bundle ≡ ok (r, attestation, events))
      × (require_clean_snapshot bundle.snapshot r ≡ ok tt)
      × (r.reapproval_required ≡ false)
      × (is_blocked r.lifecycle ≡ false)
      × (is_terminal r.lifecycle ≡ false)
unfolding check_preflight
check_preflight-parts bundle attestation h =
    let (triple, replayed, rest) = >>=-eq-ok (replay_bundle bundle) _ h in
    let (r, seen, events) = triple in
    let (clean, approved, unblocked, running, same) =
      preflight_tests bundle.dependencies_hold (require_clean_snapshot bundle.snapshot r)
        r.reapproval_required (is_blocked r.lifecycle) (is_terminal r.lifecycle) seen attestation
        rest in
    (r, events, replayed ∙ ap (λ a. ok (r, a, events)) same, clean, approved, unblocked, running)

-- A transition is let through only for a task in progress that has no active stage and needs no new
-- approval, and whose snapshot is the replayed state or not there before the first event.
pub check_transition-accepts :
    (bundle : Bundle) (attestation : Attestation)
    → check_transition bundle ≡ ok attestation
    → (r : Replay) × (events : List Fields) × (replay_bundle bundle ≡ ok (r, attestation, events))
      × IsClean bundle.snapshot r
      × (r.reapproval_required ≡ false)
      × (r.current_stage_id ≡ none)
      × (is_in_progress r.lifecycle ≡ true)
unfolding check_transition
check_transition-accepts bundle attestation h =
    let (seen, preflight, rest) = >>=-eq-ok (check_preflight bundle) _ h in
    let (r, events, replayed, clean, approved, unblocked, running) =
      check_preflight-parts bundle seen preflight in
    let again = rw replayed at rest in
    let (idle, started, same) = last_tests r seen attestation again in
    (
      r,
      events,
      rw same at replayed,
      require_clean_snapshot-IsClean bundle.snapshot r clean,
      approved,
      idle,
      progress r unblocked running started,
    )
  where
    last_tests :
        (r : Replay) (seen attestation : Attestation)
        → (require (not (given r.current_stage_id)) run_state_stage_active
            >> (require (not (is_approved r.lifecycle)) run_state_not_started >> ok seen))
          ≡ ok attestation
        → (r.current_stage_id ≡ none) × (is_approved r.lifecycle ≡ false) × (seen ≡ attestation)
    last_tests r seen attestation h = ground arith

    progress :
        (r : Replay)
        → is_blocked r.lifecycle ≡ false
        → is_terminal r.lifecycle ≡ false
        → is_approved r.lifecycle ≡ false
        → is_in_progress r.lifecycle ≡ true
    progress r a b c = ground arith

last_test :
    (b : Bool) (seen attestation : Attestation)
    → (require (not b) task_pointer_not_closed >> ok seen) ≡ ok attestation
    → (b ≡ false) × (seen ≡ attestation)
last_test true seen attestation h = cc
last_test false seen attestation h = (refl, ok-injective h)

finished_parts :
    (contract : Contract) (r : Replay) (review : ReviewRecord)
    → check_finished contract r ≡ ok review
    → (is_completed r.lifecycle ≡ true)
      × (is_empty r.remaining_stage_ids ≡ true)
      × (subset (expected_stages contract) (covered_stages r) ≡ true)
      × (r.final_review ≡ some review)
unfolding check_finished
finished_parts contract r review h = ground arith

-- the commits of the ledger are those that the contract expects, or none where none is authorized
abbrev pub CommitsHold : Contract → Bool → List Fields → Type 0
CommitsHold contract true events = commit_evidence_gaps contract events ≡ ([], false)
CommitsHold contract false events = any is_commit events ≡ false

check_commits-CommitsHold :
    (contract : Contract) (authorized : Bool) (events : List Fields)
    → check_commits contract authorized events ≡ ok tt
    → CommitsHold contract authorized events
unfolding check_commits
check_commits-CommitsHold contract true events h =
    both (commit_evidence_gaps contract events) (any is_commit events) h
  where
    both :
        (gaps : List String × Bool) (b : Bool)
        → (require (not b || true) attestation_commit_denied
            >> require
                (not true || (is_empty gaps.0 && not gaps.1))
                run_state_commit_evidence_missing)
          ≡ ok tt
        → gaps ≡ ([], false)
    both ([], false) b h = refl
    both ([], true) b h = absurd (ground arith)
    both (s ∷ l, f) b h = absurd (ground arith)
check_commits-CommitsHold contract false events h = ground arith

-- The final gate lets a bundle pass only if its replayed task is completed with no stage left, every
-- stage of the contract has a passed review or was carried over, the snapshot is the replayed state
-- (or missing, without an event), the review gate holds for the final review, the commit evidence is what the
-- authorization asks for, and the active-task pointer does not point at the bundle.
pub check_final-accepts :
    (bundle : Bundle) (attestation : Attestation)
    → check_final bundle ≡ ok attestation
    → (r : Replay) × (events : List Fields) × (review : ReviewRecord) × (replay_bundle bundle
        ≡ ok (r, attestation, events))
      × IsClean bundle.snapshot r
      × (is_completed r.lifecycle ≡ true)
      × (is_empty r.remaining_stage_ids ≡ true)
      × (subset (expected_stages bundle.contract) (covered_stages r) ≡ true)
      × (r.final_review ≡ some review)
      × (bundle.review_gate review
            (any (λ event. is_commit event && is_none (get "stage_id" event)) events)
          ≡ ok tt)
      × CommitsHold bundle.contract attestation.commit_authorized events
      × (bundle.pointer_targets_bundle ≡ ok false)
unfolding check_final
check_final-accepts bundle attestation h =
    let (triple, replayed, h0) = >>=-eq-ok (replay_bundle bundle) _ h in
    let (r, seen, events) = triple in
    let (_, _, h1) = >>=-eq-ok bundle.dependencies_hold _ h0 in
    let (_, clean, h2) = >>=-eq-ok (require_clean_snapshot bundle.snapshot r) _ h1 in
    let (review, finished, h3) = >>=-eq-ok (check_finished bundle.contract r) _ h2 in
    let (_, gate, h4) = >>=-eq-ok (bundle.review_gate review _) _ h3 in
    let (_, commits, h5) =
      >>=-eq-ok (check_commits bundle.contract seen.commit_authorized events) _ h4 in
    let (b, targets, h6) = >>=-eq-ok bundle.pointer_targets_bundle _ h5 in
    let (closed, same) = last_test b seen attestation h6 in
    let (done, empty, covered, held) = finished_parts bundle.contract r review finished in
    (
      r,
      events,
      review,
      replayed ∙ ap (λ a. ok (r, a, events)) same,
      require_clean_snapshot-IsClean bundle.snapshot r clean,
      done,
      empty,
      covered,
      held,
      gate,
      subst (λ a. CommitsHold bundle.contract a.commit_authorized events) same
          (check_commits-CommitsHold bundle.contract seen.commit_authorized events commits),
      targets ∙ ap ok closed,
    )
