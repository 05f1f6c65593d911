-- ===== src/Executor/Snapshot/Differences.antt =====
-- harness_state_io.py: `state_differences` finds every difference.
use dev_skills.Base.{
  ℕ, Bool, true, false, Option, none, some, String, List, [], ◌∷◌, ◌==◌, ◌≡◌, refl, sym, ◌∙◌, ap,
  arith, nat_eq, eq→≡, is_empty,
}
use dev_skills.Executor.State.{
  Lifecycle, approved, in_progress, blocked, completed, aborted, RunState,
}
use dev_skills.Executor.Snapshot.{
  same_text, same_texts, same_bool, differing, lifecycle_of, lifecycle_name, state_differences,
}

same_text→≡ : (s t : Option String) → same_text s t ≡ true → s ≡ t
same_text→≡ none none h = refl
same_text→≡ none (some t) h = cc
same_text→≡ (some s) none h = cc
same_text→≡ (some s) (some t) h = ap some (eq→≡ s t h)

same_texts→≡ : (l m : List String) → same_texts l m ≡ true → l ≡ m
unfolding same_texts
same_texts→≡ [] [] h = refl
same_texts→≡ [] (t ∷ m) h = cc
same_texts→≡ (s ∷ l) [] h = cc
same_texts→≡ (s ∷ l) (t ∷ m) h = ground (arith, eq→≡ s t, same_texts→≡ l m)

same_bool→≡ : (a b : Bool) → same_bool a b ≡ true → a ≡ b
same_bool→≡ a b h = ground arith

lifecycle_of-lifecycle_name : (l : Lifecycle) → lifecycle_of (some (lifecycle_name l)) ≡ some l
lifecycle_of-lifecycle_name approved = refl
lifecycle_of-lifecycle_name in_progress = refl
lifecycle_of-lifecycle_name blocked = refl
lifecycle_of-lifecycle_name completed = refl
lifecycle_of-lifecycle_name aborted = refl

lifecycle→≡ : (l m : Lifecycle) → (lifecycle_name l == lifecycle_name m) ≡ true → l ≡ m
lifecycle→≡ l m h = some-injective (
    sym (lifecycle_of-lifecycle_name l)
    ∙ ap (λ s. lifecycle_of (some s)) (eq→≡ (lifecycle_name l) (lifecycle_name m) h)
    ∙ lifecycle_of-lifecycle_name m)
  where
    some-injective : {a b : Lifecycle} → some a ≡ some b → a ≡ b
    some-injective e = cc

differing_nil :
    (name : String) (b : Bool) (rest : List String)
    → is_empty (differing name b rest) ≡ true
    → (b ≡ true) × (is_empty rest ≡ true)
differing_nil name true rest h = (refl, h)
differing_nil name false rest h = cc

-- A snapshot without a difference is the state it is compared with.
pub state_differences-nil :
    (s t : RunState) → is_empty (state_differences (some s) t) ≡ true → s ≡ t
unfolding state_differences
state_differences-nil s t h0 =
    let (completed_same, h1) = differing_nil _ _ _ h0 in
    let (current_same, h2) = differing_nil _ _ _ h1 in
    let (seq_same, h3) = differing_nil _ _ _ h2 in
    let (lifecycle_same, h4) = differing_nil _ _ _ h3 in
    let (next_same, h5) = differing_nil _ _ _ h4 in
    let (plan_same, h6) = differing_nil _ _ _ h5 in
    let (reapproval_same, h7) = differing_nil _ _ _ h6 in
    let (remaining_same, h8) = differing_nil _ _ _ h7 in
    let (revision_same, h9) = differing_nil _ _ _ h8 in
    let (stop_same, h10) = differing_nil _ _ _ h9 in
    let (task_same, h11) = differing_nil _ _ _ h10 in
    let (updated_same, _) = differing_nil _ _ _ h11 in
    same_fields
      (
        same_texts→≡ _ _ completed_same,
        same_text→≡ _ _ current_same,
        nat_eq→≡ _ _ seq_same,
        lifecycle→≡ _ _ lifecycle_same,
      )
      (
        same_text→≡ _ _ next_same,
        nat_eq→≡ _ _ plan_same,
        same_bool→≡ _ _ reapproval_same,
        same_texts→≡ _ _ remaining_same,
      )
      (
        nat_eq→≡ _ _ revision_same,
        same_text→≡ _ _ stop_same,
        eq→≡ _ _ task_same,
        same_text→≡ _ _ updated_same,
      )
  where
    nat_eq→≡ : (m n : ℕ) → nat_eq m n ≡ true → m ≡ n
    nat_eq→≡ m n h = ground arith

    same_fields :
        (s.completed_stage_ids ≡ t.completed_stage_ids)
          × (s.current_stage_id ≡ t.current_stage_id)
          × (s.last_event_seq ≡ t.last_event_seq)
          × (s.lifecycle ≡ t.lifecycle)
        → (s.next_action ≡ t.next_action)
          × (s.plan_revision ≡ t.plan_revision)
          × (s.reapproval_required ≡ t.reapproval_required)
          × (s.remaining_stage_ids ≡ t.remaining_stage_ids)
        → (s.state_revision ≡ t.state_revision)
          × (s.stop_condition ≡ t.stop_condition)
          × (s.task_id ≡ t.task_id)
          × (s.updated_at ≡ t.updated_at)
        → s ≡ t
    same_fields a b c = ground arith
