-- ===== src/Executor/Gate/Repairs.antt =====
-- harness_execution.py, `reconcile_snapshot`: the snapshot after a repair.
use dev_skills.Base.{
  Bool, true, false, Option, none, some, String, List, [], ◌∷◌, ◌==◌, ◌≡◌, refl, ap, subst, sym,
  arith, any, is_empty, mem, mem_head, mem_of_tail, distinct, without, mem-without, Bool-cases, ◌⊎◌,
  inl, inr, Fields, Dict,
}
use dev_skills.Executor.Errors.{
  Result, ok, err, state_error, type_error, key_error, out_of_fuel, >>=-eq-ok,
}
use dev_skills.Executor.Contract.{Stage, stage_definitions, stage_order}
use dev_skills.Executor.Contract.Acyclic.{stage_definitions-distinct, stage_order-IsOrder}
use dev_skills.Executor.State.{RunState, Replay}
use dev_skills.Executor.Ledger.{replay_events}
use dev_skills.Executor.Ledger.Progress.{Progress}
use dev_skills.Executor.Ledger.Reached.{replay_events-Progress}
use dev_skills.Executor.Snapshot.{File, holding, state_json, load_state, state_differences}
use dev_skills.Executor.Snapshot.Differences.{state_differences-nil}
use dev_skills.Executor.Snapshot.Roundtrip.{load_state-state_json}
use dev_skills.Executor.Gate.{Attestation, Bundle, replay_bundle, reconcile_snapshot, repair}

distinct-without : (ks l : List String) → distinct l ≡ true → distinct (without ks l) ≡ true
unfolding distinct without
distinct-without ks [] d = refl
distinct-without ks (x ∷ l) d = ground (arith, distinct-without ks l, mem-without x ks l)

none_shared :
    (ks c l : List String)
    → ((x : String) → mem x c ≡ true → mem x ks ≡ true)
    → any (λ x. mem x (without ks l)) c ≡ false
unfolding mem
none_shared ks [] l h = refl
none_shared ks (x ∷ c) l h = ground (
  arith,
  mem-without x ks l,
  h x (mem_head x c),
  none_shared ks c l (λ y m. h y (mem_of_tail y x c m)),
)

-- a replayed state with a task id loads back from its snapshot
Progress-loads :
    (definitions : Dict Stage) (order : List String) (r : Replay)
    → Progress definitions order r
    → distinct order ≡ true
    → (r.task_id == "") ≡ false
    → load_state (holding (state_json r.state)) ≡ ok (some r.state)
Progress-loads definitions order r p once named =
    load_state-state_json r.state named p.unique
      (subst (λ l. distinct l ≡ true) (sym p.partition)
        (distinct-without r.completed_stage_ids order once))
      (subst (λ l. any (λ x. mem x l) r.completed_stage_ids ≡ false) (sym p.partition)
        (none_shared r.completed_stage_ids r.completed_stage_ids order (λ x m. m)))

-- the end of the repair: the file was written, or it already held the state
outcome :
    (m : Result (Option RunState)) (t : RunState) (before file : File) (written : Bool)
    → repair m t before ≡ ok (file, written)
    → (file ≡ holding (state_json t)) ⊎ ((file ≡ before) × (m ≡ ok (some t)))
outcome (err type_error) t before file written h = cc
outcome (err key_error) t before file written h = cc
outcome (err out_of_fuel) t before file written h = cc
outcome (err (state_error code)) t before file written h =
    elim (Bool-cases (is_empty (state_differences none t))) [
      | inl empty ↦ inl (ground arith)
      | inr differs ↦ inl (ground arith)
    ]
outcome (ok none) t before file written h =
    let absent : is_empty (state_differences none t) ≡ false = unfold state_differences in refl in
    inl (ground arith)
outcome (ok (some s)) t before file written h =
    elim (Bool-cases (is_empty (state_differences (some s) t))) [
      | inl empty ↦ inr (ground arith, ap (λ u. ok (some u)) (state_differences-nil s t empty))
      | inr differs ↦ inl (ground arith)
    ]

module _ (bundle : Bundle) (definitions : Dict Stage) (order : List String)
    (defined : stage_definitions bundle.contract ≡ ok definitions)
    (ordered : stage_order definitions ≡ ok order) (attestation : Attestation)
    (events : List Fields) (r : Replay)
    (replayed : replay_bundle bundle ≡ ok (r, attestation, events)) where
  bundle_replay : replay_events bundle.contract events (some attestation.approved_at) ≡ ok r
  unfolding replay_bundle
  bundle_replay =
      let (a, _, h0) = >>=-eq-ok bundle.attestation _ replayed in
      let (l, _, h1) = >>=-eq-ok bundle.ledger _ h0 in
      let (s, found, h2) = >>=-eq-ok (replay_events bundle.contract l (some a.approved_at)) _ h1 in
      ground arith

  -- After a repair that returns, for a task with an id, the snapshot loads as the state of the
  -- ledger, whatever the snapshot was before: missing, unreadable, or different.
  pub reconcile_snapshot-loads :
      (file : File) (written : Bool)
      → reconcile_snapshot bundle ≡ ok (file, written)
      → (r.task_id == "") ≡ false
      → load_state file ≡ ok (some r.state)
  unfolding reconcile_snapshot
  reconcile_snapshot-loads file written h named =
      let is_order =
        stage_order-IsOrder definitions order
          (stage_definitions-distinct bundle.contract definitions defined) ordered in
      let progress =
        replay_events-Progress bundle.contract definitions order defined ordered events
          (some attestation.approved_at) r bundle_replay in
      let rest = rw replayed at h in
      elim (outcome (load_state bundle.snapshot) r.state bundle.snapshot file written rest) [
        | inl e ↦ rw e (Progress-loads definitions order r progress is_order.once named)
        | inr (e, found) ↦ rw e found
      ]
