-- ===== src/Manager/Runs/Finalizers.antt =====
-- state.py: `StateStore.claim_finalization` and `commit_finalization`.
use dev_skills.Base.{
  ◌&&◌, ℕ, ◌+◌, Bool, true, false, not, ◌||◌, Option, none, some, String, ◌≡◌, ◌≢◌, refl, sym,
  arith, ◌⊎◌, inl, inr, if◌then◌else◌, mem, subst, ap, ◌∙◌, lookup, lookup-insert, eq_refl,
  Bool-cases, Option-cases,
}
use dev_skills.Manager.Errors.{ok, >>=-eq-ok, require_some}
use dev_skills.Manager.State.{is_active, Public, Run, Session, State}
use dev_skills.Manager.Runs.{
  update, Change, claim_finalization, commit_finalization, Finalization, is_complete,
  claimed_public, finalized_public, claim_time, is_held, is_own,
}
use dev_skills.Manager.Runs.Commits.{IsSound, update-IsSound, update_parts}

-- the change of a run that is claimed
abbrev pub claim_change : Run → String → String → ℕ → String → ℕ → Change
claim_change run reason manager_instance_id seconds claim_id now = record {
  publish = claimed_public reason;
  claim = some (
      some (record {
        claim_id = claim_id;
        manager_instance_id = manager_instance_id;
        claimed_at = now;
        deadline_at = now + claim_time seconds;
      }));
  clear_active = false;
  expected_revision = some run.revision;
  expected_claim = none;
}

terminating_active : is_active "terminating" ≡ true
unfolding is_active mem
terminating_active = refl

pub claim_parts :
    (state after : State) (key reason manager_instance_id : String) (seconds : ℕ) (inspected : Bool)
    (claim_id : String) (now : ℕ) (new : Run)
    → claim_finalization state key reason manager_instance_id seconds inspected claim_id now
      ≡ ok (after, new)
    → (run : Run) × (lookup key state.processes ≡ some run)
      × (((after ≡ state)
            × (new ≡ run)
            × ((not (is_active run.status) || is_own run.cleanup_claim manager_instance_id now)
                ≡ true))
          ⊎ ((is_active run.status ≡ true)
              × (is_held run.cleanup_claim now inspected ≡ false)
              × (update state key "terminating"
                    (claim_change run reason manager_instance_id seconds claim_id now)
                    now
                  ≡ ok (after, new))))
unfolding claim_finalization
claim_parts state after key reason instance_id seconds inspected claim_id now new h =
    let (run, found, rest) = >>=-eq-ok (require_some (lookup key state.processes) _) _ h in
    (
      run,
      ground arith,
      elim (Bool-cases (not (is_active run.status) || is_own run.cleanup_claim instance_id now)) [
        | inl e ↦ inl (ground arith, ground arith, e)
        | inr e ↦ inr (ground arith, ground arith, ground arith)
      ],
    )

pub claim_finalization-IsSound :
    (state after : State) (key reason manager_instance_id : String) (seconds : ℕ) (inspected : Bool)
    (claim_id : String) (now : ℕ) (new : Run)
    → IsSound state
    → claim_finalization state key reason manager_instance_id seconds inspected claim_id now
      ≡ ok (after, new)
    → IsSound after
claim_finalization-IsSound state after key reason instance_id seconds inspected claim_id now new s
      h =
    let (run, found, cases) =
      claim_parts state after key reason instance_id seconds inspected claim_id now new h in
    elim cases [
      | inl (same, e, own) ↦ subst IsSound (sym same) s
      | inr (a, free, changed) ↦
          update-IsSound state after key "terminating"
            (claim_change run reason instance_id seconds claim_id now) now new s
            (λ r p q t.
              subst (λ (o : Option Run). (x : Run) → o ≡ some x → is_active x.status ≡ true)
                (sym found) (λ x e. ground arith) r p)
            (λ e. absurd (ground (arith, terminating_active)))
            (λ e. absurd (ground (arith, terminating_active))) changed
    ]

-- the change of a finalization that is committed
abbrev pub commit_change : Finalization → String → (Public → Public) → ℕ → Change
commit_change result claim_id others now = record {
  publish = λ published. finalized_public result now (others published);
  claim = some none;
  clear_active = is_complete result;
  expected_revision = none;
  expected_claim = some claim_id;
}

abbrev pub last_status : Finalization → String → String
last_status result terminal_status = if is_complete result then terminal_status else "terminating"

pub commit_parts :
    (state after : State) (key terminal_status : String) (result : Finalization) (claim_id : String)
    (others : Public → Public) (now : ℕ) (new : Run)
    → commit_finalization state key terminal_status result claim_id others now ≡ ok (after, new)
    → (is_active (last_status result terminal_status) ≡ not (is_complete result))
      × (update state key
            (last_status result terminal_status)
            (commit_change result claim_id others now)
            now
          ≡ ok (after, new))
unfolding commit_finalization
commit_parts state after key terminal_status result claim_id others now new h =
    ground (arith, terminating_active)

pub commit_finalization-IsSound :
    (state after : State) (key terminal_status : String) (result : Finalization) (claim_id : String)
    (others : Public → Public) (now : ℕ) (new : Run)
    → IsSound state
    → commit_finalization state key terminal_status result claim_id others now ≡ ok (after, new)
    → IsSound after
commit_finalization-IsSound state after key terminal_status result claim_id others now new s h =
    let (status, changed) =
      commit_parts state after key terminal_status result claim_id others now new h in
    update-IsSound state after key (last_status result terminal_status)
      (commit_change result claim_id others now) now new s
      (λ r p q t. elim (Option-cases r.cleanup_claim) [
        | inl e ↦ absurd (ground arith)
        | inr (claim, e) ↦ s.claimed_active key r claim p e
      ])
      (λ e. ground arith) (λ e. refl) changed

-- A finalization that is committed by the holder of the claim gives the claim back. The run ends,
-- and leaves the index of its service and the list of its session, exactly when its owner is
-- empty and its cleanup is verified; otherwise it stays active under its service.
pub commit_finalization-ends :
    (state after : State) (key terminal_status : String) (result : Finalization) (claim_id : String)
    (others : Public → Public) (now : ℕ) (new : Run)
    → IsSound state
    → commit_finalization state key terminal_status result claim_id others now ≡ ok (after, new)
    → (lookup key after.processes ≡ some new)
      × (new.cleanup_claim ≡ none)
      × (is_active new.status ≡ not (result.owner_empty && result.cleanup_verified))
      × ((result.owner_empty && result.cleanup_verified) ≡ true
          → ((service : String) → lookup service after.active ≢ some key)
            × ((id : String) (session : Session)
                → lookup id after.sessions ≡ some session
                → mem key session.run_keys ≡ false))
      × ((result.owner_empty && result.cleanup_verified) ≡ false
          → lookup new.service after.active ≡ some key)
commit_finalization-ends state after key terminal_status result claim_id others now new s h =
    let (status, changed) =
      commit_parts state after key terminal_status result claim_id others now new h in
    let sound =
      commit_finalization-IsSound state after key terminal_status result claim_id others now new s
        h in
    let change = commit_change result claim_id others now in
    let parts =
      update_parts state after key (last_status result terminal_status) change now new changed in
    let stored : lookup key after.processes ≡ some new =
      ap (λ (x : State). lookup key x.processes) parts.7
      ∙ ground (arith, lookup-insert key key new state.processes, eq_refl key) in
    let shown : is_active new.status ≡ not (is_complete result) =
      ap (λ (x : Run). is_active x.status) parts.6 ∙ status in
    (
      stored,
      ap (λ (x : Run). x.cleanup_claim) parts.6,
      shown,
      λ e. (
        λ service p.
            let (r, at, here, a) = sound.consistent.indexed_run service key p in
            let same : r ≡ new = ground arith in
            absurd (ground (arith, subst (λ (x : Run). is_active x.status ≡ true) same a)),
        λ id session p. elim (Bool-cases (mem key session.run_keys)) [
          | inr f ↦ f
          | inl f ↦
              let (r, at, a, o) = sound.consistent.owned_run id session key p f in
              let same : r ≡ new = ground arith in
              absurd (ground (arith, subst (λ (x : Run). is_active x.status ≡ true) same a))
        ],
      ),
      λ e. sound.consistent.run_indexed key new stored (ground arith),
    )
