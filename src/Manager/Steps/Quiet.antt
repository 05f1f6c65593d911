-- ===== src/Manager/Steps/Quiet.antt =====
-- state.py: the quiet state behind the intake fence of a conditional operation.
use dev_skills.Base.{
  ℕ, Bool, true, false, none, some, String, [], ◌∷◌, ◌==◌, ◌≡◌, refl, sym, arith, ◌⊎◌, inl, inr,
  is_empty, Dict, subst, ap, ◌∙◌, lookup, lookup-insert, Bool-cases, Option-cases,
}
use dev_skills.Manager.Errors.{ok}
use dev_skills.Manager.State.{is_active, Run, Session, is_live, State, Fence}
use dev_skills.Manager.Runs.{update, updated, Change, changed_run}
use dev_skills.Manager.Runs.Commits.{IsSound, reserve_parts, update_parts}
use dev_skills.Manager.Runs.Finalizers.{claim_parts, commit_parts, commit_change, last_status}
use dev_skills.Manager.Fence.{
  chosen_keys, active_run_keys, active_session_ids, install_intake_fence,
}
use dev_skills.Manager.Steps.{
  Step, Steps, done, then_step, Step-IsSound, reserving, updating, claiming, committing, fencing,
  unfencing, opening, changing, dropping, clear_parts, open_parts,
}

-- Behind a fence no run is active, and no session is live.
pub record IsQuiet (state : State) : Type 0 where
  pub fenced : (fence : Fence) × (state.intake_fence ≡ some fence)
  pub no_run :
      (key : String) (run : Run)
      → lookup key state.processes ≡ some run
      → is_active run.status ≡ false
  pub no_session :
      (id : String) (session : Session)
      → lookup id state.sessions ≡ some session
      → is_live session.state ≡ false

none_chosen {ℓ} :
    {V : Type ℓ} (p : V → Bool) (d : Dict V)
    → is_empty (chosen_keys p d) ≡ true
    → (key : String) (v : V) → lookup key d ≡ some v
    → p v ≡ false
unfolding lookup
none_chosen p [] h key v e = absurd (cc)
none_chosen p ((k, w) ∷ d) h key v e = elim (Bool-cases (p w)) [
  | inl q ↦ absurd (ground arith)
  | inr q ↦ elim (Bool-cases (k == key)) [
    | inl r ↦ let same : w ≡ v = ground arith in subst (λ (x : _). p x ≡ false) same q
    | inr r ↦ none_chosen p d (ground arith) key v (ground arith)
  ]
]

-- A fence that a conditional operation installs on a state without one makes it quiet.
pub install_intake_fence-IsQuiet :
    (state after : State) (operation_id kind : String) (generation : ℕ) (now : ℕ) (fence : Fence)
    → state.intake_fence ≡ none
    → install_intake_fence state operation_id kind generation true now ≡ ok (after, fence)
    → IsQuiet after
unfolding install_intake_fence active_run_keys active_session_ids
install_intake_fence-IsQuiet state after operation_id kind generation now fence e h =
    let idle : (is_empty (active_run_keys state) ≡ true)
        × (is_empty (active_session_ids state) ≡ true)
        × (after ≡ record state { intake_fence = some fence }) =
      ground arith in
    subst IsQuiet (sym idle.2) (record {
      fenced = (fence, refl);
      no_run = none_chosen (λ (run : Run). is_active run.status) state.processes idle.0;
      no_session = none_chosen (λ (session : Session). is_live session.state) state.sessions idle.1;
    })

fenced_again :
    (state after : State) (operation_id kind : String) (generation : ℕ) (idle : Bool) (now : ℕ)
    (fence : Fence)
    → IsQuiet state
    → install_intake_fence state operation_id kind generation idle now ≡ ok (after, fence)
    → IsQuiet after
unfolding install_intake_fence
fenced_again state after operation_id kind generation idle now fence q h =
    let (there, e) = q.fenced in
    let same : after ≡ state = ground arith in subst IsQuiet (sym same) q

-- an update of an ended run to an ended status
ended_again :
    (state after : State) (key status : String) (change : Change) (now : ℕ) (old new : Run)
    → IsQuiet state
    → lookup key state.processes ≡ some old
    → is_active status ≡ false
    → update state key status change now ≡ ok (after, new)
    → IsQuiet after
ended_again state after key status change now old new q found ended h =
    let (run, sessions, there, _, _, left, made, result) =
      update_parts state after key status change now new h in
    let idle = q.no_run key run there in
    let same : sessions ≡ state.sessions = ground arith in
    let stored = changed_run run status change now in
    let whole : after ≡ updated state key run stored change.clear_active state.sessions =
      result
      ∙ ap (λ (r : Run). updated state key run r change.clear_active sessions) made
      ∙ ap (λ (d : Dict Session). updated state key run stored change.clear_active d) same in
    subst IsQuiet (sym whole) (record {
      fenced = q.fenced;
      no_run = λ k r p. elim (Bool-cases (key == k)) [
        | inl e ↦
            let is : stored ≡ r = ground (arith, lookup-insert k key stored state.processes) in
            subst (λ (x : Run). is_active x.status ≡ false) is ended
        | inr e ↦ q.no_run k r (ground (arith, lookup-insert k key stored state.processes))
      ];
      no_session = q.no_session;
    })

-- A commit on a sound quiet state keeps it quiet, unless it takes the fence away.
pub Step-IsQuiet :
    (state after : State)
    → IsSound state
    → IsQuiet state
    → Step state after
    → IsQuiet after ⊎ (after.intake_fence ≡ none)
Step-IsQuiet state after s q
      (reserving m fits _ _ service run_id instance_id owner expected run fresh h) =
    let parts = reserve_parts m fits state after service run_id instance_id owner expected run h in
    absurd (ground (arith, parts.1, q.fenced.1))
Step-IsQuiet state after s q (updating _ _ key status change now old new found a b h) =
    elim (Bool-cases (is_active status)) [
      | inl live ↦ absurd (ground (arith, q.no_run key old found, a live))
      | inr ended ↦ inl (ended_again state after key status change now old new q found ended h)
    ]
Step-IsQuiet state after s q
      (claiming _ _ key reason instance_id seconds inspected claim_id now new h) =
    let (run, found, cases) =
      claim_parts state after key reason instance_id seconds inspected claim_id now new h in
    elim cases [
      | inl (same, e, own) ↦ inl (subst IsQuiet (sym same) q)
      | inr (a, free, changed) ↦ absurd (ground (arith, q.no_run key run found))
    ]
Step-IsQuiet state after s q (committing _ _ key terminal_status result claim_id others now new h) =
    let (status, changed) =
      commit_parts state after key terminal_status result claim_id others now new h in
    let parts =
      update_parts state after key (last_status result terminal_status)
        (commit_change result claim_id others now) now new changed in
    elim (Option-cases (parts.0).cleanup_claim) [
      | inl e ↦ absurd (ground (arith, parts.4))
      | inr (claim, e) ↦ absurd (
          ground
            (arith, q.no_run key parts.0 parts.2, s.claimed_active key parts.0 claim parts.2 e))
    ]
Step-IsQuiet state after s q (fencing _ _ operation_id kind generation idle now fence h) =
    inl (fenced_again state after operation_id kind generation idle now fence q h)
Step-IsQuiet state after s q (unfencing _ _ operation_id h) =
    elim (clear_parts state after operation_id h) [
      | inl e ↦ inl (subst IsQuiet (sym e) q)
      | inr e ↦ inr (ap (λ (x : State). x.intake_fence) e)
    ]
Step-IsQuiet state after s q
      (opening self max_open max_records fits _ _ deadlines later kind ttl_seconds holder id clock
        session free h) =
    let parts =
      open_parts self max_open max_records fits state after deadlines later kind ttl_seconds holder
        id clock session h in
    absurd (ground (arith, parts.1, q.fenced.1))
Step-IsQuiet state after s q (changing _ old new delta held e was live) =
    absurd (ground (arith, q.no_session new.session_id old held))
Step-IsQuiet state after s q (dropping _ id old sessions tombstones generation held idle drops) =
    inl (record {
      fenced = q.fenced;
      no_run = q.no_run;
      no_session = λ i session p. q.no_session i session (ground (arith, drops i));
    })

-- Commits on a sound quiet state keep it quiet until one of them takes the fence away: either the
-- last state is quiet, or the state was without a fence on the way to it.
-- New runs and sessions have unused names, an update outside the finalization makes no ended run
-- active and ends a run together with its index and its claim, and a session changes only while it
-- is live.
pub Steps-IsQuiet :
    (state after : State)
    → Steps state after
    → IsSound state
    → IsQuiet state
    → IsQuiet after
      ⊎ ((middle : State) × Steps state middle × Steps middle after × (middle.intake_fence ≡ none))
Steps-IsQuiet state after (done _) s q = inl q
Steps-IsQuiet state after (then_step _ next _ one rest) s q =
    elim (Step-IsQuiet state next s q one) [
      | inr e ↦ inr (next, then_step state next next one (done next), rest, e)
      | inl still ↦ elim (Steps-IsQuiet next after rest (Step-IsSound state next one s) still) [
        | inl last ↦ inl last
        | inr (middle, before, behind, e) ↦
            inr (middle, then_step state next middle one before, behind, e)
      ]
    ]
