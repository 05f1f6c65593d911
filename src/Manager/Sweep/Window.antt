-- ===== src/Manager/Sweep/Window.antt =====
-- sessions.py: a sweep is bounded.
use dev_skills.Base.{
  ℕ, zero, suc, ◌+◌, ◌-◌, ◌≤◌, false, Option, none, some, String, List, [], ◌∷◌, ◌++◌, length, mem,
  lookup, keys, ap, ◌∙◌, sorted, ◌≡◌, refl, arith, inl, inr, Option-cases, eq_refl, eq_iff,
}
use dev_skills.Manager.Errors.{Error, Fallible-cases}
use dev_skills.Manager.Leases.{
  Clock, Identity, Controller, find_session, expiry_reason, expire_session,
}
use dev_skills.Manager.Closing.{Finalizer, Governor, finalize_session}
use dev_skills.Manager.Sweep.{
  last, take, drop, start_of, window, Sweeper, record_error, candidates, finish_one, sweep_one,
  sweep_all, sweep_once,
}

length-append {ℓ} : {A : Type ℓ} (l m : List A) → length (l ++ m) ≡ length l + length m
length-append [] m = ground arith
length-append (x ∷ l) m = ground (arith, length-append l m)

length-take {ℓ} : {A : Type ℓ} (n : ℕ) (l : List A) → length (take n l) ≤ n
length-take zero l = omega arith
length-take (suc n) [] = omega arith
length-take (suc n) (x ∷ l) = ground (arith, length-take n l)

length-drop {ℓ} : {A : Type ℓ} (n : ℕ) (l : List A) → length (drop n l) ≡ length l - n
length-drop zero l = ground arith
length-drop (suc n) [] = ground arith
length-drop (suc n) (x ∷ l) = ground (arith, length-drop n l)

candidates_bounded :
    (self : Identity) (c : Controller) (clock : Clock) (ids : List String)
    → length (candidates self c clock ids) ≤ length ids
unfolding candidates
candidates_bounded self c clock [] = omega arith
candidates_bounded self c clock (id ∷ ids) = elim (Option-cases (lookup id c.state.sessions)) [
  | inl e ↦ ground (arith, candidates_bounded self c clock ids)
  | inr (session, e) ↦ elim (Option-cases (expiry_reason self c.deadlines session clock)) [
    | inl f ↦ ground (arith, candidates_bounded self c clock ids)
    | inr (r, f) ↦ ground (arith, candidates_bounded self c clock ids)
  ]
]

record_error_bounded :
    (sweeper : Sweeper) (id : String) (error : Error)
    → length (record_error sweeper id error).errors ≤ 16
unfolding record_error
record_error_bounded sweeper id error = ground (
  arith,
  length-drop (length (sweeper.errors ++ (id, error) ∷ []) - 16)
      (sweeper.errors ++ (id, error) ∷ []),
)

module _ (finalize_record : Finalizer) (governor : Governor) (now : ℕ) where
  finish_one_bounded :
      (sweeper : Sweeper) (id : String)
      → length sweeper.errors ≤ 16
      → (length (finish_one finalize_record governor sweeper id now).0.errors ≤ 16)
        × (length (finish_one finalize_record governor sweeper id now).1 ≤ 1)
  unfolding finish_one
  finish_one_bounded sweeper id h =
      let step = finalize_session finalize_record governor sweeper.controller.state id now in
      let next : Sweeper = record sweeper {
        controller = record sweeper.controller { state = step.0 };
      } in
      elim (Fallible-cases step.1) [
        | inl (t, e) ↦ ground arith
        | inr (error, e) ↦ ground (arith, record_error_bounded next id error)
      ]

  sweep_one_bounded :
      (self : Identity) (clock : Clock) (sweeper : Sweeper) (one : String × Option String)
      → length sweeper.errors ≤ 16
      → (length (sweep_one self finalize_record governor clock now sweeper one).0.errors ≤ 16)
        × (length (sweep_one self finalize_record governor clock now sweeper one).1 ≤ 1)
  unfolding sweep_one
  sweep_one_bounded self clock sweeper (id, none) h = finish_one_bounded sweeper id h
  sweep_one_bounded self clock sweeper (id, some reason) h =
      elim (Fallible-cases (find_session sweeper.controller.state id)) [
        | inr (error, e) ↦ ground (arith, record_error_bounded sweeper id error)
        | inl (session, e) ↦
            elim (Option-cases (expiry_reason self sweeper.controller.deadlines session clock)) [
              | inl f ↦ ground (arith, finish_one_bounded sweeper id)
              | inr (current, f) ↦
                  let next : Sweeper = record sweeper {
                    controller = expire_session sweeper.controller session current;
                  } in
                  ground (arith, finish_one_bounded sweeper id, finish_one_bounded next id)
            ]
      ]

  sweep_all_bounded :
      (self : Identity) (clocks : String → Clock) (sweeper : Sweeper)
      (chosen : List (String × Option String))
      → length sweeper.errors ≤ 16
      → (length (sweep_all self finalize_record governor clocks now sweeper chosen).0.errors ≤ 16)
        × (length (sweep_all self finalize_record governor clocks now sweeper chosen).1
            ≤ length chosen)
  unfolding sweep_all
  sweep_all_bounded self clocks sweeper [] h = (h, omega arith)
  sweep_all_bounded self clocks sweeper (one ∷ rest) h =
      let first = sweep_one self finalize_record governor (clocks one.0) now sweeper one in
      let (fewer, single) = sweep_one_bounded self (clocks one.0) sweeper one h in
      let others = sweep_all_bounded self clocks first.0 rest fewer in
      (
        others.0,
        omega (
          arith,
          length-append first.1 (sweep_all self finalize_record governor clocks now first.0 rest).1,
          single,
          others.1,
        ),
      )

  -- One sweep with at most sixteen noted errors processes no more sessions than its batch, closes
  -- no more than it processes, and leaves at most sixteen noted errors.
  pub sweep_once_bounded :
      (self : Identity) (sweep_batch : ℕ) (clock : Clock) (clocks : String → Clock)
      (sweeper : Sweeper)
      → length sweeper.errors ≤ 16
      → ((sweep_once self finalize_record governor sweep_batch clock clocks now sweeper).1
          ≤ sweep_batch)
        × (length (sweep_once self finalize_record governor sweep_batch clock clocks now sweeper).2
            ≤ (sweep_once self finalize_record governor sweep_batch clock clocks now sweeper).1)
        × (length
              (sweep_once self finalize_record governor sweep_batch clock clocks now
                sweeper).0.errors
            ≤ 16)
  unfolding sweep_once window
  sweep_once_bounded self sweep_batch clock clocks sweeper h =
      let ids = sorted (keys sweeper.controller.state.sessions) in
      let start = start_of sweeper.cursor ids in
      let inspected = window sweep_batch sweeper.cursor ids in
      let chosen = candidates self sweeper.controller clock inspected in
      let few : length chosen ≤ sweep_batch = omega (
        arith,
        candidates_bounded self sweeper.controller clock inspected,
        length-take sweep_batch (drop start ids ++ take start ids),
      ) in
      let done =
        sweep_all_bounded self clocks (record sweeper { cursor = last inspected }) chosen h in
      (few, done.1, done.0)

start_of-append :
    (cursor : String) (a b : List String)
    → mem cursor a ≡ false
    → start_of (some cursor) (a ++ cursor ∷ b) ≡ suc (length a)
unfolding mem
start_of-append cursor [] b h = ground (arith, eq_refl cursor)
start_of-append cursor (x ∷ a) b h = ground (arith, start_of-append cursor a b, eq_iff x cursor)

take-append {ℓ} :
    {A : Type ℓ} (a : List A) (c : A) (b : List A)
    → take (suc (length a)) (a ++ c ∷ b) ≡ a ++ c ∷ []
take-append [] c b = refl
take-append (x ∷ a) c b = ap (λ (l : List _). x ∷ l) (take-append a c b)

drop-append {ℓ} :
    {A : Type ℓ} (a : List A) (c : A) (b : List A) → drop (suc (length a)) (a ++ c ∷ b) ≡ b
drop-append [] c b = refl
drop-append (x ∷ a) c b = drop-append a c b

-- The window goes on right behind the session at which the last one stopped, and comes back to the
-- beginning after the last session: with `a` before that session, which is not in `a`, and `b`
-- behind it, the window is the beginning of `b`, then `a`, then the session itself.
pub window_resumes :
    (sweep_batch : ℕ) (cursor : String) (a b : List String)
    → mem cursor a ≡ false
    → window sweep_batch (some cursor) (a ++ cursor ∷ b)
      ≡ take sweep_batch (b ++ (a ++ cursor ∷ []))
unfolding window
window_resumes sweep_batch cursor a b h =
    let ids = a ++ cursor ∷ b in
    ap (λ n. take sweep_batch (drop n ids ++ take n ids)) (start_of-append cursor a b h)
    ∙ ap (λ (l : List String). take sweep_batch (l ++ take (suc (length a)) ids))
        (drop-append a cursor b)
    ∙ ap (λ (l : List String). take sweep_batch (b ++ l)) (take-append a cursor b)
