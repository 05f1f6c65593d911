-- ===== src/Manager/History/Bounds.antt =====
-- resources.py: what the tombstones keep when one is added.
use Prim.Native.String.{◌++◌ as ◌<>◌}
use dev_skills.Base.{
  ℕ, ◌+◌, ◌-◌, ◌≤◌, Bool, true, false, ◌||◌, Option, some, String, List, [], ◌∷◌, ◌==◌, ltb, length,
  map, mem, Dict, lookup, insert, delete, keys, ◌≡◌, refl, arith, eq_refl, lookup-insert,
  lookup-delete, inl, inr, Bool-cases, eq→≡, subst, ap, ◌∙◌, distinct,
}
use dev_skills.Manager.Errors.{ok}
use dev_skills.Manager.State.{State, Tombstone}
use dev_skills.Manager.History.{
  eligible, may_go, drop_oldest, is_new, trim_tombstones, add_tombstone, place_older,
}

length-insert :
    (id : String) (t : Tombstone) (d : Dict Tombstone)
    → length (insert id t d) ≡ length d + is_new id d
unfolding insert mem
length-insert id t [] = refl
length-insert id t ((k, v) ∷ d) = ground (arith, length-insert id t d)

-- the names of the entries that may go
names : List (ℕ × String) → List String
names [] = []
names ((n, k) ∷ l) = k ∷ names l

names-place_older :
    (x : String) (e : ℕ × String) (l : List (ℕ × String))
    → mem x (names (place_older e l)) ≡ (e.1 == x || mem x (names l))
unfolding names mem
names-place_older x (n, k) [] = ground arith
names-place_older x (n, k) ((m, j) ∷ l) = ground (arith, names-place_older x (n, k) l)

eligible_known :
    (pinned : List String) (incoming : Option String) (x : String) (d : Dict Tombstone)
    → mem x (names (eligible pinned incoming d)) ≡ true
    → mem x (keys d) ≡ true
unfolding eligible names mem
eligible_known pinned incoming x [] h = h
eligible_known pinned incoming x ((k, u) ∷ d) h = ground (
  arith,
  eligible_known pinned incoming x d,
  names-place_older x (u.pruned_at, k) (eligible pinned incoming d),
)

-- What may go passes the test.
eligible-may_go :
    (pinned : List String) (incoming : Option String) (x : String) (t : Tombstone)
    (d : Dict Tombstone)
    → distinct (keys d) ≡ true
    → lookup x d ≡ some t
    → mem x (names (eligible pinned incoming d)) ≡ true
    → may_go pinned incoming x t ≡ true
unfolding eligible names mem distinct lookup
eligible-may_go pinned incoming x t [] o l h = cc
eligible-may_go pinned incoming x t ((k, u) ∷ d) o l h = elim (Bool-cases (k == x)) [
  | inl e ↦
      let same : u ≡ t = ground arith in
      let p : k ≡ x = eq→≡ k x e in
      elim (Bool-cases (may_go pinned incoming k u)) [
        | inl m ↦
            subst (λ (y : String). may_go pinned incoming y t ≡ true) p
              (subst (λ (v : Tombstone). may_go pinned incoming k v ≡ true) same m)
        | inr m ↦
            let n : mem x (names (eligible pinned incoming d)) ≡ true = ground arith in
            let f : mem x (keys d) ≡ false =
              subst (λ (y : String). mem y (keys d) ≡ false) p (ground arith) in
            absurd (ground (arith, eligible_known pinned incoming x d n))
      ]
  | inr e ↦
      eligible-may_go pinned incoming x t d (ground arith) (ground arith)
        (ground (arith, names-place_older x (u.pruned_at, k) (eligible pinned incoming d)))
]

drop_oldest-keeps :
    (target : ℕ) (k : String) (d : Dict Tombstone) (l : List (ℕ × String))
    → mem k (names l) ≡ false
    → lookup k (drop_oldest target d l) ≡ lookup k d
unfolding drop_oldest names mem
drop_oldest-keeps target k d [] h = refl
drop_oldest-keeps target k d ((n, j) ∷ l) h = elim (Bool-cases (ltb target (length d))) [
  | inl e ↦ ground (arith, drop_oldest-keeps target k (delete j d) l, lookup-delete k j d)
  | inr e ↦ ground (arith, drop_oldest-keeps target k d l)
]

add_parts :
    (max_tombstones : ℕ) (fits : Tombstone → Bool) (state : State) (id : String) (t : Tombstone)
    (after : Dict Tombstone)
    → add_tombstone max_tombstones fits state id t ≡ ok after
    → (length (trim_tombstones max_tombstones state (some id))
          + is_new id (trim_tombstones max_tombstones state (some id))
        ≤ max_tombstones)
      × (after ≡ insert id t (trim_tombstones max_tombstones state (some id)))
unfolding add_tombstone
add_parts max_tombstones fits state id t after h = ground arith

-- Tombstones with distinct ids among which a new one was recorded are no more than the limit,
-- and hold the new one; each other that has a retained path, or whose run is being pruned, stays.
pub add_tombstone-bounded :
    (max_tombstones : ℕ) (fits : Tombstone → Bool) (state : State) (id : String) (t : Tombstone)
    (after : Dict Tombstone)
    → distinct (keys state.tombstones) ≡ true
    → add_tombstone max_tombstones fits state id t ≡ ok after
    → (length after ≤ max_tombstones)
      × (lookup id after ≡ some t)
      × ((key : String) (old : Tombstone)
          → lookup key state.tombstones ≡ some old
          → (id == key) ≡ false
          → (old.retained || mem key (map (λ run. "run:" <> run) state.pruning)) ≡ true
          → lookup key after ≡ some old)
unfolding trim_tombstones
add_tombstone-bounded max_tombstones fits state id t after o h =
    let (fitting, result) = add_parts max_tombstones fits state id t after h in
    let kept : Dict Tombstone = trim_tombstones max_tombstones state (some id) in
    let pinned : List String = map (λ (run : String). "run:" <> run) state.pruning in
    (
      ground (arith, length-insert id t kept),
      ground (arith, lookup-insert id id t kept, eq_refl id),
      λ key old p q r.
          let stays : mem key (names (eligible pinned (some id) state.tombstones)) ≡ false =
            elim (Bool-cases (mem key (names (eligible pinned (some id) state.tombstones)))) [
              | inr e ↦ e
              | inl e ↦
                  absurd (
                    ground (arith, eligible-may_go pinned (some id) key old state.tombstones o p e))
            ] in
          ap (λ (d : Dict Tombstone). lookup key d) result
          ∙ ground (
            arith,
            lookup-insert key id t kept,
            drop_oldest-keeps (max_tombstones - is_new id state.tombstones) key state.tombstones
                (eligible pinned (some id) state.tombstones) stays,
          ),
    )
