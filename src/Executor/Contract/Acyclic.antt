-- ===== src/Executor/Contract/Acyclic.antt =====
-- The loop of `stage_order` ends by itself, and it succeeds whenever the dependencies are
-- well founded: each names a stage of the contract, of a smaller rank.
use dev_skills.Base.{
  ℕ, zero, suc, ◌≤◌, ◌<◌, true, false, ◌||◌, String, List, [], ◌∷◌, ◌++◌, ◌==◌, ◌≡◌, ◌≢◌, refl,
  arith, length, mem, subset, without, distinct, is_empty, Dict, keys, insert, mem_head,
  mem_of_tail, Bool-cases, inl, inr, eq_iff,
}
use dev_skills.Executor.Errors.{ok, err, out_of_fuel}
use dev_skills.Executor.Contract.{
  Stage, Contract, dependencies, ready_stages, order_rounds, stage_order, by_id, stage_definitions,
}
use dev_skills.Executor.Contract.Order.{
  IsOrder, Rounds, Rounds-step, order_rounds-IsOrder, mem-ready_stages, length-without-lt,
}

keys-insert :
    (x k : String) (v : Stage) (d : Dict Stage)
    → mem x (keys (insert k v d)) ≡ (k == x || mem x (keys d))
unfolding mem insert
keys-insert x k v [] = refl
keys-insert x k v ((j, w) ∷ d) = ground (arith, keys-insert x k v d, eq_iff j k)

distinct-insert :
    (k : String) (v : Stage) (d : Dict Stage)
    → distinct (keys d) ≡ true
    → distinct (keys (insert k v d)) ≡ true
unfolding distinct insert mem
distinct-insert k v [] h = refl
distinct-insert k v ((j, w) ∷ d) h =
    ground (arith, distinct-insert k v d, keys-insert j k v d, eq_iff j k, eq_iff k j)

distinct-by_id :
    (d : Dict Stage) (l : List Stage)
    → distinct (keys d) ≡ true
    → distinct (keys (by_id d l)) ≡ true
unfolding by_id
distinct-by_id d [] h = h
distinct-by_id d (s ∷ l) h = distinct-by_id (insert s.id s d) l (distinct-insert s.id s d h)

pub stage_definitions-distinct :
    (contract : Contract) (d : Dict Stage)
    → stage_definitions contract ≡ ok d
    → distinct (keys d) ≡ true
unfolding stage_definitions distinct
stage_definitions-distinct contract d h = ground (arith, distinct-by_id [] contract.stages)

start :
    (definitions : Dict Stage)
    → distinct (keys definitions) ≡ true
    → Rounds definitions (keys definitions) []
unfolding mem distinct
start definitions d = record {
  in_order = tt;
  once = refl;
  once_left = d;
  apart = λ x m. refl;
  whole = λ x. refl;
}

-- A returned order holds each stage of the contract once, after all of its dependencies.
pub stage_order-IsOrder :
    (definitions : Dict Stage) (order : List String)
    → distinct (keys definitions) ≡ true
    → stage_order definitions ≡ ok order
    → IsOrder definitions order
unfolding stage_order
stage_order-IsOrder definitions order d h =
    order_rounds-IsOrder (length (keys definitions)) definitions (keys definitions) [] order h
      (start definitions d)

-- a list that is not empty has a member
some_member : (l : List String) → is_empty l ≡ false → (x : String) × (mem x l ≡ true)
some_member [] h = cc
some_member (x ∷ l) h = (x, mem_head x l)

shorter :
    (definitions : Dict Stage) (remaining ordered : List String)
    → is_empty (ready_stages definitions remaining ordered) ≡ false
    → length (without (ready_stages definitions remaining ordered) remaining) < length remaining
shorter definitions remaining ordered h =
    let (x, m) = some_member (ready_stages definitions remaining ordered) h in
    length-without-lt x (ready_stages definitions remaining ordered) remaining m
      (ground (arith, mem-ready_stages definitions x remaining ordered))

order_rounds-ne-out_of_fuel :
    (fuel : ℕ) (definitions : Dict Stage) (remaining ordered : List String)
    → length remaining ≤ fuel
    → order_rounds fuel definitions remaining ordered ≢ err out_of_fuel
unfolding order_rounds
order_rounds-ne-out_of_fuel fuel definitions [] ordered h e = cc
order_rounds-ne-out_of_fuel zero definitions (s ∷ l) ordered h e = omega arith
order_rounds-ne-out_of_fuel (suc fuel) definitions (s ∷ l) ordered h q =
    let ready = ready_stages definitions (s ∷ l) ordered in
    elim (Bool-cases (is_empty ready)) [
      | inl e ↦ ground arith
      | inr e ↦ ground (
        arith,
        shorter definitions (s ∷ l) ordered e,
        order_rounds-ne-out_of_fuel fuel definitions (without ready (s ∷ l)) (ordered ++ ready),
      )
    ]

-- The loop needs no more rounds than there are stages.
pub stage_order-ne-out_of_fuel :
    (definitions : Dict Stage) → stage_order definitions ≢ err out_of_fuel
unfolding stage_order
stage_order-ne-out_of_fuel definitions =
    order_rounds-ne-out_of_fuel (length (keys definitions)) definitions (keys definitions) []
      (omega arith)

-- an inclusion that fails has a member that is missing
missing :
    (l m : List String) → subset l m ≡ false → (z : String) × (mem z l ≡ true) × (mem z m ≡ false)
unfolding subset
missing [] m h = cc
missing (x ∷ l) m h = elim (Bool-cases (mem x m)) [
  | inl e ↦
      let (z, inside, outside) = missing l m (ground arith) in
      (z, mem_of_tail z x l inside, outside)
  | inr e ↦ (x, mem_head x l, e)
]

nonempty : (y : String) (l : List String) → mem y l ≡ true → is_empty l ≡ false
unfolding mem
nonempty y [] m = cc
nonempty y (x ∷ l) m = refl

-- Dependencies are stages of the contract, and lead down in rank: there is no cycle.
pub record IsRanked (rank : String → ℕ) (definitions : Dict Stage) : Type 0 where
  pub listed :
      (s z : String)
      → mem s (keys definitions) ≡ true
      → mem z (dependencies definitions s) ≡ true
      → (mem z (keys definitions) ≡ true) × (rank z < rank s)

module _ (rank : String → ℕ) (definitions : Dict Stage) (ranked : IsRanked rank definitions) where
  -- below a remaining stage there is one that is ready
  find_ready :
      (n : ℕ) (x : String) (remaining ordered : List String)
      → rank x < n
      → Rounds definitions remaining ordered
      → mem x remaining ≡ true
      → (y : String) × (mem y (ready_stages definitions remaining ordered) ≡ true)
  find_ready zero x remaining ordered h r m = absurd (omega arith)
  find_ready (suc n) x remaining ordered h r m =
      elim (Bool-cases (subset (dependencies definitions x) ordered)) [
        | inl e ↦ (x, ground (arith, mem-ready_stages definitions x remaining ordered))
        | inr e ↦
            let (z, needed, unplaced) = missing (dependencies definitions x) ordered e in
            let (known, lower) = ranked.listed x z (ground (arith, r.whole x)) needed in
            find_ready n z remaining ordered (omega arith) r (ground (arith, r.whole z))
      ]

  order_rounds_total :
      (fuel : ℕ) (remaining ordered : List String)
      → length remaining ≤ fuel
      → Rounds definitions remaining ordered
      → (order : List String) × (order_rounds fuel definitions remaining ordered ≡ ok order)
  unfolding order_rounds
  order_rounds_total fuel [] ordered h r = (ordered, refl)
  order_rounds_total zero (s ∷ l) ordered h r = absurd (omega arith)
  order_rounds_total (suc fuel) (s ∷ l) ordered h r =
      let ready = ready_stages definitions (s ∷ l) ordered in
      let (y, m) = find_ready (suc (rank s)) s (s ∷ l) ordered (omega arith) r (mem_head s l) in
      let some_ready = nonempty y ready m in
      let (order, e) =
        order_rounds_total fuel (without ready (s ∷ l)) (ordered ++ ready)
          (omega (arith, shorter definitions (s ∷ l) ordered some_ready))
          (Rounds-step definitions (s ∷ l) ordered r) in
      (order, rw (some_ready, order_rounds) e)

  -- Stages with distinct ids, each of whose dependencies is a stage of a smaller rank, have an order.
  pub stage_order_total :
      distinct (keys definitions) ≡ true
      → (order : List String) × (stage_order definitions ≡ ok order)
  unfolding stage_order
  stage_order_total d =
      order_rounds_total (length (keys definitions)) (keys definitions) [] (omega arith)
        (start definitions d)
