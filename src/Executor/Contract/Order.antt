-- ===== src/Executor/Contract/Order.antt =====
-- `stage_order` is a topological order of the stages, and fails only on a cycle.
use mathlib.Core.List.{append-nil, append_assoc}
use dev_skills.Base.{
  mem-sorted, distinct-sorted, subst, ℕ, zero, suc, ◌≤◌, ◌<◌, Bool, true, false, ◌&&◌, ◌||◌, String,
  List, [], ◌∷◌, ◌++◌, ◌==◌, ◌≡◌, refl, ◌∙◌, arith, eq_iff, length, mem, subset, without, distinct,
  is_empty, select, Dict, keys, mem-append, mem-without, mem_head, mem_of_tail, subset_mono,
  Bool-cases, inl, inr,
}
use dev_skills.Executor.Errors.{ok, ok-injective}
use dev_skills.Executor.Contract.{Stage, dependencies, ready_stages, order_rounds}

-- each stage of the list comes after its dependencies, of which `seen` are already placed
abbrev pub IsTopological : Dict Stage → List String → List String → Type 0
IsTopological definitions seen [] = Unit
IsTopological definitions seen (s ∷ l) =
    (subset (dependencies definitions s) seen ≡ true) × IsTopological definitions (seen ++ s ∷ []) l

mem-select :
    (p : String → Bool) (x : String) (l : List String) → mem x (select p l) ≡ (p x && mem x l)
unfolding mem
mem-select p x [] = ground arith
mem-select p x (y ∷ l) = elim (Bool-cases (y == x)) [
  | inl e ↦ let same = (eq_iff y x).0 e in ground (arith, mem-select p x l)
  | inr e ↦ ground (arith, mem-select p x l)
]

distinct-select :
    (p : String → Bool) (l : List String) → distinct l ≡ true → distinct (select p l) ≡ true
unfolding distinct
distinct-select p [] d = refl
distinct-select p (x ∷ l) d = ground (arith, distinct-select p l, mem-select p x l)

distinct-ready :
    (definitions : Dict Stage) (remaining ordered : List String)
    → distinct remaining ≡ true
    → distinct (ready_stages definitions remaining ordered) ≡ true
unfolding ready_stages
distinct-ready definitions remaining ordered d =
    distinct-sorted (select (λ s. subset (dependencies definitions s) ordered) remaining)
    ∙ distinct-select (λ s. subset (dependencies definitions s) ordered) remaining d

-- What a ready stage is: a remaining one whose dependencies are ordered.
pub mem-ready_stages :
    (definitions : Dict Stage) (x : String) (remaining ordered : List String)
    → mem x (ready_stages definitions remaining ordered)
      ≡ (subset (dependencies definitions x) ordered && mem x remaining)
unfolding ready_stages
mem-ready_stages definitions x remaining ordered =
    mem-sorted x (select (λ s. subset (dependencies definitions s) ordered) remaining)
    ∙ mem-select (λ s. subset (dependencies definitions s) ordered) x remaining

-- Taking the members of a list that has one of them away makes the other list shorter.
length-without-le : (ks l : List String) → length (without ks l) ≤ length l
unfolding without
length-without-le ks [] = omega arith
length-without-le ks (x ∷ l) = ground (arith, length-without-le ks l)

pub length-without-lt :
    (k : String) (ks l : List String)
    → mem k ks ≡ true
    → mem k l ≡ true
    → length (without ks l) < length l
unfolding without mem
length-without-lt k ks [] m h = cc
length-without-lt k ks (x ∷ l) m h =
    ground (arith, length-without-lt k ks l m, length-without-le ks l, eq_iff x k)

IsTopological-append :
    (definitions : Dict Stage) (seen l m : List String)
    → IsTopological definitions seen l
    → IsTopological definitions (seen ++ l) m
    → IsTopological definitions seen (l ++ m)
IsTopological-append definitions seen [] m h k = rw (append-nil seen) at k
IsTopological-append definitions seen (s ∷ l) m h k = (
  h.0,
  IsTopological-append definitions (seen ++ s ∷ []) l m h.1 (rw (append_assoc seen (s ∷ []) l) k),
)

-- Stages that are ready at once may follow in any order.
IsTopological-of_ready :
    (definitions : Dict Stage) (ordered seen l : List String)
    → ((x : String) → mem x ordered ≡ true → mem x seen ≡ true)
    → ((x : String) → mem x l ≡ true → subset (dependencies definitions x) ordered ≡ true)
    → IsTopological definitions seen l
IsTopological-of_ready definitions ordered seen [] h k = tt
IsTopological-of_ready definitions ordered seen (s ∷ l) h k = (
  subset_mono (dependencies definitions s) ordered seen (k s (mem_head s l)) h,
  IsTopological-of_ready definitions ordered (seen ++ s ∷ []) l
      (λ x m. ground (arith, mem-append x seen (s ∷ []), h x)) (λ x m. k x (mem_of_tail x s l m)),
)

distinct-append :
    (l m : List String)
    → distinct l ≡ true
    → distinct m ≡ true
    → ((x : String) → mem x m ≡ true → mem x l ≡ false)
    → distinct (l ++ m) ≡ true
unfolding distinct
distinct-append [] m d e h = e
distinct-append (x ∷ l) m d e h = ground (
  arith,
  distinct-append l m (ground arith) e (λ y k. off y x l (h y k)),
  mem-append x l m,
  h x,
  mem_head x l,
)
  where
    off : (y x : String) (l : List String) → mem y (x ∷ l) ≡ false → mem y l ≡ false
    off y x l k = elim (Bool-cases (mem y l)) [ inl e ↦ cc (mem_of_tail y x l e) | inr e ↦ e ]

distinct-without : (ks l : List String) → distinct l ≡ true → distinct (without ks l) ≡ true
unfolding distinct without
distinct-without ks [] d = refl
distinct-without ks (x ∷ l) d = ground (arith, distinct-without ks l, mem-without x ks l)

-- What the loop keeps: the two lists hold each stage once, and the ordered one is in order.
pub record Rounds (definitions : Dict Stage) (remaining ordered : List String) : Type 0 where
  pub in_order : IsTopological definitions [] ordered
  pub once : distinct ordered ≡ true
  pub once_left : distinct remaining ≡ true
  pub apart : (x : String) → mem x remaining ≡ true → mem x ordered ≡ false
  pub whole : (x : String) → (mem x ordered || mem x remaining) ≡ mem x (keys definitions)

pub Rounds-step :
    (definitions : Dict Stage) (remaining ordered : List String)
    → Rounds definitions remaining ordered
    → let ready = ready_stages definitions remaining ordered in
      Rounds definitions (without ready remaining) (ordered ++ ready)
Rounds-step definitions remaining ordered r =
    let ready = ready_stages definitions remaining ordered in
    let is_ready = mem-ready_stages definitions in
    record {
      in_order = IsTopological-append definitions [] ordered ready r.in_order (
          IsTopological-of_ready definitions ordered ordered ready (λ x m. m)
            (λ x m. ground (arith, is_ready x remaining ordered)));
      once =
          distinct-append ordered ready r.once
            (distinct-ready definitions remaining ordered r.once_left)
            (λ x m. r.apart x (ground (arith, is_ready x remaining ordered)));
      once_left = distinct-without ready remaining r.once_left;
      apart = λ x m.
          ground (arith, mem-without x ready remaining, mem-append x ordered ready, r.apart x);
      whole = λ x. ground (
        arith,
        mem-without x ready remaining,
        mem-append x ordered ready,
        r.whole x,
        is_ready x remaining ordered,
      );
    }

-- A finished order.
pub record IsOrder (definitions : Dict Stage) (order : List String) : Type 0 where
  pub in_order : IsTopological definitions [] order
  pub once : distinct order ≡ true
  pub members : (x : String) → mem x order ≡ mem x (keys definitions)

pub order_rounds-IsOrder :
    (fuel : ℕ) (definitions : Dict Stage) (remaining ordered order : List String)
    → order_rounds fuel definitions remaining ordered ≡ ok order
    → Rounds definitions remaining ordered
    → IsOrder definitions order
unfolding order_rounds mem
order_rounds-IsOrder fuel definitions [] ordered order h r =
    subst (IsOrder definitions) (ok-injective h)
      (record { in_order = r.in_order; once = r.once; members = λ x. ground (arith, r.whole x) })
order_rounds-IsOrder zero definitions (s ∷ l) ordered order h r = cc
order_rounds-IsOrder (suc fuel) definitions (s ∷ l) ordered order h r =
    let ready = ready_stages definitions (s ∷ l) ordered in
    elim (Bool-cases (is_empty ready)) [
      | inl e ↦ ground arith
      | inr e ↦
          order_rounds-IsOrder fuel definitions (without ready (s ∷ l)) (ordered ++ ready) order
            (ground arith) (Rounds-step definitions (s ∷ l) ordered r)
    ]
