-- ===== src/Base/Lists.antt =====
-- Lists of names as Python's sets and lists of strings: membership, inclusion, difference.
use Prim.Native.Nat.{ℕ, suc}
use Prim.Native.String.{String}
use mathlib.Core.Path.{◌≡◌, refl}
use mathlib.Core.Logic.{inl, inr}
use mathlib.Core.Bool.{Bool, true, false, not, ◌&&◌, ◌||◌}
use mathlib.Core.List.{List, [], ◌∷◌, ◌++◌}
use native.Mathlib.Omega.{arith}
use text.Mathlib.TextEquality.{eq_iff}
use text.Mathlib.TextPositions.{eq_refl}
use dev_skills.Base.Tests.{◌==◌, if◌then◌else◌, Bool-cases}

module _ {ℓ} {A : Type ℓ} where
  abbrev pub length : List A → ℕ
  length [] = 0
  length (x ∷ xs) = suc (length xs)

  -- Python's `all(p(x) for x in l)` and `any(p(x) for x in l)`
  abbrev pub all : (A → Bool) → List A → Bool
  all p [] = true
  all p (x ∷ l) = p x && all p l

  abbrev pub any : (A → Bool) → List A → Bool
  any p [] = false
  any p (x ∷ l) = p x || any p l

  -- `[x for x in l if p(x)]`
  abbrev pub select : (A → Bool) → List A → List A
  select p [] = []
  select p (x ∷ l) = let rest = select p l in if p x then x ∷ rest else rest

  abbrev pub is_empty : List A → Bool
  is_empty [] = true
  is_empty (x ∷ l) = false

unfoldable pub mem : String → List String → Bool
mem x [] = false
mem x (y ∷ l) = y == x || mem x l

-- `set(l) <= set(m)`
unfoldable pub subset : List String → List String → Bool
subset [] m = true
subset (x ∷ l) m = mem x m && subset l m

-- the names of the second list that are not in the first
unfoldable pub without : List String → List String → List String
without ks [] = []
without ks (x ∷ l) = let rest = without ks l in if mem x ks then rest else x ∷ rest

-- the names of the second list that are in the first
unfoldable pub within : List String → List String → List String
within ks [] = []
within ks (x ∷ l) = let rest = within ks l in if mem x ks then x ∷ rest else rest

-- `list.remove`: the first occurrence goes
unfoldable pub remove : String → List String → List String
remove x [] = []
remove x (y ∷ l) = let rest = remove x l in if y == x then l else y ∷ rest

-- no name twice: `len(set(l)) == len(l)`
unfoldable pub distinct : List String → Bool
distinct [] = true
distinct (x ∷ l) = not (mem x l) && distinct l

pub eq→≡ : (x y : String) → (x == y) ≡ true → x ≡ y
eq→≡ x y h = (eq_iff x y).0 h

pub mem-append : (x : String) (l m : List String) → mem x (l ++ m) ≡ (mem x l || mem x m)
unfolding mem
mem-append x [] m = refl
mem-append x (y ∷ l) m = ground (arith, mem-append x l m)

pub mem_head : (x : String) (l : List String) → mem x (x ∷ l) ≡ true
unfolding mem
mem_head x l = ground (arith, eq_refl x)

pub mem-singleton : (x y : String) → mem x (y ∷ []) ≡ (y == x)
unfolding mem
mem-singleton x y = ground arith

pub mem-without :
    (x : String) (ks l : List String) → mem x (without ks l) ≡ (not (mem x ks) && mem x l)
unfolding mem without
mem-without x ks [] = ground arith
mem-without x ks (y ∷ l) = elim (Bool-cases (y == x)) [
  | inl e ↦ let p = eq→≡ y x e in ground (arith, mem-without x ks l)
  | inr e ↦ ground (arith, mem-without x ks l)
]

pub mem-within : (x : String) (ks l : List String) → mem x (within ks l) ≡ (mem x ks && mem x l)
unfolding mem within
mem-within x ks [] = ground arith
mem-within x ks (y ∷ l) = elim (Bool-cases (y == x)) [
  | inl e ↦ let p = eq→≡ y x e in ground (arith, mem-within x ks l)
  | inr e ↦ ground (arith, mem-within x ks l)
]

-- Inclusion, name by name.
pub mem_of_subset :
    (x : String) (l m : List String) → subset l m ≡ true → mem x l ≡ true → mem x m ≡ true
unfolding subset mem
mem_of_subset x [] m s h = ground arith
mem_of_subset x (y ∷ l) m s h = elim (Bool-cases (y == x)) [
  | inl e ↦ let p = eq→≡ y x e in ground arith
  | inr e ↦ ground (arith, mem_of_subset x l m)
]

pub subset_of_mem :
    (l m : List String) → ((x : String) → mem x l ≡ true → mem x m ≡ true) → subset l m ≡ true
unfolding subset mem
subset_of_mem [] m h = refl
subset_of_mem (y ∷ l) m h =
    ground (arith, h y, eq_refl y, subset_of_mem l m (λ x p. ground (arith, h x)))

pub subset_mono :
    (l m n : List String)
    → subset l m ≡ true
    → ((x : String) → mem x m ≡ true → mem x n ≡ true)
    → subset l n ≡ true
subset_mono l m n s h = subset_of_mem l n (λ x p. h x (mem_of_subset x l m s p))

pub without-nil : (l : List String) → without [] l ≡ l
unfolding without mem
without-nil [] = refl
without-nil (x ∷ l) = ground (arith, without-nil l)

-- Leaving out a name that does not occur changes nothing.
pub without_absent :
    (c : List String) (s : String) (l : List String)
    → mem s l ≡ false
    → without (c ++ s ∷ []) l ≡ without c l
unfolding mem without
without_absent c s [] h = refl
without_absent c s (y ∷ l) h =
    ground (arith, without_absent c s l, mem-append y c (s ∷ []), eq_iff s y, eq_iff y s, eq_refl y)

pub remove-without :
    (c : List String) (s : String) (l : List String)
    → distinct l ≡ true
    → mem s c ≡ false
    → remove s (without c l) ≡ without (c ++ s ∷ []) l
unfolding mem without remove distinct
remove-without c s [] d h = refl
remove-without c s (y ∷ l) d h = ground (
  arith,
  remove-without c s l,
  without_absent c s l,
  mem-append y c (s ∷ []),
  eq_iff s y,
  eq_iff y s,
)

pub distinct-snoc :
    (l : List String) (x : String)
    → distinct l ≡ true
    → mem x l ≡ false
    → distinct (l ++ x ∷ []) ≡ true
unfolding distinct mem
distinct-snoc [] x d h = refl
distinct-snoc (y ∷ l) x d h =
    ground (arith, distinct-snoc l x, mem-append y l (x ∷ []), eq_iff x y, eq_iff y x)

pub distinct-within : (ks l : List String) → distinct l ≡ true → distinct (within ks l) ≡ true
unfolding distinct within
distinct-within ks [] d = refl
distinct-within ks (x ∷ l) d = ground (arith, distinct-within ks l, mem-within x ks l)

pub mem_of_tail : (y x : String) (l : List String) → mem y l ≡ true → mem y (x ∷ l) ≡ true
unfolding mem
mem_of_tail y x l h = ground arith

-- A test that all of a list pass, at a member.
pub all_at :
    (p : String → Bool) (s : String) (l : List String)
    → all p l ≡ true
    → mem s l ≡ true
    → p s ≡ true
unfolding mem
all_at p s [] h m = cc
all_at p s (x ∷ l) h m = elim (Bool-cases (x == s)) [
  | inl e ↦ rw (← eq→≡ x s e) (ground arith)
  | inr e ↦ ground (arith, all_at p s l)
]

pub all_of :
    (p : String → Bool) (l : List String)
    → ((s : String) → mem s l ≡ true → p s ≡ true)
    → all p l ≡ true
all_of p [] h = refl
all_of p (x ∷ l) h =
    ground (arith, h x (mem_head x l), all_of p l (λ s m. h s (mem_of_tail s x l m)))
