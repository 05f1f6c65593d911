-- ===== src/Base/Sorting.antt =====
-- Python's `sorted` on texts. It keeps the names of a list, and how often each stands in it.
use Prim.Native.String.{String, compare}
use text.Mathlib.Text.{is_le}
use mathlib.Core.Path.{◌≡◌, refl}
use mathlib.Core.Bool.{not, ◌&&◌, ◌||◌}
use mathlib.Core.List.{List, [], ◌∷◌}
use native.Mathlib.Omega.{arith}
use text.Mathlib.TextEquality.{eq_iff}
use dev_skills.Base.Tests.{◌==◌, if◌then◌else◌}
use dev_skills.Base.Lists.{mem, distinct}

place : String → List String → List String
place s [] = s ∷ []
place s (t ∷ l) = let rest = place s l in if is_le (compare s t) then s ∷ t ∷ l else t ∷ rest

-- by code points
unfoldable pub sorted : List String → List String
unfolding place
sorted [] = []
sorted (s ∷ l) = place s (sorted l)

mem-place : (x s : String) (l : List String) → mem x (place s l) ≡ (s == x || mem x l)
unfolding mem place
mem-place x s [] = ground arith
mem-place x s (t ∷ l) = ground (arith, mem-place x s l)

pub mem-sorted : (x : String) (l : List String) → mem x (sorted l) ≡ mem x l
unfolding mem sorted
mem-sorted x [] = refl
mem-sorted x (s ∷ l) = ground (arith, mem-place x s (sorted l), mem-sorted x l)

distinct-place :
    (s : String) (l : List String) → distinct (place s l) ≡ (not (mem s l) && distinct l)
unfolding mem place distinct
distinct-place s [] = refl
distinct-place s (t ∷ l) =
    ground (arith, distinct-place s l, mem-place t s l, eq_iff s t, eq_iff t s)

pub distinct-sorted : (l : List String) → distinct (sorted l) ≡ distinct l
unfolding sorted distinct
distinct-sorted [] = refl
distinct-sorted (s ∷ l) =
    ground (arith, distinct-place s (sorted l), distinct-sorted l, mem-sorted s l)
