-- ===== src/Base/Values.antt =====
-- JSON values as `json.loads` returns them, and Python's tests on them. A JSON number with a
-- fraction or an exponent is not a value here. An object holds each key once.
use Prim.Native.Nat.{ℕ}
use Prim.Native.String.{String}
use mathlib.Core.Bool.{Bool, true, false}
use mathlib.Core.Option.{Option, none, some}
use mathlib.Core.List.{List, [], ◌∷◌}
use dev_skills.Base.Tests.{◌==◌, nat_eq, if◌then◌else◌}

-- `negsuc n` is -(n + 1).
pub data ℤ : Type 0 where
  pos : ℕ → ℤ
  negsuc : ℕ → ℤ

mutual
  pub data Json : Type 0 where
    null : Json
    bool : Bool → Json
    int : ℤ → Json
    str : String → Json
    arr : Items → Json
    obj : Fields → Json

  pub data Items : Type 0 where
    nil : Items
    cons : Json → Items → Items

  pub data Fields : Type 0 where
    end : Fields
    field : String → Json → Fields → Fields

abbrev pub field_names : Fields → List String
field_names end = []
field_names (field k v fs) = k ∷ field_names fs

-- `fs.get(k)`
abbrev pub get : String → Fields → Option Json
get k end = none
get k (field j v fs) = if j == k then some v else get k fs

-- `==` on integers; a Python `bool` is the integer 0 or 1.
abbrev pub int_eq : ℤ → ℤ → Bool
int_eq (pos m) (pos n) = nat_eq m n
int_eq (negsuc m) (negsuc n) = nat_eq m n
int_eq _ _ = false

-- `isinstance(v, int)`, with the value; a `bool` is an `int`
abbrev pub as_int : Option Json → Option ℤ
as_int (some (int n)) = some n
as_int (some (bool true)) = some (pos 1)
as_int (some (bool false)) = some (pos 0)
as_int _ = none

-- `isinstance(v, int) and not isinstance(v, bool)`, with the value
abbrev pub as_plain_int : Option Json → Option ℤ
as_plain_int (some (int n)) = some n
as_plain_int _ = none

-- `isinstance(v, int) and not isinstance(v, bool) and v >= 0`, with the value
abbrev pub as_nat : Option Json → Option ℕ
as_nat (some (int (pos n))) = some n
as_nat _ = none

abbrev pub as_str : Option Json → Option String
as_str (some (str s)) = some s
as_str _ = none

abbrev pub as_bool : Option Json → Option Bool
as_bool (some (bool b)) = some b
as_bool _ = none

abbrev pub as_obj : Option Json → Option Fields
as_obj (some (obj fs)) = some fs
as_obj _ = none

abbrev pub as_arr : Option Json → Option Items
as_arr (some (arr xs)) = some xs
as_arr _ = none

-- `v == n`, for a number
abbrev pub is_int : Option Json → ℤ → Bool
is_int v n = elim (as_int v) [ none ↦ false | some m ↦ int_eq m n ]

-- `v == s`, for a text
abbrev pub is_str : Option Json → String → Bool
is_str v s = elim (as_str v) [ none ↦ false | some t ↦ t == s ]

-- `v is None`, also for a missing key read by `get`
abbrev pub is_none : Option Json → Bool
is_none none = true
is_none (some null) = true
is_none _ = false

-- a value that a Python set can look up: no list and no dict
abbrev pub is_hashable : Option Json → Bool
is_hashable (some (arr xs)) = false
is_hashable (some (obj fs)) = false
is_hashable _ = true

cons_str : Option String → Option (List String) → Option (List String)
cons_str (some s) (some l) = some (s ∷ l)
cons_str _ _ = none

-- the texts of an array, if it holds nothing else
unfoldable pub texts : Items → Option (List String)
unfolding cons_str
texts nil = some []
texts (cons v xs) = cons_str (as_str (some v)) (texts xs)
