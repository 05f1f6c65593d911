-- ===== src/Executor/Time.antt =====
-- skills/complex-coding-executor/scripts/harness_time.py and `parse_timestamp` of
-- harness_state_schema.py, over the code points of a text. `datetime.fromisoformat` is that of
-- Python 3.11 and later: a real date and time of day, an offset of less than a day, and ASCII
-- digits only.
use Prim.Native.Nat.{◌*◌, ◌%◌}
use dev_skills.Base.{
  ℕ, ◌+◌, ◌-◌, Bool, true, false, not, ◌&&◌, ◌||◌, Option, String, List, [], ◌∷◌, nat_eq, leb, ltb,
  if◌then◌else◌, all, Json, as_str, codes, is_digit, ◌≡◌, refl,
}
use dev_skills.Executor.Errors.{
  Result, ok, ◌>>=◌, ◌>>◌, require, require_some, ledger_invalid_timestamp,
}

abbrev two : ℕ → ℕ → ℕ
two a b = (a - 48) * 10 + (b - 48)

abbrev is_leap : ℕ → Bool
is_leap y = nat_eq (y % 4) 0 && (not (nat_eq (y % 100) 0) || nat_eq (y % 400) 0)

abbrev days_in_month : ℕ → ℕ → ℕ
days_in_month y m =
    if nat_eq m 2
    then (if is_leap y then 29 else 28)
    else if nat_eq m 4 || nat_eq m 6 || nat_eq m 9 || nat_eq m 11
    then 30
    else 31

abbrev is_date : ℕ → ℕ → ℕ → Bool
is_date y m d = leb 1 y && leb 1 m && leb m 12 && leb 1 d && leb d (days_in_month y m)

abbrev is_clock : ℕ → ℕ → ℕ → Bool
is_clock h m s = ltb h 24 && ltb m 60 && ltb s 60

-- `Z`, or a sign and hours and minutes
is_zone : List ℕ → Bool
is_zone (z ∷ []) = nat_eq z b'Z'
is_zone (sign ∷ h ∷ k ∷ c ∷ m ∷ n ∷ []) =
    (nat_eq sign b'+' || nat_eq sign b'-')
    && all is_digit (h ∷ k ∷ m ∷ n ∷ [])
    && nat_eq c b':'
    && ltb (two h k) 24
    && ltb (two m n) 60
is_zone _ = false

-- the digits of the fraction, then the zone
is_fraction : List ℕ → Bool
is_fraction [] = false
is_fraction (c ∷ rest) =
    let more = is_fraction rest in if is_digit c then more else is_zone (c ∷ rest)

is_tail : List ℕ → Bool
is_tail [] = false
is_tail (c ∷ []) = is_zone (c ∷ [])
is_tail (c ∷ d ∷ rest) =
    if nat_eq c b'.' then is_digit d && is_fraction rest else is_zone (c ∷ d ∷ rest)

is_time : List ℕ → Bool
is_time (h1 ∷ h2 ∷ c1 ∷ m1 ∷ m2 ∷ c2 ∷ s1 ∷ s2 ∷ rest) =
    all is_digit (h1 ∷ h2 ∷ m1 ∷ m2 ∷ s1 ∷ s2 ∷ [])
    && nat_eq c1 b':'
    && nat_eq c2 b':'
    && is_clock (two h1 h2) (two m1 m2) (two s1 s2)
    && is_tail rest
is_time _ = false

is_date_time : List ℕ → Bool
is_date_time (y1 ∷ y2 ∷ y3 ∷ y4 ∷ c1 ∷ m1 ∷ m2 ∷ c2 ∷ d1 ∷ d2 ∷ t ∷ rest) =
    all is_digit (y1 ∷ y2 ∷ y3 ∷ y4 ∷ m1 ∷ m2 ∷ d1 ∷ d2 ∷ [])
    && nat_eq c1 b'-'
    && nat_eq c2 b'-'
    && nat_eq t b'T'
    && is_date (two y1 y2 * 100 + two y3 y4) (two m1 m2) (two d1 d2)
    && is_time rest
is_date_time _ = false

-- `parse_rfc3339` returns
unfoldable pub is_rfc3339 : String → Bool
unfolding is_zone is_fraction is_tail is_time is_date_time
is_rfc3339 s = is_date_time (codes s)

unfoldable pub parse_timestamp : Option Json → Result String
parse_timestamp value = do
  text ← require_some (as_str value) ledger_invalid_timestamp
  require (is_rfc3339 text) ledger_invalid_timestamp
  ok text

leap_day : is_rfc3339 "2024-02-29T23:59:59.25+08:00" ≡ true
unfolding is_rfc3339
leap_day = refl

no_leap_day : is_rfc3339 "2023-02-29T00:00:00Z" ≡ false
unfolding is_rfc3339
no_leap_day = refl

no_zone : is_rfc3339 "2024-02-29T23:59:59.25" ≡ false
unfolding is_rfc3339
no_zone = refl
