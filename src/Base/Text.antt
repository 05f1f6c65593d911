-- ===== src/Base/Text.antt =====
-- The tests on texts: blanks, hexadecimal digests and POSIX paths.
use Prim.Native.Nat.{ℕ}
use Prim.Native.Char.{Char, code}
use Prim.Native.String.{String}
use mathlib.Core.Path.{◌≡◌, refl}
use mathlib.Core.Bool.{Bool, false, not, ◌&&◌, ◌||◌}
use mathlib.Core.List.{List, [], ◌∷◌}
use dev_skills.Base.Tests.{◌==◌, nat_eq, leb, if◌then◌else◌}
use dev_skills.Base.Lists.{length, all, select}

abbrev pub codes : String → List ℕ
codes String.[] = []
codes (String.◌∷◌ c s) = code c ∷ codes s

-- `str.isspace` of one character
abbrev pub is_space : ℕ → Bool
is_space c =
    (leb 9 c && leb c 13)
    || (leb 28 c && leb c 32)
    || nat_eq c 133
    || nat_eq c 160
    || nat_eq c 5760
    || (leb 8192 c && leb c 8202)
    || nat_eq c 8232
    || nat_eq c 8233
    || nat_eq c 8239
    || nat_eq c 8287
    || nat_eq c 12288

-- `bool(s.strip())`
unfoldable pub has_text : String → Bool
has_text s = not (all is_space (codes s))

abbrev pub is_digit : ℕ → Bool
is_digit c = leb 48 c && leb c 57

abbrev pub is_lower_hex : ℕ → Bool
is_lower_hex c = is_digit c || (leb 97 c && leb c 102)

-- `re.compile(r"^[0-9a-f]{64}$").fullmatch(s)`
unfoldable pub is_sha256 : String → Bool
is_sha256 s = nat_eq (length (codes s)) 64 && all is_lower_hex (codes s)

-- a character of "0123456789abcdefABCDEF"
abbrev pub is_hex : ℕ → Bool
is_hex c = is_lower_hex c || (leb 65 c && leb c 70)

-- `Path(s).is_absolute()`, on POSIX
unfoldable pub is_absolute : String → Bool
is_absolute String.[] = false
is_absolute (String.◌∷◌ c s) = nat_eq (code c) b'/'

-- a character put before the first segment
add_char : Char → List String → List String
add_char c [] = String.◌∷◌ c String.[] ∷ []
add_char c (part ∷ parts) = String.◌∷◌ c part ∷ parts

-- `s.split("/")`
segments : String → List String
unfolding add_char
segments String.[] = "" ∷ []
segments (String.◌∷◌ c s) =
    let rest = segments s in if nat_eq (code c) b'/' then "" ∷ rest else add_char c rest

-- `Path(s).parts` of a relative path: the empty segments and the `.` segments go
unfoldable pub path_parts : String → List String
unfolding segments
path_parts s = select (λ part. not (part == "") && not (part == ".")) (segments s)

path_parts_test : path_parts "artifacts//reviews/./a.json" ≡ "artifacts" ∷ "reviews" ∷ "a.json" ∷ []
unfolding path_parts
path_parts_test = refl

has_text_test : has_text " \t " ≡ false
unfolding has_text
has_text_test = refl
