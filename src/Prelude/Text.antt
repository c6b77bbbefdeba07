-- ===== src/Prelude/Text.antt =====
-- JavaScript strings as lists of UTF-16 code units, and the string functions that the source uses.
-- Numbers below 128 are the ASCII characters.
use Prim.Native.Char.{code}
use Prim.Native.String.{String}
use cpa_keeper_dashboard.Prelude.{
  ℕ, Bool, true, false, ◌&&◌, ◌||◌, List, [], ◌∷◌, ltb, leb, ◌==◌, if◌then◌else◌, take, drop,
}
use cpa_keeper_dashboard.Prelude.Interface.{Eq, list_beq, list_beq_iff, nat_eq}

abbrev pub Text : Type 0
Text = List ℕ

-- A literal.
abbrev pub codes : String → Text
codes String.[] = []
codes (String.◌∷◌ c s) = code c ∷ codes s

abbrev pub is_empty : Text → Bool
is_empty [] = true
is_empty (_ ∷ _) = false

abbrev pub is_digit : ℕ → Bool
is_digit c = leb b'0' c && leb c b'9'

-- `s.startsWith(p)`, the prefix first.
abbrev pub starts_with : Text → Text → Bool
starts_with [] s = true
starts_with (p ∷ ps) [] = false
starts_with (p ∷ ps) (c ∷ s) = p == c && starts_with ps s

-- `s.slice(from, to)` for 0 ≤ from ≤ to.
abbrev pub slice : ℕ → ℕ → Text → Text
slice from to s = drop from (take to s)

-- `a < b` on strings: lexicographic in the code units.
abbrev pub text_lt : Text → Text → Bool
text_lt a [] = false
text_lt [] (y ∷ ys) = true
text_lt (x ∷ xs) (y ∷ ys) = ltb x y || (x == y && text_lt xs ys)

instance abbrev pub text_eq : Eq Text
text_eq = record { beq = list_beq; beq_iff = list_beq_iff }

-- `WhiteSpace` and `LineTerminator` of the language's grammar, which `trim` removes.
abbrev pub is_white : ℕ → Bool
is_white c =
    c == 0x20
    || (leb 0x09 c && leb c 0x0D)
    || c == 0xA0
    || c == 0x1680
    || (leb 0x2000 c && leb c 0x200A)
    || c == 0x2028
    || c == 0x2029
    || c == 0x202F
    || c == 0x205F
    || c == 0x3000
    || c == 0xFEFF

unfoldable pub trim_start : Text → Text
trim_start [] = []
trim_start (c ∷ s) = if is_white c then trim_start s else c ∷ s

-- One more unit before a text without white space at its end.
abbrev pub cons_trimmed : ℕ → Text → Text
cons_trimmed c [] = if is_white c then [] else c ∷ []
cons_trimmed c (d ∷ s) = c ∷ d ∷ s

unfoldable pub trim_end : Text → Text
trim_end [] = []
trim_end (c ∷ s) = cons_trimmed c (trim_end s)

-- `s.trim()`
unfoldable pub trim : Text → Text
trim s = trim_end (trim_start s)

-- `s.includes(String.fromCharCode(c))`
unfoldable pub includes_unit : ℕ → Text → Bool
includes_unit c [] = false
includes_unit c (d ∷ s) = c == d || includes_unit c s

-- One more unit in the first text of a list.
abbrev pub push_unit : ℕ → List Text → List Text
push_unit c [] = (c ∷ []) ∷ []
push_unit c (w ∷ ws) = (c ∷ w) ∷ ws

-- `s.split(c)` for a separator of one unit.
unfoldable pub split_on : ℕ → Text → List Text
split_on c [] = [] ∷ []
split_on c (d ∷ s) = let rest = split_on c s in if c == d then [] ∷ rest else push_unit d rest

abbrev pub starts_white : Text → Bool
starts_white [] = false
starts_white (c ∷ s) = is_white c

-- `s.split(/\s+/)`
unfoldable pub split_white : Text → List Text
split_white [] = [] ∷ []
split_white (c ∷ s) =
    let rest = split_white s in
    if is_white c then if starts_white s then rest else [] ∷ rest else push_unit c rest

-- Without the one `\r` that stands at the end.
unfoldable pub drop_return : Text → Text
drop_return [] = []
drop_return (c ∷ []) = if c == 0x0D then [] else c ∷ []
drop_return (c ∷ d ∷ s) = c ∷ drop_return (d ∷ s)

unfoldable pub drop_returns : List Text → List Text
drop_returns [] = []
drop_returns (w ∷ []) = w ∷ []
drop_returns (w ∷ v ∷ ws) = drop_return w ∷ drop_returns (v ∷ ws)

-- `s.split(/\r?\n/)`
unfoldable pub split_lines : Text → List Text
split_lines s = drop_returns (split_on 0x0A s)
