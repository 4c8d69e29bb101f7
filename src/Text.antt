-- ===== src/Text.antt =====
-- The parts of Go's `strings`, `unicode/utf8` and `strconv` that the modelled files use, on byte
-- sequences.
pub mod Utf8
pub mod Numbers
pub mod Hex
use Prim.Native.Char.{code}
use Prim.Native.String.{String}
use repost_go.Prelude.{
  ℕ, suc, zero, ◌+◌, ◌-◌, ◌*◌, ◌<◌, ◌≡◌, refl, Bool, true, false, not, ◌&&◌, ◌||◌, Option, none,
  some, List, [], ◌∷◌, ◌++◌, arith, Bytes, length, equal, leb, ltb, ◌==◌, if◌then◌else◌,
}

-- The bytes of a text of ASCII characters.
abbrev pub codes : String → Bytes
codes String.[] = []
codes (String.◌∷◌ c s) = code c ∷ codes s

abbrev pub within : ℕ → ℕ → ℕ → Bool
within lo hi c = leb lo c && leb c hi

abbrev pub is_digit : ℕ → Bool
is_digit = within b'0' b'9'

-- Every byte passes a test.
unfoldable pub all_bytes : (ℕ → Bool) → Bytes → Bool
all_bytes p [] = true
all_bytes p (c ∷ cs) = p c && all_bytes p cs

-- `strings.ContainsAny` of ASCII bytes, and `bytes.IndexByte(…) >= 0`.
unfoldable pub has_byte : ℕ → Bytes → Bool
has_byte b [] = false
has_byte b (c ∷ cs) = c == b || has_byte b cs

unfoldable pub has_prefix : Bytes → Bytes → Bool
has_prefix s [] = true
has_prefix [] (p ∷ ps) = false
has_prefix (c ∷ cs) (p ∷ ps) = c == p && has_prefix cs ps

abbrev pub ascii_lower : ℕ → ℕ
ascii_lower c = if within b'A' b'Z' c then c + 32 else c

-- A text with its case folded as `strings.EqualFold` folds it towards ASCII: the letters A to Z,
-- the Kelvin sign (bytes 0xE2 0x84 0xAA), and the long s (bytes 0xC5 0xBF). Other characters fold to no ASCII text.
unfoldable pub fold : Bytes → Bytes
fold [] = []
fold (a ∷ []) = ascii_lower a ∷ []
fold (a ∷ b ∷ []) = if a == 0xc5 && b == 0xbf then b's' ∷ [] else ascii_lower a ∷ fold (b ∷ [])
fold (a ∷ b ∷ c ∷ r) =
    let kelvin = fold r in
    let long_s = fold (c ∷ r) in
    let plain = fold (b ∷ c ∷ r) in
    if a == 0xe2 && b == 0x84 && c == 0xaa
    then b'k' ∷ kelvin
    else if a == 0xc5 && b == 0xbf
    then b's' ∷ long_s
    else ascii_lower a ∷ plain

-- `strings.EqualFold(s, t)` for an ASCII text `t` in lower case.
unfoldable pub equal_fold : Bytes → Bytes → Bool
unfolding fold equal
equal_fold s t = equal (fold s) t

abbrev is_ows : ℕ → Bool
is_ows c = c == b' ' || c == b'\t'

unfoldable pub trim_left : Bytes → Bytes
trim_left [] = []
trim_left (c ∷ cs) = if is_ows c then trim_left cs else c ∷ cs

-- What is left of a text after the blanks at its end go.
unfoldable pub trim_right : Bytes → Bytes
trim_right [] = []
trim_right (c ∷ cs) = elim (trim_right cs) [
  | [] ↦ if is_ows c then [] else c ∷ []
  | d ∷ ds ↦ c ∷ d ∷ ds
]

-- `strings.Trim(value, " \t")`
unfoldable pub trim_ows : Bytes → Bytes
unfolding trim_left trim_right
trim_ows s = trim_right (trim_left s)

-- `strings.Cut` at one byte: the part before it and, where it occurs, the part behind it.
unfoldable pub cut : ℕ → Bytes → Bytes × Option Bytes
cut sep [] = ([], none)
cut sep (c ∷ cs) = if c == sep then ([], some cs) else (c ∷ (cut sep cs).0, (cut sep cs).1)

-- The number that a text of decimal digits stands for.
unfoldable pub decimal_onto : ℕ → Bytes → ℕ
decimal_onto acc [] = acc
decimal_onto acc (c ∷ cs) = decimal_onto (acc * 10 + (c - b'0')) cs

-- `strconv.ParseUint(value, 10, 63)` on a text of digits; `none` where it is out of range.
unfoldable pub parse_uint63 : Bytes → Option ℕ
unfolding decimal_onto
parse_uint63 s =
    let n = decimal_onto 0 s in if ltb n 9_223_372_036_854_775_808 then some n else none

pub trim_left-le : (s : Bytes) → length (trim_left s) < suc (length s)
unfolding trim_left
trim_left-le [] = omega arith
trim_left-le (c ∷ cs) = ground (arith, trim_left-le cs)
