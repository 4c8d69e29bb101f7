-- ===== src/Text/Utf8.antt =====
-- `utf8.Valid`, `utf8.RuneCountInString` on valid text, and the encoding of a rune.
use repost_go.Prelude.{
  ℕ, zero, suc, ◌+◌, ◌/◌, ◌%◌, Bool, true, false, ◌&&◌, Option, none, some, [], ◌∷◌, Bytes, leb,
  ltb, ◌==◌, if◌then◌else◌,
}

abbrev between : ℕ → ℕ → ℕ → Bool
between lo hi c = leb lo c && leb c hi

abbrev is_continuation : ℕ → Bool
is_continuation = between 0x80 0xbf

-- The second byte that a first byte of a longer sequence accepts: no overlong form, no surrogate,
-- nothing past U+10FFFF.
second_ok : ℕ → ℕ → Bool
second_ok a b =
    if a == 0xe0
    then between 0xa0 0xbf b
    else if a == 0xed
    then between 0x80 0x9f b
    else if a == 0xf0
    then between 0x90 0xbf b
    else if a == 0xf4
    then between 0x80 0x8f b
    else is_continuation b

-- The bytes that must follow a first byte; `none` if no rune begins with it.
following : ℕ → Option ℕ
following a =
    if ltb a 0x80
    then some 0
    else if between 0xc2 0xdf a
    then some 1
    else if between 0xe0 0xef a
    then some 2
    else if between 0xf0 0xf4 a
    then some 3
    else none

-- The state is the number of continuation bytes still expected, with the first byte while the
-- second is to come.
valid_from : ℕ → Option ℕ → Bytes → Bool
unfolding second_ok following
valid_from zero first [] = true
valid_from (suc n) first [] = false
valid_from zero first (a ∷ r) = elim (following a) [
  | none ↦ false
  | some n ↦ valid_from n (some a) r
]
valid_from (suc n) (some a) (b ∷ r) = second_ok a b && valid_from n none r
valid_from (suc n) none (b ∷ r) = is_continuation b && valid_from n none r

unfoldable pub valid : Bytes → Bool
unfolding valid_from
valid s = valid_from 0 none s

-- One rune begins at each byte that is no continuation.
unfoldable pub rune_count : Bytes → ℕ
rune_count [] = 0
rune_count (c ∷ cs) = (if is_continuation c then 0 else 1) + rune_count cs

-- A rune that is no surrogate, in one to four bytes.
unfoldable pub encode_rune : ℕ → Bytes
encode_rune r =
    if ltb r 0x80
    then r ∷ []
    else if ltb r 0x800
    then (0xc0 + r / 64) ∷ (0x80 + r % 64) ∷ []
    else if ltb r 0x10000
    then (0xe0 + r / 4096) ∷ (0x80 + r / 64 % 64) ∷ (0x80 + r % 64) ∷ []
    else (0xf0 + r / 262144) ∷ (0x80 + r / 4096 % 64) ∷ (0x80 + r / 64 % 64) ∷ (0x80 + r % 64) ∷ []
