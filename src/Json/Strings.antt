-- ===== src/Json/Strings.antt =====
-- internal/strictjson/parser.go: string tokens. `unquote` is what `json.Unmarshal` makes of a
-- string literal whose escapes the scanner has accepted.
use repost_go.Json.Scan.{
  Outcome, ok, failed, out_of_fuel, protocol, limit, Scanner, slice, ◌>>=◌, max_field_name_bytes,
  max_scalar_string_bytes, max_scalar_string_chars,
}
use repost_go.Prelude.{
  ℕ, zero, suc, ◌+◌, ◌-◌, ◌*◌, Bool, ◌&&◌, ◌||◌, Option, none, some, [], ◌∷◌, ◌++◌, Bytes, length,
  ltb, ◌==◌, if◌then◌else◌,
}
use repost_go.Text.Utf8.{encode_rune, rune_count}
use repost_go.Text.{within, is_digit}

unfoldable pub hex_digit : ℕ → Option ℕ
hex_digit c =
    if is_digit c
    then some (c - b'0')
    else if within b'a' b'f' c
    then some (c - b'a' + 10)
    else if within b'A' b'F' c
    then some (c - b'A' + 10)
    else none

-- The value of `hexUnit` and what is left behind its four digits. A 16-bit shift loses nothing of
-- the three digits read before.
unfoldable pub hex_from : ℕ → ℕ → Bytes → Option (ℕ × Bytes)
unfolding hex_digit
hex_from zero value s = some (value, s)
hex_from (suc n) value [] = none
hex_from (suc n) value (c ∷ cs) = elim (hex_digit c) [
  | none ↦ none
  | some d ↦ hex_from n (value * 16 + d) cs
]

unfoldable pub hex_unit : Bytes → Option (ℕ × Bytes)
unfolding hex_from
hex_unit s = hex_from 4 0 s

abbrev is_high : ℕ → Bool
is_high = within 0xd800 0xdbff

abbrev is_low : ℕ → Bool
is_low = within 0xdc00 0xdfff

abbrev is_simple_escape : ℕ → Bool
is_simple_escape c =
    c == b'"'
    || c == b'\\'
    || c == b'/'
    || c == b'b'
    || c == b'f'
    || c == b'n'
    || c == b'r'
    || c == b't'

-- The second half of a surrogate pair, behind the first.
unfoldable pub low_unit : Bytes → Option (ℕ × Bytes)
unfolding hex_unit
low_unit (a ∷ b ∷ r) = if a == b'\\' && b == b'u' then hex_unit r else none
low_unit _ = none

unfoldable pub low_escape : Bytes → Outcome Bytes
unfolding low_unit
low_escape s = elim (low_unit s) [
  | none ↦ failed protocol
  | some (low, r) ↦ if is_low low then ok r else failed protocol
]

unfoldable pub unicode_escape : Bytes → Outcome Bytes
unfolding hex_unit low_escape
unicode_escape s = elim (hex_unit s) [
  | none ↦ failed protocol
  | some (value, r) ↦
      if is_high value then low_escape r else if is_low value then failed protocol else ok r
]

-- `escape`, from behind the backslash.
unfoldable pub escape : Bytes → Outcome Bytes
unfolding unicode_escape
escape [] = failed protocol
escape (c ∷ cs) =
    if is_simple_escape c then ok cs else if c == b'u' then unicode_escape cs else failed protocol

-- The loop of `string`: the rest behind the closing quote.
unfoldable pub string_end : ℕ → Bytes → Outcome Bytes
unfolding escape
string_end zero s = out_of_fuel
string_end (suc f) [] = failed protocol
string_end (suc f) (c ∷ cs) =
    let escaped = escape cs >>= string_end f in
    let plain = string_end f cs in
    if c == b'"'
    then ok cs
    else if c == b'\\'
    then escaped
    else if ltb c 0x20
    then failed protocol
    else plain

abbrev simple_value : ℕ → ℕ
simple_value c =
    if c == b'b'
    then 8
    else if c == b'f'
    then 12
    else if c == b'n'
    then 10
    else if c == b'r'
    then 13
    else if c == b't'
    then 9
    else c

-- The bytes of one escape, and what is left behind it.
unescape_unicode : Bytes → Option (Bytes × Bytes)
unfolding hex_unit low_unit encode_rune
unescape_unicode s = elim (hex_unit s) [
  | none ↦ none
  | some (value, r) ↦
      if is_high value
      then elim (low_unit r) [
        | none ↦ none
        | some (low, r') ↦
            some (encode_rune (0x10000 + (value - 0xd800) * 1024 + (low - 0xdc00)), r')
      ]
      else some (encode_rune value, r)
]

unescape : Bytes → Option (Bytes × Bytes)
unfolding unescape_unicode
unescape [] = none
unescape (c ∷ cs) =
    if c == b'u'
    then unescape_unicode cs
    else if is_simple_escape c
    then some (simple_value c ∷ [], cs)
    else none

-- The value of a literal, from behind its opening quote to the closing one.
unfoldable pub unquote : ℕ → Bytes → Option Bytes
unfolding unescape
unquote zero s = none
unquote (suc f) [] = none
unquote (suc f) (c ∷ cs) =
    let escaped : Option Bytes = elim (unescape cs) [
      | none ↦ none
      | some (v, r) ↦ elim (unquote f r) [ none ↦ none | some w ↦ some (v ++ w) ]
    ] in
    let plain : Option Bytes = elim (unquote f cs) [ none ↦ none | some w ↦ some (c ∷ w) ] in
    if c == b'"' then some [] else if c == b'\\' then escaped else plain

-- `string`, from behind the opening quote: the value, and the rest behind the closing quote.
unfoldable pub check_value : Bool → Bytes → Option Bytes → Outcome (Bytes × Bytes)
unfolding rune_count
check_value field_name end none = failed protocol
check_value field_name end (some value) =
    if field_name
    then (if ltb max_field_name_bytes (length value) then failed limit else ok (value, end))
    else (if ltb max_scalar_string_bytes (length value)
          || ltb max_scalar_string_chars (rune_count value)
        then failed limit
        else ok (value, end))

unfoldable pub string_at : Bool → Bytes → Outcome (Bytes × Bytes)
unfolding string_end unquote check_value
string_at field_name s = do
  end ← string_end (suc (length s)) s
  check_value field_name end (unquote (suc (length s)) (slice s end))

-- `s.index++` over the opening quote, and the scan.
unfoldable pub string_from : Bool → Bytes → Outcome (Bytes × Bytes)
unfolding string_at
string_from field_name [] = failed protocol
string_from field_name (q ∷ cs) = string_at field_name cs

unfoldable pub string : Bool → Scanner → Outcome (Bytes × Scanner)
unfolding string_from
string field_name s = do
  (value, end) ← string_from field_name s.rest
  ok (value, record s { rest = end })
