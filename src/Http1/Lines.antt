-- ===== src/Http1/Lines.antt =====
-- internal/h1/h1.go: `readLine`, `parseStatus` and `parseHeader`. What the connection has yet to
-- deliver is a byte sequence, and its end stands for the error that the connection then gives.
use repost_go.Http1.{protocol, header_limit, read_failed, Result, ok, failed, ◌>>◌, require, Header}
use repost_go.Prelude.{
  ℕ, ◌+◌, ◌-◌, ◌*◌, Bool, true, not, ◌&&◌, ◌||◌, Option, none, some, [], ◌∷◌, Bytes, length, drop,
  ltb, leb, ◌==◌, if◌then◌else◌,
}
use repost_go.Response.Headers.{max_header_name_bytes, max_header_value_bytes, token_byte}
use repost_go.Text.Utf8.{valid}
use repost_go.Text.{has_prefix, codes, within, is_digit, cut, trim_ows, all_bytes}

-- A line without the '\r' at its end, if it has one.
unfoldable pub strip_cr : Bytes → Option Bytes
strip_cr [] = none
strip_cr (c ∷ []) = if c == 13 then some [] else none
strip_cr (c ∷ d ∷ cs) = elim (strip_cr (d ∷ cs)) [ none ↦ none | some l ↦ some (c ∷ l) ]

-- The limit counts the bytes with the line's end. A fragment that is over it is refused before
-- the connection's error is looked at.
unfoldable pub read_line : Bytes → ℕ → Result (Bytes × Bytes)
unfolding strip_cr cut
read_line r limit =
    let (line, behind) = cut 10 r in
    elim behind [
      | none ↦ if ltb (limit + 2) (length line) then failed header_limit else failed read_failed
      | some rest ↦
          if ltb (limit + 2) (length line + 1)
          then failed header_limit
          else elim (strip_cr line) [ none ↦ failed protocol | some l ↦ ok (l, rest) ]
    ]

unfoldable pub blank_next : Bytes → Bool
blank_next [] = true
blank_next (c ∷ cs) = c == b' '

-- The three digits behind "HTTP/1.1 ".
unfoldable pub status_digits : Bytes → Result ℕ
unfolding blank_next
status_digits (a ∷ b ∷ c ∷ cs) =
    if within b'1' b'5' a && is_digit b && is_digit c && blank_next cs
    then ok ((a - b'0') * 100 + (b - b'0') * 10 + (c - b'0'))
    else failed protocol
status_digits _ = failed protocol

unfoldable pub parse_status : Bytes → Result ℕ
unfolding has_prefix status_digits
parse_status line = do
  require (has_prefix line (codes "HTTP/1.1 ")) protocol
  status_digits (drop 9 line)

unfoldable pub value_byte : ℕ → Bool
value_byte c = not (c == 0x7f || ltb c 0x20 && not (c == b'\t'))

unfoldable pub starts_blank : Bytes → Bool
starts_blank [] = true
starts_blank (c ∷ cs) = c == b' ' || c == b'\t'

-- The tests of `parseHeader`; `blank` says that the line begins with a blank.
unfoldable pub checked_field : Bool → Bytes → Bytes → Result Header
unfolding token_byte all_bytes valid value_byte
checked_field blank name value = do
  require (not blank) protocol
  require (not (length name == 0)) protocol
  require (leb (length name) max_header_name_bytes) header_limit
  require (all_bytes token_byte name) protocol
  require (leb (length value) max_header_value_bytes) header_limit
  require (valid value) protocol
  require (all_bytes value_byte value) protocol
  ok (record { name = name; value = value })

-- A line cut at its colon, if it has one.
unfoldable pub field_from : Bool → Bytes → Option Bytes → Result Header
unfolding checked_field trim_ows
field_from blank name none = failed protocol
field_from blank name (some rest) = checked_field blank name (trim_ows rest)

unfoldable pub parse_header : Bytes → Result Header
unfolding starts_blank cut field_from
parse_header line = field_from (starts_blank line) (cut b':' line).0 (cut b':' line).1
