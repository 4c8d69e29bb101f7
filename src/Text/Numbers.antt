-- ===== src/Text/Numbers.antt =====
-- The decimal and hexadecimal numbers of Go's `fmt` and `strconv`, as the modelled files use them.
use repost_go.Prelude.{
  ℕ, zero, suc, ◌+◌, ◌-◌, ◌*◌, ◌/◌, ◌%◌, Option, none, some, [], ◌∷◌, Bytes, ltb, if◌then◌else◌,
}
use repost_go.Text.{is_digit, within}

-- The digits of a number in front of a text; every round divides the number by ten.
unfoldable pub decimal_onto_text : ℕ → ℕ → Bytes → Bytes
decimal_onto_text zero n out = out
decimal_onto_text (suc f) n out =
    let more = decimal_onto_text f (n / 10) ((b'0' + n % 10) ∷ out) in
    if ltb n 10 then (b'0' + n) ∷ out else more

-- `%d` of an int that is not negative.
unfoldable pub decimal : ℕ → Bytes
unfolding decimal_onto_text
decimal n = decimal_onto_text (suc n) n []

-- A hexadecimal digit of either case.
unfoldable pub hex_value : ℕ → Option ℕ
hex_value c =
    if is_digit c
    then some (c - b'0')
    else if within b'a' b'f' c
    then some (c - b'a' + 10)
    else if within b'A' b'F' c
    then some (c - b'A' + 10)
    else none

unfoldable pub hex_onto : ℕ → Bytes → Option ℕ
unfolding hex_value
hex_onto acc [] = some acc
hex_onto acc (c ∷ cs) = elim (hex_value c) [ none ↦ none | some d ↦ hex_onto (acc * 16 + d) cs ]

-- `strconv.ParseUint(text, 16, 63)`; `none` for each of its errors.
unfoldable pub parse_hex63 : Bytes → Option ℕ
unfolding hex_onto
parse_hex63 [] = none
parse_hex63 (c ∷ cs) = elim (hex_onto 0 (c ∷ cs)) [
  | none ↦ none
  | some n ↦ if ltb n 9_223_372_036_854_775_808 then some n else none
]
