-- ===== src/Text/Hex.antt =====
-- Numbers printed in hexadecimal, and read back by `strconv.ParseUint(…, 16, 63)`.
use repost_go.Text.Numbers.{hex_value, hex_onto, parse_hex63}
use repost_go.Text.{has_byte, within}
use repost_go.Prelude.{
  ℕ, zero, suc, ◌+◌, ◌-◌, ◌*◌, ◌/◌, ◌%◌, ◌≤◌, ◌<◌, ◌≡◌, refl, ap, ◌∙◌, false, ◌||◌, some, [], ◌∷◌,
  Bytes, arith, length, ltb, if◌then◌else◌, if_P, ltb→lt,
}

-- A digit of the lower case.
unfoldable pub hex_char : ℕ → ℕ
hex_char d = if ltb d 10 then b'0' + d else d - 10 + b'a'

unfoldable pub hex_onto_text : ℕ → ℕ → Bytes → Bytes
unfolding hex_char
hex_onto_text zero n out = out
hex_onto_text (suc f) n out =
    let more = hex_onto_text f (n / 16) (hex_char (n % 16) ∷ out) in
    if ltb n 16 then hex_char n ∷ out else more

unfoldable pub hex : ℕ → Bytes
unfolding hex_onto_text
hex n = hex_onto_text (suc n) n []

-- What holds of both ends of a round holds of it.
hex_onto_text-P :
    (P : Bytes → Type 0) (f n : ℕ) (out : Bytes)
    → (n < 16 → P (hex_char n ∷ out))
    → P (hex_onto_text f (n / 16) (hex_char (n % 16) ∷ out))
    → P (hex_onto_text (suc f) n out)
unfolding hex_onto_text
hex_onto_text-P P f n out h k = if_P P (ltb n 16) _ _ (λ e. h (ltb→lt n 16 e)) λ e. k

hex_value-hex_char : (d : ℕ) → d < 16 → hex_value (hex_char d) ≡ some d
unfolding hex_value hex_char
hex_value-hex_char d h = ground arith

hex_onto-step :
    (acc d : ℕ) (out : Bytes)
    → d < 16
    → hex_onto acc (hex_char d ∷ out) ≡ hex_onto (acc * 16 + d) out
unfolding hex_onto
hex_onto-step acc d out h = cc (hex_value-hex_char d h)

hex_onto-text :
    (f n : ℕ) (out : Bytes) → n < f → hex_onto 0 (hex_onto_text f n out) ≡ hex_onto n out
unfolding hex_onto_text
hex_onto-text zero n out h = absurd (omega arith)
hex_onto-text (suc f) n out h =
    if_P (λ t. hex_onto 0 t ≡ hex_onto n out) (ltb n 16) (hex_char n ∷ out)
      (hex_onto_text f (n / 16) (hex_char (n % 16) ∷ out))
      (λ e. hex_onto-step 0 n out (ltb→lt n 16 e) ∙ ap (λ x. hex_onto x out) (omega arith))
      λ e.
        hex_onto-text f (n / 16) (hex_char (n % 16) ∷ out) (ground (arith, e, h))
        ∙ hex_onto-step (n / 16) (n % 16) out (omega arith)
        ∙ ap (λ x. hex_onto x out) (omega arith)

-- Powers of 16 up to the one that bounds every size.
pow16 : ℕ → ℕ
pow16 zero = 1
pow16 (suc k) = 16 * pow16 k

length-hex_onto_text :
    (k f n : ℕ) (out : Bytes)
    → n < pow16 (suc k)
    → length (hex_onto_text f n out) ≤ suc k + length out
unfolding hex_onto_text pow16
length-hex_onto_text k zero n out h = omega arith
length-hex_onto_text zero (suc f) n out h = ground (arith, h)
length-hex_onto_text (suc k) (suc f) n out h =
    hex_onto_text-P (λ t. length t ≤ suc (suc k) + length out) f n out (λ e. omega arith)
      (omega
        (arith, length-hex_onto_text k f (n / 16) (hex_char (n % 16) ∷ out) (omega (arith, h))))

-- No digit is one of the bytes that the wire format sets apart.
hex_onto_text-absent :
    (b f n : ℕ) (out : Bytes)
    → within b'0' b'9' b || within b'a' b'f' b ≡ false
    → has_byte b out ≡ false
    → has_byte b (hex_onto_text f n out) ≡ false
unfolding hex_onto_text hex_char has_byte
hex_onto_text-absent b zero n out k h = h
hex_onto_text-absent b (suc f) n out k h =
    if_P (λ t. has_byte b t ≡ false) (ltb n 16) _ _ (λ e. ground (arith, k, h, e))
      λ e. hex_onto_text-absent b f (n / 16) _ k (ground (arith, k, h))

pub hex-absent :
    (b n : ℕ) → within b'0' b'9' b || within b'a' b'f' b ≡ false → has_byte b (hex n) ≡ false
unfolding hex has_byte
hex-absent b n k = hex_onto_text-absent b (suc n) n [] k refl

pub length-hex : (n : ℕ) → n < 16_777_216 → length (hex n) ≤ 6
unfolding hex pow16
length-hex n h = length-hex_onto_text 5 (suc n) n [] h

parse_hex63-onto :
    (s : Bytes) (n : ℕ)
    → hex_onto 0 s ≡ some n
    → 1 ≤ length s
    → n < 9_223_372_036_854_775_808
    → parse_hex63 s ≡ some n
unfolding parse_hex63
parse_hex63-onto [] n e l h = absurd (omega arith)
parse_hex63-onto (c ∷ cs) n e l h = ground (arith, e, h)

length-hex_onto_text_lower : (f n : ℕ) (out : Bytes) → length out ≤ length (hex_onto_text f n out)
unfolding hex_onto_text
length-hex_onto_text_lower zero n out = omega arith
length-hex_onto_text_lower (suc f) n out =
    hex_onto_text-P (λ t. length out ≤ length t) f n out (λ e. omega arith)
      (omega (arith, length-hex_onto_text_lower f (n / 16) (hex_char (n % 16) ∷ out)))

hex_onto_text-given : (f n : ℕ) (out : Bytes) → 1 ≤ length (hex_onto_text (suc f) n out)
hex_onto_text-given f n out =
    hex_onto_text-P (λ t. 1 ≤ length t) f n out (λ e. omega arith)
      (omega (arith, length-hex_onto_text_lower f (n / 16) (hex_char (n % 16) ∷ out)))

-- A number below 2^63 is read from its digits.
pub parse_hex63-hex : (n : ℕ) → n < 9_223_372_036_854_775_808 → parse_hex63 (hex n) ≡ some n
unfolding hex hex_onto
parse_hex63-hex n h =
    parse_hex63-onto (hex n) n (hex_onto-text (suc n) n [] (omega arith))
      (hex_onto_text-given n n []) h
