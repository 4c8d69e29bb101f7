-- ===== src/Json/Progress.antt =====
-- internal/strictjson/parser.go: how far the primitives of the scanner move, against the fuel.
use repost_go.Json.Scan.{
  Failure, Outcome, ok, failed, out_of_fuel, Scanner, require, token, skip_space, consume, literal,
  skip_digits, digits, integer_part, fraction, sign, exponent, number, ◌>>=◌, ◌>>◌,
}
use repost_go.Json.Strings.{
  escape, unicode_escape, low_escape, hex_unit, hex_digit, hex_from, low_unit, string_end,
  string_from, check_value, string,
}
use repost_go.Prelude.{
  ℕ, zero, suc, ◌+◌, ◌*◌, ◌≤◌, ◌<◌, ◌≡◌, refl, Bool, true, false, Option, Option-cases, none, some,
  [], ◌∷◌, Bytes, arith, length, length-drop, inl, inr,
}

-- The loop ended; where it succeeded, the value satisfies `P`.
abbrev pub Ends {ℓ} : {A : Type ℓ} → (A → Type 0) → Outcome A → Type 0
Ends P (ok a) = P a
Ends P (failed e) = Unit
Ends P out_of_fuel = ⊥

pub Ends-bind {ℓ κ} :
    {A : Type ℓ} {B : Type κ} (P : A → Type 0) (Q : B → Type 0) (m : Outcome A) (f : A → Outcome B)
    → Ends P m
    → ((a : A) → P a → Ends Q (f a))
    → Ends Q (m >>= f)
unfolding ◌>>=◌
Ends-bind P Q (ok a) f h k = k a h
Ends-bind P Q (failed e) f h k = tt
Ends-bind P Q out_of_fuel f h k = absurd h

pub Ends-require {κ} :
    {B : Type κ} (Q : B → Type 0) (b : Bool) (e : Failure) (k : Outcome B)
    → (b ≡ true → Ends Q k)
    → Ends Q (require b e >> k)
unfolding ◌>>=◌ require
Ends-require Q true e k h = h refl
Ends-require Q false e k h = tt

-- At most `n` bytes are left.
abbrev pub Left : ℕ → Scanner → Type 0
Left n s = length s.rest ≤ n

abbrev pub LeftBytes : ℕ → Bytes → Type 0
LeftBytes n s = length s ≤ n

pub skip_space-le : (s : Bytes) → length (skip_space s) ≤ length s
unfolding skip_space
skip_space-le [] = omega arith
skip_space-le (c ∷ cs) = ground (arith, skip_space-le cs)

pub consume-le : (b : ℕ) (s : Bytes) → length (consume b s).1 ≤ length s
unfolding consume
consume-le b [] = omega arith
consume-le b (c ∷ cs) = ground arith

-- A byte that is consumed is gone.
pub consume-lt : (b : ℕ) (s : Bytes) → (consume b s).0 ≡ true → length (consume b s).1 < length s
unfolding consume
consume-lt b [] h = ground arith
consume-lt b (c ∷ cs) h = ground arith

skip_digits-le : (s : Bytes) → length (skip_digits s) ≤ length s
unfolding skip_digits
skip_digits-le [] = omega arith
skip_digits-le (c ∷ cs) = ground (arith, skip_digits-le cs)

digits-Ends : (n : ℕ) (s : Bytes) → length s ≤ n → Ends (LeftBytes n) (digits s)
unfolding digits
digits-Ends n s h = ground (arith, skip_digits-le s)

integer_part-Ends : (n : ℕ) (s : Bytes) → length s ≤ n → Ends (LeftBytes n) (integer_part s)
unfolding integer_part
integer_part-Ends n s h = ground (arith, consume-le b'0' s, skip_digits-le (consume b'0' s).1)

fraction-Ends : (n : ℕ) (s : Bytes) → length s ≤ n → Ends (LeftBytes n) (fraction s)
unfolding fraction
fraction-Ends n s h = ground (arith, consume-le b'.' s, digits-Ends n (consume b'.' s).1)

sign-le : (s : Bytes) → length (sign s) ≤ length s
unfolding sign
sign-le [] = omega arith
sign-le (c ∷ cs) = ground arith

exponent-Ends : (n : ℕ) (s : Bytes) → length s ≤ n → Ends (LeftBytes n) (exponent s)
unfolding exponent
exponent-Ends n [] h = h
exponent-Ends n (c ∷ cs) h = ground (arith, sign-le cs, digits-Ends n (sign cs))

pub token-Ends : (n : ℕ) (s : Scanner) → Left n s → Ends (Left n) (token s)
unfolding token
token-Ends n s h = ground arith

pub number-Ends : (n : ℕ) (s : Scanner) → Left n s → Ends (Left n) (number s)
unfolding number
number-Ends n s h = Ends-require (Left n) _ _ _ λ _.
    Ends-bind (LeftBytes n) (Left n) _ _
      (integer_part-Ends n (consume b'-' s.rest).1 (omega (arith, consume-le b'-' s.rest)))
      λ a p. Ends-bind (LeftBytes n) (Left n) _ _ (fraction-Ends n a p) λ b q.
        Ends-bind (LeftBytes n) (Left n) _ _ (exponent-Ends n b q)
          λ c r. Ends-require (Left n) _ _ _ λ _. token-Ends n _ r

pub literal-Ends : (n : ℕ) (text : Bytes) (s : Scanner) → Left n s → Ends (Left n) (literal text s)
unfolding literal token ◌>>=◌ require
literal-Ends n text s h = ground (arith, length-drop (length text) s.rest)

hex_from-le :
    (n value : ℕ) (s : Bytes) (v : ℕ) (r : Bytes)
    → hex_from n value s ≡ some (v, r)
    → length r ≤ length s
unfolding hex_from
hex_from-le zero value s v r h = ground arith
hex_from-le (suc n) value [] v r h = ground arith
hex_from-le (suc n) value (c ∷ cs) v r h = elim (Option-cases (hex_digit c)) [
  | inl e ↦ absurd (cc (rw (e, hex_from) at h))
  | inr (d, e) ↦ omega (arith, hex_from-le n (value * 16 + d) cs v r (rw (e, hex_from) at h))
]

hex_unit-Ends :
    (n : ℕ) (s : Bytes)
    → length s ≤ n
    → (v : ℕ) (r : Bytes) → hex_unit s ≡ some (v, r)
    → length r ≤ n
unfolding hex_unit
hex_unit-Ends n s h v r e = omega (arith, hex_from-le 4 0 s v r e)

low_escape-Ends : (n : ℕ) (s : Bytes) → length s ≤ n → Ends (LeftBytes n) (low_escape s)
unfolding low_escape low_unit
low_escape-Ends n [] h = tt
low_escape-Ends n (a ∷ []) h = tt
low_escape-Ends n (a ∷ b ∷ r) h = elim (Option-cases (hex_unit r)) [
  | inl e ↦ ground (arith, e)
  | inr ((v, t), e) ↦ ground (arith, e, hex_unit-Ends n r (omega arith) v t e)
]

unicode_escape-Ends : (n : ℕ) (s : Bytes) → length s ≤ n → Ends (LeftBytes n) (unicode_escape s)
unfolding unicode_escape
unicode_escape-Ends n s h = elim (Option-cases (hex_unit s)) [
  | inl e ↦ ground (arith, e)
  | inr ((v, t), e) ↦
      ground (arith, e, hex_unit-Ends n s h v t e, low_escape-Ends n t (hex_unit-Ends n s h v t e))
]

escape-Ends : (n : ℕ) (s : Bytes) → length s ≤ n → Ends (LeftBytes n) (escape s)
unfolding escape
escape-Ends n [] h = tt
escape-Ends n (c ∷ cs) h = ground (arith, unicode_escape-Ends n cs)

string_end-Ends :
    (f n : ℕ) (s : Bytes) → length s < f → length s ≤ n → Ends (LeftBytes n) (string_end f s)
unfolding string_end
string_end-Ends zero n s h k = absurd (omega arith)
string_end-Ends (suc f) n [] h k = tt
string_end-Ends (suc f) n (c ∷ cs) h k =
    let escaped : Ends (LeftBytes n) (escape cs >>= string_end f) =
      Ends-bind (LeftBytes (length cs)) (LeftBytes n) (escape cs) (string_end f)
        (escape-Ends (length cs) cs (omega arith))
        (λ r p. string_end-Ends f n r (omega arith) (omega arith)) in
    ground (arith, escaped, string_end-Ends f n cs)

abbrev pub LeftString : ℕ → Bytes × Scanner → Type 0
LeftString n (v, s) = length s.rest ≤ n

abbrev LeftText : ℕ → Bytes × Bytes → Type 0
LeftText n (v, s) = length s ≤ n

check_value-Ends :
    (name : Bool) (n : ℕ) (end : Bytes) (v : Option Bytes)
    → length end ≤ n
    → Ends (LeftText n) (check_value name end v)
unfolding check_value
check_value-Ends name n end none h = tt
check_value-Ends name n end (some v) h = ground arith

string_from-Ends :
    (name : Bool) (n : ℕ) (s : Bytes) → length s ≤ n → Ends (LeftText n) (string_from name s)
unfolding string_from
string_from-Ends name n [] h = tt
string_from-Ends name n (q ∷ cs) h =
    Ends-bind (LeftBytes n) (LeftText n) _ _
      (string_end-Ends (suc (length cs)) n cs (omega arith) (omega arith))
      (λ end p. check_value-Ends name n end _ p)

pub string-Ends :
    (name : Bool) (n : ℕ) (s : Scanner) → Left n s → Ends (LeftString n) (string name s)
unfolding string
string-Ends name n s h =
    Ends-bind (LeftText n) (LeftString n) _ _ (string_from-Ends name n s.rest h) λ (v, end) p. p
