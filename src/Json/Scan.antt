-- ===== src/Json/Scan.antt =====
-- internal/strictjson/parser.go: the state of the scanner and its primitives. `rest` is the part
-- of the document from `index` on, so `index` is the length of the document less that of `rest`.
use repost_go.Prelude.{
  ℕ, ◌+◌, ◌-◌, Bool, true, false, ◌&&◌, ◌||◌, not, [], ◌∷◌, Bytes, length, take, drop, leb, ltb,
  ◌==◌, if◌then◌else◌,
}
use repost_go.Text.{has_prefix, is_digit, within}

abbrev pub max_document_bytes : ℕ
max_document_bytes = 1_048_576

abbrev pub max_nesting_depth : ℕ
max_nesting_depth = 32

abbrev pub max_tokens : ℕ
max_tokens = 10_000

abbrev pub max_field_name_bytes : ℕ
max_field_name_bytes = 64

abbrev pub max_scalar_string_bytes : ℕ
max_scalar_string_bytes = 8_192

abbrev pub max_scalar_string_chars : ℕ
max_scalar_string_chars = 8_192

abbrev pub max_number_chars : ℕ
max_number_chars = 128

abbrev pub max_members_per_object : ℕ
max_members_per_object = 16

pub data Failure : Type 0 where
  protocol limit : Failure

-- `out_of_fuel` stands for a loop that was cut off; the code has no such result.
pub data Outcome {ℓ} (A : Type ℓ) : Type ℓ where
  ok : A → Outcome A
  failed : Failure → Outcome A
  out_of_fuel : Outcome A

infixl 5 ◌>>=◌ ◌>>◌
unfoldable pub ◌>>=◌ {ℓ κ} : {A : Type ℓ} {B : Type κ} → Outcome A → (A → Outcome B) → Outcome B
ok a >>= f = f a
failed e >>= f = failed e
out_of_fuel >>= f = out_of_fuel

abbrev pub ◌>>◌ {ℓ} : {B : Type ℓ} → Outcome (Unit {0}) → Outcome B → Outcome B
m >> k = m >>= λ _. k

unfoldable pub require : Bool → Failure → Outcome (Unit {0})
require true e = ok tt
require false e = failed e

pub record Scanner : Type 0 where
  pub rest : Bytes
  pub tokens : ℕ

-- `s.index < len(s.data)` and a test of the byte there.
abbrev pub at_head : (ℕ → Bool) → Bytes → Bool
at_head p [] = false
at_head p (c ∷ cs) = p c

-- `data[start:index]`, from the rests at both places.
abbrev pub slice : Bytes → Bytes → Bytes
slice start end = take (length start - length end) start

is_space : ℕ → Bool
is_space c = c == b' ' || c == b'\t' || c == b'\n' || c == b'\r'

unfoldable pub skip_space : Bytes → Bytes
unfolding is_space
skip_space [] = []
skip_space (c ∷ cs) = if is_space c then skip_space cs else c ∷ cs

unfoldable pub whitespace : Scanner → Scanner
unfolding skip_space
whitespace s = record s { rest = skip_space s.rest }

unfoldable pub token : Scanner → Outcome Scanner
token s =
    if ltb max_tokens (s.tokens + 1) then failed limit else ok (record s { tokens = s.tokens + 1 })

unfoldable pub consume : ℕ → Bytes → Bool × Bytes
consume b [] = (false, [])
consume b (c ∷ cs) = if c == b then (true, cs) else (false, c ∷ cs)

abbrev pub consumes : ℕ → Scanner → Bool × Scanner
consumes b s = ((consume b s.rest).0, record s { rest = (consume b s.rest).1 })

unfoldable pub literal : Bytes → Scanner → Outcome Scanner
unfolding has_prefix token
literal text s = do
  require (has_prefix s.rest text) protocol
  t ← token s
  ok (record t { rest = drop (length text) t.rest })

unfoldable pub skip_digits : Bytes → Bytes
skip_digits [] = []
skip_digits (c ∷ cs) = if is_digit c then skip_digits cs else c ∷ cs

-- A non-empty run of digits.
unfoldable pub digits : Bytes → Outcome Bytes
unfolding skip_digits
digits s = if at_head is_digit s then ok (skip_digits s) else failed protocol

unfoldable pub integer_part : Bytes → Outcome Bytes
unfolding consume skip_digits
integer_part s =
    let (zero_led, t) = consume b'0' s in
    if zero_led
    then (if at_head is_digit t then failed protocol else ok t)
    else (if at_head (within b'1' b'9') t then ok (skip_digits t) else failed protocol)

unfoldable pub fraction : Bytes → Outcome Bytes
unfolding consume digits
fraction s = let (dot, t) = consume b'.' s in if dot then digits t else ok t

unfoldable pub sign : Bytes → Bytes
sign [] = []
sign (c ∷ cs) = if c == b'+' || c == b'-' then cs else c ∷ cs

unfoldable pub exponent : Bytes → Outcome Bytes
unfolding sign digits
exponent [] = ok []
exponent (c ∷ cs) = if c == b'e' || c == b'E' then digits (sign cs) else ok (c ∷ cs)

unfoldable pub number : Scanner → Outcome Scanner
unfolding consume integer_part fraction exponent token
number s = do
  let (minus, unsigned) = consume b'-' s.rest
  require (not (minus && not (at_head (λ _. true) unsigned))) protocol
  whole ← integer_part unsigned
  part ← fraction whole
  end ← exponent part
  require (leb (length s.rest - length end) max_number_chars) limit
  token (record s { rest = end })
