-- ===== src/Http1/FieldLines.antt =====
-- internal/h1/h1.go: `parseHeader`, its results and the lines that they print as.
use repost_go.Http1.LineEnds.{cut-absent}
use repost_go.Http1.Lines.{parse_header, field_from, checked_field, starts_blank, value_byte}
use repost_go.Http1.{Header, ok, ◌>>=◌, require, protocol}
use repost_go.Http1.Outcomes.{Real, Then, Then-require, Then-ok, Then-failed, Then-of}
use repost_go.Prelude.{
  ℕ, ◌≤◌, ◌≡◌, refl, ap, ◌∙◌, Bool, true, false, ◌||◌, Option, none, some, [], ◌∷◌, ◌++◌, Bytes,
  arith, length, ◌==◌, not_zero, leb→le, if_P,
}
use repost_go.Response.Headers.{max_header_name_bytes, max_header_value_bytes, token_byte}
use repost_go.Text.Utf8.{valid}
use repost_go.Text.{has_byte, cut, trim_ows, trim_left, trim_right, all_bytes}

-- What every header field has that the reader lets through.
pub record IsField (h : Header) : Type 0 where
  pub named : 1 ≤ length h.name
  pub short_name : length h.name ≤ max_header_name_bytes
  pub token : all_bytes token_byte h.name ≡ true
  pub short_value : length h.value ≤ max_header_value_bytes
  pub text : valid h.value ≡ true
  pub printable : all_bytes value_byte h.value ≡ true
  pub trimmed : trim_ows h.value ≡ h.value

trim_right_idem : (s : Bytes) → trim_right (trim_right s) ≡ trim_right s
unfolding trim_right
trim_right_idem [] = refl
trim_right_idem (c ∷ cs) = ground (arith, trim_right_idem cs)

trim_left-kept :
    (c : ℕ) (cs : Bytes)
    → (c == b' ' || c == b'\t') ≡ false
    → trim_left (trim_right (c ∷ cs)) ≡ trim_right (c ∷ cs)
unfolding trim_left trim_right
trim_left-kept c cs h = ground (arith, h)

trim_left-trim_right : (s : Bytes) → trim_left (trim_right (trim_left s)) ≡ trim_right (trim_left s)
unfolding trim_left trim_right
trim_left-trim_right [] = refl
trim_left-trim_right (c ∷ cs) =
    if_P (λ t. trim_left (trim_right t) ≡ trim_right t) (c == b' ' || c == b'\t') (trim_left cs)
      (c ∷ cs) (λ h. trim_left-trim_right cs) λ h. trim_left-kept c cs h

trim_ows_idem : (s : Bytes) → trim_ows (trim_ows s) ≡ trim_ows s
unfolding trim_ows
trim_ows_idem s = ap trim_right (trim_left-trim_right s) ∙ trim_right_idem (trim_left s)

trim_ows-blank : (s : Bytes) → trim_ows (b' ' ∷ s) ≡ trim_ows s
unfolding trim_ows trim_left
trim_ows-blank s = refl

token_byte-plain : (c : ℕ) → token_byte c ≡ true → (c == b':' || c == b' ' || c == b'\t') ≡ false
unfolding token_byte has_byte
token_byte-plain c h = ground (arith, h)

token-colon : (s : Bytes) → all_bytes token_byte s ≡ true → has_byte b':' s ≡ false
unfolding all_bytes has_byte
token-colon [] h = refl
token-colon (c ∷ s) h =
    ground (arith, token_byte-plain c (ground (arith, h)), token-colon s (ground (arith, h)))

token-starts :
    (s t : Bytes) → 1 ≤ length s → all_bytes token_byte s ≡ true → starts_blank (s ++ t) ≡ false
unfolding all_bytes starts_blank
token-starts [] t l h = absurd (omega arith)
token-starts (c ∷ s) t l h = ground (arith, token_byte-plain c (ground (arith, h)))

-- `name: value`
unfoldable pub print_field : Header → Bytes
print_field h = h.name ++ (b':' ∷ b' ' ∷ h.value)

checked_field-IsField :
    (blank : Bool) (name value : Bytes)
    → trim_ows value ≡ value
    → Then IsField (checked_field blank name value)
unfolding checked_field Real
checked_field-IsField blank name value t =
    let r = Then-require {B = Header} IsField in
    r _ _ _ tt λ _. r _ _ _ tt λ a. r _ _ _ tt λ b. r _ _ _ tt λ c. r _ _ _ tt λ d. r _ _ _ tt λ e.
      r _ _ _ tt λ f. Then-ok IsField _ (record {
        named = not_zero _ a;
        short_name = leb→le _ _ b;
        token = c;
        short_value = leb→le _ _ d;
        text = e;
        printable = f;
        trimmed = t;
      })

field_from-IsField :
    (blank : Bool) (name : Bytes) (behind : Option Bytes)
    → Then IsField (field_from blank name behind)
unfolding field_from Real
field_from-IsField blank name none = Then-failed IsField protocol tt
field_from-IsField blank name (some rest) =
    checked_field-IsField blank name (trim_ows rest) (trim_ows_idem rest)

pub parse_header-IsField : (line : Bytes) → Then IsField (parse_header line)
unfolding parse_header
parse_header-IsField line = field_from-IsField (starts_blank line) _ _

checked_field-accepts : (h : Header) → IsField h → checked_field false h.name h.value ≡ ok h
unfolding checked_field require ◌>>=◌
checked_field-accepts h f =
    ground (arith, f.named, f.short_name, f.token, f.short_value, f.text, f.printable)

parse_header-cut :
    (line name rest : Bytes)
    → cut b':' line ≡ (name, some rest)
    → starts_blank line ≡ false
    → parse_header line ≡ field_from false name (some rest)
unfolding parse_header
parse_header-cut line name rest e k = cc

-- The field that a line is reads back from its name and its value.
parse_header-print : (h : Header) → IsField h → parse_header (print_field h) ≡ ok h
unfolding print_field field_from
parse_header-print h f =
    parse_header-cut _ h.name (b' ' ∷ h.value)
      (cut-absent b':' h.name (b' ' ∷ h.value) (token-colon h.name f.token))
      (token-starts h.name _ f.named f.token)
    ∙ ap (checked_field false h.name) (trim_ows-blank h.value ∙ f.trimmed)
    ∙ checked_field-accepts h f

-- A field that the reader takes from a line, printed as its name, a colon, a blank and its value,
-- is read as the same field again.
pub parse_header-print_field :
    (line : Bytes) (h : Header) → parse_header line ≡ ok h → parse_header (print_field h) ≡ ok h
parse_header-print_field line h e =
    parse_header-print h (Then-of IsField (parse_header line) h (parse_header-IsField line) e)
