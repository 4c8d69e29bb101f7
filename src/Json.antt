-- ===== src/Json.antt =====
-- internal/strictjson/parser.go: values, objects, arrays and the document. The recursion of the
-- source is not structural, so each call costs a unit of fuel.
pub mod Scan
pub mod Strings
pub mod Progress
pub mod Total
pub mod Rules
pub mod Limits
pub mod Grammar
pub mod Decode
use repost_go.Prelude.{
  ℕ, zero, suc, ◌+◌, ◌-◌, ◌*◌, Bool, true, false, ◌&&◌, ◌||◌, not, Option, none, some, List, [],
  ◌∷◌, ◌++◌, Bytes, length, leb, ltb, equal, drop, ◌==◌, if◌then◌else◌,
}
use repost_go.Text.Utf8.{valid}
use Scan.{
  Scanner, Outcome, ok, failed, out_of_fuel, protocol, limit, require, at_head, whitespace, token,
  consume, consumes, literal, number, ◌>>=◌, ◌>>◌, max_document_bytes, max_nesting_depth,
  max_members_per_object,
}
use Strings.{string}

abbrev pub member : Bytes → List Bytes → Bool
member key [] = false
member key (k ∷ ks) = equal k key || member key ks

-- `s.index++`
abbrev pub advance : Scanner → Scanner
advance s = record s { rest = drop 1 s.rest }

abbrev pub scalar_string : Scanner → Outcome Scanner
scalar_string s = do t ← token s; (_, u) ← string false t; ok u

-- The switch of `value` on the byte at the head of the rest.
unfoldable pub dispatch :
    (Scanner → Outcome Scanner) → (Scanner → Outcome Scanner) → Scanner → Bytes → Outcome Scanner
dispatch as_object as_array s [] = failed protocol
dispatch as_object as_array s (c ∷ _) =
    if c == b'{'
    then as_object s
    else if c == b'['
    then as_array s
    else if c == b'"'
    then scalar_string s
    else if c == b't'
    then literal (b't' ∷ b'r' ∷ b'u' ∷ b'e' ∷ []) s
    else if c == b'f'
    then literal (b'f' ∷ b'a' ∷ b'l' ∷ b's' ∷ b'e' ∷ []) s
    else if c == b'n'
    then literal (b'n' ∷ b'u' ∷ b'l' ∷ b'l' ∷ []) s
    else number s

-- Behind the opening byte: the closing one, or the loop over what is inside.
unfoldable pub close_or_enter : ℕ → (Scanner → Outcome Scanner) → Scanner → Outcome Scanner
close_or_enter close loop s =
    let (closed, t) = consumes close (whitespace (advance s)) in
    elim closed [ true ↦ token t | false ↦ loop t ]

-- Behind a member or an element: the closing byte, or a comma and the next turn of the loop.
unfoldable pub close_or_next : ℕ → (Scanner → Outcome Scanner) → Scanner → Outcome Scanner
close_or_next close again s =
    let (closed, t) = consumes close (whitespace s) in
    let (comma, u) = consumes b',' t in
    elim closed [ true ↦ token t | false ↦ elim comma [ true ↦ again u | false ↦ failed protocol ] ]

-- The name of a member, with the checks that follow it, up to the colon.
unfoldable pub member_name : ℕ → List Bytes → Scanner → Outcome (Bytes × Scanner)
member_name count keys s = do
  let t = whitespace s
  require (at_head (λ c. c == b'"') t.rest) protocol
  u ← token t
  (key, v) ← string true u
  require (not (member key keys)) protocol
  require (leb count max_members_per_object) limit
  let (colon, w) = consumes b':' (whitespace v)
  require colon protocol
  ok (key, w)

unfoldable mutual
  pub value : ℕ → ℕ → Scanner → Outcome Scanner
  value zero depth s = out_of_fuel
  value (suc f) depth s =
      let t = whitespace s in dispatch (object f (depth + 1)) (array f (depth + 1)) t t.rest

  pub object : ℕ → ℕ → Scanner → Outcome Scanner
  object zero depth s = out_of_fuel
  object (suc f) depth s = do
    require (leb depth max_nesting_depth) limit
    t ← token s
    close_or_enter b'}' (members f depth 1 []) t

  -- The loop of `object`; `count` is `members`.
  pub members : ℕ → ℕ → ℕ → List Bytes → Scanner → Outcome Scanner
  members zero depth count keys s = out_of_fuel
  members (suc f) depth count keys s = do
    (key, t) ← member_name count keys s
    u ← value f depth t
    close_or_next b'}' (members f depth (count + 1) (key ∷ keys)) u

  pub array : ℕ → ℕ → Scanner → Outcome Scanner
  array zero depth s = out_of_fuel
  array (suc f) depth s = do
    require (leb depth max_nesting_depth) limit
    t ← token s
    close_or_enter b']' (elements f depth) t

  -- The loop of `array`.
  pub elements : ℕ → ℕ → Scanner → Outcome Scanner
  elements zero depth s = out_of_fuel
  elements (suc f) depth s = do t ← value f depth s; close_or_next b']' (elements f depth) t

-- `scanner.parse`
unfoldable pub parse_document : ℕ → Bytes → Outcome Scanner
parse_document fuel text = do
  s ← value fuel 0 (whitespace (record { rest = text; tokens = 0 }))
  let t = whitespace s
  require (length t.rest == 0) protocol
  ok t

abbrev is_bom : Bytes → Bool
is_bom (a ∷ b ∷ c ∷ _) = a == 0xef && b == 0xbb && c == 0xbf
is_bom _ = false

-- The checks of `Parse`; what it returns on success is decoded from the same bytes.
unfoldable pub check : Bytes → Outcome Scanner
check text = do
  require (leb (length text) max_document_bytes) limit
  require (not (is_bom text) && valid text) protocol
  parse_document (4 * length text + 4) text
