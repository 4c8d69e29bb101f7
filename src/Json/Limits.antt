-- ===== src/Json/Limits.antt =====
-- internal/strictjson/parser.go: the size and the token count of a document that is accepted.
use repost_go.Json.Rules.{
  Then, Then-bind, Then-require, Then-ok, any, any-fuel, any-failed, Then-of,
}
use repost_go.Json.Scan.{
  Outcome, Failure, ok, failed, out_of_fuel, Scanner, whitespace, token, consumes, literal, number,
  max_tokens, max_document_bytes,
}
use repost_go.Json.Strings.{string}
use repost_go.Json.{
  dispatch, close_or_enter, close_or_next, value, object, members, array, elements, parse_document,
  check, scalar_string, advance,
}
use repost_go.Prelude.{
  ℕ, zero, suc, ◌+◌, ◌*◌, ◌≤◌, ◌≡◌, refl, Bool, true, false, List, [], ◌∷◌, Bytes, arith, length,
  ◌==◌,
}

abbrev Capped : Scanner → Type 0
Capped s = s.tokens ≤ max_tokens

abbrev CappedString : Bytes × Scanner → Type 0
CappedString (v, s) = Capped s

token-Capped : (s : Scanner) → Then Capped (token s)
unfolding token Then
token-Capped s = ground arith

literal-Capped : (text : Bytes) (s : Scanner) → Then Capped (literal text s)
unfolding literal
literal-Capped text s =
    Then-require Capped _ _ _
      λ _. Then-bind Capped Capped _ _ (token-Capped s) λ t p. Then-ok Capped _ p

number-Capped : (s : Scanner) → Then Capped (number s)
unfolding number
number-Capped s = Then-require Capped _ _ _ λ _.
    Then-bind (λ _. Unit) Capped _ _ (any _)
      λ a _.
        Then-bind (λ _. Unit) Capped _ _ (any _)
          λ b _.
            Then-bind (λ _. Unit) Capped _ _ (any _)
              λ c _. Then-require Capped _ _ _ λ _. token-Capped _

string-Capped : (b : Bool) (s : Scanner) → Capped s → Then CappedString (string b s)
unfolding string
string-Capped b s h =
    Then-bind (λ _. Unit) CappedString _ _ (any _) λ (v, e) _. Then-ok CappedString _ h

scalar_string-Capped : (s : Scanner) → Then Capped (scalar_string s)
scalar_string-Capped s = Then-bind Capped Capped _ _ (token-Capped s) λ t p.
    Then-bind CappedString Capped _ _ (string-Capped false t p) λ (v, u) q. Then-ok Capped u q

dispatch-Capped :
    (o a : Scanner → Outcome Scanner) (s : Scanner) (r : Bytes)
    → Then Capped (o s)
    → Then Capped (a s)
    → Then Capped (dispatch o a s r)
unfolding dispatch
dispatch-Capped o a s [] h k = unfold Then in tt
dispatch-Capped o a s (c ∷ cs) h k = ground (
  arith,
  scalar_string-Capped s,
  number-Capped s,
  literal-Capped (b't' ∷ b'r' ∷ b'u' ∷ b'e' ∷ []) s,
  literal-Capped (b'f' ∷ b'a' ∷ b'l' ∷ b's' ∷ b'e' ∷ []) s,
  literal-Capped (b'n' ∷ b'u' ∷ b'l' ∷ b'l' ∷ []) s,
)

close_or_enter-Capped :
    (close : ℕ) (loop : Scanner → Outcome Scanner) (s : Scanner)
    → ((t : Scanner) → Then Capped (loop t))
    → Then Capped (close_or_enter close loop s)
unfolding close_or_enter
close_or_enter-Capped close loop s h =
    let t : Scanner = (consumes close (whitespace (advance s))).1 in
    ground (arith, token-Capped t, h t)

close_or_next-Capped :
    (close : ℕ) (again : Scanner → Outcome Scanner) (s : Scanner)
    → ((t : Scanner) → Then Capped (again t))
    → Then Capped (close_or_next close again s)
unfolding close_or_next
close_or_next-Capped close again s h =
    let t : Scanner = (consumes close (whitespace s)).1 in
    ground (arith, token-Capped t, h (consumes b',' t).1, any-failed Capped Failure.protocol)

mutual
  unfolding value

  value-Capped : (f depth : ℕ) (s : Scanner) → Then Capped (value f depth s)
  value-Capped zero depth s = any-fuel Capped
  value-Capped (suc f) depth s =
      dispatch-Capped (object f (depth + 1)) (array f (depth + 1)) (whitespace s) _
        (object-Capped f (depth + 1) (whitespace s)) (array-Capped f (depth + 1) (whitespace s))

  object-Capped : (f depth : ℕ) (s : Scanner) → Then Capped (object f depth s)
  object-Capped zero depth s = any-fuel Capped
  object-Capped (suc f) depth s = Then-require Capped _ _ _ λ _.
      Then-bind Capped Capped _ _ (token-Capped s)
        λ t p. close_or_enter-Capped b'}' (members f depth 1 []) t (members-Capped f depth 1 [])

  members-Capped :
      (f depth count : ℕ) (keys : List Bytes) (s : Scanner)
      → Then Capped (members f depth count keys s)
  members-Capped zero depth count keys s = any-fuel Capped
  members-Capped (suc f) depth count keys s =
      Then-bind (λ _. Unit) Capped _ _ (any _)
        λ (key, t) _. Then-bind Capped Capped _ _ (value-Capped f depth t) λ u p.
          close_or_next-Capped b'}' (members f depth (count + 1) (key ∷ keys)) u
            (members-Capped f depth (count + 1) (key ∷ keys))

  array-Capped : (f depth : ℕ) (s : Scanner) → Then Capped (array f depth s)
  array-Capped zero depth s = any-fuel Capped
  array-Capped (suc f) depth s = Then-require Capped _ _ _ λ _.
      Then-bind Capped Capped _ _ (token-Capped s)
        λ t p. close_or_enter-Capped b']' (elements f depth) t (elements-Capped f depth)

  elements-Capped : (f depth : ℕ) (s : Scanner) → Then Capped (elements f depth s)
  elements-Capped zero depth s = any-fuel Capped
  elements-Capped (suc f) depth s =
      Then-bind Capped Capped _ _ (value-Capped f depth s)
        λ t p. close_or_next-Capped b']' (elements f depth) t (elements-Capped f depth)

-- What is left of an accepted document, and its tokens.
abbrev AtEnd : Scanner → Type 0
AtEnd s = (s.tokens ≤ max_tokens) × (s.rest ≡ [])

empty : (xs : Bytes) → length xs == 0 ≡ true → xs ≡ []
empty [] h = refl
empty (x ∷ xs) h = absurd (ground arith)

parse_document-AtEnd : (f : ℕ) (text : Bytes) → Then AtEnd (parse_document f text)
unfolding parse_document whitespace
parse_document-AtEnd f text =
    Then-bind Capped AtEnd _ _ (value-Capped f 0 _)
      λ s p. Then-require AtEnd _ _ _ λ e. Then-ok AtEnd _ (p, empty _ e)

abbrev Full : Bytes → Scanner → Type 0
Full text s = (length text ≤ max_document_bytes) × (s.tokens ≤ max_tokens) × (s.rest ≡ [])

with-size :
    (text : Bytes) (o : Outcome Scanner)
    → length text ≤ max_document_bytes
    → Then AtEnd o
    → Then (Full text) o
unfolding Then
with-size text (ok s) l (a, b) = (l, a, b)
with-size text (failed e) l h = tt
with-size text out_of_fuel l h = tt

check-Full : (text : Bytes) → Then (Full text) (check text)
unfolding check
check-Full text = Then-require (Full text) _ _ _ λ e. Then-require (Full text) _ _ _ λ _.
    with-size text (parse_document (4 * length text + 4) text) (ground (arith, e))
      (parse_document-AtEnd (4 * length text + 4) text)

-- The size, the scanner's own count of tokens, and the end.
pub check-AtEnd :
    (text : Bytes) (s : Scanner)
    → check text ≡ ok s
    → (length text ≤ max_document_bytes) × (s.tokens ≤ max_tokens) × (s.rest ≡ [])
check-AtEnd text s h = Then-of (Full text) (check text) s (check-Full text) h
