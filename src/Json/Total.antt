-- ===== src/Json/Total.antt =====
-- internal/strictjson/parser.go: the recursion over values, against the fuel of `check`.
use repost_go.Json.Progress.{
  Ends, Ends-bind, Ends-require, Left, LeftString, skip_space-le, consume-le, consume-lt,
  token-Ends, number-Ends, literal-Ends, string-Ends,
}
use repost_go.Json.Scan.{
  Outcome, ok, failed, out_of_fuel, Scanner, whitespace, token, consume, consumes, ◌>>=◌,
}
use repost_go.Json.{
  dispatch, close_or_enter, close_or_next, member_name, value, object, members, array, elements,
  parse_document, check, scalar_string, advance,
}
use repost_go.Prelude.{
  ℕ, zero, suc, ◌+◌, ◌*◌, ◌-◌, ◌≤◌, ◌<◌, ◌≡◌, ◌≢◌, refl, ap, ◌∙◌, true, false, List, [], ◌∷◌, Bytes,
  arith, length, Bool-cases, inl, inr,
}

whitespace-Left : (n : ℕ) (s : Scanner) → Left n s → Left n (whitespace s)
unfolding whitespace
whitespace-Left n s h = omega (arith, skip_space-le s.rest)

scalar_string-Ends : (n : ℕ) (s : Scanner) → Left n s → Ends (Left n) (scalar_string s)
scalar_string-Ends n s h =
    Ends-bind (Left n) (Left n) _ _ (token-Ends n s h)
      λ t p. Ends-bind (LeftString n) (Left n) _ _ (string-Ends false n t p) λ (v, u) q. q

dispatch-Ends :
    (n : ℕ) (as_object as_array : Scanner → Outcome Scanner) (s : Scanner) (r : Bytes)
    → s.rest ≡ r
    → Left n s
    → ((c : ℕ) (cs : Bytes) → r ≡ c ∷ cs → Ends (Left n) (as_object s))
    → ((c : ℕ) (cs : Bytes) → r ≡ c ∷ cs → Ends (Left n) (as_array s))
    → Ends (Left n) (dispatch as_object as_array s r)
unfolding dispatch
dispatch-Ends n as_object as_array s [] e h o a = tt
dispatch-Ends n as_object as_array s (c ∷ cs) e h o a = ground (
  arith,
  o c cs refl,
  a c cs refl,
  scalar_string-Ends n s h,
  number-Ends n s h,
  literal-Ends n (b't' ∷ b'r' ∷ b'u' ∷ b'e' ∷ []) s h,
  literal-Ends n (b'f' ∷ b'a' ∷ b'l' ∷ b's' ∷ b'e' ∷ []) s h,
  literal-Ends n (b'n' ∷ b'u' ∷ b'l' ∷ b'l' ∷ []) s h,
)

Ends-mono : (n m : ℕ) (o : Outcome Scanner) → Ends (Left m) o → m ≤ n → Ends (Left n) o
Ends-mono n m (ok s) h k = omega arith
Ends-mono n m (failed e) h k = tt
Ends-mono n m out_of_fuel h k = h

close_or_next-Ends :
    (n close : ℕ) (again : Scanner → Outcome Scanner) (s : Scanner)
    → Left n s
    → (0 < n → (t : Scanner) → Left (n - 1) t → Ends (Left (n - 1)) (again t))
    → Ends (Left n) (close_or_next close again s)
unfolding close_or_next
close_or_next-Ends n close again s h again-Ends =
    let a = whitespace-Left n s h in
    let t : Scanner = (consumes close (whitespace s)).1 in
    let p : Left n t = omega (arith, consume-le close (whitespace s).rest) in
    let u : Scanner = (consumes b',' t).1 in
    elim (Bool-cases (consume close (whitespace s).rest).0) [
      | inl e ↦ ground (arith, e, token-Ends n t p)
      | inr e ↦ elim (Bool-cases (consume b',' t.rest).0) [
        | inl f ↦
            let q : Left (n - 1) u = omega (arith, consume-lt b',' t.rest f) in
            ground (
              arith,
              e,
              f,
              Ends-mono n (n - 1) (again u)
                  (again-Ends (omega (arith, consume-lt b',' t.rest f)) u q) (omega arith),
            )
        | inr f ↦ ground (arith, e, f)
      ]
    ]

close_or_enter-Ends :
    (n close : ℕ) (loop : Scanner → Outcome Scanner) (s : Scanner) (c : ℕ) (cs : Bytes)
    → s.rest ≡ c ∷ cs
    → Left n s
    → ((t : Scanner) → Left (n - 1) t → Ends (Left (n - 1)) (loop t))
    → Ends (Left n) (close_or_enter close loop s)
unfolding close_or_enter
close_or_enter-Ends n close loop s c cs r h loop-Ends =
    let inside : Left (n - 1) (advance s) = rw r (omega (arith, ap length r)) in
    let a = whitespace-Left (n - 1) (advance s) inside in
    let t : Scanner = (consumes close (whitespace (advance s))).1 in
    let p : Left (n - 1) t = omega (arith, consume-le close (whitespace (advance s)).rest) in
    elim (Bool-cases (consume close (whitespace (advance s)).rest).0) [
      | inl e ↦ ground (arith, e, token-Ends n t (omega arith))
      | inr e ↦ ground (arith, e, Ends-mono n (n - 1) (loop t) (loop-Ends t p) (omega arith))
    ]

member_name-Ends :
    (n count : ℕ) (keys : List Bytes) (s : Scanner)
    → Left n s
    → Ends (LeftString n) (member_name count keys s)
unfolding member_name
member_name-Ends n count keys s h = Ends-require (LeftString n) _ _ _ λ _.
    Ends-bind (Left n) (LeftString n) _ _ (token-Ends n (whitespace s) (whitespace-Left n s h))
      λ u p. Ends-bind (LeftString n) (LeftString n) _ _ (string-Ends true n u p) λ (key, v) q.
        Ends-require (LeftString n) _ _ _ λ _. Ends-require (LeftString n) _ _ _ λ _.
          Ends-require (LeftString n) _ _ _
            λ _. omega (arith, consume-le b':' (whitespace v).rest, whitespace-Left n v q)

-- `token` leaves the rest as it is.
token-then :
    (n : ℕ) (s : Scanner) (f : Scanner → Outcome Scanner)
    → ((t : Scanner) → t.rest ≡ s.rest → Ends (Left n) (f t))
    → Ends (Left n) (token s >>= f)
unfolding token ◌>>=◌
token-then n s f h = ground (arith, h (record s { tokens = s.tokens + 1 }) refl)

-- For an object or an array whose opening byte is at the head.
abbrev Opens : ℕ → Scanner → Type 0
Opens n s = (c : ℕ) × (cs : Bytes) × (s.rest ≡ c ∷ cs) × Left n s

mutual
  unfolding value

  value-Ends :
      (f n depth : ℕ) (s : Scanner) → Left n s → 3 * n + 1 ≤ f → Ends (Left n) (value f depth s)
  value-Ends zero n depth s h k = absurd (omega arith)
  value-Ends (suc f) n depth s h k =
      let p = whitespace-Left n s h in
      dispatch-Ends n (object f (depth + 1)) (array f (depth + 1)) (whitespace s) _ refl p
        (λ c cs e. object-Ends f n (depth + 1) (whitespace s) (c, cs, e, p) (omega arith))
        (λ c cs e. array-Ends f n (depth + 1) (whitespace s) (c, cs, e, p) (omega arith))

  object-Ends :
      (f n depth : ℕ) (s : Scanner) → Opens n s → 3 * n ≤ f → Ends (Left n) (object f depth s)
  object-Ends zero n depth s (c, cs, e, h) k = absurd (omega (arith, ap length e))
  object-Ends (suc f) n depth s (c, cs, e, h) k = Ends-require (Left n) _ _ _ λ _.
      token-then n s _ λ t r.
        close_or_enter-Ends n b'}' (members f depth 1 []) t c cs (r ∙ e)
          (omega (arith, ap length r))
          (λ u q. members-Ends f (n - 1) depth 1 [] u q (omega (arith, ap length e)))

  members-Ends :
      (f n depth count : ℕ) (keys : List Bytes) (s : Scanner)
      → Left n s
      → 3 * n + 2 ≤ f
      → Ends (Left n) (members f depth count keys s)
  members-Ends zero n depth count keys s h k = absurd (omega arith)
  members-Ends (suc f) n depth count keys s h k =
      Ends-bind (LeftString n) (Left n) _ _ (member_name-Ends n count keys s h) λ (key, t) p.
        Ends-bind (Left n) (Left n) _ _ (value-Ends f n depth t p (omega arith)) λ u q.
          close_or_next-Ends n b'}' (members f depth (count + 1) (key ∷ keys)) u q
            (λ l v r. members-Ends f (n - 1) depth (count + 1) (key ∷ keys) v r (omega arith))

  array-Ends :
      (f n depth : ℕ) (s : Scanner) → Opens n s → 3 * n ≤ f → Ends (Left n) (array f depth s)
  array-Ends zero n depth s (c, cs, e, h) k = absurd (omega (arith, ap length e))
  array-Ends (suc f) n depth s (c, cs, e, h) k = Ends-require (Left n) _ _ _ λ _.
      token-then n s _ λ t r.
        close_or_enter-Ends n b']' (elements f depth) t c cs (r ∙ e) (omega (arith, ap length r))
          (λ u q. elements-Ends f (n - 1) depth u q (omega (arith, ap length e)))

  elements-Ends :
      (f n depth : ℕ) (s : Scanner) → Left n s → 3 * n + 2 ≤ f → Ends (Left n) (elements f depth s)
  elements-Ends zero n depth s h k = absurd (omega arith)
  elements-Ends (suc f) n depth s h k =
      Ends-bind (Left n) (Left n) _ _ (value-Ends f n depth s h (omega arith)) λ t p.
        close_or_next-Ends n b']' (elements f depth) t p
          (λ l v r. elements-Ends f (n - 1) depth v r (omega arith))

parse_document-Ends :
    (f : ℕ) (text : Bytes)
    → 3 * length text + 1 ≤ f
    → Ends (Left (length text)) (parse_document f text)
unfolding parse_document
parse_document-Ends f text h =
    let start : Scanner = record { rest = text; tokens = 0 } in
    let p = whitespace-Left (length text) start (omega arith) in
    Ends-bind (Left (length text)) (Left (length text)) _ _
      (value-Ends f (length text) 0 (whitespace start) p h)
      λ s q. Ends-require (Left (length text)) _ _ _ λ _. whitespace-Left (length text) s q

Ends-ne : (n : ℕ) (o : Outcome Scanner) → Ends (Left n) o → o ≢ out_of_fuel
Ends-ne n (ok s) h e = cc
Ends-ne n (failed x) h e = cc
Ends-ne n out_of_fuel h e = h

-- The scan of a document ends on every input within the fuel that `check` hands it: every run of
-- the loops of the source finishes, with a verdict.
pub check-ne-out_of_fuel : (text : Bytes) → check text ≢ out_of_fuel
unfolding check
check-ne-out_of_fuel text =
    let n = length text in
    Ends-ne n _ (
      Ends-require (Left n) _ _ _
        λ _. Ends-require (Left n) _ _ _ λ _. parse_document-Ends (4 * n + 4) text (omega arith))
