-- ===== src/Json/Grammar/Soundness.antt =====
-- internal/strictjson/parser.go: a document that is accepted, against the grammar.
use repost_go.Json.Grammar.Closing.{dispatch-Reads, close_or_enter-Reads, close_or_next-Reads}
use repost_go.Json.Grammar.Lexing.{
  Reads, OneToken, Then-map, token-OneToken, NameRead, member_name-NameRead,
}
use repost_go.Json.Grammar.{
  IsDocument, ValueAt, an_object, an_array, ObjectAt, no_members, some_members, MembersAt, a_member,
  MembersEnd, last_member, next_member, ArrayAt, no_elements, some_elements, ElementsAt, an_element,
  ElementsEnd, last_element, next_element,
}
use mathlib.Core.Path.{subst}
use repost_go.Json.Limits.{check-AtEnd}
use repost_go.Json.Rules.{Then, Then-bind, Then-require, Then-ok, any-fuel, Then-of}
use repost_go.Json.Scan.{ok, Scanner, whitespace, skip_space, max_nesting_depth}
use repost_go.Json.{value, object, members, array, elements, parse_document, check}
use repost_go.Prelude.{
  ℕ, zero, suc, ◌+◌, ◌*◌, ◌≤◌, ◌≡◌, refl, ap, ◌∙◌, true, List, [], ◌∷◌, Bytes, length, leb, leb→le,
  ◌==◌, arith,
}

mutual
  unfolding value whitespace

  value-Reads :
      (f d : ℕ) (s : Scanner) → Then (Reads (ValueAt d (skip_space s.rest)) s.tokens) (value f d s)
  value-Reads zero d s = any-fuel _
  value-Reads (suc f) d s =
      let t : Scanner = record s { rest = skip_space s.rest } in
      dispatch-Reads d t (object f (d + 1)) (array f (d + 1)) t.rest refl
        (λ r e. object-Reads f d t r e) (λ r e. array-Reads f d t r e)

  object-Reads :
      (f d : ℕ) (s : Scanner) (r : Bytes)
      → s.rest ≡ b'{' ∷ r
      → Then (Reads (ValueAt d s.rest) s.tokens) (object f (d + 1) s)
  object-Reads zero d s r e = any-fuel _
  object-Reads (suc f) d s r e =
      let Q : Scanner → Type 0 = Reads (ValueAt d s.rest) s.tokens in
      Then-require Q (leb (d + 1) max_nesting_depth) _ _ λ deep.
        Then-bind (OneToken s) Q _ _ (token-OneToken s) λ t o.
          let V : Bytes → ℕ → Type 0 = ObjectAt (d + 1) (skip_space r) in
          Then-map (Reads V t.tokens) Q _
            (close_or_enter-Reads V t b'}' b'{' (members f (d + 1) 1 []) r (o.same ∙ e)
              (λ u c. no_members c)
              λ u c k.
                Then-map (Reads (MembersAt (d + 1) 1 [] u.rest) u.tokens) (Reads V t.tokens) _
                  (members-Reads f (d + 1) 1 [] u)
                  λ v m. record {
                    n = m.n;
                    shape =
                        some_members (subst (λ x. MembersAt (d + 1) 1 [] x v.rest m.n) c m.shape);
                    count = m.count ∙ ap (λ x. x + m.n) k;
                  })
            λ v m. record {
              n = suc m.n;
              shape = an_object r e (leb→le _ _ deep) m.shape;
              count = omega (arith, m.count, o.more);
            }

  members-Reads :
      (f d count : ℕ) (keys : List Bytes) (s : Scanner)
      → Then (Reads (MembersAt d count keys s.rest) s.tokens) (members f d count keys s)
  members-Reads zero d count keys s = any-fuel _
  members-Reads (suc f) d count keys s =
      let Q : Scanner → Type 0 = Reads (MembersAt d count keys s.rest) s.tokens in
      Then-bind (NameRead count keys s) Q _ _ (member_name-NameRead count keys s) λ (key, t) name.
        Then-bind (Reads (ValueAt d (skip_space t.rest)) t.tokens) Q _ _ (value-Reads f d t)
          λ u one.
            let V : Bytes → ℕ → Type 0 = MembersEnd d count (key ∷ keys) u.rest in
            Then-map (Reads V u.tokens) Q _
              (close_or_next-Reads V u b'}' (members f d (count + 1) (key ∷ keys))
                (λ x c. last_member c)
                λ x c k.
                  Then-map (Reads (MembersAt d (count + 1) (key ∷ keys) x.rest) x.tokens)
                    (Reads V u.tokens) _ (members-Reads f d (count + 1) (key ∷ keys) x)
                    λ v m. record {
                      n = m.n;
                      shape = next_member x.rest c m.shape;
                      count = m.count ∙ ap (λ x. x + m.n) k;
                    })
              λ v m. record {
                n = suc (one.n + m.n);
                shape = a_member key t.rest u.rest name.name one.shape m.shape;
                count = omega (arith, m.count, one.count, name.tokens);
              }

  array-Reads :
      (f d : ℕ) (s : Scanner) (r : Bytes)
      → s.rest ≡ b'[' ∷ r
      → Then (Reads (ValueAt d s.rest) s.tokens) (array f (d + 1) s)
  array-Reads zero d s r e = any-fuel _
  array-Reads (suc f) d s r e =
      let Q : Scanner → Type 0 = Reads (ValueAt d s.rest) s.tokens in
      Then-require Q (leb (d + 1) max_nesting_depth) _ _ λ deep.
        Then-bind (OneToken s) Q _ _ (token-OneToken s) λ t o.
          let V : Bytes → ℕ → Type 0 = ArrayAt (d + 1) (skip_space r) in
          Then-map (Reads V t.tokens) Q _
            (close_or_enter-Reads V t b']' b'[' (elements f (d + 1)) r (o.same ∙ e)
              (λ u c. no_elements c)
              λ u c k.
                Then-map (Reads (ElementsAt (d + 1) u.rest) u.tokens) (Reads V t.tokens) _
                  (elements-Reads f (d + 1) u)
                  λ v m. record {
                    n = m.n;
                    shape = some_elements (subst (λ x. ElementsAt (d + 1) x v.rest m.n) c m.shape);
                    count = m.count ∙ ap (λ x. x + m.n) k;
                  })
            λ v m. record {
              n = suc m.n;
              shape = an_array r e (leb→le _ _ deep) m.shape;
              count = omega (arith, m.count, o.more);
            }

  elements-Reads :
      (f d : ℕ) (s : Scanner) → Then (Reads (ElementsAt d s.rest) s.tokens) (elements f d s)
  elements-Reads zero d s = any-fuel _
  elements-Reads (suc f) d s =
      let Q : Scanner → Type 0 = Reads (ElementsAt d s.rest) s.tokens in
      Then-bind (Reads (ValueAt d (skip_space s.rest)) s.tokens) Q _ _ (value-Reads f d s) λ u one.
        let V : Bytes → ℕ → Type 0 = ElementsEnd d u.rest in
        Then-map (Reads V u.tokens) Q _
          (close_or_next-Reads V u b']' (elements f d) (λ x c. last_element c)
            λ x c k.
              Then-map (Reads (ElementsAt d x.rest) x.tokens) (Reads V u.tokens) _
                (elements-Reads f d x)
                λ v m. record {
                  n = m.n;
                  shape = next_element x.rest c m.shape;
                  count = m.count ∙ ap (λ x. x + m.n) k;
                })
          λ v m. record {
            n = one.n + m.n;
            shape = an_element u.rest one.shape m.shape;
            count = omega (arith, m.count, one.count);
          }

skip_space-again : (s : Bytes) → skip_space (skip_space s) ≡ skip_space s
unfolding skip_space
skip_space-again [] = refl
skip_space-again (c ∷ cs) = ground (arith, skip_space-again cs)

-- A document that the scan has read, with the tokens it has counted.
record Parsed (text : Bytes) (t : Scanner) : Type 0 where
  n : ℕ
  document : IsDocument text n
  count : t.tokens ≡ n

empty : (xs : Bytes) → length xs == 0 ≡ true → xs ≡ []
empty [] h = refl
empty (x ∷ xs) h = absurd (ground arith)

parse_document-Parsed : (f : ℕ) (text : Bytes) → Then (Parsed text) (parse_document f text)
unfolding parse_document whitespace
parse_document-Parsed f text =
    let s : Scanner = record { rest = skip_space text; tokens = 0 } in
    let Q : Scanner → Type 0 = Parsed text in
    Then-bind (Reads (ValueAt 0 (skip_space s.rest)) 0) Q _ _ (value-Reads f 0 s) λ t m.
      Then-require Q (length (skip_space t.rest) == 0) _ _ λ e. Then-ok Q _ (record {
        n = m.n;
        document = record {
          behind = t.rest;
          value = subst (λ x. ValueAt 0 x t.rest m.n) (skip_space-again text) m.shape;
          end = empty (skip_space t.rest) e;
        };
        count = omega (arith, m.count);
      })

check-Parsed : (text : Bytes) → Then (Parsed text) (check text)
unfolding check
check-Parsed text =
    Then-require (Parsed text) _ _ _
      λ _. Then-require (Parsed text) _ _ _ λ _. parse_document-Parsed (4 * length text + 4) text

-- A document that is accepted is one by the grammar: a value of objects and arrays nested at most 32
-- deep, of objects with at most 16 members whose names differ, and of the strings, numbers and words that the
-- scanner's own readers take, with nothing but white space around it. It has at most 1,048,576
-- bytes, and at most 10,000 tokens, counted on its derivation: braces, brackets, names, strings, numbers
-- and words.
pub check-IsDocument :
    (text : Bytes) (s : Scanner)
    → check text ≡ ok s
    → (n : ℕ) × IsDocument text n × (n ≤ 10_000) × (length text ≤ 1_048_576)
check-IsDocument text s h =
    let p : Parsed text s = Then-of (Parsed text) (check text) s (check-Parsed text) h in
    let (size, tokens, end) = check-AtEnd text s h in
    (p.n, p.document, omega (arith, tokens, p.count), size)
