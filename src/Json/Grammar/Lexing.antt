-- ===== src/Json/Grammar/Lexing.antt =====
-- internal/strictjson/parser.go: the scan of the parts of a document, against the grammar.
use mathlib.Core.Path.{subst}
use repost_go.Json.Grammar.{WordAt, NameAt, ValueAt, a_string, a_number, a_word}
use repost_go.Json.Rules.{Then, Then-bind, Then-require, Then-ok, any}
use repost_go.Json.Scan.{
  Outcome, ok, failed, out_of_fuel, Scanner, whitespace, token, consume, literal, skip_space,
  number, at_head, max_tokens, max_number_chars, max_members_per_object, ◌>>=◌,
}
use repost_go.Json.Strings.{string, string_from}
use repost_go.Json.{member, member_name, scalar_string}
use repost_go.Prelude.{
  ℕ, ◌+◌, ◌-◌, ◌≤◌, ◌≡◌, refl, sym, ap, ◌∙◌, Bool, true, false, not, List, [], ◌∷◌, Bytes, arith,
  length, drop, leb, ltb, leb→le, ◌==◌, if_P,
}
use repost_go.Text.{has_prefix}

-- A scan that has ended at this place, with the tokens that it has counted.
pub record Reads (V : Bytes → ℕ → Type 0) (before : ℕ) (t : Scanner) : Type 0 where
  pub n : ℕ
  pub shape : V t.rest n
  pub count : t.tokens ≡ before + n

pub record OneToken (s t : Scanner) : Type 0 where
  pub same : t.rest ≡ s.rest
  pub more : t.tokens ≡ s.tokens + 1

-- A step, with what it answered.
pub Then-step {ℓ κ} :
    {A : Type ℓ} {B : Type κ} (P : A → Type 0) (Q : B → Type 0) (m : Outcome A) (f : A → Outcome B)
    → Then P m
    → ((a : A) → m ≡ ok a → P a → Then Q (f a))
    → Then Q (m >>= f)
unfolding ◌>>=◌ Then
Then-step P Q (ok a) f h k = k a refl h
Then-step P Q (failed e) f h k = tt
Then-step P Q out_of_fuel f h k = tt

pub Then-map :
    (P Q : Scanner → Type 0) (m : Outcome Scanner)
    → Then P m
    → ((t : Scanner) → P t → Q t)
    → Then Q m
unfolding Then
Then-map P Q (ok a) h k = k a h
Then-map P Q (failed e) h k = tt
Then-map P Q out_of_fuel h k = tt

pub token-OneToken : (s : Scanner) → Then (OneToken s) (token s)
unfolding token Then
token-OneToken s =
    if_P (Then (OneToken s)) (ltb max_tokens (s.tokens + 1)) _ _ (λ _. tt)
      λ _. record { same = refl; more = refl }

pub consume-true : (b : ℕ) (s : Bytes) → (consume b s).0 ≡ true → s ≡ b ∷ (consume b s).1
unfolding consume
consume-true b [] h = absurd (cc)
consume-true b (c ∷ cs) h = ground (arith, h)

pub consume-false : (b : ℕ) (s : Bytes) → (consume b s).0 ≡ false → (consume b s).1 ≡ s
unfolding consume
consume-false b [] h = refl
consume-false b (c ∷ cs) h = ground (arith, h)

pub literal-Reads :
    (d : ℕ) (w : Bytes) (s : Scanner)
    → WordAt w
    → Then (Reads (ValueAt d s.rest) s.tokens) (literal w s)
unfolding literal
literal-Reads d w s is_word =
    let Q : Scanner → Type 0 = Reads (ValueAt d s.rest) s.tokens in
    Then-require Q (has_prefix s.rest w) _ _ λ h.
      Then-bind (OneToken s) Q (token s) _ (token-OneToken s) λ t o.
        Then-ok Q _ (record {
          n = 1;
          shape = a_word w is_word h (ap (drop (length w)) o.same);
          count = o.more;
        })

pub number-Reads : (d : ℕ) (s : Scanner) → Then (Reads (ValueAt d s.rest) s.tokens) (number s)
unfolding number
number-Reads d s =
    let Q : Scanner → Type 0 = Reads (ValueAt d s.rest) s.tokens in
    Then-require Q _ _ _ λ _.
      Then-step (λ _. Unit) Q _ _ (any _)
        λ whole a _.
          Then-step (λ _. Unit) Q _ _ (any _)
            λ part b _.
              Then-step (λ _. Unit) Q _ _ (any _)
                λ end c _.
                  Then-require Q (leb (length s.rest - length end) max_number_chars) _ _ λ short.
                    Then-map (OneToken (record s { rest = end })) Q _
                      (token-OneToken (record s { rest = end }))
                      λ t o. record {
                        n = 1;
                        shape = a_number (record {
                          whole = whole;
                          part = part;
                          integer = a;
                          decimals = b;
                          power = c ∙ ap ok (sym o.same);
                          short =
                              subst (λ r. length s.rest - length r ≤ max_number_chars) (sym o.same)
                                (leb→le _ _ short);
                        });
                        count = o.more;
                      }

-- A string, from the scanner at its quote.
pub string-step :
    (b : Bool) (s : Scanner)
    → Then (λ (v, t). (string_from b s.rest ≡ ok (v, t.rest)) × (t.tokens ≡ s.tokens)) (string b s)
unfolding string
string-step b s =
    let Q : Bytes × Scanner → Type 0 =
      λ (v, t). (string_from b s.rest ≡ ok (v, t.rest)) × (t.tokens ≡ s.tokens) in
    Then-step (λ _. Unit) Q _ _ (any _) λ (v, end) e _. Then-ok Q _ (e, refl)

pub scalar_string-Reads :
    (d : ℕ) (s : Scanner)
    → at_head (λ c. c == b'"') s.rest ≡ true
    → Then (Reads (ValueAt d s.rest) s.tokens) (scalar_string s)
scalar_string-Reads d s q =
    let Q : Scanner → Type 0 = Reads (ValueAt d s.rest) s.tokens in
    Then-bind (OneToken s) Q _ _ (token-OneToken s) λ t o.
      Then-bind (λ (v, u). (string_from false t.rest ≡ ok (v, u.rest)) × (u.tokens ≡ t.tokens)) Q
        (string false t) _ (string-step false t)
        λ (v, u) (e, k). Then-ok Q _ (record {
          n = 1;
          shape = a_string v q (ap (string_from false) (sym o.same) ∙ e);
          count = k ∙ o.more;
        })

-- The name of a member.
pub record NameRead (count : ℕ) (keys : List Bytes) (s : Scanner) (r : Bytes × Scanner)
    : Type 0 where
  pub name : NameAt count keys s.rest r.0 r.1.rest
  pub tokens : r.1.tokens ≡ s.tokens + 1

pub member_name-NameRead :
    (count : ℕ) (keys : List Bytes) (s : Scanner)
    → Then (NameRead count keys s) (member_name count keys s)
unfolding member_name whitespace
member_name-NameRead count keys s =
    let Q : Bytes × Scanner → Type 0 = NameRead count keys s in
    let t : Scanner = record s { rest = skip_space s.rest } in
    Then-require Q (at_head (λ c. c == b'"') (skip_space s.rest)) _ _ λ quote.
      Then-bind (OneToken t) Q _ _ (token-OneToken t) λ u o.
        Then-bind (λ (v, w). (string_from true u.rest ≡ ok (v, w.rest)) × (w.tokens ≡ u.tokens)) Q
          (string true u) _ (string-step true u)
          λ (key, v) (e, k). Then-require Q (not (member key keys)) _ _ λ is_new.
            Then-require Q (leb count max_members_per_object) _ _ λ few.
              Then-require Q (consume b':' (skip_space v.rest)).0 _ _ λ colon. Then-ok Q _ (record {
                name = record {
                  behind = v.rest;
                  quote = quote;
                  literal = ap (string_from true) (sym o.same) ∙ e;
                  is_new = ground (arith, is_new);
                  few = leb→le _ _ few;
                  colon = consume-true b':' (skip_space v.rest) colon;
                };
                tokens = k ∙ o.more;
              })
