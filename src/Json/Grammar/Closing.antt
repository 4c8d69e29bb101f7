-- ===== src/Json/Grammar/Closing.antt =====
-- internal/strictjson/parser.go: the ends of objects and arrays, and the choice of a value.
use mathlib.Core.Path.{subst}
use repost_go.Json.Grammar.Lexing.{
  Reads, OneToken, Then-map, token-OneToken, consume-true, consume-false, literal-Reads,
  number-Reads, scalar_string-Reads,
}
use repost_go.Json.Grammar.{true_word, false_word, null_word, ValueAt}
use repost_go.Json.Rules.{Then, any-failed}
use repost_go.Json.Scan.{Outcome, Failure, Scanner, whitespace, token, consume, skip_space, at_head}
use repost_go.Json.{dispatch, close_or_enter, close_or_next}
use repost_go.Prelude.{
  ℕ, ◌+◌, ◌≡◌, refl, sym, ap, ◌∙◌, Bool, true, false, [], ◌∷◌, Bytes, drop, arith, ◌==◌, if_P,
}

same_byte : (c b : ℕ) → c == b ≡ true → c ≡ b
same_byte c b h = ground (arith, h)

module _ (d : ℕ) (s : Scanner) where
  abbrev Q : Outcome Scanner → Type 0
  Q = Then (Reads (ValueAt d s.rest) s.tokens)

  pub dispatch-Reads :
      (o a : Scanner → Outcome Scanner) (r : Bytes)
      → s.rest ≡ r
      → ((cs : Bytes) → s.rest ≡ b'{' ∷ cs → Q (o s))
      → ((cs : Bytes) → s.rest ≡ b'[' ∷ cs → Q (a s))
      → Q (dispatch o a s r)
  unfolding dispatch
  dispatch-Reads o a [] e h k = any-failed _ Failure.protocol
  dispatch-Reads o a (c ∷ cs) e h k =
      if_P Q (c == b'{') _ _ (λ q. h cs (e ∙ ap (λ b. b ∷ cs) (same_byte c b'{' q)))
        λ _.
          if_P Q (c == b'[') _ _ (λ q. k cs (e ∙ ap (λ b. b ∷ cs) (same_byte c b'[' q)))
            λ _.
              if_P Q (c == b'"') _ _
                (λ q. scalar_string-Reads d s (ap (at_head (λ b. b == b'"')) e ∙ q))
                λ _.
                  if_P Q (c == b't') _ _ (λ _. literal-Reads d _ s true_word)
                    λ _.
                      if_P Q (c == b'f') _ _ (λ _. literal-Reads d _ s false_word)
                        λ _.
                          if_P Q (c == b'n') _ _ (λ _. literal-Reads d _ s null_word)
                            λ _. number-Reads d s

-- Both cases of a choice written by cases.
elim_P {ℓ κ} :
    {A : Type ℓ} (P : A → Type κ) (b : Bool) (x y : A)
    → (b ≡ true → P x)
    → (b ≡ false → P y)
    → P (elim b [ true ↦ x | false ↦ y ])
elim_P P true x y h k = h refl
elim_P P false x y h k = k refl

module _ (V : Bytes → ℕ → Type 0) (s : Scanner) where
  closed-Reads :
      (t : Scanner) → t.tokens ≡ s.tokens → V t.rest 1 → Then (Reads V s.tokens) (token t)
  closed-Reads t k v = Then-map (OneToken t) (Reads V s.tokens) (token t) (token-OneToken t) λ u o.
      record {
        n = 1;
        shape = subst (λ r. V r 1) (sym o.same) v;
        count = o.more ∙ ap (λ n. n + 1) k;
      }

  pub close_or_enter-Reads :
      (close opened : ℕ) (loop : Scanner → Outcome Scanner) (r : Bytes)
      → s.rest ≡ opened ∷ r
      → ((t : Bytes) → skip_space r ≡ close ∷ t → V t 1)
      → ((u : Scanner)
          → u.rest ≡ skip_space r
          → u.tokens ≡ s.tokens
          → Then (Reads V s.tokens) (loop u))
      → Then (Reads V s.tokens) (close_or_enter close loop s)
  unfolding close_or_enter whitespace
  close_or_enter-Reads close opened loop r e h k =
      let q : Bytes = skip_space (drop 1 s.rest) in
      let same : q ≡ skip_space r = ap (λ t. skip_space (drop 1 t)) e in
      let u : Scanner = record s { rest = (consume close q).1 } in
      elim_P (Then (Reads V s.tokens)) (consume close q).0 (token u) (loop u)
        (λ c. closed-Reads u refl (h u.rest (sym same ∙ consume-true close q c)))
        λ c. k u (consume-false close q c ∙ same) refl

  pub close_or_next-Reads :
      (close : ℕ) (again : Scanner → Outcome Scanner)
      → ((t : Bytes) → skip_space s.rest ≡ close ∷ t → V t 1)
      → ((u : Scanner)
          → skip_space s.rest ≡ b',' ∷ u.rest
          → u.tokens ≡ s.tokens
          → Then (Reads V s.tokens) (again u))
      → Then (Reads V s.tokens) (close_or_next close again s)
  unfolding close_or_next whitespace
  close_or_next-Reads close again h k =
      let q : Bytes = skip_space s.rest in
      let t : Scanner = record s { rest = (consume close q).1 } in
      let u : Scanner = record s { rest = (consume b',' t.rest).1 } in
      elim_P (Then (Reads V s.tokens)) (consume close q).0 (token t) _
        (λ c. closed-Reads t refl (h t.rest (consume-true close q c)))
        λ c.
          elim_P (Then (Reads V s.tokens)) (consume b',' t.rest).0 (again u) _
            (λ m. k u (sym (consume-false close q c) ∙ consume-true b',' t.rest m) refl)
            λ _. any-failed _ Failure.protocol
