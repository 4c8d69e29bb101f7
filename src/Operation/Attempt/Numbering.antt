-- ===== src/Operation/Attempt/Numbering.antt =====
-- operation.go: the numbers of the attempts of an operation.
use repost_go.Errors.{Error}
use repost_go.Operation.Attempt.Turns.{IsQuiet, Settled, on_report-Settled}
use repost_go.Operation.Attempt.{
  Surroundings, Action, sends, closes, counts_header_limit, pauses, Result, finished, again, Turn,
  ◌then_do◌, or_go_on, send_with_clock, attempt_turn, attempts, send_attempts, prepend,
  attempt_budget, go_on,
}
use repost_go.Operation.Backoff.{RetryConfig}
use repost_go.Operation.{Call}
use repost_go.Prelude.Int.{ℤ}
use repost_go.Prelude.{
  ℕ, zero, suc, ◌+◌, ◌≡◌, refl, ◌∙◌, ap, Bool, false, Option, none, some, List, [], ◌∷◌, ◌++◌,
  arith, All, ◌≤◌, ◌⊎◌, inl, inr,
}
use repost_go.Response.Validate.{Sent}

-- The numbers of the attempts handed to the transport, in order.
abbrev pub numbers : List Action → List ℕ
numbers [] = []
numbers (sends k b ∷ xs) = k ∷ numbers xs
numbers (closes k b ∷ xs) = numbers xs
numbers (counts_header_limit k ∷ xs) = numbers xs
numbers (pauses k m ∷ xs) = numbers xs

abbrev pub count_from : ℕ → ℕ → List ℕ
count_from zero k = []
count_from (suc n) k = k ∷ count_from n (k + 1)

numbers-append : (xs ys : List Action) → numbers (xs ++ ys) ≡ numbers xs ++ numbers ys
numbers-append [] ys = refl
numbers-append (sends k b ∷ xs) ys = ap (λ l. k ∷ l) (numbers-append xs ys)
numbers-append (closes k b ∷ xs) ys = numbers-append xs ys
numbers-append (counts_header_limit k ∷ xs) ys = numbers-append xs ys
numbers-append (pauses k m ∷ xs) ys = numbers-append xs ys

quiet-numbers : (xs : List Action) → All IsQuiet xs → numbers xs ≡ []
quiet-numbers [] q = refl
quiet-numbers (sends k b ∷ xs) q = absurd q.0
quiet-numbers (closes k b ∷ xs) q = quiet-numbers xs q.1
quiet-numbers (counts_header_limit k ∷ xs) q = quiet-numbers xs q.1
quiet-numbers (pauses k m ∷ xs) q = quiet-numbers xs q.1

-- A turn sends its own attempt once, or ends the loop without it.
Single : ℕ → Turn → Type 0
Single k (xs, again c) = numbers xs ≡ k ∷ []
Single k (xs, finished r) = (numbers xs ≡ []) ⊎ (numbers xs ≡ k ∷ [])

module _ (config : RetryConfig) (call : Call) (sent : Sent) (attempt : ℕ)
    (world : Surroundings) where
  or_go_on-Single : (o : Option Error) (t : Turn) → Single attempt t → Single attempt (or_go_on o t)
  unfolding Single
  or_go_on-Single none t h = h
  or_go_on-Single (some e) t h = inl refl

  sends-Single :
      (c : Bool) (b : ℤ) (t : Turn)
      → Settled c t
      → Single attempt ((sends attempt b ∷ []) then_do t)
  unfolding Single
  sends-Single c b (xs, again d) h = ap (λ l. attempt ∷ l) (quiet-numbers xs h.0)
  sends-Single c b (xs, finished r) h = inr (ap (λ l. attempt ∷ l) (quiet-numbers xs h.0))

  send_with_clock-Single :
      (before : Bool) (now : Option ℤ)
      → Single attempt (send_with_clock config call sent attempt world before now)
  unfolding Single send_with_clock
  send_with_clock-Single before none = inl refl
  send_with_clock-Single before (some now) =
      sends-Single _ (attempt_budget config call now) _
        (on_report-Settled config call sent attempt world before world.report)

  attempt_turn-Single :
      (before : Bool) → Single attempt (attempt_turn config call sent attempt world before)
  unfolding attempt_turn
  attempt_turn-Single before =
      or_go_on-Single _ _ (or_go_on-Single _ _ (send_with_clock-Single before _))

-- At most `left` attempts, from `k` on.
Counted : ℕ → ℕ → List Action → Type 0
Counted left k xs = (n : ℕ) × (n ≤ left) × (numbers xs ≡ count_from n k)

joined : {r : List ℕ} (k : ℕ) (xs ys : List ℕ) → xs ≡ k ∷ [] → ys ≡ r → xs ++ ys ≡ k ∷ r
joined k xs ys h e = ap (λ l. l ++ ys) h ∙ ap (λ l. k ∷ l) e

Counted-prepend :
    (left k : ℕ) (xs : List Action) (rest : List Action × Result)
    → numbers xs ≡ k ∷ []
    → Counted left (k + 1) rest.0
    → Counted (suc left) k (prepend xs rest).0
unfolding Counted
Counted-prepend left k xs (ys, r) h (n, le, e) =
    (suc n, ground arith, numbers-append xs ys ∙ joined k (numbers xs) (numbers ys) h e)

module _ (config : RetryConfig) (call : Call) (sent : Sent) (world : ℕ → Surroundings) where
  go_on-Counted :
      (left k : ℕ) (t : Turn) (rest : Bool → List Action × Result)
      → Single k t
      → ((c : Bool) → Counted left (k + 1) (rest c).0)
      → Counted (suc left) k (go_on t rest).0
  unfolding Single go_on
  go_on-Counted left k (xs, finished r) rest (inl e) next = unfold Counted in (0, ground arith, e)
  go_on-Counted left k (xs, finished r) rest (inr e) next = unfold Counted in (1, ground arith, e)
  go_on-Counted left k (xs, again c) rest h next = Counted-prepend left k xs (rest c) h (next c)

  attempts-Counted :
      (left k : ℕ) (before : Bool)
      → Counted left k (attempts config call sent world left k before).0
  unfolding attempts
  attempts-Counted zero k before = unfold Counted in (0, ground arith, refl)
  attempts-Counted (suc left) k before =
      go_on-Counted left k _ _ (attempt_turn-Single config call sent k (world k) before)
        (λ c. attempts-Counted left (k + 1) c)

  -- However the transport and the hooks behave, the attempts handed to the transport are numbered
  -- 1, 2, 3, ... in this order, without a gap or a repetition, and are at most `max_attempts`.
  pub send_attempts_counts :
      (n : ℕ) × (n ≤ config.max_attempts)
      × (numbers (send_attempts config call sent world).0 ≡ count_from n 1)
  unfolding send_attempts Counted
  send_attempts_counts = attempts-Counted config.max_attempts 1 false
