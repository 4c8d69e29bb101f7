-- ===== src/Operation/Attempt/Commitment.antt =====
-- operation.go: what the error of an operation says of the attempts made.
use repost_go.Operation.Attempt.Honest.{IsUnsent, HonestOption, delivery_for_commit-IsUnsent}
use repost_go.Operation.Attempt.Turns.{
  HonestNext, IsQuiet, Settled, terminal-Honest, evidence, on_report-Settled,
}
use repost_go.Errors.{Error, hook_configuration_error}
use repost_go.Operation.Attempt.{
  Surroundings, Action, sends, closes, counts_header_limit, pauses, Result, succeeded, failed,
  panicked, Next, finished, again, Turn, ◌then_do◌, or_go_on, send_with_clock, attempt_turn,
  attempts, send_attempts, prepend, go_on, attempt_budget,
}
use repost_go.Operation.Backoff.{Point, RetryConfig}
use repost_go.Operation.{Call, clock_error}
use mathlib.Core.Path.{subst}
use repost_go.Prelude.Int.{ℤ}
use repost_go.Prelude.{
  ℕ, zero, suc, ◌+◌, ◌≡◌, refl, ◌∙◌, Bool, true, false, ◌||◌, Option, none, some, List, [], ◌∷◌,
  All, All-append,
}
use repost_go.Response.Validate.{Sent}

-- An attempt among the actions was not accepted, by a test of its number.
abbrev IsClean : (ℕ → Bool) → Action → Type 0
IsClean p (sends k b) = p k ≡ false
IsClean p _ = Unit

-- An error that rules out an acceptance, or a step on with nothing committed, has nothing committed
-- before it and no attempt that may have been accepted.
abbrev CleanNext : Type 0 → Next → Type 0
CleanNext clean (finished (failed e)) = IsUnsent e.delivery_state → clean
CleanNext clean (finished _) = Unit
CleanNext clean (again c) = c ≡ false → clean

CleanNext-of :
    (clean : Type 0) (c : Bool) (next : Next)
    → HonestNext c next
    → (c ≡ false → clean)
    → CleanNext clean next
CleanNext-of clean c (finished (failed e)) h k = λ u. k (h u)
CleanNext-of clean c (finished (succeeded r)) h k = tt
CleanNext-of clean c (finished panicked) h k = tt
CleanNext-of clean c (again d) h k = λ e. k (cc)

Quiet-Clean : (p : ℕ → Bool) (xs : List Action) → All IsQuiet xs → All (IsClean p) xs
Quiet-Clean p [] q = tt
Quiet-Clean p (sends j b ∷ xs) q = absurd q.0
Quiet-Clean p (closes j b ∷ xs) q = (tt, Quiet-Clean p xs q.1)
Quiet-Clean p (counts_header_limit j ∷ xs) q = (tt, Quiet-Clean p xs q.1)
Quiet-Clean p (pauses j m ∷ xs) q = (tt, Quiet-Clean p xs q.1)

or-false : (a b : Bool) → a || b ≡ false → (a ≡ false) × (b ≡ false)
or-false true b h = absurd (cc)
or-false false b h = (refl, h)

module _ (config : RetryConfig) (call : Call) (sent : Sent) (attempt : ℕ) (world : Surroundings)
    (p : ℕ → Bool) (link : p attempt ≡ evidence config call sent attempt world world.report) where
  abbrev CleanTurn : Bool → Turn → Type 0
  CleanTurn before (xs, next) = CleanNext ((before ≡ false) × All (IsClean p) xs) next

  quiet-CleanTurn : (before : Bool) (t : Turn) → Settled before t → CleanTurn before t
  quiet-CleanTurn before (xs, next) (q, h) =
      CleanNext-of _ before next h (λ e. (e, Quiet-Clean p xs q))

  sent-CleanTurn :
      (before : Bool) (b : ℤ) (t : Turn)
      → Settled (before || evidence config call sent attempt world world.report) t
      → CleanTurn before ((sends attempt b ∷ []) then_do t)
  sent-CleanTurn before b (xs, next) (q, h) =
      CleanNext-of _ _ next h
        λ e. let (f, g) = or-false before _ e in (f, (link ∙ g, Quiet-Clean p xs q))

  or_go_on-CleanTurn :
      (before : Bool) (o : Option Error) (t : Turn)
      → HonestOption before o
      → CleanTurn before t
      → CleanTurn before (or_go_on o t)
  or_go_on-CleanTurn before none t h k = k
  or_go_on-CleanTurn before (some e) t h k = λ u. (h u, tt)

  send_with_clock-CleanTurn :
      (before : Bool) (now : Option ℤ)
      → CleanTurn before (send_with_clock config call sent attempt world before now)
  unfolding send_with_clock clock_error hook_configuration_error
  send_with_clock-CleanTurn before none = λ u. (delivery_for_commit-IsUnsent before u, tt)
  send_with_clock-CleanTurn before (some now) =
      sent-CleanTurn before (attempt_budget config call now) _
        (on_report-Settled config call sent attempt world before world.report)

  pub attempt_turn-CleanTurn :
      (before : Bool) → CleanTurn before (attempt_turn config call sent attempt world before)
  unfolding attempt_turn
  attempt_turn-CleanTurn before =
      or_go_on-CleanTurn before _ _
        (terminal-Honest config call sent attempt world Point.before_attempt before _)
        (or_go_on-CleanTurn before _ _
          (terminal-Honest config call sent attempt world Point.after_clock before _)
          (send_with_clock-CleanTurn before _))

module _ (config : RetryConfig) (call : Call) (sent : Sent) (world : ℕ → Surroundings) where
  -- Whether the attempt with this number may have been accepted.
  abbrev pub may_have_been_accepted : ℕ → Bool
  may_have_been_accepted k = evidence config call sent k (world k) (world k).report

  -- No attempt among the actions may have been accepted.
  abbrev pub NoneAccepted : List Action → Type 0
  NoneAccepted = All (IsClean may_have_been_accepted)

  CleanResult : Bool → List Action × Result → Type 0
  CleanResult before (xs, r) = CleanNext ((before ≡ false) × NoneAccepted xs) (finished r)

  prepend-CleanResult :
      (before : Bool) (xs : List Action) (c : Bool) (rest : List Action × Result)
      → CleanNext ((before ≡ false) × NoneAccepted xs) (again c)
      → CleanResult c rest
      → CleanResult before (prepend xs rest)
  unfolding CleanResult
  prepend-CleanResult before xs c (ys, failed e) h k = λ u.
      let (f, g) = k u in
      let (a, b) = h f in (a, All-append (IsClean may_have_been_accepted) xs ys b g)
  prepend-CleanResult before xs c (ys, succeeded r) h k = tt
  prepend-CleanResult before xs c (ys, panicked) h k = tt

  go_on-CleanResult :
      (before : Bool) (t : Turn) (rest : Bool → List Action × Result)
      → CleanNext ((before ≡ false) × NoneAccepted t.0) t.1
      → ((c : Bool) → CleanResult c (rest c))
      → CleanResult before (go_on t rest)
  unfolding go_on
  go_on-CleanResult before (xs, finished r) rest h k = unfold CleanResult in h
  go_on-CleanResult before (xs, again c) rest h k = prepend-CleanResult before xs c (rest c) h (k c)

  attempts-CleanResult :
      (left k : ℕ) (before : Bool)
      → CleanResult before (attempts config call sent world left k before)
  unfolding attempts
  attempts-CleanResult zero k before = unfold CleanResult in tt
  attempts-CleanResult (suc left) k before =
      go_on-CleanResult before _ _
        (attempt_turn-CleanTurn config call sent k (world k) may_have_been_accepted refl before)
        (λ c. attempts-CleanResult left (k + 1) c)

  CleanResult-failed :
      (before : Bool) (o : List Action × Result) (e : Error)
      → CleanResult before o
      → o.1 ≡ failed e
      → IsUnsent e.delivery_state
      → NoneAccepted o.0
  unfolding CleanResult
  CleanResult-failed before (xs, failed d) e h q u = (h (subst IsUnsent (cc) u)).1
  CleanResult-failed before (xs, succeeded r) e h q u = absurd (cc)
  CleanResult-failed before (xs, panicked) e h q u = absurd (cc)

  -- The same of the whole loop.
  pub unsent-NoneAccepted :
      (e : Error)
      → (send_attempts config call sent world).1 ≡ failed e
      → IsUnsent e.delivery_state
      → NoneAccepted (send_attempts config call sent world).0
  unfolding send_attempts
  unsent-NoneAccepted e h u =
      CleanResult-failed false _ e (attempts-CleanResult config.max_attempts 1 false) h u
