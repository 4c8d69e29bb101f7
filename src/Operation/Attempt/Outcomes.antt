-- ===== src/Operation/Attempt/Outcomes.antt =====
-- operation.go: the ends of the loop over the attempts.
use repost_go.Errors.{Error}
use repost_go.Operation.Attempt.{
  AttemptReport, Surroundings, Action, sends, Result, succeeded, failed, panicked, finished, again,
  Turn, ◌then_do◌, fails, or_go_on, or_with_evidence, close, after_pause, retry_or_fail, malformed,
  on_response, on_failure, dispatch, header_limit, settle, on_report, send_with_clock, attempt_turn,
  attempt_committed, well_formed_outcome, attempts, send_attempts, attempt_budget, go_on,
  attempt_budget,
}
use repost_go.Operation.Backoff.{
  Point, RetryConfig, Paused, waited, stopped, resumed, nil_dereference, backoff,
}
use repost_go.Operation.{Call}
use repost_go.Prelude.Int.{ℤ}
use repost_go.Prelude.{
  ℕ, zero, suc, ◌+◌, ◌≡◌, refl, Bool, true, false, ◌||◌, Option, none, some, List, [], ◌∷◌, arith,
  if◌then◌else◌, ◌==◌, ◌≤◌, inl, inr, Bool-cases,
}
use repost_go.Response.Validate.{Sent, Verdict, accepted, refused}
use repost_go.Response.{SendResult, AttemptResponse, AttemptFailure, AttemptOutcome}
use repost_go.Operation.Attempt.Pauses.{CutOffByDeadline, NoCrash, backoff-NoCrash}

-- Not the last attempt, where the loop goes on; no panic.
Proper : RetryConfig → ℕ → Turn → Type 0
Proper config attempt (xs, again c) = (attempt == config.max_attempts) ≡ false
Proper config attempt (xs, finished panicked) = ⊥
Proper config attempt (xs, finished _) = Unit

module _ (config : RetryConfig) (call : Call) (sent : Sent) (attempt : ℕ) (world : Surroundings)
    (sound : CutOffByDeadline world) where
  then_do-Proper :
      (xs : List Action) (t : Turn) → Proper config attempt t → Proper config attempt (xs then_do t)
  unfolding Proper
  then_do-Proper xs (ys, again c) h = h
  then_do-Proper xs (ys, finished (succeeded r)) h = tt
  then_do-Proper xs (ys, finished (failed e)) h = tt
  then_do-Proper xs (ys, finished panicked) h = h

  or_go_on-Proper :
      (o : Option Error) (t : Turn) → Proper config attempt t → Proper config attempt (or_go_on o t)
  unfolding Proper
  or_go_on-Proper none t h = h
  or_go_on-Proper (some e) t h = tt

  or_with_evidence-Proper :
      (o : Option Error) (last : Error) (t : Turn)
      → Proper config attempt t
      → Proper config attempt (or_with_evidence config call sent attempt world o last t)
  unfolding Proper
  or_with_evidence-Proper none last t h = h
  or_with_evidence-Proper (some e) last t h = tt

  fails-Proper : (e : Error) → Proper config attempt (fails e)
  unfolding Proper
  fails-Proper e = tt

  finished-Proper :
      (xs : List Action) (r : SendResult) → Proper config attempt (xs, finished (succeeded r))
  unfolding Proper
  finished-Proper xs r = tt

  closed-Proper : (xs : List Action) (e : Error) → Proper config attempt (xs, finished (failed e))
  unfolding Proper
  closed-Proper xs e = tt

  after_pause-Proper :
      (committed : Bool) (p : Paused)
      → NoCrash p
      → (attempt == config.max_attempts) ≡ false
      → Proper config attempt (after_pause config call sent attempt world committed p)
  unfolding after_pause Proper
  after_pause-Proper committed (waited m) h k = k
  after_pause-Proper committed (stopped e) h k = tt
  after_pause-Proper committed resumed h k = k
  after_pause-Proper committed nil_dereference h k = h

  retry_or_fail-Proper :
      (committed : Bool) (response : Option AttemptResponse) (e : Error)
      → Proper config attempt (retry_or_fail config call sent attempt world committed response e)
  unfolding retry_or_fail backoff
  retry_or_fail-Proper committed response e = ground (
    arith,
    fails-Proper e,
    after_pause-Proper committed _ (
        backoff-NoCrash config call world e attempt committed sound response
          (world.pause.look Point.backoff_clock).clock),
  )

  on_response-Proper :
      (before committed : Bool) (r : AttemptResponse) (v : Verdict)
      → Proper config attempt (on_response config call sent attempt world before committed r v)
  unfolding on_response
  on_response-Proper before committed r (accepted result) =
      then_do-Proper _ _ (or_with_evidence-Proper _ _ _ (finished-Proper [] result))
  on_response-Proper before committed r (refused e) =
      then_do-Proper _ _ (or_with_evidence-Proper _ _ _ (retry_or_fail-Proper committed (some r) _))

  on_failure-Proper :
      (committed : Bool) (f : AttemptFailure)
      → Proper config attempt (on_failure config call sent attempt world committed f)
  unfolding on_failure
  on_failure-Proper committed f = or_go_on-Proper _ _ (retry_or_fail-Proper committed none _)

  dispatch-Proper :
      (before committed : Bool) (r : Option AttemptResponse) (f : Option AttemptFailure)
      → Proper config attempt (
          dispatch config call sent attempt world before committed
            (record { response = r; failure = f }))
  unfolding dispatch Proper
  dispatch-Proper before committed (some r) f = on_response-Proper before committed r _
  dispatch-Proper before committed none (some f) = on_failure-Proper committed f
  dispatch-Proper before committed none none = tt

  either-Proper :
      (b : Bool) (t u : Turn)
      → Proper config attempt t
      → Proper config attempt u
      → Proper config attempt (if b then t else u)
  either-Proper true t u h k = h
  either-Proper false t u h k = k

  settle-Proper :
      (before marked : Bool) (o : AttemptOutcome)
      → Proper config attempt (settle config call sent attempt world before marked o)
  unfolding settle
  settle-Proper before marked o =
      then_do-Proper (header_limit config call sent attempt world o.response) _ (
        either-Proper (well_formed_outcome o) _ _
          (dispatch-Proper before (before || attempt_committed marked o) o.response o.failure)
          (closed-Proper (close config call sent attempt world o.response)
            (malformed config call sent attempt world)))

  on_report-Proper :
      (before : Bool) (report : AttemptReport)
      → Proper config attempt (on_report config call sent attempt world before report)
  unfolding on_report
  on_report-Proper before report = elim (Bool-cases report.completed) [
    | inl e ↦ rw e (settle-Proper before report.marked _)
    | inr e ↦ rw e (then_do-Proper _ _ (or_go_on-Proper _ _ (settle-Proper before report.marked _)))
  ]

  send_with_clock-Proper :
      (before : Bool) (now : Option ℤ)
      → Proper config attempt (send_with_clock config call sent attempt world before now)
  unfolding send_with_clock Proper
  send_with_clock-Proper before none = tt
  send_with_clock-Proper before (some now) =
      then_do-Proper (sends attempt (attempt_budget config call now) ∷ [])
        (on_report config call sent attempt world before world.report)
        (on_report-Proper before world.report)

  attempt_turn-Proper :
      (before : Bool) → Proper config attempt (attempt_turn config call sent attempt world before)
  unfolding attempt_turn
  attempt_turn-Proper before =
      or_go_on-Proper _ _ (or_go_on-Proper _ _ (send_with_clock-Proper before _))

module _ (config : RetryConfig) (call : Call) (sent : Sent) (world : ℕ → Surroundings)
    (sound : (k : ℕ) → CutOffByDeadline (world k)) where
  go_on-returns :
      (k : ℕ) (t : Turn) (rest : Bool → List Action × Result)
      → Proper config k t
      → ((c : Bool) → (k == config.max_attempts) ≡ false → ¬ (rest c).1 ≡ panicked)
      → ¬ (go_on t rest).1 ≡ panicked
  unfolding Proper go_on
  go_on-returns k (xs, finished (succeeded r)) rest h next = λ e. absurd (cc)
  go_on-returns k (xs, finished (failed r)) rest h next = λ e. absurd (cc)
  go_on-returns k (xs, finished panicked) rest h next = λ e. h
  go_on-returns k (xs, again c) rest h next = λ e. next c h e

  attempts-returns :
      (left k : ℕ) (before : Bool)
      → left + k ≡ config.max_attempts
      → ¬ (attempts config call sent world (suc left) k before).1 ≡ panicked
  unfolding attempts
  attempts-returns zero k before e =
      go_on-returns k _ _ (attempt_turn-Proper config call sent k (world k) (sound k) before)
        (λ c q. absurd (ground arith))
  attempts-returns (suc left) k before e =
      go_on-returns k _ _ (attempt_turn-Proper config call sent k (world k) (sound k) before)
        (λ c q. attempts-returns left (k + 1) c (omega arith))

  -- At least one attempt is allowed, and a sleep ends early only where the deadline context of its
  -- operation has ended: then the loop over the attempts reaches neither its `panic("unreachable")`
  -- nor, through a checked error that is nil, a nil dereference. It returns a result or an error.
  pub send_attempts_returns :
      1 ≤ config.max_attempts → ¬ (send_attempts config call sent world).1 ≡ panicked
  unfolding send_attempts
  send_attempts_returns h = returns config.max_attempts h refl
    where
      returns :
          (n : ℕ)
          → 1 ≤ n
          → n ≡ config.max_attempts
          → ¬ (attempts config call sent world n 1 false).1 ≡ panicked
      returns zero h e = absurd (omega arith)
      returns (suc n) h e = attempts-returns n 1 false (omega arith)
