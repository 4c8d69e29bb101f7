-- ===== src/Operation/Attempt/Success.antt =====
-- operation.go: where the result of an operation comes from.
use mathlib.Core.Path.{subst}
use repost_go.Errors.{Error}
use repost_go.Operation.Attempt.{
  Surroundings, Action, sends, Result, succeeded, failed, panicked, finished, again, Turn,
  ◌then_do◌, fails, or_go_on, or_with_evidence, close, after_pause, retry_or_fail, malformed,
  on_response, on_failure, dispatch, header_limit, snapshot_response, settle, on_report,
  send_with_clock, attempt_turn, attempt_committed, well_formed_outcome, attempts, send_attempts,
  attempt_budget, go_on,
}
use repost_go.Operation.Backoff.{RetryConfig, Paused, waited, stopped, resumed, nil_dereference}
use repost_go.Operation.{Call}
use repost_go.Prelude.Int.{ℤ}
use repost_go.Prelude.{
  ℕ, zero, suc, ◌+◌, ◌≡◌, refl, Bool, true, false, not, ◌||◌, Option, none, some, List, [], ◌∷◌,
  arith, if◌then◌else◌, ◌==◌, ◌≤◌, ◌<◌,
}
use repost_go.Response.Validate.{Sent, Verdict, accepted, refused, validate_attempt_response}
use repost_go.Response.{SendResult, AttemptResponse, AttemptFailure, AttemptOutcome}

module _ (config : RetryConfig) (call : Call) (sent : Sent) (attempt : ℕ)
    (world : Surroundings) where
  -- The transport's call completed with a response that, as the runtime snapshots it, was accepted
  -- with this result.
  abbrev pub AcceptedWith : SendResult → Type 0
  AcceptedWith result =
      (r : AttemptResponse) × (world.report.completed ≡ true)
      × (snapshot_response config call sent attempt world world.report.outcome.response ≡ some r)
      × (validate_attempt_response r sent ≡ accepted result)

  pub Backed : Turn → Type 0
  Backed (xs, finished (succeeded result)) = AcceptedWith result
  Backed (xs, _) = Unit

  then_do-Backed : (xs : List Action) (t : Turn) → Backed t → Backed (xs then_do t)
  unfolding Backed
  then_do-Backed xs (ys, again c) h = tt
  then_do-Backed xs (ys, finished (succeeded r)) h = h
  then_do-Backed xs (ys, finished (failed e)) h = tt
  then_do-Backed xs (ys, finished panicked) h = tt

  or_go_on-Backed : (o : Option Error) (t : Turn) → Backed t → Backed (or_go_on o t)
  unfolding Backed
  or_go_on-Backed none t h = h
  or_go_on-Backed (some e) t h = tt

  or_with_evidence-Backed :
      (o : Option Error) (last : Error) (t : Turn)
      → Backed t
      → Backed (or_with_evidence config call sent attempt world o last t)
  unfolding Backed
  or_with_evidence-Backed none last t h = h
  or_with_evidence-Backed (some e) last t h = tt

  fails-Backed : (xs : List Action) (e : Error) → Backed (xs, finished (failed e))
  unfolding Backed
  fails-Backed xs e = tt

  either-Backed : (b : Bool) (t u : Turn) → Backed t → Backed u → Backed (if b then t else u)
  either-Backed true t u h k = h
  either-Backed false t u h k = k

  decided-Backed :
      (b : Bool) (t u : Turn)
      → (b ≡ true → Backed t)
      → (b ≡ false → Backed u)
      → Backed (if b then t else u)
  decided-Backed true t u h k = h refl
  decided-Backed false t u h k = k refl

  after_pause-Backed :
      (committed : Bool) (p : Paused)
      → Backed (after_pause config call sent attempt world committed p)
  unfolding after_pause Backed
  after_pause-Backed committed (waited m) = tt
  after_pause-Backed committed (stopped e) = tt
  after_pause-Backed committed resumed = tt
  after_pause-Backed committed nil_dereference = tt

  retry_or_fail-Backed :
      (committed : Bool) (response : Option AttemptResponse) (e : Error)
      → Backed (retry_or_fail config call sent attempt world committed response e)
  unfolding retry_or_fail
  retry_or_fail-Backed committed response e =
      either-Backed (not e.retryable || attempt == config.max_attempts) (fails e) _
        (fails-Backed [] e) (after_pause-Backed committed _)

  finished-Backed :
      (result : SendResult) → AcceptedWith result → Backed ([], finished (succeeded result))
  unfolding Backed
  finished-Backed result h = h

  on_response-Backed :
      (before committed : Bool) (r : AttemptResponse) (v : Verdict)
      → world.report.completed ≡ true
      → snapshot_response config call sent attempt world world.report.outcome.response ≡ some r
      → validate_attempt_response r sent ≡ v
      → Backed (on_response config call sent attempt world before committed r v)
  unfolding on_response
  on_response-Backed before committed r (accepted result) c s e =
      then_do-Backed _ _ (or_with_evidence-Backed _ _ _ (finished-Backed result (r, c, s, e)))
  on_response-Backed before committed r (refused x) c s e =
      then_do-Backed _ _ (or_with_evidence-Backed _ _ _ (retry_or_fail-Backed committed (some r) _))

  -- The response of an outcome is the one that the transport gave.
  abbrev IsOwn : Option AttemptResponse → Type 0
  IsOwn o =
      (r : AttemptResponse)
      → o ≡ some r
      → (world.report.completed ≡ true)
        × (snapshot_response config call sent attempt world world.report.outcome.response ≡ some r)

  dispatch-Backed :
      (before committed : Bool) (r : Option AttemptResponse) (f : Option AttemptFailure)
      → IsOwn r
      → Backed (
          dispatch config call sent attempt world before committed
            (record { response = r; failure = f }))
  unfolding dispatch on_failure
  dispatch-Backed before committed (some r) f own =
      let (c, s) = own r refl in on_response-Backed before committed r _ c s refl
  dispatch-Backed before committed none (some f) own =
      or_go_on-Backed _ _ (retry_or_fail-Backed committed none _)
  dispatch-Backed before committed none none own = fails-Backed [] _

  settle-Backed :
      (before marked : Bool) (o : AttemptOutcome)
      → IsOwn o.response
      → Backed (settle config call sent attempt world before marked o)
  unfolding settle
  settle-Backed before marked o own =
      then_do-Backed (header_limit config call sent attempt world o.response) _ (
        either-Backed (well_formed_outcome o) _ _
          (dispatch-Backed before (before || attempt_committed marked o) o.response o.failure own)
          (fails-Backed (close config call sent attempt world o.response)
            (malformed config call sent attempt world)))

  on_report-Backed :
      (before : Bool) → Backed (on_report config call sent attempt world before world.report)
  unfolding on_report
  on_report-Backed before =
      decided-Backed world.report.completed _ _
        (λ e. settle-Backed before world.report.marked _ (λ r q. (e, q)))
        (λ e.
          then_do-Backed (close config call sent attempt world world.report.outcome.response) _
            (or_go_on-Backed _ _ (settle-Backed before world.report.marked _ (λ r q. absurd (cc)))))

  send_with_clock-Backed :
      (before : Bool) (now : Option ℤ)
      → Backed (send_with_clock config call sent attempt world before now)
  unfolding send_with_clock
  send_with_clock-Backed before none = fails-Backed [] _
  send_with_clock-Backed before (some now) =
      then_do-Backed (sends attempt (attempt_budget config call now) ∷ [])
        (on_report config call sent attempt world before world.report) (on_report-Backed before)

  pub attempt_turn-Backed :
      (before : Bool) → Backed (attempt_turn config call sent attempt world before)
  unfolding attempt_turn
  attempt_turn-Backed before =
      or_go_on-Backed _ _ (or_go_on-Backed _ _ (send_with_clock-Backed before _))

module _ (config : RetryConfig) (call : Call) (sent : Sent) (world : ℕ → Surroundings)
    (result : SendResult) where
  AcceptedFrom : ℕ → ℕ → Type 0
  AcceptedFrom left k =
      (i : ℕ) × (k ≤ i) × (i < k + left) × AcceptedWith config call sent i (world i) result

  go_on-AcceptedFrom :
      (left k : ℕ) (t : Turn) (rest : Bool → List Action × Result)
      → Backed config call sent k (world k) t
      → ((c : Bool) → (rest c).1 ≡ succeeded result → AcceptedFrom left (k + 1))
      → (go_on t rest).1 ≡ succeeded result
      → AcceptedFrom (suc left) k
  unfolding Backed go_on AcceptedFrom
  go_on-AcceptedFrom left k (xs, finished (succeeded x)) rest h next e =
      (k, omega arith, omega arith, subst (AcceptedWith config call sent k (world k)) (cc) h)
  go_on-AcceptedFrom left k (xs, finished (failed x)) rest h next e = absurd (cc)
  go_on-AcceptedFrom left k (xs, finished panicked) rest h next e = absurd (cc)
  go_on-AcceptedFrom left k (xs, again c) rest h next e =
      let (i, a, b, w) = next c e in (i, omega arith, omega arith, w)

  attempts-AcceptedFrom :
      (left k : ℕ) (before : Bool)
      → (attempts config call sent world left k before).1 ≡ succeeded result
      → AcceptedFrom left k
  unfolding attempts
  attempts-AcceptedFrom zero k before e = absurd (cc)
  attempts-AcceptedFrom (suc left) k before e =
      go_on-AcceptedFrom left k _ _ (attempt_turn-Backed config call sent k (world k) before)
        (λ c. attempts-AcceptedFrom left (k + 1) c) e

  -- However the hooks and the contexts behave: where an operation succeeds, its result is that of a
  -- response which one of the attempts 1 to `max_attempts` completed with, and which was accepted as
  -- the answer to what was sent.
  pub send_attempts-AcceptedWith :
      (send_attempts config call sent world).1 ≡ succeeded result
      → (i : ℕ) × (1 ≤ i)
        × (i ≤ config.max_attempts)
        × AcceptedWith config call sent i (world i) result
  unfolding send_attempts AcceptedFrom
  send_attempts-AcceptedWith e =
      let (i, a, b, w) = attempts-AcceptedFrom config.max_attempts 1 false e in
      (i, a, omega arith, w)
