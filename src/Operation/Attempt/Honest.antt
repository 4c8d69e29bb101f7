-- ===== src/Operation/Attempt/Honest.antt =====
-- operation.go: the error that ends an operation between two attempts, against the commitment.
use repost_go.Errors.{
  DeliveryState, CauseCategory, ClientOptionKey, Error, hook_configuration_error,
}
use repost_go.Operation.Backoff.{
  Point, RetryConfig, Pause, Paused, waited, stopped, backoff, from_clock, with_remaining, sampled,
  with_delay, slept, check, hook_error, or_resume, or_crash, or_then, RetryAfter, EntropyReport,
  SleepReport, retry_after_of, cap_millis,
}
use repost_go.Operation.{
  Sample, Call, pre_attempt_terminal, deadline_terminal, clock_error, operation_deadline_error,
  delivery_for_commit, with_response_evidence,
}
use repost_go.Prelude.Int.{ℤ, pos_part}
use repost_go.Prelude.{ℕ, ◌+◌, ◌/◌, ◌≡◌, refl, Bool, true, false, Option, none, some, arith}
use repost_go.Response.{AttemptResponse}

-- The states that rule out an acceptance.
abbrev pub IsUnsent : DeliveryState → Type 0
IsUnsent DeliveryState.possibly_sent = ⊥
IsUnsent DeliveryState.cancelled_unknown = ⊥
IsUnsent DeliveryState.accepted = ⊥
IsUnsent _ = Unit

-- An error that rules out an acceptance comes only where nothing is committed.
abbrev pub Honest : Bool → Error → Type 0
Honest committed e = IsUnsent e.delivery_state → committed ≡ false

abbrev pub HonestOption : Bool → Option Error → Type 0
HonestOption committed none = Unit
HonestOption committed (some e) = Honest committed e

abbrev pub HonestPause : Bool → Paused → Type 0
HonestPause committed (stopped e) = Honest committed e
HonestPause committed _ = Unit

pub pre_attempt_terminal-Honest :
    (s : Sample) (committed : Bool) (n : ℕ) (call : Call)
    → HonestOption committed (pre_attempt_terminal s committed n call)
unfolding pre_attempt_terminal
pre_attempt_terminal-Honest s true n call = ground arith
pre_attempt_terminal-Honest s false n call = ground arith

pub deadline_terminal-Honest :
    (s : Sample) (committed : Bool) (n : ℕ) (call : Call)
    → HonestOption committed (deadline_terminal s committed n call)
unfolding deadline_terminal
deadline_terminal-Honest s true n call = ground arith
deadline_terminal-Honest s false n call = ground arith

pub delivery_for_commit-IsUnsent :
    (committed : Bool) → IsUnsent (delivery_for_commit committed) → committed ≡ false
unfolding delivery_for_commit
delivery_for_commit-IsUnsent true h = absurd h
delivery_for_commit-IsUnsent false h = refl

pub or_then-Honest :
    (committed : Bool) (o : Option Error) (last : Error) (k : Paused)
    → HonestOption committed o
    → HonestPause committed k
    → HonestPause committed (or_then o last k)
or_then-Honest committed none last k h q = q
or_then-Honest committed (some e) last k h q = unfold with_response_evidence in h

pub or_crash-Honest :
    (committed : Bool) (o : Option Error) (last : Error)
    → HonestOption committed o
    → HonestPause committed (or_crash o last)
or_crash-Honest committed none last h = tt
or_crash-Honest committed (some e) last h = unfold with_response_evidence in h

pub or_resume-Honest :
    (committed : Bool) (o : Option Error)
    → HonestOption committed o
    → HonestPause committed (or_resume o)
or_resume-Honest committed none h = tt
or_resume-Honest committed (some e) h = h

module _ (config : RetryConfig) (call : Call) (pause : Pause) (last : Error) (attempt : ℕ)
    (committed : Bool) (honest : Honest committed last) where
  pub check-Honest :
      (p : Point) → HonestOption committed (check config call pause last attempt p committed)
  unfolding check
  check-Honest p = pre_attempt_terminal-Honest (pause.look p) committed attempt call

  pub hook_error-Honest :
      (option : ClientOptionKey) (cause : CauseCategory)
      → HonestPause committed
          (hook_error config call pause last attempt last.delivery_state option cause)
  unfolding hook_error with_response_evidence hook_configuration_error
  hook_error-Honest option cause = honest

  pub slept-Honest :
      (millis : ℕ) (r : SleepReport)
      → HonestPause committed (slept config call pause last attempt committed millis r)
  unfolding slept
  slept-Honest millis r = ground (
    arith,
    or_crash-Honest committed _ last (check-Honest Point.after_sleep),
    or_then-Honest committed _ last _ (check-Honest Point.after_sleep) (
        or_then-Honest committed _ last _ (check-Honest Point.after_scheduler)
          (hook_error-Honest ClientOptionKey.scheduler CauseCategory.unknown)),
    or_then-Honest committed _ last (waited millis) (check-Honest Point.after_sleep) tt,
  )

  pub with_delay-Honest :
      (remaining jitter : ℕ) (r : RetryAfter)
      → HonestPause committed
          (with_delay config call pause last attempt committed remaining jitter r)
  unfolding with_delay
  with_delay-Honest remaining jitter RetryAfter.wall_clock_failed =
      hook_error-Honest ClientOptionKey.wall_clock CauseCategory.unknown
  with_delay-Honest remaining jitter RetryAfter.no_delay = slept-Honest _ _
  with_delay-Honest remaining jitter (RetryAfter.after ns) = slept-Honest _ _

  pub sampled-Honest :
      (response : Option AttemptResponse) (remaining bound : ℕ) (e : EntropyReport)
      → HonestPause committed
          (sampled config call pause last attempt committed response remaining bound e)
  unfolding sampled
  sampled-Honest response remaining bound e = ground (
    arith,
    or_resume-Honest committed _ (check-Honest Point.after_entropy),
    hook_error-Honest ClientOptionKey.retry_entropy CauseCategory.retry_entropy,
    hook_error-Honest ClientOptionKey.retry_entropy CauseCategory.unset,
    with_delay-Honest remaining (pos_part e.value) (retry_after_of response),
  )

  pub with_remaining-Honest :
      (response : Option AttemptResponse) (remaining : ℤ)
      → HonestPause committed
          (with_remaining config call pause last attempt committed response remaining)
  unfolding with_remaining operation_deadline_error with_response_evidence
  with_remaining-Honest response remaining = ground (
    arith,
    delivery_for_commit-IsUnsent committed,
    sampled-Honest response (pos_part remaining / 1_000_000)
        (cap_millis config attempt (pos_part remaining / 1_000_000) + 1)
        (pause.entropy (cap_millis config attempt (pos_part remaining / 1_000_000) + 1)),
  )

  pub from_clock-Honest :
      (response : Option AttemptResponse) (now : Option ℤ)
      → HonestPause committed (from_clock config call pause last attempt committed response now)
  unfolding from_clock clock_error hook_configuration_error with_response_evidence
  from_clock-Honest response none = delivery_for_commit-IsUnsent committed
  from_clock-Honest response (some now) = with_remaining-Honest response _

  pub backoff-Honest :
      (response : Option AttemptResponse)
      → HonestPause committed (backoff config call pause last attempt committed response)
  unfolding backoff
  backoff-Honest response = from_clock-Honest response _
