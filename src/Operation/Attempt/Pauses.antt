-- ===== src/Operation/Attempt/Pauses.antt =====
-- operation.go: the terminal checks of a pause that was cut off.
use repost_go.Errors.{CauseCategory, ClientOptionKey, Error}
use repost_go.Operation.Attempt.{Surroundings}
use repost_go.Operation.Backoff.{
  Point, RetryConfig, Paused, waited, nil_dereference, from_clock, with_remaining, sampled,
  with_delay, slept, check, hook_error, or_resume, or_crash, or_then, RetryAfter, EntropyReport,
  retry_after_of, cap_millis,
}
use repost_go.Operation.{Call, pre_attempt_terminal}
use repost_go.Prelude.Int.{ℤ, pos_part}
use repost_go.Prelude.{ℕ, ◌+◌, ◌/◌, ◌≡◌, Bool, true, false, Option, none, some, arith}
use repost_go.Response.{AttemptResponse}

-- A sleep is cut off only where the deadline context of the permit has ended, and a context that has
-- ended stays so.
abbrev pub CutOffByDeadline : Surroundings → Type 0
CutOffByDeadline world =
    (m : ℕ)
    → (world.pause.sleep m).completed ≡ false
    → (world.pause.look Point.after_sleep).deadline_over ≡ true

-- A pause that does not dereference nil.
abbrev pub NoCrash : Paused → Type 0
NoCrash nil_dereference = ⊥
NoCrash _ = Unit

or_then-NoCrash :
    (o : Option Error) (last : Error) (k : Paused) → NoCrash k → NoCrash (or_then o last k)
or_then-NoCrash none last k h = h
or_then-NoCrash (some e) last k h = tt

or_resume-NoCrash : (o : Option Error) → NoCrash (or_resume o)
or_resume-NoCrash none = tt
or_resume-NoCrash (some e) = tt

module _ (config : RetryConfig) (call : Call) (world : Surroundings) (last : Error) (attempt : ℕ)
    (committed : Bool) (sound : CutOffByDeadline world) where
  after_sleep-NoCrash :
      (m : ℕ)
      → (world.pause.sleep m).completed ≡ false
      → NoCrash
          (or_crash (check config call world.pause last attempt Point.after_sleep committed) last)
  unfolding check pre_attempt_terminal
  after_sleep-NoCrash m e = ground (arith, sound m e)

  slept-NoCrash :
      (m : ℕ)
      → NoCrash (slept config call world.pause last attempt committed m (world.pause.sleep m))
  unfolding slept hook_error
  slept-NoCrash m = ground (
    arith,
    after_sleep-NoCrash m,
    or_then-NoCrash (check config call world.pause last attempt Point.after_sleep committed) last
        (waited m) tt,
    or_then-NoCrash (check config call world.pause last attempt Point.after_sleep committed) last _
        (or_then-NoCrash
          (check config call world.pause last attempt Point.after_scheduler committed) last
          (hook_error config call world.pause last attempt last.delivery_state
            ClientOptionKey.scheduler CauseCategory.unknown)
          tt),
  )

  with_delay-NoCrash :
      (remaining jitter : ℕ) (r : RetryAfter)
      → NoCrash (with_delay config call world.pause last attempt committed remaining jitter r)
  unfolding with_delay hook_error
  with_delay-NoCrash remaining jitter RetryAfter.wall_clock_failed = tt
  with_delay-NoCrash remaining jitter RetryAfter.no_delay = slept-NoCrash _
  with_delay-NoCrash remaining jitter (RetryAfter.after ns) = slept-NoCrash _

  sampled-NoCrash :
      (response : Option AttemptResponse) (remaining bound : ℕ) (e : EntropyReport)
      → NoCrash (sampled config call world.pause last attempt committed response remaining bound e)
  unfolding sampled hook_error
  sampled-NoCrash response remaining bound e = ground (
    arith,
    or_resume-NoCrash (check config call world.pause last attempt Point.after_entropy committed),
    with_delay-NoCrash remaining (pos_part e.value) (retry_after_of response),
  )

  with_remaining-NoCrash :
      (response : Option AttemptResponse) (remaining : ℤ)
      → NoCrash (with_remaining config call world.pause last attempt committed response remaining)
  unfolding with_remaining
  with_remaining-NoCrash response remaining = ground (
    arith,
    sampled-NoCrash response (pos_part remaining / 1_000_000)
        (cap_millis config attempt (pos_part remaining / 1_000_000) + 1)
        (world.pause.entropy (cap_millis config attempt (pos_part remaining / 1_000_000) + 1)),
  )

  pub backoff-NoCrash :
      (response : Option AttemptResponse) (now : Option ℤ)
      → NoCrash (from_clock config call world.pause last attempt committed response now)
  unfolding from_clock
  backoff-NoCrash response none = tt
  backoff-NoCrash response (some now) = with_remaining-NoCrash response _
