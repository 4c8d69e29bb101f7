-- ===== src/Operation/Backoff.antt =====
-- operation.go: the pause between two attempts, `backoff`.
pub mod Delays
use repost_go.Errors.{
  DeliveryState, CauseCategory, ClientOptionKey, Error, hook_configuration_error,
}
use repost_go.Operation.{
  Sample, Call, clock_error, operation_deadline_error, pre_attempt_terminal, with_response_evidence,
}
use repost_go.Prelude.Int.{ℤ, pos, ◌-ℤ◌, leb_ℤ, ltb_ℤ, wrap64, pos_part}
use repost_go.Prelude.{
  ℕ, zero, suc, ◌+◌, ◌-◌, ◌*◌, ◌/◌, Bool, true, false, not, ◌&&◌, ◌||◌, Option, none, some, List,
  [], Bytes, ltb, ◌==◌, min, max, if◌then◌else◌,
}
use repost_go.Response.RetryAfter.{
  Delta, retry_after_value, parse_retry_after_delta, parse_retry_after_date,
  response_needs_wall_snapshot_for_status, retry_after_cap_millis,
}
use repost_go.Response.{AttemptResponse, or_empty}

-- The places where an attempt looks at its contexts and the clock, in the order of the code.
pub data Point : Type 0 where
  before_attempt attempt_clock after_clock after_incomplete after_success after_response : Point
  after_failure backoff_clock after_entropy after_sleep after_scheduler : Point

-- A bounded call of the entropy hook; it is cut off (`completed` unset) where the permit's deadline
-- context ends first.
pub record EntropyReport : Type 0 where
  pub completed : Bool
  pub panicked : Bool
  pub value : ℤ

pub record SleepReport : Type 0 where
  pub completed : Bool
  pub returned : Bool
  pub failed : Bool

-- The delays of the configuration, in milliseconds; the timeout in nanoseconds.
pub record RetryConfig : Type 0 where
  pub max_attempts : ℕ
  pub attempt_timeout : ℤ
  pub retry_base_delay : ℕ
  pub retry_max_delay : ℕ
  pub owns_transport : Bool

-- What the hooks and contexts answer around a pause.
pub record Pause : Type 0 where
  pub look : Point → Sample
  pub entropy : ℕ → EntropyReport
  pub sleep : ℕ → SleepReport

pub data Paused : Type 0 where
  waited : ℕ → Paused
  stopped : Error → Paused
  resumed nil_dereference : Paused

-- The doubling loop, for the rounds left.
unfoldable pub grow : ℕ → ℕ → ℕ → ℕ
grow zero cap maximum = cap
grow (suc n) cap maximum =
    let doubled = grow n (cap * 2) maximum in if ltb (maximum - cap) cap then maximum else doubled

-- The upper end of the jitter, in milliseconds.
unfoldable pub cap_millis : RetryConfig → ℕ → ℕ → ℕ
cap_millis config attempt remaining_millis =
    min
      (min (grow (attempt - 1) config.retry_base_delay config.retry_max_delay)
        config.retry_max_delay)
      remaining_millis

-- `value >= 0 && value < bound`, for a hook that did not panic.
abbrev pub entropy_ok : EntropyReport → ℕ → Bool
entropy_ok e bound = not e.panicked && leb_ℤ (pos 0) e.value && ltb_ℤ e.value (pos bound)

-- The Retry-After of the response: none that counts, a delay in nanoseconds, or a wall clock that
-- failed when it was needed.
pub data RetryAfter : Type 0 where
  no_delay wall_clock_failed : RetryAfter
  after : ℕ → RetryAfter

unfoldable pub dated : Option ℤ → RetryAfter
dated none = RetryAfter.no_delay
dated (some d) = RetryAfter.after (pos_part d)

unfoldable pub delayed : AttemptResponse → Bytes → Delta → RetryAfter
delayed r value (Delta.delay ns) = RetryAfter.after ns
delayed r value Delta.invalid = RetryAfter.no_delay
delayed r value Delta.needs_wall =
    if not (response_needs_wall_snapshot_for_status r.status (or_empty r.headers))
    then RetryAfter.no_delay
    else if r.header_clock_failed || not r.headers_received_at_set
    then RetryAfter.wall_clock_failed
    else dated (parse_retry_after_date value r.headers_received_at)

unfoldable pub header_delay : AttemptResponse → Option Bytes → RetryAfter
header_delay r none = RetryAfter.no_delay
header_delay r (some value) = delayed r value (parse_retry_after_delta value)

unfoldable pub retry_after_of : Option AttemptResponse → RetryAfter
retry_after_of none = RetryAfter.no_delay
retry_after_of (some r) = header_delay r (retry_after_value (or_empty r.headers))

-- The delay in milliseconds: the jitter, raised to the Retry-After as far as that is within its cap
-- and the time left.
unfoldable pub delay_millis : ℕ → ℕ → RetryAfter → ℕ
delay_millis jitter remaining_millis (RetryAfter.after ns) =
    max jitter (min (min (ns / 1_000_000) retry_after_cap_millis) remaining_millis)
delay_millis jitter remaining_millis _ = jitter

-- `nil` from the check after a cut-off entropy call would go on without a pause; after a cut-off
-- sleep it would be dereferenced.
abbrev pub or_resume : Option Error → Paused
or_resume none = resumed
or_resume (some e) = stopped e

abbrev pub or_crash : Option Error → Error → Paused
or_crash none last = nil_dereference
or_crash (some e) last = stopped (with_response_evidence e last)

abbrev pub or_then : Option Error → Error → Paused → Paused
or_then none last k = k
or_then (some e) last k = stopped (with_response_evidence e last)

module _ (config : RetryConfig) (call : Call) (pause : Pause) (last : Error) (attempt : ℕ) where
  unfoldable pub hook_error : DeliveryState → ClientOptionKey → CauseCategory → Paused
  hook_error state option cause = stopped (
      with_response_evidence
        (hook_configuration_error state last.operation_id last.idempotency_key attempt option cause)
        last)

  unfoldable pub check : Point → Bool → Option Error
  check point committed = pre_attempt_terminal (pause.look point) committed attempt call

  -- From the scheduler's report on.
  unfoldable pub slept : Bool → ℕ → SleepReport → Paused
  slept committed millis report =
      if not report.completed
      then or_crash (check Point.after_sleep committed) last
      else or_then (check Point.after_sleep committed) last (
          if report.failed || not report.returned
          then or_then (check Point.after_scheduler committed) last
              (hook_error last.delivery_state ClientOptionKey.scheduler CauseCategory.unknown)
          else waited millis)

  -- From the Retry-After on.
  unfoldable pub with_delay : Bool → ℕ → ℕ → RetryAfter → Paused
  with_delay committed remaining_millis jitter RetryAfter.wall_clock_failed =
      hook_error last.delivery_state ClientOptionKey.wall_clock CauseCategory.unknown
  with_delay committed remaining_millis jitter r =
      let millis = delay_millis jitter remaining_millis r in
      slept committed millis (pause.sleep millis)

  -- From the entropy hook's report on; `bound` is one more than the cap.
  unfoldable pub sampled : Bool → Option AttemptResponse → ℕ → ℕ → EntropyReport → Paused
  sampled committed response remaining_millis bound e =
      if not e.completed
      then or_resume (check Point.after_entropy committed)
      else if not (entropy_ok e bound)
      then hook_error last.delivery_state ClientOptionKey.retry_entropy
          (if e.panicked then CauseCategory.retry_entropy else CauseCategory.unset)
      else with_delay committed remaining_millis (pos_part e.value) (retry_after_of response)

  -- From the time left on, in nanoseconds.
  unfoldable pub with_remaining : Bool → Option AttemptResponse → ℤ → Paused
  with_remaining committed response remaining =
      if leb_ℤ remaining (pos 0) || pos_part remaining / 1_000_000 == 0
      then stopped (
          with_response_evidence
            (operation_deadline_error committed attempt (record call {
              operation_id = last.operation_id;
              idempotency_key = last.idempotency_key;
            }))
            last)
      else (let remaining_millis = pos_part remaining / 1_000_000 in
          let bound = cap_millis config attempt remaining_millis + 1 in
          sampled committed response remaining_millis bound (pause.entropy bound))

  unfoldable pub from_clock : Bool → Option AttemptResponse → Option ℤ → Paused
  from_clock committed response none = stopped (
      with_response_evidence
        (clock_error committed attempt (record call {
          operation_id = last.operation_id;
          idempotency_key = last.idempotency_key;
        }))
        last)
  from_clock committed response (some now) =
      with_remaining committed response (wrap64 (call.exclusive_deadline -ℤ now))

  unfoldable pub backoff : Bool → Option AttemptResponse → Paused
  backoff committed response = from_clock committed response (pause.look Point.backoff_clock).clock
