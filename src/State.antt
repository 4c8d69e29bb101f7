-- ===== src/State.antt =====
-- state.go: admission of operations, their permits, the diagnostic counters and the close
-- handshake. A function here is one section of the source under a mutex; where a method takes two
-- mutexes in turn it is two functions. `int` and `int64` fields that the code also decrements are
-- integers; the saturating counters, which never fall, are natural numbers.
pub mod Permits
pub mod Counters
pub mod World
pub mod Invariant
pub mod Lifecycle
pub mod Recovery
use repost_go.Errors.{
  ErrorCode, DeliveryState, CauseCategory, ClientOptionKey, Error, operation_error,
  hook_configuration_error,
}
use repost_go.Prelude.Int.{ℤ, pos, ◌+ℤ◌, ◌-ℤ◌, ltb_ℤ, leb_ℤ, max_int64, min_int64}
use repost_go.Prelude.{
  ℕ, ◌+◌, ◌-◌, Bool, false, ◌&&◌, ◌||◌, Option, none, some, [], leb, ltb, ◌==◌, if◌then◌else◌,
}

abbrev pub request_workspace_bytes : ℕ
request_workspace_bytes = 1_048_576

abbrev pub response_workspace_bytes : ℕ
response_workspace_bytes = 1_048_576

abbrev pub parser_scratch_bytes : ℕ
parser_scratch_bytes = 262_144

abbrev pub initial_operation_reservation_bytes : ℕ
initial_operation_reservation_bytes =
    request_workspace_bytes + response_workspace_bytes + parser_scratch_bytes

abbrev pub maximum_diagnostic_counter : ℕ
maximum_diagnostic_counter = 9_007_199_254_740_991

pub record RuntimeDiagnostics : Type 0 where
  pub in_flight_operations : ℤ
  pub buffered_bytes : ℤ
  pub concurrency_overload_rejections : ℕ
  pub byte_overload_rejections : ℕ
  pub response_header_limit_failures : ℕ
  pub response_close_failures : ℕ
  pub dropped_observer_events : ℕ
  pub observer_failures : ℕ
  pub telemetry_failures : ℕ
  pub closed : Bool

-- `wg` is the counter of the WaitGroup. The channel `closeDone` is closed exactly when `closed`
-- is set: `finishClose` does both in one section.
pub record RuntimeState : Type 0 where
  pub wg : ℤ
  pub max_in_flight_operations : ℤ
  pub max_buffered_bytes : ℤ
  pub operation_timeout : ℤ
  pub diagnostics : RuntimeDiagnostics
  pub closing : Bool

-- The state and the contexts of a permit are in the world that holds it.
pub record OperationPermit : Type 0 where
  pub active_calls : ℤ
  pub release_requested : Bool
  pub held_bytes : ℤ
  pub started_nanos : ℤ
  pub exclusive_deadline : ℤ
  pub released : Bool

unfoldable pub saturating_add : ℕ → ℤ → ℕ
saturating_add counter (ℤ.negsuc d) = counter
saturating_add counter (pos delta) =
    if delta == 0 || leb maximum_diagnostic_counter counter
    then counter
    else if ltb (maximum_diagnostic_counter - counter) delta
    then maximum_diagnostic_counter
    else counter + delta

-- The two tests are evaluated only where their own difference is in range.
unfoldable pub add_nanos_saturated : ℤ → ℤ → ℤ
add_nanos_saturated value delta =
    if ltb_ℤ (pos 0) delta && ltb_ℤ (max_int64 -ℤ delta) value
    then max_int64
    else if ltb_ℤ delta (pos 0) && ltb_ℤ value (min_int64 -ℤ delta)
    then min_int64
    else value +ℤ delta

unfoldable pub new_runtime_state : ℤ → ℤ → ℤ → RuntimeState
new_runtime_state max_in_flight max_buffered timeout = record {
  wg = pos 0;
  max_in_flight_operations = max_in_flight;
  max_buffered_bytes = max_buffered;
  operation_timeout = timeout;
  diagnostics = record {
    in_flight_operations = pos 0;
    buffered_bytes = pos 0;
    concurrency_overload_rejections = 0;
    byte_overload_rejections = 0;
    response_header_limit_failures = 0;
    response_close_failures = 0;
    dropped_observer_events = 0;
    observer_failures = 0;
    telemetry_failures = 0;
    closed = false;
  };
  closing = false;
}

-- What `admit` reads of its surroundings: whether the deadline context has ended, the reading of
-- the monotonic clock (`none` where the hook panics), and the time left until the caller's
-- deadline, if there is one.
pub record AdmitInput : Type 0 where
  pub deadline_over : Bool
  pub clock : Option ℤ
  pub until_parent_deadline : Option ℤ

pub data Admission : Type 0 where
  refused : Error → Admission
  admitted : OperationPermit → Admission

-- The exclusive deadline: the operation's timeout, or the caller's own deadline if that is earlier.
unfoldable pub exclusive_deadline_of : ℤ → ℤ → Option ℤ → ℤ
unfolding add_nanos_saturated
exclusive_deadline_of started timeout none = add_nanos_saturated started timeout
exclusive_deadline_of started timeout (some until) =
    let deadline = add_nanos_saturated started timeout in
    let parent = add_nanos_saturated started (if ltb_ℤ until (pos 0) then pos 0 else until) in
    if ltb_ℤ parent deadline then parent else deadline

reserve : RuntimeState → RuntimeState
reserve s = record s {
  wg = s.wg +ℤ pos 1;
  diagnostics = record (s.diagnostics) {
    in_flight_operations = s.diagnostics.in_flight_operations +ℤ pos 1;
    buffered_bytes = s.diagnostics.buffered_bytes +ℤ pos initial_operation_reservation_bytes;
  };
}

-- The tail of `admit`, once the clock was read.
admit_at : RuntimeState → Option ℤ → Option ℤ → RuntimeState × Admission
unfolding reserve
admit_at s none until = (
  s,
  refused (
      hook_configuration_error DeliveryState.not_sent [] [] 0 ClientOptionKey.monotonic_clock
        CauseCategory.unknown),
)
admit_at s (some started) until = (
  reserve s,
  admitted (record {
    active_calls = pos 0;
    release_requested = false;
    held_bytes = pos initial_operation_reservation_bytes;
    started_nanos = started;
    exclusive_deadline = exclusive_deadline_of started s.operation_timeout until;
    released = false;
  }),
)

unfoldable pub admit : RuntimeState → AdmitInput → RuntimeState × Admission
unfolding admit_at saturating_add
admit s input =
    if s.closing || s.diagnostics.closed
    then (s, refused (operation_error ErrorCode.closed))
    else if leb_ℤ s.max_in_flight_operations s.diagnostics.in_flight_operations
    then (
      record s {
        diagnostics = record (s.diagnostics) {
          concurrency_overload_rejections =
              saturating_add s.diagnostics.concurrency_overload_rejections (pos 1);
        };
      },
      refused (operation_error ErrorCode.overloaded),
    )
    else if ltb_ℤ (s.max_buffered_bytes -ℤ pos initial_operation_reservation_bytes)
        s.diagnostics.buffered_bytes
    then (
      record s {
        diagnostics = record (s.diagnostics) {
          byte_overload_rejections = saturating_add s.diagnostics.byte_overload_rejections (pos 1);
        };
      },
      refused (operation_error ErrorCode.overloaded),
    )
    else if input.deadline_over
    then (s, refused (operation_error ErrorCode.operation_deadline))
    else admit_at s input.clock input.until_parent_deadline
