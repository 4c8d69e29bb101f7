-- ===== src/Operation.antt =====
-- operation.go: what an operation reads of its surroundings, the terminal checks between its steps,
-- and the classification of failures.
pub mod Backoff
pub mod Attempt
pub mod Prepare
pub mod Envelope
pub mod Keys
pub mod Issues
use repost_go.Errors.{
  ErrorCode, DeliveryState, FailureReason, CauseCategory, ClientOptionKey, Error, no_error_fields,
  hook_configuration_error,
}
use repost_go.Prelude.Int.{ℤ, pos, leb_ℤ, ltb_ℤ}
use repost_go.Prelude.{
  ℕ, Bool, true, false, not, ◌&&◌, ◌||◌, Option, none, some, Bytes, if◌then◌else◌,
}
use repost_go.Response.RetryAfter.{status_in, status_is, status_conflict}
use repost_go.Response.{AttemptFailure}

-- `Err()` of a context.
pub data ContextErr : Type 0 where
  running cancelled deadline_exceeded : ContextErr

-- One look at the contexts and the clock. `deadline_over` is the permit's deadline context,
-- `runtime_closed` the runtime's own; `clock` is `none` where the hook panics.
pub record Sample : Type 0 where
  pub deadline_over : Bool
  pub ctx_err : ContextErr
  pub caller_err : ContextErr
  pub runtime_closed : Bool
  pub clock : Option ℤ

-- What stays the same over the attempts of an operation.
pub record Call : Type 0 where
  pub operation_id : Bytes
  pub idempotency_key : Bytes
  pub exclusive_deadline : ℤ

abbrev is_deadline : ContextErr → Bool
is_deadline ContextErr.deadline_exceeded = true
is_deadline _ = false

abbrev is_over : ContextErr → Bool
is_over ContextErr.running = false
is_over _ = true

unfoldable pub delivery_for_commit : Bool → DeliveryState
delivery_for_commit true = DeliveryState.possibly_sent
delivery_for_commit false = DeliveryState.not_sent

-- The state of a cancelled or closed operation.
unfoldable pub cancelled_state : Bool → DeliveryState
cancelled_state true = DeliveryState.cancelled_unknown
cancelled_state false = DeliveryState.not_sent

abbrev pub terminal_error : ErrorCode → DeliveryState → ℕ → Call → Error
terminal_error code state attempts call = record no_error_fields {
  code = code;
  delivery_state = state;
  operation_id = call.operation_id;
  idempotency_key = call.idempotency_key;
  attempt_count = attempts;
}

unfoldable pub operation_deadline_error : Bool → ℕ → Call → Error
unfolding delivery_for_commit
operation_deadline_error committed attempts call =
    terminal_error ErrorCode.operation_deadline (delivery_for_commit committed) attempts call

unfoldable pub clock_error : Bool → ℕ → Call → Error
unfolding delivery_for_commit hook_configuration_error
clock_error committed attempts call =
    hook_configuration_error (delivery_for_commit committed) call.operation_id call.idempotency_key
      attempts ClientOptionKey.monotonic_clock CauseCategory.unknown

-- The clock against the exclusive deadline, the end of both terminal checks.
clock_terminal : Option ℤ → Bool → ℕ → Call → Option Error
unfolding clock_error operation_deadline_error
clock_terminal none committed attempts call = some (clock_error committed attempts call)
clock_terminal (some now) committed attempts call =
    if leb_ℤ call.exclusive_deadline now
    then some (operation_deadline_error committed attempts call)
    else none

unfoldable pub pre_attempt_terminal : Sample → Bool → ℕ → Call → Option Error
unfolding operation_deadline_error cancelled_state clock_terminal
pre_attempt_terminal s committed attempts call =
    if s.deadline_over
    then some (operation_deadline_error committed attempts call)
    else if is_deadline s.ctx_err || is_deadline s.caller_err
    then some (operation_deadline_error committed attempts call)
    else if s.runtime_closed
    then some (terminal_error ErrorCode.closed (cancelled_state committed) attempts call)
    else if is_over s.ctx_err || is_over s.caller_err
    then some (terminal_error ErrorCode.cancelled (cancelled_state committed) attempts call)
    else clock_terminal s.clock committed attempts call

unfoldable pub deadline_terminal : Sample → Bool → ℕ → Call → Option Error
unfolding operation_deadline_error clock_terminal
deadline_terminal s committed attempts call =
    if s.deadline_over
    then some (operation_deadline_error committed attempts call)
    else clock_terminal s.clock committed attempts call

unfoldable pub with_response_evidence : Error → Error → Error
with_response_evidence terminal last = record terminal {
  http_status = last.http_status;
  compressed_bytes = last.compressed_bytes;
  decompressed_bytes = last.decompressed_bytes;
  response_header_fields = last.response_header_fields;
  response_header_bytes = last.response_header_bytes;
  truncated = last.truncated;
}

unfoldable pub pre_commit_failure : ErrorCode → Bool
pre_commit_failure ErrorCode.dns = true
pre_commit_failure ErrorCode.connect = true
pre_commit_failure ErrorCode.proxy = true
pre_commit_failure ErrorCode.tls = true
pre_commit_failure _ = false

unfoldable pub response_may_have_been_accepted : ℤ → Bool
response_may_have_been_accepted status =
    status_in 200 300 status || status_is status status_conflict || leb_ℤ (pos 500) status

abbrev is_proxy_credential : CauseCategory → Bool
is_proxy_credential CauseCategory.proxy_credential_provider = true
is_proxy_credential _ = false

-- `validAttemptFailure` on a failure that is not nil.
unfoldable pub valid_attempt_failure : AttemptFailure → Bool
valid_attempt_failure f = elim f.code [
  | ErrorCode.configuration ↦ is_proxy_credential f.cause_category
  | ErrorCode.dns ↦ true
  | ErrorCode.connect ↦ true
  | ErrorCode.proxy ↦ true
  | ErrorCode.tls ↦ true
  | ErrorCode.io ↦ true
  | ErrorCode.attempt_timeout ↦ true
  | ErrorCode.cancelled ↦ true
  | _ ↦ false
]

abbrev is_proxy_auth : FailureReason → Bool
is_proxy_auth FailureReason.proxy_auth_required = true
is_proxy_auth _ = false

failure_retryable : ErrorCode → FailureReason → Bool
failure_retryable ErrorCode.dns reason = true
failure_retryable ErrorCode.connect reason = true
failure_retryable ErrorCode.io reason = true
failure_retryable ErrorCode.attempt_timeout reason = true
failure_retryable ErrorCode.proxy reason = not (is_proxy_auth reason)
failure_retryable _ reason = false

-- `classifyAttemptFailure` on a failure that is not nil.
unfoldable pub classify_attempt_failure : AttemptFailure → Bool → Error
unfolding failure_retryable
classify_attempt_failure f committed = record no_error_fields {
  code = f.code;
  delivery_state =
      if committed || f.committed then DeliveryState.possibly_sent else DeliveryState.not_sent;
  retryable = failure_retryable f.code f.failure_reason;
  failure_reason = f.failure_reason;
  cause_category = f.cause_category;
}

unfoldable pub set_attempt_cause : Bool → Error → Error
set_attempt_cause owns_transport e = elim e.cause_category [
  | CauseCategory.unset ↦ record e {
    cause_category =
        if owns_transport then CauseCategory.http_runtime else CauseCategory.custom_transport;
  }
  | _ ↦ e
]
