-- ===== src/Tests/Attempts.antt =====
-- operation.go, operation_response.go, internal/strictjson/parser.go: the theorems on the attempts of
-- an operation and on its response at concrete inputs.
use repost_go.Errors.{
  ErrorCode, DeliveryState, FailureReason, CauseCategory, Error, no_error_fields,
}
use repost_go.Operation.Attempt.Unaccepted.{unsent-IsUnsent, Unaccepted}
use repost_go.Operation.Attempt.Numbering.{send_attempts_counts, numbers, count_from}
use repost_go.Operation.Attempt.Outcomes.{send_attempts_returns}
use repost_go.Operation.Attempt.{
  Surroundings, send_attempts, attempts, go_on, attempt_turn, send_with_clock, on_report, settle,
  dispatch, on_failure, retry_or_fail, stamped, header_limit, well_formed_outcome, terminal,
  attempt_committed, snapshot_response, after_pause, failed, panicked,
}
use repost_go.Operation.Backoff.Delays.{backoff_is_in_time, grow-power, longest}
use repost_go.Operation.Backoff.{
  Pause, RetryConfig, waited, backoff, from_clock, with_remaining, sampled, with_delay, slept,
  cap_millis, delay_millis, grow, retry_after_of, check,
}
use repost_go.Operation.{
  Call, Sample, ContextErr, classify_attempt_failure, set_attempt_cause, valid_attempt_failure,
  pre_commit_failure, pre_attempt_terminal,
}
use repost_go.Prelude.Int.{pos, ◌-ℤ◌, wrap64, ◌≤ℤ◌}
use repost_go.Prelude.{
  ℕ, ◌*◌, ◌^◌, ◌≤◌, ◌≡◌, refl, true, false, none, some, [], ◌∷◌, arith, min, All,
}
use repost_go.Response.Statuses.{Judged, validate_judges_delivery}
use repost_go.Response.Validate.{
  Sent, refused, validate_attempt_response, status_error, counted_error,
}
use repost_go.Response.RetryAfter.{response_status_retryable}
use repost_go.Response.{AttemptFailure, AttemptResponse}

abbrev pub config : RetryConfig
config = record {
  max_attempts = 2;
  attempt_timeout = pos 10_000_000_000;
  retry_base_delay = 200;
  retry_max_delay = 5_000;
  owns_transport = true;
}

abbrev pub call : Call
call = record {
  operation_id = b'1' ∷ [];
  idempotency_key = b'k' ∷ [];
  exclusive_deadline = pos 30_000_000_000;
}

abbrev calm : Sample
calm = record {
  deadline_over = false;
  ctx_err = ContextErr.running;
  caller_err = ContextErr.running;
  runtime_closed = false;
  clock = some (pos 1_000_000_000);
}

abbrev pub pause : Pause
pause = record {
  look = λ p. calm;
  entropy = λ bound. record { completed = true; panicked = false; value = pos 77 };
  sleep = λ m. record { completed = true; returned = true; failed = false };
}

abbrev refused_connection : AttemptFailure
refused_connection = record {
  code = ErrorCode.connect;
  failure_reason = FailureReason.connect_refused;
  committed = false;
  cause_category = CauseCategory.unset;
}

abbrev world : ℕ → Surroundings
world k = record {
  pause = pause;
  report = record {
    outcome = record { response = none; failure = some refused_connection };
    completed = true;
    marked = false;
    close_fails = false;
  };
}

abbrev sent : Sent
sent = record { sent_type = []; sent_customer_id = []; sent_timestamp = [] }

abbrev connect_error : Error
connect_error = record no_error_fields {
  code = ErrorCode.connect;
  delivery_state = DeliveryState.not_sent;
  retryable = true;
  operation_id = b'1' ∷ [];
  idempotency_key = b'k' ∷ [];
  attempt_count = 2;
  failure_reason = FailureReason.connect_refused;
  cause_category = CauseCategory.http_runtime;
}

ends_unsent : (send_attempts config call sent world).1 ≡ failed connect_error
unfolding send_attempts attempts go_on attempt_turn send_with_clock on_report settle dispatch
    on_failure retry_or_fail stamped header_limit well_formed_outcome terminal attempt_committed
    snapshot_response after_pause classify_attempt_failure set_attempt_cause valid_attempt_failure
    pre_commit_failure pre_attempt_terminal backoff from_clock with_remaining sampled with_delay
    slept cap_millis grow retry_after_of delay_millis wrap64 ◌-ℤ◌ check
ends_unsent = refl

unsent-IsUnsent_example :
    All (Unaccepted config call sent world) (send_attempts config call sent world).0
unsent-IsUnsent_example = unsent-IsUnsent config call sent world connect_error ends_unsent tt

send_attempts_returns_example : ¬ (send_attempts config call sent world).1 ≡ panicked
send_attempts_returns_example =
    send_attempts_returns config call sent world (λ k m e. absurd (cc)) (omega arith)

send_attempts_counts_example :
    (n : ℕ) × (n ≤ 2) × (numbers (send_attempts config call sent world).0 ≡ count_from n 1)
send_attempts_counts_example = send_attempts_counts config call sent world

waits_77 : backoff config call pause connect_error 1 false none ≡ waited 77
unfolding backoff from_clock with_remaining sampled with_delay slept cap_millis grow retry_after_of
    delay_millis wrap64 ◌-ℤ◌ pre_attempt_terminal check
waits_77 = refl

backoff_is_in_time_example :
    (77 ≤ longest config call pause connect_error 1 false)
    × (pos (77 * 1_000_000) ≤ℤ wrap64 (call.exclusive_deadline -ℤ pos 1_000_000_000))
backoff_is_in_time_example =
    backoff_is_in_time config call pause connect_error 1 false none (pos 1_000_000_000) 77 refl
      waits_77

grow-power_example : min (grow 4 200 5_000) 5_000 ≡ min (200 * 2 ^ 4) 5_000
grow-power_example = grow-power 4 200 5_000

abbrev not_found : AttemptResponse
not_found = record {
  status = pos 404;
  headers = some [];
  body = some [];
  compressed_bytes = pos 0;
  decompressed_bytes = pos 0;
  truncated = false;
  headers_received_at = pos 0;
  headers_received_at_set = false;
  header_clock_failed = false;
  protocol_violation = false;
  limit_violation = false;
  incomplete = false;
  retry_forbidden = false;
  header_limit_violation = false;
  attempt_failure_code = ErrorCode.unset;
  attempt_failure_reason = FailureReason.unset;
  normalized = true;
}

abbrev not_found_error : Error
not_found_error = record no_error_fields {
  code = ErrorCode.http_rejected;
  delivery_state = DeliveryState.rejected;
  http_status = pos 404;
}

refuses : validate_attempt_response not_found sent ≡ refused not_found_error
unfolding validate_attempt_response status_error counted_error response_status_retryable
refuses = refl

validate_judges_delivery_example : Judged (pos 404) not_found_error
validate_judges_delivery_example = validate_judges_delivery not_found sent not_found_error refuses
