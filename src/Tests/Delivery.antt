-- ===== src/Tests/Delivery.antt =====
-- operation.go: an operation whose first attempt is answered with a success.
use repost_go.Operation.Attempt.Success.{AcceptedWith, send_attempts-AcceptedWith}
use repost_go.Operation.Attempt.{
  Surroundings, send_attempts, attempts, go_on, attempt_turn, send_with_clock, on_report, settle,
  dispatch, on_response, header_limit, well_formed_outcome, valid_attempt_response_shape, terminal,
  snapshot_response, succeeded, close,
}
use repost_go.Operation.{pre_attempt_terminal, deadline_terminal}
use repost_go.Prelude.{ℕ, ◌≤◌, ◌≡◌, refl, true, false, none, some}
use repost_go.Response.Headers.{snapshot_attempt_response}
use repost_go.Response.RetryAfter.{
  response_needs_wall_snapshot_for_status, response_status_retryable,
}
use repost_go.Tests.Attempts.{config, call, pause}
use repost_go.Tests.Bodies.{created, sent, result, accepts}

abbrev world : ℕ → Surroundings
world k = record {
  pause = pause;
  report = record {
    outcome = record { response = some created; failure = none };
    completed = true;
    marked = true;
    close_fails = false;
  };
}

snapshots : snapshot_attempt_response created ≡ created
unfolding snapshot_attempt_response
snapshots = refl

delivers : (send_attempts config call sent world).1 ≡ succeeded result
unfolding send_attempts attempts go_on attempt_turn send_with_clock on_report settle dispatch
    on_response header_limit well_formed_outcome valid_attempt_response_shape terminal
    snapshot_response close pre_attempt_terminal deadline_terminal
    response_needs_wall_snapshot_for_status response_status_retryable
delivers = rw (snapshots, accepts) refl

send_attempts-AcceptedWith_example :
    (i : ℕ) × (1 ≤ i) × (i ≤ 2) × AcceptedWith config call sent i (world i) result
send_attempts-AcceptedWith_example =
    send_attempts-AcceptedWith config call sent world result delivers
