-- ===== src/Tests/Exchanges.antt =====
-- transport_raw.go: runs of exchanges, and concrete inputs of the theorems on them.
use repost_go.Errors.{ErrorCode, FailureReason, CauseCategory}
use repost_go.Http1.{ReadError, Request, Response, Header, no_response}
use repost_go.Operation.Attempt.{attempt_committed, well_formed_outcome}
use repost_go.Prelude.{ℕ, ◌≡◌, refl, true, false, none, some, [], Bytes, length}
use repost_go.Response.{AttemptFailure}
use repost_go.Tests.Wire.{stored, stored-IsReader, request, slow_writer, accepted_text}
use repost_go.Text.{codes}
use repost_go.Transport.Exchange.{
  Connection, fresh, LeaseFacts, Clocks, exchange_h1, send_h1, not_dialled, SentH1,
}
use repost_go.Transport.Outcomes.{Exchange, ExchangeError, map_h1_exchange, no_snapshot, DialError}
use repost_go.Transport.Requests.{response_closes_connection}
use repost_go.Transport.Reuse.{IsDone, send_h1_reuses}
use repost_go.Transport.WellFormed.{is_timed_exchange, map_h1_exchange-Formed}
use repost_go.Transport.{Ended, Context, Cause, plain_cause}

abbrev running : Context
running = record { ended = Ended.running; deadline_reached = false }

abbrev clocks : Clocks
clocks = record { at_dial = running; at_release = running; at_end = running }

abbrev eof_cause : Cause
eof_cause = record plain_cause { eof = true }

-- A connection that takes seven bytes at once and delivers a text.
abbrev connection : Bytes → ℕ → Connection ℕ
connection text received = record {
  deadline_error = none;
  writer = 7;
  write = slow_writer;
  write_cause = plain_cause;
  delivered = text;
  received = received;
  read_cause = eof_cause;
  clock = none;
}

abbrev used : LeaseFacts
used = record { reused = true; client_certificate_requested = false }

-- A connection that was closed while it was idle is replaced, and the second exchange succeeds.
replayed :
    length
      (send_h1 stored used
        (connection [] 0)
        request
        (fresh (connection accepted_text 70))
        clocks).exchanges
    ≡ 2
unfolding send_h1 repost_go.Http1.◌>>=◌ repost_go.Http1.require
replayed = refl

abbrev io_failure : AttemptFailure
io_failure = record {
  code = ErrorCode.io;
  failure_reason = FailureReason.connection_reset;
  committed = true;
  cause_category = CauseCategory.unset;
}

send_h1_reuses_example :
    IsDone
      (connection accepted_text 70)
      request
      (exchange_h1 stored (connection accepted_text 70) request)
    × (true ≡ true)
    × (response_closes_connection
          (exchange_h1 stored (connection accepted_text 70) request).response.headers
        ≡ false)
unfolding send_h1 repost_go.Http1.◌>>=◌ repost_go.Http1.require
send_h1_reuses_example =
    send_h1_reuses stored stored-IsReader used (connection accepted_text 70) request
      (fresh (connection [] 0)) clocks refl

abbrev too_many_headers : Exchange
too_many_headers = record {
  response = record no_response { status = 503 };
  header_snapshot = no_snapshot;
  response_bytes = 70_000;
  request_wrote = true;
  committed = true;
  error = some (ExchangeError.framing ReadError.header_limit);
}

map_h1_exchange-Formed_example :
    well_formed_outcome (map_h1_exchange running too_many_headers) ≡ true
unfolding is_timed_exchange repost_go.Response.RetryAfter.response_needs_wall_snapshot_for_status
map_h1_exchange-Formed_example = map_h1_exchange-Formed running too_many_headers refl

-- "Retry-After: Mon, 01 Jan 2035 00:00:00 GMT"
abbrev dated_text : Bytes
dated_text =
    codes
      "HTTP/1.1 503 Busy\r\nRetry-After: Mon, 01 Jan 2035 00:00:00 GMT\r\nContent-Length: 2\r\nTransfer-Encoding: chunked\r\n\r\n{}"

-- A dated demand to wait, in a head that is refused behind it, has no snapshot of the clock: the outcome
-- is not well formed.
dated_and_refused :
    well_formed_outcome
      (send_h1 stored used
        (connection dated_text 120)
        request
        (fresh (connection [] 0))
        clocks).outcome
    ≡ false
unfolding send_h1 well_formed_outcome repost_go.Operation.Attempt.valid_attempt_response_shape
    repost_go.Response.RetryAfter.response_needs_wall_snapshot_for_status repost_go.Http1.◌>>=◌
    repost_go.Http1.require
dated_and_refused = refl

-- The request was written on a connection that was closed while it was idle, and the dial for its
-- replay is refused: the failure says committed, and the operation takes the attempt as not committed.
abbrev refused_redial : SentH1
refused_redial =
    send_h1 stored used (connection [] 0) request
      (not_dialled (DialError.caused (record plain_cause { refused = true }))) clocks

redial_says_committed :
    refused_redial.outcome.failure
    ≡ some (record {
      code = ErrorCode.connect;
      failure_reason = FailureReason.connect_refused;
      committed = true;
      cause_category = CauseCategory.unset;
    })
unfolding send_h1 repost_go.Http1.◌>>=◌ repost_go.Http1.require
redial_says_committed = refl

redial_is_forgotten : attempt_committed true refused_redial.outcome ≡ false
unfolding send_h1 attempt_committed repost_go.Http1.◌>>=◌ repost_go.Http1.require
    repost_go.Operation.pre_commit_failure
redial_is_forgotten = refl
