-- ===== src/Transport/Exchange.antt =====
-- transport_raw.go: `exchangeH1` and `sendH1`. A connection is what it answers to one exchange.
use repost_go.Errors.{ErrorCode, FailureReason}
use repost_go.Http1.Gzip.{Gzip}
use repost_go.Http1.Reading.{read_final_response}
use repost_go.Http1.Writing.{WriteError, write_request}
use repost_go.Http1.{ReadError, Request, Response, no_response}
use repost_go.Prelude.Int.{ℤ}
use repost_go.Prelude.{
  ℕ, Bool, true, false, not, ◌&&◌, ◌||◌, Option, none, some, List, [], ◌∷◌, Bytes, leb, ◌==◌,
  if◌then◌else◌,
}
use repost_go.Response.{AttemptOutcome}
use repost_go.Transport.Outcomes.{
  Exchange, ExchangeError, framing, caused, Snapshot, no_snapshot, capture, h1_headers,
  still_running, map_h1_exchange, DialError, dial_failure, raw_failure,
}
use repost_go.Transport.Requests.{response_closes_connection}
use repost_go.Transport.{Context, Cause, plain_cause, stale_h1_failure}

-- What a connection and the request's clock hook answer to one exchange: an error of setting the
-- deadline, the writer with what its errors are, the bytes it delivers, how many of them were received
-- since the exchange began, and what its reading fails with at the end.
pub record Connection (W : Type 0) : Type 0 where
  pub deadline_error : Option Cause
  pub writer : W
  pub write : W → Bytes → ℤ × Bool × W
  pub write_cause : Cause
  pub delivered : Bytes
  pub received : ℕ
  pub read_cause : Cause
  pub clock : Option (ℤ × Bool)

-- An error of the reader, or of the connection where the reader passes that on.
unfoldable pub read_error : Cause → ReadError → ExchangeError
read_error cause e = elim e [
  | ReadError.read_failed ↦ caused cause
  | ReadError.out_of_fuel ↦ caused plain_cause
  | ReadError.protocol ↦ framing ReadError.protocol
  | ReadError.header_limit ↦ framing ReadError.header_limit
  | ReadError.body_too_large ↦ framing ReadError.body_too_large
  | ReadError.expansion_ratio ↦ framing ReadError.expansion_ratio
  | ReadError.incomplete_body ↦ framing ReadError.incomplete_body
]

unfoldable pub write_error : Cause → WriteError → ExchangeError
write_error cause e = elim e [ WriteError.write_failed ↦ caused cause | _ ↦ caused plain_cause ]

abbrev pub snapshot_of : Option (ℤ × Bool) → Option Response → Snapshot
snapshot_of clock none = no_snapshot
snapshot_of clock (some r) = capture clock r.status (h1_headers r.headers) no_snapshot

abbrev pub stopped_exchange : Bool → ExchangeError → Exchange
stopped_exchange committed e = record {
  response = no_response;
  header_snapshot = no_snapshot;
  response_bytes = 0;
  request_wrote = false;
  committed = committed;
  error = some e;
}

-- What the dial of a fresh connection gives.
pub data Dialled (W : Type 0) : Type 0 where
  not_dialled : DialError → Dialled W
  fresh : Connection W → Dialled W
  other_resource : Dialled W

-- What `sendH1` is called with of the lease and its connection.
pub record LeaseFacts : Type 0 where
  pub reused : Bool
  pub client_certificate_requested : Bool

-- The context where the dial fails, where the connection is given back, and where the exchange is
-- mapped.
pub record Clocks : Type 0 where
  pub at_dial : Context
  pub at_release : Context
  pub at_end : Context

-- The outcome, what the lease was given back with, and the exchanges in their order.
pub record SentH1 : Type 0 where
  pub outcome : AttemptOutcome
  pub reusable : Bool
  pub exchanges : List Exchange

abbrev pub failed : Exchange → Bool
failed x = elim x.error [ none ↦ false | some e ↦ true ]

unfoldable pub stale : ExchangeError → Bool
unfolding stale_h1_failure
stale e = elim e [ ExchangeError.framing r ↦ false | ExchangeError.caused c ↦ stale_h1_failure c ]

-- `failure.Failure.Committed = committed`
abbrev pub set_committed : AttemptOutcome → Bool → AttemptOutcome
set_committed o committed = elim o.failure [
  | none ↦ o
  | some f ↦ record o { failure = some (record f { committed = committed }) }
]

-- A context is read where it is needed, and may end between two reads. The test for a connection
-- that went stale before it was used again:
unfoldable pub must_replay : LeaseFacts → Exchange → Bool
unfolding stale
must_replay lease x =
    failed x
    && lease.reused
    && x.request_wrote
    && x.response_bytes == 0
    && elim x.error [ none ↦ false | some e ↦ stale e ]

unfoldable pub finish_exchange : Exchange → Clocks → SentH1
unfolding map_h1_exchange response_closes_connection
finish_exchange x t = record {
  outcome = map_h1_exchange t.at_end x;
  reusable =
      not (failed x)
      && still_running t.at_release
      && leb 200 x.response.status
      && not (response_closes_connection x.response.headers);
  exchanges = x ∷ [];
}

module _ (g : Gzip) {W : Type 0} where
  -- The part behind the writing of the request.
  unfoldable pub exchange_read : Connection W → Bool → Exchange
  unfolding read_final_response capture h1_headers read_error
  exchange_read c committed =
      let d = read_final_response g c.delivered in
      record {
        response = d.response;
        header_snapshot = snapshot_of c.clock d.announced;
        response_bytes = c.received;
        request_wrote = true;
        committed = committed;
        error = elim d.error [ none ↦ none | some e ↦ some (read_error c.read_cause e) ];
      }

  unfoldable pub exchange_h1 : Connection W → Request → Exchange
  unfolding write_request exchange_read write_error
  exchange_h1 c req = elim c.deadline_error [
    | some cause ↦ stopped_exchange false (caused cause)
    | none ↦
        let w = write_request c.write c.writer req in
        elim w.error [
          | some e ↦ stopped_exchange w.marked (write_error c.write_cause e)
          | none ↦ exchange_read c w.marked
        ]
  ]

  -- The request sent again on a fresh connection, if there is one.
  unfoldable pub replay : Exchange → Request → Clocks → Dialled W → SentH1
  unfolding exchange_h1 map_h1_exchange dial_failure raw_failure
  replay x req t (not_dialled e) = record {
    outcome = set_committed (dial_failure t.at_dial e) x.committed;
    reusable = false;
    exchanges = x ∷ [];
  }
  replay x req t other_resource = record {
    outcome = raw_failure ErrorCode.io FailureReason.unknown x.committed;
    reusable = false;
    exchanges = x ∷ [];
  }
  replay x req t (fresh d) =
      let y = exchange_h1 d req in
      record {
        outcome = map_h1_exchange t.at_end (record y { committed = x.committed || y.committed });
        reusable = false;
        exchanges = x ∷ y ∷ [];
      }

  unfoldable pub send_h1 : LeaseFacts → Connection W → Request → Dialled W → Clocks → SentH1
  unfolding exchange_h1 must_replay replay finish_exchange raw_failure
  send_h1 lease c req redial t =
      let x = exchange_h1 c req in
      if failed x && lease.client_certificate_requested
      then record {
        outcome = raw_failure ErrorCode.tls FailureReason.tls_negotiation false;
        reusable = false;
        exchanges = x ∷ [];
      }
      else if must_replay lease x
      then replay x req t redial
      else finish_exchange x t
