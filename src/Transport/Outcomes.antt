-- ===== src/Transport/Outcomes.antt =====
-- transport_raw.go: the outcome that an exchange over HTTP/1.1 or HTTP/2 is handed on as.
use repost_go.Errors.{ErrorCode, FailureReason, CauseCategory}
use repost_go.Http1.{ReadError, Header, Response}
use repost_go.Prelude.Int.{ℤ, pos}
use repost_go.Prelude.{
  ℕ, Bool, true, false, not, ◌&&◌, ◌||◌, Option, none, some, List, [], ◌∷◌, leb, ltb, if◌then◌else◌,
}
use repost_go.Response.Headers.{Encoding, response_content_encoding}
use repost_go.Response.RetryAfter.{response_needs_wall_snapshot_for_status}
use repost_go.Response.{HeaderField, AttemptResponse, AttemptOutcome, or_empty}
use repost_go.Transport.{Ended, Context, Cause, classify_transport_cause}

unfoldable pub raw_failure : ErrorCode → FailureReason → Bool → AttemptOutcome
raw_failure code reason committed = record {
  response = none;
  failure = some (record {
    code = code;
    failure_reason = reason;
    committed = committed;
    cause_category = CauseCategory.unset;
  });
}

-- `responseHeaderSnapshot`
pub record Snapshot : Type 0 where
  pub at : ℤ
  pub set : Bool
  pub failed : Bool

abbrev pub no_snapshot : Snapshot
no_snapshot = record { at = pos 0; set = false; failed = false }

-- `h1Headers`; HTTP/2 fields are the same pairs.
unfoldable pub h1_headers : List Header → List HeaderField
h1_headers [] = []
h1_headers (h ∷ hs) = record { name = h.name; value = h.value } ∷ h1_headers hs

-- `snapshotResponseWallTime`, with what the request's hook answers, if there is one.
unfoldable pub snapshot_response_wall_time : Option (ℤ × Bool) → ℕ → List HeaderField → Snapshot
unfolding response_needs_wall_snapshot_for_status
snapshot_response_wall_time hook status hs =
    if not (response_needs_wall_snapshot_for_status (pos status) hs)
    then no_snapshot
    else elim hook [
      | none ↦ record { at = pos 0; set = false; failed = true }
      | some (at, set) ↦ record { at = at; set = set; failed = not set }
    ]

-- `capture`: a snapshot that says nothing does not replace the one before.
unfoldable pub capture : Option (ℤ × Bool) → ℕ → List HeaderField → Snapshot → Snapshot
unfolding snapshot_response_wall_time
capture hook status hs before =
    let s = snapshot_response_wall_time hook status hs in
    if not s.set && not s.failed then before else s

-- `h1Outcome` and `h2Outcome`: the response as the runtime is to see it. A status out of range stands
-- for one that was never read.
unfoldable pub as_response : Response → Snapshot → AttemptResponse
unfolding h1_headers
as_response r s =
    let missing = ltb r.status 100 || ltb 599 r.status in
    record {
      status = pos (if missing then 202 else r.status);
      headers = some (h1_headers r.headers);
      body = some (if missing then [] else r.body);
      compressed_bytes = pos r.compressed_bytes;
      decompressed_bytes = pos r.decompressed_bytes;
      truncated = r.truncated;
      headers_received_at = s.at;
      headers_received_at_set = s.set;
      header_clock_failed = s.failed;
      protocol_violation = false;
      limit_violation = false;
      incomplete = false;
      retry_forbidden = false;
      header_limit_violation = false;
      attempt_failure_code = ErrorCode.unset;
      attempt_failure_reason = FailureReason.unset;
      normalized = false;
    }

abbrev pub responds : AttemptResponse → AttemptOutcome
responds r = record { response = some r; failure = none }

-- `h1ErrorOutcome`, the response of it.
unfoldable pub without_body : Response → Snapshot → AttemptResponse
unfolding as_response
without_body r s = as_response (record r { body = []; truncated = false }) s

unfoldable pub mark_body_limit_violation : AttemptResponse → AttemptResponse
unfolding response_content_encoding
mark_body_limit_violation r = elim (response_content_encoding (or_empty r.headers)) [
  | Encoding.gzipped ↦ record r { protocol_violation = true }
  | _ ↦ record r { limit_violation = true }
]

-- `status < 200 || status >= 300`
abbrev pub not_successful : ℕ → Bool
not_successful status = ltb status 200 || leb 300 status

abbrev pub in_range : ℕ → Bool
in_range status = leb 100 status && leb status 599

-- What the last case of both mappings makes of an error that no framing rule names.
unfoldable pub map_code : ErrorCode → FailureReason → Response → Snapshot → Bool → AttemptOutcome
unfolding raw_failure as_response
map_code ErrorCode.attempt_timeout reason r s committed =
    if in_range r.status
    then responds (record (as_response r s) {
      attempt_failure_code = ErrorCode.attempt_timeout;
      attempt_failure_reason = reason;
    })
    else raw_failure ErrorCode.attempt_timeout reason committed
map_code code reason r s committed = raw_failure code reason committed

unfoldable pub map_cause : Context → Cause → Response → Snapshot → Bool → AttemptOutcome
unfolding classify_transport_cause map_code
map_cause ctx cause r s committed =
    let (code, reason) = classify_transport_cause ctx cause in map_code code reason r s committed

-- An error of the wire format, or another one.
pub data ExchangeError : Type 0 where
  framing : ReadError → ExchangeError
  caused : Cause → ExchangeError

-- `rawExchange`
pub record Exchange : Type 0 where
  pub response : Response
  pub header_snapshot : Snapshot
  pub response_bytes : ℕ
  pub request_wrote : Bool
  pub committed : Bool
  pub error : Option ExchangeError

-- The framing errors of `mapH1Exchange`. `read_failed` and `out_of_fuel` are no errors of the package's:
-- they never stand in an exchange.
unfoldable pub map_framing_error : ReadError → Response → Snapshot → AttemptResponse
unfolding as_response without_body mark_body_limit_violation
map_framing_error ReadError.body_too_large r s =
    record (mark_body_limit_violation (without_body r s)) {
      retry_forbidden = not_successful r.status;
    }
map_framing_error ReadError.expansion_ratio r s = record (without_body r s) {
  protocol_violation = true;
  retry_forbidden = not_successful r.status;
}
map_framing_error ReadError.header_limit r s = record (without_body r s) {
  limit_violation = true;
  retry_forbidden = true;
  header_limit_violation = true;
}
map_framing_error ReadError.protocol r s = record (without_body r s) {
  protocol_violation = true;
  retry_forbidden = not_successful r.status;
}
map_framing_error _ r s = record (as_response r s) { incomplete = true }

unfoldable pub map_h1_exchange : Context → Exchange → AttemptOutcome
unfolding as_response map_framing_error map_cause
map_h1_exchange ctx x = elim x.error [
  | none ↦ responds (as_response x.response x.header_snapshot)
  | some e ↦ elim e [
    | ExchangeError.framing f ↦ responds (map_framing_error f x.response x.header_snapshot)
    | ExchangeError.caused c ↦ map_cause ctx c x.response x.header_snapshot x.committed
  ]
]

-- What `h2.Session.Do` fails with.
pub data H2Error : Type 0 where
  too_large response_protocol go_away stream_reset : H2Error
  caused : Cause → H2Error

unfoldable pub map_h2_exchange :
    Context → Response → Option H2Error → Snapshot → Bool → AttemptOutcome
unfolding as_response mark_body_limit_violation map_cause raw_failure
map_h2_exchange ctx r error s committed = elim error [
  | none ↦ responds (as_response r s)
  | some e ↦ elim e [
    | H2Error.too_large ↦ responds (record (mark_body_limit_violation (as_response r s)) {
      retry_forbidden = not_successful r.status;
    })
    | H2Error.response_protocol ↦ responds (record (as_response r s) {
      protocol_violation = true;
      retry_forbidden = not_successful r.status;
    })
    | H2Error.go_away ↦ raw_failure ErrorCode.io FailureReason.connection_closed false
    | H2Error.stream_reset ↦ raw_failure ErrorCode.io FailureReason.connection_reset committed
    | H2Error.caused c ↦ map_cause ctx c r s committed
  ]
]

pub data ProxyFailure : Type 0 where
  connect auth_required credentials : ProxyFailure

-- What a dial fails with.
pub data DialError : Type 0 where
  tls_negotiation : DialError
  proxy : ProxyFailure → DialError
  caused : Cause → DialError

abbrev pub still_running : Context → Bool
still_running ctx = elim ctx.ended [ Ended.running ↦ true | _ ↦ false ]

unfoldable pub dial_failure : Context → DialError → AttemptOutcome
unfolding raw_failure classify_transport_cause
dial_failure ctx e = elim e [
  | DialError.tls_negotiation ↦ raw_failure ErrorCode.tls FailureReason.tls_negotiation false
  | DialError.proxy p ↦ elim p [
    | ProxyFailure.credentials ↦ record {
      response = none;
      failure = some (record {
        code = ErrorCode.configuration;
        failure_reason = FailureReason.unknown;
        committed = false;
        cause_category = CauseCategory.proxy_credential_provider;
      });
    }
    | ProxyFailure.auth_required ↦
        raw_failure ErrorCode.proxy FailureReason.proxy_auth_required false
    | ProxyFailure.connect ↦ raw_failure ErrorCode.proxy FailureReason.proxy_connect_failed false
  ]
  | DialError.caused c ↦
      if still_running ctx && c.is_deadline
      then raw_failure ErrorCode.connect FailureReason.connect_timeout false
      else raw_failure (classify_transport_cause ctx c).0 (classify_transport_cause ctx c).1 false
]
