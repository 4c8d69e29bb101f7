-- ===== src/Transport/WellFormed.antt =====
-- transport_raw.go: which outcomes of the raw transport the runtime takes as well formed.
use repost_go.Errors.{ErrorCode, FailureReason}
use repost_go.Http1.{ReadError, Response}
use repost_go.Operation.Attempt.{differs, valid_attempt_response_shape, well_formed_outcome}
use repost_go.Operation.{valid_attempt_failure}
use repost_go.Prelude.Int.{pos}
use repost_go.Prelude.{
  ℕ, ◌+◌, ◌≡◌, refl, Bool, true, false, not, ◌&&◌, ◌||◌, [], leb, ltb, if◌then◌else◌, arith, if_P,
  Option_P,
}
use repost_go.Response.Headers.{Encoding, response_content_encoding}
use repost_go.Response.RetryAfter.{response_needs_wall_snapshot_for_status, status_is}
use repost_go.Response.{AttemptResponse, AttemptOutcome, or_empty}
use repost_go.Transport.Outcomes.{
  Exchange, ExchangeError, Snapshot, as_response, without_body, responds, raw_failure, h1_headers,
  map_cause, map_code, map_framing_error, map_h1_exchange, mark_body_limit_violation, in_range,
  not_successful,
}
use repost_go.Transport.{
  context_deadline, context_cancelled, Context, Cause, classify_transport_cause, classify_io_cause,
  classify_certificate_error,
}

-- The status that the outcome of a response has.
abbrev pub shown_status : ℕ → ℕ
shown_status n = if ltb n 100 || ltb 599 n then 202 else n

-- Whether the runtime wants the time at which the headers of a response came.
unfoldable pub needs_time : Response → Bool
unfolding h1_headers
needs_time r =
    response_needs_wall_snapshot_for_status (pos (shown_status r.status)) (h1_headers r.headers)

-- A snapshot has a time exactly if it says so, and it has one or says that the clock failed exactly
-- if one is wanted.
unfoldable pub is_timed : Bool → Snapshot → Bool
is_timed needed s =
    let has = not (status_is s.at (pos 0)) in
    if needed
    then (if s.set then has && not s.failed else not has && s.failed)
    else not s.set && not s.failed && not has

-- The test of the shape on its values.
shape :
    (status c d : ℕ) (needed has set failed : Bool)
    → leb 100 status && leb status 599 ≡ true
    → (if needed
        then (if set then has && not failed else not has && failed)
        else not set && not failed && not has)
      ≡ true
    → (not (
          ltb (status + 0) 100
          || ltb 599 (status + 0)
          || false
          || false
          || ltb (c + 0) 0
          || ltb (d + 0) 0
          || false)
        && not (
            differs set has
            || failed && (set || has)
            || (set || failed) && not needed
            || needed && not set && not failed))
      ≡ true
shape status c d needed has set failed h k = ground (arith, h, k)

shown_status-in_range : (n : ℕ) → leb 100 (shown_status n) && leb (shown_status n) 599 ≡ true
shown_status-in_range n = ground arith

as_response-shape :
    (r : Response) (s : Snapshot)
    → is_timed (needs_time r) s ≡ true
    → valid_attempt_response_shape (as_response r s) ≡ true
unfolding as_response valid_attempt_response_shape is_timed needs_time
as_response-shape r s h =
    shape (shown_status r.status) r.compressed_bytes r.decompressed_bytes (needs_time r)
      (not (status_is s.at (pos 0))) s.set s.failed (shown_status-in_range r.status) h

-- A predicate of the outcomes of an exchange.
abbrev Formed : AttemptOutcome → Type 0
Formed o = well_formed_outcome o ≡ true

code_ok : ErrorCode → Bool
code_ok c = elim c [
  | ErrorCode.dns ↦ true
  | ErrorCode.connect ↦ true
  | ErrorCode.tls ↦ true
  | ErrorCode.io ↦ true
  | ErrorCode.attempt_timeout ↦ true
  | ErrorCode.cancelled ↦ true
  | _ ↦ false
]

Classified : ErrorCode × FailureReason → Type 0
Classified (code, reason) = code_ok code ≡ true

fine : (code : ErrorCode) (reason : FailureReason) → code_ok code ≡ true → Classified (code, reason)
unfolding Classified
fine code reason h = h

classify_io_cause-Classified : (c : Cause) → Classified (classify_io_cause c)
unfolding classify_io_cause code_ok
classify_io_cause-Classified c =
    let P = Classified in
    if_P P (c.record_header || c.alert) _ _ (λ _. fine _ _ refl)
      λ _.
        if_P P c.refused _ _ (λ _. fine _ _ refl)
          λ _.
            if_P P (c.reset || c.broken_pipe || c.eof) _ _ (λ _. fine _ _ refl)
              λ _.
                if_P P (c.unexpected_eof || c.closed_pipe || c.net_closed) _ _ (λ _. fine _ _ refl)
                  λ _. if_P P c.timeout _ _ (λ _. fine _ _ refl) λ _. fine _ _ refl

classify-Classified : (ctx : Context) (c : Cause) → Classified (classify_transport_cause ctx c)
unfolding classify_transport_cause code_ok
classify-Classified ctx c =
    let P = Classified in
    if_P P (ctx.deadline_reached || context_deadline ctx.ended || c.is_deadline) _ _
      (λ _. fine _ _ refl)
      λ _.
        if_P P (context_cancelled ctx.ended || c.is_cancelled) _ _ (λ _. fine _ _ refl)
          λ _.
            Option_P P c.dns _ _
              (λ _.
                Option_P P c.verification _ _
                  (λ _.
                    if_P P (classify_certificate_error c.certificate).1 _ _ (λ _. fine _ _ refl)
                      λ _. classify_io_cause-Classified c)
                  λ v _. fine _ _ refl)
              λ d _.
                if_P P d.is_timeout _ _ (λ _. fine _ _ refl)
                  λ _. if_P P d.is_not_found _ _ (λ _. fine _ _ refl) λ _. fine _ _ refl

raw_failure-Formed :
    (code : ErrorCode) (reason : FailureReason) (committed : Bool)
    → code_ok code ≡ true
    → Formed (raw_failure code reason committed)
unfolding raw_failure well_formed_outcome valid_attempt_failure code_ok
raw_failure-Formed code reason committed h = ground (arith, h)

responds-Formed :
    (v : AttemptResponse) → valid_attempt_response_shape v ≡ true → Formed (responds v)
unfolding well_formed_outcome
responds-Formed v h = h

-- What a mark leaves of the shape.
either_mark :
    (e : Encoding) (v : AttemptResponse) (b : Bool)
    → valid_attempt_response_shape v ≡ true
    → Formed (
        responds
          (record (elim e [
            | Encoding.gzipped ↦ record v { protocol_violation = true }
            | _ ↦ record v { limit_violation = true }
          ]) { retry_forbidden = b }))
unfolding valid_attempt_response_shape well_formed_outcome
either_mark Encoding.plain v b h = h
either_mark Encoding.gzipped v b h = h
either_mark Encoding.unsupported v b h = h

failed-Formed :
    (p : ErrorCode × FailureReason) (committed : Bool)
    → Classified p
    → Formed (raw_failure p.0 p.1 committed)
unfolding Classified
failed-Formed (code, reason) committed h = raw_failure-Formed code reason committed h

timed_out-Formed :
    (r : Response) (s : Snapshot) (reason : FailureReason)
    → is_timed (needs_time r) s ≡ true
    → Formed (
        responds (record (as_response r s) {
          attempt_failure_code = ErrorCode.attempt_timeout;
          attempt_failure_reason = reason;
        }))
unfolding as_response valid_attempt_response_shape well_formed_outcome
timed_out-Formed r s reason h = as_response-shape r s h

map_code-Formed :
    (code : ErrorCode) (reason : FailureReason) (r : Response) (s : Snapshot) (committed : Bool)
    → Classified (code, reason)
    → is_timed (needs_time r) s ≡ true
    → Formed (map_code code reason r s committed)
unfolding Classified map_code
map_code-Formed ErrorCode.attempt_timeout reason r s committed k h =
    if_P Formed (in_range r.status) _ _ (λ _. timed_out-Formed r s reason h)
      λ _. raw_failure-Formed ErrorCode.attempt_timeout reason committed k
map_code-Formed code reason r s committed k h = raw_failure-Formed code reason committed k

map_cause-Formed :
    (ctx : Context) (c : Cause) (r : Response) (s : Snapshot) (committed : Bool)
    → is_timed (needs_time r) s ≡ true
    → Formed (map_cause ctx c r s committed)
unfolding map_cause
map_cause-Formed ctx c r s committed h =
    map_code-Formed _ _ r s committed (classify-Classified ctx c) h

without_body-shape :
    (r : Response) (s : Snapshot)
    → is_timed (needs_time r) s ≡ true
    → valid_attempt_response_shape (without_body r s) ≡ true
unfolding without_body needs_time
without_body-shape r s h = as_response-shape (record r { body = []; truncated = false }) s h

map_framing_error-Formed :
    (e : ReadError) (r : Response) (s : Snapshot)
    → is_timed (needs_time r) s ≡ true
    → Formed (responds (map_framing_error e r s))
unfolding map_framing_error well_formed_outcome valid_attempt_response_shape
    mark_body_limit_violation
map_framing_error-Formed ReadError.body_too_large r s h =
    either_mark (response_content_encoding (or_empty (without_body r s).headers)) (without_body r s)
      (not_successful r.status) (without_body-shape r s h)
map_framing_error-Formed ReadError.expansion_ratio r s h = without_body-shape r s h
map_framing_error-Formed ReadError.header_limit r s h = without_body-shape r s h
map_framing_error-Formed ReadError.protocol r s h = without_body-shape r s h
map_framing_error-Formed _ r s h = as_response-shape r s h

pub error_P :
    (P : AttemptOutcome → Type 0) (e : ExchangeError) (f : ReadError → AttemptOutcome)
    (g : Cause → AttemptOutcome)
    → ((x : ReadError) → P (f x))
    → ((c : Cause) → P (g c))
    → P (elim e [ ExchangeError.framing x ↦ f x | ExchangeError.caused c ↦ g c ])
error_P P (ExchangeError.framing x) f g h k = h x
error_P P (ExchangeError.caused c) f g h k = k c

-- Whether the snapshot of an exchange is what the runtime wants for its response.
unfoldable pub is_timed_exchange : Exchange → Bool
unfolding is_timed needs_time
is_timed_exchange x = is_timed (needs_time x.response) x.header_snapshot

-- Where the snapshot of the header time is what the runtime wants for the response, the outcome that
-- an exchange over HTTP/1.1 is mapped to is well formed, whatever the exchange ended with: it is one
-- response or one failure, and that one valid.
pub map_h1_exchange-Formed :
    (ctx : Context) (x : Exchange)
    → is_timed_exchange x ≡ true
    → well_formed_outcome (map_h1_exchange ctx x) ≡ true
unfolding map_h1_exchange is_timed_exchange well_formed_outcome
map_h1_exchange-Formed ctx x h =
    Option_P Formed x.error _ _ (λ _. as_response-shape x.response x.header_snapshot h)
      λ e _.
        error_P Formed e _ _ (λ f. map_framing_error-Formed f x.response x.header_snapshot h)
          λ c. map_cause-Formed ctx c x.response x.header_snapshot x.committed h
