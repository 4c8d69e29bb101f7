-- ===== src/Response/Statuses.antt =====
-- operation_response.go: what a refusal says of the delivery.
use repost_go.Errors.{ErrorCode, DeliveryState, Error}
use repost_go.Json.Scan.{Outcome, ok, failed, out_of_fuel, protocol, limit}
use repost_go.Operation.{response_may_have_been_accepted}
use repost_go.Prelude.Int.{ℤ}
use repost_go.Prelude.{◌≡◌, refl, true, false, arith, ◌⊎◌, inl}
use repost_go.Response.RetryAfter.{status_in}
use repost_go.Response.Validate.{
  Sent, Verdict, accepted, refused, validate_attempt_response, counted_error, status_error,
  success_verdict, body_verdict, decode_send_result,
}
use repost_go.Response.{SendResult, AttemptResponse, or_empty}

-- A refusal leaves the delivery open, or the status shows that the request was not accepted.
abbrev pub Judged : ℤ → Error → Type 0
Judged status e =
    (e.delivery_state ≡ DeliveryState.possibly_sent)
    ⊎ ((response_may_have_been_accepted status ≡ false)
        × ((e.delivery_state ≡ DeliveryState.rejected)
            ⊎ ((e.delivery_state ≡ DeliveryState.not_sent) × (e.code ≡ ErrorCode.proxy))))

abbrev JudgedVerdict : ℤ → Verdict → Type 0
JudgedVerdict status (accepted r) = Unit
JudgedVerdict status (refused e) = Judged status e

status_error-Judged :
    (r : AttemptResponse) (base : Error)
    → status_in 200 300 r.status ≡ false
    → Judged r.status (status_error r base)
unfolding status_error response_may_have_been_accepted
status_error-Judged r base h = ground arith

-- Of the body's verdict: a refusal keeps the delivery state of its base.
abbrev KeepsState : DeliveryState → Verdict → Type 0
KeepsState state (accepted r) = Unit
KeepsState state (refused e) = e.delivery_state ≡ state

body_verdict-KeepsState :
    (base : Error) (sent : Sent) (o : Outcome SendResult)
    → KeepsState base.delivery_state (body_verdict base sent o)
unfolding body_verdict
body_verdict-KeepsState base sent (ok r) = ground arith
body_verdict-KeepsState base sent (failed limit) = refl
body_verdict-KeepsState base sent (failed protocol) = refl
body_verdict-KeepsState base sent out_of_fuel = refl

KeepsState-Judged :
    (status : ℤ) (v : Verdict) → KeepsState DeliveryState.possibly_sent v → JudgedVerdict status v
KeepsState-Judged status (accepted r) h = tt
KeepsState-Judged status (refused e) h = inl h

success_verdict-KeepsState :
    (r : AttemptResponse) (base : Error) (sent : Sent)
    → KeepsState DeliveryState.possibly_sent (success_verdict r base sent)
unfolding success_verdict
success_verdict-KeepsState r base sent = ground (
  arith,
  body_verdict-KeepsState
      (record base {
        code = ErrorCode.response_protocol;
        delivery_state = DeliveryState.possibly_sent;
        retryable = true;
      })
      sent (decode_send_result (or_empty r.body)),
)

validate-JudgedVerdict :
    (r : AttemptResponse) (sent : Sent) → JudgedVerdict r.status (validate_attempt_response r sent)
unfolding validate_attempt_response
validate-JudgedVerdict r sent = ground (
  arith,
  status_error-Judged r (counted_error r),
  KeepsState-Judged r.status _ (success_verdict-KeepsState r (counted_error r) sent),
)

-- Whatever response is refused: either the error says POSSIBLY_SENT, or the status is outside the
-- classes that may mean an acceptance (2xx, 409, 5xx and above) and the error says REJECTED, or
-- NOT_SENT for a proxy's demand for credentials.
pub validate_judges_delivery :
    (r : AttemptResponse) (sent : Sent) (e : Error)
    → validate_attempt_response r sent ≡ refused e
    → Judged r.status e
validate_judges_delivery r sent e h = rw h at (validate-JudgedVerdict r sent)
