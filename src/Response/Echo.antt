-- ===== src/Response/Echo.antt =====
-- operation_response.go: what an accepted response says.
use repost_go.Errors.{ErrorCode, DeliveryState, Error}
use repost_go.Json.Scan.{Outcome, ok, failed, out_of_fuel, protocol, limit}
use repost_go.Prelude.{
  ◌≡◌, refl, Bool, true, false, arith, ◌&&◌, equal, equal→eq, sym, ◌∙◌, ap, if◌then◌else◌,
}
use repost_go.Response.RetryAfter.{status_in}
use repost_go.Response.Validate.{
  Sent, accepted, refused, validate_attempt_response, counted_error, success_verdict, body_verdict,
  decode_send_result, is_message_id, valid_json_content_type,
}
use repost_go.Response.{SendResult, AttemptResponse, or_empty}

-- The result was decoded from the body, has the form of a message id, and repeats the event's type,
-- customer and time.
pub record Echoes (r : AttemptResponse) (sent : Sent) (result : SendResult) : Type 0 where
  pub decoded_from_body : decode_send_result (or_empty r.body) ≡ ok result
  pub has_message_id : is_message_id result.id ≡ true
  pub same_type : result.type ≡ sent.sent_type
  pub same_customer : result.customer_id ≡ sent.sent_customer_id
  pub same_timestamp : result.timestamp ≡ sent.sent_timestamp

all_hold :
    (a b c d : Bool) (x y : SendResult) (e : Error)
    → (if a && b && c && d then accepted x else refused e) ≡ accepted y
    → (a ≡ true) × (b ≡ true) × (c ≡ true) × (d ≡ true) × (x ≡ y)
all_hold a b c d x y e h = ground arith

body_verdict-Echoes :
    (r : AttemptResponse) (base : Error) (sent : Sent) (o : Outcome SendResult)
    (result : SendResult)
    → decode_send_result (or_empty r.body) ≡ o
    → body_verdict base sent o ≡ accepted result
    → Echoes r sent result
unfolding body_verdict
body_verdict-Echoes r base sent (ok x) result q h =
    let (a, b, c, d, e) =
      all_hold (is_message_id x.id) (equal x.type sent.sent_type)
        (equal x.customer_id sent.sent_customer_id) (equal x.timestamp sent.sent_timestamp) x result
        base h in
    record {
      decoded_from_body = q ∙ ap ok e;
      has_message_id = ap (λ y. is_message_id y.id) (sym e) ∙ a;
      same_type = ap (λ y. y.type) (sym e) ∙ equal→eq x.type sent.sent_type b;
      same_customer =
          ap (λ y. y.customer_id) (sym e) ∙ equal→eq x.customer_id sent.sent_customer_id c;
      same_timestamp = ap (λ y. y.timestamp) (sym e) ∙ equal→eq x.timestamp sent.sent_timestamp d;
    }
body_verdict-Echoes r base sent (failed limit) result q h = absurd (cc)
body_verdict-Echoes r base sent (failed protocol) result q h = absurd (cc)
body_verdict-Echoes r base sent out_of_fuel result q h = absurd (cc)

success_verdict-Echoes :
    (r : AttemptResponse) (base : Error) (sent : Sent) (result : SendResult)
    → success_verdict r base sent ≡ accepted result
    → (r.limit_violation ≡ false)
      × (r.protocol_violation ≡ false)
      × (valid_json_content_type (or_empty r.headers) ≡ true)
      × Echoes r sent result
unfolding success_verdict
success_verdict-Echoes r base sent result h = ground (
  arith,
  body_verdict-Echoes r
      (record base {
        code = ErrorCode.response_protocol;
        delivery_state = DeliveryState.possibly_sent;
        retryable = true;
      })
      sent (decode_send_result (or_empty r.body)) result refl,
)

-- A response that is accepted has a status from 200 to 299, carries no mark of a broken limit or
-- protocol rule, and is marked as JSON; the result that is returned was decoded from its body, has a
-- message id of the documented form, and repeats the type, the customer and the time that were sent.
pub accepted-Echoes :
    (r : AttemptResponse) (sent : Sent) (result : SendResult)
    → validate_attempt_response r sent ≡ accepted result
    → (status_in 200 300 r.status ≡ true)
      × (r.limit_violation ≡ false)
      × (r.protocol_violation ≡ false)
      × (valid_json_content_type (or_empty r.headers) ≡ true)
      × Echoes r sent result
unfolding validate_attempt_response
accepted-Echoes r sent result h =
    ground (arith, success_verdict-Echoes r (counted_error r) sent result)
