-- ===== src/Response/Validate.antt =====
-- operation_response.go: the verdict on a response, `validateAttemptResponse`.
use repost_go.Errors.{ErrorCode, DeliveryState, FailureReason, Error, no_error_fields}
use repost_go.Json.Decode.{Value, Fields, str, obj, decode, lookup_field}
use repost_go.Json.Scan.{Outcome, ok, failed, out_of_fuel, protocol, limit}
use repost_go.Json.{check}
use repost_go.Prelude.Int.{pos, leb_ℤ}
use repost_go.Prelude.{
  ℕ, Bool, true, false, not, ◌&&◌, ◌||◌, Option, none, some, List, [], ◌∷◌, Bytes, length, equal,
  leb, ◌==◌, if◌then◌else◌, drop,
}
use repost_go.Response.Headers.{header_values, header_bytes, response_exceeds_limits}
use repost_go.Response.RetryAfter.{
  response_status_retryable, status_in, status_is, status_conflict, status_proxy_auth_required,
  status_too_many_requests,
}
use repost_go.Response.{SendResult, HeaderField, AttemptResponse, or_empty}
use repost_go.Text.Utf8.{valid}
use repost_go.Text.{equal_fold, trim_ows, all_bytes, has_byte, cut, within, is_digit, has_prefix}

-- `ErrorCode` is a string in the source; this is `code != ""`.
abbrev is_set : ErrorCode → Bool
is_set ErrorCode.unset = false
is_set _ = true

-- "content-type", "application/json", "charset" and "utf-8"
abbrev content_type_name : Bytes
content_type_name =
    b'c' ∷ b'o' ∷ b'n' ∷ b't' ∷ b'e' ∷ b'n' ∷ b't' ∷ b'-' ∷ b't' ∷ b'y' ∷ b'p' ∷ b'e' ∷ []

abbrev application_json : Bytes
application_json =
    b'a' ∷ b'p' ∷ b'p' ∷ b'l' ∷ b'i' ∷ b'c' ∷ b'a' ∷ b't' ∷ b'i' ∷ b'o' ∷ b'n' ∷ b'/' ∷ b'j' ∷ b's'
    ∷ b'o' ∷ b'n' ∷ []

abbrev charset_name : Bytes
charset_name = b'c' ∷ b'h' ∷ b'a' ∷ b'r' ∷ b's' ∷ b'e' ∷ b't' ∷ []

abbrev utf_8 : Bytes
utf_8 = b'u' ∷ b't' ∷ b'f' ∷ b'-' ∷ b'8' ∷ []

-- All but the last byte.
drop_last : Bytes → Bytes
drop_last [] = []
drop_last (c ∷ []) = []
drop_last (c ∷ d ∷ r) = c ∷ drop_last (d ∷ r)

last_is : ℕ → Bytes → Bool
last_is b [] = false
last_is b (c ∷ []) = c == b
last_is b (c ∷ d ∷ r) = last_is b (d ∷ r)

-- A pair of quotation marks around the value goes.
unquoted : Bytes → Bytes
unfolding drop_last last_is
unquoted [] = []
unquoted (c ∷ []) = c ∷ []
unquoted (c ∷ d ∷ r) = if c == b'"' && last_is b'"' (d ∷ r) then drop_last (d ∷ r) else c ∷ d ∷ r

charset_ok : Bytes × Option Bytes → Bool
unfolding equal_fold trim_ows unquoted
charset_ok (name, none) = false
charset_ok (name, some charset) =
    equal_fold (trim_ows name) charset_name && equal_fold (unquoted (trim_ows charset)) utf_8

parameter_ok : Option Bytes → Bool
unfolding has_byte cut charset_ok
parameter_ok none = true
parameter_ok (some parameter) = not (has_byte b';' parameter) && charset_ok (cut b'=' parameter)

content_type_ok : Bytes → Bool
unfolding all_bytes cut trim_ows equal_fold parameter_ok
content_type_ok value =
    all_bytes (λ c. c == b'\t' || within 0x20 0x7e c) value
    && equal_fold (trim_ows (cut b';' (trim_ows value)).0) application_json
    && parameter_ok (cut b';' (trim_ows value)).1

only : List Bytes → Bool
unfolding content_type_ok
only (v ∷ []) = content_type_ok v
only _ = false

unfoldable pub valid_json_content_type : List HeaderField → Bool
unfolding header_values only
valid_json_content_type hs = only (header_values hs content_type_name)

-- A string member of the decoded object.
string_field : Bytes → Fields → Option Bytes
unfolding lookup_field
string_field name fs = elim (lookup_field name fs) [ some (str v) ↦ some v | _ ↦ none ]

-- "id", "type", "customerId" and "timestamp"
abbrev result_of : Fields → Option SendResult
result_of fs = elim (string_field (b'i' ∷ b'd' ∷ []) fs) [
  | none ↦ none
  | some id ↦ elim (string_field (b't' ∷ b'y' ∷ b'p' ∷ b'e' ∷ []) fs) [
    | none ↦ none
    | some type ↦
        elim (string_field
          (b'c' ∷ b'u' ∷ b's' ∷ b't' ∷ b'o' ∷ b'm' ∷ b'e' ∷ b'r' ∷ b'I' ∷ b'd' ∷ []) fs) [
            | none ↦ none
            | some customer ↦
                elim (string_field
                  (b't' ∷ b'i' ∷ b'm' ∷ b'e' ∷ b's' ∷ b't' ∷ b'a' ∷ b'm' ∷ b'p' ∷ []) fs) [
                    | none ↦ none
                    | some time ↦
                        some (record {
                          id = id;
                          type = type;
                          customer_id = customer;
                          timestamp = time;
                        })
                  ]
          ]
  ]
]

decoded : Option Value → Outcome SendResult
unfolding string_field
decoded (some (obj fs)) = elim (result_of fs) [ none ↦ failed protocol | some r ↦ ok r ]
decoded _ = failed protocol

-- `decodeSendResult`, the strict parse included.
unfoldable pub decode_send_result : Bytes → Outcome SendResult
unfolding decoded
decode_send_result body = elim (check body) [
  | ok s ↦ decoded (decode body)
  | failed e ↦ failed e
  | out_of_fuel ↦ out_of_fuel
]

-- ^msg_[A-Za-z0-9_-]{1,124}$
unfoldable pub is_message_id : Bytes → Bool
unfolding has_prefix all_bytes
is_message_id s =
    has_prefix s (b'm' ∷ b's' ∷ b'g' ∷ b'_' ∷ [])
    && leb 5 (length s)
    && leb (length s) 128
    && all_bytes
        (λ c. within b'A' b'Z' c || within b'a' b'z' c || is_digit c || c == b'_' || c == b'-')
        (drop 4 s)

-- What the sender expects to read back.
pub record Sent : Type 0 where
  pub sent_type : Bytes
  pub sent_customer_id : Bytes
  pub sent_timestamp : Bytes

pub data Verdict : Type 0 where
  accepted : SendResult → Verdict
  refused : Error → Verdict

-- The error's fields that every verdict starts from.
abbrev base_error : AttemptResponse → Error
base_error r = record no_error_fields {
  http_status = r.status;
  compressed_bytes = r.compressed_bytes;
  decompressed_bytes = r.decompressed_bytes;
  truncated = r.truncated;
}

-- `base` once the header counts are in.
unfoldable pub counted_error : AttemptResponse → Error
unfolding header_bytes
counted_error r =
    if r.header_limit_violation
    then record (base_error r) {
      response_header_fields = length (or_empty r.headers);
      response_header_bytes = header_bytes (or_empty r.headers);
    }
    else base_error r

-- The switch on a status outside 200 to 299.
unfoldable pub status_error : AttemptResponse → Error → Error
unfolding response_status_retryable
status_error r base =
    let sent = record base {
      delivery_state = DeliveryState.possibly_sent;
      retryable = response_status_retryable r.status && not r.retry_forbidden;
    } in
    if status_in 300 400 r.status
    then record sent { code = ErrorCode.http_rejected; delivery_state = DeliveryState.rejected }
    else if status_is r.status status_proxy_auth_required
    then record sent {
      code = ErrorCode.proxy;
      delivery_state = DeliveryState.not_sent;
      failure_reason = FailureReason.proxy_auth_required;
    }
    else if status_is r.status status_too_many_requests
    then record sent { code = ErrorCode.rate_limited; delivery_state = DeliveryState.rejected }
    else if status_is r.status status_conflict
    then record sent { code = ErrorCode.http_rejected }
    else if leb_ℤ (pos 500) r.status
    then record sent { code = ErrorCode.server_failure }
    else record sent { code = ErrorCode.http_rejected; delivery_state = DeliveryState.rejected }

-- A complete body against what was sent.
unfoldable pub body_verdict : Error → Sent → Outcome SendResult → Verdict
unfolding is_message_id equal
body_verdict base sent (ok r) =
    if is_message_id r.id
      && equal r.type sent.sent_type
      && equal r.customer_id sent.sent_customer_id
      && equal r.timestamp sent.sent_timestamp
    then accepted r
    else refused base
body_verdict base sent (failed limit) =
    refused (record base { code = ErrorCode.response_too_large; retryable = false })
body_verdict base sent (failed protocol) = refused base
body_verdict base sent out_of_fuel = refused base

-- The checks of a response with a status from 200 to 299.
unfoldable pub success_verdict : AttemptResponse → Error → Sent → Verdict
success_verdict r base sent =
    let protocol_error = record base {
      code = ErrorCode.response_protocol;
      delivery_state = DeliveryState.possibly_sent;
      retryable = true;
    } in
    let too_large = record protocol_error {
      code = ErrorCode.response_too_large;
      retryable = false;
    } in
    if r.limit_violation
      || not r.normalized && not r.protocol_violation && response_exceeds_limits r
    then refused too_large
    else if r.protocol_violation
    then refused (record protocol_error { retryable = false })
    else if r.truncated && not r.incomplete
    then refused too_large
    else if not (valid_json_content_type (or_empty r.headers))
        || length (or_empty r.body) == 0
        || not (valid (or_empty r.body))
    then refused protocol_error
    else body_verdict protocol_error sent (decode_send_result (or_empty r.body))

unfoldable pub validate_attempt_response : AttemptResponse → Sent → Verdict
validate_attempt_response r sent =
    if is_set r.attempt_failure_code
    then refused (record (base_error r) {
      code = r.attempt_failure_code;
      delivery_state = DeliveryState.possibly_sent;
      retryable = true;
      failure_reason = r.attempt_failure_reason;
    })
    else if not (status_in 200 300 r.status)
    then refused (status_error r (counted_error r))
    else success_verdict r (counted_error r) sent
