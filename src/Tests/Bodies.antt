-- ===== src/Tests/Bodies.antt =====
-- operation_response.go and internal/strictjson/parser.go: whole responses read.
use repost_go.Errors.{ErrorCode, FailureReason}
use repost_go.Json.Scan.{ok, out_of_fuel, Scanner, max_document_bytes, max_tokens}
use repost_go.Json.Grammar.Soundness.{check-IsDocument}
use repost_go.Json.Grammar.{IsDocument}
use repost_go.Json.Total.{check-ne-out_of_fuel}
use repost_go.Json.{check}
use repost_go.Prelude.Int.{pos}
use repost_go.Prelude.{
  ℕ, ◌≡◌, ◌≢◌, refl, Bool, true, false, Option, none, some, List, [], ◌∷◌, Bytes, length, ◌≤◌,
}
use repost_go.Response.Echo.{accepted-Echoes, Echoes}
use repost_go.Response.RetryAfter.{status_in}
use repost_go.Response.Validate.{
  Sent, accepted, validate_attempt_response, valid_json_content_type, decode_send_result,
}
use repost_go.Response.{AttemptResponse, SendResult, or_empty}

abbrev body : Bytes
body =
    b'{' ∷ b'"' ∷ b'i' ∷ b'd' ∷ b'"' ∷ b':' ∷ b'"' ∷ b'm' ∷ b's' ∷ b'g' ∷ b'_' ∷ b'a' ∷ b'"' ∷ b','
    ∷ b'"' ∷ b't' ∷ b'y' ∷ b'p' ∷ b'e' ∷ b'"' ∷ b':' ∷ b'"' ∷ b't' ∷ b'"' ∷ b',' ∷ b'"' ∷ b'c'
    ∷ b'u' ∷ b's' ∷ b't' ∷ b'o' ∷ b'm' ∷ b'e' ∷ b'r' ∷ b'I' ∷ b'd' ∷ b'"' ∷ b':' ∷ b'"' ∷ b'c'
    ∷ b'"' ∷ b',' ∷ b'"' ∷ b't' ∷ b'i' ∷ b'm' ∷ b'e' ∷ b's' ∷ b't' ∷ b'a' ∷ b'm' ∷ b'p' ∷ b'"'
    ∷ b':' ∷ b'"' ∷ b'z' ∷ b'"' ∷ b'}' ∷ []

abbrev pub sent : Sent
sent = record { sent_type = b't' ∷ []; sent_customer_id = b'c' ∷ []; sent_timestamp = b'z' ∷ [] }

abbrev pub result : SendResult
result = record {
  id = b'm' ∷ b's' ∷ b'g' ∷ b'_' ∷ b'a' ∷ [];
  type = b't' ∷ [];
  customer_id = b'c' ∷ [];
  timestamp = b'z' ∷ [];
}

abbrev pub created : AttemptResponse
created = record {
  status = pos 201;
  headers = some (
      record {
        name =
            b'C' ∷ b'o' ∷ b'n' ∷ b't' ∷ b'e' ∷ b'n' ∷ b't' ∷ b'-' ∷ b'T' ∷ b'y' ∷ b'p' ∷ b'e' ∷ [];
        value =
            b'a' ∷ b'p' ∷ b'p' ∷ b'l' ∷ b'i' ∷ b'c' ∷ b'a' ∷ b't' ∷ b'i' ∷ b'o' ∷ b'n' ∷ b'/' ∷ b'j'
            ∷ b's' ∷ b'o' ∷ b'n' ∷ b';' ∷ b' ' ∷ b'c' ∷ b'h' ∷ b'a' ∷ b'r' ∷ b's' ∷ b'e' ∷ b't'
            ∷ b'=' ∷ b'U' ∷ b'T' ∷ b'F' ∷ b'-' ∷ b'8' ∷ [];
      }
      ∷ []);
  body = some body;
  compressed_bytes = pos 0;
  decompressed_bytes = pos 0;
  truncated = false;
  headers_received_at = pos 0;
  headers_received_at_set = false;
  header_clock_failed = false;
  protocol_violation = false;
  limit_violation = false;
  incomplete = false;
  retry_forbidden = false;
  header_limit_violation = false;
  attempt_failure_code = ErrorCode.unset;
  attempt_failure_reason = FailureReason.unset;
  normalized = true;
}

pub accepts : validate_attempt_response created sent ≡ accepted result
unfolding validate_attempt_response repost_go.Response.Validate.success_verdict
    valid_json_content_type repost_go.Text.Utf8.valid repost_go.Response.Validate.body_verdict
    decode_send_result check repost_go.Json.Scan.◌>>=◌ repost_go.Json.Scan.require
    repost_go.Json.parse_document repost_go.Json.value repost_go.Json.dispatch
    repost_go.Json.Scan.whitespace repost_go.Json.Scan.token repost_go.Json.close_or_enter
    repost_go.Json.Scan.consume repost_go.Json.member_name repost_go.Json.Decode.decode
    repost_go.Json.Decode.decode_value repost_go.Json.Decode.lookup_field
    repost_go.Json.Scan.skip_space repost_go.Json.Strings.check_value repost_go.Json.Strings.escape
    repost_go.Json.Strings.string repost_go.Json.Strings.string_at repost_go.Json.Strings.string_end
    repost_go.Json.Strings.string_from repost_go.Json.Strings.unquote repost_go.Json.close_or_next
    repost_go.Prelude.equal repost_go.Response.Headers.header_values
    repost_go.Response.Headers.response_exceeds_limits repost_go.Response.Validate.counted_error
    repost_go.Response.Validate.is_message_id repost_go.Text.Utf8.rune_count
    repost_go.Text.all_bytes repost_go.Text.cut repost_go.Text.equal_fold repost_go.Text.fold
    repost_go.Text.has_byte repost_go.Text.has_prefix repost_go.Text.trim_left
    repost_go.Text.trim_ows repost_go.Text.trim_right
accepts = refl

accepted-Echoes_example :
    (status_in 200 300 created.status ≡ true)
    × (created.limit_violation ≡ false)
    × (created.protocol_violation ≡ false)
    × (valid_json_content_type (or_empty created.headers) ≡ true)
    × Echoes created sent result
accepted-Echoes_example = accepted-Echoes created sent result accepts

check-ne-out_of_fuel_example : check body ≢ out_of_fuel
check-ne-out_of_fuel_example = check-ne-out_of_fuel body

abbrev scanned : Scanner
scanned = record { rest = []; tokens = 10 }

scans : check body ≡ ok scanned
unfolding repost_go.Text.Utf8.valid check repost_go.Json.Scan.◌>>=◌ repost_go.Json.Scan.require
    repost_go.Json.parse_document repost_go.Json.value repost_go.Json.dispatch
    repost_go.Json.Scan.whitespace repost_go.Json.Scan.token repost_go.Json.close_or_enter
    repost_go.Json.Scan.consume repost_go.Json.member_name repost_go.Json.Decode.decode
    repost_go.Json.Decode.decode_value repost_go.Json.Decode.lookup_field
    repost_go.Json.Scan.skip_space repost_go.Json.Strings.check_value repost_go.Json.Strings.escape
    repost_go.Json.Strings.string repost_go.Json.Strings.string_at repost_go.Json.Strings.string_end
    repost_go.Json.Strings.string_from repost_go.Json.Strings.unquote repost_go.Json.close_or_next
    repost_go.Prelude.equal repost_go.Text.Utf8.rune_count repost_go.Text.has_prefix
scans = refl

check-IsDocument_example : (n : ℕ) × IsDocument body n × (n ≤ 10_000) × (length body ≤ 1_048_576)
check-IsDocument_example = check-IsDocument body scanned scans
