-- ===== src/Response/RetryAfter.antt =====
-- operation_response.go: Retry-After headers, which statuses may be retried, and when the wall
-- clock is read for a response.
use repost_go.Prelude.Int.{ℤ, pos, ◌-ℤ◌, ltb_ℤ, leb_ℤ, sat64}
use repost_go.Prelude.{
  ℕ, ◌*◌, Bool, true, false, not, ◌&&◌, ◌||◌, Option, none, some, List, [], ◌∷◌, Bytes, length,
  equal, ltb, ◌==◌, if◌then◌else◌,
}
use repost_go.Response.Headers.{header_values}
use repost_go.Response.HttpDate.{parse_http_date}
use repost_go.Response.{HeaderField}
use repost_go.Text.{all_bytes, is_digit, parse_uint63}

abbrev pub status_conflict : ℤ
status_conflict = pos 409

abbrev pub status_proxy_auth_required : ℤ
status_proxy_auth_required = pos 407

abbrev pub status_too_many_requests : ℤ
status_too_many_requests = pos 429

-- 60 * time.Second, in milliseconds.
abbrev pub retry_after_cap_millis : ℕ
retry_after_cap_millis = 60_000

-- lo <= status && status < hi
abbrev pub status_in : ℕ → ℕ → ℤ → Bool
status_in lo hi status = leb_ℤ (pos lo) status && ltb_ℤ status (pos hi)

abbrev pub status_is : ℤ → ℤ → Bool
status_is a b = leb_ℤ a b && leb_ℤ b a

unfoldable pub response_status_retryable : ℤ → Bool
response_status_retryable status =
    status_in 200 300 status
    || status_is status status_conflict
    || status_is status status_too_many_requests
    || status_in 500 600 status

-- "retry-after"
abbrev retry_after_name : Bytes
retry_after_name = b'r' ∷ b'e' ∷ b't' ∷ b'r' ∷ b'y' ∷ b'-' ∷ b'a' ∷ b'f' ∷ b't' ∷ b'e' ∷ b'r' ∷ []

all_equal : Bytes → List Bytes → Bool
unfolding equal
all_equal v [] = true
all_equal v (w ∷ ws) = equal w v && all_equal v ws

one_value : List Bytes → Option Bytes
unfolding all_equal
one_value [] = none
one_value ([] ∷ vs) = none
one_value ((c ∷ cs) ∷ vs) = if all_equal (c ∷ cs) vs then some (c ∷ cs) else none

unfoldable pub retry_after_value : List HeaderField → Option Bytes
unfolding header_values one_value
retry_after_value hs = one_value (header_values hs retry_after_name)

-- The three results of `parseRetryAfterDelta`: a delay in nanoseconds, a number that is no valid
-- delay, or a value that is no number, which needs the wall clock.
pub data Delta : Type 0 where
  delay : ℕ → Delta
  invalid needs_wall : Delta

delta_of : Option ℕ → Delta
delta_of none = Delta.invalid
delta_of (some seconds) =
    if seconds == 0 || ltb 9_223_372_036 seconds
    then Delta.invalid
    else Delta.delay (seconds * 1_000_000_000)

unfoldable pub parse_retry_after_delta : Bytes → Delta
unfolding all_bytes delta_of parse_uint63
parse_retry_after_delta value =
    if not (length value == 0) && all_bytes is_digit value
    then delta_of (parse_uint63 value)
    else Delta.needs_wall

date_delay : Option ℤ → ℤ → Option ℤ
date_delay none wall_now = none
date_delay (some date) wall_now =
    if ltb_ℤ wall_now date && ltb_ℤ (pos 0) (sat64 (date -ℤ wall_now))
    then some (sat64 (date -ℤ wall_now))
    else none

-- The delay in nanoseconds until a canonical date in the future.
unfoldable pub parse_retry_after_date : Bytes → ℤ → Option ℤ
unfolding date_delay parse_http_date sat64
parse_retry_after_date value wall_now = date_delay (parse_http_date value) wall_now

needs_wall_for : Option Bytes → Bool
unfolding parse_retry_after_delta parse_http_date
needs_wall_for none = false
needs_wall_for (some value) = elim (parse_retry_after_delta value) [
  | Delta.needs_wall ↦ elim (parse_http_date value) [ none ↦ false | some t ↦ true ]
  | _ ↦ false
]

unfoldable pub response_needs_wall_snapshot : List HeaderField → Bool
unfolding needs_wall_for retry_after_value
response_needs_wall_snapshot hs = needs_wall_for (retry_after_value hs)

unfoldable pub response_needs_wall_snapshot_for_status : ℤ → List HeaderField → Bool
unfolding response_needs_wall_snapshot response_status_retryable
response_needs_wall_snapshot_for_status status hs =
    response_status_retryable status && response_needs_wall_snapshot hs
