-- ===== src/Response.antt =====
-- transport.go: the values that a transport hands to the runtime. A nil slice is `none`. A time is
-- a number of nanoseconds since Go's zero time, so `IsZero` is a test for 0.
pub mod Headers
pub mod HttpDate
pub mod RetryAfter
pub mod Validate
pub mod Statuses
pub mod Echo
use repost_go.Errors.{ErrorCode, FailureReason, CauseCategory}
use repost_go.Prelude.Int.{ℤ}
use repost_go.Prelude.{ℕ, Bool, List, [], Option, none, some, Bytes}

-- The result of a webhook send.
pub record SendResult : Type 0 where
  pub id : Bytes
  pub type : Bytes
  pub customer_id : Bytes
  pub timestamp : Bytes

pub record HeaderField : Type 0 where
  pub name : Bytes
  pub value : Bytes

-- The closer of a response is in the log of the operation that closes it.
pub record AttemptResponse : Type 0 where
  pub status : ℤ
  pub headers : Option (List HeaderField)
  pub body : Option Bytes
  pub compressed_bytes : ℤ
  pub decompressed_bytes : ℤ
  pub truncated : Bool
  pub headers_received_at : ℤ
  pub headers_received_at_set : Bool
  pub header_clock_failed : Bool
  pub protocol_violation : Bool
  pub limit_violation : Bool
  pub incomplete : Bool
  pub retry_forbidden : Bool
  pub header_limit_violation : Bool
  pub attempt_failure_code : ErrorCode
  pub attempt_failure_reason : FailureReason
  pub normalized : Bool

pub record AttemptFailure : Type 0 where
  pub code : ErrorCode
  pub failure_reason : FailureReason
  pub committed : Bool
  pub cause_category : CauseCategory

-- A transport of the caller's may return both, or neither.
pub record AttemptOutcome : Type 0 where
  pub response : Option AttemptResponse
  pub failure : Option AttemptFailure

-- A nil slice has no elements.
abbrev pub or_empty {ℓ} : {A : Type ℓ} → Option (List A) → List A
or_empty none = []
or_empty (some xs) = xs
