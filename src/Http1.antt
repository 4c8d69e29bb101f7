-- ===== src/Http1.antt =====
-- internal/h1/h1.go: the types of the HTTP/1.1 wire format. A text is the bytes of a Go string; the
-- limits are those of internal/wirelimits.
pub mod Writing
pub mod Written
pub mod Lines
pub mod LineEnds
pub mod Injection
pub mod Fields
pub mod Outcomes
pub mod FieldLines
pub mod Framing
pub mod FramingCounts
pub mod Body
pub mod ChunkRoundTrip
pub mod BodyBounds
pub mod Gzip
pub mod GzipBounds
pub mod Reading
pub mod HeadBounds
pub mod ReadingBounds
use repost_go.Prelude.{ℕ, Bool, true, false, List, [], ◌∷◌, Bytes}

abbrev pub max_target_bytes : ℕ
max_target_bytes = 2_048

abbrev pub max_informational_responses : ℕ
max_informational_responses = 8

-- "\r\n"
abbrev pub crlf : Bytes
crlf = 13 ∷ 10 ∷ []

-- The errors of the reader. `read_failed` is an error of the connection's own; `out_of_fuel`
-- stands for a loop that was cut off, which the code has not.
pub data ReadError : Type 0 where
  protocol header_limit body_too_large expansion_ratio : ReadError
  incomplete_body read_failed out_of_fuel : ReadError

pub data Result {ℓ} (A : Type ℓ) : Type ℓ where
  ok : A → Result A
  failed : ReadError → Result A

infixl 5 ◌>>=◌ ◌>>◌
unfoldable pub ◌>>=◌ {ℓ κ} : {A : Type ℓ} {B : Type κ} → Result A → (A → Result B) → Result B
ok a >>= f = f a
failed e >>= f = failed e

abbrev pub ◌>>◌ {ℓ} : {B : Type ℓ} → Result (Unit {0}) → Result B → Result B
m >> k = m >>= λ _. k

unfoldable pub require : Bool → ReadError → Result (Unit {0})
require true e = ok tt
require false e = failed e

pub record Request : Type 0 where
  pub target : Bytes
  pub authority : Bytes
  pub authorization : Bytes
  pub user_agent : Bytes
  pub idempotency_key : Bytes
  pub traceparent : Bytes
  pub tracestate : Bytes
  pub body : Bytes

pub record Header : Type 0 where
  pub name : Bytes
  pub value : Bytes

pub record Response : Type 0 where
  pub status : ℕ
  pub headers : List Header
  pub body : Bytes
  pub compressed_bytes : ℕ
  pub decompressed_bytes : ℕ
  pub truncated : Bool

-- `Response{}`
abbrev pub no_response : Response
no_response = record {
  status = 0;
  headers = [];
  body = [];
  compressed_bytes = 0;
  decompressed_bytes = 0;
  truncated = false;
}
