-- ===== src/Response/Headers.antt =====
-- response_factory.go, operation_response.go and internal/wirelimits: the limits on response
-- headers and bodies, and the snapshot that the runtime takes of a response.
use repost_go.Prelude.Int.{ℤ, pos, ltb_ℤ}
use repost_go.Prelude.{
  ℕ, ◌+◌, ◌/◌, ◌%◌, Bool, true, false, not, ◌&&◌, ◌||◌, none, some, List, [], ◌∷◌, Bytes, length,
  equal, ltb, leb, ◌==◌, if◌then◌else◌,
}
use repost_go.Response.{HeaderField, AttemptResponse, or_empty}
use repost_go.Text.Utf8.{valid}
use repost_go.Text.{equal_fold, trim_ows, all_bytes, has_byte, within}

abbrev pub max_payload_bytes : ℕ
max_payload_bytes = 1_048_576

abbrev pub error_body_bytes : ℕ
error_body_bytes = 65_536

abbrev pub expansion_ratio : ℕ
expansion_ratio = 100

abbrev pub max_header_fields : ℕ
max_header_fields = 100

abbrev pub max_header_bytes : ℕ
max_header_bytes = 65_536

abbrev pub max_header_name_bytes : ℕ
max_header_name_bytes = 256

abbrev pub max_header_value_bytes : ℕ
max_header_value_bytes = 8_192

-- `headerValues`; the name is a lower-case ASCII constant.
unfoldable pub header_values : List HeaderField → Bytes → List Bytes
unfolding equal_fold trim_ows
header_values [] name = []
header_values (h ∷ hs) name =
    if equal_fold h.name name
    then trim_ows h.value ∷ header_values hs name
    else header_values hs name

-- The byte count of `headerCounts`; the field count is the length.
unfoldable pub header_bytes : List HeaderField → ℕ
header_bytes [] = 0
header_bytes (h ∷ hs) = length h.name + 2 + length h.value + 2 + header_bytes hs

unfoldable pub some_field_too_long : List HeaderField → Bool
some_field_too_long [] = false
some_field_too_long (h ∷ hs) =
    ltb max_header_name_bytes (length h.name)
    || ltb max_header_value_bytes (length h.value)
    || some_field_too_long hs

unfoldable pub response_headers_exceed_limit : List HeaderField → Bool
unfolding header_bytes some_field_too_long
response_headers_exceed_limit hs =
    ltb max_header_fields (length hs)
    || ltb max_header_bytes (header_bytes hs)
    || some_field_too_long hs

-- "!#$%&'*+-.^_`|~"
abbrev pub token_punctuation : Bytes
token_punctuation =
    b'!' ∷ b'#' ∷ b'$' ∷ b'%' ∷ b'&' ∷ 0x27 ∷ b'*' ∷ b'+' ∷ b'-' ∷ b'.' ∷ b'^' ∷ b'_' ∷ b'`' ∷ b'|'
    ∷ b'~' ∷ []

unfoldable pub token_byte : ℕ → Bool
unfolding has_byte
token_byte c =
    within b'a' b'z' c || within b'A' b'Z' c || within b'0' b'9' c || has_byte c token_punctuation

-- A byte of 0x80 or more is no token byte, so testing every byte is testing every rune's first.
unfoldable pub valid_response_header_name : Bytes → Bool
unfolding token_byte all_bytes
valid_response_header_name name =
    not (length name == 0) && leb (length name) max_header_name_bytes && all_bytes token_byte name

-- A byte below 0x80 of a valid text is a rune of its own.
unfoldable pub valid_response_header_value : Bytes → Bool
unfolding valid all_bytes
valid_response_header_value value =
    leb (length value) max_header_value_bytes
    && valid value
    && all_bytes (λ c. c == b'\t' || not (ltb c 0x20 || c == 0x7f)) value

unfoldable pub all_fields_valid : List HeaderField → Bool
unfolding valid_response_header_name valid_response_header_value
all_fields_valid [] = true
all_fields_valid (h ∷ hs) =
    valid_response_header_name h.name && valid_response_header_value h.value && all_fields_valid hs

-- The verdict of `validateResponseHeaders`.
unfoldable pub validate_response_headers : List HeaderField → Bool
unfolding response_headers_exceed_limit all_fields_valid
validate_response_headers hs = not (response_headers_exceed_limit hs) && all_fields_valid hs

-- "identity" and "gzip"
abbrev pub identity : Bytes
identity = b'i' ∷ b'd' ∷ b'e' ∷ b'n' ∷ b't' ∷ b'i' ∷ b't' ∷ b'y' ∷ []

abbrev pub gzip : Bytes
gzip = b'g' ∷ b'z' ∷ b'i' ∷ b'p' ∷ []

-- "content-encoding"
abbrev pub content_encoding_name : Bytes
content_encoding_name =
    b'c' ∷ b'o' ∷ b'n' ∷ b't' ∷ b'e' ∷ b'n' ∷ b't' ∷ b'-' ∷ b'e' ∷ b'n' ∷ b'c' ∷ b'o' ∷ b'd' ∷ b'i'
    ∷ b'n' ∷ b'g' ∷ []

pub data Encoding : Type 0 where
  plain gzipped unsupported : Encoding

-- `strings.ToLower(value)` compared with an ASCII constant; besides A to Z it maps only the Kelvin
-- sign (bytes 0xE2 0x84 0xAA) and the dotted capital I (bytes 0xC4 0xB0) to ASCII letters.
unfoldable pub to_lower : Bytes → Bytes
to_lower [] = []
to_lower (a ∷ []) = (if within b'A' b'Z' a then a + 32 else a) ∷ []
to_lower (a ∷ b ∷ []) =
    if a == 0xc4 && b == 0xb0
    then b'i' ∷ []
    else (if within b'A' b'Z' a then a + 32 else a) ∷ to_lower (b ∷ [])
to_lower (a ∷ b ∷ c ∷ r) =
    let kelvin = to_lower r in
    let dotted = to_lower (c ∷ r) in
    let other = to_lower (b ∷ c ∷ r) in
    if a == 0xe2 && b == 0x84 && c == 0xaa
    then b'k' ∷ kelvin
    else if a == 0xc4 && b == 0xb0
    then b'i' ∷ dotted
    else (if within b'A' b'Z' a then a + 32 else a) ∷ other

encoding_of : List Bytes → Encoding
unfolding to_lower equal
encoding_of [] = Encoding.plain
encoding_of (v ∷ []) =
    if equal (to_lower v) identity
    then Encoding.plain
    else if equal (to_lower v) gzip
    then Encoding.gzipped
    else Encoding.unsupported
encoding_of (v ∷ w ∷ vs) = Encoding.unsupported

unfoldable pub response_content_encoding : List HeaderField → Encoding
unfolding header_values encoding_of
response_content_encoding hs = encoding_of (header_values hs content_encoding_name)

-- `markResponseHeaderViolation`
unfoldable pub mark_response_header_violation : AttemptResponse → AttemptResponse
unfolding response_headers_exceed_limit
mark_response_header_violation r =
    if response_headers_exceed_limit (or_empty r.headers)
    then record r {
      limit_violation = true;
      retry_forbidden = true;
      header_limit_violation = true;
      body = some [];
    }
    else record r { protocol_violation = true; body = some [] }

-- Go's `/` and `%` truncate towards 0: what the test needs of them, where the divisor is not 0.
-- The least int64 divided by -1 is itself.
exceeds_ratio : ℤ → ℤ → Bool
exceeds_ratio (pos d) (pos c) =
    ltb expansion_ratio (d / c) || d / c == expansion_ratio && ltb 0 (d % c)
exceeds_ratio (ℤ.negsuc d) (ℤ.negsuc c) =
    ltb expansion_ratio ((d + 1) / (c + 1)) && not (c == 0 && d == 9_223_372_036_854_775_807)
exceeds_ratio (pos d) (ℤ.negsuc c) = false
exceeds_ratio (ℤ.negsuc d) (pos c) = false

unfoldable pub response_exceeds_limits : AttemptResponse → Bool
unfolding exceeds_ratio
response_exceeds_limits r =
    ltb max_payload_bytes (length (or_empty r.body))
    || ltb_ℤ (pos max_payload_bytes) r.compressed_bytes
    || ltb_ℤ (pos max_payload_bytes) r.decompressed_bytes
    || (if not (ltb_ℤ r.compressed_bytes (pos 0) || ltb_ℤ (pos 0) r.compressed_bytes)
        then ltb_ℤ (pos 0) r.decompressed_bytes
        else exceeds_ratio r.decompressed_bytes r.compressed_bytes)

abbrev pub snapshot_headers : AttemptResponse → AttemptResponse
snapshot_headers r = elim r.headers [
  | none ↦ r
  | some hs ↦ if validate_response_headers hs then r else mark_response_header_violation r
]

unfoldable pub snapshot_limits : AttemptResponse → AttemptResponse
unfolding response_exceeds_limits response_content_encoding
snapshot_limits r =
    if not r.normalized
      && not r.protocol_violation
      && not r.limit_violation
      && response_exceeds_limits r
    then elim (response_content_encoding (or_empty r.headers)) [
      | Encoding.gzipped ↦ record r { protocol_violation = true }
      | _ ↦ record r { limit_violation = true }
    ]
    else r

-- `snapshotAttemptResponse` on a response; the copies of the slices are the values themselves.
unfoldable pub snapshot_attempt_response : AttemptResponse → AttemptResponse
unfolding snapshot_limits validate_response_headers mark_response_header_violation
snapshot_attempt_response r = snapshot_limits (snapshot_headers r)
