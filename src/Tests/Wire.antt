-- ===== src/Tests/Wire.antt =====
-- internal/h1/h1.go: runs of the wire format, and concrete inputs of its theorems.
use repost_go.Http1.Body.{read_chunked}
use repost_go.Http1.BodyBounds.{read_chunked-ends}
use repost_go.Http1.ChunkRoundTrip.{encode_chunks, read_chunked-encode_chunks}
use repost_go.Http1.FieldLines.{print_field, parse_header-print_field}
use repost_go.Http1.Framing.{Framing, framing}
use repost_go.Http1.FramingCounts.{fields_named, framing-IsFramed}
use repost_go.Http1.Gzip.{Gzip, GzipStatus, IsReader, decode_gzip}
use repost_go.Http1.GzipBounds.{Decoded, decode_gzip-Decoded}
use repost_go.Http1.Injection.{receive_lines, receive-request_head}
use repost_go.Http1.Lines.{parse_header}
use repost_go.Http1.Outcomes.{Then}
use repost_go.Http1.Reading.{read_final_response}
use repost_go.Http1.Writing.{write_request, request_head, request_line, header_lines, valid_request}
use repost_go.Http1.Written.{write_request-IsPrefix}
use repost_go.Http1.{Request, Header, ok, protocol, incomplete_body, ◌>>=◌, require}
use repost_go.Prelude.Int.{ℤ, pos}
use repost_go.Prelude.{
  ℕ, ◌+◌, ◌*◌, ◌≤◌, ◌≡◌, refl, Bool, false, some, List, [], ◌∷◌, ◌++◌, Bytes, take, drop, length,
  ltb, leb, if◌then◌else◌, arith, length-take,
}
use repost_go.Response.Headers.{max_payload_bytes}
use repost_go.Text.{codes}

-- A reader of texts that are not compressed at all.
abbrev pub stored : Gzip
stored = record {
  State = Bytes;
  open_reader = some;
  read = λ n s. record {
    bytes = take n s;
    status = if leb (length s) n then GzipStatus.eof else GzipStatus.more;
    next = drop n s;
  };
  left = λ s. 0;
}

more_left :
    (n : ℕ) (s : Bytes)
    → 1 ≤ n
    → (if leb (length s) n then GzipStatus.eof else GzipStatus.more) ≡ GzipStatus.more
    → 1 ≤ length (take n s)
more_left n s h e = ground (arith, h, e, length-take n s)

pub stored-IsReader : IsReader stored
stored-IsReader = record {
  within_buffer = λ n s. omega (arith, length-take n s);
  progress = more_left;
}

abbrev pub request : Request
request = record {
  target = codes "/v1/events";
  authority = codes "api.repost.sh";
  authorization = codes "Bearer k";
  user_agent = codes "repost-go/1";
  idempotency_key = codes "key-1";
  traceparent = [];
  tracestate = [];
  body = codes "{}";
}

-- A writer that takes at most so many bytes at once.
abbrev pub slow_writer : ℕ → Bytes → ℤ × Bool × ℕ
slow_writer n s = (pos (if ltb (length s) n then length s else n), false, n)

abbrev pub accepted_text : Bytes
accepted_text =
    codes "HTTP/1.1 100 Continue\r\n\r\nHTTP/1.1 202 Accepted\r\nContent-Length: 2\r\n\r\n{}HTTP"

abbrev chunked_text : Bytes
chunked_text = codes "HTTP/1.1 200 OK\r\nTransfer-Encoding: chunked\r\n\r\n2;a=b\r\n{}\r\n0\r\n\r\n"

abbrev smuggling_text : Bytes
smuggling_text =
    codes "HTTP/1.1 200 OK\r\nContent-Length: 2\r\nTransfer-Encoding: chunked\r\n\r\n0\r\n\r\n"

final_accepted : (read_final_response stored accepted_text).rest ≡ codes "HTTP"
unfolding read_final_response ◌>>=◌ require
final_accepted = refl

chunked_body : (read_final_response stored chunked_text).response.body ≡ codes "{}"
unfolding read_final_response ◌>>=◌ require
chunked_body = refl

both_framings : (read_final_response stored smuggling_text).error ≡ some protocol
unfolding read_final_response ◌>>=◌ require
both_framings = refl

cut_short :
    (read_final_response stored (codes "HTTP/1.1 200 OK\r\nContent-Length: 3\r\n\r\n{}")).error
    ≡ some incomplete_body
unfolding read_final_response ◌>>=◌ require
cut_short = refl

receive-request_head_example :
    receive_lines 11 (request_head request ++ codes "{}")
    ≡ ok (request_line request ∷ header_lines request, codes "{}")
unfolding valid_request
receive-request_head_example = receive-request_head request refl

write_request-IsPrefix_example :
    ((rest : Bytes) × ((write_request slow_writer 7 request).sent ++ rest
        ≡ (if valid_request request then request_head request ++ codes "{}" else [])))
    × ((write_request slow_writer 7 request).marked
        ≡ ltb (length (request_head request)) (length (write_request slow_writer 7 request).sent))
write_request-IsPrefix_example = write_request-IsPrefix slow_writer 7 request

abbrev retry_header : Header
retry_header = record { name = codes "Retry-After"; value = codes "7 s" }

parse_header-print_field_example : parse_header (print_field retry_header) ≡ ok retry_header
unfolding parse_header ◌>>=◌ require
parse_header-print_field_example =
    parse_header-print_field (codes "Retry-After:\t 7 s ") retry_header refl

read_chunked-encode_chunks_example :
    read_chunked (encode_chunks (codes "{" ∷ codes "}" ∷ []) (codes "HTTP"))
    ≡ record { bytes = codes "{}"; rest = ok (codes "HTTP") }
unfolding repost_go.Http1.ChunkRoundTrip.concat
read_chunked-encode_chunks_example =
    read_chunked-encode_chunks (codes "{" ∷ codes "}" ∷ []) (codes "HTTP")
      (omega arith, (omega arith, tt)) (omega arith)

read_chunked-ends_example :
    (length (read_chunked chunked_text).bytes ≤ max_payload_bytes + 1)
    × Then
        (λ rest.
          (length (read_chunked chunked_text).bytes ≤ max_payload_bytes)
          × (length rest ≤ length chunked_text))
        (read_chunked chunked_text).rest
read_chunked-ends_example = read_chunked-ends chunked_text

decode_gzip-Decoded_example : Decoded (length (codes "{}") * 100) (decode_gzip stored (codes "{}"))
decode_gzip-Decoded_example = decode_gzip-Decoded stored stored-IsReader (codes "{}")

abbrev length_headers : List Header
length_headers = record { name = codes "content-Length"; value = codes "2" } ∷ retry_header ∷ []

abbrev length_framing : Framing
length_framing = record { content_length = some 2; chunked = false; gzipped = false }

framing-IsFramed_example :
    (fields_named "content-length" length_headers ≡ 1)
    × (fields_named "transfer-encoding" length_headers ≡ 0)
    × (fields_named "content-encoding" length_headers ≤ 1)
    × (false ≡ false)
unfolding framing fields_named ◌>>=◌ require
framing-IsFramed_example = framing-IsFramed length_headers length_framing refl
