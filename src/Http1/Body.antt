-- ===== src/Http1/Body.antt =====
-- internal/h1/h1.go: `readContentLength` and `readChunked`. Both give the bytes that were read, also
-- where they fail.
use repost_go.Http1.Lines.{read_line}
use repost_go.Http1.{
  protocol, body_too_large, read_failed, out_of_fuel, Result, ok, failed, ◌>>=◌, ◌>>◌, require,
}
use repost_go.Prelude.{
  ℕ, zero, suc, ◌+◌, ◌-◌, none, some, [], ◌∷◌, ◌++◌, Bytes, length, take, drop, ltb, leb, ◌==◌,
  if◌then◌else◌,
}
use repost_go.Response.Headers.{max_header_bytes, max_payload_bytes}
use repost_go.Text.Numbers.{parse_hex63}
use repost_go.Text.{cut}

-- The bytes, and what the connection has yet to deliver or the error.
pub record BodyRead : Type 0 where
  pub bytes : Bytes
  pub rest : Result Bytes

-- `io.ReadFull` and `io.CopyN`: so many bytes, or all there are and an error.
unfoldable pub read_exactly : ℕ → Bytes → BodyRead
read_exactly n r = record {
  bytes = take n r;
  rest = if ltb (length r) n then failed read_failed else ok (drop n r);
}

unfoldable pub read_content_length : ℕ → Bytes → BodyRead
unfolding read_exactly
read_content_length n r = read_exactly n r

-- The size that a chunk begins with.
unfoldable pub chunk_size : Bytes → Result (ℕ × Bytes)
unfolding read_line cut parse_hex63
chunk_size r = do
  (line, rest) ← read_line r 256
  elim (parse_hex63 (cut b';' line).0) [ none ↦ failed protocol | some n ↦ ok (n, rest) ]

-- The line behind the last chunk.
unfoldable pub trailer : Bytes → Result Bytes
unfolding read_line
trailer r = do
  (line, rest) ← read_line r max_header_bytes
  require (length line == 0) protocol
  ok rest

-- The '\r' and '\n' behind a chunk's bytes.
unfoldable pub chunk_end : Bytes → Result Bytes
chunk_end (a ∷ b ∷ r) = do require (a == 13) protocol; require (b == 10) protocol; ok r
chunk_end _ = failed read_failed

-- The bytes of a chunk behind its size, which is not 0, onto the body so far.
unfoldable pub chunk_bytes : Bytes → ℕ → Bytes → BodyRead
unfolding read_exactly chunk_end
chunk_bytes body size r =
    let remaining = max_payload_bytes + 1 - length body in
    let part = read_exactly size r in
    let over = read_exactly remaining r in
    if remaining == 0
    then record { bytes = body; rest = failed body_too_large }
    else if leb remaining size
    then record { bytes = body ++ over.bytes; rest = over.rest >>= λ _. failed body_too_large }
    else record { bytes = body ++ part.bytes; rest = part.rest >>= chunk_end }

unfoldable pub read_chunks : ℕ → Bytes → Bytes → BodyRead
unfolding chunk_size trailer chunk_bytes
read_chunks zero body r = record { bytes = body; rest = failed out_of_fuel }
read_chunks (suc f) body r = elim (chunk_size r) [
  | failed e ↦ record { bytes = body; rest = failed e }
  | ok (size, behind) ↦
      let part = chunk_bytes body size behind in
      let more : BodyRead = elim part.rest [
        | failed e ↦ part
        | ok rest ↦ read_chunks f part.bytes rest
      ] in
      if size == 0 then record { bytes = body; rest = trailer behind } else more
]

-- Every chunk takes a byte or more of what is left.
unfoldable pub read_chunked : Bytes → BodyRead
unfolding read_chunks
read_chunked r = read_chunks (length r + 1) [] r
