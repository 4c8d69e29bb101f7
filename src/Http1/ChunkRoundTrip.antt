-- ===== src/Http1/ChunkRoundTrip.antt =====
-- internal/h1/h1.go: `readChunked` on a body in the chunked coding of RFC 9112.
use repost_go.Http1.Body.{
  read_exactly, chunk_size, trailer, chunk_end, chunk_bytes, read_chunks, read_chunked,
}
use repost_go.Http1.LineEnds.{read_line-line}
use repost_go.Http1.Lines.{read_line}
use repost_go.Http1.{crlf, ok, ◌>>=◌, require}
use repost_go.Prelude.{
  ℕ, zero, suc, ◌+◌, ◌≤◌, ◌<◌, ◌≡◌, refl, sym, ap, ◌∙◌, false, none, some, List, [], ◌∷◌, ◌++◌,
  Bytes, arith, length, length-append, append_assoc, append_nil, take-length, drop-length, All,
  total,
}
use repost_go.Response.Headers.{max_header_bytes, max_payload_bytes}
use repost_go.Text.Hex.{hex, hex-absent, length-hex, parse_hex63-hex}
use repost_go.Text.Numbers.{parse_hex63}
use repost_go.Text.{cut, has_byte}

-- A body's chunks, each with its size in front, and the last chunk, in front of a text.
unfoldable pub encode_chunks : List Bytes → Bytes → Bytes
unfolding hex
encode_chunks [] r = b'0' ∷ (crlf ++ (crlf ++ r))
encode_chunks (c ∷ cs) r = hex (length c) ++ (crlf ++ (c ++ (crlf ++ encode_chunks cs r)))

unfoldable pub concat : List Bytes → Bytes
concat [] = []
concat (c ∷ cs) = c ++ concat cs

cut-none : (sep : ℕ) (s : Bytes) → has_byte sep s ≡ false → cut sep s ≡ (s, none)
unfolding cut has_byte
cut-none sep [] h = refl
cut-none sep (c ∷ s) h = ground (arith, cut-none sep s (ground (arith, h)))

chunk_size-line :
    (t line rest : Bytes) (n : ℕ)
    → read_line t 256 ≡ ok (line, rest)
    → cut b';' line ≡ (line, none)
    → parse_hex63 line ≡ some n
    → chunk_size t ≡ ok (n, rest)
unfolding chunk_size ◌>>=◌
chunk_size-line t line rest n a b c = ground (arith, a, b, c)

chunk_size-hex :
    (n : ℕ) (t : Bytes) → n < 16_777_216 → chunk_size (hex n ++ (crlf ++ t)) ≡ ok (n, t)
chunk_size-hex n t h =
    chunk_size-line _ (hex n) t n
      (read_line-line (hex n) t 256 (hex-absent 10 n refl) (omega (arith, length-hex n h)))
      (cut-none b';' (hex n) (hex-absent b';' n refl)) (parse_hex63-hex n (omega arith))

chunk_size-last : (t : Bytes) → chunk_size (b'0' ∷ (crlf ++ t)) ≡ ok (0, t)
unfolding has_byte cut parse_hex63
chunk_size-last t =
    chunk_size-line _ (b'0' ∷ []) t 0 (read_line-line (b'0' ∷ []) t 256 refl (omega arith)) refl
      refl

trailer-empty : (r : Bytes) → trailer (crlf ++ r) ≡ ok r
unfolding trailer ◌>>=◌ require has_byte
trailer-empty r = ground (arith, read_line-line [] r max_header_bytes refl (omega arith))

read_exactly-prefix :
    (c t : Bytes) → read_exactly (length c) (c ++ t) ≡ record { bytes = c; rest = ok t }
unfolding read_exactly
read_exactly-prefix c t = ground (arith, take-length c t, drop-length c t, length-append c t)

chunk_end-crlf : (t : Bytes) → chunk_end (crlf ++ t) ≡ ok t
unfolding chunk_end ◌>>=◌ require
chunk_end-crlf t = refl

chunk_bytes-chunk :
    (body c t : Bytes)
    → length body + length c ≤ max_payload_bytes
    → chunk_bytes body (length c) (c ++ (crlf ++ t)) ≡ record { bytes = body ++ c; rest = ok t }
unfolding chunk_bytes ◌>>=◌
chunk_bytes-chunk body c t h =
    ground (arith, h, read_exactly-prefix c (crlf ++ t), chunk_end-crlf t)

read_chunks-last :
    (f : ℕ) (body t r : Bytes)
    → chunk_size t ≡ ok (0, crlf ++ r)
    → read_chunks (suc f) body t ≡ record { bytes = body; rest = ok r }
unfolding read_chunks
read_chunks-last f body t r a = ground (arith, a, trailer-empty r)

read_chunks-step :
    (f size : ℕ) (body t behind body' rest : Bytes)
    → chunk_size t ≡ ok (size, behind)
    → 1 ≤ size
    → chunk_bytes body size behind ≡ record { bytes = body'; rest = ok rest }
    → read_chunks (suc f) body t ≡ read_chunks f body' rest
unfolding read_chunks
read_chunks-step f size body t behind body' rest a l b = ground (arith, a, l, b)

read_chunks-encode :
    (cs : List Bytes) (f : ℕ) (body r : Bytes)
    → All (λ c. 1 ≤ length c) cs
    → length body + total length cs ≤ max_payload_bytes
    → length cs < f
    → read_chunks f body (encode_chunks cs r) ≡ record { bytes = body ++ concat cs; rest = ok r }
unfolding encode_chunks concat
read_chunks-encode cs zero body r a l k = absurd (omega arith)
read_chunks-encode [] (suc f) body r a l k =
    read_chunks-last f body _ r (chunk_size-last (crlf ++ r))
    ∙ ap (λ b. record { bytes = b; rest = ok r }) (sym (append_nil body))
read_chunks-encode (c ∷ cs) (suc f) body r a l k =
    read_chunks-step f (length c) body _ _ (body ++ c) (encode_chunks cs r)
      (chunk_size-hex (length c) _ (omega arith)) a.0
      (chunk_bytes-chunk body c (encode_chunks cs r) (omega arith))
    ∙ read_chunks-encode cs f (body ++ c) r a.1 (omega (arith, length-append body c)) (omega arith)
    ∙ ap (λ b. record { bytes = b; rest = ok r }) (append_assoc body c (concat cs))

encode_chunks-long : (cs : List Bytes) (r : Bytes) → length cs ≤ length (encode_chunks cs r)
unfolding encode_chunks
encode_chunks-long [] r = omega arith
encode_chunks-long (c ∷ cs) r = omega (
  arith,
  length-append (hex (length c)) (crlf ++ (c ++ (crlf ++ encode_chunks cs r))),
  length-append c (crlf ++ encode_chunks cs r),
  encode_chunks-long cs r,
)

-- A body of at most 1,048,576 bytes, encoded in any way into chunks of one byte or more, is read
-- back whole, and what follows it on the connection is left there.
pub read_chunked-encode_chunks :
    (cs : List Bytes) (r : Bytes)
    → All (λ c. 1 ≤ length c) cs
    → total length cs ≤ max_payload_bytes
    → read_chunked (encode_chunks cs r) ≡ record { bytes = concat cs; rest = ok r }
unfolding read_chunked
read_chunked-encode_chunks cs r a l =
    read_chunks-encode cs (length (encode_chunks cs r) + 1) [] r a (omega arith)
      (omega (arith, encode_chunks-long cs r))
