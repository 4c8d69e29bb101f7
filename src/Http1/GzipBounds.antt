-- ===== src/Http1/GzipBounds.antt =====
-- internal/h1/h1.go: how far `decodeGzip` goes, for any reader that keeps to `io.Reader`.
use repost_go.Http1.Gzip.{
  Gzip, GzipRead, GzipStatus, IsReader, decode_from, decode_gzip, buffer_bytes,
}
use repost_go.Http1.Outcomes.{Real}
use repost_go.Http1.{ReadError, protocol, body_too_large, expansion_ratio}
use repost_go.Prelude.{
  ℕ, zero, suc, ◌+◌, ◌-◌, ◌*◌, ◌≤◌, ◌≡◌, refl, Bool, true, false, not, ◌&&◌, Option, none, some, [],
  ◌++◌, Bytes, arith, length, ltb, ◌==◌, if◌then◌else◌, min, length-append, if_P, Option_P,
}
use repost_go.Response.Headers.{max_payload_bytes}

-- What a decoding gives under a limit.
unfoldable pub Decoded : ℕ → Bytes × Option ReadError → Type 0
unfolding Real
Decoded limit (bytes, none) = (length bytes ≤ limit) × (length bytes ≤ max_payload_bytes)
Decoded limit (bytes, some e) =
    (length bytes ≤ limit + 1) × (length bytes ≤ max_payload_bytes + buffer_bytes) × Real e

status_P :
    (P : Bytes × Option ReadError → Type 0) (s : GzipStatus) (x y z : Bytes × Option ReadError)
    → P x
    → P y
    → (s ≡ GzipStatus.more → P z)
    → P (elim s [ GzipStatus.eof ↦ x | GzipStatus.corrupt ↦ y | GzipStatus.more ↦ z ])
status_P P GzipStatus.eof x y z h k m = h
status_P P GzipStatus.corrupt x y z h k m = k
status_P P GzipStatus.more x y z h k m = m refl

at_eof :
    (b : Bool) (bytes : Bytes) (limit : ℕ)
    → length bytes ≤ limit
    → length bytes ≤ max_payload_bytes
    → Decoded limit (bytes, if b then none else some protocol)
unfolding Decoded Real
at_eof true bytes limit h k = (h, k)
at_eof false bytes limit h k = (omega arith, omega arith, tt)

-- A read that is not over a limit leaves what is decoded under it.
under :
    (decoded bytes : Bytes) (m : ℕ)
    → length decoded ≤ m
    → (not (length bytes == 0) && ltb m (length (decoded ++ bytes))) ≡ false
    → length (decoded ++ bytes) ≤ m
under decoded bytes m h e = ground (arith, h, e, length-append decoded bytes)

over :
    (limit : ℕ) (e : ReadError) (decoded bytes : Bytes)
    → Real e
    → length decoded ≤ limit
    → length decoded ≤ max_payload_bytes
    → length bytes ≤ min buffer_bytes (limit + 1 - length decoded)
    → Decoded limit (decoded ++ bytes, some e)
unfolding Decoded
over limit e decoded bytes r h k l = (
  omega (arith, length-append decoded bytes, h, l),
  omega (arith, length-append decoded bytes, k, l),
  r,
)

module _ (g : Gzip) (law : IsReader g) where
  decode_from-Decoded :
      (f limit : ℕ) (s : g.State) (decoded : Bytes)
      → length decoded ≤ limit
      → length decoded ≤ max_payload_bytes
      → limit + 2 ≤ f + length decoded
      → Decoded limit (decode_from g f limit s decoded)
  unfolding decode_from Real
  decode_from-Decoded zero limit s decoded h k m = absurd (omega arith)
  decode_from-Decoded (suc f) limit s decoded h k m =
      let n : ℕ = min buffer_bytes (limit + 1 - length decoded) in
      let r : GzipRead g.State = g.read n s in
      let D : Bytes × Option ReadError → Type 0 = Decoded limit in
      if_P D (not (length r.bytes == 0) && ltb limit (length (decoded ++ r.bytes))) _ _
        (λ _. over limit expansion_ratio decoded r.bytes tt h k (law.within_buffer n s))
        λ a.
          if_P D (not (length r.bytes == 0) && ltb max_payload_bytes (length (decoded ++ r.bytes)))
            _ _ (λ _. over limit body_too_large decoded r.bytes tt h k (law.within_buffer n s))
            λ b.
              let l : length (decoded ++ r.bytes) ≤ limit = under decoded r.bytes limit h a in
              let m' : length (decoded ++ r.bytes) ≤ max_payload_bytes =
                under decoded r.bytes max_payload_bytes k b in
              status_P D r.status _ _ _
                (at_eof (g.left r.next == 0) (decoded ++ r.bytes) limit l m')
                (over limit protocol decoded r.bytes tt h k (law.within_buffer n s))
                λ q. decode_from-Decoded f limit r.next (decoded ++ r.bytes) l m' (
                  omega (
                    arith,
                    m,
                    length-append decoded r.bytes,
                    law.progress n s (omega (arith, h)) q,
                  ))

  -- Whatever bytes the response has, the decoding ends by itself. What it decodes is at most a byte
  -- more than 100 times the compressed bytes, and at most 32,768 bytes more than 1,048,576; where it
  -- succeeds it is at most 100 times the compressed bytes and at most 1,048,576 bytes.
  pub decode_gzip-Decoded :
      (compressed : Bytes) → Decoded (length compressed * 100) (decode_gzip g compressed)
  unfolding decode_gzip Decoded Real
  decode_gzip-Decoded compressed =
      let limit : ℕ = length compressed * 100 in
      Option_P (Decoded limit) (g.open_reader compressed) _ _ (λ _. (omega arith, omega arith, tt))
        λ s _. decode_from-Decoded (limit + 2) limit s [] (omega arith) (omega arith) (omega arith)
