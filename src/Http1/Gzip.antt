-- ===== src/Http1/Gzip.antt =====
-- internal/h1/h1.go: `decodeGzip`. The reader of compress/gzip is a parameter.
use repost_go.Http1.{ReadError, protocol, body_too_large, expansion_ratio, out_of_fuel}
use repost_go.Prelude.{
  ℕ, zero, suc, ◌+◌, ◌-◌, ◌*◌, ◌≤◌, ◌≡◌, min, ◌&&◌, not, Option, none, some, [], ◌++◌, Bytes,
  length, ltb, ◌==◌, if◌then◌else◌,
}
use repost_go.Response.Headers.{max_payload_bytes}

pub data GzipStatus : Type 0 where
  more eof corrupt : GzipStatus

-- What one `Read` gives: the bytes, the error, and the reader behind it.
pub record GzipRead (S : Type 0) : Type 0 where
  pub bytes : Bytes
  pub status : GzipStatus
  pub next : S

-- `gzip.NewReader` without multistream, `Read` into a buffer of so many bytes, and how many bytes
-- of the source the reader has not taken.
pub record Gzip : Type 1 where
  pub State : Type 0
  pub open_reader : Bytes → Option State
  pub read : ℕ → State → GzipRead State
  pub left : State → ℕ

-- What `io.Reader` documents: no more bytes than the buffer holds, and no empty read without an error.
pub record IsReader (g : Gzip) : Type 0 where
  pub within_buffer : (n : ℕ) (s : g.State) → length (g.read n s).bytes ≤ n
  pub progress :
      (n : ℕ) (s : g.State) → 1 ≤ n → (g.read n s).status ≡ more → 1 ≤ length (g.read n s).bytes

abbrev pub buffer_bytes : ℕ
buffer_bytes = 32_768

module _ (g : Gzip) where
  -- The loop of `decodeGzip`, with the bytes decoded so far.
  unfoldable pub decode_from : ℕ → ℕ → g.State → Bytes → Bytes × Option ReadError
  decode_from zero limit s decoded = (decoded, some out_of_fuel)
  decode_from (suc f) limit s decoded =
      let r = g.read (min buffer_bytes (limit + 1 - length decoded)) s in
      let decoded' = decoded ++ r.bytes in
      let again = decode_from f limit r.next decoded' in
      if not (length r.bytes == 0) && ltb limit (length decoded')
      then (decoded', some expansion_ratio)
      else if not (length r.bytes == 0) && ltb max_payload_bytes (length decoded')
      then (decoded', some body_too_large)
      else elim r.status [
        | GzipStatus.eof ↦ (decoded', if g.left r.next == 0 then none else some protocol)
        | GzipStatus.corrupt ↦ (decoded', some protocol)
        | GzipStatus.more ↦ again
      ]

  -- Every round but the last decodes a byte or more, and none goes on behind the limit.
  unfoldable pub decode_gzip : Bytes → Bytes × Option ReadError
  unfolding decode_from
  decode_gzip compressed = elim (g.open_reader compressed) [
    | none ↦ ([], some protocol)
    | some s ↦ decode_from (length compressed * 100 + 2) (length compressed * 100) s []
  ]
