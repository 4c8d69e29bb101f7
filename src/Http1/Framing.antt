-- ===== src/Http1/Framing.antt =====
-- internal/h1/h1.go: what the header fields say of the body's framing and encoding.
use repost_go.Http1.{protocol, Result, ok, failed, ◌>>=◌, ◌>>◌, require, Header}
use repost_go.Prelude.{
  ℕ, ◌+◌, Bool, true, false, not, ◌&&◌, Option, none, some, List, [], ◌∷◌, Bytes, length, equal,
  ltb, ◌==◌, if◌then◌else◌,
}
use repost_go.Response.Headers.{max_payload_bytes, to_lower, identity, gzip}
use repost_go.Text.{equal_fold, codes, all_bytes, is_digit, parse_uint63}

-- The loop of `singleContentLength`, with the value found so far.
unfoldable pub content_length_from : Option Bytes → List Header → Result (Option Bytes)
unfolding equal_fold
content_length_from found [] = ok found
content_length_from none (h ∷ hs) =
    let next = content_length_from none hs in
    let last = content_length_from (some h.value) hs in
    if not (equal_fold h.name (codes "content-length"))
    then next
    else if length h.value == 0
    then failed protocol
    else last
content_length_from (some v) (h ∷ hs) =
    let next = content_length_from (some v) hs in
    if equal_fold h.name (codes "content-length") then failed protocol else next

-- `none` where there is no such field; a length over the limit is the limit and one.
unfoldable pub single_content_length : List Header → Result (Option ℕ)
unfolding content_length_from all_bytes parse_uint63
single_content_length hs = do
  found ← content_length_from none hs
  elim found [
    | none ↦ ok none
    | some value ↦ do
      require (all_bytes is_digit value) protocol
      elim (parse_uint63 value) [
        | none ↦ failed protocol
        | some n ↦ ok (some (if ltb max_payload_bytes n then max_payload_bytes + 1 else n))
      ]
  ]

-- The loop of `transferChunked`.
unfoldable pub chunked_from : Bool → List Header → Result Bool
unfolding equal_fold
chunked_from found [] = ok found
chunked_from found (h ∷ hs) =
    let next = chunked_from found hs in
    let last = chunked_from true hs in
    if not (equal_fold h.name (codes "transfer-encoding"))
    then next
    else if found
    then failed protocol
    else if equal_fold h.value (codes "chunked")
    then last
    else failed protocol

unfoldable pub transfer_chunked : List Header → Result Bool
unfolding chunked_from
transfer_chunked hs = chunked_from false hs

-- The loop of `contentEncoding`.
unfoldable pub encoding_from : Option Bytes → List Header → Result (Option Bytes)
unfolding equal_fold
encoding_from found [] = ok found
encoding_from none (h ∷ hs) =
    let next = encoding_from none hs in
    let last = encoding_from (some (to_lower h.value)) hs in
    if equal_fold h.name (codes "content-encoding") then last else next
encoding_from (some v) (h ∷ hs) =
    let next = encoding_from (some v) hs in
    if equal_fold h.name (codes "content-encoding") then failed protocol else next

-- Whether the encoding is gzip; else it is the identity.
unfoldable pub content_encoding : List Header → Result Bool
unfolding encoding_from to_lower equal
content_encoding hs = do
  found ← encoding_from none hs
  elim found [
    | none ↦ ok false
    | some e ↦
        if equal e identity then ok false else if equal e gzip then ok true else failed protocol
  ]

-- The four values that the headers of one response set.
pub record Framing : Type 0 where
  pub content_length : Option ℕ
  pub chunked : Bool
  pub gzipped : Bool

abbrev pub has_length : Framing → Bool
has_length f = elim f.content_length [ none ↦ false | some n ↦ true ]

unfoldable pub framing : List Header → Result Framing
unfolding single_content_length transfer_chunked content_encoding
framing hs = do
  content_length ← single_content_length hs
  chunked ← transfer_chunked hs
  require (not (elim content_length [ none ↦ false | some n ↦ true ] && chunked)) protocol
  gzipped ← content_encoding hs
  ok (record { content_length = content_length; chunked = chunked; gzipped = gzipped })
