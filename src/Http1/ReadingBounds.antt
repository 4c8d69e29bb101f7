-- ===== src/Http1/ReadingBounds.antt =====
-- internal/h1/h1.go: the responses that `readFinalResponse` returns without an error.
use repost_go.Http1.Body.{BodyRead, read_content_length, read_chunked}
use repost_go.Http1.BodyBounds.{
  IsWithin, Ended, read_chunked-IsWithin, read_content_length-IsWithin,
}
use repost_go.Http1.Fields.{read_head}
use repost_go.Http1.Framing.{Framing, framing}
use repost_go.Http1.FramingCounts.{IsFramed, framing-Then}
use repost_go.Http1.Gzip.{Gzip, IsReader, decode_gzip}
use repost_go.Http1.GzipBounds.{Decoded, decode_gzip-Decoded}
use repost_go.Http1.HeadBounds.{IsHead, IsBare, read_head-IsBare}
use repost_go.Http1.Outcomes.{Real, Then, Then-of, Then-Real, Result_P}
use repost_go.Http1.Reading.{
  Reading, stop, finish, fail, with_body, read_body, bad_informational, announce, read_responses,
  read_final_response, unsuccessful,
}
use repost_go.Http1.{
  ReadError, out_of_fuel, protocol, body_too_large, ok, failed, Header, Response,
  max_informational_responses,
}
use repost_go.Prelude.{
  ℕ, zero, suc, ◌*◌, ◌≤◌, ◌≡◌, sym, ap, ◌∙◌, ◌≢◌, Bool, true, false, not, ◌&&◌, ◌||◌, Option, none,
  some, List, [], Bytes, arith, length, ltb, leb, ◌==◌, if◌then◌else◌, if_P,
}
use repost_go.Response.Headers.{max_payload_bytes, error_body_bytes}

-- A response that is returned without an error: its head, the sizes of its body before and behind
-- the decoding, and what of the body is kept.
unfoldable pub IsAccepted : Response → Type 0
unfolding IsHead
IsAccepted r =
    IsHead r
    × (200 ≤ r.status)
    × (r.compressed_bytes ≤ max_payload_bytes)
    × (r.decompressed_bytes ≤ max_payload_bytes)
    × (r.decompressed_bytes ≤ 100 * r.compressed_bytes)
    × (length r.body ≡ (if unsuccessful r.status then 0 else r.decompressed_bytes))
    × (r.truncated ≡ (unsuccessful r.status && ltb error_body_bytes r.decompressed_bytes))

-- The outcome of a reading: no error of it stands for a loop that was cut off.
Sound : Option ReadError → Response → Type 0
Sound none r = IsAccepted r
Sound (some e) r = Real e

IsSound : Reading → Type 0
IsSound d = Sound d.error d.response

stop-IsSound : (r : Response) (e : ReadError) → Real e → IsSound (stop r e)
unfolding IsSound Sound
stop-IsSound r e h = h

without_error : (o : Option ReadError) (r : Response) → o ≡ none → Sound o r → IsAccepted r
unfolding Sound
without_error none r e h = h
without_error (some x) r e h = absurd (cc)

with_error : (o : Option ReadError) (r : Response) → Sound o r → o ≢ some out_of_fuel
unfolding Sound Real
with_error none r h e = absurd (cc)
with_error (some ReadError.out_of_fuel) r h e = h
with_error (some x) r h e = absurd (cc)

finish-IsSound :
    (r : Response) (p : Bytes × Option ReadError) (rest : Bytes)
    → IsHead r
    → 200 ≤ r.status
    → r.compressed_bytes ≤ max_payload_bytes
    → length r.body ≡ 0
    → r.truncated ≡ false
    → Decoded (r.compressed_bytes * 100) p
    → IsSound (finish r p.0 p.1 rest)
unfolding finish IsSound Sound IsAccepted IsHead Decoded
finish-IsSound r (decoded, some e) rest h f c b t (x, y, z) = z
finish-IsSound r (decoded, none) rest h f c b t (x, y) =
    if_P IsSound (unsuccessful r.status) _ _
      (λ e. (
        h,
        f,
        c,
        y,
        omega (arith, x),
        sym (ap (λ u. if u then 0 else length decoded) e),
        sym (ap (λ u. u && ltb error_body_bytes (length decoded)) e),
      ))
      λ e. (
        h,
        f,
        c,
        y,
        omega (arith, x),
        sym (ap (λ u. if u then 0 else length decoded) e),
        t ∙ sym (ap (λ u. u && ltb error_body_bytes (length decoded)) e),
      )

fail-IsSound : (r : Response) (gz : Bool) (e : ReadError) → Real e → IsSound (fail r gz e)
unfolding fail IsSound Sound Real
fail-IsSound r gz ReadError.protocol h = tt
fail-IsSound r gz ReadError.header_limit h = tt
fail-IsSound r gz ReadError.body_too_large h = tt
fail-IsSound r gz ReadError.expansion_ratio h = tt
fail-IsSound r gz ReadError.incomplete_body h = tt
fail-IsSound r gz ReadError.read_failed h = tt
fail-IsSound r gz ReadError.out_of_fuel h = h

-- A final response whose body has not been read.
IsFinal : Response → Type 0
IsFinal r = IsBare r × (200 ≤ r.status)

ended : (size left : ℕ) (rest : Bytes) → Ended size left rest → size ≤ max_payload_bytes
unfolding Ended
ended size left rest h = h.0

plainly : (s : Bytes) → length s ≤ max_payload_bytes → Decoded (length s * 100) (s, none)
unfolding Decoded
plainly s h = (omega arith, h)

no_body : (rest : Bytes) → IsWithin (length rest) (record { bytes = []; rest = ok rest })
unfolding Ended Then
no_body rest = record { size = omega arith; end = (omega arith, omega arith) }

at_most : (n : ℕ) → ltb max_payload_bytes n ≡ false → n ≤ max_payload_bytes
at_most n h = ground arith

module _ (g : Gzip) (law : IsReader g) where
  with_body-IsSound :
      (r : Response) (gz : Bool) (b : BodyRead) (left : ℕ)
      → IsFinal r
      → IsWithin left b
      → IsSound (with_body g r gz b)
  unfolding with_body IsFinal IsBare IsHead
  with_body-IsSound r gz b left h w =
      let counted : Response = record r { compressed_bytes = length b.bytes } in
      Result_P IsSound b.rest _ _
        (λ e q.
          fail-IsSound counted gz e (Then-Real (Ended (length b.bytes) left) b.rest e w.end q))
        λ rest q.
          let c : length b.bytes ≤ max_payload_bytes =
            ended (length b.bytes) left rest
              (Then-of (Ended (length b.bytes) left) b.rest rest w.end q) in
          if_P IsSound gz _ _
            (λ _.
              finish-IsSound counted (decode_gzip g b.bytes) rest h.0.0 h.1 c h.0.1 h.0.2
                (decode_gzip-Decoded g law b.bytes))
            λ _.
              finish-IsSound counted (b.bytes, none) rest h.0.0 h.1 c h.0.1 h.0.2
                (plainly b.bytes c)

  read_body-IsSound :
      (r : Response) (length? : Option ℕ) (chunked gz : Bool) (rest : Bytes)
      → IsFinal r
      → IsSound (
          read_body g r (record { content_length = length?; chunked = chunked; gzipped = gz }) rest)
  unfolding read_body Real
  read_body-IsSound r (some n) chunked gz rest h =
      if_P IsSound (ltb max_payload_bytes n) _ _
        (λ _. stop-IsSound (record r { compressed_bytes = n }) body_too_large tt)
        λ e.
          with_body-IsSound r gz (read_content_length n rest) (length rest) h
            (read_content_length-IsWithin n rest (at_most n e))
  read_body-IsSound r none chunked gz rest h =
      if_P IsSound chunked _ _
        (λ _.
          with_body-IsSound r gz (read_chunked rest) (length rest) h (read_chunked-IsWithin rest))
        λ _.
          if_P IsSound (leb 100 r.status && ltb r.status 200 || r.status == 204 || r.status == 304)
            _ _ (λ _. with_body-IsSound r gz _ (length rest) h (no_body rest))
            λ _. stop-IsSound r protocol tt

  announce-IsSound : (r : Response) (d : Reading) → IsSound d → IsSound (announce g r d)
  unfolding announce IsSound
  announce-IsSound r d h = h

  final-IsSound :
      (r : Response) (f : Framing) (rest : Bytes)
      → IsBare r
      → not (leb 100 r.status && ltb r.status 200) ≡ true
      → IsSound (announce g r (read_body g r f rest))
  unfolding IsFinal IsBare IsHead
  final-IsSound r f rest h e =
      announce-IsSound r _ (
        read_body-IsSound r f.content_length f.chunked f.gzipped rest (h, ground (arith, h.0.0, e)))

  framing-Real : (hs : List Header) (e : ReadError) → framing hs ≡ failed e → Real e
  framing-Real hs e q = Then-Real (IsFramed hs) (framing hs) e (framing-Then hs) q

  head-Real : (r : Bytes) (e : ReadError) → (read_head r).rest ≡ failed e → Real e
  head-Real r e q =
      Then-Real (λ _. IsBare (read_head r).response) (read_head r).rest e (read_head-IsBare r) q

  head-IsBare : (r rest : Bytes) → (read_head r).rest ≡ ok rest → IsBare (read_head r).response
  head-IsBare r rest q =
      Then-of (λ _. IsBare (read_head r).response) (read_head r).rest rest (read_head-IsBare r) q

  read_responses-IsSound : (n : ℕ) (r : Bytes) → IsSound (read_responses g n r)
  unfolding read_responses Real
  read_responses-IsSound zero r =
      let o : Response = (read_head r).response in
      Result_P IsSound (read_head r).rest _ _ (λ e q. stop-IsSound o e (head-Real r e q))
        λ rest q.
          Result_P IsSound (framing o.headers) _ _
            (λ e p. stop-IsSound o e (framing-Real o.headers e p))
            λ f p.
              if_P IsSound (not (leb 100 o.status && ltb o.status 200)) _ _
                (λ e. final-IsSound o f rest (head-IsBare r rest q) e)
                λ e. stop-IsSound o protocol tt
  read_responses-IsSound (suc n) r =
      let o : Response = (read_head r).response in
      Result_P IsSound (read_head r).rest _ _ (λ e q. stop-IsSound o e (head-Real r e q))
        λ rest q.
          Result_P IsSound (framing o.headers) _ _
            (λ e p. stop-IsSound o e (framing-Real o.headers e p))
            λ f p.
              if_P IsSound (not (leb 100 o.status && ltb o.status 200)) _ _
                (λ e. final-IsSound o f rest (head-IsBare r rest q) e)
                λ e.
                  if_P IsSound (bad_informational g o f) _ _ (λ _. stop-IsSound o protocol tt)
                    λ _. read_responses-IsSound n rest

  pub read_final_response-IsAccepted :
      (r : Bytes)
      → (read_final_response g r).error ≡ none
      → IsAccepted (read_final_response g r).response
  unfolding read_final_response IsSound
  read_final_response-IsAccepted r e =
      without_error (read_final_response g r).error (read_final_response g r).response e
        (read_responses-IsSound max_informational_responses r)

  -- No error of a reading stands for a loop that was cut off.
  pub read_final_response-Real : (r : Bytes) → (read_final_response g r).error ≢ some out_of_fuel
  unfolding read_final_response IsSound
  read_final_response-Real r e =
      with_error (read_final_response g r).error (read_final_response g r).response
        (read_responses-IsSound max_informational_responses r) e
