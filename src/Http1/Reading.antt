-- ===== src/Http1/Reading.antt =====
-- internal/h1/h1.go: `readFinalResponse`, the whole of it.
use repost_go.Http1.Body.{BodyRead, read_content_length, read_chunked}
use repost_go.Http1.Fields.{read_head}
use repost_go.Http1.Framing.{Framing, framing}
use repost_go.Http1.Gzip.{Gzip, decode_gzip}
use repost_go.Http1.{
  ReadError, protocol, body_too_large, ok, failed, Response, max_informational_responses,
}
use repost_go.Prelude.{
  ℕ, zero, suc, Bool, true, false, not, ◌&&◌, ◌||◌, Option, none, some, [], Bytes, length, ltb, leb,
  ◌==◌, if◌then◌else◌,
}
use repost_go.Response.Headers.{max_payload_bytes, error_body_bytes}

-- The response, the error, what `onHeaders` was called with, and what the connection has yet to
-- deliver where the reading has not failed.
pub record Reading : Type 0 where
  pub response : Response
  pub error : Option ReadError
  pub announced : Option Response
  pub rest : Bytes

abbrev pub stop : Response → ReadError → Reading
stop r e = record { response = r; error = some e; announced = none; rest = [] }

-- `response.Status < 200 || response.Status >= 300`
unfoldable pub unsuccessful : ℕ → Bool
unsuccessful status = ltb status 200 || leb 300 status

-- A body that was read to its end, decoded as far as it needs to be.
unfoldable pub finish : Response → Bytes → Option ReadError → Bytes → Reading
unfolding unsuccessful
finish r decoded error rest =
    let counted = record r { decompressed_bytes = length decoded } in
    elim error [
      | some e ↦ record {
        response = record counted {
          truncated = elim e [
            | ReadError.body_too_large ↦ true
            | ReadError.expansion_ratio ↦ true
            | _ ↦ false
          ];
        };
        error = some e;
        announced = none;
        rest = [];
      }
      | none ↦
          if unsuccessful r.status
          then record {
            response = record counted {
              body = [];
              truncated = ltb error_body_bytes (length decoded);
            };
            error = none;
            announced = none;
            rest = rest;
          }
          else record {
            response = record counted { body = decoded };
            error = none;
            announced = none;
            rest = rest;
          }
    ]

-- A body whose reading failed.
unfoldable pub fail : Response → Bool → ReadError → Reading
fail r gzipped e =
    let counted = if gzipped then r else record r { decompressed_bytes = r.compressed_bytes } in
    elim e [
      | ReadError.body_too_large ↦ stop counted ReadError.body_too_large
      | ReadError.protocol ↦ stop counted ReadError.protocol
      | ReadError.header_limit ↦ stop counted ReadError.header_limit
      | ReadError.out_of_fuel ↦ stop counted ReadError.out_of_fuel
      | _ ↦ stop (record counted { truncated = true }) ReadError.incomplete_body
    ]

module _ (g : Gzip) where
  -- What is made of the bytes that were read.
  unfoldable pub with_body : Response → Bool → BodyRead → Reading
  unfolding finish fail decode_gzip
  with_body r gzipped b =
      let counted = record r { compressed_bytes = length b.bytes } in
      elim b.rest [
        | failed e ↦ fail counted gzipped e
        | ok rest ↦
            if gzipped
            then finish counted (decode_gzip g b.bytes).0 (decode_gzip g b.bytes).1 rest
            else finish counted b.bytes none rest
      ]

  -- The part behind the call of `onHeaders`.
  unfoldable pub read_body : Response → Framing → Bytes → Reading
  unfolding with_body read_content_length read_chunked
  read_body r f rest = elim f.content_length [
    | some n ↦
        if ltb max_payload_bytes n
        then stop (record r { compressed_bytes = n }) body_too_large
        else with_body r f.gzipped (read_content_length n rest)
    | none ↦
        if f.chunked
        then with_body r f.gzipped (read_chunked rest)
        else if leb 100 r.status && ltb r.status 200 || r.status == 204 || r.status == 304
        then with_body r f.gzipped (record { bytes = []; rest = ok rest })
        else stop r protocol
  ]

  -- What no informational response may have.
  unfoldable pub bad_informational : Response → Framing → Bool
  bad_informational r f =
      r.status == 101 || f.chunked || elim f.content_length [ none ↦ false | some n ↦ not (n == 0) ]

  unfoldable pub announce : Response → Reading → Reading
  announce r d = record d { announced = some r }

  -- The loop over informational responses; `n` is how many there may still be.
  unfoldable pub read_responses : ℕ → Bytes → Reading
  unfolding read_head framing bad_informational read_body announce
  read_responses zero r = elim (read_head r).rest [
    | failed e ↦ stop (read_head r).response e
    | ok rest ↦ elim (framing (read_head r).response.headers) [
      | failed e ↦ stop (read_head r).response e
      | ok f ↦
          if not (leb 100 (read_head r).response.status && ltb (read_head r).response.status 200)
          then announce (read_head r).response (read_body (read_head r).response f rest)
          else stop (read_head r).response protocol
    ]
  ]
  read_responses (suc n) r = elim (read_head r).rest [
    | failed e ↦ stop (read_head r).response e
    | ok rest ↦ elim (framing (read_head r).response.headers) [
      | failed e ↦ stop (read_head r).response e
      | ok f ↦
          let more = read_responses n rest in
          if not (leb 100 (read_head r).response.status && ltb (read_head r).response.status 200)
          then announce (read_head r).response (read_body (read_head r).response f rest)
          else if bad_informational (read_head r).response f
          then stop (read_head r).response protocol
          else more
    ]
  ]

  unfoldable pub read_final_response : Bytes → Reading
  unfolding read_responses
  read_final_response r = read_responses max_informational_responses r
