-- ===== src/Http1/Writing.antt =====
-- internal/h1/h1.go: `WriteRequest`. The writer is any state with a `write` that says how many bytes
-- it took, as Go's int, and whether it failed.
use repost_go.Http1.{Request, crlf, max_target_bytes}
use repost_go.Prelude.Int.{ℤ}
use repost_go.Prelude.{
  ℕ, zero, suc, Bool, true, false, not, ◌&&◌, ◌||◌, Option, none, some, List, [], ◌∷◌, ◌++◌, Bytes,
  length, take, drop, ltb, leb, ◌==◌, if◌then◌else◌,
}
use repost_go.Response.Headers.{max_payload_bytes}
use repost_go.Text.{has_byte, has_prefix, codes}
use repost_go.Text.Numbers.{decimal}

-- `!strings.ContainsAny(value, "\r\n\x00")`
unfoldable pub valid_wire_value : Bytes → Bool
unfolding has_byte
valid_wire_value value = not (has_byte 13 value || has_byte 10 value || has_byte 0 value)

abbrev pub given : Bytes → Bool
given s = not (length s == 0)

-- `validRequest`, of a request that is there.
unfoldable pub valid_request : Request → Bool
unfolding valid_wire_value has_prefix
valid_request req =
    given req.target
    && leb (length req.target) max_target_bytes
    && has_prefix req.target (b'/' ∷ [])
    && given req.authority
    && leb (length req.body) max_payload_bytes
    && valid_wire_value req.target
    && valid_wire_value req.authority
    && valid_wire_value req.authorization
    && given req.authorization
    && valid_wire_value req.user_agent
    && given req.user_agent
    && valid_wire_value req.idempotency_key
    && given req.idempotency_key
    && valid_wire_value req.traceparent
    && valid_wire_value req.tracestate
    && (not (given req.tracestate) || given req.traceparent)

-- The lines behind the request line, without the last, empty one.
unfoldable pub header_lines : Request → List Bytes
unfolding decimal
header_lines req =
    (codes "host: " ++ req.authority)
    ∷ (codes "content-length: " ++ decimal (length req.body))
    ∷ (codes "authorization: " ++ req.authorization)
    ∷ codes "content-type: application/json"
    ∷ codes "accept-encoding: gzip"
    ∷ (codes "user-agent: " ++ req.user_agent)
    ∷ (codes "idempotency-key: " ++ req.idempotency_key)
    ∷ (if given req.traceparent
        then (codes "traceparent: " ++ req.traceparent)
          ∷ (if given req.tracestate then (codes "tracestate: " ++ req.tracestate) ∷ [] else [])
        else [])

unfoldable pub request_line : Request → Bytes
request_line req = codes "POST " ++ req.target ++ codes " HTTP/1.1"

unfoldable pub print_lines : List Bytes → Bytes
print_lines [] = crlf
print_lines (l ∷ ls) = l ++ (crlf ++ print_lines ls)

-- The text that `WriteRequest` builds before it writes.
unfoldable pub request_head : Request → Bytes
unfolding request_line header_lines print_lines
request_head req = print_lines (request_line req ∷ header_lines req)

pub data WriteError : Type 0 where
  invalid_request short_write write_failed : WriteError

-- What a run of writes leaves: the writer, the bytes it took, whether the caller's `firstByte` was
-- called, and the error.
pub record Written {ℓ} (W : Type ℓ) : Type ℓ where
  pub writer : W
  pub sent : Bytes
  pub marked : Bool
  pub error : Option WriteError

module _ {ℓ} {W : Type ℓ} where
  -- A round of the loop of `writeAll`: `write` has said that it took `n` bytes and whether it
  -- failed. `more` is the rest of the loop, on what `n` bytes leave.
  unfoldable pub wrote : (ℕ → Bool → Written W) → ℤ → Bool → W → Bytes → Bool → Bool → Written W
  wrote more (ℤ.negsuc n) bad w cs first marked = record {
    writer = w;
    sent = [];
    marked = marked;
    error = some WriteError.short_write;
  }
  wrote more (ℤ.pos n) bad w cs first marked =
      let now = marked || first && ltb 0 n in
      let rest = more n now in
      if ltb (length cs) n
      then record { writer = w; sent = []; marked = marked; error = some WriteError.short_write }
      else if bad
      then record {
        writer = w;
        sent = take n cs;
        marked = now;
        error = some WriteError.write_failed;
      }
      else if n == 0
      then record { writer = w; sent = []; marked = now; error = some WriteError.short_write }
      else record rest { sent = take n cs ++ rest.sent }

module _ {ℓ} {W : Type ℓ} (write : W → Bytes → ℤ × Bool × W) where
  -- Every round but the last takes a byte or more, so the length of the data bounds the rounds.
  -- `first` says that `firstByte` is there, `marked` that it was called.
  unfoldable pub write_from : ℕ → W → Bytes → Bool → Bool → Written W
  unfolding wrote
  write_from zero w cs first marked = record {
    writer = w;
    sent = [];
    marked = marked;
    error = none;
  }
  write_from (suc f) w [] first marked = record {
    writer = w;
    sent = [];
    marked = marked;
    error = none;
  }
  write_from (suc f) w (c ∷ cs) first marked =
      let (count, bad, w') = write w (c ∷ cs) in
      wrote (λ n now. write_from f w' (drop n (c ∷ cs)) first now) count bad w' (c ∷ cs) first
        marked

  unfoldable pub write_all : W → Bytes → Bool → Written W
  unfolding write_from
  write_all w bytes first = write_from (length bytes) w bytes first false

  -- The second run counts where the first had no error.
  unfoldable pub joined : Option WriteError → Written W → Written W → Written W
  joined none h b = record b { sent = h.sent ++ b.sent }
  joined (some e) h b = h

  -- The two runs of `WriteRequest`, behind the test of the request.
  unfoldable pub deliver : Bool → W → Bytes → Bytes → Written W
  unfolding write_all joined
  deliver false w head body = record {
    writer = w;
    sent = [];
    marked = false;
    error = some WriteError.invalid_request;
  }
  deliver true w head body =
      let h = write_all w head false in let b = write_all h.writer body true in joined h.error h b

  unfoldable pub write_request : W → Request → Written W
  unfolding valid_request request_head deliver
  write_request w req = deliver (valid_request req) w (request_head req) req.body
