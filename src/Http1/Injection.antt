-- ===== src/Http1/Injection.antt =====
-- internal/h1/h1.go: the head that `WriteRequest` writes, read by a receiver that takes lines up to
-- an empty one.
use Prim.Native.String.{String}
use repost_go.Http1.LineEnds.{read_line-line, has_byte-append}
use repost_go.Http1.Lines.{read_line}
use repost_go.Http1.Writing.{
  given, valid_request, valid_wire_value, request_line, header_lines, request_head, print_lines,
}
use repost_go.Http1.{max_target_bytes, crlf, Request, out_of_fuel, Result, ok, failed, ◌>>=◌}
use repost_go.Prelude.{
  ℕ, zero, suc, ◌+◌, ◌≤◌, ◌<◌, ◌≡◌, refl, ap, ◌∙◌, Bool, true, false, not, ◌&&◌, ◌||◌, List, [],
  ◌∷◌, ◌++◌, Bytes, arith, length, leb, ◌==◌, if◌then◌else◌, length-append, append_assoc, All, ◌%◌,
  ◌/◌,
}
use repost_go.Response.Headers.{max_payload_bytes}
use repost_go.Text.Numbers.{decimal, decimal_onto_text}
use repost_go.Text.{has_byte, codes, has_prefix}

-- Line after line up to an empty one, with no limit of its own: the lines and what is left.
unfoldable pub receive_lines : ℕ → Bytes → Result (List Bytes × Bytes)
unfolding read_line
receive_lines zero r = failed out_of_fuel
receive_lines (suc f) r = do
  (l, rest) ← read_line r (length r)
  let more : Result (List Bytes × Bytes) = receive_lines f rest >>= λ (ls, end). ok (l ∷ ls, end)
  if length l == 0 then ok ([], rest) else more

-- A line with something on it and no newline.
IsLine : Bytes → Type 0
IsLine l = (has_byte 10 l ≡ false) × (1 ≤ length l)

receive-step :
    (f : ℕ) (t l rest end : Bytes) (ls : List Bytes)
    → read_line t (length t) ≡ ok (l, rest)
    → 1 ≤ length l
    → receive_lines f rest ≡ ok (ls, end)
    → receive_lines (suc f) t ≡ ok (l ∷ ls, end)
unfolding receive_lines ◌>>=◌
receive-step f t l rest end ls h k e = ground (arith, h, k, e)

receive-last :
    (f : ℕ) (t rest : Bytes)
    → read_line t (length t) ≡ ok ([], rest)
    → receive_lines (suc f) t ≡ ok ([], rest)
unfolding receive_lines ◌>>=◌
receive-last f t rest h = ground (arith, h)

receive-print :
    (ls : List Bytes) (r : Bytes) (f : ℕ)
    → All IsLine ls
    → length ls < f
    → receive_lines f (print_lines ls ++ r) ≡ ok (ls, r)
unfolding print_lines IsLine has_byte
receive-print ls r zero a h = absurd (omega arith)
receive-print [] r (suc f) a h = receive-last f _ r (read_line-line [] r _ refl (omega arith))
receive-print (l ∷ ls) r (suc f) a h =
    receive-step f _ l (print_lines ls ++ r) r ls
      (ap (λ t. read_line t (length t)) (append_assoc l (crlf ++ print_lines ls) r)
        ∙ read_line-line l (print_lines ls ++ r) _ a.0.0
            (omega (arith, length-append l (crlf ++ (print_lines ls ++ r)))))
      a.0.1 (receive-print ls r f a.1 (omega arith))

-- The digits of a number are no newline.
decimal_onto-newline :
    (f n : ℕ) (out : Bytes)
    → has_byte 10 out ≡ false
    → has_byte 10 (decimal_onto_text f n out) ≡ false
unfolding decimal_onto_text has_byte
decimal_onto-newline zero n out h = h
decimal_onto-newline (suc f) n out h =
    ground (arith, h, decimal_onto-newline f (n / 10) ((b'0' + n % 10) ∷ out) (ground (arith, h)))

decimal-newline : (n : ℕ) → has_byte 10 (decimal n) ≡ false
unfolding decimal has_byte
decimal-newline n = decimal_onto-newline (suc n) n [] refl

wire_value-newline : (s : Bytes) → valid_wire_value s ≡ true → has_byte 10 s ≡ false
unfolding valid_wire_value
wire_value-newline s h = ground (arith, h)

-- A line of a name and a value.
named-IsLine :
    (name value : Bytes) → IsLine name → has_byte 10 value ≡ false → IsLine (name ++ value)
unfolding IsLine
named-IsLine name value (a, l) h =
    (ground (arith, has_byte-append 10 name value), omega (arith, length-append name value))

record CleanValues (req : Request) : Type 0 where
  target : has_byte 10 req.target ≡ false
  authority : has_byte 10 req.authority ≡ false
  authorization : has_byte 10 req.authorization ≡ false
  user_agent : has_byte 10 req.user_agent ≡ false
  idempotency_key : has_byte 10 req.idempotency_key ≡ false
  traceparent : has_byte 10 req.traceparent ≡ false
  tracestate : has_byte 10 req.tracestate ≡ false

-- The tests of the values among those of a request.
among :
    (a b c d e t u v g w k x l y z o : Bool)
    → (a && b && c && d && e && t && u && v && g && w && k && x && l && y && z && o) ≡ true
    → (t ≡ true) × (u ≡ true) × (v ≡ true) × (w ≡ true) × (x ≡ true) × (y ≡ true) × (z ≡ true)
among a b c d e t u v g w k x l y z o h = ground (arith, h)

valid_request-CleanValues : (req : Request) → valid_request req ≡ true → CleanValues req
unfolding valid_request
valid_request-CleanValues req h =
    let (t, u, v, w, x, y, z) =
      among (given req.target) (leb (length req.target) max_target_bytes)
        (has_prefix req.target (b'/' ∷ [])) (given req.authority)
        (leb (length req.body) max_payload_bytes) _ _ _ (given req.authorization) _
        (given req.user_agent) _ (given req.idempotency_key) _ _
        (not (given req.tracestate) || given req.traceparent) h in
    record {
      target = wire_value-newline req.target t;
      authority = wire_value-newline req.authority u;
      authorization = wire_value-newline req.authorization v;
      user_agent = wire_value-newline req.user_agent w;
      idempotency_key = wire_value-newline req.idempotency_key x;
      traceparent = wire_value-newline req.traceparent y;
      tracestate = wire_value-newline req.tracestate z;
    }

is_line : (l : Bytes) → not (has_byte 10 l) && leb 1 (length l) ≡ true → IsLine l
unfolding IsLine
is_line l h = ground (arith, h)

named :
    (name : String) (value : Bytes)
    → not (has_byte 10 (codes name)) && leb 1 (length (codes name)) ≡ true
    → has_byte 10 value ≡ false
    → IsLine (codes name ++ value)
named name value h k = named-IsLine (codes name) value (is_line (codes name) h) k

optional-IsLine : (b : Bool) (ls : List Bytes) → All IsLine ls → All IsLine (if b then ls else [])
optional-IsLine true ls a = a
optional-IsLine false ls a = tt

-- The header lines that a valid request has.
header_lines-IsLine : (req : Request) → valid_request req ≡ true → All IsLine (header_lines req)
unfolding header_lines has_byte
header_lines-IsLine req h =
    let c : CleanValues req = valid_request-CleanValues req h in
    (
      named "host: " _ refl c.authority,
      (
        named "content-length: " _ refl (decimal-newline (length req.body)),
        (
          named "authorization: " _ refl c.authorization,
          (
            is_line (codes "content-type: application/json") refl,
            (
              is_line (codes "accept-encoding: gzip") refl,
              (
                named "user-agent: " _ refl c.user_agent,
                (
                  named "idempotency-key: " _ refl c.idempotency_key,
                  optional-IsLine (given req.traceparent) _ (
                    named "traceparent: " _ refl c.traceparent,
                    optional-IsLine (given req.tracestate) _
                        (named "tracestate: " _ refl c.tracestate, tt),
                  ),
                ),
              ),
            ),
          ),
        ),
      ),
    )

request_line-IsLine : (req : Request) → valid_request req ≡ true → IsLine (request_line req)
unfolding request_line has_byte IsLine
request_line-IsLine req h =
    let p : IsLine (codes "POST " ++ req.target) =
      named "POST " _ refl (valid_request-CleanValues req h).target in
    named-IsLine (codes "POST " ++ req.target) (codes " HTTP/1.1") p refl

few_lines : (req : Request) → length (header_lines req) ≤ 9
unfolding header_lines
few_lines req = ground arith

-- A receiver that reads the head of a valid request line by line finds the request line and the
-- header lines that `WriteRequest` means, each as it was written, and behind them the body: no value
-- of the request adds a line, takes one away or ends the head early.
pub receive-request_head :
    (req : Request)
    → valid_request req ≡ true
    → receive_lines 11 (request_head req ++ req.body)
      ≡ ok (request_line req ∷ header_lines req, req.body)
unfolding request_head
receive-request_head req h =
    receive-print (request_line req ∷ header_lines req) req.body 11
      (request_line-IsLine req h, header_lines-IsLine req h) (omega (arith, few_lines req))
