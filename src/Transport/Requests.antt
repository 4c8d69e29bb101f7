-- ===== src/Transport/Requests.antt =====
-- transport_raw.go: the wire request that an attempt's headers make, and the fields of a response
-- that close its connection.
use repost_go.Http1.{Request, Header}
use repost_go.Prelude.{
  ℕ, zero, suc, Bool, false, ◌&&◌, ◌||◌, Option, none, some, List, [], ◌∷◌, Bytes, length, drop,
  equal, leb, ◌==◌, if◌then◌else◌,
}
use repost_go.Response.{HeaderField}
use repost_go.Text.{equal_fold, codes}

-- `rawEndpoint`, the parts that a request is made of.
pub record Endpoint : Type 0 where
  pub target : Bytes
  pub authority : Bytes

abbrev named : HeaderField → Bytes → Bool
named h name = equal_fold h.name name

-- The two trace headers, which may be left out from the end; `none` is `ErrInvalidRequest`.
unfoldable pub trace_headers : List HeaderField → Option (Bytes × Bytes)
unfolding equal_fold
trace_headers [] = some ([], [])
trace_headers (p ∷ []) = if named p (codes "traceparent") then some (p.value, []) else none
trace_headers (p ∷ s ∷ []) =
    if named p (codes "traceparent") && named s (codes "tracestate")
    then some (p.value, s.value)
    else none
trace_headers _ = none

unfoldable pub make_h1_request : Endpoint → List HeaderField → Bytes → Option Request
unfolding equal_fold equal trace_headers
make_h1_request endpoint (a ∷ c ∷ e ∷ u ∷ i ∷ trace) body =
    if named a (codes "authorization")
      && named c (codes "content-type")
      && named e (codes "accept-encoding")
      && named u (codes "user-agent")
      && named i (codes "idempotency-key")
      && equal c.value (codes "application/json")
      && equal e.value (codes "gzip")
    then elim (trace_headers trace) [
      | none ↦ none
      | some (parent, state) ↦ some (record {
        target = endpoint.target;
        authority = endpoint.authority;
        authorization = a.value;
        user_agent = u.value;
        idempotency_key = i.value;
        traceparent = parent;
        tracestate = state;
        body = body;
      })
    ]
    else none
make_h1_request endpoint _ body = none

-- How many bytes the space character takes that a valid text begins with, as `unicode.IsSpace` knows
-- them; 0 where there is none.
unfoldable pub space_bytes : Bytes → ℕ
space_bytes [] = 0
space_bytes (a ∷ []) = if leb 9 a && leb a 13 || a == 32 then 1 else 0
space_bytes (a ∷ b ∷ []) =
    if leb 9 a && leb a 13 || a == 32
    then 1
    else if a == 0xc2 && (b == 0x85 || b == 0xa0)
    then 2
    else 0
space_bytes (a ∷ b ∷ c ∷ cs) =
    if leb 9 a && leb a 13 || a == 32
    then 1
    else if a == 0xc2 && (b == 0x85 || b == 0xa0)
    then 2
    else if a == 0xe1 && b == 0x9a && c == 0x80
        || a == 0xe2
          && b == 0x80
          && (leb 0x80 c && leb c 0x8a || c == 0xa8 || c == 0xa9 || c == 0xaf)
        || a == 0xe2 && b == 0x81 && c == 0x9f
        || a == 0xe3 && b == 0x80 && c == 0x80
    then 3
    else 0

-- A text without the spaces at its start; each takes a byte or more.
unfoldable pub trim_space_left : ℕ → Bytes → Bytes
unfolding space_bytes
trim_space_left zero s = s
trim_space_left (suc f) s =
    let n = space_bytes s in let rest = trim_space_left f (drop n s) in if n == 0 then s else rest

-- A text without the spaces at its end: it ends where nothing but spaces is left.
unfoldable pub trim_space_right : Bytes → Bytes
unfolding trim_space_left
trim_space_right [] = []
trim_space_right (c ∷ cs) =
    let rest = trim_space_right cs in
    if length (trim_space_left (length (c ∷ cs)) (c ∷ cs)) == 0 then [] else c ∷ rest

-- `strings.TrimSpace` of a valid text.
unfoldable pub trim_space : Bytes → Bytes
unfolding trim_space_left trim_space_right
trim_space s = trim_space_right (trim_space_left (length s) s)

-- `strings.Split` at a comma, with the token that is being read.
unfoldable pub split_commas : Bytes → Bytes × List Bytes
split_commas [] = ([], [])
split_commas (c ∷ cs) =
    let (token, tokens) = split_commas cs in
    if c == b',' then ([], token ∷ tokens) else (c ∷ token, tokens)

unfoldable pub any_close : List Bytes → Bool
unfolding trim_space equal_fold
any_close [] = false
any_close (t ∷ ts) = equal_fold (trim_space t) (codes "close") || any_close ts

unfoldable pub response_closes_connection : List Header → Bool
unfolding equal_fold split_commas any_close
response_closes_connection [] = false
response_closes_connection (h ∷ hs) =
    equal_fold h.name (codes "connection")
      && any_close ((split_commas h.value).0 ∷ (split_commas h.value).1)
    || response_closes_connection hs
