-- ===== src/Http1/Fields.antt =====
-- internal/h1/h1.go: the part of `readFinalResponse` that reads a status line and the header
-- fields behind it.
use repost_go.Http1.{header_limit, Result, ok, failed, Header, Response, no_response}
use repost_go.Http1.Lines.{read_line, parse_status, parse_header}
use repost_go.Prelude.{
  ℕ, zero, suc, ◌+◌, List, [], ◌∷◌, ◌++◌, Bytes, length, ltb, ◌==◌, if◌then◌else◌,
}
use repost_go.Response.Headers.{max_header_bytes, max_header_fields, max_header_value_bytes}

-- The loop over the header lines, with the fields and the bytes so far. `n` is how many fields there
-- may still be: the code refuses a line where `len(response.Headers) == MaxHeaderFields`.
unfoldable pub read_fields : ℕ → ℕ → List Header → Bytes → List Header × Result Bytes
unfolding read_line parse_header
read_fields zero size hs r = elim (read_line r (max_header_bytes + 2)) [
  | failed e ↦ (hs, failed e)
  | ok (line, rest) ↦ if length line == 0 then (hs, ok rest) else (hs, failed header_limit)
]
read_fields (suc n) size hs r = elim (read_line r (max_header_bytes + 2)) [
  | failed e ↦ (hs, failed e)
  | ok (line, rest) ↦ elim (parse_header line) [
    | failed e ↦ if length line == 0 then (hs, ok rest) else (hs, failed e)
    | ok h ↦
        let size' = size + (length h.name + 2 + length h.value + 2) in
        let more = read_fields n size' (hs ++ (h ∷ [])) rest in
        if length line == 0
        then (hs, ok rest)
        else if ltb max_header_bytes size'
        then (hs ++ (h ∷ []), failed header_limit)
        else more
  ]
]

pub record HeadRead : Type 0 where
  pub response : Response
  pub rest : Result Bytes

-- The fields of a response whose status is known.
unfoldable pub read_head_fields : ℕ → Bytes → HeadRead
unfolding read_fields
read_head_fields status r =
    let (hs, end) = read_fields max_header_fields 0 [] r in
    record { response = record no_response { status = status; headers = hs }; rest = end }

-- One response's status line and header fields.
unfoldable pub read_head : Bytes → HeadRead
unfolding read_line parse_status read_head_fields
read_head r = elim (read_line r max_header_value_bytes) [
  | failed e ↦ record { response = no_response; rest = failed e }
  | ok (line, rest) ↦ elim (parse_status line) [
    | failed e ↦ record { response = no_response; rest = failed e }
    | ok status ↦ read_head_fields status rest
  ]
]
