-- ===== src/Http1/HeadBounds.antt =====
-- internal/h1/h1.go: the header fields and the status that a response has when its head was read.
use repost_go.Http1.FieldLines.{IsField, parse_header-IsField}
use repost_go.Http1.Fields.{HeadRead, read_fields, read_head_fields, read_head}
use repost_go.Http1.BodyBounds.{Shorter, read_line-Shorter}
use repost_go.Http1.Lines.{read_line, parse_status, status_digits, parse_header}
use repost_go.Http1.Outcomes.{
  Real, Then, Then-require, Then-ok, Then-failed, Then-of, Then-map, Then-Real, Result_P,
}
use repost_go.Http1.{ReadError, header_limit, Result, ok, failed, Header, Response, no_response}
use repost_go.Prelude.{
  ℕ, zero, suc, ◌+◌, ◌≤◌, ◌≡◌, refl, false, List, [], ◌∷◌, ◌++◌, Bytes, arith, length, drop, ltb,
  ◌==◌, length-append, if_P, All, All-append,
}
use repost_go.Response.Headers.{max_header_bytes, max_header_fields, max_header_value_bytes}

-- The bytes of the fields, each with its colon, its blank and its line end.
unfoldable pub header_size : List Header → ℕ
header_size [] = 0
header_size (h ∷ hs) = length h.name + 2 + length h.value + 2 + header_size hs

header_size-append :
    (hs : List Header) (h : Header)
    → header_size (hs ++ (h ∷ [])) ≡ header_size hs + (length h.name + 2 + length h.value + 2)
unfolding header_size
header_size-append [] h = omega arith
header_size-append (x ∷ hs) h = omega (arith, header_size-append hs h)

unfoldable pub IsHeaders : List Header → Type 0
IsHeaders hs =
    All IsField hs × (length hs ≤ max_header_fields) × (header_size hs ≤ max_header_bytes)

-- The outcome of the loop over the fields.
IsFields : List Header × Result Bytes → Type 0
IsFields (hs, end) = Then (λ _. IsHeaders hs) end

failed-IsFields : (hs : List Header) (e : ReadError) → Real e → IsFields (hs, failed e)
unfolding IsFields
failed-IsFields hs e r = Then-failed (λ _. IsHeaders hs) e r

read_line-Real : (r : Bytes) (limit : ℕ) (e : ReadError) → read_line r limit ≡ failed e → Real e
read_line-Real r limit e q =
    Then-Real (Shorter (length r)) (read_line r limit) e (read_line-Shorter r limit) q

read_fields-IsFields :
    (n size : ℕ) (hs : List Header) (r : Bytes)
    → length hs + n ≡ max_header_fields
    → header_size hs ≡ size
    → size ≤ max_header_bytes
    → All IsField hs
    → IsFields (read_fields n size hs r)
unfolding read_fields IsFields Real
read_fields-IsFields zero size hs r l s b a =
    Result_P IsFields (read_line r (max_header_bytes + 2)) _ _
      (λ e q. failed-IsFields hs e (read_line-Real r (max_header_bytes + 2) e q))
      λ (line, rest) _.
        if_P IsFields (length line == 0) _ _
          (λ _.
            Then-ok (λ _. IsHeaders hs) rest
              (unfold IsHeaders in (a, omega (arith, l), omega (arith, s, b))))
          λ _. failed-IsFields hs header_limit tt
read_fields-IsFields (suc n) size hs r l s b a =
    let done : (rest : Bytes) → IsFields (hs, ok rest) = λ rest.
      Then-ok (λ _. IsHeaders hs) rest
        (unfold IsHeaders in (a, omega (arith, l), omega (arith, s, b))) in
    Result_P IsFields (read_line r (max_header_bytes + 2)) _ _
      (λ e q. failed-IsFields hs e (read_line-Real r (max_header_bytes + 2) e q))
      λ (line, rest) _.
        Result_P IsFields (parse_header line) _ _
          (λ e q.
            if_P IsFields (length line == 0) _ _ (λ _. done rest)
              λ _.
                failed-IsFields hs e
                  (Then-Real IsField (parse_header line) e (parse_header-IsField line) q))
          λ h q.
            if_P IsFields (length line == 0) _ _ (λ _. done rest)
              λ _.
                if_P IsFields
                  (ltb max_header_bytes (size + (length h.name + 2 + length h.value + 2))) _ _
                  (λ _. failed-IsFields (hs ++ (h ∷ [])) header_limit tt)
                  λ k.
                    read_fields-IsFields n _ (hs ++ (h ∷ [])) rest
                      (omega (arith, l, length-append hs (h ∷ [])))
                      (omega (arith, s, header_size-append hs h)) (ground (arith, k))
                      (All-append IsField hs (h ∷ []) a
                        (Then-of IsField (parse_header line) h (parse_header-IsField line) q, tt))

-- What a response has behind its head.
unfoldable pub IsHead : Response → Type 0
unfolding IsHeaders
IsHead r = (100 ≤ r.status) × (r.status ≤ 599) × IsHeaders r.headers

-- A response whose body has not been read.
unfoldable pub IsBare : Response → Type 0
unfolding IsHead
IsBare r = IsHead r × (length r.body ≡ 0) × (r.truncated ≡ false)

IsStatus : ℕ → Type 0
IsStatus n = (100 ≤ n) × (n ≤ 599)

status_digits-IsStatus : (s : Bytes) → Then IsStatus (status_digits s)
unfolding status_digits IsStatus Then Real
status_digits-IsStatus [] = tt
status_digits-IsStatus (a ∷ []) = tt
status_digits-IsStatus (a ∷ b ∷ []) = tt
status_digits-IsStatus (a ∷ b ∷ c ∷ cs) = ground arith

parse_status-IsStatus : (line : Bytes) → Then IsStatus (parse_status line)
unfolding parse_status Real
parse_status-IsStatus line =
    Then-require IsStatus _ _ _ tt λ _. status_digits-IsStatus (drop 9 line)

IsHeadRead : HeadRead → Type 0
IsHeadRead h = Then (λ _. IsBare h.response) h.rest

from_fields :
    (status : ℕ) (p : List Header × Result Bytes)
    → IsStatus status
    → IsFields p
    → IsHeadRead
        (record { response = record no_response { status = status; headers = p.0 }; rest = p.1 })
unfolding IsHeadRead IsFields IsStatus
from_fields status (hs, end) (a, b) f =
    Then-map (λ _. IsHeaders hs)
      (λ _. IsBare (record no_response { status = status; headers = hs })) end f
      λ _ h. unfold IsBare IsHead in ((a, b, h), refl, refl)

read_head_fields-IsHeadRead :
    (status : ℕ) (r : Bytes) → IsStatus status → IsHeadRead (read_head_fields status r)
unfolding read_head_fields
read_head_fields-IsHeadRead status r h =
    from_fields status (read_fields max_header_fields 0 [] r) h (
      read_fields-IsFields max_header_fields 0 [] r refl (unfold header_size in refl) (omega arith)
        tt)

pub read_head-IsBare : (r : Bytes) → Then (λ _. IsBare (read_head r).response) (read_head r).rest
unfolding read_head IsHeadRead
read_head-IsBare r =
    Result_P IsHeadRead (read_line r max_header_value_bytes) _ _
      (λ e q. Then-failed (λ _. IsBare no_response) e (read_line-Real r max_header_value_bytes e q))
      λ (line, rest) _.
        Result_P IsHeadRead (parse_status line) _ _
          (λ e q.
            Then-failed (λ _. IsBare no_response) e
              (Then-Real IsStatus (parse_status line) e (parse_status-IsStatus line) q))
          λ status q.
            read_head_fields-IsHeadRead status rest
              (Then-of IsStatus (parse_status line) status (parse_status-IsStatus line) q)
