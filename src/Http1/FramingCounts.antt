-- ===== src/Http1/FramingCounts.antt =====
-- internal/h1/h1.go: which header fields a framing that was accepted comes from.
use mathlib.Core.Path.{subst}
use repost_go.Http1.Framing.{
  Framing, framing, has_length, content_length_from, single_content_length, chunked_from,
  transfer_chunked, encoding_from, content_encoding,
}
use repost_go.Http1.Outcomes.{
  Real, Then, Then-bind, Then-require, Then-option, Then-ok, Then-failed, Then-of,
}
use repost_go.Http1.{protocol, Result, ok, failed, Header, ◌>>◌, require}
use repost_go.Prelude.{
  ℕ, suc, ◌+◌, ◌≤◌, ◌≡◌, refl, ap, ◌∙◌, Bool, true, false, not, ◌&&◌, Option, none, some, List, [],
  ◌∷◌, Bytes, arith, length, equal, ltb, ◌==◌, if◌then◌else◌, if_P,
}
use repost_go.Response.Headers.{max_payload_bytes, to_lower, identity, gzip}
use repost_go.Text.{equal_fold, codes, all_bytes, is_digit, parse_uint63}
use Prim.Native.String.{String}

-- How many of the fields have a name, in any case of its letters.
unfoldable pub fields_named : String → List Header → ℕ
unfolding equal_fold
fields_named name [] = 0
fields_named name (h ∷ hs) =
    (if equal_fold h.name (codes name) then 1 else 0) + fields_named name hs

abbrev count_some : Option Bytes → ℕ
count_some none = 0
count_some (some v) = 1

abbrev pub count_true : Bool → ℕ
count_true true = 1
count_true false = 0

Counts : ℕ → Option Bytes → Type 0
Counts n o = count_some o ≡ n

CountsTrue : ℕ → Bool → Type 0
CountsTrue n b = count_true b ≡ n

fields_named-hit :
    (name : String) (h : Header) (hs : List Header)
    → equal_fold h.name (codes name) ≡ true
    → fields_named name (h ∷ hs) ≡ suc (fields_named name hs)
unfolding fields_named
fields_named-hit name h hs e = ap (λ b. (if b then 1 else 0) + fields_named name hs) e ∙ omega arith

fields_named-miss :
    (name : String) (h : Header) (hs : List Header)
    → equal_fold h.name (codes name) ≡ false
    → fields_named name (h ∷ hs) ≡ fields_named name hs
unfolding fields_named
fields_named-miss name h hs e =
    ap (λ b. (if b then 1 else 0) + fields_named name hs) e ∙ omega arith

true_of : (b : Bool) → not b ≡ false → b ≡ true
true_of true e = refl
true_of false e = absurd (cc)

false_of : (b : Bool) → not b ≡ true → b ≡ false
false_of true e = absurd (cc)
false_of false e = refl

again : (m n : ℕ) (r : Result (Option Bytes)) → Then (Counts m) r → m ≡ n → Then (Counts n) r
again m n r h e = subst (λ k. Then (Counts k) r) e h

again_true : (m n : ℕ) (r : Result Bool) → Then (CountsTrue m) r → m ≡ n → Then (CountsTrue n) r
again_true m n r h e = subst (λ k. Then (CountsTrue k) r) e h

content_length_from-Counts :
    (found : Option Bytes) (hs : List Header)
    → Then
        (Counts (count_some found + fields_named "content-length" hs))
        (content_length_from found hs)
unfolding content_length_from fields_named Real
content_length_from-Counts found [] =
    Then-ok (Counts (count_some found + 0)) found (unfold Counts in (omega arith))
content_length_from-Counts none (h ∷ hs) =
    let C : Result (Option Bytes) → Type 0 =
      Then (Counts (count_some none + fields_named "content-length" (h ∷ hs))) in
    if_P C (not (equal_fold h.name (codes "content-length"))) _ _
      (λ e.
        again _ _ _ (content_length_from-Counts none hs)
          (omega (arith, fields_named-miss "content-length" h hs (false_of _ e))))
      λ e.
        if_P C (length h.value == 0) _ _ (λ _. Then-failed (Counts _) protocol tt)
          λ _.
            again _ _ _ (content_length_from-Counts (some h.value) hs)
              (omega (arith, fields_named-hit "content-length" h hs (true_of _ e)))
content_length_from-Counts (some v) (h ∷ hs) =
    let C : Result (Option Bytes) → Type 0 =
      Then (Counts (count_some (some v) + fields_named "content-length" (h ∷ hs))) in
    if_P C (equal_fold h.name (codes "content-length")) _ _
      (λ _. Then-failed (Counts _) protocol tt)
      λ e.
        again _ _ _ (content_length_from-Counts (some v) hs)
          (omega (arith, fields_named-miss "content-length" h hs e))

encoding_from-Counts :
    (found : Option Bytes) (hs : List Header)
    → Then (Counts (count_some found + fields_named "content-encoding" hs)) (encoding_from found hs)
unfolding encoding_from fields_named Real
encoding_from-Counts found [] =
    Then-ok (Counts (count_some found + 0)) found (unfold Counts in (omega arith))
encoding_from-Counts none (h ∷ hs) =
    let C : Result (Option Bytes) → Type 0 =
      Then (Counts (count_some none + fields_named "content-encoding" (h ∷ hs))) in
    if_P C (equal_fold h.name (codes "content-encoding")) _ _
      (λ e.
        again _ _ _ (encoding_from-Counts (some (to_lower h.value)) hs)
          (omega (arith, fields_named-hit "content-encoding" h hs e)))
      λ e.
        again _ _ _ (encoding_from-Counts none hs)
          (omega (arith, fields_named-miss "content-encoding" h hs e))
encoding_from-Counts (some v) (h ∷ hs) =
    let C : Result (Option Bytes) → Type 0 =
      Then (Counts (count_some (some v) + fields_named "content-encoding" (h ∷ hs))) in
    if_P C (equal_fold h.name (codes "content-encoding")) _ _
      (λ _. Then-failed (Counts _) protocol tt)
      λ e.
        again _ _ _ (encoding_from-Counts (some v) hs)
          (omega (arith, fields_named-miss "content-encoding" h hs e))

chunked_from-CountsTrue :
    (found : Bool) (hs : List Header)
    → Then
        (CountsTrue (count_true found + fields_named "transfer-encoding" hs))
        (chunked_from found hs)
unfolding chunked_from fields_named Real
chunked_from-CountsTrue found [] =
    Then-ok (CountsTrue (count_true found + 0)) found (unfold CountsTrue in (omega arith))
chunked_from-CountsTrue found (h ∷ hs) =
    let C : Result Bool → Type 0 =
      Then (CountsTrue (count_true found + fields_named "transfer-encoding" (h ∷ hs))) in
    if_P C (not (equal_fold h.name (codes "transfer-encoding"))) _ _
      (λ e.
        again_true _ _ _ (chunked_from-CountsTrue found hs)
          (omega (arith, fields_named-miss "transfer-encoding" h hs (false_of _ e))))
      λ e.
        if_P C found _ _ (λ _. Then-failed (CountsTrue _) protocol tt)
          λ f.
            if_P C (equal_fold h.value (codes "chunked")) _ _
              (λ _. again_true _ _ _ (chunked_from-CountsTrue true hs) (
                omega (
                  arith,
                  fields_named-hit "transfer-encoding" h hs (true_of _ e),
                  ap count_true f,
                )))
              λ _. Then-failed (CountsTrue _) protocol tt

abbrev LengthCounts : List Header → Option ℕ → Type 0
LengthCounts hs o =
    fields_named "content-length" hs ≡ count_true (elim o [ none ↦ false | some n ↦ true ])

value_of :
    (hs : List Header) (found : Option Bytes)
    → Counts (0 + fields_named "content-length" hs) found
    → Then (LengthCounts hs) (elim found [
      | none ↦ ok none
      | some value ↦ require (all_bytes is_digit value) protocol >> elim (parse_uint63 value) [
        | none ↦ failed protocol
        | some n ↦ ok (some (if ltb max_payload_bytes n then max_payload_bytes + 1 else n))
      ]
    ])
unfolding Counts Real
value_of hs none h = Then-ok (LengthCounts hs) none (omega (arith, h))
value_of hs (some value) h = Then-require (LengthCounts hs) _ _ _ tt λ _.
    Then-option (LengthCounts hs) (parse_uint63 value) protocol _ tt
      λ n _. Then-ok (LengthCounts hs) _ (omega (arith, h))

single_content_length-Counts :
    (hs : List Header) → Then (LengthCounts hs) (single_content_length hs)
unfolding single_content_length Counts Real
single_content_length-Counts hs =
    Then-bind (Counts (0 + fields_named "content-length" hs)) (LengthCounts hs) _ _
      (content_length_from-Counts none hs) (value_of hs)

-- A framing comes from at most one field of each kind, and its two flags say which there were.
unfoldable pub IsFramed : List Header → Framing → Type 0
IsFramed hs f =
    (fields_named "content-length" hs ≡ count_true (has_length f))
    × (fields_named "transfer-encoding" hs ≡ count_true f.chunked)
    × (fields_named "content-encoding" hs ≤ 1)
    × ((has_length f && f.chunked) ≡ false)

AtMostOne : List Header → Bool → Type 0
AtMostOne hs b = fields_named "content-encoding" hs ≤ 1

encoding_value :
    (hs : List Header) (found : Option Bytes)
    → Counts (0 + fields_named "content-encoding" hs) found
    → Then (AtMostOne hs) (elim found [
      | none ↦ ok false
      | some e ↦
          if equal e identity then ok false else if equal e gzip then ok true else failed protocol
    ])
unfolding Counts Real AtMostOne
encoding_value hs none h = Then-ok (AtMostOne hs) false (omega (arith, h))
encoding_value hs (some v) h =
    let T : Result Bool → Type 0 = Then (AtMostOne hs) in
    if_P T (equal v identity) _ _ (λ _. Then-ok (AtMostOne hs) false (omega (arith, h)))
      λ _.
        if_P T (equal v gzip) _ _ (λ _. Then-ok (AtMostOne hs) true (omega (arith, h)))
          λ _. Then-failed (AtMostOne hs) protocol tt

content_encoding-AtMostOne : (hs : List Header) → Then (AtMostOne hs) (content_encoding hs)
unfolding content_encoding
content_encoding-AtMostOne hs =
    Then-bind (Counts (0 + fields_named "content-encoding" hs)) (AtMostOne hs) _ _
      (encoding_from-Counts none hs) (encoding_value hs)

transfer_chunked-CountsTrue :
    (hs : List Header)
    → Then (CountsTrue (0 + fields_named "transfer-encoding" hs)) (transfer_chunked hs)
unfolding transfer_chunked
transfer_chunked-CountsTrue hs = chunked_from-CountsTrue false hs

framed :
    (hs : List Header) (length : Option ℕ) (chunked gz : Bool)
    → LengthCounts hs length
    → CountsTrue (0 + fields_named "transfer-encoding" hs) chunked
    → AtMostOne hs gz
    → not (elim length [ none ↦ false | some n ↦ true ] && chunked) ≡ true
    → IsFramed hs (record { content_length = length; chunked = chunked; gzipped = gz })
unfolding IsFramed CountsTrue AtMostOne
framed hs length chunked gz a b d c = (a, omega (arith, b), d, false_of _ c)

pub framing-Then : (hs : List Header) → Then (IsFramed hs) (framing hs)
unfolding framing Real CountsTrue AtMostOne
framing-Then hs =
    Then-bind (LengthCounts hs) (IsFramed hs) (single_content_length hs) _
      (single_content_length-Counts hs)
      λ length a.
        Then-bind (CountsTrue _) (IsFramed hs) (transfer_chunked hs) _
          (transfer_chunked-CountsTrue hs)
          λ chunked b. Then-require (IsFramed hs) _ _ _ tt λ c.
            Then-bind (AtMostOne hs) (IsFramed hs) (content_encoding hs) _
              (content_encoding-AtMostOne hs)
              λ gz d.
                Then-ok (IsFramed hs)
                  (record { content_length = length; chunked = chunked; gzipped = gz })
                  (framed hs length chunked gz a b d c)

-- Where the header fields are accepted, at most one is named content-length, at most one
-- transfer-encoding and at most one content-encoding, in any case of the letters. The framing says
-- which of the first two is there, and never that both are.
pub framing-IsFramed :
    (hs : List Header) (f : Framing)
    → framing hs ≡ ok f
    → (fields_named "content-length" hs ≡ count_true (has_length f))
      × (fields_named "transfer-encoding" hs ≡ count_true f.chunked)
      × (fields_named "content-encoding" hs ≤ 1)
      × ((has_length f && f.chunked) ≡ false)
unfolding IsFramed
framing-IsFramed hs f e = Then-of (IsFramed hs) (framing hs) f (framing-Then hs) e
