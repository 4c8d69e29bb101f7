-- ===== src/Http1/BodyBounds.antt =====
-- internal/h1/h1.go: the size of the bodies that are read, and the rounds of `readChunked`.
use repost_go.Http1.Body.{
  BodyRead, read_exactly, read_content_length, chunk_size, trailer, chunk_end, chunk_bytes,
  read_chunks, read_chunked,
}
use repost_go.Http1.Lines.{read_line}
use repost_go.Http1.Outcomes.{
  Real, Then, Then-map, Result_P, Then-bind, Then-require, Then-option, Then-ok, Then-failed,
  Then-of, Then-Real,
}
use repost_go.Http1.{protocol, body_too_large, read_failed}
use repost_go.Prelude.{
  ℕ, zero, suc, ◌+◌, ◌-◌, ◌≤◌, ◌<◌, ◌≡◌, false, some, [], ◌∷◌, ◌++◌, Bytes, arith, length, leb,
  ◌==◌, length-append, length-take, length-drop, Option-cases, if_P, inl, inr,
}
use repost_go.Response.Headers.{max_header_bytes, max_payload_bytes}
use repost_go.Text.Numbers.{parse_hex63}
use repost_go.Text.{cut}

cut-size : (sep : ℕ) (s rest : Bytes) → (cut sep s).1 ≡ some rest → suc (length rest) ≤ length s
unfolding cut
cut-size sep [] rest e = absurd (cc)
cut-size sep (c ∷ s) rest e = ground (arith, e, cut-size sep s rest)

-- What is left behind a line is shorter than the text was.
pub Shorter : ℕ → Bytes × Bytes → Type 0
Shorter n (line, rest) = suc (length rest) ≤ n

ShorterThan : ℕ → ℕ × Bytes → Type 0
ShorterThan n (size, rest) = suc (length rest) ≤ n

AtMost : ℕ → Bytes → Type 0
AtMost n rest = length rest ≤ n

pub read_line-Shorter : (r : Bytes) (limit : ℕ) → Then (Shorter (length r)) (read_line r limit)
unfolding read_line Then Shorter Real
read_line-Shorter r limit = elim (Option-cases (cut 10 r).1) [
  | inl e ↦ ground (arith, e)
  | inr (rest, e) ↦ ground (arith, e, cut-size 10 r rest e)
]

chunk_size-ShorterThan : (r : Bytes) → Then (ShorterThan (length r)) (chunk_size r)
unfolding chunk_size ShorterThan Shorter Real
chunk_size-ShorterThan r =
    Then-bind (Shorter (length r)) (ShorterThan (length r)) _ _ (read_line-Shorter r 256)
      λ (line, rest) h.
        Then-option (ShorterThan (length r)) (parse_hex63 (cut b';' line).0) protocol _ tt
          λ n _. Then-ok (ShorterThan (length r)) _ h

trailer-AtMost : (r : Bytes) → Then (AtMost (length r)) (trailer r)
unfolding trailer AtMost Shorter Real
trailer-AtMost r =
    Then-bind (Shorter (length r)) (AtMost (length r)) _ _ (read_line-Shorter r max_header_bytes)
      λ (line, rest) h.
        Then-require (AtMost (length r)) _ _ _ tt
          λ _. Then-ok (AtMost (length r)) _ (omega (arith, h))

chunk_end-AtMost : (n : ℕ) (r : Bytes) → length r ≤ n → Then (AtMost n) (chunk_end r)
unfolding chunk_end AtMost Real
chunk_end-AtMost n [] h = Then-failed (AtMost n) read_failed tt
chunk_end-AtMost n (a ∷ []) h = Then-failed (AtMost n) read_failed tt
chunk_end-AtMost n (a ∷ b ∷ r) h =
    Then-require (AtMost n) _ _ _ tt
      λ _. Then-require (AtMost n) _ _ _ tt λ _. Then-ok (AtMost n) _ (omega (arith, h))

read_exactly-AtMost : (n : ℕ) (r : Bytes) → Then (AtMost (length r)) (read_exactly n r).rest
unfolding read_exactly AtMost Then Real
read_exactly-AtMost n r = ground (arith, length-drop n r)

read_exactly-size : (n : ℕ) (r : Bytes) → length (read_exactly n r).bytes ≤ n
unfolding read_exactly
read_exactly-size n r = omega (arith, length-take n r)

-- The size of a body that was read to its end, and of what is left behind it.
unfoldable pub Ended : ℕ → ℕ → Bytes → Type 0
Ended size left rest = (size ≤ max_payload_bytes) × (length rest ≤ left)

pub record IsWithin (left : ℕ) (b : BodyRead) : Type 0 where
  pub size : length b.bytes ≤ max_payload_bytes + 1
  pub end : Then (Ended (length b.bytes) left) b.rest

strictly : (a b : ℕ) → leb a b ≡ false → b < a
strictly a b h = ground arith

chunk_bytes-IsWithin :
    (body : Bytes) (size : ℕ) (r : Bytes)
    → length body ≤ max_payload_bytes
    → IsWithin (length r) (chunk_bytes body size r)
unfolding chunk_bytes Real
chunk_bytes-IsWithin body size r h =
    let n : ℕ = max_payload_bytes + 1 - length body in
    let P : Bytes → Type 0 = Ended (length (body ++ (read_exactly n r).bytes)) (length r) in
    let Q : Bytes → Type 0 = Ended (length (body ++ (read_exactly size r).bytes)) (length r) in
    if_P (IsWithin (length r)) (n == 0) _ _
      (λ _. record { size = omega (arith, h); end = Then-failed _ body_too_large tt })
      λ _.
        if_P (IsWithin (length r)) (leb n size) _ _
          (λ _. record {
            size =
                omega
                  (arith, h, length-append body (read_exactly n r).bytes, read_exactly-size n r);
            end =
                Then-bind (AtMost (length r)) P _ _ (read_exactly-AtMost n r)
                  λ _ _. Then-failed P body_too_large tt;
          })
          λ l. record {
            size = omega (
              arith,
              h,
              strictly n size l,
              length-append body (read_exactly size r).bytes,
              read_exactly-size size r,
            );
            end = Then-bind (AtMost (length r)) Q _ _ (read_exactly-AtMost size r) λ rest k.
                Then-map (AtMost (length r)) Q _
                  (chunk_end-AtMost (length r) rest (unfold AtMost in k))
                  λ a b.
                    unfold AtMost Ended in
                    (
                      omega (
                        arith,
                        h,
                        strictly n size l,
                        length-append body (read_exactly size r).bytes,
                        read_exactly-size size r,
                      ),
                      b,
                    );
          }

weaken : (m n : ℕ) (b : BodyRead) → m ≤ n → IsWithin m b → IsWithin n b
unfolding Ended
weaken m n b l w = record {
  size = w.size;
  end =
      Then-map (Ended (length b.bytes) m) (Ended (length b.bytes) n) b.rest w.end
        λ rest (h, k). (h, omega arith);
}

read_chunks-IsWithin :
    (f : ℕ) (body r : Bytes)
    → length body ≤ max_payload_bytes
    → length r < f
    → IsWithin (length r) (read_chunks f body r)
unfolding read_chunks Ended
read_chunks-IsWithin zero body r h l = absurd (omega arith)
read_chunks-IsWithin (suc f) body r h l =
    let W : BodyRead → Type 0 = IsWithin (length r) in
    Result_P W (chunk_size r) _ _
      (λ e q. record {
        size = omega (arith, h);
        end =
            Then-failed (Ended (length body) (length r)) e
              (Then-Real (ShorterThan (length r)) (chunk_size r) e (chunk_size-ShorterThan r) q);
      })
      λ (size, behind) q.
        let s : suc (length behind) ≤ length r =
          unfold ShorterThan in
          Then-of (ShorterThan (length r)) (chunk_size r) (size, behind) (chunk_size-ShorterThan r)
            q in
        let part : BodyRead = chunk_bytes body size behind in
        let p : IsWithin (length behind) part = chunk_bytes-IsWithin body size behind h in
        if_P W (size == 0) _ _
          (λ _. record {
            size = omega (arith, h);
            end =
                Then-map (AtMost (length behind)) (Ended (length body) (length r)) _
                  (trailer-AtMost behind) λ rest k. unfold AtMost Ended in (h, omega (arith, s, k));
          })
          λ _.
            Result_P W part.rest _ _
              (λ e _. weaken (length behind) (length r) part (omega (arith, s)) p)
              λ rest e.
                let (a, b) : Ended (length part.bytes) (length behind) rest =
                  Then-of (Ended (length part.bytes) (length behind)) part.rest rest p.end e in
                weaken (length rest) (length r) (read_chunks f part.bytes rest)
                  (omega (arith, s, b))
                  (read_chunks-IsWithin f part.bytes rest a (omega (arith, s, b, l)))

pub read_chunked-IsWithin : (r : Bytes) → IsWithin (length r) (read_chunked r)
unfolding read_chunked
read_chunked-IsWithin r = read_chunks-IsWithin (length r + 1) [] r (omega arith) (omega arith)

-- Whatever the connection delivers, the loop over the chunks ends by itself: the body that is read
-- has at most 1,048,577 bytes, and where the reading succeeds at most 1,048,576.
pub read_chunked-ends :
    (r : Bytes)
    → (length (read_chunked r).bytes ≤ max_payload_bytes + 1)
      × Then
          (λ rest. (length (read_chunked r).bytes ≤ max_payload_bytes) × (length rest ≤ length r))
          (read_chunked r).rest
unfolding Ended
read_chunked-ends r = ((read_chunked-IsWithin r).size, (read_chunked-IsWithin r).end)

pub read_content_length-IsWithin :
    (n : ℕ) (r : Bytes) → n ≤ max_payload_bytes → IsWithin (length r) (read_content_length n r)
unfolding read_content_length Ended
read_content_length-IsWithin n r h = record {
  size = omega (arith, h, read_exactly-size n r);
  end =
      Then-map (AtMost (length r)) (Ended (length (read_exactly n r).bytes) (length r)) _
        (read_exactly-AtMost n r)
        λ rest k. unfold AtMost in (omega (arith, h, read_exactly-size n r), k);
}
