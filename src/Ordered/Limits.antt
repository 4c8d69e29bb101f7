-- ===== src/Ordered/Limits.antt =====
-- ordered.go: the encoder with a limit against the one without.
use repost_go.Ordered.Steps.{
  Tracks, Follows, write-Tracks, fill_limit-Follows, write_encoded-Follows, followed-Follows,
  nothing-Tracks, write_separator-Tracks, within_or_over,
}
use mathlib.Core.Path.{subst}
use repost_go.Ordered.{
  Value, object, array, text, leaf, Members, no_members, member, Items, no_items, item, separator,
  marshal_json, members_json, items_json, Encoded, write_text, write_value, write_members,
  write_items, limited_answer, marshal_json_limit,
}
use repost_go.Prelude.{
  ℕ, ◌+◌, ◌-◌, ◌≤◌, ◌<◌, ◌≡◌, inl, inr, refl, ap, Bool, true, false, Option, some, [], ◌∷◌, Bytes,
  length, ltb, if_P, arith,
}

-- The answer of `marshalJSONLimit`, for a document that the encoder without a limit makes.
pub record Agrees (limit : ℕ) (bytes : Bytes) (o : Option Bytes) : Type 0 where
  pub answer : Bytes
  pub answered : o ≡ some answer
  pub whole : length bytes ≤ limit → answer ≡ bytes
  pub cut : limit < length bytes → length answer ≡ limit + 1

limited_answer-Agrees :
    (limit : ℕ) (bytes : Bytes) (e : Encoded)
    → Tracks limit [] bytes e
    → Agrees limit bytes (limited_answer e e.error)
unfolding limited_answer
limited_answer-Agrees limit bytes e t = elim (within_or_over (length bytes) limit) [
  | inl f ↦ record {
    answer = bytes;
    answered = ap (λ x. limited_answer x x.error) (t.fits (omega (arith, f)));
    whole = λ _. refl;
    cut = λ l. absurd (omega (arith, f, l));
  }
  | inr l ↦ record {
    answer = e.buffer;
    answered = ap (limited_answer e) (t.exceeds (omega (arith, l))).0;
    whole = λ f. absurd (omega (arith, f, l));
    cut = λ _. (t.exceeds (omega (arith, l))).1;
  }
]

module _ {L : Type 0} (encode_text : Bytes → Option Bytes) (encode_leaf : L → Option Bytes)
    -- Every byte of a text is written as one or more, between quotes.
    (law : (s bytes : Bytes) → encode_text s ≡ some bytes → length s + 2 ≤ length bytes)
    (limit : ℕ) where
  write_text-Follows :
      (s buffer : Bytes)
      → length buffer ≤ limit
      → Follows limit buffer (encode_text s) (write_text encode_text encode_leaf limit s buffer)
  unfolding write_text
  write_text-Follows s buffer h =
      if_P (Follows limit buffer (encode_text s)) (ltb (limit + 1 - length buffer) (length s + 2)) _
        _ (λ e. fill_limit-Follows limit buffer s (encode_text s) h (ground (arith, e)) (law s))
        λ _. write_encoded-Follows limit (encode_text s) buffer h

  mutual
    unfolding marshal_json write_value Follows

    write_value-Follows :
        (v : Value L) (buffer : Bytes)
        → length buffer ≤ limit
        → Follows limit buffer
            (marshal_json encode_text encode_leaf v)
            (write_value encode_text encode_leaf limit v buffer)
    write_value-Follows (object ms) buffer h =
        followed-Follows limit buffer (some (b'{' ∷ [])) _ _ _
          (write-Tracks limit (b'{' ∷ []) buffer h)
          λ b hb.
            followed-Follows limit b (members_json encode_text encode_leaf true ms)
              (some (b'}' ∷ [])) _ _ (write_members-Follows true ms b hb)
              λ c hc. write-Tracks limit (b'}' ∷ []) c hc
    write_value-Follows (array vs) buffer h =
        followed-Follows limit buffer (some (b'[' ∷ [])) _ _ _
          (write-Tracks limit (b'[' ∷ []) buffer h)
          λ b hb.
            followed-Follows limit b (items_json encode_text encode_leaf true vs) (some (b']' ∷ []))
              _ _ (write_items-Follows true vs b hb) λ c hc. write-Tracks limit (b']' ∷ []) c hc
    write_value-Follows (text s) buffer h = write_text-Follows s buffer h
    write_value-Follows (leaf l) buffer h = write_encoded-Follows limit (encode_leaf l) buffer h

    write_members-Follows :
        (is_first : Bool) (ms : Members L) (buffer : Bytes)
        → length buffer ≤ limit
        → Follows limit buffer
            (members_json encode_text encode_leaf is_first ms)
            (write_members encode_text encode_leaf limit is_first ms buffer)
    write_members-Follows is_first no_members buffer h = nothing-Tracks limit buffer h
    write_members-Follows is_first (member k v ms) buffer h =
        followed-Follows limit buffer (some (separator is_first)) _ _ _
          (write_separator-Tracks limit is_first buffer h)
          λ b hb. followed-Follows limit b (encode_text k) _ _ _ (write_text-Follows k b hb) λ c hc.
            followed-Follows limit c (some (b':' ∷ [])) _ _ _ (write-Tracks limit (b':' ∷ []) c hc)
              λ d hd.
                followed-Follows limit d (marshal_json encode_text encode_leaf v) _ _ _
                  (write_value-Follows v d hd) λ e he. write_members-Follows false ms e he

    write_items-Follows :
        (is_first : Bool) (vs : Items L) (buffer : Bytes)
        → length buffer ≤ limit
        → Follows limit buffer
            (items_json encode_text encode_leaf is_first vs)
            (write_items encode_text encode_leaf limit is_first vs buffer)
    write_items-Follows is_first no_items buffer h = nothing-Tracks limit buffer h
    write_items-Follows is_first (item v vs) buffer h =
        followed-Follows limit buffer (some (separator is_first)) _ _ _
          (write_separator-Tracks limit is_first buffer h)
          λ b hb.
            followed-Follows limit b (marshal_json encode_text encode_leaf v) _ _ _
              (write_value-Follows v b hb) λ c hc. write_items-Follows false vs c hc

  -- For any encoding of texts that writes at least two bytes more than a text has: where the
  -- encoder without a limit makes a document of an object, the one with a limit answers the same document if
  -- it is within the limit, and else a text of one byte more than the limit.
  pub marshal_json_limit-Agrees :
      (ms : Members L) (bytes : Bytes)
      → marshal_json encode_text encode_leaf (object ms) ≡ some bytes
      → Agrees limit bytes (marshal_json_limit encode_text encode_leaf limit ms)
  unfolding marshal_json_limit Follows
  marshal_json_limit-Agrees ms bytes h =
      let e : Encoded = write_value encode_text encode_leaf limit (object ms) [] in
      limited_answer-Agrees limit bytes e
        (subst (λ o. Follows limit [] o e) h (write_value-Follows (object ms) [] (omega arith)))
