-- ===== src/Ordered/Steps.antt =====
-- ordered.go: the steps of the encoder with a limit, each against the bytes of the one without.
use mathlib.Core.Path.{subst}
use repost_go.Ordered.{
  joined, separator, EncodeError, Encoded, encoded, over, then_on, followed, zeros, write,
  fill_limit, write_encoded, write_separator,
}
use repost_go.Prelude.{
  ℕ, zero, suc, ◌+◌, ◌-◌, ◌≤◌, ◌<◌, ◌≡◌, ◌⊎◌, inl, inr, min, refl, sym, ap, ◌∙◌, Bool, true, false,
  Option, none, some, [], ◌∷◌, ◌++◌, Bytes, length, take, ltb, leb, if◌then◌else◌, if_P, arith,
  length-append, length-take, append_assoc, append_nil,
}

-- What an encoder with a limit leaves, where the one without adds some bytes to the buffer.
pub record Tracks (limit : ℕ) (buffer bytes : Bytes) (e : Encoded) : Type 0 where
  pub fits : length buffer + length bytes ≤ limit → e ≡ encoded (buffer ++ bytes)
  pub exceeds :
      limit < length buffer + length bytes
      → (e.error ≡ some EncodeError.json_limit) × (length e.buffer ≡ limit + 1)

-- The same, where the encoder without a limit succeeds.
unfoldable pub Follows : ℕ → Bytes → Option Bytes → Encoded → Type 0
Follows limit buffer none e = Unit
Follows limit buffer (some bytes) e = Tracks limit buffer bytes e

take-whole : (n : ℕ) (s : Bytes) → length s ≤ n → take n s ≡ s
take-whole zero [] h = refl
take-whole zero (c ∷ cs) h = absurd (omega (arith, h))
take-whole (suc n) [] h = refl
take-whole (suc n) (c ∷ cs) h = ap (◌∷◌ c) (take-whole n cs (omega (arith, h)))

pub write-Tracks :
    (limit : ℕ) (bytes buffer : Bytes)
    → length buffer ≤ limit
    → Tracks limit buffer bytes (write limit bytes buffer)
unfolding write
write-Tracks limit bytes buffer h =
    let n : ℕ = limit + 1 - length buffer in
    let more : Bytes = buffer ++ take n bytes in
    let size : length more ≡ length buffer + length (take n bytes) =
      length-append buffer (take n bytes) in
    let part : length (take n bytes) ≡ min n (length bytes) = length-take n bytes in
    let P : Encoded → Type 0 = Tracks limit buffer bytes in
    if_P P (leb (limit + 1) (length buffer)) (over buffer)
      (if ltb limit (length more) then over more else encoded more)
      (λ e. absurd (ground (arith, e, h)))
      λ _.
        if_P P (ltb limit (length more)) (over more) (encoded more)
          (λ e. record {
            fits = λ f. absurd (ground (arith, e, size, part, f));
            exceeds = λ l. (refl, omega (arith, size, part, l, h));
          })
          λ e. record {
            fits = λ f. ap (λ t. encoded (buffer ++ t)) (take-whole n bytes (omega (arith, f)));
            exceeds = λ l. absurd (ground (arith, e, size, part, l, h));
          }

length-zeros : (n : ℕ) → length (zeros n) ≡ n
unfolding zeros
length-zeros zero = refl
length-zeros (suc n) = ap suc (length-zeros n)

fill_limit-Tracks :
    (limit : ℕ) (bytes buffer : Bytes)
    → length buffer ≤ limit
    → limit < length buffer + length bytes
    → Tracks limit buffer bytes (fill_limit limit buffer)
unfolding fill_limit
fill_limit-Tracks limit bytes buffer h l = record {
  fits = λ f. absurd (omega (arith, f, l));
  exceeds = λ _. (
    refl,
    omega (
      arith,
      h,
      length-append buffer (zeros (limit + 1 - length buffer)),
      length-zeros (limit + 1 - length buffer),
    ),
  );
}

pub write_encoded-Follows :
    (limit : ℕ) (o : Option Bytes) (buffer : Bytes)
    → length buffer ≤ limit
    → Follows limit buffer o (write_encoded limit o buffer)
unfolding Follows write_encoded
write_encoded-Follows limit none buffer h = tt
write_encoded-Follows limit (some bytes) buffer h = write-Tracks limit bytes buffer h

pub within_or_over : (n limit : ℕ) → (n ≤ limit) ⊎ (limit < n)
within_or_over n limit = ground arith

-- One step behind another.
followed-Tracks :
    (limit : ℕ) (buffer s t : Bytes) (e : Encoded) (next : Bytes → Encoded)
    → Tracks limit buffer s e
    → (length (buffer ++ s) ≤ limit → Tracks limit (buffer ++ s) t (next (buffer ++ s)))
    → Tracks limit buffer (s ++ t) (followed e next)
unfolding then_on
followed-Tracks limit buffer s t e next h k =
    let T : Encoded → Type 0 = Tracks limit buffer (s ++ t) in
    let size : length (buffer ++ s) ≡ length buffer + length s = length-append buffer s in
    let both : length (s ++ t) ≡ length s + length t = length-append s t in
    elim (within_or_over (length buffer + length s) limit) [
      | inl f ↦
          let r : Tracks limit (buffer ++ s) t (next (buffer ++ s)) = k (omega (arith, size, f)) in
          subst T (sym (ap (λ x. then_on x.error x next) (h.fits f))) (record {
            fits =
                λ g. r.fits (omega (arith, size, both, g)) ∙ ap encoded (append_assoc buffer s t);
            exceeds = λ l. r.exceeds (omega (arith, size, both, l));
          })
      | inr l ↦
          subst T (sym (ap (λ x. then_on x e next) (h.exceeds l).0))
            (record { fits = λ g. absurd (omega (arith, both, l, g)); exceeds = λ _. h.exceeds l })
    ]

pub followed-Follows :
    (limit : ℕ) (buffer : Bytes) (o p : Option Bytes) (e : Encoded) (next : Bytes → Encoded)
    → Follows limit buffer o e
    → ((b : Bytes) → length b ≤ limit → Follows limit b p (next b))
    → Follows limit buffer (joined o p) (followed e next)
unfolding Follows joined
followed-Follows limit buffer none p e next h k = tt
followed-Follows limit buffer (some s) none e next h k = tt
followed-Follows limit buffer (some s) (some t) e next h k =
    followed-Tracks limit buffer s t e next h (k (buffer ++ s))

pub fill_limit-Follows :
    (limit : ℕ) (buffer s : Bytes) (o : Option Bytes)
    → length buffer ≤ limit
    → limit + 1 - length buffer < length s + 2
    → ((bytes : Bytes) → o ≡ some bytes → length s + 2 ≤ length bytes)
    → Follows limit buffer o (fill_limit limit buffer)
unfolding Follows
fill_limit-Follows limit buffer s none h l law = tt
fill_limit-Follows limit buffer s (some bytes) h l law =
    fill_limit-Tracks limit bytes buffer h (omega (arith, law bytes refl, l, h))

pub nothing-Tracks :
    (limit : ℕ) (buffer : Bytes) → length buffer ≤ limit → Tracks limit buffer [] (encoded buffer)
nothing-Tracks limit buffer h = record {
  fits = λ _. ap encoded (sym (append_nil buffer));
  exceeds = λ l. absurd (omega (arith, l, h));
}

pub write_separator-Tracks :
    (limit : ℕ) (is_first : Bool) (buffer : Bytes)
    → length buffer ≤ limit
    → Tracks limit buffer (separator is_first) (write_separator limit is_first buffer)
write_separator-Tracks limit true buffer h = nothing-Tracks limit buffer h
write_separator-Tracks limit false buffer h = write-Tracks limit (b',' ∷ []) buffer h
