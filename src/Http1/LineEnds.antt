-- ===== src/Http1/LineEnds.antt =====
-- internal/h1/h1.go: `readLine` on a text that begins with a line of the wire format.
use repost_go.Http1.Lines.{strip_cr, read_line}
use repost_go.Http1.{crlf, ok}
use repost_go.Prelude.{
  ℕ, ◌≤◌, ◌≡◌, refl, sym, ap, ◌∙◌, false, ◌||◌, some, [], ◌∷◌, ◌++◌, Bytes, arith, length,
  append_assoc, length-append,
}
use repost_go.Text.{cut, has_byte}

-- A text goes through `cut` up to the first separator.
pub cut-absent :
    (sep : ℕ) (s r : Bytes) → has_byte sep s ≡ false → cut sep (s ++ (sep ∷ r)) ≡ (s, some r)
unfolding cut has_byte
cut-absent sep [] r h = ground arith
cut-absent sep (c ∷ s) r h = ground (arith, cut-absent sep s r (ground (arith, h)))

pub strip_cr-end : (s : Bytes) → strip_cr (s ++ (13 ∷ [])) ≡ some s
unfolding strip_cr
strip_cr-end [] = refl
strip_cr-end (c ∷ []) = refl
strip_cr-end (c ∷ d ∷ s) = ground (arith, strip_cr-end (d ∷ s))

pub has_byte-append : (b : ℕ) (s t : Bytes) → has_byte b (s ++ t) ≡ (has_byte b s || has_byte b t)
unfolding has_byte
has_byte-append b [] t = refl
has_byte-append b (c ∷ s) t = ground (arith, has_byte-append b s t)

read_line-cut :
    (t l r : Bytes) (limit : ℕ)
    → cut 10 t ≡ (l ++ (13 ∷ []), some r)
    → length l ≤ limit
    → read_line t limit ≡ ok (l, r)
unfolding read_line
read_line-cut t l r limit e k = ground (arith, e, strip_cr-end l, length-append l (13 ∷ []))

-- A line without a newline comes back from the text that begins with it and its end.
pub read_line-line :
    (l r : Bytes) (limit : ℕ)
    → has_byte 10 l ≡ false
    → length l ≤ limit
    → read_line (l ++ (crlf ++ r)) limit ≡ ok (l, r)
unfolding has_byte
read_line-line l r limit h k =
    read_line-cut _ l r limit
      (ap (cut 10) (sym (append_assoc l (13 ∷ []) (10 ∷ r)))
        ∙ cut-absent 10 (l ++ (13 ∷ [])) r (has_byte-append 10 l (13 ∷ []) ∙ ground (arith, h)))
      k
