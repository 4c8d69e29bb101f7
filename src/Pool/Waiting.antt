-- ===== src/Pool/Waiting.antt =====
-- internal/pool/pool.go: when `Acquire` waits.
use mathlib.Core.Path.{subst}
use repost_go.Pool.{
  assign, Pool, Entry, Acquired, pool_closed, context_over, waits, acquire, with_candidate,
  dial_or_wait, expire, take_available, is_available,
}
use repost_go.Prelude.Int.{ℤ, pos, ◌+ℤ◌, ◌≤ℤ◌, ltb_ℤ}
use repost_go.Prelude.{
  ℕ, ◌≡◌, refl, sym, Bool, true, false, Option, none, some, List, [], ◌∷◌, Bytes, length,
  equal_refl, arith, All, if◌then◌else◌, Bool-cases, inl, inr,
}

-- No entry that is left can be leased, by a pool and the answer of `take_available`.
NoneLeft : List Entry × Option Entry → Type 0
NoneLeft (es, none) = All (λ e. is_available e ≡ false) es
NoneLeft (es, some e) = Unit

take_available-NoneLeft :
    (reusable : ℕ → Bool) (es : List Entry) → NoneLeft (take_available reusable es)
unfolding NoneLeft take_available
take_available-NoneLeft reusable [] = tt
take_available-NoneLeft reusable (e ∷ es) = ground (arith, take_available-NoneLeft reusable es)

-- At the cap, with no entry that can be leased.
unfoldable pub IsExhausted : Bytes → Pool → Type 0
IsExhausted key q =
    (q.max_connections ≤ℤ pos (length (q.entries key)) +ℤ q.pending key)
    × All (λ e. is_available e ≡ false) (q.entries key)

assign-key : {A : Type 0} (f : Bytes → A) (key : Bytes) (v : A) → assign f key v key ≡ v
unfolding assign
assign-key f key v = rw (equal_refl key) refl

dial_or_wait-IsExhausted :
    (p : Pool) (key : Bytes)
    → All (λ e. is_available e ≡ false) (p.entries key)
    → (dial_or_wait p key).1 ≡ waits
    → IsExhausted key (dial_or_wait p key).0
unfolding dial_or_wait IsExhausted
dial_or_wait-IsExhausted p key none_left h =
    elim (Bool-cases (ltb_ℤ (pos (length (p.entries key)) +ℤ p.pending key) p.max_connections)) [
      | inl q ↦ ground (arith, h, q)
      | inr q ↦ rw q (ground (arith, q), none_left)
    ]

with_candidate-IsExhausted :
    (p : Pool) (key : Bytes) (t : List Entry × Option Entry)
    → NoneLeft t
    → (with_candidate p key t).1 ≡ waits
    → IsExhausted key (with_candidate p key t).0
unfolding NoneLeft with_candidate
with_candidate-IsExhausted p key (es, none) h e =
    dial_or_wait-IsExhausted (record p { entries = assign p.entries key es }) key
      (subst (All (λ e. is_available e ≡ false)) (sym (assign-key p.entries key es)) h) e
with_candidate-IsExhausted p key (es, some x) h e = absurd (ground (arith, e))

guarded :
    (a b : Bool) (p q : Pool) (key : Bytes) (t : Pool × Acquired)
    → (t.1 ≡ waits → IsExhausted key t.0)
    → (if a then (p, context_over) else if b then (q, pool_closed) else t).1 ≡ waits
    → (a ≡ false)
      × (b ≡ false)
      × IsExhausted key (if a then (p, context_over) else if b then (q, pool_closed) else t).0
guarded true b p q key t k e = absurd (ground (arith, e))
guarded false true p q key t k e = absurd (ground (arith, e))
guarded false false p q key t k e = (refl, refl, k e)

-- The whole of one turn.
pub acquire-IsExhausted :
    (p : Pool) (key : Bytes) (ended : Bool) (now : ℤ) (reusable : ℕ → Bool)
    → (acquire p key ended now reusable).1 ≡ waits
    → (ended ≡ false) × (p.closed ≡ false) × IsExhausted key (acquire p key ended now reusable).0
unfolding acquire
acquire-IsExhausted p key ended now reusable e =
    let q = expire p key now in
    guarded ended p.closed p q key (with_candidate q key (take_available reusable (q.entries key)))
      (with_candidate-IsExhausted q key _ (take_available-NoneLeft reusable (q.entries key))) e
