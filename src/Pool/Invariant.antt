-- ===== src/Pool/Invariant.antt =====
-- internal/pool/pool.go: the entries, the running dials and the leases under every schedule.
use mathlib.Core.Path.{subst}
use repost_go.Pool.Entries.Leases.{IsOneMore, TakeOk, take_available-TakeOk}
use repost_go.Pool.Entries.Lengths.{length-reap, length-retire_expired, length-take_available}
use repost_go.Pool.Entries.{Counted, retire_expired-Counted, reap-Counted, ext-Counted}
use repost_go.Pool.World.{add_at, sub_at}
use repost_go.Pool.{
  Pool, Entry, Acquired, leased, pool_closed, context_over, dials, assign, expire, retire_expired,
  take_available, dial_or_wait, with_candidate, with_pending, acquire, dial_settled, signal,
}
use repost_go.Prelude.Int.{ℤ, pos, ◌+ℤ◌, ◌-ℤ◌, ◌≤ℤ◌, ltb_ℤ}
use repost_go.Prelude.{
  ℕ, ◌+◌, ◌-◌, ◌≤◌, ◌<◌, ◌≡◌, refl, ap, sym, ◌∙◌, Bool, true, false, ◌&&◌, Option, none, some, List,
  Bytes, length, equal, equal→eq, equal_refl, arith, ◌==◌, if◌then◌else◌, Bool-cases, inl, inr,
}

-- A statement on every key of a map holds after an assignment to one.
module _ {ℓ κ} {A : Type ℓ} (P : Bytes → A → Type κ) (f : Bytes → A) (key : Bytes) (v : A) where
  choose :
      (k : Bytes) (b : Bool)
      → (b ≡ true → P k v)
      → (b ≡ false → P k (f k))
      → P k (if b then v else f k)
  choose k true h g = h refl
  choose k false h g = g refl

  pub assigned :
      P key v
      → ((k : Bytes) → equal k key ≡ false → P k (f k))
      → (k : Bytes) → P k (assign f key v k)
  unfolding assign
  assigned h g k = choose k (equal k key) (λ q. subst (λ x. P x v) (sym (equal→eq k key q)) h) (g k)

pub split-key {κ} :
    (P : Bytes → Type κ) (key : Bytes)
    → P key
    → ((k : Bytes) → equal k key ≡ false → P k)
    → (k : Bytes) → P k
split-key P key h g k = elim (Bool-cases (equal k key)) [
  | inl q ↦ subst P (sym (equal→eq k key q)) h
  | inr q ↦ g k q
]

one_more : (a : ℤ) (m : ℕ) → a ≡ pos m → a +ℤ pos 1 ≡ pos (m + 1)
unfolding ◌+ℤ◌
one_more a m e = ground arith

one_less : (a : ℤ) (m : ℕ) → a ≡ pos m → 0 < m → a -ℤ pos 1 ≡ pos (m - 1)
unfolding ◌-ℤ◌
one_less a m e l = ground arith

-- The test for a dial, with one more dial counted.
room :
    (l m m' : ℕ) (a top : ℤ)
    → a ≡ pos m
    → m' ≡ m + 1
    → ltb_ℤ (pos l +ℤ a) top ≡ true
    → pos (l + m') ≤ℤ top
unfolding ◌+ℤ◌
room l m m' a top e f q = ground arith

module _ (d : Bytes → ℕ) (key : Bytes) where
  add_at-key : add_at d key 1 key ≡ d key + 1
  add_at-key = ground (arith, equal_refl key)

  add_at-other : (k : Bytes) → equal k key ≡ false → add_at d key 1 k ≡ d k
  add_at-other k q = ground arith

  sub_at-key : sub_at d key 1 key ≡ d key - 1
  sub_at-key = ground (arith, equal_refl key)

  sub_at-other : (k : Bytes) → equal k key ≡ false → sub_at d key 1 k ≡ d k
  sub_at-other k q = ground arith

-- The pool against the leases held and the dials that run.
pub record PoolOk (held_of : Bytes → ℕ → ℕ) (dialing : Bytes → ℕ) (next : ℕ) (p : Pool)
    : Type 0 where
  -- an entry counts the leases of its resource, at most one if it is exclusive
  pub counted : (k : Bytes) → Counted (held_of k) 0 next (p.entries k)
  pub pending_ok : (k : Bytes) → p.pending k ≡ pos (dialing k)
  pub cap : (k : Bytes) → pos (length (p.entries k) + dialing k) ≤ℤ p.max_connections

module _ (h : Bytes → ℕ → ℕ) (d : Bytes → ℕ) (n : ℕ) (p : Pool) (ok : PoolOk h d n p) where
  -- New entries of one key, no longer than the old ones.
  pub replaced-PoolOk :
      (key : Bytes) (es : List Entry) (closed_resources : List ℕ) (h' : Bytes → ℕ → ℕ)
      → Counted (h' key) 0 n es
      → length es ≤ length (p.entries key)
      → ((k : Bytes) → equal k key ≡ false → (r : ℕ) → h' k r ≡ h k r)
      → PoolOk h' d n
          (record p { entries = assign p.entries key es; closed_resources = closed_resources })
  replaced-PoolOk key es cs h' c le same = record {
    counted =
        assigned (λ k xs. Counted (h' k) 0 n xs) p.entries key es c
          (λ k q. ext-Counted (h k) (h' k) 0 n (p.entries k) (λ r l. same k q r) (ok.counted k));
    pending_ok = ok.pending_ok;
    cap =
        assigned (λ k xs. pos (length xs + d k) ≤ℤ p.max_connections) p.entries key es
          (omega (arith, ok.cap key)) (λ k q. ok.cap k);
  }

  expire-PoolOk : (key : Bytes) (now : ℤ) → PoolOk h d n (expire p key now)
  unfolding expire
  expire-PoolOk key now =
      replaced-PoolOk key _ _ h
        (reap-Counted (h key) 0 n _
          (retire_expired-Counted (h key) p now 0 n (p.entries key) (ok.counted key)))
        (omega (
          arith,
          length-reap (retire_expired p now (p.entries key)),
          length-retire_expired p now (p.entries key),
        ))
        (λ k q r. refl)

  pub signal-PoolOk : PoolOk h d n (signal p)
  unfolding signal
  signal-PoolOk = either p.closed
    where
      either : (b : Bool) → PoolOk h d n (if b then p else record p { signals = p.signals + 1 })
      either true = ok
      either false = record { counted = ok.counted; pending_ok = ok.pending_ok; cap = ok.cap }

-- One more lease of a resource of a key, as `holds` counts it.
abbrev pub IsHeldMore : Bytes → ℕ → (Bytes → ℕ → ℕ) → (Bytes → ℕ → ℕ) → Type 0
IsHeldMore key r h h' =
    (k : Bytes) (i : ℕ) → h' k i ≡ h k i + (if equal k key && i == r then 1 else 0)

-- What a section of `Acquire` leaves, for each of its answers.
unfoldable pub ResultOk : (Bytes → ℕ → ℕ) → (Bytes → ℕ) → ℕ → Bytes → Pool × Acquired → Type 0
ResultOk h d n key (p, leased l) =
    (l.key ≡ key)
    × (l.resource < n)
    × ((h' : Bytes → ℕ → ℕ) → IsHeldMore key l.resource h h' → PoolOk h' d n p)
ResultOk h d n key (p, dials) = PoolOk h (add_at d key 1) n p
ResultOk h d n key (p, _) = PoolOk h d n p

pub same-elsewhere :
    (key : Bytes) (r : ℕ) (h h' : Bytes → ℕ → ℕ)
    → IsHeldMore key r h h'
    → (k : Bytes) → equal k key ≡ false
    → (i : ℕ) → h' k i ≡ h k i
same-elsewhere key r h h' more k q i = ground (arith, more k i, q)

pub more-here :
    (key : Bytes) (r : ℕ) (h h' : Bytes → ℕ → ℕ)
    → IsHeldMore key r h h'
    → IsOneMore r (h key) (h' key)
more-here key r h h' more i = ground (arith, more key i, equal_refl key)

module _ (h : Bytes → ℕ → ℕ) (d : Bytes → ℕ) (n : ℕ) (key : Bytes) where
  dial_or_wait-ResultOk : (p : Pool) → PoolOk h d n p → ResultOk h d n key (dial_or_wait p key)
  unfolding dial_or_wait ResultOk
  dial_or_wait-ResultOk p ok =
      elim (Bool-cases (ltb_ℤ (pos (length (p.entries key)) +ℤ p.pending key) p.max_connections)) [
        | inl q ↦ rw q (record {
          counted = ok.counted;
          pending_ok =
              assigned (λ k a. a ≡ pos (add_at d key 1 k)) p.pending key (p.pending key +ℤ pos 1)
                (one_more (p.pending key) (d key) (ok.pending_ok key)
                  ∙ ap pos (sym (add_at-key d key)))
                (λ k e. ok.pending_ok k ∙ ap pos (sym (add_at-other d key k e)));
          cap =
              split-key (λ k. pos (length (p.entries k) + add_at d key 1 k) ≤ℤ p.max_connections)
                key
                (room (length (p.entries key)) (d key) (add_at d key 1 key) (p.pending key)
                  p.max_connections (ok.pending_ok key) (add_at-key d key) q)
                (λ k e. ground (arith, ok.cap k, add_at-other d key k e));
        })
        | inr q ↦ rw q ok
      ]

  with_candidate-ResultOk :
      (p : Pool) (t : List Entry × Option Entry)
      → PoolOk h d n p
      → length t.0 ≡ length (p.entries key)
      → TakeOk (h key) 0 n t
      → ResultOk h d n key (with_candidate p key t)
  unfolding with_candidate
  with_candidate-ResultOk p (es, none) ok q c =
      dial_or_wait-ResultOk _ (
        replaced-PoolOk h d n p ok key es p.closed_resources h c (omega (arith, q)) (λ k e r. refl))
  with_candidate-ResultOk p (es, some e) ok q (l, u, c) =
      unfold ResultOk in
      (
        refl,
        u,
        λ h' more.
            replaced-PoolOk h d n p ok key es p.closed_resources h'
              (c (h' key) (more-here key e.resource h h' more)) (omega (arith, q))
              (same-elsewhere key e.resource h h' more),
      )

  guarded-ResultOk :
      (a b : Bool) (p q : Pool) (t : Pool × Acquired)
      → PoolOk h d n p
      → PoolOk h d n q
      → ResultOk h d n key t
      → ResultOk h d n key (if a then (p, context_over) else if b then (q, pool_closed) else t)
  unfolding ResultOk
  guarded-ResultOk true b p q t x y z = x
  guarded-ResultOk false true p q t x y z = y
  guarded-ResultOk false false p q t x y z = z

  pub acquire-ResultOk :
      (p : Pool) (ended : Bool) (now : ℤ) (reusable : ℕ → Bool)
      → PoolOk h d n p
      → ResultOk h d n key (acquire p key ended now reusable)
  unfolding acquire
  acquire-ResultOk p ended now reusable ok =
      let after = expire-PoolOk h d n p ok key now in
      let es = (expire p key now).entries key in
      guarded-ResultOk ended p.closed p (expire p key now) _ ok after (
        with_candidate-ResultOk (expire p key now) (take_available reusable es) after
          (length-take_available reusable es)
          (take_available-TakeOk (h key) reusable 0 n es (after.counted key)))

module _ (h : Bytes → ℕ → ℕ) (d : Bytes → ℕ) (n : ℕ) (key : Bytes) (p : Pool)
    (ok : PoolOk h d n p) where
  pub dial_settled-PoolOk : 0 < d key → PoolOk h (sub_at d key 1) n (dial_settled p key)
  dial_settled-PoolOk l =
      signal-PoolOk h (sub_at d key 1) n (with_pending p key (p.pending key -ℤ pos 1)) (record {
        counted = ok.counted;
        pending_ok =
            assigned (λ k a. a ≡ pos (sub_at d key 1 k)) p.pending key (p.pending key -ℤ pos 1)
              (one_less (p.pending key) (d key) (ok.pending_ok key) l
                ∙ ap pos (sym (sub_at-key d key)))
              (λ k e. ok.pending_ok k ∙ ap pos (sym (sub_at-other d key k e)));
        cap =
            split-key (λ k. pos (length (p.entries k) + sub_at d key 1 k) ≤ℤ p.max_connections) key
              (ground (arith, ok.cap key, sub_at-key d key))
              (λ k e. ground (arith, ok.cap k, sub_at-other d key k e));
      })
