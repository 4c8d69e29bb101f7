-- ===== src/Pool/Exhausted.antt =====
-- internal/pool/pool.go: what the connections of an origin are while `Acquire` waits, under schedules.
use mathlib.Core.Path.{subst}
use repost_go.Pool.Entries.{EntryOk, Counted-All}
use repost_go.Pool.Invariant.{PoolOk, acquire-ResultOk}
use repost_go.Pool.Limits.{run-Inv, initial-Inv, acquire-max, run-max, new_pool-max}
use repost_go.Pool.Schedules.{Inv, enter-Inv}
use repost_go.Pool.Waiting.{IsExhausted, acquire-IsExhausted}
use repost_go.Pool.World.{World, Event, enter, run, initial, held}
use repost_go.Pool.{
  Pool, Mode, Entry, Acquired, leased, pool_closed, context_over, dial_failed, dials, waits,
  acquire, is_available, is_shared,
}
use repost_go.Prelude.Int.{ℤ, pos, ◌≤ℤ◌, ◌+ℤ◌, leb_ℤ}
use repost_go.Prelude.{
  ℕ, ◌+◌, ◌≤◌, ◌≡◌, refl, ◌∙◌, ◌⊎◌, inl, inr, Bool, true, false, not, ◌&&◌, ◌||◌, List, [], ◌∷◌,
  Bytes, length, All, arith,
}

-- A connection that is retiring, or is exclusive and leased by exactly one holder.
abbrev pub IsTaken : ℕ → Entry → Type 0
IsTaken n e = (e.retiring ≡ true) ⊎ ((e.mode ≡ Mode.exclusive) × (n ≡ 1))

one_lease :
    (n : ℕ) (a : ℤ) → a ≡ pos n → n ≤ 1 → (leb_ℤ a (pos 0) && leb_ℤ (pos 0) a) ≡ false → n ≡ 1
one_lease n a e l h = ground arith

taken_of :
    (n : ℕ) (retiring : Bool) (mode : Mode) (active : ℤ)
    → active ≡ pos n
    → (mode ≡ Mode.exclusive → n ≤ 1)
    → (not retiring && (is_shared mode || (leb_ℤ active (pos 0) && leb_ℤ (pos 0) active))) ≡ false
    → (retiring ≡ true) ⊎ ((mode ≡ Mode.exclusive) × (n ≡ 1))
taken_of n true mode active a x h = inl refl
taken_of n false Mode.shared active a x h = absurd (cc)
taken_of n false Mode.exclusive active a x h = inr (refl, one_lease n active a (x refl) h)

unavailable-IsTaken : (n : ℕ) (e : Entry) → EntryOk n e → is_available e ≡ false → IsTaken n e
unavailable-IsTaken n e (a, x) h = taken_of n e.retiring e.mode e.active a x h

All-IsTaken :
    (h : ℕ → ℕ) (es : List Entry)
    → All (λ e. EntryOk (h e.resource) e) es
    → All (λ e. is_available e ≡ false) es
    → All (λ e. IsTaken (h e.resource) e) es
All-IsTaken h [] a b = tt
All-IsTaken h (e ∷ es) a b =
    (unavailable-IsTaken (h e.resource) e a.0 b.0, All-IsTaken h es a.1 b.1)

enter-waits :
    (w : World) (key : Bytes) (t : Pool × Acquired)
    → t.1 ≡ waits
    → enter w key t ≡ record w { pool = t.0 }
unfolding enter
enter-waits w key (p, waits) h = refl
enter-waits w key (p, leased l) h = absurd (cc)
enter-waits w key (p, dials) h = absurd (cc)
enter-waits w key (p, pool_closed) h = absurd (cc)
enter-waits w key (p, context_over) h = absurd (cc)
enter-waits w key (p, dial_failed) h = absurd (cc)

at_cap :
    (l d : ℕ) (top pending m : ℤ)
    → pos (l + d) ≤ℤ top
    → top ≤ℤ pos l +ℤ pending
    → pending ≡ pos d
    → top ≡ m
    → pos (l + d) ≡ m
unfolding ◌+ℤ◌
at_cap l d top pending m a b c e = ground arith

-- After any schedule from a new pool with a non-negative cap, `Acquire` waits only where its context has
-- not ended and the pool is not closed; the connections of the origin that are left and the dials that
-- run for it are then exactly as many as the cap, and each of these connections is retiring, or is exclusive
-- and has exactly one lease that is not released.
pub acquire-IsTaken :
    (max_connections lifetime idle_timeout : ℤ) (es : List Event) (key : Bytes) (ended : Bool)
    (now : ℤ) (reusable : ℕ → Bool)
    → pos 0 ≤ℤ max_connections
    → (acquire
        (run (initial max_connections lifetime idle_timeout) es).pool
        key
        ended
        now
        reusable).1
      ≡ waits
    → let w = run (initial max_connections lifetime idle_timeout) es in
      let p = (acquire w.pool key ended now reusable).0 in
      (ended ≡ false)
      × (w.pool.closed ≡ false)
      × (pos (length (p.entries key) + w.dialing key) ≡ max_connections)
      × All (λ e. IsTaken (held w key e.resource) e) (p.entries key)
unfolding IsExhausted
acquire-IsTaken m l i es key ended now reusable h e =
    let w : World = run (initial m l i) es in
    let t : Pool × Acquired = acquire w.pool key ended now reusable in
    let v : Inv w = run-Inv es (initial m l i) (initial-Inv m l i h) in
    let u : Inv (record w { pool = t.0 }) = subst Inv (enter-waits w key t e) (
      enter-Inv w key t v.fresh
        (acquire-ResultOk (held w) w.dialing w.next key w.pool ended now reusable v.pool_ok)) in
    let ok : PoolOk (held w) w.dialing w.next t.0 = u.pool_ok in
    let top : t.0.max_connections ≡ m =
      acquire-max w.pool key ended now reusable ∙ run-max es (initial m l i) ∙ new_pool-max m l i in
    let (a, b, full) = acquire-IsExhausted w.pool key ended now reusable e in
    (
      a,
      b,
      at_cap (length (t.0.entries key)) (w.dialing key) t.0.max_connections (t.0.pending key) m
          (ok.cap key) full.0 (ok.pending_ok key) top,
      All-IsTaken (held w key) (t.0.entries key)
          (Counted-All (held w key) 0 w.next (t.0.entries key) (ok.counted key)) full.1,
    )
