-- ===== src/Pool/Limits.antt =====
-- internal/pool/pool.go: the cap on connections and the leases of each, under schedules.
use mathlib.Core.Path.{subst}
use repost_go.Pool.Entries.{EntryOk, Counted-All, Counted-empty, IsListed, Counted-IsListed}
use repost_go.Pool.Invariant.{IsHeldMore, acquire-ResultOk}
use repost_go.Pool.Schedules.{
  Inv, leases, after_dial-ResultOk, signal-max, release-PoolOk, close-PoolOk, enter-Inv,
}
use repost_go.Pool.World.{
  World, Holder, Event, acquires, dial_ends, releases, closes, enter, dialed, end_dial,
  release_holder, step, run, initial, holds, held, sub_at,
}
use repost_go.Pool.{
  Pool, Mode, Entry, Lease, Acquired, leased, pool_closed, context_over, dial_failed, dials, waits,
  acquire, after_dial, release, close, new_pool, with_candidate, dial_or_wait, expire,
  take_available, with_pending,
}
use repost_go.Prelude.Int.{ℤ, pos, ◌-ℤ◌, ◌≤ℤ◌}
use repost_go.Prelude.{
  ℕ, ◌+◌, ◌<◌, ◌≡◌, refl, ◌∙◌, Bool, true, false, Option, none, some, List, [], ◌∷◌, Bytes, length,
  arith, All, total-set, set, get_elem?, ltb, Bool-cases, inl, inr,
}

end_dial-Inv :
    (w : World) (key : Bytes) (mode : Option Mode) (now : ℤ) → Inv w → Inv (end_dial w key mode now)
unfolding end_dial
end_dial-Inv w key mode now v = elim (Bool-cases (ltb 0 (w.dialing key))) [
  | inl q ↦ rw q (
      enter-Inv (record w { dialing = sub_at w.dialing key 1; next = w.next + 1 }) key _
        (λ k r le. v.fresh k r (omega arith))
        (after_dial-ResultOk (held w) w.dialing w.next key w.pool mode now v.pool_ok
          (v.fresh key w.next (omega arith)) (ground (arith, q))))
  | inr q ↦ rw q v
]

-- The lease at a place of the list of holders is released.
released-IsHeldMore :
    (hs : List Holder) (i : ℕ) (x : Holder)
    → get_elem? hs i ≡ some x
    → x.released ≡ false
    → IsHeldMore x.lease.key x.lease.resource
        (leases (set hs i (record x { released = true })))
        (leases hs)
released-IsHeldMore hs i x e q k r =
    ground (arith, total-set (holds k r) hs i x (record x { released = true }) e)

release_holder-Inv :
    (w : World) (i : ℕ) (reusable : Bool) (now : ℤ) (o : Option Holder)
    → get_elem? w.holders i ≡ o
    → Inv w
    → Inv (release_holder w i reusable now o)
unfolding release_holder
release_holder-Inv w i reusable now none e v = v
release_holder-Inv w i reusable now (some x) e v = elim (Bool-cases x.released) [
  | inl q ↦ rw q v
  | inr q ↦
      let less = released-IsHeldMore w.holders i x e q in
      rw q (record {
        pool_ok =
            release-PoolOk (held w) w.dialing w.next w.pool v.pool_ok x.lease reusable now _ less;
        fresh = λ k r le. ground (arith, less k r, v.fresh k r le);
      })
]

step-Inv : (w : World) (e : Event) → Inv w → Inv (step w e)
unfolding step
step-Inv w (acquires key ended now reusable) v =
    enter-Inv w key _ v.fresh
      (acquire-ResultOk (held w) w.dialing w.next key w.pool ended now reusable v.pool_ok)
step-Inv w (dial_ends key mode now) v = end_dial-Inv w key mode now v
step-Inv w (releases i reusable now) v = release_holder-Inv w i reusable now _ refl v
step-Inv w (closes keys) v = record {
  pool_ok = close-PoolOk (held w) w.dialing w.next w.pool v.pool_ok keys;
  fresh = v.fresh;
}

pub run-Inv : (es : List Event) (w : World) → Inv w → Inv (run w es)
unfolding run
run-Inv [] w v = v
run-Inv (e ∷ es) w v = run-Inv es (step w e) (step-Inv w e v)

pub initial-Inv : (m l i : ℤ) → pos 0 ≤ℤ m → Inv (initial m l i)
unfolding new_pool
initial-Inv m l i h = record {
  pool_ok = record {
    counted = λ k. Counted-empty (λ r. 0) 0 (λ r. refl);
    pending_ok = λ k. refl;
    cap = λ k. omega (arith, h);
  };
  fresh = λ k r le. refl;
}

with_candidate-max :
    (p : Pool) (key : Bytes) (t : List Entry × Option Entry)
    → (with_candidate p key t).0.max_connections ≡ p.max_connections
unfolding with_candidate dial_or_wait
with_candidate-max p key (es, none) = ground arith
with_candidate-max p key (es, some e) = refl

pub acquire-max :
    (p : Pool) (key : Bytes) (ended : Bool) (now : ℤ) (reusable : ℕ → Bool)
    → (acquire p key ended now reusable).0.max_connections ≡ p.max_connections
unfolding acquire expire
acquire-max p key ended now reusable = ground (
  arith,
  with_candidate-max (expire p key now) key
      (take_available reusable ((expire p key now).entries key)),
)

after_dial-max :
    (p : Pool) (key : Bytes) (o : Option (ℕ × Mode)) (now : ℤ)
    → (after_dial p key o now).0.max_connections ≡ p.max_connections
unfolding after_dial
after_dial-max p key none now = signal-max _
after_dial-max p key (some (r, m)) now =
    ground (arith, signal-max (with_pending p key (p.pending key -ℤ pos 1)))

enter-max :
    (w : World) (key : Bytes) (t : Pool × Acquired)
    → (enter w key t).pool.max_connections ≡ t.0.max_connections
unfolding enter
enter-max w key (p, leased l) = refl
enter-max w key (p, dials) = refl
enter-max w key (p, pool_closed) = refl
enter-max w key (p, context_over) = refl
enter-max w key (p, dial_failed) = refl
enter-max w key (p, waits) = refl

release-max :
    (p : Pool) (l : Lease) (reusable : Bool) (now : ℤ)
    → (release p l reusable now).max_connections ≡ p.max_connections
unfolding release
release-max p l reusable now = signal-max _

release_holder-max :
    (w : World) (i : ℕ) (reusable : Bool) (now : ℤ) (o : Option Holder)
    → (release_holder w i reusable now o).pool.max_connections ≡ w.pool.max_connections
unfolding release_holder
release_holder-max w i reusable now none = refl
release_holder-max w i reusable now (some h) =
    ground (arith, release-max w.pool h.lease reusable now)

step-max : (w : World) (e : Event) → (step w e).pool.max_connections ≡ w.pool.max_connections
unfolding step end_dial close
step-max w (acquires key ended now reusable) =
    enter-max w key _ ∙ acquire-max w.pool key ended now reusable
step-max w (dial_ends key mode now) = ground (
  arith,
  enter-max (record w { dialing = sub_at w.dialing key 1; next = w.next + 1 }) key
      (after_dial w.pool key (dialed w.next mode) now),
  after_dial-max w.pool key (dialed w.next mode) now,
)
step-max w (releases i reusable now) = release_holder-max w i reusable now _
step-max w (closes keys) = ground arith

pub run-max :
    (es : List Event) (w : World) → (run w es).pool.max_connections ≡ w.pool.max_connections
unfolding run
run-max [] w = refl
run-max (e ∷ es) w = run-max es (step w e) ∙ step-max w e

pub new_pool-max : (m l i : ℤ) → (new_pool m l i).max_connections ≡ m
unfolding new_pool
new_pool-max m l i = refl

-- Under every schedule of acquisitions, dials, releases and closes, from a new pool with a
-- non-negative cap: the connections of an origin and the dials that run for it are together within
-- the cap; each connection counts exactly its leases that are not released, of which an exclusive
-- connection has at most one; and whatever a lease holds that is not released is still in the pool.
pub run-EntryOk :
    (max_connections lifetime idle_timeout : ℤ) (es : List Event) (key : Bytes)
    → pos 0 ≤ℤ max_connections
    → let w = run (initial max_connections lifetime idle_timeout) es in
      (pos (length (w.pool.entries key) + w.dialing key) ≤ℤ max_connections)
      × All (λ e. EntryOk (held w key e.resource) e) (w.pool.entries key)
      × ((r : ℕ) → 0 < held w key r → IsListed r (w.pool.entries key))
run-EntryOk m l i es key h =
    let w = run (initial m l i) es in
    let top = run-max es (initial m l i) ∙ new_pool-max m l i in
    let ok = (run-Inv es (initial m l i) (initial-Inv m l i h)).pool_ok in
    (
      subst (λ z. pos (length (w.pool.entries key) + w.dialing key) ≤ℤ z) top (ok.cap key),
      Counted-All (held w key) 0 w.next (w.pool.entries key) (ok.counted key),
      λ r u.
          Counted-IsListed (held w key) 0 w.next r (w.pool.entries key) (ok.counted key)
            (omega arith) u,
    )
