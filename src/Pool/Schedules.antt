-- ===== src/Pool/Schedules.antt =====
-- internal/pool/pool.go: the dial, the release and the close against the leases held.
use mathlib.Core.Path.{subst}
use repost_go.Pool.Entries.Leases.{release_entry-Counted, created-Counted}
use repost_go.Pool.Entries.Lengths.{length-reap, length-retire_all, length-release_entry}
use repost_go.Pool.Entries.{Counted, retire_all-Counted, reap-Counted, widen-Counted, ext-Counted}
use repost_go.Pool.Invariant.{
  PoolOk, ResultOk, IsHeldMore, assigned, replaced-PoolOk, signal-PoolOk, same-elsewhere, more-here,
  dial_settled-PoolOk,
}
use repost_go.Pool.World.{World, Holder, enter, dialed, holds, held, sub_at}
use repost_go.Pool.{
  Pool, Mode, Lease, Acquired, leased, pool_closed, context_over, dial_failed, dials, waits, assign,
  reap, retire_all, with_pending, dial_settled, signal, after_dial, release, close, closes_of,
  created,
}
use repost_go.Prelude.Int.{ℤ, pos, ◌-ℤ◌, ◌≤ℤ◌}
use repost_go.Prelude.{
  ℕ, ◌+◌, ◌≤◌, ◌<◌, ◌≡◌, refl, sym, Bool, true, false, not, ◌||◌, Option, none, some, List, [], ◌∷◌,
  ◌++◌, Bytes, length, length-append, equal_refl, arith, total, if◌then◌else◌,
}

signal-entries : (p : Pool) (key : Bytes) → (signal p).entries key ≡ p.entries key
unfolding signal
signal-entries p key = ground arith

pub signal-max : (p : Pool) → (signal p).max_connections ≡ p.max_connections
unfolding signal
signal-max p = ground arith

widen-PoolOk :
    (h : Bytes → ℕ → ℕ) (d : Bytes → ℕ) (n : ℕ) (p : Pool) → PoolOk h d n p → PoolOk h d (n + 1) p
widen-PoolOk h d n p ok = record {
  counted = λ k. widen-Counted (h k) 0 n (n + 1) (p.entries k) (omega arith) (ok.counted k);
  pending_ok = ok.pending_ok;
  cap = ok.cap;
}

module _ (h : Bytes → ℕ → ℕ) (d : Bytes → ℕ) (n : ℕ) (key : Bytes) (fresh : h key n ≡ 0) where
  appended-PoolOk :
      (q : Pool) (m : Mode) (now : ℤ) (h' : Bytes → ℕ → ℕ)
      → PoolOk h d n q
      → pos (length (q.entries key) + 1 + d key) ≤ℤ q.max_connections
      → IsHeldMore key n h h'
      → PoolOk h' d
          (n + 1)
          (record q { entries = assign q.entries key (q.entries key ++ (created n m now ∷ [])) })
  appended-PoolOk q m now h' ok fits more = record {
    counted =
        assigned (λ k xs. Counted (h' k) 0 (n + 1) xs) q.entries key _
          (created-Counted (h key) (h' key) m now 0 n (q.entries key) (more-here key n h h' more)
            fresh (ok.counted key))
          (λ k e. widen-Counted (h' k) 0 n (n + 1) (q.entries k) (omega arith) (
            ext-Counted (h k) (h' k) 0 n (q.entries k) (λ r l. same-elsewhere key n h h' more k e r)
              (ok.counted k)));
    pending_ok = ok.pending_ok;
    cap =
        assigned (λ k xs. pos (length xs + d k) ≤ℤ q.max_connections) q.entries key _
          (omega (arith, fits, length-append (q.entries key) (created n m now ∷ [])))
          (λ k e. ok.cap k);
  }

  either-ResultOk :
      (b : Bool) (q : Pool) (cs : List ℕ) (m : Mode) (now : ℤ)
      → PoolOk h d n q
      → pos (length (q.entries key) + 1 + d key) ≤ℤ q.max_connections
      → ResultOk h d (n + 1) key (
          if b then (record q { closed_resources = cs }, pool_closed) else (
            record q { entries = assign q.entries key (q.entries key ++ (created n m now ∷ [])) },
            leased (record { key = key; resource = n; reused = false }),
          ))
  unfolding ResultOk
  either-ResultOk true q cs m now ok fits =
      let wide = widen-PoolOk h d n q ok in
      record { counted = wide.counted; pending_ok = wide.pending_ok; cap = wide.cap }
  either-ResultOk false q cs m now ok fits =
      (refl, omega arith, λ h' more. appended-PoolOk q m now h' ok fits more)

fits :
    (h : Bytes → ℕ → ℕ) (d : Bytes → ℕ) (n : ℕ) (key : Bytes) (p : Pool)
    → PoolOk h d n p
    → 0 < d key
    → pos (length ((dial_settled p key).entries key) + 1 + sub_at d key 1 key)
      ≤ℤ (dial_settled p key).max_connections
fits h d n key p ok l =
    let q = with_pending p key (p.pending key -ℤ pos 1) in
    rw (signal-max q, signal-entries q key) (ground (arith, ok.cap key, equal_refl key))

pub after_dial-ResultOk :
    (h : Bytes → ℕ → ℕ) (d : Bytes → ℕ) (n : ℕ) (key : Bytes) (p : Pool) (mode : Option Mode)
    (now : ℤ)
    → PoolOk h d n p
    → h key n ≡ 0
    → 0 < d key
    → ResultOk h (sub_at d key 1) (n + 1) key (after_dial p key (dialed n mode) now)
unfolding after_dial
after_dial-ResultOk h d n key p none now ok z l =
    unfold ResultOk in widen-PoolOk h (sub_at d key 1) n _ (dial_settled-PoolOk h d n key p ok l)
after_dial-ResultOk h d n key p (some m) now ok z l =
    either-ResultOk h (sub_at d key 1) n key z _ (dial_settled p key) _ m now
      (dial_settled-PoolOk h d n key p ok l) (fits h d n key p ok l)

-- The leases held, by key and resource.
abbrev pub leases : List Holder → Bytes → ℕ → ℕ
leases hs k r = total (holds k r) hs

module _ (h : Bytes → ℕ → ℕ) (d : Bytes → ℕ) (n : ℕ) (p : Pool) (ok : PoolOk h d n p) where
  pub release-PoolOk :
      (l : Lease) (reusable : Bool) (now : ℤ) (h' : Bytes → ℕ → ℕ)
      → IsHeldMore l.key l.resource h' h
      → PoolOk h' d n (release p l reusable now)
  unfolding release
  release-PoolOk l reusable now h' less = signal-PoolOk h' d n _ (
      replaced-PoolOk h d n p ok l.key _ _ h'
        (release_entry-Counted (h l.key) (h' l.key) l.resource
          (more-here l.key l.resource h' h less) (not reusable || p.closed) now 0 n
          (p.entries l.key) (ok.counted l.key))
        (length-release_entry l.resource (not reusable || p.closed) now (p.entries l.key))
        (λ k e r. sym (same-elsewhere l.key l.resource h' h less k e r)))

  pub close-PoolOk : (keys : List Bytes) → PoolOk h d n (close p keys)
  unfolding close
  close-PoolOk keys = either p.closed
    where
      either :
          (b : Bool)
          → PoolOk h d n (
              if b then p else record p {
                closed = true;
                signals = p.signals + 1;
                entries = λ k. reap (retire_all (p.entries k));
                closed_resources = closes_of p keys ++ p.closed_resources;
              })
      either true = ok
      either false = record {
        counted = λ k.
            reap-Counted (h k) 0 n _ (retire_all-Counted (h k) 0 n (p.entries k) (ok.counted k));
        pending_ok = ok.pending_ok;
        cap = λ k. omega (
          arith,
          ok.cap k,
          length-reap (retire_all (p.entries k)),
          length-retire_all (p.entries k),
        );
      }

-- What holds of the pool and of everything around it.
pub record Inv (w : World) : Type 0 where
  pub pool_ok : PoolOk (held w) w.dialing w.next w.pool
  pub fresh : (k : Bytes) (r : ℕ) → w.next ≤ r → held w k r ≡ 0

held-cons :
    (l : Lease) (hs : List Holder)
    → IsHeldMore l.key l.resource (leases hs) (leases (record { lease = l; released = false } ∷ hs))
held-cons l hs k r = ground arith

pub enter-Inv :
    (w : World) (key : Bytes) (t : Pool × Acquired)
    → ((k : Bytes) (r : ℕ) → w.next ≤ r → held w k r ≡ 0)
    → ResultOk (held w) w.dialing w.next key t
    → Inv (enter w key t)
unfolding enter ResultOk
enter-Inv w key (p, leased l) fresh (a, b, c) = record {
  pool_ok = c _ (
      subst
        (λ x.
          IsHeldMore x l.resource (leases w.holders)
            (leases (record { lease = l; released = false } ∷ w.holders)))
        a (held-cons l w.holders));
  fresh = λ k r le. ground (arith, fresh k r le);
}
enter-Inv w key (p, dials) fresh ok = record { pool_ok = ok; fresh = fresh }
enter-Inv w key (p, pool_closed) fresh ok = record { pool_ok = ok; fresh = fresh }
enter-Inv w key (p, context_over) fresh ok = record { pool_ok = ok; fresh = fresh }
enter-Inv w key (p, dial_failed) fresh ok = record { pool_ok = ok; fresh = fresh }
enter-Inv w key (p, waits) fresh ok = record { pool_ok = ok; fresh = fresh }
