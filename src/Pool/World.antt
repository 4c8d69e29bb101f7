-- ===== src/Pool/World.antt =====
-- internal/pool/pool.go: the pool with all leases ever given and the dials that are running, and the
-- schedules of its sections. A lease is released by any number of `Release` calls, of which the first
-- one counts.
use repost_go.Pool.{
  Pool, Mode, Lease, Acquired, leased, dials, acquire, after_dial, release, close, new_pool,
}
use repost_go.Prelude.Int.{ℤ}
use repost_go.Prelude.{
  ℕ, ◌+◌, ◌-◌, Bool, true, false, Option, none, some, List, [], ◌∷◌, Bytes, equal, ltb, set,
  get_elem?, total, ◌&&◌, ◌==◌, if◌then◌else◌,
}

pub record Holder : Type 0 where
  pub lease : Lease
  pub released : Bool

-- `next` is the number of the next resource.
pub record World : Type 0 where
  pub pool : Pool
  pub holders : List Holder
  pub dialing : Bytes → ℕ
  pub next : ℕ

pub data Event : Type 0 where
  acquires : Bytes → Bool → ℤ → (ℕ → Bool) → Event
  dial_ends : Bytes → Option Mode → ℤ → Event
  releases : ℕ → Bool → ℤ → Event
  closes : List Bytes → Event

abbrev pub add_at : (Bytes → ℕ) → Bytes → ℕ → Bytes → ℕ
add_at f key n k = if equal k key then f k + n else f k

abbrev pub sub_at : (Bytes → ℕ) → Bytes → ℕ → Bytes → ℕ
sub_at f key n k = if equal k key then f k - n else f k

-- The caller keeps what `Acquire` gave it.
unfoldable pub enter : World → Bytes → Pool × Acquired → World
enter w key (p, leased l) = record w {
  pool = p;
  holders = record { lease = l; released = false } ∷ w.holders;
}
enter w key (p, dials) = record w { pool = p; dialing = add_at w.dialing key 1 }
enter w key (p, _) = record w { pool = p }

abbrev pub dialed : ℕ → Option Mode → Option (ℕ × Mode)
dialed n none = none
dialed n (some m) = some (n, m)

unfoldable pub end_dial : World → Bytes → Option Mode → ℤ → World
end_dial w key mode now =
    if ltb 0 (w.dialing key)
    then enter (record w { dialing = sub_at w.dialing key 1; next = w.next + 1 }) key
        (after_dial w.pool key (dialed w.next mode) now)
    else w

unfoldable pub release_holder : World → ℕ → Bool → ℤ → Option Holder → World
release_holder w i reusable now none = w
release_holder w i reusable now (some h) = if h.released then w else record w {
  pool = release w.pool h.lease reusable now;
  holders = set w.holders i (record h { released = true });
}

unfoldable pub step : World → Event → World
step w (acquires key ended now reusable) = enter w key (acquire w.pool key ended now reusable)
step w (dial_ends key mode now) = end_dial w key mode now
step w (releases i reusable now) = release_holder w i reusable now (get_elem? w.holders i)
step w (closes keys) = record w { pool = close w.pool keys }

unfoldable pub run : World → List Event → World
run w [] = w
run w (e ∷ es) = run (step w e) es

abbrev pub initial : ℤ → ℤ → ℤ → World
initial max_connections lifetime idle_timeout = record {
  pool = new_pool max_connections lifetime idle_timeout;
  holders = [];
  dialing = λ k. 0;
  next = 0;
}

-- The leases of a resource that are not released.
abbrev pub holds : Bytes → ℕ → Holder → ℕ
holds key resource h =
    if h.released then 0 else if equal key h.lease.key && resource == h.lease.resource then 1 else 0

abbrev pub held : World → Bytes → ℕ → ℕ
held w key resource = total (holds key resource) w.holders
