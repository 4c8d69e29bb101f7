-- ===== src/Tests/Connections.antt =====
-- internal/pool/pool.go: the theorems on the pool at concrete inputs.
use repost_go.Pool.Entries.{EntryOk, IsListed}
use repost_go.Pool.Limits.{run-EntryOk}
use repost_go.Pool.Exhausted.{acquire-IsTaken, IsTaken}
use repost_go.Pool.World.{
  World, Event, acquires, dial_ends, releases, initial, run, step, held, enter, end_dial,
  release_holder,
}
use repost_go.Pool.{
  Mode, waits, acquire, after_dial, release, new_pool, assign, expire, retire_expired, reap, reaped,
  is_expired, take_available, with_candidate, dial_or_wait, signal, release_entry,
}
use repost_go.Prelude.Int.{pos, ◌+ℤ◌, ◌-ℤ◌, ◌≤ℤ◌, sat64}
use repost_go.Prelude.{
  ℕ, ◌+◌, ◌<◌, ◌≡◌, refl, true, false, some, List, [], ◌∷◌, Bytes, length, equal, arith, All,
}

abbrev origin : Bytes
origin = b'h' ∷ []

-- Two callers and a cap of one: the second one gets the first one's session, then both release it.
abbrev schedule : List Event
schedule =
    acquires origin false (pos 10) (λ r. true)
    ∷ dial_ends origin (some Mode.shared) (pos 20)
    ∷ acquires origin false (pos 30) (λ r. true)
    ∷ releases 0 true (pos 40)
    ∷ releases 1 true (pos 50)
    ∷ []

abbrev before_close : World
before_close = run (initial (pos 1) (pos 1_000) (pos 100)) schedule

run-EntryOk_example :
    let w = run (initial (pos 1) (pos 1_000) (pos 100)) schedule in
    (pos (length (w.pool.entries origin) + w.dialing origin) ≤ℤ pos 1)
    × All (λ e. EntryOk (held w origin e.resource) e) (w.pool.entries origin)
    × ((r : ℕ) → 0 < held w origin r → IsListed r (w.pool.entries origin))
run-EntryOk_example = run-EntryOk (pos 1) (pos 1_000) (pos 100) schedule origin (omega arith)

-- The session is idle, but its peer has closed it: it is not handed out, and it still counts for the
-- cap, so the next caller waits although no lease is held and no dial runs.
waits_for_nobody : (acquire before_close.pool origin false (pos 60) (λ r. false)).1 ≡ waits
unfolding run step acquire end_dial enter release_holder after_dial release new_pool assign expire
    retire_expired reap reaped is_expired take_available with_candidate dial_or_wait signal
    release_entry sat64 ◌+ℤ◌ ◌-ℤ◌ equal
waits_for_nobody = refl

nobody_holds : (held before_close origin 0 ≡ 0) × (before_close.dialing origin ≡ 0)
unfolding run step acquire end_dial enter release_holder after_dial release new_pool assign expire
    retire_expired reap reaped is_expired take_available with_candidate dial_or_wait signal
    release_entry sat64 ◌+ℤ◌ ◌-ℤ◌ equal
nobody_holds = (refl, refl)

acquire-IsTaken_example :
    let w = run (initial (pos 1) (pos 1_000) (pos 100)) schedule in
    let p = (acquire w.pool origin false (pos 60) (λ r. false)).0 in
    (false ≡ false)
    × (w.pool.closed ≡ false)
    × (pos (length (p.entries origin) + w.dialing origin) ≡ pos 1)
    × All (λ e. IsTaken (held w origin e.resource) e) (p.entries origin)
acquire-IsTaken_example =
    acquire-IsTaken (pos 1) (pos 1_000) (pos 100) schedule origin false (pos 60) (λ r. false)
      (omega arith) waits_for_nobody
