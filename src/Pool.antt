-- ===== src/Pool.antt =====
-- internal/pool/pool.go: the pool of raw connections and sessions, per origin. A function here is one
-- section under the mutex; `Acquire` is a section, a dial and a second section. A resource is a
-- number, and an entry is known by the number of its resource, as by its address in the source.
pub mod World
pub mod Entries
pub mod Invariant
pub mod Schedules
pub mod Limits
pub mod Waiting
pub mod Exhausted
use repost_go.Prelude.Int.{ℤ, pos, ◌+ℤ◌, ◌-ℤ◌, leb_ℤ, ltb_ℤ, sat64}
use repost_go.Prelude.{
  ℕ, ◌+◌, ◌%◌, Bool, true, false, not, ◌&&◌, ◌||◌, Option, none, some, List, [], ◌∷◌, ◌++◌, Bytes,
  length, equal, ltb, ◌==◌, if◌then◌else◌,
}

pub data Mode : Type 0 where
  exclusive shared : Mode

-- Times are nanoseconds.
pub record Entry : Type 0 where
  pub resource : ℕ
  pub mode : Mode
  pub created_at : ℤ
  pub last_idle_at : ℤ
  pub active : ℤ
  pub acquisitions : ℕ
  pub retiring : Bool

-- `released` is the `sync.Once`, in the world that holds the lease.
pub record Lease : Type 0 where
  pub key : Bytes
  pub resource : ℕ
  pub reused : Bool

-- A key that is missing in a map of the source has no entries, and no pending dials. `closed_resources`
-- holds each resource on which the pool called `Close`, the last one first; `signals` counts the
-- channels `notify` that were closed.
pub record Pool : Type 0 where
  pub max_connections : ℤ
  pub lifetime : ℤ
  pub idle_timeout : ℤ
  pub entries : Bytes → List Entry
  pub pending : Bytes → ℤ
  pub signals : ℕ
  pub closed : Bool
  pub closed_resources : List ℕ

-- An assignment to one key of a map.
unfoldable pub assign {ℓ} : {A : Type ℓ} → (Bytes → A) → Bytes → A → Bytes → A
unfolding equal
assign f key v k = if equal k key then v else f k

unfoldable pub new_pool : ℤ → ℤ → ℤ → Pool
new_pool max_connections lifetime idle_timeout = record {
  max_connections = max_connections;
  lifetime = lifetime;
  idle_timeout = idle_timeout;
  entries = λ k. [];
  pending = λ k. pos 0;
  signals = 0;
  closed = false;
  closed_resources = [];
}

-- `signalLocked`
unfoldable pub signal : Pool → Pool
signal p = if p.closed then p else record p { signals = p.signals + 1 }

abbrev pub is_idle : Entry → Bool
is_idle e = leb_ℤ e.active (pos 0) && leb_ℤ (pos 0) e.active

-- The two tests of `expireLocked` on an entry.
unfoldable pub is_expired : Pool → ℤ → Entry → Bool
is_expired p now e =
    leb_ℤ p.lifetime (sat64 (now -ℤ e.created_at))
    || is_idle e && leb_ℤ p.idle_timeout (sat64 (now -ℤ e.last_idle_at))

abbrev pub retire_if : Bool → Entry → Entry
retire_if b e = record e { retiring = e.retiring || b }

-- Entries that are idle and retiring are closed and go; the others are kept.
unfoldable pub reap : List Entry → List Entry
reap [] = []
reap (e ∷ es) = if e.retiring && is_idle e then reap es else e ∷ reap es

unfoldable pub reaped : List Entry → List ℕ
reaped [] = []
reaped (e ∷ es) = if e.retiring && is_idle e then e.resource ∷ reaped es else reaped es

unfoldable pub retire_expired : Pool → ℤ → List Entry → List Entry
retire_expired p now [] = []
retire_expired p now (e ∷ es) = retire_if (is_expired p now e) e ∷ retire_expired p now es

unfoldable pub expire : Pool → Bytes → ℤ → Pool
expire p key now =
    let marked = retire_expired p now (p.entries key) in
    record p {
      entries = assign p.entries key (reap marked);
      closed_resources = reaped marked ++ p.closed_resources;
    }

abbrev pub is_shared : Mode → Bool
is_shared Mode.shared = true
is_shared Mode.exclusive = false

-- The test of `availableLocked`, on an entry already marked by its resource's `Reusable`.
abbrev pub is_available : Entry → Bool
is_available e = not e.retiring && (is_shared e.mode || is_idle e)

abbrev pub taken : Entry → Entry
taken e = record e {
  active = e.active +ℤ pos 1;
  acquisitions = (e.acquisitions + 1) % 18_446_744_073_709_551_616;
}

-- `availableLocked`, with the marks it leaves and the candidate it found, taken as `Acquire` takes it.
-- `reusable` is what the `Reusable` of a resource answers, true where it has none.
unfoldable pub take_available : (ℕ → Bool) → List Entry → List Entry × Option Entry
take_available reusable [] = ([], none)
take_available reusable (e ∷ es) =
    let (rest, found) = take_available reusable es in
    let marked = retire_if (not (reusable e.resource)) e in
    if is_available marked then (taken marked ∷ es, some (taken marked)) else (marked ∷ rest, found)

pub data Acquired : Type 0 where
  leased : Lease → Acquired
  pool_closed : Acquired
  -- the context has ended, or the dial failed with this error
  context_over : Acquired
  dial_failed : Acquired
  -- the caller goes on to dial
  dials : Acquired
  -- the caller waits for the next signal, or for the end of its context
  waits : Acquired

abbrev pub with_pending : Pool → Bytes → ℤ → Pool
with_pending p key n = record p { pending = assign p.pending key n }

-- No candidate: dial under the cap, or wait.
unfoldable pub dial_or_wait : Pool → Bytes → Pool × Acquired
dial_or_wait p key =
    if ltb_ℤ (pos (length (p.entries key)) +ℤ p.pending key) p.max_connections
    then (with_pending p key (p.pending key +ℤ pos 1), dials)
    else (p, waits)

unfoldable pub with_candidate : Pool → Bytes → List Entry × Option Entry → Pool × Acquired
with_candidate p key (es, some e) = (
  record p { entries = assign p.entries key es },
  leased (record { key = key; resource = e.resource; reused = ltb 1 e.acquisitions }),
)
with_candidate p key (es, none) = dial_or_wait (record p { entries = assign p.entries key es }) key

-- One turn of the loop of `Acquire`, up to the dial or the wait.
unfoldable pub acquire : Pool → Bytes → Bool → ℤ → (ℕ → Bool) → Pool × Acquired
acquire p key context_ended now reusable =
    let expired = expire p key now in
    if context_ended
    then (p, context_over)
    else if p.closed
    then (expired, pool_closed)
    else with_candidate expired key (take_available reusable (expired.entries key))

abbrev pub created : ℕ → Mode → ℤ → Entry
created resource mode now = record {
  resource = resource;
  mode = mode;
  created_at = now;
  last_idle_at = now;
  active = pos 1;
  acquisitions = 1;
  retiring = false;
}

abbrev pub dial_settled : Pool → Bytes → Pool
dial_settled p key = signal (with_pending p key (p.pending key -ℤ pos 1))

-- The section of `Acquire` after the dial, which gave a resource and its mode or failed.
unfoldable pub after_dial : Pool → Bytes → Option (ℕ × Mode) → ℤ → Pool × Acquired
unfolding signal
after_dial p key none now = (dial_settled p key, dial_failed)
after_dial p key (some (resource, mode)) now =
    let q = dial_settled p key in
    if q.closed
    then (record q { closed_resources = resource ∷ q.closed_resources }, pool_closed)
    else (
      record q {
        entries = assign q.entries key (q.entries key ++ (created resource mode now ∷ []));
      },
      leased (record { key = key; resource = resource; reused = false }),
    )

-- The marks of `Release` on the entry of the lease.
abbrev pub settled : Bool → ℤ → Entry → Entry
settled retire now e =
    let f = record (retire_if retire e) { active = e.active -ℤ pos 1 } in
    if is_idle f then record f { last_idle_at = now } else f

-- The entry with its marks, or without it where it is closed: `removeLocked` at the same place.
unfoldable pub release_entry : ℕ → Bool → ℤ → List Entry → List Entry × List ℕ
release_entry resource retire now [] = ([], [])
release_entry resource retire now (e ∷ es) =
    let (rest, closes) = release_entry resource retire now es in
    let f = settled retire now e in
    if e.resource == resource
    then (if is_idle f && f.retiring then (es, e.resource ∷ []) else (f ∷ es, []))
    else (e ∷ rest, closes)

-- `Lease.Release`, the first time. The entry of a lease is in the list of its key until then.
unfoldable pub release : Pool → Lease → Bool → ℤ → Pool
unfolding signal
release p lease reusable now =
    let (es, closes) =
      release_entry lease.resource (not reusable || p.closed) now (p.entries lease.key) in
    signal (record p {
      entries = assign p.entries lease.key es;
      closed_resources = closes ++ p.closed_resources;
    })

unfoldable pub retire_all : List Entry → List Entry
retire_all [] = []
retire_all (e ∷ es) = retire_if true e ∷ retire_all es

-- `Pool.Close`; the resources that it closes are those of the given keys, which are all that have an
-- entry, in the order in which the map yields them.
unfoldable pub closes_of : Pool → List Bytes → List ℕ
unfolding reaped retire_all
closes_of p [] = []
closes_of p (k ∷ ks) = reaped (retire_all (p.entries k)) ++ closes_of p ks

unfoldable pub close : Pool → List Bytes → Pool
unfolding reap retire_all
close p keys = if p.closed then p else record p {
  closed = true;
  signals = p.signals + 1;
  entries = λ k. reap (retire_all (p.entries k));
  closed_resources = closes_of p keys ++ p.closed_resources;
}
