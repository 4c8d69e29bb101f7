-- ===== src/Pool/Entries.antt =====
-- internal/pool/pool.go: what the sections do to the entries of one key, against the leases held.
pub mod Leases
pub mod Lengths
use repost_go.Pool.{
  Pool, Mode, Entry, is_idle, retire_if, reap, retire_expired, retire_all, take_available, taken,
  is_available, settled, release_entry, created,
}
use mathlib.Core.Path.{subst}
use repost_go.Prelude.Int.{ℤ, pos, ◌+ℤ◌, ◌-ℤ◌}
use repost_go.Prelude.{
  ℕ, suc, ◌+◌, ◌≤◌, ◌<◌, ◌≡◌, refl, ap, sym, ◌∙◌, ltb, Bool, true, false, not, ◌&&◌, Option, none,
  some, List, [], ◌∷◌, ◌++◌, length, arith, All, ◌==◌, if◌then◌else◌, Bool-cases, ◌⊎◌, inl, inr,
}

-- An entry counts its leases, and has at most one where it is exclusive.
abbrev pub EntryOk : ℕ → Entry → Type 0
EntryOk n e = (e.active ≡ pos n) × (e.mode ≡ Mode.exclusive → n ≤ 1)

-- The entries of a key against the leases held of each resource; the resources increase from `lo`,
-- below `hi`. A resource from `lo` on that has no entry has no lease.
pub Counted : (ℕ → ℕ) → ℕ → ℕ → List Entry → Type 0
Counted h lo hi [] = (lo ≤ hi) × ((r : ℕ) → lo ≤ r → h r ≡ 0)
Counted h lo hi (e ∷ es) =
    ((lo ≤ e.resource) × ((r : ℕ) → lo ≤ r → r < e.resource → h r ≡ 0))
    × EntryOk (h e.resource) e
    × Counted h (suc e.resource) hi es

-- A gap and the resource behind it.
gap-with :
    (h : ℕ → ℕ) (lo x : ℕ)
    → ((r : ℕ) → lo ≤ r → r < x → h r ≡ 0)
    → h x ≡ 0
    → (r : ℕ) → lo ≤ r
    → r < suc x
    → h r ≡ 0
gap-with h lo x z e r l u = elim (Bool-cases (r == x)) [
  | inl q ↦ subst (λ y. h y ≡ 0) (ground (arith, q)) e
  | inr q ↦ z r l (ground (arith, q))
]

idle-unheld : (n : ℕ) (e : Entry) → EntryOk n e → e.retiring && is_idle e ≡ true → n ≡ 0
idle-unheld n e (a, x) q = ground arith

module _ (h : ℕ → ℕ) where
  joined-gap : (lo lo' r : ℕ) → (r < lo' → h r ≡ 0) → (lo' ≤ r → h r ≡ 0) → h r ≡ 0
  joined-gap lo lo' r f g = elim (Bool-cases (ltb r lo')) [
    | inl q ↦ f (ground (arith, q))
    | inr q ↦ g (ground (arith, q))
  ]

  pub weaken-Counted :
      (lo lo' hi : ℕ) (es : List Entry)
      → lo ≤ lo'
      → ((r : ℕ) → lo ≤ r → r < lo' → h r ≡ 0)
      → Counted h lo' hi es
      → Counted h lo hi es
  unfolding Counted
  weaken-Counted lo lo' hi [] le gap (a, z) =
      (omega arith, λ r l. joined-gap lo lo' r (gap r l) (z r))
  weaken-Counted lo lo' hi (e ∷ es) le gap ((a, z), b, c) =
      ((omega arith, λ r l u. joined-gap lo lo' r (gap r l) (λ k. z r k u)), b, c)

  pub retire_expired-Counted :
      (p : Pool) (now : ℤ) (lo hi : ℕ) (es : List Entry)
      → Counted h lo hi es
      → Counted h lo hi (retire_expired p now es)
  unfolding Counted retire_expired
  retire_expired-Counted p now lo hi [] c = c
  retire_expired-Counted p now lo hi (e ∷ es) (a, b, c) =
      (a, b, retire_expired-Counted p now (suc e.resource) hi es c)

  pub retire_all-Counted :
      (lo hi : ℕ) (es : List Entry) → Counted h lo hi es → Counted h lo hi (retire_all es)
  unfolding Counted retire_all
  retire_all-Counted lo hi [] c = c
  retire_all-Counted lo hi (e ∷ es) (a, b, c) = (a, b, retire_all-Counted (suc e.resource) hi es c)

  keep-Counted :
      (b : Bool) (lo hi : ℕ) (e : Entry) (es : List Entry)
      → (b ≡ true → h e.resource ≡ 0)
      → (lo ≤ e.resource) × ((r : ℕ) → lo ≤ r → r < e.resource → h r ≡ 0)
      → EntryOk (h e.resource) e
      → Counted h (suc e.resource) hi es
      → Counted h lo hi (if b then es else e ∷ es)
  unfolding Counted
  keep-Counted true lo hi e es idle (a, z) k c =
      weaken-Counted lo (suc e.resource) hi es (omega arith)
        (gap-with h lo e.resource z (idle refl)) c
  keep-Counted false lo hi e es idle a k c = (a, k, c)

  pub reap-Counted : (lo hi : ℕ) (es : List Entry) → Counted h lo hi es → Counted h lo hi (reap es)
  unfolding Counted reap
  reap-Counted lo hi [] c = c
  reap-Counted lo hi (e ∷ es) (a, b, c) =
      keep-Counted (e.retiring && is_idle e) lo hi e (reap es) (idle-unheld (h e.resource) e b) a b
        (reap-Counted (suc e.resource) hi es c)

pub Counted-le : (h : ℕ → ℕ) (lo hi : ℕ) (es : List Entry) → Counted h lo hi es → lo ≤ hi
unfolding Counted
Counted-le h lo hi [] c = c.0
Counted-le h lo hi (e ∷ es) ((a, z), b, c) = omega (arith, Counted-le h (suc e.resource) hi es c)

EntryOk-eq : (n m : ℕ) (e : Entry) → m ≡ n → EntryOk n e → EntryOk m e
EntryOk-eq n m e q (a, x) = (ground arith, λ y. omega (arith, x y))

-- Leases of resources outside the range change nothing.
pub ext-Counted :
    (h h' : ℕ → ℕ) (lo hi : ℕ) (es : List Entry)
    → ((r : ℕ) → lo ≤ r → h' r ≡ h r)
    → Counted h lo hi es
    → Counted h' lo hi es
unfolding Counted
ext-Counted h h' lo hi [] same (a, z) = (a, λ r l. same r l ∙ z r l)
ext-Counted h h' lo hi (e ∷ es) same ((a, z), b, c) = (
  (a, λ r l u. same r l ∙ z r l u),
  EntryOk-eq (h e.resource) (h' e.resource) e (same e.resource a) b,
  ext-Counted h h' (suc e.resource) hi es (λ r l. same r (omega arith)) c,
)

pub widen-Counted :
    (h : ℕ → ℕ) (lo hi hi' : ℕ) (es : List Entry)
    → hi ≤ hi'
    → Counted h lo hi es
    → Counted h lo hi' es
unfolding Counted
widen-Counted h lo hi hi' [] le c = omega arith
widen-Counted h lo hi hi' (e ∷ es) le (a, b, c) =
    (a, b, widen-Counted h (suc e.resource) hi hi' es le c)

-- Without the order of the resources.
pub Counted-All :
    (h : ℕ → ℕ) (lo hi : ℕ) (es : List Entry)
    → Counted h lo hi es
    → All (λ e. EntryOk (h e.resource) e) es
unfolding Counted
Counted-All h lo hi [] c = tt
Counted-All h lo hi (e ∷ es) (a, b, c) = (b, Counted-All h (suc e.resource) hi es c)

pub Counted-empty : (h : ℕ → ℕ) (hi : ℕ) → ((r : ℕ) → h r ≡ 0) → Counted h 0 hi []
unfolding Counted
Counted-empty h hi z = (omega arith, λ r l. z r)

behind : (r x : ℕ) {n : ℕ} → (r == x) ≡ false → (r < x → n ≡ 0) → 0 < n → suc x ≤ r
behind r x q z held = elim (Bool-cases (ltb r x)) [
  | inl u ↦ absurd (omega (arith, z (ground (arith, u))))
  | inr u ↦ ground (arith, q, u)
]

-- A resource that is held has an entry.
abbrev pub IsListed : ℕ → List Entry → Type 0
IsListed r [] = ⊥
IsListed r (e ∷ es) = (e.resource ≡ r) ⊎ IsListed r es

pub Counted-IsListed :
    (h : ℕ → ℕ) (lo hi r : ℕ) (es : List Entry)
    → Counted h lo hi es
    → lo ≤ r
    → 0 < h r
    → IsListed r es
unfolding Counted
Counted-IsListed h lo hi r [] (a, z) l held = absurd (omega (arith, z r l))
Counted-IsListed h lo hi r (e ∷ es) ((a, z), b, c) l held = elim (Bool-cases (r == e.resource)) [
  | inl q ↦ inl (ground (arith, q))
  | inr q ↦
      inr (Counted-IsListed h (suc e.resource) hi r es c (behind r e.resource q (z r l) held) held)
]
