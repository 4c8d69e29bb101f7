-- ===== src/Pool/Entries/Leases.antt =====
-- internal/pool/pool.go: the entries of one key where a lease is given or released, or a connection is
-- new.
use repost_go.Pool.{
  Mode, Entry, is_idle, retire_if, take_available, taken, is_available, settled, release_entry,
  created,
}
use mathlib.Core.Path.{subst}
use repost_go.Prelude.Int.{ℤ, ◌+ℤ◌, ◌-ℤ◌}
use repost_go.Prelude.{
  ℕ, suc, ◌+◌, ◌≤◌, ◌<◌, ◌≡◌, refl, ap, sym, Bool, true, false, not, ◌&&◌, Option, none, some, List,
  [], ◌∷◌, ◌++◌, arith, ◌==◌, if◌then◌else◌, Bool-cases, inl, inr,
}
use repost_go.Pool.Entries.{
  EntryOk, Counted, Counted-le, EntryOk-eq, ext-Counted, gap-with, weaken-Counted,
}

-- One more lease of a resource, or one less.
abbrev pub IsOneMore : ℕ → (ℕ → ℕ) → (ℕ → ℕ) → Type 0
IsOneMore r h h' = (k : ℕ) → h' k ≡ h k + (if k == r then 1 else 0)

-- What `take_available` leaves: the leases as they were, or one more of the entry it took.
abbrev pub TakeOk : (ℕ → ℕ) → ℕ → ℕ → List Entry × Option Entry → Type 0
TakeOk h lo hi (es, none) = Counted h lo hi es
TakeOk h lo hi (es, some e) =
    (lo ≤ e.resource)
    × (e.resource < hi)
    × ((h' : ℕ → ℕ) → IsOneMore e.resource h h' → Counted h' lo hi es)

-- Nothing is held before a resource.
abbrev Starts : (ℕ → ℕ) → ℕ → ℕ → Type 0
Starts h lo x = (lo ≤ x) × ((r : ℕ) → lo ≤ r → r < x → h r ≡ 0)

module _ (h : ℕ → ℕ) (lo hi : ℕ) (e : Entry) where
  taken-TakeOk :
      (es : List Entry)
      → Starts h lo e.resource
      → EntryOk (h e.resource) e
      → Counted h (suc e.resource) hi es
      → is_available e ≡ true
      → TakeOk h lo hi (taken e ∷ es, some (taken e))
  unfolding Counted ◌+ℤ◌
  taken-TakeOk es (a, z) k c v = (
    a,
    Counted-le h (suc e.resource) hi es c,
    λ h' more. (
      (a, λ r l u. ground (arith, more r, z r l u)),
      ground (arith, more e.resource),
      ext-Counted h h' (suc e.resource) hi es (λ r l. ground (arith, more r)) c,
    ),
  )

  behind-TakeOk :
      (t : List Entry × Option Entry)
      → Starts h lo e.resource
      → EntryOk (h e.resource) e
      → TakeOk h (suc e.resource) hi t
      → TakeOk h lo hi (e ∷ t.0, t.1)
  unfolding Counted
  behind-TakeOk (es, none) a k c = (a, k, c)
  behind-TakeOk (es, some f) (a, z) k (l, u, c) = (
    omega arith,
    u,
    λ h' more. (
      (a, λ r l' u'. ground (arith, more r, z r l' u')),
      EntryOk-eq (h e.resource) (h' e.resource) e (ground (arith, more e.resource)) k,
      c h' more,
    ),
  )

  choose-TakeOk :
      (es : List Entry) (t : List Entry × Option Entry)
      → Starts h lo e.resource
      → EntryOk (h e.resource) e
      → Counted h (suc e.resource) hi es
      → TakeOk h (suc e.resource) hi t
      → TakeOk h lo hi (if is_available e then (taken e ∷ es, some (taken e)) else (e ∷ t.0, t.1))
  choose-TakeOk es t a k c d = elim (Bool-cases (is_available e)) [
    | inl q ↦ rw q (taken-TakeOk es a k c q)
    | inr q ↦ rw q (behind-TakeOk t a k d)
  ]

pub take_available-TakeOk :
    (h : ℕ → ℕ) (reusable : ℕ → Bool) (lo hi : ℕ) (es : List Entry)
    → Counted h lo hi es
    → TakeOk h lo hi (take_available reusable es)
unfolding Counted take_available
take_available-TakeOk h reusable lo hi [] c = c
take_available-TakeOk h reusable lo hi (e ∷ es) (a, b, c) =
    choose-TakeOk h lo hi (retire_if (not (reusable e.resource)) e) es (take_available reusable es)
      a b c (take_available-TakeOk h reusable (suc e.resource) hi es c)

gone : (n : ℕ) (f : Entry) → EntryOk n f → is_idle f && f.retiring ≡ true → n ≡ 0
gone n f (a, x) q = ground arith

module _ (h h' : ℕ → ℕ) (r : ℕ) (less : IsOneMore r h' h) where
  still-Starts : (lo x : ℕ) → Starts h lo x → Starts h' lo x
  still-Starts lo x (a, z) = (a, λ k l u. ground (arith, less k, z k l u))

  either-Counted :
      (lo hi : ℕ) (b : Bool) (t u : List Entry × List ℕ)
      → (b ≡ true → Counted h' lo hi t.0)
      → (b ≡ false → Counted h' lo hi u.0)
      → Counted h' lo hi (if b then t else u).0
  either-Counted lo hi true t u k l = k refl
  either-Counted lo hi false t u k l = l refl

  settled-Counted :
      (b : Bool) (lo hi : ℕ) (e f : Entry) (es : List Entry) (xs ys : List ℕ)
      → e.resource ≡ r
      → f.resource ≡ e.resource
      → Starts h lo e.resource
      → EntryOk (h' e.resource) f
      → (b ≡ true → h' e.resource ≡ 0)
      → Counted h (suc e.resource) hi es
      → Counted h' lo hi (if◌then◌else◌ {A = List Entry × List ℕ} b (es, xs) (f ∷ es, ys)).0
  unfolding Counted
  settled-Counted true lo hi e f es xs ys q q' (a, z) k idle c =
      weaken-Counted h' lo (suc e.resource) hi es (omega arith)
        (gap-with h' lo e.resource (still-Starts lo e.resource (a, z)).1 (idle refl))
        (ext-Counted h h' (suc e.resource) hi es (λ k l. ground (arith, less k)) c)
  settled-Counted false lo hi e f es xs ys q q' a k idle c = (
    subst (Starts h' lo) (sym q') (still-Starts lo e.resource a),
    EntryOk-eq (h' e.resource) (h' f.resource) f (ap h' q') k,
    subst (λ n. Counted h' (suc n) hi es) (sym q')
        (ext-Counted h h' (suc e.resource) hi es (λ k l. ground (arith, less k)) c),
  )

  settled-EntryOk :
      (retire : Bool) (now : ℤ) (e : Entry)
      → e.resource ≡ r
      → EntryOk (h e.resource) e
      → EntryOk (h' e.resource) (settled retire now e)
  unfolding ◌-ℤ◌
  settled-EntryOk retire now e q k = ground (arith, less e.resource)

  pub release_entry-Counted :
      (retire : Bool) (now : ℤ) (lo hi : ℕ) (es : List Entry)
      → Counted h lo hi es
      → Counted h' lo hi (release_entry r retire now es).0
  unfolding Counted release_entry
  release_entry-Counted retire now lo hi [] (a, z) = (a, λ k l. ground (arith, less k, z k l))
  release_entry-Counted retire now lo hi (e ∷ es) (a, b, c) =
      either-Counted lo hi (e.resource == r) _ _
        (λ q.
          settled-Counted (is_idle (settled retire now e) && (settled retire now e).retiring) lo hi
            e (settled retire now e) es (e.resource ∷ []) [] (ground (arith, q)) (ground arith) a
            (settled-EntryOk retire now e (ground (arith, q)) b)
            (λ i.
              gone (h' e.resource) (settled retire now e)
                (settled-EntryOk retire now e (ground (arith, q)) b) i)
            c)
        (λ q. (
          still-Starts lo e.resource a,
          EntryOk-eq (h e.resource) (h' e.resource) e (ground (arith, less e.resource, q)) b,
          release_entry-Counted retire now (suc e.resource) hi es c,
        ))

pub created-Counted :
    (h h' : ℕ → ℕ) (m : Mode) (now : ℤ) (lo hi : ℕ) (es : List Entry)
    → IsOneMore hi h h'
    → h hi ≡ 0
    → Counted h lo hi es
    → Counted h' lo (hi + 1) (es ++ (created hi m now ∷ []))
unfolding Counted
created-Counted h h' m now lo hi [] more z (c, none_held) = (
  (c, λ r l u. ground (arith, more r, none_held r l)),
  ground (arith, more hi),
  (omega arith, λ r l. ground (arith, more r, none_held r (omega arith))),
)
created-Counted h h' m now lo hi (e ∷ es) more z ((a, gap), b, c) =
    let le = Counted-le h (suc e.resource) hi es c in
    (
      (a, λ r l u. ground (arith, more r, gap r l u)),
      EntryOk-eq (h e.resource) (h' e.resource) e (ground (arith, more e.resource)) b,
      created-Counted h h' m now (suc e.resource) hi es more z c,
    )
