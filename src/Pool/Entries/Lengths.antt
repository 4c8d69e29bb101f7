-- ===== src/Pool/Entries/Lengths.antt =====
-- internal/pool/pool.go: the number of entries of one key.
use repost_go.Pool.{Pool, Entry, reap, retire_expired, retire_all, take_available, release_entry}
use repost_go.Prelude.Int.{ℤ}
use repost_go.Prelude.{ℕ, suc, ◌≤◌, ◌≡◌, refl, ap, Bool, List, [], ◌∷◌, length, arith}

pub length-reap : (es : List Entry) → length (reap es) ≤ length es
unfolding reap
length-reap [] = omega arith
length-reap (e ∷ es) = ground (arith, length-reap es)

pub length-retire_expired :
    (p : Pool) (now : ℤ) (es : List Entry) → length (retire_expired p now es) ≡ length es
unfolding retire_expired
length-retire_expired p now [] = refl
length-retire_expired p now (e ∷ es) = ap suc (length-retire_expired p now es)

pub length-retire_all : (es : List Entry) → length (retire_all es) ≡ length es
unfolding retire_all
length-retire_all [] = refl
length-retire_all (e ∷ es) = ap suc (length-retire_all es)

pub length-take_available :
    (reusable : ℕ → Bool) (es : List Entry) → length (take_available reusable es).0 ≡ length es
unfolding take_available
length-take_available reusable [] = refl
length-take_available reusable (e ∷ es) = ground (arith, length-take_available reusable es)

pub length-release_entry :
    (r : ℕ) (retire : Bool) (now : ℤ) (es : List Entry)
    → length (release_entry r retire now es).0 ≤ length es
unfolding release_entry
length-release_entry r retire now [] = omega arith
length-release_entry r retire now (e ∷ es) = ground (arith, length-release_entry r retire now es)
