-- ===== src/Prelude/Int.antt =====
-- Signed integers over the native numbers, and the 64-bit arithmetic of the source: `wrap64` is
-- what a Go int64 operation keeps of an exact result, `sat64` what a saturating one keeps.
use Prim.Native.Nat.{ℕ, suc, ◌+◌, ◌-◌, ◌%◌, ◌≤◌, ◌<◌}
use mathlib.Core.Path.{◌≡◌}
use mathlib.Core.Bool.{Bool}
use native.Mathlib.Omega.{arith}
use repost_go.Prelude.Tests.{ltb, leb, if◌then◌else◌}

-- `negsuc n` is -(n + 1).
pub data ℤ : Type 0 where
  pos : ℕ → ℤ
  negsuc : ℕ → ℤ

abbrev pub pos_part : ℤ → ℕ
pos_part (pos n) = n
pos_part (negsuc n) = 0

abbrev pub neg_part : ℤ → ℕ
neg_part (pos n) = 0
neg_part (negsuc n) = suc n

-- a - b, as an integer.
abbrev pub sub_ℕ : ℕ → ℕ → ℤ
sub_ℕ a b = if leb b a then pos (a - b) else negsuc (b - a - 1)

infixl 65 ◌+ℤ◌ ◌-ℤ◌
infix 50 ◌≤ℤ◌ ◌<ℤ◌
unfoldable pub ◌+ℤ◌ : ℤ → ℤ → ℤ
a +ℤ b = sub_ℕ (pos_part a + pos_part b) (neg_part a + neg_part b)

unfoldable pub ◌-ℤ◌ : ℤ → ℤ → ℤ
a -ℤ b = sub_ℕ (pos_part a + neg_part b) (neg_part a + pos_part b)

abbrev pub ◌≤ℤ◌ : ℤ → ℤ → Type 0
a ≤ℤ b = pos_part a + neg_part b ≤ pos_part b + neg_part a

abbrev pub ◌<ℤ◌ : ℤ → ℤ → Type 0
a <ℤ b = pos_part a + neg_part b < pos_part b + neg_part a

abbrev pub ltb_ℤ : ℤ → ℤ → Bool
ltb_ℤ a b = ltb (pos_part a + neg_part b) (pos_part b + neg_part a)

abbrev pub leb_ℤ : ℤ → ℤ → Bool
leb_ℤ a b = leb (pos_part a + neg_part b) (pos_part b + neg_part a)

abbrev pub min_ℤ : ℤ → ℤ → ℤ
min_ℤ a b = if leb_ℤ a b then a else b

abbrev pub max_ℤ : ℤ → ℤ → ℤ
max_ℤ a b = if leb_ℤ a b then b else a

pub +ℤ_parts :
    (a b : ℤ)
    → pos_part (a +ℤ b) + neg_part a + neg_part b ≡ neg_part (a +ℤ b) + pos_part a + pos_part b
unfolding ◌+ℤ◌
+ℤ_parts a b = ground arith

pub -ℤ_parts :
    (a b : ℤ)
    → pos_part (a -ℤ b) + neg_part a + pos_part b ≡ neg_part (a -ℤ b) + pos_part a + neg_part b
unfolding ◌-ℤ◌
-ℤ_parts a b = ground arith

pub eq_of_parts : (a b : ℤ) → pos_part a + neg_part b ≡ pos_part b + neg_part a → a ≡ b
eq_of_parts a b h = ground arith

pub ruleset int_laws = (arith, +ℤ_parts, -ℤ_parts, eq_of_parts)

pub pos-sub : (n m : ℕ) → m ≤ n → pos n -ℤ pos m ≡ pos (n - m)
pos-sub n m h = omega int_laws

pub pos-add : (n m : ℕ) → pos n +ℤ pos m ≡ pos (n + m)
pos-add n m = omega int_laws

-- math.MaxInt64 and math.MinInt64.
abbrev pub max_int64 : ℤ
max_int64 = pos 9_223_372_036_854_775_807

abbrev pub min_int64 : ℤ
min_int64 = negsuc 9_223_372_036_854_775_807

abbrev pub IsInt64 : ℤ → Type 0
IsInt64 z = (min_int64 ≤ℤ z) × (z ≤ℤ max_int64)

abbrev pub mod_int64 : ℕ
mod_int64 = 18_446_744_073_709_551_616

-- The signed reading of a 64-bit pattern.
abbrev pub signed64 : ℕ → ℤ
signed64 n = if ltb n 9_223_372_036_854_775_808 then pos n else sub_ℕ n mod_int64

-- Two's complement: the value that 64 bits keep.
unfoldable pub wrap64 : ℤ → ℤ
wrap64 (pos n) = signed64 (n % mod_int64)
wrap64 (negsuc n) = signed64 (mod_int64 - 1 - n % mod_int64)

-- An exact result that fits is kept.
pub wrap64_lem : (z : ℤ) → IsInt64 z → wrap64 z ≡ z
unfolding wrap64
wrap64_lem (pos n) h = ground arith
wrap64_lem (negsuc n) h = ground arith

-- A result out of range goes to the nearer end.
unfoldable pub sat64 : ℤ → ℤ
sat64 z = if ltb_ℤ max_int64 z then max_int64 else if ltb_ℤ z min_int64 then min_int64 else z

pub sat64-IsInt64 : (z : ℤ) → IsInt64 (sat64 z)
unfolding sat64
sat64-IsInt64 z = ground arith
