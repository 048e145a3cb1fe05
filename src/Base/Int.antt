-- ===== src/Base/Int.antt =====
-- Go's int: 64-bit two's complement, as integers with the wrap-around written out.
use Prim.Native.Nat.{ℕ, suc, ◌+◌, ◌-◌, ◌%◌, ◌^◌, ◌≤◌, ◌<◌}
use mathlib.Core.Path.{◌≡◌, refl}
use mathlib.Core.Bool.{Bool, true, false}
use native.Mathlib.Omega.{arith}
use dcos_log.Base.Tests.{ltb, leb, if◌then◌else◌}

-- `negsuc n` is -(n + 1).
pub data ℤ : Type 0 where
  pos : ℕ → ℤ
  negsuc : ℕ → ℤ

abbrev pub pos_part : ℤ → ℕ
pos_part (pos n) = n
pos_part (negsuc n) = 0

abbrev pub neg_part : ℤ → ℕ
neg_part (pos n) = 0
neg_part (negsuc n) = suc n

-- a - b, as an integer.
abbrev pub sub_ℕ : ℕ → ℕ → ℤ
sub_ℕ a b = if leb b a then pos (a - b) else negsuc (b - a - 1)

-- The residue of an integer in the range of an int.
unfoldable pub int64 : ℤ → ℤ
int64 (pos n) = let m = n % 2 ^ 64 in if ltb m (2 ^ 63) then pos m else negsuc (2 ^ 64 - 1 - m)
int64 (negsuc n) = let m = n % 2 ^ 64 in if ltb m (2 ^ 63) then negsuc m else pos (2 ^ 64 - 1 - m)

-- The sum and the difference of two ints, as Go computes them.
infixl 65 ◌+ℤ◌ ◌-ℤ◌
unfoldable pub ◌+ℤ◌ : ℤ → ℤ → ℤ
a +ℤ b = int64 (sub_ℕ (pos_part a + pos_part b) (neg_part a + neg_part b))

unfoldable pub ◌-ℤ◌ : ℤ → ℤ → ℤ
a -ℤ b = int64 (sub_ℕ (pos_part a + neg_part b) (neg_part a + pos_part b))

-- The tests `a < b` and `a == 0`.
abbrev pub ltb_ℤ : ℤ → ℤ → Bool
ltb_ℤ a b = ltb (pos_part a + neg_part b) (pos_part b + neg_part a)

abbrev pub is_zero : ℤ → Bool
is_zero (pos n) = leb n 0
is_zero (negsuc n) = false

abbrev pub is_negative : ℤ → Bool
is_negative (pos n) = false
is_negative (negsuc n) = true

-- -a in an int: the least int is its own negation.
unfoldable pub negate : ℤ → ℤ
unfolding ◌-ℤ◌
negate a = pos 0 -ℤ a

-- The conversion uint64(a).
unfoldable pub to_uint64 : ℤ → ℕ
to_uint64 (pos n) = n % 2 ^ 64
to_uint64 (negsuc n) = 2 ^ 64 - 1 - n % 2 ^ 64

-- The sums and differences of positions in a file do not wrap around.
pub +ℤ_pos : (a b : ℕ) → a + b < 2 ^ 63 → pos a +ℤ pos b ≡ pos (a + b)
unfolding ◌+ℤ◌ int64
+ℤ_pos a b h = ground arith

pub -ℤ_pos : (a b : ℕ) → b ≤ a → a < 2 ^ 63 → pos a -ℤ pos b ≡ pos (a - b)
unfolding ◌-ℤ◌ int64
-ℤ_pos a b h k = ground arith

pub -ℤ_neg : (a b : ℕ) → a < b → b ≤ 2 ^ 63 → pos a -ℤ pos b ≡ negsuc (b - a - 1)
unfolding ◌-ℤ◌ int64
-ℤ_neg a b h k = ground arith

pub negate_negsuc : (n : ℕ) → n + 1 < 2 ^ 63 → negate (negsuc n) ≡ pos (n + 1)
unfolding negate int64
negate_negsuc n h = ground arith

least_negate : negate (negsuc (2 ^ 63 - 1)) ≡ negsuc (2 ^ 63 - 1)
unfolding negate int64
least_negate = refl
