-- ===== src/Common/Int.antt =====
-- Signed integers over the native numbers, their order as tests, and Go's int64 wrap-around.
use Prim.Native.Nat.{ℕ, suc, ◌+◌, ◌-◌, ◌*◌, ◌%◌, ◌^◌, ◌<◌, compare, Ordering}
use mathlib.Core.Path.{◌≡◌}
use mathlib.Core.Bool.{Bool, true, false}
use native.Mathlib.Omega.{arith}

-- `negsuc n` is -(n + 1).
pub data ℤ : Type 0 where
  pos : ℕ → ℤ
  negsuc : ℕ → ℤ

abbrev pub pos_part : ℤ → ℕ
pos_part (pos n) = n
pos_part (negsuc n) = 0

abbrev pub neg_part : ℤ → ℕ
neg_part (pos n) = 0
neg_part (negsuc n) = suc n

abbrev pub ltb_ℤ : ℤ → ℤ → Bool
ltb_ℤ a b = elim (compare (pos_part a + neg_part b) (pos_part b + neg_part a)) [
  | Ordering.lt ↦ true
  | _ ↦ false
]

abbrev pub eqb_ℤ : ℤ → ℤ → Bool
eqb_ℤ a b = elim (compare (pos_part a + neg_part b) (pos_part b + neg_part a)) [
  | Ordering.eq ↦ true
  | _ ↦ false
]

-- The int64 whose bit pattern is that of `n`.
abbrev pub i64_of_bits : ℕ → ℤ
i64_of_bits n = elim (compare (n % 2 ^ 64) (2 ^ 63)) [
  | Ordering.lt ↦ pos (n % 2 ^ 64)
  | _ ↦ negsuc (2 ^ 64 - n % 2 ^ 64 - 1)
]

-- The bit pattern of an int64.
abbrev pub bits_of_i64 : ℤ → ℕ
bits_of_i64 (pos n) = n % 2 ^ 64
bits_of_i64 (negsuc n) = 2 ^ 64 - 1 - n % 2 ^ 64

-- `x * 2` on int64.
abbrev pub double_i64 : ℤ → ℤ
double_i64 x = i64_of_bits (bits_of_i64 x * 2)

pub double_i64_small : (n : ℕ) → n < 2 ^ 62 → double_i64 (pos n) ≡ pos (n * 2)
double_i64_small n h = ground arith

pub ltb_ℤ-trans : (a b c : ℤ) → ltb_ℤ a b ≡ true → ltb_ℤ b c ≡ true → ltb_ℤ a c ≡ true
ltb_ℤ-trans a b c h k = ground arith
