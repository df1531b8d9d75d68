-- ===== src/Prelude/Words.antt =====
-- Machine words as native numbers. An int64 is its bit pattern, below 2 ^ 64 (two's complement).
use Prim.Native.Nat.{ℕ, suc, ◌+◌, ◌-◌, ◌%◌, ◌^◌, ◌≤◌}
use mathlib.Core.Bool.{Bool, true}
use actor_cluster.Prelude.Tests.{ltb, leb, if◌then◌else◌}

abbrev pub u64_mod : ℕ
u64_mod = 2 ^ 64

abbrev pub i64_bound : ℕ
i64_bound = 2 ^ 63

-- a + b and a - b on 64-bit words, signed or not.
abbrev pub add64 : ℕ → ℕ → ℕ
add64 a b = (a + b) % u64_mod

abbrev pub sub64 : ℕ → ℕ → ℕ
sub64 a b = (a + u64_mod - b) % u64_mod

-- The test `x < 0` on an int64.
abbrev pub is_neg : ℕ → Bool
is_neg w = leb i64_bound w

-- `negsuc n` is -(n + 1).
pub data ℤ : Type 0 where
  pos : ℕ → ℤ
  negsuc : ℕ → ℤ

-- a - b, as an integer.
abbrev pub sub_ℕ : ℕ → ℕ → ℤ
sub_ℕ a b = if leb b a then pos (a - b) else negsuc (b - a - 1)

abbrev pub pos_part : ℤ → ℕ
pos_part (pos n) = n
pos_part (negsuc n) = 0

abbrev pub neg_part : ℤ → ℕ
neg_part (pos n) = 0
neg_part (negsuc n) = suc n

infixl 65 ◌+ℤ◌
abbrev pub ◌+ℤ◌ : ℤ → ℤ → ℤ
a +ℤ b = sub_ℕ (pos_part a + pos_part b) (neg_part a + neg_part b)

infix 50 ◌≤ℤ◌
abbrev pub ◌≤ℤ◌ : ℤ → ℤ → Type 0
a ≤ℤ b = pos_part a + neg_part b ≤ pos_part b + neg_part a

-- The number that a bit pattern stands for.
abbrev pub signed64 : ℕ → ℤ
signed64 w = if ltb w i64_bound then pos w else negsuc (u64_mod - w - 1)

-- The tests `a < b` and `x <= 0` on int64s, and the quotient by a positive one, which Go rounds
-- towards zero.
abbrev pub lt_i64 : ℕ → ℕ → Bool
lt_i64 a b = ltb ((a + i64_bound) % u64_mod) ((b + i64_bound) % u64_mod)

abbrev pub not_positive : ℕ → Bool
not_positive w = if is_neg w then true else leb w 0
