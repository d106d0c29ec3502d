-- ===== src/Base/Int.antt =====
-- Go's signed integers over the native numbers, under the library's names (its ℤ stands on the
-- unary ℕ), and `time.Duration`, which is one of them.
use p2pmq.Base.Tests.{ltb, eqb, if◌then◌else◌}
use Prim.Native.Nat.{ℕ, zero, suc, ◌+◌, ◌-◌, ◌%◌, ◌/◌, ◌^◌, ◌≤◌, ◌<◌}
use mathlib.Core.Bool.{Bool, true, false}

-- `negsuc n` is -(n + 1).
pub data ℤ : Type 0 where
  pos : ℕ → ℤ
  negsuc : ℕ → ℤ

abbrev pub pos_part : ℤ → ℕ
pos_part (pos n) = n
pos_part (negsuc n) = 0

abbrev pub neg_part : ℤ → ℕ
neg_part (pos n) = 0
neg_part (negsuc n) = suc n

infix 50 ◌≤ℤ◌ ◌<ℤ◌
abbrev pub ◌≤ℤ◌ : ℤ → ℤ → Type 0
a ≤ℤ b = pos_part a + neg_part b ≤ pos_part b + neg_part a

abbrev pub ◌<ℤ◌ : ℤ → ℤ → Type 0
a <ℤ b = pos_part a + neg_part b < pos_part b + neg_part a

abbrev pub ltb_ℤ : ℤ → ℤ → Bool
ltb_ℤ a b = ltb (pos_part a + neg_part b) (pos_part b + neg_part a)

-- `x > 0` and `x == 0`.
abbrev pub is_pos : ℤ → Bool
is_pos (pos n) = ltb 0 n
is_pos (negsuc n) = false

abbrev pub is_zero : ℤ → Bool
is_zero (pos zero) = true
is_zero _ = false

-- `d.Milliseconds()`: nanoseconds over a million, rounded towards zero.
abbrev pub milliseconds : ℤ → ℤ
milliseconds (pos n) = pos (n / 1_000_000)
milliseconds (negsuc n) = let q = suc n / 1_000_000 in elim q [ zero ↦ pos 0 | suc m ↦ negsuc m ]

abbrev pub second : ℕ
second = 1_000_000_000

-- A `uint64` is a number below this, and wraps around at it.
abbrev pub u64_mod : ℕ
u64_mod = 2 ^ 64

-- An `int64` as the 64 bits that hold it, and back.
abbrev pub to_u64 : ℤ → ℕ
to_u64 (pos n) = n % u64_mod
to_u64 (negsuc n) = u64_mod - 1 - n % u64_mod

abbrev pub of_u64 : ℕ → ℤ
of_u64 m = if ltb m (2 ^ 63) then pos m else negsuc (u64_mod - 1 - m)

-- `a + b` and `a - b` on `int64`, which wrap around.
abbrev pub add_i64 : ℤ → ℤ → ℤ
add_i64 a b = of_u64 ((to_u64 a + to_u64 b) % u64_mod)

abbrev pub sub_i64 : ℤ → ℤ → ℤ
sub_i64 a b = of_u64 ((to_u64 a + u64_mod - to_u64 b) % u64_mod)

abbrev pub eqb_ℤ : ℤ → ℤ → Bool
eqb_ℤ a b = eqb (pos_part a + neg_part b) (pos_part b + neg_part a)
