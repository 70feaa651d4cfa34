-- ===== src/Shared/Int.antt =====
-- Go's signed integers: mathematical integers, and the wrap-around of a 64-bit `int` or `int64` and
-- of an `int32` written out.
use Prim.Native.Nat.{ℕ, suc, ◌+◌, ◌-◌, ◌*◌, ◌%◌, ◌^◌, ◌≤◌, ◌<◌}
use mathlib.Core.Path.{◌≡◌}
use mathlib.Core.Bool.{Bool, ◌&&◌}
use native.Mathlib.Omega.{arith}
use prism_plan.Shared.Tests.{ltb, leb, ◌==◌, if◌then◌else◌}

-- `negsuc n` is -(n + 1).
pub data ℤ : Type 0 where
  pos : ℕ → ℤ
  negsuc : ℕ → ℤ

abbrev pub pos_part : ℤ → ℕ
pos_part (pos n) = n
pos_part (negsuc n) = 0

abbrev pub neg_part : ℤ → ℕ
neg_part (pos n) = 0
neg_part (negsuc n) = suc n

abbrev pub sub_ℕ : ℕ → ℕ → ℤ
sub_ℕ a b = if leb b a then pos (a - b) else negsuc (b - a - 1)

infixl 65 ◌+ℤ◌
infix 50 ◌≤ℤ◌ ◌<ℤ◌
abbrev pub ◌+ℤ◌ : ℤ → ℤ → ℤ
a +ℤ b = sub_ℕ (pos_part a + pos_part b) (neg_part a + neg_part b)

-- A product with a small constant.
abbrev pub scale : ℕ → ℤ → ℤ
scale k (pos n) = pos (n * k)
scale k (negsuc n) = sub_ℕ 0 (suc n * k)

abbrev pub ◌≤ℤ◌ : ℤ → ℤ → Type 0
a ≤ℤ b = pos_part a + neg_part b ≤ pos_part b + neg_part a

abbrev pub ◌<ℤ◌ : ℤ → ℤ → Type 0
a <ℤ b = pos_part a + neg_part b < pos_part b + neg_part a

abbrev pub leb_ℤ : ℤ → ℤ → Bool
leb_ℤ a b = leb (pos_part a + neg_part b) (pos_part b + neg_part a)

abbrev pub ltb_ℤ : ℤ → ℤ → Bool
ltb_ℤ a b = ltb (pos_part a + neg_part b) (pos_part b + neg_part a)

abbrev pub eqb_ℤ : ℤ → ℤ → Bool
eqb_ℤ a b = (pos_part a + neg_part b) == (pos_part b + neg_part a)

-- The value that a w-bit signed integer holds after an operation whose exact result is the argument.
abbrev pub wrap_to : ℕ → ℕ → ℤ → ℤ
wrap_to half full (pos n) =
    if ltb (n % full) half then pos (n % full) else negsuc (full - n % full - 1)
wrap_to half full (negsuc n) =
    if ltb (n % full) half then negsuc (n % full) else pos (full - n % full - 1)

unfoldable pub wrap_int64 : ℤ → ℤ
wrap_int64 = wrap_to (2 ^ 63) (2 ^ 64)

unfoldable pub wrap_int32 : ℤ → ℤ
wrap_int32 = wrap_to (2 ^ 31) (2 ^ 32)

abbrev pub IsInt64 : ℤ → Type 0
IsInt64 z = (pos_part z < 2 ^ 63) × (neg_part z ≤ 2 ^ 63)

abbrev pub is_int64 : ℤ → Bool
is_int64 z = ltb (pos_part z) (2 ^ 63) && leb (neg_part z) (2 ^ 63)

pub wrap_int64_self : (z : ℤ) → IsInt64 z → wrap_int64 z ≡ z
unfolding wrap_int64
wrap_int64_self (pos n) h = ground arith
wrap_int64_self (negsuc n) h = ground arith

pub wrap_int32_self : (n : ℕ) → n < 2 ^ 31 → wrap_int32 (pos n) ≡ pos n
unfolding wrap_int32
wrap_int32_self n h = ground arith

pub wrap_int64-IsInt64 : (z : ℤ) → IsInt64 (wrap_int64 z)
unfolding wrap_int64
wrap_int64-IsInt64 (pos n) = ground arith
wrap_int64-IsInt64 (negsuc n) = ground arith
