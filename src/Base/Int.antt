-- ===== src/Base/Int.antt =====
-- Signed integers over the native numbers: what a C `int` of the program stands for.
use Prim.Native.Nat.{ℕ, suc, ◌-◌, ◌≤◌, ◌<◌, ◌%◌, ◌^◌}
use mathlib.Core.Path.{◌≡◌}
use mathlib.Core.Bool.{Bool, ◌&&◌}
use native.Mathlib.Omega.{arith}
use dipp.Base.Tests.{ltb, leb, ◌==◌, if◌then◌else◌}

-- `negsuc n` is -(n + 1).
pub data ℤ : Type 0 where
  pos : ℕ → ℤ
  negsuc : ℕ → ℤ

abbrev pub pos_part : ℤ → ℕ
pos_part (pos n) = n
pos_part (negsuc n) = 0

abbrev pub neg_part : ℤ → ℕ
neg_part (pos n) = 0
neg_part (negsuc n) = suc n

-- a - b, as an integer.
abbrev pub sub_ℕ : ℕ → ℕ → ℤ
sub_ℕ a b = if leb b a then pos (a - b) else negsuc (b - a - 1)

-- a - 1
abbrev pub pred_ℤ : ℤ → ℤ
pred_ℤ (pos n) = sub_ℕ n 1
pred_ℤ (negsuc n) = negsuc (suc n)

abbrev pub eq_ℤ : ℤ → ℤ → Bool
eq_ℤ a b = pos_part a == pos_part b && neg_part a == neg_part b

pub eq_ℤ→eq : (a b : ℤ) → eq_ℤ a b ≡ Bool.true → a ≡ b
eq_ℤ→eq a b h = ground arith

-- a < b
abbrev pub lt_ℤ : ℤ → ℤ → Bool
lt_ℤ (pos m) (pos n) = ltb m n
lt_ℤ (pos m) (negsuc n) = Bool.false
lt_ℤ (negsuc m) (pos n) = Bool.true
lt_ℤ (negsuc m) (negsuc n) = ltb n m

-- The conversion of an `int` to `uint32_t`.
abbrev pub to_u32 : ℤ → ℕ
to_u32 (pos n) = n % 2 ^ 32
to_u32 (negsuc n) = 2 ^ 32 - 1 - n % 2 ^ 32

pub to_u32-lt : (a : ℤ) → to_u32 a < 2 ^ 32
to_u32-lt a = ground arith

-- The conversion of a `uint32_t` to `int`.
abbrev pub to_i32 : ℕ → ℤ
to_i32 w = if ltb w (2 ^ 31) then pos w else negsuc (2 ^ 32 - w - 1)

-- The values of an `int`.
abbrev pub IsInt32 : ℤ → Type 0
IsInt32 (pos n) = suc n ≤ 2 ^ 31
IsInt32 (negsuc n) = suc n ≤ 2 ^ 31

pub to_i32-to_u32 : (a : ℤ) → IsInt32 a → to_i32 (to_u32 a) ≡ a
to_i32-to_u32 (pos n) h = ground arith
to_i32-to_u32 (negsuc n) h = ground arith
