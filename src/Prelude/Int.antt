-- ===== src/Prelude/Int.antt =====
-- Python's integers where they can go below 0.
use Prim.Native.Nat.{ℕ, suc, ◌+◌, ◌-◌}
use mathlib.Core.Path.{◌≡◌}
use mathlib.Core.Bool.{Bool, true}
use native.Mathlib.Omega.{arith}
use nano_ray.Prelude.Tests.{leb, ◌==◌, if◌then◌else◌}

-- `negsuc n` is -(n + 1).
pub data ℤ : Type 0 where
  pos : ℕ → ℤ
  negsuc : ℕ → ℤ

abbrev pub pos_part : ℤ → ℕ
pos_part (pos n) = n
pos_part (negsuc n) = 0

abbrev pub neg_part : ℤ → ℕ
neg_part (pos n) = 0
neg_part (negsuc n) = suc n

-- a - b, as an integer.
abbrev pub sub_ℕ : ℕ → ℕ → ℤ
sub_ℕ a b = if leb b a then pos (a - b) else negsuc (b - a - 1)

infixl 65 ◌+ℤ◌ ◌-ℤ◌
unfoldable pub ◌+ℤ◌ : ℤ → ℤ → ℤ
a +ℤ b = sub_ℕ (pos_part a + pos_part b) (neg_part a + neg_part b)

unfoldable pub ◌-ℤ◌ : ℤ → ℤ → ℤ
a -ℤ b = sub_ℕ (pos_part a + neg_part b) (neg_part a + pos_part b)

-- `a <= 0`
abbrev pub is_nonpos : ℤ → Bool
is_nonpos (pos n) = n == 0
is_nonpos (negsuc n) = true

pub +ℤ_one : (a b : ℕ) → sub_ℕ a b +ℤ pos 1 ≡ sub_ℕ (a + 1) b
unfolding ◌+ℤ◌
+ℤ_one a b = ground arith

pub -ℤ_one : (a b : ℕ) → sub_ℕ a b -ℤ pos 1 ≡ sub_ℕ a (b + 1)
unfolding ◌-ℤ◌
-ℤ_one a b = ground arith

pub is_nonpos-sub_ℕ : (a b : ℕ) → is_nonpos (sub_ℕ a b) ≡ leb a b
is_nonpos-sub_ℕ a b = ground arith
