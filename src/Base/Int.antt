-- ===== src/Base/Int.antt =====
-- Go's `int`, a 64-bit signed integer, as far as the program counts with it.
use Prim.Native.Nat.{ℕ, suc, ◌+◌, ◌-◌, ◌^◌, ◌≤◌, ◌<◌}
use mathlib.Core.Path.{◌≡◌}
use mathlib.Core.Bool.{Bool}
use native.Mathlib.Omega.{arith}
use auxitalk.Base.Tests.{ltb, leb, if◌then◌else◌}

-- `negsuc n` is -(n + 1).
pub data ℤ : Type 0 where
  pos : ℕ → ℤ
  negsuc : ℕ → ℤ

abbrev pub pos_part : ℤ → ℕ
pos_part (pos n) = n
pos_part (negsuc n) = 0

abbrev pub neg_part : ℤ → ℕ
neg_part (pos n) = 0
neg_part (negsuc n) = suc n

abbrev pub sub_ℕ : ℕ → ℕ → ℤ
sub_ℕ a b = if leb b a then pos (a - b) else negsuc (b - a - 1)

infixl 65 ◌+ℤ◌
infix 50 ◌≤ℤ◌
unfoldable pub ◌+ℤ◌ : ℤ → ℤ → ℤ
a +ℤ b = sub_ℕ (pos_part a + pos_part b) (neg_part a + neg_part b)

abbrev pub ◌≤ℤ◌ : ℤ → ℤ → Type 0
a ≤ℤ b = pos_part a + neg_part b ≤ pos_part b + neg_part a

abbrev pub ltb_ℤ : ℤ → ℤ → Bool
ltb_ℤ a b = ltb (pos_part a + neg_part b) (pos_part b + neg_part a)

abbrev pub max_int : ℤ
max_int = pos (2 ^ 63 - 1)

-- x + 1 on `int`, which wraps at the largest value.
pub inc : ℤ → ℤ
inc x = if ltb_ℤ x max_int then x +ℤ pos 1 else negsuc (2 ^ 63 - 1)

pub inc_lem : (x : ℤ) → x ≤ℤ pos 20 → inc x ≡ x +ℤ pos 1
unfolding inc
inc_lem x h = ground arith

pub inc-pos : (n : ℕ) → suc n < 2 ^ 63 → inc (pos n) ≡ pos (suc n)
unfolding inc ◌+ℤ◌
inc-pos n h = ground arith
