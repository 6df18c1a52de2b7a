-- ===== src/Common/Int.antt =====
-- Go's signed integers, over the native numbers. A width is a bound stated where it matters.
use Prim.Native.Nat.{ℕ, suc, ◌+◌, ◌-◌, ◌≤◌, ◌<◌}
use mathlib.Core.Bool.{Bool, false}
use cloud_agent.Common.Logic.{ltb, leb, nat_eq, if◌then◌else◌}

-- `negsuc n` is -(n + 1)
pub data ℤ : Type 0 where
  pos : ℕ → ℤ
  negsuc : ℕ → ℤ

abbrev pub pos_part : ℤ → ℕ
pos_part (pos n) = n
pos_part (negsuc _) = 0

abbrev pub neg_part : ℤ → ℕ
neg_part (pos _) = 0
neg_part (negsuc n) = suc n

abbrev pub ltb_ℤ : ℤ → ℤ → Bool
ltb_ℤ a b = ltb (pos_part a + neg_part b) (pos_part b + neg_part a)

infix 50 ◌≤ℤ◌ ◌<ℤ◌
abbrev pub ◌≤ℤ◌ : ℤ → ℤ → Type 0
a ≤ℤ b = pos_part a + neg_part b ≤ pos_part b + neg_part a

abbrev pub ◌<ℤ◌ : ℤ → ℤ → Type 0
a <ℤ b = pos_part a + neg_part b < pos_part b + neg_part a

abbrev pub eq_ℤ : ℤ → ℤ → Bool
eq_ℤ (pos m) (pos n) = nat_eq m n
eq_ℤ (negsuc m) (negsuc n) = nat_eq m n
eq_ℤ _ _ = false

abbrev pub is_zero : ℤ → Bool
is_zero (pos n) = leb n 0
is_zero (negsuc _) = false

-- `x + 1`
abbrev pub inc : ℤ → ℤ
inc (pos n) = pos (n + 1)
inc (negsuc n) = if leb n 0 then pos 0 else negsuc (n - 1)
