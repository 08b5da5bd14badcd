-- ===== src/Base/Range.antt =====
-- Integers between -b and b.
use native.Mathlib.Nat.{mul-le-mul_right}
use capacity_agent.Base.{ℕ, suc, ◌+◌, ◌*◌, ◌≤◌, arith}
use capacity_agent.Base.Int.{ℤ, pos, negsuc, pos_part, neg_part, ◌+ℤ◌, ◌-ℤ◌, ◌*ℤ◌}

abbrev pub Within : ℕ → ℤ → Type 0
Within b z = (pos_part z ≤ b) × (neg_part z ≤ b)

pub +ℤ-Within : (a b : ℕ) (x y : ℤ) → Within a x → Within b y → Within (a + b) (x +ℤ y)
unfolding ◌+ℤ◌
+ℤ-Within a b x y h k = ground arith

pub -ℤ-Within : (a b : ℕ) (x y : ℤ) → Within a x → Within b y → Within (a + b) (x -ℤ y)
unfolding ◌-ℤ◌
-ℤ-Within a b x y h k = ground arith

pub *ℤ-Within : (a b : ℕ) (x : ℤ) → Within a x → Within (a * b) (x *ℤ pos b)
unfolding ◌*ℤ◌
*ℤ-Within a b (pos n) h = ground (arith, mul-le-mul_right {m = n} {n = a} b h.0)
*ℤ-Within a b (negsuc n) h = ground (arith, mul-le-mul_right {m = suc n} {n = a} b h.1)

pub Within-mono : (a b : ℕ) (x : ℤ) → a ≤ b → Within a x → Within b x
Within-mono a b x h k = omega arith
