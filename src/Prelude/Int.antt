-- ===== src/Prelude/Int.antt =====
-- Signed configuration values, which the program clamps before it uses them.
use Prim.Native.Nat.{ℕ, zero, suc, ◌≤◌}
use native.Mathlib.Omega.{arith}

-- `negsuc n` is -(n + 1).
pub data ℤ : Type 0 where
  pos : ℕ → ℤ
  negsuc : ℕ → ℤ

-- max(0, z)
abbrev pub clamp : ℤ → ℕ
clamp (pos n) = n
clamp (negsuc n) = 0

-- max(1, z)
abbrev pub clamp_one : ℤ → ℕ
clamp_one (pos zero) = 1
clamp_one (pos (suc n)) = suc n
clamp_one (negsuc n) = 1

pub at_least_one : (z : ℤ) → 1 ≤ clamp_one z
at_least_one (pos zero) = omega arith
at_least_one (pos (suc n)) = omega arith
at_least_one (negsuc n) = omega arith
