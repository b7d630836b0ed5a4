-- ===== src/Base/Div.antt =====
-- Quotients, as the programs use them to split a size.
use Prim.Native.Nat.{ℕ, zero, suc, ◌+◌, ◌-◌, ◌*◌, ◌/◌, ◌%◌, ◌≤◌}
use mathlib.Core.Path.{◌≡◌}
use native.Mathlib.Omega.{arith}

pub mul_pred : (r n : ℕ) → 1 ≤ n → r * (n - 1) + r ≡ r * n
mul_pred r zero h = absurd (omega arith)
mul_pred r (suc n) h = grind arith

pub quotient_lem : (size n : ℕ) → size / n * n + size % n ≡ size
quotient_lem size n = omega arith
