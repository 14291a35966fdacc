-- ===== src/Prelude/Nat.antt =====
-- Facts about products and quotients of natural numbers.
use native.Mathlib.Nat.{le-div_iff_mul-le, div-zero, div-mul-le_self}
use Prim.Native.Nat.{ℕ, zero, suc, ◌*◌, ◌/◌, ◌≤◌}
use native.Mathlib.Omega.{arith}

pub div_mono : (a b k : ℕ) → a ≤ b → a / k ≤ b / k
div_mono a b zero h = omega (arith, div-zero a, div-zero b)
div_mono a b (suc k) h =
    (le-div_iff_mul-le {x = a / suc k} (omega arith)).1 (omega (arith, div-mul-le_self a (suc k)))

pub mul_mono : (a b v : ℕ) → a ≤ b → a * v ≤ b * v
mul_mono a b v h = grind arith
