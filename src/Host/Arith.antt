-- ===== src/Host/Arith.antt =====
-- The host's `I256` arithmetic and the arithmetic operators of `i128` inside a call: both trap
-- when the result leaves the range.
use stellarlend.Prelude.{Option, none, some, if◌then◌else◌}
use stellarlend.Prelude.Int.{ℤ, pos, ◌+ℤ◌, ◌*ℤ◌, div, eqb_ℤ}
use stellarlend.Prelude.I128.{in_i256}

-- `I256::add`, `I256::mul`, `I256::div`
abbrev pub to_i256 : ℤ → Option ℤ
to_i256 a = if in_i256 a then some a else none

unfoldable pub i256_add : ℤ → ℤ → Option ℤ
i256_add a b = to_i256 (a +ℤ b)

unfoldable pub i256_mul : ℤ → ℤ → Option ℤ
i256_mul a b = to_i256 (a *ℤ b)

unfoldable pub i256_div : ℤ → ℤ → Option ℤ
i256_div a b = if eqb_ℤ b (pos 0) then none else to_i256 (div a b)
