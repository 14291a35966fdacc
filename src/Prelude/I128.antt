-- ===== src/Prelude/I128.antt =====
-- Rust's `i128` and the host's `I256` as integers with a range: the checked operations return
-- `none` out of range, the saturating ones stop at the end of the range. A plain `+` or `-` traps
-- out of range, since the contracts are built with overflow checks.
use stellarlend.Prelude.{
  ℕ, ◌+◌, ◌-◌, ◌*◌, ◌/◌, ◌^◌, ◌≤◌, ◌<◌, ◌≡◌, Bool, ◌&&◌, Option, none, some, arith, IfSome, leb,
  if◌then◌else◌,
}
use native.Mathlib.Nat.{div-le_self}
use stellarlend.Prelude.Int.{
  ℤ, pos, negsuc, pos_part, neg_part, ◌+ℤ◌, ◌-ℤ◌, ◌*ℤ◌, div, ◌≤ℤ◌, pos-+ℤ, pos--ℤ, pos-*ℤ, ltb_ℤ,
  leb_ℤ, eqb_ℤ,
}

-- `i128::MAX`
abbrev pub i128_max : ℤ
i128_max = pos 0x7fffffffffffffffffffffffffffffff

-- `i128::MIN`
abbrev pub i128_min : ℤ
i128_min = negsuc 0x7fffffffffffffffffffffffffffffff

abbrev pub in_i128 : ℤ → Bool
in_i128 a = leb_ℤ i128_min a && leb_ℤ a i128_max

abbrev pub IsI128 : ℤ → Type 0
IsI128 a = (i128_min ≤ℤ a) × (a ≤ℤ i128_max)

abbrev pub to_i128 : ℤ → Option ℤ
to_i128 a = if in_i128 a then some a else none

unfoldable pub checked_add : ℤ → ℤ → Option ℤ
checked_add a b = to_i128 (a +ℤ b)

unfoldable pub checked_sub : ℤ → ℤ → Option ℤ
checked_sub a b = to_i128 (a -ℤ b)

unfoldable pub checked_mul : ℤ → ℤ → Option ℤ
checked_mul a b = to_i128 (a *ℤ b)

unfoldable pub checked_div : ℤ → ℤ → Option ℤ
checked_div a b = if eqb_ℤ b (pos 0) then none else to_i128 (div a b)

abbrev pub clamp_i128 : ℤ → ℤ
clamp_i128 a = if ltb_ℤ a i128_min then i128_min else if ltb_ℤ i128_max a then i128_max else a

unfoldable pub saturating_add : ℤ → ℤ → ℤ
saturating_add a b = clamp_i128 (a +ℤ b)

unfoldable pub saturating_sub : ℤ → ℤ → ℤ
saturating_sub a b = clamp_i128 (a -ℤ b)

unfoldable pub saturating_mul : ℤ → ℤ → ℤ
saturating_mul a b = clamp_i128 (a *ℤ b)

-- Every use in the sources divides by a constant or by a number that was tested; a zero divisor
-- would trap, and is read as 0 here.
unfoldable pub saturating_div : ℤ → ℤ → ℤ
saturating_div a b = clamp_i128 (div a b)

-- The host's 256-bit integers.
abbrev pub in_i256 : ℤ → Bool
in_i256 a = leb (pos_part a) (2 ^ 255 - 1) && leb (neg_part a) (2 ^ 255)

-- What a checked operation returns is exact and in range.
pub checked_add-exact : (a b : ℤ) → IfSome (λ c. (c ≡ a +ℤ b) × IsI128 c) (checked_add a b)
unfolding checked_add
checked_add-exact a b = ground arith

pub checked_sub-exact : (a b : ℤ) → IfSome (λ c. (c ≡ a -ℤ b) × IsI128 c) (checked_sub a b)
unfolding checked_sub
checked_sub-exact a b = ground arith

pub checked_mul-exact : (a b : ℤ) → IfSome (λ c. (c ≡ a *ℤ b) × IsI128 c) (checked_mul a b)
unfolding checked_mul
checked_mul-exact a b = ground arith

-- In range the checked operations succeed.
pub checked_add-some : (a b : ℤ) → IsI128 (a +ℤ b) → checked_add a b ≡ some (a +ℤ b)
unfolding checked_add
checked_add-some a b h = ground arith

pub checked_sub-some : (a b : ℤ) → IsI128 (a -ℤ b) → checked_sub a b ≡ some (a -ℤ b)
unfolding checked_sub
checked_sub-some a b h = ground arith

pub checked_mul-some : (a b : ℤ) → IsI128 (a *ℤ b) → checked_mul a b ≡ some (a *ℤ b)
unfolding checked_mul
checked_mul-some a b h = ground arith

pub checked_div-some :
    (a b : ℤ) → (pos 1 ≤ℤ b) → IsI128 (div a b) → checked_div a b ≡ some (div a b)
unfolding checked_div
checked_div-some a b p h = ground arith

-- The same on numbers that are not negative, where the result is a sum, a product and so on of
-- natural numbers.
pub checked_add-pos :
    (a b : ℕ) → pos (a + b) ≤ℤ i128_max → checked_add (pos a) (pos b) ≡ some (pos (a + b))
unfolding checked_add
checked_add-pos a b h = rw (pos-+ℤ a b) (ground arith)

pub checked_sub-pos :
    (a b : ℕ) → b ≤ a → pos a ≤ℤ i128_max → checked_sub (pos a) (pos b) ≡ some (pos (a - b))
unfolding checked_sub
checked_sub-pos a b h k = rw (pos--ℤ a b h) (ground arith)

pub checked_mul-pos :
    (a b : ℕ) → pos (a * b) ≤ℤ i128_max → checked_mul (pos a) (pos b) ≡ some (pos (a * b))
unfolding checked_mul
checked_mul-pos a b h = rw (pos-*ℤ a b) (ground arith)

pub checked_div-pos :
    (a b : ℕ) → 0 < b → pos a ≤ℤ i128_max → checked_div (pos a) (pos b) ≡ some (pos (a / b))
unfolding checked_div div
checked_div-pos a b h k = ground (arith, div-le_self a b)

-- The product of two numbers that are not negative, with the test for overflow.
pub checked_mul-pos_if :
    (a b : ℕ)
    → checked_mul (pos a) (pos b)
      ≡ (if leb_ℤ (pos (a * b)) i128_max then some (pos (a * b)) else none)
unfolding checked_mul
checked_mul-pos_if a b = rw (pos-*ℤ a b) (ground arith)

pub checked_div-exact : (a b : ℤ) → IfSome (λ c. (c ≡ div a b) × IsI128 c) (checked_div a b)
unfolding checked_div
checked_div-exact a b = ground arith
