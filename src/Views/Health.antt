-- ===== src/Views/Health.antt =====
-- The health factor and the liquidation amounts in numbers.
use native.Mathlib.Nat.{le-div_iff_mul-le, div-mul-le_self, div-le_self}
use stellarlend.Prelude.{IfSome, ℕ, ◌+◌, ◌*◌, ◌/◌, ◌≤◌, ◌<◌, ◌≡◌, Bool, some, arith, leb, mul_mono}
use stellarlend.Prelude.Int.{ℤ, pos, negsuc, div, ◌*ℤ◌, ◌+ℤ◌, ◌≤ℤ◌, leb_ℤ, max_ℤ}
use stellarlend.Prelude.I128.{i128_max}
use stellarlend.Storage.Borrow.{Address}
use stellarlend.Host.Arith.{i256_mul, i256_div}
use stellarlend.Host.Result.{ok}
use stellarlend.Host.{Env}
use stellarlend.Host.Laws.{OnOk}
use stellarlend.Settings.{
  get_oracle, get_liquidation_threshold_bps, get_close_factor_bps, get_liquidation_incentive_bps,
}
use stellarlend.Views.Laws.{get_user_debt-Frame, value_of-same, compute_health_factor-same}
use stellarlend.Views.{
  mul_div, health_ratio, compute_health_factor, liquidatable_at, get_max_liquidatable_amount,
  get_liquidation_incentive_amount, get_debt_balance,
}

-- A product that fits in i128, divided.
mul_div-pos :
    (a b c : ℕ)
    → pos (a * b) ≤ℤ i128_max
    → 0 < c
    → mul_div (pos a) (pos b) (pos c) ≡ some (pos (a * b / c))
unfolding mul_div i256_mul i256_div ◌*ℤ◌ div
mul_div-pos a b c h p = ground (arith, div-le_self (a * b) c)

healthy_iff : (w debt : ℕ) → 0 < debt → leb_ℤ (pos 10000) (pos (w * 10000 / debt)) ≡ leb debt w
healthy_iff w debt p = ground (arith, le-div_iff_mul-le {x = 10000} {y = w * 10000} p)

-- A share of at most 10000 basis points.
share_bounds : (a b : ℕ) → b ≤ 10000 → a * b / 10000 ≤ a
share_bounds a b h = ground (arith, mul_mono b 10000 a)

mul_div_share :
    (t f : ℤ)
    → pos 0 ≤ℤ t
    → pos 0 ≤ℤ f
    → f ≤ℤ pos 10000
    → IfSome (λ x. (pos 0 ≤ℤ x) × (x ≤ℤ t)) (mul_div t f (pos 10000))
unfolding mul_div i256_mul i256_div ◌*ℤ◌ div
mul_div_share (pos a) (pos b) p l u = ground (arith, share_bounds a b)
mul_div_share (negsuc a) f p l u = absurd (omega arith)
mul_div_share (pos a) (negsuc b) p l u = absurd (omega arith)

product_le : (a b : ℕ) → b ≤ 20000 → a * b ≤ a * 20000
product_le a b h = grind arith

product_ge : (a b : ℕ) → 10000 ≤ b → a * 10000 ≤ a * b
product_ge a b h = grind arith

checked_scale : (incentive : ℕ) → pos 10000 +ℤ pos incentive ≡ pos (10000 + incentive)
unfolding ◌+ℤ◌
checked_scale incentive = ground arith

module _ (E : Type 0) where
  -- With an oracle set, a debt of positive value, and a collateral whose product with the liquidation
  -- threshold fits in i128, the health factor is computed, and the position is healthy exactly when the
  -- value of the debt is at most the collateral's value weighted with the threshold.
  pub compute_health_factor_healthy_iff :
      (collateral debt bps : ℕ) (oracle : Address) (has_debt : Bool) (s : Env)
      → get_oracle s ≡ some oracle
      → get_liquidation_threshold_bps s ≡ pos bps
      → 0 < debt
      → pos (collateral * bps) ≤ℤ i128_max
      → (hf : ℤ) × (compute_health_factor {E = E} (pos collateral) (pos debt) has_debt s
          ≡ (ok hf, s))
        × (leb_ℤ (pos 10000) hf ≡ leb debt (collateral * bps / 10000))
  unfolding compute_health_factor health_ratio
  compute_health_factor_healthy_iff collateral debt bps oracle has_debt s o b p h =
      let w = collateral * bps / 10000 in
      (
        pos (w * 10000 / debt),
        ground (
          arith,
          mul_div-pos collateral bps 10000,
          mul_div-pos w 10000 debt,
          div-mul-le_self (collateral * bps) 10000,
          div-le_self (w * 10000) debt,
        ),
        healthy_iff w debt p,
      )

  liquidatable_at_bounds :
      (total hf : ℤ) (s : Env)
      → pos 0 ≤ℤ get_close_factor_bps s
      → get_close_factor_bps s ≤ℤ pos 10000
      → pos 0 ≤ℤ total
      → OnOk (λ x t. (pos 0 ≤ℤ x) × (x ≤ℤ total) × (t ≡ s)) (liquidatable_at {E = E} total hf s)
  unfolding liquidatable_at
  liquidatable_at_bounds total hf s l u p =
      ground (arith, mul_div_share total (get_close_factor_bps s))

  -- The incentive for a positive amount is at least the amount and at most twice the amount, if the
  -- incentive rate is in its range and twice the amount fits in i128.
  get_liquidation_incentive_amount_bounds :
      (repay incentive : ℕ) (s : Env)
      → get_liquidation_incentive_bps s ≡ pos incentive
      → incentive ≤ 10000
      → 0 < repay
      → pos (repay * 20000) ≤ℤ i128_max
      → (x : ℤ) × (get_liquidation_incentive_amount {E = E} (pos repay) s ≡ (ok x, s))
        × (pos repay ≤ℤ x)
        × (x ≤ℤ pos (2 * repay))
  unfolding get_liquidation_incentive_amount
  get_liquidation_incentive_amount_bounds repay incentive s e h p fits =
      let scale = 10000 + incentive in
      (
        pos (repay * scale / 10000),
        ground
            (arith, mul_div-pos repay scale 10000, product_le repay scale, checked_scale incentive),
        ground (arith, product_ge repay scale),
        ground (arith, product_le repay scale),
      )

  -- What a liquidation may repay is between 0 and the debt balance of the user, or 0 where that is
  -- negative, if the close factor is in its range.
  get_max_liquidatable_amount_bounds :
      (user : Address) (s : Env)
      → pos 0 ≤ℤ get_close_factor_bps s
      → get_close_factor_bps s ≤ℤ pos 10000
      → OnOk
          (λ x _.
            OnOk
              (λ total _. (pos 0 ≤ℤ x) × (x ≤ℤ max_ℤ total (pos 0)))
              (get_debt_balance {E = E} user s))
          (get_max_liquidatable_amount {E = E} user s)
  unfolding get_max_liquidatable_amount get_debt_balance
  get_max_liquidatable_amount_bounds user s l u = grind (
    arith,
    get_user_debt-Frame E user s,
    value_of-same E,
    compute_health_factor-same E,
    liquidatable_at_bounds,
  )
