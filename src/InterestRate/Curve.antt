-- ===== src/InterestRate/Curve.antt =====
-- The kinked rate curve as a function on natural numbers, which `borrow_rate_bps` of
-- lending/src/interest_rate.rs computes with checked arithmetic.
use Prim.Native.Nat.{min, max}
use native.Mathlib.Nat.{div-le_self, div-zero, zero-div}
use stellarlend.Prelude.{
  ℕ, zero, suc, ◌+◌, ◌-◌, ◌*◌, ◌/◌, ◌^◌, ◌≤◌, ◌<◌, ◌≡◌, arith, leb, if◌then◌else◌,
}
use stellarlend.Prelude.Int.{ℤ, pos, negsuc, leb_ℤ, pos_part, ◌≤ℤ◌}
use stellarlend.Prelude.I128.{
  i128_max, checked_add-pos, checked_sub-pos, checked_mul-pos, checked_div-pos,
}
use stellarlend.Storage.Borrow.{InterestRateConfig}
use stellarlend.Host.Result.{ok}
use stellarlend.InterestRate.{utilization_of, rate_below_kink, rate_jump, rate_above_kink, rate_at}

-- Sizes at which no product of the model overflows.
abbrev pub max_slope : ℕ
max_slope = 10 ^ 30

-- The rate before it is held between floor and ceiling.
abbrev pub raw_curve : ℕ → ℕ → ℕ → ℕ → ℕ → ℕ
raw_curve base kink slope jump u =
    if leb u kink
    then base + u * slope / kink
    else base + slope + (u - kink) * jump / (10000 - kink)

-- A utilization times a slope, and a share of it, stay far below `i128::MAX`.
product-le : (u v : ℕ) → u ≤ 10000 → v ≤ max_slope → u * v ≤ 10000 * max_slope
product-le u v h k = grind arith

share-le : (u v k : ℕ) → u ≤ 10000 → v ≤ max_slope → u * v / k ≤ 10000 * max_slope
share-le u v k hu hv = omega (arith, product-le u v hu hv, div-le_self (u * v) k)

-- A valid configuration whose numbers are `base`, `kink` and so on.
module _ (cfg : InterestRateConfig) (base kink slope jump : ℕ) (eb : cfg.base_rate_bps ≡ pos base)
    (ek : cfg.kink_utilization_bps ≡ pos kink) (es : cfg.slope_bps ≡ pos slope)
    (ej : cfg.jump_slope_bps ≡ pos jump) (lk : 0 < kink) (hk : kink < 10000) (hb : base ≤ 10000)
    (hs : slope ≤ max_slope) (hj : jump ≤ max_slope) where
  below_curve :
      (u : ℕ) → u ≤ kink → rate_below_kink cfg (pos u) ≡ ok (pos (base + u * slope / kink))
  unfolding rate_below_kink
  below_curve u h =
      rw (eb, ek, es)
        (ground (
          arith,
          product-le u slope,
          share-le u slope kink,
          checked_mul-pos u slope,
          checked_div-pos (u * slope) kink,
          checked_add-pos base (u * slope / kink),
        ))

  jump_curve :
      (u : ℕ)
      → kink < u
      → u ≤ 10000
      → rate_above_kink cfg (pos u) ≡ ok (pos (base + slope + (u - kink) * jump / (10000 - kink)))
  unfolding rate_above_kink rate_jump
  jump_curve u h k =
      rw (eb, ek, es, ej)
        (ground (
          arith,
          checked_add-pos base slope,
          checked_sub-pos u kink,
          checked_sub-pos 10000 kink,
          product-le (u - kink) jump,
          share-le (u - kink) jump (10000 - kink),
          checked_mul-pos (u - kink) jump,
          checked_div-pos ((u - kink) * jump) (10000 - kink),
          checked_add-pos (base + slope) ((u - kink) * jump / (10000 - kink)),
        ))

  pub rate_at_curve :
      (floor ceiling u : ℕ)
      → cfg.rate_floor_bps ≡ pos floor
      → cfg.rate_ceiling_bps ≡ pos ceiling
      → u ≤ 10000
      → rate_at cfg (pos u) ≡ ok (pos (min (max (raw_curve base kink slope jump u) floor) ceiling))
  unfolding rate_at
  rate_at_curve floor ceiling u ef ec h =
      rw (ef, ec, ek) (ground (arith, below_curve u, jump_curve u))

-- The utilization of a debt under a ceiling, in basis points. (Division by 0 gives 0.)
abbrev pub utilization_curve : ℤ → ℤ → ℕ
utilization_curve debt ceiling = min (pos_part debt * 10000 / pos_part ceiling) 10000

abbrev pub curve : InterestRateConfig → ℕ → ℕ
curve c u =
    min
      (max
        (raw_curve (pos_part c.base_rate_bps) (pos_part c.kink_utilization_bps)
          (pos_part c.slope_bps) (pos_part c.jump_slope_bps) u)
        (pos_part c.rate_floor_bps))
      (pos_part c.rate_ceiling_bps)

-- The slopes and the debt are below the sizes at which the model overflows.
pub record IsModest (c : InterestRateConfig) (debt : ℤ) : Type 0 where
  pub slope_size : pos_part c.slope_bps ≤ max_slope
  pub jump_size : pos_part c.jump_slope_bps ≤ max_slope
  pub debt_size : pos (pos_part debt * 10000) ≤ℤ i128_max

utilization_of_curve :
    (debt ceiling : ℕ)
    → 0 < ceiling
    → pos (debt * 10000) ≤ℤ i128_max
    → utilization_of (pos debt) (pos ceiling) ≡ ok (pos (min (debt * 10000 / ceiling) 10000))
unfolding utilization_of
utilization_of_curve debt ceiling p h =
    ground (arith, checked_mul-pos debt 10000, checked_div-pos (debt * 10000) ceiling)

pub utilization_cases :
    (debt ceiling : ℤ)
    → pos (pos_part debt * 10000) ≤ℤ i128_max
    → (if leb_ℤ ceiling (pos 0)
        then ok (pos 0)
        else if leb_ℤ debt (pos 0)
        then ok (pos 0)
        else utilization_of debt ceiling)
      ≡ ok (pos (utilization_curve debt ceiling))
utilization_cases (pos zero) ceiling h = ground (arith, zero-div (pos_part ceiling))
utilization_cases (pos (suc d)) (pos zero) h = ground (arith, div-zero (suc d * 10000))
utilization_cases (pos (suc d)) (pos (suc c)) h =
    ground (arith, utilization_of_curve (suc d) (suc c))
utilization_cases (pos (suc d)) (negsuc c) h = ground (arith, div-zero (suc d * 10000))
utilization_cases (negsuc d) ceiling h = ground (arith, zero-div (pos_part ceiling))
