-- ===== src/InterestRate/Mono.antt =====
-- What the whole of `borrow_rate_bps` computes, and that the rate rises with the debt
-- (lending/src/interest_rate.rs).
use native.Mathlib.Nat.{div-le_of_le-mul}
use stellarlend.Prelude.{ℕ, ◌-◌, ◌*◌, ◌/◌, ◌≤◌, ◌<◌, ◌≡◌, arith, sym, subst, div_mono, mul_mono}
use stellarlend.Prelude.Int.{ℤ, pos, pos_part, ◌≤ℤ◌, pos-pos_part, one_sign}
use stellarlend.Storage.Borrow.{InterestRateConfig}
use stellarlend.Host.Result.{ok}
use stellarlend.Host.{Env}
use stellarlend.Settings.{get_debt_ceiling, get_total_debt}
use stellarlend.InterestRate.{get_config, utilization_bps, rate_at, borrow_rate_bps}
use stellarlend.InterestRate.Bounds.{IsValidConfig}
use stellarlend.InterestRate.Curve.{
  raw_curve, curve, utilization_curve, IsModest, rate_at_curve, utilization_cases,
}

rate_at-curve :
    (c : InterestRateConfig) (debt : ℤ) (u : ℕ)
    → IsValidConfig c
    → IsModest c debt
    → u ≤ 10000
    → rate_at c (pos u) ≡ ok (pos (curve c u))
rate_at-curve c debt u v m h =
    rate_at_curve c (pos_part c.base_rate_bps) (pos_part c.kink_utilization_bps)
      (pos_part c.slope_bps) (pos_part c.jump_slope_bps) (pos-pos_part c.base_rate_bps v.base_low)
      (pos-pos_part c.kink_utilization_bps (omega (arith, v.kink_low)))
      (pos-pos_part c.slope_bps v.slope_low) (pos-pos_part c.jump_slope_bps v.jump_low)
      (omega (arith, v.kink_low))
      (omega (arith, v.kink_low, v.kink_high, one_sign c.kink_utilization_bps))
      (omega (arith, v.base_low, v.base_high, one_sign c.base_rate_bps)) m.slope_size m.jump_size
      (pos_part c.rate_floor_bps) (pos_part c.rate_ceiling_bps) u
      (pos-pos_part c.rate_floor_bps v.floor_low)
      (pos-pos_part c.rate_ceiling_bps (omega (arith, v.floor_low, v.floor_ceiling))) h

utilization_bps-curve :
    (s : Env)
    → IsModest (get_config s) (get_total_debt s)
    → utilization_bps s ≡ ok (pos (utilization_curve (get_total_debt s) (get_debt_ceiling s)))
unfolding utilization_bps
utilization_bps-curve s m = utilization_cases (get_total_debt s) (get_debt_ceiling s) m.debt_size

-- With a valid configuration of modest slopes and a debt of modest size the borrow rate is computed
-- without overflow, and is the kinked curve at the utilization.
pub borrow_rate_bps-curve :
    (s : Env)
    → IsValidConfig (get_config s)
    → IsModest (get_config s) (get_total_debt s)
    → borrow_rate_bps s
      ≡ ok (pos (curve (get_config s) (utilization_curve (get_total_debt s) (get_debt_ceiling s))))
unfolding borrow_rate_bps
borrow_rate_bps-curve s v m = rw (utilization_bps-curve s m) (
    rate_at-curve (get_config s) (get_total_debt s)
      (utilization_curve (get_total_debt s) (get_debt_ceiling s)) v m (omega arith))

-- Below the kink the rate is at most the rate at the kink.
share-le_slope : (u kink slope : ℕ) → 0 < kink → u ≤ kink → u * slope / kink ≤ slope
share-le_slope u kink slope p h = div-le_of_le-mul kink (grind arith)

raw_curve_mono :
    (base kink slope jump u w : ℕ)
    → 0 < kink
    → u ≤ w
    → raw_curve base kink slope jump u ≤ raw_curve base kink slope jump w
raw_curve_mono base kink slope jump u w p h = ground (
  arith,
  share-le_slope u kink slope,
  mul_mono u w slope,
  div_mono (u * slope) (w * slope) kink,
  mul_mono (u - kink) (w - kink) jump,
  div_mono ((u - kink) * jump) ((w - kink) * jump) (10000 - kink),
)

curve_mono :
    (c : InterestRateConfig) (u w : ℕ)
    → 0 < pos_part c.kink_utilization_bps
    → u ≤ w
    → curve c u ≤ curve c w
curve_mono c u w p h = omega (
  arith,
  raw_curve_mono (pos_part c.base_rate_bps) (pos_part c.kink_utilization_bps) (pos_part c.slope_bps)
      (pos_part c.jump_slope_bps) u w p h,
)

utilization_curve_mono :
    (d e ceiling : ℤ) → d ≤ℤ e → utilization_curve d ceiling ≤ utilization_curve e ceiling
utilization_curve_mono d e ceiling h = omega (
  arith,
  one_sign d,
  one_sign e,
  div_mono (pos_part d * 10000) (pos_part e * 10000) (pos_part ceiling)
      (omega (arith, one_sign d, one_sign e)),
)

IsModest-le : (c : InterestRateConfig) (d e : ℤ) → d ≤ℤ e → IsModest c e → IsModest c d
IsModest-le c d e h m = record {
  slope_size = m.slope_size;
  jump_size = m.jump_size;
  debt_size = omega (arith, m.debt_size, one_sign d, one_sign e);
}

-- With one valid configuration and one ceiling, more debt never lowers the borrow rate; both rates
-- are computed without overflow.
pub borrow_rate_bps_mono :
    (s t : Env)
    → IsValidConfig (get_config t)
    → IsModest (get_config t) (get_total_debt t)
    → get_config s ≡ get_config t
    → get_debt_ceiling s ≡ get_debt_ceiling t
    → get_total_debt s ≤ℤ get_total_debt t
    → (r : ℤ) × (q : ℤ) × (borrow_rate_bps s ≡ ok r) × (borrow_rate_bps t ≡ ok q) × (r ≤ℤ q)
borrow_rate_bps_mono s t v m ec ed h =
    let d = get_total_debt s in
    let e = get_total_debt t in
    let v' = subst IsValidConfig (sym ec) v in
    let m' = subst (λ c. IsModest c d) (sym ec) (IsModest-le (get_config t) d e h m) in
    (
      pos (curve (get_config s) (utilization_curve d (get_debt_ceiling s))),
      pos (curve (get_config t) (utilization_curve e (get_debt_ceiling t))),
      borrow_rate_bps-curve s v' m',
      borrow_rate_bps-curve t v m,
      rw (ec, ed)
          (omega (
            arith,
            curve_mono (get_config t) (utilization_curve d (get_debt_ceiling t))
                (utilization_curve e (get_debt_ceiling t)) (omega (arith, v.kink_low))
                (utilization_curve_mono d e (get_debt_ceiling t) h),
          )),
    )
