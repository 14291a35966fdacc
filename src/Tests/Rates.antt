-- ===== src/Tests/Rates.antt =====
-- The rate model (lending/src/interest_rate.rs): runs and instances.
use stellarlend.Prelude.I128.{
  checked_add, checked_div, saturating_div, saturating_mul, saturating_sub, checked_sub,
  saturating_add, checked_mul,
}
use stellarlend.Prelude.{◌≡◌, refl, some, arith}
use stellarlend.Prelude.Int.{ℤ, pos, ◌≤ℤ◌, ◌*ℤ◌, ◌-ℤ◌, ◌+ℤ◌, div}
use stellarlend.Host.Result.{ok}
use stellarlend.Host.{Env}
use stellarlend.Settings.{get_debt_ceiling, get_total_debt}
use stellarlend.InterestRate.{
  get_config, borrow_rate_bps, supply_rate_bps, set_default_if_missing, utilization_of, rate_at,
  update_fields, utilization_bps, rate_jump, rate_below_kink, updated, rate_above_kink,
}
use stellarlend.InterestRate.Bounds.{IsValidConfig}
use stellarlend.InterestRate.Curve.{curve, utilization_curve, IsModest}
use stellarlend.InterestRate.Mono.{borrow_rate_bps-curve, borrow_rate_bps_mono}
use stellarlend.Tests.Setup.{env, borrow_store, rate_model}

-- Half of the ceiling is borrowed: 100 + 5000 * 2000 / 8000.
rates_run : (borrow_rate_bps env ≡ ok (pos 1350)) × (supply_rate_bps env ≡ ok (pos 1150))
unfolding ◌+ℤ◌ ◌-ℤ◌ ◌*ℤ◌ div checked_add checked_sub checked_mul checked_div saturating_add
    saturating_sub saturating_mul saturating_div set_default_if_missing utilization_of
    utilization_bps rate_below_kink rate_jump rate_above_kink rate_at borrow_rate_bps
    supply_rate_bps updated update_fields
rates_run = (refl, refl)

-- More debt: 9000 of 10000 is beyond the kink.
abbrev busy : Env
busy = record env { borrow = record borrow_store { total_debt = some (pos 9000) } }

busy_run : borrow_rate_bps busy ≡ ok (pos 5100)
unfolding ◌+ℤ◌ ◌-ℤ◌ ◌*ℤ◌ div checked_add checked_sub checked_mul checked_div saturating_add
    saturating_sub saturating_mul saturating_div set_default_if_missing utilization_of
    utilization_bps rate_below_kink rate_jump rate_above_kink rate_at borrow_rate_bps
    supply_rate_bps updated update_fields
busy_run = refl

rate_model-IsValidConfig : IsValidConfig rate_model
rate_model-IsValidConfig = ground arith

rate_model-IsModest : IsModest rate_model (pos 9000)
rate_model-IsModest = ground arith

env-IsModest : IsModest rate_model (pos 5000)
env-IsModest = ground arith

borrow_rate_bps-curve_example :
    borrow_rate_bps env
    ≡ ok (
        pos
          (curve (get_config env) (utilization_curve (get_total_debt env) (get_debt_ceiling env))))
borrow_rate_bps-curve_example = borrow_rate_bps-curve env rate_model-IsValidConfig env-IsModest

borrow_rate_bps_mono_example :
    (r : ℤ) × (q : ℤ) × (borrow_rate_bps env ≡ ok r) × (borrow_rate_bps busy ≡ ok q) × (r ≤ℤ q)
borrow_rate_bps_mono_example =
    borrow_rate_bps_mono env busy rate_model-IsValidConfig rate_model-IsModest refl refl
      (omega arith)
