-- ===== src/Storage/Borrow.antt =====
-- Debt and collateral positions, the settings of the borrow module and the interest rate model
-- (lending/src/borrow.rs, lending/src/interest_rate.rs). An address is a number.
use stellarlend.Prelude.{ℕ, Bool, true, false, Option}
use stellarlend.Prelude.Int.{ℤ}
use stellarlend.Prelude.Dict.{Dict}

abbrev pub Address : Type 0
Address = ℕ

pub data RateType : Type 0 where
  variable stable : RateType

abbrev pub is_variable : RateType → Bool
is_variable RateType.variable = true
is_variable RateType.stable = false

abbrev pub is_stable : RateType → Bool
is_stable RateType.variable = false
is_stable RateType.stable = true

pub record DebtPosition : Type 0 where
  pub borrowed_amount : ℤ
  pub interest_accrued : ℤ
  pub last_update : ℕ
  pub asset : Address
  pub rate_type : RateType
  pub stable_rate_bps : ℤ

pub record BorrowCollateral : Type 0 where
  pub amount : ℤ
  pub asset : Address

pub record StableRateState : Type 0 where
  pub avg_rate_bps : ℤ
  pub last_update : ℕ

pub record StablecoinConfig : Type 0 where
  pub target_price : ℤ
  pub peg_threshold_bps : ℤ
  pub stability_fee_bps : ℤ
  pub emergency_threshold_bps : ℤ

pub record InterestRateConfig : Type 0 where
  pub base_rate_bps : ℤ
  pub kink_utilization_bps : ℤ
  pub slope_bps : ℤ
  pub jump_slope_bps : ℤ
  pub rate_floor_bps : ℤ
  pub rate_ceiling_bps : ℤ
  pub spread_bps : ℤ
  pub last_update : ℕ

pub record InterestRateConfigUpdate : Type 0 where
  pub base_rate_bps : Option ℤ
  pub kink_utilization_bps : Option ℤ
  pub slope_bps : Option ℤ
  pub jump_slope_bps : Option ℤ
  pub rate_floor_bps : Option ℤ
  pub rate_ceiling_bps : Option ℤ
  pub spread_bps : Option ℤ

-- `BorrowDataKey`: the legacy debts stand under `user_debt`, the debts by rate type under
-- `user_variable_debt` and `user_stable_debt`.
pub record BorrowStore : Type 0 where
  pub protocol_admin : Option Address
  pub user_debt : Dict DebtPosition
  pub user_variable_debt : Dict DebtPosition
  pub user_stable_debt : Dict DebtPosition
  pub user_collateral : Dict BorrowCollateral
  pub total_debt : Option ℤ
  pub debt_ceiling : Option ℤ
  pub interest_rate : Option InterestRateConfig
  pub min_amount : Option ℤ
  pub oracle_address : Option Address
  pub liquidation_threshold_bps : Option ℤ
  pub close_factor_bps : Option ℤ
  pub liquidation_incentive_bps : Option ℤ
  pub interest_index : Option ℤ
  pub asset_stablecoin_config : Dict StablecoinConfig
  pub stable_rate_state : Option StableRateState
  pub stable_rate_premium_bps : Option ℤ
  pub stable_rate_recalc_interval_secs : Option ℕ
  pub rate_switch_fee_bps : Option ℤ
