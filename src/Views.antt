-- ===== src/Views.antt =====
-- Positions in value: read-only views (stellar-lend/contracts/lending/src/views.rs). A view of a debt
-- accrues interest, which may refresh the stored stable rate and publish events, so a view is a call.
pub mod Laws
pub mod Health
use stellarlend.Prelude.{
  ℕ, Bool, true, false, Option, none, some, List, [], ◌∷◌, map, ◌||◌, ◌==◌, unwrap_or,
  if◌then◌else◌,
}
use stellarlend.Prelude.Int.{ℤ, pos, ◌+ℤ◌, leb_ℤ, ltb_ℤ, eqb_ℤ}
use stellarlend.Prelude.I128.{i128_max, checked_add, to_i128}
use stellarlend.Storage.Borrow.{Address, DebtPosition, BorrowCollateral, StablecoinConfig}
use stellarlend.Host.Arith.{i256_mul, i256_div}
use stellarlend.Host.{Env, Call, ◌>>=◌, ◌>>◌, gets, or_trap, pure, invoke_price}
use stellarlend.Settings.{
  get_oracle, get_close_factor_bps, get_liquidation_incentive_bps, get_liquidation_threshold_bps,
  get_stablecoin_config,
}
use stellarlend.Debt.Interest.{deviation_bps}
use stellarlend.Debt.View.{get_user_debt, get_user_collateral}

abbrev pub price_scale : ℤ
price_scale = pos 100_000_000

abbrev pub health_factor_scale : ℤ
health_factor_scale = pos 10000

abbrev pub health_factor_no_debt : ℤ
health_factor_no_debt = pos 100_000_000

pub record UserPositionSummary : Type 0 where
  pub collateral_balance : ℤ
  pub collateral_value : ℤ
  pub debt_balance : ℤ
  pub debt_value : ℤ
  pub health_factor : ℤ

pub record ProtocolMetrics : Type 0 where
  pub total_value_locked : ℤ
  pub total_deposits : ℤ
  pub total_borrows : ℤ
  pub utilization_rate : ℤ
  pub total_users : ℕ
  pub total_transactions : ℕ

pub record StablecoinAssetStats : Type 0 where
  pub asset : Address
  pub price : ℤ
  pub target_price : ℤ
  pub deviation_bps : ℤ
  pub stability_fee_bps : ℤ
  pub is_depegged : Bool

pub record ProtocolReport : Type 0 where
  pub metrics : ProtocolMetrics
  pub stablecoin_stats : List StablecoinAssetStats
  pub timestamp : ℕ

-- `a.mul(&b).div(&c)` on 256-bit integers, from and to i128.
unfoldable pub mul_div : ℤ → ℤ → ℤ → Option ℤ
mul_div a b c = elim (i256_mul a b) [ none ↦ none | some product ↦ i256_div product c ]

-- Principal and interest, 0 on overflow.
abbrev pub debt_balance_of : DebtPosition → ℤ
debt_balance_of p = unwrap_or (checked_add p.borrowed_amount p.interest_accrued) (pos 0)

-- The statistics of one asset.
abbrev pub asset_stats : Address → StablecoinConfig → ℤ → StablecoinAssetStats
asset_stats asset config price = record {
  asset = asset;
  price = price;
  target_price = config.target_price;
  deviation_bps = deviation_bps config price;
  stability_fee_bps = config.stability_fee_bps;
  is_depegged = ltb_ℤ config.peg_threshold_bps (deviation_bps config price);
}

module _ {E : Type 0} where
  -- An amount at a price, 0 if the price is not positive.
  unfoldable pub priced : ℤ → ℤ → Call E ℤ
  priced amount price = if leb_ℤ price (pos 0) then pure (pos 0) else (do
    value ← or_trap (mul_div amount price price_scale)
    pure (unwrap_or (to_i128 value) (pos 0)))

  -- The value at the oracle's price; 0 without an oracle.
  abbrev pub value_with : Option Address → ℤ → Address → Call E ℤ
  value_with none amount asset = pure (pos 0)
  value_with (some oracle) amount asset = do price ← invoke_price oracle asset; priced amount price

  unfoldable pub value_of : ℤ → Address → Call E ℤ
  value_of amount asset =
      if leb_ℤ amount (pos 0)
      then pure (pos 0)
      else (do oracle ← gets get_oracle; value_with oracle amount asset)

  abbrev pub collateral_value : BorrowCollateral → Call E ℤ
  collateral_value collateral = value_of collateral.amount collateral.asset

  abbrev pub debt_value : DebtPosition → Call E ℤ
  debt_value position = value_of (debt_balance_of position) position.asset

  -- The health factor of a debt with a positive value.
  unfoldable pub health_ratio : ℤ → ℤ → ℤ → Call E ℤ
  health_ratio collateral_value bps debt_value = do
    weighted_collateral ← or_trap (mul_div collateral_value bps (pos 10000))
    hf ← or_trap (mul_div weighted_collateral health_factor_scale debt_value)
    pure (unwrap_or (to_i128 hf) (pos 0))

  abbrev pub health_with : Option Address → ℤ → ℤ → ℤ → Call E ℤ
  health_with none collateral_value bps debt_value = pure (pos 0)
  health_with (some _) collateral_value bps debt_value =
      health_ratio collateral_value bps debt_value

  unfoldable pub compute_health_factor : ℤ → ℤ → Bool → Call E ℤ
  compute_health_factor collateral_value debt_value has_debt =
      if leb_ℤ debt_value (pos 0)
      then pure (if has_debt then pos 0 else health_factor_no_debt)
      else (do
        oracle ← gets get_oracle
        bps ← gets get_liquidation_threshold_bps
        health_with oracle collateral_value bps debt_value)

  unfoldable pub get_collateral_balance : Address → Call E ℤ
  get_collateral_balance user = gets (λ s. (get_user_collateral s user).amount)

  unfoldable pub get_debt_balance : Address → Call E ℤ
  get_debt_balance user = do position ← get_user_debt user; pure (debt_balance_of position)

  unfoldable pub get_collateral_value : Address → Call E ℤ
  get_collateral_value user = do
    collateral ← gets (λ s. get_user_collateral s user)
    collateral_value collateral

  unfoldable pub get_debt_value : Address → Call E ℤ
  get_debt_value user = do position ← get_user_debt user; debt_value position

  unfoldable pub get_health_factor : Address → Call E ℤ
  get_health_factor user = do
    collateral ← gets (λ s. get_user_collateral s user)
    position ← get_user_debt user
    cv ← collateral_value collateral
    dv ← debt_value position
    compute_health_factor cv dv (ltb_ℤ (pos 0) (debt_balance_of position))

  -- How much of a debt one liquidation may repay, by the health factor.
  unfoldable pub liquidatable_at : ℤ → ℤ → Call E ℤ
  liquidatable_at total_debt hf =
      if eqb_ℤ hf (pos 0) || leb_ℤ health_factor_scale hf then pure (pos 0) else (do
        close_factor ← gets get_close_factor_bps
        result ← or_trap (mul_div total_debt close_factor (pos 10000))
        pure (unwrap_or (to_i128 result) (pos 0)))

  unfoldable pub get_max_liquidatable_amount : Address → Call E ℤ
  get_max_liquidatable_amount user = do
    position ← get_user_debt user
    let total_debt = debt_balance_of position
    if leb_ℤ total_debt (pos 0) then pure (pos 0) else (do
      collateral ← gets (λ s. get_user_collateral s user)
      cv ← collateral_value collateral
      dv ← debt_value position
      hf ← compute_health_factor cv dv true
      liquidatable_at total_debt hf)

  unfoldable pub get_liquidation_incentive_amount : ℤ → Call E ℤ
  get_liquidation_incentive_amount repay_amount =
      if leb_ℤ repay_amount (pos 0) then pure (pos 0) else (do
        incentive_bps ← gets get_liquidation_incentive_bps
        scale ← or_trap (to_i128 (pos 10000 +ℤ incentive_bps))
        result ← or_trap (mul_div repay_amount scale (pos 10000))
        pure (unwrap_or (to_i128 result) i128_max))

  unfoldable pub get_user_position : Address → Call E UserPositionSummary
  get_user_position user = do
    collateral ← gets (λ s. get_user_collateral s user)
    position ← get_user_debt user
    cv ← collateral_value collateral
    dv ← debt_value position
    hf ← compute_health_factor cv dv (ltb_ℤ (pos 0) (debt_balance_of position))
    pure (record {
      collateral_balance = collateral.amount;
      collateral_value = cv;
      debt_balance = debt_balance_of position;
      debt_value = dv;
      health_factor = hf;
    })

  -- The loop of the report, over the assets with a configuration.
  unfoldable pub report_stats :
      Address → List (Address × Option StablecoinConfig) → Call E (List StablecoinAssetStats)
  report_stats oracle [] = pure []
  report_stats oracle ((asset, none) ∷ rest) = report_stats oracle rest
  report_stats oracle ((asset, some config) ∷ rest) = do
    price ← invoke_price oracle asset
    stats ← report_stats oracle rest
    pure (asset_stats asset config price ∷ stats)

  abbrev pub stats_with :
      Option Address → List (Address × Option StablecoinConfig) → Call E (List StablecoinAssetStats)
  stats_with none assets = pure []
  stats_with (some oracle) assets = report_stats oracle assets

  -- The metrics are constants in the source.
  unfoldable pub get_protocol_report : List Address → Call E ProtocolReport
  get_protocol_report assets = do
    oracle ← gets get_oracle
    configs ← gets (λ s. map (λ asset. (asset, get_stablecoin_config s asset)) assets)
    stats ← stats_with oracle configs
    now ← gets (λ s. s.timestamp)
    pure (record {
      metrics = record {
        total_value_locked = pos 0;
        total_deposits = pos 0;
        total_borrows = pos 0;
        utilization_rate = pos 0;
        total_users = 0;
        total_transactions = 0;
      };
      stablecoin_stats = stats;
      timestamp = now;
    })
