-- ===== src/Settings.antt =====
-- The settings of the borrow module: the readers of single storage keys and the setters that only
-- the admin may call (stellar-lend/contracts/lending/src/borrow.rs).
pub mod Laws
use stellarlend.Prelude.{
  ℕ, ◌*◌, Bool, Option, none, some, ◌||◌, not, ◌==◌, unwrap_or, if◌then◌else◌, ⊤,
}
use stellarlend.Prelude.Int.{ℤ, pos, leb_ℤ, ltb_ℤ}
use stellarlend.Prelude.I128.{i128_max}
use stellarlend.Prelude.Dict.{lookup, insert}
use stellarlend.Storage.Borrow.{Address, BorrowStore, StablecoinConfig}
use stellarlend.Host.{Env, Call, ◌>>=◌, ◌>>◌, gets, ok_or, reject_if, modify, require_auth}

pub data BorrowError : Type 0 where
  insufficient_collateral debt_ceiling_reached protocol_paused invalid_amount overflow : BorrowError
  unauthorized asset_not_supported below_minimum_borrow repay_amount_too_high : BorrowError
  position_healthy insufficient_reserves : BorrowError

abbrev pub default_stable_premium_bps : ℤ
default_stable_premium_bps = pos 100

abbrev pub default_stable_recalc_interval_secs : ℕ
default_stable_recalc_interval_secs = 6 * 3600

abbrev pub default_switch_fee_bps : ℤ
default_switch_fee_bps = pos 10

abbrev pub get_stable_rate_premium_bps : Env → ℤ
get_stable_rate_premium_bps s =
    unwrap_or s.borrow.stable_rate_premium_bps default_stable_premium_bps

abbrev pub get_stable_rate_recalc_interval_secs : Env → ℕ
get_stable_rate_recalc_interval_secs s =
    unwrap_or s.borrow.stable_rate_recalc_interval_secs default_stable_recalc_interval_secs

abbrev pub get_rate_switch_fee_bps : Env → ℤ
get_rate_switch_fee_bps s = unwrap_or s.borrow.rate_switch_fee_bps default_switch_fee_bps

abbrev pub get_total_debt : Env → ℤ
get_total_debt s = unwrap_or s.borrow.total_debt (pos 0)

abbrev pub get_debt_ceiling : Env → ℤ
get_debt_ceiling s = unwrap_or s.borrow.debt_ceiling i128_max

abbrev pub get_min_borrow_amount : Env → ℤ
get_min_borrow_amount s = unwrap_or s.borrow.min_amount (pos 1000)

abbrev pub get_admin : Env → Option Address
get_admin s = s.borrow.protocol_admin

abbrev pub get_oracle : Env → Option Address
get_oracle s = s.borrow.oracle_address

abbrev pub get_liquidation_threshold_bps : Env → ℤ
get_liquidation_threshold_bps s = unwrap_or s.borrow.liquidation_threshold_bps (pos 8000)

abbrev pub get_close_factor_bps : Env → ℤ
get_close_factor_bps s = unwrap_or s.borrow.close_factor_bps (pos 5000)

abbrev pub get_liquidation_incentive_bps : Env → ℤ
get_liquidation_incentive_bps s = unwrap_or s.borrow.liquidation_incentive_bps (pos 1000)

abbrev pub get_interest_index : Env → ℤ
get_interest_index s = unwrap_or s.borrow.interest_index (pos 1_000_000_000)

abbrev pub get_stablecoin_config : Env → Address → Option StablecoinConfig
get_stablecoin_config s asset = lookup asset s.borrow.asset_stablecoin_config

-- A write to the borrow store.
abbrev pub update_borrow : {E : Type 0} → (BorrowStore → BorrowStore) → Call E ⊤
update_borrow f = modify λ s. record s { borrow = f s.borrow }

abbrev pub set_total_debt : {E : Type 0} → ℤ → Call E ⊤
set_total_debt amount = update_borrow λ b. record b { total_debt = some amount }

abbrev pub set_admin : {E : Type 0} → Address → Call E ⊤
set_admin admin = update_borrow λ b. record b { protocol_admin = some admin }

abbrev pub set_interest_index : {E : Type 0} → ℤ → Call E ⊤
set_interest_index index = update_borrow λ b. record b { interest_index = some index }

-- The guard that the admin's setters share: the caller is the stored admin and has signed.
unfoldable pub check_admin : Address → Call BorrowError ⊤
check_admin admin = do
  current ← ok_or (← gets get_admin) unauthorized
  reject_if (not (admin == current)) unauthorized
  require_auth admin

unfoldable pub set_oracle : Address → Address → Call BorrowError ⊤
unfolding check_admin
set_oracle admin oracle = do
  check_admin admin
  update_borrow λ b. record b { oracle_address = some oracle }

unfoldable pub set_liquidation_threshold_bps : Address → ℤ → Call BorrowError ⊤
unfolding check_admin
set_liquidation_threshold_bps admin bps = do
  check_admin admin
  reject_if (leb_ℤ bps (pos 0) || ltb_ℤ (pos 10000) bps) invalid_amount
  update_borrow λ b. record b { liquidation_threshold_bps = some bps }

unfoldable pub set_close_factor_bps : Address → ℤ → Call BorrowError ⊤
unfolding check_admin
set_close_factor_bps admin bps = do
  check_admin admin
  reject_if (leb_ℤ bps (pos 0) || ltb_ℤ (pos 10000) bps) invalid_amount
  update_borrow λ b. record b { close_factor_bps = some bps }

unfoldable pub set_liquidation_incentive_bps : Address → ℤ → Call BorrowError ⊤
unfolding check_admin
set_liquidation_incentive_bps admin bps = do
  check_admin admin
  reject_if (ltb_ℤ bps (pos 0) || ltb_ℤ (pos 10000) bps) invalid_amount
  update_borrow λ b. record b { liquidation_incentive_bps = some bps }

unfoldable pub set_stablecoin_config : Address → Address → StablecoinConfig → Call BorrowError ⊤
unfolding check_admin
set_stablecoin_config admin asset config = do
  check_admin admin
  update_borrow
      λ b. record b { asset_stablecoin_config = insert asset config b.asset_stablecoin_config }
