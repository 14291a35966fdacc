-- ===== src/Debt/Borrow.antt =====
-- Borrowing, collateral deposits and the settings that initialisation writes
-- (lending/src/borrow.rs, and the hook of lending/src/token_receiver.rs).
pub mod Success
pub mod Commit
pub mod Correct
pub mod Progress
pub mod Untouched
use stellarlend.Prelude.{
  ℕ, Bool, true, false, Option, none, some, ◌||◌, ◌&&◌, ◌==◌, not, unwrap_or, is_some, ⊤,
}
use stellarlend.Prelude.Int.{ℤ, pos, leb_ℤ, ltb_ℤ, eqb_ℤ}
use stellarlend.Prelude.I128.{checked_add, checked_mul, checked_div}
use stellarlend.Storage.Borrow.{
  Address, RateType, variable, stable, DebtPosition, BorrowCollateral, BorrowStore,
}
use stellarlend.Storage.Pause.{PauseType}
use stellarlend.Storage.Event.{borrow_event, borrow_collateral_deposit}
use stellarlend.Host.Result.{Outcome, ok, err, trap}
use stellarlend.Host.{
  Env, Call, ◌>>=◌, ◌>>◌, gets, ok_or, reject_if, pure, raise, emit, require_auth,
}
use stellarlend.Settings.{
  BorrowError, insufficient_collateral, debt_ceiling_reached, protocol_paused, invalid_amount,
  overflow, unauthorized, asset_not_supported, below_minimum_borrow, get_admin, get_total_debt,
  get_debt_ceiling, get_min_borrow_amount, set_total_debt, update_borrow, set_admin,
  default_stable_premium_bps, default_stable_recalc_interval_secs, default_switch_fee_bps,
}
use stellarlend.InterestRate.{set_default_if_missing}
use stellarlend.Pause.{is_paused}
use stellarlend.Risk.{on_utilization_changed}
use stellarlend.Debt.Position.{
  get_debt_position, save_debt_position, get_collateral_position, save_collateral_position,
}
use stellarlend.Debt.Interest.{calculate_interest, get_current_stable_rate_bps}

abbrev pub collateral_ratio_min : ℤ
collateral_ratio_min = pos 15000

unfoldable pub validate_collateral_ratio : ℤ → ℤ → Call BorrowError ⊤
validate_collateral_ratio collateral borrow = do
  scaled ← ok_or (checked_mul borrow collateral_ratio_min) overflow
  min_collateral ← ok_or (checked_div scaled (pos 10000)) invalid_amount
  reject_if (ltb_ℤ collateral min_collateral) insufficient_collateral

pub data BorrowAuth : Type 0 where
  require_user_signature trusted_commitment : BorrowAuth

abbrev pub check_auth : {E : Type 0} → BorrowAuth → Address → Call E ⊤
check_auth require_user_signature user = require_auth user
check_auth trusted_commitment user = pure tt

-- A stable borrow takes the current stable rate.
abbrev pub rate_for_borrow : RateType → DebtPosition → Call BorrowError ℤ
rate_for_borrow variable position = pure position.stable_rate_bps
rate_for_borrow stable position = get_current_stable_rate_bps

-- The checks before anything is computed; the result is the new total debt.
unfoldable pub check_borrow : ℤ → ℤ → Call BorrowError ℤ
check_borrow amount collateral_amount = do
  paused ← gets (λ s. is_paused s PauseType.borrow)
  reject_if paused protocol_paused
  reject_if (leb_ℤ amount (pos 0) || leb_ℤ collateral_amount (pos 0)) invalid_amount
  min_borrow ← gets get_min_borrow_amount
  reject_if (ltb_ℤ amount min_borrow) below_minimum_borrow
  validate_collateral_ratio collateral_amount amount
  total_debt ← gets get_total_debt
  debt_ceiling ← gets get_debt_ceiling
  new_total ← ok_or (checked_add total_debt amount) overflow
  reject_if (ltb_ℤ debt_ceiling new_total) debt_ceiling_reached
  pure new_total

-- The debt position after the borrow, with the interest accrued so far.
unfoldable pub borrowed_position : Address → Address → ℤ → RateType → Call BorrowError DebtPosition
borrowed_position user asset amount rate_type = do
  stored ← gets (λ s. get_debt_position s user (some asset) rate_type)
  let position = record stored { rate_type = rate_type }
  accrued_interest ← calculate_interest position
  borrowed ← ok_or (checked_add position.borrowed_amount amount) overflow
  interest ← ok_or (checked_add position.interest_accrued accrued_interest) overflow
  now ← gets (λ s. s.timestamp)
  rate ← rate_for_borrow rate_type position
  pure (record {
    borrowed_amount = borrowed;
    interest_accrued = interest;
    last_update = now;
    asset = asset;
    rate_type = rate_type;
    stable_rate_bps = rate;
  })

-- The collateral position after the borrow.
unfoldable pub collateralized_position : Address → Address → ℤ → Call BorrowError BorrowCollateral
collateralized_position user collateral_asset collateral_amount = do
  stored ← gets (λ s. get_collateral_position s user)
  amount ← ok_or (checked_add stored.amount collateral_amount) overflow
  pure (record { amount = amount; asset = collateral_asset })

-- The writes at the end. The ceiling is read again for the alert; nothing before writes it.
unfoldable pub commit_borrow :
    Address → Address → ℤ → ℤ → DebtPosition → BorrowCollateral → ℤ → Call BorrowError ⊤
commit_borrow user asset amount collateral_amount debt_position collateral_position new_total = do
  save_debt_position user debt_position
  save_collateral_position user collateral_position
  set_total_debt new_total
  debt_ceiling ← gets get_debt_ceiling
  on_utilization_changed new_total debt_ceiling
  emit (λ s. borrow_event user asset amount collateral_amount s.timestamp)

unfoldable pub borrow_inner :
    Address → Address → ℤ → Address → ℤ → RateType → BorrowAuth → Call BorrowError ⊤
borrow_inner user asset amount collateral_asset collateral_amount rate_type auth = do
  check_auth auth user
  new_total ← check_borrow amount collateral_amount
  debt_position ← borrowed_position user asset amount rate_type
  collateral_position ← collateralized_position user collateral_asset collateral_amount
  commit_borrow user asset amount collateral_amount debt_position collateral_position new_total

abbrev pub borrow_with_rate : Address → Address → ℤ → Address → ℤ → RateType → Call BorrowError ⊤
borrow_with_rate user asset amount collateral_asset collateral_amount rate_type =
    borrow_inner user asset amount collateral_asset collateral_amount rate_type
      require_user_signature

abbrev pub borrow : Address → Address → ℤ → Address → ℤ → Call BorrowError ⊤
borrow user asset amount collateral_asset collateral_amount =
    borrow_with_rate user asset amount collateral_asset collateral_amount variable

-- On behalf of a user, after the checks of a delegation.
abbrev pub borrow_trusted : Address → Address → ℤ → Address → ℤ → Call BorrowError ⊤
borrow_trusted user asset amount collateral_asset collateral_amount =
    borrow_inner user asset amount collateral_asset collateral_amount variable trusted_commitment

abbrev pub borrow_from_commitment : Address → Address → ℤ → Address → ℤ → Call BorrowError ⊤
borrow_from_commitment user asset amount collateral_asset collateral_amount =
    borrow_inner user asset amount collateral_asset collateral_amount variable trusted_commitment

-- `deposit` of the borrow module: collateral for a borrow position.
unfoldable pub deposit : Address → Address → ℤ → Call BorrowError ⊤
deposit user asset amount = do
  reject_if (leb_ℤ amount (pos 0)) invalid_amount
  stored ← gets (λ s. get_collateral_position s user)
  reject_if (not (eqb_ℤ stored.amount (pos 0)) && not (stored.asset == asset)) asset_not_supported
  sum ← ok_or (checked_add stored.amount amount) overflow
  save_collateral_position user (record { amount = sum; asset = asset })
  emit (λ s. borrow_collateral_deposit user asset amount s.timestamp)

-- A setting keeps its value, or gets the default if it was never set.
abbrev pub or_default {ℓ} : {A : Type ℓ} → Option A → A → Option A
or_default none d = some d
or_default (some a) d = some a

unfoldable pub initialize_borrow_settings : ℤ → ℤ → Call BorrowError ⊤
initialize_borrow_settings debt_ceiling min_borrow_amount = do
  update_borrow λ b. record b { debt_ceiling = some debt_ceiling }
  update_borrow λ b. record b { min_amount = some min_borrow_amount }
  set_default_if_missing
  update_borrow λ b. record b {
    stable_rate_premium_bps = or_default b.stable_rate_premium_bps default_stable_premium_bps;
  }
  update_borrow λ b. record b {
    stable_rate_recalc_interval_secs =
        or_default b.stable_rate_recalc_interval_secs default_stable_recalc_interval_secs;
  }
  update_borrow λ b. record b {
    rate_switch_fee_bps = or_default b.rate_switch_fee_bps default_switch_fee_bps;
  }

-- The entry point `initialize` of lending/src/lib.rs.
unfoldable pub initialize : Address → ℤ → ℤ → Call BorrowError ⊤
unfolding initialize_borrow_settings
initialize admin debt_ceiling min_borrow_amount = do
  current ← gets get_admin
  reject_if (is_some current) unauthorized
  set_admin admin
  initialize_borrow_settings debt_ceiling min_borrow_amount
  set_default_if_missing
