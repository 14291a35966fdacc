-- ===== src/Debt/Switch.antt =====
-- Switching between a variable and a stable rate (lending/src/borrow.rs).
pub mod Laws
use stellarlend.Prelude.{ℕ, Bool, true, false, Option, none, some, ◌||◌, not, if◌then◌else◌, ⊤}
use stellarlend.Prelude.Int.{ℤ, pos, eqb_ℤ}
use stellarlend.Prelude.I128.{checked_add, checked_mul, checked_div}
use stellarlend.Storage.Borrow.{Address, RateType, variable, stable, DebtPosition}
use stellarlend.Host.{Env, Call, ◌>>=◌, ◌>>◌, gets, ok_or, reject_if, pure, require_auth}
use stellarlend.Settings.{
  BorrowError, invalid_amount, overflow, asset_not_supported, get_rate_switch_fee_bps,
}
use stellarlend.Debt.Position.{get_debt_position, save_debt_position}
use stellarlend.Debt.Interest.{calculate_interest, get_current_stable_rate_bps}
use stellarlend.Debt.Repay.{is_empty}

abbrev pub other_rate : RateType → RateType
other_rate variable = stable
other_rate stable = variable

-- The fee on the principal.
unfoldable pub switch_fee : ℤ → ℤ → Call BorrowError ℤ
switch_fee borrowed fee_bps = do
  scaled ← ok_or (checked_mul borrowed fee_bps) overflow
  ok_or (checked_div scaled (pos 10000)) overflow

-- What the source position owes when it is moved: the interest so far and the fee on top.
unfoldable pub moved_interest : DebtPosition → Call BorrowError ℤ
moved_interest position = do
  accrued_interest ← calculate_interest position
  interest ← ok_or (checked_add position.interest_accrued accrued_interest) overflow
  fee_bps ← gets get_rate_switch_fee_bps
  fee ← switch_fee position.borrowed_amount fee_bps
  ok_or (checked_add interest fee) overflow

-- The stable rate of the target position.
abbrev pub rate_after_switch : RateType → DebtPosition → Call BorrowError ℤ
rate_after_switch variable position = pure position.stable_rate_bps
rate_after_switch stable position = get_current_stable_rate_bps

-- The cleared source position and the filled target position.
abbrev pub cleared : DebtPosition → RateType → ℕ → DebtPosition
cleared from_position from_rate_type now = record from_position {
  borrowed_amount = pos 0;
  interest_accrued = pos 0;
  last_update = now;
  rate_type = from_rate_type;
  stable_rate_bps = pos 0;
}

abbrev pub filled : ℤ → ℤ → ℕ → Address → RateType → ℤ → DebtPosition
filled borrowed interest now asset to_rate_type rate = record {
  borrowed_amount = borrowed;
  interest_accrued = interest;
  last_update = now;
  asset = asset;
  rate_type = to_rate_type;
  stable_rate_bps = rate;
}

-- The writes at the end.
unfoldable pub save_switched :
    Address → Address → RateType → DebtPosition → ℤ → ℤ → Call BorrowError ⊤
save_switched user asset to_rate_type from_position interest rate = do
  now ← gets (λ s. s.timestamp)
  save_debt_position user (cleared from_position (other_rate to_rate_type) now)
  save_debt_position user
      (filled from_position.borrowed_amount interest now asset to_rate_type rate)

-- The checks: there is a debt of the one type and none of the other.
unfoldable pub check_switch : DebtPosition → DebtPosition → Call BorrowError ⊤
check_switch from_position to_position = do
  reject_if (is_empty from_position) invalid_amount
  reject_if
      (not (eqb_ℤ to_position.borrowed_amount (pos 0))
        || not (eqb_ℤ to_position.interest_accrued (pos 0)))
      asset_not_supported

-- A position as read at a rate type.
abbrev pub position_at : Env → Address → Address → RateType → DebtPosition
position_at s user asset rate_type = record (get_debt_position s user (some asset) rate_type) {
  rate_type = rate_type;
}

unfoldable pub switch_positions :
    Address → Address → RateType → DebtPosition → DebtPosition → Call BorrowError ⊤
switch_positions user asset to_rate_type from_position to_position = do
  check_switch from_position to_position
  interest ← moved_interest from_position
  rate ← rate_after_switch to_rate_type to_position
  save_switched user asset to_rate_type from_position interest rate

-- The source tests the first position before it reads the second; the reads change nothing.
unfoldable pub switch_rate_type : Address → Address → RateType → Call BorrowError ⊤
switch_rate_type user asset to_rate_type = do
  require_auth user
  from_position ← gets (λ s. position_at s user asset (other_rate to_rate_type))
  to_position ← gets (λ s. position_at s user asset to_rate_type)
  switch_positions user asset to_rate_type from_position to_position
