-- ===== src/Debt/Repay.antt =====
-- Repayment: interest first, then principal (lending/src/borrow.rs; the entry points are those of
-- lending/src/lib.rs).
pub mod Split
pub mod Correct
use stellarlend.Prelude.{
  ℕ, Bool, true, false, Option, none, some, ◌&&◌, ◌==◌, not, if◌then◌else◌, ⊤,
}
use stellarlend.Prelude.Int.{ℤ, pos, ◌-ℤ◌, leb_ℤ, ltb_ℤ, eqb_ℤ}
use stellarlend.Prelude.I128.{checked_add, checked_sub, to_i128}
use stellarlend.Storage.Borrow.{Address, RateType, variable, stable, DebtPosition}
use stellarlend.Storage.Pause.{PauseType}
use stellarlend.Storage.Event.{repay_event}
use stellarlend.Host.{
  Env, Call, ◌>>=◌, ◌>>◌, gets, ok_or, or_trap, reject_if, pure, emit, require_auth,
}
use stellarlend.Settings.{
  BorrowError, protocol_paused, invalid_amount, overflow, asset_not_supported,
  repay_amount_too_high, get_total_debt, set_total_debt,
}
use stellarlend.Pause.{is_paused}
use stellarlend.Debt.Position.{has_debt, get_debt_position, save_debt_position}
use stellarlend.Debt.Interest.{calculate_interest}

-- Is there nothing to repay?
abbrev pub is_empty : DebtPosition → Bool
is_empty p = eqb_ℤ p.borrowed_amount (pos 0) && eqb_ℤ p.interest_accrued (pos 0)

-- The interest that is left, and the part of the amount that is left for the principal. The
-- differences are of numbers whose order was tested; `-` traps out of range.
unfoldable pub repay_interest : ℤ → ℤ → Option (ℤ × ℤ)
repay_interest amount interest =
    if leb_ℤ interest amount
    then elim (to_i128 (amount -ℤ interest)) [ none ↦ none | some rest ↦ some (pos 0, rest) ]
    else elim (to_i128 (interest -ℤ amount)) [ none ↦ none | some left ↦ some (left, pos 0) ]

-- The principal that is left; the total debt falls with it.
unfoldable pub repay_principal : ℤ → ℤ → Call BorrowError ℤ
repay_principal remaining borrowed =
    if ltb_ℤ (pos 0) remaining
    then (do
      reject_if (ltb_ℤ borrowed remaining) repay_amount_too_high
      left ← or_trap (to_i128 (borrowed -ℤ remaining))
      total_debt ← gets get_total_debt
      new_total ← ok_or (checked_sub total_debt remaining) overflow
      set_total_debt new_total
      pure left)
    else pure borrowed

-- The position to repay, with the interest accrued so far.
unfoldable pub accrued_position : Address → Address → RateType → Call BorrowError DebtPosition
accrued_position user asset rate_type = do
  stored ← gets (λ s. get_debt_position s user (some asset) rate_type)
  let position = record stored { rate_type = rate_type }
  reject_if (is_empty position) invalid_amount
  reject_if (not (position.asset == asset)) asset_not_supported
  accrued_interest ← calculate_interest position
  interest ← ok_or (checked_add position.interest_accrued accrued_interest) overflow
  now ← gets (λ s. s.timestamp)
  pure (record position { interest_accrued = interest; last_update = now })

-- The writes at the end.
unfoldable pub save_repaid : Address → Address → ℤ → DebtPosition → Call BorrowError ⊤
save_repaid user asset amount position = do
  save_debt_position user position
  emit (λ s. repay_event user asset amount s.timestamp)

unfoldable pub repay_with_rate : Address → Address → ℤ → RateType → Call BorrowError ⊤
repay_with_rate user asset amount rate_type = do
  reject_if (leb_ℤ amount (pos 0)) invalid_amount
  position ← accrued_position user asset rate_type
  split ← or_trap (repay_interest amount position.interest_accrued)
  left ← repay_principal split.1 position.borrowed_amount
  save_repaid user asset amount
      (record position { interest_accrued = split.0; borrowed_amount = left })

-- The variable position first, if it has debt.
unfoldable pub repay : Address → Address → ℤ → Call BorrowError ⊤
repay user asset amount = do
  has_variable ← gets (λ s. has_debt (get_debt_position s user (some asset) variable))
  repay_with_rate user asset amount (if has_variable then variable else stable)

-- The entry points `repay` and `repay_with_rate`.
unfoldable pub entry_repay : Address → Address → ℤ → Call BorrowError ⊤
entry_repay user asset amount = do
  require_auth user
  paused ← gets (λ s. is_paused s PauseType.repay)
  reject_if paused protocol_paused
  repay user asset amount

unfoldable pub entry_repay_with_rate : Address → Address → ℤ → RateType → Call BorrowError ⊤
entry_repay_with_rate user asset amount rate_type = do
  require_auth user
  paused ← gets (λ s. is_paused s PauseType.repay)
  reject_if paused protocol_paused
  repay_with_rate user asset amount rate_type
