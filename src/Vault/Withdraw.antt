-- ===== src/Vault/Withdraw.antt =====
-- Withdrawals from the vault (lending/src/withdraw.rs). The debt that holds a withdrawal back is
-- the one under the legacy key of the borrow module.
use stellarlend.Prelude.{
  ℕ, Bool, true, false, Option, none, some, ◌||◌, unwrap_or, if◌then◌else◌, ⊤,
}
use stellarlend.Prelude.Int.{ℤ, pos, leb_ℤ, ltb_ℤ}
use stellarlend.Prelude.I128.{checked_add, checked_sub, checked_mul, checked_div}
use stellarlend.Prelude.Dict.{lookup}
use stellarlend.Storage.Borrow.{Address, DebtPosition}
use stellarlend.Storage.Pause.{PauseType}
use stellarlend.Storage.Vault.{WithdrawStore}
use stellarlend.Storage.Event.{withdraw_event}
use stellarlend.Host.{Env, Call, ◌>>=◌, ◌>>◌, gets, ok_or, reject_if, pure, modify, emit}
use stellarlend.Pause.{is_paused}
use stellarlend.Vault.Deposit.{
  get_deposit_position, save_deposit_position, get_total_deposits, set_total_deposits,
  require_auth_if,
}

pub data WithdrawError : Type 0 where
  invalid_amount withdraw_paused overflow insufficient_collateral : WithdrawError
  insufficient_collateral_ratio unauthorized : WithdrawError

abbrev pub min_collateral_ratio_bps : ℤ
min_collateral_ratio_bps = pos 15000

-- A write to the withdraw store.
abbrev pub update_withdraw : {E : Type 0} → (WithdrawStore → WithdrawStore) → Call E ⊤
update_withdraw f = modify λ s. record s { withdraw = f s.withdraw }

abbrev pub get_min_withdraw_amount : Env → ℤ
get_min_withdraw_amount s = unwrap_or s.withdraw.min_withdraw_amount (pos 0)

abbrev pub is_withdraw_paused : Env → Bool
is_withdraw_paused s = unwrap_or s.withdraw.paused false

-- The collateral that must stay for a debt.
unfoldable pub check_ratio : ℤ → ℤ → Call WithdrawError ⊤
check_ratio total_debt remaining_collateral =
    if ltb_ℤ (pos 0) total_debt
    then (do
      scaled ← ok_or (checked_mul total_debt min_collateral_ratio_bps) overflow
      min_collateral ← ok_or (checked_div scaled (pos 10000)) overflow
      reject_if (ltb_ℤ remaining_collateral min_collateral) insufficient_collateral_ratio)
    else pure tt

-- The check against a debt, if there is a record of one.
abbrev pub check_debt : Option DebtPosition → ℤ → Call WithdrawError ⊤
check_debt none remaining_collateral = pure tt
check_debt (some debt) remaining_collateral = do
  total_debt ← ok_or (checked_add debt.borrowed_amount debt.interest_accrued) overflow
  check_ratio total_debt remaining_collateral

unfoldable pub validate_collateral_ratio_after_withdraw : Address → ℤ → Call WithdrawError ⊤
unfolding check_ratio
validate_collateral_ratio_after_withdraw user remaining_collateral = do
  debt ← gets (λ s. lookup user s.borrow.user_debt)
  check_debt debt remaining_collateral

-- The writes of a withdrawal, and the remaining balance.
unfoldable pub save_withdraw : Address → Address → ℤ → ℤ → ℕ → Call WithdrawError ℤ
save_withdraw user asset amount new_amount last_deposit_time = do
  save_deposit_position user
      (record { amount = new_amount; asset = asset; last_deposit_time = last_deposit_time })
  total_deposits ← gets get_total_deposits
  set_total_deposits (unwrap_or (checked_sub total_deposits amount) (pos 0))
  emit (λ s. withdraw_event user asset amount new_amount s.timestamp)
  pure new_amount

unfoldable pub withdraw_with_auth : Address → Address → ℤ → Bool → Call WithdrawError ℤ
unfolding save_withdraw
withdraw_with_auth user asset amount needs_auth = do
  require_auth_if needs_auth user
  paused ← gets (λ s. is_withdraw_paused s || is_paused s PauseType.withdraw)
  reject_if paused withdraw_paused
  reject_if (leb_ℤ amount (pos 0)) invalid_amount
  min_withdraw ← gets get_min_withdraw_amount
  reject_if (ltb_ℤ amount min_withdraw) invalid_amount
  position ← gets (λ s. get_deposit_position s user asset)
  reject_if (ltb_ℤ position.amount amount) insufficient_collateral
  new_amount ← ok_or (checked_sub position.amount amount) overflow
  validate_collateral_ratio_after_withdraw user new_amount
  save_withdraw user asset amount new_amount position.last_deposit_time

abbrev pub withdraw : Address → Address → ℤ → Call WithdrawError ℤ
withdraw user asset amount = withdraw_with_auth user asset amount true

-- The entry point, which tests the pause flag once more.
unfoldable pub entry_withdraw : Address → Address → ℤ → Call WithdrawError ℤ
unfolding withdraw_with_auth
entry_withdraw user asset amount = do
  paused ← gets (λ s. is_paused s PauseType.withdraw)
  reject_if paused withdraw_paused
  withdraw user asset amount

unfoldable pub initialize_withdraw_settings : ℤ → Call WithdrawError ⊤
initialize_withdraw_settings min_withdraw_amount = do
  update_withdraw λ w. record w { min_withdraw_amount = some min_withdraw_amount }
  update_withdraw λ w. record w { paused = some false }

unfoldable pub set_withdraw_paused : Bool → Call WithdrawError ⊤
set_withdraw_paused paused = update_withdraw λ w. record w { paused = some paused }
