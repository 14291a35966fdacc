-- ===== src/Liquidation.antt =====
-- Liquidation, bad debt and its recovery from the reserves (stellar-lend/contracts/lending/src/lib.rs).
pub mod Laws
pub mod Recovery
use stellarlend.Prelude.{Bool, Option, none, some, not, ◌==◌, unwrap_or, if◌then◌else◌, ⊤}
use stellarlend.Prelude.Int.{ℤ, pos, ◌+ℤ◌, ◌-ℤ◌, leb_ℤ, ltb_ℤ}
use stellarlend.Prelude.I128.{to_i128}
use stellarlend.Prelude.Dict.{lookup, insert}
use stellarlend.Storage.Borrow.{Address}
use stellarlend.Storage.Pause.{PauseType}
use stellarlend.Storage.Risk.{BadDebtStore}
use stellarlend.Storage.Event
use stellarlend.Storage.Event.{bad_debt_recovered}
use stellarlend.Host.{
  Env, Call, ◌>>=◌, ◌>>◌, gets, or_trap, reject_if, pure, modify, emit, require_auth,
}
use stellarlend.Settings.{
  BorrowError, protocol_paused, position_healthy, insufficient_reserves, check_admin,
}
use stellarlend.Pause.{is_paused}
use stellarlend.Views.{get_debt_value, get_health_factor}

abbrev pub get_total_bad_debt : Env → ℤ
get_total_bad_debt s = unwrap_or s.bad_debt.total (pos 0)

abbrev pub get_reserves : Env → ℤ
get_reserves s = unwrap_or s.bad_debt.protocol_reserves (pos 0)

-- The bad debt recorded for one user.
abbrev pub user_bad_debt : Env → Address → ℤ
user_bad_debt s user = unwrap_or (lookup user s.bad_debt.user) (pos 0)

-- A write to the bad debt store.
abbrev update_bad_debt : {E : Type 0} → (BadDebtStore → BadDebtStore) → Call E ⊤
update_bad_debt f = modify λ s. record s { bad_debt = f s.bad_debt }

unfoldable pub add_bad_debt : {E : Type 0} → Address → ℤ → Call E ⊤
add_bad_debt user amount = do
  total ← gets get_total_bad_debt
  new_total ← or_trap (to_i128 (total +ℤ amount))
  update_bad_debt (λ b. record b { total = some new_total })
  user_debt ← gets (λ s. user_bad_debt s user)
  new_debt ← or_trap (to_i128 (user_debt +ℤ amount))
  update_bad_debt (λ b. record b { user = insert user new_debt b.user })

-- What the repayment does not cover is bad debt.
unfoldable pub record_shortfall : Address → ℤ → ℤ → Call BorrowError ⊤
record_shortfall borrower debt_value recovered_value =
    if ltb_ℤ recovered_value debt_value
    then (do
      bad_debt ← or_trap (to_i128 (debt_value -ℤ recovered_value))
      add_bad_debt borrower bad_debt
      emit (λ _. Event.bad_debt borrower bad_debt))
    else pure tt

unfoldable pub liquidate : Address → Address → ℤ → Call BorrowError ⊤
liquidate liquidator borrower repay_amount = do
  require_auth liquidator
  paused ← gets (λ s. is_paused s PauseType.liquidation)
  reject_if paused protocol_paused
  debt_value ← get_debt_value borrower
  health ← get_health_factor borrower
  reject_if (leb_ℤ (pos 10000) health) position_healthy
  record_shortfall borrower debt_value repay_amount

-- The reserves and the total bad debt fall by the smaller of the amount and the total bad debt.
unfoldable pub cover_from_reserves : ℤ → Call BorrowError ⊤
cover_from_reserves amount = do
  reserves ← gets get_reserves
  bad_debt ← gets get_total_bad_debt
  reject_if (ltb_ℤ reserves amount) insufficient_reserves
  let repay_amount = if ltb_ℤ bad_debt amount then bad_debt else amount
  new_reserves ← or_trap (to_i128 (reserves -ℤ repay_amount))
  new_bad_debt ← or_trap (to_i128 (bad_debt -ℤ repay_amount))
  update_bad_debt (λ b. record b { protocol_reserves = some new_reserves })
  update_bad_debt (λ b. record b { total = some new_bad_debt })
  emit (λ _. bad_debt_recovered repay_amount)

-- The admin covers bad debt from the reserves.
unfoldable pub recover_bad_debt : Address → ℤ → Call BorrowError ⊤
recover_bad_debt admin amount = do check_admin admin; cover_from_reserves amount
