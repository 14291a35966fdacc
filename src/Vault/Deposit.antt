-- ===== src/Vault/Deposit.antt =====
-- Deposits into the vault (lending/src/deposit.rs). A user has one position, whatever the asset.
use stellarlend.Prelude.{Bool, true, false, some, unwrap_or, ⊤}
use stellarlend.Prelude.Int.{ℤ, pos, leb_ℤ, ltb_ℤ}
use stellarlend.Prelude.I128.{i128_max, checked_add}
use stellarlend.Prelude.Dict.{lookup, insert}
use stellarlend.Storage.Borrow.{Address}
use stellarlend.Storage.Pause.{PauseType}
use stellarlend.Storage.Vault.{DepositCollateral, VaultStore}
use stellarlend.Storage.Event.{vault_deposit}
use stellarlend.Host.{
  Env, Call, ◌>>=◌, ◌>>◌, gets, ok_or, reject_if, pure, modify, emit, require_auth,
}
use stellarlend.Pause.{is_paused}

pub data DepositError : Type 0 where
  invalid_amount deposit_paused overflow asset_not_supported exceeds_deposit_cap unauthorized :
      DepositError

-- A write to the vault store.
abbrev pub update_vault : {E : Type 0} → (VaultStore → VaultStore) → Call E ⊤
update_vault f = modify λ s. record s { vault = f s.vault }

abbrev pub get_deposit_position : Env → Address → Address → DepositCollateral
get_deposit_position s user asset =
    unwrap_or (lookup user s.vault.user_collateral)
      (record { amount = pos 0; asset = asset; last_deposit_time = s.timestamp })

abbrev pub save_deposit_position : {E : Type 0} → Address → DepositCollateral → Call E ⊤
save_deposit_position user position =
    update_vault λ v. record v { user_collateral = insert user position v.user_collateral }

abbrev pub get_total_deposits : Env → ℤ
get_total_deposits s = unwrap_or s.vault.total_amount (pos 0)

abbrev pub set_total_deposits : {E : Type 0} → ℤ → Call E ⊤
set_total_deposits amount = update_vault λ v. record v { total_amount = some amount }

abbrev pub get_deposit_cap : Env → ℤ
get_deposit_cap s = unwrap_or s.vault.cap_amount i128_max

abbrev pub get_min_deposit_amount : Env → ℤ
get_min_deposit_amount s = unwrap_or s.vault.min_amount (pos 0)

abbrev pub require_auth_if : {E : Type 0} → Bool → Address → Call E ⊤
require_auth_if true user = require_auth user
require_auth_if false user = pure tt

-- The writes of a deposit, and the new balance.
unfoldable pub save_deposit : Address → Address → ℤ → ℤ → ℤ → Call DepositError ℤ
save_deposit user asset amount balance new_total = do
  now ← gets (λ s. s.timestamp)
  save_deposit_position user (record { amount = balance; asset = asset; last_deposit_time = now })
  set_total_deposits new_total
  emit (λ s. vault_deposit user asset amount balance s.timestamp)
  pure balance

unfoldable pub deposit_with_auth : Address → Address → ℤ → Bool → Call DepositError ℤ
unfolding save_deposit
deposit_with_auth user asset amount needs_auth = do
  require_auth_if needs_auth user
  paused ← gets (λ s. is_paused s PauseType.deposit)
  reject_if paused deposit_paused
  reject_if (leb_ℤ amount (pos 0)) invalid_amount
  min_deposit ← gets get_min_deposit_amount
  reject_if (ltb_ℤ amount min_deposit) invalid_amount
  total_deposits ← gets get_total_deposits
  deposit_cap ← gets get_deposit_cap
  new_total ← ok_or (checked_add total_deposits amount) overflow
  reject_if (ltb_ℤ deposit_cap new_total) exceeds_deposit_cap
  position ← gets (λ s. get_deposit_position s user asset)
  balance ← ok_or (checked_add position.amount amount) overflow
  save_deposit user asset amount balance new_total

abbrev pub deposit : Address → Address → ℤ → Call DepositError ℤ
deposit user asset amount = deposit_with_auth user asset amount true

-- The entry point, which tests the pause flag once more.
unfoldable pub entry_deposit : Address → Address → ℤ → Call DepositError ℤ
unfolding deposit_with_auth
entry_deposit user asset amount = do
  paused ← gets (λ s. is_paused s PauseType.deposit)
  reject_if paused deposit_paused
  deposit user asset amount

unfoldable pub initialize_deposit_settings : ℤ → ℤ → Call DepositError ⊤
initialize_deposit_settings deposit_cap min_deposit_amount = do
  update_vault λ v. record v { cap_amount = some deposit_cap }
  update_vault λ v. record v { min_amount = some min_deposit_amount }
