-- ===== src/Storage/Vault.antt =====
-- Vault deposits (lending/src/deposit.rs) and withdraw settings (lending/src/withdraw.rs).
use stellarlend.Prelude.{ℕ, Bool, Option}
use stellarlend.Prelude.Int.{ℤ}
use stellarlend.Prelude.Dict.{Dict}
use stellarlend.Storage.Borrow.{Address}

pub record DepositCollateral : Type 0 where
  pub amount : ℤ
  pub asset : Address
  pub last_deposit_time : ℕ

-- `DepositDataKey`
pub record VaultStore : Type 0 where
  pub user_collateral : Dict DepositCollateral
  pub total_amount : Option ℤ
  pub cap_amount : Option ℤ
  pub min_amount : Option ℤ

-- `WithdrawDataKey`
pub record WithdrawStore : Type 0 where
  pub paused : Option Bool
  pub min_withdraw_amount : Option ℤ
