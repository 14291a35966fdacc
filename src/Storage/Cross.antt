-- ===== src/Storage/Cross.antt =====
-- Multi-asset positions (lending/src/cross_asset.rs). A host `Map` is an association list.
use stellarlend.Prelude.{ℕ, Bool, Option}
use stellarlend.Prelude.Int.{ℤ}
use stellarlend.Prelude.Dict.{Dict}
use stellarlend.Storage.Borrow.{Address}

pub record AssetParams : Type 0 where
  pub ltv : ℤ
  pub liquidation_threshold : ℤ
  pub price_feed : Address
  pub debt_ceiling : ℤ
  pub is_active : Bool

pub record UserCrossPosition : Type 0 where
  pub collateral_balances : Dict ℤ
  pub debt_balances : Dict ℤ
  pub last_update : ℕ

pub record PositionSummary : Type 0 where
  pub total_collateral_usd : ℤ
  pub total_debt_usd : ℤ
  pub health_factor : ℤ

-- `CrossAssetDataKey`, without the keys that no function reads
pub record CrossStore : Type 0 where
  pub asset_params : Dict AssetParams
  pub user_position : Dict UserCrossPosition
  pub total_asset_debt : Dict ℤ
  pub admin : Option Address
