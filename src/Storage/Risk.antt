-- ===== src/Storage/Risk.antt =====
-- Utilization alerts (lending/src/risk_monitor.rs), bad debt and reserves (lending/src/lib.rs).
use stellarlend.Prelude.{ℕ, Option}
use stellarlend.Prelude.Int.{ℤ}
use stellarlend.Prelude.Dict.{Dict}

pub record RiskAlertThresholds : Type 0 where
  pub warning_utilization_bps : ℕ  -- u32
  pub critical_utilization_bps : ℕ  -- u32
  pub emergency_utilization_bps : ℕ  -- u32

-- `RiskMonitorKey`
pub record RiskStore : Type 0 where
  pub thresholds : Option RiskAlertThresholds
  pub last_emitted_tier : Option ℕ

-- `BadDebtKey` and `ReserveKey`
pub record BadDebtStore : Type 0 where
  pub total : Option ℤ
  pub user : Dict ℤ
  pub protocol_reserves : Option ℤ
