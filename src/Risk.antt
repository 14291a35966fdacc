-- ===== src/Risk.antt =====
-- Utilization alerts (stellar-lend/contracts/lending/src/risk_monitor.rs). The severities are the
-- numbers 1 to 3 of their `repr(u32)`.
pub mod Laws
use stellarlend.Prelude.{
  ℕ, ◌^◌, ◌-◌, Bool, true, false, Option, none, some, ◌&&◌, ◌==◌, not, ltb, leb, unwrap_or,
  if◌then◌else◌, ⊤,
}
use Prim.Native.Nat.{min}
use stellarlend.Prelude.Int.{ℤ, pos, pos_part, leb_ℤ}
use stellarlend.Prelude.I128.{saturating_mul, saturating_div}
use stellarlend.Storage.Borrow.{Address}
use stellarlend.Storage.Risk.{RiskAlertThresholds, RiskStore}
use stellarlend.Storage.Event.{risk_utilization_alert}
use stellarlend.Host.Result.{Outcome, ok, err, trap}
use stellarlend.Host.{Env, Call, ◌>>=◌, ◌>>◌, gets, ok_or, reject_if, modify, emit, require_auth}
use stellarlend.Settings.{get_admin}

pub data RiskAlertSeverity : Type 0 where
  warning critical emergency : RiskAlertSeverity

pub data RiskMonitorError : Type 0 where
  unauthorized invalid_thresholds : RiskMonitorError

abbrev pub severity_discriminant : RiskAlertSeverity → ℕ
severity_discriminant warning = 1
severity_discriminant critical = 2
severity_discriminant emergency = 3

-- `u32::MAX`
abbrev pub u32_max : ℕ
u32_max = 2 ^ 32 - 1

-- A write to the risk store.
abbrev update_risk : {E : Type 0} → (RiskStore → RiskStore) → Call E ⊤
update_risk f = modify λ s. record s { risk = f s.risk }

unfoldable pub severity_for_util : ℕ → RiskAlertThresholds → RiskAlertSeverity
severity_for_util util th =
    if ltb 0 th.emergency_utilization_bps && leb th.emergency_utilization_bps util
    then emergency
    else if ltb 0 th.critical_utilization_bps && leb th.critical_utilization_bps util
    then critical
    else warning

-- `max(0) as u128`, cut at `u32::MAX`
unfoldable pub utilization_u32 : ℤ → ℤ → ℕ
utilization_u32 total_debt debt_ceiling =
    min (pos_part (saturating_div (saturating_mul total_debt (pos 10000)) debt_ceiling)) u32_max

abbrev pub last_emitted_tier : Env → ℕ
last_emitted_tier s = unwrap_or s.risk.last_emitted_tier 0

-- The end of `on_utilization_changed`: an alert only on escalation.
unfoldable pub escalate : {E : Type 0} → ℕ → ℕ → ℤ → ℤ → Call E ⊤
escalate tier util total_debt debt_ceiling s =
    if ltb (last_emitted_tier s) tier
    then (do
      emit (λ s. risk_utilization_alert tier util total_debt debt_ceiling s.timestamp)
      update_risk (λ b. record b { last_emitted_tier = some tier }))
        s
    else (ok tt, s)

unfoldable pub alert : {E : Type 0} → RiskAlertThresholds → ℤ → ℤ → Call E ⊤
alert th total_debt debt_ceiling =
    if th.warning_utilization_bps == 0
    then (λ s. (ok tt, s))
    else let util = utilization_u32 total_debt debt_ceiling in
      if ltb util th.warning_utilization_bps
      then update_risk (λ b. record b { last_emitted_tier = some 0 })
      else escalate (severity_discriminant (severity_for_util util th)) util total_debt debt_ceiling

unfoldable pub on_utilization_changed : {E : Type 0} → ℤ → ℤ → Call E ⊤
on_utilization_changed total_debt debt_ceiling s =
    if leb_ℤ debt_ceiling (pos 0)
    then (ok tt, s)
    else elim s.risk.thresholds [ none ↦ (ok tt, s) | some th ↦ alert th total_debt debt_ceiling s ]

unfoldable pub set_risk_alert_thresholds : Address → RiskAlertThresholds → Call RiskMonitorError ⊤
set_risk_alert_thresholds admin th = do
  require_auth admin
  stored ← ok_or (← gets get_admin) unauthorized
  reject_if (not (admin == stored)) unauthorized
  reject_if (th.warning_utilization_bps == 0) invalid_thresholds
  reject_if
      (ltb 0 th.critical_utilization_bps
        && ltb th.critical_utilization_bps th.warning_utilization_bps)
      invalid_thresholds
  reject_if (ltb 0 th.emergency_utilization_bps && th.critical_utilization_bps == 0)
      invalid_thresholds
  reject_if
      (ltb 0 th.emergency_utilization_bps
        && ltb th.emergency_utilization_bps th.critical_utilization_bps)
      invalid_thresholds
  update_risk (λ b. record b { thresholds = some th })
  update_risk (λ b. record b { last_emitted_tier = some 0 })

abbrev pub get_risk_alert_thresholds : Env → Option RiskAlertThresholds
get_risk_alert_thresholds s = s.risk.thresholds
