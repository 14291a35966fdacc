-- ===== src/Risk/Laws.antt =====
-- The latch of the utilization alerts: who is told, and how often.
use Prim.Native.Nat.{min, max}
use stellarlend.Prelude.{
  ℕ, zero, suc, ◌+◌, ◌*◌, ◌/◌, ◌-◌, ◌^◌, ◌≡◌, refl, ◌≤◌, ◌<◌, ◌⊎◌, ◌&&◌, ◌==◌, some, ◌∷◌, arith,
  ltb, leb, if◌then◌else◌,
}
use stellarlend.Prelude.Int.{ℤ, pos, negsuc, pos_part, ◌≤ℤ◌, ◌*ℤ◌, div, pos-*ℤ}
use stellarlend.Prelude.I128.{saturating_mul, saturating_div}
use native.Mathlib.Nat.{div-le_self}
use stellarlend.Storage.Borrow.{Address}
use stellarlend.Storage.Risk.{RiskAlertThresholds}
use stellarlend.Storage.Event.{risk_utilization_alert}
use stellarlend.Host.Result.{ok}
use stellarlend.Host.{Env}
use stellarlend.Settings.{BorrowError}
use stellarlend.Risk.{
  last_emitted_tier, severity_discriminant, severity_for_util, utilization_u32, escalate, alert,
  on_utilization_changed, set_risk_alert_thresholds,
}

-- The stored thresholds are ordered, where they are enabled.
pub record IsOrdered (th : RiskAlertThresholds) : Type 0 where
  pub warning_on : 0 < th.warning_utilization_bps
  pub critical_above :
      0 < th.critical_utilization_bps → th.warning_utilization_bps ≤ th.critical_utilization_bps
  pub emergency_on : 0 < th.emergency_utilization_bps → 0 < th.critical_utilization_bps
  pub emergency_above :
      0 < th.emergency_utilization_bps → th.critical_utilization_bps ≤ th.emergency_utilization_bps

-- Accepted thresholds are ordered and the latch is reset; otherwise nothing changes.
set_risk_alert_thresholds-IsOrdered :
    (admin : Address) (th : RiskAlertThresholds) (s : Env)
    → let (r, s') = set_risk_alert_thresholds admin th s in
      ((r ≡ ok tt) × IsOrdered th × (s'.risk.thresholds ≡ some th) × (last_emitted_tier s' ≡ 0))
      ⊎ (s' ≡ s)
unfolding set_risk_alert_thresholds
set_risk_alert_thresholds-IsOrdered admin th s = ground arith

-- A higher utilization has at least the severity of a lower one.
severity_for_util_mono :
    (u w : ℕ) (th : RiskAlertThresholds)
    → IsOrdered th
    → u ≤ w
    → severity_discriminant (severity_for_util u th)
      ≤ severity_discriminant (severity_for_util w th)
unfolding severity_for_util
severity_for_util_mono u w th o h = ground arith

-- A threshold that is enabled and reached counts 1.
abbrev pub reached : ℕ → ℕ → ℕ
reached threshold util = if ltb 0 threshold && leb threshold util then 1 else 0

-- The number of thresholds that a utilization has reached.
abbrev pub tiers_reached : RiskAlertThresholds → ℕ → ℕ
tiers_reached th util =
    reached th.warning_utilization_bps util
    + reached th.critical_utilization_bps util
    + reached th.emergency_utilization_bps util

-- The debt in basis points of the ceiling, rounded down, 0 for a negative debt; the product stops at
-- the end of i128, the quotient at the end of u32.
abbrev pub utilization_of : ℤ → ℤ → ℕ
utilization_of debt ceiling =
    min (min (pos_part debt * 10000) (2 ^ 127 - 1) / pos_part ceiling) (2 ^ 32 - 1)

product-pos : (n : ℕ) → saturating_mul (pos n) (pos 10000) ≡ pos (min (n * 10000) (2 ^ 127 - 1))
unfolding saturating_mul
product-pos n = rw (pos-*ℤ n 10000) (ground arith)

quotient-pos : (a c : ℕ) → a ≤ 2 ^ 127 - 1 → saturating_div (pos a) (pos c) ≡ pos (a / c)
unfolding saturating_div div
quotient-pos a c h = ground (arith, div-le_self a c)

product-neg : (n : ℕ) → saturating_mul (negsuc n) (pos 10000) ≤ℤ pos 0
unfolding saturating_mul ◌*ℤ◌
product-neg n = ground arith

quotient-neg : (a : ℤ) (c : ℕ) → a ≤ℤ pos 0 → pos_part (saturating_div a (pos c)) ≡ 0
unfolding saturating_div div
quotient-neg (pos zero) c h = ground (arith, div-le_self 0 c)
quotient-neg (pos (suc n)) c h = absurd (omega (arith, h))
quotient-neg (negsuc n) c h = ground arith

utilization_u32-utilization_of :
    (debt ceiling : ℤ)
    → pos 1 ≤ℤ ceiling
    → utilization_u32 debt ceiling ≡ utilization_of debt ceiling
unfolding utilization_u32
utilization_u32-utilization_of debt (negsuc c) h = absurd (omega (arith, h))
utilization_u32-utilization_of (pos n) (pos c) h =
    rw (product-pos n, quotient-pos (min (n * 10000) (2 ^ 127 - 1)) c (omega arith)) refl
utilization_u32-utilization_of (negsuc n) (pos c) h =
    let product = saturating_mul (negsuc n) (pos 10000) in
    ground (arith, quotient-neg product c (product-neg n), div-le_self 0 c)

severity-tiers_reached :
    (th : RiskAlertThresholds) (util : ℕ)
    → IsOrdered th
    → th.warning_utilization_bps ≤ util
    → severity_discriminant (severity_for_util util th) ≡ tiers_reached th util
unfolding severity_for_util
severity-tiers_reached th util o h = ground arith

-- With ordered thresholds stored and a positive ceiling, an update takes as tier the number of enabled
-- thresholds that the utilization (the debt in basis points of the ceiling, rounded down and capped)
-- has reached. It publishes one alert with that tier if the tier is above the latch, and none
-- otherwise; the latch is then 0 if the tier is 0, and else the higher of the tier and what it was.
pub on_utilization_changed-latch :
    (debt ceiling : ℤ) (th : RiskAlertThresholds) (s : Env)
    → pos 1 ≤ℤ ceiling
    → s.risk.thresholds ≡ some th
    → IsOrdered th
    → let (r, s') = on_utilization_changed {E = BorrowError} debt ceiling s in
      let util = utilization_of debt ceiling in
      let tier = tiers_reached th util in
      (r ≡ ok tt)
      × (s'.events ≡ (
          if ltb (last_emitted_tier s) tier
          then risk_utilization_alert tier util debt ceiling s.timestamp ∷ s.events
          else s.events))
      × (last_emitted_tier s' ≡ (if tier == 0 then 0 else max (last_emitted_tier s) tier))
unfolding on_utilization_changed alert escalate
on_utilization_changed-latch debt ceiling th s p e o =
    let util = utilization_u32-utilization_of debt ceiling p in
    ground (arith, util, severity-tiers_reached th (utilization_of debt ceiling) o)
