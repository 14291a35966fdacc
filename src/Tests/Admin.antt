-- ===== src/Tests/Admin.antt =====
-- Settings, pause flags and alerts (lending/src/borrow.rs, lending/src/pause.rs,
-- lending/src/risk_monitor.rs): runs and instances.
use Prim.Native.Nat.{max}
use stellarlend.Prelude.{◌≡◌, refl, true, arith, ltb, if◌then◌else◌, ◌==◌, ◌∷◌}
use stellarlend.Prelude.Int.{pos}
use stellarlend.Storage.Pause.{PauseType}
use stellarlend.Storage.Event.{risk_utilization_alert}
use stellarlend.Host.Result.{ok}
use stellarlend.Settings.{BorrowError}
use stellarlend.Pause.{admin_set_pause}
use stellarlend.Risk.{last_emitted_tier, on_utilization_changed}
use stellarlend.Risk.Laws.{IsOrdered, tiers_reached, utilization_of, on_utilization_changed-latch}
use stellarlend.Tests.Setup.{env, admin, thresholds}

pause_run : (admin_set_pause admin PauseType.all true env).0 ≡ ok tt
unfolding admin_set_pause
pause_run = refl

thresholds-IsOrdered : IsOrdered thresholds
thresholds-IsOrdered = ground arith

on_utilization_changed-latch_example :
    let (r, s') = on_utilization_changed {E = BorrowError} (pos 9000) (pos 10000) env in
    let util = utilization_of (pos 9000) (pos 10000) in
    let tier = tiers_reached thresholds util in
    (r ≡ ok tt)
    × (s'.events ≡ (
        if ltb (last_emitted_tier env) tier
        then risk_utilization_alert tier util (pos 9000) (pos 10000) env.timestamp ∷ env.events
        else env.events))
    × (last_emitted_tier s' ≡ (if tier == 0 then 0 else max (last_emitted_tier env) tier))
on_utilization_changed-latch_example =
    on_utilization_changed-latch (pos 9000) (pos 10000) thresholds env (omega arith) refl
      thresholds-IsOrdered
