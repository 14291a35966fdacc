-- ===== src/Tests/Vaults.antt =====
-- Deposits and withdrawals (lending/src/deposit.rs, lending/src/withdraw.rs): runs and instances.
use stellarlend.Pause.{
  is_paused, set_emergency_state, set_deposit_paused, blocks_high_risk_ops, set_guardian,
  admin_set_pause, is_recovery, set_pause,
}
use stellarlend.Prelude.I128.{
  checked_sub, saturating_sub, checked_add, checked_div, checked_mul, saturating_mul,
  saturating_div, saturating_add,
}
use stellarlend.Prelude.{◌≡◌, refl, true, arith}
use stellarlend.Prelude.Int.{pos, ◌+ℤ◌, ◌-ℤ◌, ◌*ℤ◌, div}
use stellarlend.Prelude.Dict.{sum_by, insert, lookup}
use stellarlend.Host.Result.{ok, err}
use stellarlend.Host.{invoke}
use stellarlend.Vault.Deposit.{
  deposit_with_auth, entry_deposit, save_deposit, initialize_deposit_settings,
}
use stellarlend.Vault.Withdraw.{
  withdraw_with_auth, insufficient_collateral_ratio, check_ratio, save_withdraw,
  initialize_withdraw_settings, set_withdraw_paused, entry_withdraw,
  validate_collateral_ratio_after_withdraw,
}
use stellarlend.Vault.Books.{IsSound}
use stellarlend.Vault.Sound.{deposit_with_auth-IsSound, withdraw_with_auth-IsSound}
use stellarlend.Vault.Progress.{CanWithdraw, withdraw_with_auth-ok}
use stellarlend.Tests.Setup.{env, alice, xlm}

env-IsSound : IsSound env
unfolding sum_by ◌+ℤ◌
env-IsSound = ground arith

-- A deposit, and a withdrawal that would leave alice's debt of 4010 with less than 6015.
vault_runs :
    ((deposit_with_auth alice xlm (pos 500) true env).0 ≡ ok (pos 9500))
    × ((withdraw_with_auth alice xlm (pos 2985) true env).0 ≡ ok (pos 6015))
    × ((withdraw_with_auth alice xlm (pos 2986) true env).0 ≡ err insufficient_collateral_ratio)
unfolding ◌+ℤ◌ ◌-ℤ◌ ◌*ℤ◌ div checked_add checked_sub checked_mul checked_div saturating_add
    saturating_sub saturating_mul saturating_div lookup insert sum_by is_paused set_pause
    set_guardian is_recovery blocks_high_risk_ops set_emergency_state admin_set_pause
    set_deposit_paused save_deposit deposit_with_auth entry_deposit initialize_deposit_settings
    check_ratio validate_collateral_ratio_after_withdraw save_withdraw withdraw_with_auth
    entry_withdraw initialize_withdraw_settings set_withdraw_paused
vault_runs = (refl, refl, refl)

deposit_with_auth-IsSound_example :
    IsSound (invoke (deposit_with_auth alice xlm (pos 500) true) env).1
deposit_with_auth-IsSound_example =
    deposit_with_auth-IsSound alice xlm (pos 500) true env env-IsSound

withdraw_with_auth-IsSound_example :
    IsSound (invoke (withdraw_with_auth alice xlm (pos 500) true) env).1
withdraw_with_auth-IsSound_example =
    withdraw_with_auth-IsSound alice xlm (pos 500) true env env-IsSound

alice-CanWithdraw : CanWithdraw alice xlm (pos 2985) env
unfolding lookup is_paused ◌+ℤ◌ ◌-ℤ◌
alice-CanWithdraw = record {
  signed = refl;
  not_paused = refl;
  withdraw_not_paused = refl;
  amount_pos = omega arith;
  at_least_min = omega arith;
  enough = omega arith;
  balance_fits = omega arith;
  allowed = (4010, refl, omega arith, omega arith);
}

withdraw_with_auth-ok_example :
    (withdraw_with_auth alice xlm (pos 2985) true env).0 ≡ ok (pos 9000 -ℤ pos 2985)
unfolding lookup
withdraw_with_auth-ok_example =
    withdraw_with_auth-ok alice xlm (pos 2985) true env alice-CanWithdraw
