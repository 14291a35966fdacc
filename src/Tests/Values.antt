-- ===== src/Tests/Values.antt =====
-- Views and liquidation (lending/src/views.rs, lending/src/lib.rs): runs and instances.
use stellarlend.Pause.{
  blocks_high_risk_ops, set_pause, is_paused, set_deposit_paused, is_recovery, set_guardian,
  admin_set_pause, set_emergency_state,
}
use stellarlend.Debt.View.{
  get_user_debt, get_user_collateral, with_accrued, accrued_view, get_user_debt_with_rate,
  main_position,
}
use stellarlend.Debt.Interest.{
  get_current_variable_rate_bps, update_stable_rate_state_if_needed, get_stable_rate_state,
  smoothed, calculate_interest, add_stability_fee, interest_at, position_rate_bps, simple_interest,
  deviation_bps, get_current_stable_rate_bps,
}
use stellarlend.Debt.Position.{
  update_compat_user_debt, save_collateral_position, save_debt_position, get_collateral_position,
  get_debt_position,
}
use stellarlend.InterestRate.{
  rate_above_kink, supply_rate_bps, updated, update_fields, set_default_if_missing, rate_at,
  borrow_rate_bps, rate_jump, utilization_bps, utilization_of, rate_below_kink,
}
use stellarlend.Host.Arith.{i256_div, i256_mul, i256_add}
use stellarlend.Prelude.I128.{
  saturating_sub, saturating_add, saturating_mul, checked_add, saturating_div, checked_sub,
  checked_div, checked_mul,
}
use stellarlend.Prelude.{◌≡◌, refl, none, some, arith, leb, true, [], ◌∷◌}
use stellarlend.Prelude.Int.{ℤ, pos, leb_ℤ, ◌+ℤ◌, ◌*ℤ◌, ◌-ℤ◌, div}
use stellarlend.Prelude.Dict.{sum_by, insert, lookup}
use stellarlend.Host.Result.{ok, err}
use stellarlend.Host.{Env, invoke}
use stellarlend.Host.Laws.{OkOrSame}
use stellarlend.Settings.{
  BorrowError, insufficient_reserves, set_oracle, check_admin, set_liquidation_incentive_bps,
  set_stablecoin_config, set_close_factor_bps, set_liquidation_threshold_bps,
}
use stellarlend.Views.{
  compute_health_factor, get_liquidation_incentive_amount, get_max_liquidatable_amount,
  get_debt_balance, get_health_factor, get_debt_value, priced, mul_div, health_ratio,
  get_collateral_value, get_collateral_balance, get_user_position, get_protocol_report, value_of,
  report_stats, liquidatable_at,
}
use stellarlend.Views.Health.{compute_health_factor_healthy_iff}
use stellarlend.Liquidation.{
  liquidate, recover_bad_debt, get_total_bad_debt, get_reserves, record_shortfall, add_bad_debt,
  cover_from_reserves,
}
use stellarlend.Liquidation.Laws.{
  Liquidated, liquidate-OkOrSame, IsAccounted, liquidate-IsAccounted,
}
use stellarlend.Liquidation.Recovery.{Recovered, recover_bad_debt-OkOrSame}
use stellarlend.Tests.Setup.{env, admin, alice, bob, borrow_store}

-- With an oracle, at a price of 1, and alice's collateral down to 4000 against a debt of 4010.
abbrev priced_env : Env
priced_env = record env {
  price = λ _ _. some (pos 100_000_000);
  borrow = record borrow_store {
    oracle_address = some 55;
    user_collateral = (alice, record { amount = pos 4000; asset = 2 }) ∷ [];
  };
  bad_debt = record { total = none; user = []; protocol_reserves = some (pos 700) };
}

-- 4000 * 80 % * 10000 / 4010, and half of 4010.
view_runs :
    ((get_health_factor {E = BorrowError} alice priced_env).0 ≡ ok (pos 7980))
    × ((get_max_liquidatable_amount {E = BorrowError} alice priced_env).0 ≡ ok (pos 2005))
unfolding ◌+ℤ◌ ◌-ℤ◌ ◌*ℤ◌ div checked_add checked_sub checked_mul checked_div saturating_add
    saturating_sub saturating_mul saturating_div lookup insert sum_by i256_add i256_mul i256_div
    set_default_if_missing utilization_of utilization_bps rate_below_kink rate_jump rate_above_kink
    rate_at borrow_rate_bps supply_rate_bps updated update_fields get_debt_position
    update_compat_user_debt save_debt_position get_collateral_position save_collateral_position
    get_current_variable_rate_bps get_stable_rate_state smoothed update_stable_rate_state_if_needed
    get_current_stable_rate_bps simple_interest deviation_bps add_stability_fee position_rate_bps
    interest_at calculate_interest with_accrued accrued_view main_position get_user_debt
    get_user_debt_with_rate get_user_collateral mul_div priced value_of health_ratio
    compute_health_factor get_collateral_balance get_debt_balance get_collateral_value
    get_debt_value get_health_factor liquidatable_at get_max_liquidatable_amount
    get_liquidation_incentive_amount get_user_position report_stats get_protocol_report
view_runs = (refl, refl)

-- The shortfall of 4010 - 1000 is bad debt; 700 are covered from the reserves, 800 cannot be.
liquidation_runs :
    let (r, t) = liquidate bob alice (pos 1000) priced_env in
    let (q, u) = recover_bad_debt admin (pos 700) t in
    (r ≡ ok tt)
    × (get_total_bad_debt t ≡ pos 3010)
    × (q ≡ ok tt)
    × (get_total_bad_debt u ≡ pos 2310)
    × (get_reserves u ≡ pos 0)
    × ((recover_bad_debt admin (pos 800) t).0 ≡ err insufficient_reserves)
unfolding ◌+ℤ◌ ◌-ℤ◌ ◌*ℤ◌ div checked_add checked_sub checked_mul checked_div saturating_add
    saturating_sub saturating_mul saturating_div lookup insert sum_by i256_add i256_mul i256_div
    set_default_if_missing utilization_of utilization_bps rate_below_kink rate_jump rate_above_kink
    rate_at borrow_rate_bps supply_rate_bps updated update_fields is_paused set_pause set_guardian
    is_recovery blocks_high_risk_ops set_emergency_state admin_set_pause set_deposit_paused
    check_admin set_oracle set_liquidation_threshold_bps set_close_factor_bps
    set_liquidation_incentive_bps set_stablecoin_config get_debt_position update_compat_user_debt
    save_debt_position get_collateral_position save_collateral_position
    get_current_variable_rate_bps get_stable_rate_state smoothed update_stable_rate_state_if_needed
    get_current_stable_rate_bps simple_interest deviation_bps add_stability_fee position_rate_bps
    interest_at calculate_interest with_accrued accrued_view main_position get_user_debt
    get_user_debt_with_rate get_user_collateral mul_div priced value_of health_ratio
    compute_health_factor get_collateral_balance get_debt_balance get_collateral_value
    get_debt_value get_health_factor liquidatable_at get_max_liquidatable_amount
    get_liquidation_incentive_amount get_user_position report_stats get_protocol_report add_bad_debt
    record_shortfall liquidate cover_from_reserves recover_bad_debt
liquidation_runs = (refl, refl, refl, refl, refl, refl)

compute_health_factor_healthy_iff_example :
    (hf : ℤ) × (compute_health_factor {E = BorrowError} (pos 4000) (pos 4010) true priced_env
      ≡ (ok hf, priced_env))
    × (leb_ℤ (pos 10000) hf ≡ leb 4010 3200)
compute_health_factor_healthy_iff_example =
    compute_health_factor_healthy_iff BorrowError 4000 4010 8000 55 true priced_env refl refl
      (omega arith) (omega arith)

liquidate-OkOrSame_example :
    OkOrSame priced_env
      (λ _ t. Liquidated bob alice (pos 1000) priced_env t)
      (invoke (liquidate bob alice (pos 1000)) priced_env)
liquidate-OkOrSame_example = liquidate-OkOrSame bob alice (pos 1000) priced_env

priced_env-IsAccounted : IsAccounted priced_env
unfolding sum_by
priced_env-IsAccounted = refl

liquidate-IsAccounted_example : IsAccounted (invoke (liquidate bob alice (pos 1000)) priced_env).1
liquidate-IsAccounted_example =
    liquidate-IsAccounted bob alice (pos 1000) priced_env priced_env-IsAccounted

recover_bad_debt-OkOrSame_example :
    OkOrSame priced_env
      (λ _ t. Recovered admin (pos 700) priced_env t)
      (invoke (recover_bad_debt admin (pos 700)) priced_env)
recover_bad_debt-OkOrSame_example = recover_bad_debt-OkOrSame admin (pos 700) priced_env
