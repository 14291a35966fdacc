-- ===== src/Tests/Scheduled.antt =====
-- Scheduled borrows (lending/src/commitments.rs): runs and instances.
use stellarlend.Debt.Borrow.{
  borrowed_position, check_borrow, collateralized_position, initialize, borrow_inner, commit_borrow,
  validate_collateral_ratio, deposit, initialize_borrow_settings,
}
use stellarlend.Debt.Interest.{
  update_stable_rate_state_if_needed, interest_at, add_stability_fee, smoothed, position_rate_bps,
  simple_interest, calculate_interest, deviation_bps, get_current_variable_rate_bps,
  get_stable_rate_state, get_current_stable_rate_bps,
}
use stellarlend.Debt.Position.{
  get_debt_position, save_debt_position, update_compat_user_debt, get_collateral_position,
  save_collateral_position,
}
use stellarlend.Risk.{
  on_utilization_changed, escalate, utilization_u32, set_risk_alert_thresholds, severity_for_util,
  alert,
}
use stellarlend.Pause.{
  is_recovery, set_emergency_state, set_deposit_paused, set_guardian, is_paused,
  blocks_high_risk_ops, set_pause, admin_set_pause,
}
use stellarlend.InterestRate.{
  utilization_bps, rate_above_kink, rate_below_kink, borrow_rate_bps, rate_jump,
  set_default_if_missing, supply_rate_bps, updated, update_fields, rate_at, utilization_of,
}
use stellarlend.Host.Arith.{i256_add, i256_div, i256_mul}
use stellarlend.Prelude.I128.{
  saturating_sub, checked_mul, checked_sub, saturating_mul, saturating_div, checked_div,
  saturating_add, checked_add,
}
use stellarlend.Prelude.{◌≡◌, refl, some, [], ◌∷◌, true, arith}
use stellarlend.Prelude.Int.{pos, ◌-ℤ◌, ◌+ℤ◌, ◌*ℤ◌, div}
use stellarlend.Prelude.Dict.{lookup, sum_by, insert}
use stellarlend.Storage.Commitment.{BorrowCommitment, any, pending, executed, cancelled}
use stellarlend.Host.Result.{ok, err}
use stellarlend.Host.{Env, invoke}
use stellarlend.Host.Laws.{OkOrSame}
use stellarlend.Settings.{get_total_debt}
use stellarlend.Commitments.{
  get_borrow_commitment, create_borrow_commitment, execute_borrow_commitment, expired_error,
  any_met, add_commitment, execute_found, fill, collateral_fill_of, all_met, trigger_met,
  mark_executed, triggers_satisfied, check_commitment, read_price, execute_triggered, cancel_found,
  length, cancel_borrow_commitment, check_expiry, fill_amount_of,
}
use stellarlend.Commitments.Status.{IsFresh}
use stellarlend.Commitments.Life.{execute, run_operation, done, invoked, elsewhere, closed_forever}
use stellarlend.Commitments.Execute.{Executed, execute_borrow_commitment-OkOrSame}
use stellarlend.Tests.Setup.{env, bob, usdc, xlm, borrow_store}

-- Borrow 6000 once the price of xlm is at least 90; half of it will do.
abbrev plan : BorrowCommitment
plan = record {
  owner = bob;
  triggers = record { asset = xlm; trigger_price = pos 90; fire_when_at_or_above = true } ∷ [];
  combiner = any;
  borrow_asset = usdc;
  collateral_asset = xlm;
  borrow_amount = pos 6000;
  collateral_amount = pos 9000;
  min_fill_bps = 5000;
  expiry_timestamp = 2000;
  status = pending;
}

abbrev withdrawn : BorrowCommitment
withdrawn = record plan { status = cancelled }

abbrev planned : Env
planned = record env {
  borrow = record borrow_store {
    user_debt = [];
    user_variable_debt = [];
    oracle_address = some 55;
  };
  commitments = record { next_id = some 2; commitment = (0, plan) ∷ (1, withdrawn) ∷ [] };
}

-- The ceiling has room for 5000 of the 6000; the commitment that expired cannot be executed.
scheduled_runs :
    let (r, t) = execute_borrow_commitment 0 planned in
    (r ≡ ok tt)
    × (get_total_debt t ≡ pos 10000)
    × (get_borrow_commitment t 0 ≡ some (record plan { status = executed }))
    × ((execute_borrow_commitment 0 (record planned { timestamp = 2001 })).0 ≡ err expired_error)
    × ((create_borrow_commitment plan planned).0 ≡ ok 2)
unfolding ◌+ℤ◌ ◌-ℤ◌ ◌*ℤ◌ div checked_add checked_sub checked_mul checked_div saturating_add
    saturating_sub saturating_mul saturating_div lookup insert sum_by i256_add i256_mul i256_div
    set_default_if_missing utilization_of utilization_bps rate_below_kink rate_jump rate_above_kink
    rate_at borrow_rate_bps supply_rate_bps updated update_fields is_paused set_pause set_guardian
    is_recovery blocks_high_risk_ops set_emergency_state admin_set_pause set_deposit_paused
    severity_for_util utilization_u32 escalate alert on_utilization_changed
    set_risk_alert_thresholds get_debt_position update_compat_user_debt save_debt_position
    get_collateral_position save_collateral_position get_current_variable_rate_bps
    get_stable_rate_state smoothed update_stable_rate_state_if_needed get_current_stable_rate_bps
    simple_interest deviation_bps add_stability_fee position_rate_bps interest_at calculate_interest
    validate_collateral_ratio check_borrow borrowed_position collateralized_position commit_borrow
    borrow_inner deposit initialize_borrow_settings initialize read_price trigger_met any_met
    all_met triggers_satisfied length check_commitment add_commitment create_borrow_commitment
    cancel_found cancel_borrow_commitment check_expiry fill_amount_of collateral_fill_of
    mark_executed fill execute_triggered execute_found execute_borrow_commitment
scheduled_runs = (refl, refl, refl, refl, refl)

planned-IsFresh : IsFresh planned
unfolding lookup
planned-IsFresh id l = ground arith

-- An execution of the other commitment, and some time.
abbrev later : Env
later = record (run_operation (execute 0) planned) { timestamp = 5000 }

closed_forever_example : get_borrow_commitment later 1 ≡ some withdrawn
unfolding lookup
closed_forever_example =
    closed_forever planned later 1 withdrawn (invoked (execute 0) (elsewhere refl done))
      planned-IsFresh refl refl

execute_borrow_commitment-OkOrSame_example :
    OkOrSame planned (λ _ t. Executed 0 planned t) (invoke (execute_borrow_commitment 0) planned)
execute_borrow_commitment-OkOrSame_example = execute_borrow_commitment-OkOrSame 0 planned
