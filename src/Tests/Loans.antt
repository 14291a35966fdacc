-- ===== src/Tests/Loans.antt =====
-- Borrowing, repaying and switching (lending/src/borrow.rs): runs and instances.
use stellarlend.Prelude.{Option, true}
use stellarlend.Storage.Borrow.{Address}
use stellarlend.Host.{Call}
use stellarlend.Debt.Interest.{
  deviation_bps, add_stability_fee, position_rate_bps, simple_interest, get_stable_rate_state,
  interest_at, smoothed, calculate_interest, get_current_stable_rate_bps,
  get_current_variable_rate_bps, update_stable_rate_state_if_needed,
}
use stellarlend.Risk.{
  escalate, on_utilization_changed, utilization_u32, set_risk_alert_thresholds, severity_for_util,
  alert,
}
use stellarlend.Pause.{
  blocks_high_risk_ops, admin_set_pause, set_emergency_state, is_recovery, set_deposit_paused,
  is_paused, set_pause, set_guardian,
}
use stellarlend.InterestRate.{
  updated, set_default_if_missing, rate_above_kink, utilization_of, borrow_rate_bps, rate_at,
  utilization_bps, update_fields, rate_below_kink, supply_rate_bps, rate_jump,
}
use stellarlend.Host.Arith.{i256_mul, i256_add, i256_div}
use stellarlend.Prelude.I128.{
  checked_add, saturating_add, saturating_mul, checked_sub, checked_div, saturating_sub,
  checked_mul, saturating_div,
}
use stellarlend.Prelude.{[], ◌≡◌, refl, ⊤, none, some, arith}
use stellarlend.Prelude.Int.{ℤ, pos, ◌+ℤ◌, div, ◌-ℤ◌, ◌*ℤ◌}
use stellarlend.Prelude.Dict.{lookup, sum_by, insert}
use stellarlend.Storage.Borrow.{variable, stable}
use stellarlend.Host.Result.{Outcome, ok, err}
use stellarlend.Host.{Env, invoke}
use stellarlend.Host.Laws.{OkOrSame}
use stellarlend.Settings.{
  BorrowError, insufficient_collateral, debt_ceiling_reached, get_total_debt,
}
use stellarlend.Debt.Position.{
  get_debt_position, save_collateral_position, get_collateral_position, update_compat_user_debt,
  save_debt_position,
}
use stellarlend.Debt.Position.Laws.{saved, get-save_debt_position}
use stellarlend.Debt.Balance.{IsBalanced, IsCanonical}
use stellarlend.Debt.Borrow.{
  borrow_inner, require_user_signature, trusted_commitment, validate_collateral_ratio, check_borrow,
  borrowed_position, commit_borrow, deposit, collateralized_position, initialize_borrow_settings,
  initialize,
}
use stellarlend.Debt.Borrow.Progress.{CanBorrow, borrow_inner-ok}
use stellarlend.Debt.Borrow.Correct.{Borrowed, borrow_inner-OkOrSame, borrow_inner-IsBalanced}
use stellarlend.Debt.Repay.{
  repay_with_rate, save_repaid, repay, repay_interest, entry_repay_with_rate, repay_principal,
  accrued_position, entry_repay,
}
use stellarlend.Debt.Repay.Correct.{Repaid, repay_with_rate-OkOrSame, repay_with_rate-IsBalanced}
use stellarlend.Debt.Switch.{
  switch_rate_type, moved_interest, switch_fee, check_switch, switch_positions, save_switched,
}
use stellarlend.Debt.Switch.Laws.{Switched, switch_rate_type-OkOrSame}
use stellarlend.Debt.Legacy.{stable_borrow_reads_twice, stable_borrow_holds_nothing_back}
use stellarlend.Vault.Withdraw.{withdraw_with_auth}
use stellarlend.Tests.Setup.{borrow_store, env, alice, bob, usdc, xlm, alice_debt, bob_debt}

env-IsBalanced : IsBalanced env
unfolding sum_by ◌+ℤ◌
env-IsBalanced = refl

abbrev borrowed_by : ℤ → ℤ → Outcome BorrowError ⊤ × Env
unfolding ◌+ℤ◌ ◌-ℤ◌ ◌*ℤ◌ div checked_add checked_sub checked_mul checked_div saturating_add
    saturating_sub saturating_mul saturating_div lookup insert sum_by i256_add i256_mul i256_div
    set_default_if_missing utilization_of utilization_bps rate_below_kink rate_jump rate_above_kink
    rate_at borrow_rate_bps supply_rate_bps updated update_fields is_paused set_pause set_guardian
    is_recovery blocks_high_risk_ops set_emergency_state admin_set_pause set_deposit_paused
    severity_for_util utilization_u32 escalate alert on_utilization_changed
    set_risk_alert_thresholds get_debt_position update_compat_user_debt save_debt_position
    get_collateral_position save_collateral_position get_current_variable_rate_bps
    get_stable_rate_state smoothed update_stable_rate_state_if_needed get_current_stable_rate_bps
    simple_interest deviation_bps add_stability_fee position_rate_bps interest_at calculate_interest
    validate_collateral_ratio check_borrow borrowed_position collateralized_position commit_borrow
    borrow_inner deposit initialize_borrow_settings initialize
borrowed_by amount collateral =
    borrow_inner alice usdc amount xlm collateral variable require_user_signature env

-- A borrow within the ceiling of 10000, one beyond it, and one with too little collateral.
borrow_runs :
    ((borrowed_by (pos 2000) (pos 3000)).0 ≡ ok tt)
    × (get_total_debt (borrowed_by (pos 2000) (pos 3000)).1 ≡ pos 7000)
    × ((borrowed_by (pos 6000) (pos 9000)).0 ≡ err debt_ceiling_reached)
    × ((borrowed_by (pos 2000) (pos 2999)).0 ≡ err insufficient_collateral)
unfolding borrowed_by
borrow_runs = (refl, refl, refl, refl)

-- A repayment of 500 pays the 10 of interest and 490 of the principal; a switch costs 10 basis points
-- of 4000.
repay_and_switch_runs :
    let (r, t) = repay_with_rate alice usdc (pos 500) variable env in
    let (q, u) = switch_rate_type alice usdc stable env in
    (r ≡ ok tt)
    × (get_total_debt t ≡ pos 4510)
    × (q ≡ ok tt)
    × ((get_debt_position u alice none stable).interest_accrued ≡ pos 14)
unfolding ◌+ℤ◌ ◌-ℤ◌ ◌*ℤ◌ div checked_add checked_sub checked_mul checked_div saturating_add
    saturating_sub saturating_mul saturating_div lookup insert sum_by i256_add i256_mul i256_div
    set_default_if_missing utilization_of utilization_bps rate_below_kink rate_jump rate_above_kink
    rate_at borrow_rate_bps supply_rate_bps updated update_fields get_debt_position
    update_compat_user_debt save_debt_position get_collateral_position save_collateral_position
    get_current_variable_rate_bps get_stable_rate_state smoothed update_stable_rate_state_if_needed
    get_current_stable_rate_bps simple_interest deviation_bps add_stability_fee position_rate_bps
    interest_at calculate_interest repay_interest repay_principal accrued_position save_repaid
    repay_with_rate repay entry_repay entry_repay_with_rate switch_fee moved_interest save_switched
    check_switch switch_positions switch_rate_type
repay_and_switch_runs = (refl, refl, refl, refl)

alice-IsCanonical : IsCanonical env alice variable
unfolding lookup
alice-IsCanonical = ground arith

borrow_inner-OkOrSame_example :
    OkOrSame env
      (λ _ t. Borrowed alice usdc (pos 2000) xlm (pos 3000) variable env t)
      (invoke
        (borrow_inner alice usdc (pos 2000) xlm (pos 3000) variable require_user_signature)
        env)
borrow_inner-OkOrSame_example =
    borrow_inner-OkOrSame alice usdc (pos 2000) xlm (pos 3000) variable require_user_signature env

borrow_inner-IsBalanced_example :
    IsBalanced
      (invoke (borrow_inner alice usdc (pos 2000) xlm (pos 3000) variable trusted_commitment) env).1
borrow_inner-IsBalanced_example =
    borrow_inner-IsBalanced alice usdc (pos 2000) xlm (pos 3000) variable trusted_commitment env
      alice-IsCanonical env-IsBalanced

repay_with_rate-OkOrSame_example :
    OkOrSame env
      (λ _ t. Repaid alice usdc (pos 500) variable env t)
      (invoke (repay_with_rate alice usdc (pos 500) variable) env)
repay_with_rate-OkOrSame_example = repay_with_rate-OkOrSame alice usdc (pos 500) variable env

repay_with_rate-IsBalanced_example :
    IsBalanced (invoke (repay_with_rate alice usdc (pos 500) variable) env).1
repay_with_rate-IsBalanced_example =
    repay_with_rate-IsBalanced alice usdc (pos 500) variable env alice-IsCanonical env-IsBalanced

switch_rate_type-OkOrSame_example :
    OkOrSame env
      (λ _ t. Switched alice usdc stable env t)
      (invoke (switch_rate_type alice usdc stable) env)
switch_rate_type-OkOrSame_example = switch_rate_type-OkOrSame alice usdc stable env

get-save_debt_position_example :
    get_debt_position (saved alice bob_debt env) alice (some xlm) stable ≡ bob_debt
get-save_debt_position_example = get-save_debt_position alice bob_debt (some xlm) env

abbrev stable_borrow : Address → ℤ → ℤ → Call BorrowError ⊤
stable_borrow user amount collateral =
    borrow_inner user usdc amount xlm collateral stable require_user_signature

stable_borrow_reads_twice_example :
    OkOrSame env
      (λ _ t.
        (a : Option Address)
        → ((get_debt_position t bob a stable).borrowed_amount
            ≡ (get_debt_position env bob (some usdc) stable).borrowed_amount +ℤ pos 2000)
          × (get_debt_position t bob a variable ≡ record (get_debt_position t bob a stable) {
            rate_type = variable;
            stable_rate_bps = pos 0;
          }))
      (invoke (stable_borrow bob (pos 2000) (pos 3000)) env)
unfolding lookup
stable_borrow_reads_twice_example =
    stable_borrow_reads_twice bob usdc (pos 2000) xlm (pos 3000) require_user_signature env refl

stable_borrow_holds_nothing_back_example :
    (withdraw_with_auth alice xlm
      (pos 2000)
      true
      (invoke (stable_borrow alice (pos 2000) (pos 3000)) env).1).0
    ≡ (withdraw_with_auth alice xlm (pos 2000) true env).0
unfolding lookup
stable_borrow_holds_nothing_back_example =
    stable_borrow_holds_nothing_back alice usdc (pos 2000) xlm (pos 3000) require_user_signature env
      alice_debt xlm (pos 2000) true refl refl refl

abbrev unborrowed : Env
unborrowed = record env {
  borrow = record borrow_store { user_debt = []; user_variable_debt = []; user_stable_debt = [] };
}

-- Bob owes nothing at the variable rate once his records say so.
abbrev fresh : Env
fresh = record env { borrow = record borrow_store { user_debt = []; user_variable_debt = [] } }

fresh-CanBorrow : CanBorrow bob usdc 2000 3000 fresh
unfolding lookup is_paused get_debt_position get_collateral_position ◌+ℤ◌
fresh-CanBorrow = record {
  signed = refl;
  not_paused = refl;
  amount_pos = omega arith;
  collateral_pos = omega arith;
  at_least_min = omega arith;
  amount_fits = omega arith;
  covered = omega arith;
  total_fits = omega arith;
  under_ceiling = omega arith;
  no_principal = refl;
  no_interest = refl;
  collateral_fits = omega arith;
}

borrow_inner-ok_example :
    (borrow_inner bob usdc (pos 2000) xlm (pos 3000) variable require_user_signature fresh).0
    ≡ ok tt
borrow_inner-ok_example =
    borrow_inner-ok bob usdc xlm 2000 3000 require_user_signature fresh fresh-CanBorrow

-- A user with no debt at all borrows at the stable rate; the variable-rate read gives the principal.
stable_only_run :
    ((stable_borrow bob (pos 2000) (pos 3000) unborrowed).0 ≡ ok tt)
    × ((get_debt_position
          (stable_borrow bob (pos 2000) (pos 3000) unborrowed).1
          bob
          none
          variable).borrowed_amount
        ≡ pos 2000)
unfolding ◌+ℤ◌ ◌-ℤ◌ ◌*ℤ◌ div checked_add checked_sub checked_mul checked_div saturating_add
    saturating_sub saturating_mul saturating_div lookup insert sum_by i256_add i256_mul i256_div
    set_default_if_missing utilization_of utilization_bps rate_below_kink rate_jump rate_above_kink
    rate_at borrow_rate_bps supply_rate_bps updated update_fields is_paused set_pause set_guardian
    is_recovery blocks_high_risk_ops set_emergency_state admin_set_pause set_deposit_paused
    severity_for_util utilization_u32 escalate alert on_utilization_changed
    set_risk_alert_thresholds get_debt_position update_compat_user_debt save_debt_position
    get_collateral_position save_collateral_position get_current_variable_rate_bps
    get_stable_rate_state smoothed update_stable_rate_state_if_needed get_current_stable_rate_bps
    simple_interest deviation_bps add_stability_fee position_rate_bps interest_at calculate_interest
    validate_collateral_ratio check_borrow borrowed_position collateralized_position commit_borrow
    borrow_inner deposit initialize_borrow_settings initialize
stable_only_run = (refl, refl)
