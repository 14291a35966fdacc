-- ===== src/Tests/Swaps.antt =====
-- An AMM with one protocol, runs on it, and instances of the theorems.
use mathlib.Core.List.{reverse}
use stellarlend.Prelude.I128.{
  checked_div, checked_mul, saturating_add, checked_add, saturating_mul, saturating_sub,
  checked_sub, saturating_div,
}
use stellarlend.Prelude.Dict.{sum_by, insert, lookup}
use stellarlend.Amm.Liquidity.{
  half_of_sum, record_liquidity_operation, settle_addition, settle_removal, check_remove,
  remove_liquidity, add_liquidity, execute_amm_remove_liquidity, check_add,
  execute_amm_add_liquidity,
}
use stellarlend.Amm.Swap.{
  mul_div, execute_amm_swap, settle_swap, execute_swap, auto_swap_for_collateral,
  calculate_swap_fees, record_swap, calculate_effective_price, check_swap,
  calculate_min_output_with_slippage,
}
use stellarlend.Amm.Callback.{validate_amm_callback, generate_callback_nonce}
use stellarlend.Amm.Protocols.{
  check_liquidity_enabled, initialize_amm_settings, update_amm_settings, validate_swap_params,
  supports, validate_token_pair, validate_liquidity_params, first_protocol, require_admin,
  find_best_amm_protocol, add_amm_protocol, get_amm_protocol_config, check_swap_enabled,
}
use stellarlend.Prelude.{◌≡◌, refl, true, false, none, some, [], ◌∷◌, unwrap_or}
use stellarlend.Prelude.Int.{pos, ◌-ℤ◌, ◌*ℤ◌, div, ◌+ℤ◌}
use stellarlend.Host.{invoke}
use stellarlend.Host.Result.{ok, err}
use stellarlend.Host.Laws.{OkOrSame}
use stellarlend.Amm.State.{
  TokenPair, AmmProtocolConfig, SwapParams, LiquidityParams, AmmCallbackData, AmmEnv,
  invalid_callback, min_output_not_met,
}
use stellarlend.Amm.History.{
  take, keep, is_by, history_queries-take, scan, get_swap_history, get_liquidity_history,
  push_record,
}
use stellarlend.Amm.Swaps.{Swapped, execute_swap-OkOrSame}
use stellarlend.Amm.Life.{run_operation, swap, invoked, done, callback_once}

abbrev usdc_pair : TokenPair
usdc_pair = record { token_a = none; token_b = some 1; pool_address = 50 }

abbrev pool : AmmProtocolConfig
pool = record {
  protocol_address = 40;
  protocol_name = "pool";
  enabled = false;
  fee_tier = pos 30;
  min_swap_amount = pos 10;
  max_swap_amount = pos 100000;
  supported_pairs = usdc_pair ∷ [];
}

abbrev routed : AmmEnv
routed = record {
  timestamp = 1000;
  amm_protocols = some ((40, pool) ∷ []);
  amm_settings = some (record {
    default_slippage = pos 100;
    max_slippage = pos 500;
    swap_enabled = true;
    liquidity_enabled = true;
    auto_swap_threshold = pos 10;
  });
  swap_history = none;
  liquidity_history = none;
  callback_nonces = (7, 4) ∷ [];
  admin = some 9;
  events = [];
}

abbrev xlm_to_usdc : SwapParams
xlm_to_usdc = record {
  protocol = 40;
  token_in = none;
  token_out = some 1;
  amount_in = pos 5000;
  min_amount_out = pos 4900;
  slippage_tolerance = pos 200;
  deadline = 1200;
}

abbrev deposit_pair : LiquidityParams
deposit_pair = record {
  protocol = 40;
  token_a = none;
  token_b = some 1;
  amount_a = pos 300;
  amount_b = pos 101;
  min_amount_a = pos 0;
  min_amount_b = pos 0;
  deadline = 1200;
  tick_lower = none;
  tick_upper = none;
  fee_tier = none;
}

abbrev pending_callback : AmmCallbackData
pending_callback = record {
  nonce = 4;
  operation = "swap";
  user = 7;
  expected_amounts = [];
  deadline = 1100;
}

abbrev swapped : AmmEnv
swapped = (invoke (execute_swap 7 xlm_to_usdc) routed).1

-- A swap through a protocol that is not enabled goes through; a minimum that is too high is refused;
-- the rest as it should.
amm_runs :
    ((invoke (execute_swap 7 xlm_to_usdc) routed).0 ≡ ok (pos 4900))
    × ((invoke (execute_swap 7 (record xlm_to_usdc { min_amount_out = pos 4901 })) routed).0
        ≡ err min_output_not_met)
    × ((invoke (add_liquidity 7 deposit_pair) routed).0 ≡ ok (pos 200))
    × ((invoke (remove_liquidity 7 40 none (some 1) (pos 50) (pos 0) (pos 0) 1200) routed).0
        ≡ ok (pos 50, pos 50))
    × ((invoke (validate_amm_callback 40 pending_callback) routed).0 ≡ ok tt)
    × ((invoke (validate_amm_callback 41 pending_callback) routed).0 ≡ err invalid_callback)
unfolding require_admin initialize_amm_settings add_amm_protocol update_amm_settings
    validate_swap_params validate_liquidity_params check_swap_enabled check_liquidity_enabled
    get_amm_protocol_config supports validate_token_pair first_protocol find_best_amm_protocol
    generate_callback_nonce validate_amm_callback mul_div calculate_effective_price
    calculate_swap_fees calculate_min_output_with_slippage execute_amm_swap record_swap check_swap
    settle_swap execute_swap auto_swap_for_collateral half_of_sum execute_amm_add_liquidity
    execute_amm_remove_liquidity record_liquidity_operation check_add settle_addition add_liquidity
    check_remove settle_removal remove_liquidity push_record scan get_swap_history
    get_liquidity_history lookup insert sum_by checked_add checked_sub checked_mul checked_div
    saturating_add saturating_sub saturating_mul saturating_div ◌+ℤ◌ ◌-ℤ◌ ◌*ℤ◌ div invoke
amm_runs = (refl, refl, refl, refl, refl, refl)

execute_swap-OkOrSame_example :
    OkOrSame routed
      (λ out t. Swapped 7 xlm_to_usdc out routed t)
      (invoke (execute_swap 7 xlm_to_usdc) routed)
execute_swap-OkOrSame_example = execute_swap-OkOrSame 7 xlm_to_usdc routed

abbrev called_back : AmmEnv
called_back = (validate_amm_callback 40 pending_callback routed).1

callback_once_example :
    OkOrSame
      (run_operation (swap 7 xlm_to_usdc) called_back)
      (λ _ _. ⊥)
      (invoke
        (validate_amm_callback 40 pending_callback)
        (run_operation (swap 7 xlm_to_usdc) called_back))
unfolding validate_amm_callback lookup insert
callback_once_example =
    callback_once routed called_back (run_operation (swap 7 xlm_to_usdc) called_back) 40 40
      pending_callback refl (invoked (swap 7 xlm_to_usdc) done)

history_queries-take_example :
    (get_swap_history swapped (some 7) 5
      ≡ take 5 (keep (is_by (λ r. r.user) (some 7)) (reverse (unwrap_or swapped.swap_history []))))
    × (get_liquidity_history swapped (some 7) 5
        ≡ take 5 (
            keep (is_by (λ r. r.user) (some 7)) (reverse (unwrap_or swapped.liquidity_history []))))
history_queries-take_example = history_queries-take swapped (some 7) 5
