-- ===== src/Amm/Swap.antt =====
-- Swaps (amm/src/amm.rs).
use stellarlend.Prelude.{ℕ, ◌+◌, not, Option, none, some, [], ◌∷◌, ltb, unwrap_or, if◌then◌else◌, ⊤}
use stellarlend.Prelude.Int.{ℤ, pos, ltb_ℤ, eqb_ℤ}
use stellarlend.Prelude.I128.{checked_mul, checked_div, checked_sub}
use stellarlend.Storage.Borrow.{Address}
use stellarlend.Host.{◌>>=◌, ◌>>◌, gets, ok_or, reject_if, pure, modify}
use stellarlend.Amm.State.{
  invalid_swap_params, slippage_exceeded, max_input_exceeded, min_output_not_met, swap_paused,
  overflow, Token, AmmProtocolConfig, SwapParams, AmmCallbackData, AmmCall, swap_executed,
  amm_operation, publish,
}
use stellarlend.Amm.Protocols.{
  get_amm_settings, validate_swap_params, check_swap_enabled, get_amm_protocol_config,
  validate_token_pair, find_best_amm_protocol,
}
use stellarlend.Amm.Callback.{generate_callback_nonce, validate_amm_callback}
use stellarlend.Amm.History.{push_record}

-- `a.checked_mul(b).and_then(|v| v.checked_div(c))`
unfoldable pub mul_div : ℤ → ℤ → ℤ → Option ℤ
mul_div a b c = elim (checked_mul a b) [ none ↦ none | some v ↦ checked_div v c ]

unfoldable pub calculate_effective_price : ℤ → ℤ → AmmCall ℤ
unfolding mul_div
calculate_effective_price amount_in amount_out = do
  reject_if (eqb_ℤ amount_in (pos 0)) invalid_swap_params
  ok_or (mul_div amount_out (pos 1000000000000000000) amount_in) overflow

unfoldable pub calculate_swap_fees : AmmProtocolConfig → ℤ → AmmCall ℤ
unfolding mul_div
calculate_swap_fees config amount_in =
    ok_or (mul_div amount_in config.fee_tier (pos 10000)) overflow

unfoldable pub calculate_min_output_with_slippage : ℤ → ℤ → AmmCall ℤ
calculate_min_output_with_slippage amount slippage_bps = do
  reject_if (ltb_ℤ (pos 10000) slippage_bps) invalid_swap_params
  factor ← ok_or (checked_sub (pos 10000) slippage_bps) overflow
  ok_or (mul_div amount factor (pos 10000)) overflow

-- The stand-in for the protocol's swap, which calls back.
unfoldable pub execute_amm_swap : SwapParams → AmmCallbackData → AmmCall ℤ
execute_amm_swap p c = do
  factor ← ok_or (checked_sub (pos 10000) p.slippage_tolerance) overflow
  amount_out ← ok_or (mul_div p.amount_in factor (pos 10000)) overflow
  validate_amm_callback p.protocol c
  pure amount_out

unfoldable pub record_swap : Address → SwapParams → ℤ → ℤ → ℤ → AmmCall ⊤
record_swap user p amount_out effective_price fees_paid = modify λ s. record s {
  swap_history = some (
      push_record
        (record {
          user = user;
          protocol = p.protocol;
          token_in = p.token_in;
          token_out = p.token_out;
          amount_in = p.amount_in;
          amount_out = amount_out;
          effective_price = effective_price;
          fees_paid = fees_paid;
          timestamp = s.timestamp;
          tx_hash = "mock_tx_hash";
        })
        (unwrap_or s.swap_history []));
}

-- What is checked before the nonce is drawn.
unfoldable pub check_swap : SwapParams → AmmCall AmmProtocolConfig
unfolding check_swap_enabled get_amm_protocol_config validate_token_pair
check_swap p = do
  validate_swap_params p
  check_swap_enabled
  now ← gets (λ s. s.timestamp)
  reject_if (ltb p.deadline now) slippage_exceeded
  config ← get_amm_protocol_config p.protocol
  reject_if (ltb_ℤ p.amount_in config.min_swap_amount) invalid_swap_params
  reject_if (ltb_ℤ config.max_swap_amount p.amount_in) max_input_exceeded
  validate_token_pair config p.token_in p.token_out
  pure config

-- What follows the swap itself.
unfoldable pub settle_swap : Address → SwapParams → AmmProtocolConfig → ℤ → AmmCall ℤ
unfolding record_swap
settle_swap user p config amount_out = do
  reject_if (ltb_ℤ amount_out p.min_amount_out) min_output_not_met
  effective_price ← calculate_effective_price p.amount_in amount_out
  fees_paid ← calculate_swap_fees config p.amount_in
  record_swap user p amount_out effective_price fees_paid
  publish (swap_executed user p.protocol p.amount_in amount_out effective_price)
  λ s. publish (amm_operation user "swap" p.amount_in amount_out s.timestamp) s
  pure amount_out

unfoldable pub execute_swap : Address → SwapParams → AmmCall ℤ
execute_swap user p = do
  config ← check_swap p
  nonce ← generate_callback_nonce user
  amount_out ← execute_amm_swap p (record {
    nonce = nonce;
    operation = "swap";
    user = user;
    expected_amounts = p.amount_in ∷ p.min_amount_out ∷ [];
    deadline = p.deadline;
  })
  settle_swap user p config amount_out

-- `timestamp.checked_add(300)` on u64
abbrev pub checked_add_u64 : ℕ → ℕ → Option ℕ
checked_add_u64 a b = if ltb (a + b) 0x10000000000000000 then some (a + b) else none

unfoldable pub auto_swap_for_collateral : Address → Token → ℤ → AmmCall ℤ
auto_swap_for_collateral user target_token amount = do
  settings ← get_amm_settings
  reject_if (not settings.swap_enabled) swap_paused
  reject_if (ltb_ℤ amount settings.auto_swap_threshold) invalid_swap_params
  best_protocol ← find_best_amm_protocol none target_token amount
  min_amount_out ← calculate_min_output_with_slippage amount settings.default_slippage
  now ← gets (λ s. s.timestamp)
  deadline ← ok_or (checked_add_u64 now 300) slippage_exceeded
  execute_swap user (record {
    protocol = best_protocol;
    token_in = none;
    token_out = target_token;
    amount_in = amount;
    min_amount_out = min_amount_out;
    slippage_tolerance = settings.default_slippage;
    deadline = deadline;
  })
