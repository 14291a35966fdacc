-- ===== src/Amm/Liquidity.antt =====
-- Adding and removing liquidity (amm/src/amm.rs).
use Prim.Native.String.{String}
use stellarlend.Prelude.{ℕ, ◌||◌, none, some, [], ◌∷◌, ltb, unwrap_or, ⊤, Option}
use stellarlend.Prelude.Int.{ℤ, pos, leb_ℤ, ltb_ℤ}
use stellarlend.Prelude.I128.{checked_add, checked_div, saturating_add}
use stellarlend.Storage.Borrow.{Address}
use stellarlend.Host.{◌>>=◌, ◌>>◌, gets, ok_or, reject_if, pure, modify}
use stellarlend.Amm.State.{
  invalid_swap_params, slippage_exceeded, min_output_not_met, overflow, Token, LiquidityParams,
  AmmCallbackData, AmmCall, liquidity_added, liquidity_removed, amm_operation, publish,
}
use stellarlend.Amm.Protocols.{
  validate_liquidity_params, check_liquidity_enabled, get_amm_protocol_config, validate_token_pair,
}
use stellarlend.Amm.Callback.{generate_callback_nonce, validate_amm_callback}
use stellarlend.Amm.History.{push_record}

-- `a.checked_add(b).and_then(|v| v.checked_div(2))`
unfoldable pub half_of_sum : ℤ → ℤ → Option ℤ
half_of_sum a b = elim (checked_add a b) [ none ↦ none | some v ↦ checked_div v (pos 2) ]

-- The stand-ins for the protocol's operations, which call back.
unfoldable pub execute_amm_add_liquidity : LiquidityParams → AmmCallbackData → AmmCall ℤ
execute_amm_add_liquidity p c = do
  lp_tokens ← ok_or (half_of_sum p.amount_a p.amount_b) overflow
  validate_amm_callback p.protocol c
  pure lp_tokens

unfoldable pub execute_amm_remove_liquidity : Address → ℤ → AmmCallbackData → AmmCall (ℤ × ℤ)
execute_amm_remove_liquidity protocol lp_tokens c = do
  validate_amm_callback protocol c
  pure (lp_tokens, lp_tokens)

unfoldable pub record_liquidity_operation : Address → String → LiquidityParams → ℤ → AmmCall ⊤
record_liquidity_operation user operation_type p lp_tokens = modify λ s. record s {
  liquidity_history = some (
      push_record
        (record {
          user = user;
          operation_type = operation_type;
          protocol = p.protocol;
          token_a = p.token_a;
          token_b = p.token_b;
          amount_a = p.amount_a;
          amount_b = p.amount_b;
          lp_tokens = lp_tokens;
          tick_lower = p.tick_lower;
          tick_upper = p.tick_upper;
          timestamp = s.timestamp;
        })
        (unwrap_or s.liquidity_history []));
}

-- What is checked of an addition before the nonce is drawn.
unfoldable pub check_add : LiquidityParams → AmmCall ⊤
unfolding validate_liquidity_params check_liquidity_enabled get_amm_protocol_config
    validate_token_pair
check_add p = do
  validate_liquidity_params p
  check_liquidity_enabled
  now ← gets (λ s. s.timestamp)
  reject_if (ltb p.deadline now) slippage_exceeded
  config ← get_amm_protocol_config p.protocol
  validate_token_pair config p.token_a p.token_b

-- The record and the events of an addition.
unfoldable pub settle_addition : Address → LiquidityParams → ℤ → AmmCall ℤ
unfolding record_liquidity_operation
settle_addition user p lp_tokens = do
  record_liquidity_operation user "add" p lp_tokens
  publish (liquidity_added user p.protocol p.amount_a p.amount_b lp_tokens)
  λ s. publish (amm_operation user "add_liquidity" p.amount_a lp_tokens s.timestamp) s
  pure lp_tokens

unfoldable pub add_liquidity : Address → LiquidityParams → AmmCall ℤ
add_liquidity user p = do
  check_add p
  nonce ← generate_callback_nonce user
  lp_tokens ← execute_amm_add_liquidity p (record {
    nonce = nonce;
    operation = "add_liquidity";
    user = user;
    expected_amounts = p.amount_a ∷ p.amount_b ∷ [];
    deadline = p.deadline;
  })
  settle_addition user p lp_tokens

-- What is checked of a removal before the nonce is drawn.
unfoldable pub check_remove : Address → Token → Token → ℤ → ℕ → AmmCall ⊤
unfolding check_liquidity_enabled get_amm_protocol_config validate_token_pair
check_remove protocol token_a token_b lp_tokens deadline = do
  check_liquidity_enabled
  now ← gets (λ s. s.timestamp)
  reject_if (ltb deadline now) slippage_exceeded
  reject_if (leb_ℤ lp_tokens (pos 0)) invalid_swap_params
  config ← get_amm_protocol_config protocol
  validate_token_pair config token_a token_b

-- The check of the amounts, the record and the events of a removal.
unfoldable pub settle_removal : Address → LiquidityParams → ℤ → AmmCall (ℤ × ℤ)
unfolding record_liquidity_operation
settle_removal user p lp_tokens = do
  reject_if (ltb_ℤ p.amount_a p.min_amount_a || ltb_ℤ p.amount_b p.min_amount_b) min_output_not_met
  record_liquidity_operation user "remove" p lp_tokens
  publish (liquidity_removed user p.protocol lp_tokens)
  λ s.
      publish
        (amm_operation user "remove_liquidity" lp_tokens (saturating_add p.amount_a p.amount_b)
          s.timestamp)
        s
  pure (p.amount_a, p.amount_b)

unfoldable pub remove_liquidity :
    Address → Address → Token → Token → ℤ → ℤ → ℤ → ℕ → AmmCall (ℤ × ℤ)
remove_liquidity user protocol token_a token_b lp_tokens min_amount_a min_amount_b deadline = do
  check_remove protocol token_a token_b lp_tokens deadline
  nonce ← generate_callback_nonce user
  amounts ← execute_amm_remove_liquidity protocol lp_tokens (record {
    nonce = nonce;
    operation = "remove_liquidity";
    user = user;
    expected_amounts = min_amount_a ∷ min_amount_b ∷ [];
    deadline = deadline;
  })
  settle_removal user
      (record {
        protocol = protocol;
        token_a = token_a;
        token_b = token_b;
        amount_a = amounts.0;
        amount_b = amounts.1;
        min_amount_a = min_amount_a;
        min_amount_b = min_amount_b;
        deadline = deadline;
        tick_lower = none;
        tick_upper = none;
        fee_tier = none;
      })
      lp_tokens
