-- ===== src/Amm/Protocols.antt =====
-- The admin's functions, the settings and the registered protocols of the AMM (amm/src/amm.rs).
use stellarlend.Prelude.{
  ℕ, Bool, true, false, ◌&&◌, ◌||◌, not, Option, none, some, List, [], ◌∷◌, ltb, ◌==◌, unwrap_or,
  is_some, if◌then◌else◌, ⊤,
}
use stellarlend.Prelude.Int.{ℤ, pos, leb_ℤ, ltb_ℤ}
use stellarlend.Prelude.Dict.{Dict, lookup}
use stellarlend.Storage.Borrow.{Address}
use stellarlend.Host.{◌>>=◌, ◌>>◌, gets, ok_or, reject_if, modify}
use stellarlend.Amm.State.{
  invalid_swap_params, slippage_exceeded, swap_paused, liquidity_paused, unauthorized,
  unsupported_protocol, invalid_token_pair, already_initialized, Token, TokenPair,
  AmmProtocolConfig, AmmSettings, SwapParams, LiquidityParams, AmmCall, same_token,
}

abbrev pub get_amm_protocols : AmmCall (Dict AmmProtocolConfig)
get_amm_protocols s = ok_or s.amm_protocols unsupported_protocol s

abbrev pub get_amm_settings : AmmCall AmmSettings
get_amm_settings s = ok_or s.amm_settings invalid_swap_params s

-- `Map::set` of the host, whose entries stay in the order of their keys.
unfoldable pub set_sorted {ℓ} : {V : Type ℓ} → ℕ → V → Dict V → Dict V
set_sorted key value [] = (key, value) ∷ []
set_sorted key value ((other, old) ∷ rest) =
    if key == other
    then (key, value) ∷ rest
    else if ltb key other
    then (key, value) ∷ (other, old) ∷ rest
    else (other, old) ∷ set_sorted key value rest

unfoldable pub require_admin : Address → AmmCall ⊤
require_admin caller = do
  admin ← λ s. ok_or s.admin unauthorized s
  reject_if (not (admin == caller)) unauthorized

unfoldable pub initialize_amm_settings : Address → ℤ → ℤ → ℤ → AmmCall ⊤
initialize_amm_settings admin default_slippage max_slippage auto_swap_threshold = do
  taken ← gets (λ s. is_some s.admin)
  reject_if taken already_initialized
  modify λ s. record s { admin = some admin }
  modify λ s. record s {
    amm_settings = some (record {
      default_slippage = default_slippage;
      max_slippage = max_slippage;
      swap_enabled = true;
      liquidity_enabled = true;
      auto_swap_threshold = auto_swap_threshold;
    });
  }
  modify λ s. record s { amm_protocols = some [] }

unfoldable pub add_amm_protocol : Address → AmmProtocolConfig → AmmCall ⊤
unfolding require_admin
add_amm_protocol admin config = do
  require_admin admin
  protocols ← gets (λ s. unwrap_or s.amm_protocols [])
  modify
      λ s. record s { amm_protocols = some (set_sorted config.protocol_address config protocols) }

unfoldable pub update_amm_settings : Address → AmmSettings → AmmCall ⊤
unfolding require_admin
update_amm_settings admin settings = do
  require_admin admin
  modify λ s. record s { amm_settings = some settings }

unfoldable pub validate_swap_params : SwapParams → AmmCall ⊤
validate_swap_params p = do
  reject_if (leb_ℤ p.amount_in (pos 0)) invalid_swap_params
  reject_if (leb_ℤ p.min_amount_out (pos 0)) invalid_swap_params
  reject_if (same_token p.token_in p.token_out) invalid_token_pair
  settings ← get_amm_settings
  reject_if (ltb_ℤ settings.max_slippage p.slippage_tolerance) slippage_exceeded

unfoldable pub validate_liquidity_params : LiquidityParams → AmmCall ⊤
validate_liquidity_params p = do
  reject_if (leb_ℤ p.amount_a (pos 0) || leb_ℤ p.amount_b (pos 0)) invalid_swap_params
  reject_if (ltb_ℤ p.min_amount_a (pos 0) || ltb_ℤ p.min_amount_b (pos 0)) invalid_swap_params
  reject_if (same_token p.token_a p.token_b) invalid_token_pair

unfoldable pub check_swap_enabled : AmmCall ⊤
check_swap_enabled = do
  settings ← get_amm_settings
  reject_if (not settings.swap_enabled) swap_paused

unfoldable pub check_liquidity_enabled : AmmCall ⊤
check_liquidity_enabled = do
  settings ← get_amm_settings
  reject_if (not settings.liquidity_enabled) liquidity_paused

unfoldable pub get_amm_protocol_config : Address → AmmCall AmmProtocolConfig
get_amm_protocol_config protocol = do
  protocols ← get_amm_protocols
  λ s. ok_or (lookup protocol protocols) unsupported_protocol s

-- One turn of the loop over the pairs.
abbrev pub is_pair : Token → Token → TokenPair → Bool
is_pair a b pair =
    (same_token pair.token_a a && same_token pair.token_b b)
    || (same_token pair.token_a b && same_token pair.token_b a)

unfoldable pub supports : List TokenPair → Token → Token → Bool
supports [] a b = false
supports (pair ∷ rest) a b = if is_pair a b pair then true else supports rest a b

unfoldable pub validate_token_pair : AmmProtocolConfig → Token → Token → AmmCall ⊤
validate_token_pair config a b =
    reject_if (not (supports config.supported_pairs a b)) invalid_token_pair

-- The first enabled protocol, in the order of the keys, that supports the pair.
unfoldable pub first_protocol : Dict AmmProtocolConfig → Token → Token → Option Address
first_protocol [] token_in token_out = none
first_protocol ((address, config) ∷ rest) token_in token_out =
    if config.enabled && supports config.supported_pairs token_in token_out
    then some address
    else first_protocol rest token_in token_out

unfoldable pub find_best_amm_protocol : Token → Token → ℤ → AmmCall Address
find_best_amm_protocol token_in token_out amount = do
  protocols ← get_amm_protocols
  λ s. ok_or (first_protocol protocols token_in token_out) unsupported_protocol s
