-- ===== src/Bridge/Admin.antt =====
-- The settings of the bridge's admin: bridges, validators, the pause, channels and the admin itself
-- (bridge/src/bridge.rs).
use Prim.Native.String.{String}
use stellarlend.Prelude.{ℕ, Bool, true, false, some, [], ◌∷◌, ◌++◌, ltb, is_some, ⊤}
use stellarlend.Prelude.Int.{ℤ, pos, leb_ℤ, ltb_ℤ}
use stellarlend.Prelude.Dict.{lookup}
use stellarlend.Prelude.Table.{find, string_key}
use stellarlend.Storage.Borrow.{Address}
use stellarlend.Host.{◌>>=◌, ◌>>◌, gets, reject_if, modify}
use stellarlend.Bridge.State.{
  already_initialised, fee_too_high, negative_min_amount, bridge_already_exists,
  validator_already_exists, invalid_validator_stake, SecurityConfig, BridgeCall, bridge_registered,
  bridge_fee_updated, bridge_active_updated, bridge_acceptance_pause, validator_updated,
  security_config_updated, channel_emergency_close, publish, next_u64,
}
use stellarlend.Bridge.Access.{
  max_fee_bps, default_security_config, default_stats, require_admin, save_security_config,
  with_stats, validate_security_config, validate_id, load_bridge, save_bridge, bridge_list,
  validator_list, load_validator, save_validator, load_channel_state, save_channel_state,
}

unfoldable pub init : Address → BridgeCall ⊤
init admin = do
  taken ← gets (λ s. is_some s.admin)
  reject_if taken already_initialised
  modify λ s. record s { admin = some admin }
  modify λ s. record s { security_config = some default_security_config }
  modify λ s. record s { stats = some default_stats }

unfoldable pub register_bridge : Address → String → ℕ → ℤ → BridgeCall ⊤
unfolding require_admin validate_id
register_bridge caller bridge_id fee_bps min_amount = do
  require_admin caller
  validate_id bridge_id
  reject_if (ltb max_fee_bps fee_bps) fee_too_high
  reject_if (ltb_ℤ min_amount (pos 0)) negative_min_amount
  taken ← gets (λ s. is_some (find bridge_id s.bridge))
  reject_if taken bridge_already_exists
  save_bridge bridge_id (record {
    bridge_id = bridge_id;
    fee_bps = fee_bps;
    min_amount = min_amount;
    active = true;
    total_deposited = pos 0;
    total_withdrawn = pos 0;
  })
  list ← gets bridge_list
  modify λ s. record s { bridge_list = some (list ++ bridge_id ∷ []) }
  publish (bridge_registered bridge_id fee_bps min_amount)

unfoldable pub set_bridge_fee : Address → String → ℕ → BridgeCall ⊤
unfolding require_admin
set_bridge_fee caller bridge_id fee_bps = do
  require_admin caller
  reject_if (ltb max_fee_bps fee_bps) fee_too_high
  cfg ← load_bridge bridge_id
  save_bridge bridge_id (record cfg { fee_bps = fee_bps })
  publish (bridge_fee_updated bridge_id fee_bps)

unfoldable pub set_bridge_active : Address → String → Bool → BridgeCall ⊤
unfolding require_admin
set_bridge_active caller bridge_id active = do
  require_admin caller
  cfg ← load_bridge bridge_id
  save_bridge bridge_id (record cfg { active = active })
  publish (bridge_active_updated bridge_id active)

unfoldable pub set_bridge_acceptance_paused : Address → Bool → BridgeCall ⊤
unfolding require_admin
set_bridge_acceptance_paused caller paused = do
  require_admin caller
  modify λ s. record s { bridge_acceptance_paused = some paused }
  publish (bridge_acceptance_pause paused caller)

unfoldable pub set_bridge_security_config : Address → SecurityConfig → BridgeCall ⊤
unfolding require_admin validate_security_config
set_bridge_security_config caller cfg = do
  require_admin caller
  validate_security_config cfg
  save_security_config cfg
  publish (
      security_config_updated cfg.min_validator_signatures cfg.min_finality_ledgers
        cfg.optimistic_delay_ledgers cfg.slash_bps cfg.supported_message_version)

unfoldable pub register_validator : Address → Address → ℤ → BridgeCall ⊤
unfolding require_admin
register_validator caller validator stake = do
  require_admin caller
  reject_if (leb_ℤ stake (pos 0)) invalid_validator_stake
  taken ← gets (λ s. is_some (lookup validator s.validator))
  reject_if taken validator_already_exists
  save_validator validator
      (record { stake = stake; active = true; slashed_total = pos 0; approvals = 0 })
  validators ← gets validator_list
  modify λ s. record s { validator_list = some (validators ++ validator ∷ []) }
  publish (validator_updated validator stake true)

unfoldable pub set_validator_active : Address → Address → Bool → BridgeCall ⊤
unfolding require_admin
set_validator_active caller validator active = do
  require_admin caller
  r ← load_validator validator
  save_validator validator (record r { active = active })
  publish (validator_updated validator r.stake active)

unfoldable pub close_channel_emergency : Address → String → String → BridgeCall ⊤
unfolding require_admin
close_channel_emergency caller channel_id reason = do
  require_admin caller
  state ← gets (λ s. load_channel_state s channel_id)
  save_channel_state channel_id (record state { emergency_closed = true; reason = reason })
  with_stats λ st. record st { emergency_closures = next_u64 st.emergency_closures }
  publish (channel_emergency_close channel_id true reason)

unfoldable pub reopen_channel : Address → String → BridgeCall ⊤
unfolding require_admin
reopen_channel caller channel_id = do
  require_admin caller
  state ← gets (λ s. load_channel_state s channel_id)
  save_channel_state channel_id (record state { emergency_closed = false; reason = "" })
  publish (channel_emergency_close channel_id false "")

unfoldable pub transfer_admin : Address → Address → BridgeCall ⊤
unfolding require_admin
transfer_admin caller new_admin = do
  require_admin caller
  modify λ s. record s { admin = some new_admin }
