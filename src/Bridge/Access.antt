-- ===== src/Bridge/Access.antt =====
-- The constants, readers and writers of the bridge's storage, and its checks of arguments
-- (bridge/src/bridge.rs).
use Prim.Native.String.{String, len}
use stellarlend.Prelude.{
  ℕ, Bool, true, false, ◌&&◌, ◌||◌, not, some, List, [], ltb, leb, ◌==◌, unwrap_or, if◌then◌else◌,
  ⊤,
}
use text.Mathlib.Text.{◌==◌ as str_eq}
use stellarlend.Prelude.Int.{ℤ, pos, div, ltb_ℤ, eqb_ℤ}
use stellarlend.Prelude.I128.{saturating_mul}
use stellarlend.Prelude.Dict.{lookup, insert}
use stellarlend.Prelude.Table.{find, put, string_key}
use stellarlend.Storage.Borrow.{Address}
use stellarlend.Host.{◌>>=◌, ◌>>◌, gets, ok_or, reject_if, pure, modify}
use stellarlend.Bridge.State.{
  invalid_security_config, invalid_bridge_id_len, not_initialised, unauthorised, bridge_not_found,
  validator_not_found, message_not_found, BridgeConfig, SecurityConfig, ValidatorRecord,
  ChannelState, BridgeSecurityStats, CrossChainMessage, BridgeEnv, BridgeCall,
  channel_emergency_close, bridge_anomaly, publish, require_auth, next_u32, next_u64,
}

abbrev pub max_fee_bps : ℕ
max_fee_bps = 1000

abbrev pub max_id_len : ℕ
max_id_len = 64

abbrev pub default_security_config : SecurityConfig
default_security_config = record {
  min_validator_signatures = 2;
  min_finality_ledgers = 3;
  optimistic_delay_ledgers = 2;
  slash_bps = 2500;
  supported_message_version = 1;
  anomaly_close_threshold = 3;
}

abbrev pub default_stats : BridgeSecurityStats
default_stats = record {
  total_messages = 0;
  executed_messages = 0;
  rejected_messages = 0;
  replay_rejections = 0;
  anomaly_events = 0;
  slashes = 0;
  emergency_closures = 0;
}

abbrev pub default_channel_state : ChannelState
default_channel_state = record {
  emergency_closed = false;
  anomaly_count = 0;
  last_observed_nonce = 0;
  last_observed_height = 0;
  reason = "";
}

abbrev pub load_admin : BridgeCall Address
load_admin s = ok_or s.admin not_initialised s

unfoldable pub require_admin : Address → BridgeCall ⊤
require_admin caller = do
  require_auth caller
  admin ← load_admin
  reject_if (not (caller == admin)) unauthorised

abbrev pub load_security_config : BridgeEnv → SecurityConfig
load_security_config s = unwrap_or s.security_config default_security_config

abbrev pub save_security_config : SecurityConfig → BridgeCall ⊤
save_security_config cfg = modify λ s. record s { security_config = some cfg }

abbrev pub load_stats : BridgeEnv → BridgeSecurityStats
load_stats s = unwrap_or s.stats default_stats

abbrev pub with_stats : (BridgeSecurityStats → BridgeSecurityStats) → BridgeCall ⊤
with_stats mutate = modify λ s. record s { stats = some (mutate (load_stats s)) }

unfoldable pub validate_security_config : SecurityConfig → BridgeCall ⊤
validate_security_config cfg =
    reject_if
      (cfg.min_validator_signatures == 0
        || cfg.min_finality_ledgers == 0
        || cfg.optimistic_delay_ledgers == 0
        || cfg.slash_bps == 0
        || ltb 10000 cfg.slash_bps
        || cfg.supported_message_version == 0
        || cfg.anomaly_close_threshold == 0)
      invalid_security_config

unfoldable pub validate_id : String → BridgeCall ⊤
validate_id id = reject_if (len id == 0 || ltb max_id_len (len id)) invalid_bridge_id_len

abbrev pub load_bridge : String → BridgeCall BridgeConfig
load_bridge bridge_id s = ok_or (find bridge_id s.bridge) bridge_not_found s

abbrev pub save_bridge : String → BridgeConfig → BridgeCall ⊤
save_bridge bridge_id cfg = modify λ s. record s { bridge = put bridge_id cfg s.bridge }

abbrev pub bridge_list : BridgeEnv → List String
bridge_list s = unwrap_or s.bridge_list []

abbrev pub validator_list : BridgeEnv → List Address
validator_list s = unwrap_or s.validator_list []

abbrev pub load_validator : Address → BridgeCall ValidatorRecord
load_validator v s = ok_or (lookup v s.validator) validator_not_found s

abbrev pub save_validator : Address → ValidatorRecord → BridgeCall ⊤
save_validator v r = modify λ s. record s { validator = insert v r s.validator }

abbrev pub load_channel_state : BridgeEnv → String → ChannelState
load_channel_state s channel_id = unwrap_or (find channel_id s.channel) default_channel_state

abbrev pub save_channel_state : String → ChannelState → BridgeCall ⊤
save_channel_state channel_id c = modify λ s. record s { channel = put channel_id c s.channel }

-- The closing of a channel by `record_channel_anomaly`, once the count has reached the threshold.
unfoldable pub close_by_anomaly : Bool → String → String → BridgeCall ⊤
close_by_anomaly false channel_id reason = pure tt
close_by_anomaly true channel_id reason = do
  with_stats λ st. record st { emergency_closures = next_u64 st.emergency_closures }
  publish (channel_emergency_close channel_id true reason)

unfoldable pub record_channel_anomaly : String → String → BridgeCall ⊤
unfolding close_by_anomaly
record_channel_anomaly channel_id reason = do
  channel ← gets (λ s. load_channel_state s channel_id)
  cfg ← gets load_security_config
  let anomaly_count = next_u32 channel.anomaly_count
  let closes = leb cfg.anomaly_close_threshold anomaly_count
  close_by_anomaly closes channel_id reason
  save_channel_state channel_id (record channel {
    anomaly_count = anomaly_count;
    reason = reason;
    emergency_closed = closes || channel.emergency_closed;
  })
  with_stats λ st. record st { anomaly_events = next_u64 st.anomaly_events }
  publish (bridge_anomaly channel_id anomaly_count reason)

unfoldable pub next_message_id : BridgeCall ℕ
next_message_id = do
  current ← gets (λ s. unwrap_or s.next_message_id 0)
  modify λ s. record s { next_message_id = some (next_u64 current) }
  pure (next_u64 current)

abbrev pub load_message : ℕ → BridgeCall CrossChainMessage
load_message message_id s = ok_or (lookup message_id s.message) message_not_found s

abbrev pub save_message : CrossChainMessage → BridgeCall ⊤
save_message m = modify λ s. record s { message = insert m.message_id m s.message }

unfoldable pub message_payload_matches : CrossChainMessage → CrossChainMessage → Bool
message_payload_matches a b =
    str_eq a.bridge_id b.bridge_id
    && str_eq a.channel_id b.channel_id
    && str_eq a.source_chain b.source_chain
    && str_eq a.source_tx_id b.source_tx_id
    && a.source_height == b.source_height
    && a.nonce == b.nonce
    && a.recipient == b.recipient
    && eqb_ℤ a.amount b.amount
    && a.payload_version == b.payload_version

unfoldable pub slash_amount : ℤ → ℕ → ℤ
slash_amount stake slash_bps =
    let slash = div (saturating_mul stake (pos slash_bps)) (pos 10000) in
    if eqb_ℤ slash (pos 0) && ltb_ℤ (pos 0) stake then pos 1 else slash
