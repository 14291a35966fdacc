-- ===== src/Bridge/Ordering.antt =====
-- What a submission has checked: the order of messages in a channel, and that the source is new
-- (bridge/src/bridge.rs).
use Prim.Native.String.{String}
use stellarlend.Prelude.{
  ◌≤◌, ◌<◌, ◌≡◌, refl, ◌⊎◌, Bool, true, false, ◌&&◌, not, none, some, arith, ◌==◌, leb, ltb,
  is_some, ⊤,
}
use stellarlend.Prelude.Int.{◌≤ℤ◌}
use stellarlend.Prelude.Table.{find, string_key}
use stellarlend.Host.{after, raise}
use stellarlend.Host.Result.{Outcome, ok, err, trap}
use stellarlend.Host.Laws.{OnOk}
use stellarlend.Bridge.State.{
  ContractError, replay_detected, BridgeEnv, BridgeConfig, SecurityConfig, CrossChainMessageInput,
  ChannelState, next_u64, source_key,
}
use stellarlend.Bridge.Access.{record_channel_anomaly, with_stats, load_channel_state}
use stellarlend.Bridge.Message.{
  source_key_of, reject_with_anomaly, reject_replay, check_ordering, check_input, open_channel,
}

-- A call that ends in an error does not return.
raised :
    (P : ⊤ → BridgeEnv → Type 0) (e : ContractError) (x : Outcome ContractError ⊤ × BridgeEnv)
    → OnOk P (after x (λ _. raise e))
raised P e (ok _, t) = tt
raised P e (err _, t) = tt
raised P e (trap, t) = tt

-- The checks of a submission only read, if they pass.
reject_with_anomaly-same :
    (b : Bool) (channel_id reason : String) (e : ContractError) (s : BridgeEnv)
    → OnOk (λ _ t. (t ≡ s) × (b ≡ false)) (reject_with_anomaly b channel_id reason e s)
unfolding reject_with_anomaly
reject_with_anomaly-same true channel_id reason e s =
    raised (λ _ t. (t ≡ s) × (true ≡ false)) e (record_channel_anomaly channel_id reason s)
reject_with_anomaly-same false channel_id reason e s = (refl, refl)

reject_replay-same :
    (b : Bool) (channel_id : String) (s : BridgeEnv)
    → OnOk (λ _ t. (t ≡ s) × (b ≡ false)) (reject_replay b channel_id s)
unfolding reject_replay
reject_replay-same true channel_id s =
    raised (λ _ t. (t ≡ s) × (true ≡ false)) replay_detected
      (record_channel_anomaly channel_id "replay_detected"
        (with_stats (λ st. record st { replay_rejections = next_u64 st.replay_rejections }) s).1)
reject_replay-same false channel_id s = (refl, refl)

-- The nonce is above the last one of the channel and the height not below, once there are any.
pub record InOrder (input : CrossChainMessageInput) (channel : ChannelState) : Type 0 where
  pub nonce : (channel.last_observed_nonce ≡ 0) ⊎ (channel.last_observed_nonce < input.nonce)
  pub height :
      (channel.last_observed_height ≡ 0) ⊎ (channel.last_observed_height ≤ input.source_height)

check_ordering-InOrder :
    (input : CrossChainMessageInput) (channel : ChannelState) (s : BridgeEnv)
    → OnOk (λ _ t. (t ≡ s) × InOrder input channel) (check_ordering input channel s)
unfolding check_ordering
check_ordering-InOrder input channel s = ground (
  arith,
  reject_with_anomaly-same
      (not (channel.last_observed_nonce == 0) && leb input.nonce channel.last_observed_nonce)
      input.channel_id "out_of_order_nonce" ContractError.invalid_message_ordering s,
  reject_with_anomaly-same
      (not (channel.last_observed_height == 0)
        && ltb input.source_height channel.last_observed_height)
      input.channel_id "source_height_regression" ContractError.invalid_message_ordering s,
)

pub check_input-same :
    (input : CrossChainMessageInput) (s : BridgeEnv) → OnOk (λ _ t. t ≡ s) (check_input input s)
unfolding check_input
check_input-same input s = ground arith

-- What holds of a submission that is stored.
pub record Opened (input : CrossChainMessageInput) (cfg : SecurityConfig) (s : BridgeEnv)
    : Type 0 where
  pub version : input.payload_version ≡ cfg.supported_message_version
  pub is_open : (load_channel_state s input.channel_id).emergency_closed ≡ false
  pub is_new : find (source_key_of input) s.message_source ≡ none
  pub in_order : InOrder input (load_channel_state s input.channel_id)
  pub bridge :
      (b : BridgeConfig) × (find input.bridge_id s.bridge ≡ some b) × (b.min_amount ≤ℤ input.amount)

pub open_channel-Opened :
    (input : CrossChainMessageInput) (cfg : SecurityConfig) (s : BridgeEnv)
    → OnOk
        (λ c t. (t ≡ s) × (c ≡ load_channel_state s input.channel_id) × Opened input cfg s)
        (open_channel input cfg s)
unfolding open_channel
open_channel-Opened input cfg s = grind (
  arith,
  reject_with_anomaly-same (not (input.payload_version == cfg.supported_message_version))
      input.channel_id "unsupported_message_version" ContractError.invalid_message_version s,
  reject_replay-same (is_some (find (source_key_of input) s.message_source)) input.channel_id s,
  check_ordering-InOrder input (load_channel_state s input.channel_id) s,
)
