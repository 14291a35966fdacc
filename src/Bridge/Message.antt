-- ===== src/Bridge/Message.antt =====
-- Messages from other chains: submission, attestation and execution (bridge/src/bridge.rs).
use Prim.Native.String.{String}
use stellarlend.Prelude.{
  ℕ, ◌+◌, Bool, true, false, ◌&&◌, not, ltb, leb, ◌==◌, is_some, if◌then◌else◌, ⊤,
}
use stellarlend.Prelude.Int.{pos, leb_ℤ, ltb_ℤ}
use stellarlend.Prelude.I128.{checked_add}
use stellarlend.Prelude.Table.{find, put, nat_key, pair_key, string_key}
use stellarlend.Storage.Borrow.{Address}
use stellarlend.Host.{◌>>=◌, ◌>>◌, gets, ok_or, raise, reject_if, pure, modify}
use stellarlend.Bridge.State.{
  ContractError, amount_not_positive, invalid_message_version, amount_below_minimum, channel_closed,
  replay_detected, invalid_message_ordering, validator_inactive, message_already_executed,
  message_invalidated, duplicate_attestation, quorum_not_reached, message_not_final,
  message_rejected, overflow, SecurityConfig, ChannelState, SourceMessageKey, CrossChainMessage,
  CrossChainMessageInput, ValidatorRecord, BridgeCall, bridge_withdrawal, publish, require_auth,
  next_u32, next_u64, source_key,
}
use stellarlend.Bridge.Access.{
  load_security_config, with_stats, validate_id, load_bridge, save_bridge, load_validator,
  save_validator, load_channel_state, save_channel_state, record_channel_anomaly, next_message_id,
  load_message, save_message,
}

abbrev pub source_key_of : CrossChainMessageInput → SourceMessageKey
source_key_of input = record {
  channel_id = input.channel_id;
  source_chain = input.source_chain;
  source_tx_id = input.source_tx_id;
  nonce = input.nonce;
}

-- `if c { record_channel_anomaly(..); return Err(e); }`
unfoldable pub reject_with_anomaly : Bool → String → String → ContractError → BridgeCall ⊤
reject_with_anomaly false channel_id reason e = pure tt
reject_with_anomaly true channel_id reason e = do record_channel_anomaly channel_id reason; raise e

-- The same, which counts a replay first.
unfoldable pub reject_replay : Bool → String → BridgeCall ⊤
reject_replay false channel_id = pure tt
reject_replay true channel_id = do
  with_stats λ st. record st { replay_rejections = next_u64 st.replay_rejections }
  record_channel_anomaly channel_id "replay_detected"
  raise replay_detected

-- `u32::saturating_add`
abbrev pub add_u32 : ℕ → ℕ → ℕ
add_u32 a b = if ltb (a + b) 0x100000000 then a + b else 0xffffffff

abbrev pub max : ℕ → ℕ → ℕ
max a b = if leb a b then b else a

abbrev pub new_message : ℕ → CrossChainMessageInput → ℕ → ℕ → CrossChainMessage
new_message message_id input sequence wait_ledgers = record {
  message_id = message_id;
  bridge_id = input.bridge_id;
  channel_id = input.channel_id;
  source_chain = input.source_chain;
  source_tx_id = input.source_tx_id;
  source_height = input.source_height;
  nonce = input.nonce;
  recipient = input.recipient;
  amount = input.amount;
  payload_version = input.payload_version;
  submitted_at_ledger = sequence;
  finality_ledger = add_u32 sequence wait_ledgers;
  approvals = 0;
  rejections = 0;
  executed = false;
  invalidated = false;
}

-- The writes of an accepted submission.
unfoldable pub store_message : CrossChainMessageInput → SecurityConfig → ChannelState → BridgeCall ℕ
unfolding next_message_id
store_message input cfg channel = do
  message_id ← next_message_id
  let wait_ledgers = max cfg.min_finality_ledgers cfg.optimistic_delay_ledgers
  sequence ← gets (λ s. s.sequence)
  save_channel_state input.channel_id (record channel {
    last_observed_nonce = input.nonce;
    last_observed_height = input.source_height;
  })
  modify λ s. record s { message_source = put (source_key_of input) message_id s.message_source }
  save_message (new_message message_id input sequence wait_ledgers)
  with_stats λ st. record st { total_messages = next_u64 st.total_messages }
  pure message_id

-- The order of messages in a channel.
unfoldable pub check_ordering : CrossChainMessageInput → ChannelState → BridgeCall ⊤
check_ordering input channel = do
  reject_with_anomaly
      (not (channel.last_observed_nonce == 0) && leb input.nonce channel.last_observed_nonce)
      input.channel_id "out_of_order_nonce" invalid_message_ordering
  reject_with_anomaly
      (not (channel.last_observed_height == 0)
        && ltb input.source_height channel.last_observed_height)
      input.channel_id "source_height_regression" invalid_message_ordering

unfoldable pub check_input : CrossChainMessageInput → BridgeCall ⊤
unfolding validate_id
check_input input = do
  validate_id input.bridge_id
  validate_id input.channel_id
  validate_id input.source_chain
  reject_if (leb_ℤ input.amount (pos 0)) amount_not_positive

-- The channel of a message that may be stored.
unfoldable pub open_channel : CrossChainMessageInput → SecurityConfig → BridgeCall ChannelState
open_channel input cfg = do
  reject_with_anomaly (not (input.payload_version == cfg.supported_message_version))
      input.channel_id "unsupported_message_version" invalid_message_version
  bridge ← load_bridge input.bridge_id
  reject_if (ltb_ℤ input.amount bridge.min_amount) amount_below_minimum
  channel ← gets (λ s. load_channel_state s input.channel_id)
  reject_if channel.emergency_closed channel_closed
  seen ← gets (λ s. is_some (find (source_key_of input) s.message_source))
  reject_replay seen input.channel_id
  check_ordering input channel
  pure channel

unfoldable pub submit_cross_chain_message : Address → CrossChainMessageInput → BridgeCall ℕ
submit_cross_chain_message caller input = do
  require_auth caller
  check_input input
  cfg ← gets load_security_config
  channel ← open_channel input cfg
  store_message input cfg channel

-- The vote is counted on the message, and an approval on the validator too.
unfoldable pub count_vote :
    Bool → Address → ValidatorRecord → CrossChainMessage → BridgeCall CrossChainMessage
count_vote true validator r m = do
  save_validator validator (record r { approvals = next_u32 r.approvals })
  pure (record m { approvals = next_u32 m.approvals })
count_vote false validator r m = do
  record_channel_anomaly m.channel_id "validator_rejection"
  pure (record m { rejections = next_u32 m.rejections })

-- The writes of a vote.
unfoldable pub record_vote : Address → ℕ → Bool → ValidatorRecord → CrossChainMessage → BridgeCall ⊤
record_vote validator message_id approve r m = do
  modify λ s. record s {
    message_attestation = put (message_id, validator) approve s.message_attestation;
  }
  m' ← count_vote approve validator r m
  save_message m'

unfoldable pub attest_cross_chain_message : Address → ℕ → Bool → BridgeCall ⊤
attest_cross_chain_message validator message_id approve = do
  require_auth validator
  r ← load_validator validator
  reject_if (not r.active) validator_inactive
  m ← load_message message_id
  reject_if m.executed message_already_executed
  reject_if m.invalidated message_invalidated
  voted ← gets (λ s. is_some (find (message_id, validator) s.message_attestation))
  reject_if voted duplicate_attestation
  record_vote validator message_id approve r m

-- `if message.rejections > 0 { count it; return Err(MessageRejected); }`
unfoldable pub reject_rejected : Bool → BridgeCall ⊤
reject_rejected false = pure tt
reject_rejected true = do
  with_stats λ st. record st { rejected_messages = next_u64 st.rejected_messages }
  raise message_rejected

-- What has to hold of a message before it is paid.
unfoldable pub check_final : SecurityConfig → CrossChainMessage → BridgeCall ⊤
unfolding reject_rejected
check_final cfg m = do
  reject_if m.executed message_already_executed
  reject_if m.invalidated message_invalidated
  reject_if (ltb m.approvals cfg.min_validator_signatures) quorum_not_reached
  sequence ← gets (λ s. s.sequence)
  reject_if (ltb sequence m.finality_ledger) message_not_final
  reject_rejected (ltb 0 m.rejections)

-- The payment of a message.
unfoldable pub pay_message : CrossChainMessage → BridgeCall ⊤
pay_message m = do
  channel ← gets (λ s. load_channel_state s m.channel_id)
  reject_if channel.emergency_closed channel_closed
  bridge ← load_bridge m.bridge_id
  reject_if (ltb_ℤ m.amount bridge.min_amount) amount_below_minimum
  total ← ok_or (checked_add bridge.total_withdrawn m.amount) overflow
  save_bridge m.bridge_id (record bridge { total_withdrawn = total })
  save_message (record m { executed = true })
  with_stats λ st. record st { executed_messages = next_u64 st.executed_messages }
  publish (bridge_withdrawal m.bridge_id m.amount)

unfoldable pub execute_verified_withdrawal : Address → ℕ → BridgeCall ⊤
execute_verified_withdrawal caller message_id = do
  require_auth caller
  cfg ← gets load_security_config
  m ← load_message message_id
  check_final cfg m
  pay_message m
