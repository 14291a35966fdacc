-- ===== src/Bridge/State.antt =====
-- The structs, storage keys, errors and events of the bridge (bridge/src/bridge.rs), and the
-- environment of its calls.
use Prim.Native.String.{String}
use stellarlend.Prelude.{
  ℕ, ◌+◌, ◌≡◌, ◌↔◌, Bool, true, ◌&&◌, Option, List, ◌∷◌, arith, ltb, if◌then◌else◌, ⊤, ◌==◌,
}
use stellarlend.Prelude.Int.{ℤ}
use stellarlend.Prelude.Dict.{Dict}
use stellarlend.Prelude.Table.{Table, Key, ==_iff, string_key, pair_key}
use text.Mathlib.Text.{◌==◌ as str_eq}
use text.Mathlib.TextEquality.{eq_iff}
use stellarlend.Storage.Borrow.{Address}
use stellarlend.Host.{Run}
use stellarlend.Host.Result.{ok, trap}

pub data ContractError : Type 0 where
  already_initialised not_initialised unauthorised bridge_already_exists bridge_not_found
        bridge_inactive fee_too_high invalid_bridge_id_len invalid_bridge_id_char
        negative_min_amount amount_not_positive amount_below_minimum overflow
        bridge_acceptance_paused validator_already_exists validator_not_found validator_inactive
        invalid_validator_stake message_already_exists message_not_found duplicate_attestation
        quorum_not_reached message_not_final message_already_executed message_invalidated
        replay_detected channel_closed invalid_message_version invalid_security_config
        conflicting_messages nothing_to_slash message_rejected invalid_message_ordering :
      ContractError

pub record BridgeConfig : Type 0 where
  pub bridge_id : String
  pub fee_bps : ℕ
  pub min_amount : ℤ
  pub active : Bool
  pub total_deposited : ℤ
  pub total_withdrawn : ℤ

pub record SecurityConfig : Type 0 where
  pub min_validator_signatures : ℕ
  pub min_finality_ledgers : ℕ
  pub optimistic_delay_ledgers : ℕ
  pub slash_bps : ℕ
  pub supported_message_version : ℕ
  pub anomaly_close_threshold : ℕ

pub record ValidatorRecord : Type 0 where
  pub stake : ℤ
  pub active : Bool
  pub slashed_total : ℤ
  pub approvals : ℕ

pub record ChannelState : Type 0 where
  pub emergency_closed : Bool
  pub anomaly_count : ℕ
  pub last_observed_nonce : ℕ
  pub last_observed_height : ℕ
  pub reason : String

pub record BridgeSecurityStats : Type 0 where
  pub total_messages : ℕ
  pub executed_messages : ℕ
  pub rejected_messages : ℕ
  pub replay_rejections : ℕ
  pub anomaly_events : ℕ
  pub slashes : ℕ
  pub emergency_closures : ℕ

pub record SourceMessageKey : Type 0 where
  pub channel_id : String
  pub source_chain : String
  pub source_tx_id : String
  pub nonce : ℕ

pub record CrossChainMessage : Type 0 where
  pub message_id : ℕ
  pub bridge_id : String
  pub channel_id : String
  pub source_chain : String
  pub source_tx_id : String
  pub source_height : ℕ
  pub nonce : ℕ
  pub recipient : Address
  pub amount : ℤ
  pub payload_version : ℕ
  pub submitted_at_ledger : ℕ
  pub finality_ledger : ℕ
  pub approvals : ℕ
  pub rejections : ℕ
  pub executed : Bool
  pub invalidated : Bool

pub record CrossChainMessageInput : Type 0 where
  pub bridge_id : String
  pub channel_id : String
  pub source_chain : String
  pub source_tx_id : String
  pub source_height : ℕ
  pub nonce : ℕ
  pub recipient : Address
  pub amount : ℤ
  pub payload_version : ℕ

pub data BridgeEvent : Type 0 where
  bridge_registered : String → ℕ → ℤ → BridgeEvent
  bridge_fee_updated : String → ℕ → BridgeEvent
  bridge_active_updated : String → Bool → BridgeEvent
  bridge_deposited : String → ℤ → ℤ → ℤ → BridgeEvent
  bridge_withdrawal : String → ℤ → BridgeEvent
  bridge_acceptance_pause : Bool → Address → BridgeEvent
  validator_updated : Address → ℤ → Bool → BridgeEvent
  security_config_updated : ℕ → ℕ → ℕ → ℕ → ℕ → BridgeEvent
  validator_slashed : Address → ℤ → ℤ → BridgeEvent
  channel_emergency_close : String → Bool → String → BridgeEvent
  bridge_anomaly : String → ℕ → String → BridgeEvent

abbrev pub same_source_key : SourceMessageKey → SourceMessageKey → Bool
same_source_key a b =
    str_eq a.channel_id b.channel_id
    && str_eq a.source_chain b.source_chain
    && str_eq a.source_tx_id b.source_tx_id
    && a.nonce == b.nonce

pub same_source_key_iff : (a b : SourceMessageKey) → (same_source_key a b ≡ true) ↔ (a ≡ b)
same_source_key_iff a b = (
  λ h. ground (
    arith,
    eq_iff a.channel_id b.channel_id,
    eq_iff a.source_chain b.source_chain,
    eq_iff a.source_tx_id b.source_tx_id,
    ==_iff a.nonce b.nonce,
  ),
  λ h. ground (
    arith,
    eq_iff a.channel_id b.channel_id,
    eq_iff a.source_chain b.source_chain,
    eq_iff a.source_tx_id b.source_tx_id,
    ==_iff a.nonce b.nonce,
  ),
)

instance abbrev pub source_key : Key SourceMessageKey
source_key = record { same = same_source_key; same_iff = same_source_key_iff }

-- The storage, by its keys, with the ledger's sequence number, who has signed the invocation, and
-- the events published so far, newest first.
pub record BridgeEnv : Type 0 where
  pub sequence : ℕ
  pub signed : Address → Bool
  pub admin : Option Address
  pub bridge : Table String BridgeConfig
  pub bridge_list : Option (List String)
  pub bridge_acceptance_paused : Option Bool
  pub security_config : Option SecurityConfig
  pub validator : Dict ValidatorRecord
  pub validator_list : Option (List Address)
  pub channel : Table String ChannelState
  pub message : Dict CrossChainMessage
  pub message_source : Table SourceMessageKey ℕ
  pub message_attestation : Table (ℕ × Address) Bool
  pub next_message_id : Option ℕ
  pub stats : Option BridgeSecurityStats
  pub events : List BridgeEvent

abbrev pub BridgeCall : Type 0 → Type 0
BridgeCall A = Run BridgeEnv ContractError A

abbrev pub publish : BridgeEvent → BridgeCall ⊤
publish e s = (ok tt, record s { events = e ∷ s.events })

-- `address.require_auth()`
abbrev pub require_auth : Address → BridgeCall ⊤
require_auth a s = (if s.signed a then ok tt else trap, s)

-- `u32::saturating_add(1)` and `u64::saturating_add(1)`
abbrev pub next_u32 : ℕ → ℕ
next_u32 n = if ltb n 0xffffffff then n + 1 else 0xffffffff

abbrev pub next_u64 : ℕ → ℕ
next_u64 n = if ltb n 0xffffffffffffffff then n + 1 else 0xffffffffffffffff
