-- ===== src/Bridge/Slash.antt =====
-- The slashing of validators who approved two conflicting messages (bridge/src/bridge.rs).
use stellarlend.Prelude.{
  ℕ, Bool, true, false, ◌&&◌, ◌||◌, not, Option, none, some, List, [], ◌∷◌, ◌==◌, if◌then◌else◌, ⊤,
}
use text.Mathlib.Text.{◌==◌ as str_eq}
use stellarlend.Prelude.Int.{pos, leb_ℤ}
use stellarlend.Prelude.I128.{saturating_add, saturating_sub}
use stellarlend.Prelude.Table.{find, pair_key, nat_key}
use stellarlend.Storage.Borrow.{Address}
use stellarlend.Host.{◌>>=◌, ◌>>◌, gets, reject_if, pure}
use stellarlend.Bridge.State.{
  conflicting_messages, nothing_to_slash, CrossChainMessage, ValidatorRecord, BridgeEnv, BridgeCall,
  validator_slashed, publish, require_auth, next_u64,
}
use stellarlend.Bridge.Access.{
  load_security_config, with_stats, validator_list, load_validator, save_validator,
  record_channel_anomaly, load_message, save_message, message_payload_matches, slash_amount,
}

abbrev pub same_source : CrossChainMessage → CrossChainMessage → Bool
same_source a b =
    str_eq a.channel_id b.channel_id
    && str_eq a.source_chain b.source_chain
    && (a.nonce == b.nonce || str_eq a.source_tx_id b.source_tx_id)

-- `vote == Some(true)`
abbrev pub is_approval : Option Bool → Bool
is_approval none = false
is_approval (some b) = b

abbrev pub approved : BridgeEnv → ℕ → Address → Bool
approved s id validator = is_approval (find (id, validator) s.message_attestation)

-- A validator's record after a slash.
unfoldable pub slashed_record : ValidatorRecord → ℕ → ValidatorRecord
slashed_record r slash_bps =
    let amount = slash_amount r.stake slash_bps in
    let stake = saturating_sub r.stake amount in
    record r {
      stake = stake;
      slashed_total = saturating_add r.slashed_total amount;
      active = if leb_ℤ stake (pos 0) then false else r.active;
    }

unfoldable pub slash_validator : Address → ℕ → BridgeCall ⊤
slash_validator validator slash_bps = do
  r ← load_validator validator
  save_validator validator (slashed_record r slash_bps)
  with_stats λ st. record st { slashes = next_u64 st.slashes }
  publish (
      validator_slashed validator (slash_amount r.stake slash_bps)
        (slashed_record r slash_bps).stake)

-- One round of the loop, and whether the validator is pushed.
unfoldable pub slash_if : Bool → Address → ℕ → BridgeCall ⊤
slash_if false validator slash_bps = pure tt
slash_if true validator slash_bps = slash_validator validator slash_bps

unfoldable pub slash_all : List Address → ℕ → ℕ → ℕ → BridgeCall (List Address)
slash_all [] first_id second_id slash_bps = pure []
slash_all (validator ∷ rest) first_id second_id slash_bps = do
  both ← gets (λ s. approved s first_id validator && approved s second_id validator)
  slash_if both validator slash_bps
  slashed ← slash_all rest first_id second_id slash_bps
  pure (if both then validator ∷ slashed else slashed)

abbrev pub is_empty {ℓ} : {A : Type ℓ} → List A → Bool
is_empty [] = true
is_empty (_ ∷ _) = false

-- The writes after the loop.
unfoldable pub invalidate_both : CrossChainMessage → CrossChainMessage → BridgeCall ⊤
invalidate_both first second = do
  save_message (record first { invalidated = true })
  save_message (record second { invalidated = true })
  record_channel_anomaly first.channel_id "conflicting_message_attestations"

-- The slash for two messages that are there.
unfoldable pub slash_found :
    ℕ → ℕ → CrossChainMessage → CrossChainMessage → BridgeCall (List Address)
slash_found first_id second_id first second = do
  reject_if (not (same_source first second) || message_payload_matches first second)
      conflicting_messages
  validators ← gets validator_list
  cfg ← gets load_security_config
  slashed ← slash_all validators first_id second_id cfg.slash_bps
  reject_if (is_empty slashed) nothing_to_slash
  invalidate_both first second
  pure slashed

unfoldable pub slash_conflicting_messages : Address → ℕ → ℕ → BridgeCall (List Address)
slash_conflicting_messages caller first_id second_id = do
  require_auth caller
  first ← load_message first_id
  second ← load_message second_id
  slash_found first_id second_id first second
