-- ===== src/Bridge/Life.antt =====
-- Sequences of invocations of the bridge: what was executed is never paid again, and what was
-- submitted is never taken again (bridge/src/bridge.rs).
use Prim.Native.String.{String}
use stellarlend.Prelude.{ℕ, ◌+◌, ◌<◌, ◌≡◌, Bool, true, is_some}
use stellarlend.Prelude.Int.{ℤ}
use stellarlend.Prelude.Table.{find}
use stellarlend.Storage.Borrow.{Address}
use stellarlend.Host.{invoke}
use stellarlend.Host.Laws.{OnOk, OnOk-map, invoke-OkOrSame, OkOrSame-state}
use stellarlend.Bridge.State.{
  BridgeEnv, BridgeCall, SecurityConfig, CrossChainMessageInput, source_key,
}
use stellarlend.Bridge.Admin.{
  init, register_bridge, set_bridge_fee, set_bridge_active, set_bridge_acceptance_paused,
  set_bridge_security_config, register_validator, set_validator_active, close_channel_emergency,
  reopen_channel, transfer_admin,
}
use stellarlend.Bridge.Transfer.{bridge_deposit, bridge_withdraw}
use stellarlend.Bridge.Message.{
  source_key_of, submit_cross_chain_message, attest_cross_chain_message,
  execute_verified_withdrawal,
}
use stellarlend.Bridge.Slash.{slash_conflicting_messages}
use stellarlend.Bridge.Consistent.{
  last_id, u64_max, IsConsistent, Steps, SameMessages, SameMessages-Steps,
}
use stellarlend.Bridge.Consistent.Admin.{
  Spares, SameMessages-refl, init-Spares, register_bridge-Spares, set_bridge_fee-Spares,
  set_bridge_active-Spares, set_bridge_acceptance_paused-Spares, set_bridge_security_config-Spares,
  register_validator-Spares, set_validator_active-Spares, close_channel_emergency-Spares,
  reopen_channel-Spares, transfer_admin-Spares, bridge_deposit-Spares, bridge_withdraw-Spares,
}
use stellarlend.Bridge.Consistent.Messages.{submit_cross_chain_message-Steps}
use stellarlend.Bridge.Consistent.Votes.{attest_cross_chain_message-Steps}
use stellarlend.Bridge.Consistent.Payments.{
  execute_verified_withdrawal-Steps, slash_conflicting_messages-Steps,
}

-- One invocation of an entry point that writes.
pub data Operation : Type 0 where
  initialise : Address → Operation
  register : Address → String → ℕ → ℤ → Operation
  set_fee : Address → String → ℕ → Operation
  set_active : Address → String → Bool → Operation
  set_paused : Address → Bool → Operation
  set_security : Address → SecurityConfig → Operation
  add_validator : Address → Address → ℤ → Operation
  set_validator : Address → Address → Bool → Operation
  close : Address → String → String → Operation
  reopen : Address → String → Operation
  transfer : Address → Address → Operation
  deposit : Address → String → ℤ → Operation
  withdraw : Address → String → Address → ℤ → Operation
  submit : Address → CrossChainMessageInput → Operation
  attest : Address → ℕ → Bool → Operation
  execute : Address → ℕ → Operation
  slash : Address → ℕ → ℕ → Operation

abbrev after_call : {A : Type 0} → BridgeCall A → BridgeEnv → BridgeEnv
after_call m s = (invoke m s).1

abbrev pub run_operation : Operation → BridgeEnv → BridgeEnv
run_operation (initialise admin) s = after_call (init admin) s
run_operation (register caller id fee min) s = after_call (register_bridge caller id fee min) s
run_operation (set_fee caller id fee) s = after_call (set_bridge_fee caller id fee) s
run_operation (set_active caller id active) s = after_call (set_bridge_active caller id active) s
run_operation (set_paused caller paused) s =
    after_call (set_bridge_acceptance_paused caller paused) s
run_operation (set_security caller cfg) s = after_call (set_bridge_security_config caller cfg) s
run_operation (add_validator caller v stake) s = after_call (register_validator caller v stake) s
run_operation (set_validator caller v active) s =
    after_call (set_validator_active caller v active) s
run_operation (close caller id reason) s = after_call (close_channel_emergency caller id reason) s
run_operation (reopen caller id) s = after_call (reopen_channel caller id) s
run_operation (transfer caller new) s = after_call (transfer_admin caller new) s
run_operation (deposit sender id amount) s = after_call (bridge_deposit sender id amount) s
run_operation (withdraw caller id to amount) s = after_call (bridge_withdraw caller id to amount) s
run_operation (submit caller input) s = after_call (submit_cross_chain_message caller input) s
run_operation (attest v id approve) s = after_call (attest_cross_chain_message v id approve) s
run_operation (execute caller id) s = after_call (execute_verified_withdrawal caller id) s
run_operation (slash caller a b) s = after_call (slash_conflicting_messages caller a b) s

-- `t` comes after `s`: by invocations, and by ledgers that close with other signatures.
pub data Reaches : BridgeEnv → BridgeEnv → Type 0 where
  done : {s : BridgeEnv} → Reaches s s
  invoked : {s t : BridgeEnv} (op : Operation) → Reaches (run_operation op s) t → Reaches s t
  elapsed :
      {s t : BridgeEnv} (sequence : ℕ) (signed : Address → Bool)
      → Reaches (record s { sequence = sequence; signed = signed }) t
      → Reaches s t

-- The number of invocations.
abbrev pub count_invoked : {s t : BridgeEnv} → Reaches s t → ℕ
count_invoked done = 0
count_invoked (invoked _ r) = count_invoked r + 1
count_invoked (elapsed _ _ r) = count_invoked r

invoke-Steps :
    {A : Type 0} (m : BridgeCall A) (s : BridgeEnv)
    → IsConsistent s
    → OnOk (λ _ t. Steps s t) (m s)
    → Steps s (invoke m s).1
invoke-Steps m s c h =
    OkOrSame-state (Steps s) s (λ _ t. Steps s t) (invoke m s)
      (invoke-OkOrSame (λ _ t. Steps s t) m s h) (SameMessages-Steps s s c (SameMessages-refl s))
      (λ _ t d. d)

Spares-Steps :
    {A : Type 0} (m : BridgeCall A) (s : BridgeEnv)
    → IsConsistent s
    → Spares m
    → Steps s (invoke m s).1
Spares-Steps m s c h = invoke-Steps m s c (
    OnOk-map (λ _ t. SameMessages s t) (λ _ t. Steps s t) (m s) (h s)
      λ _ t e. SameMessages-Steps s t c e)

pub run_operation-Steps :
    (op : Operation) (s : BridgeEnv)
    → IsConsistent s
    → last_id s < u64_max
    → Steps s (run_operation op s)
run_operation-Steps (initialise admin) s c h = Spares-Steps (init admin) s c (init-Spares admin)
run_operation-Steps (register caller id fee min) s c h =
    Spares-Steps (register_bridge caller id fee min) s c (register_bridge-Spares caller id fee min)
run_operation-Steps (set_fee caller id fee) s c h =
    Spares-Steps (set_bridge_fee caller id fee) s c (set_bridge_fee-Spares caller id fee)
run_operation-Steps (set_active caller id active) s c h =
    Spares-Steps (set_bridge_active caller id active) s c
      (set_bridge_active-Spares caller id active)
run_operation-Steps (set_paused caller paused) s c h =
    Spares-Steps (set_bridge_acceptance_paused caller paused) s c
      (set_bridge_acceptance_paused-Spares caller paused)
run_operation-Steps (set_security caller cfg) s c h =
    Spares-Steps (set_bridge_security_config caller cfg) s c
      (set_bridge_security_config-Spares caller cfg)
run_operation-Steps (add_validator caller v stake) s c h =
    Spares-Steps (register_validator caller v stake) s c (register_validator-Spares caller v stake)
run_operation-Steps (set_validator caller v active) s c h =
    Spares-Steps (set_validator_active caller v active) s c
      (set_validator_active-Spares caller v active)
run_operation-Steps (close caller id reason) s c h =
    Spares-Steps (close_channel_emergency caller id reason) s c
      (close_channel_emergency-Spares caller id reason)
run_operation-Steps (reopen caller id) s c h =
    Spares-Steps (reopen_channel caller id) s c (reopen_channel-Spares caller id)
run_operation-Steps (transfer caller new) s c h =
    Spares-Steps (transfer_admin caller new) s c (transfer_admin-Spares caller new)
run_operation-Steps (deposit sender id amount) s c h =
    Spares-Steps (bridge_deposit sender id amount) s c (bridge_deposit-Spares sender id amount)
run_operation-Steps (withdraw caller id to amount) s c h =
    Spares-Steps (bridge_withdraw caller id to amount) s c
      (bridge_withdraw-Spares caller id to amount)
run_operation-Steps (submit caller input) s c h =
    let m = submit_cross_chain_message caller input in
    invoke-Steps m s c (
      OnOk-map (λ _ t. Steps s t × (is_some (find (source_key_of input) t.message_source) ≡ true))
        (λ _ t. Steps s t) (m s) (submit_cross_chain_message-Steps caller input s c h) λ _ t p. p.0)
run_operation-Steps (attest v id approve) s c h =
    invoke-Steps (attest_cross_chain_message v id approve) s c
      (attest_cross_chain_message-Steps v id approve s c)
run_operation-Steps (execute caller id) s c h =
    invoke-Steps (execute_verified_withdrawal caller id) s c
      (execute_verified_withdrawal-Steps caller id s c)
run_operation-Steps (slash caller a b) s c h =
    invoke-Steps (slash_conflicting_messages caller a b) s c
      (slash_conflicting_messages-Steps caller a b s c)
