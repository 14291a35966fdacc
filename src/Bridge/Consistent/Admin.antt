-- ===== src/Bridge/Consistent/Admin.antt =====
-- The operations of the bridge that leave messages, votes and sources alone
-- (bridge/src/bridge.rs).
use Prim.Native.String.{String}
use stellarlend.Prelude.{ℕ, refl, ◌∙◌, Bool, true, false, ◌&&◌, List, [], ◌∷◌, arith}
use stellarlend.Prelude.Int.{ℤ}
use stellarlend.Storage.Borrow.{Address}
use stellarlend.Host.Laws.{OnOk}
use stellarlend.Bridge.State.{BridgeEnv, BridgeCall, SecurityConfig}
use stellarlend.Bridge.Access.{record_channel_anomaly}
use stellarlend.Bridge.Admin.{
  init, register_bridge, set_bridge_fee, set_bridge_active, set_bridge_acceptance_paused,
  set_bridge_security_config, register_validator, set_validator_active, close_channel_emergency,
  reopen_channel, transfer_admin,
}
use stellarlend.Bridge.Transfer.{bridge_deposit, bridge_withdraw}
use stellarlend.Bridge.Slash.{slash_validator, slash_if, slash_all, approved}
use stellarlend.Bridge.Consistent.{SameMessages}

pub SameMessages-refl : (s : BridgeEnv) → SameMessages s s
SameMessages-refl s = record {
  message = refl;
  message_source = refl;
  message_attestation = refl;
  next_message_id = refl;
}

pub SameMessages-trans :
    (s t u : BridgeEnv) → SameMessages s t → SameMessages t u → SameMessages s u
SameMessages-trans s t u h k = record {
  message = k.message ∙ h.message;
  message_source = k.message_source ∙ h.message_source;
  message_attestation = k.message_attestation ∙ h.message_attestation;
  next_message_id = k.next_message_id ∙ h.next_message_id;
}

-- A call that returns has left the messages alone.
abbrev pub Spares : {A : Type 0} → BridgeCall A → Type 0
Spares m = (s : BridgeEnv) → OnOk (λ _ t. SameMessages s t) (m s)

pub record_channel_anomaly-same :
    (channel_id reason : String) → Spares (record_channel_anomaly channel_id reason)
unfolding record_channel_anomaly
record_channel_anomaly-same channel_id reason s = ground arith

pub init-Spares : (admin : Address) → Spares (init admin)
unfolding init
init-Spares admin s = ground arith

pub register_bridge-Spares :
    (caller : Address) (id : String) (fee : ℕ) (min : ℤ)
    → Spares (register_bridge caller id fee min)
unfolding register_bridge
register_bridge-Spares caller id fee min s = ground arith

pub set_bridge_fee-Spares :
    (caller : Address) (id : String) (fee : ℕ) → Spares (set_bridge_fee caller id fee)
unfolding set_bridge_fee
set_bridge_fee-Spares caller id fee s = ground arith

pub set_bridge_active-Spares :
    (caller : Address) (id : String) (active : Bool) → Spares (set_bridge_active caller id active)
unfolding set_bridge_active
set_bridge_active-Spares caller id active s = ground arith

pub set_bridge_acceptance_paused-Spares :
    (caller : Address) (paused : Bool) → Spares (set_bridge_acceptance_paused caller paused)
unfolding set_bridge_acceptance_paused
set_bridge_acceptance_paused-Spares caller paused s = ground arith

pub set_bridge_security_config-Spares :
    (caller : Address) (cfg : SecurityConfig) → Spares (set_bridge_security_config caller cfg)
unfolding set_bridge_security_config
set_bridge_security_config-Spares caller cfg s = ground arith

pub register_validator-Spares :
    (caller v : Address) (stake : ℤ) → Spares (register_validator caller v stake)
unfolding register_validator
register_validator-Spares caller v stake s = ground arith

pub set_validator_active-Spares :
    (caller v : Address) (active : Bool) → Spares (set_validator_active caller v active)
unfolding set_validator_active
set_validator_active-Spares caller v active s = ground arith

pub close_channel_emergency-Spares :
    (caller : Address) (id reason : String) → Spares (close_channel_emergency caller id reason)
unfolding close_channel_emergency
close_channel_emergency-Spares caller id reason s = ground arith

pub reopen_channel-Spares : (caller : Address) (id : String) → Spares (reopen_channel caller id)
unfolding reopen_channel
reopen_channel-Spares caller id s = ground arith

pub transfer_admin-Spares : (caller new : Address) → Spares (transfer_admin caller new)
unfolding transfer_admin
transfer_admin-Spares caller new s = ground arith

pub bridge_deposit-Spares :
    (sender : Address) (id : String) (amount : ℤ) → Spares (bridge_deposit sender id amount)
unfolding bridge_deposit
bridge_deposit-Spares sender id amount s = ground arith

pub bridge_withdraw-Spares :
    (caller : Address) (id : String) (to : Address) (amount : ℤ)
    → Spares (bridge_withdraw caller id to amount)
unfolding bridge_withdraw
bridge_withdraw-Spares caller id to amount s = ground arith

pub slash_if-Spares : (both : Bool) (v : Address) (bps : ℕ) → Spares (slash_if both v bps)
unfolding slash_if slash_validator
slash_if-Spares true v bps s = ground arith
slash_if-Spares false v bps s = ground arith

-- The loop over the validators only writes validators.
pub slash_all-Spares :
    (l : List Address) (first_id second_id bps : ℕ) → Spares (slash_all l first_id second_id bps)
unfolding slash_all
slash_all-Spares [] first_id second_id bps s = SameMessages-refl s
slash_all-Spares (v ∷ rest) first_id second_id bps s =
    let both = approved s first_id v && approved s second_id v in
    grind (
      arith,
      slash_if-Spares both v bps s,
      slash_all-Spares rest first_id second_id bps,
      SameMessages-trans,
    )
