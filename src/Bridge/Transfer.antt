-- ===== src/Bridge/Transfer.antt =====
-- Deposits into and withdrawals from a bridge, and the fee (bridge/src/bridge.rs).
use Prim.Native.String.{String}
use stellarlend.Prelude.{ℕ, Bool, false, not, unwrap_or, ⊤}
use stellarlend.Prelude.Int.{ℤ, pos, ◌*ℤ◌, div, leb_ℤ, ltb_ℤ}
use stellarlend.Prelude.I128.{to_i128, checked_add, checked_sub}
use stellarlend.Storage.Borrow.{Address}
use stellarlend.Host.{◌>>=◌, ◌>>◌, gets, ok_or, reject_if, pure}
use stellarlend.Bridge.State.{
  bridge_acceptance_paused, amount_not_positive, bridge_inactive, amount_below_minimum, overflow,
  BridgeEnv, BridgeCall, bridge_deposited, bridge_withdrawal, publish, require_auth,
}
use stellarlend.Bridge.Access.{require_admin, load_bridge, save_bridge}

abbrev pub is_bridge_acceptance_paused : BridgeEnv → Bool
is_bridge_acceptance_paused s = unwrap_or s.bridge_acceptance_paused false

-- The product of an i128 and a u64 fits in the 256 bits of the host's integers.
unfoldable pub compute_fee : ℤ → ℕ → ℤ
compute_fee amount fee_bps = unwrap_or (to_i128 (div (amount *ℤ pos fee_bps) (pos 10000))) (pos 0)

unfoldable pub bridge_deposit : Address → String → ℤ → BridgeCall ℤ
bridge_deposit sender bridge_id amount = do
  require_auth sender
  paused ← gets is_bridge_acceptance_paused
  reject_if paused bridge_acceptance_paused
  reject_if (leb_ℤ amount (pos 0)) amount_not_positive
  cfg ← load_bridge bridge_id
  reject_if (not cfg.active) bridge_inactive
  reject_if (ltb_ℤ amount cfg.min_amount) amount_below_minimum
  let fee = compute_fee amount cfg.fee_bps
  net ← ok_or (checked_sub amount fee) overflow
  total ← ok_or (checked_add cfg.total_deposited amount) overflow
  save_bridge bridge_id (record cfg { total_deposited = total })
  publish (bridge_deposited bridge_id amount fee net)
  pure net

unfoldable pub bridge_withdraw : Address → String → Address → ℤ → BridgeCall ⊤
unfolding require_admin
bridge_withdraw caller bridge_id recipient amount = do
  require_admin caller
  reject_if (leb_ℤ amount (pos 0)) amount_not_positive
  cfg ← load_bridge bridge_id
  reject_if (ltb_ℤ amount cfg.min_amount) amount_below_minimum
  total ← ok_or (checked_add cfg.total_withdrawn amount) overflow
  save_bridge bridge_id (record cfg { total_withdrawn = total })
  publish (bridge_withdrawal bridge_id amount)
