-- ===== src/Amm/Callback.antt =====
-- Callbacks of the AMM protocols and their nonces (amm/src/amm.rs).
use stellarlend.Prelude.{ℕ, ◌+◌, not, ltb, ◌==◌, unwrap_or, is_some, if◌then◌else◌, ⊤}
use stellarlend.Prelude.Dict.{lookup, insert}
use stellarlend.Storage.Borrow.{Address}
use stellarlend.Host.{◌>>=◌, ◌>>◌, gets, reject_if, pure, modify}
use stellarlend.Host.Result.{ok, trap}
use stellarlend.Amm.State.{
  invalid_callback, AmmCallbackData, AmmEnv, AmmCall, callback_validated, publish,
}
use stellarlend.Amm.Protocols.{get_amm_protocols}

abbrev pub nonce_of : AmmEnv → Address → ℕ
nonce_of s user = unwrap_or (lookup user s.callback_nonces) 0

-- `nonce + 1` on u64, which traps at the end of the range.
abbrev pub next_nonce : ℕ → AmmCall ℕ
next_nonce n s = (if ltb n 0xffffffffffffffff then ok (n + 1) else trap, s)

abbrev pub set_nonce : Address → ℕ → AmmCall ⊤
set_nonce user n = modify λ s. record s { callback_nonces = insert user n s.callback_nonces }

unfoldable pub generate_callback_nonce : Address → AmmCall ℕ
generate_callback_nonce user = do
  current ← gets (λ s. nonce_of s user)
  new ← next_nonce current
  set_nonce user new
  pure new

unfoldable pub validate_amm_callback : Address → AmmCallbackData → AmmCall ⊤
validate_amm_callback caller c = do
  protocols ← get_amm_protocols
  reject_if (not (is_some (lookup caller protocols))) invalid_callback
  now ← gets (λ s. s.timestamp)
  reject_if (ltb c.deadline now) invalid_callback
  expected ← gets (λ s. nonce_of s c.user)
  reject_if (not (c.nonce == expected)) invalid_callback
  new ← next_nonce expected
  set_nonce c.user new
  publish (callback_validated caller c.user c.operation c.nonce)
