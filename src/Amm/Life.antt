-- ===== src/Amm/Life.antt =====
-- Sequences of invocations of the AMM, and callbacks over them (amm/src/amm.rs).
use stellarlend.Prelude.{ℕ, ◌+◌, ◌≡◌, refl, subst, arith, ◌==◌, Bool-cases, inl, inr}
use stellarlend.Prelude.Int.{ℤ}
use stellarlend.Storage.Borrow.{Address}
use stellarlend.Host.{invoke}
use stellarlend.Host.Result.{ok}
use stellarlend.Host.Laws.{OnOk, OnOk-map, OkOrSame, invoke-OkOrSame, OkOrSame-state}
use stellarlend.Amm.State.{
  AmmEnv, AmmCall, AmmProtocolConfig, AmmSettings, SwapParams, LiquidityParams, AmmCallbackData,
  Token,
}
use stellarlend.Amm.Protocols.{
  initialize_amm_settings, add_amm_protocol, update_amm_settings, find_best_amm_protocol,
}
use stellarlend.Amm.Callback.{validate_amm_callback}
use stellarlend.Amm.Swap.{
  execute_swap, auto_swap_for_collateral, calculate_min_output_with_slippage,
}
use stellarlend.Amm.Liquidity.{add_liquidity, remove_liquidity}
use stellarlend.Amm.Laws.{nonce_of-set, Accepted, validate_amm_callback-Accepted}
use stellarlend.Amm.Swaps.{Swapped, execute_swap-Swapped}
use stellarlend.Amm.Nonces.{
  NoncesGrow, SetNonce-NoncesGrow, add_liquidity-NoncesGrow, remove_liquidity-NoncesGrow,
}

-- One invocation of an entry point that writes.
pub data Operation : Type 0 where
  initialise : Address → ℤ → ℤ → ℤ → Operation
  register : Address → AmmProtocolConfig → Operation
  configure : Address → AmmSettings → Operation
  swap : Address → SwapParams → Operation
  auto_swap : Address → Token → ℤ → Operation
  add : Address → LiquidityParams → Operation
  remove : Address → Address → Token → Token → ℤ → ℤ → ℤ → ℕ → Operation
  callback : Address → AmmCallbackData → Operation

abbrev pub run_operation : Operation → AmmEnv → AmmEnv
run_operation (initialise admin default max threshold) s =
    (invoke (initialize_amm_settings admin default max threshold) s).1
run_operation (register admin config) s = (invoke (add_amm_protocol admin config) s).1
run_operation (configure admin settings) s = (invoke (update_amm_settings admin settings) s).1
run_operation (swap user p) s = (invoke (execute_swap user p) s).1
run_operation (auto_swap user token amount) s =
    (invoke (auto_swap_for_collateral user token amount) s).1
run_operation (add user p) s = (invoke (add_liquidity user p) s).1
run_operation (remove user protocol x y lp a b deadline) s =
    (invoke (remove_liquidity user protocol x y lp a b deadline) s).1
run_operation (callback caller c) s = (invoke (validate_amm_callback caller c) s).1

-- `t` comes after `s`: by invocations, and by time.
pub data Reaches : AmmEnv → AmmEnv → Type 0 where
  done : {s : AmmEnv} → Reaches s s
  invoked : {s t : AmmEnv} (op : Operation) → Reaches (run_operation op s) t → Reaches s t
  elapsed : {s t : AmmEnv} (time : ℕ) → Reaches (record s { timestamp = time }) t → Reaches s t

invoke-NoncesGrow :
    {A : Type 0} (m : AmmCall A) (s : AmmEnv)
    → OnOk (λ _ t. NoncesGrow s t) (m s)
    → NoncesGrow s (invoke m s).1
invoke-NoncesGrow m s h =
    OkOrSame-state (NoncesGrow s) s (λ _ t. NoncesGrow s t) (invoke m s)
      (invoke-OkOrSame (λ _ t. NoncesGrow s t) m s h) (λ v. omega arith) (λ _ t d. d)

initialize_amm_settings-NoncesGrow :
    (admin : Address) (a b c : ℤ) (s : AmmEnv)
    → OnOk (λ _ t. NoncesGrow s t) (initialize_amm_settings admin a b c s)
unfolding initialize_amm_settings
initialize_amm_settings-NoncesGrow admin a b c s = grind arith

add_amm_protocol-NoncesGrow :
    (admin : Address) (config : AmmProtocolConfig) (s : AmmEnv)
    → OnOk (λ _ t. NoncesGrow s t) (add_amm_protocol admin config s)
unfolding add_amm_protocol
add_amm_protocol-NoncesGrow admin config s = grind arith

update_amm_settings-NoncesGrow :
    (admin : Address) (settings : AmmSettings) (s : AmmEnv)
    → OnOk (λ _ t. NoncesGrow s t) (update_amm_settings admin settings s)
unfolding update_amm_settings
update_amm_settings-NoncesGrow admin settings s = grind arith

execute_swap-NoncesGrow :
    (user : Address) (p : SwapParams) (s : AmmEnv)
    → OnOk (λ _ t. NoncesGrow s t) (execute_swap user p s)
execute_swap-NoncesGrow user p s =
    OnOk-map (λ out t. Swapped user p out s t) (λ _ t. NoncesGrow s t) (execute_swap user p s)
      (execute_swap-Swapped user p s)
      λ out t d v. elim (Bool-cases (v == user)) [
        | inl e ↦ let same : v ≡ user = ground (arith, e) in ground (arith, d.own_nonce, same)
        | inr e ↦ ground (arith, d.other_nonces v, e)
      ]

auto_swap_for_collateral-NoncesGrow :
    (user : Address) (token : Token) (amount : ℤ) (s : AmmEnv)
    → OnOk (λ _ t. NoncesGrow s t) (auto_swap_for_collateral user token amount s)
unfolding auto_swap_for_collateral find_best_amm_protocol calculate_min_output_with_slippage
auto_swap_for_collateral-NoncesGrow user token amount s =
    grind (arith, execute_swap-NoncesGrow user)

validate_amm_callback-NoncesGrow :
    (caller : Address) (c : AmmCallbackData) (s : AmmEnv)
    → OnOk (λ _ t. NoncesGrow s t) (validate_amm_callback caller c s)
validate_amm_callback-NoncesGrow caller c s =
    OnOk-map (λ _ t. Accepted caller c s t) (λ _ t. NoncesGrow s t)
      (validate_amm_callback caller c s) (validate_amm_callback-Accepted caller c s)
      λ _ t a. SetNonce-NoncesGrow c.user (c.nonce + 1) s t (omega (arith, a.current)) a.set

run_operation-NoncesGrow : (op : Operation) (s : AmmEnv) → NoncesGrow s (run_operation op s)
run_operation-NoncesGrow (initialise admin default max threshold) s =
    invoke-NoncesGrow (initialize_amm_settings admin default max threshold) s
      (initialize_amm_settings-NoncesGrow admin default max threshold s)
run_operation-NoncesGrow (register admin config) s =
    invoke-NoncesGrow (add_amm_protocol admin config) s (add_amm_protocol-NoncesGrow admin config s)
run_operation-NoncesGrow (configure admin settings) s =
    invoke-NoncesGrow (update_amm_settings admin settings) s
      (update_amm_settings-NoncesGrow admin settings s)
run_operation-NoncesGrow (swap user p) s =
    invoke-NoncesGrow (execute_swap user p) s (execute_swap-NoncesGrow user p s)
run_operation-NoncesGrow (auto_swap user token amount) s =
    invoke-NoncesGrow (auto_swap_for_collateral user token amount) s
      (auto_swap_for_collateral-NoncesGrow user token amount s)
run_operation-NoncesGrow (add user p) s =
    invoke-NoncesGrow (add_liquidity user p) s (add_liquidity-NoncesGrow user p s)
run_operation-NoncesGrow (remove user protocol x y lp a b deadline) s =
    invoke-NoncesGrow (remove_liquidity user protocol x y lp a b deadline) s
      (remove_liquidity-NoncesGrow user protocol x y lp a b deadline s)
run_operation-NoncesGrow (callback caller c) s =
    invoke-NoncesGrow (validate_amm_callback caller c) s
      (validate_amm_callback-NoncesGrow caller c s)

Reaches-NoncesGrow : (s t : AmmEnv) → Reaches s t → NoncesGrow s t
Reaches-NoncesGrow s _ done v = omega arith
Reaches-NoncesGrow s t (invoked op r) v =
    omega (arith, run_operation-NoncesGrow op s v, Reaches-NoncesGrow (run_operation op s) t r v)
Reaches-NoncesGrow s t (elapsed time r) v = Reaches-NoncesGrow (record s { timestamp = time }) t r v

-- A callback that was accepted is not accepted in any later state, whoever sends it: after any
-- sequence of invocations and any time.
pub callback_once :
    (s t u : AmmEnv) (caller again : Address) (c : AmmCallbackData)
    → validate_amm_callback caller c s ≡ (ok tt, t)
    → Reaches t u
    → OkOrSame u (λ _ _. ⊥) (invoke (validate_amm_callback again c) u)
callback_once s t u caller again c e r =
    let first =
      subst (OnOk λ _ v. Accepted caller c s v) e (validate_amm_callback-Accepted caller c s) in
    let moved = (nonce_of-set c.user c.user (c.nonce + 1) s t first.set).0 refl in
    let grown = Reaches-NoncesGrow t u r c.user in
    invoke-OkOrSame (λ _ _. ⊥) (validate_amm_callback again c) u
      (OnOk-map (λ _ v. Accepted again c u v) (λ _ _. ⊥) (validate_amm_callback again c u)
        (validate_amm_callback-Accepted again c u) λ _ v a. omega (arith, a.current, moved, grown))
