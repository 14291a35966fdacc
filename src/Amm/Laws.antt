-- ===== src/Amm/Laws.antt =====
-- What callbacks do to the nonces, and what a swap checks and writes (amm/src/amm.rs).
use stellarlend.Prelude.{
  ℕ, ◌+◌, ◌≤◌, ◌≡◌, ◌≢◌, refl, ◌∙◌, IfSome, true, false, some, [], arith, unwrap_or, is_some,
}
use stellarlend.Prelude.Int.{ℤ, pos, ◌-ℤ◌, ◌*ℤ◌, div, ◌≤ℤ◌}
use stellarlend.Prelude.I128.{checked_sub-exact, checked_mul-exact, checked_div-exact}
use stellarlend.Prelude.Dict.{Dict, lookup, insert, lookup-insert}
use stellarlend.Storage.Borrow.{Address}
use stellarlend.Host.Laws.{OnOk}
use stellarlend.Amm.State.{
  AmmEnv, AmmSettings, AmmProtocolConfig, SwapParams, SwapRecord, AmmCallbackData, same_token,
}
use stellarlend.Amm.Protocols.{supports, validate_swap_params}
use stellarlend.Amm.Callback.{nonce_of, generate_callback_nonce, validate_amm_callback}
use stellarlend.Amm.Swap.{
  mul_div, execute_amm_swap, check_swap, settle_swap, calculate_effective_price,
  calculate_swap_fees,
}
use stellarlend.Amm.History.{push_record}

-- One nonce is written; the histories, settings and protocols stay.
pub record SetNonce (user : Address) (n : ℕ) (s t : AmmEnv) : Type 0 where
  pub nonces : t.callback_nonces ≡ insert user n s.callback_nonces
  pub swaps : t.swap_history ≡ s.swap_history
  pub operations : t.liquidity_history ≡ s.liquidity_history

pub generate_callback_nonce-SetNonce :
    (user : Address) (s : AmmEnv)
    → OnOk (λ n t. (n ≡ nonce_of s user + 1) × SetNonce user n s t) (generate_callback_nonce user s)
unfolding generate_callback_nonce
generate_callback_nonce-SetNonce user s = ground arith

-- A callback is accepted by its nonce, and the stored one moves past it.
pub record Accepted (caller : Address) (c : AmmCallbackData) (s t : AmmEnv) : Type 0 where
  pub registered :
      (d : Dict AmmProtocolConfig) × (s.amm_protocols ≡ some d) × (is_some (lookup caller d) ≡ true)
  pub in_time : s.timestamp ≤ c.deadline
  pub current : c.nonce ≡ nonce_of s c.user
  pub set : SetNonce c.user (c.nonce + 1) s t

pub validate_amm_callback-Accepted :
    (caller : Address) (c : AmmCallbackData) (s : AmmEnv)
    → OnOk (λ _ t. Accepted caller c s t) (validate_amm_callback caller c s)
unfolding validate_amm_callback
validate_amm_callback-Accepted caller c s = grind arith

pub nonce_of-set :
    (v user : Address) (n : ℕ) (s t : AmmEnv)
    → SetNonce user n s t
    → (v ≡ user → nonce_of t v ≡ n) × (v ≢ user → nonce_of t v ≡ nonce_of s v)
nonce_of-set v user n s t e = (
  λ h. ground (arith, lookup-insert v user n s.callback_nonces, e.nonces, h),
  λ h. ground (arith, lookup-insert v user n s.callback_nonces, e.nonces, h),
)

-- An operation draws a nonce and its callback uses it: the nonce of the user rises by 2, and no other.
pub record UsedTwo (user : Address) (s t : AmmEnv) : Type 0 where
  pub own : nonce_of t user ≡ nonce_of s user + 2
  pub others : (v : Address) → v ≢ user → nonce_of t v ≡ nonce_of s v
  pub swaps : t.swap_history ≡ s.swap_history
  pub operations : t.liquidity_history ≡ s.liquidity_history

pub SetNonce-UsedTwo :
    (user : Address) (n : ℕ) (s t u : AmmEnv)
    → n ≡ nonce_of s user + 1
    → SetNonce user n s t
    → SetNonce user (n + 1) t u
    → UsedTwo user s u
SetNonce-UsedTwo user n s t u e a b = record {
  own = omega (arith, (nonce_of-set user user (n + 1) t u b).0 refl, e);
  others = λ v h. (nonce_of-set v user (n + 1) t u b).1 h ∙ (nonce_of-set v user n s t a).1 h;
  swaps = b.swaps ∙ a.swaps;
  operations = b.operations ∙ a.operations;
}

mul_div-exact : (a b c : ℤ) → IfSome (λ q. q ≡ div (a *ℤ b) c) (mul_div a b c)
unfolding mul_div
mul_div-exact a b c = ground (arith, checked_mul-exact a b, checked_div-exact (a *ℤ b) c)

-- The amount that a swap gives: the amount that goes in, less the slippage tolerance.
abbrev pub swap_output : SwapParams → ℤ
swap_output p = div (p.amount_in *ℤ (pos 10000 -ℤ p.slippage_tolerance)) (pos 10000)

pub execute_amm_swap-output :
    (p : SwapParams) (c : AmmCallbackData) (s : AmmEnv)
    → OnOk (λ out t. (out ≡ swap_output p) × Accepted p.protocol c s t) (execute_amm_swap p c s)
unfolding execute_amm_swap
execute_amm_swap-output p c s = ground (
  arith,
  checked_sub-exact (pos 10000) p.slippage_tolerance,
  mul_div-exact p.amount_in (pos 10000 -ℤ p.slippage_tolerance) (pos 10000),
  validate_amm_callback-Accepted p.protocol c s,
)

-- What a swap has checked before it draws a nonce. The flag `enabled` of the protocol is not read.
pub record Checked (p : SwapParams) (config : AmmProtocolConfig) (s : AmmEnv) : Type 0 where
  pub amounts : (pos 1 ≤ℤ p.amount_in) × (pos 1 ≤ℤ p.min_amount_out)
  pub tokens : same_token p.token_in p.token_out ≡ false
  pub settings :
      (a : AmmSettings) × (s.amm_settings ≡ some a)
      × (a.swap_enabled ≡ true)
      × (p.slippage_tolerance ≤ℤ a.max_slippage)
  pub in_time : s.timestamp ≤ p.deadline
  pub protocol :
      (d : Dict AmmProtocolConfig) × (s.amm_protocols ≡ some d)
      × (lookup p.protocol d ≡ some config)
  pub limits : (config.min_swap_amount ≤ℤ p.amount_in) × (p.amount_in ≤ℤ config.max_swap_amount)
  pub pair : supports config.supported_pairs p.token_in p.token_out ≡ true

record Valid (p : SwapParams) (s : AmmEnv) : Type 0 where
  amounts : (pos 1 ≤ℤ p.amount_in) × (pos 1 ≤ℤ p.min_amount_out)
  tokens : same_token p.token_in p.token_out ≡ false
  settings :
      (a : AmmSettings) × (s.amm_settings ≡ some a) × (p.slippage_tolerance ≤ℤ a.max_slippage)

validate_swap_params-Valid :
    (p : SwapParams) (s : AmmEnv) → OnOk (λ _ t. (t ≡ s) × Valid p s) (validate_swap_params p s)
unfolding validate_swap_params
validate_swap_params-Valid p s = grind arith

pub check_swap-Checked :
    (p : SwapParams) (s : AmmEnv) → OnOk (λ config t. (t ≡ s) × Checked p config s) (check_swap p s)
unfolding check_swap
check_swap-Checked p s = grind (arith, validate_swap_params-Valid p s)

-- The record tells of a swap.
pub record Tells (user : Address) (p : SwapParams) (out : ℤ) (r : SwapRecord) : Type 0 where
  pub user_of : r.user ≡ user
  pub protocol_of : r.protocol ≡ p.protocol
  pub tokens_of : (r.token_in ≡ p.token_in) × (r.token_out ≡ p.token_out)
  pub amounts_of : (r.amount_in ≡ p.amount_in) × (r.amount_out ≡ out)

-- The record of a swap and what it has compared.
pub record Settled (user : Address) (p : SwapParams) (out : ℤ) (s t : AmmEnv) : Type 0 where
  pub enough : p.min_amount_out ≤ℤ out
  pub nonces : t.callback_nonces ≡ s.callback_nonces
  pub written :
      (r : SwapRecord) × Tells user p out r
      × (t.swap_history ≡ some (push_record r (unwrap_or s.swap_history [])))
  pub operations : t.liquidity_history ≡ s.liquidity_history

pub settle_swap-Settled :
    (user : Address) (p : SwapParams) (config : AmmProtocolConfig) (out : ℤ) (s : AmmEnv)
    → OnOk (λ a t. (a ≡ out) × Settled user p out s t) (settle_swap user p config out s)
unfolding settle_swap calculate_effective_price calculate_swap_fees
settle_swap-Settled user p config out s = grind arith
