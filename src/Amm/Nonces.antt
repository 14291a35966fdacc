-- ===== src/Amm/Nonces.antt =====
-- No operation lowers a nonce, so no callback is accepted twice (amm/src/amm.rs).
use stellarlend.Prelude.{ℕ, ◌+◌, ◌≤◌, ◌≡◌, sym, subst, [], ◌∷◌, arith, none}
use stellarlend.Prelude.Int.{ℤ}
use stellarlend.Prelude.Dict.{lookup-insert}
use stellarlend.Storage.Borrow.{Address}
use stellarlend.Host.{◌>>=◌}
use stellarlend.Host.Laws.{OnOk, OnOk-bind, OnOk-map}
use stellarlend.Amm.State.{AmmEnv, AmmCall, LiquidityParams, AmmCallbackData, Token}
use stellarlend.Amm.Callback.{nonce_of, generate_callback_nonce}
use stellarlend.Amm.Liquidity.{
  check_add, check_remove, execute_amm_add_liquidity, execute_amm_remove_liquidity, settle_addition,
  settle_removal, add_liquidity, remove_liquidity,
}
use stellarlend.Amm.Laws.{
  SetNonce, generate_callback_nonce-SetNonce, validate_amm_callback-Accepted,
}

abbrev pub NoncesGrow : AmmEnv → AmmEnv → Type 0
NoncesGrow s t = (v : Address) → nonce_of s v ≤ nonce_of t v

-- A nonce is set to the one after it, or higher.
pub SetNonce-NoncesGrow :
    (user : Address) (n : ℕ) (s t : AmmEnv)
    → nonce_of s user ≤ n
    → SetNonce user n s t
    → NoncesGrow s t
SetNonce-NoncesGrow user n s t h e v =
    ground (arith, lookup-insert v user n s.callback_nonces, e.nonces, h)

-- An operation that checks, draws a nonce, calls the protocol and settles.
module _ {A B : Type 0} (user : Address) (m : ℕ → AmmCall A) (rest : A → AmmCall B)
    (accepts : (n : ℕ) (s : AmmEnv)
      → OnOk (λ _ t. (nonce_of s user ≡ n) × SetNonce user (n + 1) s t) (m n s))
    (settles : (a : A) (s : AmmEnv)
      → OnOk (λ _ t. t.callback_nonces ≡ s.callback_nonces) (rest a s)) where
  drawn-NoncesGrow :
      (s : AmmEnv)
      → OnOk (λ _ t. NoncesGrow s t) ((generate_callback_nonce user >>= λ n. (m n >>= rest)) s)
  drawn-NoncesGrow s =
      let Q = λ (_ : B) (t : AmmEnv). NoncesGrow s t in
      OnOk-bind (λ n t. (n ≡ nonce_of s user + 1) × SetNonce user n s t) Q
        (generate_callback_nonce user) (λ n. m n >>= rest) s
        (generate_callback_nonce-SetNonce user s)
        λ n t drawn.
          OnOk-bind (λ _ u. (nonce_of t user ≡ n) × SetNonce user (n + 1) t u) Q (m n) rest t
            (accepts n t)
            λ a u set.
              OnOk-map (λ _ v. v.callback_nonces ≡ u.callback_nonces) Q (rest a u) (settles a u)
                λ _ w same v.
                  let first = SetNonce-NoncesGrow user n s t (omega (arith, drawn.0)) drawn.1 v in
                  let then_set =
                    SetNonce-NoncesGrow user (n + 1) t u (omega (arith, set.0)) set.1 v in
                  ground (arith, first, then_set, same)

-- The checks of the liquidity operations only read.
check_add-same : (p : LiquidityParams) (s : AmmEnv) → OnOk (λ _ t. t ≡ s) (check_add p s)
unfolding check_add
check_add-same p s = grind arith

check_remove-same :
    (protocol : Address) (a b : Token) (lp : ℤ) (deadline : ℕ) (s : AmmEnv)
    → OnOk (λ _ t. t ≡ s) (check_remove protocol a b lp deadline s)
unfolding check_remove
check_remove-same protocol a b lp deadline s = grind arith

-- After checks that only read, nonces grow as they do in the rest.
checked-NoncesGrow :
    {A B : Type 0} (checks : AmmCall A) (rest : A → AmmCall B) (s : AmmEnv)
    → OnOk (λ _ t. t ≡ s) (checks s)
    → ((a : A) → OnOk (λ _ t. NoncesGrow s t) (rest a s))
    → OnOk (λ _ t. NoncesGrow s t) ((checks >>= rest) s)
checked-NoncesGrow checks rest s h k =
    OnOk-bind (λ _ t. t ≡ s) (λ _ t. NoncesGrow s t) checks rest s h
      λ a t e. subst (λ x. OnOk (λ _ u. NoncesGrow s u) (rest a x)) (sym e) (k a)

module _ (user : Address) where
  abbrev added_callback : LiquidityParams → ℕ → AmmCallbackData
  added_callback p nonce = record {
    nonce = nonce;
    operation = "add_liquidity";
    user = user;
    expected_amounts = p.amount_a ∷ p.amount_b ∷ [];
    deadline = p.deadline;
  }

  execute_amm_add_liquidity-set :
      (p : LiquidityParams) (n : ℕ) (s : AmmEnv)
      → OnOk
          (λ _ t. (nonce_of s user ≡ n) × SetNonce user (n + 1) s t)
          (execute_amm_add_liquidity p (added_callback p n) s)
  unfolding execute_amm_add_liquidity
  execute_amm_add_liquidity-set p n s =
      ground (arith, validate_amm_callback-Accepted p.protocol (added_callback p n) s)

  settle_addition-same :
      (p : LiquidityParams) (lp : ℤ) (s : AmmEnv)
      → OnOk (λ _ t. t.callback_nonces ≡ s.callback_nonces) (settle_addition user p lp s)
  unfolding settle_addition
  settle_addition-same p lp s = ground arith

  pub add_liquidity-NoncesGrow :
      (p : LiquidityParams) (s : AmmEnv) → OnOk (λ _ t. NoncesGrow s t) (add_liquidity user p s)
  unfolding add_liquidity
  add_liquidity-NoncesGrow p s =
      checked-NoncesGrow (check_add p)
        (λ _. generate_callback_nonce user >>= λ n.
          (execute_amm_add_liquidity p (added_callback p n) >>= settle_addition user p))
        s (check_add-same p s)
        λ _.
          drawn-NoncesGrow user (λ n. execute_amm_add_liquidity p (added_callback p n))
            (settle_addition user p) (execute_amm_add_liquidity-set p) (settle_addition-same p) s

  abbrev removed_callback : ℤ → ℤ → ℕ → ℕ → AmmCallbackData
  removed_callback min_amount_a min_amount_b deadline nonce = record {
    nonce = nonce;
    operation = "remove_liquidity";
    user = user;
    expected_amounts = min_amount_a ∷ min_amount_b ∷ [];
    deadline = deadline;
  }

  execute_amm_remove_liquidity-set :
      (protocol : Address) (lp a b : ℤ) (deadline n : ℕ) (s : AmmEnv)
      → OnOk
          (λ _ t. (nonce_of s user ≡ n) × SetNonce user (n + 1) s t)
          (execute_amm_remove_liquidity protocol lp (removed_callback a b deadline n) s)
  unfolding execute_amm_remove_liquidity
  execute_amm_remove_liquidity-set protocol lp a b deadline n s =
      ground (arith, validate_amm_callback-Accepted protocol (removed_callback a b deadline n) s)

  settle_removal-same :
      (p : LiquidityParams) (lp : ℤ) (s : AmmEnv)
      → OnOk (λ _ t. t.callback_nonces ≡ s.callback_nonces) (settle_removal user p lp s)
  unfolding settle_removal
  settle_removal-same p lp s = ground arith

  pub remove_liquidity-NoncesGrow :
      (protocol : Address) (x y : Token) (lp a b : ℤ) (deadline : ℕ) (s : AmmEnv)
      → OnOk (λ _ t. NoncesGrow s t) (remove_liquidity user protocol x y lp a b deadline s)
  unfolding remove_liquidity
  remove_liquidity-NoncesGrow protocol x y lp a b deadline s =
      let settle = λ (amounts : ℤ × ℤ).
        settle_removal user
          (record {
            protocol = protocol;
            token_a = x;
            token_b = y;
            amount_a = amounts.0;
            amount_b = amounts.1;
            min_amount_a = a;
            min_amount_b = b;
            deadline = deadline;
            tick_lower = none;
            tick_upper = none;
            fee_tier = none;
          })
          lp in
      let call =
        λ (n : ℕ). execute_amm_remove_liquidity protocol lp (removed_callback a b deadline n) in
      checked-NoncesGrow (check_remove protocol x y lp deadline)
        (λ _. generate_callback_nonce user >>= λ n. (call n >>= settle)) s
        (check_remove-same protocol x y lp deadline s)
        λ _.
          drawn-NoncesGrow user call settle
            (execute_amm_remove_liquidity-set protocol lp a b deadline)
            (λ amounts. settle_removal-same _ lp) s
