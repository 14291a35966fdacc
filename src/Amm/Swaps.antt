-- ===== src/Amm/Swaps.antt =====
-- A swap as an entry point (amm/src/amm.rs).
use stellarlend.Prelude.{
  ℕ, ◌+◌, ◌≤◌, ◌≡◌, ◌≢◌, sym, ap, subst, ◌∙◌, [], ◌∷◌, arith, unwrap_or, some,
}
use stellarlend.Prelude.Int.{ℤ, ◌≤ℤ◌}
use stellarlend.Storage.Borrow.{Address}
use stellarlend.Host.{◌>>=◌, invoke}
use stellarlend.Host.Laws.{OnOk, OnOk-bind, OnOk-map, OkOrSame, invoke-OkOrSame}
use stellarlend.Amm.State.{AmmEnv, AmmProtocolConfig, SwapParams, SwapRecord, AmmCallbackData}
use stellarlend.Amm.Callback.{nonce_of, generate_callback_nonce}
use stellarlend.Amm.Swap.{execute_amm_swap, check_swap, settle_swap, execute_swap}
use stellarlend.Amm.History.{length, push_record, length-push_record}
use stellarlend.Amm.Laws.{
  SetNonce, generate_callback_nonce-SetNonce, Accepted, SetNonce-UsedTwo, swap_output,
  execute_amm_swap-output, Tells, Checked, check_swap-Checked, Settled, settle_swap-Settled,
}

-- The number of swaps on record.
abbrev pub recorded : AmmEnv → ℕ
recorded s = length (unwrap_or s.swap_history [])

-- What a swap has checked, given and written.
pub record Swapped (user : Address) (p : SwapParams) (out : ℤ) (s t : AmmEnv) : Type 0 where
  pub checked : (config : AmmProtocolConfig) × Checked p config s
  pub output : out ≡ swap_output p
  pub enough : p.min_amount_out ≤ℤ out
  pub own_nonce : nonce_of t user ≡ nonce_of s user + 2
  pub other_nonces : (v : Address) → v ≢ user → nonce_of t v ≡ nonce_of s v
  pub history :
      (r : SwapRecord) × Tells user p out r
      × (t.swap_history ≡ some (push_record r (unwrap_or s.swap_history [])))
  pub bounded : recorded s ≤ 1000 → recorded t ≤ 1000
  pub operations : t.liquidity_history ≡ s.liquidity_history

module _ (user : Address) (p : SwapParams) (s : AmmEnv) where
  abbrev callback : ℕ → AmmCallbackData
  callback nonce = record {
    nonce = nonce;
    operation = "swap";
    user = user;
    expected_amounts = p.amount_in ∷ p.min_amount_out ∷ [];
    deadline = p.deadline;
  }

  settle-Swapped :
      (config : AmmProtocolConfig) (n : ℕ) (out : ℤ) (t u v : AmmEnv)
      → Checked p config s
      → (n ≡ nonce_of s user + 1) × SetNonce user n s t
      → (out ≡ swap_output p) × Accepted p.protocol (callback n) t u
      → Settled user p out u v
      → Swapped user p out s v
  settle-Swapped config n out t u v c drawn given done =
      let two = SetNonce-UsedTwo user n s t u drawn.0 drawn.1 given.1.set in
      let (r, tells, written) = done.written in
      let history = written ∙ ap (λ h. some (push_record r (unwrap_or h []))) two.swaps in
      record {
        checked = (config, c);
        output = given.0;
        enough = done.enough;
        own_nonce = ground (arith, done.nonces, two.own);
        other_nonces = λ w h. ground (arith, done.nonces, two.others w h);
        history = (r, tells, history);
        bounded = λ h. rw history (length-push_record r (unwrap_or s.swap_history []) h);
        operations = done.operations ∙ two.operations;
      }

  pub execute_swap-Swapped : OnOk (λ out t. Swapped user p out s t) (execute_swap user p s)
  unfolding execute_swap
  execute_swap-Swapped =
      let Q = λ (out : ℤ) (t : AmmEnv). Swapped user p out s t in
      OnOk-bind (λ config t. (t ≡ s) × Checked p config s) Q (check_swap p)
        (λ config. generate_callback_nonce user >>= λ n.
          (execute_amm_swap p (callback n) >>= λ out. settle_swap user p config out))
        s (check_swap-Checked p s)
        λ config t c.
          subst
            (λ x. OnOk Q (
              (generate_callback_nonce user >>= λ n.
              (execute_amm_swap p (callback n) >>= λ out. settle_swap user p config out))
                x))
            (sym c.0)
            (OnOk-bind (λ n u. (n ≡ nonce_of s user + 1) × SetNonce user n s u) Q
              (generate_callback_nonce user)
              (λ n. execute_amm_swap p (callback n) >>= λ out. settle_swap user p config out) s
              (generate_callback_nonce-SetNonce user s)
              λ n u drawn.
                OnOk-bind (λ out v. (out ≡ swap_output p) × Accepted p.protocol (callback n) u v) Q
                  (execute_amm_swap p (callback n)) (λ out. settle_swap user p config out) u
                  (execute_amm_swap-output p (callback n) u)
                  λ out v given.
                    OnOk-map (λ a w. (a ≡ out) × Settled user p out v w) Q
                      (settle_swap user p config out v) (settle_swap-Settled user p config out v)
                      λ a w done.
                        subst (λ b. Q b w) (sym done.0)
                          (settle-Swapped config n out u v w c.1 drawn given done.1))

  -- A swap, run as an entry point, either fails and leaves the state as it was, or swaps were enabled,
  -- the deadline not over, the amount within the limits of the protocol, the pair supported and the
  -- tolerance allowed; the output is then the amount less the tolerance, and at least the minimum asked
  -- for, the user's nonce has risen by 2 and no other, and a record of this swap is the newest of the
  -- history, which stays within 1000 records.
  pub execute_swap-OkOrSame :
      OkOrSame s (λ out t. Swapped user p out s t) (invoke (execute_swap user p) s)
  execute_swap-OkOrSame =
      invoke-OkOrSame (λ out t. Swapped user p out s t) (execute_swap user p) s execute_swap-Swapped
