-- ===== src/Vault/Books.antt =====
-- The books of the vault: total deposits against the positions, and what each operation does to
-- them (lending/src/deposit.rs, lending/src/withdraw.rs).
use stellarlend.Prelude.{
  ℕ, ◌+◌, ◌*◌, ◌≡◌, ◌<◌, ◌⊎◌, Bool, false, Option, none, some, arith, unwrap_or, ⊤,
}
use stellarlend.Prelude.Int.{ℤ, pos, negsuc, pos_part, -ℤ_nonneg, ◌+ℤ◌, ◌-ℤ◌, ◌≤ℤ◌}
use stellarlend.Prelude.I128.{
  IsI128, checked_sub, checked_add-exact, checked_sub-exact, checked_mul-pos_if, checked_div-pos,
}
use stellarlend.Prelude.Dict.{lookup, insert, sum_by, AllNonneg}
use stellarlend.Storage.Borrow.{Address, DebtPosition}
use stellarlend.Storage.Pause.{PauseType}
use stellarlend.Storage.Vault.{DepositCollateral}
use stellarlend.Host.{Env}
use stellarlend.Host.Laws.{OnOk}
use stellarlend.Pause.{is_paused}
use stellarlend.Vault.Deposit.{
  get_deposit_position, get_total_deposits, get_deposit_cap, deposit_with_auth,
}
use stellarlend.Vault.Withdraw.{
  check_ratio, check_debt, withdraw_with_auth, validate_collateral_ratio_after_withdraw,
}

abbrev pub held : DepositCollateral → ℤ
held p = p.amount

-- No position is negative, and the total is their sum, which a signed 128-bit number can hold.
pub record IsSound (s : Env) : Type 0 where
  pub nonneg : AllNonneg held s.vault.user_collateral
  pub total : get_total_deposits s ≡ sum_by held s.vault.user_collateral
  pub range : IsI128 (get_total_deposits s)

-- The vault after the balance of one user became `balance` and the total `total`.
pub record VaultSet (user asset : Address) (balance total : ℤ) (time : ℕ) (s t : Env) : Type 0 where
  pub user_collateral :
      t.vault.user_collateral
      ≡ insert user
          (record { amount = balance; asset = asset; last_deposit_time = time })
          s.vault.user_collateral
  pub total_amount : t.vault.total_amount ≡ some total
  pub borrow : t.borrow ≡ s.borrow

-- What a deposit has checked and written.
pub record Deposited (user asset : Address) (amount balance : ℤ) (s t : Env) : Type 0 where
  pub not_paused : is_paused s PauseType.deposit ≡ false
  pub amount_pos : pos 1 ≤ℤ amount
  pub balance_up : balance ≡ (get_deposit_position s user asset).amount +ℤ amount
  pub total_up : get_total_deposits t ≡ get_total_deposits s +ℤ amount
  pub under_cap : get_total_deposits t ≤ℤ get_deposit_cap s
  pub total_range : IsI128 (get_total_deposits t)
  pub written : VaultSet user asset balance (get_total_deposits t) s.timestamp s t

pub deposit_with_auth-Deposited :
    (user asset : Address) (amount : ℤ) (needs_auth : Bool) (s : Env)
    → OnOk
        (λ b t. Deposited user asset amount b s t)
        (deposit_with_auth user asset amount needs_auth s)
unfolding deposit_with_auth
deposit_with_auth-Deposited user asset amount needs_auth s = ground (
  arith,
  checked_add-exact (get_total_deposits s) amount,
  checked_add-exact (get_deposit_position s user asset).amount amount,
)

-- The remaining collateral covers a debt at 15000 to 10000, up to rounding.
abbrev pub Covered : Option DebtPosition → ℤ → Type 0
Covered none remaining = ⊤
Covered (some d) remaining =
    (d.borrowed_amount +ℤ d.interest_accrued ≤ℤ pos 0)
    ⊎ (15000 * pos_part (d.borrowed_amount +ℤ d.interest_accrued)
        < 10000 * (pos_part remaining + 1))

check_ratio-covers :
    (debt remaining : ℤ) (s : Env)
    → pos 0 ≤ℤ remaining
    → OnOk
        (λ _ t.
          (t ≡ s) × ((debt ≤ℤ pos 0) ⊎ (15000 * pos_part debt < 10000 * (pos_part remaining + 1))))
        (check_ratio debt remaining s)
unfolding check_ratio
check_ratio-covers (pos d) (pos c) s h =
    ground (arith, checked_mul-pos_if d 15000, checked_div-pos (d * 15000) 10000)
check_ratio-covers (negsuc d) c s h = ground arith
check_ratio-covers (pos d) (negsuc c) s h = absurd (omega arith)

check_debt-Covered :
    (debt : Option DebtPosition) (remaining : ℤ) (s : Env)
    → pos 0 ≤ℤ remaining
    → OnOk (λ _ t. (t ≡ s) × Covered debt remaining) (check_debt debt remaining s)
check_debt-Covered none remaining s h = ground arith
check_debt-Covered (some d) remaining s h = ground (
  arith,
  checked_add-exact d.borrowed_amount d.interest_accrued,
  check_ratio-covers (d.borrowed_amount +ℤ d.interest_accrued) remaining s h,
)

-- What a withdrawal has checked and written.
pub record Withdrawn (user asset : Address) (amount balance : ℤ) (s t : Env) : Type 0 where
  pub not_paused : is_paused s PauseType.withdraw ≡ false
  pub amount_pos : pos 1 ≤ℤ amount
  pub enough : amount ≤ℤ (get_deposit_position s user asset).amount
  pub balance_down : balance ≡ (get_deposit_position s user asset).amount -ℤ amount
  pub covered : Covered (lookup user s.borrow.user_debt) balance
  pub total_down :
      get_total_deposits t ≡ unwrap_or (checked_sub (get_total_deposits s) amount) (pos 0)
  pub written :
      VaultSet user asset balance
        (get_total_deposits t)
        (get_deposit_position s user asset).last_deposit_time
        s
        t

pub withdraw_with_auth-Withdrawn :
    (user asset : Address) (amount : ℤ) (needs_auth : Bool) (s : Env)
    → OnOk
        (λ b t. Withdrawn user asset amount b s t)
        (withdraw_with_auth user asset amount needs_auth s)
unfolding withdraw_with_auth validate_collateral_ratio_after_withdraw
withdraw_with_auth-Withdrawn user asset amount needs_auth s =
    let old = (get_deposit_position s user asset).amount in
    ground (
      arith,
      checked_sub-exact old amount,
      -ℤ_nonneg old amount,
      check_debt-Covered (lookup user s.borrow.user_debt) (old -ℤ amount) s,
    )
