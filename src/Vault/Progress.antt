-- ===== src/Vault/Progress.antt =====
-- When deposits and withdrawals succeed (lending/src/deposit.rs, lending/src/withdraw.rs).
use stellarlend.Prelude.{
  ℕ, ◌*◌, ◌/◌, ◌≡◌, Bool, true, false, Option, none, some, arith, ap, ◌∙◌, refl, ⊤,
}
use stellarlend.Prelude.Int.{ℤ, pos, ◌+ℤ◌, ◌-ℤ◌, ◌≤ℤ◌}
use stellarlend.Prelude.I128.{
  i128_max, IsI128, checked_add, checked_add-some, checked_sub-some, checked_mul-pos,
  checked_div-pos,
}
use stellarlend.Prelude.Dict.{lookup}
use stellarlend.Storage.Borrow.{Address, DebtPosition}
use stellarlend.Storage.Pause.{PauseType}
use stellarlend.Host.Result.{ok}
use stellarlend.Host.{Env}
use stellarlend.Pause.{is_paused}
use stellarlend.Vault.Deposit.{
  get_deposit_position, get_total_deposits, get_deposit_cap, get_min_deposit_amount,
  deposit_with_auth,
}
use stellarlend.Vault.Withdraw.{
  check_ratio, check_debt, get_min_withdraw_amount, is_withdraw_paused, withdraw_with_auth,
  validate_collateral_ratio_after_withdraw,
}

-- The conditions of a deposit.
pub record CanDeposit (user asset : Address) (amount : ℤ) (s : Env) : Type 0 where
  pub signed : s.signed user ≡ true
  pub not_paused : is_paused s PauseType.deposit ≡ false
  pub amount_pos : pos 1 ≤ℤ amount
  pub at_least_min : get_min_deposit_amount s ≤ℤ amount
  pub total_fits : IsI128 (get_total_deposits s +ℤ amount)
  pub under_cap : get_total_deposits s +ℤ amount ≤ℤ get_deposit_cap s
  pub balance_fits : IsI128 ((get_deposit_position s user asset).amount +ℤ amount)

-- A deposit that is signed, not paused, positive, at least the minimum, within the cap and in range
-- succeeds and returns the new balance.
deposit_with_auth-ok :
    (user asset : Address) (amount : ℤ) (needs_auth : Bool) (s : Env)
    → CanDeposit user asset amount s
    → (deposit_with_auth user asset amount needs_auth s).0
      ≡ ok ((get_deposit_position s user asset).amount +ℤ amount)
unfolding deposit_with_auth
deposit_with_auth-ok user asset amount needs_auth s c = ground (
  arith,
  checked_add-some (get_total_deposits s) amount,
  checked_add-some (get_deposit_position s user asset).amount amount,
)

-- A debt record that lets `remaining` collateral be what is left: none, or one whose debt times 15000
-- / 10000, rounded down, is at most what is left.
abbrev pub Allows : Option DebtPosition → ℤ → Type 0
Allows none remaining = ⊤
Allows (some debt) remaining =
    (owed : ℕ) × (debt.borrowed_amount +ℤ debt.interest_accrued ≡ pos owed)
    × (pos (owed * 15000) ≤ℤ i128_max)
    × (pos (owed * 15000 / 10000) ≤ℤ remaining)

check_ratio-ok :
    (owed : ℕ) (remaining : ℤ) (s : Env)
    → pos (owed * 15000) ≤ℤ i128_max
    → pos (owed * 15000 / 10000) ≤ℤ remaining
    → check_ratio (pos owed) remaining s ≡ (ok tt, s)
unfolding check_ratio
check_ratio-ok owed remaining s f h =
    ground (arith, checked_mul-pos owed 15000, checked_div-pos (owed * 15000) 10000)

check_debt-ok :
    (debt : Option DebtPosition) (remaining : ℤ) (s : Env)
    → Allows debt remaining
    → check_debt debt remaining s ≡ (ok tt, s)
check_debt-ok none remaining s a = refl
check_debt-ok (some debt) remaining s (owed, e, f, h) =
    let sum : checked_add debt.borrowed_amount debt.interest_accrued ≡ some (pos owed) =
      checked_add-some debt.borrowed_amount debt.interest_accrued (rw e (fits owed f))
      ∙ ap some e in
    rw sum (check_ratio-ok owed remaining s f h)
  where
    fits : (n : ℕ) → pos (n * 15000) ≤ℤ i128_max → IsI128 (pos n)
    fits n p = ground arith

-- The conditions of a withdrawal.
pub record CanWithdraw (user asset : Address) (amount : ℤ) (s : Env) : Type 0 where
  pub signed : s.signed user ≡ true
  pub not_paused : is_paused s PauseType.withdraw ≡ false
  pub withdraw_not_paused : is_withdraw_paused s ≡ false
  pub amount_pos : pos 1 ≤ℤ amount
  pub at_least_min : get_min_withdraw_amount s ≤ℤ amount
  pub enough : amount ≤ℤ (get_deposit_position s user asset).amount
  pub balance_fits : IsI128 ((get_deposit_position s user asset).amount -ℤ amount)
  pub allowed :
      Allows (lookup user s.borrow.user_debt) ((get_deposit_position s user asset).amount -ℤ amount)

-- A withdrawal that is signed, not paused, positive, at least the minimum and at most the balance
-- succeeds and returns what is left, if the legacy debt record is missing, or its debt times 15000 /
-- 10000, rounded down, is at most what is left.
pub withdraw_with_auth-ok :
    (user asset : Address) (amount : ℤ) (needs_auth : Bool) (s : Env)
    → CanWithdraw user asset amount s
    → (withdraw_with_auth user asset amount needs_auth s).0
      ≡ ok ((get_deposit_position s user asset).amount -ℤ amount)
unfolding withdraw_with_auth validate_collateral_ratio_after_withdraw
withdraw_with_auth-ok user asset amount needs_auth s c =
    let old = (get_deposit_position s user asset).amount in
    ground (
      arith,
      checked_sub-some old amount,
      check_debt-ok (lookup user s.borrow.user_debt) (old -ℤ amount) s c.allowed,
    )
