-- ===== src/Debt/Legacy/Withdrawals.antt =====
-- What the outcome of a withdrawal depends on (lending/src/withdraw.rs).
use stellarlend.Prelude.{◌≡◌, refl, ap, ◌∙◌, Bool, true, false, arith, Bool-cases, inl, inr}
use stellarlend.Prelude.Int.{ℤ, ◌-ℤ◌}
use stellarlend.Prelude.I128.{checked_sub-exact}
use stellarlend.Prelude.Dict.{lookup}
use stellarlend.Storage.Borrow.{Address}
use stellarlend.Host.{Env}
use stellarlend.Pause.{is_paused}
use stellarlend.Vault.Deposit.{get_deposit_position}
use stellarlend.Vault.Withdraw.{
  withdraw_with_auth, validate_collateral_ratio_after_withdraw, check_ratio, save_withdraw,
}
use stellarlend.Debt.Legacy.Saved.{SameForWithdraw}

-- `t` with what a withdrawal reads taken from `s`, but for the legacy key.
abbrev overlaid : Env → Env → Env
overlaid s t = record t {
  timestamp = s.timestamp;
  signed = s.signed;
  pause = s.pause;
  vault = s.vault;
  withdraw = s.withdraw;
}

SameForWithdraw-overlaid : (s t : Env) → SameForWithdraw s t → t ≡ overlaid s t
SameForWithdraw-overlaid s t e = rw (e.timestamp, e.signed, e.pause, e.vault, e.withdraw) refl

check-cong :
    (user : Address) (remaining : ℤ) (s t : Env)
    → lookup user t.borrow.user_debt ≡ lookup user s.borrow.user_debt
    → (validate_collateral_ratio_after_withdraw user remaining t).0
      ≡ (validate_collateral_ratio_after_withdraw user remaining s).0
unfolding validate_collateral_ratio_after_withdraw check_ratio
check-cong user remaining s t d = ground (arith, d)

unsigned-cong :
    (user asset : Address) (amount : ℤ) (s t : Env)
    → lookup user t.borrow.user_debt ≡ lookup user s.borrow.user_debt
    → (withdraw_with_auth user asset amount false (overlaid s t)).0
      ≡ (withdraw_with_auth user asset amount false s).0
unfolding withdraw_with_auth save_withdraw is_paused
unsigned-cong user asset amount s t d =
    let left = (get_deposit_position s user asset).amount -ℤ amount in
    grind (arith, d, check-cong user left s (overlaid s t) d, checked_sub-exact)

overlaid-cong :
    (user asset : Address) (amount : ℤ) (needs_auth : Bool) (s t : Env)
    → lookup user t.borrow.user_debt ≡ lookup user s.borrow.user_debt
    → (withdraw_with_auth user asset amount needs_auth (overlaid s t)).0
      ≡ (withdraw_with_auth user asset amount needs_auth s).0
unfolding withdraw_with_auth
overlaid-cong user asset amount false s t d = unsigned-cong user asset amount s t d
overlaid-cong user asset amount true s t d = elim (Bool-cases (s.signed user)) [
  | inl e ↦ rw e (unsigned-cong user asset amount s t d)
  | inr e ↦ rw e refl
]

pub withdraw_with_auth-cong :
    (user asset : Address) (amount : ℤ) (needs_auth : Bool) (s t : Env)
    → SameForWithdraw s t
    → lookup user t.borrow.user_debt ≡ lookup user s.borrow.user_debt
    → (withdraw_with_auth user asset amount needs_auth t).0
      ≡ (withdraw_with_auth user asset amount needs_auth s).0
withdraw_with_auth-cong user asset amount needs_auth s t e d =
    ap (λ x. (withdraw_with_auth user asset amount needs_auth x).0) (SameForWithdraw-overlaid s t e)
    ∙ overlaid-cong user asset amount needs_auth s t d
