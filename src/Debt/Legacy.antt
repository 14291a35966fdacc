-- ===== src/Debt/Legacy.antt =====
-- The legacy key `BorrowUserDebt`, and what reads through it: a variable-rate read of borrow.rs, and
-- the check of a withdrawal in withdraw.rs (lending/src). The test
-- test_borrow_stable_rate_choice_and_accounting of borrow_test.rs expects a variable-rate read of 0
-- after a stable-only borrow; the model follows borrow.rs.
pub mod Saved
pub mod Withdrawals
use stellarlend.Prelude.{
  ◌≡◌, refl, sym, ap, ◌∙◌, Bool, true, false, Option, unwrap_or, none, some, arith, ⊤, Bool-cases,
  inl, inr,
}
use stellarlend.Prelude.Int.{ℤ, pos, ◌+ℤ◌, ◌-ℤ◌}
use stellarlend.Prelude.I128.{checked_sub-exact}
use stellarlend.Prelude.Dict.{lookup, lookup-insert_self}
use stellarlend.Storage.Borrow.{Address, RateType, variable, stable, DebtPosition, BorrowCollateral}
use stellarlend.Host.{Env, invoke}
use stellarlend.Host.Laws.{OnOk, OnOk-map, OkOrSame, invoke-OkOrSame, OkOrSame-state}
use stellarlend.Settings.{BorrowError, get_debt_ceiling}
use stellarlend.Risk.{on_utilization_changed, alert, escalate}
use stellarlend.Pause.{is_paused}
use stellarlend.Debt.Position.{
  has_debt, chosen_position, empty_position, get_debt_position, save_debt_position,
  save_collateral_position, update_compat_user_debt,
}
use stellarlend.Debt.Position.Laws.{save_debt_position-ok}
use stellarlend.Debt.Borrow.{commit_borrow, borrow_inner, BorrowAuth}
use stellarlend.Debt.Borrow.Commit.{written}
use stellarlend.Debt.Borrow.Correct.{check_auth-same}
use stellarlend.Debt.Borrow.Success.{
  BorrowedPosition, check_borrow-CheckedBorrow, borrowed_position-BorrowedPosition,
  collateralized_position-lem, on_utilization_changed-ok,
}
use stellarlend.Vault.Deposit.{get_deposit_position}
use stellarlend.Vault.Withdraw.{
  withdraw_with_auth, validate_collateral_ratio_after_withdraw, check_ratio, save_withdraw,
}
use stellarlend.Debt.Legacy.Saved.{SameForWithdraw, StableSaved, borrow_inner-StableSaved}
use stellarlend.Debt.Legacy.Withdrawals.{withdraw_with_auth-cong}

-- The variable-rate read of a user without a variable record is the stable position again.
StableSaved-read :
    (user : Address) (p : DebtPosition) (s t : Env) (a : Option Address)
    → lookup user s.borrow.user_variable_debt ≡ none
    → StableSaved user p s t
    → get_debt_position t user a variable
      ≡ record (get_debt_position t user a stable) { rate_type = variable; stable_rate_bps = pos 0 }
unfolding get_debt_position
StableSaved-read user p s t a h d = ground (arith, h, d.variable_kept, d.stable_saved, d.copied)

StableSaved-stable :
    (user : Address) (p : DebtPosition) (s t : Env) (a : Option Address)
    → StableSaved user p s t
    → get_debt_position t user a stable ≡ p
unfolding get_debt_position
StableSaved-stable user p s t a d = rw d.stable_saved refl

-- A stable borrow by a user without a variable record, run as an entry point, either fails and leaves
-- the environment as it was, or the user's stable principal has grown by the amount, and a
-- variable-rate read now gives the stable position once more: the same principal, interest, time and
-- asset, as a variable debt.
pub stable_borrow_reads_twice :
    (user asset : Address) (amount : ℤ) (collateral_asset : Address) (collateral_amount : ℤ)
    (auth : BorrowAuth) (s : Env)
    → lookup user s.borrow.user_variable_debt ≡ none
    → OkOrSame s
        (λ _ t.
          (a : Option Address)
          → ((get_debt_position t user a stable).borrowed_amount
              ≡ (get_debt_position s user (some asset) stable).borrowed_amount +ℤ amount)
            × (get_debt_position t user a variable ≡ record (get_debt_position t user a stable) {
              rate_type = variable;
              stable_rate_bps = pos 0;
            }))
        (invoke (borrow_inner user asset amount collateral_asset collateral_amount stable auth) s)
stable_borrow_reads_twice user asset amount collateral_asset collateral_amount auth s h =
    let run = borrow_inner user asset amount collateral_asset collateral_amount stable auth in
    let P = λ (_ : ⊤) (t : Env).
      (a : Option Address)
      → ((get_debt_position t user a stable).borrowed_amount
          ≡ (get_debt_position s user (some asset) stable).borrowed_amount +ℤ amount)
        × (get_debt_position t user a variable ≡ record (get_debt_position t user a stable) {
          rate_type = variable;
          stable_rate_bps = pos 0;
        }) in
    invoke-OkOrSame P run s (
      OnOk-map
        (λ _ t.
          (p : DebtPosition) × StableSaved user p s t
          × BorrowedPosition (get_debt_position s user (some asset) stable) asset amount stable
              s.timestamp p)
        P (run s)
        (borrow_inner-StableSaved user asset amount collateral_asset collateral_amount auth s)
        λ _ t (p, d, b) a. (
          ap (λ x. x.borrowed_amount) (StableSaved-stable user p s t a d) ∙ b.principal,
          StableSaved-read user p s t a h d,
        ))

-- For a user whose variable debt is not 0 and stands under the legacy key too, a stable borrow of any
-- size, run as an entry point, does not change the outcome of any withdrawal: what may be withdrawn,
-- and the balance or the error that is returned, are as if the stable debt were not there.
pub stable_borrow_holds_nothing_back :
    (user asset : Address) (amount : ℤ) (collateral_asset : Address) (collateral_amount : ℤ)
    (auth : BorrowAuth) (s : Env) (v : DebtPosition) (vault_asset : Address) (withdrawn : ℤ)
    (needs_auth : Bool)
    → lookup user s.borrow.user_variable_debt ≡ some v
    → has_debt v ≡ true
    → lookup user s.borrow.user_debt ≡ some v
    → let t =
        (invoke
          (borrow_inner user asset amount collateral_asset collateral_amount stable auth)
          s).1 in
      (withdraw_with_auth user vault_asset withdrawn needs_auth t).0
      ≡ (withdraw_with_auth user vault_asset withdrawn needs_auth s).0
stable_borrow_holds_nothing_back user asset amount collateral_asset collateral_amount auth s v
      vault_asset withdrawn needs_auth h has l =
    let run = borrow_inner user asset amount collateral_asset collateral_amount stable auth in
    let outcome = λ (t : Env). (withdraw_with_auth user vault_asset withdrawn needs_auth t).0 in
    let P = λ (_ : ⊤) (t : Env).
      (p : DebtPosition) × StableSaved user p s t
      × BorrowedPosition (get_debt_position s user (some asset) stable) asset amount stable
          s.timestamp p in
    OkOrSame-state (λ t. outcome t ≡ outcome s) s P (invoke run s)
      (invoke-OkOrSame P run s
        (borrow_inner-StableSaved user asset amount collateral_asset collateral_amount auth s))
      refl
      λ _ t (p, d, _).
        let kept : lookup user t.borrow.user_debt ≡ lookup user s.borrow.user_debt =
          ground (arith, d.copied, h, has, l) in
        withdraw_with_auth-cong user vault_asset withdrawn needs_auth s t d.for_withdraw kept
