-- ===== src/Debt/Borrow/Untouched.antt =====
-- A borrow does not touch the scheduled borrows (lending/src/borrow.rs).
use stellarlend.Prelude.{◌≡◌, ◌∙◌, arith}
use stellarlend.Prelude.Int.{ℤ}
use stellarlend.Storage.Borrow.{Address, RateType, DebtPosition, BorrowCollateral}
use stellarlend.Host.{Env}
use stellarlend.Host.Laws.{OnOk}
use stellarlend.Settings.{BorrowError, get_debt_ceiling}
use stellarlend.Risk.{on_utilization_changed, alert, escalate}
use stellarlend.Debt.Position.{save_collateral_position}
use stellarlend.Debt.Position.Laws.{save_debt_position-SavedOnly, save_debt_position-ok}
use stellarlend.Debt.Borrow.{commit_borrow, borrow_inner, BorrowAuth}
use stellarlend.Debt.Borrow.Commit.{written}
use stellarlend.Debt.Borrow.Correct.{check_auth-same}
use stellarlend.Debt.Borrow.Success.{
  check_borrow-CheckedBorrow, borrowed_position-BorrowedPosition, collateralized_position-lem,
  on_utilization_changed-ok,
}

-- The scheduled borrows are the same.
abbrev pub Same : Env → {A : Type 0} → A → Env → Type 0
Same s _ t = t.commitments ≡ s.commitments

on_utilization_changed-Same :
    (debt ceiling : ℤ) (s : Env)
    → (on_utilization_changed {E = BorrowError} debt ceiling s).1.commitments ≡ s.commitments
unfolding on_utilization_changed alert escalate
on_utilization_changed-Same debt ceiling s = ground arith

commit_borrow-Same :
    (user asset : Address) (amount collateral : ℤ) (p : DebtPosition) (c : BorrowCollateral) (n : ℤ)
    (s : Env)
    → OnOk (Same s) (commit_borrow user asset amount collateral p c n s)
unfolding commit_borrow save_collateral_position
commit_borrow-Same user asset amount collateral p c n s =
    let w = written user p c n s in
    let (r, _, _) = on_utilization_changed-ok n (get_debt_ceiling w) w in
    rw (save_debt_position-ok user p s, r)
      (on_utilization_changed-Same n (get_debt_ceiling w) w
        ∙ (save_debt_position-SavedOnly user p s).commitments)

pub borrow_inner-Same :
    (user asset : Address) (amount : ℤ) (collateral_asset : Address) (collateral : ℤ) (r : RateType)
    (auth : BorrowAuth) (s : Env)
    → OnOk (Same s) (borrow_inner user asset amount collateral_asset collateral r auth s)
unfolding borrow_inner
borrow_inner-Same user asset amount collateral_asset collateral r auth s = grind (
  arith,
  check_auth-same auth user s,
  check_borrow-CheckedBorrow amount collateral s,
  borrowed_position-BorrowedPosition user asset amount r s,
  collateralized_position-lem user collateral_asset collateral,
  commit_borrow-Same,
)
