-- ===== src/Debt/Borrow/Progress.antt =====
-- When a borrow succeeds (lending/src/borrow.rs).
use stellarlend.Prelude.{ℕ, ◌*◌, ◌/◌, ◌≤◌, ◌<◌, ◌≡◌, true, false, some, arith, refl}
use stellarlend.Prelude.Int.{ℤ, pos, ◌+ℤ◌, ◌≤ℤ◌}
use stellarlend.Prelude.I128.{i128_max, IsI128, checked_add-some}
use stellarlend.Storage.Borrow.{Address, variable, DebtPosition, BorrowCollateral}
use stellarlend.Storage.Pause.{PauseType}
use stellarlend.Host.Result.{ok}
use stellarlend.Host.{Env}
use stellarlend.Settings.{BorrowError, get_total_debt, get_debt_ceiling, get_min_borrow_amount}
use stellarlend.Pause.{is_paused}
use stellarlend.Debt.Position.{get_debt_position, get_collateral_position, save_collateral_position}
use stellarlend.Debt.Position.Laws.{save_debt_position-ok}
use stellarlend.Debt.Interest.{calculate_interest}
use stellarlend.Debt.Borrow.{
  check_borrow, borrowed_position, collateralized_position, commit_borrow, borrow_inner, BorrowAuth,
  require_user_signature, trusted_commitment, check_auth,
}
use stellarlend.Debt.Borrow.Commit.{written}
use stellarlend.Debt.Borrow.Success.{validate_collateral_ratio_iff, on_utilization_changed-ok}

-- The conditions of a borrow at the variable rate by a user who owes no principal at that rate.
pub record CanBorrow (user asset : Address) (amount collateral : ℕ) (s : Env) : Type 0 where
  pub signed : s.signed user ≡ true
  pub not_paused : is_paused s PauseType.borrow ≡ false
  pub amount_pos : 0 < amount
  pub collateral_pos : 0 < collateral
  pub at_least_min : get_min_borrow_amount s ≤ℤ pos amount
  pub amount_fits : pos (amount * 15000) ≤ℤ i128_max
  pub covered : amount * 15000 / 10000 ≤ collateral
  pub total_fits : IsI128 (get_total_debt s +ℤ pos amount)
  pub under_ceiling : get_total_debt s +ℤ pos amount ≤ℤ get_debt_ceiling s
  pub no_principal : (get_debt_position s user (some asset) variable).borrowed_amount ≡ pos 0
  pub no_interest : (get_debt_position s user (some asset) variable).interest_accrued ≡ pos 0
  pub collateral_fits : IsI128 ((get_collateral_position s user).amount +ℤ pos collateral)

check_borrow-ok :
    (user asset : Address) (amount collateral : ℕ) (s : Env)
    → CanBorrow user asset amount collateral s
    → check_borrow (pos amount) (pos collateral) s ≡ (ok (get_total_debt s +ℤ pos amount), s)
unfolding check_borrow
check_borrow-ok user asset amount collateral s c = ground (
  arith,
  validate_collateral_ratio_iff collateral amount s,
  checked_add-some (get_total_debt s) (pos amount),
)

zero_plus : (a : ℕ) → pos 0 +ℤ pos a ≡ pos a
unfolding ◌+ℤ◌
zero_plus a = ground arith

borrowed_position-ok :
    (user asset : Address) (amount collateral : ℕ) (s : Env)
    → CanBorrow user asset amount collateral s
    → (p : DebtPosition) × (borrowed_position user asset (pos amount) variable s ≡ (ok p, s))
unfolding borrowed_position calculate_interest
borrowed_position-ok user asset amount collateral s c =
    let old = get_debt_position s user (some asset) variable in
    let principal_fits : IsI128 (old.borrowed_amount +ℤ pos amount) =
      rw (c.no_principal, zero_plus amount) (fits amount c.amount_fits) in
    let interest_fits : IsI128 (old.interest_accrued +ℤ pos 0) =
      rw (c.no_interest, zero_plus 0) (omega arith) in
    (
      record {
        borrowed_amount = old.borrowed_amount +ℤ pos amount;
        interest_accrued = old.interest_accrued +ℤ pos 0;
        last_update = s.timestamp;
        asset = asset;
        rate_type = variable;
        stable_rate_bps = old.stable_rate_bps;
      },
      ground (
        arith,
        checked_add-some old.borrowed_amount (pos amount) principal_fits,
        checked_add-some old.interest_accrued (pos 0) interest_fits,
      ),
    )
  where
    fits : (n : ℕ) → pos (n * 15000) ≤ℤ i128_max → IsI128 (pos n)
    fits n p = ground arith

collateralized_position-ok :
    (user asset collateral_asset : Address) (amount collateral : ℕ) (s : Env)
    → CanBorrow user asset amount collateral s
    → (p : BorrowCollateral) × (collateralized_position user collateral_asset (pos collateral) s
        ≡ (ok p, s))
unfolding collateralized_position
collateralized_position-ok user asset collateral_asset amount collateral s c = (
  record {
    amount = (get_collateral_position s user).amount +ℤ pos collateral;
    asset = collateral_asset;
  },
  ground (arith, checked_add-some (get_collateral_position s user).amount (pos collateral)),
)

commit_borrow-ok :
    (user asset : Address) (amount collateral : ℤ) (p : DebtPosition) (c : BorrowCollateral) (n : ℤ)
    (s : Env)
    → (commit_borrow user asset amount collateral p c n s).0 ≡ ok tt
unfolding commit_borrow save_collateral_position
commit_borrow-ok user asset amount collateral p c n s =
    let w = written user p c n s in
    let (r, _, _) = on_utilization_changed-ok n (get_debt_ceiling w) w in
    rw (save_debt_position-ok user p s, r) refl

check_auth-ok :
    (auth : BorrowAuth) (user : Address) (s : Env)
    → s.signed user ≡ true
    → check_auth {E = BorrowError} auth user s ≡ (ok tt, s)
check_auth-ok require_user_signature user s h = rw h refl
check_auth-ok trusted_commitment user s h = refl

-- A borrow at the variable rate by a user who owes nothing at that rate succeeds, if the user has signed,
-- borrows are not paused, both amounts are positive, the amount is at least the minimum, the collateral is
-- at least the amount times 15000 / 10000, rounded down, the new total debt is within the ceiling, and the
-- numbers fit in i128.
pub borrow_inner-ok :
    (user asset collateral_asset : Address) (amount collateral : ℕ) (auth : BorrowAuth) (s : Env)
    → CanBorrow user asset amount collateral s
    → (borrow_inner user asset (pos amount) collateral_asset (pos collateral) variable auth s).0
      ≡ ok tt
unfolding borrow_inner
borrow_inner-ok user asset collateral_asset amount collateral auth s c =
    let (p, ep) = borrowed_position-ok user asset amount collateral s c in
    let (q, e) = collateralized_position-ok user asset collateral_asset amount collateral s c in
    rw (check_auth-ok auth user s c.signed, check_borrow-ok user asset amount collateral s c, ep, e)
      (commit_borrow-ok user asset (pos amount) (pos collateral) p q
        (get_total_debt s +ℤ pos amount) s)
