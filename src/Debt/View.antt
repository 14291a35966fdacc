-- ===== src/Debt/View.antt =====
-- Reading a user's debt with the interest accrued so far (lending/src/borrow.rs).
use stellarlend.Prelude.{none, if◌then◌else◌}
use stellarlend.Prelude.Int.{ℤ}
use stellarlend.Prelude.I128.{i128_max, saturating_add}
use stellarlend.Storage.Borrow.{Address, RateType, variable, stable, DebtPosition, BorrowCollateral}
use stellarlend.Host.Result.{Outcome, ok, err, trap}
use stellarlend.Host.{Env, Call}
use stellarlend.Settings.{BorrowError, overflow}
use stellarlend.Debt.Position.{has_debt, get_debt_position, get_collateral_position}
use stellarlend.Debt.Interest.{calculate_interest}

-- How a view takes the outcome of the interest calculation: it saturates on overflow, and leaves
-- out interest that ends with another error.
unfoldable pub with_accrued :
    {E : Type 0} → DebtPosition → Outcome BorrowError ℤ → Outcome E DebtPosition
with_accrued p (ok accrued) =
    ok (record p { interest_accrued = saturating_add p.interest_accrued accrued })
with_accrued p (err overflow) = ok (record p { interest_accrued = i128_max })
with_accrued p (err _) = ok p
with_accrued p trap = trap

unfoldable pub accrued_view : {E : Type 0} → DebtPosition → Call E DebtPosition
unfolding with_accrued
accrued_view position s =
    let (r, s') = calculate_interest position s in (with_accrued position r, s')

-- The position that a user's debt is read from: the variable one if it has debt.
unfoldable pub main_position : Env → Address → DebtPosition
main_position s user =
    let variable_debt = get_debt_position s user none variable in
    if has_debt variable_debt then variable_debt else get_debt_position s user none stable

unfoldable pub get_user_debt : {E : Type 0} → Address → Call E DebtPosition
get_user_debt user s = accrued_view (main_position s user) s

unfoldable pub get_user_debt_with_rate : {E : Type 0} → Address → RateType → Call E DebtPosition
get_user_debt_with_rate user rate_type s = accrued_view (get_debt_position s user none rate_type) s

unfoldable pub get_user_collateral : Env → Address → BorrowCollateral
get_user_collateral = get_collateral_position
