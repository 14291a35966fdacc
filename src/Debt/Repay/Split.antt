-- ===== src/Debt/Repay/Split.antt =====
-- How a repayment is split between interest and principal (lending/src/borrow.rs).
use stellarlend.Prelude.{◌≡◌, ◌⊎◌, some, IfSome, arith}
use stellarlend.Prelude.Int.{
  ℤ, pos, ◌+ℤ◌, ◌≤ℤ◌, eq_of_parts, zero_+ℤ, +ℤ_zero, +ℤ_sub_cancel, -ℤ-+ℤ_cancel, -ℤ_nonneg,
}
use stellarlend.Prelude.I128.{checked_add-exact, checked_sub-exact}
use stellarlend.Storage.Borrow.{Address, RateType, DebtPosition}
use stellarlend.Host.Result.{ok, err, trap}
use stellarlend.Host.{Env}
use stellarlend.Host.Laws.{OnOk}
use stellarlend.Settings.{get_total_debt}
use stellarlend.Debt.Position.{get_debt_position}
use stellarlend.Debt.Interest.{calculate_interest}
use stellarlend.Debt.Interest.Laws.{Frame, calculate_interest-Frame}
use stellarlend.Debt.Repay.{repay_interest, repay_principal, accrued_position}

-- The interest that is left and the rest for the principal.
pub record InterestSplit (amount interest left rest : ℤ) : Type 0 where
  pub conserved : left +ℤ amount ≡ interest +ℤ rest
  pub first : (left ≡ pos 0) ⊎ (rest ≡ pos 0)
  pub left_nonneg : pos 0 ≤ℤ left
  pub rest_nonneg : pos 0 ≤ℤ rest

pub repay_interest-InterestSplit :
    (amount interest : ℤ)
    → IfSome (λ x. InterestSplit amount interest x.0 x.1) (repay_interest amount interest)
unfolding repay_interest
repay_interest-InterestSplit amount interest = ground (
  arith,
  zero_+ℤ amount,
  +ℤ_sub_cancel amount interest,
  -ℤ-+ℤ_cancel interest amount,
  +ℤ_zero interest,
  -ℤ_nonneg amount interest,
  -ℤ_nonneg interest amount,
)

-- The principal that is left; only the total debt is written.
pub record PrincipalPaid (rest borrowed left : ℤ) (s t : Env) : Type 0 where
  pub conserved : left +ℤ rest ≡ borrowed
  pub covered : rest ≤ℤ borrowed ⊎ (rest ≡ pos 0)
  pub total : get_total_debt t +ℤ rest ≡ get_total_debt s
  pub timestamp : t.timestamp ≡ s.timestamp
  pub user_debt : t.borrow.user_debt ≡ s.borrow.user_debt
  pub user_variable_debt : t.borrow.user_variable_debt ≡ s.borrow.user_variable_debt
  pub user_stable_debt : t.borrow.user_stable_debt ≡ s.borrow.user_stable_debt
  pub user_collateral : t.borrow.user_collateral ≡ s.borrow.user_collateral

pub repay_principal-PrincipalPaid :
    (rest borrowed : ℤ) (s : Env)
    → pos 0 ≤ℤ rest
    → OnOk (λ left t. PrincipalPaid rest borrowed left s t) (repay_principal rest borrowed s)
unfolding repay_principal
repay_principal-PrincipalPaid rest borrowed s h = ground (
  arith,
  -ℤ-+ℤ_cancel borrowed rest,
  +ℤ_zero borrowed,
  +ℤ_zero (get_total_debt s),
  eq_of_parts rest (pos 0),
  checked_sub-exact (get_total_debt s) rest,
  -ℤ-+ℤ_cancel (get_total_debt s) rest,
)

-- The interest that `calculate_interest` returns for a position.
abbrev pub accrued_interest : DebtPosition → Env → ℤ
accrued_interest p s = elim (calculate_interest p s).0 [ ok a ↦ a | err _ ↦ pos 0 | trap ↦ pos 0 ]

-- The position that is repaid: the stored one with the interest of the time since.
pub record AccruedPosition (old : DebtPosition) (asset : Address) (r : RateType) (s : Env)
    (p : DebtPosition) : Type 0 where
  pub borrowed : p.borrowed_amount ≡ old.borrowed_amount
  pub interest :
      p.interest_accrued ≡ old.interest_accrued +ℤ accrued_interest (record old { rate_type = r }) s
  pub rate_type : p.rate_type ≡ r
  pub accrued_at : p.last_update ≡ s.timestamp
  pub right_asset : old.asset ≡ asset

pub accrued_position-AccruedPosition :
    (user asset : Address) (r : RateType) (s : Env)
    → OnOk
        (λ p t. Frame s t × AccruedPosition (get_debt_position s user (some asset) r) asset r s p)
        (accrued_position user asset r s)
unfolding accrued_position
accrued_position-AccruedPosition user asset r s =
    let old = record (get_debt_position s user (some asset) r) { rate_type = r } in
    ground (
      arith,
      calculate_interest-Frame old s,
      checked_add-exact old.interest_accrued (accrued_interest old s),
    )
