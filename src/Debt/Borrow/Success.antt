-- ===== src/Debt/Borrow/Success.antt =====
-- What a borrow that succeeds has checked and written (lending/src/borrow.rs).
use stellarlend.Prelude.{ℕ, ◌+◌, ◌*◌, ◌/◌, ◌<◌, ◌≡◌, false, some, arith, ltb, if◌then◌else◌}
use stellarlend.Prelude.Int.{ℤ, pos, pos_part, ◌+ℤ◌, ◌≤ℤ◌, negsuc}
use stellarlend.Prelude.I128.{
  i128_max, checked_add-exact, checked_mul-pos, checked_mul-pos_if, checked_div-pos,
}
use stellarlend.Storage.Borrow.{Address, RateType, variable, stable, DebtPosition}
use stellarlend.Storage.Pause.{PauseType}
use stellarlend.Host.Result.{ok, err}
use stellarlend.Host.{Env}
use stellarlend.Host.Laws.{OnOk}
use stellarlend.Settings.{
  BorrowError, insufficient_collateral, get_total_debt, get_debt_ceiling, get_min_borrow_amount,
}
use stellarlend.Pause.{is_paused}
use stellarlend.Risk.{on_utilization_changed, alert, escalate}
use stellarlend.Debt.Position.{get_debt_position, get_collateral_position}
use stellarlend.Debt.Interest.{calculate_interest}
use stellarlend.Debt.Interest.Laws.{
  Frame, calculate_interest-Frame, get_current_stable_rate_bps-Frame,
}
use stellarlend.Debt.Borrow.{
  validate_collateral_ratio, check_borrow, rate_for_borrow, borrowed_position,
  collateralized_position,
}

-- On amounts that are not negative and whose product with 15000 fits, the check of the collateral
-- ratio passes exactly when the collateral is at least 15000/10000 of the borrow, rounded down.
pub validate_collateral_ratio_iff :
    (collateral borrow : ℕ) (s : Env)
    → pos (borrow * 15000) ≤ℤ i128_max
    → validate_collateral_ratio (pos collateral) (pos borrow) s
      ≡ (if ltb collateral (borrow * 15000 / 10000) then err insufficient_collateral else ok tt, s)
unfolding validate_collateral_ratio
validate_collateral_ratio_iff collateral borrow s h =
    ground (arith, checked_mul-pos borrow 15000, checked_div-pos (borrow * 15000) 10000)

-- Where it passes, the collateral times 10000 is less than 10000 short of 15000 times the borrow.
validated :
    (c b : ℕ) (s : Env)
    → OnOk
        (λ _ t. (15000 * b < 10000 * (c + 1)) × (t ≡ s))
        (validate_collateral_ratio (pos c) (pos b) s)
unfolding validate_collateral_ratio
validated c b s = ground (arith, checked_mul-pos_if b 15000, checked_div-pos (b * 15000) 10000)

validated_ℤ :
    (c b : ℤ) (s : Env)
    → pos 1 ≤ℤ c
    → pos 1 ≤ℤ b
    → OnOk
        (λ _ t. (15000 * pos_part b < 10000 * (pos_part c + 1)) × (t ≡ s))
        (validate_collateral_ratio c b s)
validated_ℤ (pos c) (pos b) s h k = validated c b s
validated_ℤ (negsuc c) b s h k = absurd (omega arith)
validated_ℤ (pos c) (negsuc b) s h k = absurd (omega arith)

-- What the checks of a borrow have found when they pass, and the new total debt.
pub record CheckedBorrow (amount collateral : ℤ) (s : Env) (new_total : ℤ) : Type 0 where
  pub not_paused : is_paused s PauseType.borrow ≡ false
  pub amount_pos : pos 1 ≤ℤ amount
  pub collateral_pos : pos 1 ≤ℤ collateral
  pub at_least_min : get_min_borrow_amount s ≤ℤ amount
  pub ratio : 15000 * pos_part amount < 10000 * (pos_part collateral + 1)
  pub total : new_total ≡ get_total_debt s +ℤ amount
  pub under_ceiling : new_total ≤ℤ get_debt_ceiling s

pub check_borrow-CheckedBorrow :
    (amount collateral : ℤ) (s : Env)
    → OnOk (λ n t. CheckedBorrow amount collateral s n × (t ≡ s)) (check_borrow amount collateral s)
unfolding check_borrow
check_borrow-CheckedBorrow amount collateral s =
    grind (arith, validated_ℤ collateral amount s, checked_add-exact (get_total_debt s) amount)

rate_for_borrow-Frame :
    (r : RateType) (p : DebtPosition) (s : Env) → Frame s (rate_for_borrow r p s).1
rate_for_borrow-Frame variable p s = ground arith
rate_for_borrow-Frame stable p s = get_current_stable_rate_bps-Frame s

-- The position that a borrow saves: the old principal and the amount, at the time of the borrow.
pub record BorrowedPosition (old : DebtPosition) (asset : Address) (amount : ℤ) (r : RateType)
    (now : ℕ) (p : DebtPosition) : Type 0 where
  pub principal : p.borrowed_amount ≡ old.borrowed_amount +ℤ amount
  pub rate_type : p.rate_type ≡ r
  pub asset_set : p.asset ≡ asset
  pub accrued_at : p.last_update ≡ now

pub borrowed_position-BorrowedPosition :
    (user asset : Address) (amount : ℤ) (r : RateType) (s : Env)
    → OnOk
        (λ p t.
          Frame s t
          × BorrowedPosition (get_debt_position s user (some asset) r) asset amount r s.timestamp p)
        (borrowed_position user asset amount r s)
unfolding borrowed_position
borrowed_position-BorrowedPosition user asset amount r s =
    let old = record (get_debt_position s user (some asset) r) { rate_type = r } in
    let t = (calculate_interest old s).1 in
    ground (
      arith,
      calculate_interest-Frame old s,
      checked_add-exact old.borrowed_amount amount,
      rate_for_borrow-Frame r old t,
    )

pub collateralized_position-lem :
    (user asset : Address) (amount : ℤ) (s : Env)
    → OnOk
        (λ c t.
          (t ≡ s)
          × (c.amount ≡ (get_collateral_position s user).amount +ℤ amount)
          × (c.asset ≡ asset))
        (collateralized_position user asset amount s)
unfolding collateralized_position
collateralized_position-lem user asset amount s =
    ground (arith, checked_add-exact (get_collateral_position s user).amount amount)

-- An alert never fails, and writes no position and no setting.
pub on_utilization_changed-ok :
    (debt ceiling : ℤ) (s : Env)
    → let (r, t) = on_utilization_changed {E = BorrowError} debt ceiling s in
      (r ≡ ok tt) × (t.borrow ≡ s.borrow) × (t.timestamp ≡ s.timestamp)
unfolding on_utilization_changed alert escalate
on_utilization_changed-ok debt ceiling s = ground arith
