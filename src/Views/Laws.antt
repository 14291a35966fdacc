-- ===== src/Views/Laws.antt =====
-- What views leave alone.
use stellarlend.Prelude.{◌≡◌, Bool, Option, none, some, arith, refl}
use stellarlend.Prelude.Int.{ℤ}
use stellarlend.Storage.Borrow.{Address}
use stellarlend.Host.{Env}
use stellarlend.Settings.{get_oracle, get_liquidation_threshold_bps}
use stellarlend.Debt.Interest.Laws.{Frame, calculate_interest-Frame}
use stellarlend.Debt.View.{accrued_view, main_position, get_user_debt}
use stellarlend.Views.{
  priced, value_with, value_of, health_with, health_ratio, compute_health_factor, get_debt_value,
  get_health_factor,
}

module _ (E : Type 0) where
  priced-same : (amount price : ℤ) (s : Env) → (priced {E = E} amount price s).1 ≡ s
  unfolding priced
  priced-same amount price s = ground arith

  value_with-same :
      (o : Option Address) (amount : ℤ) (asset : Address) (s : Env)
      → (value_with {E = E} o amount asset s).1 ≡ s
  value_with-same none amount asset s = refl
  value_with-same (some o) amount asset s = grind (arith, priced-same amount)

  pub value_of-same :
      (amount : ℤ) (asset : Address) (s : Env) → (value_of {E = E} amount asset s).1 ≡ s
  unfolding value_of
  value_of-same amount asset s = ground (arith, value_with-same (get_oracle s) amount asset s)

  health_with-same :
      (o : Option Address) (c b d : ℤ) (s : Env) → (health_with {E = E} o c b d s).1 ≡ s
  unfolding health_ratio
  health_with-same none c b d s = refl
  health_with-same (some _) c b d s = ground arith

  pub compute_health_factor-same :
      (c d : ℤ) (has_debt : Bool) (s : Env) → (compute_health_factor {E = E} c d has_debt s).1 ≡ s
  unfolding compute_health_factor
  compute_health_factor-same c d has_debt s =
      ground (arith, health_with-same (get_oracle s) c (get_liquidation_threshold_bps s) d s)

  pub get_user_debt-Frame : (user : Address) (s : Env) → Frame s (get_user_debt {E = E} user s).1
  unfolding get_user_debt accrued_view
  get_user_debt-Frame user s = calculate_interest-Frame (main_position s user) s

  pub get_debt_value-Frame : (user : Address) (s : Env) → Frame s (get_debt_value {E = E} user s).1
  unfolding get_debt_value
  get_debt_value-Frame user s = grind (arith, get_user_debt-Frame user s, value_of-same)

  pub get_health_factor-Frame :
      (user : Address) (s : Env) → Frame s (get_health_factor {E = E} user s).1
  unfolding get_health_factor
  get_health_factor-Frame user s =
      grind (arith, get_user_debt-Frame user s, value_of-same, compute_health_factor-same)
