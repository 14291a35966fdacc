-- ===== src/Debt/Interest/Laws.antt =====
-- What the interest calculation leaves alone. Behind its result it may only store a new average
-- stable rate and publish events.
use stellarlend.Prelude.{ℕ, ◌≡◌, Option, none, some, inl, inr, arith, Option-cases}
use stellarlend.Prelude.Int.{ℤ}
use stellarlend.Storage.Borrow.{Address, RateType, variable, stable, DebtPosition, StablecoinConfig}
use stellarlend.Host.{Env}
use stellarlend.Settings.{get_oracle, get_stablecoin_config}
use stellarlend.Debt.Interest.{
  update_stable_rate_state_if_needed, get_current_stable_rate_bps, add_stability_fee, stability_fee,
  position_rate_bps, simple_interest, interest_at, calculate_interest,
}

-- Everything but the stored stable rate and the published events is the same.
pub record Frame (s t : Env) : Type 0 where
  pub timestamp : t.timestamp ≡ s.timestamp
  pub signed : t.signed ≡ s.signed
  pub price : t.price ≡ s.price
  pub pause : t.pause ≡ s.pause
  pub vault : t.vault ≡ s.vault
  pub withdraw : t.withdraw ≡ s.withdraw
  pub risk : t.risk ≡ s.risk
  pub bad_debt : t.bad_debt ≡ s.bad_debt
  pub cross : t.cross ≡ s.cross
  pub commitments : t.commitments ≡ s.commitments
  pub protocol_admin : t.borrow.protocol_admin ≡ s.borrow.protocol_admin
  pub user_debt : t.borrow.user_debt ≡ s.borrow.user_debt
  pub user_variable_debt : t.borrow.user_variable_debt ≡ s.borrow.user_variable_debt
  pub user_stable_debt : t.borrow.user_stable_debt ≡ s.borrow.user_stable_debt
  pub user_collateral : t.borrow.user_collateral ≡ s.borrow.user_collateral
  pub total_debt : t.borrow.total_debt ≡ s.borrow.total_debt
  pub debt_ceiling : t.borrow.debt_ceiling ≡ s.borrow.debt_ceiling
  pub interest_rate : t.borrow.interest_rate ≡ s.borrow.interest_rate
  pub rate_switch_fee_bps : t.borrow.rate_switch_fee_bps ≡ s.borrow.rate_switch_fee_bps
  pub close_factor_bps : t.borrow.close_factor_bps ≡ s.borrow.close_factor_bps

pub get_current_stable_rate_bps-Frame : (s : Env) → Frame s (get_current_stable_rate_bps s).1
unfolding get_current_stable_rate_bps update_stable_rate_state_if_needed
get_current_stable_rate_bps-Frame s = ground arith

position_rate_bps-Frame :
    (p : DebtPosition) (r : RateType) (s : Env) → Frame s (position_rate_bps p r s).1
unfolding position_rate_bps
position_rate_bps-Frame p variable s = ground arith
position_rate_bps-Frame p stable s = ground (arith, get_current_stable_rate_bps-Frame s)

stability_fee-Frame :
    (c : Option StablecoinConfig) (o : Option Address) (p : DebtPosition) (t : ℕ) (i : ℤ) (s : Env)
    → Frame s (stability_fee c o p t i s).1
unfolding add_stability_fee
stability_fee-Frame none o p t i s = ground arith
stability_fee-Frame (some c) none p t i s = ground arith
stability_fee-Frame (some c) (some o) p t i s = ground arith

pub Frame-trans : {s t u : Env} → Frame s t → Frame t u → Frame s u
Frame-trans h k = ground arith

interest_at-Frame : (p : DebtPosition) (t : ℕ) (r : ℤ) (s : Env) → Frame s (interest_at p t r s).1
unfolding interest_at
interest_at-Frame p t r s = elim (Option-cases (simple_interest p.borrowed_amount r t)) [
  | inl e ↦ rw e (ground arith)
  | inr (i, e) ↦
      rw e (
        ground
          (arith, stability_fee-Frame (get_stablecoin_config s p.asset) (get_oracle s) p t i s))
]

pub calculate_interest-Frame : (p : DebtPosition) (s : Env) → Frame s (calculate_interest p s).1
unfolding calculate_interest
calculate_interest-Frame p s =
    grind (arith, position_rate_bps-Frame p p.rate_type s, interest_at-Frame p)
