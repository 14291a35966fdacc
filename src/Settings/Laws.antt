-- ===== src/Settings/Laws.antt =====
-- What the admin's setters let through.
use stellarlend.Prelude.{◌≡◌, ◌≢◌, ◌⊎◌, some, false, arith, ⊤}
use stellarlend.Prelude.Int.{ℤ, pos, ◌≤ℤ◌}
use stellarlend.Host.Result.{Outcome, ok}
use stellarlend.Host.{Env}
use stellarlend.Storage.Borrow.{Address, StablecoinConfig}
use stellarlend.Settings.{
  BorrowError, get_admin, get_liquidation_threshold_bps, get_close_factor_bps,
  get_liquidation_incentive_bps, set_oracle, set_liquidation_threshold_bps, set_close_factor_bps,
  set_liquidation_incentive_bps, set_stablecoin_config,
}

-- The risk parameters are in their ranges: threshold and close factor in 1 to 10000 basis points,
-- the incentive in 0 to 10000.
pub record HasRiskBounds (s : Env) : Type 0 where
  pub threshold_low : pos 1 ≤ℤ get_liquidation_threshold_bps s
  pub threshold_high : get_liquidation_threshold_bps s ≤ℤ pos 10000
  pub close_low : pos 1 ≤ℤ get_close_factor_bps s
  pub close_high : get_close_factor_bps s ≤ℤ pos 10000
  pub incentive_low : pos 0 ≤ℤ get_liquidation_incentive_bps s
  pub incentive_high : get_liquidation_incentive_bps s ≤ℤ pos 10000

-- Every setter of a risk parameter keeps all the risk parameters in their ranges, for any argument.
set_bps-HasRiskBounds :
    (admin : Address) (bps : ℤ) (s : Env)
    → HasRiskBounds s
    → HasRiskBounds (set_liquidation_threshold_bps admin bps s).1
      × HasRiskBounds (set_close_factor_bps admin bps s).1
      × HasRiskBounds (set_liquidation_incentive_bps admin bps s).1
unfolding set_liquidation_threshold_bps set_close_factor_bps set_liquidation_incentive_bps
set_bps-HasRiskBounds admin bps s h = (ground arith, ground arith, ground arith)

-- A call that ends with an error or a trap and leaves the environment alone.
abbrev pub Refused : Outcome BorrowError ⊤ × Env → Env → Type 0
Refused (r, s') s = (r ≢ ok tt) × (s' ≡ s)

-- Without the stored admin's name and signature every setter is refused and changes nothing.
setters-Refused :
    (admin asset : Address) (bps : ℤ) (config : StablecoinConfig) (s : Env)
    → (get_admin s ≢ some admin) ⊎ (s.signed admin ≡ false)
    → Refused (set_oracle admin asset s) s
      × Refused (set_liquidation_threshold_bps admin bps s) s
      × Refused (set_close_factor_bps admin bps s) s
      × Refused (set_liquidation_incentive_bps admin bps s) s
      × Refused (set_stablecoin_config admin asset config s) s
unfolding set_oracle set_liquidation_threshold_bps set_close_factor_bps
    set_liquidation_incentive_bps set_stablecoin_config
setters-Refused admin asset bps config s h =
    (ground arith, ground arith, ground arith, ground arith, ground arith)
