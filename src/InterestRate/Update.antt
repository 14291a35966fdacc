-- ===== src/InterestRate/Update.antt =====
-- Updates of the interest rate model (`update_config` in lending/src/interest_rate.rs, and
-- `set_variable_borrow_rate_bps` in lending/src/borrow.rs).
use stellarlend.Prelude.{none, some, ◌||◌, not, ◌==◌, ⊤}
use stellarlend.Prelude.Int.{ℤ, pos, ltb_ℤ}
use stellarlend.Storage.Borrow.{Address, InterestRateConfig, InterestRateConfigUpdate}
use stellarlend.Host.{Call, ◌>>=◌, ◌>>◌, gets, ok_or, reject_if, lift, pure, require_auth, map_err}
use stellarlend.Settings.{BorrowError, get_admin, update_borrow, check_admin}
use stellarlend.InterestRate.{
  InterestRateError, unauthorized, get_config, update_fields, to_borrow_error,
}

unfoldable pub update_config :
    Address
    → InterestRateConfigUpdate
    → Call InterestRateError (InterestRateConfig × InterestRateConfig)
update_config caller update = do
  require_auth caller
  admin ← ok_or (← gets get_admin) unauthorized
  reject_if (not (caller == admin)) unauthorized
  prev ← gets get_config
  now ← gets (λ s. s.timestamp)
  next ← lift (update_fields now update prev)
  update_borrow (λ b. record b { interest_rate = some next })
  pure (prev, next)

-- Only the base rate is given.
abbrev pub base_rate_update : ℤ → InterestRateConfigUpdate
base_rate_update rate_bps = record {
  base_rate_bps = some rate_bps;
  kink_utilization_bps = none;
  slope_bps = none;
  jump_slope_bps = none;
  rate_floor_bps = none;
  rate_ceiling_bps = none;
  spread_bps = none;
}

unfoldable pub set_variable_borrow_rate_bps : Address → ℤ → Call BorrowError ⊤
unfolding check_admin
set_variable_borrow_rate_bps admin rate_bps = do
  check_admin admin
  reject_if (ltb_ℤ rate_bps (pos 0) || ltb_ℤ (pos 10000) rate_bps) BorrowError.invalid_amount
  map_err to_borrow_error (update_config admin (base_rate_update rate_bps))
  pure tt
