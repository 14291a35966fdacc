-- ===== src/InterestRate.antt =====
-- The utilization based interest rate model (stellar-lend/contracts/lending/src/interest_rate.rs).
pub mod Curve
pub mod Bounds
pub mod Mono
pub mod Update
use stellarlend.Prelude.{
  ℕ, Bool, true, false, Option, none, some, ◌||◌, not, ◌==◌, unwrap_or, is_some, if◌then◌else◌, ⊤,
}
use stellarlend.Prelude.Int.{ℤ, pos, leb_ℤ, ltb_ℤ, min_ℤ, max_ℤ}
use stellarlend.Prelude.I128.{checked_add, checked_sub, checked_mul, checked_div}
use stellarlend.Storage.Borrow.{Address, InterestRateConfig, InterestRateConfigUpdate}
use stellarlend.Host.Result
use stellarlend.Host.Result.{Outcome, ok, err, trap, ◌>>=◌, ◌>>◌, or_err, fail_if}
use stellarlend.Host
use stellarlend.Host.{Env, Call}
use stellarlend.Settings.{BorrowError, get_admin, get_debt_ceiling, get_total_debt, update_borrow}

pub data InterestRateError : Type 0 where
  unauthorized invalid_parameter overflow division_by_zero : InterestRateError

abbrev pub bps_scale : ℤ
bps_scale = pos 10000

abbrev pub default_config : Env → InterestRateConfig
default_config s = record {
  base_rate_bps = pos 100;
  kink_utilization_bps = pos 8000;
  slope_bps = pos 2000;
  jump_slope_bps = pos 10000;
  rate_floor_bps = pos 0;
  rate_ceiling_bps = pos 10000;
  spread_bps = pos 200;
  last_update = s.timestamp;
}

abbrev pub get_config : Env → InterestRateConfig
get_config s = unwrap_or s.borrow.interest_rate (default_config s)

unfoldable pub set_default_if_missing : {E : Type 0} → Call E ⊤
set_default_if_missing s =
    if is_some s.borrow.interest_rate
    then (ok tt, s)
    else update_borrow (λ b. record b { interest_rate = some (default_config s) }) s

-- The utilization of a debt under a ceiling.
unfoldable pub utilization_of : ℤ → ℤ → Outcome InterestRateError ℤ
utilization_of debt ceiling = do
  scaled ← or_err (checked_mul debt bps_scale) overflow
  util ← or_err (checked_div scaled ceiling) division_by_zero
  ok (max_ℤ (min_ℤ util bps_scale) (pos 0))

unfoldable pub utilization_bps : Env → Outcome InterestRateError ℤ
utilization_bps s =
    if leb_ℤ (get_debt_ceiling s) (pos 0)
    then ok (pos 0)
    else if leb_ℤ (get_total_debt s) (pos 0)
    then ok (pos 0)
    else utilization_of (get_total_debt s) (get_debt_ceiling s)

-- The branch `util <= kink` of `borrow_rate_bps`.
unfoldable pub rate_below_kink : InterestRateConfig → ℤ → Outcome InterestRateError ℤ
rate_below_kink cfg util =
    if ltb_ℤ (pos 0) cfg.kink_utilization_bps
    then (do
      scaled ← or_err (checked_mul util cfg.slope_bps) overflow
      inc ← or_err (checked_div scaled cfg.kink_utilization_bps) division_by_zero
      or_err (checked_add cfg.base_rate_bps inc) overflow)
    else ok cfg.base_rate_bps

-- The rate beyond the kink, from the rate at the kink.
unfoldable pub rate_jump : InterestRateConfig → ℤ → ℤ → ℤ → Outcome InterestRateError ℤ
rate_jump cfg rate_at_kink util_above max_above =
    if ltb_ℤ (pos 0) max_above
    then (do
      scaled ← or_err (checked_mul util_above cfg.jump_slope_bps) overflow
      addl ← or_err (checked_div scaled max_above) division_by_zero
      or_err (checked_add rate_at_kink addl) overflow)
    else ok rate_at_kink

-- The other branch.
unfoldable pub rate_above_kink : InterestRateConfig → ℤ → Outcome InterestRateError ℤ
rate_above_kink cfg util = do
  rate_at_kink ← or_err (checked_add cfg.base_rate_bps cfg.slope_bps) overflow
  util_above ← or_err (checked_sub util cfg.kink_utilization_bps) overflow
  max_above ← or_err (checked_sub bps_scale cfg.kink_utilization_bps) overflow
  rate_jump cfg rate_at_kink util_above max_above

unfoldable pub rate_at : InterestRateConfig → ℤ → Outcome InterestRateError ℤ
rate_at cfg util = do
  rate ←
      if leb_ℤ util cfg.kink_utilization_bps
      then rate_below_kink cfg util
      else rate_above_kink cfg util
  ok (min_ℤ (max_ℤ rate cfg.rate_floor_bps) cfg.rate_ceiling_bps)

unfoldable pub borrow_rate_bps : Env → Outcome InterestRateError ℤ
borrow_rate_bps s = do util ← utilization_bps s; rate_at (get_config s) util

unfoldable pub supply_rate_bps : Env → Outcome InterestRateError ℤ
supply_rate_bps s = do
  borrow ← borrow_rate_bps s
  supply ← or_err (checked_sub borrow (get_config s).spread_bps) overflow
  ok (max_ℤ supply (get_config s).rate_floor_bps)

-- `if let Some(v) = update.field { if bad(v) { return Err } next.field = v; }`
unfoldable pub updated : Option ℤ → (ℤ → Bool) → ℤ → Outcome InterestRateError ℤ
updated none bad old = ok old
updated (some v) bad old = if bad v then err invalid_parameter else ok v

abbrev pub outside_scale : ℤ → Bool
outside_scale v = ltb_ℤ v (pos 0) || ltb_ℤ bps_scale v

abbrev pub bad_kink : ℤ → Bool
bad_kink v = leb_ℤ v (pos 0) || leb_ℤ bps_scale v

abbrev pub is_negative : ℤ → Bool
is_negative v = ltb_ℤ v (pos 0)

-- The validation of an update, field by field, and the configuration that it gives.
unfoldable pub update_fields :
    ℕ → InterestRateConfigUpdate → InterestRateConfig → Outcome InterestRateError InterestRateConfig
update_fields now update prev = do
  base ← updated update.base_rate_bps outside_scale prev.base_rate_bps
  kink ← updated update.kink_utilization_bps bad_kink prev.kink_utilization_bps
  slope ← updated update.slope_bps is_negative prev.slope_bps
  jump ← updated update.jump_slope_bps is_negative prev.jump_slope_bps
  floor ← updated update.rate_floor_bps outside_scale prev.rate_floor_bps
  ceiling ← updated update.rate_ceiling_bps outside_scale prev.rate_ceiling_bps
  fail_if (ltb_ℤ ceiling floor) invalid_parameter
  spread ← updated update.spread_bps outside_scale prev.spread_bps
  ok (record {
    base_rate_bps = base;
    kink_utilization_bps = kink;
    slope_bps = slope;
    jump_slope_bps = jump;
    rate_floor_bps = floor;
    rate_ceiling_bps = ceiling;
    spread_bps = spread;
    last_update = now;
  })

-- `From<InterestRateError> for BorrowError`
abbrev pub to_borrow_error : InterestRateError → BorrowError
to_borrow_error unauthorized = BorrowError.unauthorized
to_borrow_error invalid_parameter = BorrowError.invalid_amount
to_borrow_error overflow = BorrowError.overflow
to_borrow_error division_by_zero = BorrowError.overflow
