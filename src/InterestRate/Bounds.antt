-- ===== src/InterestRate/Bounds.antt =====
-- Ranges of the interest rate model (lending/src/interest_rate.rs).
use stellarlend.Prelude.{ℕ, ◌≡◌, Option, none, some, arith}
use stellarlend.Prelude.Int.{ℤ, pos, ◌≤ℤ◌, -ℤ_parts, max_ℤ}
use stellarlend.Prelude.I128.{checked_sub, checked_sub-exact}
use stellarlend.Storage.Borrow.{Address, InterestRateConfig, InterestRateConfigUpdate}
use stellarlend.Host.Result.{Outcome, ok, ◌>>=◌, or_err, ok->>=, Holds}
use stellarlend.Host.{Env}
use stellarlend.InterestRate.{
  InterestRateError, overflow, get_config, utilization_of, utilization_bps, rate_at,
  borrow_rate_bps, supply_rate_bps, updated, update_fields, outside_scale, bad_kink, is_negative,
}
use stellarlend.InterestRate.Update.{update_config}

-- The configurations that the validation of an update means to allow.
pub record IsValidConfig (c : InterestRateConfig) : Type 0 where
  pub base_low : pos 0 ≤ℤ c.base_rate_bps
  pub base_high : c.base_rate_bps ≤ℤ pos 10000
  pub kink_low : pos 1 ≤ℤ c.kink_utilization_bps
  pub kink_high : c.kink_utilization_bps ≤ℤ pos 9999
  pub slope_low : pos 0 ≤ℤ c.slope_bps
  pub jump_low : pos 0 ≤ℤ c.jump_slope_bps
  pub floor_low : pos 0 ≤ℤ c.rate_floor_bps
  pub floor_ceiling : c.rate_floor_bps ≤ℤ c.rate_ceiling_bps
  pub ceiling_high : c.rate_ceiling_bps ≤ℤ pos 10000
  pub spread_low : pos 0 ≤ℤ c.spread_bps
  pub spread_high : c.spread_bps ≤ℤ pos 10000

-- The utilization is a share: 0 to 10000 basis points.
pub utilization_bps_bounds :
    (s : Env) {u : ℤ} → utilization_bps s ≡ ok u → (pos 0 ≤ℤ u) × (u ≤ℤ pos 10000)
unfolding utilization_bps utilization_of
utilization_bps_bounds s h = ground arith

pub rate_at_bounds :
    (c : InterestRateConfig) (u : ℤ) {r : ℤ}
    → c.rate_floor_bps ≤ℤ c.rate_ceiling_bps
    → rate_at c u ≡ ok r
    → (c.rate_floor_bps ≤ℤ r) × (r ≤ℤ c.rate_ceiling_bps)
unfolding rate_at
rate_at_bounds c u fc h = ground arith

pub borrow_rate_bps_bounds :
    (s : Env) {r : ℤ}
    → (get_config s).rate_floor_bps ≤ℤ (get_config s).rate_ceiling_bps
    → borrow_rate_bps s ≡ ok r
    → ((get_config s).rate_floor_bps ≤ℤ r) × (r ≤ℤ (get_config s).rate_ceiling_bps)
unfolding borrow_rate_bps
borrow_rate_bps_bounds s {r} fc h =
    let (u, e, _) = ok->>= (utilization_bps s) (rate_at (get_config s)) h in
    rate_at_bounds (get_config s) u fc e

-- The supply rate of a borrow rate.
supply_bounds :
    (r sp f : ℤ) {q : ℤ}
    → pos 0 ≤ℤ sp
    → f ≤ℤ r
    → ◌≡◌ {A = Outcome InterestRateError ℤ}
        (or_err (checked_sub r sp) overflow >>= λ x. ok (max_ℤ x f))
        (ok q)
    → (f ≤ℤ q) × (q ≤ℤ r)
supply_bounds r sp f p fr h = ground (arith, checked_sub-exact r sp, -ℤ_parts r sp)

-- The borrow rate lies between the configured floor and ceiling, and the supply rate between the
-- floor and the borrow rate.
rates_bounds :
    (s : Env) {r q : ℤ}
    → IsValidConfig (get_config s)
    → borrow_rate_bps s ≡ ok r
    → supply_rate_bps s ≡ ok q
    → ((get_config s).rate_floor_bps ≤ℤ r)
      × (r ≤ℤ (get_config s).rate_ceiling_bps)
      × ((get_config s).rate_floor_bps ≤ℤ q)
      × (q ≤ℤ r)
unfolding supply_rate_bps
rates_bounds s {r} {q} v h k =
    let (fr, rc) = borrow_rate_bps_bounds s v.floor_ceiling h in
    let (fq, qr) =
      supply_bounds r (get_config s).spread_bps (get_config s).rate_floor_bps v.spread_low fr
        (rw h at k) in
    (fr, rc, fq, qr)

updated_in_scale :
    (o : Option ℤ) (old : ℤ)
    → pos 0 ≤ℤ old
    → old ≤ℤ pos 10000
    → Holds (λ v. (pos 0 ≤ℤ v) × (v ≤ℤ pos 10000)) (updated o outside_scale old)
unfolding updated
updated_in_scale none old l u = (l, u)
updated_in_scale (some x) old l u = ground arith

updated_kink :
    (o : Option ℤ) (old : ℤ)
    → pos 1 ≤ℤ old
    → old ≤ℤ pos 9999
    → Holds (λ v. (pos 1 ≤ℤ v) × (v ≤ℤ pos 9999)) (updated o bad_kink old)
unfolding updated
updated_kink none old l u = (l, u)
updated_kink (some x) old l u = ground arith

updated_nonneg :
    (o : Option ℤ) (old : ℤ) → pos 0 ≤ℤ old → Holds (λ v. pos 0 ≤ℤ v) (updated o is_negative old)
unfolding updated
updated_nonneg none old l = l
updated_nonneg (some x) old l = ground arith

-- An accepted update of a valid configuration is valid.
pub update_fields-IsValidConfig :
    (now : ℕ) (u : InterestRateConfigUpdate) (c : InterestRateConfig)
    → IsValidConfig c
    → Holds IsValidConfig (update_fields now u c)
unfolding update_fields
update_fields-IsValidConfig now u c v = ground (
  arith,
  updated_in_scale u.base_rate_bps c.base_rate_bps,
  updated_kink u.kink_utilization_bps c.kink_utilization_bps,
  updated_nonneg u.slope_bps c.slope_bps,
  updated_nonneg u.jump_slope_bps c.jump_slope_bps,
  updated_in_scale u.rate_floor_bps c.rate_floor_bps,
  updated_in_scale u.rate_ceiling_bps c.rate_ceiling_bps,
  updated_in_scale u.spread_bps c.spread_bps,
)

-- `update_config` keeps the stored configuration valid, on every branch.
update_config-IsValidConfig :
    (caller : Address) (u : InterestRateConfigUpdate) (s : Env)
    → IsValidConfig (get_config s)
    → IsValidConfig (get_config (update_config caller u s).1)
unfolding update_config
update_config-IsValidConfig caller u s v =
    ground (arith, update_fields-IsValidConfig s.timestamp u (get_config s) v)
