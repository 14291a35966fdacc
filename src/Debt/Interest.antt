-- ===== src/Debt/Interest.antt =====
-- Stable rates and simple interest (lending/src/borrow.rs). Interest is computed with the host's
-- 256-bit integers, whose overflow traps.
pub mod Laws
use Prim.Native.Nat.{max}
use stellarlend.Prelude.{
  ℕ, ◌-◌, Bool, true, false, Option, none, some, ◌||◌, ◌==◌, leb, ltb, unwrap_or, if◌then◌else◌, ⊤,
}
use stellarlend.Prelude.Int.{ℤ, pos, ltb_ℤ, eqb_ℤ}
use stellarlend.Prelude.I128.{
  checked_add, checked_mul, checked_div, saturating_sub, saturating_mul, saturating_div, to_i128,
}
use stellarlend.Storage.Borrow.{
  Address, RateType, variable, stable, DebtPosition, StableRateState, StablecoinConfig,
}
use stellarlend.Storage.Event.{peg_deviation, stability_fee_applied}
use stellarlend.Host.Result
use stellarlend.Host.Result.{Outcome, ok, err, trap}
use stellarlend.Host.Arith.{i256_add, i256_mul, i256_div}
use stellarlend.Host.{Env, Call, ◌>>=◌, ◌>>◌, gets, ok_or, or_trap, lift, pure, emit, invoke_price}
use stellarlend.Settings.{
  BorrowError, overflow, get_oracle, get_stablecoin_config, get_stable_rate_premium_bps,
  get_stable_rate_recalc_interval_secs, update_borrow,
}
use stellarlend.InterestRate.{borrow_rate_bps, to_borrow_error}

abbrev pub seconds_per_year : ℤ
seconds_per_year = pos 31536000

unfoldable pub get_current_variable_rate_bps : Env → Outcome BorrowError ℤ
get_current_variable_rate_bps s = Result.map_err to_borrow_error (borrow_rate_bps s)

-- `unwrap_or` on a result. (The rate model never traps.)
abbrev pub result_or : Outcome BorrowError ℤ → ℤ → ℤ
result_or (ok v) d = v
result_or (err _) d = d
result_or trap d = d

unfoldable pub get_stable_rate_state : Env → StableRateState
get_stable_rate_state s = unwrap_or s.borrow.stable_rate_state (record {
  avg_rate_bps = result_or (get_current_variable_rate_bps s) (pos 0);
  last_update = s.timestamp;
})

-- `checked_mul(9).and_then(checked_add(current)).and_then(checked_div(10)).unwrap_or(current)`
unfoldable pub smoothed : ℤ → ℤ → ℤ
smoothed old current = elim (checked_mul old (pos 9)) [
  | none ↦ current
  | some nine ↦ elim (checked_add nine current) [
    | none ↦ current
    | some total ↦ unwrap_or (checked_div total (pos 10)) current
  ]
]

-- Is a new average due?
abbrev pub is_due : ℕ → ℕ → ℕ → Bool
is_due now last interval =
    if leb now last
    then false
    else if interval == 0 || ltb (now - last) interval
    then false
    else true

unfoldable pub update_stable_rate_state_if_needed : {E : Type 0} → Call E StableRateState
unfolding get_stable_rate_state smoothed
update_stable_rate_state_if_needed s =
    let state = get_stable_rate_state s in
    let current = result_or (get_current_variable_rate_bps s) state.avg_rate_bps in
    let next : StableRateState = record {
      avg_rate_bps = smoothed state.avg_rate_bps current;
      last_update = s.timestamp;
    } in
    if is_due s.timestamp state.last_update (get_stable_rate_recalc_interval_secs s)
    then (do update_borrow (λ b. record b { stable_rate_state = some next }); pure next) s
    else (ok state, s)

unfoldable pub get_current_stable_rate_bps : Call BorrowError ℤ
get_current_stable_rate_bps = do
  state ← update_stable_rate_state_if_needed
  premium ← gets get_stable_rate_premium_bps
  ok_or (checked_add state.avg_rate_bps premium) overflow

-- `amount * rate * time / 10000 / SECONDS_PER_YEAR`
unfoldable pub simple_interest : ℤ → ℤ → ℕ → Option ℤ
simple_interest amount rate_bps time = elim (i256_mul amount rate_bps) [
  | none ↦ none
  | some yearly ↦ elim (i256_mul yearly (pos time)) [
    | none ↦ none
    | some scaled ↦ elim (i256_div scaled (pos 10000)) [
      | none ↦ none
      | some whole ↦ i256_div whole seconds_per_year
    ]
  ]
]

-- How far a price is below its target, in basis points.
unfoldable pub deviation_bps : StablecoinConfig → ℤ → ℤ
deviation_bps config price =
    if ltb_ℤ (pos 0) config.target_price
    then saturating_div (saturating_mul (saturating_sub config.target_price price) (pos 10000))
        config.target_price
    else pos 0

-- The fee on a depegged stablecoin, added to the interest.
unfoldable pub add_stability_fee :
    StablecoinConfig → Address → DebtPosition → ℕ → ℤ → Call BorrowError ℤ
add_stability_fee config oracle position time interest = do
  price ← invoke_price oracle position.asset
  if ltb_ℤ config.peg_threshold_bps (deviation_bps config price)
      then (do
        fee ← or_trap (simple_interest position.borrowed_amount config.stability_fee_bps time)
        total ← or_trap (i256_add interest fee)
        emit (λ s.
            peg_deviation position.asset price config.target_price (deviation_bps config price)
              s.timestamp)
        emit (λ s. stability_fee_applied position.asset config.stability_fee_bps s.timestamp)
        pure total)
      else pure interest

-- `if let Some(config) = … { if let Some(oracle) = … { … } }`
abbrev pub stability_fee :
    Option StablecoinConfig → Option Address → DebtPosition → ℕ → ℤ → Call BorrowError ℤ
stability_fee none oracle position time interest = pure interest
stability_fee (some config) none position time interest = pure interest
stability_fee (some config) (some oracle) position time interest =
    add_stability_fee config oracle position time interest

unfoldable pub position_rate_bps : DebtPosition → RateType → Call BorrowError ℤ
position_rate_bps position variable = λ s. (get_current_variable_rate_bps s, s)
position_rate_bps position stable =
    if ltb_ℤ (pos 0) position.stable_rate_bps
    then pure position.stable_rate_bps
    else get_current_stable_rate_bps

-- The interest at a rate for a time, with the fee.
unfoldable pub interest_at : DebtPosition → ℕ → ℤ → Call BorrowError ℤ
interest_at position time_elapsed rate_bps = do
  interest ← or_trap (simple_interest position.borrowed_amount rate_bps time_elapsed)
  config ← gets (λ s. get_stablecoin_config s position.asset)
  oracle ← gets get_oracle
  total ← stability_fee config oracle position time_elapsed interest
  ok_or (to_i128 total) overflow

unfoldable pub calculate_interest : DebtPosition → Call BorrowError ℤ
calculate_interest position = if eqb_ℤ position.borrowed_amount (pos 0) then pure (pos 0) else (do
  now ← gets (λ s. s.timestamp)
  rate_bps ← position_rate_bps position position.rate_type
  interest_at position (now - position.last_update) rate_bps)
