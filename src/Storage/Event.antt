-- ===== src/Storage/Event.antt =====
-- The events of the lending contract (lending/src/events.rs, lending/src/pause.rs).
use stellarlend.Prelude.{ℕ, Bool}
use stellarlend.Prelude.Int.{ℤ}
use stellarlend.Storage.Borrow.{Address, InterestRateConfig}
use stellarlend.Storage.Pause.{PauseType, EmergencyState}

-- A constructor takes the fields of the event's struct in order; the last number of most is the
-- timestamp.
pub data Event : Type 0 where
  pause_event : PauseType → Bool → Address → Event
  guardian_set : Address → Address → Event
  emergency_state_event : EmergencyState → EmergencyState → Address → Event
  borrow_event : Address → Address → ℤ → ℤ → ℕ → Event
  borrow_collateral_deposit : Address → Address → ℤ → ℕ → Event
  repay_event : Address → Address → ℤ → ℕ → Event
  vault_deposit : Address → Address → ℤ → ℤ → ℕ → Event
  withdraw_event : Address → Address → ℤ → ℤ → ℕ → Event
  flash_loan_event : Address → Address → ℤ → ℤ → ℕ → Event
  peg_deviation : Address → ℤ → ℤ → ℤ → ℕ → Event
  stability_fee_applied : Address → ℤ → ℕ → Event
  interest_rate_model_updated : Address → InterestRateConfig → InterestRateConfig → ℕ → Event
  risk_utilization_alert : ℕ → ℕ → ℤ → ℤ → ℕ → Event
  borrow_commitment_created : ℕ → Address → Address → ℤ → ℕ → Event
  borrow_commitment_cancelled : ℕ → Address → Event
  borrow_commitment_executed : ℕ → Address → ℤ → ℤ → Event
  bad_debt : Address → ℤ → Event
  bad_debt_recovered : ℤ → Event
