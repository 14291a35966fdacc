-- ===== src/Storage/Pause.antt =====
-- Pause flags and the emergency state (lending/src/pause.rs).
use stellarlend.Prelude.{ℕ, Bool, Option}
use stellarlend.Prelude.Dict.{Dict}

pub data PauseType : Type 0 where
  all deposit borrow repay withdraw liquidation flash_loan bridge_acceptance : PauseType

-- The `repr(u32)` of a pause type, by which the flags are keyed.
abbrev pub discriminant : PauseType → ℕ
discriminant PauseType.all = 0
discriminant PauseType.deposit = 1
discriminant PauseType.borrow = 2
discriminant PauseType.repay = 3
discriminant PauseType.withdraw = 4
discriminant PauseType.liquidation = 5
discriminant PauseType.flash_loan = 6
discriminant PauseType.bridge_acceptance = 7

pub data EmergencyState : Type 0 where
  normal shutdown recovery : EmergencyState

pub record PauseStore : Type 0 where
  pub state : Dict Bool
  pub guardian : Option ℕ
  pub emergency_state : Option EmergencyState
