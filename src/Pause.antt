-- ===== src/Pause.antt =====
-- Pause flags, the guardian and the emergency state (stellar-lend/contracts/lending/src/pause.rs,
-- and the entry points `set_pause` and `set_deposit_paused` of lending/src/lib.rs).
pub mod Laws
use stellarlend.Prelude.{
  ℕ, Bool, true, false, Option, none, some, ◌==◌, not, unwrap_or, if◌then◌else◌, ⊤,
}
use stellarlend.Prelude.Dict.{lookup, insert}
use stellarlend.Storage.Borrow.{Address}
use stellarlend.Storage.Pause.{PauseType, EmergencyState, PauseStore, discriminant}
use stellarlend.Storage.Event.{pause_event, guardian_set, emergency_state_event}
use stellarlend.Host.{Env, Call, ◌>>=◌, ◌>>◌, gets, modify, emit}
use stellarlend.Settings.{BorrowError, check_admin}

-- A write to the pause store.
abbrev update_pause : {E : Type 0} → (PauseStore → PauseStore) → Call E ⊤
update_pause f = modify λ s. record s { pause = f s.pause }

-- The flag of one pause type, `false` if it was never set.
abbrev pub flag : Env → PauseType → Bool
flag s p = unwrap_or (lookup (discriminant p) s.pause.state) false

abbrev is_all : PauseType → Bool
is_all PauseType.all = true
is_all _ = false

unfoldable pub is_paused : Env → PauseType → Bool
is_paused s p = if flag s PauseType.all then true else if not (is_all p) then flag s p else false

unfoldable pub set_pause : {E : Type 0} → Address → PauseType → Bool → Call E ⊤
set_pause admin p paused = do
  update_pause λ b. record b { state = insert (discriminant p) paused b.state }
  emit λ _. pause_event p paused admin

unfoldable pub set_guardian : {E : Type 0} → Address → Address → Call E ⊤
set_guardian admin guardian = do
  update_pause λ b. record b { guardian = some guardian }
  emit λ _. guardian_set guardian admin

abbrev pub get_guardian : Env → Option Address
get_guardian s = s.pause.guardian

abbrev pub get_emergency_state : Env → EmergencyState
get_emergency_state s = unwrap_or s.pause.emergency_state EmergencyState.normal

unfoldable pub is_recovery : Env → Bool
is_recovery s = elim (get_emergency_state s) [ EmergencyState.recovery ↦ true | _ ↦ false ]

unfoldable pub blocks_high_risk_ops : Env → Bool
blocks_high_risk_ops s = elim (get_emergency_state s) [ EmergencyState.normal ↦ false | _ ↦ true ]

unfoldable pub set_emergency_state : {E : Type 0} → Address → EmergencyState → Call E ⊤
set_emergency_state caller to = do
  from ← gets get_emergency_state
  update_pause λ b. record b { emergency_state = some to }
  emit λ _. emergency_state_event from to caller

abbrev pub trigger_shutdown : {E : Type 0} → Address → Call E ⊤
trigger_shutdown caller = set_emergency_state caller EmergencyState.shutdown

abbrev pub start_recovery : {E : Type 0} → Address → Call E ⊤
start_recovery caller = set_emergency_state caller EmergencyState.recovery

abbrev pub complete_recovery : {E : Type 0} → Address → Call E ⊤
complete_recovery caller = set_emergency_state caller EmergencyState.normal

-- The entry point `set_pause`: only the admin.
unfoldable pub admin_set_pause : Address → PauseType → Bool → Call BorrowError ⊤
unfolding check_admin set_pause
admin_set_pause admin p paused = do check_admin admin; set_pause admin p paused

-- The deprecated entry point writes the deposit flag for anyone.
unfoldable pub set_deposit_paused : {E : Type 0} → Bool → Call E ⊤
set_deposit_paused paused =
    update_pause λ b. record b { state = insert (discriminant PauseType.deposit) paused b.state }
