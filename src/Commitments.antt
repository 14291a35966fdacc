-- ===== src/Commitments.antt =====
-- Scheduled borrows that anyone may execute once their oracle triggers are met
-- (stellar-lend/contracts/lending/src/commitments.rs).
pub mod Status
pub mod Life
pub mod Execute
use stellarlend.Prelude.{
  ℕ, ◌+◌, ◌^◌, ◌-◌, Bool, true, false, Option, none, some, List, [], ◌∷◌, ◌||◌, not, ◌==◌, ltb, leb,
  unwrap_or, if◌then◌else◌, ⊤,
}
use stellarlend.Prelude.Int.{ℤ, pos, leb_ℤ, ltb_ℤ, eqb_ℤ, min_ℤ}
use stellarlend.Prelude.I128.{saturating_sub, saturating_mul, saturating_div}
use stellarlend.Prelude.Dict.{lookup, insert}
use stellarlend.Storage.Borrow.{Address}
use stellarlend.Storage.Commitment.{
  TriggerCombiner, any, all, PriceTrigger, CommitmentStatus, pending, executed, cancelled, expired,
  BorrowCommitment, CommitmentStore,
}
use stellarlend.Storage.Event.{
  borrow_commitment_created, borrow_commitment_cancelled, borrow_commitment_executed,
}
use stellarlend.Host.{
  Env, Call, ◌>>=◌, ◌>>◌, gets, ok_or, or_trap, reject_if, raise, pure, modify, emit, require_auth,
  map_err, invoke_price,
}
use stellarlend.Settings.{get_oracle, get_total_debt, get_debt_ceiling, get_min_borrow_amount}
use stellarlend.Debt.Borrow.{validate_collateral_ratio, borrow_from_commitment}

pub data CommitmentError : Type 0 where
  not_found unauthorized bad_config expired_error not_executable : CommitmentError
  oracle_not_configured trigger_not_met below_min_partial_fill : CommitmentError
  borrow_failed too_many_triggers : CommitmentError

abbrev pub max_triggers : ℕ
max_triggers = 4

-- A write to the commitment store.
abbrev pub update_commitments : {E : Type 0} → (CommitmentStore → CommitmentStore) → Call E ⊤
update_commitments f = modify λ s. record s { commitments = f s.commitments }

abbrev pub save_commitment : {E : Type 0} → ℕ → BorrowCommitment → Call E ⊤
save_commitment id c = update_commitments λ b. record b { commitment = insert id c b.commitment }

abbrev pub get_borrow_commitment : Env → ℕ → Option BorrowCommitment
get_borrow_commitment s id = lookup id s.commitments.commitment

abbrev pub is_pending : CommitmentStatus → Bool
is_pending pending = true
is_pending executed = false
is_pending cancelled = false
is_pending expired = false

unfoldable pub read_price : Address → Call CommitmentError ℤ
read_price asset = do
  oracle ← ok_or (← gets get_oracle) oracle_not_configured
  invoke_price oracle asset

-- Does a price fire a trigger?
abbrev pub fires : PriceTrigger → ℤ → Bool
fires t price =
    if t.fire_when_at_or_above then leb_ℤ t.trigger_price price else leb_ℤ price t.trigger_price

unfoldable pub trigger_met : PriceTrigger → Call CommitmentError Bool
unfolding read_price
trigger_met t = do price ← read_price t.asset; pure (fires t price)

-- The two loops of `triggers_satisfied`, which stop at the first trigger that decides.
unfoldable pub any_met : List PriceTrigger → Call CommitmentError Bool
any_met [] = pure false
any_met (t ∷ rest) = do
  let others = any_met rest
  met ← trigger_met t
  if met then pure true else others

unfoldable pub all_met : List PriceTrigger → Call CommitmentError Bool
all_met [] = pure true
all_met (t ∷ rest) = do
  let others = all_met rest
  met ← trigger_met t
  if not met then pure false else others

unfoldable pub triggers_satisfied : List PriceTrigger → TriggerCombiner → Call CommitmentError Bool
triggers_satisfied [] combiner = raise bad_config
triggers_satisfied (t ∷ rest) any = any_met (t ∷ rest)
triggers_satisfied (t ∷ rest) all = all_met (t ∷ rest)

-- `triggers.len()`
unfoldable pub length : {A : Type 0} → List A → ℕ
length [] = 0
length (_ ∷ rest) = length rest + 1

-- `id + 1` on u64
abbrev pub next_u64 : ℕ → Option ℕ
next_u64 id = if ltb (id + 1) (2 ^ 64) then some (id + 1) else none

-- The validation of a new commitment; the status is pending.
unfoldable pub check_commitment : BorrowCommitment → Call CommitmentError ⊤
check_commitment c = do
  reject_if (length c.triggers == 0) bad_config
  reject_if (ltb max_triggers (length c.triggers)) too_many_triggers
  reject_if
      (leb_ℤ c.borrow_amount (pos 0)
        || leb_ℤ c.collateral_amount (pos 0)
        || c.min_fill_bps == 0
        || ltb 10000 c.min_fill_bps)
      bad_config
  map_err (λ _. bad_config) (validate_collateral_ratio c.collateral_amount c.borrow_amount)
  now ← gets (λ s. s.timestamp)
  reject_if (leb c.expiry_timestamp now) bad_config

abbrev pub get_next_id : Env → ℕ
get_next_id s = unwrap_or s.commitments.next_id 0

-- The writes of a new commitment.
unfoldable pub add_commitment : BorrowCommitment → Call CommitmentError ℕ
add_commitment c = do
  id ← gets get_next_id
  save_commitment id (record c { status = pending })
  next ← or_trap (next_u64 id)
  update_commitments (λ b. record b { next_id = some next })
  emit (λ _. borrow_commitment_created id c.owner c.borrow_asset c.borrow_amount c.expiry_timestamp)
  pure id

unfoldable pub create_borrow_commitment : BorrowCommitment → Call CommitmentError ℕ
create_borrow_commitment c = do require_auth c.owner; check_commitment c; add_commitment c

-- The commitment that was found is cancelled by its owner.
unfoldable pub cancel_found : Address → ℕ → BorrowCommitment → Call CommitmentError ⊤
cancel_found owner commitment_id c = do
  reject_if (not (c.owner == owner)) unauthorized
  reject_if (not (is_pending c.status)) not_executable
  save_commitment commitment_id (record c { status = cancelled })
  emit (λ _. borrow_commitment_cancelled commitment_id owner)

unfoldable pub cancel_borrow_commitment : Address → ℕ → Call CommitmentError ⊤
cancel_borrow_commitment owner commitment_id = do
  require_auth owner
  c ← ok_or (← gets (λ s. get_borrow_commitment s commitment_id)) not_found
  cancel_found owner commitment_id c

-- An expired commitment is marked, and the call fails.
unfoldable pub check_expiry : ℕ → BorrowCommitment → Call CommitmentError ⊤
check_expiry commitment_id c s =
    if ltb c.expiry_timestamp s.timestamp
    then (do save_commitment commitment_id (record c { status = expired }); raise expired_error) s
    else pure tt s

-- How much of the borrow fits under the ceiling, if that is enough.
unfoldable pub fill_amount_of : BorrowCommitment → Call CommitmentError ℤ
fill_amount_of c = do
  total_debt ← gets get_total_debt
  debt_ceiling ← gets get_debt_ceiling
  let fill_amount = min_ℤ c.borrow_amount (saturating_sub debt_ceiling total_debt)
  reject_if
      (ltb_ℤ fill_amount
        (saturating_div (saturating_mul c.borrow_amount (pos c.min_fill_bps)) (pos 10000)))
      below_min_partial_fill
  min_borrow ← gets get_min_borrow_amount
  reject_if (ltb_ℤ fill_amount min_borrow) borrow_failed
  pure fill_amount

-- The same share of the collateral. Dividing by zero traps.
unfoldable pub collateral_fill_of : BorrowCommitment → ℤ → Call CommitmentError ℤ
collateral_fill_of c fill_amount = do
  collateral_fill ← or_trap (
      if eqb_ℤ c.borrow_amount (pos 0)
      then none
      else some (saturating_div (saturating_mul c.collateral_amount fill_amount) c.borrow_amount))
  reject_if (leb_ℤ collateral_fill (pos 0)) bad_config
  map_err (λ _. borrow_failed) (validate_collateral_ratio collateral_fill fill_amount)
  pure collateral_fill

-- The writes at the end.
unfoldable pub mark_executed : ℕ → BorrowCommitment → ℤ → ℤ → Call CommitmentError ⊤
mark_executed commitment_id c fill_amount collateral_fill = do
  save_commitment commitment_id (record c { status = executed })
  emit (λ _. borrow_commitment_executed commitment_id c.owner fill_amount collateral_fill)

-- The borrow, and the writes.
unfoldable pub fill : ℕ → BorrowCommitment → ℤ → ℤ → Call CommitmentError ⊤
fill commitment_id c fill_amount collateral_fill = do
  map_err (λ _. borrow_failed)
      (borrow_from_commitment c.owner c.borrow_asset fill_amount c.collateral_asset collateral_fill)
  mark_executed commitment_id c fill_amount collateral_fill

-- The checks after the triggers, and the borrow.
unfoldable pub execute_triggered : ℕ → BorrowCommitment → Call CommitmentError ⊤
execute_triggered commitment_id c = do
  fill_amount ← fill_amount_of c
  collateral_fill ← collateral_fill_of c fill_amount
  fill commitment_id c fill_amount collateral_fill

-- The commitment that was found is executed.
unfoldable pub execute_found : ℕ → BorrowCommitment → Call CommitmentError ⊤
execute_found commitment_id c = do
  reject_if (not (is_pending c.status)) not_executable
  check_expiry commitment_id c
  met ← triggers_satisfied c.triggers c.combiner
  reject_if (not met) trigger_not_met
  execute_triggered commitment_id c

unfoldable pub execute_borrow_commitment : ℕ → Call CommitmentError ⊤
execute_borrow_commitment commitment_id = do
  c ← ok_or (← gets (λ s. get_borrow_commitment s commitment_id)) not_found
  execute_found commitment_id c
