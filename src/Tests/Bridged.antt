-- ===== src/Tests/Bridged.antt =====
-- A bridge with three validators and some messages, runs on it, and instances of the theorems.
use stellarlend.Prelude.I128.{
  saturating_mul, checked_div, checked_add, saturating_div, checked_sub, saturating_sub,
  checked_mul, saturating_add,
}
use stellarlend.Bridge.Slash.{
  slash_if, slash_validator, slashed_record, slash_conflicting_messages, slash_found,
  invalidate_both, slash_all,
}
use stellarlend.Bridge.Transfer.{bridge_deposit, compute_fee, bridge_withdraw}
use stellarlend.Bridge.Admin.{
  register_validator, set_bridge_fee, register_bridge, init, set_validator_active, transfer_admin,
  set_bridge_security_config, close_channel_emergency, set_bridge_acceptance_paused,
  set_bridge_active, reopen_channel,
}
use stellarlend.Bridge.Access.{
  require_admin, next_message_id, message_payload_matches, close_by_anomaly, slash_amount,
  record_channel_anomaly, validate_id, validate_security_config,
}
use stellarlend.Prelude.{◌≡◌, ◌≤◌, ◌*◌, refl, true, false, none, some, [], ◌∷◌, arith, inl}
use stellarlend.Prelude.Int.{pos, pos_part, ◌≤ℤ◌, ◌+ℤ◌, ◌-ℤ◌, div, ◌*ℤ◌}
use stellarlend.Prelude.Dict.{lookup, sum_by, insert}
use stellarlend.Prelude.Table.{find, count_by, string_key, pair_key, nat_key, erase, put}
use stellarlend.Host.{invoke}
use stellarlend.Host.Result.{ok, err}
use stellarlend.Host.Laws.{OkOrSame}
use stellarlend.Bridge.State.{
  BridgeConfig, BridgeEnv, CrossChainMessage, CrossChainMessageInput, ValidatorRecord,
  message_already_executed, invalid_message_version,
}
use stellarlend.Bridge.Consistent.{IsConsistent, approvals_in}
use stellarlend.Bridge.Consistent.Payments.{Executed}
use stellarlend.Bridge.Life.{run_operation, attest, execute, invoked, elapsed, done}
use stellarlend.Bridge.Stakes.Guilty.{Slashing, slash_conflicting_messages-OkOrSame}
use stellarlend.Bridge.Fees.{HasCappedFees, Deposited, bridge_deposit-OkOrSame}
use stellarlend.Bridge.Safety.{
  closed_never_paid, no_replay, SameCounts, submit_counts_nothing,
  execute_verified_withdrawal-OkOrSame,
}
use stellarlend.Bridge.Message.{
  execute_verified_withdrawal, record_vote, check_input, reject_with_anomaly, reject_rejected,
  check_final, submit_cross_chain_message, attest_cross_chain_message, store_message,
  check_ordering, count_vote, open_channel, reject_replay, pay_message,
}

abbrev eth : BridgeConfig
eth = record {
  bridge_id = "eth";
  fee_bps = 50;
  min_amount = pos 10;
  active = true;
  total_deposited = pos 5000;
  total_withdrawn = pos 200;
}

-- A message that two validators have approved.
abbrev approved_message : CrossChainMessage
approved_message = record {
  message_id = 1;
  bridge_id = "eth";
  channel_id = "main";
  source_chain = "ethereum";
  source_tx_id = "0xaa";
  source_height = 100;
  nonce = 7;
  recipient = 77;
  amount = pos 400;
  payload_version = 1;
  submitted_at_ledger = 3;
  finality_ledger = 6;
  approvals = 2;
  rejections = 0;
  executed = false;
  invalidated = false;
}

-- The same transaction, told with another amount, that the same validators have approved.
abbrev conflicting_message : CrossChainMessage
conflicting_message = record approved_message { message_id = 2; nonce = 8; amount = pos 900 }

abbrev fresh_validator : ValidatorRecord
fresh_validator = record { stake = pos 1000; active = true; slashed_total = pos 0; approvals = 2 }

abbrev bridged : BridgeEnv
bridged = record {
  sequence = 10;
  signed = λ _. true;
  admin = some 9;
  bridge = ("eth", eth) ∷ [];
  bridge_list = some ("eth" ∷ []);
  bridge_acceptance_paused = none;
  security_config = none;
  validator = (1, fresh_validator) ∷ (2, fresh_validator) ∷ (3, fresh_validator) ∷ [];
  validator_list = some (1 ∷ 2 ∷ 3 ∷ []);
  channel = [];
  message = (1, approved_message) ∷ (2, conflicting_message) ∷ [];
  message_source = [];
  message_attestation = ((1, 1), true) ∷ ((1, 2), true) ∷ ((2, 1), true) ∷ ((2, 2), true) ∷ [];
  next_message_id = some 2;
  stats = none;
  events = [];
}

bridged-IsConsistent : IsConsistent bridged
unfolding lookup approvals_in count_by
bridged-IsConsistent = record { counted = λ id m h. ground arith; fresh = λ id l. ground arith }

execute_verified_withdrawal-OkOrSame_example :
    OkOrSame bridged
      (λ _ t. (m : CrossChainMessage) × Executed 1 m bridged t)
      (invoke (execute_verified_withdrawal 5 1) bridged)
execute_verified_withdrawal-OkOrSame_example =
    execute_verified_withdrawal-OkOrSame 5 1 bridged bridged-IsConsistent

-- The state after the message was paid.
abbrev paid_message : CrossChainMessage
paid_message = record approved_message { executed = true }

abbrev paid : BridgeEnv
paid = record bridged { message = (1, paid_message) ∷ (2, conflicting_message) ∷ [] }

paid-IsConsistent : IsConsistent paid
unfolding lookup approvals_in count_by
paid-IsConsistent = record { counted = λ id m h. ground arith; fresh = λ id l. ground arith }

-- Another vote is cast, and some ledgers close.
abbrev voted : BridgeEnv
voted = run_operation (attest 3 2 true) paid

abbrev much_later : BridgeEnv
much_later = record voted { sequence = 99; signed = λ _. true }

closed_never_paid_example :
    OkOrSame much_later (λ _ _. ⊥) (invoke (execute_verified_withdrawal 5 1) much_later)
unfolding lookup
closed_never_paid_example =
    closed_never_paid paid much_later 5 1 paid_message
      (invoked (attest 3 2 true) (elapsed 99 (λ _. true) done)) paid-IsConsistent (omega arith) refl
      (inl refl)

abbrev third_input : CrossChainMessageInput
third_input = record {
  bridge_id = "eth";
  channel_id = "main";
  source_chain = "ethereum";
  source_tx_id = "0xbb";
  source_height = 120;
  nonce = 9;
  recipient = 78;
  amount = pos 30;
  payload_version = 1;
}

abbrev submitted : BridgeEnv
submitted = (submit_cross_chain_message 4 third_input bridged).1

abbrev again : CrossChainMessageInput
again = record third_input { recipient = 66; amount = pos 31 }

no_replay_example :
    OkOrSame
      (run_operation (execute 5 1) submitted)
      (λ _ _. ⊥)
      (invoke (submit_cross_chain_message 6 again) (run_operation (execute 5 1) submitted))
unfolding submit_cross_chain_message check_input validate_id open_channel reject_with_anomaly
    reject_replay check_ordering store_message next_message_id find lookup
no_replay_example =
    no_replay bridged submitted (run_operation (execute 5 1) submitted) 4 6 third_input again 3
      (invoked (execute 5 1) done) bridged-IsConsistent (omega arith) refl (omega arith) refl

submit_counts_nothing_example :
    SameCounts bridged
      (invoke (submit_cross_chain_message 4 (record again { payload_version = 2 })) bridged).1
submit_counts_nothing_example =
    submit_counts_nothing 4 (record again { payload_version = 2 }) bridged

slash_conflicting_messages-OkOrSame_example :
    OkOrSame bridged
      (λ l t. Slashing 1 2 l bridged t)
      (invoke (slash_conflicting_messages 5 1 2) bridged)
slash_conflicting_messages-OkOrSame_example =
    slash_conflicting_messages-OkOrSame 5 1 2 bridged (omega arith)

bridged-HasCappedFees : HasCappedFees bridged
unfolding find
bridged-HasCappedFees id b h = ground arith

bridge_deposit-OkOrSame_example :
    OkOrSame bridged
      (λ net t.
        Deposited "eth" (pos 900) net bridged t
        × (net ≤ℤ pos 900)
        × (9 * pos_part (pos 900) ≤ 10 * pos_part net))
      (invoke (bridge_deposit 5 "eth" (pos 900)) bridged)
bridge_deposit-OkOrSame_example =
    bridge_deposit-OkOrSame 5 "eth" (pos 900) bridged (omega arith) bridged-HasCappedFees

-- The message is paid, both validators are slashed by a quarter, and a deposit pays its fee.
bridge_runs :
    ((invoke (execute_verified_withdrawal 5 1) bridged).0 ≡ ok tt)
    × ((invoke (execute_verified_withdrawal 5 1) paid).0 ≡ err message_already_executed)
    × ((invoke (slash_conflicting_messages 5 1 2) bridged).0 ≡ ok (1 ∷ 2 ∷ []))
    × (lookup 2 (invoke (slash_conflicting_messages 5 1 2) bridged).1.validator
        ≡ some (record fresh_validator { stake = pos 750; slashed_total = pos 250 }))
    × ((invoke (bridge_deposit 5 "eth" (pos 900)) bridged).0 ≡ ok (pos 896))
    × ((invoke (submit_cross_chain_message 4 (record again { payload_version = 2 })) bridged).0
        ≡ err invalid_message_version)
unfolding require_admin validate_security_config validate_id close_by_anomaly record_channel_anomaly
    next_message_id message_payload_matches slash_amount init register_bridge set_bridge_fee
    set_bridge_active set_bridge_acceptance_paused set_bridge_security_config register_validator
    set_validator_active close_channel_emergency reopen_channel transfer_admin compute_fee
    bridge_deposit bridge_withdraw reject_with_anomaly reject_replay store_message check_ordering
    check_input open_channel submit_cross_chain_message count_vote record_vote
    attest_cross_chain_message reject_rejected check_final pay_message execute_verified_withdrawal
    slashed_record slash_validator slash_if slash_all invalidate_both slash_found
    slash_conflicting_messages find put erase count_by lookup insert sum_by checked_add checked_sub
    checked_mul checked_div saturating_add saturating_sub saturating_mul saturating_div ◌+ℤ◌ ◌-ℤ◌
    ◌*ℤ◌ div invoke
bridge_runs = (refl, refl, refl, refl, refl, refl)
