-- ===== src/Tests/Upgrades.antt =====
-- An upgrade manager with three approvers, runs on it, and instances of the theorems.
use stellarlend.Prelude.{◌≡◌, refl, true, none, some, [], ◌∷◌, arith}
use stellarlend.Prelude.Dict.{lookup, insert, sum_by}
use stellarlend.Host.{invoke}
use stellarlend.Host.Result.{ok, err}
use stellarlend.Host.Laws.{OkOrSame}
use stellarlend.Upgrade.State.{
  approved, rolled_back, UpgradeProposal, UpgradeEnv, contains, invalid_threshold, already_approved,
  assert_approver, remove_first, current_wasm_hash, assert_admin, is_approver, current_version,
  required_approvals,
}
use stellarlend.Upgrade.Manager.{
  drop_approver, approve_found, push_approver, remove_approver, add_approver, upgrade_rollback,
  upgrade_status, execute_found, upgrade_approve, upgrade_execute, upgrade_propose, init,
  rollback_found,
}
use stellarlend.Upgrade.Approvals.{IsSound, IsCounted, Moves, stage_at}
use stellarlend.Upgrade.Rollback.{Executed, upgrade_execute-OkOrSame, rollback-execute}
use stellarlend.Upgrade.Life.{run_operation, approve, run_operation-Moves}

abbrev second : UpgradeProposal
second = record {
  id = 1;
  proposer = 9;
  new_wasm_hash = 222;
  new_version = 2;
  approvals = 9 ∷ 3 ∷ [];
  stage = approved;
  prev_wasm_hash = none;
  prev_version = none;
}

abbrev managed : UpgradeEnv
managed = record {
  signed = λ _. true;
  admin = some 9;
  approvers = some (9 ∷ 3 ∷ 4 ∷ []);
  required_approvals = some 2;
  next_proposal_id = some 2;
  current_wasm_hash = some 111;
  current_version = some 1;
  proposal = (1, second) ∷ [];
  events = [];
}

second-IsCounted : IsCounted 2 second
unfolding contains
second-IsCounted = record {
  distinct = (refl, (refl, tt));
  waiting = λ e. absurd (ground (arith, e));
  enough = λ _. omega arith;
}

managed-IsSound : IsSound managed
unfolding lookup
managed-IsSound = record {
  counted = λ id p h. ground (arith, second-IsCounted);
  fresh = λ id l. ground arith;
  empty = λ n. absurd (ground (arith, n));
}

upgrade_execute-OkOrSame_example :
    OkOrSame managed
      (λ _ t. (p : UpgradeProposal) × Executed 3 1 p managed t)
      (invoke (upgrade_execute 3 1) managed)
upgrade_execute-OkOrSame_example = upgrade_execute-OkOrSame 3 1 managed managed-IsSound

run_operation-Moves_example : Moves managed (run_operation (approve 4 1) managed)
run_operation-Moves_example = run_operation-Moves (approve 4 1) managed managed-IsSound

abbrev upgraded : UpgradeEnv
upgraded = (upgrade_execute 3 1 managed).1

rollback-execute_example :
    (u : UpgradeEnv) × (upgrade_rollback 9 1 upgraded ≡ (ok tt, u))
    × (u.current_wasm_hash ≡ some 111)
    × (u.current_version ≡ some 1)
    × (stage_at u 1 ≡ some rolled_back)
unfolding contains remove_first assert_admin assert_approver required_approvals current_version
    current_wasm_hash is_approver init push_approver add_approver drop_approver remove_approver
    upgrade_propose approve_found upgrade_approve execute_found upgrade_execute rollback_found
    upgrade_rollback upgrade_status lookup insert sum_by
rollback-execute_example = rollback-execute 3 9 1 managed upgraded managed-IsSound refl refl refl

-- An approval by a third address, one that is repeated, and a removal below the threshold.
upgrade_runs :
    ((invoke (upgrade_approve 4 1) managed).0 ≡ ok 3)
    × ((invoke (upgrade_approve 3 1) managed).0 ≡ err already_approved)
    × ((invoke (remove_approver 9 4) managed).0 ≡ ok tt)
    × ((invoke (remove_approver 9 4) (record managed { required_approvals = some 3 })).0
        ≡ err invalid_threshold)
    × ((invoke (upgrade_execute 3 1) managed).1.current_wasm_hash ≡ some 222)
unfolding contains remove_first assert_admin assert_approver required_approvals current_version
    current_wasm_hash is_approver init push_approver add_approver drop_approver remove_approver
    upgrade_propose approve_found upgrade_approve execute_found upgrade_execute rollback_found
    upgrade_rollback upgrade_status lookup insert sum_by invoke
upgrade_runs = (refl, refl, refl, refl, refl)
