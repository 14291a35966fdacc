-- ===== src/Upgrade/Manager.antt =====
-- The operations of the upgrade manager (common/src/upgrade.rs).
use stellarlend.Prelude.{
  ℕ, ◌+◌, Bool, true, false, not, none, some, List, [], ◌∷◌, ◌++◌, ltb, leb, ◌==◌, unwrap_or,
  is_some, if◌then◌else◌, ⊤,
}
use stellarlend.Storage.Borrow.{Address}
use stellarlend.Host.{◌>>=◌, ◌>>◌, gets, ok_or, reject_if, pure, modify}
use stellarlend.Host.Result.{ok, trap}
use stellarlend.Upgrade.State.{
  UpgradeCall, publish, require_auth, contains, length, remove_first, approvers, assert_initialized,
  assert_admin, assert_approver, required_approvals, current_version, current_wasm_hash,
  load_proposal, save_proposal, UpgradeStage, UpgradeProposal, UpgradeStatus, already_initialized,
  not_initialized, not_authorized, invalid_version, invalid_status, already_approved,
  not_enough_approvals, invalid_threshold, proposed, approved, executed, rolled_back, initialized,
  approver_added, approver_removed, upgrade_proposed, approval_recorded, upgrade_executed,
  upgrade_rolled_back,
}

unfoldable pub init : Address → ℕ → ℕ → UpgradeCall ⊤
init admin wasm_hash required = do
  require_auth admin
  taken ← gets (λ s. is_some s.admin)
  reject_if taken already_initialized
  reject_if (required == 0) invalid_threshold
  modify λ s. record s { admin = some admin }
  modify λ s. record s { approvers = some (admin ∷ []) }
  modify λ s. record s { required_approvals = some required }
  modify λ s. record s { next_proposal_id = some 1 }
  modify λ s. record s { current_wasm_hash = some wasm_hash }
  modify λ s. record s { current_version = some 0 }
  publish (initialized admin required)

-- `if !approvers.contains(&approver) { push, set }`
unfoldable pub push_approver : Bool → Address → List Address → UpgradeCall ⊤
push_approver true approver list = pure tt
push_approver false approver list =
    modify λ s. record s { approvers = some (list ++ approver ∷ []) }

unfoldable pub add_approver : Address → Address → UpgradeCall ⊤
unfolding assert_admin push_approver
add_approver caller approver = do
  require_auth caller
  assert_initialized
  assert_admin caller
  list ← gets approvers
  push_approver (contains approver list) approver list
  publish (approver_added caller approver)

-- The removal of an approver that is in the list.
unfoldable pub drop_approver : Bool → Address → Address → ℕ → List Address → UpgradeCall ⊤
drop_approver false caller approver required list = pure tt
drop_approver true caller approver required list = do
  let rest = remove_first approver list
  reject_if (ltb (length rest) required) invalid_threshold
  modify λ s. record s { approvers = some rest }
  publish (approver_removed caller approver)

unfoldable pub remove_approver : Address → Address → UpgradeCall ⊤
unfolding assert_admin required_approvals drop_approver
remove_approver caller approver = do
  require_auth caller
  assert_initialized
  assert_admin caller
  admin ← λ s. ok_or s.admin not_initialized s
  reject_if (approver == admin) not_authorized
  required ← required_approvals
  list ← gets approvers
  drop_approver (contains approver list) caller approver required list

-- The stage of a proposal with so many approvals.
abbrev pub stage_of : ℕ → ℕ → UpgradeStage → UpgradeStage
stage_of count required other = if leb required count then approved else other

-- `id + 1` on u64, which traps at the end of the range.
abbrev pub next_id : ℕ → UpgradeCall ℕ
next_id id s = (if ltb id 0xffffffffffffffff then ok (id + 1) else trap, s)

unfoldable pub upgrade_propose : Address → ℕ → ℕ → UpgradeCall ℕ
unfolding assert_admin current_version required_approvals
upgrade_propose caller new_wasm_hash new_version = do
  require_auth caller
  assert_initialized
  assert_admin caller
  version ← current_version
  reject_if (leb new_version version) invalid_version
  required ← required_approvals
  id ← gets (λ s. unwrap_or s.next_proposal_id 1)
  save_proposal id (record {
    id = id;
    proposer = caller;
    new_wasm_hash = new_wasm_hash;
    new_version = new_version;
    approvals = caller ∷ [];
    stage = stage_of 1 required proposed;
    prev_wasm_hash = none;
    prev_version = none;
  })
  next ← next_id id
  modify λ s. record s { next_proposal_id = some next }
  publish (upgrade_proposed caller id new_version)
  pure id

abbrev pub is_open : UpgradeStage → Bool
is_open proposed = true
is_open approved = true
is_open executed = false
is_open rolled_back = false

abbrev pub is_executed : UpgradeStage → Bool
is_executed proposed = false
is_executed approved = false
is_executed executed = true
is_executed rolled_back = false

-- The approval of a proposal that is there.
unfoldable pub approve_found : Address → ℕ → UpgradeProposal → UpgradeCall ℕ
unfolding required_approvals
approve_found caller proposal_id p = do
  reject_if (not (is_open p.stage)) invalid_status
  reject_if (contains caller p.approvals) already_approved
  let approvals = p.approvals ++ caller ∷ []
  required ← required_approvals
  save_proposal proposal_id
      (record p { approvals = approvals; stage = stage_of (length approvals) required p.stage })
  publish (approval_recorded caller proposal_id (length approvals))
  pure (length approvals)

unfoldable pub upgrade_approve : Address → ℕ → UpgradeCall ℕ
unfolding assert_approver
upgrade_approve caller proposal_id = do
  require_auth caller
  assert_initialized
  assert_approver caller
  p ← load_proposal proposal_id
  approve_found caller proposal_id p

-- The execution of a proposal that is there.
unfoldable pub execute_found : Address → ℕ → UpgradeProposal → UpgradeCall ⊤
unfolding required_approvals current_wasm_hash current_version
execute_found caller proposal_id p = do
  reject_if (not (is_open p.stage)) invalid_status
  required ← required_approvals
  reject_if (ltb (length p.approvals) required) not_enough_approvals
  hash ← current_wasm_hash
  version ← current_version
  modify λ s. record s { current_wasm_hash = some p.new_wasm_hash }
  modify λ s. record s { current_version = some p.new_version }
  save_proposal proposal_id
      (record p { prev_wasm_hash = some hash; prev_version = some version; stage = executed })
  publish (upgrade_executed caller proposal_id p.new_version)

unfoldable pub upgrade_execute : Address → ℕ → UpgradeCall ⊤
unfolding assert_approver
upgrade_execute caller proposal_id = do
  require_auth caller
  assert_initialized
  assert_approver caller
  p ← load_proposal proposal_id
  execute_found caller proposal_id p

-- The rollback of a proposal that is there.
unfoldable pub rollback_found : Address → ℕ → UpgradeProposal → UpgradeCall ⊤
rollback_found caller proposal_id p = do
  reject_if (not (is_executed p.stage)) invalid_status
  hash ← ok_or p.prev_wasm_hash invalid_status
  version ← ok_or p.prev_version invalid_status
  modify λ s. record s { current_wasm_hash = some hash }
  modify λ s. record s { current_version = some version }
  save_proposal proposal_id (record p { stage = rolled_back })
  publish (upgrade_rolled_back caller proposal_id version)

unfoldable pub upgrade_rollback : Address → ℕ → UpgradeCall ⊤
unfolding assert_admin
upgrade_rollback caller proposal_id = do
  require_auth caller
  assert_initialized
  assert_admin caller
  p ← load_proposal proposal_id
  rollback_found caller proposal_id p

unfoldable pub upgrade_status : ℕ → UpgradeCall UpgradeStatus
unfolding required_approvals
upgrade_status proposal_id = do
  assert_initialized
  p ← load_proposal proposal_id
  required ← required_approvals
  pure (record {
    id = p.id;
    stage = p.stage;
    approval_count = length p.approvals;
    required_approvals = required;
    target_version = p.new_version;
  })
