-- ===== src/Upgrade/Life.antt =====
-- Sequences of invocations of the upgrade manager refine the machine of stages
-- (common/src/upgrade.rs).
use stellarlend.Prelude.{ℕ}
use stellarlend.Storage.Borrow.{Address}
use stellarlend.Host.{invoke}
use stellarlend.Host.Laws.{OnOk, OnOk-map, invoke-OkOrSame, OkOrSame-state}
use stellarlend.Upgrade.State.{UpgradeEnv, UpgradeCall}
use stellarlend.Upgrade.Manager.{
  init, add_approver, remove_approver, upgrade_propose, upgrade_approve, upgrade_execute,
  upgrade_rollback,
}
use stellarlend.Upgrade.Approvals.{
  IsSound, stage_at, stays, Moves, SameProposals, SameProposals-Moves,
}
use stellarlend.Upgrade.Stages.{
  add_approver-same, remove_approver-same, init-Moves, upgrade_propose-Moves, upgrade_approve-Moves,
}
use stellarlend.Upgrade.Rollback.{upgrade_execute-Moves, upgrade_rollback-Moves}

-- One invocation of an entry point that writes.
pub data Operation : Type 0 where
  initialise : Address → ℕ → ℕ → Operation
  add remove : Address → Address → Operation
  propose : Address → ℕ → ℕ → Operation
  approve execute rollback : Address → ℕ → Operation

abbrev pub run_operation : Operation → UpgradeEnv → UpgradeEnv
run_operation (initialise admin hash required) s = (invoke (init admin hash required) s).1
run_operation (add caller a) s = (invoke (add_approver caller a) s).1
run_operation (remove caller a) s = (invoke (remove_approver caller a) s).1
run_operation (propose caller hash version) s = (invoke (upgrade_propose caller hash version) s).1
run_operation (approve caller id) s = (invoke (upgrade_approve caller id) s).1
run_operation (execute caller id) s = (invoke (upgrade_execute caller id) s).1
run_operation (rollback caller id) s = (invoke (upgrade_rollback caller id) s).1

invoke-Moves :
    {A : Type 0} (m : UpgradeCall A) (s : UpgradeEnv)
    → IsSound s
    → OnOk (λ _ t. Moves s t) (m s)
    → Moves s (invoke m s).1
invoke-Moves m s k h =
    OkOrSame-state (Moves s) s (λ _ t. Moves s t) (invoke m s)
      (invoke-OkOrSame (λ _ t. Moves s t) m s h)
      (record { sound = k; moved = λ id. stays (stage_at s id) }) (λ _ t d. d)

same-Moves :
    {A : Type 0} (m : UpgradeCall A) (s : UpgradeEnv)
    → IsSound s
    → OnOk (λ _ t. SameProposals s t) (m s)
    → Moves s (invoke m s).1
same-Moves m s k h = invoke-Moves m s k (
    OnOk-map (λ _ t. SameProposals s t) (λ _ t. Moves s t) (m s) h
      λ _ t e. SameProposals-Moves s t k e)

-- Every invocation keeps the state sound and refines the machine of stages: the stage under each id
-- stays, or a free id is opened, or a proposed one is approved, an open one executed, an executed one
-- rolled back.
pub run_operation-Moves :
    (op : Operation) (s : UpgradeEnv) → IsSound s → Moves s (run_operation op s)
run_operation-Moves (initialise admin hash required) s k =
    invoke-Moves (init admin hash required) s k (init-Moves admin hash required s k)
run_operation-Moves (add caller a) s k =
    same-Moves (add_approver caller a) s k (add_approver-same caller a s)
run_operation-Moves (remove caller a) s k =
    same-Moves (remove_approver caller a) s k (remove_approver-same caller a s)
run_operation-Moves (propose caller hash version) s k =
    invoke-Moves (upgrade_propose caller hash version) s k
      (upgrade_propose-Moves caller hash version s k)
run_operation-Moves (approve caller id) s k =
    invoke-Moves (upgrade_approve caller id) s k (upgrade_approve-Moves caller id s k)
run_operation-Moves (execute caller id) s k =
    invoke-Moves (upgrade_execute caller id) s k (upgrade_execute-Moves caller id s k)
run_operation-Moves (rollback caller id) s k =
    invoke-Moves (upgrade_rollback caller id) s k (upgrade_rollback-Moves caller id s k)
