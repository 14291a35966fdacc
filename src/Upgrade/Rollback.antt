-- ===== src/Upgrade/Rollback.antt =====
-- Execution and rollback of an upgrade (common/src/upgrade.rs).
use stellarlend.Prelude.{
  ℕ, ◌≤◌, ◌≡◌, ◌≢◌, refl, sym, subst, ◌∷◌, true, none, some, arith, unwrap_or, Bool-cases,
  Option-cases, inl, inr,
}
use stellarlend.Prelude.Dict.{lookup, insert, lookup-insert_self}
use stellarlend.Storage.Borrow.{Address}
use stellarlend.Host.{invoke}
use stellarlend.Host.Result.{ok}
use stellarlend.Host.Laws.{OnOk, OkOrSame, invoke-OkOrSame}
use stellarlend.Upgrade.State.{
  UpgradeStage, proposed, approved, executed, rolled_back, UpgradeProposal, UpgradeEnv, contains,
  length, approvers, upgrade_rolled_back,
}
use stellarlend.Upgrade.Manager.{
  is_open, is_executed, execute_found, rollback_found, upgrade_execute, upgrade_rollback,
}
use stellarlend.Upgrade.Approvals.{
  IsDistinct, threshold, IsSound, stage_at, Transition, reverts, Moves,
}
use stellarlend.Upgrade.Stages.{changed-Moves, execute_found-Moves}

-- What an execution has checked and written.
pub record Executed (caller : Address) (id : ℕ) (p : UpgradeProposal) (s t : UpgradeEnv)
    : Type 0 where
  pub stored : lookup id s.proposal ≡ some p
  pub approver : contains caller (approvers s) ≡ true
  pub was_open : is_open p.stage ≡ true
  pub quorum : threshold s ≤ length p.approvals
  pub distinct : IsDistinct p.approvals
  pub had_hash : s.current_wasm_hash ≢ none
  pub hash : t.current_wasm_hash ≡ some p.new_wasm_hash
  pub version : t.current_version ≡ some p.new_version
  pub kept :
      t.proposal
      ≡ insert id
          (record p {
            prev_wasm_hash = s.current_wasm_hash;
            prev_version = some (unwrap_or s.current_version 0);
            stage = executed;
          })
          s.proposal
  pub admin : t.admin ≡ s.admin
  pub signed : t.signed ≡ s.signed

execute_found-Executed :
    (caller : Address) (id : ℕ) (p : UpgradeProposal) (s : UpgradeEnv)
    → IsSound s
    → lookup id s.proposal ≡ some p
    → contains caller (approvers s) ≡ true
    → OnOk (λ _ t. Executed caller id p s t) (execute_found caller id p s)
unfolding execute_found
execute_found-Executed caller id p s k h a =
    let counted = k.counted id p h in ground (arith, counted.distinct, h, a)

pub upgrade_execute-Executed :
    (caller : Address) (id : ℕ) (s : UpgradeEnv)
    → IsSound s
    → OnOk (λ _ t. (p : UpgradeProposal) × Executed caller id p s t) (upgrade_execute caller id s)
unfolding upgrade_execute
upgrade_execute-Executed caller id s k = grind (arith, execute_found-Executed caller id)

is_executed-eq : (st : UpgradeStage) → is_executed st ≡ true → st ≡ executed
is_executed-eq proposed h = absurd (ground (arith, h))
is_executed-eq approved h = absurd (ground (arith, h))
is_executed-eq executed h = refl
is_executed-eq rolled_back h = absurd (ground (arith, h))

rollback_found-Moves :
    (caller : Address) (id : ℕ) (p : UpgradeProposal) (s : UpgradeEnv)
    → IsSound s
    → lookup id s.proposal ≡ some p
    → OnOk (λ _ t. Moves s t) (rollback_found caller id p s)
unfolding rollback_found
rollback_found-Moves caller id p s k h = elim (Bool-cases (is_executed p.stage)) [
  | inr e ↦ rw e tt
  | inl e ↦
      let t = (rollback_found caller id p s).1 in
      let stage = is_executed-eq p.stage e in
      let enough = (k.counted id p h).enough (λ n. ground (arith, n, stage)) in
      let moved : Transition (some p.stage) (some rolled_back) = rw stage reverts in
      rw e (ground (arith, changed-Moves id p (record p { stage = rolled_back }) s t k h))
]

pub upgrade_rollback-Moves :
    (caller : Address) (id : ℕ) (s : UpgradeEnv)
    → IsSound s
    → OnOk (λ _ t. Moves s t) (upgrade_rollback caller id s)
unfolding upgrade_rollback
upgrade_rollback-Moves caller id s k = grind (arith, rollback_found-Moves caller id)

pub upgrade_execute-Moves :
    (caller : Address) (id : ℕ) (s : UpgradeEnv)
    → IsSound s
    → OnOk (λ _ t. Moves s t) (upgrade_execute caller id s)
unfolding upgrade_execute
upgrade_execute-Moves caller id s k = grind (arith, execute_found-Moves caller id)

-- From a sound state, an execution, run as an entry point, either fails and leaves the state as it was,
-- or the caller was an approver and the proposal open, with approvals by at least as many distinct
-- addresses as the threshold asks for; then its hash and version are the current ones, and the
-- proposal keeps those that were current before.
pub upgrade_execute-OkOrSame :
    (caller : Address) (id : ℕ) (s : UpgradeEnv)
    → IsSound s
    → OkOrSame s
        (λ _ t. (p : UpgradeProposal) × Executed caller id p s t)
        (invoke (upgrade_execute caller id) s)
upgrade_execute-OkOrSame caller id s k =
    invoke-OkOrSame (λ _ t. (p : UpgradeProposal) × Executed caller id p s t)
      (upgrade_execute caller id) s (upgrade_execute-Executed caller id s k)

-- After an execution that returns in a sound state, the admin, if it has signed, can roll back: the call
-- returns, the hash and version are again the ones from before the execution, and the proposal is
-- stored as rolled back.
pub rollback-execute :
    (caller admin : Address) (id : ℕ) (s t : UpgradeEnv)
    → IsSound s
    → upgrade_execute caller id s ≡ (ok tt, t)
    → s.admin ≡ some admin
    → s.signed admin ≡ true
    → (u : UpgradeEnv) × (upgrade_rollback admin id t ≡ (ok tt, u))
      × (u.current_wasm_hash ≡ s.current_wasm_hash)
      × (u.current_version ≡ some (unwrap_or s.current_version 0))
      × (stage_at u id ≡ some rolled_back)
unfolding upgrade_rollback rollback_found
rollback-execute caller admin id s t k e a g =
    let (p, done) =
      subst (OnOk λ _ v. (p : UpgradeProposal) × Executed caller id p s v) e
        (upgrade_execute-Executed caller id s k) in
    elim (Option-cases s.current_wasm_hash) [
      | inl n ↦ absurd (done.had_hash n)
      | inr (hash, h) ↦
          let version = unwrap_or s.current_version 0 in
          let q = record p {
            prev_wasm_hash = some hash;
            prev_version = some version;
            stage = rolled_back;
          } in
          let u = record t {
            current_wasm_hash = some hash;
            current_version = some version;
            proposal = insert id q t.proposal;
            events = upgrade_rolled_back admin id version ∷ t.events;
          } in
          let stored =
            lookup-insert_self id
              (record p {
                prev_wasm_hash = s.current_wasm_hash;
                prev_version = some version;
                stage = executed;
              })
              s.proposal in
          (
            u,
            ground (arith, done, stored, h, a, g),
            sym h,
            refl,
            ground (arith, lookup-insert_self id q t.proposal),
          )
    ]
