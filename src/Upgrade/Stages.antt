-- ===== src/Upgrade/Stages.antt =====
-- What each operation does to the proposals and their stages (common/src/upgrade.rs).
use stellarlend.Prelude.{
  ℕ, ◌≤◌, ◌<◌, ◌≡◌, ◌≢◌, refl, true, none, some, [], ◌∷◌, ◌++◌, arith, unwrap_or, leb, Bool-cases,
  inl, inr,
}
use stellarlend.Prelude.Dict.{lookup, insert}
use stellarlend.Storage.Borrow.{Address}
use stellarlend.Host.Laws.{OnOk}
use stellarlend.Upgrade.State.{
  UpgradeStage, proposed, approved, executed, rolled_back, UpgradeProposal, UpgradeEnv, contains,
  length,
}
use stellarlend.Upgrade.Manager.{
  is_open, stage_of, init, add_approver, remove_approver, upgrade_propose, upgrade_approve,
  approve_found, execute_found,
}
use stellarlend.Upgrade.Approvals.{
  IsDistinct, append-IsDistinct, length-append_one, threshold, IsCounted, next_of, IsSound,
  stage_at, Transition, stays, opens, approves, executes, Moves, SameProposals, written-Moves,
}

one_IsDistinct : (a : Address) → IsDistinct (a ∷ [])
unfolding contains
one_IsDistinct a = (refl, tt)

stage_of-is_open : (n required : ℕ) → is_open (stage_of n required proposed) ≡ true
stage_of-is_open n required = ground arith

pub add_approver-same :
    (caller approver : Address) (s : UpgradeEnv)
    → OnOk (λ _ t. SameProposals s t) (add_approver caller approver s)
unfolding add_approver
add_approver-same caller approver s = ground arith

pub remove_approver-same :
    (caller approver : Address) (s : UpgradeEnv)
    → OnOk (λ _ t. SameProposals s t) (remove_approver caller approver s)
unfolding remove_approver
remove_approver-same caller approver s = ground arith

-- The manager is initialised once, when there are no proposals.
initialised-Moves :
    (s t : UpgradeEnv)
    → IsSound s
    → s.admin ≡ none
    → t.proposal ≡ s.proposal
    → t.admin ≢ none
    → Moves s t
initialised-Moves s t k e same set = record {
  sound = record {
    counted = λ id p h. absurd (ground (arith, k.empty e id, same, h));
    fresh = λ id l. rw same (k.empty e id);
    empty = λ n. absurd (set n);
  };
  moved = λ id. rw same (stays (stage_at s id));
}

pub init-Moves :
    (admin : Address) (hash required : ℕ) (s : UpgradeEnv)
    → IsSound s
    → OnOk (λ _ t. Moves s t) (init admin hash required s)
unfolding init
init-Moves admin hash required s k =
    ground (arith, initialised-Moves s (init admin hash required s).1 k)

-- A list of approvals with the stage that its length asks for.
staged-IsCounted :
    (required : ℕ) (st : UpgradeStage) (p : UpgradeProposal)
    → IsDistinct p.approvals
    → (st ≢ proposed → required ≤ length p.approvals)
    → p.stage ≡ stage_of (length p.approvals) required st
    → IsCounted required p
staged-IsCounted required st p d more e = elim (Bool-cases (leb required (length p.approvals))) [
  | inl h ↦ record {
    distinct = d;
    waiting = λ q. absurd (ground (arith, e, h, q));
    enough = λ _. ground (arith, h);
  }
  | inr h ↦ record {
    distinct = d;
    waiting = λ q. ground (arith, h);
    enough = λ n. more (λ q. n (rw (e, h) q));
  }
]

pub upgrade_propose-Moves :
    (caller : Address) (hash version : ℕ) (s : UpgradeEnv)
    → IsSound s
    → OnOk (λ _ t. Moves s t) (upgrade_propose caller hash version s)
unfolding upgrade_propose
upgrade_propose-Moves caller hash version s k =
    let id = next_of s in
    let p : UpgradeProposal = record {
      id = id;
      proposer = caller;
      new_wasm_hash = hash;
      new_version = version;
      approvals = caller ∷ [];
      stage = stage_of 1 (threshold s) proposed;
      prev_wasm_hash = none;
      prev_version = none;
    } in
    let counted =
      staged-IsCounted (threshold s) proposed p (one_IsDistinct caller) (λ n. absurd (n refl))
        refl in
    let opened = opens p.stage (stage_of-is_open 1 (threshold s)) in
    grind (arith, written-Moves id p s, k.fresh id)

-- A stored proposal stands under an id below the next one.
stored-lt-next :
    (id : ℕ) (p : UpgradeProposal) (s : UpgradeEnv)
    → IsSound s
    → lookup id s.proposal ≡ some p
    → id < next_of s
stored-lt-next id p s k h = ground (arith, k.fresh id, h)

stored-admin :
    (id : ℕ) (p : UpgradeProposal) (s : UpgradeEnv)
    → IsSound s
    → lookup id s.proposal ≡ some p
    → s.admin ≢ none
stored-admin id p s k h n = ground (arith, k.empty n id, h)

-- An open proposal moves to the stage that its approvals ask for.
staged_move :
    (st : UpgradeStage) (n required : ℕ)
    → is_open st ≡ true
    → Transition (some st) (some (stage_of n required st))
staged_move approved n required o = elim (Bool-cases (leb required n)) [
  | inl h ↦ rw h (stays (some approved))
  | inr h ↦ rw h (stays (some approved))
]
staged_move proposed n required o = elim (Bool-cases (leb required n)) [
  | inl h ↦ rw h approves
  | inr h ↦ rw h (stays (some proposed))
]
staged_move executed n required o = absurd (ground (arith, o))
staged_move rolled_back n required o = absurd (ground (arith, o))

approve_found-Moves :
    (caller : Address) (id : ℕ) (p : UpgradeProposal) (s : UpgradeEnv)
    → IsSound s
    → lookup id s.proposal ≡ some p
    → OnOk (λ _ t. Moves s t) (approve_found caller id p s)
unfolding approve_found
approve_found-Moves caller id p s k h = elim (Bool-cases (is_open p.stage)) [
  | inr e ↦ rw e tt
  | inl e ↦ elim (Bool-cases (contains caller p.approvals)) [
    | inl c ↦ rw (e, c) tt
    | inr c ↦
        let approvals = p.approvals ++ caller ∷ [] in
        let q = record p {
          approvals = approvals;
          stage = stage_of (length approvals) (threshold s) p.stage;
        } in
        let old = k.counted id p h in
        let counted =
          staged-IsCounted (threshold s) p.stage q
            (append-IsDistinct caller p.approvals c old.distinct)
            (λ n. omega (arith, length-append_one caller p.approvals, old.enough n)) refl in
        let moved : Transition (stage_at s id) (some q.stage) =
          rw h (staged_move p.stage (length approvals) (threshold s) e) in
        rw (e, c)
          (ground (
            arith,
            written-Moves id q s (approve_found caller id p s).1 k,
            stored-lt-next id p s k h,
            stored-admin id p s k h,
          ))
  ]
]

pub upgrade_approve-Moves :
    (caller : Address) (id : ℕ) (s : UpgradeEnv)
    → IsSound s
    → OnOk (λ _ t. Moves s t) (upgrade_approve caller id s)
unfolding upgrade_approve
upgrade_approve-Moves caller id s k = grind (arith, approve_found-Moves caller id)

-- The stage of a proposal is changed, and its approvals are not.
pub changed-Moves :
    (id : ℕ) (p q : UpgradeProposal) (s t : UpgradeEnv)
    → IsSound s
    → lookup id s.proposal ≡ some p
    → t.proposal ≡ insert id q s.proposal
    → (t.admin ≡ s.admin) × (t.required_approvals ≡ s.required_approvals)
    → t.next_proposal_id ≡ s.next_proposal_id
    → q.approvals ≡ p.approvals
    → q.stage ≢ proposed
    → threshold s ≤ length p.approvals
    → Transition (some p.stage) (some q.stage)
    → Moves s t
changed-Moves id p q s t k h written same next approvals stage enough moved =
    written-Moves id q s t k written (λ n. stored-admin id p s k h (rw same.0 at n)) same.1
      (record {
        distinct = rw approvals (k.counted id p h).distinct;
        waiting = λ e. absurd (stage e);
        enough = λ _. rw approvals enough;
      })
      (rw next (omega arith), rw next (stored-lt-next id p s k h)) (rw h moved)

pub execute_found-Moves :
    (caller : Address) (id : ℕ) (p : UpgradeProposal) (s : UpgradeEnv)
    → IsSound s
    → lookup id s.proposal ≡ some p
    → OnOk
        (λ _ t. Moves s t × (threshold s ≤ length p.approvals) × (is_open p.stage ≡ true))
        (execute_found caller id p s)
unfolding execute_found
execute_found-Moves caller id p s k h = elim (Bool-cases (is_open p.stage)) [
  | inr e ↦ rw e tt
  | inl e ↦
      let q = λ (hash version : ℕ). record p {
        prev_wasm_hash = some hash;
        prev_version = some version;
        stage = executed;
      } in
      let t = (execute_found caller id p s).1 in
      let moved = executes p.stage e in
      rw e (
        ground (
          arith,
          changed-Moves id p (q (unwrap_or s.current_wasm_hash 0) (unwrap_or s.current_version 0)) s
              t k h,
        ))
]
