-- ===== src/Upgrade/Approvals.antt =====
-- The approvals of a proposal: distinct addresses, as many as its stage asks for
-- (common/src/upgrade.rs).
use stellarlend.Prelude.{
  ℕ, ◌+◌, ◌≤◌, ◌<◌, ◌≡◌, ◌≢◌, refl, sym, subst, true, false, ◌||◌, Option, none, some, List, [],
  ◌∷◌, ◌++◌, arith, ◌==◌, unwrap_or, Bool-cases, inl, inr,
}
use stellarlend.Prelude.Dict.{lookup, insert, lookup-insert}
use stellarlend.Storage.Borrow.{Address}
use stellarlend.Upgrade.State.{
  UpgradeStage, proposed, approved, executed, rolled_back, UpgradeProposal, UpgradeEnv, contains,
  length,
}
use stellarlend.Upgrade.Manager.{is_open}

-- No address stands twice.
abbrev pub IsDistinct : List Address → Type 0
IsDistinct [] = Unit
IsDistinct (a ∷ rest) = (contains a rest ≡ false) × IsDistinct rest

contains-append :
    (a b : Address) (l : List Address) → contains a (l ++ b ∷ []) ≡ (contains a l || a == b)
unfolding contains
contains-append a b [] = ground arith
contains-append a b (x ∷ l) = ground (arith, contains-append a b l)

pub append-IsDistinct :
    (a : Address) (l : List Address)
    → contains a l ≡ false
    → IsDistinct l
    → IsDistinct (l ++ a ∷ [])
unfolding contains
append-IsDistinct a [] h d = (refl, tt)
append-IsDistinct a (x ∷ l) h d = ground (arith, contains-append x a l, append-IsDistinct a l, d)

pub length-append_one : (a : Address) (l : List Address) → length (l ++ a ∷ []) ≡ length l + 1
length-append_one a [] = omega arith
length-append_one a (x ∷ l) = omega (arith, length-append_one a l)

-- The threshold, which is set once.
abbrev pub threshold : UpgradeEnv → ℕ
threshold s = unwrap_or s.required_approvals 0

-- The approvals are distinct, and there are enough of them exactly from the stage `approved` on.
pub record IsCounted (required : ℕ) (p : UpgradeProposal) : Type 0 where
  pub distinct : IsDistinct p.approvals
  pub waiting : p.stage ≡ proposed → length p.approvals < required
  pub enough : p.stage ≢ proposed → required ≤ length p.approvals

abbrev pub next_of : UpgradeEnv → ℕ
next_of s = unwrap_or s.next_proposal_id 1

-- Every proposal is counted, the ids from the next one on are free, and there is nothing before the
-- manager is initialised.
pub record IsSound (s : UpgradeEnv) : Type 0 where
  pub counted :
      (id : ℕ) (p : UpgradeProposal) → lookup id s.proposal ≡ some p → IsCounted (threshold s) p
  pub fresh : (id : ℕ) → next_of s ≤ id → lookup id s.proposal ≡ none
  pub empty : s.admin ≡ none → (id : ℕ) → lookup id s.proposal ≡ none

abbrev stage_in : Option UpgradeProposal → Option UpgradeStage
stage_in none = none
stage_in (some p) = some p.stage

abbrev pub stage_at : UpgradeEnv → ℕ → Option UpgradeStage
stage_at s id = stage_in (lookup id s.proposal)

-- The stages as a machine of their own.
pub data Transition : Option UpgradeStage → Option UpgradeStage → Type 0 where
  stays : (o : Option UpgradeStage) → Transition o o
  opens : (st : UpgradeStage) → is_open st ≡ true → Transition none (some st)
  approves : Transition (some proposed) (some approved)
  executes : (st : UpgradeStage) → is_open st ≡ true → Transition (some st) (some executed)
  reverts : Transition (some executed) (some rolled_back)

-- What an invocation does to the proposals.
pub record Moves (s t : UpgradeEnv) : Type 0 where
  pub sound : IsSound t
  pub moved : (id : ℕ) → Transition (stage_at s id) (stage_at t id)

-- Neither proposals, threshold, next id nor admin have changed.
pub record SameProposals (s t : UpgradeEnv) : Type 0 where
  pub proposal : t.proposal ≡ s.proposal
  pub required : t.required_approvals ≡ s.required_approvals
  pub next : t.next_proposal_id ≡ s.next_proposal_id
  pub admin : t.admin ≡ s.admin

pub SameProposals-Moves : (s t : UpgradeEnv) → IsSound s → SameProposals s t → Moves s t
SameProposals-Moves s t k e = record {
  sound = record {
    counted = λ id p h. rw e.required (k.counted id p (rw e.proposal at h));
    fresh = λ id l. rw e.proposal (k.fresh id (rw e.next at l));
    empty = λ n id. rw e.proposal (k.empty (rw e.admin at n) id);
  };
  moved = λ id. rw e.proposal (stays (stage_at s id));
}

-- One proposal is written: a new one under the next id, or one that was there again.
module _ (id : ℕ) (p : UpgradeProposal) (s t : UpgradeEnv) (k : IsSound s)
    (written : t.proposal ≡ insert id p s.proposal) (admin : t.admin ≢ none)
    (required : t.required_approvals ≡ s.required_approvals) (counted : IsCounted (threshold s) p)
    (next : (next_of s ≤ next_of t) × (id < next_of t))
    (moved : Transition (stage_at s id) (some p.stage)) where
  written-IsSound : IsSound t
  written-IsSound = record {
    counted = λ j q h.
        rw required (ground (arith, lookup-insert j id p s.proposal, written, h, k.counted j q));
    fresh = λ j l. ground (arith, lookup-insert j id p s.proposal, written, k.fresh j, l, next);
    empty = λ n. absurd (admin n);
  }

  pub written-Moves : Moves s t
  written-Moves = record {
    sound = written-IsSound;
    moved = λ j. elim (Bool-cases (j == id)) [
      | inl e ↦
          let same : j ≡ id = ground (arith, e) in
          rw (written, lookup-insert j id p s.proposal, e)
            (subst (λ i. Transition (stage_at s i) (some p.stage)) (sym same) moved)
      | inr e ↦ rw (written, lookup-insert j id p s.proposal, e) (stays (stage_at s j))
    ];
  }
