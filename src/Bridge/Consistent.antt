-- ===== src/Bridge/Consistent.antt =====
-- The messages of the bridge, their ids and the votes on them, and what one write of a message does
-- to them (bridge/src/bridge.rs).
pub mod Admin
pub mod Messages
pub mod Votes
pub mod Payments
use Prim.Native.String.{String}
use stellarlend.Prelude.{
  ℕ, ◌+◌, ◌≤◌, ◌<◌, ◌≡◌, refl, ◌∙◌, sym, subst, ap, Bool, true, false, ◌&&◌, Option, none, some,
  arith, ◌==◌, unwrap_or, if◌then◌else◌, is_some, ⊤, Bool-cases, ◌⊎◌, inl, inr,
}
use stellarlend.Prelude.Dict.{lookup, insert, lookup-insert}
use stellarlend.Prelude.Table.{Table, find, count_by, pair_key, nat_key}
use stellarlend.Storage.Borrow.{Address}
use stellarlend.Bridge.State.{CrossChainMessage, SourceMessageKey, BridgeEnv, source_key}

-- The validators with a vote for a message: the entries of its approvals.
abbrev pub is_vote_for : ℕ → ℕ × Address → Bool → Bool
is_vote_for id (key, _) vote = key == id && vote

unfoldable pub approvals_in : ℕ → Table (ℕ × Address) Bool → ℕ
approvals_in id votes = count_by (is_vote_for id) votes

abbrev pub last_id : BridgeEnv → ℕ
last_id s = unwrap_or s.next_message_id 0

abbrev pub u64_max : ℕ
u64_max = 0xffffffffffffffff

-- A stored message stands under its own id and claims no more approvals than there are votes.
pub record IsCounted (id : ℕ) (m : CrossChainMessage) (votes : Table (ℕ × Address) Bool)
    : Type 0 where
  pub own_id : m.message_id ≡ id
  pub approvals : m.approvals ≤ approvals_in id votes

-- Every message is counted, and the ids above the last one are free.
pub record IsConsistent (s : BridgeEnv) : Type 0 where
  pub counted :
      (id : ℕ) (m : CrossChainMessage)
      → lookup id s.message ≡ some m
      → IsCounted id m s.message_attestation
  pub fresh : (id : ℕ) → last_id s < id → lookup id s.message ≡ none

-- What stays of a message: its content, and that it was executed or invalidated.
pub record Kept (m n : CrossChainMessage) : Type 0 where
  pub content : n ≡ record m {
    approvals = n.approvals;
    rejections = n.rejections;
    executed = n.executed;
    invalidated = n.invalidated;
  }
  pub executed : m.executed ≡ true → n.executed ≡ true
  pub invalidated : m.invalidated ≡ true → n.invalidated ≡ true

pub Kept-refl : (m : CrossChainMessage) → Kept m m
Kept-refl m = record { content = refl; executed = λ h. h; invalidated = λ h. h }

pub Kept-trans : (a b c : CrossChainMessage) → Kept a b → Kept b c → Kept a c
Kept-trans a b c h k = record {
  content = cc (h.content, k.content);
  executed = λ e. k.executed (h.executed e);
  invalidated = λ e. k.invalidated (h.invalidated e);
}

-- What an invocation does to the messages, votes and recorded sources.
pub record Steps (s t : BridgeEnv) : Type 0 where
  pub kept :
      (id : ℕ) (m : CrossChainMessage)
      → lookup id s.message ≡ some m
      → (n : CrossChainMessage) × (lookup id t.message ≡ some n) × Kept m n
  pub recorded :
      (k : SourceMessageKey)
      → is_some (find k s.message_source) ≡ true
      → is_some (find k t.message_source) ≡ true
  pub consistent : IsConsistent t
  pub grows : last_id s ≤ last_id t
  pub next : last_id t ≤ last_id s + 1

-- Neither messages, votes, sources nor the last id have changed.
pub record SameMessages (s t : BridgeEnv) : Type 0 where
  pub message : t.message ≡ s.message
  pub message_source : t.message_source ≡ s.message_source
  pub message_attestation : t.message_attestation ≡ s.message_attestation
  pub next_message_id : t.next_message_id ≡ s.next_message_id

pub SameMessages-Steps : (s t : BridgeEnv) → IsConsistent s → SameMessages s t → Steps s t
SameMessages-Steps s t c e = record {
  kept = λ id m h. (m, rw e.message h, Kept-refl m);
  recorded = λ k h. rw e.message_source h;
  consistent = record {
    counted = λ id m h. rw e.message_attestation (c.counted id m (rw e.message at h));
    fresh = λ id l. rw e.message (c.fresh id (rw e.next_message_id at l));
  };
  grows = rw e.next_message_id (omega arith);
  next = rw e.next_message_id (omega arith);
}

-- One message is written under its id: a new one above the last id, or what keeps the old one.
module _ (id : ℕ) (n : CrossChainMessage) (s t : BridgeEnv) (c : IsConsistent s)
    (written : t.message ≡ insert id n s.message) (own_id : n.message_id ≡ id)
    (votes : (j : ℕ) → approvals_in j s.message_attestation ≤ approvals_in j t.message_attestation)
    (approvals : n.approvals ≤ approvals_in id t.message_attestation)
    (last : (last_id s ≤ last_id t) × (last_id t ≤ last_id s + 1) × (id ≤ last_id t)) where
  written-IsConsistent : IsConsistent t
  written-IsConsistent = record {
    counted = λ j m h. elim (Bool-cases (j == id)) [
      | inl e ↦ ground (arith, lookup-insert j id n s.message, written, h)
      | inr e ↦ ground (arith, lookup-insert j id n s.message, written, h, c.counted j m, votes j)
    ];
    fresh = λ j l. ground (arith, lookup-insert j id n s.message, written, c.fresh j, l, last);
  }

  pub written-Steps :
      ((old : CrossChainMessage) → lookup id s.message ≡ some old → Kept old n)
      → ((k : SourceMessageKey)
          → is_some (find k s.message_source) ≡ true
          → is_some (find k t.message_source) ≡ true)
      → Steps s t
  written-Steps keeps recorded = record {
    kept = λ j m h. elim (Bool-cases (j == id)) [
      | inl e ↦
          (n, ground (arith, lookup-insert j id n s.message, written), ground (arith, keeps m))
      | inr e ↦ (m, ground (arith, lookup-insert j id n s.message, written), Kept-refl m)
    ];
    recorded = recorded;
    consistent = written-IsConsistent;
    grows = last.0;
    next = last.1;
  }

-- A message that is there is written again: it stands under an id that was given out.
pub updated-Steps :
    (id : ℕ) (m n : CrossChainMessage) (s t : BridgeEnv)
    → IsConsistent s
    → lookup id s.message ≡ some m
    → t.message ≡ insert id n s.message
    → ((j : ℕ) → approvals_in j s.message_attestation ≤ approvals_in j t.message_attestation)
    → n.approvals ≤ approvals_in id t.message_attestation
    → t.message_source ≡ s.message_source
    → t.next_message_id ≡ s.next_message_id
    → Kept m n
    → Steps s t
updated-Steps id m n s t c h written votes approvals sources last keeps =
    written-Steps id n s t c written
      (ap (λ x. x.message_id) keeps.content ∙ (c.counted id m h).own_id) votes approvals
      (
        omega (arith, ap (λ x. unwrap_or x 0) last),
        omega (arith, ap (λ x. unwrap_or x 0) last),
        ground (arith, c.fresh id, h, last),
      )
      (λ old e. ground (arith, e, h, keeps)) (λ k r. rw sources r)

-- Two steps are one, if the second gives out no id.
pub Steps-trans : (s t u : BridgeEnv) → Steps s t → Steps t u → last_id u ≤ last_id t → Steps s u
Steps-trans s t u a b l = record {
  kept = λ id m h.
      let (n, e, k) = a.kept id m h in
      let (o, f, l) = b.kept id n e in (o, f, Kept-trans m n o k l);
  recorded = λ k h. b.recorded k (a.recorded k h);
  consistent = b.consistent;
  grows = omega (arith, a.grows, b.grows);
  next = omega (arith, a.next);
}
