-- ===== src/Bridge/Consistent/Votes.antt =====
-- Votes keep the messages consistent (bridge/src/bridge.rs).
use stellarlend.Prelude.{
  ℕ, ◌+◌, ◌≤◌, ◌≡◌, refl, ap, ◌∙◌, Bool, true, false, ◌&&◌, none, some, arith, ◌==◌, if◌then◌else◌,
}
use stellarlend.Prelude.Dict.{lookup, insert}
use stellarlend.Prelude.Table.{Table, find, put, count_by-put_new, nat_key, pair_key}
use stellarlend.Storage.Borrow.{Address}
use stellarlend.Host.Laws.{OnOk, OnOk-bind}
use stellarlend.Bridge.State.{BridgeEnv, CrossChainMessage, ValidatorRecord}
use stellarlend.Bridge.Access.{save_message}
use stellarlend.Bridge.Message.{count_vote, record_vote, attest_cross_chain_message}
use stellarlend.Bridge.Consistent.{
  is_vote_for, approvals_in, IsConsistent, Steps, SameMessages, updated-Steps,
}
use stellarlend.Bridge.Consistent.Admin.{record_channel_anomaly-same}

-- A new vote is one more entry, if it approves.
approvals_in-put :
    (j id : ℕ) (v : Address) (approve : Bool) (votes : Table (ℕ × Address) Bool)
    → find (id, v) votes ≡ none
    → approvals_in j (put (id, v) approve votes)
      ≡ approvals_in j votes + (if id == j && approve then 1 else 0)
unfolding approvals_in
approvals_in-put j id v approve votes h = count_by-put_new (is_vote_for j) (id, v) approve votes h

-- What counting a vote does to the message.
record Voted (approve : Bool) (m n : CrossChainMessage) (s t : BridgeEnv) : Type 0 where
  same : SameMessages s t
  content : n ≡ record m { approvals = n.approvals; rejections = n.rejections }
  approvals : n.approvals ≤ m.approvals + (if approve then 1 else 0)

count_vote-Voted :
    (approve : Bool) (v : Address) (r : ValidatorRecord) (m : CrossChainMessage) (s : BridgeEnv)
    → OnOk (λ n t. Voted approve m n s t) (count_vote approve v r m s)
unfolding count_vote
count_vote-Voted true v r m s = ground arith
count_vote-Voted false v r m s =
    ground (arith, record_channel_anomaly-same m.channel_id "validator_rejection" s)

vote-Steps :
    (v : Address) (id : ℕ) (approve : Bool) (m n : CrossChainMessage) (s t u : BridgeEnv)
    → IsConsistent s
    → lookup id s.message ≡ some m
    → find (id, v) s.message_attestation ≡ none
    → t ≡ record s { message_attestation = put (id, v) approve s.message_attestation }
    → Voted approve m n t u
    → Steps s (record u { message = insert n.message_id n u.message })
vote-Steps v id approve m n s t u c h free e voted =
    let w = record u { message = insert n.message_id n u.message } in
    let old = s.message_attestation in
    let own : n.message_id ≡ id =
      ap (λ x. x.message_id) voted.content ∙ (c.counted id m h).own_id in
    let votes : u.message_attestation ≡ put (id, v) approve old =
      voted.same.message_attestation ∙ ap (λ x. x.message_attestation) e in
    let put_lem = λ (j : ℕ). approvals_in-put j id v approve old free in
    updated-Steps id m n s w c h
      (ap (λ k. insert k n u.message) own
        ∙ ap (insert id n) (voted.same.message ∙ ap (λ x. x.message) e))
      (λ j. rw votes (omega (arith, put_lem j)))
      (rw votes (ground (arith, put_lem id, voted.approvals, (c.counted id m h).approvals)))
      (voted.same.message_source ∙ ap (λ x. x.message_source) e)
      (voted.same.next_message_id ∙ ap (λ x. x.next_message_id) e) (ground (arith, voted.content))

record_vote-Steps :
    (v : Address) (id : ℕ) (approve : Bool) (r : ValidatorRecord) (m : CrossChainMessage)
    (s : BridgeEnv)
    → IsConsistent s
    → lookup id s.message ≡ some m
    → find (id, v) s.message_attestation ≡ none
    → OnOk (λ _ t. Steps s t) (record_vote v id approve r m s)
unfolding record_vote
record_vote-Steps v id approve r m s c h free =
    let t = record s { message_attestation = put (id, v) approve s.message_attestation } in
    OnOk-bind (λ n u. Voted approve m n t u) (λ _ w. Steps s w) (count_vote approve v r m)
      save_message t (count_vote-Voted approve v r m t)
      (λ n u voted. vote-Steps v id approve m n s t u c h free refl voted)

pub attest_cross_chain_message-Steps :
    (v : Address) (id : ℕ) (approve : Bool) (s : BridgeEnv)
    → IsConsistent s
    → OnOk (λ _ t. Steps s t) (attest_cross_chain_message v id approve s)
unfolding attest_cross_chain_message
attest_cross_chain_message-Steps v id approve s c = grind (arith, record_vote-Steps v id approve)
