-- ===== src/Bridge/Consistent/Messages.antt =====
-- Submissions, attestations, executions and slashes keep the messages consistent, and change them
-- only as they may (bridge/src/bridge.rs).
use stellarlend.Prelude.{
  ap, ℕ, ◌+◌, ◌<◌, ◌≡◌, refl, Bool, true, ◌&&◌, none, arith, ◌==◌, if◌then◌else◌, is_some,
}
use stellarlend.Prelude.Table.{
  find, put, find-put, find-put_self, count_by-put_new, nat_key, pair_key, string_key, Table,
}
use stellarlend.Storage.Borrow.{Address}
use stellarlend.Host.Laws.{OnOk}
use stellarlend.Bridge.State.{
  BridgeEnv, SecurityConfig, CrossChainMessageInput, ChannelState, SourceMessageKey, source_key,
  next_u64,
}
use stellarlend.Bridge.Access.{load_security_config, load_channel_state}
use stellarlend.Bridge.Message.{
  source_key_of, new_message, store_message, submit_cross_chain_message, max,
}
use stellarlend.Bridge.Consistent.{
  is_vote_for, approvals_in, last_id, u64_max, IsConsistent, Steps, written-Steps,
}
use stellarlend.Bridge.Ordering.{check_input-same, open_channel-Opened}

-- A new vote is one more entry, if it approves.
approvals_in-put :
    (j id : ℕ) (v : Address) (approve : Bool) (votes : Table (ℕ × Address) Bool)
    → find (id, v) votes ≡ none
    → approvals_in j (put (id, v) approve votes)
      ≡ approvals_in j votes + (if id == j && approve then 1 else 0)
unfolding approvals_in
approvals_in-put j id v approve votes h = count_by-put_new (is_vote_for j) (id, v) approve votes h

recorded_after :
    (k new : SourceMessageKey) (id : ℕ) (t : Table SourceMessageKey ℕ)
    → is_some (find k t) ≡ true
    → is_some (find k (put new id t)) ≡ true
recorded_after k new id t h = ground (arith, find-put k new id t, h)

store_message-Steps :
    (input : CrossChainMessageInput) (cfg : SecurityConfig) (channel : ChannelState) (s : BridgeEnv)
    → IsConsistent s
    → last_id s < u64_max
    → OnOk
        (λ _ t. Steps s t × (is_some (find (source_key_of input) t.message_source) ≡ true))
        (store_message input cfg channel s)
unfolding store_message
store_message-Steps input cfg channel s c h =
    let id = next_u64 (last_id s) in
    let t = (store_message input cfg channel s).1 in
    let m =
      new_message id input s.sequence (max cfg.min_finality_ledgers cfg.optimistic_delay_ledgers) in
    (
      written-Steps id m s t c refl refl (λ j. omega arith) (omega arith)
          (ground arith, ground arith, ground arith)
          (λ old e. absurd (ground (arith, c.fresh id, e)))
          (λ k. recorded_after k (source_key_of input) id s.message_source),
      ap is_some (find-put_self (source_key_of input) id s.message_source),
    )

pub submit_cross_chain_message-Steps :
    (caller : Address) (input : CrossChainMessageInput) (s : BridgeEnv)
    → IsConsistent s
    → last_id s < u64_max
    → OnOk
        (λ _ t. Steps s t × (is_some (find (source_key_of input) t.message_source) ≡ true))
        (submit_cross_chain_message caller input s)
unfolding submit_cross_chain_message
submit_cross_chain_message-Steps caller input s c h =
    let cfg = load_security_config s in
    ground (
      arith,
      check_input-same input s,
      open_channel-Opened input cfg s,
      store_message-Steps input cfg (load_channel_state s input.channel_id) s c h,
    )
