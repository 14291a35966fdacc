-- ===== src/Bridge/Consistent/Payments.antt =====
-- Payments and slashes keep the messages consistent, and what a payment has checked
-- (bridge/src/bridge.rs).
use stellarlend.Prelude.{
  ℕ, ◌≤◌, ◌≡◌, refl, ap, sym, subst, ◌∙◌, true, false, some, arith, Bool-cases, Option-cases, inl,
  inr,
}
use native.Mathlib.Nat.{le_trans}
use stellarlend.Prelude.Int.{◌+ℤ◌, ◌≤ℤ◌}
use stellarlend.Prelude.I128.{IsI128, checked_add-exact}
use stellarlend.Prelude.Dict.{lookup, insert, lookup-insert}
use stellarlend.Prelude.Table.{find, put, string_key}
use stellarlend.Storage.Borrow.{Address}
use stellarlend.Host.{◌>>=◌}
use stellarlend.Host.Laws.{OnOk, OnOk-bind, OnOk-map}
use stellarlend.Bridge.State.{BridgeEnv, BridgeConfig, CrossChainMessage}
use stellarlend.Bridge.Access.{
  load_security_config, validator_list, load_channel_state, record_channel_anomaly,
}
use stellarlend.Bridge.Message.{check_final, pay_message, execute_verified_withdrawal}
use stellarlend.Bridge.Slash.{slash_all, invalidate_both, slash_found, slash_conflicting_messages}
use stellarlend.Bridge.Consistent.{
  approvals_in, last_id, IsConsistent, Steps, SameMessages, updated-Steps, written-Steps,
  Steps-trans, SameMessages-Steps,
}
use stellarlend.Bridge.Consistent.Admin.{record_channel_anomaly-same, slash_all-Spares}

-- What a payment has checked of the message.
pub record IsFinal (m : CrossChainMessage) (s : BridgeEnv) : Type 0 where
  pub not_executed : m.executed ≡ false
  pub not_invalidated : m.invalidated ≡ false
  pub quorum : (load_security_config s).min_validator_signatures ≤ m.approvals
  pub waited : m.finality_ledger ≤ s.sequence
  pub not_rejected : m.rejections ≡ 0

pub check_final-IsFinal :
    (m : CrossChainMessage) (s : BridgeEnv)
    → OnOk (λ _ t. (t ≡ s) × IsFinal m s) (check_final (load_security_config s) m s)
unfolding check_final
check_final-IsFinal m s = ground arith

-- What a payment has written: the withdrawal on the bridge and the mark on the message.
pub record Paid (m : CrossChainMessage) (s t : BridgeEnv) : Type 0 where
  pub channel_open : (load_channel_state s m.channel_id).emergency_closed ≡ false
  pub bridge :
      (b : BridgeConfig) × (find m.bridge_id s.bridge ≡ some b)
      × (b.min_amount ≤ℤ m.amount)
      × IsI128 (b.total_withdrawn +ℤ m.amount)
      × (t.bridge
          ≡ put m.bridge_id (record b { total_withdrawn = b.total_withdrawn +ℤ m.amount }) s.bridge)
  pub message : t.message ≡ insert m.message_id (record m { executed = true }) s.message
  pub message_source : t.message_source ≡ s.message_source
  pub message_attestation : t.message_attestation ≡ s.message_attestation
  pub next_message_id : t.next_message_id ≡ s.next_message_id

pub pay_message-Paid :
    (m : CrossChainMessage) (s : BridgeEnv) → OnOk (λ _ t. Paid m s t) (pay_message m s)
unfolding pay_message
pay_message-Paid m s = grind (arith, checked_add-exact)

Paid-Steps :
    (m : CrossChainMessage) (id : ℕ) (s t : BridgeEnv)
    → IsConsistent s
    → lookup id s.message ≡ some m
    → Paid m s t
    → Steps s t
Paid-Steps m id s t c h paid =
    let counted = c.counted id m h in
    updated-Steps id m (record m { executed = true }) s t c h
      (paid.message ∙ ap (λ k. insert k (record m { executed = true }) s.message) counted.own_id)
      (λ j. rw paid.message_attestation (omega arith))
      (rw paid.message_attestation counted.approvals) paid.message_source paid.next_message_id
      (ground arith)

-- What an execution has checked and written. The quorum is one of votes by different validators.
pub record Executed (id : ℕ) (m : CrossChainMessage) (s t : BridgeEnv) : Type 0 where
  pub stored : lookup id s.message ≡ some m
  pub final : IsFinal m s
  pub votes :
      (load_security_config s).min_validator_signatures ≤ approvals_in id s.message_attestation
  pub paid : Paid m s t

found_Executed :
    (id : ℕ) (m : CrossChainMessage) (s : BridgeEnv)
    → IsConsistent s
    → lookup id s.message ≡ some m
    → OnOk
        (λ _ t. Executed id m s t)
        ((check_final (load_security_config s) m >>= λ _. pay_message m) s)
found_Executed id m s c h =
    OnOk-bind (λ _ t. (t ≡ s) × IsFinal m s) (λ _ t. Executed id m s t)
      (check_final (load_security_config s) m) (λ _. pay_message m) s (check_final-IsFinal m s)
      λ _ t p.
        subst (λ x. OnOk (λ _ u. Executed id m s u) (pay_message m x)) (sym p.0)
          (OnOk-map (λ _ u. Paid m s u) (λ _ u. Executed id m s u) (pay_message m s)
            (pay_message-Paid m s)
            λ _ u q. record {
              stored = h;
              final = p.1;
              votes = le_trans p.1.quorum (c.counted id m h).approvals;
              paid = q;
            })

pub execute_verified_withdrawal-Executed :
    (caller : Address) (id : ℕ) (s : BridgeEnv)
    → IsConsistent s
    → OnOk
        (λ _ t. (m : CrossChainMessage) × Executed id m s t)
        (execute_verified_withdrawal caller id s)
unfolding execute_verified_withdrawal
execute_verified_withdrawal-Executed caller id s c = elim (Bool-cases (s.signed caller)) [
  | inr e ↦ rw e tt
  | inl e ↦ rw e (elim (Option-cases (lookup id s.message)) [
    | inl n ↦ rw n tt
    | inr (m, h) ↦ rw h (
        OnOk-map (λ _ t. Executed id m s t) (λ _ t. (m : CrossChainMessage) × Executed id m s t)
          ((check_final (load_security_config s) m >>= λ _. pay_message m) s)
          (found_Executed id m s c h) λ _ t p. (m, p))
  ])
]

pub execute_verified_withdrawal-Steps :
    (caller : Address) (id : ℕ) (s : BridgeEnv)
    → IsConsistent s
    → OnOk (λ _ t. Steps s t) (execute_verified_withdrawal caller id s)
execute_verified_withdrawal-Steps caller id s c =
    OnOk-map (λ _ t. (m : CrossChainMessage) × Executed id m s t) (λ _ t. Steps s t)
      (execute_verified_withdrawal caller id s) (execute_verified_withdrawal-Executed caller id s c)
      λ _ t p. Paid-Steps p.0 id s t c p.1.stored p.1.paid

-- A slash invalidates both messages; if they are one, the second write is the first again.
invalidate_both-Steps :
    (a b : ℕ) (first second : CrossChainMessage) (s : BridgeEnv)
    → IsConsistent s
    → lookup a s.message ≡ some first
    → lookup b s.message ≡ some second
    → OnOk (λ _ t. Steps s t × (last_id t ≤ last_id s)) (invalidate_both first second s)
unfolding invalidate_both
invalidate_both-Steps a b first second s c h k =
    let first' = record first { invalidated = true } in
    let second' = record second { invalidated = true } in
    let u = record s { message = insert first.message_id first' s.message } in
    let w = record u { message = insert second.message_id second' u.message } in
    let counted_a = c.counted a first h in
    let counted_b = c.counted b second k in
    let one : Steps s u =
      updated-Steps a first first' s u c h (ap (λ i. insert i first' s.message) counted_a.own_id)
        (λ j. omega arith) counted_a.approvals refl refl (ground arith) in
    let two : Steps u w =
      written-Steps b second' u w one.consistent
        (ap (λ i. insert i second' u.message) counted_b.own_id) counted_b.own_id (λ j. omega arith)
        counted_b.approvals (omega arith, omega arith, ground (arith, c.fresh b, k))
        (λ old e.
          ground
            (arith, lookup-insert b first.message_id first' s.message, e, h, k, counted_a.own_id))
        (λ _ r. r) in
    OnOk-map (λ _ t. SameMessages w t) (λ _ t. Steps s t × (last_id t ≤ last_id s))
      (record_channel_anomaly first.channel_id "conflicting_message_attestations" w)
      (record_channel_anomaly-same first.channel_id "conflicting_message_attestations" w)
      λ _ t e. (
        Steps-trans s w t (Steps-trans s u w one two (omega arith))
            (SameMessages-Steps w t two.consistent e) (rw e.next_message_id (omega arith)),
        rw e.next_message_id (omega arith),
      )

slashed-Steps :
    (a b : ℕ) (first second : CrossChainMessage) (s t : BridgeEnv)
    → IsConsistent s
    → lookup a s.message ≡ some first
    → lookup b s.message ≡ some second
    → SameMessages s t
    → OnOk (λ _ u. Steps s u) (invalidate_both first second t)
slashed-Steps a b first second s t c h k e =
    let st = SameMessages-Steps s t c e in
    OnOk-map (λ _ u. Steps t u × (last_id u ≤ last_id t)) (λ _ u. Steps s u)
      (invalidate_both first second t)
      (invalidate_both-Steps a b first second t st.consistent (rw e.message h) (rw e.message k))
      λ _ u r. Steps-trans s t u st r.0 r.1

slash_found-Steps :
    (a b : ℕ) (first second : CrossChainMessage) (s : BridgeEnv)
    → IsConsistent s
    → lookup a s.message ≡ some first
    → lookup b s.message ≡ some second
    → OnOk (λ _ t. Steps s t) (slash_found a b first second s)
unfolding slash_found
slash_found-Steps a b first second s c h k =
    let bps = (load_security_config s).slash_bps in
    let t = (slash_all (validator_list s) a b bps s).1 in
    ground (
      arith,
      slash_all-Spares (validator_list s) a b bps s,
      slashed-Steps a b first second s t c h k,
    )

pub slash_conflicting_messages-Steps :
    (caller : Address) (a b : ℕ) (s : BridgeEnv)
    → IsConsistent s
    → OnOk (λ _ t. Steps s t) (slash_conflicting_messages caller a b s)
unfolding slash_conflicting_messages
slash_conflicting_messages-Steps caller a b s c = grind (arith, slash_found-Steps a b)
