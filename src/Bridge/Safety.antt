-- ===== src/Bridge/Safety.antt =====
-- What the bridge promises of its messages over its whole life (bridge/src/bridge.rs).
use Prim.Native.String.{String}
use text.Mathlib.TextEquality.{eq_iff}
use stellarlend.Prelude.{ℕ, ◌+◌, ◌<◌, ◌≡◌, refl, sym, subst, true, ◌⊎◌, some, arith, is_some}
use stellarlend.Prelude.Dict.{lookup}
use stellarlend.Prelude.Table.{find, find-put, string_key}
use stellarlend.Storage.Borrow.{Address}
use stellarlend.Host.{invoke}
use stellarlend.Host.Result.{ok}
use stellarlend.Host.Laws.{OnOk, OnOk-map, OkOrSame, invoke-OkOrSame, OkOrSame-state}
use stellarlend.Bridge.State.{
  BridgeEnv, CrossChainMessage, CrossChainMessageInput, SourceMessageKey, source_key,
  SecurityConfig,
}
use stellarlend.Bridge.Access.{load_channel_state, load_stats, load_security_config}
use stellarlend.Bridge.Message.{
  source_key_of, store_message, submit_cross_chain_message, execute_verified_withdrawal,
}
use stellarlend.Bridge.Ordering.{check_input-same, open_channel-Opened}
use stellarlend.Bridge.Consistent.{
  last_id, u64_max, IsConsistent, Kept, Kept-refl, Kept-trans, Steps, SameMessages-Steps,
}
use stellarlend.Bridge.Consistent.Messages.{submit_cross_chain_message-Steps}
use stellarlend.Bridge.Consistent.Payments.{Executed, execute_verified_withdrawal-Executed}
use stellarlend.Bridge.Life.{
  run_operation, Reaches, done, invoked, elapsed, count_invoked, run_operation-Steps,
}

-- What a whole sequence of invocations leaves of messages and recorded sources.
record History (s t : BridgeEnv) : Type 0 where
  kept :
      (id : ℕ) (m : CrossChainMessage)
      → lookup id s.message ≡ some m
      → (n : CrossChainMessage) × (lookup id t.message ≡ some n) × Kept m n
  recorded :
      (k : SourceMessageKey)
      → is_some (find k s.message_source) ≡ true
      → is_some (find k t.message_source) ≡ true
  consistent : IsConsistent t

step-History : (s t u : BridgeEnv) → Steps s t → History t u → History s u
step-History s t u a b = record {
  kept = λ id m h.
      let (n, e, k) = a.kept id m h in
      let (o, f, l) = b.kept id n e in (o, f, Kept-trans m n o k l);
  recorded = λ k h. b.recorded k (a.recorded k h);
  consistent = b.consistent;
}

Reaches-History :
    (s t : BridgeEnv) (r : Reaches s t)
    → IsConsistent s
    → last_id s + count_invoked r < u64_max
    → History s t
Reaches-History s _ done c h = record {
  kept = λ id m e. (m, e, Kept-refl m);
  recorded = λ k e. e;
  consistent = c;
}
Reaches-History s t (invoked op r) c h =
    let step = run_operation-Steps op s c (omega (arith, h)) in
    step-History s (run_operation op s) t step
      (Reaches-History (run_operation op s) t r step.consistent (omega (arith, h, step.next)))
Reaches-History s t (elapsed sequence signed r) c h =
    let u = record s { sequence = sequence; signed = signed } in
    let same = SameMessages-Steps s u c (record {
      message = refl;
      message_source = refl;
      message_attestation = refl;
      next_message_id = refl;
    }) in
    step-History s u t same (Reaches-History u t r same.consistent h)

-- From a consistent state, an execution, run as an entry point, either fails and leaves the state as
-- it was, or the stored message was neither executed nor invalidated, had no rejection, was final, at
-- least as many approvals of it as the quorum are on record, its channel was open and its
-- bridge known; then the total withdrawn from the bridge has grown by the amount, and the message is
-- stored as executed.
pub execute_verified_withdrawal-OkOrSame :
    (caller : Address) (id : ℕ) (s : BridgeEnv)
    → IsConsistent s
    → OkOrSame s
        (λ _ t. (m : CrossChainMessage) × Executed id m s t)
        (invoke (execute_verified_withdrawal caller id) s)
execute_verified_withdrawal-OkOrSame caller id s c =
    invoke-OkOrSame (λ _ t. (m : CrossChainMessage) × Executed id m s t)
      (execute_verified_withdrawal caller id) s (execute_verified_withdrawal-Executed caller id s c)

-- From a consistent state, a message that was executed or invalidated is never paid: after any
-- sequence of invocations and ledgers, too short to use up the 64-bit ids, its execution fails.
pub closed_never_paid :
    (s t : BridgeEnv) (caller : Address) (id : ℕ) (m : CrossChainMessage) (r : Reaches s t)
    → IsConsistent s
    → last_id s + count_invoked r < u64_max
    → lookup id s.message ≡ some m
    → (m.executed ≡ true) ⊎ (m.invalidated ≡ true)
    → OkOrSame t (λ _ _. ⊥) (invoke (execute_verified_withdrawal caller id) t)
closed_never_paid s t caller id m r c l h closed =
    let history = Reaches-History s t r c l in
    let (n, e, k) = history.kept id m h in
    invoke-OkOrSame (λ _ _. ⊥) (execute_verified_withdrawal caller id) t
      (OnOk-map (λ _ u. (o : CrossChainMessage) × Executed id o t u) (λ _ _. ⊥)
        (execute_verified_withdrawal caller id t)
        (execute_verified_withdrawal-Executed caller id t history.consistent)
        λ _ u p. ground (arith, p.1.stored, p.1.final, e, k, closed))

submit-refused :
    (caller : Address) (input : CrossChainMessageInput) (s : BridgeEnv)
    → is_some (find (source_key_of input) s.message_source) ≡ true
    → OnOk (λ _ _. ⊥) (submit_cross_chain_message caller input s)
unfolding submit_cross_chain_message
submit-refused caller input s h =
    ground (arith, check_input-same input s, open_channel-Opened input (load_security_config s) s)

-- From a consistent state, once a submission was accepted, a submission with the same channel, source
-- chain, transaction and nonce is refused, whoever sends it, after any sequence of invocations and
-- ledgers that is too short to use up the 64-bit ids.
pub no_replay :
    (s t u : BridgeEnv) (caller again : Address) (input input' : CrossChainMessageInput) (id : ℕ)
    (r : Reaches t u)
    → IsConsistent s
    → last_id s < u64_max
    → submit_cross_chain_message caller input s ≡ (ok id, t)
    → last_id t + count_invoked r < u64_max
    → source_key_of input' ≡ source_key_of input
    → OkOrSame u (λ _ _. ⊥) (invoke (submit_cross_chain_message again input') u)
no_replay s t u caller again input input' id r c l e b same =
    let first =
      subst (OnOk λ _ v. Steps s v × (is_some (find (source_key_of input) v.message_source) ≡ true))
        e (submit_cross_chain_message-Steps caller input s c l) in
    let history = Reaches-History t u r first.0.consistent b in
    invoke-OkOrSame (λ _ _. ⊥) (submit_cross_chain_message again input') u
      (submit-refused again input' u (
        history.recorded (source_key_of input')
          (subst (λ k. is_some (find k t.message_source) ≡ true) (sym same) first.1)))

-- The counters of a channel and of the bridge that a rejection is meant to move.
pub record SameCounts (s t : BridgeEnv) : Type 0 where
  pub anomalies :
      (id : String)
      → (load_channel_state t id).anomaly_count ≡ (load_channel_state s id).anomaly_count
  pub closed :
      (id : String)
      → (load_channel_state t id).emergency_closed ≡ (load_channel_state s id).emergency_closed
  pub replays : (load_stats t).replay_rejections ≡ (load_stats s).replay_rejections
  pub anomaly_events : (load_stats t).anomaly_events ≡ (load_stats s).anomaly_events

store_message-SameCounts :
    (input : CrossChainMessageInput) (cfg : SecurityConfig) (s : BridgeEnv)
    → OnOk
        (λ _ t. SameCounts s t)
        (store_message input cfg (load_channel_state s input.channel_id) s)
unfolding store_message
store_message-SameCounts input cfg s =
    let channel = load_channel_state s input.channel_id in
    let new = record channel {
      last_observed_nonce = input.nonce;
      last_observed_height = input.source_height;
    } in
    let written = λ (id : String). find-put id input.channel_id new s.channel in
    record {
      anomalies = λ id. ground (arith, written id, eq_iff id input.channel_id);
      closed = λ id. ground (arith, written id, eq_iff id input.channel_id);
      replays = refl;
      anomaly_events = refl;
    }

submit-SameCounts :
    (caller : Address) (input : CrossChainMessageInput) (s : BridgeEnv)
    → OnOk (λ _ t. SameCounts s t) (submit_cross_chain_message caller input s)
unfolding submit_cross_chain_message
submit-SameCounts caller input s = grind (
  arith,
  check_input-same input s,
  open_channel-Opened input (load_security_config s) s,
  store_message-SameCounts input (load_security_config s) s,
)

-- No submission, accepted or refused, counts an anomaly or a replay, or closes a channel: the writes
-- of a refused one are undone with it.
pub submit_counts_nothing :
    (caller : Address) (input : CrossChainMessageInput) (s : BridgeEnv)
    → SameCounts s (invoke (submit_cross_chain_message caller input) s).1
submit_counts_nothing caller input s =
    let m = submit_cross_chain_message caller input in
    OkOrSame-state (SameCounts s) s (λ _ t. SameCounts s t) (invoke m s)
      (invoke-OkOrSame (λ _ t. SameCounts s t) m s (submit-SameCounts caller input s))
      (record {
        anomalies = λ id. refl;
        closed = λ id. refl;
        replays = refl;
        anomaly_events = refl;
      })
      (λ _ t e. e)
