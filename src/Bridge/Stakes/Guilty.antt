-- ===== src/Bridge/Stakes/Guilty.antt =====
-- Whom a slash hits (bridge/src/bridge.rs).
use stellarlend.Prelude.{
  ℕ, ◌≤◌, ◌≡◌, refl, ap, ◌∙◌, Bool, true, false, ◌&&◌, some, List, [], ◌∷◌, arith, if◌then◌else◌,
  Bool-cases, inl, inr,
}
use stellarlend.Prelude.Dict.{lookup, insert}
use stellarlend.Prelude.Table.{Table, find, nat_key, pair_key}
use stellarlend.Storage.Borrow.{Address}
use stellarlend.Host.{◌>>=◌, pure, reject_if, invoke}
use stellarlend.Host.Laws.{OnOk, OnOk-bind, OnOk-map, OnOk-and, OkOrSame, invoke-OkOrSame}
use stellarlend.Bridge.State.{BridgeEnv, CrossChainMessage, ValidatorRecord, nothing_to_slash}
use stellarlend.Bridge.Access.{
  load_security_config, validator_list, message_payload_matches, record_channel_anomaly,
}
use stellarlend.Bridge.Slash.{
  is_approval, is_empty, same_source, slash_if, slash_all, slash_found, invalidate_both,
  slash_conflicting_messages,
}
use stellarlend.Bridge.Consistent.{SameMessages}
use stellarlend.Bridge.Consistent.Admin.{slash_if-Spares, slash_all-Spares}
use stellarlend.Bridge.Stakes.{IsStaked}
use stellarlend.Bridge.Stakes.Cuts.{hits, cut_times, CutTo, cut_times-CutTo, slash_all-cut}

-- The validators of a list who have approved both messages, in the order of the list.
abbrev pub has_approved_both : Table (ℕ × Address) Bool → ℕ → ℕ → Address → Bool
has_approved_both votes x y v = is_approval (find (x, v) votes) && is_approval (find (y, v) votes)

abbrev pub guilty : Table (ℕ × Address) Bool → ℕ → ℕ → List Address → List Address
guilty votes x y [] = []
guilty votes x y (v ∷ rest) =
    if has_approved_both votes x y v then v ∷ guilty votes x y rest else guilty votes x y rest

slash_all-guilty :
    (l : List Address) (x y bps : ℕ) (s : BridgeEnv)
    → OnOk (λ slashed _. slashed ≡ guilty s.message_attestation x y l) (slash_all l x y bps s)
unfolding slash_all
slash_all-guilty [] x y bps s = refl
slash_all-guilty (v ∷ rest) x y bps s =
    let both = has_approved_both s.message_attestation x y v in
    let Q = λ (slashed : List Address) (_ : BridgeEnv).
      slashed ≡ guilty s.message_attestation x y (v ∷ rest) in
    let keep = λ (slashed : List Address). if both then v ∷ slashed else slashed in
    OnOk-bind (λ _ t. SameMessages s t) Q (slash_if both v bps)
      (λ _. slash_all rest x y bps >>= λ slashed. pure (keep slashed)) s
      (slash_if-Spares both v bps s)
      λ _ t h.
        OnOk-bind (λ slashed _. slashed ≡ guilty t.message_attestation x y rest) Q
          (slash_all rest x y bps) (λ slashed. pure (keep slashed)) t
          (slash_all-guilty rest x y bps t)
          λ slashed u e. ap keep (e ∙ ap (λ votes. guilty votes x y rest) h.message_attestation)

-- The records of the validators after a slash at a rate: an address that is not returned keeps its
-- record, whether it is a validator or not, and a stake is cut as often as its address is returned.
pub record Slashed (bps : ℕ) (slashed : List Address) (s t : BridgeEnv) : Type 0 where
  pub spared : (v : Address) → hits v slashed ≡ 0 → lookup v t.validator ≡ lookup v s.validator
  pub cut_down :
      (v : Address) (r : ValidatorRecord)
      → lookup v s.validator ≡ some r
      → IsStaked r
      → (q : ValidatorRecord) × (lookup v t.validator ≡ some q) × CutTo (hits v slashed) bps r q

slash_all-Slashed :
    (l : List Address) (x y bps : ℕ) (s : BridgeEnv)
    → bps ≤ 10000
    → OnOk (λ slashed t. Slashed bps slashed s t) (slash_all l x y bps s)
slash_all-Slashed l x y bps s b =
    OnOk-map
      (λ slashed t.
        (v : Address)
        → lookup v t.validator ≡ cut_times (hits v slashed) bps (lookup v s.validator))
      (λ slashed t. Slashed bps slashed s t) (slash_all l x y bps s) (slash_all-cut l x y bps s)
      λ slashed t h. record {
        spared = λ v e. h v ∙ ap (λ n. cut_times n bps (lookup v s.validator)) e;
        cut_down = λ v r e k.
            let (q, f, done) = cut_times-CutTo (hits v slashed) bps r b k in
            (q, h v ∙ ap (cut_times (hits v slashed) bps) e ∙ f, done);
      }

-- What a slash has checked, and what it leaves.
pub record Slashing (x y : ℕ) (slashed : List Address) (s t : BridgeEnv) : Type 0 where
  pub messages :
      (first : CrossChainMessage) × (second : CrossChainMessage) × (lookup x s.message ≡ some first)
      × (lookup y s.message ≡ some second)
      × (same_source first second ≡ true)
      × (message_payload_matches first second ≡ false)
      × (t.message
          ≡ insert second.message_id
              (record second { invalidated = true })
              (insert first.message_id (record first { invalidated = true }) s.message))
  pub hit : slashed ≡ guilty s.message_attestation x y (validator_list s)
  pub someone : is_empty slashed ≡ false
  pub stakes : Slashed (load_security_config s).slash_bps slashed s t

record Invalidated (first second : CrossChainMessage) (s t : BridgeEnv) : Type 0 where
  message :
      t.message
      ≡ insert second.message_id
          (record second { invalidated = true })
          (insert first.message_id (record first { invalidated = true }) s.message)
  validator : t.validator ≡ s.validator

invalidate_both-Invalidated :
    (first second : CrossChainMessage) (s : BridgeEnv)
    → OnOk (λ _ t. Invalidated first second s t) (invalidate_both first second s)
unfolding invalidate_both record_channel_anomaly
invalidate_both-Invalidated first second s = ground arith

-- What the loop over the validators has done.
record Looped (x y bps : ℕ) (slashed : List Address) (s t : BridgeEnv) : Type 0 where
  hit : slashed ≡ guilty s.message_attestation x y (validator_list s)
  same : SameMessages s t
  stakes : Slashed bps slashed s t

slash_all-Looped :
    (x y bps : ℕ) (s : BridgeEnv)
    → bps ≤ 10000
    → OnOk (λ l t. Looped x y bps l s t) (slash_all (validator_list s) x y bps s)
slash_all-Looped x y bps s b =
    let l = validator_list s in
    let run = slash_all l x y bps s in
    let G =
      λ (slashed : List Address) (_ : BridgeEnv). slashed ≡ guilty s.message_attestation x y l in
    let P =
      λ (slashed : List Address) (t : BridgeEnv). SameMessages s t × Slashed bps slashed s t in
    OnOk-map (λ a t. G a t × P a t) (λ a t. Looped x y bps a s t) run
      (OnOk-and G P run (slash_all-guilty l x y bps s) (
        OnOk-and (λ _ t. SameMessages s t) (λ a t. Slashed bps a s t) run
          (slash_all-Spares l x y bps s) (slash_all-Slashed l x y bps s b)))
      λ a t p. record { hit = p.0; same = p.1.0; stakes = p.1.1 }

module _ (x y : ℕ) (first second : CrossChainMessage) (s : BridgeEnv)
    (small : (load_security_config s).slash_bps ≤ 10000) (h : lookup x s.message ≡ some first)
    (k : lookup y s.message ≡ some second) where
  finish-Slashing :
      (slashed : List Address) (t : BridgeEnv)
      → Looped x y (load_security_config s).slash_bps slashed s t
      → same_source first second ≡ true
      → message_payload_matches first second ≡ false
      → OnOk
          (λ l u. Slashing x y l s u)
          ((reject_if (is_empty slashed) nothing_to_slash >>= λ _.
              (invalidate_both first second >>= λ _. pure slashed))
            t)
  finish-Slashing slashed t looped source payload = elim (Bool-cases (is_empty slashed)) [
    | inl e ↦ rw e tt
    | inr e ↦ rw e (
        OnOk-bind (λ _ u. Invalidated first second t u) (λ l u. Slashing x y l s u)
          (invalidate_both first second) (λ _. pure slashed) t
          (invalidate_both-Invalidated first second t)
          λ _ u done. record {
            messages = (
              first,
              second,
              h,
              k,
              source,
              payload,
              done.message
                  ∙ ap
                      (λ m.
                        insert second.message_id (record second { invalidated = true })
                          (insert first.message_id (record first { invalidated = true }) m))
                      looped.same.message,
            );
            hit = looped.hit;
            someone = e;
            stakes = record {
              spared = λ v n. ap (lookup v) done.validator ∙ looped.stakes.spared v n;
              cut_down = λ v r g staked.
                  let (q, e, c) = looped.stakes.cut_down v r g staked in
                  (q, ap (lookup v) done.validator ∙ e, c);
            };
          })
  ]

  slash_found-Slashing : OnOk (λ l t. Slashing x y l s t) (slash_found x y first second s)
  unfolding slash_found
  slash_found-Slashing = elim (Bool-cases (same_source first second)) [
    | inr e ↦ rw e tt
    | inl e ↦ elim (Bool-cases (message_payload_matches first second)) [
      | inl f ↦ rw (e, f) tt
      | inr f ↦
          rw (e, f)
            (OnOk-bind (λ l t. Looped x y (load_security_config s).slash_bps l s t)
              (λ l t. Slashing x y l s t)
              (slash_all (validator_list s) x y (load_security_config s).slash_bps)
              (λ slashed. reject_if (is_empty slashed) nothing_to_slash >>= λ _.
                (invalidate_both first second >>= λ _. pure slashed))
              s (slash_all-Looped x y (load_security_config s).slash_bps s small)
              λ slashed t looped. finish-Slashing slashed t looped e f)
    ]
  ]

slash-Slashing :
    (caller : Address) (x y : ℕ) (s : BridgeEnv)
    → (load_security_config s).slash_bps ≤ 10000
    → OnOk (λ l t. Slashing x y l s t) (slash_conflicting_messages caller x y s)
unfolding slash_conflicting_messages
slash-Slashing caller x y s b = grind (arith, slash_found-Slashing x y)

-- With a slash rate of at most 10000 basis points, a slash, run as an entry point, either fails and
-- leaves the state as it was, or it found two messages of one source that differ, and returns exactly
-- the listed validators who approved both, at least one; both messages are invalidated. Every address
-- that is not returned keeps its validator record. A validator's record whose stake and slashed total
-- were not negative and fit together in an i128 is cut as often as its address is returned: each time
-- the rate of the stake (the product stopping at the end of i128), rounded down but at least 1 if the
-- stake is not 0, goes from the stake to the slashed total, their sum stays, and the validator is
-- inactive once nothing is left; a stake that is not 0 falls.
pub slash_conflicting_messages-OkOrSame :
    (caller : Address) (x y : ℕ) (s : BridgeEnv)
    → (load_security_config s).slash_bps ≤ 10000
    → OkOrSame s (λ l t. Slashing x y l s t) (invoke (slash_conflicting_messages caller x y) s)
slash_conflicting_messages-OkOrSame caller x y s b =
    invoke-OkOrSame (λ l t. Slashing x y l s t) (slash_conflicting_messages caller x y) s
      (slash-Slashing caller x y s b)
