-- ===== src/Bridge/Stakes/Cuts.antt =====
-- The loop of slash_conflicting_messages over the validators (bridge/src/bridge.rs).
use stellarlend.Prelude.{
  ℕ, zero, suc, ◌≤◌, ◌<◌, ◌≡◌, refl, ap, subst, ◌∙◌, Bool-cases, Option-cases, inl, inr, Bool, true,
  false, ◌&&◌, Option, none, some, List, [], ◌∷◌, arith, if◌then◌else◌, ◌==◌,
}
use stellarlend.Prelude.Int.{pos, ◌≤ℤ◌, ◌<ℤ◌}
use stellarlend.Prelude.Dict.{lookup, lookup-insert}
use stellarlend.Storage.Borrow.{Address}
use stellarlend.Host.{◌>>=◌, pure}
use stellarlend.Host.Laws.{OnOk, OnOk-bind}
use stellarlend.Bridge.State.{BridgeEnv, ValidatorRecord}
use stellarlend.Bridge.Slash.{slashed_record, slash_validator, slash_if, slash_all, approved}
use stellarlend.Bridge.Stakes.{
  IsStaked, SlashedTo, cut_once, slashed_record-cut_once, slashed_record-SlashedTo,
}

SlashedTo-refl : (r : ValidatorRecord) → IsStaked r → SlashedTo r r
SlashedTo-refl r k = record { staked = k; conserved = refl; falls = omega arith; approvals = refl }

SlashedTo-trans : (r q p : ValidatorRecord) → SlashedTo r q → SlashedTo q p → SlashedTo r p
SlashedTo-trans r q p a b = record {
  staked = b.staked;
  conserved = b.conserved ∙ a.conserved;
  falls = omega (arith, a.falls, b.falls);
  approvals = b.approvals ∙ a.approvals;
}

-- How often an address stands in a list.
abbrev pub hits : Address → List Address → ℕ
hits v [] = 0
hits v (w ∷ rest) = if v == w then suc (hits v rest) else hits v rest

abbrev pub cut : ℕ → Option ValidatorRecord → Option ValidatorRecord
cut bps none = none
cut bps (some r) = some (slashed_record r bps)

-- What is stored of a validator after so many cuts.
abbrev pub cut_times : ℕ → ℕ → Option ValidatorRecord → Option ValidatorRecord
cut_times zero bps o = o
cut_times (suc n) bps o = cut_times n bps (cut bps o)

abbrev pub cut_repeatedly : ℕ → ℕ → ValidatorRecord → ValidatorRecord
cut_repeatedly zero bps r = r
cut_repeatedly (suc n) bps r = cut_repeatedly n bps (cut_once bps r)

-- After `n` cuts the record is as described, and a stake that is not 0 has fallen if there was a cut.
pub record CutTo (n bps : ℕ) (r q : ValidatorRecord) : Type 0 where
  pub exactly : q ≡ cut_repeatedly n bps r
  pub to : SlashedTo r q
  pub strictly : 0 < n → pos 1 ≤ℤ r.stake → q.stake <ℤ r.stake

pub cut_times-CutTo :
    (n bps : ℕ) (r : ValidatorRecord)
    → bps ≤ 10000
    → IsStaked r
    → (q : ValidatorRecord) × (cut_times n bps (some r) ≡ some q) × CutTo n bps r q
cut_times-CutTo zero bps r b k = (
  r,
  refl,
  record { exactly = refl; to = SlashedTo-refl r k; strictly = λ h. absurd (omega (arith, h)) },
)
cut_times-CutTo (suc n) bps r b k =
    let once = slashed_record r bps in
    let (first, less) = slashed_record-SlashedTo r bps k b in
    let (q, e, rest) = cut_times-CutTo n bps once b first.staked in
    (
      q,
      e,
      record {
        exactly = rest.exactly ∙ ap (cut_repeatedly n bps) (slashed_record-cut_once r bps k b);
        to = SlashedTo-trans r once q first rest.to;
        strictly = λ _ p. omega (arith, less p, rest.to.falls);
      },
    )

-- A round and the rest of the loop are the whole loop.
cut_times-step :
    (both : Bool) (v w : Address) (slashed : List Address) (bps : ℕ)
    (a b c : Option ValidatorRecord)
    → b ≡ (if both && v == w then cut bps a else a)
    → c ≡ cut_times (hits v slashed) bps b
    → c ≡ cut_times (hits v (if both then w ∷ slashed else slashed)) bps a
cut_times-step false v w slashed bps a b c e k =
    subst (λ x. c ≡ cut_times (hits v slashed) bps x) e k
cut_times-step true v w slashed bps a b c e k = elim (Bool-cases (v == w)) [
  | inl same ↦
      let first : b ≡ cut bps a = ground (arith, e, same) in
      rw same (subst (λ x. c ≡ cut_times (hits v slashed) bps x) first k)
  | inr other ↦
      let first : b ≡ a = ground (arith, e, other) in
      rw other (subst (λ x. c ≡ cut_times (hits v slashed) bps x) first k)
]

-- One round of the loop cuts the stake of its validator if the flag is set, and no other.
slash_if-cut :
    (both : Bool) (w : Address) (bps : ℕ) (s : BridgeEnv)
    → OnOk
        (λ _ t.
          (v : Address)
          → lookup v t.validator
            ≡ (if both && v == w then cut bps (lookup v s.validator) else lookup v s.validator))
        (slash_if both w bps s)
unfolding slash_if slash_validator
slash_if-cut false w bps s = λ v. refl
slash_if-cut true w bps s = elim (Option-cases (lookup w s.validator)) [
  | inl e ↦ rw e tt
  | inr (r, e) ↦ rw e (λ v. ground (arith, lookup-insert v w (slashed_record r bps) s.validator, e))
]

-- The loop over the validators cuts the stake of each address as often as the address is returned.
pub slash_all-cut :
    (l : List Address) (x y bps : ℕ) (s : BridgeEnv)
    → OnOk
        (λ slashed t.
          (v : Address)
          → lookup v t.validator ≡ cut_times (hits v slashed) bps (lookup v s.validator))
        (slash_all l x y bps s)
unfolding slash_all
slash_all-cut [] x y bps s = λ v. refl
slash_all-cut (w ∷ rest) x y bps s =
    let both = approved s x w && approved s y w in
    let Q = λ (slashed : List Address) (t : BridgeEnv).
      (v : Address)
      → lookup v t.validator ≡ cut_times (hits v slashed) bps (lookup v s.validator) in
    OnOk-bind
      (λ _ t.
        (v : Address)
        → lookup v t.validator
          ≡ (if both && v == w then cut bps (lookup v s.validator) else lookup v s.validator))
      Q (slash_if both w bps)
      (λ _. slash_all rest x y bps >>= λ slashed. pure (if both then w ∷ slashed else slashed)) s
      (slash_if-cut both w bps s)
      λ _ t h.
        OnOk-bind
          (λ slashed u.
            (v : Address)
            → lookup v u.validator ≡ cut_times (hits v slashed) bps (lookup v t.validator))
          Q (slash_all rest x y bps) (λ slashed. pure (if both then w ∷ slashed else slashed)) t
          (slash_all-cut rest x y bps t)
          λ slashed u k v.
            cut_times-step both v w slashed bps (lookup v s.validator) (lookup v t.validator)
              (lookup v u.validator) (h v) (k v)
