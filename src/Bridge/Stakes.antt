-- ===== src/Bridge/Stakes.antt =====
-- Stakes: what a slash takes, and from whom (bridge/src/bridge.rs).
pub mod Guilty
mod Cuts
use Prim.Native.Nat.{min, max}
use native.Mathlib.Nat.{le-div_iff_mul-le, div-mul-le_self}
use stellarlend.Prelude.{
  ℕ, zero, suc, ◌+◌, ◌-◌, ◌^◌, leb, ◌*◌, ◌/◌, ◌≤◌, ◌<◌, ◌≡◌, refl, sym, ap, subst, ◌∙◌, Bool-cases,
  Option-cases, inl, inr, Bool, true, false, ◌&&◌, Option, none, some, List, [], ◌∷◌, arith,
  if◌then◌else◌, ◌==◌,
}
use stellarlend.Prelude.{div_mono, mul_mono}
use stellarlend.Prelude.Int.{
  ℤ, pos, negsuc, pos_part, neg_part, ◌+ℤ◌, ◌-ℤ◌, ◌*ℤ◌, div, ◌≤ℤ◌, ◌<ℤ◌, pos-*ℤ, pos--ℤ, pos-+ℤ,
  -ℤ_parts, +ℤ_parts, int_laws, leb_ℤ,
}
use stellarlend.Prelude.I128.{i128_max, saturating_mul, saturating_add, saturating_sub}
use stellarlend.Prelude.Dict.{Dict, lookup, insert, lookup-insert}
use stellarlend.Storage.Borrow.{Address}
use stellarlend.Host.{◌>>=◌, pure}
use stellarlend.Host.Laws.{OnOk, OnOk-bind}
use stellarlend.Bridge.State.{BridgeEnv, ValidatorRecord}
use stellarlend.Bridge.Access.{slash_amount, load_security_config}
use stellarlend.Bridge.Slash.{
  slashed_record, slash_validator, slash_if, slash_all, slash_conflicting_messages, approved,
}

-- The product of a stake and a rate, which stops at the end of the range.
saturating_mul-pos :
    (n b : ℕ)
    → saturating_mul (pos n) (pos b)
      ≡ (if leb_ℤ (pos (n * b)) i128_max then pos (n * b) else i128_max)
unfolding saturating_mul
saturating_mul-pos n b = rw (pos-*ℤ n b) (ground arith)

share-le : (n b : ℕ) → b ≤ 10000 → n * b / 10000 ≤ n
share-le n b h = grind arith

-- A slash takes at least 1 of a stake that is not 0, and at most all of it.
pub record IsCut (stake amount : ℤ) : Type 0 where
  pub nonneg : pos 0 ≤ℤ amount
  pub within : amount ≤ℤ stake
  pub something : pos 1 ≤ℤ stake → pos 1 ≤ℤ amount

slash_amount-IsCut :
    (a : ℤ) (b : ℕ) → pos 0 ≤ℤ a → a ≤ℤ i128_max → b ≤ 10000 → IsCut a (slash_amount a b)
unfolding slash_amount div
slash_amount-IsCut (negsuc n) b p r h = absurd (omega arith)
slash_amount-IsCut (pos n) b p r h = record {
  nonneg = ground (arith, saturating_mul-pos n b, share-le n b h);
  within = ground (arith, saturating_mul-pos n b, share-le n b h);
  something = λ q. ground (arith, saturating_mul-pos n b, share-le n b h);
}

saturating_sub-le : (a b : ℤ) → pos 0 ≤ℤ b → b ≤ℤ a → a ≤ℤ i128_max → saturating_sub a b ≡ a -ℤ b
unfolding saturating_sub
saturating_sub-le a b p h r = ground (arith, -ℤ_parts a b)

saturating_add-le :
    (a b : ℤ) → pos 0 ≤ℤ a → pos 0 ≤ℤ b → a +ℤ b ≤ℤ i128_max → saturating_add a b ≡ a +ℤ b
unfolding saturating_add
saturating_add-le a b p q r = ground (arith, +ℤ_parts a b)

-- Neither the stake nor what was slashed is negative, and together they fit in an i128.
pub record IsStaked (r : ValidatorRecord) : Type 0 where
  pub stake : pos 0 ≤ℤ r.stake
  pub slashed : pos 0 ≤ℤ r.slashed_total
  pub range : r.stake +ℤ r.slashed_total ≤ℤ i128_max

-- What slashes do to a record: the stake falls by what the slashed total grows.
pub record SlashedTo (r q : ValidatorRecord) : Type 0 where
  pub staked : IsStaked q
  pub conserved : q.stake +ℤ q.slashed_total ≡ r.stake +ℤ r.slashed_total
  pub falls : q.stake ≤ℤ r.stake
  pub approvals : q.approvals ≡ r.approvals

-- A stake that is not 0 falls.
pub slashed_record-SlashedTo :
    (r : ValidatorRecord) (bps : ℕ)
    → IsStaked r
    → bps ≤ 10000
    → SlashedTo r (slashed_record r bps)
      × (pos 1 ≤ℤ r.stake → (slashed_record r bps).stake <ℤ r.stake)
unfolding slashed_record
slashed_record-SlashedTo r bps k h =
    let amount = slash_amount r.stake bps in
    let range : r.stake ≤ℤ i128_max = omega (int_laws, k) in
    let cut = slash_amount-IsCut r.stake bps k.stake range h in
    let less = saturating_sub-le r.stake amount cut.nonneg cut.within range in
    let more =
      saturating_add-le r.slashed_total amount k.slashed cut.nonneg (omega (int_laws, cut, k)) in
    (
      record {
        staked = record {
          stake = rw less (omega (int_laws, cut));
          slashed = rw more (omega (int_laws, cut, k));
          range = rw (less, more) (omega (int_laws, cut, k));
        };
        conserved = rw (less, more) (omega (int_laws, cut, k));
        falls = rw less (omega (int_laws, cut));
        approvals = refl;
      },
      λ p. rw less (omega (int_laws, cut, cut.something p)),
    )

-- What one slash takes: the rate of the stake, the product stopping at the end of i128, and at least 1
-- of a stake that is not 0.
abbrev pub share : ℕ → ℕ → ℕ
share bps n = if n == 0 then 0 else max 1 (min (n * bps) (2 ^ 127 - 1) / 10000)

-- The share goes from the stake to the slashed total; without a stake the validator is not active.
abbrev pub cut_once : ℕ → ValidatorRecord → ValidatorRecord
cut_once bps r =
    let taken = share bps (pos_part r.stake) in
    record r {
      stake = pos (pos_part r.stake - taken);
      slashed_total = pos (pos_part r.slashed_total + taken);
      active = if leb (pos_part r.stake) taken then false else r.active;
    }

nonneg-pos : (a : ℤ) → pos 0 ≤ℤ a → a ≡ pos (pos_part a)
nonneg-pos (pos n) h = refl
nonneg-pos (negsuc n) h = absurd (omega (arith, h))

slash_amount-share : (n bps : ℕ) → n ≤ 2 ^ 127 - 1 → slash_amount (pos n) bps ≡ pos (share bps n)
unfolding slash_amount div
slash_amount-share zero bps h = ground (arith, saturating_mul-pos 0 bps)
slash_amount-share (suc n) bps h = ground (arith, saturating_mul-pos (suc n) bps)

pub slashed_record-cut_once :
    (r : ValidatorRecord) (bps : ℕ)
    → IsStaked r
    → bps ≤ 10000
    → slashed_record r bps ≡ cut_once bps r
unfolding slashed_record
slashed_record-cut_once r bps k b =
    let n = pos_part r.stake in
    let m = pos_part r.slashed_total in
    let taken = share bps n in
    let stake : r.stake ≡ pos n = nonneg-pos r.stake k.stake in
    let slashed : r.slashed_total ≡ pos m = nonneg-pos r.slashed_total k.slashed in
    let range : r.stake ≤ℤ i128_max = omega (int_laws, k) in
    let small : n ≤ 2 ^ 127 - 1 = ground (arith, range, stake) in
    let amount : slash_amount r.stake bps ≡ pos taken =
      ap (λ x. slash_amount x bps) stake ∙ slash_amount-share n bps small in
    let part = slash_amount-IsCut r.stake bps k.stake range b in
    let within : taken ≤ n = ground (arith, part.within, amount, stake) in
    let less : saturating_sub r.stake (slash_amount r.stake bps) ≡ pos (n - taken) =
      saturating_sub-le r.stake (slash_amount r.stake bps) part.nonneg part.within range
      ∙ cc (amount, stake)
      ∙ pos--ℤ n taken within in
    let more : saturating_add r.slashed_total (slash_amount r.stake bps) ≡ pos (m + taken) =
      saturating_add-le r.slashed_total (slash_amount r.stake bps) k.slashed part.nonneg
        (omega (int_laws, part.within, k))
      ∙ cc (amount, slashed)
      ∙ pos-+ℤ m taken in
    rw (less, more) (ground (arith, within))
