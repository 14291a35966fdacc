-- ===== src/Liquidation/Laws.antt =====
-- What a liquidation ensures.
use stellarlend.Prelude.{sym, subst, inl, inr, ap, ◌∙◌, ◌≡◌, ◌⊎◌, true, false, arith, ⊤}
use stellarlend.Prelude.Int.{ℤ, pos, ◌+ℤ◌, ◌-ℤ◌, ◌≤ℤ◌, ◌<ℤ◌, int_laws}
use stellarlend.Prelude.Dict.{lookup, insert, sum_by, sum_by-insert, amount_of}
use stellarlend.Storage.Borrow.{Address}
use stellarlend.Storage.Pause.{PauseType}
use stellarlend.Host.Result.{ok}
use stellarlend.Host.{Env, invoke}
use stellarlend.Host.Laws.{OnOk, OkOrSame, OnOk-map, invoke-OkOrSame, OkOrSame-state}
use stellarlend.Settings.{BorrowError}
use stellarlend.Pause.{is_paused}
use stellarlend.Debt.Interest.Laws.{Frame, Frame-trans}
use stellarlend.Views.{get_debt_value, get_health_factor}
use stellarlend.Views.Laws.{get_debt_value-Frame, get_health_factor-Frame}
use stellarlend.Liquidation.{
  get_total_bad_debt, get_reserves, user_bad_debt, add_bad_debt, record_shortfall, liquidate,
}

-- The bad debt of a user grew by an amount, and so did the total.
pub record BadDebtAdded (user : Address) (amount : ℤ) (s t : Env) : Type 0 where
  pub total : get_total_bad_debt t ≡ get_total_bad_debt s +ℤ amount
  pub users : t.bad_debt.user ≡ insert user (user_bad_debt s user +ℤ amount) s.bad_debt.user
  pub reserves : get_reserves t ≡ get_reserves s

-- The storage but for the bad debt and the events is as before.
record Untouched (s t : Env) : Type 0 where
  borrow : t.borrow ≡ s.borrow
  vault : t.vault ≡ s.vault
  cross : t.cross ≡ s.cross
  commitments : t.commitments ≡ s.commitments

add_bad_debt-BadDebtAdded :
    (user : Address) (amount : ℤ) (s : Env)
    → OnOk
        (λ _ t. BadDebtAdded user amount s t × Untouched s t)
        (add_bad_debt {E = BorrowError} user amount s)
unfolding add_bad_debt
add_bad_debt-BadDebtAdded user amount s = ground arith

-- What the shortfall of a repayment leads to: none, and the bad debt stays, or bad debt of that size.
abbrev pub Covers : Address → ℤ → ℤ → Env → Env → Type 0
Covers user debt_value repaid s t =
    ((debt_value ≤ℤ repaid) × (t.bad_debt ≡ s.bad_debt))
    ⊎ ((repaid <ℤ debt_value) × BadDebtAdded user (debt_value -ℤ repaid) s t)

record_shortfall-Covers :
    (user : Address) (debt_value repaid : ℤ) (s : Env)
    → OnOk
        (λ _ t. Covers user debt_value repaid s t × Untouched s t)
        (record_shortfall user debt_value repaid s)
unfolding record_shortfall
record_shortfall-Covers user debt_value repaid s =
    ground (arith, add_bad_debt-BadDebtAdded user (debt_value -ℤ repaid) s)

-- What a liquidation ensures: every position of every user is as before, the legacy copy of a debt
-- and the scheduled borrows too.
pub record Liquidated (liquidator borrower : Address) (repay_amount : ℤ) (s t : Env) : Type 0 where
  pub signed : s.signed liquidator ≡ true
  pub not_paused : is_paused s PauseType.liquidation ≡ false
  pub debt_value : ℤ
  pub debt_value_read : (get_debt_value {E = BorrowError} borrower s).0 ≡ ok debt_value
  pub health : ℤ
  pub health_read :
      (get_health_factor {E = BorrowError} borrower
        (get_debt_value {E = BorrowError} borrower s).1).0
      ≡ ok health
  pub unhealthy : health <ℤ pos 10000
  pub recorded : Covers borrower debt_value repay_amount s t
  pub user_debt : t.borrow.user_debt ≡ s.borrow.user_debt
  pub user_variable_debt : t.borrow.user_variable_debt ≡ s.borrow.user_variable_debt
  pub user_stable_debt : t.borrow.user_stable_debt ≡ s.borrow.user_stable_debt
  pub user_collateral : t.borrow.user_collateral ≡ s.borrow.user_collateral
  pub total_debt : t.borrow.total_debt ≡ s.borrow.total_debt
  pub vault : t.vault ≡ s.vault
  pub cross : t.cross ≡ s.cross
  pub commitments : t.commitments ≡ s.commitments

-- The same, seen from the environment `viewed` after the two views.
record Viewed (liquidator borrower : Address) (repay_amount : ℤ) (s t : Env) : Type 0 where
  signed : s.signed liquidator ≡ true
  not_paused : is_paused s PauseType.liquidation ≡ false
  debt_value : ℤ
  debt_value_read : (get_debt_value {E = BorrowError} borrower s).0 ≡ ok debt_value
  health : ℤ
  health_read :
      (get_health_factor {E = BorrowError} borrower
        (get_debt_value {E = BorrowError} borrower s).1).0
      ≡ ok health
  unhealthy : health <ℤ pos 10000
  viewed : Env
  only_viewed : Frame s viewed
  recorded : Covers borrower debt_value repay_amount viewed t
  untouched : Untouched viewed t

Covers-Frame :
    (user : Address) (debt_value repaid : ℤ) (s v t : Env)
    → Frame s v
    → Covers user debt_value repaid v t
    → Covers user debt_value repaid s t
Covers-Frame user debt_value repaid s v t f (inl (p, e)) = inl (p, e ∙ f.bad_debt)
Covers-Frame user debt_value repaid s v t f (inr (p, a)) = inr (p, ground arith)

module _ (liquidator borrower : Address) (repay_amount : ℤ) (s : Env) where
  abbrev Post : ⊤ → Env → Type 0
  Post _ t = Liquidated liquidator borrower repay_amount s t

  liquidate-Viewed :
      OnOk
        (λ _ t. Viewed liquidator borrower repay_amount s t)
        (liquidate liquidator borrower repay_amount s)
  unfolding liquidate
  liquidate-Viewed =
      let u = (get_debt_value {E = BorrowError} borrower s).1 in
      let v = (get_health_factor {E = BorrowError} borrower u).1 in
      grind (
        arith,
        get_debt_value-Frame BorrowError borrower s,
        get_health_factor-Frame BorrowError borrower u,
        record_shortfall-Covers borrower,
        Frame-trans {s = s} {t = u} {u = v},
      )

  Viewed-Liquidated :
      (t : Env)
      → Viewed liquidator borrower repay_amount s t
      → Liquidated liquidator borrower repay_amount s t
  Viewed-Liquidated t d =
      let f = d.only_viewed in
      record {
        signed = d.signed;
        not_paused = d.not_paused;
        debt_value = d.debt_value;
        debt_value_read = d.debt_value_read;
        health = d.health;
        health_read = d.health_read;
        unhealthy = d.unhealthy;
        recorded = Covers-Frame borrower d.debt_value repay_amount s d.viewed t f d.recorded;
        user_debt = ap (λ b. b.user_debt) d.untouched.borrow ∙ f.user_debt;
        user_variable_debt =
            ap (λ b. b.user_variable_debt) d.untouched.borrow ∙ f.user_variable_debt;
        user_stable_debt = ap (λ b. b.user_stable_debt) d.untouched.borrow ∙ f.user_stable_debt;
        user_collateral = ap (λ b. b.user_collateral) d.untouched.borrow ∙ f.user_collateral;
        total_debt = ap (λ b. b.total_debt) d.untouched.borrow ∙ f.total_debt;
        vault = d.untouched.vault ∙ f.vault;
        cross = d.untouched.cross ∙ f.cross;
        commitments = d.untouched.commitments ∙ f.commitments;
      }

  liquidate-Liquidated : OnOk Post (liquidate liquidator borrower repay_amount s)
  liquidate-Liquidated =
      OnOk-map (λ _ t. Viewed liquidator borrower repay_amount s t) Post
        (liquidate liquidator borrower repay_amount s) liquidate-Viewed (λ _ t. Viewed-Liquidated t)

-- A liquidation, as the host runs it, either fails and changes nothing, or the liquidator had signed,
-- liquidations were not paused and the health factor was below 10000. Then what the repaid amount lacks
-- to the value of the debt is added to the bad debt of the borrower and in total. No debt of any user under
-- any of the three keys, no borrow collateral, no deposit, no multi-asset position and no scheduled
-- borrow has changed, nor the total debt: nothing is repaid and nothing is seized.
pub liquidate-OkOrSame :
    (liquidator borrower : Address) (repay_amount : ℤ) (s : Env)
    → OkOrSame s
        (λ _ t. Liquidated liquidator borrower repay_amount s t)
        (invoke (liquidate liquidator borrower repay_amount) s)
liquidate-OkOrSame liquidator borrower repay_amount s =
    invoke-OkOrSame (λ _ t. Liquidated liquidator borrower repay_amount s t)
      (liquidate liquidator borrower repay_amount) s
      (liquidate-Liquidated liquidator borrower repay_amount s)

-- The total bad debt is the sum over the users.
abbrev pub IsAccounted : Env → Type 0
IsAccounted s = get_total_bad_debt s ≡ sum_by (λ x. x) s.bad_debt.user

user_bad_debt-amount_of :
    (s : Env) (user : Address)
    → user_bad_debt s user ≡ amount_of (λ x. x) (lookup user s.bad_debt.user)
user_bad_debt-amount_of s user = ground arith

insert_sum :
    (amount old before after total : ℤ) {total' : ℤ}
    → after +ℤ old ≡ before +ℤ (old +ℤ amount)
    → total ≡ before
    → total' ≡ total +ℤ amount
    → total' ≡ after
insert_sum amount old before after total a b c = grind int_laws

Covers-IsAccounted :
    (user : Address) (debt_value repaid : ℤ) (s t : Env)
    → Covers user debt_value repaid s t
    → IsAccounted s
    → IsAccounted t
Covers-IsAccounted user debt_value repaid s t (inl (_, same)) h = rw same h
Covers-IsAccounted user debt_value repaid s t (inr (_, added)) h =
    insert_sum (debt_value -ℤ repaid) (user_bad_debt s user) (sum_by (λ x. x) s.bad_debt.user)
      (sum_by (λ x. x) t.bad_debt.user) (get_total_bad_debt s)
      (rw added.users (
        subst
          (λ x.
            sum_by (λ y. y)
                (insert user (user_bad_debt s user +ℤ (debt_value -ℤ repaid)) s.bad_debt.user)
              +ℤ x
            ≡ sum_by (λ y. y) s.bad_debt.user +ℤ (user_bad_debt s user +ℤ (debt_value -ℤ repaid)))
          (sym (user_bad_debt-amount_of s user))
          (sum_by-insert (λ y. y) user (user_bad_debt s user +ℤ (debt_value -ℤ repaid))
            s.bad_debt.user)))
      h added.total

-- A liquidation keeps the total bad debt equal to the sum over the users.
pub liquidate-IsAccounted :
    (liquidator borrower : Address) (repay_amount : ℤ) (s : Env)
    → IsAccounted s
    → IsAccounted (invoke (liquidate liquidator borrower repay_amount) s).1
liquidate-IsAccounted liquidator borrower repay_amount s h =
    OkOrSame-state IsAccounted s (λ _ t. Liquidated liquidator borrower repay_amount s t)
      (invoke (liquidate liquidator borrower repay_amount) s)
      (liquidate-OkOrSame liquidator borrower repay_amount s) h
      (λ _ t d. Covers-IsAccounted borrower d.debt_value repay_amount s t d.recorded h)
