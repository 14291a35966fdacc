-- ===== src/Debt/Repay/Correct.antt =====
-- What a repayment ensures (lending/src/borrow.rs).
use stellarlend.Prelude.{◌≡◌, refl, Option, some, ap, subst, ◌∙◌, arith, unwrap_or, ⊤}
use stellarlend.Prelude.Int.{ℤ, pos, ◌+ℤ◌, ◌≤ℤ◌, leb_ℤ, int_laws}
use stellarlend.Storage.Borrow.{Address, RateType, DebtPosition}
use stellarlend.Host.{Env, or_trap, reject_if, invoke}
use stellarlend.Host.Laws.{OnOk, OkOrSame, OnOk-bind, invoke-OkOrSame, OkOrSame-state}
use stellarlend.Settings.{invalid_amount, get_total_debt}
use stellarlend.Debt.Position.{get_debt_position}
use stellarlend.Debt.Position.Laws.{
  saved, save_debt_position-ok, save_debt_position-SavedOnly, get-save_debt_position,
  get_debt_position-cong,
}
use stellarlend.Debt.Interest.Laws.{Frame}
use stellarlend.Debt.Balance.{
  total_principal, stored_principal, IsBalanced, IsCanonical, get_debt_position-principal,
  books-cong, total_principal-saved,
}
use stellarlend.Debt.Repay.{
  repay_interest, repay_principal, accrued_position, save_repaid, repay_with_rate,
}
use stellarlend.Debt.Repay.Split.{
  InterestSplit, repay_interest-InterestSplit, PrincipalPaid, repay_principal-PrincipalPaid,
  accrued_interest, AccruedPosition, accrued_position-AccruedPosition,
}

-- What holds after a repayment of `amount` towards the position `old`.
pub record Repaid (user asset : Address) (amount : ℤ) (r : RateType) (s t : Env) : Type 0 where
  pub interest : ℤ
  pub rest : ℤ
  pub split :
      InterestSplit amount
        ((get_debt_position s user (some asset) r).interest_accrued
          +ℤ accrued_interest
              (record (get_debt_position s user (some asset) r) { rate_type = r })
              s)
        interest
        rest
  pub left : ℤ
  pub paid : left +ℤ rest ≡ (get_debt_position s user (some asset) r).borrowed_amount
  pub amount_pos : pos 1 ≤ℤ amount
  pub right_asset : (get_debt_position s user (some asset) r).asset ≡ asset
  pub position :
      (a : Option Address)
      → ((get_debt_position t user a r).borrowed_amount ≡ left)
        × ((get_debt_position t user a r).interest_accrued ≡ interest)
        × ((get_debt_position t user a r).last_update ≡ s.timestamp)
  pub total : get_total_debt t +ℤ rest ≡ get_total_debt s
  pub books : total_principal t +ℤ stored_principal s user r ≡ total_principal s +ℤ left

module _ (user asset : Address) (amount : ℤ) (r : RateType) (s : Env) where
  abbrev Post : ⊤ → Env → Type 0
  Post _ t = Repaid user asset amount r s t

  finish :
      (p : DebtPosition) (i rest left : ℤ) (u v t : Env)
      → pos 1 ≤ℤ amount
      → Frame s u
      → AccruedPosition (get_debt_position s user (some asset) r) asset r s p
      → InterestSplit amount p.interest_accrued i rest
      → PrincipalPaid rest p.borrowed_amount left u v
      → t.borrow ≡ (saved user (record p { interest_accrued = i; borrowed_amount = left }) v).borrow
      → t.timestamp
        ≡ (saved user (record p { interest_accrued = i; borrowed_amount = left }) v).timestamp
      → Repaid user asset amount r s t
  finish p i rest left u v t pa f acc sp pp b time =
      let q = record p { interest_accrued = i; borrowed_amount = left } in
      let (same_total, same_stored) =
        books-cong s v user r (pp.user_variable_debt ∙ f.user_variable_debt)
          (pp.user_stable_debt ∙ f.user_stable_debt) in
      let saved_books =
        subst
          (λ x.
            total_principal (saved user q v) +ℤ stored_principal v user x
            ≡ total_principal v +ℤ left)
          acc.rate_type (total_principal-saved user q v) in
      record {
        interest = i;
        rest = rest;
        split = subst (λ x. InterestSplit amount x i rest) acc.interest sp;
        left = left;
        paid = pp.conserved ∙ acc.borrowed;
        amount_pos = pa;
        right_asset = acc.right_asset;
        position = λ a.
            let e =
              subst (λ x. get_debt_position t user a x ≡ q) acc.rate_type
                (get_debt_position-cong (saved user q v) t user a p.rate_type time
                    (ap (λ x. x.user_debt) b) (ap (λ x. x.user_variable_debt) b)
                    (ap (λ x. x.user_stable_debt) b)
                  ∙ get-save_debt_position user q a v) in
            (
              ap (λ x. x.borrowed_amount) e,
              ap (λ x. x.interest_accrued) e,
              ap (λ x. x.last_update) e ∙ acc.accrued_at,
            );
        total =
            rw (b, (save_debt_position-SavedOnly user q v).total_debt)
              (pp.total ∙ ap (λ x. unwrap_or x (pos 0)) f.total_debt);
        books = rw (b, ← same_total, ← same_stored) saved_books;
      }

  pub repay_with_rate-Repaid : OnOk Post (repay_with_rate user asset amount r s)
  unfolding repay_with_rate save_repaid
  repay_with_rate-Repaid =
      OnOk-bind (λ _ t. (t ≡ s) × (pos 1 ≤ℤ amount)) Post
        (reject_if (leb_ℤ amount (pos 0)) invalid_amount) _ s (ground arith)
        λ _ s1 (e1, pa).
          OnOk-bind
            (λ p t.
              Frame s t × AccruedPosition (get_debt_position s user (some asset) r) asset r s p)
            Post (accrued_position user asset r) _ s1
            (rw e1 (accrued_position-AccruedPosition user asset r s))
            λ p u (f, acc).
              OnOk-bind (λ x t. (t ≡ u) × InterestSplit amount p.interest_accrued x.0 x.1) Post
                (or_trap (repay_interest amount p.interest_accrued)) _ u
                (ground (arith, repay_interest-InterestSplit amount p.interest_accrued))
                λ x u1 (e2, sp).
                  OnOk-bind (λ left t. PrincipalPaid x.1 p.borrowed_amount left u t) Post
                    (repay_principal x.1 p.borrowed_amount)
                    (λ left.
                      save_repaid user asset amount
                        (record p { interest_accrued = x.0; borrowed_amount = left }))
                    u1
                    (rw e2 (repay_principal-PrincipalPaid x.1 p.borrowed_amount u sp.rest_nonneg))
                    λ left v pp.
                      let q = record p { interest_accrued = x.0; borrowed_amount = left } in
                      rw (save_debt_position-ok user q v)
                        (finish p x.0 x.1 left u v _ pa f acc sp pp refl refl)

-- A repayment, as the host runs it, either fails and changes nothing, or it was positive and in the
-- asset of the position. Then it has paid the interest accrued so far first and the principal with
-- what was left (interest and principal after, plus the amount, are interest and principal before;
-- one of the two parts is all paid or untouched), and the total debt fell by the principal paid.
pub repay_with_rate-OkOrSame :
    (user asset : Address) (amount : ℤ) (r : RateType) (s : Env)
    → OkOrSame s
        (λ _ t. Repaid user asset amount r s t)
        (invoke (repay_with_rate user asset amount r) s)
repay_with_rate-OkOrSame user asset amount r s =
    invoke-OkOrSame (λ _ t. Repaid user asset amount r s t) (repay_with_rate user asset amount r) s
      (repay_with_rate-Repaid user asset amount r s)

books_after :
    (rest stored left before after : ℤ) {principal total : ℤ}
    → principal ≡ stored
    → left +ℤ rest ≡ principal
    → after +ℤ stored ≡ before +ℤ left
    → total +ℤ rest ≡ before
    → total ≡ after
books_after rest stored left before after e paid books total = grind int_laws

-- A repayment keeps the total debt equal to the sum of all principals, if the position that it pays
-- is read from its own key.
pub repay_with_rate-IsBalanced :
    (user asset : Address) (amount : ℤ) (r : RateType) (s : Env)
    → IsCanonical s user r
    → IsBalanced s
    → IsBalanced (invoke (repay_with_rate user asset amount r) s).1
repay_with_rate-IsBalanced user asset amount r s canonical balanced =
    OkOrSame-state IsBalanced s (λ _ t. Repaid user asset amount r s t)
      (invoke (repay_with_rate user asset amount r) s)
      (repay_with_rate-OkOrSame user asset amount r s) balanced
      (λ _ t d.
        books_after d.rest (stored_principal s user r) d.left (total_principal s)
          (total_principal t) (get_debt_position-principal s user (some asset) r canonical) d.paid
          d.books (d.total ∙ balanced))
