-- ===== src/Debt/Borrow/Correct.antt =====
-- What a borrow ensures: the new positions and totals, and the books (lending/src/borrow.rs).
use stellarlend.Prelude.{◌≡◌, refl, Option, some, ap, subst, ◌∙◌, arith, ⊤}
use stellarlend.Prelude.Int.{ℤ, ◌+ℤ◌, int_laws}
use stellarlend.Storage.Borrow.{Address, RateType, DebtPosition, BorrowCollateral}
use stellarlend.Host.{Env, invoke}
use stellarlend.Host.Laws.{OnOk, OkOrSame, OnOk-bind, OnOk-map, invoke-OkOrSame, OkOrSame-state}
use stellarlend.Settings.{BorrowError, get_total_debt}
use stellarlend.Debt.Position.{get_debt_position, get_collateral_position}
use stellarlend.Debt.Position.Laws.{get_collateral_position-cong}
use stellarlend.Debt.Interest.Laws.{Frame}
use stellarlend.Debt.Balance.{
  total_principal, stored_principal, IsBalanced, IsCanonical, get_debt_position-principal,
  books-cong,
}
use stellarlend.Debt.Borrow.{
  check_auth, check_borrow, borrowed_position, collateralized_position, commit_borrow, borrow_inner,
  BorrowAuth, require_user_signature, trusted_commitment,
}
use stellarlend.Debt.Borrow.Success.{
  CheckedBorrow, BorrowedPosition, check_borrow-CheckedBorrow, borrowed_position-BorrowedPosition,
  collateralized_position-lem,
}
use stellarlend.Debt.Borrow.Commit.{Committed, commit_borrow-Committed}

-- What holds after a borrow.
pub record Borrowed (user asset : Address) (amount : ℤ) (collateral_asset : Address)
    (collateral_amount : ℤ) (r : RateType) (s t : Env) : Type 0 where
  pub new_total : ℤ
  pub checked : CheckedBorrow amount collateral_amount s new_total
  pub total : get_total_debt t ≡ new_total
  pub debt :
      (a : Option Address)
      → BorrowedPosition
          (get_debt_position s user (some asset) r)
          asset
          amount
          r
          s.timestamp
          (get_debt_position t user a r)
  pub collateral :
      (get_collateral_position t user).amount
      ≡ (get_collateral_position s user).amount +ℤ collateral_amount
  pub collateral_asset_set : (get_collateral_position t user).asset ≡ collateral_asset
  pub books :
      total_principal t +ℤ stored_principal s user r
      ≡ total_principal s +ℤ ((get_debt_position s user (some asset) r).borrowed_amount +ℤ amount)

pub check_auth-same :
    (auth : BorrowAuth) (user : Address) (s : Env)
    → OnOk (λ _ t. t ≡ s) (check_auth {E = BorrowError} auth user s)
check_auth-same require_user_signature user s = ground arith
check_auth-same trusted_commitment user s = refl

module _ (user asset : Address) (amount : ℤ) (collateral_asset : Address) (collateral_amount : ℤ)
    (r : RateType) (s : Env) where
  abbrev Post : ⊤ → Env → Type 0
  Post _ t = Borrowed user asset amount collateral_asset collateral_amount r s t

  finish :
      (n : ℤ) (p : DebtPosition) (c : BorrowCollateral) (u t : Env)
      → CheckedBorrow amount collateral_amount s n
      → Frame s u
      → BorrowedPosition (get_debt_position s user (some asset) r) asset amount r s.timestamp p
      → c.amount ≡ (get_collateral_position u user).amount +ℤ collateral_amount
      → c.asset ≡ collateral_asset
      → Committed user p c n u t
      → Borrowed user asset amount collateral_asset collateral_amount r s t
  finish n p c u t checked f bp ca cc done = record {
    new_total = n;
    checked = checked;
    total = done.total;
    debt = λ a.
        subst
          (λ x.
            BorrowedPosition (get_debt_position s user (some asset) r) asset amount r s.timestamp
              (get_debt_position t user a x))
          bp.rate_type (rw (done.debt a) bp);
    collateral =
        ap (λ x. x.amount) done.collateral
        ∙ ca
        ∙ ap (λ x. x.amount +ℤ collateral_amount)
            (get_collateral_position-cong s u user f.user_collateral);
    collateral_asset_set = ap (λ x. x.asset) done.collateral ∙ cc;
    books =
        let (same_total, same_stored) =
          books-cong s u user r f.user_variable_debt f.user_stable_debt in
        rw (← same_total, ← same_stored, ← bp.principal, ← bp.rate_type) done.books;
  }

  pub borrow_inner-Borrowed :
      (auth : BorrowAuth)
      → OnOk Post (borrow_inner user asset amount collateral_asset collateral_amount r auth s)
  unfolding borrow_inner
  borrow_inner-Borrowed auth =
      OnOk-bind (λ _ t. t ≡ s) Post (check_auth auth user) _ s (check_auth-same auth user s)
        λ _ s1 e1.
          OnOk-bind (λ n t. CheckedBorrow amount collateral_amount s n × (t ≡ s)) Post
            (check_borrow amount collateral_amount) _ s1
            (rw e1 (check_borrow-CheckedBorrow amount collateral_amount s))
            λ n s2 (checked, e2).
              OnOk-bind
                (λ p t.
                  Frame s t
                  × BorrowedPosition (get_debt_position s user (some asset) r) asset amount r
                      s.timestamp p)
                Post (borrowed_position user asset amount r) _ s2
                (rw e2 (borrowed_position-BorrowedPosition user asset amount r s))
                λ p u (f, bp).
                  OnOk-bind
                    (λ c t.
                      (t ≡ u)
                      × (c.amount ≡ (get_collateral_position u user).amount +ℤ collateral_amount)
                      × (c.asset ≡ collateral_asset))
                    Post (collateralized_position user collateral_asset collateral_amount)
                    (λ c. commit_borrow user asset amount collateral_amount p c n) u
                    (collateralized_position-lem user collateral_asset collateral_amount u)
                    λ c v (e, ca, cc). rw e (
                      OnOk-map (λ _ t. Committed user p c n u t) Post
                        (commit_borrow user asset amount collateral_amount p c n u)
                        (commit_borrow-Committed user asset amount collateral_amount p c n u)
                        (λ _ t d. finish n p c u t checked f bp ca cc d))

-- A borrow, as the host runs it, either fails and changes nothing, or has passed every check (not
-- paused, positive amounts, the minimum, the collateral ratio, the debt ceiling), and then the user's
-- debt of that rate type has grown by the amount, the collateral by the collateral amount, and the
-- total debt by the amount.
pub borrow_inner-OkOrSame :
    (user asset : Address) (amount : ℤ) (collateral_asset : Address) (collateral_amount : ℤ)
    (r : RateType) (auth : BorrowAuth) (s : Env)
    → OkOrSame s
        (λ _ t. Borrowed user asset amount collateral_asset collateral_amount r s t)
        (invoke (borrow_inner user asset amount collateral_asset collateral_amount r auth) s)
borrow_inner-OkOrSame user asset amount collateral_asset collateral_amount r auth s =
    invoke-OkOrSame (λ _ t. Borrowed user asset amount collateral_asset collateral_amount r s t)
      (borrow_inner user asset amount collateral_asset collateral_amount r auth) s
      (borrow_inner-Borrowed user asset amount collateral_asset collateral_amount r s auth)

books_after :
    (amount stored before after : ℤ) {principal total : ℤ}
    → principal ≡ stored
    → after +ℤ stored ≡ before +ℤ (principal +ℤ amount)
    → total ≡ before +ℤ amount
    → total ≡ after
books_after amount stored before after e books total = grind int_laws

Borrowed-IsBalanced :
    (user asset : Address) (amount : ℤ) (collateral_asset : Address) (collateral_amount : ℤ)
    (r : RateType) (s t : Env)
    → IsCanonical s user r
    → IsBalanced s
    → Borrowed user asset amount collateral_asset collateral_amount r s t
    → IsBalanced t
Borrowed-IsBalanced user asset amount ca camount r s t canonical balanced b =
    books_after amount (stored_principal s user r) (total_principal s) (total_principal t)
      (get_debt_position-principal s user (some asset) r canonical) b.books
      (b.total ∙ b.checked.total ∙ ap (λ x. x +ℤ amount) balanced)

-- A borrow keeps the total debt equal to the sum of all principals, if the position that it adds to
-- is read from its own key.
pub borrow_inner-IsBalanced :
    (user asset : Address) (amount : ℤ) (collateral_asset : Address) (collateral_amount : ℤ)
    (r : RateType) (auth : BorrowAuth) (s : Env)
    → IsCanonical s user r
    → IsBalanced s
    → IsBalanced
        (invoke (borrow_inner user asset amount collateral_asset collateral_amount r auth) s).1
borrow_inner-IsBalanced user asset amount ca camount r auth s canonical balanced =
    OkOrSame-state IsBalanced s (λ _ t. Borrowed user asset amount ca camount r s t)
      (invoke (borrow_inner user asset amount ca camount r auth) s)
      (borrow_inner-OkOrSame user asset amount ca camount r auth s) balanced
      (λ _ t. Borrowed-IsBalanced user asset amount ca camount r s t canonical balanced)
