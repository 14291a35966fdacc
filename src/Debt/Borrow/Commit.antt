-- ===== src/Debt/Borrow/Commit.antt =====
-- What the writes of a borrow leave behind (`commit_borrow`).
use stellarlend.Prelude.{◌≡◌, refl, Option, some, ap, ◌∙◌}
use stellarlend.Prelude.Int.{ℤ, ◌+ℤ◌}
use stellarlend.Prelude.Dict.{insert, lookup-insert_self}
use stellarlend.Storage.Borrow.{Address, DebtPosition, BorrowCollateral}
use stellarlend.Host.{Env}
use stellarlend.Host.Laws.{OnOk}
use stellarlend.Settings.{get_total_debt, get_debt_ceiling}
use stellarlend.Debt.Position.{get_debt_position, get_collateral_position, save_collateral_position}
use stellarlend.Debt.Position.Laws.{
  saved, save_debt_position-SavedOnly, get-save_debt_position, get_debt_position-cong,
  save_debt_position-ok,
}
use stellarlend.Debt.Balance.{total_principal, stored_principal, total_principal-saved}
use stellarlend.Debt.Borrow.{commit_borrow}
use stellarlend.Debt.Borrow.Success.{on_utilization_changed-ok}

pub record Committed (user : Address) (p : DebtPosition) (c : BorrowCollateral) (new_total : ℤ)
    (s t : Env) : Type 0 where
  pub total : get_total_debt t ≡ new_total
  pub ceiling : get_debt_ceiling t ≡ get_debt_ceiling s
  pub debt : (asset : Option Address) → get_debt_position t user asset p.rate_type ≡ p
  pub collateral : get_collateral_position t user ≡ c
  pub books :
      total_principal t +ℤ stored_principal s user p.rate_type
      ≡ total_principal s +ℤ p.borrowed_amount
  pub timestamp : t.timestamp ≡ s.timestamp

-- The environment before the alert.
abbrev pub written : Address → DebtPosition → BorrowCollateral → ℤ → Env → Env
written user p c n s =
    let s1 = saved user p s in
    record s1 {
      borrow = record s1.borrow {
        user_collateral = insert user c s1.borrow.user_collateral;
        total_debt = some n;
      };
    }

committed :
    (user : Address) (p : DebtPosition) (c : BorrowCollateral) (n : ℤ) (s t : Env)
    → t.borrow ≡ (written user p c n s).borrow
    → t.timestamp ≡ (written user p c n s).timestamp
    → Committed user p c n s t
unfolding get_collateral_position
committed user p c n s t b time =
    let only = save_debt_position-SavedOnly user p s in
    record {
      total = rw b refl;
      ceiling = rw (b, only.debt_ceiling) refl;
      debt = λ asset.
          get_debt_position-cong (saved user p s) t user asset p.rate_type time
            (ap (λ x. x.user_debt) b) (ap (λ x. x.user_variable_debt) b)
            (ap (λ x. x.user_stable_debt) b)
          ∙ get-save_debt_position user p asset s;
      collateral = rw (b, lookup-insert_self user c (saved user p s).borrow.user_collateral) refl;
      books = rw b (total_principal-saved user p s);
      timestamp = time ∙ only.timestamp;
    }

pub commit_borrow-Committed :
    (user asset : Address) (amount camount : ℤ) (p : DebtPosition) (c : BorrowCollateral) (n : ℤ)
    (s : Env)
    → OnOk (λ _ t. Committed user p c n s t) (commit_borrow user asset amount camount p c n s)
unfolding commit_borrow save_collateral_position
commit_borrow-Committed user asset amount camount p c n s =
    let w = written user p c n s in
    let (r, b, time) = on_utilization_changed-ok n (get_debt_ceiling w) w in
    rw (save_debt_position-ok user p s, r) (committed user p c n s _ b time)
