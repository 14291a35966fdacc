-- ===== src/Debt/Legacy/Saved.antt =====
-- What a stable borrow leaves under the keys of debts, and of what a withdrawal reads
-- (lending/src/borrow.rs).
use stellarlend.Prelude.{◌≡◌, refl, ap, ◌∙◌, Option, unwrap_or, none, some, arith}
use stellarlend.Prelude.Int.{ℤ}
use stellarlend.Prelude.Dict.{lookup, lookup-insert_self}
use stellarlend.Storage.Borrow.{Address, variable, stable, DebtPosition, BorrowCollateral}
use stellarlend.Host.{Env}
use stellarlend.Host.Laws.{OnOk}
use stellarlend.Settings.{BorrowError, get_debt_ceiling}
use stellarlend.Risk.{on_utilization_changed, alert, escalate}
use stellarlend.Debt.Position.{
  chosen_position, empty_position, get_debt_position, save_debt_position, save_collateral_position,
  update_compat_user_debt,
}
use stellarlend.Debt.Position.Laws.{save_debt_position-ok}
use stellarlend.Debt.Borrow.{commit_borrow, borrow_inner, BorrowAuth}
use stellarlend.Debt.Borrow.Commit.{written}
use stellarlend.Debt.Borrow.Correct.{check_auth-same}
use stellarlend.Debt.Borrow.Success.{
  BorrowedPosition, check_borrow-CheckedBorrow, borrowed_position-BorrowedPosition,
  collateralized_position-lem, on_utilization_changed-ok,
}

-- What a withdrawal reads is the same.
pub record SameForWithdraw (s t : Env) : Type 0 where
  pub timestamp : t.timestamp ≡ s.timestamp
  pub signed : t.signed ≡ s.signed
  pub pause : t.pause ≡ s.pause
  pub vault : t.vault ≡ s.vault
  pub withdraw : t.withdraw ≡ s.withdraw

-- The stable position of a user is saved, and the legacy key has the chosen copy.
pub record StableSaved (user : Address) (p : DebtPosition) (s t : Env) : Type 0 where
  pub variable_kept : t.borrow.user_variable_debt ≡ s.borrow.user_variable_debt
  pub stable_saved : lookup user t.borrow.user_stable_debt ≡ some p
  pub copied :
      lookup user t.borrow.user_debt
      ≡ chosen_position (lookup user s.borrow.user_variable_debt) (some p)
  pub for_withdraw : SameForWithdraw s t

chosen-some :
    (v : Option DebtPosition) (p q : DebtPosition)
    → some (unwrap_or (chosen_position v (some p)) q) ≡ chosen_position v (some p)
chosen-some none p q = refl
chosen-some (some v) p q = ground arith

on_utilization_changed-SameForWithdraw :
    (debt ceiling : ℤ) (s : Env)
    → SameForWithdraw s (on_utilization_changed {E = BorrowError} debt ceiling s).1
unfolding on_utilization_changed alert escalate
on_utilization_changed-SameForWithdraw debt ceiling s = ground arith

written-StableSaved :
    (user : Address) (p : DebtPosition) (c : BorrowCollateral) (n : ℤ) (s : Env)
    → p.rate_type ≡ stable
    → StableSaved user p s (written user p c n s)
unfolding save_debt_position update_compat_user_debt
written-StableSaved user p c n s e =
    let stored = lookup-insert_self user p s.borrow.user_stable_debt in
    let chosen = chosen_position (lookup user s.borrow.user_variable_debt) (some p) in
    let empty = empty_position s.timestamp user variable in
    record {
      variable_kept = rw e refl;
      stable_saved = ground (arith, stored, e);
      copied = ground (
        arith,
        stored,
        e,
        lookup-insert_self user (unwrap_or chosen empty) s.borrow.user_debt,
        chosen-some (lookup user s.borrow.user_variable_debt) p empty,
      );
      for_withdraw =
          rw e (record {
            timestamp = refl;
            signed = refl;
            pause = refl;
            vault = refl;
            withdraw = refl;
          });
    }

SameForWithdraw-trans :
    (s t u : Env) → SameForWithdraw s t → SameForWithdraw t u → SameForWithdraw s u
SameForWithdraw-trans s t u a b = record {
  timestamp = b.timestamp ∙ a.timestamp;
  signed = b.signed ∙ a.signed;
  pause = b.pause ∙ a.pause;
  vault = b.vault ∙ a.vault;
  withdraw = b.withdraw ∙ a.withdraw;
}

alerted_StableSaved :
    (user : Address) (p : DebtPosition) (s w t : Env)
    → StableSaved user p s w
    → t.borrow ≡ w.borrow
    → SameForWithdraw w t
    → StableSaved user p s t
alerted_StableSaved user p s w t a b f = record {
  variable_kept = ap (λ x. x.user_variable_debt) b ∙ a.variable_kept;
  stable_saved = ap (λ x. lookup user x.user_stable_debt) b ∙ a.stable_saved;
  copied = ap (λ x. lookup user x.user_debt) b ∙ a.copied;
  for_withdraw = SameForWithdraw-trans s w t a.for_withdraw f;
}

commit_borrow-StableSaved :
    (user asset : Address) (amount collateral : ℤ) (p : DebtPosition) (c : BorrowCollateral) (n : ℤ)
    (s : Env)
    → p.rate_type ≡ stable
    → OnOk (λ _ t. StableSaved user p s t) (commit_borrow user asset amount collateral p c n s)
unfolding commit_borrow save_collateral_position
commit_borrow-StableSaved user asset amount collateral p c n s e =
    let w = written user p c n s in
    let (r, b, _) = on_utilization_changed-ok n (get_debt_ceiling w) w in
    let f = on_utilization_changed-SameForWithdraw n (get_debt_ceiling w) w in
    rw (save_debt_position-ok user p s, r)
      (alerted_StableSaved user p s w _ (written-StableSaved user p c n s e) b (record {
        timestamp = f.timestamp;
        signed = f.signed;
        pause = f.pause;
        vault = f.vault;
        withdraw = f.withdraw;
      }))

-- A stable borrow saves a position as the borrow computes it, and leaves what a withdrawal reads alone.
pub borrow_inner-StableSaved :
    (user asset : Address) (amount : ℤ) (collateral_asset : Address) (collateral_amount : ℤ)
    (auth : BorrowAuth) (s : Env)
    → OnOk
        (λ _ t.
          (p : DebtPosition) × StableSaved user p s t
          × BorrowedPosition
              (get_debt_position s user (some asset) stable)
              asset
              amount
              stable
              s.timestamp
              p)
        (borrow_inner user asset amount collateral_asset collateral_amount stable auth s)
unfolding borrow_inner
borrow_inner-StableSaved user asset amount collateral_asset collateral_amount auth s = grind (
  arith,
  check_auth-same auth user s,
  check_borrow-CheckedBorrow amount collateral_amount s,
  borrowed_position-BorrowedPosition user asset amount stable s,
  collateralized_position-lem user collateral_asset collateral_amount,
  commit_borrow-StableSaved user asset,
)
