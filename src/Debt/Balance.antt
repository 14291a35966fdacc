-- ===== src/Debt/Balance.antt =====
-- The books of the borrow module: the total debt against the principals of all positions
-- (lending/src/borrow.rs).
use stellarlend.Prelude.{◌≡◌, ◌≢◌, ◌⊎◌, Option, none, arith, ⊤}
use stellarlend.Prelude.Int.{ℤ, ◌+ℤ◌, int_laws}
use stellarlend.Prelude.Dict.{lookup, sum_by, amount_of, sum_by-insert}
use stellarlend.Storage.Borrow.{Address, RateType, variable, stable, DebtPosition}
use stellarlend.Host.{Env}
use stellarlend.Settings.{get_total_debt}
use stellarlend.Debt.Position.{
  get_debt_position, put_position, update_compat_user_debt, save_debt_position,
}
use stellarlend.Debt.Position.Laws.{positions, saved}

abbrev pub principal : DebtPosition → ℤ
principal p = p.borrowed_amount

-- The principals of all positions, of both rate types.
abbrev pub total_principal : Env → ℤ
total_principal s =
    sum_by principal s.borrow.user_variable_debt +ℤ sum_by principal s.borrow.user_stable_debt

-- The principal under a user's key for a rate type.
abbrev pub stored_principal : Env → Address → RateType → ℤ
stored_principal s user r = amount_of principal (lookup user (positions r s.borrow))

-- The protocol's total debt is the sum of the principals.
abbrev pub IsBalanced : Env → Type 0
IsBalanced s = get_total_debt s ≡ total_principal s

-- A read at a rate type does not fall back to a legacy record.
abbrev pub IsCanonical : Env → Address → RateType → Type 0
IsCanonical s user variable =
    (lookup user s.borrow.user_variable_debt ≢ none) ⊎ (lookup user s.borrow.user_debt ≡ none)
IsCanonical s user stable = ⊤

pub get_debt_position-principal :
    (s : Env) (user : Address) (asset : Option Address) (r : RateType)
    → IsCanonical s user r
    → (get_debt_position s user asset r).borrowed_amount ≡ stored_principal s user r
unfolding get_debt_position
get_debt_position-principal s user asset variable c = ground arith
get_debt_position-principal s user asset stable c = ground arith

put_position-sum :
    (user : Address) (p : DebtPosition) (r : RateType) (s : Env)
    → let b = put_position r user p s.borrow in
      sum_by principal b.user_variable_debt
        +ℤ sum_by principal b.user_stable_debt
        +ℤ stored_principal s user r
      ≡ total_principal s +ℤ p.borrowed_amount
put_position-sum user p variable s =
    grind (int_laws, sum_by-insert principal user p s.borrow.user_variable_debt)
put_position-sum user p stable s =
    grind (int_laws, sum_by-insert principal user p s.borrow.user_stable_debt)

-- A save replaces the principal of one position.
pub total_principal-saved :
    (user : Address) (p : DebtPosition) (s : Env)
    → total_principal (saved user p s) +ℤ stored_principal s user p.rate_type
      ≡ total_principal s +ℤ p.borrowed_amount
unfolding save_debt_position update_compat_user_debt
total_principal-saved user p s = put_position-sum user p p.rate_type s

-- The books look at the two maps of debts only.
pub books-cong :
    (s t : Env) (user : Address) (r : RateType)
    → t.borrow.user_variable_debt ≡ s.borrow.user_variable_debt
    → t.borrow.user_stable_debt ≡ s.borrow.user_stable_debt
    → (total_principal t ≡ total_principal s)
      × (stored_principal t user r ≡ stored_principal s user r)
books-cong s t user variable v st = (rw (v, st), rw v)
books-cong s t user stable v st = (rw (v, st), rw st)
