-- ===== src/Debt/Position/Laws.antt =====
-- What a saved position reads back as, and which keys a save touches.
use stellarlend.Prelude.{◌≡◌, refl, Option, arith}
use stellarlend.Prelude.Dict.{Dict, lookup-insert_self}
use stellarlend.Storage.Borrow.{Address, RateType, variable, stable, DebtPosition, BorrowStore}
use stellarlend.Host.Result.{ok}
use stellarlend.Host.{Env}
use stellarlend.Settings.{BorrowError}
use stellarlend.Debt.Position.{
  get_debt_position, get_collateral_position, put_position, save_debt_position,
}

-- The positions of one rate type.
abbrev pub positions : RateType → BorrowStore → Dict DebtPosition
positions variable b = b.user_variable_debt
positions stable b = b.user_stable_debt

-- The environment after a save.
abbrev pub saved : Address → DebtPosition → Env → Env
saved user p s = (save_debt_position {E = BorrowError} user p s).1

-- A saved position is what its user reads back at its rate type, whatever the legacy key holds and
-- whatever asset the reader asks for.
pub get-save_debt_position :
    (user : Address) (p : DebtPosition) (asset : Option Address) (s : Env)
    → get_debt_position (saved user p s) user asset p.rate_type ≡ p
unfolding get_debt_position save_debt_position
get-save_debt_position user p asset s = ground (
  arith,
  lookup-insert_self user p s.borrow.user_variable_debt,
  lookup-insert_self user p s.borrow.user_stable_debt,
)

-- A save writes debts and nothing else.
pub record SavedOnly (s t : Env) : Type 0 where
  pub timestamp : t.timestamp ≡ s.timestamp
  pub total_debt : t.borrow.total_debt ≡ s.borrow.total_debt
  pub debt_ceiling : t.borrow.debt_ceiling ≡ s.borrow.debt_ceiling
  pub interest_rate : t.borrow.interest_rate ≡ s.borrow.interest_rate
  pub user_collateral : t.borrow.user_collateral ≡ s.borrow.user_collateral
  pub events : t.events ≡ s.events
  pub vault : t.vault ≡ s.vault
  pub risk : t.risk ≡ s.risk
  pub commitments : t.commitments ≡ s.commitments

pub save_debt_position-SavedOnly :
    (user : Address) (p : DebtPosition) (s : Env) → SavedOnly s (saved user p s)
unfolding save_debt_position
save_debt_position-SavedOnly user p s = saved_only p.rate_type
  where
    saved_only :
        (r : RateType)
        → SavedOnly s (record s {
          borrow = record (put_position r user p s.borrow) {
            user_debt = (saved user p s).borrow.user_debt;
          };
        })
    saved_only variable = ground arith
    saved_only stable = ground arith

-- A read of a debt looks at the debts and the time only.
pub get_debt_position-cong :
    (s t : Env) (user : Address) (asset : Option Address) (r : RateType)
    → t.timestamp ≡ s.timestamp
    → t.borrow.user_debt ≡ s.borrow.user_debt
    → t.borrow.user_variable_debt ≡ s.borrow.user_variable_debt
    → t.borrow.user_stable_debt ≡ s.borrow.user_stable_debt
    → get_debt_position t user asset r ≡ get_debt_position s user asset r
unfolding get_debt_position
get_debt_position-cong s t user asset variable e l v st = rw (e, l, v)
get_debt_position-cong s t user asset stable e l v st = rw (e, st)

-- A save always returns.
pub save_debt_position-ok :
    (user : Address) (p : DebtPosition) (s : Env)
    → (save_debt_position {E = BorrowError} user p s).0 ≡ ok tt
unfolding save_debt_position
save_debt_position-ok user p s = refl

pub get_collateral_position-cong :
    (s t : Env) (user : Address)
    → t.borrow.user_collateral ≡ s.borrow.user_collateral
    → get_collateral_position t user ≡ get_collateral_position s user
unfolding get_collateral_position
get_collateral_position-cong s t user e = rw e
