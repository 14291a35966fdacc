-- ===== src/Debt/Position.antt =====
-- Reading and saving positions (lending/src/borrow.rs). A debt stands under a key for its rate
-- type; the legacy key `BorrowUserDebt` holds a copy of one of a user's two positions.
pub mod Laws
use stellarlend.Prelude.{
  ℕ, Bool, true, false, Option, none, some, ◌||◌, unwrap_or, if◌then◌else◌, ⊤,
}
use stellarlend.Prelude.Int.{ℤ, pos, ltb_ℤ}
use stellarlend.Prelude.Dict.{lookup, insert}
use stellarlend.Storage.Borrow.{
  Address, RateType, variable, stable, DebtPosition, BorrowCollateral, BorrowStore,
}
use stellarlend.Host.{Env, Call, ◌>>=◌, ◌>>◌, modify}
use stellarlend.Settings.{update_borrow}

abbrev pub empty_position : ℕ → Address → RateType → DebtPosition
empty_position now asset rate_type = record {
  borrowed_amount = pos 0;
  interest_accrued = pos 0;
  last_update = now;
  asset = asset;
  rate_type = rate_type;
  stable_rate_bps = pos 0;
}

-- What a variable-rate read falls back to when its own key is missing.
abbrev pub legacy_position : ℕ → Address → Option DebtPosition → DebtPosition
legacy_position now asset none = empty_position now asset variable
legacy_position now asset (some legacy) = record legacy {
  rate_type = variable;
  stable_rate_bps = pos 0;
}

unfoldable pub get_debt_position : Env → Address → Option Address → RateType → DebtPosition
get_debt_position s user default_asset variable =
    unwrap_or (lookup user s.borrow.user_variable_debt)
      (legacy_position s.timestamp (unwrap_or default_asset user) (lookup user s.borrow.user_debt))
get_debt_position s user default_asset stable =
    unwrap_or (lookup user s.borrow.user_stable_debt)
      (empty_position s.timestamp (unwrap_or default_asset user) stable)

abbrev pub has_debt : DebtPosition → Bool
has_debt p = ltb_ℤ (pos 0) p.borrowed_amount || ltb_ℤ (pos 0) p.interest_accrued

-- The position that the legacy key gets: the variable one if it has debt, else the stable one.
abbrev pub chosen_position : Option DebtPosition → Option DebtPosition → Option DebtPosition
chosen_position none s = s
chosen_position (some v) s = if has_debt v then some v else s

unfoldable pub update_compat_user_debt : {E : Type 0} → Address → Call E ⊤
update_compat_user_debt user s =
    let chosen =
      chosen_position (lookup user s.borrow.user_variable_debt)
        (lookup user s.borrow.user_stable_debt) in
    update_borrow
      (λ b. record b {
        user_debt =
            insert user (unwrap_or chosen (empty_position s.timestamp user variable)) b.user_debt;
      })
      s

-- The write of `save_debt_position`, under the key of the position's rate type.
abbrev pub put_position : RateType → Address → DebtPosition → BorrowStore → BorrowStore
put_position variable user p b = record b {
  user_variable_debt = insert user p b.user_variable_debt;
}
put_position stable user p b = record b { user_stable_debt = insert user p b.user_stable_debt }

unfoldable pub save_debt_position : {E : Type 0} → Address → DebtPosition → Call E ⊤
unfolding update_compat_user_debt
save_debt_position user position = do
  update_borrow (put_position position.rate_type user position)
  update_compat_user_debt user

unfoldable pub get_collateral_position : Env → Address → BorrowCollateral
get_collateral_position s user =
    unwrap_or (lookup user s.borrow.user_collateral) (record { amount = pos 0; asset = user })

unfoldable pub save_collateral_position : {E : Type 0} → Address → BorrowCollateral → Call E ⊤
save_collateral_position user position =
    update_borrow λ b. record b { user_collateral = insert user position b.user_collateral }
