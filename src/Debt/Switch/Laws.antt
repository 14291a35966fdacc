-- ===== src/Debt/Switch/Laws.antt =====
-- What a switch of the rate type ensures (lending/src/borrow.rs).
use stellarlend.Prelude.{◌≡◌, true, false, Option, ap, ◌∙◌, arith, unwrap_or, ⊤}
use stellarlend.Prelude.Int.{ℤ, pos, ◌+ℤ◌, ◌*ℤ◌, div}
use stellarlend.Prelude.I128.{checked_add-exact, checked_mul-exact, checked_div-exact}
use stellarlend.Prelude.Dict.{lookup-insert_self}
use stellarlend.Storage.Borrow.{Address, RateType, variable, stable, DebtPosition}
use stellarlend.Host.{Env, ◌>>=◌, invoke}
use stellarlend.Host.Laws.{OnOk, OkOrSame, OnOk-bind, invoke-OkOrSame}
use stellarlend.Settings.{get_total_debt, get_rate_switch_fee_bps}
use stellarlend.Debt.Position.{get_debt_position, save_debt_position}
use stellarlend.Debt.Position.Laws.{saved, save_debt_position-SavedOnly, save_debt_position-ok}
use stellarlend.Debt.Interest.Laws.{
  Frame, Frame-trans, calculate_interest-Frame, get_current_stable_rate_bps-Frame,
}
use stellarlend.Debt.Repay.{is_empty}
use stellarlend.Debt.Repay.Split.{accrued_interest}
use stellarlend.Debt.Switch.{
  other_rate, switch_fee, moved_interest, rate_after_switch, cleared, filled, save_switched,
  check_switch, position_at, switch_positions, switch_rate_type,
}

-- The interest that is moved: what was stored, what has accrued, and the fee on the principal.
pub moved_interest-exact :
    (p : DebtPosition) (s : Env)
    → OnOk
        (λ i t.
          Frame s t
          × (i
              ≡ p.interest_accrued
                +ℤ accrued_interest p s
                +ℤ div (p.borrowed_amount *ℤ get_rate_switch_fee_bps s) (pos 10000)))
        (moved_interest p s)
unfolding moved_interest switch_fee
moved_interest-exact p s =
    let i = p.interest_accrued +ℤ accrued_interest p s in
    let scaled = p.borrowed_amount *ℤ get_rate_switch_fee_bps s in
    ground (
      arith,
      calculate_interest-Frame p s,
      checked_add-exact p.interest_accrued (accrued_interest p s),
      checked_mul-exact p.borrowed_amount (get_rate_switch_fee_bps s),
      checked_div-exact scaled (pos 10000),
      checked_add-exact i (div scaled (pos 10000)),
    )

rate_after_switch-Frame :
    (r : RateType) (p : DebtPosition) (s : Env) → Frame s (rate_after_switch r p s).1
rate_after_switch-Frame variable p s = ground arith
rate_after_switch-Frame stable p s = get_current_stable_rate_bps-Frame s

-- Saving the two positions of a user, of different rate types, keeps both.
get-save_pair :
    (user : Address) (p q : DebtPosition) (a : Option Address) (r : RateType) (s : Env)
    → let both =
        saved user
          (record q { rate_type = r })
          (saved user (record p { rate_type = other_rate r }) s) in
      (get_debt_position both user a (other_rate r) ≡ record p { rate_type = other_rate r })
      × (get_debt_position both user a r ≡ record q { rate_type = r })
unfolding get_debt_position save_debt_position
get-save_pair user p q a variable s = ground (
  arith,
  lookup-insert_self user (record q { rate_type = variable }) s.borrow.user_variable_debt,
  lookup-insert_self user (record p { rate_type = stable }) s.borrow.user_stable_debt,
)
get-save_pair user p q a stable s = ground (
  arith,
  lookup-insert_self user (record q { rate_type = stable }) s.borrow.user_stable_debt,
  lookup-insert_self user (record p { rate_type = variable }) s.borrow.user_variable_debt,
)

-- What a switch ensures. `old` is the position that is moved.
pub record Switched (user asset : Address) (r : RateType) (s t : Env) : Type 0 where
  pub signed : s.signed user ≡ true
  pub had_debt : is_empty (position_at s user asset (other_rate r)) ≡ false
  pub target_empty : is_empty (position_at s user asset r) ≡ true
  pub source :
      (a : Option Address)
      → ((get_debt_position t user a (other_rate r)).borrowed_amount ≡ pos 0)
        × ((get_debt_position t user a (other_rate r)).interest_accrued ≡ pos 0)
  pub principal :
      (a : Option Address)
      → (get_debt_position t user a r).borrowed_amount
        ≡ (position_at s user asset (other_rate r)).borrowed_amount
  pub interest :
      (a : Option Address)
      → (get_debt_position t user a r).interest_accrued
        ≡ (position_at s user asset (other_rate r)).interest_accrued
          +ℤ accrued_interest (position_at s user asset (other_rate r)) s
          +ℤ div
              ((position_at s user asset (other_rate r)).borrowed_amount
                *ℤ get_rate_switch_fee_bps s)
              (pos 10000)
  pub asset_set : (a : Option Address) → (get_debt_position t user a r).asset ≡ asset
  pub total : get_total_debt t ≡ get_total_debt s

module _ (user asset : Address) (r : RateType) (s : Env) where
  abbrev Post : ⊤ → Env → Type 0
  Post _ t = Switched user asset r s t

  abbrev old : DebtPosition
  old = position_at s user asset (other_rate r)

  finish :
      (i rate : ℤ) (v : Env)
      → s.signed user ≡ true
      → is_empty old ≡ false
      → is_empty (position_at s user asset r) ≡ true
      → i
        ≡ old.interest_accrued
          +ℤ accrued_interest old s
          +ℤ div (old.borrowed_amount *ℤ get_rate_switch_fee_bps s) (pos 10000)
      → Frame s v
      → Switched user asset r s (
          saved user
            (filled old.borrowed_amount i v.timestamp asset r rate)
            (saved user (cleared old (other_rate r) v.timestamp) v))
  finish i rate v sg hd te e f =
      let p = cleared old (other_rate r) v.timestamp in
      let q = filled old.borrowed_amount i v.timestamp asset r rate in
      let v1 = saved user p v in
      record {
        signed = sg;
        had_debt = hd;
        target_empty = te;
        source = λ a.
            let (x, _) = get-save_pair user p q a r v in
            (ap (λ y. y.borrowed_amount) x, ap (λ y. y.interest_accrued) x);
        principal = λ a. ap (λ y. y.borrowed_amount) (get-save_pair user p q a r v).1;
        interest = λ a. ap (λ y. y.interest_accrued) (get-save_pair user p q a r v).1 ∙ e;
        asset_set = λ a. ap (λ y. y.asset) (get-save_pair user p q a r v).1;
        total =
            ap (λ x. unwrap_or x (pos 0))
              ((save_debt_position-SavedOnly user q v1).total_debt
                ∙ (save_debt_position-SavedOnly user p v).total_debt
                ∙ f.total_debt);
      }

  rate_Frame : (q : DebtPosition) (t : Env) → OnOk (λ _ u. Frame t u) (rate_after_switch r q t)
  rate_Frame q t = ground (arith, rate_after_switch-Frame r q t)

  check_switch-ok :
      (p q : DebtPosition) (t : Env)
      → OnOk (λ _ u. (u ≡ t) × (is_empty p ≡ false) × (is_empty q ≡ true)) (check_switch p q t)
  unfolding check_switch
  check_switch-ok p q t = ground arith

  switch_positions-Switched :
      s.signed user ≡ true
      → OnOk Post (switch_positions user asset r old (position_at s user asset r) s)
  unfolding switch_positions save_switched
  switch_positions-Switched sg =
      let new = position_at s user asset r in
      OnOk-bind (λ _ t. (t ≡ s) × (is_empty old ≡ false) × (is_empty new ≡ true)) Post
        (check_switch old new) _ s (check_switch-ok old new s)
        λ _ s2 (e2, hd, te).
          OnOk-bind
            (λ i t.
              Frame s t
              × (i
                  ≡ old.interest_accrued
                    +ℤ accrued_interest old s
                    +ℤ div (old.borrowed_amount *ℤ get_rate_switch_fee_bps s) (pos 10000)))
            Post (moved_interest old)
            (λ i. rate_after_switch r new >>= λ rate. save_switched user asset r old i rate) s2
            (rw e2 (moved_interest-exact old s))
            λ i u (f, e).
              OnOk-bind (λ _ t. Frame u t) Post (rate_after_switch r new)
                (λ rate. save_switched user asset r old i rate) u (rate_Frame new u)
                λ rate v g.
                  rw
                    (
                      save_debt_position-ok user (cleared old (other_rate r) v.timestamp) v,
                      save_debt_position-ok user
                          (filled old.borrowed_amount i v.timestamp asset r rate)
                          (saved user (cleared old (other_rate r) v.timestamp) v),
                    )
                    (finish i rate v sg hd te e (Frame-trans f g))

  pub switch_rate_type-Switched : OnOk Post (switch_rate_type user asset r s)
  unfolding switch_rate_type
  switch_rate_type-Switched = ground (arith, switch_positions-Switched)

-- A switch of the rate type, as the host runs it, either fails and changes nothing, or the user has
-- signed, had a debt of the one type and none of the other, and the whole debt moves: the principal
-- as it is, the interest with what has accrued and the switch fee. The total debt stays. The moved debt
-- is then in the asset that the caller names, whatever asset it was in before.
pub switch_rate_type-OkOrSame :
    (user asset : Address) (r : RateType) (s : Env)
    → OkOrSame s (λ _ t. Switched user asset r s t) (invoke (switch_rate_type user asset r) s)
switch_rate_type-OkOrSame user asset r s =
    invoke-OkOrSame (λ _ t. Switched user asset r s t) (switch_rate_type user asset r) s
      (switch_rate_type-Switched user asset r s)
