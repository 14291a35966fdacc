-- ===== src/Liquidation/Recovery.antt =====
-- What a recovery of bad debt from the reserves ensures.
use stellarlend.Prelude.{◌≡◌, true, some, arith}
use stellarlend.Prelude.Int.{ℤ, ◌-ℤ◌, ◌≤ℤ◌, min_ℤ}
use stellarlend.Storage.Borrow.{Address}
use stellarlend.Host.{Env, invoke}
use stellarlend.Host.Laws.{OnOk, OkOrSame, OnOk-bind, invoke-OkOrSame}
use stellarlend.Settings.{get_admin, check_admin}
use stellarlend.Liquidation.{
  get_total_bad_debt, get_reserves, cover_from_reserves, recover_bad_debt,
}

-- What a recovery ensures.
pub record Recovered (admin : Address) (amount : ℤ) (s t : Env) : Type 0 where
  pub is_admin : get_admin s ≡ some admin
  pub signed : s.signed admin ≡ true
  pub enough : amount ≤ℤ get_reserves s
  pub reserves_down : get_reserves t ≡ get_reserves s -ℤ min_ℤ amount (get_total_bad_debt s)
  pub bad_debt_down :
      get_total_bad_debt t ≡ get_total_bad_debt s -ℤ min_ℤ amount (get_total_bad_debt s)
  pub users_kept : t.bad_debt.user ≡ s.bad_debt.user

check_admin-ok :
    (admin : Address) (s : Env)
    → OnOk
        (λ _ t. (t ≡ s) × (get_admin s ≡ some admin) × (s.signed admin ≡ true))
        (check_admin admin s)
unfolding check_admin
check_admin-ok admin s = ground arith

cover_from_reserves-Recovered :
    (admin : Address) (amount : ℤ) (s : Env)
    → get_admin s ≡ some admin
    → s.signed admin ≡ true
    → OnOk (λ _ t. Recovered admin amount s t) (cover_from_reserves amount s)
unfolding cover_from_reserves
cover_from_reserves-Recovered admin amount s a g = ground arith

recover_bad_debt-Recovered :
    (admin : Address) (amount : ℤ) (s : Env)
    → OnOk (λ _ t. Recovered admin amount s t) (recover_bad_debt admin amount s)
unfolding recover_bad_debt
recover_bad_debt-Recovered admin amount s =
    OnOk-bind (λ _ t. (t ≡ s) × (get_admin s ≡ some admin) × (s.signed admin ≡ true))
      (λ _ t. Recovered admin amount s t) (check_admin admin) (λ _. cover_from_reserves amount) s
      (check_admin-ok admin s)
      λ _ t (e, a, g). rw e (cover_from_reserves-Recovered admin amount s a g)

-- A recovery, as the host runs it, either fails and changes nothing, or the caller was the admin, had
-- signed and the reserves were at least the amount. Then the smaller of the amount and the total bad debt
-- has left both the reserves and the total, while the bad debt of each user stays as it was.
pub recover_bad_debt-OkOrSame :
    (admin : Address) (amount : ℤ) (s : Env)
    → OkOrSame s (λ _ t. Recovered admin amount s t) (invoke (recover_bad_debt admin amount) s)
recover_bad_debt-OkOrSame admin amount s =
    invoke-OkOrSame (λ _ t. Recovered admin amount s t) (recover_bad_debt admin amount) s
      (recover_bad_debt-Recovered admin amount s)
