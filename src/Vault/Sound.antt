-- ===== src/Vault/Sound.antt =====
-- Soundness of the vault's books under deposits and withdrawals (lending/src/deposit.rs,
-- lending/src/withdraw.rs).
use stellarlend.Prelude.{ℕ, ◌≡◌, Bool, ap, sym, subst, ◌∙◌, arith, unwrap_or}
use stellarlend.Prelude.Int.{ℤ, pos, ◌+ℤ◌, ◌-ℤ◌, ◌≤ℤ◌, int_laws}
use stellarlend.Prelude.I128.{IsI128, checked_sub-some}
use stellarlend.Prelude.Dict.{
  lookup, sum_by, amount_of, sum_by-insert, AllNonneg, insert-AllNonneg, amount_of-lookup-nonneg,
}
use stellarlend.Storage.Borrow.{Address}
use stellarlend.Host.{Env, invoke}
use stellarlend.Host.Laws.{invoke-OkOrSame, OkOrSame-state}
use stellarlend.Vault.Deposit.{get_deposit_position, get_total_deposits, deposit_with_auth}
use stellarlend.Vault.Withdraw.{withdraw_with_auth}
use stellarlend.Vault.Books.{
  held, IsSound, VaultSet, Deposited, deposit_with_auth-Deposited, Withdrawn,
  withdraw_with_auth-Withdrawn,
}

-- The balance that is read is the one that the sum counts.
position-held :
    (s : Env) (user asset : Address)
    → (get_deposit_position s user asset).amount
      ≡ amount_of held (lookup user s.vault.user_collateral)
position-held s user asset = ground arith

-- The sum after a write.
sum-VaultSet :
    (user asset : Address) (balance total : ℤ) (time : ℕ) (s t : Env)
    → VaultSet user asset balance total time s t
    → sum_by held t.vault.user_collateral +ℤ (get_deposit_position s user asset).amount
      ≡ sum_by held s.vault.user_collateral +ℤ balance
sum-VaultSet user asset balance total time s t w =
    rw (w.user_collateral, position-held s user asset)
      (sum_by-insert held user
        (record { amount = balance; asset = asset; last_deposit_time = time })
        s.vault.user_collateral)

nonneg-VaultSet :
    (user asset : Address) (balance total : ℤ) (time : ℕ) (s t : Env)
    → VaultSet user asset balance total time s t
    → pos 0 ≤ℤ balance
    → AllNonneg held s.vault.user_collateral
    → AllNonneg held t.vault.user_collateral
nonneg-VaultSet user asset balance total time s t w p h =
    subst (AllNonneg held) (sym w.user_collateral) (
      insert-AllNonneg held user
        (record { amount = balance; asset = asset; last_deposit_time = time })
        s.vault.user_collateral p h)

-- In sound books a user's balance is between 0 and the total.
position_in_total :
    (s : Env) (user asset : Address)
    → IsSound s
    → (pos 0 ≤ℤ (get_deposit_position s user asset).amount)
      × ((get_deposit_position s user asset).amount ≤ℤ get_total_deposits s)
position_in_total s user asset h =
    rw (position-held s user asset, h.total)
      (amount_of-lookup-nonneg held user s.vault.user_collateral h.nonneg)

total_up :
    (amount old balance before after total total' : ℤ)
    → balance ≡ old +ℤ amount
    → after +ℤ old ≡ before +ℤ balance
    → total ≡ before
    → total' ≡ total +ℤ amount
    → total' ≡ after
total_up amount old balance before after total total' b a t t' = grind int_laws

total_down :
    (amount old balance before after total total' : ℤ)
    → balance ≡ old -ℤ amount
    → after +ℤ old ≡ before +ℤ balance
    → total ≡ before
    → total' ≡ total -ℤ amount
    → total' ≡ after
total_down amount old balance before after total total' b a t t' = grind int_laws

Deposited-IsSound :
    (user asset : Address) (amount balance : ℤ) (s t : Env)
    → IsSound s
    → Deposited user asset amount balance s t
    → IsSound t
Deposited-IsSound user asset amount balance s t h d =
    let old = (get_deposit_position s user asset).amount in
    let (old_nonneg, _) = position_in_total s user asset h in
    let balance_nonneg : pos 0 ≤ℤ balance =
      subst (λ x. pos 0 ≤ℤ x) (sym d.balance_up) (sum_nonneg old amount old_nonneg d.amount_pos) in
    record {
      nonneg =
          nonneg-VaultSet user asset balance (get_total_deposits t) s.timestamp s t d.written
            balance_nonneg h.nonneg;
      total =
          total_up amount old balance (sum_by held s.vault.user_collateral)
            (sum_by held t.vault.user_collateral) (get_total_deposits s) (get_total_deposits t)
            d.balance_up
            (sum-VaultSet user asset balance (get_total_deposits t) s.timestamp s t d.written)
            h.total d.total_up;
      range = d.total_range;
    }
  where
    sum_nonneg : (a b : ℤ) → pos 0 ≤ℤ a → pos 1 ≤ℤ b → pos 0 ≤ℤ a +ℤ b
    sum_nonneg a b p q = omega int_laws

-- In sound books the total after a withdrawal is the difference.
exact_total :
    (user asset : Address) (amount balance : ℤ) (s t : Env)
    → IsSound s
    → Withdrawn user asset amount balance s t
    → (get_total_deposits t ≡ get_total_deposits s -ℤ amount) × IsI128 (get_total_deposits t)
exact_total user asset amount balance s t h w =
    let (_, in_total) = position_in_total s user asset h in
    let fits =
      in_range (get_total_deposits s) amount h.range w.amount_pos
        (omega (arith, in_total, w.enough)) in
    let e : get_total_deposits t ≡ get_total_deposits s -ℤ amount =
      w.total_down
      ∙ ap (λ x. unwrap_or x (pos 0)) (checked_sub-some (get_total_deposits s) amount fits) in
    (e, subst IsI128 (sym e) fits)
  where
    in_range : (a b : ℤ) → IsI128 a → pos 1 ≤ℤ b → b ≤ℤ a → IsI128 (a -ℤ b)
    in_range a b r p q = omega int_laws

Withdrawn-IsSound :
    (user asset : Address) (amount balance : ℤ) (s t : Env)
    → IsSound s
    → Withdrawn user asset amount balance s t
    → IsSound t
Withdrawn-IsSound user asset amount balance s t h w =
    let old = (get_deposit_position s user asset).amount in
    let time = (get_deposit_position s user asset).last_deposit_time in
    let (exact, fits) = exact_total user asset amount balance s t h w in
    record {
      nonneg =
          nonneg-VaultSet user asset balance (get_total_deposits t) time s t w.written
            (subst (λ x. pos 0 ≤ℤ x) (sym w.balance_down) (difference_nonneg old amount w.enough))
            h.nonneg;
      total =
          total_down amount old balance (sum_by held s.vault.user_collateral)
            (sum_by held t.vault.user_collateral) (get_total_deposits s) (get_total_deposits t)
            w.balance_down
            (sum-VaultSet user asset balance (get_total_deposits t) time s t w.written) h.total
            exact;
      range = fits;
    }
  where
    difference_nonneg : (a b : ℤ) → b ≤ℤ a → pos 0 ≤ℤ a -ℤ b
    difference_nonneg a b p = omega int_laws

-- A deposit, as the host runs it, keeps the vault's books sound: no balance is negative and the total
-- is the sum of the balances.
pub deposit_with_auth-IsSound :
    (user asset : Address) (amount : ℤ) (needs_auth : Bool) (s : Env)
    → IsSound s
    → IsSound (invoke (deposit_with_auth user asset amount needs_auth) s).1
deposit_with_auth-IsSound user asset amount needs_auth s h =
    let m = deposit_with_auth user asset amount needs_auth in
    OkOrSame-state IsSound s (λ b t. Deposited user asset amount b s t) (invoke m s)
      (invoke-OkOrSame (λ b t. Deposited user asset amount b s t) m s
        (deposit_with_auth-Deposited user asset amount needs_auth s))
      h (λ b t. Deposited-IsSound user asset amount b s t h)

-- So does a withdrawal.
pub withdraw_with_auth-IsSound :
    (user asset : Address) (amount : ℤ) (needs_auth : Bool) (s : Env)
    → IsSound s
    → IsSound (invoke (withdraw_with_auth user asset amount needs_auth) s).1
withdraw_with_auth-IsSound user asset amount needs_auth s h =
    let m = withdraw_with_auth user asset amount needs_auth in
    OkOrSame-state IsSound s (λ b t. Withdrawn user asset amount b s t) (invoke m s)
      (invoke-OkOrSame (λ b t. Withdrawn user asset amount b s t) m s
        (withdraw_with_auth-Withdrawn user asset amount needs_auth s))
      h (λ b t. Withdrawn-IsSound user asset amount b s t h)
