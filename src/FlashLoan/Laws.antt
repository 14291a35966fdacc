-- ===== src/FlashLoan/Laws.antt =====
-- What a flash loan ensures, whatever the token contract and the receiver do.
use stellarlend.Prelude.{ℕ, ◌≡◌, ◌≢◌, ◌⊎◌, true, false, Option, none, some, arith}
use stellarlend.Prelude.Int.{ℤ, pos, negsuc, div, ◌*ℤ◌, ◌+ℤ◌, ◌≤ℤ◌}
use stellarlend.Storage.Borrow.{Address}
use stellarlend.Storage.Pause.{PauseType}
use stellarlend.Settings.{get_admin}
use stellarlend.Prelude.I128.{IsI128, saturating_mul, saturating_div}
use stellarlend.Prelude.{◌/◌, mul_mono}
use stellarlend.Host.Result.{ok}
use stellarlend.Host.{Env, invoke}
use stellarlend.Host.Laws.{OnOk, OkOrSame, invoke-OkOrSame}
use stellarlend.Pause.{is_paused}
use stellarlend.FlashLoan.{
  get_flash_loan_fee_bps, admin_set_flash_loan_fee_bps, set_flash_loan_fee_bps, calculate_fee,
  Token, Chain, Receiver, is_guarded, set_guard, flash_loan, lend,
}

-- Both balances are read, and the later one is at least the earlier one and the fee.
abbrev pub Covers : Option ℤ → ℤ → Option ℤ → Type 0
Covers none fee _ = ⊥
Covers (some before) fee none = ⊥
Covers (some before) fee (some after) = before +ℤ fee ≤ℤ after

-- The books of the token that matter to a loan, before the transfer and after the callback.
module _ {W : Type 0} (token : Token W) (self : Address) (receiver asset : Address)
    (amount : ℤ) where
  -- What holds after a loan.
  pub record Lent (s t : Chain W) : Type 0 where
    pub not_paused : is_paused s.lending PauseType.flash_loan ≡ false
    pub amount_pos : pos 1 ≤ℤ amount
    pub was_free : is_guarded s.lending ≡ false
    pub repaid :
        Covers
          (token.balance asset self s.others)
          (calculate_fee s.lending amount)
          (token.balance asset self t.others)
    pub free_again : is_guarded t.lending ≡ false

  flash_loan-Lent :
      (on_flash_loan : Receiver W) (s : Chain W)
      → OnOk (λ _ t. Lent s t) (flash_loan token self on_flash_loan receiver asset amount s)
  unfolding flash_loan lend calculate_fee
  flash_loan-Lent on_flash_loan s = ground arith

  -- A flash loan, as the host runs it, either fails and changes nothing, or it was not paused, no other
  -- loan was running, and the contract's balance of the asset is at least what it was before and the fee,
  -- whatever the token contract and the callback do. The guard is free again.
  pub flash_loan-OkOrSame :
      (on_flash_loan : Receiver W) (s : Chain W)
      → OkOrSame s
          (λ _ t. Lent s t)
          (invoke (flash_loan token self on_flash_loan receiver asset amount) s)
  flash_loan-OkOrSame on_flash_loan s =
      invoke-OkOrSame (λ _ t. Lent s t) (flash_loan token self on_flash_loan receiver asset amount)
        s (flash_loan-Lent on_flash_loan s)

  -- While a loan is running, a second one fails and changes nothing.
  flash_loan_guarded :
      (on_flash_loan : Receiver W) (s : Chain W)
      → is_guarded s.lending ≡ true
      → let (r, t) = flash_loan token self on_flash_loan receiver asset amount s in
        (r ≢ ok tt) × (t ≡ s)
  unfolding flash_loan
  flash_loan_guarded on_flash_loan s h = ground arith

  -- The callback runs with the guard set: what it would do otherwise makes no difference to the loan.
  pub flash_loan-cong :
      (f g : Receiver W) (s : Chain W)
      → ((fee : ℤ) (c : Chain W)
          → is_guarded c.lending ≡ true
          → f asset amount fee c ≡ g asset amount fee c)
      → flash_loan token self f receiver asset amount s
        ≡ flash_loan token self g receiver asset amount s
  unfolding flash_loan lend
  flash_loan-cong f g s h = grind (arith, h)

  -- An honest loan succeeds: the token transfers the amount, the callback answers true, and the balance
  -- after it covers the balance before and the fee.
  pub flash_loan_honest :
      (on_flash_loan : Receiver W) (s t : Chain W) (w : W) (before after : ℤ)
      → is_paused s.lending PauseType.flash_loan ≡ false
      → pos 1 ≤ℤ amount
      → is_guarded s.lending ≡ false
      → token.transfer asset self receiver amount s.others ≡ some w
      → on_flash_loan asset amount
          (calculate_fee s.lending amount)
          (record (set_guard true s) { others = w })
        ≡ some (true, t)
      → token.balance asset self s.others ≡ some before
      → token.balance asset self t.others ≡ some after
      → IsI128 (before +ℤ calculate_fee s.lending amount)
      → before +ℤ calculate_fee s.lending amount ≤ℤ after
      → (flash_loan token self on_flash_loan receiver asset amount s).0 ≡ ok tt
  unfolding flash_loan lend calculate_fee
  flash_loan_honest on_flash_loan s t w before after p a g tr cb b0 b1 fits covers = ground arith

-- The fee in basis points is in 0 to 1000.
abbrev pub HasFeeBounds : Env → Type 0
HasFeeBounds s = (pos 0 ≤ℤ get_flash_loan_fee_bps s) × (get_flash_loan_fee_bps s ≤ℤ pos 1000)

-- The admin's setter keeps the fee rate in 0 to 1000 basis points, and without the signature of a stored
-- admin it is refused and changes nothing.
admin_set_flash_loan_fee_bps-HasFeeBounds :
    (fee_bps : ℤ) (s : Env)
    → HasFeeBounds s
    → let (r, t) = admin_set_flash_loan_fee_bps fee_bps s in
      HasFeeBounds t
      × ((r ≢ ok tt) ⊎ ((a : Address) × (get_admin s ≡ some a) × (s.signed a ≡ true)))
      × ((r ≡ ok tt) ⊎ (t ≡ s))
unfolding admin_set_flash_loan_fee_bps set_flash_loan_fee_bps
admin_set_flash_loan_fee_bps-HasFeeBounds fee_bps s h = ground arith

abbrev fee_at : ℕ → ℤ → ℤ
fee_at a rate = saturating_div (saturating_mul (pos a) rate) (pos 10000)

fee_at_bounds :
    (a : ℕ) (rate : ℤ)
    → pos 0 ≤ℤ rate
    → rate ≤ℤ pos 1000
    → (pos 0 ≤ℤ fee_at a rate) × (fee_at a rate ≤ℤ pos (a / 10))
unfolding saturating_div saturating_mul ◌*ℤ◌ div
fee_at_bounds a (pos rate) l u = ground (arith, mul_mono rate 1000 a)
fee_at_bounds a (negsuc rate) l u = absurd (omega arith)

-- With the fee rate in its range, the fee on a positive amount is between 0 and a tenth of the amount.
calculate_fee_bounds :
    (a : ℕ) (s : Env)
    → HasFeeBounds s
    → (pos 0 ≤ℤ calculate_fee s (pos a)) × (calculate_fee s (pos a) ≤ℤ pos (a / 10))
unfolding calculate_fee
calculate_fee_bounds a s h = fee_at_bounds a (get_flash_loan_fee_bps s) h.0 h.1
