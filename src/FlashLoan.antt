-- ===== src/FlashLoan.antt =====
-- Flash loans (stellar-lend/contracts/lending/src/flash_loan.rs, and the entry points `flash_loan`
-- and `set_flash_loan_fee_bps` of lending/src/lib.rs). The token contract and the receiver are other
-- contracts: they are parameters over the state `W` that they keep. The receiver may call the lending
-- contract again, so its callback gets and returns both states.
pub mod Laws
use stellarlend.Prelude.{
  ℕ, Bool, true, false, Option, none, some, ◌∷◌, ◌||◌, not, unwrap_or, if◌then◌else◌, ⊤,
}
use stellarlend.Prelude.Int.{ℤ, pos, ◌+ℤ◌, leb_ℤ, ltb_ℤ}
use stellarlend.Prelude.I128.{saturating_mul, saturating_div, to_i128}
use stellarlend.Storage.Borrow.{Address}
use stellarlend.Storage.Pause.{PauseType}
use stellarlend.Storage.Event.{flash_loan_event}
use stellarlend.Host.Result.{Outcome, ok, err, trap}
use stellarlend.Host.{
  Env, Run, Call, ◌>>=◌, ◌>>◌, gets, ok_or, or_trap, reject_if, pure, modify, require_auth,
}
use stellarlend.Settings.{get_admin}
use stellarlend.Pause.{is_paused}

pub data FlashLoanError : Type 0 where
  invalid_amount insufficient_repayment unauthorized invalid_fee : FlashLoanError
  callback_failed reentrancy flash_loan_paused : FlashLoanError

abbrev pub max_fee_bps : ℤ
max_fee_bps = pos 1000

abbrev pub get_flash_loan_fee_bps : Env → ℤ
get_flash_loan_fee_bps s = unwrap_or s.flash_loan_fee_bps (pos 9)

unfoldable pub calculate_fee : Env → ℤ → ℤ
calculate_fee s amount =
    saturating_div (saturating_mul amount (get_flash_loan_fee_bps s)) (pos 10000)

unfoldable pub set_flash_loan_fee_bps : ℤ → Call FlashLoanError ⊤
set_flash_loan_fee_bps fee_bps = do
  reject_if (ltb_ℤ fee_bps (pos 0) || ltb_ℤ max_fee_bps fee_bps) invalid_fee
  modify λ s. record s { flash_loan_fee_bps = some fee_bps }

-- The entry point: the stored admin must have signed.
unfoldable pub admin_set_flash_loan_fee_bps : ℤ → Call FlashLoanError ⊤
unfolding set_flash_loan_fee_bps
admin_set_flash_loan_fee_bps fee_bps = do
  current_admin ← ok_or (← gets get_admin) unauthorized
  require_auth current_admin
  set_flash_loan_fee_bps fee_bps

-- The token contract: `balance asset holder`, and `transfer asset from to amount`, `none` if they trap.
pub record Token (W : Type 0) : Type 0 where
  pub balance : Address → Address → W → Option ℤ
  pub transfer : Address → Address → Address → ℤ → W → Option W

-- The state of the lending contract, and that of the other contracts.
pub record Chain (W : Type 0) : Type 0 where
  pub lending : Env
  pub others : W

-- The callback `on_flash_loan asset amount fee` of a receiver: its answer, and the states after it;
-- `none` if it traps.
abbrev pub Receiver : Type 0 → Type 0
Receiver W = Address → ℤ → ℤ → Chain W → Option (Bool × Chain W)

abbrev pub is_guarded : Env → Bool
is_guarded s = unwrap_or s.reentrancy_guard false

abbrev pub set_guard : {W : Type 0} → Bool → Chain W → Chain W
set_guard b c = record c { lending = record c.lending { reentrancy_guard = some b } }

module _ {W : Type 0} where
  -- `FlashLoanGuard::new`
  abbrev pub new_guard : Run (Chain W) FlashLoanError ⊤
  new_guard c = if is_guarded c.lending then (err reentrancy, c) else (ok tt, set_guard true c)

  -- What runs while a guard is held; its `drop` runs on every return, and not on a trap.
  abbrev pub drop_guard : Outcome FlashLoanError ⊤ → Chain W → Chain W
  drop_guard trap c = c
  drop_guard (ok _) c = set_guard false c
  drop_guard (err _) c = set_guard false c

  abbrev pub guarded : Run (Chain W) FlashLoanError ⊤ → Run (Chain W) FlashLoanError ⊤
  guarded m c = let (r, c') = m c in (r, drop_guard r c')

module _ {W : Type 0} (token : Token W) (current_contract : Address) where
  abbrev pub transfer_out : Address → Address → ℤ → Run (Chain W) FlashLoanError ⊤
  transfer_out asset receiver amount c =
      elim (token.transfer asset current_contract receiver amount c.others) [
        | none ↦ (trap, c)
        | some w ↦ (ok tt, record c { others = w })
      ]

  abbrev pub run_callback : Receiver W → Address → ℤ → ℤ → Run (Chain W) FlashLoanError Bool
  run_callback on_flash_loan asset amount fee c = elim (on_flash_loan asset amount fee c) [
    | none ↦ (trap, c)
    | some (answer, c') ↦ (ok answer, c')
  ]

  -- What the loan does while the guard is held.
  unfoldable pub lend : Receiver W → Address → Address → ℤ → Run (Chain W) FlashLoanError ⊤
  lend on_flash_loan receiver asset amount = do
    fee ← gets (λ c. calculate_fee c.lending amount)
    initial_balance ← λ c. or_trap (token.balance asset current_contract c.others) c
    transfer_out asset receiver amount
    callback_result ← run_callback on_flash_loan asset amount fee
    reject_if (not callback_result) callback_failed
    final_balance ← λ c. or_trap (token.balance asset current_contract c.others) c
    owed ← or_trap (to_i128 (initial_balance +ℤ fee))
    reject_if (ltb_ℤ final_balance owed) insufficient_repayment
    modify λ c. record c {
      lending = record c.lending {
        events = flash_loan_event receiver asset amount fee c.lending.timestamp ∷ c.lending.events;
      };
    }

  unfoldable pub flash_loan : Receiver W → Address → Address → ℤ → Run (Chain W) FlashLoanError ⊤
  unfolding lend
  flash_loan on_flash_loan receiver asset amount = do
    paused ← gets (λ c. is_paused c.lending PauseType.flash_loan)
    reject_if paused flash_loan_paused
    reject_if (leb_ℤ amount (pos 0)) invalid_amount
    new_guard
    guarded (lend on_flash_loan receiver asset amount)
