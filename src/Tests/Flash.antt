-- ===== src/Tests/Flash.antt =====
-- Flash loans (lending/src/flash_loan.rs): a token contract, a receiver, runs and instances.
use stellarlend.Pause.{
  admin_set_pause, is_paused, blocks_high_risk_ops, is_recovery, set_pause, set_guardian,
  set_emergency_state, set_deposit_paused,
}
use stellarlend.Prelude.Dict.{lookup, sum_by, insert}
use stellarlend.Prelude.{◌≡◌, refl, true, none, some, arith, if◌then◌else◌}
use stellarlend.Prelude.Int.{ℤ, pos, ◌+ℤ◌, ◌-ℤ◌, ◌*ℤ◌, div}
use stellarlend.Prelude.I128.{
  saturating_mul, saturating_add, checked_mul, checked_div, saturating_sub, saturating_div,
  checked_sub, checked_add,
}
use stellarlend.Storage.Borrow.{Address}
use stellarlend.Host.Result.{ok, err}
use stellarlend.Host.{invoke}
use stellarlend.Host.Laws.{OkOrSame}
use stellarlend.FlashLoan.{
  insufficient_repayment, reentrancy, is_guarded, Token, Chain, Receiver, set_guard, calculate_fee,
  flash_loan, admin_set_flash_loan_fee_bps, set_flash_loan_fee_bps, lend,
}
use stellarlend.FlashLoan.Laws.{Lent, flash_loan-OkOrSame, flash_loan-cong, flash_loan_honest}
use stellarlend.Tests.Setup.{env, usdc}

abbrev lender : Address
lender = 100

abbrev trader : Address
trader = 101

-- One token, of which the state is the lender's balance.
abbrev token : Token ℤ
token = record { balance = λ _ _ w. some w; transfer = λ _ _ _ amount w. some (w -ℤ amount) }

-- A receiver that pays back the amount and the fee.
abbrev pays_back : Receiver ℤ
pays_back asset amount fee c = some (true, record c { others = c.others +ℤ amount +ℤ fee })

-- One that keeps what it got, and answers true.
abbrev keeps : Receiver ℤ
keeps asset amount fee c = some (true, c)

abbrev chain : Chain ℤ
chain = record { lending = env; others = pos 500_000 }

-- The fee on 100000 is 9 basis points, 90.
abbrev repaid : Chain ℤ
repaid = record { lending = (set_guard true chain).lending; others = pos 500_090 }

flash_loan_runs :
    ((flash_loan token lender pays_back trader usdc (pos 100_000) chain).0 ≡ ok tt)
    × ((flash_loan token lender keeps trader usdc (pos 100_000) chain).0
        ≡ err insufficient_repayment)
    × ((flash_loan token lender pays_back trader usdc (pos 100_000) (set_guard true chain)).0
        ≡ err reentrancy)
unfolding ◌+ℤ◌ ◌-ℤ◌ ◌*ℤ◌ div checked_add checked_sub checked_mul checked_div saturating_add
    saturating_sub saturating_mul saturating_div lookup insert sum_by is_paused set_pause
    set_guardian is_recovery blocks_high_risk_ops set_emergency_state admin_set_pause
    set_deposit_paused calculate_fee set_flash_loan_fee_bps admin_set_flash_loan_fee_bps lend
    flash_loan
flash_loan_runs = (refl, refl, refl)

flash_loan-OkOrSame_example :
    OkOrSame chain
      (λ _ t. Lent token lender trader usdc (pos 100_000) chain t)
      (invoke (flash_loan token lender keeps trader usdc (pos 100_000)) chain)
flash_loan-OkOrSame_example = flash_loan-OkOrSame token lender trader usdc (pos 100_000) keeps chain

-- A receiver that differs from the first one only while no loan runs.
abbrev pays_back_or_traps : Receiver ℤ
pays_back_or_traps asset amount fee c =
    if is_guarded c.lending then pays_back asset amount fee c else none

flash_loan-cong_example :
    flash_loan token lender pays_back_or_traps trader usdc (pos 100_000) chain
    ≡ flash_loan token lender pays_back trader usdc (pos 100_000) chain
flash_loan-cong_example =
    flash_loan-cong token lender trader usdc (pos 100_000) pays_back_or_traps pays_back chain
      (λ fee c h. rw h refl)

fee_run : calculate_fee env (pos 100_000) ≡ pos 90
unfolding ◌+ℤ◌ ◌-ℤ◌ ◌*ℤ◌ div checked_add checked_sub checked_mul checked_div saturating_add
    saturating_sub saturating_mul saturating_div calculate_fee set_flash_loan_fee_bps
    admin_set_flash_loan_fee_bps lend flash_loan
fee_run = refl

flash_loan_honest_example :
    (flash_loan token lender pays_back trader usdc (pos 100_000) chain).0 ≡ ok tt
unfolding ◌+ℤ◌ ◌-ℤ◌ ◌*ℤ◌ div checked_add checked_sub checked_mul checked_div saturating_add
    saturating_sub saturating_mul saturating_div lookup insert sum_by is_paused set_pause
    set_guardian is_recovery blocks_high_risk_ops set_emergency_state admin_set_pause
    set_deposit_paused calculate_fee set_flash_loan_fee_bps admin_set_flash_loan_fee_bps lend
    flash_loan
flash_loan_honest_example =
    flash_loan_honest token lender trader usdc (pos 100_000) pays_back chain repaid (pos 400_000)
      (pos 500_000) (pos 500_090) refl (omega arith) refl refl refl refl refl (omega arith)
      (omega arith)
