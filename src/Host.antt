-- ===== src/Host.antt =====
-- The contract environment (`soroban_sdk::Env`) and the monad in which the handlers run.
-- The environment holds the storage of the lending contract, the ledger's time, who has signed the
-- invocation, what the oracle contracts answer, and the events published so far, newest first.
-- Signatures and oracle answers are the host's and other contracts': they are parameters, fields
-- on which nothing is assumed. `none` for a price is an oracle call that traps.
pub mod Result
pub mod Arith
pub mod Laws
use Result.{Outcome, ok, err, trap}
use stellarlend.Prelude.{
  ℕ, ◌≡◌, Bool, true, false, Option, none, some, List, [], ◌∷◌, if◌then◌else◌, ⊤,
}
use stellarlend.Prelude.Int.{ℤ}
use stellarlend.Storage.Borrow.{Address, BorrowStore}
use stellarlend.Storage.Pause.{PauseStore}
use stellarlend.Storage.Vault.{VaultStore, WithdrawStore}
use stellarlend.Storage.Risk.{RiskStore, BadDebtStore}
use stellarlend.Storage.Cross.{CrossStore}
use stellarlend.Storage.Commitment.{CommitmentStore}
use stellarlend.Storage.Event.{Event}

pub record Env : Type 0 where
  pub timestamp : ℕ
  pub signed : Address → Bool
  pub price : Address → Address → Option ℤ
  pub pause : PauseStore
  pub borrow : BorrowStore
  pub vault : VaultStore
  pub withdraw : WithdrawStore
  pub risk : RiskStore
  pub bad_debt : BadDebtStore
  pub cross : CrossStore
  pub commitments : CommitmentStore
  pub flash_loan_fee_bps : Option ℤ
  pub reentrancy_guard : Option Bool
  pub events : List Event

-- The state comes back after an error too: what was written stays written until the host undoes the
-- invocation.
abbrev pub Run : Type 0 → Type 0 → Type 0 → Type 0
Run S E A = S → Outcome E A × S

-- A call of a function of the contract.
abbrev pub Call : Type 0 → Type 0 → Type 0
Call E A = Run Env E A

module _ {S E A : Type 0} where
  -- A step that only reads.
  abbrev pub lift : Outcome E A → Run S E A
  lift r s = (r, s)

  abbrev pub pure : A → Run S E A
  pure a s = (ok a, s)

  abbrev pub raise : E → Run S E A
  raise e s = (err e, s)

  abbrev pub gets : (S → A) → Run S E A
  gets f s = (ok (f s), s)

  -- `o.ok_or(e)?`
  abbrev pub ok_or : Option A → E → Run S E A
  ok_or none e s = (err e, s)
  ok_or (some a) _ s = (ok a, s)

  -- What the host or Rust's overflow checks trap on.
  abbrev pub or_trap : Option A → Run S E A
  or_trap none s = (trap, s)
  or_trap (some a) s = (ok a, s)

-- What follows a step.
abbrev pub after : {S E A B : Type 0} → Outcome E A × S → (A → Run S E B) → Outcome E B × S
after x f = elim x.0 [ ok a ↦ f a x.1 | err e ↦ (err e, x.1) | trap ↦ (trap, x.1) ]

infixl 5 ◌>>=◌ ◌>>◌
abbrev pub ◌>>=◌ : {S E A B : Type 0} → Run S E A → (A → Run S E B) → Run S E B
◌>>=◌ m f s = after (m s) f

abbrev pub ◌>>◌ : {S E A B : Type 0} → Run S E A → Run S E B → Run S E B
m >> k = m >>= λ _. k

module _ {S E : Type 0} where
  -- `if c { return Err(e); }`
  abbrev pub reject_if : Bool → E → Run S E ⊤
  reject_if c e s = (if c then err e else ok tt, s)

  abbrev pub modify : (S → S) → Run S E ⊤
  modify f s = (ok tt, f s)

module _ {E : Type 0} where
  abbrev pub emit : (Env → Event) → Call E ⊤
  emit e s = (ok tt, record s { events = e s ∷ s.events })

  -- `address.require_auth()`
  abbrev pub require_auth : Address → Call E ⊤
  require_auth a s = (if s.signed a then ok tt else trap, s)

-- `map_err`
abbrev pub map_err : {S E F A : Type 0} → (E → F) → Run S E A → Run S F A
map_err f m s =
    let (r, s') = m s in elim r [ ok a ↦ (ok a, s') | err e ↦ (err (f e), s') | trap ↦ (trap, s') ]

-- The host runs an entry point: an error or a trap undoes every write.
abbrev pub settle : {S E A : Type 0} → S → Outcome E A × S → Outcome E A × S
settle before (ok a, s) = (ok a, s)
settle before (err e, s) = (err e, before)
settle before (trap, s) = (trap, before)

unfoldable pub invoke : {S E A : Type 0} → Run S E A → Run S E A
invoke m s = settle s (m s)

-- `env.invoke_contract(oracle, "price", asset)`
abbrev pub invoke_price : {E : Type 0} → Address → Address → Call E ℤ
invoke_price oracle asset s = or_trap (s.price oracle asset) s
