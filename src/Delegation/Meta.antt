-- ===== src/Delegation/Meta.antt =====
-- Delegated execution (lending/src/meta.rs): a delegate with permissions in the registry runs calls
-- for a delegator, under a nonce and a deadline.
pub mod Laws
pub mod Once
use stellarlend.Prelude.{
  ℕ, ◌+◌, ◌≤◌, ◌≡◌, refl, sym, ap, subst, ◌∙◌, Bool, true, false, ◌&&◌, not, Option, none, some,
  List, [], ◌∷◌, arith, ltb, ◌==◌, unwrap_or, if◌then◌else◌, ⊤,
}
use stellarlend.Prelude.Int.{ℤ}
use stellarlend.Prelude.Dict.{Dict, lookup, insert}
use stellarlend.Storage.Borrow.{Address}
use stellarlend.Storage.Pause.{PauseType}
use stellarlend.Host.{
  Env, Call, Run, ◌>>=◌, ◌>>◌, gets, ok_or, or_trap, reject_if, pure, modify, map_err,
}
use stellarlend.Host.Result.{Outcome, ok, err, trap}
use stellarlend.Settings.{BorrowError, get_admin}
use stellarlend.Pause.{is_paused}
use stellarlend.Vault.Deposit.{deposit_with_auth}
use stellarlend.Vault.Withdraw.{withdraw_with_auth}
use stellarlend.Debt.Borrow.{borrow_trusted, deposit as deposit_to_borrow}
use stellarlend.Debt.Repay.{repay as repay_debt}

pub data MetaTxError : Type 0 where
  unauthorized expired invalid_nonce delegation_missing delegation_expired permission_denied :
      MetaTxError

pub data Action : Type 0 where
  deposit withdraw borrow repay deposit_collateral : Action

pub record DelegatedCall : Type 0 where
  pub action : Action
  pub asset : Address
  pub amount : ℤ
  pub collateral_asset : Option Address
  pub collateral_amount : Option ℤ

-- The keys of the module beside the rest of the lending contract, and what registries answer: their
-- address, the delegator, the delegate and the permission, with `none` for a call that traps.
pub record MetaEnv : Type 0 where
  pub env : Env
  pub delegation_registry : Option Address
  pub nonce : Dict ℕ
  pub validate : Address → Address → Address → ℕ → Option Bool

abbrev pub MetaCall : Type 0 → Type 0
MetaCall A = Run MetaEnv MetaTxError A

-- A call of the rest of the contract.
abbrev pub with_env : {E A : Type 0} → MetaEnv → Outcome E A × Env → Outcome E A × MetaEnv
with_env s (r, e) = (r, record s { env = e })

abbrev pub within : {A : Type 0} → Call MetaTxError A → MetaCall A
within m s = with_env s (m s.env)

abbrev pub get_nonce : MetaEnv → Address → ℕ
get_nonce s delegator = unwrap_or (lookup delegator s.nonce) 0

abbrev pub set_nonce : Address → ℕ → MetaCall ⊤
set_nonce delegator n = modify λ s. record s { nonce = insert delegator n s.nonce }

unfoldable pub permission_of : Action → ℕ
permission_of Action.deposit = 1
permission_of Action.withdraw = 2
permission_of Action.borrow = 4
permission_of Action.repay = 8
permission_of Action.deposit_collateral = 16

unfoldable pub validate_delegation : Address → Address → Address → Action → MetaCall ⊤
validate_delegation registry delegator delegate action = do
  valid ← λ s. or_trap (s.validate registry delegator delegate (permission_of action)) s
  reject_if (not valid) permission_denied

-- `if is_paused(..) { return Err(Unauthorized); }`
abbrev pub reject_paused : PauseType → Call MetaTxError ⊤
reject_paused p = do paused ← gets (λ s. is_paused s p); reject_if paused unauthorized

-- `map_err(|_| Unauthorized)?`, the value dropped.
abbrev pub run_step : {E A : Type 0} → Call E A → Call MetaTxError ⊤
run_step m = map_err (λ _. unauthorized) m >>= λ _. pure tt

-- What one call does for the delegator.
unfoldable pub perform : Address → Action → DelegatedCall → Call MetaTxError ⊤
perform delegator Action.deposit c = do
  reject_paused PauseType.deposit
  run_step (deposit_with_auth delegator c.asset c.amount false)
perform delegator Action.withdraw c = do
  reject_paused PauseType.withdraw
  run_step (withdraw_with_auth delegator c.asset c.amount false)
perform delegator Action.borrow c = do
  reject_paused PauseType.borrow
  collateral_asset ← ok_or c.collateral_asset unauthorized
  collateral_amount ← ok_or c.collateral_amount unauthorized
  run_step (borrow_trusted delegator c.asset c.amount collateral_asset collateral_amount)
perform delegator Action.repay c = do
  reject_paused PauseType.repay
  run_step (repay_debt delegator c.asset c.amount)
perform delegator Action.deposit_collateral c = do
  reject_paused PauseType.deposit
  run_step (deposit_to_borrow delegator c.asset c.amount)

-- The loop over the calls.
unfoldable pub run_calls : Address → Address → Address → List DelegatedCall → MetaCall ⊤
run_calls registry delegator delegate [] = pure tt
run_calls registry delegator delegate (c ∷ rest) = do
  validate_delegation registry delegator delegate c.action
  within (perform delegator c.action c)
  run_calls registry delegator delegate rest

-- `current + 1` on u64, which traps at the end of the range.
abbrev pub next_nonce : ℕ → MetaCall ℕ
next_nonce n s = (if ltb n 0xffffffffffffffff then ok (n + 1) else trap, s)

-- The checks and the nonce, up to the loop; the result is the registry.
unfoldable pub open_delegated : Address → Address → ℕ → ℕ → MetaCall Address
open_delegated delegator delegate nonce deadline = do
  λ s. (if s.env.signed delegate then ok tt else trap, s)
  now ← gets (λ s. s.env.timestamp)
  reject_if (not (deadline == 0) && ltb deadline now) expired
  current ← gets (λ s. get_nonce s delegator)
  reject_if (not (nonce == current)) invalid_nonce
  next ← next_nonce current
  set_nonce delegator next
  λ s. ok_or s.delegation_registry delegation_missing s

unfoldable pub execute_delegated : Address → Address → ℕ → ℕ → List DelegatedCall → MetaCall ⊤
execute_delegated delegator delegate nonce deadline calls = do
  registry ← open_delegated delegator delegate nonce deadline
  run_calls registry delegator delegate calls

-- The admin's entry point.
unfoldable pub set_delegation_registry : Address → Address → Run MetaEnv BorrowError ⊤
set_delegation_registry admin registry = do
  current ← λ s. ok_or (get_admin s.env) BorrowError.unauthorized s
  reject_if (not (admin == current)) BorrowError.unauthorized
  λ s. (if s.env.signed admin then ok tt else trap, s)
  modify λ s. record s { delegation_registry = some registry }
