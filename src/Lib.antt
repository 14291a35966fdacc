-- ===== src/Lib.antt =====
-- StellarLend (stellar-lend/contracts), Soroban smart contracts. The lending contract: users
-- borrow against collateral at a variable or a stable rate, repay, switch the rate type, and
-- deposit into and withdraw from a vault; anyone may take a flash loan or liquidate; an admin
-- sets the risk parameters, the rate model and the pause flags; a delegate may call on behalf of
-- a user. The bridge: validators attest messages from other chains, which then pay withdrawals.
-- The AMM: swaps and liquidity through registered protocols. The upgrade manager: approvals,
-- execution and rollback of new code.
--
-- Parts, and how they interact. Every part of the lending contract keeps its own storage keys in
-- one environment. A borrow reads the pause flags, the settings and the rate model, writes a
-- debt, the borrow collateral and the total debt, and reports the new utilization to the alerts.
-- The rate model reads the total debt and the ceiling. A withdrawal from the vault reads a debt
-- of the borrow module, through the legacy key that every save of a debt writes. An entry point
-- is run by the host, which undoes all writes if it ends with an error or a trap. A delegated
-- execution asks the registry contract for every call and then runs the operations of the lending
-- contract. The bridge, the AMM, the registry and the upgrade manager are contracts with
-- environments of their own; the bridge and the AMM forward their upgrade entry points to the
-- manager.
--
-- Files:
--   Prelude           library names, Boolean tests, integers over the native numbers, the checked
--                     and saturating operations on i128, association lists,
--                     tables over any kind of key
--   Storage           the structs, storage keys and events (borrow.rs, interest_rate.rs, pause.rs,
--                     deposit.rs, withdraw.rs, risk_monitor.rs, cross_asset.rs, commitments.rs, events.rs)
--   Host              the environment (soroban_sdk::Env), the monad of calls, the rules for
--                     postconditions, and the 256-bit integers of the host
--   Settings          the readers and the admin's setters of borrow.rs
--   InterestRate      interest_rate.rs: utilization, borrow and supply rate, updates
--   Pause             pause.rs, and set_pause and set_deposit_paused of lib.rs
--   Risk              risk_monitor.rs
--   Debt              borrow.rs: Position (get_debt_position, save_debt_position), Interest
--                     (calculate_interest, stable rates), Borrow (borrow_inner and its callers, deposit),
--                     Repay (repay_with_rate), Switch (switch_rate_type), View (get_user_debt),
--                     Legacy (what reads through the key BorrowUserDebt)
--   Vault             Deposit (deposit.rs) and Withdraw (withdraw.rs)
--   FlashLoan         flash_loan.rs: the guard, the loan with its callback, the fee
--   Views             views.rs: values, health factor, liquidation amounts, reports
--   Liquidation       liquidate, add_bad_debt and recover_bad_debt of lib.rs
--   Commitments       commitments.rs: creation, cancellation and execution of scheduled borrows
--   Delegation        Registry (delegation-registry/src/lib.rs), Meta (lending/src/meta.rs), the two
--                     Together, and Receiver (lending/src/token_receiver.rs)
--   Bridge            bridge/src/bridge.rs: State (structs, DataKey), Access (readers, writers, checks),
--                     Admin, Transfer (bridge_deposit, bridge_withdraw, compute_fee), Message
--                     (submission, attestation, execution), Slash; proofs in Ordering, Consistent, Life,
--                     Safety, Stakes (Cuts and Guilty) and Fees
--   Amm               amm/src/amm.rs: State, Protocols (settings, admin, checks), Callback (nonces),
--                     Swap, Liquidity, History; proofs in Laws, Swaps, Nonces and Life
--   Upgrade           common/src/upgrade.rs: State and Manager; proofs in Approvals, Stages, Rollback
--                     and Life
--   Tests             runs on a concrete environment, and instances of the theorems
--
-- How the code is rendered. An operation is a function from the environment to an outcome (a
-- value, an error of the source's enum, or a trap) and the environment after it. `?` is the bind
-- of that monad, `ok_or(e)?` is `ok_or`, an early return is `reject_if`. i128 is ℤ with every
-- operation checked or saturating as in the source; a plain `+` or `-` traps out of range, since
-- the release profile has overflow-checks. u64 and u32 are natural numbers, which saturate or
-- trap at their end as in the source. An address is a number. Who has signed and what the oracles
-- answer are fields of the environment on which nothing is assumed. Long functions of the source
-- are cut at statements into several definitions.
--
-- The token contract and the receiver of a flash loan are parameters over the state of the other
-- contracts; the callback may change the state of the lending contract as well.
--
-- The answers of delegation registries are a field of the environment of a delegated execution;
-- the theorems on the registry contract of the repository instantiate it. What the AMM does in
-- place of the calls of protocols is what the source does. A panic with an error of the upgrade
-- manager is an error of the call. Sequences of invocations are relations (Bridge/Life, Amm/Life,
-- Delegation/Meta/Once, Commitments/Life), which also let time pass.
--
-- Bounds and fuel. No definition needs fuel: the loops of the code run over a list (triggers,
-- assets of a report, validators, calls, records) and are structural recursions. The theorems on
-- the rate curve assume slopes of at most 10^30 and a debt that stays below i128::MAX after a
-- multiplication by 10000, which is what keeps every product in range. The theorems on histories
-- of the bridge assume that fewer than u64::MAX messages are submitted, since the counter of ids
-- saturates there.
--
-- Not modelled: the time to live of storage entries, the budget of the host, the encoding of
-- values, and the host's refusal of a second authorisation of one address in one frame. Of the
-- contracts: multi-asset positions, rewards, token adapters and the data store of lending, the
-- message bus and cache of common, hello-world, stablecoin, institutional-wallet and
-- migration-hub are left out.
pub mod Prelude
pub mod Storage
pub mod Host
pub mod Settings
pub mod InterestRate
pub mod Pause
pub mod Risk
pub mod Debt
pub mod Vault
pub mod FlashLoan
pub mod Views
pub mod Liquidation
pub mod Commitments
pub mod Upgrade
pub mod Bridge
pub mod Amm
pub mod Delegation
mod Tests
