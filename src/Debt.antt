-- ===== src/Debt.antt =====
-- The borrow module (stellar-lend/contracts/lending/src/borrow.rs): debt and collateral positions,
-- interest, and the operations on them.
pub mod Position
pub mod Balance
pub mod Interest
pub mod Borrow
pub mod Repay
pub mod Switch
pub mod Legacy
pub mod View
