-- ===== src/Vault.antt =====
-- Vault deposits and withdrawals (stellar-lend/contracts/lending/src/deposit.rs and
-- lending/src/withdraw.rs).
pub mod Deposit
pub mod Withdraw
pub mod Books
pub mod Sound
pub mod Progress
