-- ===== src/Storage.antt =====
-- The persistent storage of the lending contract (stellar-lend/contracts/lending/src), one child
-- for each component: the `contracttype` structs, and a record with one field for each storage
-- key. A key that was never set is `none`, or a key that its map lacks.
pub mod Pause
pub mod Borrow
pub mod Vault
pub mod Risk
pub mod Cross
pub mod Commitment
pub mod Event
