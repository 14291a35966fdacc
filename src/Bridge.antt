-- ===== src/Bridge.antt =====
-- The bridge contract (bridge/src/bridge.rs): bridges with their fees and totals, validators with
-- their stakes, channels, and messages from other chains that validators attest.
pub mod State
pub mod Access
pub mod Admin
pub mod Transfer
pub mod Message
pub mod Slash
pub mod Ordering
pub mod Consistent
pub mod Life
pub mod Safety
pub mod Stakes
pub mod Fees
