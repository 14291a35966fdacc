-- ===== src/Amm.antt =====
-- The AMM contract (amm/src/amm.rs): a router over registered protocols, with nonces for callbacks
-- and histories of swaps and liquidity operations. The calls of the protocols themselves are
-- stand-ins in the source, and are modelled as they are written there.
pub mod State
pub mod Protocols
pub mod Callback
pub mod Swap
pub mod Liquidity
pub mod History
pub mod Laws
pub mod Swaps
pub mod Nonces
pub mod Life
