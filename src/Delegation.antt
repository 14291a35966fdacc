-- ===== src/Delegation.antt =====
-- Calls on behalf of another user: the delegation registry (delegation-registry/src/lib.rs), the
-- delegated execution of the lending contract (lending/src/meta.rs) and its hook for token
-- contracts (lending/src/token_receiver.rs).
pub mod Registry
pub mod Meta
pub mod Receiver
pub mod Together
