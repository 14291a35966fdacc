-- ===== src/Tests.antt =====
-- Concrete runs of the contracts, and their theorems at concrete inputs.
pub mod Setup
pub mod Rates
pub mod Admin
pub mod Loans
pub mod Vaults
pub mod Flash
pub mod Values
pub mod Scheduled
pub mod Bridged
pub mod Upgrades
pub mod Swaps
pub mod Delegated
