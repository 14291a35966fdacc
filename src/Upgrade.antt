-- ===== src/Upgrade.antt =====
-- The upgrade manager (common/src/upgrade.rs) that the contracts share: proposals of a new
-- implementation, their approval by several approvers, execution and rollback.
pub mod State
pub mod Manager
pub mod Approvals
pub mod Stages
pub mod Rollback
pub mod Life
