-- ===== src/Audit.antt =====
-- The audit log and the revert of a batch (backend/app/services/audit.py).
pub mod Rows
pub mod Record
pub mod Revert
pub mod Restore
pub mod Batches
pub mod Keys
pub mod Keyed
pub mod Single
mod Examples
