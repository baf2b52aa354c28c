-- ===== src/Scan.antt =====
-- Scanning sessions (backend/app/services/scan/session.py, backend/app/api/scan.py).
pub mod Store
pub mod Session
pub mod Requests
pub mod Retry
pub mod Undoing
pub mod Links
pub mod Worth
pub mod Totals
mod Examples
