-- ===== src/Rules.antt =====
-- The deck-legality rules engine (backend/app/services/rules).
pub mod Cards
pub mod Formats
pub mod Mechanism
pub mod Commander
pub mod Companions
pub mod Report
pub mod Checks
pub mod Leaders
pub mod Copies
pub mod Legality
pub mod Identity
pub mod Pairing
pub mod Umori
pub mod Shape
pub mod Validate
pub mod Leadership
pub mod Verdict
pub mod Reminder
pub mod Sideboard
mod Examples
