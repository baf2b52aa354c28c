-- ===== src/Decks.antt =====
-- Decks and the physical copies that they hold (backend/app/services/decks).
pub mod Store
pub mod Stats
pub mod Curve
pub mod Picks
pub mod Preference
pub mod Build
pub mod Rows
pub mod Edit
pub mod Keys
pub mod Caches
pub mod Consistent
pub mod Editing
pub mod Creation
pub mod Edits
pub mod Requests
pub mod Undoing
pub mod Missing
pub mod Cover
pub mod Distinct
pub mod Invariant
pub mod Outcome
pub mod Release
mod Examples
mod StatsExamples
mod EditExamples
