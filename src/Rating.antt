-- ===== src/Rating.antt =====
-- The rating of a deck (backend/app/services/rating).
pub mod Brackets
pub mod Levels
mod Examples
