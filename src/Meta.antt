-- ===== src/Meta.antt =====
-- The archetypes of the metagame against the collection (backend/app/services/meta).
pub mod Coverage
pub mod Fielded
mod Examples
