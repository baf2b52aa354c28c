-- ===== src/Prices.antt =====
-- What the collection is worth (backend/app/services/pricing.py).
pub mod Value
pub mod Groups
pub mod Balance
mod Examples
