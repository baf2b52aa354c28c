-- ===== src/Collection.antt =====
-- Copies of cards: what they are added from, changed and removed
-- (backend/app/services/collection/add.py and update.py, backend/app/util/text.py).
pub mod Names
pub mod Printings
pub mod Items
pub mod Ambiguous
pub mod Adding
pub mod AddUndo
pub mod Columns
pub mod Required
pub mod Updating
pub mod UpdateUndo
pub mod Removing
pub mod RemoveUndo
pub mod Best
pub mod Invariant
pub mod Sample
mod Examples
mod RemoveExamples
