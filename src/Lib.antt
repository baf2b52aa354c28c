-- ===== src/Lib.antt =====
-- MTG Vault: a Magic: The Gathering collection and deck manager (backend/app, Python).
--
-- The program's parts that are modelled, and their files:
--
-- - Rules: the deck-legality engine, backend/app/services/rules. Pure functions over deck rows, card
--   facts and legality statuses. Rules/Cards is cards.py, Rules/Formats is formats.py,
--   Rules/Mechanism and Rules/Commander are commander.py, Rules/Companions is companions.py, and
--   Rules/Report, Rules/Checks, Rules/Leaders and Rules/Validate are validate.py. The other files
--   of Rules/ hold proofs: Copies, Legality, Shape, Identity, Pairing, Leadership and Umori each
--   about one check, Reminder about the readers of card texts, Sideboard and Verdict about
--   `validate_deck`.
-- - Audit: the log of row changes and its revert, backend/app/services/audit.py. Audit/Rows has the
--   snapshots and tables, Audit/Record is `record`, Audit/Revert is `revert_batch` and
--   `_revert_entry`. Audit/Restore, Audit/Batches, Keys, Keyed and Single hold proofs.
-- - Decks: decks and the physical copies sleeved into them. Decks/Store has the tables of
--   backend/app/models and the queries of backend/app/services/collection/availability.py.
--   Decks/Picks and Decks/Build are `build` and `unbuild` and Decks/Missing is `missing_list`, of
--   backend/app/services/decks/allocate.py; Decks/Preference, Decks/Cover, Decks/Distinct,
--   Decks/Invariant, Decks/Outcome and Decks/Release hold proofs about them. Decks/Rows and
--   Decks/Edit are backend/app/services/decks/crud.py; Decks/Keys, Decks/Caches, Decks/Consistent,
--   Decks/Editing, Decks/Creation, Decks/Edits, Decks/Requests and Decks/Undoing hold proofs about
--   it. Both write the log with `record` of Audit. Decks/Stats is the statistics of a deck,
--   backend/app/services/decks/stats.py; Decks/Curve holds proofs.
-- - Collection: the physical copies. Collection/Names is `normalize_name` of
--   backend/app/util/text.py, Collection/Printings is `resolve_card` and Collection/Items
--   `add_copies`, of backend/app/services/collection/add.py, with `update_item` and `delete_items` of
--   backend/app/services/collection/update.py. A copy is a row of the audited table
--   `collection_items`, so the operations and the revert of their batches work on the same tables.
--   Collection/Ambiguous, Adding, AddUndo, Columns, Required, Updating, UpdateUndo, Removing,
--   RemoveUndo, Best and Invariant hold proofs, Collection/Sample the data of the examples.
-- - Scan: sessions of scanning. Scan/Store has the tables of backend/app/models/scan.py,
--   Scan/Session is backend/app/services/scan/session.py, which calls `add_copies` and
--   `revert_batch`, and Scan/Requests the confirm handler of backend/app/api/scan.py with its
--   idempotency keys. Scan/Worth is the running value of a session. Scan/Retry, Scan/Undoing,
--   Scan/Links and Scan/Totals hold proofs.
-- - Prices: the value of the collection, backend/app/services/pricing.py, in Prices/Value, over the
--   rows of Collection; Prices/Groups and Prices/Balance hold proofs.
-- - Rating: the Commander bracket of a deck, backend/app/services/rating/brackets.py, in
--   Rating/Brackets; Rating/Levels holds proofs. The classification of cards by regular expressions
--   of a data file (classify.py) is a parameter.
-- - Meta: how much of an archetype's template the collection can field,
--   backend/app/services/meta/coverage.py, in Meta/Coverage, over the tables of Decks/Store and with
--   the counts of Decks/Missing; Meta/Fielded holds proofs.
-- - Jobs: the record of a scheduled job's run, backend/app/jobs/runner.py, in Jobs/Runner; the body
--   of a job is a parameter. Jobs/Recorded holds proofs.
-- - Base: what they share. Text is `str`, Dict a dict in insertion order, Masks the bit masks of
--   colours, Sorting `sorted`, Errors the exceptions.
--
-- How the code is represented:
--
-- - A text is the list of its code points. Case mapping is that of ASCII, and white space is
--   Python's set. A set is a list, read only for membership, emptiness or size; the one order of a
--   set that the code leaves open, in the counting loop of `_umori`, is the list's.
-- - A quantity, an id and a price are natural numbers. A mana value is counted in hundredths, an
--   average, a coverage and a rank score are fractions, and the rounding of the land
--   recommendation is that of the exact value.
--   A colour mask is a number whose five lowest bits are the colours.
-- - A check of the source appends to the caller's lists; in the model it returns what it appends.
--   A message is kept as its literals and values, not rendered to one text. A closed set of strings
--   (boards, statuses, actions, entity types, error codes) is a data type; a legality status that
--   is none of the four is read as not legal, as the source does.
-- - An exception is an error value. The rollback of the transaction after one is the caller's.
-- - A database table is a list of records, and a query a filter over it in the table's order. An
--   operation takes the tables and returns them. Batch ids and times are arguments. The id of
--   a new deck is one that the table has not; the other ids and times that the database gives to a
--   row, and columns that no modelled operation uses, are left out. In a sequence of edits a failed
--   one leaves the tables as they were, since its transaction is rolled back.
-- - A null for a NOT NULL column fails an update of a copy; the other changes have the types of the
--   request's schema. What a constraint of the database refuses, when a revert inserts the rows of a
--   bulk delete, is a parameter. A constraint that refuses another write of a revert aborts its
--   transaction, and is not modelled. The audit's tables are generic (a row is a dict of columns)
--   and stand beside the typed tables of Decks/Store; no theorem connects the two. The copies of
--   Collection are rows of the audit's tables.
-- - The id that the database gives a new copy is a parameter, a function of the table; the tables of
--   Python's `str.casefold` and `unicodedata` are one as well. The foreign key of an allocation
--   cascades when its copy is deleted; a revert that deletes rows is modelled without cascade.
-- - Every function is by structural recursion; there is no fuel.
--
-- Not modelled: the HTTP API, clients of other services, the jobs themselves, card recognition and
-- vision, synergy, the other services of meta and of rating, imports and exports, the price history,
-- the frontend and the Forge bridge.
-- They are input and output, numerical or statistical, or still to be modelled.
pub mod Base
pub mod Rules
pub mod Audit
pub mod Decks
pub mod Collection
pub mod Prices
pub mod Scan
pub mod Rating
pub mod Jobs
pub mod Meta
