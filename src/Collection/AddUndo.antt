-- ===== src/Collection/AddUndo.antt =====
-- The revert of an add (backend/app/services/collection/add.py, backend/app/services/audit.py).
use mtg_vault.Base.{
  ℕ, ◌≤◌, ◌<◌, ◌≡◌, refl, ap, inl, inr, Bool, true, false, Option, some, List, [], ◌∷◌, ◌++◌, arith,
  ltb, nat_beq, length, Bool-cases, ok,
}
use mathlib.Core.Path.{subst}
use mathlib.Core.List.{append-nil}
use mtg_vault.Base.Text.{Text, text_eq}
use mtg_vault.Audit.Rows.{Row, Entity, Tables, pk_of, set_table}
use mtg_vault.Audit.Record.{Action, Payload, AuditEntry, record_entry, stored_pair}
use mtg_vault.Audit.Revert.{Progress, remove_rows, revert_action, revert_batch, batch_of, applying}
use mtg_vault.Audit.Keys.{IsKeyedTable}
use mtg_vault.Audit.Keyed.{keyed-middle, delete-middle}
use mtg_vault.Audit.Single.{revert_batch-single, one_reverted}
use mtg_vault.Collection.Names.{Unicode}
use mtg_vault.Collection.Printings.{Printing, AddSpec}
use mtg_vault.Collection.Items.{
  Collection, items_of, id_of, new_item, insert_rows, add_copies, add_entry, summary,
}
use mtg_vault.Collection.Adding.{
  IsFresh, new_item-key, insert_rows-append, length-insert_rows, insert_rows-IsKeyed,
  add_copies-passed,
}

-- Removing the rows at the end of a keyed table, one by one, leaves the rows before them.
remove_rows-append :
    (model : Entity) (rows items : List Row)
    → IsKeyedTable model (rows ++ items)
    → remove_rows model items (rows ++ items) ≡ (rows, length items)
unfolding remove_rows
remove_rows-append model rows [] u = ap (λ r. (r, 0)) (append-nil rows)
remove_rows-append model rows (x ∷ xs) u =
    let (found, deleted) = delete-middle model rows x xs u in
    let (_, _, rest) = keyed-middle model rows x xs u in
    rw (found, deleted, remove_rows-append model rows xs rest) refl

-- Two tables with the same rows.
abbrev pub SameTables : Tables → Tables → Type 0
SameTables s t = (model : Entity) → s model ≡ t model

module _ (violates : Entity → Row → Tables → Bool) (rows : List Row) (tables : Tables) where
  bulk_reverted :
      (items : List Row) (entry : AuditEntry) (shown : Row)
      → IsKeyedTable Entity.collection_item (rows ++ items)
      → entry.entity_type ≡ Entity.collection_item
      → entry.after_json ≡ some (Payload.bulk items shown)
      → 0 < length items
      → let added = set_table Entity.collection_item (rows ++ items) tables in
        revert_action violates Action.bulk_create entry added
        ≡ applying (set_table Entity.collection_item rows added)
  unfolding revert_action set_table
  bulk_reverted items entry shown keyed same stored some_items =
      let none_left : nat_beq (length items) 0 ≡ false = ground arith in
      rw (same, stored, remove_rows-append Entity.collection_item rows items keyed, none_left) refl

  single_reverted :
      (item : Row) (entry : AuditEntry)
      → IsKeyedTable Entity.collection_item (rows ++ item ∷ [])
      → entry.entity_type ≡ Entity.collection_item
      → entry.entity_id ≡ some (id_of item)
      → let added = set_table Entity.collection_item (rows ++ item ∷ []) tables in
        revert_action violates Action.create entry added
        ≡ applying (set_table Entity.collection_item rows added)
  unfolding revert_action set_table pk_of
  single_reverted item entry keyed same stored =
      let (found, deleted) = delete-middle Entity.collection_item rows item [] keyed in
      rw (same, stored, found, deleted, append-nil rows) refl

  -- What reverting the entry of an add does.
  add_reverted :
      (quantity : ℕ) (items : List Row) (batch source : Text) (card : Printing) (spec : AddSpec)
      (remark : Option Text)
      → IsKeyedTable Entity.collection_item (rows ++ items)
      → length items ≡ quantity
      → 1 ≤ quantity
      → let added = set_table Entity.collection_item (rows ++ items) tables in
        let entry = add_entry batch card spec quantity items source remark in
        revert_action violates entry.action entry added
        ≡ applying (set_table Entity.collection_item rows added)
  unfolding add_entry
  add_reverted quantity [] batch source card spec remark keyed size some_items =
      absurd (omega (arith, size))
  add_reverted quantity (item ∷ []) batch source card spec remark keyed size some_items =
      subst
        (λ n.
          let added = set_table Entity.collection_item (rows ++ item ∷ []) tables in
          let entry = add_entry batch card spec n (item ∷ []) source remark in
          revert_action violates entry.action entry added
          ≡ applying (set_table Entity.collection_item rows added))
        size (single_reverted item _ keyed refl refl)
  add_reverted quantity (item ∷ next ∷ more) batch source card spec remark keyed size some_items =
      let several : ltb 1 quantity ≡ true = ground (arith, size) in
      rw several (
        bulk_reverted (item ∷ next ∷ more) _ (summary card spec quantity) keyed refl refl
          (omega arith))

pub record_entry-add :
    (batch source : Text) (card : Printing) (spec : AddSpec) (quantity : ℕ) (items : List Row)
    (remark : Option Text) (log : List AuditEntry)
    → record_entry (add_entry batch card spec quantity items source remark) log
      ≡ add_entry batch card spec quantity items source remark ∷ log
unfolding record_entry add_entry stored_pair
record_entry-add batch source card spec quantity items remark log =
    elim (Bool-cases (ltb 1 quantity)) [ inl several ↦ rw several refl | inr one ↦ rw one refl ]

set_table-back :
    (tables : Tables) (rows : List Row)
    → SameTables
        (set_table Entity.collection_item
          (items_of tables)
          (set_table Entity.collection_item rows tables))
        tables
unfolding set_table
set_table-back tables rows Entity.collection_item = refl
set_table-back tables rows Entity.deck = refl
set_table-back tables rows Entity.deck_card = refl
set_table-back tables rows Entity.deck_allocation = refl
set_table-back tables rows Entity.wishlist = refl
set_table-back tables rows Entity.unknown = refl

-- Reverting the batch of an add, where nothing else is recorded under its id, counts one entry and
-- leaves every table as it was before the add. The ids of the table are unique, and the database
-- gives a new row an id that no row has.
pub revert_batch-add_copies :
    (violates : Entity → Row → Tables → Bool) (new_batch now : Text) (batch_id : Option Text)
    (source : Text) (note : Option Text) (new_id : List Row → ℕ) (unicode : Unicode)
    (spec : AddSpec) (quantity : ℕ) (c : Collection) (items : List Row) (batch : Text)
    (c' : Collection) (again later remark : Text)
    → IsFresh new_id
    → IsKeyedTable Entity.collection_item (items_of c.tables)
    → batch_of batch c.log ≡ []
    → add_copies new_batch now batch_id source note new_id unicode spec quantity c
      ≡ ok (items, batch, c')
    → (log : List AuditEntry) × (final : Progress) × (revert_batch violates batch again later remark
          c'.log c'.tables
        ≡ ok (log, final))
      × (final.reverted ≡ 1)
      × (final.skipped ≡ 0)
      × SameTables final.tables c.tables
unfolding set_table add_entry
revert_batch-add_copies violates new_batch now batch_id source note new_id unicode spec quantity c
      items batch c' again later remark fresh keyed alone h =
    let (card, _, low, _, (same_items, _, same)) =
      add_copies-passed new_batch now batch_id source note new_id unicode spec quantity c items
        batch c' h in
    let rows = items_of c.tables in
    let make = new_item card spec now in
    let items' = (insert_rows new_id make quantity rows).1 in
    let appended = insert_rows-append new_id make quantity rows in
    let whole : IsKeyedTable Entity.collection_item (rows ++ items') =
      subst (IsKeyedTable Entity.collection_item) appended
        (insert_rows-IsKeyed new_id make fresh (new_item-key card spec now) quantity rows keyed) in
    let entry = add_entry batch card spec quantity items' source note in
    let added = set_table Entity.collection_item (rows ++ items') c.tables in
    let effect = applying (set_table Entity.collection_item rows added) in
    let (log, reverted) =
      revert_batch-single violates batch again later remark entry c.log added effect refl refl refl
        alone
        (add_reverted violates rows c.tables quantity items' batch source card spec note whole
          (length-insert_rows new_id make quantity rows) low)
        refl in
    (
      log,
      one_reverted violates batch again later remark entry effect,
      rw (same, record_entry-add batch source card spec quantity items' note c.log, appended)
          reverted,
      refl,
      refl,
      set_table-back c.tables (rows ++ items'),
    )
