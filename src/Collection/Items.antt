-- ===== src/Collection/Items.antt =====
-- `add_copies` (backend/app/services/collection/add.py), and `get_item`, `update_item` and
-- `delete_items` (backend/app/services/collection/update.py). A copy is a row of the audited table
-- `collection_items`. The batch id and the time are arguments, and the id that the database gives a
-- new row is a parameter.
use mtg_vault.Base.{
  ℕ, zero, suc, not, Bool, ◌&&◌, ◌||◌, ◌==◌, Option, none, some, List, [], ◌∷◌, ◌++◌, map, nat_eq,
  nat_beq, ltb, if◌then◌else◌, is_empty, filter, any, contains, length, Result, ok, raise,
  not_found, conflict, integrity_error, invalid_quantity, ambiguous_card, ◌>>=◌,
}
use mtg_vault.Base.Text.{Text, codes, text_eq}
use mtg_vault.Base.Dict.{lookup, get_or}
use mtg_vault.Audit.Rows.{
  Value, Row, Entity, Tables, null, number, flag, text, value_eq, pk_of, set_table, find_row,
  delete_row, set_attributes, update_row,
}
use mtg_vault.Audit.Record.{AuditEntry, Action, Payload, record_entry}
use mtg_vault.Collection.Names.{Unicode, decimal}
use mtg_vault.Collection.Printings.{
  Printing, OracleName, AddSpec, Resolution, is_given, resolve_card,
}

-- `MAX_QUANTITY`
abbrev pub max_quantity : ℕ
max_quantity = 500

-- `MUTABLE_FIELDS`
abbrev pub mutable_fields : List Text
mutable_fields =
    codes "finish"
    ∷ codes "condition"
    ∷ codes "is_proxy"
    ∷ codes "acquired_at"
    ∷ codes "acquired_price_cents"
    ∷ codes "notes"
    ∷ codes "lang"
    ∷ []

-- The mutable fields whose column is NOT NULL.
abbrev pub required_fields : List Text
required_fields = codes "finish" ∷ codes "condition" ∷ codes "is_proxy" ∷ codes "lang" ∷ []

-- A change that the database refuses: a null for such a field.
abbrev pub is_refused : Text × Value → Bool
is_refused change = contains change.0 required_fields && change.1 == null

-- The tables that the operations read and write.
pub record Collection : Type 0 where
  pub cards : List Printing
  pub oracles : List OracleName
  pub tables : Tables
  pub log : List AuditEntry

abbrev pub items_of : Tables → List Row
items_of tables = tables Entity.collection_item

-- A column of a row.
abbrev pub column : Text → Row → Value
column name row = get_or (lookup name row) null

abbrev pub id_of : Row → Value
id_of = column (codes "id")

abbrev pub optional_text : Option Text → Value
optional_text none = null
optional_text (some t) = text t

abbrev pub optional_number : Option ℕ → Value
optional_number none = null
optional_number (some n) = number n

-- `batch_id or audit.new_batch_id()`
abbrev pub batch_or : Option Text → Text → Text
batch_or batch_id new_batch = if is_given batch_id then get_or batch_id [] else new_batch

-- The columns of a new copy, and its snapshot.
unfoldable pub new_item : Printing → AddSpec → Text → ℕ → Row
new_item card spec now id =
    (codes "id", number id)
    ∷ (codes "card_id", number card.id)
    ∷ (codes "oracle_id", text card.oracle_id)
    ∷ (codes "set_code", text card.set_code)
    ∷ (codes "collector_number", text card.collector_number)
    ∷ (codes "lang", text spec.lang)
    ∷ (codes "finish", text spec.finish)
    ∷ (codes "condition", text spec.condition)
    ∷ (codes "is_proxy", flag spec.is_proxy)
    ∷ (codes "acquired_at", optional_text spec.acquired_at)
    ∷ (codes "acquired_price_cents", optional_number spec.acquired_price_cents)
    ∷ (codes "notes", optional_text spec.notes)
    ∷ (codes "created_at", text now)
    ∷ (codes "updated_at", text now)
    ∷ []

-- `_candidate`
unfoldable pub candidate : Printing → Row
unfolding decimal
candidate card =
    (codes "card_id", number card.id)
    ∷ (codes "oracle_id", text card.oracle_id)
    ∷ (codes "name", text card.name)
    ∷ (codes "set_code", text card.set_code)
    ∷ (codes "set_name", optional_text card.set_name)
    ∷ (codes "collector_number", text card.collector_number)
    ∷ (codes "lang", text card.lang)
    ∷ (codes "price_usd_cents", optional_number card.price_usd_cents)
    ∷ (codes "image_url", text (codes "/api/images/" ++ decimal card.id ++ codes "/normal"))
    ∷ []

-- `_summary`. The keys of the dict under `card` are written `card.` and the key.
unfoldable pub summary : Printing → AddSpec → ℕ → Row
unfolding candidate
summary card spec quantity =
    (codes "quantity", number quantity)
      ∷ map (λ (e : Text × Value). (codes "card." ++ e.0, e.1)) (candidate card)
    ++ (codes "finish", text spec.finish)
      ∷ (codes "condition", text spec.condition)
      ∷ (codes "lang", text spec.lang)
      ∷ (codes "is_proxy", flag spec.is_proxy)
      ∷ []

-- `db.add_all(items)`: the table, and the new rows.
unfoldable pub insert_rows : (List Row → ℕ) → (ℕ → Row) → ℕ → List Row → List Row × List Row
insert_rows new_id make zero rows = (rows, [])
insert_rows new_id make (suc n) rows =
    let row = make (new_id rows) in
    let (final, items) = insert_rows new_id make n (rows ++ row ∷ []) in (final, row ∷ items)

-- The entry of an add. A single copy is recorded by its row.
unfoldable pub add_entry :
    Text → Printing → AddSpec → ℕ → List Row → Text → Option Text → AuditEntry
unfolding summary
add_entry batch card spec quantity items source note = record {
  action = if ltb 1 quantity then Action.bulk_create else Action.create;
  entity_type = Entity.collection_item;
  entity_id = if nat_beq quantity 1 then some (id_of (head items)) else none;
  batch_id = batch;
  before_json = none;
  after_json = some (
      if ltb 1 quantity
      then Payload.bulk items (summary card spec quantity)
      else Payload.single (head items));
  source = source;
  note = note;
  reverted_at = none;
}
  where
    head : List Row → Row
    head [] = []
    head (row ∷ rows) = row

-- The card of a resolution, or the error for the lack of one.
unfoldable pub chosen : Resolution → Result Printing
chosen resolution = elim resolution.card [
  | some card ↦ ok card
  | none ↦ if is_empty resolution.candidates then raise not_found else raise ambiguous_card
]

-- `db.delete(item)` for each item.
unfoldable pub delete_each : List Row → List Row → List Row
unfolding delete_row pk_of
delete_each [] rows = rows
delete_each (item ∷ items) rows =
    delete_each items (delete_row Entity.collection_item (pk_of Entity.collection_item item) rows)

-- The allocations that are left when copies are deleted: the foreign key cascades.
unfoldable pub cascade : List Row → List Row → List Row
cascade items =
    filter (λ row. not (contains (column (codes "collection_item_id") row) (map id_of items)))

-- `get_item`
unfoldable pub get_item : ℕ → List Row → Result Row
get_item item_id rows = elim (find_row Entity.collection_item (number item_id ∷ []) rows) [
  | none ↦ raise not_found
  | some item ↦ ok item
]

-- The changes and the new `updated_at`.
abbrev pub with_time : Text → Row → Row
with_time now changes = changes ++ (codes "updated_at", text now) ∷ []

unfoldable pub update_entry : Text → ℕ → Row → Row → Text → Option Text → AuditEntry
update_entry batch item_id before after source note = record {
  action = Action.update;
  entity_type = Entity.collection_item;
  entity_id = some (number item_id);
  batch_id = batch;
  before_json = some (Payload.single before);
  after_json = some (Payload.single after);
  source = source;
  note = note;
  reverted_at = none;
}

unfoldable pub delete_entry : Text → List Row → Text → Option Text → AuditEntry
delete_entry batch items source note = record {
  action = if ltb 1 (length items) then Action.bulk_delete else Action.delete;
  entity_type = Entity.collection_item;
  entity_id = if nat_beq (length items) 1 then some (id_of (head items)) else none;
  batch_id = batch;
  before_json =
      some (if ltb 1 (length items) then Payload.bulk items [] else Payload.single (head items));
  after_json = none;
  source = source;
  note = note;
  reverted_at = none;
}
  where
    head : List Row → Row
    head [] = []
    head (row ∷ rows) = row

module _ (new_batch now : Text) (batch_id : Option Text) (source : Text) (note : Option Text) where
  -- `add_copies`: the new rows, the batch and the tables.
  unfoldable pub add_copies :
      (List Row → ℕ) → Unicode → AddSpec → ℕ → Collection → Result (List Row × Text × Collection)
  unfolding resolve_card chosen insert_rows new_item add_entry record_entry set_table
  add_copies new_id unicode spec quantity c =
      if ltb quantity 1 || ltb max_quantity quantity
      then raise invalid_quantity
      else chosen (resolve_card unicode c.cards c.oracles spec) >>= λ card.
          let batch = batch_or batch_id new_batch in
          let (rows, items) =
            insert_rows new_id (new_item card spec now) quantity (items_of c.tables) in
          ok (
            items,
            batch,
            record c {
              tables = set_table Entity.collection_item rows c.tables;
              log = record_entry (add_entry batch card spec quantity items source note) c.log;
            },
          )

  -- `update_item`: the updated row, the batch and the tables. A null for a required field fails when
  -- the changes are flushed, before the entry is recorded.
  unfoldable pub update_item : ℕ → Row → Collection → Result (Row × Text × Collection)
  update_item item_id changes c = get_item item_id (items_of c.tables) >>= λ item.
      if any (λ (change : Text × Value). not (contains change.0 mutable_fields)) changes
      then raise conflict
      else if any is_refused changes
      then raise integrity_error
      else let batch = batch_or batch_id new_batch in
        let values = with_time now changes in
        let after = set_attributes item values in
        let key = number item_id ∷ [] in
        ok (
          after,
          batch,
          record c {
            tables =
                set_table Entity.collection_item
                  (update_row Entity.collection_item key values (items_of c.tables)) c.tables;
            log = record_entry (update_entry batch item_id item after source note) c.log;
          },
        )

  -- `delete_items`: how many rows were removed, the batch and the tables.
  unfoldable pub delete_items : List ℕ → Collection → Result (ℕ × Text × Collection)
  unfolding delete_each cascade set_table delete_entry record_entry
  delete_items item_ids c =
      let batch = batch_or batch_id new_batch in
      let ids = map number item_ids in
      let items = filter (λ row. contains (id_of row) ids) (items_of c.tables) in
      if is_empty item_ids
      then ok (0, batch, c)
      else if any (λ id. not (contains id (map id_of items))) ids
      then raise not_found
      else ok (
        length items,
        batch,
        record c {
          tables = set_table Entity.collection_item (delete_each items (items_of c.tables)) (
              set_table Entity.deck_allocation (cascade items (c.tables Entity.deck_allocation))
                c.tables);
          log = record_entry (delete_entry batch items source note) c.log;
        },
      )
