-- ===== src/Collection/Updating.antt =====
-- `update_item` (backend/app/services/collection/update.py): which columns it writes, and its
-- errors.
use mtg_vault.Base.{
  ℕ, ◌≡◌, refl, ◌⊎◌, inl, inr, true, false, not, Option, none, some, [], ◌∷◌, if◌then◌else◌, any,
  contains, Bool-cases, Option-cases, Result, ok, raise, conflict, not_found, integrity_error,
}
use mtg_vault.Base.Text.{Text, text_eq}
use mtg_vault.Base.Dict.{lookup, IsUnique}
use mtg_vault.Audit.Rows.{
  Value, Row, Key, Entity, number, pk_of, find_row, set_attributes, update_row, set_table, same_key,
}
use mtg_vault.Audit.Record.{record_entry}
use mtg_vault.Audit.Keys.{IsKeyedTable, same_key_iff}
use mtg_vault.Audit.Keyed.{map-IsKeyed}
use mtg_vault.Audit.Restore.{find_row-update_row}
use mtg_vault.Collection.Items.{
  Collection, items_of, mutable_fields, with_time, batch_or, update_item, update_entry, is_refused,
}
use mtg_vault.Collection.Required.{NullsRequired, refused_iff}
use mtg_vault.Collection.Columns.{
  only_mutable, update-key, written, lookup-written, find_row-update_other, get_item-none,
  get_item-some,
}

module _ (new_batch now : Text) (batch_id : Option Text) (source : Text) (note : Option Text)
    (item_id : ℕ) (changes : Row) (c : Collection) where
  abbrev outcome : Result (Row × Text × Collection)
  outcome = update_item new_batch now batch_id source note item_id changes c

  -- The tables after an update.
  abbrev pub updated : Row → Collection
  updated item =
      let values = with_time now changes in
      record c {
        tables =
            set_table Entity.collection_item
              (update_row Entity.collection_item (number item_id ∷ []) values (items_of c.tables))
              c.tables;
        log =
            record_entry
              (update_entry (batch_or batch_id new_batch) item_id item (set_attributes item values)
                source note)
              c.log;
      }

  -- The refusals of an update, or what it has done.
  pub update_item-cases :
      ((outcome ≡ raise not_found)
        × (find_row Entity.collection_item (number item_id ∷ []) (items_of c.tables) ≡ none))
      ⊎ ((item : Row) × (find_row Entity.collection_item (number item_id ∷ []) (items_of c.tables)
            ≡ some item)
          × (((outcome ≡ raise conflict) × (only_mutable changes ≡ false))
              ⊎ ((only_mutable changes ≡ true)
                  × (((outcome ≡ raise integrity_error) × (any is_refused changes ≡ true))
                      ⊎ ((any is_refused changes ≡ false)
                          × (outcome
                              ≡ ok (
                                set_attributes item (with_time now changes),
                                batch_or batch_id new_batch,
                                updated item,
                              )))))))
  unfolding update_item
  update_item-cases =
      elim (Option-cases
        (find_row Entity.collection_item (number item_id ∷ []) (items_of c.tables))) [
          | inl absent ↦ inl (rw (get_item-none item_id (items_of c.tables) absent) refl, absent)
          | inr (item, found) ↦
              let got = get_item-some item_id (items_of c.tables) item found in
              inr (
                item,
                found,
                elim (Bool-cases (
                    any (λ (change : Text × Value). not (contains change.0 mutable_fields))
                      changes)) [
                        | inl wrong ↦ inl (rw (got, wrong) refl, rw wrong refl)
                        | inr right ↦ inr (
                          rw right refl,
                          elim (Bool-cases (any is_refused changes)) [
                            | inl wrong ↦ inl (rw (got, right, wrong) refl, wrong)
                            | inr kept ↦ inr (kept, rw (got, right, kept) refl)
                          ],
                        )
                      ],
              )
        ]

  find_row-updated :
      (other : Key) (item : Row)
      → find_row Entity.collection_item (number item_id ∷ []) (items_of c.tables) ≡ some item
      → only_mutable changes ≡ true
      → find_row Entity.collection_item other (items_of (updated item).tables) ≡ (
          if same_key (number item_id ∷ []) other
          then some (set_attributes item (with_time now changes))
          else find_row Entity.collection_item other (items_of c.tables))
  unfolding set_table
  find_row-updated other item found right =
      let key = number item_id ∷ [] in
      let values = with_time now changes in
      let rows = items_of c.tables in
      elim (Bool-cases (same_key key other)) [
        | inl here ↦
            rw (here, ← ((same_key_iff key other).0 here))
              (find_row-update_row Entity.collection_item key values item rows found
                (update-key now item changes right))
        | inr there ↦ rw there (
            find_row-update_other Entity.collection_item key other values rows
              (λ e. let clash = (same_key_iff key other).1 e in absurd (cc))
              (λ row. update-key now row changes right))
      ]

  -- An update of a copy that does not exist, or of a field that is not mutable, is refused, and one
  -- that gives a null to the finish, the condition, the language or the proxy flag fails in the
  -- database. Any other succeeds: each changed column of the copy reads its new value, `updated_at` the time, and
  -- every other column what it read before; every other key finds the row that it found. No field is
  -- named twice in the changes.
  pub update_item-outcome :
      IsUnique changes
      → ((outcome ≡ raise not_found)
          × (find_row Entity.collection_item (number item_id ∷ []) (items_of c.tables) ≡ none))
        ⊎ ((item : Row) × (find_row Entity.collection_item (number item_id ∷ []) (items_of c.tables)
              ≡ some item)
            × (((outcome ≡ raise conflict) × (only_mutable changes ≡ false))
                ⊎ (((outcome ≡ raise integrity_error)
                      × (only_mutable changes ≡ true)
                      × NullsRequired changes)
                    ⊎ ((after : Row) × (c' : Collection) × (only_mutable changes ≡ true)
                        × (NullsRequired changes → ⊥)
                        × (outcome ≡ ok (after, batch_or batch_id new_batch, c'))
                        × ((k : Text) → lookup k after ≡ written now changes item k)
                        × ((other : Key)
                            → find_row Entity.collection_item other (items_of c'.tables) ≡ (
                                if same_key (number item_id ∷ []) other
                                then some after
                                else find_row Entity.collection_item other (items_of c.tables)))))))
  unfolding set_table
  update_item-outcome u = elim update_item-cases [
    | inl refused ↦ inl refused
    | inr (item, found, inl wrong) ↦ inr (item, found, inl wrong)
    | inr (item, found, inr (right, inl (refused, wrong))) ↦
        inr (item, found, inr (inl (refused, right, (refused_iff changes u).0 wrong)))
    | inr (item, found, inr (right, inr (kept, done))) ↦
        let values = with_time now changes in
        let rows = items_of c.tables in
        inr (
          item,
          found,
          inr (
              inr (
                set_attributes item values,
                updated item,
                right,
                (λ nulls. let wrong = (refused_iff changes u).1 nulls in absurd (cc)),
                done,
                λ k. lookup-written now k item changes u,
                λ other. find_row-updated other item found right,
              )),
        )
  ]

  -- An update keeps the ids unique.
  pub updated-IsKeyed :
      (item : Row)
      → only_mutable changes ≡ true
      → IsKeyedTable Entity.collection_item (items_of c.tables)
      → IsKeyedTable Entity.collection_item (items_of (updated item).tables)
  unfolding set_table update_row
  updated-IsKeyed item right keyed =
      map-IsKeyed Entity.collection_item _
        (λ row.
          elim (Bool-cases (same_key (pk_of Entity.collection_item row) (number item_id ∷ []))) [
            | inl here ↦ rw here (update-key now row changes right)
            | inr there ↦ rw there refl
          ])
        (items_of c.tables) keyed
