-- ===== src/Collection/Examples.antt =====
-- A small collection, and each theorem on it.
use mtg_vault.Base.{
  ℕ, ◌≤◌, ◌<◌, ◌≡◌, refl, ◌≢◌, ◌⊎◌, Bool, true, false, ◌&&◌, none, some, List, [], ◌∷◌, ◌++◌, map,
  if◌then◌else◌, length, All, Result, ok, raise, not_found, conflict, integrity_error,
  invalid_quantity, ambiguous_card,
}
use mtg_vault.Base.Text.{Text, codes, text_eq, same_text, lower}
use mtg_vault.Base.Dict.{get_or, lookup}
use mtg_vault.Base.Sorting.{sort, text_leb}
use mtg_vault.Audit.Rows.{
  Value, null, value_eq, Row, Key, Entity, Tables, number, text, same_value, same_key, pk_of,
  find_row, delete_row, set_attributes, update_row, set_table,
}
use mtg_vault.Audit.Record.{AuditEntry, record_entry}
use mtg_vault.Audit.Revert.{Progress, revert_batch}
use mtg_vault.Collection.Names.{normalize_name}
use mtg_vault.Collection.Printings.{
  Printing, is_given, resolve_card, resolve_printing, resolve_oracle, find_printing, printings_for,
  printing_leb, english_leb, oracles_named, resolve_named, resolve_by_oracle,
}
use mtg_vault.Collection.Items.{
  Collection, items_of, id_of, new_item, insert_rows, add_entry, chosen, add_copies, update_item,
  delete_items, delete_each, cascade, get_item, update_entry, delete_entry,
}
use mtg_vault.Collection.Adding.{IsCopyOf, add_copies-outcome}
use mtg_vault.Collection.AddUndo.{SameTables, revert_batch-add_copies}
use mtg_vault.Collection.Required.{NullsRequired}
use mtg_vault.Collection.Updating.{update_item-outcome}
use mtg_vault.Collection.Columns.{only_mutable, written}
use mtg_vault.Collection.UpdateUndo.{revert_batch-update_item}
use mtg_vault.Collection.Sample.{next_id, next_id-IsFresh, printing, unicode, bolt, vault}

unfoldable pub program : Unit {0}
unfolding normalize_name resolve_card resolve_printing resolve_oracle resolve_named
    resolve_by_oracle find_printing printings_for printing_leb english_leb oracles_named sort
    text_leb lower new_item insert_rows add_entry chosen add_copies update_item delete_items
    delete_each cascade get_item update_entry delete_entry same_text same_value same_key pk_of
    find_row delete_row set_attributes update_row set_table record_entry next_id
program = tt

abbrev two : ℕ
two = 2

abbrev add_two : Result (List Row × Text × Collection)
add_two = add_copies (codes "b1") (codes "t1") none (codes "api") none next_id unicode bolt 2 vault

abbrev filled : Result (List Row × Text × Collection) → Collection
filled (ok (items, batch, c)) = c
filled (raise e) = vault

added_test : map id_of (items_of (filled add_two).tables) ≡ number 1 ∷ number 2 ∷ []
unfolding program
added_test = refl

abbrev pub stocked : Collection
stocked = filled add_two

add_copies-outcome_example :
    ((add_two ≡ raise invalid_quantity) × ((two ≡ 0) ⊎ (500 < two)))
    ⊎ ((1 ≤ two)
        × (two ≤ 500)
        × (((add_two ≡ raise not_found)
              × ((resolve_card unicode vault.cards vault.oracles bolt).card ≡ none)
              × ((resolve_card unicode vault.cards vault.oracles bolt).candidates ≡ []))
            ⊎ (((add_two ≡ raise ambiguous_card)
                  × ((resolve_card unicode vault.cards vault.oracles bolt).card ≡ none)
                  × ((resolve_card unicode vault.cards vault.oracles bolt).candidates ≢ [])
                  × (is_given bolt.set_code && is_given bolt.collector_number ≡ false)
                  × (bolt.oracle_id ≡ none)
                  × (two
                      ≤ length (
                          oracles_named
                            (normalize_name unicode (get_or bolt.name []))
                            vault.oracles)))
                ⊎ ((card : Printing) × (items : List Row) × (c' : Collection) × ((resolve_card
                        unicode vault.cards vault.oracles bolt).card
                      ≡ some card)
                    × (add_two ≡ ok (items, codes "b1", c'))
                    × (length items ≡ two)
                    × All (IsCopyOf card bolt (codes "t1")) items
                    × (items_of c'.tables ≡ items_of vault.tables ++ items)))))
add_copies-outcome_example =
    add_copies-outcome (codes "b1") (codes "t1") none (codes "api") none next_id unicode bolt 2
      vault

-- A database that has no constraints besides the keys.
abbrev pub accepts : Entity → Row → Tables → Bool
accepts model row tables = false

revert_batch-add_copies_example :
    (log : List AuditEntry) × (final : Progress) × (revert_batch accepts
        (codes "b1")
        (codes "b2")
        (codes "t2")
        []
        stocked.log
        stocked.tables
      ≡ ok (log, final))
    × (final.reverted ≡ 1)
    × (final.skipped ≡ 0)
    × SameTables final.tables vault.tables
unfolding program
revert_batch-add_copies_example =
    revert_batch-add_copies accepts (codes "b1") (codes "t1") none (codes "api") none next_id
      unicode bolt 2 vault (items_of stocked.tables) (codes "b1") stocked (codes "b2") (codes "t2")
      [] next_id-IsFresh tt refl refl

-- The cheaper printing of the card with the name.
abbrev cheap : Printing
cheap = printing 11 (codes "lea") (some 200)

abbrev pub regrade : Row
regrade = (codes "condition", text (codes "LP")) ∷ []

abbrev first_copy : Row
first_copy = new_item cheap bolt (codes "t1") 1

abbrev update_one : Result (Row × Text × Collection)
update_one = update_item (codes "b3") (codes "t3") none (codes "api") none 1 regrade stocked

update_item-outcome_example :
    let key = number 1 ∷ [] in
    ((update_one ≡ raise not_found)
      × (find_row Entity.collection_item key (items_of stocked.tables) ≡ none))
    ⊎ ((item : Row) × (find_row Entity.collection_item key (items_of stocked.tables) ≡ some item)
        × (((update_one ≡ raise conflict) × (only_mutable regrade ≡ false))
            ⊎ (((update_one ≡ raise integrity_error)
                  × (only_mutable regrade ≡ true)
                  × NullsRequired regrade)
                ⊎ ((after : Row) × (c' : Collection) × (only_mutable regrade ≡ true)
                    × (NullsRequired regrade → ⊥)
                    × (update_one ≡ ok (after, codes "b3", c'))
                    × ((k : Text) → lookup k after ≡ written (codes "t3") regrade item k)
                    × ((other : Key)
                        → find_row Entity.collection_item other (items_of c'.tables) ≡ (
                            if same_key key other
                            then some after
                            else find_row Entity.collection_item other
                                (items_of stocked.tables)))))))
update_item-outcome_example =
    update_item-outcome (codes "b3") (codes "t3") none (codes "api") none 1 regrade stocked
      (refl, tt)

-- A copy without a finish is what the database refuses.
unfinished_test :
    update_item
      (codes "b3")
      (codes "t3")
      none
      (codes "api")
      none
      1
      ((codes "finish", null) ∷ [])
      stocked
    ≡ raise integrity_error
unfolding program
unfinished_test = refl

abbrev regraded : Result (Row × Text × Collection) → Row × Text × Collection
regraded (ok result) = result
regraded (raise e) = ([], [], vault)

revert_batch-update_item_example :
    let c' = (regraded update_one).2 in
    (log : List AuditEntry) × (final : Progress) × (row : Row) × (revert_batch accepts
        (codes "b3")
        (codes "b4")
        (codes "t4")
        []
        c'.log
        c'.tables
      ≡ ok (log, final))
    × (final.reverted ≡ 1)
    × (final.skipped ≡ 0)
    × (find_row Entity.collection_item (number 1 ∷ []) (items_of final.tables) ≡ some row)
    × All (λ (e : Text × Value). lookup e.0 row ≡ some e.1) first_copy
unfolding program
revert_batch-update_item_example =
    revert_batch-update_item accepts (codes "b3") (codes "t3") none (codes "api") none 1 regrade
      stocked (regraded update_one).0 (codes "b3") (regraded update_one).2 (codes "b4") (codes "t4")
      [] first_copy refl refl
      (
        refl,
        (
          refl,
          (
            refl,
            (
              refl,
              (refl, (refl, (refl, (refl, (refl, (refl, (refl, (refl, (refl, (refl, tt)))))))))),
            ),
          ),
        ),
      )
      refl
