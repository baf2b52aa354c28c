-- ===== src/Collection/RemoveExamples.antt =====
-- The copies of the small collection removed and put back, and a sequence of calls.
use mtg_vault.Base.{
  ℕ, ◌≤◌, ◌≡◌, refl, ◌≢◌, ◌⊎◌, true, false, not, none, List, [], ◌∷◌, ◌++◌, map, filter, length,
  Result, ok, raise, not_found,
}
use mtg_vault.Base.Text.{Text, codes, text_eq}
use mtg_vault.Audit.Rows.{value_eq, Key, Entity, number, find_row, set_table}
use mtg_vault.Audit.Record.{AuditEntry}
use mtg_vault.Audit.Revert.{Progress, revert_batch}
use mtg_vault.Audit.Keys.{IsKeyedTable}
use mtg_vault.Collection.Items.{Collection, items_of, id_of, delete_items, cascade}
use mtg_vault.Collection.Removing.{chosen_by, all_found, delete_items-outcome}
use mtg_vault.Collection.RemoveUndo.{revert_batch-delete_items}
use mtg_vault.Collection.Invariant.{Operation, Call, calls, calls-logged}
use mtg_vault.Collection.Sample.{next_id, next_id-IsFresh, unicode, bolt, vault}
use mtg_vault.Collection.Examples.{program, stocked, accepts, regrade}

stocked-IsKeyed : IsKeyedTable Entity.collection_item (items_of stocked.tables)
unfolding program
stocked-IsKeyed = (refl, (refl, tt))

abbrev second : List ℕ
second = 2 ∷ []

-- The second copy is in a deck.
abbrev sleeved : Collection
sleeved = record stocked {
  tables =
      set_table Entity.deck_allocation
        (((codes "collection_item_id", number 2) ∷ (codes "deck_id", number 7) ∷ []) ∷ [])
        stocked.tables;
}

abbrev remove_one : Result (ℕ × Text × Collection)
remove_one = delete_items (codes "b5") (codes "t5") none (codes "api") none second sleeved

abbrev left : Result (ℕ × Text × Collection) → Collection
left (ok (n, batch, c)) = c
left (raise e) = vault

removed_test :
    (map id_of (items_of (left remove_one).tables) ≡ number 1 ∷ [])
    × ((left remove_one).tables Entity.deck_allocation ≡ [])
unfolding program
removed_test = (refl, refl)

sleeved-IsKeyed : IsKeyedTable Entity.collection_item (items_of sleeved.tables)
unfolding program
sleeved-IsKeyed = (refl, (refl, tt))

delete_items-outcome_example :
    let items = filter (chosen_by second) (items_of sleeved.tables) in
    ((second ≡ []) × (remove_one ≡ ok (0, codes "b5", sleeved)))
    ⊎ ((second ≢ [])
        × (((all_found second (items_of sleeved.tables) ≡ false) × (remove_one ≡ raise not_found))
            ⊎ ((c' : Collection) × (all_found second (items_of sleeved.tables) ≡ true)
                × (remove_one ≡ ok (length items, codes "b5", c'))
                × (items_of c'.tables
                    ≡ filter (λ row. not (chosen_by second row)) (items_of sleeved.tables))
                × (c'.tables Entity.deck_allocation
                    ≡ cascade items (sleeved.tables Entity.deck_allocation))
                × (c'.tables Entity.deck ≡ sleeved.tables Entity.deck)
                × (c'.tables Entity.deck_card ≡ sleeved.tables Entity.deck_card))))
delete_items-outcome_example =
    delete_items-outcome (codes "b5") none (codes "api") none (codes "t5") second sleeved
      sleeved-IsKeyed

revert_batch-delete_items_example :
    let c' = left remove_one in
    (log : List AuditEntry) × (final : Progress) × (revert_batch accepts
        (codes "b5")
        (codes "b6")
        (codes "t6")
        []
        c'.log
        c'.tables
      ≡ ok (log, final))
    × (final.reverted ≡ 1)
    × (final.skipped ≡ 0)
    × ((key : Key)
        → find_row Entity.collection_item key (items_of final.tables)
          ≡ find_row Entity.collection_item key (items_of sleeved.tables))
    × (final.tables Entity.deck_allocation
        ≡ cascade
            (filter (chosen_by second) (items_of sleeved.tables))
            (sleeved.tables Entity.deck_allocation))
unfolding program
revert_batch-delete_items_example =
    revert_batch-delete_items accepts (codes "b5") (codes "t5") none (codes "api") none second
      sleeved 1 (codes "b5") (left remove_one) (codes "b6") (codes "t6") [] (λ row tables. refl)
      sleeved-IsKeyed refl (λ e. absurd (cc)) refl

-- A call of the API under a batch and at a time.
abbrev at : Text → Text → Operation → Call
at new_batch now operation = record {
  operation = operation;
  new_batch = new_batch;
  now = now;
  batch_id = none;
  source = codes "api";
  note = none;
}

abbrev session : List Call
session =
    at (codes "b7") (codes "t7") (Operation.add bolt 3)
    ∷ at (codes "b8") (codes "t8") (Operation.delete (1 ∷ 2 ∷ []))
    ∷ at (codes "b9") (codes "t9") (Operation.update 3 regrade)
    ∷ []

calls-logged_example :
    let c' = calls next_id unicode session vault in
    IsKeyedTable Entity.collection_item (items_of c'.tables)
    × (entries : List AuditEntry) × (c'.log ≡ entries ++ vault.log)
    × (length entries ≤ length session)
    × ((entries ≢ []) ⊎ (c' ≡ vault))
calls-logged_example = calls-logged next_id unicode next_id-IsFresh session vault tt
