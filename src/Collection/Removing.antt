-- ===== src/Collection/Removing.antt =====
-- `delete_items` (backend/app/services/collection/update.py): which rows it removes, and its error.
use mtg_vault.Base.{
  ℕ, ◌≡◌, refl, sym, ap, ◌∙◌, ◌≢◌, ◌⊎◌, inl, inr, Bool, true, false, not, Option, List, [], ◌∷◌,
  ◌++◌, map, arith, is_empty, filter, any, contains, length, Bool-cases, Result, ok, raise,
  not_found,
}
use mathlib.Core.Path.{subst}
use mathlib.Core.List.{append_assoc}
use mtg_vault.Base.Text.{Text, text_eq}
use mtg_vault.Audit.Rows.{Row, Entity, number, value_eq, set_table}
use mtg_vault.Audit.Record.{record_entry}
use mtg_vault.Audit.Keys.{IsKeyedTable}
use mtg_vault.Audit.Keyed.{keyed-middle, delete-middle}
use mtg_vault.Collection.Items.{
  Collection, items_of, id_of, delete_each, cascade, delete_entry, delete_items, batch_or,
}

-- Deleting the rows that pass a test one by one leaves the others.
pub delete_each-filter :
    (p : Row → Bool) (before rows : List Row)
    → IsKeyedTable Entity.collection_item (before ++ rows)
    → delete_each (filter p rows) (before ++ rows) ≡ before ++ filter (λ row. not (p row)) rows
unfolding delete_each
delete_each-filter p before [] u = refl
delete_each-filter p before (x ∷ xs) u =
    let left = filter p xs in
    elim (Bool-cases (p x)) [
      | inl out ↦
          let (_, _, rest) = keyed-middle Entity.collection_item before x xs u in
          let (_, deleted) = delete-middle Entity.collection_item before x xs u in
          rw out (ap (delete_each left) deleted ∙ delete_each-filter p before xs rest)
      | inr kept ↦
          let shifted = append_assoc before (x ∷ []) xs in
          rw kept (
            ap (delete_each left) (sym shifted)
            ∙ (delete_each-filter p (before ++ x ∷ []) xs
                  (subst (IsKeyedTable Entity.collection_item) (sym shifted) u)
                ∙ append_assoc before (x ∷ []) (filter (λ row. not (p row)) xs)))
    ]

List-cases {ℓ} : {A : Type ℓ} (xs : List A) → (xs ≡ []) ⊎ (is_empty xs ≡ false)
List-cases [] = inl refl
List-cases (x ∷ xs) = inr refl

-- The copies with the ids.
abbrev pub chosen_by : List ℕ → Row → Bool
chosen_by item_ids row = contains (id_of row) (map number item_ids)

-- Every id is that of a copy.
abbrev pub all_found : List ℕ → List Row → Bool
all_found item_ids rows = not (
    any (λ id. not (contains id (map id_of (filter (chosen_by item_ids) rows))))
      (map number item_ids))

module _ (new_batch : Text) (batch_id : Option Text) (source : Text) (note : Option Text)
    (now : Text) (item_ids : List ℕ) (c : Collection) where
  abbrev outcome : Result (ℕ × Text × Collection)
  outcome = delete_items new_batch now batch_id source note item_ids c

  abbrev pub chosen_items : List Row
  chosen_items = filter (chosen_by item_ids) (items_of c.tables)

  abbrev pub removed : Collection
  removed = record c {
    tables = set_table Entity.collection_item (delete_each chosen_items (items_of c.tables)) (
        set_table Entity.deck_allocation (cascade chosen_items (c.tables Entity.deck_allocation))
          c.tables);
    log = record_entry (delete_entry (batch_or batch_id new_batch) chosen_items source note) c.log;
  }

  -- No ids, an id of no copy, or what the delete has done.
  pub delete_items-cases :
      ((item_ids ≡ []) × (outcome ≡ ok (0, batch_or batch_id new_batch, c)))
      ⊎ ((item_ids ≢ [])
          × (((all_found item_ids (items_of c.tables) ≡ false) × (outcome ≡ raise not_found))
              ⊎ ((all_found item_ids (items_of c.tables) ≡ true)
                  × (outcome ≡ ok (length chosen_items, batch_or batch_id new_batch, removed)))))
  unfolding delete_items
  delete_items-cases = elim (List-cases item_ids) [
    | inl none_given ↦ inl (none_given, rw none_given refl)
    | inr given ↦
        let some_given : item_ids ≢ [] = λ e. absurd (ground (arith, given, e)) in
        inr (
          some_given,
          elim (Bool-cases
              (any (λ id. not (contains id (map id_of chosen_items))) (map number item_ids))) [
                | inl missing ↦ inl (rw missing refl, rw (given, missing) refl)
                | inr found ↦ inr (rw found refl, rw (given, found) refl)
              ],
        )
  ]

  -- Deleting no copies does nothing, and deleting a copy that does not exist is refused. Any other
  -- delete removes exactly the copies with the given ids, and the allocations of these copies, and
  -- leaves every other row in its place. The ids of the table are unique.
  pub delete_items-outcome :
      IsKeyedTable Entity.collection_item (items_of c.tables)
      → ((item_ids ≡ []) × (outcome ≡ ok (0, batch_or batch_id new_batch, c)))
        ⊎ ((item_ids ≢ [])
            × (((all_found item_ids (items_of c.tables) ≡ false) × (outcome ≡ raise not_found))
                ⊎ ((c' : Collection) × (all_found item_ids (items_of c.tables) ≡ true)
                    × (outcome ≡ ok (length chosen_items, batch_or batch_id new_batch, c'))
                    × (items_of c'.tables
                        ≡ filter (λ row. not (chosen_by item_ids row)) (items_of c.tables))
                    × (c'.tables Entity.deck_allocation
                        ≡ cascade chosen_items (c.tables Entity.deck_allocation))
                    × (c'.tables Entity.deck ≡ c.tables Entity.deck)
                    × (c'.tables Entity.deck_card ≡ c.tables Entity.deck_card))))
  unfolding set_table
  delete_items-outcome keyed = elim delete_items-cases [
    | inl nothing ↦ inl nothing
    | inr (given, inl refused) ↦ inr (given, inl refused)
    | inr (given, inr (found, done)) ↦ inr (
      given,
      inr (
        removed,
        found,
        done,
        delete_each-filter (chosen_by item_ids) [] (items_of c.tables) keyed,
        refl,
        refl,
        refl,
      ),
    )
  ]
