-- ===== src/Collection/RemoveUndo.antt =====
-- The revert of a delete of copies (backend/app/services/collection/update.py,
-- backend/app/services/audit.py).
use mtg_vault.Base.{
  ℕ, suc, ◌≤◌, ◌≡◌, refl, sym, ap, ◌∙◌, ◌≢◌, inl, inr, Bool, true, false, not, Option, none, List,
  [], ◌∷◌, ◌++◌, map, arith, ltb, nat_beq, filter, contains, length, Bool-cases, ok, ok-injective,
}
use mathlib.Core.Path.{subst}
use mathlib.Core.List.{append-nil, append_assoc}
use mtg_vault.Base.Text.{Text, text_eq}
use mtg_vault.Audit.Rows.{value_eq, Row, Key, Entity, Tables, number, pk_of, find_row, set_table}
use mtg_vault.Audit.Record.{AuditEntry, record_entry, stored_pair}
use mtg_vault.Audit.Revert.{Progress, restore_rows, revert_action, revert_batch, batch_of}
use mtg_vault.Audit.Keys.{IsKeyedTable, find_row-restored}
use mtg_vault.Audit.Keyed.{keyed-middle, restored-IsKeyed}
use mtg_vault.Audit.Single.{revert_batch-single, one_reverted}
use mtg_vault.Collection.Items.{
  Collection, items_of, id_of, cascade, delete_items, delete_entry, batch_or,
}
use mtg_vault.Collection.Removing.{
  chosen_by, all_found, removed, delete_items-cases, delete_each-filter,
}

-- No constraint but that of its key keeps a copy out of the table.
abbrev pub IsUnconstrained : (Entity → Row → Tables → Bool) → Type 0
IsUnconstrained violates =
    (row : Row) (tables : Tables) → violates Entity.collection_item row tables ≡ false

module _ (violates : Entity → Row → Tables → Bool) (free : IsUnconstrained violates) where
  -- Rows whose keys are not taken are all put back at the end.
  restore_rows-fresh :
      (items : List Row) (tables : Tables)
      → IsKeyedTable Entity.collection_item (items_of tables ++ items)
      → let (final, restored, notes) = restore_rows violates Entity.collection_item items tables in
        (items_of final ≡ items_of tables ++ items)
        × (final Entity.deck_allocation ≡ tables Entity.deck_allocation)
        × (restored ≡ length items)
        × (notes ≡ [])
  unfolding restore_rows
  restore_rows-fresh [] tables u = (sym (append-nil (items_of tables)), refl, refl, refl)
  restore_rows-fresh (x ∷ xs) tables u =
      let (before, _, _) = keyed-middle Entity.collection_item (items_of tables) x xs u in
      let next = set_table Entity.collection_item (items_of tables ++ x ∷ []) tables in
      let shifted = append_assoc (items_of tables) (x ∷ []) xs in
      let (a, b, c, d) =
        restore_rows-fresh xs next (subst (IsKeyedTable Entity.collection_item) (sym shifted) u) in
      rw (before, free x tables) (a ∙ shifted, b, ap suc c, d)

  -- What reverting the entry of a delete does, on the tables that the delete leaves.
  delete_reverted :
      (items : List Row) (tables : Tables) (batch source : Text) (remark : Option Text)
      → IsKeyedTable Entity.collection_item (items_of tables ++ items)
      → 1 ≤ length items
      → let entry = delete_entry batch items source remark in
        let effect = revert_action violates entry.action entry tables in
        (effect.applied ≡ true)
        × (items_of effect.tables ≡ items_of tables ++ items)
        × (effect.tables Entity.deck_allocation ≡ tables Entity.deck_allocation)
  unfolding delete_entry revert_action pk_of set_table
  delete_reverted [] tables batch source remark u some_items = absurd (omega (arith, some_items))
  delete_reverted (item ∷ []) tables batch source remark u some_items =
      let (before, _, _) = keyed-middle Entity.collection_item (items_of tables) item [] u in
      let absent : find_row Entity.collection_item (id_of item ∷ []) (items_of tables) ≡ none =
        before in
      rw absent (refl, refl, refl)
  delete_reverted (item ∷ next ∷ more) tables batch source remark u some_items =
      let items = item ∷ next ∷ more in
      let several : ltb 1 (length items) ≡ true = ground arith in
      let (a, b, c, d) = restore_rows-fresh items tables u in
      let some_left : nat_beq (restore_rows violates Entity.collection_item items tables).1 0
          ≡ false =
        ground (arith, c) in
      rw (several, some_left) (refl, a, b)

record_entry-delete :
    (batch source : Text) (items : List Row) (remark : Option Text) (log : List AuditEntry)
    → record_entry (delete_entry batch items source remark) log
      ≡ delete_entry batch items source remark ∷ log
unfolding record_entry delete_entry stored_pair
record_entry-delete batch source items remark log = elim (Bool-cases (ltb 1 (length items))) [
  | inl several ↦ rw several refl
  | inr one ↦ rw one refl
]

-- Where every id is that of a copy and there is an id, there is a copy.
chosen-some :
    (item_ids : List ℕ) (rows : List Row)
    → item_ids ≢ []
    → all_found item_ids rows ≡ true
    → 1 ≤ length (filter (chosen_by item_ids) rows)
chosen-some [] rows given found = absurd (given refl)
chosen-some (i ∷ ids) rows given found =
    go (filter (chosen_by (i ∷ ids)) rows) (ground (arith, found))
  where
    go : (items : List Row) → contains (number i) (map id_of items) ≡ true → 1 ≤ length items
    go [] h = absurd (cc)
    go (x ∷ xs) h = omega arith

module _ (new_batch now : Text) (batch_id : Option Text) (source : Text) (note : Option Text)
    (item_ids : List ℕ) (c : Collection) where
  delete_passed :
      (n : ℕ) (batch : Text) (c' : Collection)
      → item_ids ≢ []
      → delete_items new_batch now batch_id source note item_ids c ≡ ok (n, batch, c')
      → (all_found item_ids (items_of c.tables) ≡ true)
        × (batch_or batch_id new_batch ≡ batch)
        × (removed new_batch batch_id source note now item_ids c ≡ c')
  delete_passed n batch c' given h =
      elim (delete_items-cases new_batch batch_id source note now item_ids c) [
        | inl (nothing, _) ↦ absurd (given nothing)
        | inr (_, inl (_, refused)) ↦ let clash = sym refused ∙ h in absurd (cc)
        | inr (_, inr (found, done)) ↦
            let same = ok-injective _ (n, batch, c') (sym done ∙ h) in
            (
              found,
              ap (λ (r : ℕ × Text × Collection). r.1) same,
              ap (λ (r : ℕ × Text × Collection). r.2) same,
            )
      ]

-- Reverting the batch of a delete of one copy or more, where nothing else is recorded under its id,
-- counts one entry, and every id then finds the row that it found before the delete. The
-- allocations of the deleted copies do not come back: the table of allocations stays as the delete
-- left it. The ids of the table are unique, and no other constraint refuses a copy.
pub revert_batch-delete_items :
    (violates : Entity → Row → Tables → Bool) (new_batch now : Text) (batch_id : Option Text)
    (source : Text) (note : Option Text) (item_ids : List ℕ) (c : Collection) (n : ℕ) (batch : Text)
    (c' : Collection) (again later remark : Text)
    → IsUnconstrained violates
    → IsKeyedTable Entity.collection_item (items_of c.tables)
    → batch_of batch c.log ≡ []
    → item_ids ≢ []
    → delete_items new_batch now batch_id source note item_ids c ≡ ok (n, batch, c')
    → (log : List AuditEntry) × (final : Progress) × (revert_batch violates batch again later remark
          c'.log c'.tables
        ≡ ok (log, final))
      × (final.reverted ≡ 1)
      × (final.skipped ≡ 0)
      × ((key : Key)
          → find_row Entity.collection_item key (items_of final.tables)
            ≡ find_row Entity.collection_item key (items_of c.tables))
      × (final.tables Entity.deck_allocation
          ≡ cascade
              (filter (chosen_by item_ids) (items_of c.tables))
              (c.tables Entity.deck_allocation))
unfolding set_table delete_entry
revert_batch-delete_items violates new_batch now batch_id source note item_ids c n batch c' again
      later remark free keyed alone given h =
    let (found, same_batch, same) =
      delete_passed new_batch now batch_id source note item_ids c n batch c' given h in
    let rows = items_of c.tables in
    let p = chosen_by item_ids in
    let items = filter p rows in
    let new = removed new_batch batch_id source note now item_ids c in
    let entry = delete_entry (batch_or batch_id new_batch) items source note in
    let left : items_of new.tables ≡ filter (λ row. not (p row)) rows =
      delete_each-filter p [] rows keyed in
    let whole = restored-IsKeyed Entity.collection_item p rows keyed in
    let (applied, back, kept) =
      delete_reverted violates free items new.tables (batch_or batch_id new_batch) source note
        (subst (λ r. IsKeyedTable Entity.collection_item (r ++ items)) (sym left) whole)
        (chosen-some item_ids rows given found) in
    let effect = revert_action violates entry.action entry new.tables in
    let (log, reverted) =
      revert_batch-single violates batch again later remark entry c.log new.tables effect same_batch
        refl refl alone refl applied in
    let final = one_reverted violates batch again later remark entry effect in
    (
      log,
      final,
      subst
          (λ (d : Collection).
            revert_batch violates batch again later remark d.log d.tables ≡ ok (log, final))
          same
          (rw (record_entry-delete (batch_or batch_id new_batch) source items note c.log) reverted),
      refl,
      refl,
      λ key.
          ap (find_row Entity.collection_item key) (back ∙ ap (λ r. r ++ items) left)
          ∙ find_row-restored Entity.collection_item key p rows keyed,
      kept,
    )
