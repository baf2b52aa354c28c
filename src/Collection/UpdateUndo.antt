-- ===== src/Collection/UpdateUndo.antt =====
-- The revert of an update of a copy (backend/app/services/collection/update.py,
-- backend/app/services/audit.py).
use mtg_vault.Base.{
  ℕ, ◌≡◌, refl, sym, ap, ◌∙◌, inl, inr, Bool, true, false, Option, none, some, List, [], ◌∷◌, arith,
  if◌then◌else◌, All, Bool-cases, ok, ok-injective,
}
use mathlib.Core.Path.{subst}
use mtg_vault.Base.Text.{Text, codes, text_eq}
use mtg_vault.Base.Dict.{lookup, is_some, IsUnique, All-of_lookup}
use mtg_vault.Audit.Rows.{
  Value, Row, Entity, Tables, number, find_row, set_attributes, set_table, same_option,
  same_value_iff,
}
use mtg_vault.Audit.Record.{
  Action, Payload, AuditEntry, record_entry, stored_pair, is_changed, changed_part,
}
use mtg_vault.Audit.Revert.{Progress, revert_action, revert_batch, batch_of}
use mtg_vault.Audit.Restore.{revert-update, same_option→eq, find_row-update_row}
use mtg_vault.Audit.Single.{revert_batch-single, one_reverted}
use mtg_vault.Collection.Items.{
  Collection, items_of, with_time, batch_or, update_item, update_entry,
}
use mtg_vault.Collection.Updating.{update_item-cases, updated}
use mtg_vault.Collection.Columns.{only_mutable, update-key, immutable-kept, id_IsImmutable}

same_option_refl : (a : Option Value) → same_option a a ≡ true
same_option_refl none = refl
same_option_refl (some v) = ground (arith, same_value_iff v v)

unchanged :
    (before after : Row) (k : Text)
    → lookup k after ≡ lookup k before
    → is_changed before after k ≡ false
unfolding is_changed
unchanged before after k e = ground (arith, e, same_option_refl (lookup k before))

-- A column that the row had reads as before, whether the update changed it or not.
restored-column :
    (before after : Row) (k : Text)
    → is_some (lookup k before) ≡ true
    → (if is_changed before after k then lookup k before else lookup k after) ≡ lookup k before
unfolding is_changed
restored-column before after k there =
    elim (Bool-cases (same_option (lookup k before) (lookup k after))) [
      | inl same ↦ rw (there, same) (sym (same_option→eq (lookup k before) (lookup k after) same))
      | inr differs ↦ rw (there, differs) refl
    ]

-- The update that has succeeded.
update_passed :
    (new_batch now : Text) (batch_id : Option Text) (source : Text) (note : Option Text)
    (item_id : ℕ) (changes : Row) (c : Collection) (after : Row) (batch : Text) (c' : Collection)
    → update_item new_batch now batch_id source note item_id changes c ≡ ok (after, batch, c')
    → (item : Row) × (find_row Entity.collection_item (number item_id ∷ []) (items_of c.tables)
        ≡ some item)
      × (only_mutable changes ≡ true)
      × (batch_or batch_id new_batch ≡ batch)
      × (updated new_batch now batch_id source note item_id changes c item ≡ c')
update_passed new_batch now batch_id source note item_id changes c after batch c' h =
    elim (update_item-cases new_batch now batch_id source note item_id changes c) [
      | inl (refused, _) ↦ let clash = sym refused ∙ h in absurd (cc)
      | inr (item, found, inl (refused, _)) ↦ let clash = sym refused ∙ h in absurd (cc)
      | inr (item, found, inr (right, inl (refused, _))) ↦
          let clash = sym refused ∙ h in absurd (cc)
      | inr (item, found, inr (right, inr (_, done))) ↦
          let same = ok-injective _ (after, batch, c') (sym done ∙ h) in
          (
            item,
            found,
            right,
            ap (λ (r : Row × Text × Collection). r.1) same,
            ap (λ (r : Row × Text × Collection). r.2) same,
          )
    ]

-- Reverting the batch of an update, where nothing else is recorded under its id, counts one entry,
-- and the row that is then found under the id reads, in every column of the copy before the update,
-- what it read then. The copy names no column twice.
pub revert_batch-update_item :
    (violates : Entity → Row → Tables → Bool) (new_batch now : Text) (batch_id : Option Text)
    (source : Text) (note : Option Text) (item_id : ℕ) (changes : Row) (c : Collection)
    (after : Row) (batch : Text) (c' : Collection) (again later remark : Text) (item : Row)
    → batch_of batch c.log ≡ []
    → find_row Entity.collection_item (number item_id ∷ []) (items_of c.tables) ≡ some item
    → IsUnique item
    → update_item new_batch now batch_id source note item_id changes c ≡ ok (after, batch, c')
    → (log : List AuditEntry) × (final : Progress) × (row : Row) × (revert_batch violates batch
          again later remark c'.log c'.tables
        ≡ ok (log, final))
      × (final.reverted ≡ 1)
      × (final.skipped ≡ 0)
      × (find_row Entity.collection_item (number item_id ∷ []) (items_of final.tables) ≡ some row)
      × All (λ (e : Text × Value). lookup e.0 row ≡ some e.1) item
unfolding record_entry stored_pair update_entry set_table
revert_batch-update_item violates new_batch now batch_id source note item_id changes c after batch
      c' again later remark item alone found unique h =
    let (item', found', right, same_batch, same) =
      update_passed new_batch now batch_id source note item_id changes c after batch c' h in
    let same_item : item' ≡ item = ground (arith, sym found' ∙ found) in
    let values = with_time now changes in
    let after' = set_attributes item values in
    let new = updated new_batch now batch_id source note item_id changes c item in
    let fixed =
      unchanged item after' (codes "id")
        (immutable-kept now (codes "id") item changes id_IsImmutable right) in
    let entry = update_entry (batch_or batch_id new_batch) item_id item after' source note in
    let stored = record entry {
      before_json = some (Payload.single (changed_part item after' item));
      after_json = some (Payload.single (changed_part item after' after'));
    } in
    let (row, applied, back, columns) =
      revert-update violates stored new.tables item after' after' unique (fixed, tt) refl
        (find_row-update_row Entity.collection_item (number item_id ∷ []) values item
          (items_of c.tables) found (update-key now item changes right)) in
    let effect = revert_action violates Action.update stored new.tables in
    let (log, reverted) =
      revert_batch-single violates batch again later remark stored c.log new.tables effect
        same_batch refl refl alone refl applied in
    (
      log,
      one_reverted violates batch again later remark stored effect,
      row,
      subst
          (λ (d : Collection).
            revert_batch violates batch again later remark d.log d.tables
            ≡ ok (log, one_reverted violates batch again later remark stored effect))
          (ap (updated new_batch now batch_id source note item_id changes c) (sym same_item) ∙ same)
          reverted,
      refl,
      refl,
      back,
      All-of_lookup (λ (e : Text × Value). lookup e.0 row ≡ some e.1) item unique
          (λ k v read. columns k ∙ (restored-column item after' k (rw read refl) ∙ read)),
    )
