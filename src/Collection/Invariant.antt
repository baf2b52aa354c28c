-- ===== src/Collection/Invariant.antt =====
-- Sequences of `add_copies`, `update_item` and `delete_items`
-- (backend/app/services/collection/add.py and update.py). Each call brings
-- the batch id that it would draw, its time and its source.
use mtg_vault.Base.{
  ℕ, ◌≤◌, ◌≡◌, refl, sym, ap, ◌∙◌, ◌≢◌, ◌⊎◌, inl, inr, not, Option, List, [], ◌∷◌, ◌++◌, arith,
  length, length-append, append_one-ne-nil, Result, ok, raise,
}
use mathlib.Core.List.{append_assoc}
use mtg_vault.Base.Text.{Text}
use mtg_vault.Audit.Rows.{Row, Entity, set_table}
use mtg_vault.Audit.Record.{AuditEntry, record_entry}
use mtg_vault.Audit.Keys.{IsKeyedTable}
use mtg_vault.Audit.Keyed.{filter-IsKeyedTable}
use mtg_vault.Collection.Names.{Unicode}
use mtg_vault.Collection.Printings.{AddSpec}
use mtg_vault.Collection.Items.{
  Collection, items_of, new_item, add_copies, update_item, delete_items,
}
use mtg_vault.Collection.Adding.{IsFresh, new_item-key, insert_rows-IsKeyed, add_copies-passed}
use mtg_vault.Collection.Updating.{update_item-cases, updated-IsKeyed}
use mtg_vault.Collection.Removing.{delete_items-cases, delete_each-filter, chosen_by}

-- One of the operations.
pub data Operation : Type 0 where
  add : AddSpec → ℕ → Operation
  update : ℕ → Row → Operation
  delete : List ℕ → Operation

-- The collection after a call that may have failed: an exception rolls the transaction back.
abbrev after_call {ℓ} : {A : Type ℓ} → Result (A × Text × Collection) → Collection → Collection
after_call (ok (a, batch, c')) c = c'
after_call (raise e) c = c

module _ (new_id : List Row → ℕ) (unicode : Unicode) (new_batch now : Text) (batch_id : Option Text)
    (source : Text) (note : Option Text) where
  -- One call.
  abbrev pub call : Operation → Collection → Collection
  call (Operation.add spec quantity) c =
      after_call (add_copies new_batch now batch_id source note new_id unicode spec quantity c) c
  call (Operation.update item_id changes) c =
      after_call (update_item new_batch now batch_id source note item_id changes c) c
  call (Operation.delete item_ids) c =
      after_call (delete_items new_batch now batch_id source note item_ids c) c

  abbrev IsKeyed : Collection → Type 0
  IsKeyed c = IsKeyedTable Entity.collection_item (items_of c.tables)

  -- What a call did to the log.
  abbrev Logged : Collection → Collection → Type 0
  Logged c c' = (c' ≡ c) ⊎ ((entry : AuditEntry) × (c'.log ≡ record_entry entry c.log))

  abbrev Sound : Collection → Collection → Type 0
  Sound c c' = IsKeyed c' × Logged c c'

  call-add :
      IsFresh new_id
      → (spec : AddSpec) (quantity : ℕ) (c : Collection) → IsKeyed c
      → Sound c (call (Operation.add spec quantity) c)
  unfolding set_table
  call-add fresh spec quantity c keyed =
      go (add_copies new_batch now batch_id source note new_id unicode spec quantity c) refl
    where
      go :
          (r : Result (List Row × Text × Collection))
          → add_copies new_batch now batch_id source note new_id unicode spec quantity c ≡ r
          → Sound c (after_call r c)
      go (raise e) h = (keyed, inl refl)
      go (ok (items, batch, c')) h =
          let (card, _, _, _, (_, _, same)) =
            add_copies-passed new_batch now batch_id source note new_id unicode spec quantity c
              items batch c' h in
          rw same (
            insert_rows-IsKeyed new_id (new_item card spec now) fresh (new_item-key card spec now)
                quantity (items_of c.tables) keyed,
            inr (_, refl),
          )

  call-update :
      (item_id : ℕ) (changes : Row) (c : Collection)
      → IsKeyed c
      → Sound c (call (Operation.update item_id changes) c)
  call-update item_id changes c keyed =
      elim (update_item-cases new_batch now batch_id source note item_id changes c) [
        | inl (refused, _) ↦ rw refused (keyed, inl refl)
        | inr (item, found, inl (refused, _)) ↦ rw refused (keyed, inl refl)
        | inr (item, found, inr (right, inl (refused, _))) ↦ rw refused (keyed, inl refl)
        | inr (item, found, inr (right, inr (_, done))) ↦ rw done (
          updated-IsKeyed new_batch now batch_id source note item_id changes c item right keyed,
          inr (_, refl),
        )
      ]

  call-delete :
      (item_ids : List ℕ) (c : Collection)
      → IsKeyed c
      → Sound c (call (Operation.delete item_ids) c)
  unfolding set_table
  call-delete item_ids c keyed =
      elim (delete_items-cases new_batch batch_id source note now item_ids c) [
        | inl (_, nothing) ↦ rw nothing (keyed, inl refl)
        | inr (_, inl (_, refused)) ↦ rw refused (keyed, inl refl)
        | inr (_, inr (_, done)) ↦ rw done (
          rw (delete_each-filter (chosen_by item_ids) [] (items_of c.tables) keyed) (
              filter-IsKeyedTable Entity.collection_item (λ row. not (chosen_by item_ids row))
                (items_of c.tables) keyed),
          inr (_, refl),
        )
      ]

  call-Sound :
      IsFresh new_id
      → (operation : Operation) (c : Collection) → IsKeyed c
      → Sound c (call operation c)
  call-Sound fresh (Operation.add spec quantity) c keyed = call-add fresh spec quantity c keyed
  call-Sound fresh (Operation.update item_id changes) c keyed = call-update item_id changes c keyed
  call-Sound fresh (Operation.delete item_ids) c keyed = call-delete item_ids c keyed

-- A call with what it brings: the batch id that it would draw, its time, the batch that it joins, its
-- source and its note.
pub record Call : Type 0 where
  pub operation : Operation
  pub new_batch : Text
  pub now : Text
  pub batch_id : Option Text
  pub source : Text
  pub note : Option Text

module _ (new_id : List Row → ℕ) (unicode : Unicode) where
  abbrev pub run : Call → Collection → Collection
  run k = call new_id unicode k.new_batch k.now k.batch_id k.source k.note k.operation

  -- A sequence of calls.
  abbrev pub calls : List Call → Collection → Collection
  calls [] c = c
  calls (k ∷ ks) c = calls ks (run k c)

  -- Any sequence of calls, each with its own batch id and time, where a failed one leaves everything
  -- as it is, keeps the ids of the copies unique, and puts at most one entry for each call in front
  -- of the log, and at least one where anything has changed. The ids are unique at first, and the
  -- database gives a new row an id that no row has.
  pub calls-logged :
      IsFresh new_id
      → (ks : List Call) (c : Collection) → IsKeyedTable Entity.collection_item (items_of c.tables)
      → let c' = calls ks c in
        IsKeyedTable Entity.collection_item (items_of c'.tables)
        × (entries : List AuditEntry) × (c'.log ≡ entries ++ c.log)
        × (length entries ≤ length ks)
        × ((entries ≢ []) ⊎ (c' ≡ c))
  unfolding record_entry
  calls-logged fresh [] c keyed = (keyed, [], refl, omega arith, inr refl)
  calls-logged fresh (k ∷ ks) c keyed =
      let (keyed', done) =
        call-Sound new_id unicode k.new_batch k.now k.batch_id k.source k.note fresh k.operation c
          keyed in
      let (last, entries, grown, short, changed) = calls-logged fresh ks (run k c) keyed' in
      elim done [
        | inl same ↦ (
          last,
          entries,
          grown ∙ ap (λ (d : Collection). entries ++ d.log) same,
          omega (arith, short),
          elim changed [ inl some_entry ↦ inl some_entry | inr still ↦ inr (still ∙ same) ],
        )
        | inr (entry, written) ↦ (
          last,
          entries ++ record_entry entry [],
          grown
              ∙ (ap (λ log. entries ++ log) written
                  ∙ sym (append_assoc entries (record_entry entry []) c.log)),
          omega (arith, short, length-append entries (record_entry entry [])),
          inl (append_one-ne-nil entries _),
        )
      ]
