-- ===== src/Collection/Adding.antt =====
-- `add_copies` (backend/app/services/collection/add.py): the rows it adds, and its errors.
use mtg_vault.Base.{
  ℕ, zero, suc, ◌≤◌, ◌<◌, ◌≡◌, refl, sym, ap, ◌∙◌, ◌⊎◌, inl, inr, Bool, true, false, Option, none,
  some, List, [], ◌∷◌, ◌++◌, arith, ltb, ◌&&◌, ◌||◌, if◌then◌else◌, length, All, Bool-cases, Result,
  ok, raise, invalid_quantity, ambiguous_card, not_found, ◌>>=◌, ok-injective, ◌≢◌,
}
use mathlib.Core.List.{append-nil, append_assoc}
use mtg_vault.Base.Text.{Text, same_text}
use mtg_vault.Audit.Rows.{Row, Entity, number, pk_of, find_row, set_table}
use mtg_vault.Audit.Record.{record_entry}
use mtg_vault.Audit.Keys.{IsKeyedTable}
use mtg_vault.Audit.Keyed.{append_one-IsKeyed}
use mtg_vault.Collection.Names.{Unicode, normalize_name}
use mtg_vault.Collection.Printings.{
  Printing, AddSpec, Resolution, resolve_card, is_given, oracles_named,
}
use mtg_vault.Collection.Ambiguous.{open-several}
use mtg_vault.Base.Dict.{get_or}
use mtg_vault.Collection.Items.{
  Collection, items_of, new_item, insert_rows, chosen, add_copies, add_entry, batch_or,
  max_quantity,
}

-- The database gives a new row an id that no row has.
abbrev pub IsFresh : (List Row → ℕ) → Type 0
IsFresh new_id =
    (rows : List Row) → find_row Entity.collection_item (number (new_id rows) ∷ []) rows ≡ none

pub new_item-key :
    (card : Printing) (spec : AddSpec) (now : Text) (id : ℕ)
    → pk_of Entity.collection_item (new_item card spec now id) ≡ number id ∷ []
unfolding new_item pk_of same_text
new_item-key card spec now id = refl

module _ (new_id : List Row → ℕ) (make : ℕ → Row) where
  pub insert_rows-append :
      (n : ℕ) (rows : List Row)
      → let (final, items) = insert_rows new_id make n rows in final ≡ rows ++ items
  unfolding insert_rows
  insert_rows-append zero rows = sym (append-nil rows)
  insert_rows-append (suc n) rows =
      let row = make (new_id rows) in
      insert_rows-append n (rows ++ row ∷ []) ∙ append_assoc rows (row ∷ []) _

  pub length-insert_rows : (n : ℕ) (rows : List Row) → length (insert_rows new_id make n rows).1 ≡ n
  unfolding insert_rows
  length-insert_rows zero rows = refl
  length-insert_rows (suc n) rows =
      omega (arith, length-insert_rows n (rows ++ make (new_id rows) ∷ []))

  pub insert_rows-All {κ} :
      (P : Row → Type κ)
      → ((id : ℕ) → P (make id))
      → (n : ℕ) (rows : List Row) → All P (insert_rows new_id make n rows).1
  unfolding insert_rows
  insert_rows-All P f zero rows = tt
  insert_rows-All P f (suc n) rows =
      (f (new_id rows), insert_rows-All P f n (rows ++ make (new_id rows) ∷ []))

  pub insert_rows-IsKeyed :
      IsFresh new_id
      → ((id : ℕ) → pk_of Entity.collection_item (make id) ≡ number id ∷ [])
      → (n : ℕ) (rows : List Row) → IsKeyedTable Entity.collection_item rows
      → IsKeyedTable Entity.collection_item (insert_rows new_id make n rows).0
  unfolding insert_rows
  insert_rows-IsKeyed fresh key zero rows u = u
  insert_rows-IsKeyed fresh key (suc n) rows u =
      let row = make (new_id rows) in
      insert_rows-IsKeyed fresh key n (rows ++ row ∷ [])
        (append_one-IsKeyed Entity.collection_item rows row u (rw (key (new_id rows)) (fresh rows)))

-- The guard on the quantity and the resolution, passed.
add_passed {ℓ} :
    {B : Type ℓ} (bad : Bool) (rp : Result Printing) (f : Printing → B) (b : B)
    → (if bad then raise invalid_quantity else rp >>= λ card. ok (f card)) ≡ ok b
    → (bad ≡ false) × (card : Printing) × (rp ≡ ok card) × (f card ≡ b)
add_passed true rp f b h = absurd (cc)
add_passed false (raise e) f b h = absurd (cc)
add_passed false (ok card) f b h = (refl, card, refl, ok-injective (f card) b h)

chosen-cases :
    (r : Resolution)
    → ((chosen r ≡ raise not_found) × (r.card ≡ none) × (r.candidates ≡ []))
      ⊎ (((chosen r ≡ raise ambiguous_card) × (r.card ≡ none) × (r.candidates ≢ []))
          ⊎ ((card : Printing) × (r.card ≡ some card) × (chosen r ≡ ok card)))
unfolding chosen
chosen-cases r = go r.card r.candidates refl refl
  where
    go :
        (card : Option Printing) (candidates : List Printing)
        → r.card ≡ card
        → r.candidates ≡ candidates
        → ((chosen r ≡ raise not_found) × (r.card ≡ none) × (r.candidates ≡ []))
          ⊎ (((chosen r ≡ raise ambiguous_card) × (r.card ≡ none) × (r.candidates ≢ []))
              ⊎ ((card : Printing) × (r.card ≡ some card) × (chosen r ≡ ok card)))
    go (some card) candidates e f = inr (inr (card, e, rw e refl))
    go none [] e f = inl (rw (e, f) refl, e, f)
    go none (x ∷ xs) e f = inr (inl (rw (e, f) refl, e, λ g. absurd (ground (arith, sym f ∙ g))))

-- A row that an add of the spec makes.
abbrev pub IsCopyOf : Printing → AddSpec → Text → Row → Type 0
IsCopyOf card spec now row = (id : ℕ) × (row ≡ new_item card spec now id)

module _ (new_batch now : Text) (batch_id : Option Text) (source : Text) (note : Option Text)
    (new_id : List Row → ℕ) (unicode : Unicode) (spec : AddSpec) (quantity : ℕ)
    (c : Collection) where
  abbrev resolution : Resolution
  resolution = resolve_card unicode c.cards c.oracles spec

  abbrev outcome : Result (List Row × Text × Collection)
  outcome = add_copies new_batch now batch_id source note new_id unicode spec quantity c

  -- What a successful add has done.
  pub add_copies-passed :
      (items : List Row) (batch : Text) (c' : Collection)
      → outcome ≡ ok (items, batch, c')
      → (card : Printing) × (chosen resolution ≡ ok card)
        × (1 ≤ quantity)
        × (quantity ≤ 500)
        × (let added = insert_rows new_id (new_item card spec now) quantity (items_of c.tables) in
            (added.1 ≡ items)
            × (batch_or batch_id new_batch ≡ batch)
            × (c' ≡ record c {
              tables = set_table Entity.collection_item added.0 c.tables;
              log = record_entry (add_entry batch card spec quantity added.1 source note) c.log;
            }))
  unfolding add_copies
  add_copies-passed items batch c' h =
      let (range, card, resolved, result) =
        add_passed _ (chosen resolution) _ (items, batch, c') h in
      let same = ap (λ (r : List Row × Text × Collection). r.1) result in
      let (final, added) =
        insert_rows new_id (new_item card spec now) quantity (items_of c.tables) in
      let entered : Text → Collection = λ b. record c {
        tables = set_table Entity.collection_item final c.tables;
        log = record_entry (add_entry b card spec quantity added source note) c.log;
      } in
      (
        card,
        resolved,
        ground (arith, range),
        ground (arith, range),
        (
          ap (λ (r : List Row × Text × Collection). r.0) result,
          same,
          sym (ap (λ (r : List Row × Text × Collection). r.2) result) ∙ ap entered same,
        ),
      )

  -- An add is refused for a quantity outside 1 to 500, then as not found for a spec that resolves to
  -- no printing and leaves no choice, and as ambiguous for one that leaves a choice, which only a
  -- name without a printing and an oracle id does that several oracle cards have. Otherwise it
  -- appends exactly the asked number of copies of the printing that the spec resolves to.
  pub add_copies-outcome :
      ((outcome ≡ raise invalid_quantity) × ((quantity ≡ 0) ⊎ (500 < quantity)))
      ⊎ ((1 ≤ quantity)
          × (quantity ≤ 500)
          × (((outcome ≡ raise not_found) × (resolution.card ≡ none) × (resolution.candidates ≡ []))
              ⊎ (((outcome ≡ raise ambiguous_card)
                    × (resolution.card ≡ none)
                    × (resolution.candidates ≢ [])
                    × (is_given spec.set_code && is_given spec.collector_number ≡ false)
                    × (spec.oracle_id ≡ none)
                    × (2
                        ≤ length (
                            oracles_named
                              (normalize_name unicode (get_or spec.name []))
                              c.oracles)))
                  ⊎ ((card : Printing) × (items : List Row) × (c' : Collection) × (resolution.card
                        ≡ some card)
                      × (outcome ≡ ok (items, batch_or batch_id new_batch, c'))
                      × (length items ≡ quantity)
                      × All (IsCopyOf card spec now) items
                      × (items_of c'.tables ≡ items_of c.tables ++ items)))))
  unfolding add_copies set_table
  add_copies-outcome = elim (Bool-cases (ltb quantity 1 || ltb max_quantity quantity)) [
    | inl outside ↦ inl (rw outside refl, ground (arith, outside))
    | inr inside ↦ inr (
      ground (arith, inside),
      ground (arith, inside),
      elim (chosen-cases resolution) [
        | inl (wrong, absent, nothing) ↦ inl (rw (inside, wrong) refl, absent, nothing)
        | inr (inl (wrong, absent, several)) ↦
            let (unprinted, plain, many) =
              open-several unicode c.cards c.oracles spec absent several in
            inr (inl (rw (inside, wrong) refl, absent, several, unprinted, plain, many))
        | inr (inr (card, resolved, right)) ↦
            let make = new_item card spec now in
            let (final, items) = insert_rows new_id make quantity (items_of c.tables) in
            inr (
              inr (
                card,
                items,
                record c {
                  tables = set_table Entity.collection_item final c.tables;
                  log =
                      record_entry
                        (add_entry (batch_or batch_id new_batch) card spec quantity items source
                          note)
                        c.log;
                },
                resolved,
                rw (inside, right) refl,
                length-insert_rows new_id make quantity (items_of c.tables),
                insert_rows-All new_id make (IsCopyOf card spec now) (λ id. (id, refl)) quantity
                    (items_of c.tables),
                insert_rows-append new_id make quantity (items_of c.tables),
              ))
      ],
    )
  ]
