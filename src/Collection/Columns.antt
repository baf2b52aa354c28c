-- ===== src/Collection/Columns.antt =====
-- The columns that `update_item` writes (backend/app/services/collection/update.py).
use mtg_vault.Base.{
  ℕ, ◌≡◌, refl, sym, ap, ◌∙◌, inl, inr, Bool, true, false, not, Option, none, some, List, [], ◌∷◌,
  ◌++◌, arith, if◌then◌else◌, ◌==◌, any, contains, Bool-cases, ◌≢◌, ok, raise, not_found,
}
use mtg_vault.Base.Text.{Text, codes, text_eq, same_text, same_text_iff}
use mtg_vault.Base.Dict.{lookup, insert, lookup-insert, IsUnique}
use mtg_vault.Audit.Rows.{
  Value, Row, Key, Entity, number, text, pk_of, find_row, set_attributes, update_row, same_key,
}
use mtg_vault.Audit.Keys.{same_key_iff}
use mtg_vault.Audit.Restore.{lookup-set_attributes}
use mtg_vault.Collection.Items.{mutable_fields, with_time, get_item}

-- The changes name only fields that may change.
abbrev pub only_mutable : Row → Bool
only_mutable changes =
    not (any (λ (change : Text × Value). not (contains change.0 mutable_fields)) changes)

-- A column that an update leaves alone.
abbrev pub IsImmutable : Text → Type 0
IsImmutable k = (contains k mutable_fields ≡ false) × ((k == codes "updated_at") ≡ false)

absent_change :
    (k : Text) (changes : Row)
    → contains k mutable_fields ≡ false
    → only_mutable changes ≡ true
    → lookup k changes ≡ none
absent_change k [] h g = refl
absent_change k ((j, v) ∷ changes) h g = elim (Bool-cases (k == j)) [
  | inl same ↦
      let e = (same_text_iff k j).0 same in
      absurd (ground (arith, ap (λ t. contains t mutable_fields) e))
  | inr other ↦ rw other (absent_change k changes h (ground arith))
]

lookup-append : (k : Text) (xs ys : Row) → lookup k xs ≡ none → lookup k (xs ++ ys) ≡ lookup k ys
lookup-append k [] ys h = refl
lookup-append k ((j, v) ∷ xs) ys h = ground (arith, lookup-append k xs ys)

-- A column that is not written reads as before.
pub lookup-unwritten :
    (k : Text) (row values : Row)
    → lookup k values ≡ none
    → lookup k (set_attributes row values) ≡ lookup k row
unfolding set_attributes
lookup-unwritten k row [] h = refl
lookup-unwritten k row ((j, v) ∷ values) h =
    ground (arith, lookup-insert j k v row, lookup-unwritten k (insert j v row) values)

pub immutable-kept :
    (now : Text) (k : Text) (row changes : Row)
    → IsImmutable k
    → only_mutable changes ≡ true
    → lookup k (set_attributes row (with_time now changes)) ≡ lookup k row
immutable-kept now k row changes h g =
    lookup-unwritten k row (with_time now changes)
      (lookup-append k changes _ (absent_change k changes h.0 g) ∙ rw (h.1) refl)

pub id_IsImmutable : IsImmutable (codes "id")
unfolding same_text
id_IsImmutable = (refl, refl)

pub update-key :
    (now : Text) (row changes : Row)
    → only_mutable changes ≡ true
    → pk_of Entity.collection_item (set_attributes row (with_time now changes))
      ≡ pk_of Entity.collection_item row
unfolding pk_of
update-key now row changes g =
    rw (immutable-kept now (codes "id") row changes id_IsImmutable g) refl

set_attributes-append :
    (row xs ys : Row) → set_attributes row (xs ++ ys) ≡ set_attributes (set_attributes row xs) ys
unfolding set_attributes
set_attributes-append row [] ys = refl
set_attributes-append row ((k, v) ∷ xs) ys = set_attributes-append (insert k v row) xs ys

-- What a column reads after an update.
abbrev pub written : Text → Row → Row → Text → Option Value
written now changes item k =
    if k == codes "updated_at"
    then some (text now)
    else elim (lookup k changes) [ none ↦ lookup k item | some v ↦ some v ]

pub lookup-written :
    (now : Text) (k : Text) (item changes : Row)
    → IsUnique changes
    → lookup k (set_attributes item (with_time now changes)) ≡ written now changes item k
unfolding set_attributes
lookup-written now k item changes u =
    rw
      (
        set_attributes-append item changes ((codes "updated_at", text now) ∷ []),
        lookup-insert (codes "updated_at") k (text now) (set_attributes item changes),
        lookup-set_attributes k item changes u,
      )
      refl

pub find_row-update_other :
    (model : Entity) (key other : Key) (values : Row) (rows : List Row)
    → key ≢ other
    → ((row : Row) → pk_of model (set_attributes row values) ≡ pk_of model row)
    → find_row model other (update_row model key values rows) ≡ find_row model other rows
unfolding find_row update_row
find_row-update_other model key other values [] apart kept = refl
find_row-update_other model key other values (row ∷ rows) apart kept =
    let rest = find_row-update_other model key other values rows apart kept in
    elim (Bool-cases (same_key (pk_of model row) key)) [
      | inl here ↦
          let here' = (same_key_iff (pk_of model row) key).0 here in
          let elsewhere : same_key (pk_of model row) other ≡ false =
            elim (Bool-cases (same_key (pk_of model row) other)) [
              | inl clash ↦
                  absurd (apart (sym here' ∙ (same_key_iff (pk_of model row) other).0 clash))
              | inr differs ↦ differs
            ] in
          rw (here, kept row, elsewhere) rest
      | inr there ↦ rw (there, rest) refl
    ]

pub get_item-none :
    (item_id : ℕ) (rows : List Row)
    → find_row Entity.collection_item (number item_id ∷ []) rows ≡ none
    → get_item item_id rows ≡ raise not_found
unfolding get_item
get_item-none item_id rows h = rw (h, get_item) refl

pub get_item-some :
    (item_id : ℕ) (rows : List Row) (item : Row)
    → find_row Entity.collection_item (number item_id ∷ []) rows ≡ some item
    → get_item item_id rows ≡ ok item
unfolding get_item
get_item-some item_id rows item h = rw (h, get_item) refl
