-- ===== src/Audit/Rows.antt =====
-- Row snapshots, and the tables that a revert writes (backend/app/services/audit.py, with the
-- primary keys of backend/app/models). A snapshot is the dict of a row's columns; a table is the
-- list of its rows.
use mtg_vault.Base.{
  ℕ, ◌≡◌, ◌↔◌, Bool, true, false, not, ◌&&◌, Option, none, some, List, [], ◌∷◌, map, arith, Eq,
  ◌==◌, nat_beq, if◌then◌else◌, filter,
}
use mtg_vault.Base.Text.{Text, codes, text_eq, same_text, same_text_iff}
use mtg_vault.Base.Dict.{Dict, lookup, insert, get_or}

-- The value of a column.
pub data Value : Type 0 where
  null : Value
  text : Text → Value
  number : ℕ → Value
  flag : Bool → Value

unfoldable pub same_value : Value → Value → Bool
same_value null null = true
same_value (text s) (text t) = same_text s t
same_value (number m) (number n) = nat_beq m n
same_value (flag true) (flag true) = true
same_value (flag false) (flag false) = true
same_value _ _ = false

same_value→eq : (a b : Value) → same_value a b ≡ true → a ≡ b
unfolding same_value
same_value→eq null null h = ground arith
same_value→eq null (text t) h = cc
same_value→eq null (number t) h = cc
same_value→eq null (flag t) h = cc
same_value→eq (text s) null h = cc
same_value→eq (text s) (text t) h = ground (arith, same_text_iff s t)
same_value→eq (text s) (number t) h = cc
same_value→eq (text s) (flag t) h = cc
same_value→eq (number m) null h = cc
same_value→eq (number m) (text t) h = cc
same_value→eq (number m) (number n) h = ground arith
same_value→eq (number m) (flag t) h = cc
same_value→eq (flag true) null h = cc
same_value→eq (flag false) null h = cc
same_value→eq (flag true) (text t) h = cc
same_value→eq (flag false) (text t) h = cc
same_value→eq (flag true) (number t) h = cc
same_value→eq (flag false) (number t) h = cc
same_value→eq (flag true) (flag true) h = ground arith
same_value→eq (flag true) (flag false) h = cc
same_value→eq (flag false) (flag true) h = cc
same_value→eq (flag false) (flag false) h = ground arith

same_value_refl : (a : Value) → same_value a a ≡ true
unfolding same_value
same_value_refl null = ground arith
same_value_refl (text s) = (same_text_iff s s).1 (ground arith)
same_value_refl (number n) = ground arith
same_value_refl (flag true) = ground arith
same_value_refl (flag false) = ground arith

pub same_value_iff : (a b : Value) → (same_value a b ≡ true) ↔ (a ≡ b)
same_value_iff a b = (same_value→eq a b, λ e. rw e (same_value_refl b))

instance abbrev pub value_eq : Eq Value
value_eq = record { beq = same_value; beq_iff = same_value_iff }

-- `before.get(key) != after.get(key)` compares what `get` returns.
abbrev pub same_option : Option Value → Option Value → Bool
same_option none none = true
same_option (some v) (some w) = v == w
same_option _ _ = false

abbrev pub Row : Type 0
Row = Dict Text Value

-- A primary key: the values of its columns.
abbrev pub Key : Type 0
Key = List Value

unfoldable pub same_key : Key → Key → Bool
same_key [] [] = true
same_key (v ∷ k) (w ∷ l) = v == w && same_key k l
same_key _ _ = false

-- The entity types that are revertible (`REVERTIBLE`), and any other.
pub data Entity : Type 0 where
  collection_item deck deck_card deck_allocation wishlist unknown : Entity

abbrev pub same_entity : Entity → Entity → Bool
same_entity Entity.collection_item Entity.collection_item = true
same_entity Entity.deck Entity.deck = true
same_entity Entity.deck_card Entity.deck_card = true
same_entity Entity.deck_allocation Entity.deck_allocation = true
same_entity Entity.wishlist Entity.wishlist = true
same_entity Entity.unknown Entity.unknown = true
same_entity _ _ = false

-- `REVERTIBLE.get(entity_type) is not None`
abbrev pub is_revertible : Entity → Bool
is_revertible Entity.unknown = false
is_revertible _ = true

-- The primary-key columns of the models.
abbrev pub pk_columns : Entity → List Text
pk_columns Entity.deck_card = codes "deck_id" ∷ codes "oracle_id" ∷ codes "board" ∷ []
pk_columns _ = codes "id" ∷ []

-- `_pk_of(model, row)`
unfoldable pub pk_of : Entity → Row → Key
pk_of model row = map (λ column. get_or (lookup column row) null) (pk_columns model)

abbrev pub Tables : Type 0
Tables = Entity → List Row

-- The tables with one table replaced.
unfoldable pub set_table : Entity → List Row → Tables → Tables
set_table model rows tables other = if same_entity model other then rows else tables other

-- `db.get(model, key)` over the rows of the table.
unfoldable pub find_row : Entity → Key → List Row → Option Row
find_row model key [] = none
find_row model key (row ∷ rows) =
    if same_key (pk_of model row) key then some row else find_row model key rows

-- `db.delete(row)`, by its key.
unfoldable pub delete_row : Entity → Key → List Row → List Row
delete_row model key = filter (λ row. not (same_key (pk_of model row) key))

-- `for key, value in values.items(): setattr(row, key, value)`
unfoldable pub set_attributes : Row → Row → Row
set_attributes row [] = row
set_attributes row ((key, value) ∷ values) = set_attributes (insert key value row) values

unfoldable pub update_row : Entity → Key → Row → List Row → List Row
unfolding set_attributes
update_row model key values =
    map (λ row. if same_key (pk_of model row) key then set_attributes row values else row)
