-- ===== src/Audit/Restore.antt =====
-- The revert of an update (backend/app/services/audit.py).
use mtg_vault.Base.{
  ◌≡◌, refl, ap, inl, inr, Bool, true, false, Option, none, some, List, [], ◌∷◌, map, arith,
  if◌then◌else◌, filter, All, Bool-cases,
}
use mtg_vault.Base.Text.{Text, text_eq, same_text_iff}
use mtg_vault.Base.Dict.{lookup, insert, get_or, is_some, IsUnique, lookup-insert}
use mtg_vault.Audit.Rows.{
  Value, null, Row, Key, Entity, same_option, same_value_iff, same_key, pk_columns, pk_of, Tables,
  set_table, same_entity, find_row, set_attributes, update_row,
}
use mtg_vault.Audit.Record.{Action, Payload, AuditEntry, is_changed, changed_part, stored_pair}
use mtg_vault.Audit.Revert.{Effect, revert_action, applying}

pub same_option→eq : (a b : Option Value) → same_option a b ≡ true → a ≡ b
same_option→eq none none h = refl
same_option→eq none (some w) h = cc
same_option→eq (some v) none h = cc
same_option→eq (some v) (some w) h = ground (arith, same_value_iff v w)

lookup-filter :
    (p : Text → Bool) (k : Text) (row : Row)
    → lookup k (filter (λ (e : Text × Value). p e.0) row) ≡ (if p k then lookup k row else none)
lookup-filter p k [] = ground arith
lookup-filter p k ((j, v) ∷ row) = ground (arith, same_text_iff k j, lookup-filter p k row)

filter-IsUnique :
    (p : Text → Bool) (row : Row)
    → IsUnique row
    → IsUnique (filter (λ (e : Text × Value). p e.0) row)
filter-IsUnique p [] u = tt
filter-IsUnique p ((j, v) ∷ row) u =
    ground (arith, lookup-filter p j row, filter-IsUnique p row u.1)

pub lookup-set_attributes :
    (k : Text) (row values : Row)
    → IsUnique values
    → lookup k (set_attributes row values)
      ≡ (elim (lookup k values) [ none ↦ lookup k row | some v ↦ some v ])
unfolding set_attributes
lookup-set_attributes k row [] u = refl
lookup-set_attributes k row ((j, v) ∷ values) u = ground (
  arith,
  same_text_iff k j,
  lookup-insert j k v row,
  lookup-set_attributes k (insert j v row) values u.1,
)

changed_is_some :
    (before after : Row) (k : Text)
    → is_changed before after k ≡ true
    → is_some (lookup k before) ≡ true
unfolding is_changed
changed_is_some before after k h = ground arith

unchanged_eq :
    (before after : Row) (k : Text)
    → is_some (lookup k before) ≡ is_some (lookup k after)
    → is_changed before after k ≡ false
    → lookup k after ≡ lookup k before
unfolding is_changed
unchanged_eq before after k same h =
    ground (arith, same_option→eq (lookup k before) (lookup k after))

same_entity_refl : (m : Entity) → same_entity m m ≡ true
same_entity_refl Entity.collection_item = refl
same_entity_refl Entity.deck = refl
same_entity_refl Entity.deck_card = refl
same_entity_refl Entity.deck_allocation = refl
same_entity_refl Entity.wishlist = refl
same_entity_refl Entity.unknown = refl

module _ (before after : Row) (unique : IsUnique before) where
  -- What a revert writes over a row.
  abbrev restored : Row → Row
  restored later = set_attributes later (changed_part before after before)

  lookup-restored :
      (later : Row) (k : Text)
      → lookup k (restored later)
        ≡ (if is_changed before after k then lookup k before else lookup k later)
  unfolding changed_part
  lookup-restored later k = ground (
    arith,
    filter-IsUnique (is_changed before after) before unique,
    lookup-set_attributes k later
        (filter (λ (e : Text × Value). is_changed before after e.0) before),
    lookup-filter (is_changed before after) k before,
    changed_is_some before after k,
  )

  -- Where the row has not been written since, every column reads as before the update.
  restored-after :
      ((k : Text) → is_some (lookup k before) ≡ is_some (lookup k after))
      → (k : Text) → lookup k (restored after) ≡ lookup k before
  restored-after same k = elim (Bool-cases (is_changed before after k)) [
    | inl changed ↦ rw (lookup-restored after k, changed)
    | inr kept ↦ rw (lookup-restored after k, kept) (unchanged_eq before after k (same k) kept)
  ]

  pk_of-restored :
      (columns : List Text) (later : Row)
      → All (λ column. is_changed before after column ≡ false) columns
      → map (λ column. get_or (lookup column (restored later)) null) columns
        ≡ map (λ column. get_or (lookup column later) null) columns
  pk_of-restored [] later h = refl
  pk_of-restored (column ∷ columns) later h =
      ground (arith, lookup-restored later column, pk_of-restored columns later h.1)

pub find_row-update_row :
    (model : Entity) (key : Key) (values later : Row) (table : List Row)
    → find_row model key table ≡ some later
    → pk_of model (set_attributes later values) ≡ pk_of model later
    → find_row model key (update_row model key values table) ≡ some (set_attributes later values)
unfolding find_row update_row
find_row-update_row model key values later [] h e = cc
find_row-update_row model key values later (row ∷ table) h e =
    elim (Bool-cases (same_key (pk_of model row) key)) [
      | inl here ↦
          let found : row ≡ later = ground (arith, here) in
          ground (arith, here, found, e, ap (pk_of model) found)
      | inr other ↦ ground (arith, other, find_row-update_row model key values later table)
    ]

-- Reverting a recorded update, also after later writes to the row: the row that is then found under
-- the key has each column that the update changed as it was before the update, and every other
-- column as the later writes left it. The snapshots name no column twice, the update did not change
-- the primary key, and the row is still there.
pub revert-update :
    (violates : Entity → Row → Tables → Bool) (entry : AuditEntry) (tables : Tables)
    (before after later : Row)
    → IsUnique before
    → All (λ column. is_changed before after column ≡ false) (pk_columns entry.entity_type)
    → entry.before_json
      ≡ (stored_pair Action.update (some (Payload.single before)) (some (Payload.single after))).0
    → let key = get_or entry.entity_id null ∷ [] in
      find_row entry.entity_type key (tables entry.entity_type) ≡ some later
      → let effect = revert_action violates Action.update entry tables in
        (row : Row) × (effect.applied ≡ true)
        × (find_row entry.entity_type key (effect.tables entry.entity_type) ≡ some row)
        × ((k : Text)
            → lookup k row
              ≡ (if is_changed before after k then lookup k before else lookup k later))
unfolding revert_action stored_pair set_table pk_of
revert-update violates entry tables before after later unique fixed stored found =
    let model = entry.entity_type in
    let key = get_or entry.entity_id null ∷ [] in
    let part = changed_part before after before in
    let effect_eq : revert_action violates Action.update entry tables
        ≡ applying (set_table model (update_row model key part (tables model)) tables) =
      rw stored (rw found refl) in
    (
      restored before after unique later,
      ap (λ (x : Effect). x.applied) effect_eq,
      rw effect_eq (
          rw (same_entity_refl model) (
            find_row-update_row model key part later (tables model) found
              (pk_of-restored before after unique (pk_columns model) later fixed))),
      lookup-restored before after unique later,
    )
