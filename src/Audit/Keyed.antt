-- ===== src/Audit/Keyed.antt =====
-- Tables whose rows have distinct primary keys (backend/app/services/audit.py, `_pk_of` and
-- `db.get`).
use mtg_vault.Base.{
  ◌≡◌, refl, ap, ◌∙◌, inl, inr, Bool, not, none, some, List, [], ◌∷◌, ◌++◌, map, filter, Bool-cases,
}
use mtg_vault.Audit.Rows.{Row, Key, Entity, value_eq, same_key, pk_of, find_row, delete_row}
use mtg_vault.Audit.Keys.{
  IsKeyedTable, same_key-sym, find_row-append, find_row-append-none, find_row-here,
  find_row-here-none, find_row-filter, delete_row-absent, delete_row-append, delete_row-here,
}

module _ (model : Entity) where
  -- A row in the middle of a keyed table: its key is nowhere else, and the rest is keyed.
  pub keyed-middle :
      (rows : List Row) (x : Row) (xs : List Row)
      → IsKeyedTable model (rows ++ x ∷ xs)
      → (find_row model (pk_of model x) rows ≡ none)
        × (find_row model (pk_of model x) xs ≡ none)
        × IsKeyedTable model (rows ++ xs)
  unfolding find_row
  keyed-middle [] x xs u = (refl, u.0, u.1)
  keyed-middle (r ∷ rows) x xs u =
      let (before, after, rest) = keyed-middle rows x xs u.1 in
      let (left, right) = (find_row-append-none model (pk_of model r) rows (x ∷ xs)).0 u.0 in
      let (apart, later) = (find_row-here-none model (pk_of model r) x xs).0 right in
      (
        (find_row-here-none model (pk_of model x) r rows).1
            (same_key-sym model (pk_of model x) (pk_of model r) apart, before),
        after,
        ((find_row-append-none model (pk_of model r) rows xs).1 (left, later), rest),
      )

  pub append_one-IsKeyed :
      (rows : List Row) (x : Row)
      → IsKeyedTable model rows
      → find_row model (pk_of model x) rows ≡ none
      → IsKeyedTable model (rows ++ x ∷ [])
  unfolding find_row
  append_one-IsKeyed [] x u h = (refl, tt)
  append_one-IsKeyed (r ∷ rows) x u h =
      let (apart, rest) = (find_row-here-none model (pk_of model x) r rows).0 h in
      (
        (find_row-append-none model (pk_of model r) rows (x ∷ [])).1 (
          u.0,
          (find_row-here-none model (pk_of model r) x []).1
              (same_key-sym model (pk_of model r) (pk_of model x) apart, refl),
        ),
        append_one-IsKeyed rows x u.1 rest,
      )

  -- What leaves every key as it is leaves the table keyed.
  module _ (f : Row → Row) (kept : (row : Row) → pk_of model (f row) ≡ pk_of model row) where
    find_row-map-none :
        (key : Key) (rows : List Row)
        → find_row model key rows ≡ none
        → find_row model key (map f rows) ≡ none
    find_row-map-none key [] h = h
    find_row-map-none key (x ∷ xs) h =
        let (apart, rest) = (find_row-here-none model key x xs).0 h in
        (find_row-here-none model key (f x) (map f xs)).1
          (ap (λ k. same_key k key) (kept x) ∙ apart, find_row-map-none key xs rest)

    pub map-IsKeyed : (rows : List Row) → IsKeyedTable model rows → IsKeyedTable model (map f rows)
    map-IsKeyed [] u = tt
    map-IsKeyed (x ∷ xs) u =
        (rw (kept x) (find_row-map-none (pk_of model x) xs (u.0)), map-IsKeyed xs u.1)

  pub filter-IsKeyedTable :
      (p : Row → Bool) (rows : List Row)
      → IsKeyedTable model rows
      → IsKeyedTable model (filter p rows)
  filter-IsKeyedTable p [] u = tt
  filter-IsKeyedTable p (x ∷ xs) u = elim (Bool-cases (p x)) [
    | inl kept ↦
        rw kept (find_row-filter model (pk_of model x) p xs (u.0), filter-IsKeyedTable p xs (u.1))
    | inr gone ↦ rw gone (filter-IsKeyedTable p xs (u.1))
  ]

  -- A row in the middle of a keyed table is found, and deleting it leaves the rest.
  pub delete-middle :
      (rows : List Row) (x : Row) (xs : List Row)
      → IsKeyedTable model (rows ++ x ∷ xs)
      → (find_row model (pk_of model x) (rows ++ x ∷ xs) ≡ some x)
        × (delete_row model (pk_of model x) (rows ++ x ∷ xs) ≡ rows ++ xs)
  delete-middle rows x xs u =
      let (before, after, _) = keyed-middle rows x xs u in
      let key = pk_of model x in
      (
        find_row-append model key rows (x ∷ xs) ∙ rw before (find_row-here model x xs),
        delete_row-append model key rows (x ∷ xs)
            ∙ rw (delete_row-absent model key rows before, delete_row-here model x xs after) refl,
      )

  keyed-insert :
      (rows : List Row) (x : Row) (xs : List Row)
      → IsKeyedTable model (rows ++ xs)
      → find_row model (pk_of model x) (rows ++ xs) ≡ none
      → IsKeyedTable model (rows ++ x ∷ xs)
  keyed-insert [] x xs u h = (h, u)
  keyed-insert (r ∷ rows) x xs u h =
      let (apart, rest) = (find_row-here-none model (pk_of model x) r (rows ++ xs)).0 h in
      let (left, right) = (find_row-append-none model (pk_of model r) rows xs).0 u.0 in
      (
        (find_row-append-none model (pk_of model r) rows (x ∷ xs)).1 (
          left,
          (find_row-here-none model (pk_of model r) x xs).1
              (same_key-sym model (pk_of model r) (pk_of model x) apart, right),
        ),
        keyed-insert rows x xs u.1 rest,
      )

  -- Rows that are taken out and put back at the end keep the table keyed.
  pub restored-IsKeyed :
      (p : Row → Bool) (rows : List Row)
      → IsKeyedTable model rows
      → IsKeyedTable model (filter (λ row. not (p row)) rows ++ filter p rows)
  restored-IsKeyed p [] u = tt
  restored-IsKeyed p (x ∷ xs) u =
      let left = filter (λ row. not (p row)) xs in
      let taken = filter p xs in
      let absent = (find_row-append-none model (pk_of model x) left taken).1 (
        find_row-filter model (pk_of model x) (λ row. not (p row)) xs (u.0),
        find_row-filter model (pk_of model x) p xs (u.0),
      ) in
      let rest = restored-IsKeyed p xs (u.1) in
      elim (Bool-cases (p x)) [
        | inl out ↦ rw out (keyed-insert left x taken rest absent)
        | inr kept ↦ rw kept (absent, rest)
      ]
