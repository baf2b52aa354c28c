-- ===== src/Audit/Keys.antt =====
-- Finding, deleting and appending rows by their primary key (backend/app/services/audit.py,
-- `_pk_of` and `db.get`).
use mtg_vault.Base.{
  ◌≡◌, refl, sym, ap, ◌∙◌, ◌↔◌, inl, inr, Bool, true, false, not, none, some, List, [], ◌∷◌, ◌++◌,
  arith, filter, Bool-cases,
}
use mtg_vault.Audit.Rows.{
  Row, Key, Entity, value_eq, same_value_iff, same_key, pk_of, find_row, delete_row,
}

same_key→eq : (k l : Key) → same_key k l ≡ true → k ≡ l
unfolding same_key
same_key→eq [] [] h = refl
same_key→eq [] (w ∷ l) h = cc
same_key→eq (v ∷ k) [] h = cc
same_key→eq (v ∷ k) (w ∷ l) h = ground (arith, same_value_iff v w, same_key→eq k l)

same_key_refl : (k : Key) → same_key k k ≡ true
unfolding same_key
same_key_refl [] = refl
same_key_refl (v ∷ k) = ground (arith, same_value_iff v v, same_key_refl k)

pub same_key_iff : (k l : Key) → (same_key k l ≡ true) ↔ (k ≡ l)
same_key_iff k l = (same_key→eq k l, λ e. rw e (same_key_refl l))

module _ (model : Entity) where
  -- No key is there twice.
  abbrev pub IsKeyedTable : List Row → Type 0
  IsKeyedTable [] = Unit
  IsKeyedTable (row ∷ rows) = (find_row model (pk_of model row) rows ≡ none) × IsKeyedTable rows

  pub find_row-append :
      (key : Key) (xs ys : List Row)
      → find_row model key (xs ++ ys)
        ≡ (elim (find_row model key xs) [ none ↦ find_row model key ys | some row ↦ some row ])
  unfolding find_row
  find_row-append key [] ys = refl
  find_row-append key (x ∷ xs) ys = elim (Bool-cases (same_key (pk_of model x) key)) [
    | inl here ↦ rw here refl
    | inr other ↦ rw other (find_row-append key xs ys)
  ]

  -- A key that no row has deletes nothing.
  pub delete_row-absent :
      (key : Key) (rows : List Row)
      → find_row model key rows ≡ none
      → delete_row model key rows ≡ rows
  unfolding find_row delete_row
  delete_row-absent key [] h = refl
  delete_row-absent key (x ∷ xs) h = elim (Bool-cases (same_key (pk_of model x) key)) [
    | inl here ↦ absurd (ground (arith, here))
    | inr other ↦ rw other (ap (λ r. x ∷ r) (delete_row-absent key xs (ground (arith, other))))
  ]

  pub find_row-here :
      (row : Row) (rows : List Row) → find_row model (pk_of model row) (row ∷ rows) ≡ some row
  unfolding find_row
  find_row-here row rows = rw (same_key_refl (pk_of model row)) refl

  pub find_row-filter :
      (key : Key) (p : Row → Bool) (rows : List Row)
      → find_row model key rows ≡ none
      → find_row model key (filter p rows) ≡ none
  unfolding find_row
  find_row-filter key p [] h = refl
  find_row-filter key p (x ∷ xs) h = elim (Bool-cases (same_key (pk_of model x) key)) [
    | inl here ↦ absurd (ground (arith, here))
    | inr other ↦
        let rest = find_row-filter key p xs (ground (arith, other)) in
        elim (Bool-cases (p x)) [ inl kept ↦ rw (kept, other) rest | inr gone ↦ rw gone rest ]
  ]

  find_row-tail :
      (key : Key) (x : Row) (xs : List Row)
      → same_key (pk_of model x) key ≡ false
      → find_row model key (x ∷ xs) ≡ find_row model key xs
  unfolding find_row
  find_row-tail key x xs other = rw other refl

  -- Rows that are taken out and put back at the end are found as before.
  pub find_row-restored :
      (key : Key) (p : Row → Bool) (rows : List Row)
      → IsKeyedTable rows
      → find_row model key (filter (λ row. not (p row)) rows ++ filter p rows)
        ≡ find_row model key rows
  unfolding find_row
  find_row-restored key p [] u = refl
  find_row-restored key p (x ∷ xs) u =
      let left = filter (λ row. not (p row)) xs in
      let taken = filter p xs in
      let rest = find_row-restored key p xs u.1 in
      elim (Bool-cases (same_key (pk_of model x) key)) [
        | inl here ↦ elim (Bool-cases (p x)) [
          | inl out ↦
              let absent : find_row model key left ≡ none =
                find_row-filter key (λ row. not (p row)) xs
                  (rw (← (same_key→eq (pk_of model x) key here)) (u.0)) in
              rw (out, here) (find_row-append key left (x ∷ taken) ∙ rw (absent, here) refl)
          | inr kept ↦ rw (kept, here) refl
        ]
        | inr other ↦ elim (Bool-cases (p x)) [
          | inl out ↦
              rw (out, other)
                (find_row-append key left (x ∷ taken)
                  ∙ (ap
                        (λ later. elim (find_row model key left) [
                          | none ↦ later
                          | some row ↦ some row
                        ])
                        (find_row-tail key x taken other)
                      ∙ (sym (find_row-append key left taken) ∙ rest)))
          | inr kept ↦ rw (kept, other) rest
        ]
      ]

  pub delete_row-append :
      (key : Key) (xs ys : List Row)
      → delete_row model key (xs ++ ys) ≡ delete_row model key xs ++ delete_row model key ys
  unfolding delete_row
  delete_row-append key [] ys = refl
  delete_row-append key (x ∷ xs) ys = ground (arith, delete_row-append key xs ys)

  pub delete_row-here :
      (row : Row) (rows : List Row)
      → find_row model (pk_of model row) rows ≡ none
      → delete_row model (pk_of model row) (row ∷ rows) ≡ rows
  unfolding delete_row
  delete_row-here row rows h =
      rw (same_key_refl (pk_of model row)) (delete_row-absent (pk_of model row) rows h)

  pub find_row-append-none :
      (key : Key) (xs ys : List Row)
      → (find_row model key (xs ++ ys) ≡ none)
        ↔ ((find_row model key xs ≡ none) × (find_row model key ys ≡ none))
  find_row-append-none key xs ys = ground (arith, find_row-append key xs ys)

  pub find_row-here-none :
      (key : Key) (x : Row) (xs : List Row)
      → (find_row model key (x ∷ xs) ≡ none)
        ↔ ((same_key (pk_of model x) key ≡ false) × (find_row model key xs ≡ none))
  unfolding find_row
  find_row-here-none key x xs = ground arith

  pub same_key-sym : (k l : Key) → same_key k l ≡ false → same_key l k ≡ false
  same_key-sym k l h = elim (Bool-cases (same_key l k)) [
    | inl same ↦ let equal = (same_key_iff k l).1 (sym ((same_key_iff l k).0 same)) in absurd (cc)
    | inr other ↦ other
  ]
