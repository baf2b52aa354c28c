-- ===== src/Decks/Cover.antt =====
-- When the copies cover a deck: `build` and `missing_list`
-- (backend/app/services/decks/allocate.py).
use mtg_vault.Base.{
  ℕ, ◌≤◌, ◌≡◌, refl, ◌∙◌, ◌↔◌, inl, inr, false, not, ◌&&◌, List, [], ◌∷◌, map, arith, nat_eq, ◌==◌,
  filter, contains, length, append_one-ne-nil, All, Bool-cases,
}
use mtg_vault.Base.Text.{Text, text_eq}
use mtg_vault.Base.Sorting.{length-sort}
use mtg_vault.Base.Dict.{
  Dict, total_for, All-of_lookup, lookup_of_All, lookup-tally_from, total_for_absent,
  tally_from-IsUnique,
}
use mtg_vault.Decks.Store.{CollectionItem, DeckCard, Store}
use mtg_vault.Decks.Picks.{
  Picks, needs_of, is_basic_id, free_copies, copies_of, oracle_name, blocking_decks, pick_one,
  pick_all,
}
use mtg_vault.Decks.Missing.{owned_free, missing_from}

-- The copies of a card that the rows ask for.
abbrev pub needed : List DeckCard → Text → ℕ
needed rows id =
    total_for (λ (row : DeckCard). row.oracle_id) (λ (row : DeckCard). row.quantity) id rows

-- The copies of a card that are not among the taken ones.
abbrev pub free_count : Store → List ℕ → Text → ℕ
free_count s taken id = length (
    filter (λ (item : CollectionItem). item.oracle_id == id && not (contains item.id taken))
      s.items)

-- Every card but a basic land has enough free copies.
abbrev pub Covered : Store → List ℕ → List DeckCard → Type 0
Covered s taken rows =
    (id : Text) → is_basic_id s.oracle_cards id ≡ false → needed rows id ≤ free_count s taken id

module _ (s : Store) (taken : List ℕ) where
  abbrev CoveredBy : Text × ℕ → Type 0
  CoveredBy item = is_basic_id s.oracle_cards item.0 ≡ false → item.1 ≤ free_count s taken item.0

  pub Covered→All : (rows : List DeckCard) → Covered s taken rows → All CoveredBy (needs_of rows)
  unfolding needs_of
  Covered→All rows h =
      All-of_lookup CoveredBy (needs_of rows) (tally_from-IsUnique _ _ [] rows tt)
        (λ id n found basic. ground (
          arith,
          found,
          h id basic,
          lookup-tally_from (λ (row : DeckCard). row.oracle_id) (λ (row : DeckCard). row.quantity)
              id rows,
        ))

  pub All→Covered : (rows : List DeckCard) → All CoveredBy (needs_of rows) → Covered s taken rows
  unfolding needs_of
  All→Covered rows h id basic =
      elim (Bool-cases (contains id (map (λ (row : DeckCard). row.oracle_id) rows))) [
        | inl asked ↦
            lookup_of_All CoveredBy (needs_of rows) id (needed rows id) h
              (lookup-tally_from (λ (row : DeckCard). row.oracle_id)
                  (λ (row : DeckCard). row.quantity) id rows
                ∙ rw asked refl)
              basic
        | inr absent ↦ omega (
          arith,
          total_for_absent (λ (row : DeckCard). row.oracle_id) (λ (row : DeckCard). row.quantity) id
              rows absent,
        )
      ]

  module _ (rows : List DeckCard) where
    length-copies_of : (id : Text) → length (copies_of s taken rows id) ≡ free_count s taken id
    unfolding free_copies
    length-copies_of id = length-sort _ (filter _ s.items)

    pick_one-conflicts :
        (id : Text) (n : ℕ) (picks : Picks)
        → ((pick_one s taken rows id n picks).conflicts ≡ [])
          ↔ ((picks.conflicts ≡ []) × CoveredBy (id, n))
    unfolding pick_one
    pick_one-conflicts id n picks = (
      λ h. ground (
        arith,
        length-copies_of id,
        append_one-ne-nil picks.conflicts (record {
          oracle_id = id;
          name = oracle_name s.oracle_cards id;
          needed = n;
          available = length (copies_of s taken rows id);
          blocking_decks = blocking_decks s id;
        }),
      ),
      λ h. ground (arith, length-copies_of id, h.1),
    )

    pub pick_all-conflicts :
        (needs : Dict Text ℕ) (picks : Picks)
        → ((pick_all s taken rows needs picks).conflicts ≡ [])
          ↔ ((picks.conflicts ≡ []) × All CoveredBy needs)
    unfolding pick_all
    pick_all-conflicts [] picks = (λ h. (h, tt), λ h. h.0)
    pick_all-conflicts ((id, n) ∷ needs) picks =
        let one = pick_one-conflicts id n picks in
        let rest = pick_all-conflicts needs (pick_one s taken rows id n picks) in
        (
          λ h. let (a, b) = rest.0 h in let (c, d) = one.0 a in (c, (d, b)),
          λ h. rest.1 (one.1 (h.0, h.1.0), h.1.1),
        )

  owned_free-eq : (id : Text) → owned_free s taken id ≡ free_count s taken id
  unfolding owned_free
  owned_free-eq id = refl

  pub missing_from-nil :
      (needs : Dict Text ℕ) → ((missing_from s taken needs).0 ≡ []) ↔ All CoveredBy needs
  unfolding missing_from
  missing_from-nil [] = (λ h. tt, λ h. refl)
  missing_from-nil ((id, n) ∷ needs) =
      let rest = missing_from-nil needs in
      (
        λ h. (λ basic. ground (arith, basic, owned_free-eq id), rest.0 (ground arith)),
        λ h. ground (arith, owned_free-eq id, h.0, rest.1 h.1),
      )
