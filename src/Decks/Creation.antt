-- ===== src/Decks/Creation.antt =====
-- `create_deck` and the invariant of deck editing (backend/app/services/decks/crud.py).
use mtg_vault.Base.{
  ℕ, ◌≡◌, refl, sym, ap, ◌∙◌, ◌≢◌, ◌⊎◌, inl, inr, true, false, Option, none, some, List, [], ◌∷◌,
  ◌++◌, arith, nat_eq, All, All-imp, All-append, Bool-cases, Result, ok, ◌>>=◌, ok-injective,
  bind_passed,
}
use mathlib.Core.Path.{subst}
use mtg_vault.Base.Text.{Text, text_eq}
use mtg_vault.Rules.Cards.{Board}
use mtg_vault.Decks.Store.{Deck, DeckCard, OracleCard, Store}
use mtg_vault.Decks.Rows.{
  DeckSpec, get_deck, require_oracle, is_row, find_card, joined_rows, with_caches,
}
use mtg_vault.Decks.Edit.{refresh_caches, seeded, create_deck}
use mtg_vault.Decks.Keys.{IsKeyed, is_row_iff, find_card-head, find_card-tail}
use mtg_vault.Decks.Caches.{Agrees, joined-other, joined-tail}
use mtg_vault.Decks.Consistent.{has_deck, IsConsistent, get_deck-id, refresh_caches-IsConsistent}

has_deck-append :
    (decks : List Deck) (deck : Deck) (i : ℕ)
    → has_deck decks i ≡ true
    → has_deck (decks ++ deck ∷ []) i ≡ true
has_deck-append [] deck i h = absurd (cc)
has_deck-append (d ∷ decks) deck i h = ground (arith, has_deck-append decks deck i)

has_deck-last : (decks : List Deck) (deck : Deck) → has_deck (decks ++ deck ∷ []) deck.id ≡ true
has_deck-last [] deck = ground arith
has_deck-last (d ∷ decks) deck = ground (arith, has_deck-last decks deck)

joined-append :
    (oracle_cards : List OracleCard) (d : ℕ) (rows : List DeckCard) (row : DeckCard)
    → row.deck_id ≢ d
    → joined_rows oracle_cards d (rows ++ row ∷ []) ≡ joined_rows oracle_cards d rows
joined-append oracle_cards d [] row h = joined-other oracle_cards d row [] h
joined-append oracle_cards d (r ∷ rows) row h =
    joined-tail oracle_cards d r (rows ++ row ∷ []) rows (joined-append oracle_cards d rows row h)

foreign :
    (d : ℕ) (o : Text) (b : Board) (row : DeckCard) → row.deck_id ≢ d → is_row d o b row ≡ false
foreign d o b row h = elim (Bool-cases (is_row d o b row)) [
  | inl here ↦ absurd (h ((is_row_iff d o b row).0 here).0)
  | inr elsewhere ↦ elsewhere
]

find_card-append :
    (d : ℕ) (o : Text) (b : Board) (rows : List DeckCard) (row : DeckCard)
    → row.deck_id ≢ d
    → find_card d o b rows ≡ none
    → find_card d o b (rows ++ row ∷ []) ≡ none
unfolding find_card
find_card-append d o b [] row h e = rw (foreign d o b row h) refl
find_card-append d o b (r ∷ rows) row h e = elim (Bool-cases (is_row d o b r)) [
  | inl here ↦ let clash : some r ≡ none = sym (find_card-head d o b r rows here) ∙ e in absurd (cc)
  | inr elsewhere ↦
      find_card-tail d o b r (rows ++ row ∷ []) elsewhere
      ∙ find_card-append d o b rows row h (sym (find_card-tail d o b r rows elsewhere) ∙ e)
]

append-IsKeyed :
    (rows : List DeckCard) (row : DeckCard)
    → All (λ (r : DeckCard). row.deck_id ≢ r.deck_id) rows
    → IsKeyed rows
    → IsKeyed (rows ++ row ∷ [])
unfolding find_card
append-IsKeyed [] row h k = (refl, tt)
append-IsKeyed (r ∷ rows) row h k = (
  find_card-append r.deck_id r.oracle_id r.board rows row h.0 k.0,
  append-IsKeyed rows row h.1 k.1,
)

-- The guard of a commander that is asked for, passed.
seed_passed :
    (mo : Option Text) (required : Text → Result OracleCard) (bare : Store) (led : Text → Store)
    (s1 : Store)
    → elim mo [ none ↦ ok bare | some o ↦ required o >>= λ oracle. ok (led o) ] ≡ ok s1
    → (bare ≡ s1) ⊎ ((o : Text) × (led o ≡ s1))
seed_passed none required bare led s1 h = inl (ok-injective bare s1 h)
seed_passed (some o) required bare led s1 h =
    let (_, _, same) = bind_passed (required o) (λ oracle. ok (led o)) s1 h in
    inr (o, ok-injective (led o) s1 same)

module _ (batch now : Text) (s : Store) (deck_id : ℕ) (spec : DeckSpec) where
  -- What the first part of `create_deck` writes: the deck, and at most one row, which is its own.
  seeded-ok :
      (s1 : Store)
      → seeded batch now deck_id spec s ≡ ok s1
      → (s1.oracle_cards ≡ s.oracle_cards)
        × ((deck : Deck) × (deck.id ≡ deck_id) × (s1.decks ≡ s.decks ++ deck ∷ []))
        × ((s1.deck_cards ≡ s.deck_cards)
            ⊎ ((row : DeckCard) × (row.deck_id ≡ deck_id)
                × (s1.deck_cards ≡ s.deck_cards ++ row ∷ [])))
  unfolding seeded
  seeded-ok s1 h =
      elim (seed_passed spec.commander_oracle_id (require_oracle s.oracle_cards) _ _ s1 h) [
        | inl bare ↦ (
          sym (ap (λ (x : Store). x.oracle_cards) bare),
          (_, refl, sym (ap (λ (x : Store). x.decks) bare)),
          inl (sym (ap (λ (x : Store). x.deck_cards) bare)),
        )
        | inr led ↦ (
          sym (ap (λ (x : Store). x.oracle_cards) led.1),
          (_, refl, sym (ap (λ (x : Store). x.decks) led.1)),
          inr (_, refl, sym (ap (λ (x : Store). x.deck_cards) led.1)),
        )
      ]

  -- A row is of a deck other than one that the table has not.
  owned-apart :
      (d : ℕ) (rows : List DeckCard)
      → has_deck s.decks d ≡ false
      → All (λ (row : DeckCard). has_deck s.decks row.deck_id ≡ true) rows
      → All (λ (row : DeckCard). d ≢ row.deck_id) rows
  owned-apart d rows fresh =
      All-imp (λ (row : DeckCard). has_deck s.decks row.deck_id ≡ true)
        (λ (row : DeckCard). d ≢ row.deck_id)
        (λ row h e. let clash : true ≡ false = sym h ∙ ap (has_deck s.decks) (sym e) ∙ fresh in cc)
        rows

  still-owned :
      (deck : Deck) (rows : List DeckCard)
      → All (λ (row : DeckCard). has_deck s.decks row.deck_id ≡ true) rows
      → All (λ (row : DeckCard). has_deck (s.decks ++ deck ∷ []) row.deck_id ≡ true) rows
  still-owned deck rows =
      All-imp (λ (row : DeckCard). has_deck s.decks row.deck_id ≡ true)
        (λ (row : DeckCard). has_deck (s.decks ++ deck ∷ []) row.deck_id ≡ true)
        (λ row h. has_deck-append s.decks deck row.deck_id h) rows

  module _ (v : IsConsistent s) where
    -- A table of decks with one more, whose caches are then refreshed.
    grown :
        (s1 : Store) (row deck : Deck)
        → s1.oracle_cards ≡ s.oracle_cards
        → s1.decks ≡ s.decks ++ deck ∷ []
        → deck.id ≡ row.id
        → IsKeyed s1.deck_cards
        → All (λ (r : DeckCard). has_deck (s.decks ++ deck ∷ []) r.deck_id ≡ true) s1.deck_cards
        → ((d : ℕ)
            → row.id ≢ d
            → joined_rows s.oracle_cards d s1.deck_cards
              ≡ joined_rows s.oracle_cards d s.deck_cards)
        → IsConsistent (refresh_caches batch now row s1)
    grown s1 row deck oracles decks same keyed owned others =
        refresh_caches-IsConsistent batch now row s1 keyed (rw decks owned) (
          rw (oracles, decks)
            (All-append (λ (d : Deck). d.id ≢ row.id → Agrees s.oracle_cards s1.deck_cards d)
              s.decks (deck ∷ [])
              (All-imp (Agrees s.oracle_cards s.deck_cards)
                (λ (d : Deck). d.id ≢ row.id → Agrees s.oracle_cards s1.deck_cards d)
                (λ d h apart.
                  ap (λ rows. with_caches rows d) (others d.id (λ e. apart (sym e))) ∙ h)
                s.decks v.agrees)
              ((λ apart. absurd (apart same)), tt)))

    refreshed-seeded :
        (s1 : Store) (row : Deck)
        → has_deck s.decks deck_id ≡ false
        → seeded batch now deck_id spec s ≡ ok s1
        → row.id ≡ deck_id
        → IsConsistent (refresh_caches batch now row s1)
    refreshed-seeded s1 row fresh h same =
        let (oracles, (deck, new, decks), rows) = seeded-ok s1 h in
        let grow = grown s1 row deck oracles decks (new ∙ sym same) in
        elim rows [
          | inl bare ↦
              grow (subst IsKeyed (sym bare) v.keyed)
                (rw bare (still-owned deck s.deck_cards v.owned))
                (λ d apart. ap (joined_rows s.oracle_cards d) bare)
          | inr (r, own, led) ↦
              let others = owned-apart deck_id s.deck_cards fresh v.owned in
              grow (subst IsKeyed (sym led) (append-IsKeyed s.deck_cards r (rw own others) v.keyed))
                (rw led (
                  All-append (λ (x : DeckCard). has_deck (s.decks ++ deck ∷ []) x.deck_id ≡ true)
                    s.deck_cards (r ∷ []) (still-owned deck s.deck_cards v.owned)
                    (rw (own, ← new) (has_deck-last s.decks deck), tt)))
                (λ d apart.
                  ap (joined_rows s.oracle_cards d) led
                  ∙ joined-append s.oracle_cards d s.deck_cards r (λ e. apart (same ∙ sym own ∙ e)))
        ]

    pub create_deck-IsConsistent :
        (deck : Deck) (s' : Store)
        → has_deck s.decks deck_id ≡ false
        → create_deck batch now deck_id spec s ≡ ok (deck, s')
        → IsConsistent s'
    unfolding create_deck
    create_deck-IsConsistent deck s' fresh h =
        let (s1, h1, rest) = bind_passed (seeded batch now deck_id spec s) _ (deck, s') h in
        let (row, h2, rest2) = bind_passed (get_deck s1.decks deck_id) _ (deck, s') rest in
        let s2 = refresh_caches batch now row s1 in
        let (_, _, same) = bind_passed (get_deck s2.decks deck_id) _ (deck, s') rest2 in
        let consistent = refreshed-seeded s1 row fresh h1 (get_deck-id s1.decks deck_id row h2).0 in
        subst IsConsistent (ap (λ (r : Deck × Store). r.1) (ok-injective _ (deck, s') same))
          (record {
            keyed = consistent.keyed;
            owned = consistent.owned;
            agrees = consistent.agrees;
          })
