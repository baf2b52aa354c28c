-- ===== src/Decks/Caches.antt =====
-- The cache columns of a deck and the rows they come from (backend/app/services/decks/crud.py).
use mtg_vault.Base.{
  ℕ, ◌≡◌, refl, sym, ap, ◌∙◌, ◌≢◌, inl, inr, Bool, true, false, none, some, List, [], ◌∷◌, arith,
  if◌then◌else◌, nat_eq, nat_beq, filter, All, Bool-cases,
}
use mtg_vault.Base.Text.{Text, text_eq}
use mtg_vault.Decks.Store.{Deck, DeckCard, OracleCard, Store}
use mtg_vault.Decks.Build.{write_deck}
use mtg_vault.Decks.Rows.{is_row, find_oracle, joined_rows, with_caches, put_row}
use mtg_vault.Decks.Keys.{is_row_iff, put_row-head, put_row-tail}
use mtg_vault.Decks.Edit.{refresh_caches}

-- The deck's cache columns are those of the rows.
abbrev pub Agrees : List OracleCard → List DeckCard → Deck → Type 0
Agrees oracle_cards rows deck = with_caches (joined_rows oracle_cards deck.id rows) deck ≡ deck

pub joined-other :
    (oracle_cards : List OracleCard) (d : ℕ) (r : DeckCard) (rows : List DeckCard)
    → r.deck_id ≢ d
    → joined_rows oracle_cards d (r ∷ rows) ≡ joined_rows oracle_cards d rows
unfolding joined_rows
joined-other oracle_cards d r rows h = rw (no_match h) refl
  where
    no_match : r.deck_id ≢ d → nat_beq r.deck_id d ≡ false
    no_match h = ground arith

pub joined-tail :
    (oracle_cards : List OracleCard) (d : ℕ) (r : DeckCard) (xs ys : List DeckCard)
    → joined_rows oracle_cards d xs ≡ joined_rows oracle_cards d ys
    → joined_rows oracle_cards d (r ∷ xs) ≡ joined_rows oracle_cards d (r ∷ ys)
unfolding joined_rows
joined-tail oracle_cards d r xs ys h =
    ap
      (λ (rest : List (DeckCard × OracleCard)).
        if nat_beq r.deck_id d
        then elim (find_oracle oracle_cards r.oracle_id) [ none ↦ rest | some o ↦ (r, o) ∷ rest ]
        else rest)
      h

-- Rows of another deck do not matter.
pub joined-put_row :
    (oracle_cards : List OracleCard) (d : ℕ) (row : DeckCard) (rows : List DeckCard)
    → row.deck_id ≢ d
    → joined_rows oracle_cards d (put_row row rows) ≡ joined_rows oracle_cards d rows
unfolding put_row
joined-put_row oracle_cards d row [] h = joined-other oracle_cards d row [] h
joined-put_row oracle_cards d row (r ∷ rows) h =
    elim (Bool-cases (is_row row.deck_id row.oracle_id row.board r)) [
      | inl replaced ↦
          let same = (is_row_iff row.deck_id row.oracle_id row.board r).0 replaced in
          ap (joined_rows oracle_cards d) (put_row-head row r rows replaced)
          ∙ joined-other oracle_cards d row rows h
          ∙ sym (joined-other oracle_cards d r rows (λ e. h (sym (same.0) ∙ e)))
      | inr kept ↦
          ap (joined_rows oracle_cards d) (put_row-tail row r rows kept)
          ∙ joined-tail oracle_cards d r (put_row row rows) rows
              (joined-put_row oracle_cards d row rows h)
    ]

pub joined-filter :
    (oracle_cards : List OracleCard) (d : ℕ) (p : DeckCard → Bool) (rows : List DeckCard)
    → All (λ (r : DeckCard). r.deck_id ≡ d → p r ≡ true) rows
    → joined_rows oracle_cards d (filter p rows) ≡ joined_rows oracle_cards d rows
unfolding joined_rows
joined-filter oracle_cards d p [] h = refl
joined-filter oracle_cards d p (r ∷ rows) h =
    let rest = joined-filter oracle_cards d p rows h.1 in
    elim (Bool-cases (p r)) [
      | inl kept ↦
          ap (λ b. joined_rows oracle_cards d (if b then r ∷ filter p rows else filter p rows)) kept
          ∙ joined-tail oracle_cards d r (filter p rows) rows rest
      | inr gone ↦
          ap (λ b. joined_rows oracle_cards d (if b then r ∷ filter p rows else filter p rows)) gone
          ∙ rest
          ∙ sym (
              joined-other oracle_cards d r rows
                (λ e. let clash : true ≡ false = sym (h.0 e) ∙ gone in cc))
    ]

pub All-write_deck :
    (P : Deck → Type 0) (deck : Deck) (decks : List Deck)
    → P deck
    → All (λ (d : Deck). d.id ≢ deck.id → P d) decks
    → All P (write_deck deck decks)
unfolding write_deck
All-write_deck P deck [] h k = tt
All-write_deck P deck (d ∷ decks) h k = (
  elim (Bool-cases (nat_beq d.id deck.id)) [
    | inl same ↦ rw same h
    | inr other ↦ rw other (k.0 (ground arith))
  ],
  All-write_deck P deck decks h k.1,
)

-- Refreshing one deck leaves all decks in agreement, when the others were.
pub refresh_caches-Agrees :
    (batch now : Text) (deck : Deck) (s : Store)
    → All (λ (d : Deck). d.id ≢ deck.id → Agrees s.oracle_cards s.deck_cards d) s.decks
    → All (Agrees s.oracle_cards s.deck_cards) (refresh_caches batch now deck s).decks
unfolding refresh_caches with_caches
refresh_caches-Agrees batch now deck s h =
    All-write_deck (Agrees s.oracle_cards s.deck_cards) _ s.decks refl h
