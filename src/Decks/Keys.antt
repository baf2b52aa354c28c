-- ===== src/Decks/Keys.antt =====
-- The primary key of the deck rows: deck, oracle card and board (backend/app/models/decks.py).
use mtg_vault.Base.{
  ℕ, ◌≡◌, refl, sym, ◌∙◌, ◌↔◌, inl, inr, Bool, true, false, none, some, List, [], ◌∷◌, arith,
  if◌then◌else◌, nat_eq, nat_beq_iff, filter, Bool-cases,
}
use mtg_vault.Base.Text.{Text, text_eq, same_text_iff}
use mtg_vault.Rules.Cards.{Board, same_board}
use mtg_vault.Decks.Store.{DeckCard}
use mtg_vault.Decks.Rows.{is_row, find_card, put_row}

-- The row has the key.
abbrev pub HasKey : ℕ → Text → Board → DeckCard → Type 0
HasKey deck_id oracle_id board row =
    (row.deck_id ≡ deck_id) × (row.oracle_id ≡ oracle_id) × (row.board ≡ board)

same_board→eq : (a b : Board) → same_board a b ≡ true → a ≡ b
same_board→eq a b h = ground arith

same_board_refl : (a : Board) → same_board a a ≡ true
same_board_refl a = ground arith

pub is_row_iff :
    (d : ℕ) (o : Text) (b : Board) (row : DeckCard) → (is_row d o b row ≡ true) ↔ HasKey d o b row
is_row_iff d o b row = (
  λ h.
      let board : same_board row.board b ≡ true = ground arith in
      (
        ground arith,
        (same_text_iff row.oracle_id o).0 (ground arith),
        same_board→eq row.board b board,
      ),
  λ (same_deck, same_oracle, same_side).
      rw (same_deck, same_oracle, same_side)
        (ground (arith, same_text_iff o o, same_board_refl b, nat_beq_iff d d)),
)

-- A key is that of at most one of two rows with different keys.
apart :
    (d : ℕ) (o : Text) (b : Board) (row r : DeckCard)
    → is_row row.deck_id row.oracle_id row.board r ≡ false
    → is_row d o b r ≡ true
    → is_row d o b row ≡ false
apart d o b row r kept here = elim (Bool-cases (is_row d o b row)) [
  | inl also ↦
      let (deck, oracle, board) = (is_row_iff d o b row).0 also in
      let (deck', oracle', board') = (is_row_iff d o b r).0 here in
      let clash =
        (is_row_iff row.deck_id row.oracle_id row.board r).1
          (deck' ∙ sym deck, oracle' ∙ sym oracle, board' ∙ sym board) in
      let bad : true ≡ false = sym clash ∙ kept in absurd (cc)
  | inr other ↦ other
]

flip :
    (row r : DeckCard)
    → is_row row.deck_id row.oracle_id row.board r ≡ false
    → is_row r.deck_id r.oracle_id r.board row ≡ false
flip row r kept =
    apart r.deck_id r.oracle_id r.board row r kept
      ((is_row_iff r.deck_id r.oracle_id r.board r).1 (refl, refl, refl))

-- No key is there twice.
abbrev pub IsKeyed : List DeckCard → Type 0
IsKeyed [] = Unit
IsKeyed (row ∷ rows) = (find_card row.deck_id row.oracle_id row.board rows ≡ none) × IsKeyed rows

pub put_row-head :
    (row r : DeckCard) (rows : List DeckCard)
    → is_row row.deck_id row.oracle_id row.board r ≡ true
    → put_row row (r ∷ rows) ≡ row ∷ rows
unfolding put_row
put_row-head row r rows h = rw h refl

pub put_row-tail :
    (row r : DeckCard) (rows : List DeckCard)
    → is_row row.deck_id row.oracle_id row.board r ≡ false
    → put_row row (r ∷ rows) ≡ r ∷ put_row row rows
unfolding put_row
put_row-tail row r rows h = rw h refl

-- A row that is put is found under its key, and every other key finds what it did before.
pub find_card-put_row :
    (d : ℕ) (o : Text) (b : Board) (row : DeckCard) (rows : List DeckCard)
    → find_card d o b (put_row row rows)
      ≡ (if is_row d o b row then some row else find_card d o b rows)
unfolding find_card put_row
find_card-put_row d o b row [] = ground arith
find_card-put_row d o b row (r ∷ rows) =
    elim (Bool-cases (is_row row.deck_id row.oracle_id row.board r)) [
      | inl replaced ↦
          let (same_deck, same_oracle, same_board') =
            (is_row_iff row.deck_id row.oracle_id row.board r).0 replaced in
          rw (replaced, same_deck, same_oracle, same_board')
            (elim (Bool-cases (is_row d o b row)) [
              | inl here ↦ rw here refl
              | inr elsewhere ↦ rw elsewhere refl
            ])
      | inr kept ↦ rw kept (elim (Bool-cases (is_row d o b r)) [
        | inl here ↦ rw here (rw (apart d o b row r kept here) refl)
        | inr elsewhere ↦ rw elsewhere (find_card-put_row d o b row rows)
      ])
    ]

pub put_row-IsKeyed :
    (row : DeckCard) (rows : List DeckCard) → IsKeyed rows → IsKeyed (put_row row rows)
unfolding find_card put_row
put_row-IsKeyed row [] h = (refl, tt)
put_row-IsKeyed row (r ∷ rows) h =
    elim (Bool-cases (is_row row.deck_id row.oracle_id row.board r)) [
      | inl replaced ↦
          let (same_deck, same_oracle, same_board') =
            (is_row_iff row.deck_id row.oracle_id row.board r).0 replaced in
          rw replaced (rw (← same_deck, ← same_oracle, ← same_board') (h.0), h.1)
      | inr kept ↦ rw kept (
        find_card-put_row r.deck_id r.oracle_id r.board row rows ∙ rw (flip row r kept) (h.0),
        put_row-IsKeyed row rows h.1,
      )
    ]

pub find_card-head :
    (d : ℕ) (o : Text) (b : Board) (r : DeckCard) (rows : List DeckCard)
    → is_row d o b r ≡ true
    → find_card d o b (r ∷ rows) ≡ some r
unfolding find_card
find_card-head d o b r rows h = rw h refl

pub find_card-tail :
    (d : ℕ) (o : Text) (b : Board) (r : DeckCard) (rows : List DeckCard)
    → is_row d o b r ≡ false
    → find_card d o b (r ∷ rows) ≡ find_card d o b rows
unfolding find_card
find_card-tail d o b r rows h = rw h refl

-- What a comprehension removes is not found, and it finds nothing new.
pub find_card-filter :
    (d : ℕ) (o : Text) (b : Board) (p : DeckCard → Bool) (rows : List DeckCard)
    → find_card d o b rows ≡ none
    → find_card d o b (filter p rows) ≡ none
unfolding find_card
find_card-filter d o b p [] h = refl
find_card-filter d o b p (r ∷ rows) h = elim (Bool-cases (is_row d o b r)) [
  | inl here ↦ let found : some r ≡ none = sym (find_card-head d o b r rows here) ∙ h in absurd (cc)
  | inr elsewhere ↦
      let rest = find_card-filter d o b p rows (sym (find_card-tail d o b r rows elsewhere) ∙ h) in
      elim (Bool-cases (p r)) [
        | inl kept ↦ rw kept (find_card-tail d o b r (filter p rows) elsewhere ∙ rest)
        | inr gone ↦ rw gone rest
      ]
]

pub filter-IsKeyed :
    (p : DeckCard → Bool) (rows : List DeckCard) → IsKeyed rows → IsKeyed (filter p rows)
filter-IsKeyed p [] h = tt
filter-IsKeyed p (r ∷ rows) h = elim (Bool-cases (p r)) [
  | inl kept ↦
      rw kept (find_card-filter r.deck_id r.oracle_id r.board p rows h.0, filter-IsKeyed p rows h.1)
  | inr gone ↦ rw gone (filter-IsKeyed p rows h.1)
]
