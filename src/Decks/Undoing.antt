-- ===== src/Decks/Undoing.antt =====
-- `remove_card` after `set_card`, and `delete_deck` (backend/app/services/decks/crud.py).
use mtg_vault.Base.{
  ℕ, ◌≡◌, refl, sym, ap, ◌∙◌, ◌≢◌, ◌⊎◌, inl, inr, true, false, not, Option, none, some, List, [],
  ◌∷◌, arith, if◌then◌else◌, nat_eq, nat_beq, nat_beq_iff, filter, Bool-cases, Result, ok, raise,
  conflict, not_found, ◌>>=◌,
}
use mtg_vault.Base.Text.{Text, text_eq}
use mtg_vault.Rules.Cards.{Board}
use mtg_vault.Decks.Store.{Deck, DeckCard, Store}
use mtg_vault.Decks.Rows.{CardSpec, get_deck, is_row, find_card, row_for, put_row}
use mtg_vault.Decks.Edit.{refresh_caches, set_card, remove_card, delete_deck}
use mtg_vault.Decks.Keys.{is_row_iff, find_card-tail, find_card-put_row}
use mtg_vault.Decks.Consistent.{has_deck, get_deck-id, set_card-ok, has_deck-write_deck}
use mtg_vault.Decks.Requests.{get_deck-some, filter-put_row}

-- The guards of `remove_card`, met.
present :
    {B : Type 0} (rd : Result Deck) (mr : Option DeckCard) (f : Deck → DeckCard → B) (deck : Deck)
    (row : DeckCard)
    → rd ≡ ok deck
    → mr ≡ some row
    → rd >>= (λ d. elim mr [ none ↦ raise not_found | some r ↦ ok (f d r) ]) ≡ ok (f deck row)
present rd mr f deck row a b = rw (a, b) refl

-- Removing a row from a store that has it leaves the others.
remove_card-present :
    (batch now : Text) (s : Store) (deck_id : ℕ) (row : DeckCard)
    → has_deck s.decks deck_id ≡ true
    → find_card deck_id row.oracle_id row.board s.deck_cards ≡ some row
    → (s' : Store) × (remove_card batch now deck_id row.oracle_id row.board s ≡ ok s')
      × (s'.deck_cards ≡ filter (λ r. not (is_row deck_id row.oracle_id row.board r)) s.deck_cards)
unfolding remove_card refresh_caches
remove_card-present batch now s deck_id row stored found =
    let (deck, is_deck) = get_deck-some s.decks deck_id stored in
    (_, present (get_deck s.decks deck_id) _ _ deck row is_deck found, refl)

-- Removing the row that `set_card` has added, where the key had no row, succeeds and gives back the
-- rows before.
pub remove_card-set_card :
    (batch now batch' now' : Text) (s s' : Store) (deck_id : ℕ) (spec : CardSpec) (row : DeckCard)
    → set_card batch now deck_id spec s ≡ ok (row, s')
    → find_card deck_id row.oracle_id row.board s.deck_cards ≡ none
    → (s'' : Store) × (remove_card batch' now' deck_id row.oracle_id row.board s' ≡ ok s'')
      × (s''.deck_cards ≡ s.deck_cards)
unfolding refresh_caches row_for
remove_card-set_card batch now batch' now' s s' deck_id spec row h absent =
    let (board, deck, _, stored, same_row, result) =
      set_card-ok batch now s deck_id spec row s' h in
    let new = row_for deck_id board spec in
    let was_absent : find_card deck_id new.oracle_id new.board s.deck_cards ≡ none =
      ap (λ (r : DeckCard). find_card deck_id r.oracle_id r.board s.deck_cards) (sym same_row)
      ∙ absent in
    let self = (is_row_iff deck_id new.oracle_id new.board new).1 (refl, refl, refl) in
    let cards : s'.deck_cards ≡ put_row new s.deck_cards =
      ap (λ (x : Store). x.deck_cards) result in
    let has : has_deck s'.decks deck_id ≡ true =
      ap (λ (x : Store). has_deck x.decks deck_id) result
      ∙ has_deck-write_deck _ s.decks deck_id
      ∙ (get_deck-id s.decks deck_id deck stored).1 in
    let found : find_card deck_id new.oracle_id new.board s'.deck_cards ≡ some new =
      ap (find_card deck_id new.oracle_id new.board) cards
      ∙ find_card-put_row deck_id new.oracle_id new.board new s.deck_cards
      ∙ rw self refl in
    let (s'', removed, left) = remove_card-present batch' now' s' deck_id new has found in
    (
      s'',
      ap (λ (r : DeckCard). remove_card batch' now' deck_id r.oracle_id r.board s') same_row
          ∙ removed,
      left
          ∙ ap (filter (λ r. not (is_row deck_id new.oracle_id new.board r))) cards
          ∙ filter-put_row new s.deck_cards was_absent,
    )

no_row :
    (id : ℕ) (o : Text) (b : Board) (rows : List DeckCard)
    → find_card id o b (filter (λ (r : DeckCard). not (nat_beq r.deck_id id)) rows) ≡ none
unfolding find_card
no_row id o b [] = refl
no_row id o b (r ∷ rows) = elim (Bool-cases (nat_beq r.deck_id id)) [
  | inl gone ↦ rw gone (no_row id o b rows)
  | inr kept ↦ rw kept (
      find_card-tail id o b r (filter (λ (x : DeckCard). not (nat_beq x.deck_id id)) rows)
        (rw kept refl)
      ∙ no_row id o b rows)
]

other_row :
    (id d : ℕ) (o : Text) (b : Board) (rows : List DeckCard)
    → d ≢ id
    → find_card d o b (filter (λ (r : DeckCard). not (nat_beq r.deck_id id)) rows)
      ≡ find_card d o b rows
unfolding find_card
other_row id d o b [] h = refl
other_row id d o b (r ∷ rows) h = elim (Bool-cases (nat_beq r.deck_id id)) [
  | inl gone ↦
      rw gone (other_row id d o b rows h ∙ sym (find_card-tail d o b r rows (foreign gone)))
  | inr kept ↦ rw kept (elim (Bool-cases (is_row d o b r)) [
    | inl here ↦ rw here refl
    | inr elsewhere ↦ rw elsewhere (other_row id d o b rows h)
  ])
]
  where
    foreign : nat_beq r.deck_id id ≡ true → is_row d o b r ≡ false
    foreign gone = elim (Bool-cases (is_row d o b r)) [
      | inl here ↦
          absurd (h (sym ((is_row_iff d o b r).0 here).0 ∙ (nat_beq_iff r.deck_id id).0 gone))
      | inr elsewhere ↦ elsewhere
    ]

no_deck :
    (id : ℕ) (decks : List Deck)
    → has_deck (filter (λ (d : Deck). not (nat_beq d.id id)) decks) id ≡ false
no_deck id [] = refl
no_deck id (d ∷ decks) = ground (arith, no_deck id decks)

-- The guards of `delete_deck`, met.
allowed :
    {B : Type 0} (rd : Result Deck) (f : Deck → B) (deck : Deck)
    → rd ≡ ok deck
    → deck.is_built ≡ false
    → rd >>= (λ d. if d.is_built then raise conflict else ok (f d)) ≡ ok (f deck)
allowed rd f deck a b = rw (a, b) refl

-- A stored deck that is built is not deleted, which is a conflict; one that is not is deleted with all of its rows, and the rows
-- of the other decks stay.
pub delete_deck-outcome :
    (batch now : Text) (s : Store) (deck_id : ℕ) (deck : Deck)
    → get_deck s.decks deck_id ≡ ok deck
    → let outcome = delete_deck batch now deck_id s in
      ((deck.is_built ≡ true) × (outcome ≡ raise conflict))
      ⊎ ((deck.is_built ≡ false)
          × (s' : Store) × (outcome ≡ ok s')
          × (has_deck s'.decks deck_id ≡ false)
          × ((o : Text) (b : Board) → find_card deck_id o b s'.deck_cards ≡ none)
          × ((d : ℕ) (o : Text) (b : Board)
              → d ≢ deck_id
              → find_card d o b s'.deck_cards ≡ find_card d o b s.deck_cards))
unfolding delete_deck
delete_deck-outcome batch now s deck_id deck stored = elim (Bool-cases deck.is_built) [
  | inl built ↦ inl (built, rw (stored, built) refl)
  | inr free ↦
      let same = (get_deck-id s.decks deck_id deck stored).0 in
      inr (
        free,
        _,
        allowed (get_deck s.decks deck_id) _ deck stored free,
        rw same (no_deck deck_id s.decks),
        λ o b. rw same (no_row deck_id o b s.deck_cards),
        λ d o b apart. rw same (other_row deck_id d o b s.deck_cards apart),
      )
]
