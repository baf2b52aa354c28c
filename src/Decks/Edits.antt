-- ===== src/Decks/Edits.antt =====
-- Sequences of edits, as the requests of a client (backend/app/services/decks/crud.py). The id
-- of a new deck comes from the database: a function of the table that finds one which it has
-- not.
use mtg_vault.Base.{
  ℕ, ◌≡◌, refl, sym, ap, ◌∙◌, false, some, List, [], ◌∷◌, if◌then◌else◌, nat_eq, Result, ok, raise,
}
use mtg_vault.Base.Text.{Text, text_eq}
use mtg_vault.Rules.Cards.{Board}
use mtg_vault.Decks.Store.{Deck, DeckCard, Store}
use mtg_vault.Decks.Rows.{CardSpec, DeckSpec, DeckChange, is_row, find_card, row_for}
use mtg_vault.Decks.Edit.{
  refresh_caches, set_card, remove_card, update_deck, delete_deck, create_deck,
}
use mtg_vault.Decks.Keys.{find_card-put_row}
use mtg_vault.Decks.Consistent.{has_deck, IsConsistent, set_card-ok, set_card-IsConsistent}
use mtg_vault.Decks.Editing.{
  remove_card-IsConsistent, update_deck-IsConsistent, delete_deck-IsConsistent,
}
use mtg_vault.Decks.Creation.{create_deck-IsConsistent}

-- A request that edits a deck.
pub data DeckEdit : Type 0 where
  create : DeckSpec → DeckEdit
  update : ℕ → List DeckChange → DeckEdit
  delete : ℕ → DeckEdit
  set_row : ℕ → CardSpec → DeckEdit
  remove_row : ℕ → Text → Board → DeckEdit

-- The store after a request: that of the operation, or the one before it if the operation fails.
abbrev pub committed {ℓ} : {A : Type ℓ} → Store → (A → Store) → Result A → Store
committed s store (ok a) = store a
committed s store (raise e) = s

module _ (new_id : List Deck → ℕ) where
  unfoldable pub run_edit : Text → Text → DeckEdit → Store → Store
  unfolding create_deck update_deck delete_deck set_card remove_card
  run_edit batch now (DeckEdit.create spec) s =
      committed s (λ (r : Deck × Store). r.1) (create_deck batch now (new_id s.decks) spec s)
  run_edit batch now (DeckEdit.update deck_id changes) s =
      committed s (λ (r : Deck × Store). r.1) (update_deck batch now deck_id changes s)
  run_edit batch now (DeckEdit.delete deck_id) s =
      committed s (λ s'. s') (delete_deck batch now deck_id s)
  run_edit batch now (DeckEdit.set_row deck_id spec) s =
      committed s (λ (r : DeckCard × Store). r.1) (set_card batch now deck_id spec s)
  run_edit batch now (DeckEdit.remove_row deck_id oracle_id board) s =
      committed s (λ s'. s') (remove_card batch now deck_id oracle_id board s)

  -- Requests one after the other, each with its batch id and its time.
  unfoldable pub run_edits : List (Text × Text × DeckEdit) → Store → Store
  unfolding run_edit
  run_edits [] s = s
  run_edits ((batch, now, edit) ∷ edits) s = run_edits edits (run_edit batch now edit s)

  committed-IsConsistent {ℓ} :
      {A : Type ℓ} (s : Store) (store : A → Store) (r : Result A)
      → IsConsistent s
      → ((a : A) → r ≡ ok a → IsConsistent (store a))
      → IsConsistent (committed s store r)
  committed-IsConsistent s store (ok a) v f = f a refl
  committed-IsConsistent s store (raise e) v f = v

  module _ (fresh : (decks : List Deck) → has_deck decks (new_id decks) ≡ false) where
    run_edit-IsConsistent :
        (batch now : Text) (edit : DeckEdit) (s : Store)
        → IsConsistent s
        → IsConsistent (run_edit batch now edit s)
    unfolding run_edit
    run_edit-IsConsistent batch now (DeckEdit.create spec) s v =
        committed-IsConsistent s _ (create_deck batch now (new_id s.decks) spec s) v
          (λ (deck, s') h.
            create_deck-IsConsistent batch now s (new_id s.decks) spec v deck s' (fresh s.decks) h)
    run_edit-IsConsistent batch now (DeckEdit.update deck_id changes) s v =
        committed-IsConsistent s _ (update_deck batch now deck_id changes s) v
          (λ (deck, s') h. update_deck-IsConsistent batch now s deck_id changes deck s' v h)
    run_edit-IsConsistent batch now (DeckEdit.delete deck_id) s v =
        committed-IsConsistent s _ (delete_deck batch now deck_id s) v
          (λ s' h. delete_deck-IsConsistent batch now s deck_id s' v h)
    run_edit-IsConsistent batch now (DeckEdit.set_row deck_id spec) s v =
        committed-IsConsistent s _ (set_card batch now deck_id spec s) v
          (λ (row, s') h. set_card-IsConsistent batch now s deck_id spec row s' v h)
    run_edit-IsConsistent batch now (DeckEdit.remove_row deck_id oracle_id board) s v =
        committed-IsConsistent s _ (remove_card batch now deck_id oracle_id board s) v
          (λ s' h. remove_card-IsConsistent batch now s deck_id oracle_id board s' v h)

    -- Any sequence of deck edits keeps the invariant, where the database gives a new deck an id that
    -- no deck has: no key of a deck row is there twice, every row is of a stored deck, and the cache
    -- columns of every deck are those that its rows give.
    pub run_edits-IsConsistent :
        (edits : List (Text × Text × DeckEdit)) (s : Store)
        → IsConsistent s
        → IsConsistent (run_edits edits s)
    unfolding run_edits
    run_edits-IsConsistent [] s v = v
    run_edits-IsConsistent ((batch, now, edit) ∷ edits) s v =
        run_edits-IsConsistent edits _ (run_edit-IsConsistent batch now edit s v)

-- After `set_card`, the key of the row that it returns finds this row, and every other key finds
-- what it found before.
pub set_card-find_card :
    (batch now : Text) (s s' : Store) (deck_id : ℕ) (spec : CardSpec) (row : DeckCard)
    → set_card batch now deck_id spec s ≡ ok (row, s')
    → (d : ℕ) (o : Text) (b : Board)
    → find_card d o b s'.deck_cards
      ≡ (if is_row d o b row then some row else find_card d o b s.deck_cards)
unfolding refresh_caches
set_card-find_card batch now s s' deck_id spec row h d o b =
    let (board, deck, _, _, same_row, result) = set_card-ok batch now s deck_id spec row s' h in
    ap (λ (x : Store). find_card d o b x.deck_cards) result
    ∙ find_card-put_row d o b (row_for deck_id board spec) s.deck_cards
    ∙ ap (λ r. if is_row d o b r then some r else find_card d o b s.deck_cards) (sym same_row)
