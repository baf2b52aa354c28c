-- ===== src/Decks/Consistent.antt =====
-- The invariant of deck editing, and `set_card` (backend/app/services/decks/crud.py).
use mtg_vault.Base.{
  ℕ, ◌≡◌, refl, sym, ap, ◌∙◌, ◌≢◌, inl, inr, Bool, true, false, Option, none, some, List, [], ◌∷◌,
  arith, if◌then◌else◌, nat_eq, nat_beq, any, All, All-imp, Bool-cases, Result, ok, raise,
  unknown_board, bad_quantity, ◌>>=◌,
}
use mathlib.Core.Path.{subst}
use mtg_vault.Base.Text.{Text, text_eq}
use mtg_vault.Rules.Cards.{Board}
use mtg_vault.Decks.Store.{Deck, DeckCard, OracleCard, Store}
use mtg_vault.Decks.Build.{write_deck}
use mtg_vault.Decks.Rows.{
  CardSpec, board_of, get_deck, require_oracle, is_row, find_card, joined_rows, with_caches,
  row_for, put_row,
}
use mtg_vault.Decks.Edit.{set_card_log, refresh_caches, set_card}
use mtg_vault.Decks.Keys.{IsKeyed, put_row-IsKeyed}
use mtg_vault.Decks.Caches.{Agrees, joined-put_row, refresh_caches-Agrees}

-- The table has a deck with the id.
abbrev pub has_deck : List Deck → ℕ → Bool
has_deck decks i = any (λ (d : Deck). nat_beq d.id i) decks

-- No key is there twice, every row is of a stored deck, and every deck's caches are those of its
-- rows.
pub record IsConsistent (s : Store) : Type 0 where
  pub keyed : IsKeyed s.deck_cards
  pub owned : All (λ (row : DeckCard). has_deck s.decks row.deck_id ≡ true) s.deck_cards
  pub agrees : All (Agrees s.oracle_cards s.deck_cards) s.decks

pub get_deck-id :
    (decks : List Deck) (i : ℕ) (deck : Deck)
    → get_deck decks i ≡ ok deck
    → (deck.id ≡ i) × (has_deck decks i ≡ true)
unfolding get_deck
get_deck-id [] i deck h = absurd (ground arith)
get_deck-id (d ∷ decks) i deck h = ground (arith, get_deck-id decks i deck)

pub has_deck-write_deck :
    (deck : Deck) (decks : List Deck) (i : ℕ)
    → has_deck (write_deck deck decks) i ≡ has_deck decks i
unfolding write_deck
has_deck-write_deck deck [] i = refl
has_deck-write_deck deck (d ∷ decks) i = ground (arith, has_deck-write_deck deck decks i)

All-put_row :
    (P : DeckCard → Type 0) (row : DeckCard) (rows : List DeckCard)
    → P row
    → All P rows
    → All P (put_row row rows)
unfolding put_row
All-put_row P row [] h k = (h, tt)
All-put_row P row (r ∷ rows) h k =
    elim (Bool-cases (is_row row.deck_id row.oracle_id row.board r)) [
      | inl replaced ↦ rw replaced (h, k.1)
      | inr kept ↦ rw kept (k.0, All-put_row P row rows h k.1)
    ]

-- The four guards of `set_card`, passed.
pub passed :
    {B : Type 0} (mb : Option Board) (zero : Bool) (rd : Result Deck) (ro : Result OracleCard)
    (f : Board → Deck → B) (b : B)
    → elim mb [
      | none ↦ raise unknown_board
      | some board ↦
          if zero then raise bad_quantity else rd >>= λ deck. ro >>= λ oracle. ok (f board deck)
    ]
      ≡ ok b
    → (board : Board) × (deck : Deck) × (mb ≡ some board)
      × (zero ≡ false)
      × (rd ≡ ok deck)
      × ((oracle : OracleCard) × (ro ≡ ok oracle))
      × (f board deck ≡ b)
passed none zero rd ro f b h = absurd (cc)
passed (some board) true rd ro f b h = absurd (cc)
passed (some board) false (raise x) ro f b h = absurd (cc)
passed (some board) false (ok deck) (raise x) f b h = absurd (cc)
passed (some board) false (ok deck) (ok oracle) f b h =
    (board, deck, refl, refl, refl, (oracle, refl), cc)

-- A refresh of one deck, when the caches of the others are right.
pub refresh_caches-IsConsistent :
    (batch now : Text) (deck : Deck) (s : Store)
    → IsKeyed s.deck_cards
    → All (λ (row : DeckCard). has_deck s.decks row.deck_id ≡ true) s.deck_cards
    → All (λ (d : Deck). d.id ≢ deck.id → Agrees s.oracle_cards s.deck_cards d) s.decks
    → IsConsistent (refresh_caches batch now deck s)
unfolding refresh_caches
refresh_caches-IsConsistent batch now deck s keyed owned others = record {
  keyed = keyed;
  owned =
      All-imp _ _
        (λ (row : DeckCard) (h : has_deck s.decks row.deck_id ≡ true).
          has_deck-write_deck _ s.decks row.deck_id ∙ h)
        s.deck_cards owned;
  agrees = refresh_caches-Agrees batch now deck s others;
}

module _ (batch now : Text) (s : Store) where
  -- Rows that changed for one deck only, and a refresh of that deck.
  pub refreshed-IsConsistent :
      (deck : Deck) (changed : Store)
      → changed.decks ≡ s.decks
      → changed.oracle_cards ≡ s.oracle_cards
      → IsKeyed changed.deck_cards
      → All (λ (row : DeckCard). has_deck s.decks row.deck_id ≡ true) changed.deck_cards
      → ((d : ℕ)
          → deck.id ≢ d
          → joined_rows s.oracle_cards d changed.deck_cards
            ≡ joined_rows s.oracle_cards d s.deck_cards)
      → IsConsistent s
      → IsConsistent (refresh_caches batch now deck changed)
  refreshed-IsConsistent deck changed same_decks same_oracles keyed owned others v =
      refresh_caches-IsConsistent batch now deck changed keyed (rw same_decks owned) (
        rw (same_decks, same_oracles)
          (All-imp (Agrees s.oracle_cards s.deck_cards)
            (λ (d : Deck). d.id ≢ deck.id → Agrees s.oracle_cards changed.deck_cards d)
            (λ d h apart. ap (λ rows. with_caches rows d) (others d.id (λ e. apart (sym e))) ∙ h)
            s.decks v.agrees))

  -- The store of `set_card` before its refresh.
  abbrev pub edited : ℕ → CardSpec → Board → Store
  edited deck_id spec board =
      let row = row_for deck_id board spec in
      record s {
        deck_cards = put_row row s.deck_cards;
        log =
            set_card_log batch now deck_id (find_card deck_id spec.oracle_id board s.deck_cards) row
              s.log;
      }

  -- What `set_card` does when it succeeds.
  pub set_card-ok :
      (deck_id : ℕ) (spec : CardSpec) (row : DeckCard) (s' : Store)
      → set_card batch now deck_id spec s ≡ ok (row, s')
      → (board : Board) × (deck : Deck) × (board_of spec.board ≡ some board)
        × (get_deck s.decks deck_id ≡ ok deck)
        × (row ≡ row_for deck_id board spec)
        × (s' ≡ refresh_caches batch now deck (edited deck_id spec board))
  unfolding set_card
  set_card-ok deck_id spec row s' h =
      let (board, deck, known, _, stored, _, result) =
        passed (board_of spec.board) (nat_beq spec.quantity 0) (get_deck s.decks deck_id)
          (require_oracle s.oracle_cards spec.oracle_id) _ (row, s') h in
      (
        board,
        deck,
        known,
        stored,
        sym (ap (λ (r : DeckCard × Store). r.0) result),
        sym (ap (λ (r : DeckCard × Store). r.1) result),
      )

  -- `set_card` keeps the invariant.
  pub set_card-IsConsistent :
      (deck_id : ℕ) (spec : CardSpec) (row : DeckCard) (s' : Store)
      → IsConsistent s
      → set_card batch now deck_id spec s ≡ ok (row, s')
      → IsConsistent s'
  unfolding row_for
  set_card-IsConsistent deck_id spec row s' v h =
      let (board, deck, _, stored, _, result) = set_card-ok deck_id spec row s' h in
      let found = get_deck-id s.decks deck_id deck stored in
      let new = row_for deck_id board spec in
      subst IsConsistent (sym result) (
        refreshed-IsConsistent deck (edited deck_id spec board) refl refl
          (put_row-IsKeyed new s.deck_cards v.keyed)
          (All-put_row _ new s.deck_cards found.1 v.owned)
          (λ d other. joined-put_row s.oracle_cards d new s.deck_cards (λ e. other (found.0 ∙ e)))
          v)
