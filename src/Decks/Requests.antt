-- ===== src/Decks/Requests.antt =====
-- The guards of `set_card` (backend/app/services/decks/crud.py).
use mtg_vault.Base.{
  ℕ, ◌≡◌, refl, sym, ap, ◌∙◌, ◌≢◌, ◌↔◌, inl, inr, Bool, true, false, not, Option, none, some, List,
  [], ◌∷◌, arith, if◌then◌else◌, nat_eq, nat_beq, filter, Bool-cases, Option-cases, Result, ok,
  raise, not_found, unknown_board, bad_quantity, ◌>>=◌,
}
use mtg_vault.Base.Text.{Text, text_eq}
use mtg_vault.Base.Dict.{is_some}
use mtg_vault.Rules.Cards.{Board}
use mtg_vault.Decks.Store.{Deck, DeckCard, OracleCard, Store}
use mtg_vault.Decks.Rows.{
  CardSpec, board_of, get_deck, find_oracle, require_oracle, is_row, find_card, row_for, put_row,
}
use mtg_vault.Decks.Edit.{refresh_caches, set_card}
use mtg_vault.Decks.Keys.{is_row_iff, find_card-head, find_card-tail}
use mtg_vault.Decks.Consistent.{has_deck, get_deck-id, edited, passed}

pub get_deck-some :
    (decks : List Deck) (i : ℕ)
    → has_deck decks i ≡ true
    → (deck : Deck) × (get_deck decks i ≡ ok deck)
unfolding get_deck
get_deck-some [] i h = absurd (cc)
get_deck-some (d ∷ decks) i h = elim (Bool-cases (nat_beq d.id i)) [
  | inl same ↦ (d, rw same refl)
  | inr other ↦
      let (deck, e) = get_deck-some decks i (ground (arith, other, h)) in (deck, rw other e)
]

required_iff :
    (oracle_cards : List OracleCard) (id : Text)
    → ((o : OracleCard) × (require_oracle oracle_cards id ≡ ok o))
      ↔ (is_some (find_oracle oracle_cards id) ≡ true)
unfolding require_oracle
required_iff oracle_cards id = by_cases (find_oracle oracle_cards id)
  where
    by_cases :
        (mo : Option OracleCard)
        → ((o : OracleCard) × (elim mo [ none ↦ raise not_found | some x ↦ ok x ] ≡ ok o))
          ↔ (is_some mo ≡ true)
    by_cases none = (λ (o, h). absurd (cc), λ h. absurd (cc))
    by_cases (some x) = (λ h. refl, λ h. (x, refl))

-- The guards of `set_card`, met.
met :
    {B : Type 0} (mb : Option Board) (zero : Bool) (rd : Result Deck) (ro : Result OracleCard)
    (f : Board → Deck → B) (board : Board) (deck : Deck) (oracle : OracleCard)
    → mb ≡ some board
    → zero ≡ false
    → rd ≡ ok deck
    → ro ≡ ok oracle
    → elim mb [
      | none ↦ raise unknown_board
      | some b ↦ if zero then raise bad_quantity else rd >>= λ d. ro >>= λ oracle. ok (f b d)
    ]
      ≡ ok (f board deck)
met mb zero rd ro f board deck oracle a b c d = rw (a, b, c, d) refl

-- `set_card` succeeds exactly when its board is known, its quantity is at least one, and the deck
-- and the oracle card exist.
pub set_card_iff :
    (batch now : Text) (s : Store) (deck_id : ℕ) (spec : CardSpec)
    → ((row : DeckCard) × (s' : Store) × (set_card batch now deck_id spec s ≡ ok (row, s'))) ↔ (
        (is_some (board_of spec.board) ≡ true)
        × (spec.quantity ≢ 0)
        × (has_deck s.decks deck_id ≡ true)
        × (is_some (find_oracle s.oracle_cards spec.oracle_id) ≡ true))
unfolding set_card
set_card_iff batch now s deck_id spec = (
  λ (row, s', h).
      let (board, deck, known, positive, stored, oracle, _) =
        passed (board_of spec.board) (nat_beq spec.quantity 0) (get_deck s.decks deck_id)
          (require_oracle s.oracle_cards spec.oracle_id) _ (row, s') h in
      (
        ap is_some known,
        ground (arith, positive),
        (get_deck-id s.decks deck_id deck stored).1,
        (required_iff s.oracle_cards spec.oracle_id).0 oracle,
      ),
  λ (known, positive, stored, present). elim (Option-cases (board_of spec.board)) [
    | inl unknown ↦ let clash : true ≡ false = sym known ∙ ap is_some unknown in absurd (cc)
    | inr (board, is_board) ↦
        let (deck, is_deck) = get_deck-some s.decks deck_id stored in
        let (oracle, is_oracle) = (required_iff s.oracle_cards spec.oracle_id).1 present in
        (
          row_for deck_id board spec,
          refresh_caches batch now deck (edited batch now s deck_id spec board),
          met (board_of spec.board) (nat_beq spec.quantity 0) (get_deck s.decks deck_id)
              (require_oracle s.oracle_cards spec.oracle_id)
              (λ b d. (
                row_for deck_id b spec,
                refresh_caches batch now d (edited batch now s deck_id spec b),
              ))
              board deck oracle is_board (ground (arith, positive)) is_deck is_oracle,
        )
  ],
)

pub filter-put_row :
    (row : DeckCard) (rows : List DeckCard)
    → find_card row.deck_id row.oracle_id row.board rows ≡ none
    → filter (λ r. not (is_row row.deck_id row.oracle_id row.board r)) (put_row row rows) ≡ rows
unfolding put_row
filter-put_row row [] h =
    rw ((is_row_iff row.deck_id row.oracle_id row.board row).1 (refl, refl, refl)) refl
filter-put_row row (r ∷ rows) h = elim (Bool-cases (is_row row.deck_id row.oracle_id row.board r)) [
  | inl here ↦
      let clash : some r ≡ none =
        sym (find_card-head row.deck_id row.oracle_id row.board r rows here) ∙ h in
      absurd (cc)
  | inr elsewhere ↦
      let rest =
        filter-put_row row rows
          (sym (find_card-tail row.deck_id row.oracle_id row.board r rows elsewhere) ∙ h) in
      rw (elsewhere, elsewhere) (ap (◌∷◌ r) rest)
]
