-- ===== src/Decks/Edit.antt =====
-- Editing decks and their cards (backend/app/services/decks/crud.py). The batch id, the time and
-- the id of a new deck are arguments.
use mtg_vault.Base.{
  ℕ, false, not, Option, none, some, List, [], ◌∷◌, ◌++◌, if◌then◌else◌, nat_eq, nat_beq, is_empty,
  filter, Result, ok, raise, conflict, not_found, unknown_board, bad_quantity, ◌>>=◌,
}
use mtg_vault.Base.Text.{Text, codes, text_eq, lower}
use mtg_vault.Rules.Cards.{Board}
use mtg_vault.Audit.Rows.{Entity}
use mtg_vault.Audit.Record.{AuditEntry, Action, Payload, record_entry}
use mtg_vault.Decks.Store.{Deck, DeckCard, DeckAllocation, Store}
use mtg_vault.Decks.Build.{deck_snapshot, deck_entry, write_deck}
use mtg_vault.Decks.Rows.{
  DeckChange, board_of, DeckSpec, CardSpec, get_deck, require_oracle, is_row, find_card,
  joined_rows, with_caches, card_payload, entry_of, row_for, put_row, apply_changes,
}

module _ (batch now : Text) where
  -- `refresh_caches`
  unfoldable pub refresh_caches : Deck → Store → Store
  unfolding joined_rows with_caches write_deck
  refresh_caches deck s =
      let rows = joined_rows s.oracle_cards deck.id s.deck_cards in
      record s { decks = write_deck (with_caches rows (record deck { updated_at = now })) s.decks }

  -- The entries of a card edit: one for a new row, two for a row that is replaced.
  unfoldable pub set_card_log : ℕ → Option DeckCard → DeckCard → List AuditEntry → List AuditEntry
  unfolding card_payload
  set_card_log deck_id before row log =
      let created =
        entry_of batch Action.bulk_create Entity.deck_card deck_id none
          (some (card_payload deck_id (row ∷ []))) none in
      elim before [
        | none ↦ record_entry created log
        | some old ↦
            let replaced =
              entry_of batch Action.bulk_delete Entity.deck_card deck_id
                (some (card_payload deck_id (old ∷ []))) none
                (some (codes "replaced by the row in the paired bulk_create entry")) in
            record_entry created (record_entry replaced log)
      ]

  -- `set_card`
  unfoldable pub set_card : ℕ → CardSpec → Store → Result (DeckCard × Store)
  unfolding get_deck require_oracle find_card row_for put_row refresh_caches set_card_log board_of
  set_card deck_id spec s = elim (board_of spec.board) [
    | none ↦ raise unknown_board
    | some board ↦
        if nat_beq spec.quantity 0
        then raise bad_quantity
        else get_deck s.decks deck_id >>= λ deck.
            require_oracle s.oracle_cards spec.oracle_id >>= λ oracle.
            let row = row_for deck_id board spec in
            let before = find_card deck_id spec.oracle_id board s.deck_cards in
            ok (
              row,
              refresh_caches deck (record s {
                deck_cards = put_row row s.deck_cards;
                log = set_card_log deck_id before row s.log;
              }),
            )
  ]

  -- `remove_card`
  unfoldable pub remove_card : ℕ → Text → Board → Store → Result Store
  unfolding get_deck find_card refresh_caches card_payload
  remove_card deck_id oracle_id board s = get_deck s.decks deck_id >>= λ deck.
      elim (find_card deck_id oracle_id board s.deck_cards) [
        | none ↦ raise not_found
        | some row ↦ ok (
            refresh_caches deck (record s {
              deck_cards = filter (λ r. not (is_row deck_id oracle_id board r)) s.deck_cards;
              log =
                  record_entry
                    (entry_of batch Action.bulk_delete Entity.deck_card deck_id
                      (some (card_payload deck_id (row ∷ []))) none none)
                    s.log;
            }))
      ]

  -- `update_deck`
  unfoldable pub update_deck : ℕ → List DeckChange → Store → Result (Deck × Store)
  unfolding get_deck apply_changes write_deck deck_entry
  update_deck deck_id changes s = get_deck s.decks deck_id >>= λ before.
      let deck = record (apply_changes changes before) { updated_at = now } in
      ok (
        deck,
        record s {
          decks = write_deck deck s.decks;
          log = record_entry (deck_entry batch before deck) s.log;
        },
      )

  -- `delete_deck`: the foreign keys of the deck's rows cascade.
  unfoldable pub delete_deck : ℕ → Store → Result Store
  unfolding get_deck card_payload deck_snapshot
  delete_deck deck_id s = get_deck s.decks deck_id >>= λ deck.
      let cards = filter (λ (row : DeckCard). nat_beq row.deck_id deck.id) s.deck_cards in
      let deleted =
        entry_of batch Action.delete Entity.deck deck.id
          (some (Payload.single (deck_snapshot deck))) none
          (some (codes "deleted deck " ++ deck.name)) in
      let log =
        if is_empty cards
        then s.log
        else record_entry
            (entry_of batch Action.bulk_delete Entity.deck_card deck.id
              (some (card_payload deck.id cards)) none none)
            s.log in
      if deck.is_built
      then raise conflict
      else ok (record s {
        decks = filter (λ (d : Deck). not (nat_beq d.id deck.id)) s.decks;
        deck_cards = filter (λ (row : DeckCard). not (nat_beq row.deck_id deck.id)) s.deck_cards;
        allocations =
            filter (λ (a : DeckAllocation). not (nat_beq a.deck_id deck.id)) s.allocations;
        log = record_entry deleted log;
      })

  -- The first part of `create_deck`: the row of the deck, and of its commander.
  unfoldable pub seeded : ℕ → DeckSpec → Store → Result Store
  unfolding require_oracle
  seeded deck_id spec s =
      let deck : Deck = record {
        id = deck_id;
        name = spec.name;
        format = lower spec.format;
        is_built = false;
        colors_cached = [];
        commander_oracle_id = none;
        partner_oracle_id = none;
        companion_oracle_id = none;
        source = spec.source;
        goal_text = spec.goal_text;
        archived = false;
        updated_at = now;
      } in
      let added = record s { decks = s.decks ++ deck ∷ [] } in
      elim spec.commander_oracle_id [
        | none ↦ ok added
        | some oracle_id ↦ require_oracle s.oracle_cards oracle_id >>= λ oracle. ok (record added {
          deck_cards =
              s.deck_cards
              ++ record {
                deck_id = deck_id;
                oracle_id = oracle_id;
                board = Board.commander;
                quantity = 1;
                preferred_set_code = none;
                preferred_collector_number = none;
                category = none;
                is_proxy_intent = false;
              }
                ∷ [];
        })
      ]

  -- `create_deck`
  unfoldable pub create_deck : ℕ → DeckSpec → Store → Result (Deck × Store)
  unfolding seeded get_deck refresh_caches deck_snapshot
  create_deck deck_id spec s = seeded deck_id spec s >>= λ s1. get_deck s1.decks deck_id >>= λ row.
      let s2 = refresh_caches row s1 in
      get_deck s2.decks deck_id >>= λ deck. ok (
        deck,
        record s2 {
          log =
              record_entry
                (entry_of batch Action.create Entity.deck deck_id none
                  (some (Payload.single (deck_snapshot deck)))
                  (some (codes "created deck " ++ deck.name)))
                s2.log;
        },
      )
