-- ===== src/Decks/EditExamples.antt =====
-- Edits of a small deck, and each theorem about edits on it.
use mtg_vault.Base.{
  ℕ, suc, max, ◌≤◌, ◌≡◌, refl, ◌≢◌, ◌↔◌, ◌⊎◌, true, false, Option, none, some, List, [], ◌∷◌, arith,
  if◌then◌else◌, map, Result, ok, raise, conflict,
}
use mtg_vault.Base.Text.{Text, codes, same_text}
use mtg_vault.Base.Dict.{is_some}
use mtg_vault.Rules.Cards.{Board}
use mtg_vault.Decks.Store.{Deck, DeckCard, Store}
use mtg_vault.Decks.Rows.{
  CardSpec, DeckSpec, board_of, get_deck, find_oracle, require_oracle, is_row, find_card,
  joined_rows, with_caches, row_for, put_row,
}
use mtg_vault.Decks.Edit.{
  refresh_caches, set_card_log, set_card, remove_card, update_deck, delete_deck, create_deck,
}
use mtg_vault.Decks.Consistent.{has_deck, IsConsistent}
use mtg_vault.Decks.Edits.{DeckEdit, run_edits, run_edits-IsConsistent, set_card-find_card}
use mtg_vault.Decks.Requests.{set_card_iff}
use mtg_vault.Decks.Undoing.{remove_card-set_card, delete_deck-outcome}

program : Unit {0}
unfolding run_edits set_card remove_card delete_deck create_deck update_deck get_deck require_oracle
    find_card joined_rows with_caches row_for put_row refresh_caches set_card_log same_text
program = tt

-- The id that SQLite gives to a row: one more than the largest.
abbrev next_id : List Deck → ℕ
next_id [] = 1
next_id (d ∷ decks) = max (suc d.id) (next_id decks)

next_id_fresh : (decks : List Deck) → has_deck decks (next_id decks) ≡ false
next_id_fresh decks = above decks (next_id decks) (omega arith)
  where
    above : (ds : List Deck) (i : ℕ) → next_id ds ≤ i → has_deck ds i ≡ false
    above [] i h = refl
    above (d ∷ ds) i h = ground (arith, above ds i)

abbrev blank : Deck
blank = record {
  id = 7;
  name = codes "Mine";
  format = codes "commander";
  is_built = false;
  colors_cached = [];
  commander_oracle_id = none;
  partner_oracle_id = none;
  companion_oracle_id = none;
  source = codes "manual";
  goal_text = none;
  archived = false;
  updated_at = [];
}

abbrev start : Store
start = record {
  items = [];
  decks = blank ∷ [];
  deck_cards = [];
  allocations = [];
  oracle_cards =
      record {
        oracle_id = codes "i";
        name = codes "Isamaru";
        type_line = codes "Legendary Creature — Dog";
        color_identity = codes "W";
      }
      ∷ [];
  cards = [];
  log = [];
}

abbrev leader : CardSpec
leader = record {
  oracle_id = codes "i";
  board = codes "commander";
  quantity = 1;
  preferred_set_code = some (codes "NEO");
  preferred_collector_number = none;
  category = none;
  is_proxy_intent = false;
}

abbrev second_deck : DeckSpec
second_deck = record {
  name = codes "Second";
  format = codes "Commander";
  commander_oracle_id = some (codes "i");
  goal_text = none;
  source = codes "manual";
}

abbrev requests : List (Text × Text × DeckEdit)
requests =
    (codes "b1", codes "t1", DeckEdit.set_row 7 leader)
    ∷ (codes "b2", codes "t2", DeckEdit.create second_deck)
    ∷ (codes "b3", codes "t3", DeckEdit.remove_row 8 (codes "i") Board.commander)
    ∷ (codes "b4", codes "t4", DeckEdit.delete 9)
    ∷ []

-- The first deck has its commander and the commander's colour; the second has lost its own.
caches_test :
    (map {B = ℕ × Text × Option Text}
      (λ (d : Deck). (d.id, d.colors_cached, d.commander_oracle_id))
      (run_edits next_id requests start).decks)
    ≡ (7, codes "W", some (codes "i")) ∷ (8, [], none) ∷ []
unfolding program
caches_test = refl

start-IsConsistent : IsConsistent start
unfolding program
start-IsConsistent = record { keyed = tt; owned = tt; agrees = (refl, tt) }

run_edits-IsConsistent_example : IsConsistent (run_edits next_id requests start)
run_edits-IsConsistent_example =
    run_edits-IsConsistent next_id next_id_fresh requests start start-IsConsistent

abbrev returned : Result (DeckCard × Store) → DeckCard × Store
returned (ok r) = r
returned (raise e) = (
  record {
    deck_id = 0;
    oracle_id = [];
    board = Board.main;
    quantity = 0;
    preferred_set_code = none;
    preferred_collector_number = none;
    category = none;
    is_proxy_intent = false;
  },
  start,
)

abbrev led : DeckCard × Store
led = returned (set_card (codes "b1") (codes "t1") 7 leader start)

led_returned : set_card (codes "b1") (codes "t1") 7 leader start ≡ ok led
unfolding program
led_returned = refl

set_card-find_card_example : find_card 7 (codes "i") Board.commander led.1.deck_cards ≡ (
    if is_row 7 (codes "i") Board.commander led.0
    then some led.0
    else find_card 7 (codes "i") Board.commander start.deck_cards)
set_card-find_card_example =
    set_card-find_card (codes "b1") (codes "t1") start led.1 7 leader led.0 led_returned 7
      (codes "i") Board.commander

set_card_iff_example :
    ((row : DeckCard) × (s' : Store) × (set_card (codes "b1") (codes "t1") 7 leader start
        ≡ ok (row, s')))
    ↔ ((is_some (board_of leader.board) ≡ true)
        × (leader.quantity ≢ 0)
        × (has_deck start.decks 7 ≡ true)
        × (is_some (find_oracle start.oracle_cards leader.oracle_id) ≡ true))
set_card_iff_example = set_card_iff (codes "b1") (codes "t1") start 7 leader

absent_before : find_card 7 led.0.oracle_id led.0.board start.deck_cards ≡ none
unfolding program
absent_before = refl

remove_card-set_card_example :
    (s'' : Store) × (remove_card (codes "b2") (codes "t2") 7 led.0.oracle_id led.0.board led.1
      ≡ ok s'')
    × (s''.deck_cards ≡ start.deck_cards)
remove_card-set_card_example =
    remove_card-set_card (codes "b1") (codes "t1") (codes "b2") (codes "t2") start led.1 7 leader
      led.0 led_returned absent_before

blank_stored : get_deck start.decks 7 ≡ ok blank
unfolding program
blank_stored = refl

delete_deck-outcome_example :
    let outcome = delete_deck (codes "b3") (codes "t3") 7 start in
    ((blank.is_built ≡ true) × (outcome ≡ raise conflict))
    ⊎ ((blank.is_built ≡ false)
        × (s' : Store) × (outcome ≡ ok s')
        × (has_deck s'.decks 7 ≡ false)
        × ((o : Text) (b : Board) → find_card 7 o b s'.deck_cards ≡ none)
        × ((d : ℕ) (o : Text) (b : Board)
            → d ≢ 7
            → find_card d o b s'.deck_cards ≡ find_card d o b start.deck_cards))
delete_deck-outcome_example =
    delete_deck-outcome (codes "b3") (codes "t3") start 7 blank blank_stored
