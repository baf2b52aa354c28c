-- ===== src/Decks/Rows.antt =====
-- The rows of a deck and the caches computed from them (backend/app/services/decks/crud.py).
use mtg_vault.Base.{
  ℕ, Bool, true, false, ◌&&◌, Option, none, some, List, [], ◌∷◌, map, if◌then◌else◌, nat_eq,
  nat_beq, ◌==◌, filter, any, contains, length, Result, ok, raise, not_found,
}
use mtg_vault.Base.Text.{Text, codes, text_eq, lower}
use mtg_vault.Rules.Cards.{Board, same_board}
use mtg_vault.Audit.Rows.{Row, Entity, number, flag, text}
use mtg_vault.Audit.Record.{AuditEntry, Action, Payload}
use mtg_vault.Decks.Store.{Deck, DeckCard, OracleCard}
use mtg_vault.Decks.Build.{nullable}

-- The columns that a request may change (`DeckPatchRequest` of backend/app/schemas/decks.py).
pub data DeckChange : Type 0 where
  set_name set_format set_goal : Text → DeckChange
  set_archived : Bool → DeckChange

-- `BOARDS` by name.
abbrev pub board_name : Board → Text
board_name Board.main = codes "main"
board_name Board.side = codes "side"
board_name Board.commander = codes "commander"
board_name Board.companion = codes "companion"
board_name Board.maybe = codes "maybe"

unfoldable pub board_of : Text → Option Board
board_of name =
    if name == codes "main"
    then some Board.main
    else if name == codes "side"
    then some Board.side
    else if name == codes "commander"
    then some Board.commander
    else if name == codes "companion"
    then some Board.companion
    else if name == codes "maybe"
    then some Board.maybe
    else none

pub record DeckSpec : Type 0 where
  pub name : Text
  pub format : Text
  pub commander_oracle_id : Option Text
  pub goal_text : Option Text
  pub source : Text

pub record CardSpec : Type 0 where
  pub oracle_id : Text
  pub board : Text
  pub quantity : ℕ
  pub preferred_set_code : Option Text
  pub preferred_collector_number : Option Text
  pub category : Option Text
  pub is_proxy_intent : Bool

-- `get_deck`
unfoldable pub get_deck : List Deck → ℕ → Result Deck
get_deck [] deck_id = raise not_found
get_deck (d ∷ decks) deck_id = if nat_beq d.id deck_id then ok d else get_deck decks deck_id

-- `db.get(OracleCard, oracle_id)`
unfoldable pub find_oracle : List OracleCard → Text → Option OracleCard
find_oracle [] oracle_id = none
find_oracle (o ∷ oracle_cards) oracle_id =
    if o.oracle_id == oracle_id then some o else find_oracle oracle_cards oracle_id

-- `_require_oracle`
unfoldable pub require_oracle : List OracleCard → Text → Result OracleCard
unfolding find_oracle
require_oracle oracle_cards oracle_id = elim (find_oracle oracle_cards oracle_id) [
  | none ↦ raise not_found
  | some o ↦ ok o
]

-- The row has this primary key.
abbrev pub is_row : ℕ → Text → Board → DeckCard → Bool
is_row deck_id oracle_id board row =
    nat_beq row.deck_id deck_id && (row.oracle_id == oracle_id && same_board row.board board)

-- `db.get(DeckCard, (deck_id, oracle_id, board))`
unfoldable pub find_card : ℕ → Text → Board → List DeckCard → Option DeckCard
find_card deck_id oracle_id board [] = none
find_card deck_id oracle_id board (row ∷ rows) =
    if is_row deck_id oracle_id board row then some row else find_card deck_id oracle_id board rows

-- The deck's rows with their oracle cards: an inner join, so a row with no oracle card is left out.
unfoldable pub joined_rows : List OracleCard → ℕ → List DeckCard → List (DeckCard × OracleCard)
unfolding find_oracle
joined_rows oracle_cards deck_id [] = []
joined_rows oracle_cards deck_id (row ∷ rows) =
    let rest = joined_rows oracle_cards deck_id rows in
    if nat_beq row.deck_id deck_id
    then elim (find_oracle oracle_cards row.oracle_id) [ none ↦ rest | some o ↦ (row, o) ∷ rest ]
    else rest

-- `board in ("main", "commander")`
abbrev pub is_colored_board : Board → Bool
is_colored_board Board.main = true
is_colored_board Board.commander = true
is_colored_board _ = false

-- The letters of WUBRG that the colour identities of the main board and the commanders have.
unfoldable pub colors_of : List (DeckCard × OracleCard) → Text
colors_of rows =
    filter
      (λ letter.
        any
          (λ (r : DeckCard × OracleCard).
            is_colored_board r.0.board && contains letter r.1.color_identity)
          rows)
      (codes "WUBRG")

-- The oracle ids on one board.
unfoldable pub ids_on : Board → List (DeckCard × OracleCard) → List Text
ids_on board rows =
    map (λ (r : DeckCard × OracleCard). r.0.oracle_id)
      (filter (λ (r : DeckCard × OracleCard). same_board r.0.board board) rows)

abbrev pub first_of : List Text → Option Text
first_of [] = none
first_of (x ∷ xs) = some x

abbrev pub second_of : List Text → Option Text
second_of [] = none
second_of (x ∷ xs) = first_of xs

-- The deck with its caches recomputed from the joined rows.
unfoldable pub with_caches : List (DeckCard × OracleCard) → Deck → Deck
unfolding colors_of ids_on
with_caches rows deck = record deck {
  colors_cached = colors_of rows;
  commander_oracle_id = first_of (ids_on Board.commander rows);
  partner_oracle_id = second_of (ids_on Board.commander rows);
  companion_oracle_id = first_of (ids_on Board.companion rows);
}

-- `audit.snapshot` of a deck row.
unfoldable pub card_snapshot : DeckCard → Row
card_snapshot row =
    (codes "deck_id", number row.deck_id)
    ∷ (codes "oracle_id", text row.oracle_id)
    ∷ (codes "board", text (board_name row.board))
    ∷ (codes "quantity", number row.quantity)
    ∷ (codes "preferred_set_code", nullable row.preferred_set_code)
    ∷ (codes "preferred_collector_number", nullable row.preferred_collector_number)
    ∷ (codes "category", nullable row.category)
    ∷ (codes "is_proxy_intent", flag row.is_proxy_intent)
    ∷ []

-- A bulk entry about rows of a deck.
unfoldable pub card_payload : ℕ → List DeckCard → Payload
unfolding card_snapshot
card_payload deck_id rows =
    Payload.bulk (map card_snapshot rows)
      ((codes "deck_id", number deck_id) ∷ (codes "count", number (length rows)) ∷ [])

abbrev pub entry_of :
    Text → Action → Entity → ℕ → Option Payload → Option Payload → Option Text → AuditEntry
entry_of batch action entity_type id before after note = record {
  action = action;
  entity_type = entity_type;
  entity_id = some (number id);
  batch_id = batch;
  before_json = before;
  after_json = after;
  source = codes "api";
  note = note;
  reverted_at = none;
}

abbrev lower_code : Option Text → Option Text
lower_code none = none
lower_code (some code) = some (lower code)

-- The row that a spec asks for.
unfoldable pub row_for : ℕ → Board → CardSpec → DeckCard
row_for deck_id board spec = record {
  deck_id = deck_id;
  oracle_id = spec.oracle_id;
  board = board;
  quantity = spec.quantity;
  preferred_set_code = lower_code spec.preferred_set_code;
  preferred_collector_number = spec.preferred_collector_number;
  category = spec.category;
  is_proxy_intent = spec.is_proxy_intent;
}

-- The row with its key replaced, or added where there is none.
unfoldable pub put_row : DeckCard → List DeckCard → List DeckCard
put_row row [] = row ∷ []
put_row row (r ∷ rows) =
    if is_row row.deck_id row.oracle_id row.board r then row ∷ rows else r ∷ put_row row rows

unfoldable pub apply_change : Deck → DeckChange → Deck
apply_change deck (DeckChange.set_name t) = record deck { name = t }
apply_change deck (DeckChange.set_format t) = record deck { format = t }
apply_change deck (DeckChange.set_goal t) = record deck { goal_text = some t }
apply_change deck (DeckChange.set_archived b) = record deck { archived = b }

unfoldable pub apply_changes : List DeckChange → Deck → Deck
unfolding apply_change
apply_changes [] deck = deck
apply_changes (c ∷ changes) deck = apply_changes changes (apply_change deck c)
