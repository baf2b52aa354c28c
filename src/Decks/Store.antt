-- ===== src/Decks/Store.antt =====
-- The tables that a build reads and writes (backend/app/models) and the queries of availability
-- (backend/app/services/collection/availability.py). The columns that no modelled operation reads
-- are left out, as are the ids and times that the database fills in for an allocation.
use mtg_vault.Base.{
  ℕ, Bool, not, ◌&&◌, ◌||◌, Option, List, map, nat_eq, nat_beq, ◌==◌, filter, any, contains, length,
}
use mtg_vault.Base.Text.{Text, text_eq}
use mtg_vault.Rules.Cards.{Board}
use mtg_vault.Audit.Record.{AuditEntry}

pub record CollectionItem : Type 0 where
  pub id : ℕ
  pub oracle_id : Text
  pub set_code : Text
  pub collector_number : Text
  pub is_proxy : Bool

pub record Deck : Type 0 where
  pub id : ℕ
  pub name : Text
  pub format : Text
  pub is_built : Bool
  -- The caches of the board rows.
  pub colors_cached : Text
  pub commander_oracle_id : Option Text
  pub partner_oracle_id : Option Text
  pub companion_oracle_id : Option Text
  pub source : Text
  pub goal_text : Option Text
  pub archived : Bool
  pub updated_at : Text

pub record DeckCard : Type 0 where
  pub deck_id : ℕ
  pub oracle_id : Text
  pub board : Board
  pub quantity : ℕ
  pub preferred_set_code : Option Text
  pub preferred_collector_number : Option Text
  pub category : Option Text
  pub is_proxy_intent : Bool

pub record DeckAllocation : Type 0 where
  pub collection_item_id : ℕ
  pub deck_id : ℕ

pub record OracleCard : Type 0 where
  pub oracle_id : Text
  pub name : Text
  pub type_line : Text
  pub color_identity : Text

-- A printing.
pub record Card : Type 0 where
  pub oracle_id : Text
  pub digital : Bool
  pub price_usd_cents : Option ℕ

pub record Store : Type 0 where
  pub items : List CollectionItem
  pub decks : List Deck
  pub deck_cards : List DeckCard
  pub allocations : List DeckAllocation
  pub oracle_cards : List OracleCard
  pub cards : List Card
  pub log : List AuditEntry

-- `Deck.id == deck_id and Deck.is_built`, for some deck: the join of the allocation queries.
unfoldable pub is_built_deck : List Deck → ℕ → Bool
is_built_deck decks deck_id = any (λ (d : Deck). nat_beq d.id deck_id && d.is_built) decks

abbrev pub item_ids : List DeckAllocation → List ℕ
item_ids = map (λ (a : DeckAllocation). a.collection_item_id)

-- `allocated_item_ids`
unfoldable pub allocated_item_ids : Store → List ℕ
unfolding is_built_deck
allocated_item_ids s =
    item_ids (filter (λ (a : DeckAllocation). is_built_deck s.decks a.deck_id) s.allocations)

-- `available_items`
unfoldable pub available_items : Store → Text → Bool → List CollectionItem
unfolding allocated_item_ids
available_items s oracle_id include_proxies =
    filter
      (λ (item : CollectionItem).
        item.oracle_id == oracle_id
        && not (contains item.id (allocated_item_ids s))
        && (include_proxies || not item.is_proxy))
      s.items

-- `count_available`
unfoldable pub count_available : Store → Text → Bool → ℕ
unfolding available_items
count_available s oracle_id include_proxies = length (available_items s oracle_id include_proxies)
