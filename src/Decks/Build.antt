-- ===== src/Decks/Build.antt =====
-- `build` and `unbuild` (backend/app/services/decks/allocate.py). The batch id and the time are
-- arguments: the source draws them from `uuid4` and the clock.
use mtg_vault.Base.{
  ℕ, Bool, true, false, not, ◌&&◌, Option, none, some, List, [], ◌∷◌, ◌++◌, map, if◌then◌else◌,
  nat_eq, nat_beq, is_empty, filter, contains, length, Result, ok, raise, conflict,
}
use mtg_vault.Base.Text.{Text, codes, text_eq}
use mtg_vault.Audit.Rows.{Value, Row, Entity, null, number, flag, text}
use mtg_vault.Audit.Record.{AuditEntry, Action, Payload, record_entry}
use mtg_vault.Decks.Store.{
  CollectionItem, Deck, DeckAllocation, Store, item_ids, allocated_item_ids,
}
use mtg_vault.Decks.Picks.{BuildResult, physical_rows, needs_of, Picks, pick_all}

-- A column that may be NULL.
abbrev pub nullable : Option Text → Value
nullable none = null
nullable (some t) = text t

-- `audit.snapshot(deck)`
unfoldable pub deck_snapshot : Deck → Row
deck_snapshot deck =
    (codes "id", number deck.id)
    ∷ (codes "name", text deck.name)
    ∷ (codes "format", text deck.format)
    ∷ (codes "is_built", flag deck.is_built)
    ∷ (codes "colors_cached", text deck.colors_cached)
    ∷ (codes "commander_oracle_id", nullable deck.commander_oracle_id)
    ∷ (codes "partner_oracle_id", nullable deck.partner_oracle_id)
    ∷ (codes "companion_oracle_id", nullable deck.companion_oracle_id)
    ∷ (codes "source", text deck.source)
    ∷ (codes "goal_text", nullable deck.goal_text)
    ∷ (codes "archived", flag deck.archived)
    ∷ (codes "updated_at", text deck.updated_at)
    ∷ []

-- `audit.snapshot(allocation)`
unfoldable pub allocation_snapshot : DeckAllocation → Row
allocation_snapshot a =
    (codes "collection_item_id", number a.collection_item_id)
    ∷ (codes "deck_id", number a.deck_id)
    ∷ []

-- The payload of a bulk entry about the deck's allocations.
unfoldable pub allocation_payload : Deck → List DeckAllocation → Payload
unfolding allocation_snapshot
allocation_payload deck allocations =
    Payload.bulk (map allocation_snapshot allocations)
      ((codes "deck_id", number deck.id) ∷ (codes "count", number (length allocations)) ∷ [])

unfoldable pub allocation_entry :
    Action → Text → Text → Deck → Option Payload → Option Payload → AuditEntry
allocation_entry action batch verb deck before after = record {
  action = action;
  entity_type = Entity.deck_allocation;
  entity_id = some (number deck.id);
  batch_id = batch;
  before_json = before;
  after_json = after;
  source = codes "api";
  note = some (verb ++ deck.name);
  reverted_at = none;
}

unfoldable pub deck_entry : Text → Deck → Deck → AuditEntry
unfolding deck_snapshot
deck_entry batch before after = record {
  action = Action.update;
  entity_type = Entity.deck;
  entity_id = some (number after.id);
  batch_id = batch;
  before_json = some (Payload.single (deck_snapshot before));
  after_json = some (Payload.single (deck_snapshot after));
  source = codes "api";
  note = none;
  reverted_at = none;
}

-- The deck's row, replaced.
unfoldable pub write_deck : Deck → List Deck → List Deck
write_deck deck = map (λ (d : Deck). if nat_beq d.id deck.id then deck else d)

-- `UNIQUE (collection_item_id)` holds of the allocations.
unfoldable pub all_distinct : List ℕ → Bool
all_distinct [] = true
all_distinct (i ∷ is) = not (contains i is) && all_distinct is

-- The allocations of a deck.
abbrev pub held_by : ℕ → List DeckAllocation → List DeckAllocation
held_by deck_id = filter (λ (a : DeckAllocation). nat_beq a.deck_id deck_id)

module _ (batch now : Text) where
  -- What a build writes once every card is covered: the flush fails on a copy that is allocated
  -- twice.
  unfoldable pub commit : Store → Deck → Picks → Result (BuildResult × Store)
  commit s deck picks =
      let added =
        map (λ (item : CollectionItem). record { collection_item_id = item.id; deck_id = deck.id })
          picks.chosen in
      let built = record deck { is_built = true; updated_at = now } in
      if all_distinct (item_ids (s.allocations ++ added))
      then ok (
        record {
          allocated = length added;
          conflicts = [];
          batch_id = some batch;
          assumed_basics = picks.assumed_basics;
        },
        record s {
          allocations = s.allocations ++ added;
          decks = write_deck built s.decks;
          log = record_entry (deck_entry batch deck built) (
              record_entry
                (allocation_entry Action.bulk_create batch (codes "built ") deck none
                  (some (allocation_payload deck added)))
                s.log);
        },
      )
      else raise conflict

  -- `build`
  unfoldable pub build : Store → Deck → Result (BuildResult × Store)
  build s deck =
      let rows = physical_rows s deck.id in
      let empty : Picks = record { chosen = []; conflicts = []; assumed_basics = 0 } in
      let picks = pick_all s (allocated_item_ids s) rows (needs_of rows) empty in
      if deck.is_built
      then raise conflict
      else if is_empty picks.conflicts
      then commit s deck picks
      else ok (
        record { allocated = 0; conflicts = picks.conflicts; batch_id = none; assumed_basics = 0 },
        s,
      )

  -- `unbuild`: the number of copies released, and the store.
  unfoldable pub unbuild : Store → Deck → ℕ × Store
  unbuild s deck =
      let held = held_by deck.id s.allocations in
      let theoretical = record deck { is_built = false; updated_at = now } in
      let log =
        if is_empty held
        then s.log
        else record_entry
            (allocation_entry Action.bulk_delete batch (codes "unbuilt ") deck
              (some (allocation_payload deck held)) none)
            s.log in
      (
        length held,
        record s {
          allocations =
              filter (λ (a : DeckAllocation). not (nat_beq a.deck_id deck.id)) s.allocations;
          decks = write_deck theoretical s.decks;
          log = record_entry (deck_entry batch deck theoretical) log;
        },
      )
