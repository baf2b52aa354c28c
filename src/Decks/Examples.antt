-- ===== src/Decks/Examples.antt =====
-- A build and its undoing on a small collection, and each theorem on it.
use mtg_vault.Base.{
  ℕ, ◌+◌, ◌≡◌, refl, ◌≢◌, ◌↔◌, Bool, true, false, none, [], ◌∷◌, Result, ok, raise, length, sum_of,
  All, some, take, drop, filter, contains, not, ◌&&◌, ◌==◌, nat_eq,
}
use mtg_vault.Base.Text.{Text, codes, same_text, text_eq}
use mtg_vault.Rules.Cards.{Board}
use mtg_vault.Audit.Record.{record_entry}
use mtg_vault.Decks.Store.{
  CollectionItem, Deck, DeckCard, Store, is_built_deck, allocated_item_ids, count_available,
}
use mtg_vault.Decks.Picks.{
  BuildResult, physical_rows, needs_of, is_basic_id, free_copies, pick_all, preferred_printing,
  prefers_proxy, oracle_name, blocking_decks, pick_one,
}
use mtg_vault.Decks.Build.{
  all_distinct, write_deck, commit, build, unbuild, held_by, allocation_entry, allocation_payload,
  deck_entry,
}
use mtg_vault.Decks.Cover.{Covered}
use mtg_vault.Decks.Invariant.{IsValid, IsStored}
use mtg_vault.Decks.Missing.{missing_list, missing_from, taken_elsewhere, owned_free, cheapest}
use mtg_vault.Decks.Outcome.{build_outcome, build_balance, build-IsValid}
use mtg_vault.Decks.Distinct.{item_count}
use mtg_vault.Decks.Preference.{Preferred, free_copies-best}
use mtg_vault.Decks.Release.{unbuild-IsValid, unbuild-build, missing_list_iff}

program : Unit {0}
unfolding physical_rows needs_of is_basic_id free_copies pick_all pick_one all_distinct write_deck
    commit build unbuild preferred_printing prefers_proxy oracle_name blocking_decks
    allocation_entry allocation_payload deck_entry record_entry same_text allocated_item_ids
    missing_list missing_from taken_elsewhere owned_free cheapest count_available
program = tt

abbrev copy : ℕ → Text → Bool → CollectionItem
copy id oracle_id is_proxy = record {
  id = id;
  oracle_id = oracle_id;
  set_code = codes "neo";
  collector_number = codes "1";
  is_proxy = is_proxy;
}

abbrev wants : Text → ℕ → DeckCard
wants oracle_id quantity = record {
  deck_id = 7;
  oracle_id = oracle_id;
  board = Board.main;
  quantity = quantity;
  preferred_set_code = none;
  preferred_collector_number = none;
  category = none;
  is_proxy_intent = false;
}

abbrev mine : Deck
mine = record {
  id = 7;
  name = codes "Mine";
  format = codes "commander";
  is_built = false;
  colors_cached = [];
  commander_oracle_id = none;
  partner_oracle_id = none;
  companion_oracle_id = none;
  source = codes "manual";
  goal_text = none;
  archived = false;
  updated_at = [];
}

abbrev other : Deck
other = record mine { id = 8; name = codes "Other"; is_built = true }

abbrev store : Store
store = record {
  items =
      copy 1 (codes "a") true
      ∷ copy 2 (codes "a") false
      ∷ copy 3 (codes "a") false
      ∷ copy 4 (codes "p") false
      ∷ [];
  decks = mine ∷ other ∷ [];
  deck_cards = wants (codes "a") 1 ∷ wants (codes "p") 3 ∷ [];
  allocations = record { collection_item_id = 2; deck_id = 8 } ∷ [];
  oracle_cards =
      record {
        oracle_id = codes "p";
        name = codes "Plains";
        type_line = codes "Basic Land — Plains";
        color_identity = codes "W";
      }
      ∷ [];
  cards = [];
  log = [];
}

abbrev done : Result (BuildResult × Store) → BuildResult × Store
done (ok result) = result
done (raise e) =
    (record { allocated = 0; conflicts = []; batch_id = none; assumed_basics = 0 }, store)

-- The copy that is no proxy and is not in the other deck, and the one Plains; two are assumed.
abbrev built : BuildResult × Store
built = done (build (codes "b1") (codes "t1") store mine)

built_test :
    (built.0.allocated ≡ 2)
    × (built.0.assumed_basics ≡ 2)
    × (held_by 7 built.1.allocations
        ≡ record { collection_item_id = 3; deck_id = 7 }
          ∷ record { collection_item_id = 4; deck_id = 7 }
          ∷ [])
unfolding program
built_test = (refl, refl, refl)

abbrev greedy : Store
greedy = record store { deck_cards = wants (codes "a") 3 ∷ [] }

greedy_test :
    build (codes "b1") (codes "t1") greedy mine
    ≡ ok (
      record {
        allocated = 0;
        conflicts =
            record {
              oracle_id = codes "a";
              name = codes "a";
              needed = 3;
              available = 2;
              blocking_decks = codes "Other" ∷ [];
            }
            ∷ [];
        batch_id = none;
        assumed_basics = 0;
      },
      greedy,
    )
unfolding program
greedy_test = refl

available_test : count_available store (codes "a") false ≡ 1
unfolding program
available_test = refl

missing_test : length (missing_list greedy 7).0 ≡ 1
unfolding program
missing_test = refl

store-IsValid : IsValid store
unfolding program
store-IsValid = record {
  items_distinct = refl;
  allocations_distinct = refl;
  allocations_built = (refl, tt);
}

mine-IsStored : IsStored store mine
unfolding program
mine-IsStored = record { present = refl; agrees = refl }

abbrev returned : build (codes "b1") (codes "t1") store mine ≡ ok built
unfolding program
returned = refl

clear : built.0.conflicts ≡ []
unfolding program
clear = refl

build_outcome_example :
    (r : BuildResult) × (s' : Store) × (build (codes "b1") (codes "t1") store mine ≡ ok (r, s'))
    × ((r.conflicts ≡ []) ↔ Covered store (allocated_item_ids store) (physical_rows store 7))
    × (r.conflicts ≢ [] → (r.allocated ≡ 0) × (s' ≡ store))
build_outcome_example = build_outcome (codes "b1") (codes "t1") store mine store-IsValid refl

build_balance_example :
    built.0.allocated + built.0.assumed_basics
    ≡ sum_of (λ (row : DeckCard). row.quantity) (physical_rows store 7)
unfolding program
build_balance_example =
    build_balance (codes "b1") (codes "t1") store built.1 mine built.0 returned clear

build-IsValid_example : IsValid built.1
unfolding program
build-IsValid_example =
    build-IsValid (codes "b1") (codes "t1") store built.1 mine built.0 store-IsValid mine-IsStored
      returned

unbuild-build_example :
    let (released, s'') = unbuild (codes "b2") (codes "t2") built.1 mine in
    (released ≡ built.0.allocated)
    × (s''.allocations ≡ store.allocations)
    × (s''.items ≡ store.items)
unfolding program
unbuild-build_example =
    unbuild-build (codes "b1") (codes "t1") (codes "b2") (codes "t2") store built.1 mine mine
      built.0 store-IsValid mine-IsStored refl returned clear refl

unbuild-IsValid_example :
    let (released, s') = unbuild (codes "b2") (codes "t2") store other in
    IsValid s'
    × (held_by 8 s'.allocations ≡ [])
    × (released ≡ length (held_by 8 store.allocations))
    × ((deck_id : ℕ)
        → deck_id ≢ 8
        → held_by deck_id s'.allocations ≡ held_by deck_id store.allocations)
unbuild-IsValid_example = unbuild-IsValid (codes "b2") (codes "t2") store other store-IsValid

missing_list_iff_example :
    ((missing_list store 7).0 ≡ [])
    ↔ Covered store (allocated_item_ids store) (physical_rows store 7)
unfolding is_built_deck
missing_list_iff_example = missing_list_iff store 7 refl

free_copies-best_example :
    let copies = free_copies store (2 ∷ []) (some (codes "neo", codes "1")) false (codes "a") in
    All
      (λ x. All (Preferred (some (codes "neo", codes "1")) false x) (drop 1 copies))
      (take 1 copies)
    × ((i : ℕ)
        → item_count i (take 1 copies) + item_count i (drop 1 copies)
          ≡ item_count i (
              filter
                (λ (item : CollectionItem).
                  item.oracle_id == codes "a" && not (contains item.id (2 ∷ [])))
                store.items))
free_copies-best_example =
    free_copies-best (some (codes "neo", codes "1")) false store (2 ∷ []) (codes "a") 1
