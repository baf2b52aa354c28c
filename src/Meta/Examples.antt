-- ===== src/Meta/Examples.antt =====
-- A template of three cards against a vault with one copy free and one in a built deck, and the
-- theorem on it.
use mtg_vault.Base.{◌≤◌, ◌≡◌, refl, ◌↔◌, ℕ, true, false, none, some, List, [], ◌∷◌, length, All}
use mtg_vault.Base.Text.{Text, codes, same_text}
use mtg_vault.Base.Sorting.{text_leb, sort}
use mtg_vault.Decks.Store.{
  CollectionItem, Store, is_built_deck, allocated_item_ids, available_items, count_available,
}
use mtg_vault.Decks.Picks.{oracle_name}
use mtg_vault.Decks.Missing.{owned_free, cheapest}
use mtg_vault.Meta.Coverage.{
  Tier, TemplateCard, held, have_of, template_rows, cover_row, cover_rows, rank_of,
  compute_coverage,
}
use mtg_vault.Meta.Fielded.{usable, compute_coverage_complete}

program : Unit {0}
unfolding same_text text_leb sort is_built_deck allocated_item_ids available_items count_available
    oracle_name owned_free cheapest held have_of cover_row cover_rows rank_of compute_coverage
program = tt

abbrev copy : ℕ → Text → CollectionItem
copy id oracle_id = record {
  id = id;
  oracle_id = oracle_id;
  set_code = codes "neo";
  collector_number = codes "1";
  is_proxy = false;
}

-- Copy 2 is in deck 7, which is built.
abbrev vault : Store
vault = record {
  items = copy 1 (codes "a") ∷ copy 2 (codes "b") ∷ [];
  decks =
      record {
        id = 7;
        name = codes "Mine";
        format = codes "modern";
        is_built = true;
        colors_cached = [];
        commander_oracle_id = none;
        partner_oracle_id = none;
        companion_oracle_id = none;
        source = codes "manual";
        goal_text = none;
        archived = false;
        updated_at = [];
      }
      ∷ [];
  deck_cards = [];
  allocations = record { collection_item_id = 2; deck_id = 7 } ∷ [];
  oracle_cards = [];
  cards = record { oracle_id = codes "b"; digital = false; price_usd_cents = some 150 } ∷ [];
  log = [];
}

abbrev needs : Text → Tier → TemplateCard
needs oracle_id tier = record {
  template_id = 3;
  oracle_id = oracle_id;
  tier = tier;
  typical_count = 2;
}

abbrev template : List TemplateCard
template =
    needs (codes "a") Tier.core
    ∷ needs (codes "b") Tier.core
    ∷ needs (codes "c") Tier.flex
    ∷ record (needs (codes "d") Tier.core) { template_id = 4 }
    ∷ []

coverage_test :
    let strict = (compute_coverage vault [] 3 template true 500 false).0 in
    let loose = (compute_coverage vault [] 3 template false 500 true).0 in
    (strict.weighted_coverage ≡ (3, 7))
    × (strict.core_coverage ≡ (1, 2))
    × (strict.missing_count ≡ 2)
    × (strict.missing_cost_cents ≡ 300)
    × (strict.conflict_count ≡ 1)
    × (loose.weighted_coverage ≡ (6, 7))
    × (loose.core_coverage ≡ (2, 2))
    × (length ((compute_coverage vault [] 3 template false 500 true).1) ≡ 1)
unfolding program
coverage_test = (refl, refl, refl, refl, refl, refl, refl, refl)

compute_coverage_complete_example :
    let detail = (compute_coverage vault [] 3 template true 500 false).0 in
    ((detail.missing_count ≡ 0)
      ↔ All
          (λ (row : TemplateCard). 1 ≤ usable vault true row.oracle_id)
          (template_rows 3 template))
    × (length detail.missing ≡ detail.missing_count)
    × (detail.weighted_coverage.0 ≤ detail.weighted_coverage.1)
    × (detail.core_coverage.0 ≤ detail.core_coverage.1)
compute_coverage_complete_example = compute_coverage_complete vault [] 3 template true 500 false
