-- ===== src/Decks/StatsExamples.antt =====
-- The statistics of a deck of lands, creatures and a spell with X, and the theorem on them.
use mtg_vault.Base.{◌+◌, ◌≤◌, ◌≡◌, refl, false, List, [], ◌∷◌, filter, sum_of}
use mtg_vault.Base.Text.{Text, codes, text_eq, same_text}
use mtg_vault.Base.Dict.{count_in}
use mtg_vault.Rules.Cards.{Board, RulesCard, DeckEntry, card_types, symbols_from}
use mtg_vault.Decks.Stats.{
  is_pure_land, is_mdfc_land, first_type, count_type, bucket_of, symbols_of, has_x, count_parts,
  count_pips, count_entry, count_entries, is_on_curve, recommend_lands, compute_stats,
}
use mtg_vault.Decks.Curve.{
  values, quantity, land_part, spell_part, is_mdfc, costs_x, falls_in, compute_stats-balance,
}

program : Unit {0}
unfolding same_text card_types symbols_from is_pure_land is_mdfc_land first_type count_type
    bucket_of symbols_of has_x count_parts count_pips count_entry count_entries recommend_lands
    compute_stats
program = tt

abbrev card : Text → Text → RulesCard
card type_line mana_cost = record {
  oracle_id = type_line;
  name = type_line;
  type_line = type_line;
  oracle_text = [];
  mana_cost = mana_cost;
  cmc = 200;
  color_identity_mask = 0;
  is_legendary = false;
  is_creature = false;
  is_land = false;
  game_changer = false;
  keywords = [];
  layout = codes "normal";
}

abbrev entry : Text → Text → Board → DeckEntry
entry type_line mana_cost board = record {
  card = card type_line mana_cost;
  quantity = 20;
  board = board;
  is_proxy_intent = false;
  categories = [];
}

abbrev deck : List DeckEntry
deck =
    entry (codes "Basic Land — Plains") [] Board.main
    ∷ entry (codes "Instant // Land") (codes "{1}{w}") Board.main
    ∷ entry (codes "Creature — Dog") (codes "{x}{W/U}") Board.commander
    ∷ entry (codes "Creature — Cat") (codes "{1}{R}") Board.side
    ∷ []

stats_test :
    ((compute_stats deck).card_count ≡ 60)
    × ((compute_stats deck).lands ≡ 20)
    × ((compute_stats deck).mdfc_lands ≡ 20)
    × ((compute_stats deck).x_spells ≡ 20)
    × (count_in (codes "2") (compute_stats deck).curve ≡ 40)
    × (count_in (codes "U") (compute_stats deck).pips ≡ 20)
    × ((compute_stats deck).types
        ≡ (codes "Creature", 20) ∷ (codes "Instant", 20) ∷ (codes "Land", 20) ∷ [])
    × ((compute_stats deck).recommended_lands ≡ 5)
unfolding program
stats_test = (refl, refl, refl, refl, refl, refl, refl, refl)

compute_stats-balance_example :
    let stats = compute_stats deck in
    let rows = filter is_on_curve deck in
    (stats.card_count ≡ sum_of quantity rows)
    × (values stats.curve + stats.lands ≡ stats.card_count)
    × ((b : Text) → count_in b stats.curve ≡ sum_of (spell_part (falls_in b)) rows)
    × (stats.lands ≡ sum_of land_part rows)
    × (stats.mdfc_lands ≡ sum_of (spell_part is_mdfc) rows)
    × (stats.x_spells ≡ sum_of (spell_part costs_x) rows)
    × (values stats.types ≤ stats.card_count)
    × (stats.recommended_lands ≤ stats.card_count)
compute_stats-balance_example = compute_stats-balance deck
