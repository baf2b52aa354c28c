-- ===== src/Rating/Examples.antt =====
-- The bracket of a deck with an extra-turn card on the main board and one on the maybe board.
use mtg_vault.Base.{ℕ, ◌≤◌, ◌<◌, ◌≡◌, refl, ◌↔◌, ◌⊎◌, false, none, List, [], ◌∷◌}
use mtg_vault.Base.Text.{Text, codes, same_text}
use mtg_vault.Rules.Cards.{RulesCard, DeckEntry, Board}
use mtg_vault.Rating.Brackets.{Reason, detect_bracket}
use mtg_vault.Rating.Levels.{cards_with, has_category, detect_bracket_levels}

abbrev warp : RulesCard
warp = record {
  oracle_id = codes "w";
  name = codes "Time Warp";
  type_line = codes "Sorcery";
  oracle_text = codes "Target player takes an extra turn after this one.";
  mana_cost = codes "{3}{U}{U}";
  cmc = 500;
  color_identity_mask = 2;
  is_legendary = false;
  is_creature = false;
  is_land = false;
  game_changer = false;
  keywords = [];
  layout = codes "normal";
}

abbrev deck : List DeckEntry
deck =
    record {
      card = warp;
      quantity = 1;
      board = Board.main;
      is_proxy_intent = false;
      categories = [];
    }
    ∷ record {
      card = warp;
      quantity = 1;
      board = Board.maybe;
      is_proxy_intent = false;
      categories = [];
    }
    ∷ []

abbrev tags : RulesCard → List Text
tags card = codes "extra_turn" ∷ []

one_turn_test :
    ((detect_bracket tags deck none).bracket ≡ 3)
    × ((detect_bracket tags deck none).rationale ≡ Reason.one_extra_turn ∷ Reason.unavailable ∷ [])
unfolding detect_bracket same_text
one_turn_test = (refl, refl)

detect_bracket_levels_example :
    let bracket = (detect_bracket tags deck none).bracket in
    let changers = cards_with (λ card. card.game_changer) deck in
    let turns = cards_with (has_category tags (codes "extra_turn")) deck in
    let denial = cards_with (has_category tags (codes "mass_land_denial")) deck in
    let tutors = cards_with (has_category tags (codes "tutor")) deck in
    let pairs : ℕ = 0 in
    (2 ≤ bracket)
    × (bracket ≤ 5)
    × ((bracket ≡ 2) ↔ ((changers ≡ 0) × (turns ≡ 0) × (denial ≡ 0) × (pairs ≡ 0) × (tutors ≤ 2)))
    × ((4 ≤ bracket) ↔ ((3 < changers) ⊎ ((0 < denial) ⊎ ((0 < pairs) ⊎ (1 < turns)))))
    × ((bracket ≡ 5) ↔ ((3 ≤ pairs) × (6 ≤ tutors)))
detect_bracket_levels_example = detect_bracket_levels tags deck none
