-- ===== src/Rating/Levels.antt =====
-- The brackets of a deck by its signals (backend/app/services/rating/brackets.py).
use mtg_vault.Base.{
  ℕ, max, ◌≤◌, ◌<◌, ◌≡◌, refl, ◌↔◌, ◌⊎◌, ◌&&◌, Option, List, [], ◌∷◌, arith, if◌then◌else◌, ltb,
  leb, nat_beq, is_empty, length, Bool, true, false, sum_of, ◌+◌, map, filter, contains, Bool-cases,
  inl, inr, ◌∙◌,
}
use mtg_vault.Base.Text.{Text, codes, text_eq}
use mtg_vault.Base.Sorting.{text_leb, length-sort}
use mtg_vault.Base.Dict.{get_or}
use mtg_vault.Rules.Cards.{RulesCard, DeckEntry, Board, same_board}
use mtg_vault.Rating.Brackets.{
  Signals, names_with, signals_of, is_counted, base_bracket, is_tournament, bracket_of,
  detect_bracket,
}

empty_length : (xs : List Text) → is_empty xs ≡ nat_beq (length xs) 0
empty_length [] = ground arith
empty_length (x ∷ xs) = ground arith

-- The brackets by the counts alone: the base bracket, and the last test.
base_level : ℕ → ℕ → ℕ → ℕ → ℕ → ℕ
base_level g e m c t =
    let by_changers = if ltb 3 g then 4 else 3 in
    let by_denial = if nat_beq m 0 then by_changers else 4 in
    let by_combos = if nat_beq c 0 then by_denial else max by_denial 4 in
    let by_turns = if ltb 1 e then max by_combos 4 else by_combos in
    if nat_beq g 0 && nat_beq e 0 && nat_beq m 0 && nat_beq c 0 && leb t 2 then 2 else by_turns

level : ℕ → ℕ → ℕ → ℕ → ℕ → ℕ
unfolding base_level
level g e m c t =
    if nat_beq (base_level g e m c t) 4 && leb 3 c && leb 6 t then 5 else base_level g e m c t

base_bracket-counts :
    (s : Signals)
    → base_bracket s
      ≡ base_level
          (length s.game_changers)
          (length s.extra_turns)
          (length s.mass_land_denial)
          (length s.two_card_combos)
          (length s.tutors)
unfolding base_bracket base_level
base_bracket-counts s =
    rw
      (
        empty_length s.game_changers,
        empty_length s.extra_turns,
        empty_length s.mass_land_denial,
        empty_length s.two_card_combos,
      )
      refl

bracket_of-counts :
    (s : Signals)
    → bracket_of s
      ≡ level
          (length s.game_changers)
          (length s.extra_turns)
          (length s.mass_land_denial)
          (length s.two_card_combos)
          (length s.tutors)
unfolding bracket_of is_tournament level
bracket_of-counts s = rw (base_bracket-counts s) refl

base_low :
    (g e m c t : ℕ)
    → (2 ≤ base_level g e m c t)
      × (base_level g e m c t ≤ 4)
      × ((base_level g e m c t ≡ 2) ↔ ((g ≡ 0) × (e ≡ 0) × (m ≡ 0) × (c ≡ 0) × (t ≤ 2)))
      × ((base_level g e m c t ≡ 4) ↔ ((3 < g) ⊎ ((0 < m) ⊎ ((0 < c) ⊎ (1 < e)))))
unfolding base_level
base_low g e m c t = ground arith

level_facts :
    (g e m c t : ℕ)
    → (2 ≤ level g e m c t)
      × (level g e m c t ≤ 5)
      × ((level g e m c t ≡ 2) ↔ ((g ≡ 0) × (e ≡ 0) × (m ≡ 0) × (c ≡ 0) × (t ≤ 2)))
      × ((4 ≤ level g e m c t) ↔ ((3 < g) ⊎ ((0 < m) ⊎ ((0 < c) ⊎ (1 < e)))))
      × ((level g e m c t ≡ 5) ↔ ((3 ≤ c) × (6 ≤ t)))
unfolding level
level_facts g e m c t = ground (arith, base_low g e m c t)

-- How many rows of a board hold a card that passes a test, and how many rows of the main board and
-- the commanders do.
abbrev pub rows_on : Board → (RulesCard → Bool) → List DeckEntry → ℕ
rows_on board p = sum_of (λ (e : DeckEntry). if same_board e.board board && p e.card then 1 else 0)

abbrev pub cards_with : (RulesCard → Bool) → List DeckEntry → ℕ
cards_with p entries = rows_on Board.main p entries + rows_on Board.commander p entries

-- The category is among those of the card.
abbrev pub has_category : (RulesCard → List Text) → Text → RulesCard → Bool
has_category classify category card = contains category (classify card)

counted_board :
    (b : Board) (q : Bool)
    → (if is_counted b && q then 1 else 0)
      ≡ (if same_board b Board.main && q then 1 else 0)
        + (if same_board b Board.commander && q then 1 else 0)
counted_board Board.main true = omega arith
counted_board Board.main false = omega arith
counted_board Board.commander true = omega arith
counted_board Board.commander false = omega arith
counted_board Board.side q = omega arith
counted_board Board.companion q = omega arith
counted_board Board.maybe q = omega arith

counted_rows :
    (p : RulesCard → Bool) (entries : List DeckEntry)
    → length (
        map
          (λ (e : DeckEntry). e.card.name)
          (filter (λ (e : DeckEntry). is_counted e.board && p e.card) entries))
      ≡ cards_with p entries
counted_rows p [] = omega arith
counted_rows p (e ∷ entries) =
    let here = counted_board e.board (p e.card) in
    elim (Bool-cases (is_counted e.board && p e.card)) [
      | inl kept ↦ let one = rw kept at here in rw kept (omega (arith, one, counted_rows p entries))
      | inr gone ↦
          let nothing = rw gone at here in rw gone (omega (arith, nothing, counted_rows p entries))
    ]

length-names_with :
    (classify : RulesCard → List Text) (p : RulesCard → Bool) (entries : List DeckEntry)
    → length (names_with classify p entries) ≡ cards_with p entries
unfolding names_with
length-names_with classify p entries = length-sort text_leb _ ∙ counted_rows p entries

-- The bracket that is detected is from 2 to 5. Counting the rows of the main board and of the
-- commanders by their cards: it is 2 exactly when the deck has no Game Changer, no extra turn, no
-- mass land denial, no two-card combo and at most two tutors; it is at least 4 exactly when the deck
-- has more than three Game Changers, mass land denial, a two-card combo or more than one extra turn;
-- and it is 5 exactly when it has three combos and six tutors or more.
pub detect_bracket_levels :
    (classify : RulesCard → List Text) (entries : List DeckEntry) (combos : Option (List Text))
    → let bracket = (detect_bracket classify entries combos).bracket in
      let changers = cards_with (λ card. card.game_changer) entries in
      let turns = cards_with (has_category classify (codes "extra_turn")) entries in
      let denial = cards_with (has_category classify (codes "mass_land_denial")) entries in
      let tutors = cards_with (has_category classify (codes "tutor")) entries in
      let pairs = length (get_or combos []) in
      (2 ≤ bracket)
      × (bracket ≤ 5)
      × ((bracket ≡ 2) ↔ ((changers ≡ 0) × (turns ≡ 0) × (denial ≡ 0) × (pairs ≡ 0) × (tutors ≤ 2)))
      × ((4 ≤ bracket) ↔ ((3 < changers) ⊎ ((0 < denial) ⊎ ((0 < pairs) ⊎ (1 < turns)))))
      × ((bracket ≡ 5) ↔ ((3 ≤ pairs) × (6 ≤ tutors)))
unfolding detect_bracket signals_of
detect_bracket_levels classify entries combos =
    let changers = length-names_with classify (λ card. card.game_changer) entries in
    let turns = length-names_with classify (has_category classify (codes "extra_turn")) entries in
    let denial =
      length-names_with classify (has_category classify (codes "mass_land_denial")) entries in
    let tutors = length-names_with classify (has_category classify (codes "tutor")) entries in
    rw
      (
        bracket_of-counts (signals_of classify entries (get_or combos [])),
        changers,
        turns,
        denial,
        tutors,
      )
      (level_facts _ _ _ _ _)
