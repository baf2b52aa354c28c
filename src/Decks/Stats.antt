-- ===== src/Decks/Stats.antt =====
-- The statistics of a deck (backend/app/services/decks/stats.py). A mana value is counted in
-- hundredths, and the average is the pair of the total mana value and the number of spells. The land
-- recommendation is computed in exact arithmetic, where the source rounds a floating-point number.
use mtg_vault.Base.{
  ℕ, suc, ◌+◌, ◌-◌, ◌*◌, ◌/◌, ◌%◌, min, Bool, false, not, ◌&&◌, ◌||◌, Option, none, some, List, [],
  ◌∷◌, map, nat_eq, nat_beq, ltb, ◌==◌, if◌then◌else◌, length, is_empty, filter, fold_left, all,
  sum_of, contains,
}
use mtg_vault.Base.Text.{Text, codes, text_eq, to_upper, split_from, split_faces}
use mtg_vault.Base.Dict.{Dict, add_to, is_some, lookup}
use mtg_vault.Rules.Cards.{Board, same_board, RulesCard, DeckEntry, card_types, symbols_from}

-- `_CURVE_TOP`
abbrev pub curve_top : ℕ
curve_top = 7

-- `_TYPE_ORDER`
abbrev pub type_order : List Text
type_order =
    codes "Creature"
    ∷ codes "Planeswalker"
    ∷ codes "Instant"
    ∷ codes "Sorcery"
    ∷ codes "Artifact"
    ∷ codes "Enchantment"
    ∷ codes "Battle"
    ∷ codes "Land"
    ∷ []

-- The dict that gives each key a zero.
abbrev pub zeros : List Text → Dict Text ℕ
zeros = map (λ k. (k, 0))

-- The keys of the curve, in the order of the buckets.
abbrev pub curve_names : List Text
curve_names =
    codes "0"
    ∷ codes "1"
    ∷ codes "2"
    ∷ codes "3"
    ∷ codes "4"
    ∷ codes "5"
    ∷ codes "6"
    ∷ codes "7+"
    ∷ []

-- `dict.fromkeys("WUBRGC", 0)`
abbrev pub no_pips : Dict Text ℕ
no_pips = zeros (map (λ c. c ∷ []) (codes "WUBRGC"))

pub record DeckStats : Type 0 where
  pub card_count : ℕ
  pub curve : Dict Text ℕ
  pub x_spells : ℕ
  pub pips : Dict Text ℕ
  pub types : Dict Text ℕ
  pub avg_mv : ℕ × ℕ
  pub lands : ℕ
  pub mdfc_lands : ℕ
  pub recommended_lands : ℕ

abbrev pub is_land_face : Text → Bool
is_land_face face = contains (codes "Land") (card_types face)

unfoldable pub is_pure_land : Text → Bool
unfolding split_faces card_types
is_pure_land type_line = not (is_empty type_line) && all is_land_face (split_faces type_line)

unfoldable pub is_mdfc_land : Text → Bool
unfolding split_faces card_types
is_mdfc_land type_line =
    let faces = split_faces type_line in
    let lands = filter is_land_face faces in
    if ltb (length faces) 2
    then false
    else not (is_empty lands) && ltb (length lands) (length faces)

-- `round(a / b)` for positive `b`: the nearest integer, and the even one of two.
unfoldable pub round_div : ℕ → ℕ → ℕ
round_div a b =
    let q = a / b in
    let twice = 2 * (a % b) in
    if ltb b twice then suc q else if nat_beq twice b && nat_beq (q % 2) 1 then suc q else q

-- `recommend_lands`, for an average given as a total in hundredths and a positive number of cards:
-- `(19.59 + 1.90 * avg_mv) * deck_size / 60 - 0.9 * mdfc_lands` over the denominator `60000 * n`. A
-- negative value is rounded to at most zero, which the source replaces by zero.
unfoldable pub recommend_lands : ℕ → ℕ × ℕ → ℕ → ℕ
unfolding round_div
recommend_lands deck_size (total, n) mdfc_lands =
    let baseline = (19590 * n + 19 * total) * deck_size in
    let recommended = round_div (baseline - 54000 * n * mdfc_lands) (60000 * n) in
    if nat_beq deck_size 0 then 0 else min deck_size recommended

-- The counters of the loop of `compute_stats`.
pub record Tally : Type 0 where
  pub curve : Dict Text ℕ
  pub pips : Dict Text ℕ
  pub types : Dict Text ℕ
  pub x_spells : ℕ
  pub lands : ℕ
  pub mdfc_lands : ℕ
  pub nonland_count : ℕ
  pub nonland_mv : ℕ

abbrev pub empty_tally : Tally
empty_tally = record {
  curve = zeros curve_names;
  pips = no_pips;
  types = zeros type_order;
  x_spells = 0;
  lands = 0;
  mdfc_lands = 0;
  nonland_count = 0;
  nonland_mv = 0;
}

-- The type under which a card counts, the first that matches.
unfoldable pub first_type : Bool → List Text → List Text → Option Text
first_type pure_land types [] = none
first_type pure_land types (name ∷ names) =
    let rest = first_type pure_land types names in
    let land = name == codes "Land" in
    if land && pure_land
    then some name
    else if not land && contains name types
    then some name
    else rest

unfoldable pub count_type : Option Text → ℕ → Dict Text ℕ → Dict Text ℕ
count_type none quantity types = types
count_type (some name) quantity types = add_to name quantity types

-- The bucket that a bucket number names.
abbrev pub bucket_from : ℕ → List Text → Text
bucket_from n [] = []
bucket_from n (name ∷ []) = name
bucket_from n (name ∷ other ∷ names) =
    let rest = bucket_from (n - 1) (other ∷ names) in if nat_beq n 0 then name else rest

-- `str(bucket) if bucket < _CURVE_TOP else f"{_CURVE_TOP}+"`
unfoldable pub bucket_of : RulesCard → Text
bucket_of card = bucket_from (min (card.cmc / 100) curve_top) curve_names

unfoldable pub symbols_of : RulesCard → List Text
unfolding symbols_from
symbols_of card = symbols_from none card.mana_cost

unfoldable pub has_x : RulesCard → Bool
unfolding symbols_of to_upper
has_x card = contains (codes "X") (map (map to_upper) (symbols_of card))

-- `for part in symbol.split("/")`: the parts that are colours count.
unfoldable pub count_parts : ℕ → List Text → Dict Text ℕ → Dict Text ℕ
count_parts quantity [] pips = pips
count_parts quantity (part ∷ parts) pips =
    count_parts quantity parts
      (if is_some (lookup part pips) then add_to part quantity pips else pips)

unfoldable pub count_pips : ℕ → List Text → Dict Text ℕ → Dict Text ℕ
unfolding count_parts split_from
count_pips quantity [] pips = pips
count_pips quantity (symbol ∷ symbols) pips =
    count_pips quantity symbols (count_parts quantity (split_from b'/' [] symbol) pips)

-- The body of the loop.
unfoldable pub count_entry : Tally → DeckEntry → Tally
count_entry tally entry =
    let card = entry.card in
    let quantity = entry.quantity in
    let pure_land = is_pure_land card.type_line in
    let types =
      count_type (first_type pure_land (card_types card.type_line) type_order) quantity
        tally.types in
    if pure_land
    then record tally { types = types; lands = tally.lands + quantity }
    else record tally {
      types = types;
      mdfc_lands = tally.mdfc_lands + (if is_mdfc_land card.type_line then quantity else 0);
      nonland_count = tally.nonland_count + quantity;
      nonland_mv = tally.nonland_mv + card.cmc * quantity;
      curve = add_to (bucket_of card) quantity tally.curve;
      x_spells = tally.x_spells + (if has_x card then quantity else 0);
      pips = count_pips quantity (symbols_of card) tally.pips;
    }

unfoldable pub count_entries : Tally → List DeckEntry → Tally
count_entries = fold_left count_entry

-- `entry.board in ("main", "commander")`
abbrev pub is_on_curve : DeckEntry → Bool
is_on_curve entry = same_board entry.board Board.main || same_board entry.board Board.commander

-- `nonland_mv / nonland_count if nonland_count else 0.0`
abbrev pub average_of : Tally → ℕ × ℕ
average_of tally =
    if nat_beq tally.nonland_count 0 then (0, 1) else (tally.nonland_mv, tally.nonland_count)

-- `compute_stats`
unfoldable pub compute_stats : List DeckEntry → DeckStats
compute_stats entries =
    let counted = filter is_on_curve entries in
    let tally = count_entries empty_tally counted in
    let card_count = sum_of (λ (entry : DeckEntry). entry.quantity) counted in
    record {
      card_count = card_count;
      curve = tally.curve;
      x_spells = tally.x_spells;
      pips = tally.pips;
      types = filter (λ (b : Text × ℕ). ltb 0 (b.1)) tally.types;
      avg_mv = average_of tally;
      lands = tally.lands;
      mdfc_lands = tally.mdfc_lands;
      recommended_lands = recommend_lands card_count (average_of tally) tally.mdfc_lands;
    }
