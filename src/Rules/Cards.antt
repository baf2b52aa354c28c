-- ===== src/Rules/Cards.antt =====
-- Card-level facts the rules read (backend/app/services/rules/cards.py). Texts are lists of code
-- points, sets are lists, and a mana value is counted in hundredths: `cmc 250` is 2.5.
use mtg_vault.Base.{
  ℕ, Bool, true, false, not, ◌&&◌, Option, none, some, List, [], ◌∷◌, ◌++◌, map, nat_eq, nat_beq,
  leb, if◌then◌else◌, length, is_empty, any, contains, to_set, intersect,
}
use mtg_vault.Base.Text.{
  Text, codes, text_eq, lower, starts_with, strip_prefix, has_part, before_char, after_char, words,
  split_faces, join_faces,
}
use mtg_vault.Base.Dict.{Dict, lookup, is_some}

pub record RulesCard : Type 0 where
  pub oracle_id : Text
  pub name : Text
  pub type_line : Text
  pub oracle_text : Text
  pub mana_cost : Text
  pub cmc : ℕ
  pub color_identity_mask : ℕ
  pub is_legendary : Bool
  pub is_creature : Bool
  pub is_land : Bool
  pub game_changer : Bool
  pub keywords : List Text
  pub layout : Text

-- `BOARDS` of models/decks.py: the boards a deck row can sit in.
pub data Board : Type 0 where
  main side commander companion maybe : Board

-- `entry.board == board`
abbrev pub same_board : Board → Board → Bool
same_board Board.main Board.main = true
same_board Board.side Board.side = true
same_board Board.commander Board.commander = true
same_board Board.companion Board.companion = true
same_board Board.maybe Board.maybe = true
same_board _ _ = false

pub record DeckEntry : Type 0 where
  pub card : RulesCard
  pub quantity : ℕ
  pub board : Board
  pub is_proxy_intent : Bool
  pub categories : List Text

abbrev pub permanent_types : List Text
permanent_types =
    codes "Artifact"
    ∷ codes "Battle"
    ∷ codes "Creature"
    ∷ codes "Enchantment"
    ∷ codes "Land"
    ∷ codes "Planeswalker"
    ∷ []

abbrev pub all_card_types : List Text
all_card_types =
    permanent_types
    ++ codes "Instant"
      ∷ codes "Sorcery"
      ∷ codes "Kindred"
      ∷ codes "Tribal"
      ∷ codes "Conspiracy"
      ∷ codes "Scheme"
      ∷ []

abbrev pub activated_keywords : List Text
activated_keywords =
    codes "Cycling"
    ∷ codes "Equip"
    ∷ codes "Crew"
    ∷ codes "Unearth"
    ∷ codes "Embalm"
    ∷ codes "Eternalize"
    ∷ codes "Fortify"
    ∷ codes "Reconfigure"
    ∷ codes "Transmute"
    ∷ codes "Transfigure"
    ∷ codes "Level up"
    ∷ codes "Outlast"
    ∷ codes "Ninjutsu"
    ∷ []

abbrev pub word_numbers : Dict Text ℕ
word_numbers =
    (codes "one", 1)
    ∷ (codes "two", 2)
    ∷ (codes "three", 3)
    ∷ (codes "four", 4)
    ∷ (codes "five", 5)
    ∷ (codes "six", 6)
    ∷ (codes "seven", 7)
    ∷ (codes "eight", 8)
    ∷ (codes "nine", 9)
    ∷ (codes "ten", 10)
    ∷ []

-- `_REMINDER.sub("", text)`, where the flag says that the scan stands inside a match of
-- `\([^)]*\)`. A parenthesis that nothing closes begins no match.
unfoldable pub strip_reminder_from : Bool → Text → Text
unfolding after_char
strip_reminder_from inside [] = []
strip_reminder_from true (c ∷ s) = strip_reminder_from (not (nat_beq c b')')) s
strip_reminder_from false (c ∷ s) =
    let opens = nat_beq c b'(' && is_some (after_char b')' s) in
    let rest = strip_reminder_from opens s in if opens then rest else c ∷ rest

unfoldable pub strip_reminder_text : Text → Text
unfolding strip_reminder_from
strip_reminder_text = strip_reminder_from false

-- The em-dash.
abbrev pub dash : ℕ
dash = 0x2014

unfoldable pub supertypes_and_types : Text → List Text
unfolding before_char split_faces join_faces words
supertypes_and_types type_line = words (join_faces (split_faces (before_char dash type_line)))

unfoldable pub card_types : Text → List Text
unfolding supertypes_and_types
card_types type_line = to_set (intersect (supertypes_and_types type_line) all_card_types)

-- `face.split("—")[1].split()`, and nothing for a face with no dash.
face_subtypes : Text → List Text
unfolding after_char before_char words
face_subtypes face = elim (after_char dash face) [
  | none ↦ []
  | some right ↦ words (before_char dash right)
]

subtypes_of : List Text → List Text
unfolding face_subtypes
subtypes_of [] = []
subtypes_of (face ∷ faces) = face_subtypes face ++ subtypes_of faces

unfoldable pub subtypes : Text → List Text
unfolding split_faces subtypes_of
subtypes type_line = subtypes_of (split_faces type_line)

unfoldable pub is_basic_land : RulesCard → Bool
unfolding supertypes_and_types
is_basic_land card = contains (codes "Basic") (supertypes_and_types card.type_line)

unfoldable pub is_permanent_card : RulesCard → Bool
unfolding card_types
is_permanent_card card = not (is_empty (intersect (card_types card.type_line) permanent_types))

-- The run of letters at the head of a text, in lower case, and what follows it.
span_letters : Text → Text × Text
span_letters [] = ([], [])
span_letters (c ∷ s) =
    let (w, rest) = span_letters s in
    if leb b'a' c && leb c b'z' then (c ∷ w, rest) else ([], c ∷ s)

-- `up to (?P<count>[a-z]+) cards named` at the head of a text in lower case: the group.
up_to_n_here : Text → Option Text
unfolding strip_prefix starts_with span_letters
up_to_n_here s = elim (strip_prefix (codes "up to ") s) [
  | none ↦ none
  | some rest ↦
      let (count, after) = span_letters rest in
      if not (is_empty count) && starts_with (codes " cards named") after then some count else none
]

-- `_UP_TO_N.search`: the group of the first match.
unfoldable pub up_to_n : Text → Option Text
unfolding up_to_n_here
up_to_n [] = none
up_to_n (c ∷ s) =
    let later = up_to_n s in elim (up_to_n_here (c ∷ s)) [ none ↦ later | some count ↦ some count ]

unfoldable pub copy_limit_override : RulesCard → Option ℕ
unfolding strip_reminder_text has_part lower up_to_n
copy_limit_override card =
    let text = lower (strip_reminder_text card.oracle_text) in
    if has_part (codes "any number of cards named") text
    then some 10_000
    else elim (up_to_n text) [ none ↦ none | some count ↦ lookup count word_numbers ]

-- `\{([^}]+)\}`: does the text after an opening brace complete a match?
closes_symbol : Text → Bool
unfolding after_char
closes_symbol [] = false
closes_symbol (c ∷ s) = not (nat_beq c b'}') && is_some (after_char b'}' s)

-- `_MANA_SYMBOL.findall`: the symbols of a face, where `some` holds the symbol that has begun.
unfoldable pub symbols_from : Option Text → Text → List Text
unfolding closes_symbol
symbols_from symbol [] = []
symbols_from none (c ∷ s) =
    symbols_from (if nat_beq c b'{' && closes_symbol s then some [] else none) s
symbols_from (some symbol) (c ∷ s) =
    let ended = symbols_from none s in
    let longer = symbols_from (some (symbol ++ c ∷ [])) s in
    if nat_beq c b'}' then symbol ∷ ended else longer

unfoldable pub mana_cost_symbols : Text → List (List Text)
unfolding split_faces symbols_from
mana_cost_symbols mana_cost = map (symbols_from none) (split_faces mana_cost)

unfoldable pub has_repeated_mana_symbol : RulesCard → Bool
unfolding mana_cost_symbols
has_repeated_mana_symbol card =
    any (λ face. not (nat_beq (length face) (length (to_set face))))
      (mana_cost_symbols card.mana_cost)

unfoldable pub has_activated_ability : RulesCard → Bool
unfolding is_basic_land strip_reminder_text
has_activated_ability card =
    if is_basic_land card
    then true
    else if not (is_empty (intersect card.keywords activated_keywords))
    then true
    else contains b':' (strip_reminder_text card.oracle_text)

unfoldable pub can_be_commander : RulesCard → Bool
unfolding has_part lower
can_be_commander card =
    if card.is_legendary && card.is_creature
    then true
    else has_part (codes "can be your commander") (lower card.oracle_text)

unfoldable pub is_background : RulesCard → Bool
unfolding subtypes
is_background card = contains (codes "Background") (subtypes card.type_line)
