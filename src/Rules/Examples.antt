-- ===== src/Rules/Examples.antt =====
-- Runs of the rules engine on small decks, and each theorem at one of them.
use mtg_vault.Base.{
  ℕ, ◌≡◌, refl, ◌≢◌, ◌↔◌, ◌⊎◌, true, false, List, [], ◌∷◌, ◌++◌, arith, All, Result, ok, raise,
  value_error,
}
use mtg_vault.Base.Masks.{and_not, mask_or}
use mtg_vault.Base.Text.{Text, codes, text_eq, same_text}
use mtg_vault.Base.Dict.{Dict}
use mtg_vault.Rules.Cards.{
  RulesCard, DeckEntry, Board, supertypes_and_types, card_types, is_basic_land, copy_limit_override,
  can_be_commander, is_background, strip_reminder_text, dash,
}
use mtg_vault.Rules.Commander.{
  has_generic_partner, doctors_companion, commander_slot_valid, pair_allowed,
}
use mtg_vault.Rules.Companions.{types_of, umori, is_companion}
use mtg_vault.Rules.Formats.{FormatProfile, singleton_hundred, profile_for}
use mtg_vault.Rules.Report.{Status, Code, ValidationResult, cards_of}
use mtg_vault.Rules.Checks.{check_size, check_copy_limits, check_legality}
use mtg_vault.Rules.Leaders.{identity_errors, check_commanders, check_companion}
use mtg_vault.Rules.Validate.{off_board, validate_rows, leader_check, validate_deck}
use mtg_vault.Rules.Copies.{CopiesAllowed, check_copy_limits_iff}
use mtg_vault.Rules.Identity.{covers, identity_errors_iff}
use mtg_vault.Rules.Leadership.{LeadersAllowed, leader_check_iff}
use mtg_vault.Rules.Umori.{nonlands, ShareType, umori_outcome}
use mtg_vault.Rules.Verdict.{Passes, LegalDeck, validate_deck_iff}
use mtg_vault.Rules.Reminder.{has_reminder, strip_reminder_text_exact, card_types-ignores_back}
use mtg_vault.Rules.Sideboard.{judgement, validate_rows-ignores_side}

program : Unit {0}
unfolding validate_deck check_size check_copy_limits check_legality check_commanders check_companion
    supertypes_and_types is_basic_land copy_limit_override can_be_commander is_background
    commander_slot_valid pair_allowed has_generic_partner doctors_companion profile_for same_text
    umori card_types types_of strip_reminder_text is_companion and_not mask_or
program = tt

abbrev blank : RulesCard
blank = record {
  oracle_id = [];
  name = [];
  type_line = [];
  oracle_text = [];
  mana_cost = [];
  cmc = 0;
  color_identity_mask = 0;
  is_legendary = false;
  is_creature = false;
  is_land = false;
  game_changer = false;
  keywords = [];
  layout = codes "normal";
}

abbrev plains : RulesCard
plains = record blank {
  oracle_id = codes "p";
  name = codes "Plains";
  type_line = codes "Basic Land — Plains";
  color_identity_mask = 1;
  is_land = true;
}

abbrev isamaru : RulesCard
isamaru = record blank {
  oracle_id = codes "i";
  name = codes "Isamaru";
  type_line = codes "Legendary Creature — Dog";
  cmc = 100;
  color_identity_mask = 1;
  is_legendary = true;
  is_creature = true;
}

abbrev bolt : RulesCard
bolt = record blank {
  oracle_id = codes "b";
  name = codes "Bolt";
  type_line = codes "Instant";
  cmc = 100;
  color_identity_mask = 8;
}

abbrev row : RulesCard → ℕ → Board → DeckEntry
row card quantity board = record {
  card = card;
  quantity = quantity;
  board = board;
  is_proxy_intent = false;
  categories = [];
}

abbrev deck : List DeckEntry
deck = row isamaru 1 Board.commander ∷ row plains 99 Board.main ∷ row bolt 3 Board.maybe ∷ []

abbrev with_bolts : List DeckEntry
with_bolts = row isamaru 1 Board.commander ∷ row plains 97 Board.main ∷ row bolt 2 Board.main ∷ []

abbrev with_side : List DeckEntry
with_side = row isamaru 1 Board.commander ∷ row plains 99 Board.main ∷ row bolt 2 Board.side ∷ []

abbrev all_legal : Dict Text Status
all_legal =
    (codes "p", Status.legal) ∷ (codes "i", Status.legal) ∷ (codes "b", Status.restricted) ∷ []

abbrev codes_of : Result ValidationResult → List Code
codes_of (ok r) = elim r.errors [ [] ↦ [] | e ∷ (es → rest) ↦ e.code ∷ rest ]
codes_of (raise e) = []

deck-Passes : Passes (validate_deck deck (codes "Commander") all_legal)
unfolding program
deck-Passes = refl

with_bolts_errors :
    codes_of (validate_deck with_bolts (codes "commander") all_legal)
    ≡ Code.restricted_limit ∷ Code.color_identity ∷ []
unfolding program
with_bolts_errors = refl

validate_deck_iff_example :
    Passes (validate_deck deck (codes "Commander") all_legal)
    ↔ LegalDeck (profile_for (codes "Commander")) (off_board Board.maybe deck) all_legal
validate_deck_iff_example = validate_deck_iff deck (codes "Commander") all_legal (omega arith)

abbrev commander_profile : FormatProfile
commander_profile = singleton_hundred (codes "commander")

check_copy_limits_iff_example :
    (check_copy_limits commander_profile with_bolts all_legal ≡ [])
    ↔ CopiesAllowed commander_profile with_bolts all_legal
check_copy_limits_iff_example = check_copy_limits_iff commander_profile with_bolts all_legal

identity_errors_iff_example :
    (identity_errors (isamaru ∷ []) with_bolts [] ≡ [])
    ↔ All (λ c. covers (isamaru ∷ []) c ≡ true) (cards_of (with_bolts ++ []))
identity_errors_iff_example =
    identity_errors_iff (isamaru ∷ []) (omega arith) with_bolts [] (omega arith)

leader_check_iff_example :
    (leader_check commander_profile with_bolts deck [] ≡ ok [])
    ↔ LeadersAllowed commander_profile with_bolts deck []
leader_check_iff_example =
    leader_check_iff commander_profile with_bolts deck [] (omega arith) (omega arith)

validate_rows-ignores_side_example :
    judgement (validate_rows commander_profile with_side all_legal)
    ≡ judgement (validate_rows commander_profile (off_board Board.side with_side) all_legal)
validate_rows-ignores_side_example =
    validate_rows-ignores_side commander_profile with_side all_legal refl

-- A deck of one nonland card whose type line names no known card type.
umori_fails : umori (blank ∷ []) ≡ raise value_error
unfolding program
umori_fails = refl

umori_outcome_example :
    ((umori (blank ∷ []) ≡ ok [])
      ↔ ((nonlands (blank ∷ []) ≡ []) ⊎ ShareType (nonlands (blank ∷ []))))
    × ((umori (blank ∷ []) ≡ raise value_error)
        ↔ ((nonlands (blank ∷ []) ≢ []) × (types_of (nonlands (blank ∷ [])) ≡ [])))
umori_outcome_example = umori_outcome (blank ∷ [])

abbrev reminder_text : Text
reminder_text = codes "Flying (It flies.) Haste (x"

strip_reminder_text_test : strip_reminder_text reminder_text ≡ codes "Flying  Haste (x"
unfolding program
strip_reminder_text_test = refl

-- Two reminders, with rules text between them.
strip_reminder_text_exact_example :
    let rest = codes ": draw a card. (Then discard.)" in
    (strip_reminder_text (codes "Tap " ++ (b'(' ∷ (codes "turn it" ++ b')' ∷ rest)))
      ≡ codes "Tap " ++ strip_reminder_text rest)
    × (strip_reminder_text (codes "Flying") ≡ codes "Flying")
    × (has_reminder (strip_reminder_text reminder_text) ≡ false)
unfolding has_reminder
strip_reminder_text_exact_example =
    strip_reminder_text_exact (codes "Tap ") (codes "turn it")
      (codes ": draw a card. (Then discard.)") (codes "Flying") reminder_text refl refl refl

-- The back face's land type is lost behind the front face's subtypes.
card_types-ignores_back_example :
    card_types (codes "Creature " ++ dash ∷ codes " Elf // Land") ≡ card_types (codes "Creature ")
card_types-ignores_back_example = card_types-ignores_back (codes "Creature ") (codes " Elf // Land")
