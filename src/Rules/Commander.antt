-- ===== src/Rules/Commander.antt =====
-- Who may lead a deck, and which pairs may (backend/app/services/rules/commander.py).
use mtg_vault.Base.{
  Bool, not, ◌&&◌, ◌||◌, Option, none, some, List, [], ◌∷◌, if◌then◌else◌, is_empty, contains,
  filter_map, drop,
}
use mtg_vault.Base.Text.{
  Text, codes, text_eq, lower, starts_with, has_part, before_char, strip, split_lines,
}
use mtg_vault.Rules.Mechanism.{Mechanism}
use mtg_vault.Rules.Cards.{RulesCard, can_be_commander, is_background, subtypes}

-- `text in card.oracle_text.lower()`
says : Text → RulesCard → Bool
unfolding has_part lower
says text card = has_part text (lower card.oracle_text)

unfoldable pub has_generic_partner : RulesCard → Bool
unfolding says
has_generic_partner card =
    contains (codes "Partner") card.keywords && not (says (codes "partner with") card)

-- The name that a line gives, if it begins with "Partner with".
partner_line : Text → Option Text
unfolding starts_with lower before_char strip
partner_line line =
    if starts_with (codes "partner with ") (lower line)
    then some (strip (before_char b'(' (drop 13 line)))
    else none

-- `oracle_text[lowered.index("partner with") + len("partner with"):]`, up to a parenthesis and to
-- the end of the line.
partner_mention : Text → List Text
unfolding starts_with lower before_char strip
partner_mention [] = []
partner_mention (c ∷ s) =
    let later = partner_mention s in
    if starts_with (codes "partner with") (lower (c ∷ s))
    then strip (before_char 10 (before_char b'(' (drop 12 (c ∷ s)))) ∷ []
    else later

unfoldable pub partner_with_names : RulesCard → List Text
unfolding says partner_line partner_mention split_lines
partner_with_names card =
    let names = filter_map partner_line (split_lines card.oracle_text) in
    if is_empty names && says (codes "partner with") card
    then partner_mention card.oracle_text
    else names

unfoldable pub friends_forever : RulesCard → Bool
unfolding says
friends_forever card =
    contains (codes "Friends forever") card.keywords || says (codes "friends forever") card

unfoldable pub chooses_background : RulesCard → Bool
unfolding says
chooses_background card =
    contains (codes "Choose a Background") card.keywords || says (codes "choose a background") card

unfoldable pub is_doctor : RulesCard → Bool
unfolding subtypes
is_doctor card =
    let types = subtypes card.type_line in
    contains (codes "Doctor") types
    && contains (codes "Time") types
    && contains (codes "Lord") types

unfoldable pub doctors_companion : RulesCard → Bool
unfolding says
doctors_companion card =
    contains (codes "Doctor's companion") card.keywords || says (codes "doctor's companion") card

unfoldable pub pair_allowed : RulesCard → RulesCard → Option Mechanism
pair_allowed first second =
    if has_generic_partner first && has_generic_partner second
    then some Mechanism.partner
    else if contains second.name (partner_with_names first)
        && contains first.name (partner_with_names second)
    then some Mechanism.partner_with
    else if friends_forever first && friends_forever second
    then some Mechanism.friends_forever
    else if chooses_background first && is_background second
    then some Mechanism.background
    else if is_doctor first && doctors_companion second
    then some Mechanism.doctors_companion
    else if chooses_background second && is_background first
    then some Mechanism.background
    else if is_doctor second && doctors_companion first
    then some Mechanism.doctors_companion
    else none

unfoldable pub commander_slot_valid : RulesCard → Bool
commander_slot_valid card =
    can_be_commander card
    || is_background card
    || doctors_companion card
    || contains (codes "Partner") card.keywords
