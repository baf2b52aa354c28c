-- ===== src/Rules/Leaders.antt =====
-- The commander and companion checks (backend/app/services/rules/validate.py). As in Rules/Checks,
-- each returns the errors that it appends, or raises.
use mtg_vault.Base.{
  ℕ, ◌+◌, Bool, not, ◌&&◌, ◌||◌, none, some, List, [], ◌∷◌, ◌++◌, if◌then◌else◌, ltb, nat_beq,
  is_empty, length, filter, replicate, Result, ok, raise, index_error, ◌>>=◌, ◌==◌,
}
use mtg_vault.Base.Text.{Text, codes, text_eq}
use mtg_vault.Base.Masks.{and_not, mask_or}
use mtg_vault.Base.Dict.{lookup, is_some}
use mtg_vault.Rules.Cards.{RulesCard, DeckEntry, can_be_commander, is_basic_land}
use mtg_vault.Rules.Commander.{commander_slot_valid, pair_allowed}
use mtg_vault.Rules.Companions.{companion_checks, is_companion, yorion, lutri}
use mtg_vault.Rules.Formats.{FormatProfile}
use mtg_vault.Rules.Report.{Code, Part, RuleError, ids_of, cards_of, sorted_names}
use mtg_vault.Rules.Checks.{quantity_of, cards_error}

-- `[entry.card for entry in commanders for _ in range(entry.quantity)]`
unfoldable pub leaders_of : List DeckEntry → List RulesCard
leaders_of [] = []
leaders_of (e ∷ entries) = replicate e.quantity e.card ++ leaders_of entries

-- `identity |= card.color_identity_mask`, over the leaders.
unfoldable pub identity_from : ℕ → List RulesCard → ℕ
identity_from identity [] = identity
identity_from identity (c ∷ cards) = identity_from (mask_or identity c.color_identity_mask) cards

-- `card.color_identity_mask & ~identity`
unfoldable pub is_outside : ℕ → RulesCard → Bool
is_outside identity card = not (nat_beq (and_not card.color_identity_mask identity) 0)

-- The cards outside the leaders' colour identity.
unfoldable pub identity_errors : List RulesCard → List DeckEntry → List DeckEntry → List RuleError
unfolding identity_from is_outside cards_error
identity_errors leaders main companion_entries =
    cards_error Code.color_identity
      (Part.literal (codes "outside the commander's colour identity: ") ∷ [])
      (filter (is_outside (identity_from 0 leaders)) (cards_of (main ++ companion_entries)))

-- A single leader must be a commander by itself, and two must be an allowed pair. Without a
-- leader, `leaders[0]` is an `IndexError`.
unfoldable pub pair_errors : List RulesCard → Result (List RuleError)
pair_errors [] = raise index_error
pair_errors (first ∷ []) = ok (
    if can_be_commander first
    then []
    else record {
      code = Code.invalid_commander;
      message =
          Part.literal first.name
          ∷ Part.literal (codes " can only accompany another commander")
          ∷ [];
      oracle_ids = first.oracle_id ∷ [];
    }
      ∷ [])
pair_errors (first ∷ second ∷ rest) = ok (
    if is_some (pair_allowed first second)
    then []
    else record {
      code = Code.invalid_partner;
      message =
          Part.literal first.name
          ∷ Part.literal (codes " and ")
          ∷ Part.literal second.name
          ∷ Part.literal (codes " cannot lead a deck together")
          ∷ [];
      oracle_ids = ids_of (first ∷ second ∷ rest);
    }
      ∷ [])

-- What the leaders themselves break: too many, one that may not lead, or a pair that may not.
unfoldable pub leader_errors : List RulesCard → Result (List RuleError)
unfolding sorted_names pair_errors
leader_errors leaders =
    if ltb 2 (length leaders)
    then ok (
        record {
          code = Code.too_many_commanders;
          message =
              Part.literal (codes "at most two commanders; found ")
              ∷ Part.number (length leaders)
              ∷ [];
          oracle_ids = ids_of leaders;
        }
        ∷ [])
    else let invalid = filter (λ c. not (commander_slot_valid c)) leaders in
      if is_empty invalid
      then pair_errors leaders
      else ok (
          record {
            code = Code.invalid_commander;
            message = sorted_names invalid ∷ Part.literal (codes " cannot be a commander") ∷ [];
            oracle_ids = ids_of invalid;
          }
          ∷ [])

-- `_check_commanders`: what the leaders break ends the check.
unfoldable pub check_commanders :
    List DeckEntry → List DeckEntry → List DeckEntry → Result (List RuleError)
unfolding leaders_of leader_errors identity_errors
check_commanders main commanders companion_entries =
    if is_empty commanders
    then ok (
        record {
          code = Code.no_commander;
          message = Part.literal (codes "the deck has no commander") ∷ [];
          oracle_ids = [];
        }
        ∷ [])
    else leader_errors (leaders_of commanders) >>= λ broken. ok (
        if is_empty broken
        then identity_errors (leaders_of commanders) main companion_entries
        else broken)

abbrev restriction : RulesCard → List Part → List Text → RuleError
restriction companion rest ids = record {
  code = Code.companion_restriction;
  message = Part.literal companion.name ∷ rest;
  oracle_ids = ids;
}

-- `profile.exact_main or profile.min_main`, where 0 counts as absent.
starting_size : FormatProfile → ℕ
starting_size profile = elim profile.exact_main [
  | none ↦ profile.min_main
  | some exact ↦ if nat_beq exact 0 then profile.min_main else exact
]

-- Yorion: twenty cards more than the format's minimum.
unfoldable pub yorion_errors :
    FormatProfile → RulesCard → List DeckEntry → List DeckEntry → List RuleError
unfolding starting_size
yorion_errors profile companion main commanders =
    let minimum = starting_size profile + 20 in
    let total = quantity_of main + quantity_of commanders in
    if ltb total minimum
    then restriction companion
        (Part.literal (codes " needs a starting deck of at least ")
          ∷ Part.number minimum
          ∷ Part.literal (codes " cards; found ")
          ∷ Part.number total
          ∷ [])
        (companion.oracle_id ∷ [])
      ∷ []
    else []

-- Lutri: no main row of a nonland card with more than one copy.
unfoldable pub lutri_errors : RulesCard → List DeckEntry → List RuleError
lutri_errors companion main =
    let duplicated = cards_of (
      filter
        (λ (e : DeckEntry). not e.card.is_land && not (is_basic_land e.card) && ltb 1 e.quantity)
        main) in
    if is_empty duplicated
    then []
    else restriction companion (Part.literal (codes " requires singleton nonland cards") ∷ [])
        (ids_of duplicated)
      ∷ []

-- The restriction of one companion on the starting deck.
unfoldable pub restriction_errors :
    FormatProfile → RulesCard → List DeckEntry → List DeckEntry → Result (List RuleError)
unfolding yorion_errors lutri_errors sorted_names
restriction_errors profile companion main commanders =
    if companion.name == yorion
    then ok (yorion_errors profile companion main commanders)
    else if companion.name == lutri
    then ok (lutri_errors companion main)
    else elim (lookup companion.name companion_checks) [
      | none ↦ ok []
      | some check ↦ check (cards_of main ++ cards_of commanders) >>= λ offenders. ok (
          if is_empty offenders
          then []
          else restriction companion
              (Part.literal (codes "'s restriction fails: ") ∷ sorted_names offenders ∷ [])
              (ids_of offenders)
            ∷ [])
    ]

-- `_check_companion`
unfoldable pub check_companion :
    FormatProfile → List DeckEntry → List DeckEntry → List DeckEntry → Result (List RuleError)
unfolding restriction_errors
check_companion profile main commanders [] = ok []
check_companion profile main commanders (first ∷ others) =
    if not (is_empty others) || ltb 1 first.quantity
    then ok (
        record {
          code = Code.companion_count;
          message = Part.literal (codes "only one companion is allowed") ∷ [];
          oracle_ids = ids_of (cards_of (first ∷ others));
        }
        ∷ [])
    else if is_companion first.card
    then restriction_errors profile first.card main commanders
    else ok (
        record {
          code = Code.not_a_companion;
          message = Part.literal first.card.name ∷ Part.literal (codes " is not a companion") ∷ [];
          oracle_ids = first.card.oracle_id ∷ [];
        }
        ∷ [])
