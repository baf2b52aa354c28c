-- ===== src/Rules/Checks.antt =====
-- The size, copy-limit and legality checks (backend/app/services/rules/validate.py). A check of the
-- source appends to the caller's lists; here it returns what it appends.
use mtg_vault.Base.{
  ℕ, ◌+◌, min, not, ◌&&◌, Option, none, some, List, [], ◌∷◌, ◌++◌, if◌then◌else◌, ltb, nat_beq,
  is_empty, sum_of, contains, filter_map,
}
use mtg_vault.Base.Text.{Text, codes, text_eq}
use mtg_vault.Base.Dict.{Dict, lookup, insert, get_or, tally_from}
use mtg_vault.Rules.Cards.{RulesCard, DeckEntry, is_basic_land, copy_limit_override}
use mtg_vault.Rules.Formats.{FormatProfile}
use mtg_vault.Rules.Report.{
  Status, is_restricted, is_banned, is_playable, Code, Part, RuleError, ids_of, sorted_names,
}

-- `sum(entry.quantity for entry in entries)`
abbrev pub quantity_of : List DeckEntry → ℕ
quantity_of = sum_of (λ (e : DeckEntry). e.quantity)

-- The sideboard's size: a companion counts in the formats that have a sideboard.
unfoldable pub side_count : FormatProfile → List DeckEntry → List DeckEntry → ℕ
side_count profile side companion_entries =
    if ltb 0 profile.sideboard_max
    then quantity_of side + quantity_of companion_entries
    else quantity_of side

unfoldable pub main_size_errors : FormatProfile → ℕ → ℕ → List RuleError
main_size_errors profile main_count commander_count = elim profile.exact_main [
  | some exact ↦
      let total = main_count + commander_count in
      if nat_beq total exact
      then []
      else record {
        code = Code.deck_size;
        message =
            Part.literal profile.key
            ∷ Part.literal (codes " decks are exactly ")
            ∷ Part.number exact
            ∷ Part.literal (codes " cards including the commander; this one is ")
            ∷ Part.number total
            ∷ [];
        oracle_ids = [];
      }
        ∷ []
  | none ↦
      if ltb main_count profile.min_main
      then record {
        code = Code.deck_size;
        message =
            Part.literal (codes "at least ")
            ∷ Part.number profile.min_main
            ∷ Part.literal (codes " cards required; only ")
            ∷ Part.number main_count
            ∷ [];
        oracle_ids = [];
      }
        ∷ []
      else []
]

-- `_check_size`: its errors, and its warnings.
unfoldable pub check_size :
    FormatProfile
    → List DeckEntry
    → List DeckEntry
    → List DeckEntry
    → List DeckEntry
    → List RuleError × List RuleError
unfolding side_count main_size_errors
check_size profile main side commanders companion_entries =
    let size_errors = main_size_errors profile (quantity_of main) (quantity_of commanders) in
    let count = side_count profile side companion_entries in
    if not (nat_beq count 0) && nat_beq profile.sideboard_max 0
    then (
      size_errors,
      record {
        code = Code.sideboard_ignored;
        message =
            Part.literal profile.key
            ∷ Part.literal (codes " has no sideboard; ")
            ∷ Part.number count
            ∷ Part.literal (codes " cards there are ignored")
            ∷ [];
        oracle_ids = [];
      }
          ∷ [],
    )
    else if ltb profile.sideboard_max count
    then (
      size_errors
          ++ record {
            code = Code.sideboard_size;
            message =
                Part.literal (codes "sideboard limit is ")
                ∷ Part.number profile.sideboard_max
                ∷ Part.literal (codes "; found ")
                ∷ Part.number count
                ∷ [];
            oracle_ids = [];
          }
            ∷ [],
      [],
    )
    else (size_errors, [])

-- `totals[entry.card.oracle_id] += entry.quantity`
unfoldable pub copy_totals : List DeckEntry → Dict Text ℕ
unfolding tally_from
copy_totals = tally_from (λ (e : DeckEntry). e.card.oracle_id) (λ (e : DeckEntry). e.quantity) []

-- `cards[entry.card.oracle_id] = entry.card`
unfoldable pub cards_from : Dict Text RulesCard → List DeckEntry → Dict Text RulesCard
cards_from cards [] = cards
cards_from cards (e ∷ entries) = cards_from (insert e.card.oracle_id e.card cards) entries

-- The limit of a card, and the code of its violation.
unfoldable pub copy_limit_of : FormatProfile → Option Status → RulesCard → ℕ × Code
copy_limit_of profile status card =
    let limit = get_or (copy_limit_override card) profile.copy_limit in
    if is_restricted (get_or status Status.not_legal)
    then (min limit 1, Code.restricted_limit)
    else (limit, Code.copy_limit)

-- `noun`, behind a semicolon.
limit_noun : Code → ℕ → List Part
limit_noun Code.restricted_limit limit =
    Part.literal (codes "; restricted; exactly 1 copy allowed") ∷ []
limit_noun _ limit = Part.literal (codes "; limit is ") ∷ Part.number limit ∷ []

-- The loop's body for one item of `totals`.
unfoldable pub copy_error :
    FormatProfile → Dict Text Status → Dict Text RulesCard → Text × ℕ → Option RuleError
unfolding copy_limit_of limit_noun
copy_error profile legality cards (oracle_id, total) = elim (lookup oracle_id cards) [
  | none ↦ none
  | some card ↦
      let (limit, code) = copy_limit_of profile (lookup oracle_id legality) card in
      if is_basic_land card
      then none
      else if ltb limit total
      then some (record {
        code = code;
        message =
            Part.number total
            ∷ Part.literal (codes " copies of ")
            ∷ Part.literal card.name
            ∷ limit_noun code limit;
        oracle_ids = oracle_id ∷ [];
      })
      else none
]

-- `_check_copy_limits`
unfoldable pub check_copy_limits :
    FormatProfile → List DeckEntry → Dict Text Status → List RuleError
unfolding copy_totals cards_from copy_error
check_copy_limits profile entries legality =
    filter_map (copy_error profile legality (cards_from [] entries)) (copy_totals entries)

-- The loop of `_check_legality`: the banned cards and the ones that are not legal, each oracle
-- card once.
unfoldable pub sort_out :
    Dict Text Status → List Text → List DeckEntry → List RulesCard × List RulesCard
sort_out legality seen [] = ([], [])
sort_out legality seen (e ∷ entries) =
    let id = e.card.oracle_id in
    let skip = contains id seen in
    let (banned, not_legal) = sort_out legality (if skip then seen else id ∷ seen) entries in
    let status = get_or (lookup id legality) Status.not_legal in
    if skip
    then (banned, not_legal)
    else if is_banned status
    then (e.card ∷ banned, not_legal)
    else if not (is_playable status)
    then (banned, e.card ∷ not_legal)
    else (banned, not_legal)

-- An error that lists cards, when there are any.
unfoldable pub cards_error : Code → List Part → List RulesCard → List RuleError
unfolding sorted_names
cards_error code intro cards =
    if is_empty cards
    then []
    else record {
      code = code;
      message = intro ++ sorted_names cards ∷ [];
      oracle_ids = ids_of cards;
    }
      ∷ []

-- `_check_legality`
unfoldable pub check_legality : FormatProfile → List DeckEntry → Dict Text Status → List RuleError
unfolding sort_out cards_error
check_legality profile entries legality =
    let (banned, not_legal) = sort_out legality [] entries in
    let colon = Part.literal (codes ": ") in
    cards_error Code.banned
      (Part.literal (codes "banned in ") ∷ Part.literal profile.key ∷ colon ∷ []) banned
    ++ cards_error Code.not_legal
        (Part.literal (codes "not legal in ") ∷ Part.literal profile.key ∷ colon ∷ []) not_legal
