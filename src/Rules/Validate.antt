-- ===== src/Rules/Validate.antt =====
-- `validate_deck`, the entry point of the rules engine (backend/app/services/rules/validate.py).
use mtg_vault.Base.{
  not, List, [], ◌∷◌, ◌++◌, if◌then◌else◌, nat_beq, is_empty, filter, sum_of, Result, ok, ◌>>=◌,
}
use mtg_vault.Base.Text.{Text, codes}
use mtg_vault.Base.Dict.{Dict}
use mtg_vault.Rules.Cards.{DeckEntry, Board, same_board}
use mtg_vault.Rules.Formats.{FormatProfile, profile_for}
use mtg_vault.Rules.Report.{Status, Code, Part, RuleError, ValidationResult, ids_of, cards_of}
use mtg_vault.Rules.Checks.{check_size, check_copy_limits, check_legality}
use mtg_vault.Rules.Leaders.{check_commanders, check_companion}

-- `[entry for entry in entries if entry.board == board]`
abbrev pub on_board : Board → List DeckEntry → List DeckEntry
on_board board = filter (λ (e : DeckEntry). same_board e.board board)

-- `[entry for entry in entries if entry.board != board]`
abbrev pub off_board : Board → List DeckEntry → List DeckEntry
off_board board = filter (λ (e : DeckEntry). not (same_board e.board board))

-- The rows that the copy limit and the legality read: a format without a sideboard ignores it.
unfoldable pub counted_of : FormatProfile → List DeckEntry → List DeckEntry
counted_of profile entries =
    if nat_beq profile.sideboard_max 0 then off_board Board.side entries else entries

unfoldable pub proxy_warnings : List DeckEntry → List RuleError
proxy_warnings entries =
    let proxies = sum_of (λ (e : DeckEntry). if e.is_proxy_intent then e.quantity else 0) entries in
    if nat_beq proxies 0
    then []
    else record {
      code = Code.contains_proxies;
      message =
          Part.number proxies
          ∷ Part.literal (codes " proxies -- fine for playtesting, not tournament-legal")
          ∷ [];
      oracle_ids = [];
    }
      ∷ []

-- The commander check, in a format that has commanders; elsewhere a commander is an error.
unfoldable pub leader_check :
    FormatProfile → List DeckEntry → List DeckEntry → List DeckEntry → Result (List RuleError)
leader_check profile main commanders companion_entries =
    if profile.has_commander
    then check_commanders main commanders companion_entries
    else if is_empty commanders
    then ok []
    else ok (
        record {
          code = Code.no_commander_in_format;
          message =
              Part.literal profile.key ∷ Part.literal (codes " decks do not have a commander") ∷ [];
          oracle_ids = ids_of (cards_of commanders);
        }
        ∷ [])

-- The checks on the rows that are not on the maybe board, under the format's profile.
unfoldable pub validate_rows :
    FormatProfile → List DeckEntry → Dict Text Status → Result ValidationResult
unfolding counted_of proxy_warnings leader_check
validate_rows profile entries legality =
    let main = on_board Board.main entries in
    let side = on_board Board.side entries in
    let commanders = on_board Board.commander entries in
    let companion_entries = on_board Board.companion entries in
    let counted = counted_of profile entries in
    let sizes = check_size profile main side commanders companion_entries in
    leader_check profile main commanders companion_entries >>= λ commander_errors.
    check_companion profile main commanders companion_entries >>= λ companion_errors.
    let errors =
      sizes.0
      ++ (check_copy_limits profile counted legality
          ++ (check_legality profile counted legality ++ (commander_errors ++ companion_errors))) in
    ok (record {
      is_legal = is_empty errors;
      errors = errors;
      warnings = sizes.1 ++ proxy_warnings entries;
    })

unfoldable pub validate_deck : List DeckEntry → Text → Dict Text Status → Result ValidationResult
unfolding validate_rows
validate_deck entries format_key legality =
    validate_rows (profile_for format_key) (off_board Board.maybe entries) legality
