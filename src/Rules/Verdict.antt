-- ===== src/Rules/Verdict.antt =====
-- The verdict of `validate_deck` (backend/app/services/rules/validate.py) and a description of a
-- legal deck.
use mtg_vault.Base.{
  ◌≤◌, ◌≡◌, refl, ◌↔◌, true, not, List, [], ◌∷◌, ◌++◌, arith, is_empty, Result, ok, raise, ◌>>=◌,
  All-filter, All-append,
}
use mtg_vault.Base.Text.{Text}
use mtg_vault.Base.Dict.{Dict}
use mtg_vault.Rules.Cards.{DeckEntry, Board, same_board}
use mtg_vault.Rules.Companions.{is_companion}
use mtg_vault.Rules.Formats.{FormatProfile, profile_for}
use mtg_vault.Rules.Report.{Status, RuleError, ValidationResult}
use mtg_vault.Rules.Checks.{quantity_of, check_size, check_copy_limits, check_legality}
use mtg_vault.Rules.Leaders.{restriction_errors, check_companion}
use mtg_vault.Rules.Copies.{CopiesAllowed, check_copy_limits_iff}
use mtg_vault.Rules.Legality.{AllPlayable, check_legality_iff}
use mtg_vault.Rules.Shape.{MainSizeAllowed, SideSizeAllowed, check_size_iff}
use mtg_vault.Rules.Leadership.{LeadersAllowed, MaskedEntries, leader_check_iff}
use mtg_vault.Rules.Validate.{
  on_board, off_board, counted_of, proxy_warnings, leader_check, validate_rows, validate_deck,
}

-- At most one companion, which is one and whose restriction finds no offender.
abbrev pub CompanionAllowed :
    FormatProfile → List DeckEntry → List DeckEntry → List DeckEntry → Type 0
CompanionAllowed profile main commanders [] = Unit
CompanionAllowed profile main commanders (first ∷ []) =
    (first.quantity ≤ 1)
    × (is_companion first.card ≡ true)
    × (restriction_errors profile first.card main commanders ≡ ok [])
CompanionAllowed profile main commanders (first ∷ second ∷ rest) = ⊥

check_companion-nil→ :
    (profile : FormatProfile) (main commanders companions : List DeckEntry)
    → check_companion profile main commanders companions ≡ ok []
    → CompanionAllowed profile main commanders companions
unfolding check_companion
check_companion-nil→ profile main commanders [] h = tt
check_companion-nil→ profile main commanders (first ∷ []) h = ground arith
check_companion-nil→ profile main commanders (first ∷ second ∷ rest) h = ground arith

check_companion-nil← :
    (profile : FormatProfile) (main commanders companions : List DeckEntry)
    → CompanionAllowed profile main commanders companions
    → check_companion profile main commanders companions ≡ ok []
unfolding check_companion
check_companion-nil← profile main commanders [] h = refl
check_companion-nil← profile main commanders (first ∷ []) h = ground arith
check_companion-nil← profile main commanders (first ∷ second ∷ rest) h = absurd h

-- A deck that the rules of the format allow, board by board.
pub record LegalDeck (profile : FormatProfile) (entries : List DeckEntry)
    (legality : Dict Text Status) : Type 0 where
  pub main_size :
      MainSizeAllowed profile
        (quantity_of (on_board Board.main entries))
        (quantity_of (on_board Board.commander entries))
  pub side_size :
      SideSizeAllowed profile
        (quantity_of (on_board Board.side entries))
        (quantity_of (on_board Board.companion entries))
  pub copies : CopiesAllowed profile (counted_of profile entries) legality
  pub playable : AllPlayable legality (counted_of profile entries)
  pub leaders :
      LeadersAllowed profile
        (on_board Board.main entries)
        (on_board Board.commander entries)
        (on_board Board.companion entries)
  pub companion :
      CompanionAllowed profile
        (on_board Board.main entries)
        (on_board Board.commander entries)
        (on_board Board.companion entries)

-- The validation ends with the verdict that the deck is legal.
abbrev pub Passes : Result ValidationResult → Type 0
Passes (ok r) = r.is_legal ≡ true
Passes (raise e) = ⊥

-- Five lists of errors, the last two from checks that may fail, make no error together exactly
-- when none makes one.
joined_errors :
    (a b c warnings : List RuleError) (d e : Result (List RuleError))
    → Passes (
        d >>= λ x. e >>= λ y.
        let errors = a ++ (b ++ (c ++ (x ++ y))) in
        ok (record { is_legal = is_empty errors; errors = errors; warnings = warnings }))
      ↔ ((a ≡ []) × (b ≡ []) × (c ≡ []) × (d ≡ ok []) × (e ≡ ok []))
joined_errors [] [] [] w (ok []) (ok []) = (λ h. ground arith, λ h. ground arith)
joined_errors [] [] [] w (ok []) (ok (y ∷ ys)) = (λ h. ground arith, λ h. ground arith)
joined_errors [] [] [] w (ok []) (raise y) = (λ h. ground arith, λ h. ground arith)
joined_errors [] [] [] w (ok (x ∷ xs)) (ok y) = (λ h. ground arith, λ h. ground arith)
joined_errors [] [] [] w (ok (x ∷ xs)) (raise y) = (λ h. ground arith, λ h. ground arith)
joined_errors [] [] (z ∷ zs) w (ok x) (ok y) = (λ h. ground arith, λ h. ground arith)
joined_errors [] (z ∷ zs) c w (ok x) (ok y) = (λ h. ground arith, λ h. ground arith)
joined_errors (z ∷ zs) b c w (ok x) (ok y) = (λ h. ground arith, λ h. ground arith)
joined_errors a b c w (raise x) e = (λ h. ground arith, λ h. ground arith)
joined_errors a b c w (ok x) (raise y) = (λ h. ground arith, λ h. ground arith)

-- With colour identities that are masks of the five colours, the validation calls the rows legal
-- exactly when they are a legal deck of the format; it does not fail on one.
pub validate_rows_iff :
    (profile : FormatProfile) (entries : List DeckEntry) (legality : Dict Text Status)
    → MaskedEntries entries
    → Passes (validate_rows profile entries legality) ↔ LegalDeck profile entries legality
unfolding validate_rows
validate_rows_iff profile entries legality masks =
    let main = on_board Board.main entries in
    let side = on_board Board.side entries in
    let commanders = on_board Board.commander entries in
    let companions = on_board Board.companion entries in
    let counted = counted_of profile entries in
    let parts =
      joined_errors (check_size profile main side commanders companions).0
        (check_copy_limits profile counted legality) (check_legality profile counted legality)
        ((check_size profile main side commanders companions).1 ++ proxy_warnings entries)
        (leader_check profile main commanders companions)
        (check_companion profile main commanders companions) in
    let sizes = check_size_iff profile main side commanders companions in
    let limits = check_copy_limits_iff profile counted legality in
    let statuses = check_legality_iff legality profile counted in
    let board_masks = λ (b : Board). All-filter _ (λ e. same_board e.board b) entries masks in
    let leads =
      leader_check_iff profile main commanders companions (board_masks Board.commander)
        (All-append _ main companions (board_masks Board.main) (board_masks Board.companion)) in
    (
      λ h.
          let (a, b, c, d, e) = parts.0 h in
          record {
            main_size = (sizes.0 a).0;
            side_size = (sizes.0 a).1;
            copies = limits.0 b;
            playable = statuses.0 c;
            leaders = leads.0 d;
            companion = check_companion-nil→ profile main commanders companions e;
          },
      λ h. parts.1 (
        sizes.1 (h.main_size, h.side_size),
        limits.1 h.copies,
        statuses.1 h.playable,
        leads.1 h.leaders,
        check_companion-nil← profile main commanders companions h.companion,
      ),
    )

-- With colour identities that are masks of the five colours, `validate_deck` ends with the verdict
-- that the deck is legal exactly when its rows that are not on the maybe board are a legal deck of
-- the format.
pub validate_deck_iff :
    (entries : List DeckEntry) (format_key : Text) (legality : Dict Text Status)
    → MaskedEntries entries
    → Passes (validate_deck entries format_key legality)
      ↔ LegalDeck (profile_for format_key) (off_board Board.maybe entries) legality
unfolding validate_deck
validate_deck_iff entries format_key legality masks =
    validate_rows_iff (profile_for format_key) (off_board Board.maybe entries) legality
      (All-filter _ (λ e. not (same_board e.board Board.maybe)) entries masks)
