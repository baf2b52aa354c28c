-- ===== src/Rules/Sideboard.antt =====
-- The side board in a format without a sideboard (backend/app/services/rules/validate.py).
use mtg_vault.Base.{
  ◌≡◌, refl, Bool, true, false, List, [], ◌∷◌, ◌++◌, arith, nat_beq, is_empty, Result, ok, raise,
  ◌>>=◌,
}
use mtg_vault.Base.Text.{Text}
use mtg_vault.Base.Dict.{Dict}
use mtg_vault.Rules.Cards.{DeckEntry, Board, same_board}
use mtg_vault.Rules.Formats.{FormatProfile}
use mtg_vault.Rules.Report.{Status, RuleError, ValidationResult}
use mtg_vault.Rules.Checks.{side_count, check_size}
use mtg_vault.Rules.Validate.{on_board, off_board, counted_of, validate_rows}

-- The verdict and the errors, without the warnings.
abbrev pub judgement : Result ValidationResult → Result (Bool × List RuleError)
judgement (ok r) = ok (r.is_legal, r.errors)
judgement (raise e) = raise e

on_board-off_side :
    (b : Board) (entries : List DeckEntry)
    → same_board Board.side b ≡ false
    → on_board b (off_board Board.side entries) ≡ on_board b entries
on_board-off_side b [] h = refl
on_board-off_side b (e ∷ entries) h = ground (arith, on_board-off_side b entries h)

off_side-off_side :
    (entries : List DeckEntry)
    → off_board Board.side (off_board Board.side entries) ≡ off_board Board.side entries
off_side-off_side [] = refl
off_side-off_side (e ∷ entries) = ground (arith, off_side-off_side entries)

check_size_ignores_side :
    (profile : FormatProfile) (main side side' commanders companions : List DeckEntry)
    → profile.sideboard_max ≡ 0
    → (check_size profile main side commanders companions).0
      ≡ (check_size profile main side' commanders companions).0
unfolding check_size side_count
check_size_ignores_side profile main side side' commanders companions h = ground arith

judgement_of_sizes :
    (a a' b c w w' : List RuleError) (d e : Result (List RuleError))
    → a ≡ a'
    → judgement (
        d >>= λ x. e >>= λ y.
        let errors = a ++ (b ++ (c ++ (x ++ y))) in
        ok (record { is_legal = is_empty errors; errors = errors; warnings = w }))
      ≡ judgement (
          d >>= λ x. e >>= λ y.
          let errors = a' ++ (b ++ (c ++ (x ++ y))) in
          ok (record { is_legal = is_empty errors; errors = errors; warnings = w' }))
judgement_of_sizes a a' b c w w' (ok x) (ok y) h = rw h
judgement_of_sizes a a' b c w w' (ok x) (raise y) h = refl
judgement_of_sizes a a' b c w w' (raise x) e h = refl

-- In a format with no sideboard, the verdict and the errors are those of the deck without its side
-- board.
pub validate_rows-ignores_side :
    (profile : FormatProfile) (entries : List DeckEntry) (legality : Dict Text Status)
    → profile.sideboard_max ≡ 0
    → judgement (validate_rows profile entries legality)
      ≡ judgement (validate_rows profile (off_board Board.side entries) legality)
unfolding validate_rows counted_of
validate_rows-ignores_side profile entries legality h =
    let none_allowed : nat_beq profile.sideboard_max 0 ≡ true = ground arith in
    rw
      (
        on_board-off_side Board.main entries refl,
        on_board-off_side Board.commander entries refl,
        on_board-off_side Board.companion entries refl,
        off_side-off_side entries,
        none_allowed,
      )
      (judgement_of_sizes _ _ _ _ _ _ _ _ (
        check_size_ignores_side profile _ (on_board Board.side entries)
          (on_board Board.side (off_board Board.side entries)) _ _ h))
