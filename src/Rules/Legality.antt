-- ===== src/Rules/Legality.antt =====
-- The legality check `_check_legality` (backend/app/services/rules/validate.py).
use mtg_vault.Base.{◌≡◌, refl, ◌↔◌, true, List, [], ◌∷◌, arith, contains, All}
use mtg_vault.Base.Text.{Text, text_eq, same_text_iff}
use mtg_vault.Base.Dict.{Dict, lookup, get_or}
use mtg_vault.Rules.Cards.{DeckEntry}
use mtg_vault.Rules.Formats.{FormatProfile}
use mtg_vault.Rules.Report.{Status, is_playable}
use mtg_vault.Rules.Checks.{sort_out, cards_error, check_legality}

module _ (legality : Dict Text Status) where
  -- The status of a card; a card that the mapping does not have is not legal.
  abbrev pub status_of : Text → Status
  status_of id = get_or (lookup id legality) Status.not_legal

  abbrev Playable : Text → Type 0
  Playable id = is_playable (status_of id) ≡ true

  abbrev pub AllPlayable : List DeckEntry → Type 0
  AllPlayable = All (λ (e : DeckEntry). Playable e.card.oracle_id)

  contains-Playable :
      (id : Text) (seen : List Text) → All Playable seen → contains id seen ≡ true → Playable id
  contains-Playable id [] h m = absurd (cc)
  contains-Playable id (x ∷ seen) h m =
      ground (arith, same_text_iff id x, contains-Playable id seen h.1)

  sort_out-nil :
      (seen : List Text) (entries : List DeckEntry)
      → AllPlayable entries
      → sort_out legality seen entries ≡ ([], [])
  unfolding sort_out
  sort_out-nil seen [] h = refl
  sort_out-nil seen (e ∷ entries) h = ground (
    arith,
    h.0,
    sort_out-nil seen entries h.1,
    sort_out-nil (e.card.oracle_id ∷ seen) entries h.1,
  )

  nil-AllPlayable :
      (seen : List Text) (entries : List DeckEntry)
      → All Playable seen
      → (sort_out legality seen entries).0 ≡ []
      → (sort_out legality seen entries).1 ≡ []
      → AllPlayable entries
  unfolding sort_out
  nil-AllPlayable seen [] k h0 h1 = tt
  nil-AllPlayable seen (e ∷ entries) k h0 h1 = ground (
    arith,
    contains-Playable e.card.oracle_id seen k,
    nil-AllPlayable seen entries k,
    nil-AllPlayable (e.card.oracle_id ∷ seen) entries,
  )

  -- The check reports nothing exactly when every row's card is legal or restricted in the format.
  pub check_legality_iff :
      (profile : FormatProfile) (entries : List DeckEntry)
      → (check_legality profile entries legality ≡ []) ↔ AllPlayable entries
  unfolding check_legality cards_error
  check_legality_iff profile entries = (
    λ h. nil-AllPlayable [] entries tt (ground arith) (ground arith),
    λ h. ground (arith, sort_out-nil [] entries h),
  )
