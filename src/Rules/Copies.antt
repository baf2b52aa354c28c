-- ===== src/Rules/Copies.antt =====
-- The copy-limit check `_check_copy_limits` (backend/app/services/rules/validate.py), described
-- by oracle card.
use mtg_vault.Base.{
  ℕ, ◌≤◌, ◌≡◌, refl, ◌↔◌, inl, inr, false, Option, none, some, List, [], ◌∷◌, true, Bool-cases, map,
  arith, if◌then◌else◌, ◌==◌, contains, Option-cases, filter_map-nil→All, All→filter_map-nil,
}
use mtg_vault.Base.Text.{Text, text_eq}
use mtg_vault.Base.Dict.{
  Dict, get_or, lookup, insert, is_some, total_for, lookup-insert, lookup-tally_from,
  tally_from-IsUnique, All-of_lookup, lookup_of_All, IsUnique,
}
use mtg_vault.Rules.Cards.{RulesCard, DeckEntry, is_basic_land, copy_limit_override}
use mtg_vault.Rules.Formats.{FormatProfile}
use mtg_vault.Rules.Report.{Status, is_restricted}
use mtg_vault.Rules.Checks.{copy_totals, cards_from, copy_limit_of, copy_error, check_copy_limits}

-- The card of the last row of an oracle id.
abbrev pub last_card : Text → List DeckEntry → Option RulesCard
last_card id [] = none
last_card id (e ∷ entries) = elim (last_card id entries) [
  | none ↦ if id == e.card.oracle_id then some e.card else none
  | some card ↦ some card
]

-- The copies of an oracle card, over all rows.
abbrev pub copies : Text → List DeckEntry → ℕ
copies = total_for (λ (e : DeckEntry). e.card.oracle_id) (λ (e : DeckEntry). e.quantity)

-- A number of copies is within the limits of a card: that of its own text, or the format's where
-- its text has none, and one if it is restricted.
abbrev pub IsWithin : FormatProfile → Option Status → RulesCard → ℕ → Type 0
IsWithin profile status card n =
    ((limit : ℕ) → copy_limit_override card ≡ some limit → n ≤ limit)
    × (copy_limit_override card ≡ none → n ≤ profile.copy_limit)
    × (status ≡ some Status.restricted → n ≤ 1)

is_restricted_iff :
    (status : Option Status)
    → (is_restricted (get_or status Status.not_legal) ≡ true) ↔ (status ≡ some Status.restricted)
is_restricted_iff none = (λ h. absurd (cc), λ h. absurd (cc))
is_restricted_iff (some Status.legal) = (λ h. absurd (cc), λ h. absurd (cc))
is_restricted_iff (some Status.restricted) = (λ h. refl, λ h. refl)
is_restricted_iff (some Status.banned) = (λ h. absurd (cc), λ h. absurd (cc))
is_restricted_iff (some Status.not_legal) = (λ h. absurd (cc), λ h. absurd (cc))

own_limit_iff :
    (own : Option ℕ) (common n : ℕ)
    → (n ≤ get_or own common)
      ↔ (((limit : ℕ) → own ≡ some limit → n ≤ limit) × (own ≡ none → n ≤ common))
own_limit_iff none common n = (λ h. (λ limit e. absurd (cc), λ e. h), λ h. h.1 refl)
own_limit_iff (some own) common n =
    (λ h. (λ limit e. ground (arith, h, e), λ e. absurd (cc)), λ h. h.0 own refl)

limit_iff :
    (profile : FormatProfile) (status : Option Status) (card : RulesCard) (n : ℕ)
    → (n ≤ (copy_limit_of profile status card).0) ↔ IsWithin profile status card n
unfolding copy_limit_of
limit_iff profile status card n =
    let own = own_limit_iff (copy_limit_override card) profile.copy_limit n in
    let single = is_restricted_iff status in
    elim (Bool-cases (is_restricted (get_or status Status.not_legal))) [
      | inl restricted ↦ rw restricted (
        λ h. let (a, b) = own.0 (omega (arith, h)) in (a, b, λ e. omega (arith, h)),
        λ h. omega (arith, own.1 (h.0, h.1), h.2 (single.0 restricted)),
      )
      | inr open' ↦ rw open' (
        λ h. let (a, b) = own.0 h in (a, b, λ e. absurd (let clash = single.1 e in cc)),
        λ h. own.1 (h.0, h.1),
      )
    ]

-- No card but a basic land exceeds its limit.
abbrev pub CopiesAllowed : FormatProfile → List DeckEntry → Dict Text Status → Type 0
CopiesAllowed profile entries legality =
    (id : Text) (card : RulesCard)
    → last_card id entries ≡ some card
    → is_basic_land card ≡ false
    → IsWithin profile (lookup id legality) card (copies id entries)

lookup-cards_from :
    (id : Text) (cards : Dict Text RulesCard) (entries : List DeckEntry)
    → lookup id (cards_from cards entries)
      ≡ (elim (last_card id entries) [ none ↦ lookup id cards | some card ↦ some card ])
unfolding cards_from
lookup-cards_from id cards [] = refl
lookup-cards_from id cards (e ∷ entries) = ground (
  arith,
  lookup-cards_from id (insert e.card.oracle_id e.card cards) entries,
  lookup-insert e.card.oracle_id id e.card cards,
)

is_some-last_card :
    (id : Text) (entries : List DeckEntry)
    → is_some (last_card id entries)
      ≡ contains id (map (λ (e : DeckEntry). e.card.oracle_id) entries)
is_some-last_card id [] = refl
is_some-last_card id (e ∷ entries) = ground (arith, is_some-last_card id entries)

lookup-copy_totals :
    (id : Text) (entries : List DeckEntry)
    → lookup id (copy_totals entries)
      ≡ (if is_some (last_card id entries) then some (copies id entries) else none)
unfolding copy_totals
lookup-copy_totals id entries = ground (
  arith,
  is_some-last_card id entries,
  lookup-tally_from (λ (e : DeckEntry). e.card.oracle_id) (λ (e : DeckEntry). e.quantity) id
      entries,
)

copy_totals-IsUnique : (entries : List DeckEntry) → IsUnique (copy_totals entries)
unfolding copy_totals
copy_totals-IsUnique entries = tally_from-IsUnique _ _ [] entries tt

module _ (profile : FormatProfile) (entries : List DeckEntry) (legality : Dict Text Status) where
  abbrev WithinLimit : Text × ℕ → Type 0
  WithinLimit item = copy_error profile legality (cards_from [] entries) item ≡ none

  -- The check reports nothing exactly when no card but a basic land has more copies, over all the
  -- rows of its oracle id, than its limit: its own text's or the format's, and one if restricted.
  pub check_copy_limits_iff :
      (check_copy_limits profile entries legality ≡ []) ↔ CopiesAllowed profile entries legality
  unfolding check_copy_limits copy_error
  check_copy_limits_iff = (
    λ h id card found plain.
        let item : WithinLimit (id, copies id entries) =
          lookup_of_All WithinLimit (copy_totals entries) id (copies id entries)
            (filter_map-nil→All _ (copy_totals entries) h)
            (ground (arith, lookup-copy_totals id entries)) in
        (limit_iff profile (lookup id legality) card (copies id entries)).0
          (ground (arith, item, lookup-cards_from id [] entries)),
    λ allowed.
        let below : (id : Text) (card : RulesCard)
            → last_card id entries ≡ some card
            → is_basic_land card ≡ false
            → copies id entries ≤ (copy_limit_of profile (lookup id legality) card).0 =
          λ id card e plain.
            (limit_iff profile (lookup id legality) card (copies id entries)).1
              (allowed id card e plain) in
        All→filter_map-nil _ (copy_totals entries) (
          All-of_lookup WithinLimit (copy_totals entries) (copy_totals-IsUnique entries)
            (λ id total found. elim (Option-cases (last_card id entries)) [
              | inl absent ↦ ground (arith, lookup-copy_totals id entries)
              | inr (card, e) ↦ ground (
                arith,
                lookup-cards_from id [] entries,
                lookup-copy_totals id entries,
                below id card e,
              )
            ])),
  )
