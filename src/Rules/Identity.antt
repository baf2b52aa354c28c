-- ===== src/Rules/Identity.antt =====
-- The colour-identity part of the commander check (backend/app/services/rules/validate.py),
-- colour by colour.
use mtg_vault.Base.{
  ℕ, ◌≡◌, refl, ◌↔◌, Bool, true, false, not, ◌&&◌, ◌||◌, List, [], ◌∷◌, ◌++◌, arith, filter, any,
  All,
}
use mtg_vault.Base.Masks.{mask_or, has_bit, IsMask, and_not-within, mask_or-IsMask, has_bit-mask_or}
use mtg_vault.Rules.Cards.{RulesCard, DeckEntry}
use mtg_vault.Rules.Report.{cards_of}
use mtg_vault.Rules.Checks.{cards_error}
use mtg_vault.Rules.Leaders.{identity_from, is_outside, identity_errors}

-- The card's identity has the colour.
abbrev pub has_color : ℕ → RulesCard → Bool
has_color bit card = has_bit card.color_identity_mask bit

-- Every colour of the card is a colour of some leader.
abbrev pub covers : List RulesCard → RulesCard → Bool
covers leaders card =
    (not (has_color 1 card) || any (has_color 1) leaders)
    && (not (has_color 2 card) || any (has_color 2) leaders)
    && (not (has_color 4 card) || any (has_color 4) leaders)
    && (not (has_color 8 card) || any (has_color 8) leaders)
    && (not (has_color 16 card) || any (has_color 16) leaders)

-- Colour identities are masks of the five colours.
abbrev pub AllMasks : List RulesCard → Type 0
AllMasks = All (λ (c : RulesCard). IsMask c.color_identity_mask)

identity_from-IsMask :
    (identity : ℕ) (cards : List RulesCard)
    → IsMask identity
    → AllMasks cards
    → IsMask (identity_from identity cards)
unfolding identity_from
identity_from-IsMask identity [] h k = h
identity_from-IsMask identity (c ∷ cards) h k =
    identity_from-IsMask (mask_or identity c.color_identity_mask) cards
      (mask_or-IsMask identity c.color_identity_mask h k.0) k.1

-- The colours of the union, as `within` reads them.
abbrev Colors : ℕ → ℕ → List RulesCard → ℕ → Type 0
Colors result identity cards bit =
    has_bit result bit ≡ (has_bit identity bit || any (has_color bit) cards)

identity_from-Colors :
    (identity : ℕ) (cards : List RulesCard)
    → IsMask identity
    → AllMasks cards
    → let result = identity_from identity cards in
      Colors result identity cards 1
      × Colors result identity cards 2
      × Colors result identity cards 4
      × Colors result identity cards 8
      × Colors result identity cards 16
unfolding identity_from
identity_from-Colors identity [] h k = ground arith
identity_from-Colors identity (c ∷ cards) h k = ground (
  arith,
  has_bit-mask_or identity c.color_identity_mask h k.0,
  identity_from-Colors (mask_or identity c.color_identity_mask) cards
      (mask_or-IsMask identity c.color_identity_mask h k.0) k.1,
)

zero_bits :
    (has_bit 0 1 ≡ false)
    × (has_bit 0 2 ≡ false)
    × (has_bit 0 4 ≡ false)
    × (has_bit 0 8 ≡ false)
    × (has_bit 0 16 ≡ false)
unfolding has_bit
zero_bits = (refl, refl, refl, refl, refl)

module _ (leaders : List RulesCard) (masks : AllMasks leaders) where
  is_outside-covers :
      (card : RulesCard)
      → IsMask card.color_identity_mask
      → is_outside (identity_from 0 leaders) card ≡ not (covers leaders card)
  unfolding is_outside
  is_outside-covers card h = ground (
    arith,
    zero_bits,
    identity_from-Colors 0 leaders (omega arith) masks,
    and_not-within card.color_identity_mask (identity_from 0 leaders) h
        (identity_from-IsMask 0 leaders (omega arith) masks),
  )

  outside-nil→ :
      (cards : List RulesCard)
      → AllMasks cards
      → filter (is_outside (identity_from 0 leaders)) cards ≡ []
      → All (λ c. covers leaders c ≡ true) cards
  outside-nil→ [] k h = tt
  outside-nil→ (c ∷ cards) k h = ground (arith, is_outside-covers c k.0, outside-nil→ cards k.1)

  outside-nil← :
      (cards : List RulesCard)
      → AllMasks cards
      → All (λ c. covers leaders c ≡ true) cards
      → filter (is_outside (identity_from 0 leaders)) cards ≡ []
  outside-nil← [] k h = refl
  outside-nil← (c ∷ cards) k h = ground (arith, is_outside-covers c k.0, outside-nil← cards k.1 h.1)

  -- With masks of the five colours, no colour error is reported exactly when every colour of every
  -- main-board card and companion is a colour of one of the leaders.
  pub identity_errors_iff :
      (main companion_entries : List DeckEntry)
      → AllMasks (cards_of (main ++ companion_entries))
      → (identity_errors leaders main companion_entries ≡ [])
        ↔ All (λ c. covers leaders c ≡ true) (cards_of (main ++ companion_entries))
  unfolding identity_errors cards_error
  identity_errors_iff main companion_entries k = (
    λ h. outside-nil→ (cards_of (main ++ companion_entries)) k (ground arith),
    λ h. rw (outside-nil← (cards_of (main ++ companion_entries)) k h),
  )
