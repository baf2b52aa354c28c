-- ===== src/Collection/Best.antt =====
-- Which printing `resolve_card` picks for an oracle id or a name
-- (backend/app/services/collection/add.py).
use mtg_vault.Base.{◌≤◌, ◌<◌, ◌≡◌, ◌⊎◌, List, [], ◌∷◌, filter, contains}
use mtg_vault.Base.Text.{Text, text_eq}
use mtg_vault.Collection.Printings.{Printing, price_rank, digital_rank}

-- The printing is at least as good a choice as the other: paper before digital, then the cheaper.
abbrev pub IsPreferred : Printing → Printing → Type 0
IsPreferred card other =
    (digital_rank card < digital_rank other)
    ⊎ ((digital_rank card ≡ digital_rank other) × (price_rank card ≤ price_rank other))

-- The printings of an oracle card.
abbrev pub of_oracle : Text → List Printing → List Printing
of_oracle oracle_id = filter (λ (card : Printing). contains card.oracle_id (oracle_id ∷ []))
