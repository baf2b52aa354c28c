-- ===== src/Scan/Totals.antt =====
-- The value of a session (backend/app/services/scan/session.py) beside the value of the same copies
-- in the collection (backend/app/services/pricing.py).
use mtg_vault.Base.{
  ℕ, zero, suc, ◌≤◌, ◌≡◌, refl, inl, inr, Option, none, some, List, [], ◌∷◌, arith, if◌then◌else◌,
  sum_of, Bool-cases, nat_beq,
}
use mtg_vault.Base.Text.{codes, text_eq}
use mtg_vault.Base.Dict.{get_or}
use mtg_vault.Prices.Value.{Copy, price_column, value_of, valued, finish_is}
use mtg_vault.Scan.Worth.{price_or, session_price, session_worth, session_totals}

-- What a copy counts in a session: its price in the collection, or where that is missing or zero
-- the price without a finish.
abbrev pub fallback_value : Copy → ℕ
fallback_value copy =
    if nat_beq (value_of copy) 0 then get_or copy.1.price_usd_cents 0 else value_of copy

price_or-worth :
    (p q : Option ℕ)
    → get_or (price_or p q) 0 ≡ (if nat_beq (get_or p 0) 0 then get_or q 0 else get_or p 0)
price_or-worth none q = refl
price_or-worth (some zero) q = refl
price_or-worth (some (suc n)) q = ground arith

session_worth-fallback : (copy : Copy) → session_worth copy ≡ fallback_value copy
unfolding session_price price_column
session_worth-fallback (item, card) = elim (Bool-cases (finish_is (codes "foil") item)) [
  | inl foil ↦ rw foil (price_or-worth card.price_usd_foil_cents card.price_usd_cents)
  | inr other ↦ rw other (elim (Bool-cases (finish_is (codes "etched") item)) [
    | inl etched ↦ rw etched (price_or-worth card.price_usd_etched_cents card.price_usd_cents)
    | inr plain ↦ rw plain (ground arith)
  ])
]

totals :
    (copies : List Copy)
    → (sum_of session_worth copies ≡ sum_of fallback_value copies)
      × (sum_of value_of copies ≤ sum_of fallback_value copies)
totals [] = (refl, omega arith)
totals (c ∷ cs) =
    let (same, least) = totals cs in
    (omega (arith, session_worth-fallback c, same), ground (arith, least))

-- Over the same copies, the total of a session is that of the collection with every copy that has
-- no price for its finish, or a price of zero, counted at the price without a finish; so it is
-- never below the total of the collection.
pub session_totals-valued :
    (copies : List Copy)
    → ((session_totals copies).0 ≡ sum_of fallback_value copies)
      × ((valued copies).total_cents ≤ (session_totals copies).0)
unfolding session_totals valued
session_totals-valued copies =
    let (same, least) = totals copies in (same, omega (arith, same, least))
