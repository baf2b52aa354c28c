-- ===== src/Prices/Examples.antt =====
-- The value of three copies, and the theorem on it.
use mtg_vault.Base.{
  ◌+◌, ◌≤◌, ◌≡◌, refl, some, false, true, Bool, Option, List, [], ◌∷◌, filter_map, length, sum_of,
}
use mtg_vault.Base.Text.{Text, codes, same_text}
use mtg_vault.Audit.Rows.{Row, number, flag, text, same_value}
use mtg_vault.Collection.Printings.{Printing}
use mtg_vault.Collection.Sample.{printing}
use mtg_vault.Prices.Value.{
  Group, priced_copies, card_of, price_column, priced_row, top_cards, collection_value, valued,
}
use mtg_vault.Prices.Balance.{real_items, collection_value-balance}

program : Unit {0}
unfolding priced_copies card_of price_column collection_value valued same_text same_value
program = tt

abbrev copy : Text → Bool → Row
copy finish is_proxy =
    (codes "id", number 1)
    ∷ (codes "card_id", number 10)
    ∷ (codes "finish", text finish)
    ∷ (codes "is_proxy", flag is_proxy)
    ∷ []

abbrev cards : List Printing
cards = printing 10 (codes "neo") (some 500) ∷ []

-- A copy with a price, a foil without one, and a proxy.
abbrev items : List Row
items = copy (codes "nonfoil") false ∷ copy (codes "foil") false ∷ copy (codes "nonfoil") true ∷ []

value_test :
    ((collection_value cards items).total_cents ≡ 500)
    × ((collection_value cards items).nonproxy_count ≡ 2)
    × ((collection_value cards items).unpriced_count ≡ 1)
unfolding program
value_test = (refl, refl, refl)

collection_value-balance_example :
    let v = collection_value cards items in
    (collection_value cards (real_items items) ≡ v)
    × (sum_of (λ (g : Group Text). g.value_cents) v.by_set ≡ v.total_cents)
    × (sum_of (λ (g : Group Text). g.copies) v.by_set ≡ v.nonproxy_count)
    × (sum_of (λ (g : Group (Option Text)). g.value_cents) v.by_rarity ≡ v.total_cents)
    × (sum_of (λ (g : Group (Option Text)). g.copies) v.by_rarity ≡ v.nonproxy_count)
    × (v.unpriced_count + length (filter_map priced_row (priced_copies cards items))
        ≡ v.nonproxy_count)
    × (v.foil_cents ≤ v.total_cents)
    × (length v.top ≤ top_cards)
collection_value-balance_example = collection_value-balance cards items
