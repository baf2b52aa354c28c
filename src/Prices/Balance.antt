-- ===== src/Prices/Balance.antt =====
-- The breakdowns of `collection_value` (backend/app/services/pricing.py).
use mtg_vault.Base.{
  ◌+◌, ◌≤◌, ◌≡◌, refl, ap, ◌∙◌, inl, inr, Bool, false, Option, List, [], ◌∷◌, map, arith, filter,
  leb, ◌==◌, filter_map, sum_of, length, length-take, to_set, Eq, Bool-cases,
}
use mtg_vault.Base.Text.{Text, codes, text_eq}
use mtg_vault.Base.Sorting.{sort, sum_of-sort}
use mtg_vault.Audit.Rows.{Row, flag, value_eq}
use mtg_vault.Collection.Items.{column}
use mtg_vault.Collection.Printings.{Printing}
use mtg_vault.Prices.Value.{
  Copy, priced_copies, value_of, one, with_card, card_of, unpriced, foil_value, finish_is, Group,
  groups_by, richer_leb, rarity_eq, priced_row, top_cards, collection_value, valued,
}
use mtg_vault.Prices.Groups.{sum_of-map, sum_of-groups}

module _ {K : Type 0} ⦃e : Eq K⦄ (key : Copy → K) (copies : List Copy) where
  groups_by-value :
      sum_of (λ (g : Group K). g.value_cents) (sort richer_leb (groups_by key copies))
      ≡ sum_of value_of copies
  unfolding groups_by
  groups_by-value =
      sum_of-sort richer_leb (λ (g : Group K). g.value_cents) (groups_by key copies)
      ∙ (sum_of-map _ (λ (g : Group K). g.value_cents) (to_set (map key copies))
          ∙ sum_of-groups key value_of copies)

  groups_by-copies :
      sum_of (λ (g : Group K). g.copies) (sort richer_leb (groups_by key copies))
      ≡ sum_of one copies
  unfolding groups_by
  groups_by-copies =
      sum_of-sort richer_leb (λ (g : Group K). g.copies) (groups_by key copies)
      ∙ (sum_of-map _ (λ (g : Group K). g.copies) (to_set (map key copies))
          ∙ sum_of-groups key one copies)

sum_of-one : (copies : List Copy) → sum_of one copies ≡ length copies
sum_of-one [] = refl
sum_of-one (c ∷ cs) = omega (arith, sum_of-one cs)

-- The copies without a price, and those with one.
unpriced_count :
    (copies : List Copy)
    → sum_of unpriced copies + length (filter_map priced_row copies) ≡ length copies
unpriced_count [] = refl
unpriced_count (c ∷ cs) = ground (arith, unpriced_count cs)

foil_value-le : (copies : List Copy) → sum_of foil_value copies ≤ sum_of value_of copies
foil_value-le [] = omega arith
foil_value-le (c ∷ cs) = elim (Bool-cases (finish_is (codes "nonfoil") (c.0))) [
  | inl plain ↦ rw plain (omega (arith, foil_value-le cs))
  | inr other ↦ rw other (omega (arith, foil_value-le cs))
]

filter-filter {ℓ} : {A : Type ℓ} (p : A → Bool) (xs : List A) → filter p (filter p xs) ≡ filter p xs
filter-filter p [] = refl
filter-filter p (x ∷ xs) = elim (Bool-cases (p x)) [
  | inl kept ↦ rw (kept, kept) (ap (λ r. x ∷ r) (filter-filter p xs))
  | inr gone ↦ rw gone (filter-filter p xs)
]

-- The items that are no proxies.
abbrev pub real_items : List Row → List Row
real_items = filter (λ item. column (codes "is_proxy") item == flag false)

priced_copies-real :
    (cards : List Printing) (items : List Row)
    → priced_copies cards (real_items items) ≡ priced_copies cards items
unfolding priced_copies
priced_copies-real cards items =
    ap (filter_map (λ item. with_card item (card_of cards item)))
      (filter-filter (λ item. column (codes "is_proxy") item == flag false) items)

-- The value of a collection is that of its copies without the proxies. Its breakdowns by set and by
-- rarity each add up to its total and to its number of copies; every copy counts either as unpriced
-- or among those with a price, of which at most ten are shown; and the foil value is part of the
-- total.
pub collection_value-balance :
    (cards : List Printing) (items : List Row)
    → let v = collection_value cards items in
      (collection_value cards (real_items items) ≡ v)
      × (sum_of (λ (g : Group Text). g.value_cents) v.by_set ≡ v.total_cents)
      × (sum_of (λ (g : Group Text). g.copies) v.by_set ≡ v.nonproxy_count)
      × (sum_of (λ (g : Group (Option Text)). g.value_cents) v.by_rarity ≡ v.total_cents)
      × (sum_of (λ (g : Group (Option Text)). g.copies) v.by_rarity ≡ v.nonproxy_count)
      × (v.unpriced_count + length (filter_map priced_row (priced_copies cards items))
          ≡ v.nonproxy_count)
      × (v.foil_cents ≤ v.total_cents)
      × (length v.top ≤ top_cards)
unfolding collection_value valued
collection_value-balance cards items =
    let copies = priced_copies cards items in
    (
      ap valued (priced_copies-real cards items),
      groups_by-value (λ (copy : Copy). copy.1.set_code) copies,
      groups_by-copies (λ (copy : Copy). copy.1.set_code) copies ∙ sum_of-one copies,
      groups_by-value (λ (copy : Copy). copy.1.rarity) copies,
      groups_by-copies (λ (copy : Copy). copy.1.rarity) copies ∙ sum_of-one copies,
      unpriced_count copies,
      foil_value-le copies,
      omega (
        arith,
        length-take top_cards (sort (λ a b. leb (b.1) (a.1)) (filter_map priced_row copies)),
      ),
    )
