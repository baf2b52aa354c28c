-- ===== src/Prices/Value.antt =====
-- `price_column`, `_priced_copies` and `collection_value` (backend/app/services/pricing.py). A group
-- of a query stands at the place of its first row; groups and rows of the same value keep that
-- order, which the database leaves open. The labels that a breakdown shows beside its key, and the
-- serialiser, are left out.
use mtg_vault.Base.{
  ℕ, ◌≡◌, refl, ◌↔◌, arith, Bool, true, false, Option, none, some, List, [], ◌∷◌, map,
  if◌then◌else◌, leb, filter, filter_map, sum_of, length, take, to_set, Eq, ◌==◌,
}
use mtg_vault.Base.Text.{Text, codes, text_eq, same_text_iff}
use mtg_vault.Base.Dict.{get_or, is_some, total_for}
use mtg_vault.Base.Sorting.{sort}
use mtg_vault.Audit.Rows.{Row, number, flag, text, value_eq}
use mtg_vault.Collection.Printings.{Printing}
use mtg_vault.Collection.Items.{column}

-- A copy and its printing.
abbrev pub Copy : Type 0
Copy = Row × Printing

abbrev pub finish_is : Text → Row → Bool
finish_is finish item = column (codes "finish") item == text finish

-- `price_column`
unfoldable pub price_column : Copy → Option ℕ
price_column (item, card) =
    if finish_is (codes "foil") item
    then card.price_usd_foil_cents
    else if finish_is (codes "etched") item
    then card.price_usd_etched_cents
    else card.price_usd_cents

-- The printing of a copy.
unfoldable pub card_of : List Printing → Row → Option Printing
card_of [] item = none
card_of (card ∷ cards) item =
    let rest = card_of cards item in
    if column (codes "card_id") item == number card.id then some card else rest

abbrev pub with_card : Row → Option Printing → Option Copy
with_card item none = none
with_card item (some card) = some (item, card)

-- `_priced_copies`: the copies that have a printing and are no proxies.
unfoldable pub priced_copies : List Printing → List Row → List Copy
unfolding card_of
priced_copies cards items =
    filter_map (λ item. with_card item (card_of cards item))
      (filter (λ item. column (codes "is_proxy") item == flag false) items)

-- What a copy adds to `func.sum(price)`: NULL adds nothing.
abbrev pub value_of : Copy → ℕ
value_of copy = get_or (price_column copy) 0

abbrev pub one : Copy → ℕ
one copy = 1

abbrev pub unpriced : Copy → ℕ
unpriced copy = if is_some (price_column copy) then 0 else 1

-- What a copy adds to the sum of the finishes that are not `nonfoil`.
abbrev pub foil_value : Copy → ℕ
foil_value copy = if finish_is (codes "nonfoil") (copy.0) then 0 else value_of copy

-- A row of a breakdown.
pub record Group (K : Type 0) : Type 0 where
  pub key : K
  pub copies : ℕ
  pub value_cents : ℕ

-- `GROUP BY key`, with the counts and values of the groups.
unfoldable pub groups_by : {K : Type 0} ⦃e : Eq K⦄ → (Copy → K) → List Copy → List (Group K)
unfolding price_column
groups_by key copies =
    map
      (λ k. record {
        key = k;
        copies = total_for key one k copies;
        value_cents = total_for key value_of k copies;
      })
      (to_set (map key copies))

-- `ORDER BY value DESC`
abbrev pub richer_leb : {K : Type 0} → Group K → Group K → Bool
richer_leb a b = leb b.value_cents a.value_cents

abbrev pub same_rarity : Option Text → Option Text → Bool
same_rarity none none = true
same_rarity (some s) (some t) = s == t
same_rarity _ _ = false

pub same_rarity_iff : (a b : Option Text) → (same_rarity a b ≡ true) ↔ (a ≡ b)
same_rarity_iff none none = (λ h. refl, λ e. refl)
same_rarity_iff none (some t) = (λ h. cc, λ e. absurd (cc))
same_rarity_iff (some s) none = (λ h. cc, λ e. absurd (cc))
same_rarity_iff (some s) (some t) = ground (arith, same_text_iff s t)

instance abbrev pub rarity_eq : Eq (Option Text)
rarity_eq = record { beq = same_rarity; beq_iff = same_rarity_iff }

-- `row.rarity or "unknown"`
abbrev pub rarity_name : Option Text → Text
rarity_name none = codes "unknown"
rarity_name (some []) = codes "unknown"
rarity_name (some (c ∷ s)) = c ∷ s

-- A row of `top_cards`: the copy and its price.
abbrev pub priced_row : Copy → Option (Copy × ℕ)
priced_row copy = elim (price_column copy) [ none ↦ none | some price ↦ some (copy, price) ]

-- `TOP_CARDS`
abbrev pub top_cards : ℕ
top_cards = 10

pub record CollectionValue : Type 0 where
  pub total_cents : ℕ
  pub foil_cents : ℕ
  pub nonproxy_count : ℕ
  pub unique_count : ℕ
  pub unpriced_count : ℕ
  pub by_set : List (Group Text)
  pub by_rarity : List (Group (Option Text))
  pub top : List (Copy × ℕ)

-- The totals and the breakdowns over the copies.
unfoldable pub valued : List Copy → CollectionValue
unfolding price_column groups_by sort
valued copies = record {
  total_cents = sum_of value_of copies;
  foil_cents = sum_of foil_value copies;
  nonproxy_count = length copies;
  unique_count =
      length (to_set (map (λ (copy : Copy). column (codes "oracle_id") (copy.0)) copies));
  unpriced_count = sum_of unpriced copies;
  by_set = sort richer_leb (groups_by (λ (copy : Copy). copy.1.set_code) copies);
  by_rarity = sort richer_leb (groups_by (λ (copy : Copy). copy.1.rarity) copies);
  top = take top_cards (sort (λ a b. leb (b.1) (a.1)) (filter_map priced_row copies));
}

-- `collection_value`
unfoldable pub collection_value : List Printing → List Row → CollectionValue
collection_value cards items = valued (priced_copies cards items)
