-- ===== src/Decks/Curve.antt =====
-- What the counters of `compute_stats` add up to (backend/app/services/decks/stats.py).
use mtg_vault.Base.{
  ℕ, ◌+◌, ◌≤◌, ◌≡◌, refl, inl, inr, Bool, true, false, Option, none, some, List, [], ◌∷◌, arith,
  ltb, ◌==◌, if◌then◌else◌, filter, fold_left-sum, sum_of, Bool-cases, nat_beq, min,
}
use mtg_vault.Base.Text.{Text, text_eq, same_text_iff}
use mtg_vault.Base.Dict.{Dict, add_to, count_in, is_some, lookup-insert, sum-insert}
use mtg_vault.Rules.Cards.{DeckEntry, card_types}
use mtg_vault.Decks.Stats.{
  Tally, zeros, curve_names, empty_tally, is_pure_land, is_mdfc_land, first_type, type_order,
  count_type, bucket_of, has_x, count_entry, count_entries, is_on_curve, average_of,
  recommend_lands, compute_stats,
}

-- The sum of the values of a dict.
abbrev pub values : Dict Text ℕ → ℕ
values = sum_of (λ (b : Text × ℕ). b.1)

abbrev pub is_pure : DeckEntry → Bool
is_pure entry = is_pure_land entry.card.type_line

abbrev pub quantity : DeckEntry → ℕ
quantity entry = entry.quantity

-- What a row adds to the lands, to the two-faced lands, to the spells with X, to a bucket of the
-- curve, and to the types.
abbrev pub land_part : DeckEntry → ℕ
land_part entry = if is_pure entry then entry.quantity else 0

abbrev pub spell_part : (DeckEntry → Bool) → DeckEntry → ℕ
spell_part p entry = if is_pure entry then 0 else (if p entry then entry.quantity else 0)

abbrev pub is_mdfc : DeckEntry → Bool
is_mdfc entry = is_mdfc_land entry.card.type_line

abbrev pub costs_x : DeckEntry → Bool
costs_x entry = has_x entry.card

abbrev pub falls_in : Text → DeckEntry → Bool
falls_in bucket entry = bucket == bucket_of entry.card

abbrev has_type : DeckEntry → Bool
has_type entry = is_some (first_type (is_pure entry) (card_types entry.card.type_line) type_order)

abbrev type_part : DeckEntry → ℕ
type_part entry = if has_type entry then entry.quantity else 0

values-count_type :
    (o : Option Text) (q : ℕ) (d : Dict Text ℕ)
    → values (count_type o q d) ≡ values d + (if is_some o then q else 0)
unfolding count_type
values-count_type none q d = omega arith
values-count_type (some name) q d = sum-insert name q d

count_in-add_to :
    (b k : Text) (q : ℕ) (d : Dict Text ℕ)
    → count_in b (add_to k q d) ≡ count_in b d + (if b == k then q else 0)
count_in-add_to b k q d = ground (arith, same_text_iff b k, lookup-insert k b (count_in k d + q) d)

count_in-zeros : (b : Text) (ks : List Text) → count_in b (zeros ks) ≡ 0
count_in-zeros b [] = refl
count_in-zeros b (k ∷ ks) = ground (arith, count_in-zeros b ks)

module _ (t : Tally) (e : DeckEntry) where
  lands-step : (count_entry t e).lands ≡ t.lands + land_part e
  unfolding count_entry
  lands-step = elim (Bool-cases (is_pure e)) [
    | inl pure ↦ rw pure refl
    | inr other ↦ rw other (omega arith)
  ]

  mdfc_lands-step : (count_entry t e).mdfc_lands ≡ t.mdfc_lands + spell_part is_mdfc e
  unfolding count_entry
  mdfc_lands-step = elim (Bool-cases (is_pure e)) [
    | inl pure ↦ rw pure (omega arith)
    | inr other ↦ rw other refl
  ]

  x_spells-step : (count_entry t e).x_spells ≡ t.x_spells + spell_part costs_x e
  unfolding count_entry
  x_spells-step = elim (Bool-cases (is_pure e)) [
    | inl pure ↦ rw pure (omega arith)
    | inr other ↦ rw other refl
  ]

  bucket-step :
      (b : Text)
      → count_in b (count_entry t e).curve ≡ count_in b t.curve + spell_part (falls_in b) e
  unfolding count_entry
  bucket-step b = elim (Bool-cases (is_pure e)) [
    | inl pure ↦ rw pure (omega arith)
    | inr other ↦ rw other (count_in-add_to b (bucket_of e.card) e.quantity t.curve)
  ]

  -- Every copy of a row stands in the curve or among the lands.
  cards-step :
      values (count_entry t e).curve + (count_entry t e).lands
      ≡ values t.curve + t.lands + e.quantity
  unfolding count_entry
  cards-step = elim (Bool-cases (is_pure e)) [
    | inl pure ↦ rw pure (omega arith)
    | inr other ↦ rw other (omega (arith, sum-insert (bucket_of e.card) e.quantity t.curve))
  ]

  types-step : values (count_entry t e).types ≡ values t.types + type_part e
  unfolding count_entry
  types-step = elim (Bool-cases (is_pure e)) [
    | inl pure ↦ rw pure (
        values-count_type (first_type true (card_types e.card.type_line) type_order) e.quantity
          t.types)
    | inr other ↦ rw other (
        values-count_type (first_type false (card_types e.card.type_line) type_order) e.quantity
          t.types)
  ]

type_part-le : (es : List DeckEntry) → sum_of type_part es ≤ sum_of quantity es
type_part-le [] = omega arith
type_part-le (e ∷ es) = elim (Bool-cases (has_type e)) [
  | inl typed ↦ rw typed (omega (arith, type_part-le es))
  | inr other ↦ rw other (omega (arith, type_part-le es))
]

spell_part-le :
    (p : DeckEntry → Bool) (es : List DeckEntry)
    → sum_of (spell_part p) es + sum_of land_part es ≤ sum_of quantity es
spell_part-le p [] = omega arith
spell_part-le p (e ∷ es) = ground (arith, spell_part-le p es)

values-positive : (d : Dict Text ℕ) → values (filter (λ (b : Text × ℕ). ltb 0 (b.1)) d) ≡ values d
values-positive [] = refl
values-positive ((k, n) ∷ d) = ground (arith, values-positive d)

capped : (size r : ℕ) → (if nat_beq size 0 then 0 else min size r) ≤ size
capped size r = ground arith

recommend_lands-le : (size : ℕ) (avg : ℕ × ℕ) (mdfc : ℕ) → recommend_lands size avg mdfc ≤ size
unfolding recommend_lands
recommend_lands-le size avg mdfc = capped size _

-- The statistics of a deck account for its main board and its commanders, whatever rows they are
-- computed from: only these rows count; the curve and the lands are together all of their copies;
-- each bucket of the curve, the lands, the two-faced lands and the spells with X are the quantities
-- of the rows that belong there; the breakdown by type counts no copy twice; and no more lands are
-- recommended than there are cards.
pub compute_stats-balance :
    (entries : List DeckEntry)
    → let stats = compute_stats entries in
      let rows = filter is_on_curve entries in
      (stats.card_count ≡ sum_of quantity rows)
      × (values stats.curve + stats.lands ≡ stats.card_count)
      × ((b : Text) → count_in b stats.curve ≡ sum_of (spell_part (falls_in b)) rows)
      × (stats.lands ≡ sum_of land_part rows)
      × (stats.mdfc_lands ≡ sum_of (spell_part is_mdfc) rows)
      × (stats.x_spells ≡ sum_of (spell_part costs_x) rows)
      × (values stats.types ≤ stats.card_count)
      × (stats.recommended_lands ≤ stats.card_count)
unfolding compute_stats count_entries
compute_stats-balance entries =
    let rows = filter is_on_curve entries in
    let tally = count_entries empty_tally rows in
    (
      refl,
      omega (
        arith,
        fold_left-sum count_entry (λ t. values t.curve + t.lands) quantity cards-step empty_tally
            rows,
      ),
      (λ b. omega (
        arith,
        fold_left-sum count_entry (λ t. count_in b t.curve) (spell_part (falls_in b))
            (λ t e. bucket-step t e b) empty_tally rows,
        count_in-zeros b curve_names,
      )),
      omega (arith, fold_left-sum count_entry (λ t. t.lands) land_part lands-step empty_tally rows),
      omega (
        arith,
        fold_left-sum count_entry (λ t. t.mdfc_lands) (spell_part is_mdfc) mdfc_lands-step
            empty_tally rows,
      ),
      omega (
        arith,
        fold_left-sum count_entry (λ t. t.x_spells) (spell_part costs_x) x_spells-step empty_tally
            rows,
      ),
      omega (
        arith,
        values-positive tally.types,
        fold_left-sum count_entry (λ t. values t.types) type_part types-step empty_tally rows,
        type_part-le rows,
      ),
      recommend_lands-le (sum_of quantity rows) (average_of tally) tally.mdfc_lands,
    )
