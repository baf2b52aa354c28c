-- ===== src/Meta/Fielded.antt =====
-- What the coverage of a template says about the collection
-- (backend/app/services/meta/coverage.py).
use mtg_vault.Base.{
  ℕ, ◌+◌, ◌≤◌, ◌≡◌, refl, ◌↔◌, inl, inr, Bool, true, false, not, ◌&&◌, ◌||◌, List, [], ◌∷◌, arith,
  nat_eq, ◌==◌, if◌then◌else◌, length, length-append, filter, contains, fold_left-sum, sum_of, All,
  Bool-cases,
}
use mtg_vault.Base.Text.{Text, text_eq}
use mtg_vault.Base.Sorting.{length-sort}
use mtg_vault.Decks.Store.{
  CollectionItem, Store, allocated_item_ids, available_items, count_available,
}
use mtg_vault.Decks.Missing.{owned_free}
use mtg_vault.Meta.Coverage.{
  TemplateCard, CoverageDetail, CoverTotals, weight_of, is_core, is_missing, one_if, held, have_of,
  no_progress, template_rows, cover_row, cover_rows, ratio_or, missing_leb, compute_coverage,
}

-- The copies of a card that are fit for use: the available ones, or all that are owned.
abbrev pub usable : Store → Bool → Text → ℕ
usable s exclude_allocated oracle_id =
    if exclude_allocated
    then count_available s oracle_id true
    else length (filter (λ (item : CollectionItem). item.oracle_id == oracle_id) s.items)

free_count :
    (oracle_id : Text) (taken : List ℕ) (items : List CollectionItem)
    → length (
        filter
          (λ (item : CollectionItem). item.oracle_id == oracle_id && not (contains item.id taken))
          items)
      ≡ length (
          filter
            (λ (item : CollectionItem).
              item.oracle_id == oracle_id
              && not (contains item.id taken)
              && (true || not item.is_proxy))
            items)
free_count oracle_id taken [] = refl
free_count oracle_id taken (item ∷ items) = ground (arith, free_count oracle_id taken items)

split_count :
    (oracle_id : Text) (taken : List ℕ) (items : List CollectionItem)
    → length (
          filter
            (λ (item : CollectionItem). item.oracle_id == oracle_id && not (contains item.id taken))
            items)
        + length (
            filter
              (λ (item : CollectionItem). item.oracle_id == oracle_id && contains item.id taken)
              items)
      ≡ length (filter (λ (item : CollectionItem). item.oracle_id == oracle_id) items)
split_count oracle_id taken [] = omega arith
split_count oracle_id taken (item ∷ items) = ground (arith, split_count oracle_id taken items)

have_of-usable :
    (s : Store) (exclude_allocated : Bool) (oracle_id : Text)
    → have_of s exclude_allocated oracle_id ≡ usable s exclude_allocated oracle_id
unfolding have_of owned_free held count_available available_items
have_of-usable s true oracle_id = free_count oracle_id (allocated_item_ids s) s.items
have_of-usable s false oracle_id = split_count oracle_id (allocated_item_ids s) s.items

module _ (s : Store) (exclude_allocated : Bool) where
  abbrev missing_part : TemplateCard → ℕ
  missing_part row = one_if (is_missing s exclude_allocated row)

  -- What a row that is not missing adds.
  abbrev covered_part : (TemplateCard → ℕ) → TemplateCard → ℕ
  covered_part f row = if is_missing s exclude_allocated row then 0 else f row

  module _ (t : CoverTotals) (row : TemplateCard) where
    missing-step :
        (cover_row s exclude_allocated t row).missing_count ≡ t.missing_count + missing_part row
    unfolding cover_row
    missing-step = elim (Bool-cases (is_missing s exclude_allocated row)) [
      | inl gone ↦ rw gone refl
      | inr kept ↦ rw kept (omega arith)
    ]

    rows-step :
        length (cover_row s exclude_allocated t row).missing_rows
        ≡ length t.missing_rows + missing_part row
    unfolding cover_row
    rows-step = elim (Bool-cases (is_missing s exclude_allocated row)) [
      | inl gone ↦ rw gone (length-append t.missing_rows _)
      | inr kept ↦ rw kept (omega arith)
    ]

    weight_total-step :
        (cover_row s exclude_allocated t row).weight_total ≡ t.weight_total + weight_of row.tier
    unfolding cover_row
    weight_total-step = elim (Bool-cases (is_missing s exclude_allocated row)) [
      | inl gone ↦ rw gone refl
      | inr kept ↦ rw kept refl
    ]

    weight_covered-step :
        (cover_row s exclude_allocated t row).weight_covered
        ≡ t.weight_covered + covered_part (λ r. weight_of r.tier) row
    unfolding cover_row
    weight_covered-step = elim (Bool-cases (is_missing s exclude_allocated row)) [
      | inl gone ↦ rw gone (omega arith)
      | inr kept ↦ rw kept refl
    ]

    core_total-step :
        (cover_row s exclude_allocated t row).core_total ≡ t.core_total + one_if (is_core row.tier)
    unfolding cover_row
    core_total-step = elim (Bool-cases (is_missing s exclude_allocated row)) [
      | inl gone ↦ rw gone refl
      | inr kept ↦ rw kept refl
    ]

    core_covered-step :
        (cover_row s exclude_allocated t row).core_covered
        ≡ t.core_covered + covered_part (λ r. one_if (is_core r.tier)) row
    unfolding cover_row
    core_covered-step = elim (Bool-cases (is_missing s exclude_allocated row)) [
      | inl gone ↦ rw gone (omega arith)
      | inr kept ↦ rw kept refl
    ]

  covered-le :
      (f : TemplateCard → ℕ) (rows : List TemplateCard)
      → sum_of (covered_part f) rows ≤ sum_of f rows
  covered-le f [] = omega arith
  covered-le f (row ∷ rows) = elim (Bool-cases (is_missing s exclude_allocated row)) [
    | inl gone ↦ rw gone (omega (arith, covered-le f rows))
    | inr kept ↦ rw kept (omega (arith, covered-le f rows))
  ]

  present_iff :
      (row : TemplateCard) → (missing_part row ≡ 0) ↔ (1 ≤ usable s exclude_allocated row.oracle_id)
  present_iff row = rw (have_of-usable s exclude_allocated row.oracle_id) (ground arith)

  none_missing_iff :
      (rows : List TemplateCard)
      → (sum_of missing_part rows ≡ 0)
        ↔ All (λ (row : TemplateCard). 1 ≤ usable s exclude_allocated row.oracle_id) rows
  none_missing_iff [] = (λ h. tt, λ h. refl)
  none_missing_iff (row ∷ rows) =
      let here = present_iff row in
      let later = none_missing_iff rows in
      (
        λ h. (here.0 (omega (arith, h)), later.0 (omega (arith, h))),
        λ h. omega (arith, here.1 h.0, later.1 h.1),
      )

module _ (s : Store) (exclude_allocated : Bool) (rows : List TemplateCard) where
  weight-le :
      (cover_rows s exclude_allocated rows).weight_covered
      ≤ (cover_rows s exclude_allocated rows).weight_total
  unfolding cover_rows
  weight-le =
      let step = cover_row s exclude_allocated in
      let f : TemplateCard → ℕ = λ row. weight_of row.tier in
      omega (
        arith,
        fold_left-sum step (λ t. t.weight_covered) (covered_part s exclude_allocated f)
            (weight_covered-step s exclude_allocated) no_progress rows,
        fold_left-sum step (λ t. t.weight_total) f (weight_total-step s exclude_allocated)
            no_progress rows,
        covered-le s exclude_allocated f rows,
      )

  core-le :
      (cover_rows s exclude_allocated rows).core_covered
      ≤ (cover_rows s exclude_allocated rows).core_total
  unfolding cover_rows
  core-le =
      let step = cover_row s exclude_allocated in
      let f : TemplateCard → ℕ = λ row. one_if (is_core row.tier) in
      omega (
        arith,
        fold_left-sum step (λ t. t.core_covered) (covered_part s exclude_allocated f)
            (core_covered-step s exclude_allocated) no_progress rows,
        fold_left-sum step (λ t. t.core_total) f (core_total-step s exclude_allocated) no_progress
            rows,
        covered-le s exclude_allocated f rows,
      )

ratio_or-le : (a b : ℕ) (d : ℕ × ℕ) → a ≤ b → d.0 ≤ d.1 → (ratio_or a b d).0 ≤ (ratio_or a b d).1
ratio_or-le a b d h k = ground (arith, h, k)

-- A template misses no card exactly when the collection has a usable copy of each of its rows: an
-- available one, or any when the copies in built decks count as owned. As many rows are listed as
-- are counted missing, and neither coverage is more than the whole.
pub compute_coverage_complete :
    (s : Store) (results : List CoverageDetail) (template_id : ℕ)
    (template_cards : List TemplateCard) (exclude_allocated : Bool) (meta_share : ℕ)
    (persist : Bool)
    → let detail =
        (compute_coverage s results template_id template_cards exclude_allocated meta_share
          persist).0 in
      ((detail.missing_count ≡ 0)
        ↔ All
            (λ (row : TemplateCard). 1 ≤ usable s exclude_allocated row.oracle_id)
            (template_rows template_id template_cards))
      × (length detail.missing ≡ detail.missing_count)
      × (detail.weighted_coverage.0 ≤ detail.weighted_coverage.1)
      × (detail.core_coverage.0 ≤ detail.core_coverage.1)
unfolding compute_coverage cover_rows
compute_coverage_complete s results template_id template_cards exclude_allocated meta_share
      persist =
    let rows = template_rows template_id template_cards in
    let progress = cover_rows s exclude_allocated rows in
    let step = cover_row s exclude_allocated in
    let missing =
      fold_left-sum step (λ t. t.missing_count) (missing_part s exclude_allocated)
        (missing-step s exclude_allocated) no_progress rows in
    let listed =
      fold_left-sum step (λ t. length t.missing_rows) (missing_part s exclude_allocated)
        (rows-step s exclude_allocated) no_progress rows in
    let iff = none_missing_iff s exclude_allocated rows in
    (
      (λ h. iff.0 (omega (arith, h, missing)), λ h. omega (arith, iff.1 h, missing)),
      omega (arith, length-sort missing_leb progress.missing_rows, missing, listed),
      ratio_or-le progress.weight_covered progress.weight_total (0, 1)
          (weight-le s exclude_allocated rows) (omega arith),
      ratio_or-le progress.core_covered progress.core_total (1, 1)
          (core-le s exclude_allocated rows) (omega arith),
    )
