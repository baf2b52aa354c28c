-- ===== src/Meta/Coverage.antt =====
-- How much of an archetype's template the collection can field
-- (backend/app/services/meta/coverage.py). A coverage and a rank score are fractions, computed
-- exactly; the meta share is counted in hundredths of a percent. A tier is one of the three that have
-- a weight, and a recorded result is the detail itself, without its id and time.
use mtg_vault.Base.{
  ℕ, ◌+◌, ◌*◌, min, Bool, true, false, ◌&&◌, Option, none, some, List, [], ◌∷◌, ◌++◌, nat_eq,
  nat_beq, ltb, ◌==◌, if◌then◌else◌, length, filter, contains, fold_left,
}
use mtg_vault.Base.Text.{Text, text_eq}
use mtg_vault.Base.Sorting.{text_leb, sort}
use mtg_vault.Decks.Store.{CollectionItem, Store, allocated_item_ids}
use mtg_vault.Decks.Picks.{oracle_name}
use mtg_vault.Decks.Missing.{owned_free, cheapest}

pub data Tier : Type 0 where
  core common flex : Tier

-- `ArchetypeTemplateCard`
pub record TemplateCard : Type 0 where
  pub template_id : ℕ
  pub oracle_id : Text
  pub tier : Tier
  pub typical_count : ℕ

-- `TIER_WEIGHTS`
abbrev pub weight_of : Tier → ℕ
weight_of Tier.core = 3
weight_of Tier.common = 2
weight_of Tier.flex = 1

abbrev pub is_core : Tier → Bool
is_core Tier.core = true
is_core _ = false

-- An entry of `missing_rows`.
pub record Missing : Type 0 where
  pub oracle_id : Text
  pub name : Text
  pub tier : Tier
  pub cheapest_cents : Option ℕ

pub record CoverageDetail : Type 0 where
  pub template_id : ℕ
  pub weighted_coverage : ℕ × ℕ
  pub core_coverage : ℕ × ℕ
  pub missing_count : ℕ
  pub missing_cost_cents : ℕ
  pub conflict_count : ℕ
  pub rank_score : ℕ × ℕ
  pub missing : List Missing

-- `_counts` with `allocated=True`, at one oracle card; `owned_free` is the other one.
unfoldable pub held : Store → List ℕ → Text → ℕ
held s taken oracle_id = length (
    filter (λ (item : CollectionItem). item.oracle_id == oracle_id && contains item.id taken)
      s.items)

-- The copies that count as owned.
unfoldable pub have_of : Store → Bool → Text → ℕ
unfolding owned_free held
have_of s exclude_allocated oracle_id =
    let free = owned_free s (allocated_item_ids s) oracle_id in
    if exclude_allocated then free else free + held s (allocated_item_ids s) oracle_id

-- The counters of the loop of `compute_coverage`.
pub record CoverTotals : Type 0 where
  pub weight_total : ℕ
  pub weight_covered : ℕ
  pub core_total : ℕ
  pub core_covered : ℕ
  pub missing_count : ℕ
  pub missing_cost : ℕ
  pub conflicts : ℕ
  pub missing_rows : List Missing

abbrev pub no_progress : CoverTotals
no_progress = record {
  weight_total = 0;
  weight_covered = 0;
  core_total = 0;
  core_covered = 0;
  missing_count = 0;
  missing_cost = 0;
  conflicts = 0;
  missing_rows = [];
}

abbrev pub is_missing : Store → Bool → TemplateCard → Bool
is_missing s exclude_allocated row = ltb (have_of s exclude_allocated row.oracle_id) 1

abbrev pub cost_of : Option ℕ → ℕ → ℕ
cost_of none count = 0
cost_of (some price) count = price * count

abbrev pub one_if : Bool → ℕ
one_if b = if b then 1 else 0

-- The body of the loop.
unfoldable pub cover_row : Store → Bool → CoverTotals → TemplateCard → CoverTotals
cover_row s exclude_allocated progress row =
    let weight = weight_of row.tier in
    let price = cheapest s.cards row.oracle_id in
    let held_copies = held s (allocated_item_ids s) row.oracle_id in
    let seen = record progress {
      weight_total = progress.weight_total + weight;
      core_total = progress.core_total + one_if (is_core row.tier);
      conflicts = progress.conflicts + one_if (ltb 0 held_copies);
    } in
    if is_missing s exclude_allocated row
    then record seen {
      missing_count = progress.missing_count + 1;
      missing_cost = progress.missing_cost + cost_of price row.typical_count;
      missing_rows =
          progress.missing_rows
          ++ record {
            oracle_id = row.oracle_id;
            name = oracle_name s.oracle_cards row.oracle_id;
            tier = row.tier;
            cheapest_cents = price;
          }
            ∷ [];
    }
    else record seen {
      weight_covered = progress.weight_covered + weight;
      core_covered = progress.core_covered + one_if (is_core row.tier);
    }

unfoldable pub cover_rows : Store → Bool → List TemplateCard → CoverTotals
cover_rows s exclude_allocated = fold_left (cover_row s exclude_allocated) no_progress

-- `a / b if b else d`
abbrev pub ratio_or : ℕ → ℕ → ℕ × ℕ → ℕ × ℕ
ratio_or a b d = if nat_beq b 0 then d else (a, b)

-- `0.7 * weighted + 0.2 * core + 0.1 * min(1.0, meta_share_pct / 10.0)`
unfoldable pub rank_of : ℕ × ℕ → ℕ × ℕ → ℕ → ℕ × ℕ
rank_of (a, b) (c, d) meta_share =
    (7000 * (a * d) + 2000 * (c * b) + min 1000 meta_share * (b * d), 10000 * (b * d))

-- The order of the sorted missing rows.
abbrev pub missing_leb : Missing → Missing → Bool
missing_leb x y =
    if ltb (weight_of y.tier) (weight_of x.tier)
    then true
    else nat_beq (weight_of x.tier) (weight_of y.tier) && text_leb x.name y.name

-- The rows of a template.
abbrev pub template_rows : ℕ → List TemplateCard → List TemplateCard
template_rows template_id = filter (λ (row : TemplateCard). nat_beq row.template_id template_id)

-- `compute_coverage` over the table of template rows: the result, and the recorded results with the one that `persist` adds.
unfoldable pub compute_coverage :
    Store
    → List CoverageDetail
    → ℕ
    → List TemplateCard
    → Bool
    → ℕ
    → Bool
    → CoverageDetail × List CoverageDetail
compute_coverage s results template_id template_cards exclude_allocated meta_share persist =
    let progress = cover_rows s exclude_allocated (template_rows template_id template_cards) in
    let weighted = ratio_or progress.weight_covered progress.weight_total (0, 1) in
    let core = ratio_or progress.core_covered progress.core_total (1, 1) in
    let detail : CoverageDetail = record {
      template_id = template_id;
      weighted_coverage = weighted;
      core_coverage = core;
      missing_count = progress.missing_count;
      missing_cost_cents = progress.missing_cost;
      conflict_count = progress.conflicts;
      rank_score = rank_of weighted core meta_share;
      missing = sort missing_leb progress.missing_rows;
    } in
    (detail, if persist then results ++ detail ∷ [] else results)
