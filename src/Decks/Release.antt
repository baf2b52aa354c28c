-- ===== src/Decks/Release.antt =====
-- `unbuild` and `missing_list` beside `build` (backend/app/services/decks/allocate.py).
use mtg_vault.Base.{
  ℕ, ◌≤◌, ◌≡◌, refl, ap, ◌∙◌, ◌≢◌, ◌↔◌, Bool, true, false, not, ◌&&◌, List, [], ◌∷◌, ◌++◌, arith,
  nat_eq, nat_beq, filter, length, All, ok, filter-append,
}
use mathlib.Core.List.{append-nil}
use mtg_vault.Base.Text.{Text}
use mtg_vault.Base.Sorting.{sort, length-sort}
use mtg_vault.Decks.Store.{
  CollectionItem, Deck, DeckAllocation, Store, is_built_deck, item_ids, allocated_item_ids,
}
use mtg_vault.Decks.Picks.{BuildResult, physical_rows, needs_of}
use mtg_vault.Decks.Build.{write_deck, build, unbuild, held_by}
use mtg_vault.Decks.Cover.{Covered, missing_from-nil, Covered→All, All→Covered}
use mtg_vault.Decks.Distinct.{count_of, all_distinct_iff}
use mtg_vault.Decks.Invariant.{IsValid, IsStored, sleeved, picks_of, is_built-write, build_success}
use mtg_vault.Decks.Missing.{taken_elsewhere, missing_from, missing_list}

abbrev kept : ℕ → List DeckAllocation → List DeckAllocation
kept deck_id = filter (λ (a : DeckAllocation). not (nat_beq a.deck_id deck_id))

count_of-kept :
    (i deck_id : ℕ) (allocations : List DeckAllocation)
    → count_of i (item_ids (kept deck_id allocations)) ≤ count_of i (item_ids allocations)
count_of-kept i deck_id [] = omega arith
count_of-kept i deck_id (a ∷ allocations) = ground (arith, count_of-kept i deck_id allocations)

kept-built :
    (decks : List Deck) (deck : Deck) (allocations : List DeckAllocation)
    → All (λ (a : DeckAllocation). is_built_deck decks a.deck_id ≡ true) allocations
    → All
        (λ (a : DeckAllocation). is_built_deck (write_deck deck decks) a.deck_id ≡ true)
        (kept deck.id allocations)
kept-built decks deck [] h = tt
kept-built decks deck (a ∷ allocations) h =
    ground (arith, h.0, is_built-write decks deck a.deck_id, kept-built decks deck allocations h.1)

-- Unbuilding keeps the invariant of a valid store, releases every copy of the deck, and keeps those
-- of the others.
pub unbuild-IsValid :
    (batch now : Text) (s : Store) (deck : Deck)
    → IsValid s
    → let (released, s') = unbuild batch now s deck in
      IsValid s'
      × (held_by deck.id s'.allocations ≡ [])
      × (released ≡ length (held_by deck.id s.allocations))
      × ((other : ℕ) → other ≢ deck.id → held_by other s'.allocations ≡ held_by other s.allocations)
unfolding unbuild
unbuild-IsValid batch now s deck v = (
  record {
    items_distinct = v.items_distinct;
    allocations_distinct = (all_distinct_iff (item_ids (kept deck.id s.allocations))).1 (λ i.
        omega (
          arith,
          count_of-kept i deck.id s.allocations,
          (all_distinct_iff (item_ids s.allocations)).0 v.allocations_distinct i,
        ));
    allocations_built =
        kept-built s.decks (record deck { is_built = false; updated_at = now }) s.allocations
          v.allocations_built;
  },
  none_held deck.id s.allocations,
  refl,
  λ other apart. others_held deck.id other s.allocations apart,
)
  where
    none_held : (id : ℕ) (allocations : List DeckAllocation) → held_by id (kept id allocations) ≡ []
    none_held id = elim [ [] ↦ refl | a ∷ (rest → ih) ↦ ground (arith, ih) ]

    others_held :
        (id other : ℕ) (allocations : List DeckAllocation)
        → other ≢ id
        → held_by other (kept id allocations) ≡ held_by other allocations
    others_held id other = elim [ [] ↦ λ h. refl | a ∷ (rest → ih) ↦ λ h. ground (arith, ih h) ]

kept_foreign :
    (decks : List Deck) (deck_id : ℕ) (allocations : List DeckAllocation)
    → is_built_deck decks deck_id ≡ false
    → All (λ (a : DeckAllocation). is_built_deck decks a.deck_id ≡ true) allocations
    → kept deck_id allocations ≡ allocations
kept_foreign decks deck_id [] h k = refl
kept_foreign decks deck_id (a ∷ allocations) h k =
    ground (arith, h, k.0, kept_foreign decks deck_id allocations h k.1)

held_foreign :
    (decks : List Deck) (deck_id : ℕ) (allocations : List DeckAllocation)
    → is_built_deck decks deck_id ≡ false
    → All (λ (a : DeckAllocation). is_built_deck decks a.deck_id ≡ true) allocations
    → held_by deck_id allocations ≡ []
held_foreign decks deck_id [] h k = refl
held_foreign decks deck_id (a ∷ allocations) h k =
    ground (arith, h, k.0, held_foreign decks deck_id allocations h k.1)

kept-sleeved :
    (deck_id : ℕ) (chosen : List CollectionItem) → kept deck_id (sleeved deck_id chosen) ≡ []
kept-sleeved deck_id [] = refl
kept-sleeved deck_id (x ∷ chosen) = ground (arith, kept-sleeved deck_id chosen)

held_sleeved :
    (deck_id : ℕ) (chosen : List CollectionItem)
    → held_by deck_id (sleeved deck_id chosen) ≡ sleeved deck_id chosen
held_sleeved deck_id [] = refl
held_sleeved deck_id (x ∷ chosen) = ground (arith, held_sleeved deck_id chosen)

-- In a valid store, for a deck that is a row of the table and not built: unbuilding it after a build
-- with no conflict releases as many copies as the build allocated, and the allocations and the items
-- are again those before the build.
pub unbuild-build :
    (batch now batch' now' : Text) (s s' : Store) (deck deck' : Deck) (r : BuildResult)
    → IsValid s
    → IsStored s deck
    → deck.is_built ≡ false
    → build batch now s deck ≡ ok (r, s')
    → r.conflicts ≡ []
    → deck'.id ≡ deck.id
    → let (released, s'') = unbuild batch' now' s' deck' in
      (released ≡ r.allocated) × (s''.allocations ≡ s.allocations) × (s''.items ≡ s.items)
unfolding unbuild
unbuild-build batch now batch' now' s s' deck deck' r v stored open' e clear same =
    let (_, allocated, _, items, allocations, _) = build_success batch now s s' deck r e clear in
    let chosen = (picks_of s deck.id).chosen in
    let unbuilt : is_built_deck s.decks deck.id ≡ false = stored.agrees ∙ open' in
    (
      rw (same, allocations, allocated)
          (ap length (
            filter-append _ s.allocations (sleeved deck.id chosen)
            ∙ rw (held_foreign s.decks deck.id s.allocations unbuilt v.allocations_built)
                (held_sleeved deck.id chosen))),
      rw (same, allocations)
          (filter-append _ s.allocations (sleeved deck.id chosen)
            ∙ rw (kept_foreign s.decks deck.id s.allocations unbuilt v.allocations_built) (
                ap (λ (l : List DeckAllocation). s.allocations ++ l) (kept-sleeved deck.id chosen)
                ∙ append-nil s.allocations)),
      items,
    )

elsewhere_foreign :
    (decks : List Deck) (deck_id : ℕ) (allocations : List DeckAllocation)
    → is_built_deck decks deck_id ≡ false
    → item_ids (
        filter
          (λ (a : DeckAllocation). is_built_deck decks a.deck_id && not (nat_beq a.deck_id deck_id))
          allocations)
      ≡ item_ids (filter (λ (a : DeckAllocation). is_built_deck decks a.deck_id) allocations)
elsewhere_foreign decks deck_id [] h = refl
elsewhere_foreign decks deck_id (a ∷ allocations) h =
    ground (arith, h, elsewhere_foreign decks deck_id allocations h)

sort-nil {ℓ} : {A : Type ℓ} (leq : A → A → Bool) (xs : List A) → (sort leq xs ≡ []) ↔ (xs ≡ [])
sort-nil {A} leq xs = (
  λ h. length-nil xs (omega (arith, length-sort leq xs, ap length h)),
  λ h. length-nil (sort leq xs) (omega (arith, length-sort leq xs, ap length h)),
)
  where
    length-nil : (ys : List A) → length ys ≡ 0 → ys ≡ []
    length-nil [] h = refl
    length-nil (y ∷ ys) h = absurd (omega arith)

-- The missing list of a deck that is not built is empty exactly when every card but a basic land
-- has enough free copies: the same condition under which `build` reports no conflict.
pub missing_list_iff :
    (s : Store) (deck_id : ℕ)
    → is_built_deck s.decks deck_id ≡ false
    → ((missing_list s deck_id).0 ≡ []) ↔ Covered s (allocated_item_ids s) (physical_rows s deck_id)
unfolding missing_list
missing_list_iff s deck_id open' =
    let rows = physical_rows s deck_id in
    let taken = taken_elsewhere s deck_id in
    let same : taken ≡ allocated_item_ids s =
      unfold taken_elsewhere allocated_item_ids in
      elsewhere_foreign s.decks deck_id s.allocations open' in
    let parts = missing_from-nil s taken (needs_of rows) in
    let sorted = sort-nil _ (missing_from s taken (needs_of rows)).0 in
    (
      λ h. rw (← same) (All→Covered s taken rows (parts.0 (sorted.0 h))),
      λ h. sorted.1 (parts.1 (Covered→All s taken rows (rw same h))),
    )
