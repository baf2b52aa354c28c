-- ===== src/Decks/Invariant.antt =====
-- The invariant of the tables that `build` and `unbuild` write
-- (backend/app/services/decks/allocate.py).
use mtg_vault.Base.{
  ℕ, suc, ◌≡◌, refl, ap, ◌≢◌, ◌⊎◌, true, ◌&&◌, List, [], ◌∷◌, ◌++◌, map, arith, if◌then◌else◌,
  nat_eq, nat_beq, filter, any, contains, length, All, ok,
}
use mtg_vault.Base.Text.{Text, text_eq}
use mtg_vault.Base.Dict.{tally_from-IsUnique}
use mtg_vault.Decks.Store.{
  CollectionItem, Deck, DeckAllocation, Store, is_built_deck, item_ids, allocated_item_ids,
}
use mtg_vault.Decks.Picks.{BuildResult, Picks, physical_rows, needs_of, pick_all}
use mtg_vault.Decks.Build.{all_distinct, write_deck, commit, build}
use mtg_vault.Decks.Distinct.{
  contains-count, all_distinct_iff, count_of-append, count_of-ids, chosen_bound,
}

abbrev pub ids_of_items : List CollectionItem → List ℕ
ids_of_items = map (λ (item : CollectionItem). item.id)

-- The allocations of one deck for some copies.
abbrev pub sleeved : ℕ → List CollectionItem → List DeckAllocation
sleeved deck_id =
    map (λ (item : CollectionItem). record { collection_item_id = item.id; deck_id = deck_id })

-- Item ids are distinct, no copy is allocated twice, and only built decks hold copies.
pub record IsValid (s : Store) : Type 0 where
  pub items_distinct : all_distinct (ids_of_items s.items) ≡ true
  pub allocations_distinct : all_distinct (item_ids s.allocations) ≡ true
  pub allocations_built :
      All (λ (a : DeckAllocation). is_built_deck s.decks a.deck_id ≡ true) s.allocations

-- The deck is a row of the table, which is built just when the deck says so.
pub record IsStored (s : Store) (deck : Deck) : Type 0 where
  pub present : any (λ (d : Deck). nat_beq d.id deck.id) s.decks ≡ true
  pub agrees : is_built_deck s.decks deck.id ≡ deck.is_built

keep_built :
    (decks : List Deck) (allocations : List DeckAllocation)
    → All (λ (a : DeckAllocation). is_built_deck decks a.deck_id ≡ true) allocations
    → filter (λ (a : DeckAllocation). is_built_deck decks a.deck_id) allocations ≡ allocations
keep_built decks [] h = refl
keep_built decks (a ∷ allocations) h = ground (arith, keep_built decks allocations h.1)

-- In a valid store the taken copies are the allocated ones.
pub allocated_item_ids-IsValid :
    (s : Store) → IsValid s → allocated_item_ids s ≡ item_ids s.allocations
unfolding allocated_item_ids
allocated_item_ids-IsValid s v = ap item_ids (keep_built s.decks s.allocations v.allocations_built)

item_ids-sleeved :
    (allocations : List DeckAllocation) (deck_id : ℕ) (chosen : List CollectionItem)
    → item_ids (allocations ++ sleeved deck_id chosen) ≡ item_ids allocations ++ ids_of_items chosen
item_ids-sleeved [] deck_id [] = refl
item_ids-sleeved [] deck_id (x ∷ chosen) = ap (◌∷◌ x.id) (item_ids-sleeved [] deck_id chosen)
item_ids-sleeved (a ∷ allocations) deck_id chosen =
    ap (◌∷◌ a.collection_item_id) (item_ids-sleeved allocations deck_id chosen)

abbrev pub nothing_picked : Picks
nothing_picked = record { chosen = []; conflicts = []; assumed_basics = 0 }

-- What `build` picks.
abbrev pub picks_of : Store → ℕ → Picks
picks_of s deck_id =
    let rows = physical_rows s deck_id in
    pick_all s (allocated_item_ids s) rows (needs_of rows) nothing_picked

-- In a valid store the picks of a build never break the UNIQUE constraint.
pub picks-distinct :
    (s : Store) (deck_id : ℕ)
    → IsValid s
    → all_distinct (item_ids (s.allocations ++ sleeved deck_id (picks_of s deck_id).chosen)) ≡ true
unfolding needs_of
picks-distinct s deck_id v =
    let rows = physical_rows s deck_id in
    let chosen = (picks_of s deck_id).chosen in
    (all_distinct_iff _).1 (λ i. rw (item_ids-sleeved s.allocations deck_id chosen) (
      ground (
        arith,
        count_of-append i (item_ids s.allocations) (ids_of_items chosen),
        count_of-ids i chosen,
        count_of-ids i s.items,
        contains-count i (item_ids s.allocations),
        (all_distinct_iff (item_ids s.allocations)).0 v.allocations_distinct i,
        (all_distinct_iff (ids_of_items s.items)).0 v.items_distinct i,
        ap (contains i) (allocated_item_ids-IsValid s v),
        chosen_bound s (allocated_item_ids s) rows i (needs_of rows) nothing_picked
            (tally_from-IsUnique _ _ [] rows tt) refl,
      )))

pub is_built-write :
    (decks : List Deck) (deck : Deck) (i : ℕ)
    → is_built_deck (write_deck deck decks) i ≡ (
        if nat_beq deck.id i
        then deck.is_built && any (λ (d : Deck). nat_beq d.id deck.id) decks
        else is_built_deck decks i)
unfolding is_built_deck write_deck
is_built-write [] deck i = ground arith
is_built-write (d ∷ decks) deck i = ground (arith, is_built-write decks deck i)

pub sleeved-built :
    (decks : List Deck) (deck_id : ℕ) (chosen : List CollectionItem)
    → is_built_deck decks deck_id ≡ true
    → All (λ (a : DeckAllocation). is_built_deck decks a.deck_id ≡ true) (sleeved deck_id chosen)
sleeved-built decks deck_id [] h = tt
sleeved-built decks deck_id (x ∷ chosen) h = (h, sleeved-built decks deck_id chosen h)

module _ (batch now : Text) (s s' : Store) (deck : Deck) (r : BuildResult) where
  -- What a build that found no conflict wrote.
  pub build_success :
      build batch now s deck ≡ ok (r, s')
      → r.conflicts ≡ []
      → ((picks_of s deck.id).conflicts ≡ [])
        × (r.allocated ≡ length (sleeved deck.id (picks_of s deck.id).chosen))
        × (r.assumed_basics ≡ (picks_of s deck.id).assumed_basics)
        × (s'.items ≡ s.items)
        × (s'.allocations ≡ s.allocations ++ sleeved deck.id (picks_of s deck.id).chosen)
        × (s'.decks ≡ write_deck (record deck { is_built = true; updated_at = now }) s.decks)
  unfolding build commit
  build_success h e = ground arith

  pub build_conflicts :
      build batch now s deck ≡ ok (r, s')
      → ((r.conflicts ≡ []) × ((picks_of s deck.id).conflicts ≡ []))
        ⊎ ((r.conflicts ≡ (picks_of s deck.id).conflicts)
            × (r.conflicts ≢ [])
            × (r.allocated ≡ 0)
            × (s' ≡ s))
  unfolding build commit
  build_conflicts h = ground arith

pub length-sleeved :
    (deck_id : ℕ) (chosen : List CollectionItem) → length (sleeved deck_id chosen) ≡ length chosen
length-sleeved deck_id [] = refl
length-sleeved deck_id (x ∷ chosen) = ap suc (length-sleeved deck_id chosen)
