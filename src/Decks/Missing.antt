-- ===== src/Decks/Missing.antt =====
-- `missing_list` (backend/app/services/decks/allocate.py).
use mtg_vault.Base.{
  ℕ, ◌+◌, ◌-◌, ◌*◌, not, ◌&&◌, ◌||◌, Option, none, some, List, [], ◌∷◌, if◌then◌else◌, nat_eq,
  nat_beq, ltb, ◌==◌, filter, contains, length,
}
use mtg_vault.Base.Text.{Text, text_eq}
use mtg_vault.Base.Sorting.{sort, text_leb}
use mtg_vault.Base.Dict.{Dict}
use mtg_vault.Decks.Store.{CollectionItem, DeckAllocation, Card, Store, is_built_deck, item_ids}
use mtg_vault.Decks.Picks.{physical_rows, needs_of, is_basic_id, oracle_name}

pub record MissingRow : Type 0 where
  pub oracle_id : Text
  pub name : Text
  pub needed : ℕ
  pub owned_free : ℕ
  pub missing : ℕ
  pub cheapest_cents : Option ℕ

-- The items in built decks other than this one.
unfoldable pub taken_elsewhere : Store → ℕ → List ℕ
unfolding is_built_deck
taken_elsewhere s deck_id = item_ids (
    filter
      (λ (a : DeckAllocation). is_built_deck s.decks a.deck_id && not (nat_beq a.deck_id deck_id))
      s.allocations)

unfoldable pub owned_free : Store → List ℕ → Text → ℕ
owned_free s taken oracle_id = length (
    filter (λ (item : CollectionItem). item.oracle_id == oracle_id && not (contains item.id taken))
      s.items)

-- The lowest price of a printing that is not digital and has one.
unfoldable pub cheapest : List Card → Text → Option ℕ
cheapest [] oracle_id = none
cheapest (c ∷ cards) oracle_id =
    let rest = cheapest cards oracle_id in
    if c.oracle_id == oracle_id && not c.digital then lower_of c.price_usd_cents rest else rest
  where
    lower_of : Option ℕ → Option ℕ → Option ℕ
    lower_of none rest = rest
    lower_of (some p) none = some p
    lower_of (some p) (some q) = if ltb q p then some q else some p

-- The loop over `needs`, for the cards that are not basic lands: the rows, and the total price.
unfoldable pub missing_from : Store → List ℕ → Dict Text ℕ → List MissingRow × ℕ
missing_from s taken [] = ([], 0)
missing_from s taken ((oracle_id, needed) ∷ needs) =
    let (rows, total) = missing_from s taken needs in
    let free = owned_free s taken oracle_id in
    let price = cheapest s.cards oracle_id in
    if is_basic_id s.oracle_cards oracle_id || nat_beq (needed - free) 0 then (rows, total) else (
      record {
        oracle_id = oracle_id;
        name = oracle_name s.oracle_cards oracle_id;
        needed = needed;
        owned_free = free;
        missing = needed - free;
        cheapest_cents = price;
      }
          ∷ rows,
      elim price [ none ↦ total | some cents ↦ cents * (needed - free) + total ],
    )

-- `missing_list`
unfoldable pub missing_list : Store → ℕ → List MissingRow × ℕ
missing_list s deck_id =
    let (rows, total) =
      missing_from s (taken_elsewhere s deck_id) (needs_of (physical_rows s deck_id)) in
    (sort (λ (x y : MissingRow). text_leb x.name y.name) rows, total)
