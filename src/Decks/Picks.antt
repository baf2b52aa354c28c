-- ===== src/Decks/Picks.antt =====
-- The choice of copies for a build, and its conflicts (the first part of `build`,
-- backend/app/services/decks/allocate.py).
use mtg_vault.Base.{
  ℕ, ◌+◌, ◌-◌, Bool, true, false, not, ◌&&◌, ◌||◌, Option, none, some, List, [], ◌∷◌, ◌++◌, map,
  if◌then◌else◌, nat_eq, nat_beq, leb, ltb, ◌==◌, is_empty, filter, any, contains, length, take,
  to_set,
}
use mtg_vault.Base.Text.{Text, codes, text_eq, lower, has_part, after_part}
use mtg_vault.Base.Sorting.{sort, text_leb}
use mtg_vault.Base.Dict.{Dict, tally_from}
use mtg_vault.Rules.Cards.{Board}
use mtg_vault.Decks.Store.{CollectionItem, Deck, DeckCard, DeckAllocation, OracleCard, Store}

pub record BuildConflict : Type 0 where
  pub oracle_id : Text
  pub name : Text
  pub needed : ℕ
  pub available : ℕ
  pub blocking_decks : List Text

pub record BuildResult : Type 0 where
  pub allocated : ℕ
  pub conflicts : List BuildConflict
  pub batch_id : Option Text
  pub assumed_basics : ℕ

-- `board in PHYSICAL_BOARDS`
abbrev pub is_physical : Board → Bool
is_physical Board.maybe = false
is_physical _ = true

-- The rows of the deck whose cards go into the box.
unfoldable pub physical_rows : Store → ℕ → List DeckCard
physical_rows s deck_id =
    filter (λ (row : DeckCard). nat_beq row.deck_id deck_id && is_physical row.board) s.deck_cards

-- `needs`
unfoldable pub needs_of : List DeckCard → Dict Text ℕ
unfolding tally_from
needs_of = tally_from (λ (row : DeckCard). row.oracle_id) (λ (row : DeckCard). row.quantity) []

-- `type_line LIKE '%Basic%Land%'`, of one type line: SQLite's `LIKE` ignores the case of ASCII letters.
unfoldable pub is_basic_line : Text → Bool
unfolding has_part after_part lower
is_basic_line type_line = elim (after_part (codes "basic") (lower type_line)) [
  | none ↦ false
  | some rest ↦ has_part (codes "land") rest
]

-- `oracle_id in basic_oracle_ids(db, ...)`
unfoldable pub is_basic_id : List OracleCard → Text → Bool
unfolding is_basic_line
is_basic_id oracle_cards oracle_id =
    any (λ (o : OracleCard). o.oracle_id == oracle_id && is_basic_line o.type_line) oracle_cards

-- `prefer_proxy[oracle_id]`
unfoldable pub prefers_proxy : List DeckCard → Text → Bool
prefers_proxy rows oracle_id =
    any (λ (row : DeckCard). row.oracle_id == oracle_id && row.is_proxy_intent) rows

-- A printing that a row asks for: both of its fields, neither of them empty.
row_printing : DeckCard → Option (Text × Text)
row_printing row = pair row.preferred_set_code row.preferred_collector_number
  where
    pair : Option Text → Option Text → Option (Text × Text)
    pair (some set) (some collector) =
        if is_empty set || is_empty collector then none else some (set, collector)
    pair _ _ = none

-- `preferred_printing[oracle_id]`: that of the last row that asks for one.
unfoldable pub preferred_printing : List DeckCard → Text → Option (Text × Text)
unfolding row_printing
preferred_printing [] oracle_id = none
preferred_printing (row ∷ rows) oracle_id = elim (preferred_printing rows oracle_id) [
  | some printing ↦ some printing
  | none ↦ if row.oracle_id == oracle_id then row_printing row else none
]

-- The key of `_preference_key`: the preferred printing first, then the proxy preference, then the
-- id.
unfoldable pub preference_key : Option (Text × Text) → Bool → CollectionItem → ℕ × ℕ × ℕ
preference_key preferred prefer_proxy item = (exact preferred, proxy_rank, item.id)
  where
    exact : Option (Text × Text) → ℕ
    exact none = 1
    exact (some (set, collector)) =
        if item.set_code == set && item.collector_number == collector then 0 else 1

    proxy_rank : ℕ
    proxy_rank =
        if prefer_proxy then (if item.is_proxy then 0 else 1) else (if item.is_proxy then 1 else 0)

-- `<=` on such keys.
unfoldable pub key_leb : ℕ × ℕ × ℕ → ℕ × ℕ × ℕ → Bool
key_leb (a, b, c) (a', b', c') = ltb a a' || nat_beq a a' && (ltb b b' || nat_beq b b' && leb c c')

-- The free copies of an oracle card, best first.
unfoldable pub free_copies :
    Store → List ℕ → Option (Text × Text) → Bool → Text → List CollectionItem
unfolding preference_key key_leb sort
free_copies s taken preferred prefer_proxy oracle_id =
    sort
      (λ x y.
        key_leb (preference_key preferred prefer_proxy x) (preference_key preferred prefer_proxy y))
      (filter
        (λ (item : CollectionItem). item.oracle_id == oracle_id && not (contains item.id taken))
        s.items)

-- `_oracle_name`
unfoldable pub oracle_name : List OracleCard → Text → Text
oracle_name [] oracle_id = oracle_id
oracle_name (o ∷ oracle_cards) oracle_id =
    if o.oracle_id == oracle_id then o.name else oracle_name oracle_cards oracle_id

-- `_blocking_decks`: the names of the built decks with an allocation of such an item, each once.
unfoldable pub blocking_decks : Store → Text → List Text
unfolding sort text_leb
blocking_decks s oracle_id = sort text_leb (
    to_set (
      map (λ (d : Deck). d.name)
        (filter
          (λ (d : Deck).
            d.is_built
            && any
                (λ (a : DeckAllocation).
                  nat_beq a.deck_id d.id
                  && any
                      (λ (item : CollectionItem).
                        nat_beq item.id a.collection_item_id && item.oracle_id == oracle_id)
                      s.items)
                s.allocations)
          s.decks)))

-- What the loop over `needs` has gathered.
pub record Picks : Type 0 where
  pub chosen : List CollectionItem
  pub conflicts : List BuildConflict
  pub assumed_basics : ℕ

module _ (s : Store) (taken : List ℕ) (rows : List DeckCard) where
  abbrev pub copies_of : Text → List CollectionItem
  copies_of oracle_id =
      free_copies s taken (preferred_printing rows oracle_id) (prefers_proxy rows oracle_id)
        oracle_id

  -- The loop's body for one item of `needs`.
  unfoldable pub pick_one : Text → ℕ → Picks → Picks
  pick_one oracle_id needed picks =
      let copies = copies_of oracle_id in
      if is_basic_id s.oracle_cards oracle_id
      then record picks {
        chosen = picks.chosen ++ take needed copies;
        assumed_basics = picks.assumed_basics + (needed - length copies);
      }
      else if ltb (length copies) needed
      then record picks {
        conflicts =
            picks.conflicts
            ++ record {
              oracle_id = oracle_id;
              name = oracle_name s.oracle_cards oracle_id;
              needed = needed;
              available = length copies;
              blocking_decks = blocking_decks s oracle_id;
            }
              ∷ [];
      }
      else record picks { chosen = picks.chosen ++ take needed copies }

  unfoldable pub pick_all : Dict Text ℕ → Picks → Picks
  pick_all [] picks = picks
  pick_all ((oracle_id, needed) ∷ needs) picks = pick_all needs (pick_one oracle_id needed picks)
