-- ===== src/Decks/Distinct.antt =====
-- The picks of a build, counted by item id (backend/app/services/decks/allocate.py).
use mtg_vault.Base.{
  ℕ, zero, suc, ◌+◌, ◌≤◌, ◌≡◌, refl, ap, ◌↔◌, true, false, not, ◌&&◌, none, List, [], ◌∷◌, ◌++◌,
  map, arith, if◌then◌else◌, nat_eq, nat_beq, ltb, ◌==◌, filter, contains, take, sum_of,
}
use mtg_vault.Base.Text.{Text, text_eq, same_text_iff}
use mtg_vault.Base.Sorting.{sum_of-sort}
use mtg_vault.Base.Dict.{Dict, lookup, IsUnique}
use mtg_vault.Decks.Store.{CollectionItem, DeckCard, Store}
use mtg_vault.Decks.Picks.{Picks, free_copies, copies_of, pick_one, pick_all}
use mtg_vault.Decks.Build.{all_distinct}

-- How often a number occurs.
abbrev pub count_of : ℕ → List ℕ → ℕ
count_of i = sum_of (λ j. if nat_beq i j then 1 else 0)

pub contains-count : (i : ℕ) (l : List ℕ) → contains i l ≡ ltb 0 (count_of i l)
contains-count i [] = refl
contains-count i (j ∷ l) = ground (arith, contains-count i l)

distinct→count : (l : List ℕ) → all_distinct l ≡ true → (i : ℕ) → count_of i l ≤ 1
unfolding all_distinct
distinct→count [] h i = omega arith
distinct→count (j ∷ l) h i =
    ground (arith, contains-count j l, contains-count i l, distinct→count l (ground arith) i)

count→distinct : (l : List ℕ) → ((i : ℕ) → count_of i l ≤ 1) → all_distinct l ≡ true
unfolding all_distinct
count→distinct [] f = refl
count→distinct (j ∷ l) f =
    ground (arith, contains-count j l, f j, count→distinct l (λ i. ground (arith, f i)))

-- A list is without repetition exactly when no number occurs twice.
pub all_distinct_iff : (l : List ℕ) → (all_distinct l ≡ true) ↔ ((i : ℕ) → count_of i l ≤ 1)
all_distinct_iff l = (distinct→count l, count→distinct l)

pub count_of-append :
    (i : ℕ) (xs ys : List ℕ) → count_of i (xs ++ ys) ≡ count_of i xs + count_of i ys
count_of-append i [] ys = omega arith
count_of-append i (x ∷ xs) ys = ground (arith, count_of-append i xs ys)

-- How often an item's id occurs.
abbrev pub item_count : ℕ → List CollectionItem → ℕ
item_count i = sum_of (λ (item : CollectionItem). if nat_beq i item.id then 1 else 0)

pub item_count-append :
    (i : ℕ) (xs ys : List CollectionItem)
    → item_count i (xs ++ ys) ≡ item_count i xs + item_count i ys
item_count-append i [] ys = omega arith
item_count-append i (x ∷ xs) ys = omega (arith, item_count-append i xs ys)

item_count-take : (i n : ℕ) (xs : List CollectionItem) → item_count i (take n xs) ≤ item_count i xs
item_count-take i zero xs = omega arith
item_count-take i (suc n) [] = omega arith
item_count-take i (suc n) (x ∷ xs) = omega (arith, item_count-take i n xs)

pub count_of-ids :
    (i : ℕ) (xs : List CollectionItem)
    → count_of i (map (λ (item : CollectionItem). item.id) xs) ≡ item_count i xs
count_of-ids i [] = refl
count_of-ids i (x ∷ xs) = ap (λ (n : ℕ). (if nat_beq i x.id then 1 else 0) + n) (count_of-ids i xs)

module _ (s : Store) (taken : List ℕ) where
  -- The items that are not taken, of one of the given cards.
  abbrev free_of : List Text → List CollectionItem → List CollectionItem
  free_of ids =
      filter
        (λ (item : CollectionItem). contains item.oracle_id ids && not (contains item.id taken))

  abbrev free_one : Text → List CollectionItem → List CollectionItem
  free_one id =
      filter (λ (item : CollectionItem). item.oracle_id == id && not (contains item.id taken))

  free_split :
      (i : ℕ) (id : Text) (ids : List Text) (items : List CollectionItem)
      → contains id ids ≡ false
      → item_count i (free_one id items) + item_count i (free_of ids items)
        ≤ item_count i (free_of (id ∷ ids) items)
  free_split i id ids [] h = omega arith
  free_split i id ids (x ∷ items) h =
      ground (arith, same_text_iff x.oracle_id id, free_split i id ids items h)

  free_bound :
      (i : ℕ) (ids : List Text) (items : List CollectionItem)
      → item_count i (free_of ids items) ≤ (if contains i taken then 0 else item_count i items)
  free_bound i ids [] = ground arith
  free_bound i ids (x ∷ items) = ground (arith, free_bound i ids items)

  module _ (rows : List DeckCard) where
    abbrev keys : Dict Text ℕ → List Text
    keys = map (λ (b : Text × ℕ). b.0)

    absent_key :
        (id : Text) (needs : Dict Text ℕ)
        → lookup id needs ≡ none
        → contains id (keys needs) ≡ false
    absent_key id [] h = refl
    absent_key id ((j, n) ∷ needs) h = ground (arith, absent_key id needs)

    copies_count :
        (i n : ℕ) (id : Text)
        → item_count i (take n (copies_of s taken rows id)) ≤ item_count i (free_one id s.items)
    unfolding free_copies
    copies_count i n id = omega (
      arith,
      item_count-take i n (copies_of s taken rows id),
      sum_of-sort _ (λ (item : CollectionItem). if nat_beq i item.id then 1 else 0)
          (free_one id s.items),
    )

    pick_one-count :
        (i n : ℕ) (id : Text) (picks : Picks)
        → item_count i (pick_one s taken rows id n picks).chosen
          ≤ item_count i picks.chosen + item_count i (free_one id s.items)
    unfolding pick_one
    pick_one-count i n id picks = ground (
      arith,
      copies_count i n id,
      item_count-append i picks.chosen (take n (copies_of s taken rows id)),
    )

    pick_all-count :
        (i : ℕ) (needs : Dict Text ℕ) (picks : Picks)
        → IsUnique needs
        → item_count i (pick_all s taken rows needs picks).chosen
          ≤ item_count i picks.chosen + item_count i (free_of (keys needs) s.items)
    unfolding pick_all
    pick_all-count i [] picks u = omega arith
    pick_all-count i ((id, n) ∷ needs) picks u = omega (
      arith,
      pick_one-count i n id picks,
      pick_all-count i needs (pick_one s taken rows id n picks) u.1,
      free_split i id (keys needs) s.items (absent_key id needs u.0),
    )

    -- Of each item, the picks hold at most what the collection holds, and nothing that is taken.
    pub chosen_bound :
        (i : ℕ) (needs : Dict Text ℕ) (picks : Picks)
        → IsUnique needs
        → picks.chosen ≡ []
        → item_count i (pick_all s taken rows needs picks).chosen
          ≤ (if contains i taken then 0 else item_count i s.items)
    chosen_bound i needs picks u none_yet = omega (
      arith,
      pick_all-count i needs picks u,
      ap (item_count i) none_yet,
      free_bound i (keys needs) s.items,
    )
