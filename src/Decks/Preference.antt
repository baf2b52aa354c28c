-- ===== src/Decks/Preference.antt =====
-- Which free copies a build takes: the order of `_preference_key` (backend/app/services/decks/allocate.py).
use mtg_vault.Base.{
  ◌↔◌, some, none, refl, inl, inr, Bool-cases, ℕ, ◌≤◌, ◌≡◌, Bool, true, false, not, ◌&&◌, Option,
  List, [], ◌∷◌, arith, if◌then◌else◌, nat_eq, nat_beq, filter, contains, take, drop, zero, suc,
  All, All-imp, ◌==◌, ◌+◌, ◌∙◌,
}
use mtg_vault.Base.Text.{Text, text_eq, same_text_iff}
use mtg_vault.Base.Sorting.{IsSorted, sort-IsSorted, sum_of-sort}
use mtg_vault.Decks.Store.{CollectionItem, Store}
use mtg_vault.Decks.Distinct.{item_count}
use mtg_vault.Decks.Picks.{preference_key, key_leb, free_copies}

key_total : (k l : ℕ × ℕ × ℕ) → key_leb k l ≡ false → key_leb l k ≡ true
unfolding key_leb
key_total (a, b, c) (a', b', c') h = ground arith

key_trans : (k l m : ℕ × ℕ × ℕ) → key_leb k l ≡ true → key_leb l m ≡ true → key_leb k m ≡ true
unfolding key_leb
key_trans (a, b, c) (a', b', c') (a'', b'', c'') h h' = ground arith

-- A key stands before another, part by part.
abbrev pub Before : ℕ × ℕ × ℕ → ℕ × ℕ × ℕ → Type 0
Before (exact, proxy, id) (exact', proxy', id') =
    (exact ≤ exact')
    × (exact ≡ exact' → proxy ≤ proxy')
    × (exact ≡ exact' → proxy ≡ proxy' → id ≤ id')

key_leb→Before : (k l : ℕ × ℕ × ℕ) → key_leb k l ≡ true → Before k l
unfolding key_leb
key_leb→Before (a, b, c) (a', b', c') h = (ground arith, λ e. ground arith, λ e e'. ground arith)

All-drop {ℓ κ} : {A : Type ℓ} (P : A → Type κ) (n : ℕ) (xs : List A) → All P xs → All P (drop n xs)
All-drop P zero xs h = h
All-drop P (suc n) [] h = tt
All-drop P (suc n) (x ∷ xs) h = All-drop P n xs h.1

item_count-split :
    (i n : ℕ) (xs : List CollectionItem)
    → item_count i (take n xs) + item_count i (drop n xs) ≡ item_count i xs
item_count-split i zero xs = omega arith
item_count-split i (suc n) [] = omega arith
item_count-split i (suc n) (x ∷ xs) = omega (arith, item_count-split i n xs)

-- The ranks that a key gives to the printing and to the kind of a copy.
exact_rank :
    (preferred : Option (Text × Text)) (prefer_proxy : Bool) (x : CollectionItem)
    → (((preference_key preferred prefer_proxy x).0 ≡ 0)
        ↔ (preferred ≡ some (x.set_code, x.collector_number)))
      × ((preference_key preferred prefer_proxy x).0 ≤ 1)
unfolding preference_key
exact_rank none prefer_proxy x = ((λ h. absurd (ground (arith, h)), λ h. absurd (cc)), omega arith)
exact_rank (some (set_code, number)) prefer_proxy x =
    let sets = same_text_iff x.set_code set_code in
    let numbers = same_text_iff x.collector_number number in
    (
      (
        λ h.
            let a : x.set_code ≡ set_code = sets.0 (ground (arith, h)) in
            let b : x.collector_number ≡ number = numbers.0 (ground (arith, h)) in rw (a, b) refl,
        λ h. rw (sets.1 (cc), numbers.1 (cc)) refl,
      ),
      ground arith,
    )

kind_rank :
    (prefer_proxy is_proxy : Bool)
    → let rank : ℕ =
        if prefer_proxy then (if is_proxy then 0 else 1) else (if is_proxy then 1 else 0) in
      ((rank ≡ 0) ↔ (is_proxy ≡ prefer_proxy)) × (rank ≤ 1)
kind_rank true true = ((λ h. refl, λ h. refl), omega arith)
kind_rank true false = ((λ h. absurd (ground (arith, h)), λ h. absurd (cc)), omega arith)
kind_rank false true = ((λ h. absurd (ground (arith, h)), λ h. absurd (cc)), omega arith)
kind_rank false false = ((λ h. refl, λ h. refl), omega arith)

same_rank : (r s : ℕ) → r ≤ s → s ≤ 1 → (r ≡ 0 → s ≡ 0) → r ≡ s
same_rank r s h k f = elim (Bool-cases (nat_beq r 0)) [
  | inl first ↦ let z : r ≡ 0 = ground (arith, first) in omega (arith, z, f z)
  | inr later ↦ ground (arith, later, h, k)
]

module _ (preferred : Option (Text × Text)) (prefer_proxy : Bool) where
  abbrev key : CollectionItem → ℕ × ℕ × ℕ
  key = preference_key preferred prefer_proxy

  -- The items of a card that are not taken.
  abbrev free : Store → List ℕ → Text → List CollectionItem
  free s taken oracle_id =
      filter
        (λ (item : CollectionItem). item.oracle_id == oracle_id && not (contains item.id taken))
        s.items

  abbrev order : CollectionItem → CollectionItem → Bool
  order x y = key_leb (key x) (key y)

  -- The copy is of the preferred printing; it is of the wanted kind, a proxy or not.
  abbrev pub IsExact : CollectionItem → Type 0
  IsExact x = preferred ≡ some (x.set_code, x.collector_number)

  abbrev pub IsWanted : CollectionItem → Type 0
  IsWanted x = x.is_proxy ≡ prefer_proxy

  -- The first copy is at least as good a choice as the second: the preferred printing, then the
  -- wanted kind, then the smaller id.
  abbrev pub Preferred : CollectionItem → CollectionItem → Type 0
  Preferred x y =
      (IsExact y → IsExact x)
      × ((IsExact x → IsExact y) → IsWanted y → IsWanted x)
      × ((IsExact x → IsExact y) → (IsWanted x → IsWanted y) → x.id ≤ y.id)

  key-IsWanted : (x : CollectionItem) → (((key x).1 ≡ 0) ↔ IsWanted x) × ((key x).1 ≤ 1)
  unfolding preference_key
  key-IsWanted x = kind_rank prefer_proxy x.is_proxy

  key-id : (x : CollectionItem) → (key x).2 ≡ x.id
  unfolding preference_key
  key-id x = refl

  Before→Preferred : (x y : CollectionItem) → Before (key x) (key y) → Preferred x y
  Before→Preferred x y (a, b, c) =
      let (exact_x, _) = exact_rank preferred prefer_proxy x in
      let (exact_y, bound) = exact_rank preferred prefer_proxy y in
      let (wanted_x, _) = key-IsWanted x in
      let (wanted_y, bound') = key-IsWanted y in
      let same : (IsExact x → IsExact y) → (key x).0 ≡ (key y).0 =
        λ f. same_rank (key x).0 (key y).0 a bound (λ z. exact_y.1 (f (exact_x.0 z))) in
      let same' : (IsExact x → IsExact y) → (IsWanted x → IsWanted y) → (key x).1 ≡ (key y).1 =
        λ f g.
          same_rank (key x).1 (key y).1 (b (same f)) bound' (λ z. wanted_y.1 (g (wanted_x.0 z))) in
      (
        λ e. exact_x.0 (omega (arith, a, exact_y.1 e)),
        λ f e. wanted_x.0 (omega (arith, b (same f), wanted_y.1 e)),
        λ f g. omega (arith, c (same f) (same' f g), key-id x, key-id y),
      )

  first_best :
      (n : ℕ) (xs : List CollectionItem)
      → IsSorted order xs
      → All (λ x. All (Preferred x) (drop n xs)) (take n xs)
  first_best zero xs h = tt
  first_best (suc n) [] h = tt
  first_best (suc n) (x ∷ xs) h = (
    All-imp (λ y. order x y ≡ true) (Preferred x)
        (λ y h. Before→Preferred x y (key_leb→Before (key x) (key y) h)) (drop n xs)
        (All-drop (λ y. order x y ≡ true) n xs h.0),
    first_best n xs h.1,
  )

  -- Of the free copies of a card, however many a build takes, each that it takes is at least as good a
  -- choice as each that it leaves: the preferred printing first, then the wanted kind of copy, proxy
  -- or not, then the smaller id.
  -- Taken and left, they are the items of the card that are not taken already, as often as these
  -- stand in the table.
  pub free_copies-best :
      (s : Store) (taken : List ℕ) (oracle_id : Text) (n : ℕ)
      → let copies = free_copies s taken preferred prefer_proxy oracle_id in
        All (λ x. All (Preferred x) (drop n copies)) (take n copies)
        × ((i : ℕ)
            → item_count i (take n copies) + item_count i (drop n copies)
              ≡ item_count i (
                  filter
                    (λ (item : CollectionItem).
                      item.oracle_id == oracle_id && not (contains item.id taken))
                    s.items))
  unfolding free_copies
  free_copies-best s taken oracle_id n = (
    first_best n (free_copies s taken preferred prefer_proxy oracle_id) (
        sort-IsSorted order (λ x y. key_total (key x) (key y))
          (λ x y z. key_trans (key x) (key y) (key z)) (free s taken oracle_id)),
    λ i.
        item_count-split i n (free_copies s taken preferred prefer_proxy oracle_id)
        ∙ sum_of-sort order (λ (item : CollectionItem). if nat_beq i item.id then 1 else 0)
            (free s taken oracle_id),
  )
