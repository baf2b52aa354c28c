-- ===== src/Base/Sorting.antt =====
-- `list.sort` and `sorted`: a stable insertion sort by a Boolean order, with the orders of texts
-- and of numbers.
use Prim.Native.Nat.{ℕ, ◌+◌}
use mathlib.Core.Path.{◌≡◌, refl}
use mathlib.Core.Bool.{Bool, true, false, ◌&&◌, ◌||◌}
use mathlib.Core.List.{List, [], ◌∷◌}
use native.Mathlib.Omega.{arith}
use mtg_vault.Base.Tests.{if◌then◌else◌, ltb, nat_beq}
use mtg_vault.Base.Lists.{All, All-imp, length, sum_of}
use mtg_vault.Base.Text.{Text}

-- `s <= t`, by code points.
unfoldable pub text_leb : Text → Text → Bool
text_leb [] t = true
text_leb (c ∷ s) [] = false
text_leb (c ∷ s) (d ∷ t) = ltb c d || nat_beq c d && text_leb s t

module _ {ℓ} {A : Type ℓ} (leq : A → A → Bool) where
  -- In front of the first element that is not smaller.
  unfoldable pub insert_sorted : A → List A → List A
  insert_sorted x [] = x ∷ []
  insert_sorted x (y ∷ ys) =
      let rest = insert_sorted x ys in if leq x y then x ∷ y ∷ ys else y ∷ rest

  unfoldable pub sort : List A → List A
  unfolding insert_sorted
  sort [] = []
  sort (x ∷ xs) = insert_sorted x (sort xs)

  -- No element is larger than a later one.
  abbrev pub IsSorted : List A → Type 0
  IsSorted [] = Unit
  IsSorted (x ∷ xs) = All (λ y. leq x y ≡ true) xs × IsSorted xs

  module _ {κ} (P : A → Type κ) where
    insert_sorted-All : (x : A) (xs : List A) → P x → All P xs → All P (insert_sorted x xs)
    unfolding insert_sorted
    insert_sorted-All x [] h k = (h, tt)
    insert_sorted-All x (y ∷ ys) h k = keep (insert_sorted-All x ys h k.1) (leq x y)
      where
        keep :
            All P (insert_sorted x ys)
            → (b : Bool) → All P (if b then x ∷ y ∷ ys else y ∷ insert_sorted x ys)
        keep rest true = (h, k)
        keep rest false = (k.0, rest)

    -- Sorting keeps what holds of every member.
    pub sort-All : (xs : List A) → All P xs → All P (sort xs)
    unfolding sort
    sort-All [] h = tt
    sort-All (x ∷ xs) h = insert_sorted-All x (sort xs) h.0 (sort-All xs h.1)

    insert_sorted-All-inv : (x : A) (xs : List A) → All P (insert_sorted x xs) → P x × All P xs
    unfolding insert_sorted
    insert_sorted-All-inv x [] h = h
    insert_sorted-All-inv x (y ∷ ys) h = take_out (leq x y) h (insert_sorted-All-inv x ys)
      where
        take_out :
            (b : Bool)
            → All P (if b then x ∷ y ∷ ys else y ∷ insert_sorted x ys)
            → (All P (insert_sorted x ys) → P x × All P ys)
            → P x × All P (y ∷ ys)
        take_out true h rest = h
        take_out false h rest = let (a, b) = rest (h.1) in (a, (h.0, b))

    -- What holds of every member of the sorted list holds of every member.
    pub All-of-sort : (xs : List A) → All P (sort xs) → All P xs
    unfolding sort
    All-of-sort [] h = tt
    All-of-sort (x ∷ xs) h =
        let (a, b) = insert_sorted-All-inv x (sort xs) h in (a, All-of-sort xs b)

  sum_of-insert_sorted :
      (f : A → ℕ) (x : A) (xs : List A) → sum_of f (insert_sorted x xs) ≡ f x + sum_of f xs
  unfolding insert_sorted
  sum_of-insert_sorted f x [] = refl
  sum_of-insert_sorted f x (y ∷ ys) = ground (arith, sum_of-insert_sorted f x ys)

  -- Sorting keeps every sum over the members, and so every count of them.
  pub sum_of-sort : (f : A → ℕ) (xs : List A) → sum_of f (sort xs) ≡ sum_of f xs
  unfolding sort
  sum_of-sort f [] = refl
  sum_of-sort f (x ∷ xs) = ground (arith, sum_of-insert_sorted f x (sort xs), sum_of-sort f xs)

  length-insert_sorted : (x : A) (xs : List A) → length (insert_sorted x xs) ≡ length xs + 1
  unfolding insert_sorted
  length-insert_sorted x [] = omega arith
  length-insert_sorted x (y ∷ ys) = ground (arith, length-insert_sorted x ys)

  pub length-sort : (xs : List A) → length (sort xs) ≡ length xs
  unfolding sort
  length-sort [] = refl
  length-sort (x ∷ xs) = omega (arith, length-insert_sorted x (sort xs), length-sort xs)

  module _ (total : (x y : A) → leq x y ≡ false → leq y x ≡ true)
      (trans : (x y z : A) → leq x y ≡ true → leq y z ≡ true → leq x z ≡ true) where
    insert_sorted-IsSorted : (x : A) (xs : List A) → IsSorted xs → IsSorted (insert_sorted x xs)
    unfolding insert_sorted
    insert_sorted-IsSorted x [] h = (tt, tt)
    insert_sorted-IsSorted x (y ∷ ys) h = keep (insert_sorted-IsSorted x ys h.1) (leq x y) refl
      where
        keep :
            IsSorted (insert_sorted x ys)
            → (b : Bool) → leq x y ≡ b
            → IsSorted (if b then x ∷ y ∷ ys else y ∷ insert_sorted x ys)
        keep rest true e = (
          (e, All-imp (λ z. leq y z ≡ true) (λ z. leq x z ≡ true) (λ z. trans x y z e) ys h.0),
          h,
        )
        keep rest false e = (insert_sorted-All (λ z. leq y z ≡ true) x ys (total x y e) h.0, rest)

    -- The result is in order.
    pub sort-IsSorted : (xs : List A) → IsSorted (sort xs)
    unfolding sort
    sort-IsSorted [] = tt
    sort-IsSorted (x ∷ xs) = insert_sorted-IsSorted x (sort xs) (sort-IsSorted xs)
