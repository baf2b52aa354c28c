-- ===== src/Base/Lists.antt =====
-- Lists with Boolean tests, measured by native numbers: the comprehensions, `sum`, `any`, slices
-- and set membership of the Python sources, and their laws.
use Prim.Native.Nat.{ℕ, zero, suc, ◌+◌, min}
use mathlib.Core.Path.{◌≡◌, refl, sym, subst}
use mathlib.Core.Bool.{Bool, true, false, ◌&&◌, ◌||◌}
use mathlib.Core.List.{List, [], ◌∷◌, ◌++◌}
use mathlib.Core.Option.{Option, none, some}
use mathlib.Core.Logic.{◌≢◌, inl, inr}
use native.Mathlib.Omega.{arith}
use mtg_vault.Base.Tests.{Eq, ◌==◌, if◌then◌else◌, Bool-cases}

module _ {ℓ} {A : Type ℓ} where
  abbrev pub length : List A → ℕ
  length [] = 0
  length (x ∷ xs) = suc (length xs)

  -- `not xs`
  abbrev pub is_empty : List A → Bool
  is_empty [] = true
  is_empty (x ∷ xs) = false

  -- `[x for x in xs if p(x)]`
  abbrev pub filter : (A → Bool) → List A → List A
  filter p [] = []
  filter p (x ∷ xs) = let rest = filter p xs in if p x then x ∷ rest else rest

  abbrev pub any : (A → Bool) → List A → Bool
  any p [] = false
  any p (x ∷ xs) = p x || any p xs

  abbrev pub all : (A → Bool) → List A → Bool
  all p [] = true
  all p (x ∷ xs) = p x && all p xs

  -- `sum(f(x) for x in xs)`
  abbrev pub sum_of : (A → ℕ) → List A → ℕ
  sum_of f [] = 0
  sum_of f (x ∷ xs) = f x + sum_of f xs

  -- `xs[:n]`
  abbrev pub take : ℕ → List A → List A
  take zero xs = []
  take (suc n) [] = []
  take (suc n) (x ∷ xs) = x ∷ take n xs

  -- `xs[n:]`
  abbrev pub drop : ℕ → List A → List A
  drop zero xs = xs
  drop (suc n) [] = []
  drop (suc n) (x ∷ xs) = drop n xs

  abbrev pub replicate : ℕ → A → List A
  replicate zero a = []
  replicate (suc n) a = a ∷ replicate n a

  -- Every member satisfies the predicate.
  abbrev pub All {κ} : (A → Type κ) → List A → Type κ
  All P [] = Unit
  All P (x ∷ xs) = P x × All P xs

  pub append_one-ne-nil : (xs : List A) (x : A) → xs ++ x ∷ [] ≢ []
  append_one-ne-nil [] x h = cc
  append_one-ne-nil (y ∷ ys) x h = cc

  pub length-append : (xs ys : List A) → length (xs ++ ys) ≡ length xs + length ys
  length-append [] ys = omega arith
  length-append (x ∷ xs) ys = omega (arith, length-append xs ys)

  pub length-take : (n : ℕ) (xs : List A) → length (take n xs) ≡ min n (length xs)
  length-take zero xs = omega arith
  length-take (suc n) [] = omega arith
  length-take (suc n) (x ∷ xs) = omega (arith, length-take n xs)

  pub filter-append :
      (p : A → Bool) (xs ys : List A) → filter p (xs ++ ys) ≡ filter p xs ++ filter p ys
  filter-append p [] ys = refl
  filter-append p (x ∷ xs) ys = ground (arith, filter-append p xs ys)

  module _ {κ} (P : A → Type κ) where
    pub All-append : (xs ys : List A) → All P xs → All P ys → All P (xs ++ ys)
    All-append [] ys h k = k
    All-append (x ∷ xs) ys h k = (h.0, All-append xs ys h.1 k)

    pub All-of-append : (xs ys : List A) → All P (xs ++ ys) → All P xs × All P ys
    All-of-append [] ys h = (tt, h)
    All-of-append (x ∷ xs) ys h = let (a, b) = All-of-append xs ys h.1 in ((h.0, a), b)

    pub All-take : (n : ℕ) (xs : List A) → All P xs → All P (take n xs)
    All-take zero xs h = tt
    All-take (suc n) [] h = tt
    All-take (suc n) (x ∷ xs) h = (h.0, All-take n xs h.1)

    pub All-filter : (p : A → Bool) (xs : List A) → All P xs → All P (filter p xs)
    All-filter p [] h = tt
    All-filter p (x ∷ xs) h = keep (All-filter p xs h.1) (p x)
      where
        keep : All P (filter p xs) → (b : Bool) → All P (if b then x ∷ filter p xs else filter p xs)
        keep rest true = (h.0, rest)
        keep rest false = rest

  pub All-imp {κ μ} :
      (P : A → Type κ) (Q : A → Type μ)
      → ((x : A) → P x → Q x)
      → (xs : List A) → All P xs
      → All Q xs
  All-imp P Q f [] h = tt
  All-imp P Q f (x ∷ xs) h = (f x h.0, All-imp P Q f xs h.1)

  -- What a comprehension keeps has passed its test.
  pub filter-All : (p : A → Bool) (xs : List A) → All (λ x. p x ≡ true) (filter p xs)
  filter-All p [] = tt
  filter-All p (x ∷ xs) = ground (arith, filter-All p xs)

  -- A comprehension is empty exactly when no member passes its test.
  pub filter-nil→All : (p : A → Bool) (xs : List A) → filter p xs ≡ [] → All (λ x. p x ≡ false) xs
  filter-nil→All p [] h = tt
  filter-nil→All p (x ∷ xs) h = ground (arith, filter-nil→All p xs)

  pub All→filter-nil : (p : A → Bool) (xs : List A) → All (λ x. p x ≡ false) xs → filter p xs ≡ []
  All→filter-nil p [] h = refl
  All→filter-nil p (x ∷ xs) h = ground (arith, All→filter-nil p xs h.1)

-- A loop that updates its state with each member.
abbrev pub fold_left {ℓ κ} : {A : Type ℓ} {S : Type κ} → (S → A → S) → S → List A → S
fold_left f s [] = s
fold_left f s (x ∷ xs) = fold_left f (f s x) xs

-- A counter to which each member adds its part ends with the sum of the parts.
pub fold_left-sum {ℓ κ} :
    {A : Type ℓ} {S : Type κ} (f : S → A → S) (g : S → ℕ) (part : A → ℕ)
    → ((s : S) (x : A) → g (f s x) ≡ g s + part x)
    → (s : S) (xs : List A) → g (fold_left f s xs) ≡ g s + sum_of part xs
fold_left-sum f g part step s [] = omega arith
fold_left-sum f g part step s (x ∷ xs) =
    omega (arith, step s x, fold_left-sum f g part step (f s x) xs)

-- `[f(x) for x in xs]` where some members contribute nothing.
abbrev pub filter_map {ℓ κ} : {A : Type ℓ} {B : Type κ} → (A → Option B) → List A → List B
filter_map f [] = []
filter_map f (x ∷ xs) = let rest = filter_map f xs in elim (f x) [ none ↦ rest | some y ↦ y ∷ rest ]

module _ {ℓ κ} {A : Type ℓ} {B : Type κ} (f : A → Option B) where
  pub filter_map-nil→All : (xs : List A) → filter_map f xs ≡ [] → All (λ x. f x ≡ none) xs
  filter_map-nil→All [] h = tt
  filter_map-nil→All (x ∷ xs) h = ground (arith, filter_map-nil→All xs)

  pub All→filter_map-nil : (xs : List A) → All (λ x. f x ≡ none) xs → filter_map f xs ≡ []
  All→filter_map-nil [] h = refl
  All→filter_map-nil (x ∷ xs) h = ground (arith, All→filter_map-nil xs h.1)

module _ {ℓ} {A : Type ℓ} ⦃e : Eq A⦄ where
  -- `x in xs`, for a list and for a set, which is the list of its members.
  abbrev pub contains : A → List A → Bool
  contains a [] = false
  contains a (x ∷ xs) = a == x || contains a xs

  -- `set(xs)`, its members in the order of their first occurrence.
  abbrev pub set_insert : A → List A → List A
  set_insert a xs = if contains a xs then xs else a ∷ xs

  abbrev pub to_set : List A → List A
  to_set [] = []
  to_set (x ∷ xs) = set_insert x (to_set xs)

  -- `xs & ys`
  abbrev pub intersect : List A → List A → List A
  intersect xs ys = filter (λ x. contains x ys) xs

  -- A comprehension holds the members that pass its test.
  pub contains-filter :
      (a : A) (p : A → Bool) (xs : List A) → contains a (filter p xs) ≡ (contains a xs && p a)
  contains-filter a p [] = refl
  contains-filter a p (x ∷ xs) = ground (arith, e.beq_iff a x, contains-filter a p xs)

  pub contains-append :
      (a : A) (xs ys : List A) → contains a (xs ++ ys) ≡ (contains a xs || contains a ys)
  contains-append a [] ys = refl
  contains-append a (x ∷ xs) ys = ground (arith, contains-append a xs ys)

  pub contains-head : (a : A) (xs : List A) → contains a (a ∷ xs) ≡ true
  contains-head a xs = ground (arith, e.beq_iff a a)

  -- What holds of every member holds of one that is there.
  pub All-contains {κ} :
      (P : A → Type κ) (a : A) (xs : List A) → All P xs → contains a xs ≡ true → P a
  All-contains P a [] h m = absurd (cc)
  All-contains P a (x ∷ xs) h m = elim (Bool-cases (a == x)) [
    | inl same ↦ subst P (sym ((e.beq_iff a x).0 same)) h.0
    | inr other ↦ All-contains P a xs h.1 (ground arith)
  ]

  pub All-of_contains {κ} :
      (P : A → Type κ) (xs : List A) → ((a : A) → contains a xs ≡ true → P a) → All P xs
  All-of_contains P [] f = tt
  All-of_contains P (x ∷ xs) f =
      (f x (contains-head x xs), All-of_contains P xs (λ a m. f a (ground arith)))
