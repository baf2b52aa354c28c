-- ===== src/Base/Dict.antt =====
-- Python's `dict`, in insertion order: a key that is written again keeps its place.
use mtg_vault.Base.Tests.{Eq, ◌==◌, if◌then◌else◌, Bool-cases}
use mtg_vault.Base.Lists.{All, sum_of, contains}
use Prim.Native.Nat.{ℕ, ◌+◌}
use mathlib.Core.Path.{◌≡◌, refl, sym, subst}
use mathlib.Core.Logic.{inl, inr}
use mathlib.Core.Bool.{Bool, true, false, ◌||◌}
use mathlib.Core.List.{List, [], ◌∷◌, map}
use mathlib.Core.Option.{Option, none, some}
use native.Mathlib.Omega.{arith}

abbrev pub Dict {ℓ κ} : Type ℓ → Type κ → Type (ℓ ⊔ κ)
Dict K V = List (K × V)

-- `d.get(k, v)`, on what `d.get(k)` returns.
abbrev pub get_or {ℓ} : {V : Type ℓ} → Option V → V → V
get_or none v = v
get_or (some w) v = w

abbrev pub is_some {ℓ} : {V : Type ℓ} → Option V → Bool
is_some none = false
is_some (some v) = true

pub none_of {ℓ} : {V : Type ℓ} (o : Option V) → is_some o ≡ false → o ≡ none
none_of none h = refl
none_of (some v) h = absurd (cc)

module _ {ℓ κ} {K : Type ℓ} {V : Type κ} ⦃e : Eq K⦄ where
  -- `d.get(k)`
  abbrev pub lookup : K → Dict K V → Option V
  lookup k [] = none
  lookup k ((j, v) ∷ d) = if k == j then some v else lookup k d

  -- `d[k] = v`
  abbrev pub insert : K → V → Dict K V → Dict K V
  insert k v [] = (k, v) ∷ []
  insert k v ((j, w) ∷ d) = if k == j then (j, v) ∷ d else (j, w) ∷ insert k v d

  -- No key is listed twice.
  abbrev pub IsUnique : Dict K V → Type κ
  IsUnique [] = Unit
  IsUnique ((k, v) ∷ d) = (lookup k d ≡ none) × IsUnique d

  pub lookup-insert :
      (k j : K) (v : V) (d : Dict K V)
      → lookup j (insert k v d) ≡ (if j == k then some v else lookup j d)
  lookup-insert k j v [] = refl
  lookup-insert k j v ((i, w) ∷ d) =
      ground (arith, e.beq_iff k i, e.beq_iff j i, e.beq_iff j k, lookup-insert k j v d)

  pub insert-IsUnique : (k : K) (v : V) (d : Dict K V) → IsUnique d → IsUnique (insert k v d)
  insert-IsUnique k v [] h = (refl, tt)
  insert-IsUnique k v ((i, w) ∷ d) h =
      ground (arith, e.beq_iff i k, e.beq_iff k i, lookup-insert k i v d, insert-IsUnique k v d h.1)

  -- What holds of every binding holds of the whole dict, and the other way round.
  pub All-of_lookup {μ} :
      (P : K × V → Type μ) (d : Dict K V)
      → IsUnique d
      → ((k : K) (v : V) → lookup k d ≡ some v → P (k, v))
      → All P d
  All-of_lookup P [] u f = tt
  All-of_lookup P ((i, w) ∷ d) u f = (
    f i w (ground (arith, e.beq_iff i i)),
    All-of_lookup P d u.1 (λ k v h. f k v (ground (arith, e.beq_iff k i))),
  )

  pub lookup_of_All {μ} :
      (P : K × V → Type μ) (d : Dict K V) (k : K) (v : V) → All P d → lookup k d ≡ some v → P (k, v)
  lookup_of_All P [] k v h q = absurd (cc)
  lookup_of_All P ((i, w) ∷ d) k v h q = elim (Bool-cases (k == i)) [
    | inl same ↦
        subst (λ j. P (j, v)) (sym ((e.beq_iff k i).0 same))
          (subst (λ x. P (i, x)) (ground arith) h.0)
    | inr other ↦ lookup_of_All P d k v h.1 (ground arith)
  ]

module _ {ℓ} {K : Type ℓ} ⦃e : Eq K⦄ where
  -- `d[k]` on a `defaultdict(int)`.
  abbrev pub count_in : K → Dict K ℕ → ℕ
  count_in k d = get_or (lookup k d) 0

  -- `d[k] += n`
  abbrev pub add_to : K → ℕ → Dict K ℕ → Dict K ℕ
  add_to k n d = insert k (count_in k d + n) d

  pub sum-insert :
      (k : K) (n : ℕ) (d : Dict K ℕ)
      → sum_of (λ (b : K × ℕ). b.1) (add_to k n d) ≡ sum_of (λ (b : K × ℕ). b.1) d + n
  sum-insert k n [] = omega arith
  sum-insert k n ((j, m) ∷ d) = ground (arith, sum-insert k n d)

  module _ {κ} {A : Type κ} (key : A → K) (quantity : A → ℕ) where
    -- `for x in xs: d[key(x)] += quantity(x)`
    unfoldable pub tally_from : Dict K ℕ → List A → Dict K ℕ
    tally_from d [] = d
    tally_from d (x ∷ xs) = tally_from (add_to (key x) (quantity x) d) xs

    -- The quantities of one key, added up.
    abbrev pub total_for : K → List A → ℕ
    total_for k = sum_of (λ x. if k == key x then quantity x else 0)

    pub count_in-tally_from :
        (k : K) (d : Dict K ℕ) (xs : List A)
        → count_in k (tally_from d xs) ≡ count_in k d + total_for k xs
    unfolding tally_from
    count_in-tally_from k d [] = omega arith
    count_in-tally_from k d (x ∷ xs) = ground (
      arith,
      e.beq_iff k (key x),
      lookup-insert (key x) k (count_in (key x) d + quantity x) d,
      count_in-tally_from k (add_to (key x) (quantity x) d) xs,
    )

    pub is_some-tally_from :
        (k : K) (d : Dict K ℕ) (xs : List A)
        → is_some (lookup k (tally_from d xs)) ≡ (is_some (lookup k d) || contains k (map key xs))
    unfolding tally_from
    is_some-tally_from k d [] = ground arith
    is_some-tally_from k d (x ∷ xs) = ground (
      arith,
      lookup-insert (key x) k (count_in (key x) d + quantity x) d,
      is_some-tally_from k (add_to (key x) (quantity x) d) xs,
    )

    pub tally_from-IsUnique : (d : Dict K ℕ) (xs : List A) → IsUnique d → IsUnique (tally_from d xs)
    unfolding tally_from
    tally_from-IsUnique d [] h = h
    tally_from-IsUnique d (x ∷ xs) h =
        tally_from-IsUnique (add_to (key x) (quantity x) d) xs
          (insert-IsUnique (key x) (count_in (key x) d + quantity x) d h)

    -- The dict that a tally ends with: the total of each key that occurs.
    pub lookup-tally_from :
        (k : K) (xs : List A)
        → lookup k (tally_from [] xs)
          ≡ (if contains k (map key xs) then some (total_for k xs) else none)
    lookup-tally_from k xs = ground (arith, count_in-tally_from k [] xs, is_some-tally_from k [] xs)

    pub total_for_absent :
        (k : K) (xs : List A) → contains k (map key xs) ≡ false → total_for k xs ≡ 0
    total_for_absent k [] h = refl
    total_for_absent k (x ∷ xs) h = ground (arith, total_for_absent k xs)

    -- A tally keeps the sum of all quantities.
    pub sum-tally_from :
        (d : Dict K ℕ) (xs : List A)
        → sum_of (λ (b : K × ℕ). b.1) (tally_from d xs)
          ≡ sum_of (λ (b : K × ℕ). b.1) d + sum_of quantity xs
    unfolding tally_from
    sum-tally_from d [] = omega arith
    sum-tally_from d (x ∷ xs) = omega (
      arith,
      sum-insert (key x) (quantity x) d,
      sum-tally_from (add_to (key x) (quantity x) d) xs,
    )
