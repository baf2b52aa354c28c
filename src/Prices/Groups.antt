-- ===== src/Prices/Groups.antt =====
-- Sums over the groups of a query.
use mtg_vault.Base.{
  ℕ, ◌+◌, ◌≡◌, refl, sym, ◌∙◌, inl, inr, true, false, List, [], ◌∷◌, map, arith, if◌then◌else◌,
  sum_of, to_set, contains, All, All-of_contains, Eq, ◌==◌, Bool-cases,
}
use mtg_vault.Base.Dict.{total_for}

pub sum_of-map {ℓ κ} :
    {A : Type ℓ} {B : Type κ} (g : A → B) (f : B → ℕ) (xs : List A)
    → sum_of f (map g xs) ≡ sum_of (λ x. f (g x)) xs
sum_of-map g f [] = refl
sum_of-map g f (x ∷ xs) = omega (arith, sum_of-map g f xs)

sum_of-add {ℓ} :
    {A : Type ℓ} (f g : A → ℕ) (xs : List A)
    → sum_of (λ x. f x + g x) xs ≡ sum_of f xs + sum_of g xs
sum_of-add f g [] = refl
sum_of-add f g (x ∷ xs) = omega (arith, sum_of-add f g xs)

sum_of-zero {ℓ} : {A : Type ℓ} (xs : List A) → sum_of (λ (x : A). 0) xs ≡ 0
sum_of-zero [] = refl
sum_of-zero (x ∷ xs) = omega (arith, sum_of-zero xs)

module _ {ℓ} {K : Type ℓ} ⦃e : Eq K⦄ where
  -- No member is there twice.
  abbrev pub IsDistinct : List K → Type 0
  IsDistinct [] = Unit
  IsDistinct (k ∷ ks) = (contains k ks ≡ false) × IsDistinct ks

  contains-to_set : (k : K) (xs : List K) → contains k (to_set xs) ≡ contains k xs
  contains-to_set k [] = refl
  contains-to_set k (x ∷ xs) =
      ground (arith, e.beq_iff k x, contains-to_set k xs, contains-to_set x xs)

  to_set-IsDistinct : (xs : List K) → IsDistinct (to_set xs)
  to_set-IsDistinct [] = tt
  to_set-IsDistinct (x ∷ xs) = ground (arith, to_set-IsDistinct xs)

  sum_of-absent :
      (a : K) (n : ℕ) (ks : List K)
      → contains a ks ≡ false
      → sum_of (λ k. if k == a then n else 0) ks ≡ 0
  sum_of-absent a n [] h = refl
  sum_of-absent a n (k ∷ ks) h = ground (arith, e.beq_iff a k, e.beq_iff k a, sum_of-absent a n ks)

  sum_of-present :
      (a : K) (n : ℕ) (ks : List K)
      → IsDistinct ks
      → contains a ks ≡ true
      → sum_of (λ k. if k == a then n else 0) ks ≡ n
  sum_of-present a n [] d h = absurd (cc)
  sum_of-present a n (k ∷ ks) d h = elim (Bool-cases (a == k)) [
    | inl same ↦
        let equal : a ≡ k = (e.beq_iff a k).0 same in
        let mine : (k == a) ≡ true = (e.beq_iff k a).1 (sym equal) in
        let absent : contains a ks ≡ false = rw equal (d.0) in
        rw mine (omega (arith, sum_of-absent a n ks absent))
    | inr other ↦
        let theirs : (k == a) ≡ false = ground (arith, other, e.beq_iff a k, e.beq_iff k a) in
        let later : contains a ks ≡ true = ground (arith, other, h) in
        rw theirs (omega (arith, sum_of-present a n ks d.1 later))
  ]

  module _ {κ} {A : Type κ} (key : A → K) (f : A → ℕ) where
    sum_of-covering :
        (ks : List K) (xs : List A)
        → IsDistinct ks
        → All (λ x. contains (key x) ks ≡ true) xs
        → sum_of (λ k. total_for key f k xs) ks ≡ sum_of f xs
    sum_of-covering ks [] d h = sum_of-zero ks
    sum_of-covering ks (x ∷ xs) d h =
        sum_of-add (λ k. if k == key x then f x else 0) (λ k. total_for key f k xs) ks
        ∙ omega (arith, sum_of-present (key x) (f x) ks d h.0, sum_of-covering ks xs d h.1)

    All-of_map {μ} : (P : K → Type μ) (xs : List A) → All P (map key xs) → All (λ x. P (key x)) xs
    All-of_map P [] h = tt
    All-of_map P (x ∷ xs) h = (h.0, All-of_map P xs h.1)

    keys_covered : (xs : List A) → All (λ x. contains (key x) (to_set (map key xs)) ≡ true) xs
    keys_covered xs = All-of_map _ xs (
        All-of_contains (λ k. contains k (to_set (map key xs)) ≡ true) (map key xs)
          (λ k m. contains-to_set k (map key xs) ∙ m))

    -- The totals of the keys add up to the total of all rows.
    pub sum_of-groups :
        (xs : List A) → sum_of (λ k. total_for key f k xs) (to_set (map key xs)) ≡ sum_of f xs
    sum_of-groups xs =
        sum_of-covering (to_set (map key xs)) xs (to_set-IsDistinct (map key xs)) (keys_covered xs)
