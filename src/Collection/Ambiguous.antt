-- ===== src/Collection/Ambiguous.antt =====
-- When `resolve_card` leaves a choice (backend/app/services/collection/add.py).
use mtg_vault.Base.{
  ◌≤◌, ◌≡◌, refl, ◌≢◌, inl, inr, false, ◌&&◌, Option, none, some, List, [], ◌∷◌, arith, length,
  Bool-cases,
}
use mtg_vault.Base.Text.{Text}
use mtg_vault.Base.Dict.{get_or}
use mtg_vault.Base.Sorting.{sort}
use mtg_vault.Collection.Names.{Unicode, normalize_name}
use mtg_vault.Collection.Printings.{
  Printing, OracleName, AddSpec, Resolution, is_given, printing_leb, printings_for, printing_or,
  resolve_printing, first_printing, resolve_oracle, oracles_named, resolve_named, resolve_by_oracle,
  resolve_card,
}

-- The resolution chooses no printing, and offers some.
abbrev IsOpen : Resolution → Type 0
IsOpen r = (r.card ≡ none) × (r.candidates ≢ [])

printing_or-decides : (exact fallback : Option Printing) → IsOpen (printing_or exact fallback) → ⊥
printing_or-decides (some exact) fallback (h, k) = absurd (cc)
printing_or-decides none (some fallback) (h, k) = absurd (cc)
printing_or-decides none none (h, k) = k refl

first_printing-decides : (sorted : List Printing) → IsOpen (first_printing sorted) → ⊥
first_printing-decides [] (h, k) = k refl
first_printing-decides (card ∷ others) (h, k) = absurd (cc)

resolve_oracle-decides :
    (cards : List Printing) (oracle_id : Text) → IsOpen (resolve_oracle cards oracle_id) → ⊥
unfolding resolve_oracle
resolve_oracle-decides cards oracle_id =
    first_printing-decides (sort printing_leb (printings_for cards (oracle_id ∷ [])))

named-several :
    (cards : List Printing) (named : List OracleName)
    → IsOpen (resolve_named cards named)
    → 2 ≤ length named
unfolding resolve_named
named-several cards [] (h, k) = absurd (k refl)
named-several cards (o ∷ []) open' = absurd (resolve_oracle-decides cards o.oracle_id open')
named-several cards (o ∷ p ∷ more) open' = omega arith

by_oracle-several :
    (unicode : Unicode) (cards : List Printing) (oracles : List OracleName)
    (oracle_id name : Option Text)
    → IsOpen (resolve_by_oracle unicode cards oracles oracle_id name)
    → (oracle_id ≡ none)
      × (2 ≤ length (oracles_named (normalize_name unicode (get_or name [])) oracles))
unfolding resolve_by_oracle
by_oracle-several unicode cards oracles (some oracle_id) name open' =
    absurd (resolve_oracle-decides cards oracle_id open')
by_oracle-several unicode cards oracles none name open' = elim (Bool-cases (is_given name)) [
  | inl given ↦ (refl, named-several cards _ (rw given at open'))
  | inr absent ↦ absurd ((rw absent at open').1 refl)
]

-- Only a name that several oracle cards have leaves a choice.
pub open-several :
    (unicode : Unicode) (cards : List Printing) (oracles : List OracleName) (spec : AddSpec)
    → let r = resolve_card unicode cards oracles spec in
      r.card ≡ none
      → r.candidates ≢ []
      → (is_given spec.set_code && is_given spec.collector_number ≡ false)
        × (spec.oracle_id ≡ none)
        × (2 ≤ length (oracles_named (normalize_name unicode (get_or spec.name [])) oracles))
unfolding resolve_card resolve_printing
open-several unicode cards oracles spec absent several =
    let open' : IsOpen (resolve_card unicode cards oracles spec) = (absent, several) in
    elim (Bool-cases (is_given spec.set_code && is_given spec.collector_number)) [
      | inl given ↦ absurd (printing_or-decides _ _ (rw given at open'))
      | inr other ↦
          let (plain, many) =
            by_oracle-several unicode cards oracles spec.oracle_id spec.name (rw other at open') in
          (other, plain, many)
    ]
