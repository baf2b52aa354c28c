-- ===== src/Collection/Required.antt =====
-- Changes that give a null to a required column of a copy
-- (backend/app/services/collection/update.py, backend/app/models/collection.py).
use mtg_vault.Base.{
  ◌≡◌, refl, sym, ap, ◌∙◌, ◌↔◌, ◌⊎◌, inl, inr, true, some, [], ◌∷◌, arith, any, contains, ◌==◌,
  Bool-cases,
}
use mathlib.Core.Path.{subst}
use mtg_vault.Base.Text.{Text, codes, text_eq, same_text, same_text_iff}
use mtg_vault.Base.Dict.{lookup, IsUnique}
use mtg_vault.Audit.Rows.{Row, null, value_eq, same_value_iff}
use mtg_vault.Collection.Items.{required_fields, is_refused}

-- The changes give a null to a field whose column is NOT NULL.
abbrev pub NullsRequired : Row → Type 0
NullsRequired changes =
    (lookup (codes "finish") changes ≡ some null)
    ⊎ ((lookup (codes "condition") changes ≡ some null)
        ⊎ ((lookup (codes "is_proxy") changes ≡ some null)
            ⊎ (lookup (codes "lang") changes ≡ some null)))

-- A required field that is given a null.
abbrev NulledField : Row → Type 0
NulledField changes =
    (k : Text) × (contains k required_fields ≡ true) × (lookup k changes ≡ some null)

refused→NulledField :
    (changes : Row) → IsUnique changes → any is_refused changes ≡ true → NulledField changes
refused→NulledField [] u h = absurd (cc)
refused→NulledField ((j, v) ∷ changes) u h = elim (Bool-cases (is_refused (j, v))) [
  | inl bad ↦
      let nothing : v ≡ null = (same_value_iff v null).0 (ground (arith, bad)) in
      (j, ground (arith, bad), rw ((same_text_iff j j).1 refl) (ap some nothing))
  | inr fine ↦
      let (k, required, found) = refused→NulledField changes u.1 (ground (arith, fine, h)) in
      (
        k,
        required,
        elim (Bool-cases (k == j)) [
          | inl same ↦
              let clash : lookup j changes ≡ some null =
                subst (λ i. lookup i changes ≡ some null) ((same_text_iff k j).0 same) found in
              absurd (let wrong = sym u.0 ∙ clash in cc)
          | inr other ↦ rw other found
        ],
      )
]

NulledField→refused : (changes : Row) → NulledField changes → any is_refused changes ≡ true
NulledField→refused [] (k, required, found) = absurd (cc)
NulledField→refused ((j, v) ∷ changes) (k, required, found) = elim (Bool-cases (k == j)) [
  | inl same ↦
      let here : some v ≡ some null = rw same at found in
      let nothing = (same_value_iff v null).1 (cc) in
      let mine : contains j required_fields ≡ true =
        subst (λ i. contains i required_fields ≡ true) ((same_text_iff k j).0 same) required in
      ground (arith, mine, nothing)
  | inr other ↦
      let later = NulledField→refused changes (k, required, rw other at found) in
      ground (arith, later)
]

named :
    (k name : Text) (changes : Row)
    → (k == name) ≡ true
    → lookup k changes ≡ some null
    → lookup name changes ≡ some null
named k name changes same found =
    subst (λ i. lookup i changes ≡ some null) ((same_text_iff k name).0 same) found

NulledField→NullsRequired : (changes : Row) → NulledField changes → NullsRequired changes
NulledField→NullsRequired changes (k, required, found) = elim (Bool-cases (k == codes "finish")) [
  | inl a ↦ inl (named k (codes "finish") changes a found)
  | inr a ↦ inr (elim (Bool-cases (k == codes "condition")) [
    | inl b ↦ inl (named k (codes "condition") changes b found)
    | inr b ↦ inr (elim (Bool-cases (k == codes "is_proxy")) [
      | inl c ↦ inl (named k (codes "is_proxy") changes c found)
      | inr c ↦ inr (named k (codes "lang") changes (ground (arith, a, b, c, required)) found)
    ])
  ])
]

NullsRequired→NulledField : (changes : Row) → NullsRequired changes → NulledField changes
unfolding same_text
NullsRequired→NulledField changes (inl h) = (codes "finish", refl, h)
NullsRequired→NulledField changes (inr (inl h)) = (codes "condition", refl, h)
NullsRequired→NulledField changes (inr (inr (inl h))) = (codes "is_proxy", refl, h)
NullsRequired→NulledField changes (inr (inr (inr h))) = (codes "lang", refl, h)

-- The database refuses exactly the changes that give a null to one of the four.
pub refused_iff :
    (changes : Row) → IsUnique changes → (any is_refused changes ≡ true) ↔ NullsRequired changes
refused_iff changes u = (
  λ h. NulledField→NullsRequired changes (refused→NulledField changes u h),
  λ h. NulledField→refused changes (NullsRequired→NulledField changes h),
)
