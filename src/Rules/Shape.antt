-- ===== src/Rules/Shape.antt =====
-- The size check `_check_size` (backend/app/services/rules/validate.py).
use mtg_vault.Base.{ℕ, ◌+◌, ◌≤◌, ◌≡◌, refl, ◌↔◌, ◌⊎◌, Option, none, some, List, [], arith}
use mtg_vault.Rules.Cards.{DeckEntry}
use mtg_vault.Rules.Formats.{FormatProfile}
use mtg_vault.Rules.Checks.{quantity_of, side_count, main_size_errors, check_size}

-- The exact size with the commanders, or the minimum without them.
abbrev pub MainSizeAllowed : FormatProfile → ℕ → ℕ → Type 0
MainSizeAllowed profile main_count commander_count = elim profile.exact_main [
  | some exact ↦ main_count + commander_count ≡ exact
  | none ↦ profile.min_main ≤ main_count
]

-- A format with no sideboard ignores the side board; else the companion counts too.
abbrev pub SideSizeAllowed : FormatProfile → ℕ → ℕ → Type 0
SideSizeAllowed profile side companions =
    (profile.sideboard_max ≡ 0) ⊎ (side + companions ≤ profile.sideboard_max)

main_size_errors-nil→ :
    (exact : Option ℕ) (profile : FormatProfile) (m c : ℕ)
    → profile.exact_main ≡ exact
    → main_size_errors profile m c ≡ []
    → MainSizeAllowed profile m c
unfolding main_size_errors
main_size_errors-nil→ none profile m c e h = rw e (ground arith)
main_size_errors-nil→ (some n) profile m c e h = rw e (ground arith)

main_size_errors-nil← :
    (exact : Option ℕ) (profile : FormatProfile) (m c : ℕ)
    → profile.exact_main ≡ exact
    → MainSizeAllowed profile m c
    → main_size_errors profile m c ≡ []
unfolding main_size_errors
main_size_errors-nil← none profile m c e h = ground arith
main_size_errors-nil← (some n) profile m c e h = ground arith

check_size-nil :
    (profile : FormatProfile) (main side commanders companions : List DeckEntry)
    → ((check_size profile main side commanders companions).0 ≡ []) ↔ (
        (main_size_errors profile (quantity_of main) (quantity_of commanders) ≡ [])
        × SideSizeAllowed profile (quantity_of side) (quantity_of companions))
unfolding check_size side_count
check_size-nil profile main side commanders companions = (λ h. ground arith, λ h. ground arith)

-- No size error is reported exactly when the main board has its size, and the side board with the
-- companion fits, or the format ignores it.
pub check_size_iff :
    (profile : FormatProfile) (main side commanders companions : List DeckEntry)
    → ((check_size profile main side commanders companions).0 ≡ []) ↔ (
        MainSizeAllowed profile (quantity_of main) (quantity_of commanders)
        × SideSizeAllowed profile (quantity_of side) (quantity_of companions))
check_size_iff profile main side commanders companions =
    let both = check_size-nil profile main side commanders companions in
    (
      λ h.
          let (m, s) = both.0 h in (main_size_errors-nil→ profile.exact_main profile _ _ refl m, s),
      λ h. both.1 (main_size_errors-nil← profile.exact_main profile _ _ refl h.0, h.1),
    )
