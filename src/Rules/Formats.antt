-- ===== src/Rules/Formats.antt =====
-- What each format demands of a deck's shape (backend/app/services/rules/formats.py).
use mtg_vault.Base.{ℕ, Bool, true, false, Option, none, some, [], ◌∷◌, map}
use mtg_vault.Base.Text.{Text, codes, text_eq, lower}
use mtg_vault.Base.Dict.{Dict, lookup, get_or}

pub record FormatProfile : Type 0 where
  pub key : Text
  pub min_main : ℕ
  pub exact_main : Option ℕ
  pub copy_limit : ℕ
  pub sideboard_max : ℕ
  pub has_commander : Bool

-- `FormatProfile(key=key)`, with the defaults of the class.
abbrev pub constructed : Text → FormatProfile
constructed key = record {
  key = key;
  min_main = 60;
  exact_main = none;
  copy_limit = 4;
  sideboard_max = 15;
  has_commander = false;
}

abbrev pub singleton_hundred : Text → FormatProfile
singleton_hundred key = record {
  key = key;
  min_main = 0;
  exact_main = some 100;
  copy_limit = 1;
  sideboard_max = 0;
  has_commander = true;
}

abbrev pub profiles : Dict Text FormatProfile
profiles =
    map (λ (p : FormatProfile). (p.key, p))
      (constructed (codes "standard")
        ∷ constructed (codes "pioneer")
        ∷ constructed (codes "modern")
        ∷ constructed (codes "legacy")
        ∷ constructed (codes "vintage")
        ∷ constructed (codes "pauper")
        ∷ constructed (codes "casual")
        ∷ singleton_hundred (codes "commander")
        ∷ singleton_hundred (codes "casual_commander")
        ∷ [])

unfoldable pub profile_for : Text → FormatProfile
unfolding lower
profile_for format_key =
    get_or (lookup (lower format_key) profiles) (constructed (lower format_key))
