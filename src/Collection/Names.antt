-- ===== src/Collection/Names.antt =====
-- `normalize_name` (backend/app/util/text.py), and decimal numbers in text. The case folding, the
-- NFKD form and the combining class are those of Python's `str` and `unicodedata`, a parameter.
use mtg_vault.Base.{
  ℕ, zero, suc, ◌≡◌, refl, ◌+◌, ◌/◌, ◌%◌, Bool, true, false, not, ◌&&◌, ◌||◌, [], ◌∷◌, ◌++◌, nat_eq,
  nat_beq, ltb, leb, if◌then◌else◌, filter,
}
use mtg_vault.Base.Text.{Text, codes, strip}
use mtg_vault.Base.Dict.{Dict, lookup, get_or}

-- What the code takes from Python's Unicode tables.
pub record Unicode : Type 0 where
  pub casefold : Text → Text
  pub nfkd : Text → Text
  pub combining : ℕ → Bool

-- `_LIGATURES`
abbrev pub ligatures : Dict ℕ Text
ligatures =
    (0xc6, codes "ae")
    ∷ (0xe6, codes "ae")
    ∷ (0x152, codes "oe")
    ∷ (0x153, codes "oe")
    ∷ (0xd8, codes "o")
    ∷ (0xf8, codes "o")
    ∷ (0xdf, codes "ss")
    ∷ (0x141, codes "l")
    ∷ (0x142, codes "l")
    ∷ (0xd0, codes "d")
    ∷ (0xf0, codes "d")
    ∷ (0xde, codes "th")
    ∷ (0xfe, codes "th")
    ∷ (0x2019, codes "'")
    ∷ (0x2018, codes "'")
    ∷ (0x201c, codes "\"")
    ∷ (0x201d, codes "\"")
    ∷ (0x2013, codes "-")
    ∷ (0x2014, codes "-")
    ∷ (0x2212, codes "-")
    ∷ []

-- `name.translate(_LIGATURES)`
unfoldable pub translate : Text → Text
translate [] = []
translate (c ∷ s) = get_or (lookup c ligatures) (c ∷ []) ++ translate s

-- `[a-z0-9]`
abbrev pub is_alnum : ℕ → Bool
is_alnum c = leb b'a' c && leb c b'z' || leb b'0' c && leb c b'9'

-- `['’]`
abbrev pub is_apostrophe : ℕ → Bool
is_apostrophe c = nat_beq c 0x27 || nat_beq c 0x2019

-- `_NON_ALNUM.sub(" ", s)`: the flag says that a run has begun, whose space is written already.
unfoldable pub collapse : Bool → Text → Text
collapse run [] = []
collapse run (c ∷ s) =
    let word = collapse false s in
    let gap = collapse true s in if is_alnum c then c ∷ word else if run then gap else b' ' ∷ gap

-- `normalize_name`
unfoldable pub normalize_name : Unicode → Text → Text
unfolding translate collapse strip
normalize_name unicode name =
    let folded = unicode.casefold (translate name) in
    let decomposed = unicode.nfkd (filter (λ c. not (is_apostrophe c)) folded) in
    let stripped = filter (λ c. not (unicode.combining c)) decomposed in
    strip (collapse false stripped)

-- `str(n)`: a number has at most as many digits as it has units, and one more for zero.
decimal_from : ℕ → ℕ → Text
decimal_from zero n = []
decimal_from (suc fuel) n = elim (ltb n 10) [
  | true ↦ (b'0' + n) ∷ []
  | false ↦ decimal_from fuel (n / 10) ++ (b'0' + n % 10) ∷ []
]

unfoldable pub decimal : ℕ → Text
unfolding decimal_from
decimal n = decimal_from (suc n) n

decimal_test : decimal 1204 ≡ codes "1204"
unfolding decimal
decimal_test = refl
