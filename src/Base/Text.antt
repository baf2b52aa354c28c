-- ===== src/Base/Text.antt =====
-- Text as the list of its code points, and the `str` methods that the sources use. Case mapping is
-- that of ASCII: any other character is its own lower case.
use Prim.Native.Char.{code}
use Prim.Native.Nat.{ℕ, ◌+◌, ◌-◌}
use Prim.Native.String.{String}
use mathlib.Core.Path.{◌≡◌, refl}
use mathlib.Core.Logic.{◌↔◌}
use mathlib.Core.Bool.{Bool, true, false, not, ◌&&◌, ◌||◌}
use mathlib.Core.List.{List, [], ◌∷◌, ◌++◌, map, reverse}
use mathlib.Core.Option.{Option, none, some}
use native.Mathlib.Omega.{arith}
use mtg_vault.Base.Tests.{Eq, nat_eq, nat_beq, leb, if◌then◌else◌}
use mtg_vault.Base.Lists.{is_empty, contains}

abbrev pub Text : Type 0
Text = List ℕ

-- The code points of a literal.
abbrev pub codes : String → Text
codes String.[] = []
codes (String.◌∷◌ c s) = code c ∷ codes s

unfoldable pub same_text : Text → Text → Bool
same_text [] [] = true
same_text [] (d ∷ t) = false
same_text (c ∷ s) [] = false
same_text (c ∷ s) (d ∷ t) = nat_beq c d && same_text s t

same_text→eq : (s t : Text) → same_text s t ≡ true → s ≡ t
unfolding same_text
same_text→eq [] [] h = refl
same_text→eq [] (d ∷ t) h = cc
same_text→eq (c ∷ s) [] h = cc
same_text→eq (c ∷ s) (d ∷ t) h = ground (arith, same_text→eq s t)

same_text_refl : (s : Text) → same_text s s ≡ true
unfolding same_text
same_text_refl [] = refl
same_text_refl (c ∷ s) = ground (arith, same_text_refl s)

pub same_text_iff : (s t : Text) → (same_text s t ≡ true) ↔ (s ≡ t)
same_text_iff s t = (same_text→eq s t, λ e. rw e (same_text_refl t))

instance abbrev pub text_eq : Eq Text
text_eq = record { beq = same_text; beq_iff = same_text_iff }

-- `c.lower()`
unfoldable pub to_lower : ℕ → ℕ
to_lower c = if leb b'A' c && leb c b'Z' then c + 32 else c

-- `s.lower()`
unfoldable pub lower : Text → Text
unfolding to_lower
lower = map to_lower

-- `c.upper()`
unfoldable pub to_upper : ℕ → ℕ
to_upper c = if leb b'a' c && leb c b'z' then c - 32 else c

-- `s.isspace()` of one character
unfoldable pub is_space : ℕ → Bool
is_space c =
    leb 9 c && leb c 13
    || leb 28 c && leb c 32
    || leb 0x2000 c && leb c 0x200a
    || contains c (0x85 ∷ 0xa0 ∷ 0x1680 ∷ 0x2028 ∷ 0x2029 ∷ 0x202f ∷ 0x205f ∷ 0x3000 ∷ [])

-- What follows a prefix, if the text begins with it.
unfoldable pub strip_prefix : Text → Text → Option Text
strip_prefix [] s = some s
strip_prefix (c ∷ p) [] = none
strip_prefix (c ∷ p) (d ∷ s) = let rest = strip_prefix p s in if nat_beq c d then rest else none

-- `s.startswith(p)`
unfoldable pub starts_with : Text → Text → Bool
unfolding strip_prefix
starts_with p s = elim (strip_prefix p s) [ none ↦ false | some rest ↦ true ]

-- `p in s`
unfoldable pub has_part : Text → Text → Bool
unfolding starts_with
has_part p [] = starts_with p []
has_part p (c ∷ s) = starts_with p (c ∷ s) || has_part p s

-- What follows the first `p` in a text, if it is there.
unfoldable pub after_part : Text → Text → Option Text
unfolding strip_prefix
after_part p [] = strip_prefix p []
after_part p (c ∷ s) =
    let later = after_part p s in
    elim (strip_prefix p (c ∷ s)) [ none ↦ later | some rest ↦ some rest ]

-- `s.split(c)[0]`
unfoldable pub before_char : ℕ → Text → Text
before_char c [] = []
before_char c (d ∷ s) = let rest = before_char c s in if nat_beq d c then [] else d ∷ rest

-- What follows the first `c`, if there is one.
unfoldable pub after_char : ℕ → Text → Option Text
after_char c [] = none
after_char c (d ∷ s) = let rest = after_char c s in if nat_beq d c then some s else rest

-- `s.lstrip()`
unfoldable pub lstrip : Text → Text
unfolding is_space
lstrip [] = []
lstrip (c ∷ s) = let rest = lstrip s in if is_space c then rest else c ∷ s

-- `s.strip()`
unfoldable pub strip : Text → Text
unfolding lstrip
strip s = reverse (lstrip (reverse (lstrip s)))

-- The pieces of `s.split(c)`, with the piece that has begun.
unfoldable pub split_from : ℕ → Text → Text → List Text
split_from c piece [] = piece ∷ []
split_from c piece (d ∷ s) =
    let rest = split_from c (if nat_beq d c then [] else piece ++ d ∷ []) s in
    if nat_beq d c then piece ∷ rest else rest

-- The words of `s.split()`, with the word that has begun.
unfoldable pub words_from : Text → Text → List Text
unfolding is_space
words_from word [] = if is_empty word then [] else word ∷ []
words_from word (c ∷ s) =
    let rest = words_from (if is_space c then [] else word ++ c ∷ []) s in
    if is_space c && not (is_empty word) then word ∷ rest else rest

-- `s.split()`
unfoldable pub words : Text → List Text
unfolding words_from
words = words_from []

-- `s.split("//")`, with the piece that has begun; the flag says that its last character was a
-- slash that may open a separator.
unfoldable pub faces_from : Text → Bool → Text → List Text
faces_from face slash [] = (if slash then face ++ b'/' ∷ [] else face) ∷ []
faces_from face true (c ∷ s) =
    let closed = face ∷ faces_from [] false s in
    let open' = faces_from (face ++ b'/' ∷ c ∷ []) false s in
    if nat_beq c b'/' then closed else open'
faces_from face false (c ∷ s) =
    let slash = faces_from face true s in
    let plain = faces_from (face ++ c ∷ []) false s in if nat_beq c b'/' then slash else plain

-- `s.split("//")`
unfoldable pub split_faces : Text → List Text
unfolding faces_from
split_faces = faces_from [] false

-- `s.replace("//", " ")`, from the pieces between the separators.
unfoldable pub join_faces : List Text → Text
join_faces [] = []
join_faces (face ∷ []) = face
join_faces (face ∷ other ∷ faces) = face ++ b' ' ∷ join_faces (other ∷ faces)

is_break : ℕ → Bool
is_break c =
    leb 10 c && leb c 13 || leb 28 c && leb c 30 || contains c (0x85 ∷ 0x2028 ∷ 0x2029 ∷ [])

-- The lines of `s.splitlines()`, with the line that has begun; the flag says that a carriage
-- return has just ended one.
unfoldable pub lines_from : Text → Bool → Text → List Text
unfolding is_break
lines_from line cr [] = if is_empty line then [] else line ∷ []
lines_from line cr (c ∷ s) =
    let joined = cr && nat_beq c 10 in
    let rest = lines_from (if is_break c then [] else line ++ c ∷ []) (nat_beq c 13) s in
    if is_break c && not joined then line ∷ rest else rest

-- `s.splitlines()`
unfoldable pub split_lines : Text → List Text
unfolding lines_from
split_lines = lines_from [] false

words_test : words (codes " Basic  Land ") ≡ codes "Basic" ∷ codes "Land" ∷ []
unfolding words
words_test = refl

faces_test : split_faces (codes "a/b // c///d") ≡ codes "a/b " ∷ codes " c" ∷ codes "/d" ∷ []
unfolding split_faces
faces_test = refl

strip_test : strip (codes " a b ") ≡ codes "a b"
unfolding strip
strip_test = refl
