-- ===== src/Rules/Reminder.antt =====
-- `strip_reminder_text` and the readers of type lines (backend/app/services/rules/cards.py).
use mtg_vault.Base.{
  ℕ, ◌≡◌, refl, ap, ◌∙◌, Bool, true, false, not, ◌&&◌, ◌||◌, [], ◌∷◌, ◌++◌, arith, nat_beq,
  contains, contains-append, nat_eq,
}
use mtg_vault.Base.Text.{Text, after_char, before_char}
use mtg_vault.Base.Dict.{is_some}
use mtg_vault.Rules.Cards.{strip_reminder_from, strip_reminder_text, dash, card_types}

-- A parenthesis opens that a later one closes.
unfoldable pub has_reminder : Text → Bool
has_reminder [] = false
has_reminder (c ∷ s) = nat_beq c b'(' && contains b')' s || has_reminder s

is_some-after_char : (c : ℕ) (s : Text) → is_some (after_char c s) ≡ contains c s
unfolding after_char
is_some-after_char c [] = refl
is_some-after_char c (d ∷ s) = ground (arith, is_some-after_char c s)

-- Stripping makes no closing parenthesis.
contains-strip :
    (inside : Bool) (s : Text)
    → contains b')' s ≡ false
    → contains b')' (strip_reminder_from inside s) ≡ false
unfolding strip_reminder_from
contains-strip inside [] h = refl
contains-strip true (c ∷ s) h = ground (arith, contains-strip true s)
contains-strip false (c ∷ s) h = ground (arith, is_some-after_char b')' s, contains-strip false s)

strip_from-clean : (inside : Bool) (s : Text) → has_reminder (strip_reminder_from inside s) ≡ false
unfolding strip_reminder_from has_reminder
strip_from-clean inside [] = refl
strip_from-clean true (c ∷ s) = strip_from-clean (not (nat_beq c b')')) s
strip_from-clean false (c ∷ s) = ground (
  arith,
  is_some-after_char b')' s,
  strip_from-clean true s,
  strip_from-clean false s,
  contains-strip false s,
)

strip_of_clean : (s : Text) → has_reminder s ≡ false → strip_reminder_from false s ≡ s
unfolding strip_reminder_from has_reminder
strip_of_clean [] h = refl
strip_of_clean (c ∷ s) h = ground (arith, is_some-after_char b')' s, strip_of_clean s)

-- What stands before the first parenthesis stays.
strip-append :
    (front t : Text)
    → contains b'(' front ≡ false
    → strip_reminder_from false (front ++ t) ≡ front ++ strip_reminder_from false t
unfolding strip_reminder_from
strip-append [] t h = refl
strip-append (c ∷ front) t h = ground (arith, strip-append front t)

-- What stands up to the first closing parenthesis goes.
strip-inside :
    (body t : Text)
    → contains b')' body ≡ false
    → strip_reminder_from true (body ++ b')' ∷ t) ≡ strip_reminder_from false t
unfolding strip_reminder_from
strip-inside [] t h = ground arith
strip-inside (c ∷ body) t h = ground (arith, strip-inside body t)

strip-reminder :
    (body t : Text)
    → contains b')' body ≡ false
    → strip_reminder_from false (b'(' ∷ (body ++ b')' ∷ t)) ≡ strip_reminder_from false t
unfolding strip_reminder_from
strip-reminder body t h = ground (
  arith,
  is_some-after_char b')' (body ++ b')' ∷ t),
  contains-append b')' body (b')' ∷ t),
  strip-inside body t h,
)

-- Exactly the reminders are stripped: a text that begins with one, after a front without an opening
-- parenthesis, is stripped to that front and what is left of the text behind the reminder's first
-- closing parenthesis; a text without a reminder is left as it is; and no stripped text holds a
-- reminder.
pub strip_reminder_text_exact :
    (front body rest clean s : Text)
    → contains b'(' front ≡ false
    → contains b')' body ≡ false
    → has_reminder clean ≡ false
    → (strip_reminder_text (front ++ (b'(' ∷ (body ++ b')' ∷ rest)))
        ≡ front ++ strip_reminder_text rest)
      × (strip_reminder_text clean ≡ clean)
      × (has_reminder (strip_reminder_text s) ≡ false)
unfolding strip_reminder_text
strip_reminder_text_exact front body rest clean s outside inside none_there = (
  strip-append front (b'(' ∷ (body ++ b')' ∷ rest)) outside
      ∙ ap (λ t. front ++ t) (strip-reminder body rest inside),
  strip_of_clean clean none_there,
  strip_from-clean false s,
)

before_char-append :
    (c : ℕ) (front rest : Text) → before_char c (front ++ c ∷ rest) ≡ before_char c front
unfolding before_char
before_char-append c [] rest = ground arith
before_char-append c (d ∷ front) rest = ground (arith, before_char-append c front rest)

-- Nothing behind the first em-dash of a type line is read: once the front face has subtypes, the
-- types of a back face are not among the card's types.
pub card_types-ignores_back :
    (front rest : Text) → card_types (front ++ dash ∷ rest) ≡ card_types front
unfolding card_types
card_types-ignores_back front rest = rw (before_char-append dash front rest)
