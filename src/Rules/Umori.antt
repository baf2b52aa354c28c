-- ===== src/Rules/Umori.antt =====
-- Umori's restriction `_umori` (backend/app/services/rules/companions.py).
use mtg_vault.Base.{
  ℕ, ◌≡◌, refl, ap, ◌∙◌, ◌≢◌, ◌↔◌, ◌⊎◌, inl, inr, Bool, true, false, not, ◌&&◌, List, [], ◌∷◌, map,
  arith, is_empty, filter, all, contains, intersect, All, Result, ok, raise, value_error, ◌>>=◌,
  contains-filter, contains-append, contains-head, Bool-cases, filter-nil→All,
}
use mtg_vault.Base.Text.{Text, text_eq, same_text_iff}
use mtg_vault.Base.Dict.{Dict, lookup, tally_from, is_some-tally_from}
use mtg_vault.Rules.Cards.{RulesCard, card_types}
use mtg_vault.Rules.Companions.{intersection, types_of, majority, umori_shared, umori_counts, umori}

-- The card has the card type.
abbrev pub has_type : Text → RulesCard → Bool
has_type type card = contains type (card_types card.type_line)

abbrev pub nonlands : List RulesCard → List RulesCard
nonlands = filter (λ (c : RulesCard). not c.is_land)

-- One card type is shared by all the cards.
abbrev pub ShareType : List RulesCard → Type 0
ShareType cards = (type : Text) × All (λ c. has_type type c ≡ true) cards

contains-intersection :
    (t : Text) (types : List Text) (others : List (List Text))
    → contains t (intersection types others) ≡ (contains t types && all (contains t) others)
unfolding intersection
contains-intersection t types [] = ground arith
contains-intersection t types (other ∷ others) = ground (
  arith,
  contains-intersection t (intersect types other) others,
  contains-filter t (λ x. contains x other) types,
)

abbrev card_types_of : List RulesCard → List (List Text)
card_types_of = map (λ (d : RulesCard). card_types d.type_line)

all→All :
    (t : Text) (cards : List RulesCard)
    → all (contains t) (card_types_of cards) ≡ true
    → All (λ c. has_type t c ≡ true) cards
all→All t [] h = tt
all→All t (c ∷ cards) h = ground (arith, all→All t cards)

All→all :
    (t : Text) (cards : List RulesCard)
    → All (λ c. has_type t c ≡ true) cards
    → all (contains t) (card_types_of cards) ≡ true
All→all t [] h = refl
All→all t (c ∷ cards) h = ground (arith, All→all t cards h.1)

shared→ShareType :
    (c : RulesCard) (cards : List RulesCard)
    → is_empty (umori_shared (c ∷ cards)) ≡ false
    → ShareType (c ∷ cards)
unfolding umori_shared
shared→ShareType c cards h = go _ refl
  where
    go :
        (shared : List Text)
        → intersection (card_types c.type_line) (card_types_of cards) ≡ shared
        → ShareType (c ∷ cards)
    go [] e = absurd (cc)
    go (t ∷ ts) e =
        let member = contains-intersection t (card_types c.type_line) (card_types_of cards) in
        let here = contains-head t ts in
        (t, (ground (arith, member, here), all→All t cards (ground (arith, member, here))))

ShareType→shared :
    (c : RulesCard) (cards : List RulesCard)
    → ShareType (c ∷ cards)
    → is_empty (umori_shared (c ∷ cards)) ≡ false
unfolding umori_shared
ShareType→shared c cards (t, h) = ground (
  arith,
  contains-intersection t (card_types c.type_line) (card_types_of cards),
  All→all t cards h.1,
)

majority-cases :
    (d : Dict Text ℕ) → (majority d ≡ raise value_error) ⊎ ((t : Text) × (majority d ≡ ok t))
unfolding majority
majority-cases [] = inl refl
majority-cases (e ∷ d) = inr (_, refl)

majority-raises→nil : (d : Dict Text ℕ) → majority d ≡ raise value_error → d ≡ []
unfolding majority
majority-raises→nil [] h = refl
majority-raises→nil (e ∷ d) h = cc

types_cases : (types : List Text) → (types ≡ []) ⊎ (types ≢ [])
types_cases [] = inl refl
types_cases (t ∷ ts) = inr (λ e. cc)

-- The check of cards that share no type, from the type that it picks.
umori_rest-ShareType :
    (cards : List RulesCard) (picked : Result Text)
    → (picked >>= λ type. ok (filter (λ c. not (has_type type c)) cards)) ≡ ok []
    → ShareType cards
umori_rest-ShareType cards (ok type) h =
    (type, not-has→has cards (filter-nil→All (λ c. not (has_type type c)) cards (ground arith)))
  where
    not-has→has :
        (cs : List RulesCard)
        → All (λ c. not (has_type type c) ≡ false) cs
        → All (λ c. has_type type c ≡ true) cs
    not-has→has = elim [ [] ↦ λ k. tt | c ∷ (cs → ih) ↦ λ k. (ground arith, ih k.1) ]
umori_rest-ShareType cards (raise e) h = absurd (cc)

umori_nonland :
    (cards nonland : List RulesCard)
    → nonlands cards ≡ nonland
    → (umori cards ≡ ok []) ↔ ((nonland ≡ []) ⊎ ShareType nonland)
unfolding umori
umori_nonland cards [] e = (λ h. inl refl, λ h. ground arith)
umori_nonland cards (c ∷ cs) e = (
  λ h. elim (Bool-cases (is_empty (umori_shared (c ∷ cs)))) [
    | inl apart ↦
        inr (umori_rest-ShareType (c ∷ cs) (majority (umori_counts (c ∷ cs))) (ground arith))
    | inr shared ↦ inr (shared→ShareType c cs shared)
  ],
  λ h. elim h [
    | inl none_left ↦ absurd (cc)
    | inr shares ↦ ground (arith, ShareType→shared c cs shares)
  ],
)

umori_iff :
    (cards : List RulesCard)
    → (umori cards ≡ ok []) ↔ ((nonlands cards ≡ []) ⊎ ShareType (nonlands cards))
umori_iff cards = umori_nonland cards (nonlands cards) refl

tally_some :
    (t : Text) (types : List Text) → tally_from {A = Text} (λ t. t) (λ t. 1) [] (t ∷ types) ≢ []
tally_some t types e =
    let found = is_some-tally_from {A = Text} (λ t. t) (λ t. 1) t [] (t ∷ types) in
    absurd (ground (arith, found, ap (lookup t) e, same_text_iff t t))

majority_raises :
    (cards : List RulesCard)
    → types_of cards ≡ []
    → majority (umori_counts cards) ≡ raise value_error
unfolding umori_counts majority
majority_raises cards h = rw h

majority_ok :
    (cards : List RulesCard)
    → types_of cards ≢ []
    → (t : Text) × (majority (umori_counts cards) ≡ ok t)
unfolding umori_counts
majority_ok cards h = go (types_of cards) refl
  where
    go :
        (types : List Text)
        → types_of cards ≡ types
        → (t : Text) × (majority (tally_from {A = Text} (λ t. t) (λ t. 1) [] (types_of cards))
            ≡ ok t)
    go [] e = absurd (h e)
    go (t ∷ ts) e =
        rw e (elim (majority-cases (tally_from {A = Text} (λ t. t) (λ t. 1) [] (t ∷ ts))) [
          | inl raises ↦ absurd (tally_some t ts (majority-raises→nil _ raises))
          | inr found ↦ found
        ])

untyped_apart :
    (c : RulesCard) (cs : List RulesCard)
    → types_of (c ∷ cs) ≡ []
    → is_empty (umori_shared (c ∷ cs)) ≡ true
unfolding types_of
untyped_apart c cs h = elim (Bool-cases (is_empty (umori_shared (c ∷ cs)))) [
  | inl apart ↦ apart
  | inr shared ↦
      let (t, k) = shared→ShareType c cs shared in
      let member : contains t (types_of (c ∷ cs)) ≡ true =
        contains-append t (card_types c.type_line) (types_of cs) ∙ rw k.0 in
      absurd (ground (arith, member, ap (contains t) h))
]

umori_nonland_raises :
    (cards nonland : List RulesCard)
    → nonlands cards ≡ nonland
    → (umori cards ≡ raise value_error) ↔ ((nonland ≢ []) × (types_of nonland ≡ []))
unfolding umori
umori_nonland_raises cards [] e = (λ h. absurd (ground arith), λ h. absurd (h.0 refl))
umori_nonland_raises cards (c ∷ cs) e = (
  λ h. (
    λ k. cc,
    elim (types_cases (types_of (c ∷ cs))) [
      | inl none_left ↦ none_left
      | inr some_left ↦ ground (arith, majority_ok (c ∷ cs) some_left)
    ],
  ),
  λ h. ground (arith, untyped_apart c cs h.1, majority_raises (c ∷ cs) h.1),
)

umori_raises_iff :
    (cards : List RulesCard)
    → (umori cards ≡ raise value_error) ↔ ((nonlands cards ≢ []) × (types_of (nonlands cards) ≡ []))
umori_raises_iff cards = umori_nonland_raises cards (nonlands cards) refl

-- Umori's check passes exactly when there is no nonland card or all of them share a card type, and
-- fails with a ValueError exactly when there are nonland cards and none of them has a card type.
pub umori_outcome :
    (cards : List RulesCard)
    → ((umori cards ≡ ok []) ↔ ((nonlands cards ≡ []) ⊎ ShareType (nonlands cards)))
      × ((umori cards ≡ raise value_error)
          ↔ ((nonlands cards ≢ []) × (types_of (nonlands cards) ≡ [])))
umori_outcome cards = (umori_iff cards, umori_raises_iff cards)
