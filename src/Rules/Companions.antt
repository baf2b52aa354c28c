-- ===== src/Rules/Companions.antt =====
-- Companion deck-building restrictions (backend/app/services/rules/companions.py): each check
-- returns its offenders.
use mtg_vault.Base.{
  ℕ, ◌/◌, ◌%◌, Bool, not, ◌&&◌, ◌||◌, List, [], ◌∷◌, ◌++◌, map, if◌then◌else◌, ltb, nat_beq,
  is_empty, filter, contains, intersect, Result, ok, raise, ◌>>=◌, value_error,
}
use mtg_vault.Base.Text.{Text, codes, text_eq}
use mtg_vault.Base.Dict.{Dict, tally_from}
use mtg_vault.Rules.Cards.{
  RulesCard, card_types, has_activated_ability, has_repeated_mana_symbol, is_permanent_card,
  subtypes,
}

abbrev pub kaheera_types : List Text
kaheera_types =
    codes "Cat" ∷ codes "Elemental" ∷ codes "Nightmare" ∷ codes "Dinosaur" ∷ codes "Beast" ∷ []

-- `int(c.cmc)`
abbrev pub mana_value : RulesCard → ℕ
mana_value c = c.cmc / 100

unfoldable pub lurrus : List RulesCard → List RulesCard
lurrus = filter (λ c. is_permanent_card c && ltb 200 c.cmc)

unfoldable pub jegantha : List RulesCard → List RulesCard
jegantha = filter has_repeated_mana_symbol

unfoldable pub obosh : List RulesCard → List RulesCard
obosh = filter (λ c. not c.is_land && nat_beq (mana_value c % 2) 0)

unfoldable pub gyruda : List RulesCard → List RulesCard
gyruda = filter (λ c. not c.is_land && nat_beq (mana_value c % 2) 1)

unfoldable pub keruga : List RulesCard → List RulesCard
keruga = filter (λ c. not c.is_land && ltb c.cmc 300)

unfoldable pub kaheera : List RulesCard → List RulesCard
kaheera = filter λ c.
    contains (codes "Creature") (card_types c.type_line)
    && not (contains (codes "Changeling") c.keywords)
    && is_empty (intersect (subtypes c.type_line) kaheera_types)

unfoldable pub zirda : List RulesCard → List RulesCard
zirda = filter (λ c. is_permanent_card c && not (has_activated_ability c))

-- `frozenset.intersection(*sets)`, of the first and the others.
unfoldable pub intersection : List Text → List (List Text) → List Text
intersection types [] = types
intersection types (other ∷ others) = intersection (intersect types other) others

-- The types of every nonland card, one after the other.
unfoldable pub types_of : List RulesCard → List Text
types_of [] = []
types_of (c ∷ cs) = card_types c.type_line ++ types_of cs

-- `max(counts, key=lambda t: counts[t])`: the first type with the highest count, and
-- `ValueError` for an empty dict.
first_max : Text × ℕ → Dict Text ℕ → Text
first_max (t, n) [] = t
first_max (t, n) ((u, m) ∷ d) = first_max (if ltb n m then (u, m) else (t, n)) d

unfoldable pub majority : Dict Text ℕ → Result Text
unfolding first_max
majority [] = raise value_error
majority (e ∷ d) = ok (first_max e d)

unfoldable pub umori_shared : List RulesCard → List Text
unfolding intersection
umori_shared [] = []
umori_shared (c ∷ cs) =
    intersection (card_types c.type_line) (map (λ (d : RulesCard). card_types d.type_line) cs)

-- `counts`, over the card types in the order of the loops.
unfoldable pub umori_counts : List RulesCard → Dict Text ℕ
unfolding types_of tally_from
umori_counts nonland = tally_from (λ t. t) (λ t. 1) [] (types_of nonland)

unfoldable pub umori : List RulesCard → Result (List RulesCard)
unfolding umori_shared umori_counts majority
umori cards =
    let nonland = filter (λ c. not c.is_land) cards in
    if is_empty nonland
    then ok []
    else if not (is_empty (umori_shared nonland))
    then ok []
    else (majority (umori_counts nonland) >>= λ type.
        ok (filter (λ c. not (contains type (card_types c.type_line))) nonland))

abbrev pub Check : Type 0
Check = List RulesCard → Result (List RulesCard)

-- A check that cannot raise.
abbrev total : (List RulesCard → List RulesCard) → Check
total check cards = ok (check cards)

abbrev pub companion_checks : Dict Text Check
companion_checks =
    (codes "Lurrus of the Dream-Den", total lurrus)
    ∷ (codes "Jegantha, the Wellspring", total jegantha)
    ∷ (codes "Obosh, the Preypiercer", total obosh)
    ∷ (codes "Gyruda, Doom of Depths", total gyruda)
    ∷ (codes "Keruga, the Macrosage", total keruga)
    ∷ (codes "Kaheera, the Orphanguard", total kaheera)
    ∷ (codes "Zirda, the Dawnwaker", total zirda)
    ∷ (codes "Umori, the Collector", umori)
    ∷ []

abbrev pub yorion : Text
yorion = codes "Yorion, Sky Nomad"

abbrev pub lutri : Text
lutri = codes "Lutri, the Spellchaser"

abbrev pub companion_names : List Text
companion_names = map (λ (e : Text × Check). e.0) companion_checks ++ yorion ∷ lutri ∷ []

unfoldable pub is_companion : RulesCard → Bool
is_companion card = contains (codes "Companion") card.keywords || contains card.name companion_names
