-- ===== src/Collection/Printings.antt =====
-- Resolving a spec to a printing: `resolve_card`, `_printings_for` and `_printing_sort_key`
-- (backend/app/services/collection/add.py), over the columns of `cards` and `oracle_cards`
-- (backend/app/models/cards.py) that it reads.
use mtg_vault.Base.{
  ℕ, Bool, true, false, not, ◌&&◌, ◌||◌, Option, none, some, List, [], ◌∷◌, map, nat_eq, nat_beq,
  ltb, if◌then◌else◌, is_empty, filter, contains, ◌==◌,
}
use mtg_vault.Base.Text.{Text, codes, lower, text_eq}
use mtg_vault.Base.Dict.{get_or}
use mtg_vault.Base.Sorting.{sort, text_leb}
use mtg_vault.Collection.Names.{Unicode, normalize_name}

-- A row of `cards`.
pub record Printing : Type 0 where
  pub id : ℕ
  pub oracle_id : Text
  pub set_code : Text
  pub set_name : Option Text
  pub collector_number : Text
  pub lang : Text
  pub name : Text
  pub rarity : Option Text
  pub released_at : Option Text
  pub digital : Bool
  pub price_usd_cents : Option ℕ
  pub price_usd_foil_cents : Option ℕ
  pub price_usd_etched_cents : Option ℕ

-- A row of `oracle_cards`.
pub record OracleName : Type 0 where
  pub oracle_id : Text
  pub name_norm : Text
  pub name_front_norm : Text

pub record AddSpec : Type 0 where
  pub oracle_id : Option Text
  pub set_code : Option Text
  pub collector_number : Option Text
  pub name : Option Text
  pub lang : Text
  pub finish : Text
  pub condition : Text
  pub is_proxy : Bool
  pub acquired_at : Option Text
  pub acquired_price_cents : Option ℕ
  pub notes : Option Text

pub data MatchedOn : Type 0 where
  on_printing on_lang_fallback on_ambiguous_name on_oracle on_nothing : MatchedOn

pub record Resolution : Type 0 where
  pub card : Option Printing
  pub candidates : List Printing
  pub matched_on : MatchedOn

-- An optional text that is there and not empty.
abbrev pub is_given : Option Text → Bool
is_given none = false
is_given (some t) = not (is_empty t)

-- A printing without a price sorts as one of 10**9 cents.
abbrev pub price_rank : Printing → ℕ
price_rank card = get_or card.price_usd_cents 1000000000

abbrev pub digital_rank : Printing → ℕ
digital_rank card = if card.digital then 1 else 0

-- `_printing_sort_key(a) <= _printing_sort_key(b)`
unfoldable pub printing_leb : Printing → Printing → Bool
printing_leb a b =
    ltb (digital_rank a) (digital_rank b)
    || nat_beq (digital_rank a) (digital_rank b)
      && (ltb (price_rank a) (price_rank b)
          || nat_beq (price_rank a) (price_rank b) && text_leb a.set_code b.set_code)

-- `Card.released_at.desc()`, which puts NULL last.
abbrev pub newer_leb : Option Text → Option Text → Bool
newer_leb (some s) (some t) = text_leb t s
newer_leb (some s) none = true
newer_leb none (some t) = false
newer_leb none none = true

-- `.order_by(Card.lang != "en", Card.released_at.desc())`
unfoldable pub english_leb : Printing → Printing → Bool
english_leb a b =
    let english_a = a.lang == codes "en" in
    let english_b = b.lang == codes "en" in
    english_a && not english_b
    || not (english_b && not english_a) && newer_leb a.released_at b.released_at

-- `_printings_for`
unfoldable pub printings_for : List Printing → List Text → List Printing
unfolding english_leb sort
printings_for cards oracle_ids =
    sort english_leb (filter (λ (card : Printing). contains card.oracle_id oracle_ids) cards)

-- The first printing with the natural key, which is unique.
unfoldable pub find_printing : Text → Text → Text → List Printing → Option Printing
find_printing set_code collector_number lang [] = none
find_printing set_code collector_number lang (card ∷ cards) =
    if card.set_code == set_code && card.collector_number == collector_number && card.lang == lang
    then some card
    else find_printing set_code collector_number lang cards

abbrev pub unmatched : Resolution
unmatched = record { card = none; candidates = []; matched_on = MatchedOn.on_nothing }

-- The exact printing, or the fallback.
abbrev pub printing_or : Option Printing → Option Printing → Resolution
printing_or (some exact) fallback = record {
  card = some exact;
  candidates = [];
  matched_on = MatchedOn.on_printing;
}
printing_or none (some fallback) = record {
  card = some fallback;
  candidates = [];
  matched_on = MatchedOn.on_lang_fallback;
}
printing_or none none = unmatched

-- `resolve_card` for a set code and a collector number.
unfoldable pub resolve_printing : List Printing → Text → Text → Text → Resolution
resolve_printing cards set_code collector_number lang =
    printing_or (find_printing (lower set_code) collector_number lang cards)
      (find_printing (lower set_code) collector_number (codes "en") cards)

-- The first of the sorted printings.
abbrev pub first_printing : List Printing → Resolution
first_printing [] = unmatched
first_printing (card ∷ others) = record {
  card = some card;
  candidates = card ∷ others;
  matched_on = MatchedOn.on_oracle;
}

-- `resolve_card` for an oracle id.
unfoldable pub resolve_oracle : List Printing → Text → Resolution
unfolding printings_for sort printing_leb
resolve_oracle cards oracle_id =
    first_printing (sort printing_leb (printings_for cards (oracle_id ∷ [])))

-- The oracle cards of a name.
unfoldable pub oracles_named : Text → List OracleName → List OracleName
oracles_named normalized =
    filter (λ (o : OracleName). o.name_norm == normalized || o.name_front_norm == normalized)

-- `resolve_card` for the oracle cards of a name: one, several or none.
unfoldable pub resolve_named : List Printing → List OracleName → Resolution
resolve_named cards [] = unmatched
resolve_named cards (o ∷ []) = resolve_oracle cards o.oracle_id
resolve_named cards (o ∷ p ∷ more) = record {
  card = none;
  candidates = printings_for cards (map (λ (q : OracleName). q.oracle_id) (o ∷ p ∷ more));
  matched_on = MatchedOn.on_ambiguous_name;
}

-- `resolve_card` without a printing: for the oracle id, or for the name.
unfoldable pub resolve_by_oracle :
    Unicode → List Printing → List OracleName → Option Text → Option Text → Resolution
unfolding oracles_named
resolve_by_oracle unicode cards oracles (some oracle_id) name = resolve_oracle cards oracle_id
resolve_by_oracle unicode cards oracles none name =
    if is_given name
    then resolve_named cards (oracles_named (normalize_name unicode (get_or name [])) oracles)
    else unmatched

-- `resolve_card`
unfoldable pub resolve_card : Unicode → List Printing → List OracleName → AddSpec → Resolution
resolve_card unicode cards oracles spec =
    if is_given spec.set_code && is_given spec.collector_number
    then resolve_printing cards (get_or spec.set_code []) (get_or spec.collector_number [])
        spec.lang
    else resolve_by_oracle unicode cards oracles spec.oracle_id spec.name
