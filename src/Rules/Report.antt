-- ===== src/Rules/Report.antt =====
-- What the validation reports (backend/app/services/rules/validate.py): the codes, the errors, the
-- verdict, and the legality statuses it reads. A message is kept as its parts, an f-string's
-- literals and values, whose rendering to one text is left open.
use mtg_vault.Base.{ℕ, Bool, true, false, List, map}
use mtg_vault.Base.Text.{Text}
use mtg_vault.Base.Sorting.{sort, text_leb}
use mtg_vault.Rules.Cards.{RulesCard, DeckEntry}

pub data Status : Type 0 where
  legal not_legal restricted banned : Status

abbrev pub is_restricted : Status → Bool
is_restricted Status.restricted = true
is_restricted _ = false

abbrev pub is_banned : Status → Bool
is_banned Status.banned = true
is_banned _ = false

-- `status in (LEGAL, RESTRICTED)`
abbrev pub is_playable : Status → Bool
is_playable Status.legal = true
is_playable Status.restricted = true
is_playable _ = false

pub data Code : Type 0 where
  deck_size sideboard_ignored sideboard_size restricted_limit copy_limit banned not_legal : Code
  no_commander too_many_commanders invalid_commander invalid_partner color_identity : Code
  companion_count not_a_companion companion_restriction no_commander_in_format : Code
  contains_proxies : Code

pub data Part : Type 0 where
  literal : Text → Part
  number : ℕ → Part
  -- `", ".join(names)`
  joined : List Text → Part

pub record RuleError : Type 0 where
  pub code : Code
  pub message : List Part
  pub oracle_ids : List Text

pub record ValidationResult : Type 0 where
  pub is_legal : Bool
  pub errors : List RuleError
  pub warnings : List RuleError

-- `tuple(card.oracle_id for card in cards)`
abbrev pub ids_of : List RulesCard → List Text
ids_of = map (λ (c : RulesCard). c.oracle_id)

-- `", ".join(sorted(card.name for card in cards))`
unfoldable pub sorted_names : List RulesCard → Part
unfolding sort text_leb
sorted_names cards = Part.joined (sort text_leb (map (λ (c : RulesCard). c.name) cards))

abbrev pub cards_of : List DeckEntry → List RulesCard
cards_of = map (λ (e : DeckEntry). e.card)
