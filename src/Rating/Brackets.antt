-- ===== src/Rating/Brackets.antt =====
-- Commander bracket detection (backend/app/services/rating/brackets.py). The classification of a
-- card by the patterns of a data file (classify.py) is a parameter.
use mtg_vault.Base.{
  ℕ, max, Bool, true, false, not, ◌&&◌, Option, List, [], ◌∷◌, ◌++◌, map, if◌then◌else◌, ltb, leb,
  nat_beq, is_empty, length, filter, contains,
}
use mtg_vault.Base.Text.{Text, codes, text_eq}
use mtg_vault.Base.Sorting.{sort, text_leb}
use mtg_vault.Base.Dict.{get_or, is_some}
use mtg_vault.Rules.Cards.{RulesCard, DeckEntry, Board}

pub record Signals : Type 0 where
  pub game_changers : List Text
  pub extra_turns : List Text
  pub mass_land_denial : List Text
  pub two_card_combos : List Text
  pub tutors : List Text

-- The lines of the rationale, one constructor for each message.
pub data Reason : Type 0 where
  no_signals many_game_changers chained_turns one_extra_turn tournament unavailable : Reason
  game_changer_count combo_count tutor_count : ℕ → Reason
  land_denial : List Text → Reason

pub record BracketVerdict : Type 0 where
  pub bracket : ℕ
  pub signals : Signals
  pub rationale : List Reason

-- `entry.board in ("main", "commander")`
abbrev pub is_counted : Board → Bool
is_counted Board.main = true
is_counted Board.commander = true
is_counted _ = false

-- No signal but a handful of tutors.
abbrev pub is_quiet : Signals → Bool
is_quiet s =
    is_empty s.game_changers
    && is_empty s.extra_turns
    && is_empty s.mass_land_denial
    && is_empty s.two_card_combos
    && leb (length s.tutors) 2

-- `bracket`, before the cEDH read.
unfoldable pub base_bracket : Signals → ℕ
base_bracket s =
    let by_changers = if ltb 3 (length s.game_changers) then 4 else 3 in
    let by_denial = if is_empty s.mass_land_denial then by_changers else 4 in
    let by_combos = if is_empty s.two_card_combos then by_denial else max by_denial 4 in
    let by_turns = if ltb 1 (length s.extra_turns) then max by_combos 4 else by_combos in
    if is_quiet s then 2 else by_turns

-- `bracket == 4 and len(combos) >= _CEDH_COMBOS and len(tutors) >= _CEDH_TUTORS`
unfoldable pub is_tournament : Signals → Bool
unfolding base_bracket
is_tournament s =
    nat_beq (base_bracket s) 4 && leb 3 (length s.two_card_combos) && leb 6 (length s.tutors)

unfoldable pub bracket_of : Signals → ℕ
unfolding is_tournament
bracket_of s = if is_tournament s then 5 else base_bracket s

abbrev when : Bool → Reason → List Reason
when b reason = if b then reason ∷ [] else []

unfoldable pub rationale_of : Signals → Bool → List Reason
unfolding is_tournament
rationale_of s checked =
    let changers = length s.game_changers in
    let turns = length s.extra_turns in
    let tutors = length s.tutors in
    (if is_quiet s
      then Reason.no_signals ∷ []
      else when (ltb 0 changers) (Reason.game_changer_count changers)
        ++ (when (ltb 3 changers) Reason.many_game_changers
            ++ (when (not (is_empty s.mass_land_denial)) (Reason.land_denial s.mass_land_denial)
                ++ (when (not (is_empty s.two_card_combos))
                      (Reason.combo_count (length s.two_card_combos))
                    ++ ((if ltb 1 turns
                          then Reason.chained_turns ∷ []
                          else when (ltb 0 turns) Reason.one_extra_turn)
                        ++ when (ltb 2 tutors) (Reason.tutor_count tutors))))))
    ++ (when (is_tournament s) Reason.tournament ++ when (not checked) Reason.unavailable)

module _ (classify : RulesCard → List Text) where
  -- The sorted names of the counted cards that pass a test.
  unfoldable pub names_with : (RulesCard → Bool) → List DeckEntry → List Text
  unfolding sort text_leb
  names_with p entries = sort text_leb (
      map (λ (e : DeckEntry). e.card.name)
        (filter (λ (e : DeckEntry). is_counted e.board && p e.card) entries))

  unfoldable pub signals_of : List DeckEntry → List Text → Signals
  unfolding names_with
  signals_of entries combos = record {
    game_changers = names_with (λ c. c.game_changer) entries;
    extra_turns = names_with (λ c. contains (codes "extra_turn") (classify c)) entries;
    mass_land_denial = names_with (λ c. contains (codes "mass_land_denial") (classify c)) entries;
    two_card_combos = combos;
    tutors = names_with (λ c. contains (codes "tutor") (classify c)) entries;
  }

  -- `detect_bracket`
  unfoldable pub detect_bracket : List DeckEntry → Option (List Text) → BracketVerdict
  unfolding signals_of bracket_of rationale_of
  detect_bracket entries two_card_combos =
      let signals = signals_of entries (get_or two_card_combos []) in
      record {
        bracket = bracket_of signals;
        signals = signals;
        rationale = rationale_of signals (is_some two_card_combos);
      }
