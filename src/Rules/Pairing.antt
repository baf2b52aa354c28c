-- ===== src/Rules/Pairing.antt =====
-- The pairing rules of `pair_allowed` (backend/app/services/rules/commander.py) and the order of
-- the two cards.
use mtg_vault.Base.{◌≡◌, arith}
use mtg_vault.Base.Dict.{is_some}
use mtg_vault.Rules.Cards.{RulesCard}
use mtg_vault.Rules.Commander.{pair_allowed}

-- Two cards may lead a deck in one order exactly when they may in the other.
pair_allowed_comm :
    (first second : RulesCard)
    → is_some (pair_allowed first second) ≡ is_some (pair_allowed second first)
unfolding pair_allowed
pair_allowed_comm first second = ground arith
