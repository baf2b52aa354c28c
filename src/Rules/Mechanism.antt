-- ===== src/Rules/Mechanism.antt =====
-- The reasons `pair_allowed` returns (backend/app/services/rules/commander.py).

pub data Mechanism : Type 0 where
  partner partner_with friends_forever background doctors_companion : Mechanism
