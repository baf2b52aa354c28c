-- ===== src/Audit/Examples.antt =====
-- Reverts of small batches, and each theorem on one.
use mtg_vault.Base.{
  ◌+◌, ◌≡◌, refl, ◌≢◌, ◌⊎◌, Bool, true, false, none, some, List, [], ◌∷◌, if◌then◌else◌, all,
  length, Result, ok, raise, conflict, not_found,
}
use mtg_vault.Base.Text.{Text, codes, text_eq, same_text, same_text_iff}
use mtg_vault.Base.Dict.{lookup, is_some}
use mtg_vault.Audit.Rows.{
  number, flag, text, Row, Entity, same_value, same_key, pk_of, Tables, find_row,
}
use mtg_vault.Audit.Record.{Action, Payload, AuditEntry, is_changed, changed_part, stored_pair}
use mtg_vault.Audit.Revert.{Progress, revert_action, revert_batch, batch_of}
use mtg_vault.Audit.Restore.{revert-update}
use mtg_vault.Audit.Batches.{revert_batch-outcome, revert_batch_once}

program : Unit {0}
unfolding revert_batch same_text same_value same_key pk_of changed_part is_changed stored_pair
program = tt

-- A database that refuses nothing.
abbrev accepts : Entity → Row → Tables → Bool
accepts model row tables = false

-- A rename of a deck, and what a later build wrote.
abbrev before : Row
before =
    (codes "id", number 7)
    ∷ (codes "name", text (codes "Old"))
    ∷ (codes "is_built", flag false)
    ∷ []

abbrev after : Row
after =
    (codes "id", number 7)
    ∷ (codes "name", text (codes "New"))
    ∷ (codes "is_built", flag false)
    ∷ []

abbrev later : Row
later =
    (codes "id", number 7) ∷ (codes "name", text (codes "New")) ∷ (codes "is_built", flag true) ∷ []

abbrev tables : Tables
tables Entity.deck = later ∷ []
tables _ = []

abbrev rename : AuditEntry
rename = record {
  action = Action.update;
  entity_type = Entity.deck;
  entity_id = some (number 7);
  batch_id = codes "b1";
  before_json = some (Payload.single ((codes "name", text (codes "Old")) ∷ []));
  after_json = some (Payload.single ((codes "name", text (codes "New")) ∷ []));
  source = codes "api";
  note = none;
  reverted_at = none;
}

-- The name is restored, and the later build is kept.
rename_test :
    (revert_action accepts Action.update rename tables).tables Entity.deck
    ≡ ((codes "id", number 7)
        ∷ (codes "name", text (codes "Old"))
        ∷ (codes "is_built", flag true)
        ∷ [])
      ∷ []
unfolding program
rename_test = refl

revert-update_example :
    let effect = revert_action accepts Action.update rename tables in
    (row : Row) × (effect.applied ≡ true)
    × (find_row Entity.deck (number 7 ∷ []) (effect.tables Entity.deck) ≡ some row)
    × ((k : Text)
        → lookup k row ≡ (if is_changed before after k then lookup k before else lookup k later))
unfolding program
revert-update_example =
    revert-update accepts rename tables before after later (refl, (refl, (refl, tt))) (refl, tt)
      refl refl

abbrev outcome : Result (List AuditEntry × Progress)
outcome = revert_batch accepts (codes "b1") (codes "b2") (codes "t") [] (rename ∷ []) tables

abbrev ran : Result (List AuditEntry × Progress) → List AuditEntry × Progress
ran (ok result) = result
ran (raise e) =
    ([], record { tables = tables; reverted = 0; skipped = 0; details = []; written = [] })

revert_batch-outcome_example :
    ((outcome ≡ raise not_found) × (batch_of (codes "b1") (rename ∷ []) ≡ []))
    ⊎ (((outcome ≡ raise conflict)
          × (batch_of (codes "b1") (rename ∷ []) ≢ [])
          × (all (λ (e : AuditEntry). is_some e.reverted_at) (batch_of (codes "b1") (rename ∷ []))
              ≡ true))
        ⊎ ((log' : List AuditEntry) × (final : Progress) × (batch_of (codes "b1") (rename ∷ [])
              ≢ [])
            × (all (λ (e : AuditEntry). is_some e.reverted_at) (batch_of (codes "b1") (rename ∷ []))
                ≡ false)
            × (outcome ≡ ok (log', final))
            × (final.reverted + final.skipped ≡ length (batch_of (codes "b1") (rename ∷ [])))))
revert_batch-outcome_example =
    revert_batch-outcome accepts (codes "b1") (codes "b2") (codes "t") [] (rename ∷ []) tables

other_batch : codes "b2" ≢ codes "b1"
unfolding same_text
other_batch e = let equal : false ≡ true = (same_text_iff (codes "b2") (codes "b1")).1 e in cc

revert_batch_once_example :
    revert_batch accepts (codes "b1") (codes "b3") (codes "t2") [] (ran outcome).0 tables
    ≡ raise conflict
unfolding program
revert_batch_once_example =
    revert_batch_once accepts (codes "b1") (codes "b2") (codes "t") [] (rename ∷ []) (ran outcome).0
      tables tables (ran outcome).1 (codes "b3") (codes "t2") other_batch refl refl
