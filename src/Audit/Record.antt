-- ===== src/Audit/Record.antt =====
-- The entries of the log, and `record` (backend/app/services/audit.py). The time stamp and the
-- actor of an entry are left to the database's defaults; an id is a place in the log.
use mtg_vault.Base.{Bool, not, ◌&&◌, Option, none, some, List, ◌∷◌, filter}
use mtg_vault.Base.Text.{Text, text_eq}
use mtg_vault.Base.Dict.{lookup, is_some}
use mtg_vault.Audit.Rows.{Value, Row, Entity, same_option}

pub data Action : Type 0 where
  create update delete revert bulk_create bulk_delete : Action

-- What an entry stores of the state before or after: a row, or the rows of a bulk action with its
-- summary.
pub data Payload : Type 0 where
  single : Row → Payload
  bulk : List Row → Row → Payload

pub record AuditEntry : Type 0 where
  pub action : Action
  pub entity_type : Entity
  pub entity_id : Option Value
  pub batch_id : Text
  pub before_json : Option Payload
  pub after_json : Option Payload
  pub source : Text
  pub note : Option Text
  pub reverted_at : Option Text

-- `key in changed`, for a key of both snapshots.
unfoldable pub is_changed : Row → Row → Text → Bool
is_changed before after key =
    is_some (lookup key before) && not (same_option (lookup key before) (lookup key after))

-- `{key: row[key] for key in changed if key in row}`
unfoldable pub changed_part : Row → Row → Row → Row
unfolding is_changed
changed_part before after = filter (λ (e : Text × Value). is_changed before after e.0)

-- The two snapshots that an update stores.
unfoldable pub stored_pair :
    Action → Option Payload → Option Payload → Option Payload × Option Payload
unfolding changed_part
stored_pair Action.update (some (Payload.single before)) (some (Payload.single after)) = (
  some (Payload.single (changed_part before after before)),
  some (Payload.single (changed_part before after after)),
)
stored_pair action before after = (before, after)

-- `record`: the log is kept newest first.
unfoldable pub record_entry : AuditEntry → List AuditEntry → List AuditEntry
unfolding stored_pair
record_entry entry log =
    let (before, after) = stored_pair entry.action entry.before_json entry.after_json in
    record entry { before_json = before; after_json = after; reverted_at = none } ∷ log
