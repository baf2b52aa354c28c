-- ===== src/Scan/Store.antt =====
-- The tables of the scanner (backend/app/models/scan.py), beside the collection that it fills. The
-- columns that no modelled operation reads or writes are left out.
use mtg_vault.Base.{
  ℕ, Option, none, some, List, [], ◌∷◌, map, if◌then◌else◌, nat_beq, nat_eq, ◌==◌, Result, ok,
  raise, not_found,
}
use mtg_vault.Base.Text.{Text, text_eq}
use mtg_vault.Audit.Rows.{Value, Row}
use mtg_vault.Collection.Items.{Collection}

pub record ScanSession : Type 0 where
  pub id : Text
  pub started_at : Text
  pub ended_at : Option Text
  pub device : Option Text
  pub added_count : ℕ

pub record ScanEvent : Type 0 where
  pub id : ℕ
  pub session_id : Option Text
  pub confirmed_card_id : Value
  pub confirmed_oracle_id : Value
  pub rejected_at : Option Text
  pub superseded_by_event_id : Option ℕ
  pub detail_json : Row

-- What `POST /api/scan/confirm` answers, without the strip of the last cards and their value.
pub record ConfirmResponse : Type 0 where
  pub item_ids : List Value
  pub batch_id : Text
  pub running_count : ℕ

pub record IdempotencyKey : Type 0 where
  pub key : Text
  pub endpoint : Text
  pub response_json : ConfirmResponse

pub record Scanner : Type 0 where
  pub collection : Collection
  pub sessions : List ScanSession
  pub events : List ScanEvent
  pub keys : List IdempotencyKey

-- `get_session`
unfoldable pub get_session : Text → List ScanSession → Result ScanSession
get_session session_id [] = raise not_found
get_session session_id (session ∷ sessions) =
    let rest = get_session session_id sessions in
    if session.id == session_id then ok session else rest

-- The session's row, replaced.
unfoldable pub write_session : ScanSession → List ScanSession → List ScanSession
write_session session = map (λ (row : ScanSession). if row.id == session.id then session else row)

-- `db.get(ScanEvent, event_id)`
unfoldable pub find_event : ℕ → List ScanEvent → Option ScanEvent
find_event event_id [] = none
find_event event_id (event ∷ events) =
    let rest = find_event event_id events in if nat_beq event.id event_id then some event else rest

-- Attribute writes on the event's row.
unfoldable pub write_event : ℕ → (ScanEvent → ScanEvent) → List ScanEvent → List ScanEvent
write_event event_id write =
    map (λ (event : ScanEvent). if nat_beq event.id event_id then write event else event)

-- `db.get(IdempotencyKey, key)`
unfoldable pub find_key : Text → List IdempotencyKey → Option IdempotencyKey
find_key key [] = none
find_key key (row ∷ rows) =
    let rest = find_key key rows in if row.key == key then some row else rest
