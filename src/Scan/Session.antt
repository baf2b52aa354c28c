-- ===== src/Scan/Session.antt =====
-- The operations of a scanning session (backend/app/services/scan/session.py). Session and batch
-- ids and the time are arguments; the strip entry that `confirm` returns beside its rows is left
-- out.
use mtg_vault.Base.{
  ℕ, ◌+◌, ◌-◌, Bool, true, false, not, ◌&&◌, ◌||◌, Option, none, some, List, [], ◌∷◌, ◌++◌, map,
  if◌then◌else◌, nat_beq, is_empty, any, length, take, ◌==◌, Result, ok, raise, not_found, ◌>>=◌,
}
use mtg_vault.Base.Text.{Text, codes, text_eq, has_part}
use mtg_vault.Base.Dict.{get_or, is_some, insert}
use mtg_vault.Audit.Rows.{Row, Entity, Tables, text}
use mtg_vault.Audit.Record.{AuditEntry}
use mtg_vault.Audit.Revert.{revert_batch, batch_of}
use mtg_vault.Collection.Names.{Unicode}
use mtg_vault.Collection.Printings.{AddSpec, is_given}
use mtg_vault.Collection.Items.{column, add_copies}
use mtg_vault.Scan.Store.{
  ScanSession, ScanEvent, Scanner, get_session, write_session, find_event, write_event,
}

-- `start_session`
unfoldable pub start_session : Text → Text → Option Text → Scanner → ScanSession × Scanner
start_session new_session now device s =
    let kept = take 200 (get_or device []) in
    let session : ScanSession = record {
      id = new_session;
      started_at = now;
      ended_at = none;
      device = if is_empty kept then none else some kept;
      added_count = 0;
    } in
    (session, record s { sessions = s.sessions ++ session ∷ [] })

-- `end_session`
unfoldable pub end_session : Text → Text → Scanner → Result (ScanSession × Scanner)
end_session now session_id s = get_session session_id s.sessions >>= λ session.
    let ended = record session { ended_at = some now } in
    ok (ended, record s { sessions = write_session ended s.sessions })

-- What `confirm` writes on the event that it confirms.
unfoldable pub confirmed : Text → Text → Option Text → Row → ScanEvent → ScanEvent
confirmed now session_id source item event = record event {
  confirmed_card_id = column (codes "card_id") item;
  confirmed_oracle_id = column (codes "oracle_id") item;
  session_id = if is_some event.session_id then event.session_id else some session_id;
  detail_json = insert (codes "confirmed_at") (text now) (
      insert (codes "confirm_source")
        (text (if is_given source then get_or source [] else codes "unknown")) event.detail_json);
}

-- `ScanEvent.id != (event_id or -1)`
abbrev pub is_other : Option ℕ → ℕ → Bool
is_other none id = true
is_other (some event_id) id = nat_beq event_id 0 || not (nat_beq id event_id)

-- The rejected events of the session that no acceptance has superseded.
unfoldable pub is_pending : Text → Option ℕ → ScanEvent → Bool
is_pending session_id event_id event =
    (elim event.session_id [ none ↦ false | some id ↦ id == session_id ])
    && is_some event.rejected_at
    && not (is_some event.superseded_by_event_id)
    && is_other event_id event.id

-- The link to the acceptance. Zero stands for an acceptance without an event.
unfoldable pub supersede : Option ℕ → Row → ScanEvent → ScanEvent
supersede event_id item event = record event {
  superseded_by_event_id = some (get_or event_id 0);
  detail_json =
      insert (codes "superseded_oracle_id") (column (codes "oracle_id") item)
        (insert (codes "superseded_card_id") (column (codes "card_id") item) event.detail_json);
}

-- The event rows with the confirmed one marked.
abbrev pub mark_event : Text → Text → Option ℕ → Option Text → Row → List ScanEvent → List ScanEvent
mark_event now session_id none source item events = events
mark_event now session_id (some id) source item events =
    write_event id (confirmed now session_id source item) events

-- The event rows after an acceptance of the row.
unfoldable pub accept : Text → Text → Option ℕ → Option Text → Row → List ScanEvent → List ScanEvent
unfolding is_pending
accept now session_id event_id source item events =
    map
      (λ event.
        if is_pending session_id event_id event then supersede event_id item event else event)
      (mark_event now session_id event_id source item events)

-- `f"scan session {session_id}"`
abbrev pub session_note : Text → Text
session_note session_id = codes "scan session " ++ session_id

-- `items[0]`
abbrev pub first_row : List Row → Row
first_row [] = []
first_row (row ∷ rows) = row

module _ (new_id : List Row → ℕ) (unicode : Unicode) (new_batch now : Text) where
  -- `confirm`: the new rows, the batch and the tables.
  unfoldable pub confirm :
      Text → AddSpec → ℕ → Option ℕ → Option Text → Scanner → Result (List Row × Text × Scanner)
  confirm session_id spec quantity event_id source s =
      get_session session_id s.sessions >>= λ session.
      add_copies new_batch now none (codes "scan") (some (session_note session_id)) new_id unicode
        spec quantity s.collection
      >>= λ (items, batch, collection).
          let counted = record session { added_count = session.added_count + length items } in
          ok (
            items,
            batch,
            record s {
              collection = collection;
              sessions = write_session counted s.sessions;
              events = accept now session_id event_id source (first_row items) s.events;
            },
          )

-- What `reject` writes on the event.
unfoldable pub rejected : Text → Text → ScanEvent → ScanEvent
rejected now session_id event = record event {
  session_id = if is_some event.session_id then event.session_id else some session_id;
  rejected_at = if is_some event.rejected_at then event.rejected_at else some now;
}

-- The event is there, and of no other session.
unfoldable pub is_foreign : Text → ScanEvent → Bool
is_foreign session_id event = elim event.session_id [
  | none ↦ false
  | some id ↦ not (id == session_id)
]

-- `reject`
unfoldable pub reject : Text → Text → ℕ → Scanner → Result (ScanEvent × Scanner)
reject now session_id event_id s = elim (find_event event_id s.events) [
  | none ↦ raise not_found
  | some event ↦
      if is_foreign session_id event
      then raise not_found
      else ok (
        rejected now session_id event,
        record s { events = write_event event_id (rejected now session_id) s.events },
      )
]

-- `entry.note and session_id in entry.note`
unfoldable pub is_noted : Text → AuditEntry → Bool
is_noted session_id entry = is_given entry.note && has_part session_id (get_or entry.note [])

-- `undo`: how many entries were reverted, and the tables. What the database refuses when a row is
-- put back is a parameter.
unfoldable pub undo :
    (Entity → Row → Tables → Bool) → Text → Text → Text → Text → Scanner → Result (ℕ × Scanner)
undo violates new_batch now session_id batch_id s = get_session session_id s.sessions >>= λ session.
    let entries = batch_of batch_id s.collection.log in
    if is_empty entries
    then raise not_found
    else if not (any (is_noted session_id) entries)
    then raise not_found
    else revert_batch violates batch_id new_batch now
        (codes "undo during scan session " ++ session_id) s.collection.log s.collection.tables
      >>= λ (log, result). ok (
        result.reverted,
        record s {
          collection = record s.collection { tables = result.tables; log = log };
          sessions =
              write_session (record session { added_count = session.added_count - result.reverted })
                s.sessions;
        },
      )
