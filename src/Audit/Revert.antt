-- ===== src/Audit/Revert.antt =====
-- `revert_batch` and `_revert_entry` (backend/app/services/audit.py). What the database refuses to
-- insert besides a key that is taken, by a UNIQUE or a foreign-key constraint, is a parameter.
use mtg_vault.Base.{
  ℕ, suc, ◌+◌, Bool, true, false, not, ◌&&◌, Option, none, some, List, [], ◌∷◌, ◌++◌, if◌then◌else◌,
  nat_beq, is_empty, filter, all, ◌==◌, Result, ok, raise, conflict, not_found,
}
use mtg_vault.Base.Text.{Text, codes, text_eq}
use mtg_vault.Base.Dict.{get_or, is_some}
use mtg_vault.Audit.Rows.{
  Row, Key, Entity, is_revertible, pk_of, Tables, set_table, find_row, delete_row, update_row, null,
}
use mtg_vault.Audit.Record.{Action, Payload, AuditEntry, record_entry}

-- The notes of a revert, one constructor for each message.
pub data Detail : Type 0 where
  not_revertible bulk_create_undone bulk_delete_undone already_gone no_before_state : Detail
  already_exists row_gone cannot_revert : Detail
  row_conflicts : Key → Detail

-- What reverting one entry did: the tables, whether anything was applied, and the notes.
pub record Effect : Type 0 where
  pub tables : Tables
  pub applied : Bool
  pub notes : List Detail

abbrev pub skipping : Tables → Detail → Effect
skipping tables detail = record { tables = tables; applied = false; notes = detail ∷ [] }

abbrev pub applying : Tables → Effect
applying tables = record { tables = tables; applied = true; notes = [] }

-- What the loop of `revert_batch` has done so far: the tables, the counts and notes of its
-- `RevertResult`, and the entries that it has recorded, newest first.
pub record Progress : Type 0 where
  pub tables : Tables
  pub reverted : ℕ
  pub skipped : ℕ
  pub details : List Detail
  pub written : List AuditEntry

-- `(entry.after_json or {}).get("rows") or []`
abbrev pub rows_of : Option Payload → List Row
rows_of (some (Payload.bulk rows summary)) = rows
rows_of (some (Payload.single row)) = []
rows_of none = []

-- `entry.before_json`, as the columns of a row.
abbrev pub row_of : Option Payload → Option Row
row_of (some (Payload.single row)) = some row
row_of (some (Payload.bulk rows summary)) = none
row_of none = none

-- The loop that removes the rows of a bulk create: the table, and how many it removed.
unfoldable pub remove_rows : Entity → List Row → List Row → List Row × ℕ
unfolding find_row delete_row
remove_rows model [] table = (table, 0)
remove_rows model (row ∷ rows) table =
    let key = pk_of model row in
    let present = is_some (find_row model key table) in
    let (rest, removed) =
      remove_rows model rows (if present then delete_row model key table else table) in
    (rest, if present then suc removed else removed)

-- The entries of the batch.
abbrev pub batch_of : Text → List AuditEntry → List AuditEntry
batch_of batch_id = filter (λ (entry : AuditEntry). entry.batch_id == batch_id)

abbrev pub starting : Tables → Progress
starting tables = record { tables = tables; reverted = 0; skipped = 0; details = []; written = [] }

module _ (violates : Entity → Row → Tables → Bool) where
  -- The loop that restores the rows of a bulk delete: the tables, how many it restored, and a note
  -- for each row that a constraint keeps out.
  unfoldable pub restore_rows : Entity → List Row → Tables → Tables × ℕ × List Detail
  unfolding find_row set_table
  restore_rows model [] tables = (tables, 0, [])
  restore_rows model (row ∷ rows) tables =
      let key = pk_of model row in
      let present = is_some (find_row model key (tables model)) in
      let blocked = not present && violates model row tables in
      let added = not present && not (violates model row tables) in
      let next = if added then set_table model (tables model ++ row ∷ []) tables else tables in
      let (final, restored, notes) = restore_rows model rows next in
      (
        final,
        if added then suc restored else restored,
        if blocked then Detail.row_conflicts key ∷ notes else notes,
      )

  -- `_revert_entry`, by the entry's action. The key of a single row is the entry's id.
  unfoldable pub revert_action : Action → AuditEntry → Tables → Effect
  unfolding remove_rows restore_rows find_row set_table delete_row update_row
  revert_action Action.bulk_create entry tables =
      let model = entry.entity_type in
      let (rest, removed) = remove_rows model (rows_of entry.after_json) (tables model) in
      if nat_beq removed 0
      then skipping tables Detail.bulk_create_undone
      else applying (set_table model rest tables)
  revert_action Action.bulk_delete entry tables =
      let (final, restored, blocked) =
        restore_rows entry.entity_type (rows_of entry.before_json) tables in
      if nat_beq restored 0
      then record {
        tables = final;
        applied = false;
        notes = blocked ++ Detail.bulk_delete_undone ∷ [];
      }
      else record { tables = final; applied = true; notes = blocked }
  revert_action Action.create entry tables =
      let model = entry.entity_type in
      let key = get_or entry.entity_id null ∷ [] in
      if is_some (find_row model key (tables model))
      then applying (set_table model (delete_row model key (tables model)) tables)
      else skipping tables Detail.already_gone
  revert_action Action.delete entry tables = elim (row_of entry.before_json) [
    | none ↦ skipping tables Detail.no_before_state
    | some row ↦
        let model = entry.entity_type in
        let key = get_or entry.entity_id null ∷ [] in
        if is_some (find_row model key (tables model))
        then skipping tables Detail.already_exists
        else applying (set_table model (tables model ++ row ∷ []) tables)
  ]
  revert_action Action.update entry tables = elim (row_of entry.before_json) [
    | none ↦ skipping tables Detail.row_gone
    | some values ↦
        let model = entry.entity_type in
        let key = get_or entry.entity_id null ∷ [] in
        if is_some (find_row model key (tables model))
        then applying (set_table model (update_row model key values (tables model)) tables)
        else skipping tables Detail.row_gone
  ]
  revert_action Action.revert entry tables = skipping tables Detail.cannot_revert

  module _ (batch_id new_batch_id now : Text) (note : Text) where
    -- The entry that records the revert of another.
    unfoldable pub revert_record : AuditEntry → AuditEntry
    revert_record entry = record {
      action = Action.revert;
      entity_type = entry.entity_type;
      entity_id = entry.entity_id;
      batch_id = new_batch_id;
      before_json = entry.after_json;
      after_json = entry.before_json;
      source = codes "revert";
      note = some (if is_empty note then codes "revert of batch " ++ batch_id else note);
      reverted_at = none;
    }

    -- The body of the loop for one entry of the batch: the entry, and the progress.
    unfoldable pub revert_step : AuditEntry → Progress → AuditEntry × Progress
    unfolding revert_action revert_record record_entry
    revert_step entry st =
        if is_some entry.reverted_at
        then (entry, record st { skipped = st.skipped + 1 })
        else if not (is_revertible entry.entity_type)
        then (
          entry,
          record st {
            skipped = st.skipped + 1;
            details = st.details ++ Detail.not_revertible ∷ [];
          },
        )
        else let effect = revert_action entry.action entry st.tables in
          if effect.applied
          then (
            record entry { reverted_at = some now },
            record {
              tables = effect.tables;
              reverted = st.reverted + 1;
              skipped = st.skipped;
              details = st.details ++ effect.notes;
              written = record_entry (revert_record entry) st.written;
            },
          )
          else (
            entry,
            record st {
              tables = effect.tables;
              skipped = st.skipped + 1;
              details = st.details ++ effect.notes;
            },
          )

    -- The loop over the log, newest first, which leaves the entries of other batches alone.
    unfoldable pub revert_log : List AuditEntry → Progress → List AuditEntry × Progress
    unfolding revert_step
    revert_log [] st = ([], st)
    revert_log (entry ∷ log) st =
        let ours = entry.batch_id == batch_id in
        let (entry', st') = if ours then revert_step entry st else (entry, st) in
        let (rest, final) = revert_log log st' in (entry' ∷ rest, final)

    -- `revert_batch`: the new log, and what was done.
    unfoldable pub revert_batch : List AuditEntry → Tables → Result (List AuditEntry × Progress)
    unfolding revert_log
    revert_batch log tables =
        if is_empty (batch_of batch_id log)
        then raise not_found
        else if all (λ (entry : AuditEntry). is_some entry.reverted_at) (batch_of batch_id log)
        then raise conflict
        else let (marked, final) = revert_log log (starting tables) in
          ok (final.written ++ marked, final)
