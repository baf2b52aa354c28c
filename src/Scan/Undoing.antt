-- ===== src/Scan/Undoing.antt =====
-- The undo of a confirmed card (backend/app/services/scan/session.py).
use mtg_vault.Base.{
  ℕ, ◌+◌, ◌-◌, ◌≡◌, refl, sym, ap, ◌∙◌, inl, inr, Bool, true, false, Option, none, some, List, [],
  ◌∷◌, ◌++◌, arith, any, length, is_empty, ◌==◌, Bool-cases, ok, ok-injective, bind_passed,
}
use mtg_vault.Base.Text.{Text, codes, text_eq, same_text_iff, starts_with, strip_prefix, has_part}
use mtg_vault.Audit.Rows.{Row, Entity, Tables}
use mtg_vault.Audit.Record.{AuditEntry}
use mtg_vault.Audit.Revert.{batch_of}
use mtg_vault.Audit.Keys.{IsKeyedTable}
use mtg_vault.Collection.Names.{Unicode}
use mtg_vault.Collection.Printings.{AddSpec}
use mtg_vault.Collection.Items.{Collection, items_of, add_copies, add_entry}
use mtg_vault.Collection.Adding.{IsFresh, add_copies-passed, length-insert_rows}
use mtg_vault.Collection.AddUndo.{SameTables, revert_batch-add_copies, record_entry-add}
use mtg_vault.Scan.Store.{ScanSession, Scanner, get_session, write_session}
use mtg_vault.Scan.Session.{session_note, confirm, is_noted, undo}

strip_prefix_refl : (s : Text) → strip_prefix s s ≡ some []
unfolding strip_prefix
strip_prefix_refl [] = refl
strip_prefix_refl (c ∷ s) = ground (arith, strip_prefix_refl s)

has_part-end : (before s : Text) → has_part s (before ++ s) ≡ true
unfolding has_part starts_with
has_part-end [] [] = refl
has_part-end [] (c ∷ s) = ground (arith, strip_prefix_refl (c ∷ s))
has_part-end (c ∷ before) s = ground (arith, has_part-end before s)

get_session-id :
    (id : Text) (sessions : List ScanSession) (session : ScanSession)
    → get_session id sessions ≡ ok session
    → session.id ≡ id
unfolding get_session
get_session-id id [] session h = absurd (cc)
get_session-id id (s ∷ ss) session h = elim (Bool-cases (s.id == id)) [
  | inl here ↦
      let same : s ≡ session = ground (arith, here) in rw (← same) ((same_text_iff s.id id).0 here)
  | inr there ↦ get_session-id id ss session (ground (arith, there))
]

get_session-write_session :
    (id : Text) (sessions : List ScanSession) (old new : ScanSession)
    → get_session id sessions ≡ ok old
    → new.id ≡ id
    → get_session id (write_session new sessions) ≡ ok new
unfolding get_session write_session
get_session-write_session id [] old new h e = absurd (cc)
get_session-write_session id (s ∷ ss) old new h e = elim (Bool-cases (s.id == id)) [
  | inl here ↦
      let same : (s.id == new.id) ≡ true = rw e here in
      let mine : (new.id == id) ≡ true = (same_text_iff new.id id).1 e in rw same (rw mine refl)
  | inr there ↦
      let apart : (s.id == new.id) ≡ false = rw e there in
      rw (apart, there) (get_session-write_session id ss old new (sym (rw there refl) ∙ h) e)
]

-- What an add has done to the log: one entry of the batch, with the note.
add_copies-logged :
    (new_batch now source : Text) (remark : Text) (new_id : List Row → ℕ) (unicode : Unicode)
    (spec : AddSpec) (quantity : ℕ) (c : Collection) (items : List Row) (batch : Text)
    (c' : Collection)
    → add_copies new_batch now none source (some remark) new_id unicode spec quantity c
      ≡ ok (items, batch, c')
    → (entry : AuditEntry) × (c'.log ≡ entry ∷ c.log)
      × (entry.batch_id ≡ batch)
      × (entry.note ≡ some remark)
      × (new_batch ≡ batch)
      × (length items ≡ quantity)
unfolding add_entry
add_copies-logged new_batch now source remark new_id unicode spec quantity c items batch c' h =
    let (card, _, _, _, (same_items, same_batch, same)) =
      add_copies-passed new_batch now none source (some remark) new_id unicode spec quantity c items
        batch c' h in
    (
      _,
      ap (λ (d : Collection). d.log) same
          ∙ record_entry-add batch source card spec quantity _ (some remark) c.log,
      refl,
      refl,
      same_batch,
      ap length (sym same_items) ∙ length-insert_rows new_id _ quantity (items_of c.tables),
    )

module _ (new_id : List Row → ℕ) (unicode : Unicode) (new_batch now session_id : Text)
    (spec : AddSpec) (quantity : ℕ) (event_id : Option ℕ) (source : Option Text) (s : Scanner) where
  -- What a confirm has done: the add, and one session with a new count.
  confirm_passed :
      (items : List Row) (batch : Text) (s' : Scanner)
      → confirm new_id unicode new_batch now session_id spec quantity event_id source s
        ≡ ok (items, batch, s')
      → (session : ScanSession) × (get_session session_id s.sessions ≡ ok session)
        × (add_copies new_batch now none
              (codes "scan")
              (some (session_note session_id))
              new_id
              unicode
              spec
              quantity
              s.collection
            ≡ ok (items, batch, s'.collection))
        × (get_session session_id s'.sessions
            ≡ ok (record session { added_count = session.added_count + length items }))
  unfolding confirm
  confirm_passed items batch s' h =
      let (session, stored, h1) =
        bind_passed (get_session session_id s.sessions) _ (items, batch, s') h in
      let (added, done, h2) =
        bind_passed
          (add_copies new_batch now none (codes "scan") (some (session_note session_id)) new_id
            unicode spec quantity s.collection)
          _ (items, batch, s') h1 in
      let same = ok-injective _ (items, batch, s') h2 in
      let counted = record session { added_count = session.added_count + length added.0 } in
      let moved = ap (λ (r : List Row × Text × Scanner). r.2.sessions) same in
      (
        session,
        stored,
        done ∙ ap (λ (r : List Row × Text × Scanner). ok (r.0, r.1, r.2.collection)) same,
        ap (get_session session_id) (sym moved)
            ∙ (get_session-write_session session_id s.sessions session counted stored
                  (get_session-id session_id s.sessions session stored)
                ∙ ap
                    (λ (r : List Row × Text × Scanner).
                      ok (record session { added_count = session.added_count + length r.0 }))
                    same),
      )

-- An entry of the batch in front of the log, with the note of the session.
noted_entry :
    (session_id batch : Text) (entry : AuditEntry) (log : List AuditEntry)
    → entry.batch_id ≡ batch
    → entry.note ≡ some (session_note session_id)
    → (is_empty (batch_of batch (entry ∷ log)) ≡ false)
      × (any (is_noted session_id) (batch_of batch (entry ∷ log)) ≡ true)
unfolding is_noted
noted_entry session_id batch entry log same remark =
    let ours : (entry.batch_id == batch) ≡ true = (same_text_iff entry.batch_id batch).1 same in
    let named = has_part-end (codes "scan session ") session_id in
    let mine : is_noted session_id entry ≡ true = rw remark named in
    (rw ours refl, rw ours (rw mine refl))

-- Undoing the batch of a confirmed card in its session, where nothing else is recorded under the id
-- of the batch, puts every table of the collection back as it was before the card was confirmed,
-- and lowers the count of the session by one, however many copies were confirmed at once. The ids
-- of the copies are unique, and the database gives a new row an id that no row has.
pub undo-confirm :
    (violates : Entity → Row → Tables → Bool) (new_id : List Row → ℕ) (unicode : Unicode)
    (new_batch now again later session_id : Text) (spec : AddSpec) (quantity : ℕ)
    (event_id : Option ℕ) (source : Option Text) (s s' : Scanner) (items : List Row) (batch : Text)
    → IsFresh new_id
    → IsKeyedTable Entity.collection_item (items_of s.collection.tables)
    → batch_of new_batch s.collection.log ≡ []
    → confirm new_id unicode new_batch now session_id spec quantity event_id source s
      ≡ ok (items, batch, s')
    → (session session' : ScanSession) × (s2 : Scanner) × (get_session session_id s.sessions
        ≡ ok session)
      × (undo violates again later session_id batch s' ≡ ok (1, s2))
      × SameTables s2.collection.tables s.collection.tables
      × (get_session session_id s2.sessions ≡ ok session')
      × (session'.added_count ≡ session.added_count + quantity - 1)
unfolding undo
undo-confirm violates new_id unicode new_batch now again later session_id spec quantity event_id
      source s s' items batch fresh keyed alone h =
    let (session, stored, added, counted) =
      confirm_passed new_id unicode new_batch now session_id spec quantity event_id source s items
        batch s' h in
    let (entry, logged, ours, remark, same_batch, size) =
      add_copies-logged new_batch now (codes "scan") (session_note session_id) new_id unicode spec
        quantity s.collection items batch s'.collection added in
    let (log, final, reverted, one, none_skipped, back) =
      revert_batch-add_copies violates new_batch now none (codes "scan")
        (some (session_note session_id)) new_id unicode spec quantity s.collection items batch
        s'.collection again later (codes "undo during scan session " ++ session_id) fresh keyed
        (ap (λ b. batch_of b s.collection.log) (sym same_batch) ∙ alone) added in
    let (present, noted) = noted_entry session_id batch entry s.collection.log ours remark in
    let present' = ap (λ l. is_empty (batch_of batch l)) logged ∙ present in
    let noted' = ap (λ l. any (is_noted session_id) (batch_of batch l)) logged ∙ noted in
    let old = record session { added_count = session.added_count + length items } in
    let new = record old { added_count = old.added_count - final.reverted } in
    let s2 = record s' {
      collection = record s'.collection { tables = final.tables; log = log };
      sessions = write_session new s'.sessions;
    } in
    (
      session,
      new,
      s2,
      stored,
      rw (counted, present', noted', reverted) (ap (λ n. ok (n, s2)) one),
      back,
      get_session-write_session session_id s'.sessions old new counted
          (get_session-id session_id s.sessions session stored),
      omega (arith, size, one),
    )
