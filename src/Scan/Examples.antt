-- ===== src/Scan/Examples.antt =====
-- A session at the scanner, and each theorem on it.
use mtg_vault.Base.{
  ℕ, ◌+◌, ◌-◌, ◌≤◌, sum_of, length, ◌≡◌, refl, none, some, false, Option, List, [], ◌∷◌, All, ◌⊎◌,
  true, Result, ok, raise, Bool,
}
use mtg_vault.Base.Text.{Text, codes, same_text, lower, has_part, starts_with, strip_prefix}
use mtg_vault.Base.Dict.{is_some}
use mtg_vault.Base.Sorting.{sort, text_leb}
use mtg_vault.Audit.Rows.{
  Row, Entity, Tables, null, number, text, flag, same_value, same_key, pk_of, find_row, delete_row,
  set_table,
}
use mtg_vault.Audit.Record.{record_entry}
use mtg_vault.Audit.Revert.{revert_batch}
use mtg_vault.Collection.Names.{normalize_name}
use mtg_vault.Collection.Printings.{
  resolve_card, resolve_printing, resolve_oracle, resolve_named, resolve_by_oracle, find_printing,
  printings_for, printing_leb, english_leb, oracles_named,
}
use mtg_vault.Collection.Items.{new_item, insert_rows, add_entry, chosen, add_copies}
use mtg_vault.Collection.AddUndo.{SameTables}
use mtg_vault.Collection.Sample.{next_id, next_id-IsFresh, unicode, bolt, vault, printing}
use mtg_vault.Scan.Store.{
  ScanSession, ScanEvent, ConfirmResponse, Scanner, get_session, write_session, find_event,
  write_event, find_key,
}
use mtg_vault.Scan.Session.{
  start_session, end_session, confirmed, is_pending, supersede, accept, confirm, reject, rejected,
  is_foreign, is_noted, undo,
}
use mtg_vault.Scan.Requests.{
  replay_idempotent, remember_idempotent, ConfirmRequest, card_by_id, spec_from, confirm_once,
  confirm_request,
}
use mtg_vault.Scan.Retry.{confirm_request-retried}
use mtg_vault.Scan.Undoing.{undo-confirm}
use mtg_vault.Prices.Value.{Copy, price_column, card_of, valued}
use mtg_vault.Scan.Worth.{
  session_price, session_totals, is_scanned, listed_ids, session_item_ids, session_copies,
  session_value,
}
use mtg_vault.Scan.Totals.{fallback_value, session_totals-valued}
use mtg_vault.Scan.Links.{IsSettled, link_of, rejection_of, confirm-links}

program : Unit {0}
unfolding normalize_name resolve_card resolve_printing resolve_oracle resolve_named
    resolve_by_oracle find_printing printings_for printing_leb english_leb oracles_named sort
    text_leb lower new_item insert_rows add_entry chosen add_copies same_text same_value same_key
    pk_of find_row delete_row set_table record_entry next_id get_session write_session find_event
    write_event find_key start_session end_session confirmed is_pending supersede accept confirm
    reject rejected is_foreign is_noted undo replay_idempotent remember_idempotent card_by_id
    spec_from confirm_once confirm_request has_part starts_with strip_prefix revert_batch
    price_column card_of valued session_price session_totals is_scanned listed_ids session_item_ids
    session_copies session_value
program = tt

abbrev accepts : Entity → Row → Tables → Bool
accepts model row tables = false

abbrev event : ℕ → Option Text → Option ℕ → ScanEvent
event id rejected_at link = record {
  id = id;
  session_id = some (codes "s1");
  confirmed_card_id = null;
  confirmed_oracle_id = null;
  rejected_at = rejected_at;
  superseded_by_event_id = link;
  detail_json = [];
}

-- A session with an event, a rejected one, and one whose link is there.
abbrev desk : Scanner
desk = record {
  collection = vault;
  sessions =
      record {
        id = codes "s1";
        started_at = codes "t0";
        ended_at = none;
        device = none;
        added_count = 4;
      }
      ∷ [];
  events =
      event 1 (some (codes "t0")) (some 9)
      ∷ event 2 (some (codes "t0")) none
      ∷ event 3 none none
      ∷ [];
  keys = [];
}

abbrev confirm_two : Result (List Row × Text × Scanner)
confirm_two =
    confirm next_id unicode (codes "b1") (codes "t1") (codes "s1") bolt 2 (some 3) none desk

abbrev got : Result (List Row × Text × Scanner) → List Row × Text × Scanner
got (ok result) = result
got (raise e) = ([], [], desk)

abbrev after_two : Scanner
after_two = (got confirm_two).2

-- Two copies are counted, and the rejected event is linked to the confirmed one.
confirmed_test :
    (after_two.sessions
      ≡ record {
        id = codes "s1";
        started_at = codes "t0";
        ended_at = none;
        device = none;
        added_count = 6;
      }
        ∷ [])
    × (link_of 2 after_two.events ≡ some 3)
unfolding program
confirmed_test = (refl, refl)

undo-confirm_example :
    (session session' : ScanSession) × (s2 : Scanner) × (get_session (codes "s1") desk.sessions
      ≡ ok session)
    × (undo accepts (codes "b2") (codes "t2") (codes "s1") (codes "b1") after_two ≡ ok (1, s2))
    × SameTables s2.collection.tables desk.collection.tables
    × (get_session (codes "s1") s2.sessions ≡ ok session')
    × (session'.added_count ≡ session.added_count + 2 - 1)
unfolding program
undo-confirm_example =
    undo-confirm accepts next_id unicode (codes "b1") (codes "t1") (codes "b2") (codes "t2")
      (codes "s1") bolt 2 (some 3) none desk after_two (got confirm_two).0 (codes "b1")
      next_id-IsFresh tt refl refl

confirm-links_example :
    All (IsSettled (codes "s1") (some 3)) after_two.events
    × ((i : ℕ)
        → (link_of i after_two.events ≡ link_of i desk.events)
          ⊎ ((link_of i desk.events ≡ none)
              × (is_some (rejection_of i desk.events) ≡ true)
              × (link_of i after_two.events ≡ some 3)))
unfolding program
confirm-links_example =
    confirm-links next_id unicode (codes "b1") (codes "t1") (codes "s1") bolt 2 (some 3) none desk
      after_two (got confirm_two).0 (codes "b1") refl

abbrev body : ConfirmRequest
body = record {
  session_id = codes "s1";
  card_id = some 10;
  oracle_id = none;
  set_code = none;
  collector_number = none;
  lang = codes "en";
  finish = codes "nonfoil";
  condition = codes "NM";
  is_proxy = false;
  quantity = 1;
  event_id = none;
  source = none;
  idempotency_key = some (codes "k1");
}

abbrev answered : Result (ConfirmResponse × Scanner) → ConfirmResponse × Scanner
answered (ok result) = result
answered (raise e) = (record { item_ids = []; batch_id = []; running_count = 0 }, desk)

abbrev first_answer : ConfirmResponse × Scanner
first_answer = answered (confirm_request next_id unicode (codes "b1") (codes "t1") body desk)

answer_test :
    first_answer.0 ≡ record { item_ids = number 1 ∷ []; batch_id = codes "b1"; running_count = 5 }
unfolding program
answer_test = refl

-- What another request under its own key leaves.
abbrev meanwhile : Scanner
meanwhile =
    (answered (
      confirm_request next_id unicode (codes "b2") (codes "t2")
        (record body { idempotency_key = some (codes "k2") }) first_answer.1)).1

meanwhile_test : length meanwhile.keys ≡ 2
unfolding program
meanwhile_test = refl

confirm_request-retried_example :
    confirm_request next_id unicode
      (codes "b3")
      (codes "t3")
      (record body { quantity = 7 })
      meanwhile
    ≡ ok (first_answer.0, meanwhile)
unfolding program
confirm_request-retried_example =
    confirm_request-retried next_id unicode (codes "b1") (codes "t1") (codes "b3") (codes "t3") body
      (record body { quantity = 7 }) desk first_answer.1 meanwhile first_answer.0 refl refl refl
      refl

abbrev dismissed : Result (ScanEvent × Scanner) → ScanEvent × Scanner
dismissed (ok result) = result
dismissed (raise e) = (event 0 none none, desk)

-- A second rejection keeps the time of the first.
reject_test :
    let once = dismissed (reject (codes "t1") (codes "s1") 3 desk) in
    (once.0.rejected_at ≡ some (codes "t1")) × (reject (codes "t2") (codes "s1") 3 once.1 ≡ ok once)
unfolding program
reject_test = (refl, refl)

-- A foil without a foil price counts 500 in the session, and nothing in the collection.
abbrev foil_copy : Copy
foil_copy = (
  (codes "finish", text (codes "foil")) ∷ (codes "is_proxy", flag false) ∷ [],
  printing 10 (codes "neo") (some 500),
)

worth_test :
    ((session_totals (foil_copy ∷ [])).0 ≡ 500) × ((valued (foil_copy ∷ [])).total_cents ≡ 0)
unfolding program
worth_test = (refl, refl)

session_totals-valued_example :
    ((session_totals (foil_copy ∷ [])).0 ≡ sum_of fallback_value (foil_copy ∷ []))
    × ((valued (foil_copy ∷ [])).total_cents ≤ (session_totals (foil_copy ∷ [])).0)
session_totals-valued_example = session_totals-valued (foil_copy ∷ [])

session_value_test : session_value (codes "s1") after_two.collection ≡ (400, 0)
unfolding program
session_value_test = refl
