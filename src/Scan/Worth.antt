-- ===== src/Scan/Worth.antt =====
-- `_session_value` and `_session_item_ids` (backend/app/services/scan/session.py). The chunks of 500
-- ids that the source asks the database for are one query here: only sums are taken over the rows.
use mtg_vault.Base.{
  ℕ, zero, suc, Bool, true, false, not, ◌&&◌, Option, none, some, List, [], ◌∷◌, ◌++◌,
  if◌then◌else◌, is_empty, filter, filter_map, sum_of, to_set, contains, ◌==◌,
}
use mtg_vault.Base.Text.{Text, codes, text_eq}
use mtg_vault.Base.Dict.{get_or, is_some}
use mtg_vault.Audit.Rows.{Value, value_eq, null, number, flag, text}
use mtg_vault.Audit.Record.{Payload, AuditEntry}
use mtg_vault.Collection.Items.{Collection, items_of, column, id_of}
use mtg_vault.Prices.Value.{Copy, card_of, with_card, finish_is}
use mtg_vault.Scan.Session.{session_note}

-- `AuditLog.source == "scan"`, the note of the session, and not reverted.
unfoldable pub is_scanned : Text → AuditEntry → Bool
is_scanned session_id entry =
    entry.source == codes "scan"
    && (elim entry.note [ none ↦ false | some note' ↦ note' == session_note session_id ])
    && not (is_some entry.reverted_at)

-- An id that is there and not zero.
abbrev pub real_id : Value → Option Value
real_id (number zero) = none
real_id (number (suc n)) = some (number (suc n))
real_id null = none
real_id (text t) = none
real_id (flag b) = none

-- The ids of an entry's rows.
abbrev pub payload_ids : Option Payload → List Value
payload_ids none = []
payload_ids (some (Payload.bulk rows summary)) = filter_map (λ row. real_id (id_of row)) rows
payload_ids (some (Payload.single row)) = filter_map real_id (id_of row ∷ [])

-- The ids that the entries list, one after the other.
unfoldable pub listed_ids : List AuditEntry → List Value
listed_ids [] = []
listed_ids (entry ∷ entries) = payload_ids entry.after_json ++ listed_ids entries

-- `_session_item_ids`
unfoldable pub session_item_ids : Text → List AuditEntry → List Value
unfolding is_scanned listed_ids
session_item_ids session_id log = to_set (listed_ids (filter (is_scanned session_id) log))

-- `a or b`, for prices: zero counts as missing.
abbrev pub price_or : Option ℕ → Option ℕ → Option ℕ
price_or none other = other
price_or (some zero) other = other
price_or (some (suc n)) other = some (suc n)

-- The price that the running total takes.
unfoldable pub session_price : Copy → Option ℕ
session_price (item, card) =
    if finish_is (codes "foil") item
    then price_or card.price_usd_foil_cents card.price_usd_cents
    else if finish_is (codes "etched") item
    then price_or card.price_usd_etched_cents card.price_usd_cents
    else card.price_usd_cents

abbrev pub session_worth : Copy → ℕ
session_worth copy = get_or (session_price copy) 0

abbrev pub session_unpriced : Copy → ℕ
session_unpriced copy = if is_some (session_price copy) then 0 else 1

-- The loop over the rows: the total, and the copies without a price.
unfoldable pub session_totals : List Copy → ℕ × ℕ
unfolding session_price
session_totals copies = (sum_of session_worth copies, sum_of session_unpriced copies)

-- The copies of a session that have a printing and are no proxies.
unfoldable pub session_copies : Collection → List Value → List Copy
unfolding card_of
session_copies c ids =
    filter_map (λ item. with_card item (card_of c.cards item))
      (filter
        (λ item. contains (id_of item) ids && not (column (codes "is_proxy") item == flag true))
        (items_of c.tables))

-- `_session_value`
unfoldable pub session_value : Text → Collection → ℕ × ℕ
unfolding session_item_ids session_totals session_copies
session_value session_id c =
    let ids = session_item_ids session_id c.log in
    if is_empty ids then (0, 0) else session_totals (session_copies c ids)
