-- ===== src/Scan/Requests.antt =====
-- The retried requests of the scanner: `replay_idempotent` and `remember_idempotent`
-- (backend/app/services/scan/session.py), and `confirm` with `_spec_from`
-- (backend/app/api/scan.py). The evidence that the camera has gathered is cleared elsewhere.
use mtg_vault.Base.{
  ℕ, Bool, not, ◌&&◌, ◌||◌, Option, none, some, List, [], ◌∷◌, ◌++◌, map, if◌then◌else◌, nat_beq,
  ◌==◌, Result, ok, raise, not_found, conflict, unidentified_card, integrity_error, ◌>>=◌,
}
use mtg_vault.Base.Text.{Text, codes, text_eq}
use mtg_vault.Base.Dict.{get_or, is_some}
use mtg_vault.Audit.Rows.{Row}
use mtg_vault.Collection.Names.{Unicode}
use mtg_vault.Collection.Printings.{Printing, AddSpec, is_given}
use mtg_vault.Collection.Items.{id_of}
use mtg_vault.Scan.Store.{ConfirmResponse, IdempotencyKey, Scanner, get_session, find_key}
use mtg_vault.Scan.Session.{confirm}

-- `replay_idempotent`
unfoldable pub replay_idempotent :
    Option Text → Text → List IdempotencyKey → Result (Option ConfirmResponse)
replay_idempotent key endpoint rows =
    if not (is_given key) then ok none else elim (find_key (get_or key []) rows) [
      | none ↦ ok none
      | some row ↦
          if not (row.endpoint == endpoint) then raise conflict else ok (some row.response_json)
    ]

-- `remember_idempotent`. The key is the primary key of its table.
unfoldable pub remember_idempotent :
    Option Text → Text → ConfirmResponse → List IdempotencyKey → Result (List IdempotencyKey)
remember_idempotent key endpoint response rows =
    if not (is_given key)
    then ok rows
    else if is_some (find_key (get_or key []) rows)
    then raise integrity_error
    else ok
        (rows ++ record { key = get_or key []; endpoint = endpoint; response_json = response } ∷ [])

pub record ConfirmRequest : Type 0 where
  pub session_id : Text
  pub card_id : Option ℕ
  pub oracle_id : Option Text
  pub set_code : Option Text
  pub collector_number : Option Text
  pub lang : Text
  pub finish : Text
  pub condition : Text
  pub is_proxy : Bool
  pub quantity : ℕ
  pub event_id : Option ℕ
  pub source : Option Text
  pub idempotency_key : Option Text

-- `select(Card).where(Card.id == card_id)`
unfoldable pub card_by_id : ℕ → List Printing → Result Printing
card_by_id card_id [] = raise not_found
card_by_id card_id (card ∷ cards) =
    let rest = card_by_id card_id cards in if nat_beq card.id card_id then ok card else rest

-- The spec of a body for an identification.
abbrev pub spec_of : ConfirmRequest → Option Text → Option Text → Option Text → Result AddSpec
spec_of body set_code collector_number oracle_id =
    if is_given set_code && is_given collector_number || is_given oracle_id
    then ok (record {
      oracle_id = oracle_id;
      set_code = set_code;
      collector_number = collector_number;
      name = none;
      lang = body.lang;
      finish = body.finish;
      condition = body.condition;
      is_proxy = body.is_proxy;
      acquired_at = none;
      acquired_price_cents = none;
      notes = none;
    })
    else raise unidentified_card

-- `_spec_from`
unfoldable pub spec_from : ConfirmRequest → List Printing → Result AddSpec
spec_from body cards = elim body.card_id [
  | none ↦ spec_of body body.set_code body.collector_number body.oracle_id
  | some card_id ↦ card_by_id card_id cards >>= λ card.
      spec_of body (some card.set_code) (some card.collector_number) (some card.oracle_id)
]

-- `"scan.confirm"`
abbrev pub confirm_endpoint : Text
confirm_endpoint = codes "scan.confirm"

module _ (new_id : List Row → ℕ) (unicode : Unicode) (new_batch now : Text) where
  -- The part of the handler after the replay.
  unfoldable pub confirm_once : ConfirmRequest → Scanner → Result (ConfirmResponse × Scanner)
  confirm_once body s = spec_from body s.collection.cards >>= λ spec.
      confirm new_id unicode new_batch now body.session_id spec body.quantity body.event_id
        body.source s
      >>= λ (items, batch, s'). get_session body.session_id s'.sessions >>= λ session.
          let response : ConfirmResponse = record {
            item_ids = map id_of items;
            batch_id = batch;
            running_count = session.added_count;
          } in
          remember_idempotent body.idempotency_key confirm_endpoint response s'.keys >>= λ keys.
          ok (response, record s' { keys = keys })

  -- The handler of `POST /api/scan/confirm`.
  unfoldable pub confirm_request : ConfirmRequest → Scanner → Result (ConfirmResponse × Scanner)
  confirm_request body s =
      replay_idempotent body.idempotency_key confirm_endpoint s.keys >>= λ replay. elim replay [
        | some response ↦ ok (response, s)
        | none ↦ confirm_once body s
      ]
