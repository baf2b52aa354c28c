-- ===== src/Scan/Retry.antt =====
-- A request that is sent again (backend/app/services/scan/session.py, backend/app/api/scan.py).
use mtg_vault.Base.{
  ℕ, ◌≡◌, refl, sym, ap, ◌∙◌, inl, inr, true, Option, none, some, List, [], ◌∷◌, ◌++◌, map, arith,
  if◌then◌else◌, ◌==◌, Bool-cases, Result, ok, raise, conflict, integrity_error, ok-injective,
  bind_passed, guard_passed,
}
use mtg_vault.Base.Text.{Text, text_eq, same_text_iff}
use mtg_vault.Base.Dict.{get_or, is_some, none_of}
use mtg_vault.Audit.Rows.{Row}
use mtg_vault.Collection.Names.{Unicode}
use mtg_vault.Collection.Printings.{is_given}
use mtg_vault.Scan.Store.{ConfirmResponse, IdempotencyKey, Scanner, find_key, get_session}
use mtg_vault.Scan.Session.{confirm}
use mtg_vault.Collection.Items.{id_of}
use mtg_vault.Scan.Requests.{
  replay_idempotent, remember_idempotent, ConfirmRequest, confirm_endpoint, confirm_once,
  confirm_request, spec_from,
}

find_key-append :
    (key : Text) (rows : List IdempotencyKey) (row : IdempotencyKey)
    → find_key key rows ≡ none
    → row.key ≡ key
    → find_key key (rows ++ row ∷ []) ≡ some row
unfolding find_key
find_key-append key [] row h e = rw ((same_text_iff row.key key).1 e) refl
find_key-append key (r ∷ rows) row h e = elim (Bool-cases (r.key == key)) [
  | inl here ↦ absurd (ground (arith, here))
  | inr there ↦ rw there (find_key-append key rows row (ground (arith, there)) e)
]

-- A response has been remembered: the key was free, and its row is now the last.
remember_passed :
    (key : Option Text) (endpoint : Text) (response : ConfirmResponse)
    (rows rows' : List IdempotencyKey)
    → is_given key ≡ true
    → remember_idempotent key endpoint response rows ≡ ok rows'
    → (find_key (get_or key []) rows ≡ none)
      × (rows ++ record { key = get_or key []; endpoint = endpoint; response_json = response } ∷ []
          ≡ rows')
unfolding remember_idempotent
remember_passed key endpoint response rows rows' given h =
    let (free, added) =
      guard_passed (is_some (find_key (get_or key []) rows)) integrity_error _ rows'
        (sym (rw given refl) ∙ h) in
    (none_of (find_key (get_or key []) rows) free, added)

-- A response that is remembered under a key is what a replay of the key finds for the same
-- endpoint; for another endpoint the replay raises the conflict.
pub replay-remember :
    (key : Option Text) (endpoint other : Text) (response : ConfirmResponse)
    (rows rows' : List IdempotencyKey)
    → is_given key ≡ true
    → remember_idempotent key endpoint response rows ≡ ok rows'
    → replay_idempotent key other rows'
      ≡ (if endpoint == other then ok (some response) else raise conflict)
unfolding replay_idempotent
replay-remember key endpoint other response rows rows' given h =
    let (free, added) = remember_passed key endpoint response rows rows' given h in
    let found =
      ap (find_key (get_or key [])) (sym added)
      ∙ find_key-append (get_or key []) rows _ free refl in
    rw (given, found)
      (elim (Bool-cases (endpoint == other)) [
        | inl same ↦ rw same refl
        | inr differs ↦ rw differs refl
      ])

-- A replay reads only the row of its key.
replay-same :
    (key : Option Text) (rows rows' : List IdempotencyKey)
    → find_key (get_or key []) rows ≡ find_key (get_or key []) rows'
    → replay_idempotent key confirm_endpoint rows ≡ replay_idempotent key confirm_endpoint rows'
unfolding replay_idempotent
replay-same key rows rows' h = rw h refl

module _ (new_id : List Row → ℕ) (unicode : Unicode) (new_batch now : Text) where
  confirm_once-remembers :
      (body : ConfirmRequest) (s s' : Scanner) (response : ConfirmResponse)
      → is_given body.idempotency_key ≡ true
      → confirm_once new_id unicode new_batch now body s ≡ ok (response, s')
      → replay_idempotent body.idempotency_key confirm_endpoint s'.keys ≡ ok (some response)
  unfolding confirm_once
  confirm_once-remembers body s s' response given h =
      let (spec, _, h1) = bind_passed (spec_from body s.collection.cards) _ (response, s') h in
      let (run, _, h2) =
        bind_passed
          (confirm new_id unicode new_batch now body.session_id spec body.quantity body.event_id
            body.source s)
          _ (response, s') h1 in
      let (session, _, h3) =
        bind_passed (get_session body.session_id run.2.sessions) _ (response, s') h2 in
      let answer : ConfirmResponse = record {
        item_ids = map id_of run.0;
        batch_id = run.1;
        running_count = session.added_count;
      } in
      let (keys, stored, h4) =
        bind_passed (remember_idempotent body.idempotency_key confirm_endpoint answer run.2.keys) _
          (response, s') h3 in
      let done = ok-injective _ (response, s') h4 in
      let same_response = ap (λ (r : ConfirmResponse × Scanner). r.0) done in
      let same_keys = ap (λ (r : ConfirmResponse × Scanner). r.1.keys) done in
      ap (replay_idempotent body.idempotency_key confirm_endpoint) (sym same_keys)
      ∙ (replay-remember body.idempotency_key confirm_endpoint confirm_endpoint answer run.2.keys
            keys given stored
          ∙ (rw ((same_text_iff confirm_endpoint confirm_endpoint).1 refl)
              (ap (λ r. ok (some r)) same_response)))

  confirm_request-remembers :
      (body : ConfirmRequest) (s s' : Scanner) (response : ConfirmResponse)
      → is_given body.idempotency_key ≡ true
      → confirm_request new_id unicode new_batch now body s ≡ ok (response, s')
      → replay_idempotent body.idempotency_key confirm_endpoint s'.keys ≡ ok (some response)
  unfolding confirm_request
  confirm_request-remembers body s s' response given h =
      let (replay, e, h') =
        bind_passed (replay_idempotent body.idempotency_key confirm_endpoint s.keys) _
          (response, s') h in
      go replay e h'
    where
      go :
          (replay : Option ConfirmResponse)
          → replay_idempotent body.idempotency_key confirm_endpoint s.keys ≡ ok replay
          → (elim replay as (λ _. Result (ConfirmResponse × Scanner)) [
            | some found ↦ ok (found, s)
            | none ↦ confirm_once new_id unicode new_batch now body s
          ])
            ≡ ok (response, s')
          → replay_idempotent body.idempotency_key confirm_endpoint s'.keys ≡ ok (some response)
      go none e h = confirm_once-remembers body s s' response given h
      go (some found) e h =
          let done = ok-injective (found, s) (response, s') h in
          ap
            (λ (r : ConfirmResponse × Scanner).
              replay_idempotent body.idempotency_key confirm_endpoint r.1.keys)
            (sym done)
          ∙ (e ∙ ap (λ (r : ConfirmResponse × Scanner). ok (some r.0)) done)

-- A confirmed request that is sent again with its key, and whatever else it now says, is answered as
-- the first time, and adds nothing: the tables stay as they are. Between the two anything may have
-- happened, other confirmed requests included, that leaves the row of this key as it was.
pub confirm_request-retried :
    (new_id : List Row → ℕ) (unicode : Unicode) (new_batch now again later : Text)
    (body retry : ConfirmRequest) (s s' s2 : Scanner) (response : ConfirmResponse)
    → is_given body.idempotency_key ≡ true
    → confirm_request new_id unicode new_batch now body s ≡ ok (response, s')
    → retry.idempotency_key ≡ body.idempotency_key
    → find_key (get_or body.idempotency_key []) s2.keys
      ≡ find_key (get_or body.idempotency_key []) s'.keys
    → confirm_request new_id unicode again later retry s2 ≡ ok (response, s2)
unfolding confirm_request
confirm_request-retried new_id unicode new_batch now again later body retry s s' s2 response given h
      same_key same_row =
    let stored =
      confirm_request-remembers new_id unicode new_batch now body s s' response given h in
    let found : replay_idempotent retry.idempotency_key confirm_endpoint s2.keys
        ≡ ok (some response) =
      rw same_key (replay-same body.idempotency_key s2.keys s'.keys same_row ∙ stored) in
    rw found refl
