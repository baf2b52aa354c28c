-- ===== src/Scan/Links.antt =====
-- The links from rejected scan events to the acceptance that superseded them
-- (backend/app/services/scan/session.py).
use mtg_vault.Base.{
  ℕ, ◌≡◌, refl, ap, ◌∙◌, inl, inr, true, false, Option, none, some, List, [], ◌∷◌, map, arith,
  if◌then◌else◌, nat_beq, All, ◌≢◌, ◌⊎◌, Bool-cases, ok, ok-injective, bind_passed,
}
use mtg_vault.Base.Text.{Text, codes, text_eq, same_text_iff}
use mtg_vault.Base.Dict.{get_or, is_some, none_of}
use mtg_vault.Audit.Rows.{Row}
use mtg_vault.Collection.Names.{Unicode}
use mtg_vault.Collection.Printings.{AddSpec}
use mtg_vault.Collection.Items.{add_copies}
use mtg_vault.Scan.Store.{ScanEvent, Scanner, get_session, find_event, write_event}
use mtg_vault.Scan.Session.{
  session_note, first_row, is_other, confirmed, mark_event, is_pending, supersede, accept, confirm,
}

-- The event after the loop over the rejected ones.
abbrev linked : Text → Option ℕ → Row → ScanEvent → ScanEvent
linked session_id event_id item event =
    if is_pending session_id event_id event then supersede event_id item event else event

superseded-not_pending :
    (session_id : Text) (event_id : Option ℕ) (item : Row) (event : ScanEvent)
    → is_pending session_id event_id (supersede event_id item event) ≡ false
unfolding is_pending supersede
superseded-not_pending session_id event_id item event = ground arith

linked-not_pending :
    (session_id : Text) (event_id : Option ℕ) (item : Row) (event : ScanEvent)
    → is_pending session_id event_id (linked session_id event_id item event) ≡ false
linked-not_pending session_id event_id item event =
    elim (Bool-cases (is_pending session_id event_id event)) [
      | inl pending ↦ rw pending (superseded-not_pending session_id event_id item event)
      | inr done ↦ rw done done
    ]

-- The event is of another session, not rejected, the confirmed one, or linked to an acceptance.
abbrev pub IsSettled : Text → Option ℕ → ScanEvent → Type 0
IsSettled session_id event_id event =
    (event.session_id ≢ some session_id)
    ⊎ ((event.rejected_at ≡ none)
        ⊎ ((event_id ≡ some event.id) ⊎ (is_some event.superseded_by_event_id ≡ true)))

confirmed_one : (event_id : Option ℕ) (id : ℕ) → is_other event_id id ≡ false → event_id ≡ some id
confirmed_one none id h = absurd (cc)
confirmed_one (some x) id h = let same : x ≡ id = ground (arith, h) in ap some same

not_pending→IsSettled :
    (session_id : Text) (event_id : Option ℕ) (event : ScanEvent)
    → is_pending session_id event_id event ≡ false
    → IsSettled session_id event_id event
unfolding is_pending
not_pending→IsSettled session_id event_id event h = elim (Bool-cases (is_some event.rejected_at)) [
  | inr kept ↦ inr (inl (none_of event.rejected_at kept))
  | inl gone ↦ elim (Bool-cases (is_some event.superseded_by_event_id)) [
    | inl there ↦ inr (inr (inr there))
    | inr free ↦ elim (Bool-cases (is_other event_id event.id)) [
      | inr same ↦ inr (inr (inl (confirmed_one event_id event.id same)))
      | inl other ↦ inl (λ e.
          ground (arith, h, e, gone, free, other, (same_text_iff session_id session_id).1 refl))
    ]
  ]
]

All-IsSettled :
    (session_id : Text) (event_id : Option ℕ) (item : Row) (events : List ScanEvent)
    → All (IsSettled session_id event_id) (map (linked session_id event_id item) events)
All-IsSettled session_id event_id item [] = tt
All-IsSettled session_id event_id item (event ∷ events) = (
  not_pending→IsSettled session_id event_id (linked session_id event_id item event)
      (linked-not_pending session_id event_id item event),
  All-IsSettled session_id event_id item events,
)

-- The link and the rejection of the event under an id.
abbrev superseding : Option ScanEvent → Option ℕ
superseding none = none
superseding (some event) = event.superseded_by_event_id

abbrev pub link_of : ℕ → List ScanEvent → Option ℕ
link_of i events = superseding (find_event i events)

abbrev rejection : Option ScanEvent → Option Text
rejection none = none
rejection (some event) = event.rejected_at

abbrev pub rejection_of : ℕ → List ScanEvent → Option Text
rejection_of i events = rejection (find_event i events)

abbrev changed : (ScanEvent → ScanEvent) → Option ScanEvent → Option ScanEvent
changed f none = none
changed f (some event) = some (f event)

find_event-map :
    (f : ScanEvent → ScanEvent) (i : ℕ) (events : List ScanEvent)
    → ((e : ScanEvent) → (f e).id ≡ e.id)
    → find_event i (map f events) ≡ changed f (find_event i events)
unfolding find_event
find_event-map f i [] same = refl
find_event-map f i (e ∷ es) same = elim (Bool-cases (nat_beq e.id i)) [
  | inl here ↦ let moved : nat_beq (f e).id i ≡ true = rw (same e) here in rw (moved, here) refl
  | inr there ↦
      let moved : nat_beq (f e).id i ≡ false = rw (same e) there in
      rw (moved, there) (find_event-map f i es same)
]

linked-id :
    (session_id : Text) (event_id : Option ℕ) (item : Row) (e : ScanEvent)
    → (linked session_id event_id item e).id ≡ e.id
unfolding supersede
linked-id session_id event_id item e = elim (Bool-cases (is_pending session_id event_id e)) [
  | inl pending ↦ rw pending refl
  | inr done ↦ rw done refl
]

-- The link is as it was, or it is new on a rejected event without one.
abbrev Follows : Option ℕ → Option ℕ → Option Text → Option ℕ → Type 0
Follows event_id before rejected after =
    (after ≡ before)
    ⊎ ((before ≡ none) × (is_some rejected ≡ true) × (after ≡ some (get_or event_id 0)))

pending-facts :
    (session_id : Text) (event_id : Option ℕ) (e : ScanEvent)
    → is_pending session_id event_id e ≡ true
    → (e.superseded_by_event_id ≡ none) × (is_some e.rejected_at ≡ true)
unfolding is_pending
pending-facts session_id event_id e h =
    (none_of e.superseded_by_event_id (ground (arith, h)), ground (arith, h))

linked-Follows :
    (session_id : Text) (event_id : Option ℕ) (item : Row) (o : Option ScanEvent)
    → Follows event_id
        (superseding o)
        (rejection o)
        (superseding (changed (linked session_id event_id item) o))
unfolding supersede
linked-Follows session_id event_id item none = inl refl
linked-Follows session_id event_id item (some e) =
    elim (Bool-cases (is_pending session_id event_id e)) [
      | inl pending ↦
          let (free, gone) = pending-facts session_id event_id e pending in
          rw pending (inr (free, gone, refl))
      | inr done ↦ rw done (inl refl)
    ]

superseding-changed :
    (f : ScanEvent → ScanEvent) (o : Option ScanEvent)
    → ((e : ScanEvent) → (f e).superseded_by_event_id ≡ e.superseded_by_event_id)
    → superseding (changed f o) ≡ superseding o
superseding-changed f none same = refl
superseding-changed f (some e) same = same e

rejection-changed :
    (f : ScanEvent → ScanEvent) (o : Option ScanEvent)
    → ((e : ScanEvent) → (f e).rejected_at ≡ e.rejected_at)
    → rejection (changed f o) ≡ rejection o
rejection-changed f none same = refl
rejection-changed f (some e) same = same e

-- Marking the confirmed event leaves links and rejections.
marked-same :
    (now session_id : Text) (event_id : Option ℕ) (source : Option Text) (item : Row) (i : ℕ)
    (events : List ScanEvent)
    → let marked = mark_event now session_id event_id source item events in
      (link_of i marked ≡ link_of i events) × (rejection_of i marked ≡ rejection_of i events)
unfolding write_event confirmed
marked-same now session_id none source item i events = (refl, refl)
marked-same now session_id (some id) source item i events =
    let f : ScanEvent → ScanEvent =
      λ e. if nat_beq e.id id then confirmed now session_id source item e else e in
    let found = find_event-map f i events (λ e. ground arith) in
    (
      ap superseding found ∙ superseding-changed f (find_event i events) (λ e. ground arith),
      ap rejection found ∙ rejection-changed f (find_event i events) (λ e. ground arith),
    )

-- After a confirmed card, every other rejected event of its session is linked to an acceptance. The
-- link under an id is the one before, so that a later acceptance rewrites none, or it is the one to
-- this acceptance, on a rejected event that had none.
pub confirm-links :
    (new_id : List Row → ℕ) (unicode : Unicode) (new_batch now session_id : Text) (spec : AddSpec)
    (quantity : ℕ) (event_id : Option ℕ) (source : Option Text) (s s' : Scanner) (items : List Row)
    (batch : Text)
    → confirm new_id unicode new_batch now session_id spec quantity event_id source s
      ≡ ok (items, batch, s')
    → All (IsSettled session_id event_id) s'.events
      × ((i : ℕ)
          → (link_of i s'.events ≡ link_of i s.events)
            ⊎ ((link_of i s.events ≡ none)
                × (is_some (rejection_of i s.events) ≡ true)
                × (link_of i s'.events ≡ some (get_or event_id 0))))
unfolding confirm accept
confirm-links new_id unicode new_batch now session_id spec quantity event_id source s s' items batch
      h =
    let (session, stored, h1) =
      bind_passed (get_session session_id s.sessions) _ (items, batch, s') h in
    let (added, done, h2) =
      bind_passed
        (add_copies new_batch now none (codes "scan") (some (session_note session_id)) new_id
          unicode spec quantity s.collection)
        _ (items, batch, s') h1 in
    let same = ok-injective _ (items, batch, s') h2 in
    let moved = ap (λ (r : List Row × Text × Scanner). r.2.events) same in
    let item = first_row added.0 in
    let marked = mark_event now session_id event_id source item s.events in
    rw (← moved) (
      All-IsSettled session_id event_id item marked,
      λ i.
          let (links, rejections) = marked-same now session_id event_id source item i s.events in
          let found =
            find_event-map (linked session_id event_id item) i marked
              (linked-id session_id event_id item) in
          let follows = linked-Follows session_id event_id item (find_event i marked) in
          rw found (rw (links, rejections) at follows),
    )
