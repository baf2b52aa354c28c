-- ===== src/Decks/Outcome.antt =====
-- The outcome of `build` (backend/app/services/decks/allocate.py).
use mtg_vault.Base.{
  ℕ, ◌+◌, ◌≡◌, refl, ◌∙◌, ◌≢◌, ◌↔◌, inl, inr, true, false, List, [], ◌∷◌, arith, nat_eq, length,
  take, sum_of, All-append, All-imp, Result, ok, raise, conflict, length-append, length-take,
  append_one-ne-nil,
}
use mtg_vault.Base.Text.{Text, text_eq}
use mtg_vault.Base.Dict.{Dict, sum-tally_from}
use mtg_vault.Decks.Store.{Deck, DeckCard, Store, is_built_deck, allocated_item_ids}
use mtg_vault.Decks.Picks.{
  BuildResult, Picks, physical_rows, needs_of, copies_of, oracle_name, blocking_decks, pick_one,
  pick_all,
}
use mtg_vault.Decks.Build.{write_deck, commit, build}
use mtg_vault.Decks.Cover.{Covered, pick_all-conflicts, Covered→All, All→Covered}
use mtg_vault.Decks.Invariant.{
  IsValid, IsStored, sleeved, picks_of, nothing_picked, picks-distinct, is_built-write,
  sleeved-built, length-sleeved, build_success, build_conflicts,
}

conflicts-Covered :
    (s : Store) (deck_id : ℕ)
    → ((picks_of s deck_id).conflicts ≡ [])
      ↔ Covered s (allocated_item_ids s) (physical_rows s deck_id)
conflicts-Covered s deck_id =
    let rows = physical_rows s deck_id in
    let taken = allocated_item_ids s in
    let parts = pick_all-conflicts s taken rows (needs_of rows) nothing_picked in
    (λ h. All→Covered s taken rows (parts.0 h).1, λ h. parts.1 (refl, Covered→All s taken rows h))

build_returns :
    (batch now : Text) (s : Store) (deck : Deck)
    → IsValid s
    → deck.is_built ≡ false
    → (r : BuildResult) × (s' : Store) × (build batch now s deck ≡ ok (r, s'))
unfolding build commit
build_returns batch now s deck v open' = go (build batch now s deck) refl
  where
    go :
        (outcome : Result (BuildResult × Store))
        → build batch now s deck ≡ outcome
        → (r : BuildResult) × (s' : Store) × (build batch now s deck ≡ ok (r, s'))
    go (ok (r, s')) e = (r, s', e)
    go (raise x) e = absurd (ground (arith, e, picks-distinct s deck.id v))

-- A build in a valid store of a deck that is not built always returns. It reports no conflict
-- exactly when every card but a basic land has as many free copies as the deck's rows ask for, and
-- if it reports one, nothing is allocated and the store is unchanged.
pub build_outcome :
    (batch now : Text) (s : Store) (deck : Deck)
    → IsValid s
    → deck.is_built ≡ false
    → (r : BuildResult) × (s' : Store) × (build batch now s deck ≡ ok (r, s'))
      × ((r.conflicts ≡ []) ↔ Covered s (allocated_item_ids s) (physical_rows s deck.id))
      × (r.conflicts ≢ [] → (r.allocated ≡ 0) × (s' ≡ s))
build_outcome batch now s deck v open' =
    let (r, s', e) = build_returns batch now s deck v open' in
    let covered = conflicts-Covered s deck.id in
    let cases = build_conflicts batch now s s' deck r e in
    (
      r,
      s',
      e,
      (
        λ h. covered.0 (build_success batch now s s' deck r e h).0,
        λ h. elim cases [
          | inl clear ↦ clear.0
          | inr refused ↦ absurd (refused.1 (refused.0 ∙ covered.1 h))
        ],
      ),
      λ h. elim cases [ inl clear ↦ absurd (h clear.0) | inr refused ↦ (refused.2, refused.3) ],
    )

-- A deck that is built already is refused.
pub build_already :
    (batch now : Text) (s : Store) (deck : Deck)
    → deck.is_built ≡ true
    → build batch now s deck ≡ raise conflict
unfolding build
build_already batch now s deck h = rw h

module _ (s : Store) (taken : List ℕ) (rows : List DeckCard) where
  pick_one-balance :
      (id : Text) (n : ℕ) (picks : Picks)
      → (pick_one s taken rows id n picks).conflicts ≡ []
      → length (pick_one s taken rows id n picks).chosen
          + (pick_one s taken rows id n picks).assumed_basics
        ≡ length picks.chosen + picks.assumed_basics + n
  unfolding pick_one
  pick_one-balance id n picks h = ground (
    arith,
    length-append picks.chosen (take n (copies_of s taken rows id)),
    length-take n (copies_of s taken rows id),
    append_one-ne-nil picks.conflicts (record {
      oracle_id = id;
      name = oracle_name s.oracle_cards id;
      needed = n;
      available = length (copies_of s taken rows id);
      blocking_decks = blocking_decks s id;
    }),
  )

  pick_all-balance :
      (needs : Dict Text ℕ) (picks : Picks)
      → (pick_all s taken rows needs picks).conflicts ≡ []
      → length (pick_all s taken rows needs picks).chosen
          + (pick_all s taken rows needs picks).assumed_basics
        ≡ length picks.chosen + picks.assumed_basics + sum_of (λ (b : Text × ℕ). b.1) needs
  unfolding pick_all
  pick_all-balance [] picks h = omega arith
  pick_all-balance ((id, n) ∷ needs) picks h =
      let rest = pick_all-conflicts s taken rows needs (pick_one s taken rows id n picks) in
      omega (
        arith,
        pick_one-balance id n picks (rest.0 h).0,
        pick_all-balance needs (pick_one s taken rows id n picks) h,
      )

-- A build with no conflict accounts for every card of the deck: the copies that it allocates and
-- the basic lands that it assumes are together the quantities of the physical rows.
pub build_balance :
    (batch now : Text) (s s' : Store) (deck : Deck) (r : BuildResult)
    → build batch now s deck ≡ ok (r, s')
    → r.conflicts ≡ []
    → r.allocated + r.assumed_basics
      ≡ sum_of (λ (row : DeckCard). row.quantity) (physical_rows s deck.id)
unfolding needs_of
build_balance batch now s s' deck r e h =
    let (clear, allocated, assumed, _, _, _) = build_success batch now s s' deck r e h in
    let rows = physical_rows s deck.id in
    omega (
      arith,
      allocated,
      assumed,
      length-sleeved deck.id (picks_of s deck.id).chosen,
      pick_all-balance s (allocated_item_ids s) rows (needs_of rows) nothing_picked clear,
      sum-tally_from (λ (row : DeckCard). row.oracle_id) (λ (row : DeckCard). row.quantity) [] rows,
    )

-- A build that returns, of a deck that is a row of the table, keeps the invariant of a valid store,
-- whatever it reports.
pub build-IsValid :
    (batch now : Text) (s s' : Store) (deck : Deck) (r : BuildResult)
    → IsValid s
    → IsStored s deck
    → build batch now s deck ≡ ok (r, s')
    → IsValid s'
build-IsValid batch now s s' deck r v stored e = elim (build_conflicts batch now s s' deck r e) [
  | inr refused ↦ rw (refused.3) v
  | inl clear ↦
      let (_, _, _, items, allocations, decks) = build_success batch now s s' deck r e clear.0 in
      let chosen = (picks_of s deck.id).chosen in
      let built = record deck { is_built = true; updated_at = now } in
      let now_built : is_built_deck (write_deck built s.decks) deck.id ≡ true =
        ground (arith, is_built-write s.decks built deck.id, stored.present) in
      record {
        items_distinct = rw items v.items_distinct;
        allocations_distinct = rw allocations (picks-distinct s deck.id v);
        allocations_built =
            rw (allocations, decks)
              (All-append _ s.allocations (sleeved deck.id chosen)
                (All-imp _ _
                  (λ a h. ground (arith, is_built-write s.decks built a.deck_id, stored.present, h))
                  s.allocations v.allocations_built)
                (sleeved-built (write_deck built s.decks) deck.id chosen now_built));
      }
]
