-- ===== src/Decks/Editing.antt =====
-- `remove_card`, `update_deck` and `delete_deck` and the invariant of deck editing
-- (backend/app/services/decks/crud.py).
use mtg_vault.Base.{
  ℕ, ◌≡◌, refl, sym, ap, ◌∙◌, ◌≢◌, inl, inr, Bool, true, not, Option, none, some, List, [], ◌∷◌,
  arith, nat_eq, nat_beq, filter, All, All-imp, All-filter, Bool-cases, Result, ok, raise,
  not_found, conflict, ◌>>=◌, ok-injective, guard_passed, bind_passed,
}
use mathlib.Core.Path.{subst}
use mtg_vault.Base.Text.{Text, text_eq}
use mtg_vault.Rules.Cards.{Board}
use mtg_vault.Decks.Store.{Deck, DeckCard, OracleCard, Store}
use mtg_vault.Decks.Rows.{DeckChange, get_deck, is_row, find_card, with_caches, apply_changes}
use mtg_vault.Decks.Edit.{remove_card, update_deck, delete_deck}
use mtg_vault.Decks.Keys.{is_row_iff, filter-IsKeyed}
use mtg_vault.Decks.Caches.{Agrees, All-write_deck, joined-filter}
use mtg_vault.Decks.Consistent.{
  has_deck, IsConsistent, get_deck-id, has_deck-write_deck, refreshed-IsConsistent,
}

-- The two guards of `remove_card`, passed.
pub found :
    {B : Type 0} (rd : Result Deck) (mr : Option DeckCard) (f : Deck → DeckCard → B) (b : B)
    → rd >>= (λ deck. elim mr [ none ↦ raise not_found | some row ↦ ok (f deck row) ]) ≡ ok b
    → (deck : Deck) × (row : DeckCard) × (rd ≡ ok deck) × (mr ≡ some row) × (f deck row ≡ b)
found (raise x) mr f b h = absurd (cc)
found (ok deck) none f b h = absurd (cc)
found (ok deck) (some row) f b h = (deck, row, refl, refl, cc)

All-get_deck :
    (P : Deck → Type 0) (decks : List Deck) (i : ℕ) (deck : Deck)
    → All P decks
    → get_deck decks i ≡ ok deck
    → P deck
unfolding get_deck
All-get_deck P [] i deck h e = absurd (cc)
All-get_deck P (d ∷ decks) i deck h e = elim (Bool-cases (nat_beq d.id i)) [
  | inl same ↦ subst P (ground (arith, same, e)) h.0
  | inr other ↦ All-get_deck P decks i deck h.1 (ground (arith, other, e))
]

apply_changes-Agrees :
    (oracle_cards : List OracleCard) (rows : List DeckCard) (changes : List DeckChange)
    (deck : Deck)
    → Agrees oracle_cards rows deck
    → Agrees oracle_cards rows (apply_changes changes deck)
      × ((apply_changes changes deck).id ≡ deck.id)
unfolding apply_changes with_caches
apply_changes-Agrees oracle_cards rows [] deck h = (h, refl)
apply_changes-Agrees oracle_cards rows (DeckChange.set_name t ∷ changes) deck h =
    apply_changes-Agrees oracle_cards rows changes _ (ap (λ (d : Deck). record d { name = t }) h)
apply_changes-Agrees oracle_cards rows (DeckChange.set_format t ∷ changes) deck h =
    apply_changes-Agrees oracle_cards rows changes _ (ap (λ (d : Deck). record d { format = t }) h)
apply_changes-Agrees oracle_cards rows (DeckChange.set_goal t ∷ changes) deck h =
    apply_changes-Agrees oracle_cards rows changes _
      (ap (λ (d : Deck). record d { goal_text = some t }) h)
apply_changes-Agrees oracle_cards rows (DeckChange.set_archived b ∷ changes) deck h =
    apply_changes-Agrees oracle_cards rows changes _
      (ap (λ (d : Deck). record d { archived = b }) h)

-- A comprehension's members have passed its test.
All-kept {ℓ κ} :
    {A : Type ℓ} (P Q : A → Type κ) (p : A → Bool)
    → ((x : A) → p x ≡ true → P x → Q x)
    → (xs : List A) → All P xs
    → All Q (filter p xs)
All-kept P Q p f [] h = tt
All-kept P Q p f (x ∷ xs) h = elim (Bool-cases (p x)) [
  | inl kept ↦ rw kept (f x kept h.0, All-kept P Q p f xs h.1)
  | inr gone ↦ rw gone (All-kept P Q p f xs h.1)
]

has_deck-filter :
    (decks : List Deck) (gone i : ℕ)
    → i ≢ gone
    → has_deck (filter (λ (d : Deck). not (nat_beq d.id gone)) decks) i ≡ has_deck decks i
has_deck-filter [] gone i h = refl
has_deck-filter (d ∷ decks) gone i h = ground (arith, has_deck-filter decks gone i h)

module _ (batch now : Text) (s : Store) where
  pub remove_card-IsConsistent :
      (deck_id : ℕ) (oracle_id : Text) (board : Board) (s' : Store)
      → IsConsistent s
      → remove_card batch now deck_id oracle_id board s ≡ ok s'
      → IsConsistent s'
  unfolding remove_card
  remove_card-IsConsistent deck_id oracle_id board s' v h =
      let p : DeckCard → Bool = λ r. not (is_row deck_id oracle_id board r) in
      let (deck, row, stored, _, result) =
        found (get_deck s.decks deck_id) (find_card deck_id oracle_id board s.deck_cards) _ s' h in
      let same = get_deck-id s.decks deck_id deck stored in
      subst IsConsistent result (
        refreshed-IsConsistent batch now s deck _ refl refl (filter-IsKeyed p s.deck_cards v.keyed)
          (All-filter _ p s.deck_cards v.owned)
          (λ d other.
            joined-filter s.oracle_cards d p s.deck_cards (others d deck same.0 other s.deck_cards))
          v)
    where
      others :
          (d : ℕ) (deck : Deck)
          → deck.id ≡ deck_id
          → deck.id ≢ d
          → (rows : List DeckCard)
          → All
              (λ (r : DeckCard). r.deck_id ≡ d → not (is_row deck_id oracle_id board r) ≡ true)
              rows
      others d deck same other [] = tt
      others d deck same other (r ∷ rows) = (
        λ e. elim (Bool-cases (is_row deck_id oracle_id board r)) [
          | inl here ↦
              absurd (other (same ∙ sym ((is_row_iff deck_id oracle_id board r).0 here).0 ∙ e))
          | inr elsewhere ↦ rw elsewhere refl
        ],
        others d deck same other rows,
      )

  pub update_deck-IsConsistent :
      (deck_id : ℕ) (changes : List DeckChange) (deck : Deck) (s' : Store)
      → IsConsistent s
      → update_deck batch now deck_id changes s ≡ ok (deck, s')
      → IsConsistent s'
  unfolding update_deck with_caches
  update_deck-IsConsistent deck_id changes deck s' v h =
      let (before, stored, result) = bind_passed (get_deck s.decks deck_id) _ (deck, s') h in
      let new = record (apply_changes changes before) { updated_at = now } in
      let kept = apply_changes-Agrees s.oracle_cards s.deck_cards changes before (
        All-get_deck (Agrees s.oracle_cards s.deck_cards) s.decks deck_id before v.agrees stored) in
      subst IsConsistent (ap (λ (r : Deck × Store). r.1) (ok-injective _ (deck, s') result))
        (record {
          keyed = v.keyed;
          owned =
              All-imp _ _
                (λ (row : DeckCard) (h : has_deck s.decks row.deck_id ≡ true).
                  has_deck-write_deck new s.decks row.deck_id ∙ h)
                s.deck_cards v.owned;
          agrees =
              All-write_deck (Agrees s.oracle_cards s.deck_cards) new s.decks
                (ap (λ (d : Deck). record d { updated_at = now }) kept.0)
                (All-imp (Agrees s.oracle_cards s.deck_cards)
                  (λ (d : Deck). d.id ≢ new.id → Agrees s.oracle_cards s.deck_cards d)
                  (λ d h apart. h) s.decks v.agrees);
        })

  pub delete_deck-IsConsistent :
      (deck_id : ℕ) (s' : Store)
      → IsConsistent s
      → delete_deck batch now deck_id s ≡ ok s'
      → IsConsistent s'
  unfolding delete_deck
  delete_deck-IsConsistent deck_id s' v h =
      let (deck, stored, result) = bind_passed (get_deck s.decks deck_id) _ s' h in
      let (_, same) = guard_passed deck.is_built conflict _ s' result in
      let left = λ (row : DeckCard). not (nat_beq row.deck_id deck.id) in
      subst IsConsistent same (record {
        keyed = filter-IsKeyed left s.deck_cards v.keyed;
        owned =
            All-kept (λ (row : DeckCard). has_deck s.decks row.deck_id ≡ true)
              (λ (row : DeckCard).
                has_deck (filter (λ (d : Deck). not (nat_beq d.id deck.id)) s.decks) row.deck_id
                ≡ true)
              left
              (λ row kept owned.
                has_deck-filter s.decks deck.id row.deck_id (ground (arith, kept)) ∙ owned)
              s.deck_cards v.owned;
        agrees =
            All-kept (Agrees s.oracle_cards s.deck_cards)
              (Agrees s.oracle_cards (filter left s.deck_cards))
              (λ (d : Deck). not (nat_beq d.id deck.id))
              (λ d kept h.
                ap (λ rows. with_caches rows d)
                  (joined-filter s.oracle_cards d.id left s.deck_cards
                    (others deck.id d.id (ground (arith, kept)) s.deck_cards))
                ∙ h)
              s.decks v.agrees;
      })
    where
      others :
          (gone d : ℕ)
          → d ≢ gone
          → (rows : List DeckCard)
          → All (λ (r : DeckCard). r.deck_id ≡ d → not (nat_beq r.deck_id gone) ≡ true) rows
      others gone d apart [] = tt
      others gone d apart (r ∷ rows) = (λ e. ground (arith, apart), others gone d apart rows)
