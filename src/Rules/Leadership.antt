-- ===== src/Rules/Leadership.antt =====
-- `_check_commanders` and the branch of formats without commanders
-- (backend/app/services/rules/validate.py).
use mtg_vault.Base.{
  ℕ, ◌≡◌, refl, ◌↔◌, inl, inr, true, List, [], ◌∷◌, ◌++◌, arith, if◌then◌else◌, is_empty, replicate,
  All, Result, ok, raise, ◌>>=◌, zero, suc, All-append, Bool-cases,
}
use mtg_vault.Base.Masks.{IsMask}
use mtg_vault.Base.Text.{text_eq}
use mtg_vault.Base.Dict.{is_some}
use mtg_vault.Rules.Cards.{RulesCard, DeckEntry, can_be_commander}
use mtg_vault.Rules.Commander.{commander_slot_valid, pair_allowed}
use mtg_vault.Rules.Formats.{FormatProfile}
use mtg_vault.Rules.Report.{RuleError, cards_of}
use mtg_vault.Rules.Leaders.{
  leaders_of, pair_errors, leader_errors, identity_errors, check_commanders,
}
use mtg_vault.Rules.Validate.{leader_check}
use mtg_vault.Rules.Identity.{AllMasks, covers, identity_errors_iff}

-- One card that can lead by itself, or two that may occupy the slots and may pair.
abbrev pub MayLead : List RulesCard → Type 0
MayLead [] = ⊥
MayLead (first ∷ []) = can_be_commander first ≡ true
MayLead (first ∷ second ∷ []) =
    (commander_slot_valid first ≡ true)
    × (commander_slot_valid second ≡ true)
    × (is_some (pair_allowed first second) ≡ true)
MayLead (first ∷ second ∷ third ∷ rest) = ⊥

can_be_commander-slot_valid :
    (c : RulesCard) → can_be_commander c ≡ true → commander_slot_valid c ≡ true
unfolding commander_slot_valid
can_be_commander-slot_valid c h = ground arith

leader_errors-nil→ : (leaders : List RulesCard) → leader_errors leaders ≡ ok [] → MayLead leaders
unfolding leader_errors pair_errors
leader_errors-nil→ [] h = ground arith
leader_errors-nil→ (a ∷ []) h = ground arith
leader_errors-nil→ (a ∷ b ∷ []) h = ground arith
leader_errors-nil→ (a ∷ b ∷ c ∷ rest) h = ground arith

leader_errors-nil← : (leaders : List RulesCard) → MayLead leaders → leader_errors leaders ≡ ok []
unfolding leader_errors pair_errors
leader_errors-nil← [] h = absurd h
leader_errors-nil← (a ∷ []) h = ground (arith, can_be_commander-slot_valid a h)
leader_errors-nil← (a ∷ b ∷ []) h = ground arith
leader_errors-nil← (a ∷ b ∷ c ∷ rest) h = absurd h

-- What a format with commanders asks: some who may lead, whose colours cover the other cards.
abbrev pub CommandersAllowed : List DeckEntry → List DeckEntry → List DeckEntry → Type 0
CommandersAllowed main commanders companions =
    MayLead (leaders_of commanders)
    × All (λ c. covers (leaders_of commanders) c ≡ true) (cards_of (main ++ companions))

abbrev pub LeadersAllowed :
    FormatProfile → List DeckEntry → List DeckEntry → List DeckEntry → Type 0
LeadersAllowed profile main commanders companions =
    if profile.has_commander then CommandersAllowed main commanders companions else commanders ≡ []

-- The rows' colour identities are masks of the five colours.
abbrev pub MaskedEntries : List DeckEntry → Type 0
MaskedEntries = All (λ (e : DeckEntry). IsMask e.card.color_identity_mask)

replicate-AllMasks :
    (n : ℕ) (c : RulesCard) → IsMask c.color_identity_mask → AllMasks (replicate n c)
replicate-AllMasks zero c h = tt
replicate-AllMasks (suc n) c h = (h, replicate-AllMasks n c h)

leaders_of-AllMasks :
    (entries : List DeckEntry) → MaskedEntries entries → AllMasks (leaders_of entries)
unfolding leaders_of
leaders_of-AllMasks [] h = tt
leaders_of-AllMasks (e ∷ entries) h =
    All-append _ (replicate e.quantity e.card) (leaders_of entries)
      (replicate-AllMasks e.quantity e.card h.0) (leaders_of-AllMasks entries h.1)

cards_of-AllMasks : (entries : List DeckEntry) → MaskedEntries entries → AllMasks (cards_of entries)
cards_of-AllMasks [] h = tt
cards_of-AllMasks (e ∷ entries) h = (h.0, cards_of-AllMasks entries h.1)

check_commanders_parts :
    (main commanders companions : List DeckEntry)
    → (check_commanders main commanders companions ≡ ok []) ↔ (
        (leader_errors (leaders_of commanders) ≡ ok [])
        × (identity_errors (leaders_of commanders) main companions ≡ []))
unfolding check_commanders
check_commanders_parts main [] companions =
    (λ h. absurd (ground arith), λ h. absurd (leader_errors-nil→ (leaders_of []) h.0))
check_commanders_parts main (e ∷ es) companions =
    (λ h. go (leader_errors (leaders_of (e ∷ es))) h, λ h. rw h.0 (rw h.1))
  where
    go :
        (broken : Result (List RuleError))
        → (broken >>= λ b.
            ok (if is_empty b then identity_errors (leaders_of (e ∷ es)) main companions else b))
          ≡ ok []
        → (broken ≡ ok []) × (identity_errors (leaders_of (e ∷ es)) main companions ≡ [])
    go (ok []) h = (refl, ground arith)
    go (ok (x ∷ xs)) h = absurd (ground arith)
    go (raise x) h = absurd (ground arith)

check_commanders_iff :
    (main commanders companions : List DeckEntry)
    → MaskedEntries commanders
    → MaskedEntries (main ++ companions)
    → (check_commanders main commanders companions ≡ ok [])
      ↔ CommandersAllowed main commanders companions
check_commanders_iff main commanders companions hc hm =
    let leaders = leaders_of commanders in
    let parts = check_commanders_parts main commanders companions in
    let colors =
      identity_errors_iff leaders (leaders_of-AllMasks commanders hc) main companions
        (cards_of-AllMasks (main ++ companions) hm) in
    (
      λ h. (leader_errors-nil→ leaders (parts.0 h).0, colors.0 (parts.0 h).1),
      λ h. parts.1 (leader_errors-nil← leaders h.0, colors.1 h.1),
    )

-- With masks of the five colours: in a format with commanders the check reports nothing exactly
-- when one or two cards lead that may, and every other colour is covered; in any other format,
-- when there is no commander.
pub leader_check_iff :
    (profile : FormatProfile) (main commanders companions : List DeckEntry)
    → MaskedEntries commanders
    → MaskedEntries (main ++ companions)
    → (leader_check profile main commanders companions ≡ ok [])
      ↔ LeadersAllowed profile main commanders companions
unfolding leader_check
leader_check_iff profile main commanders companions hc hm =
    let both = check_commanders_iff main commanders companions hc hm in
    elim (Bool-cases profile.has_commander) [
      | inl led ↦ rw led both
      | inr leaderless ↦ rw leaderless (λ h. ground arith, λ h. ground arith)
    ]
