-- ===== src/Audit/Batches.antt =====
-- The bookkeeping of `revert_batch` (backend/app/services/audit.py): its errors and its counts.
use mtg_vault.Base.{
  ◌+◌, ◌≤◌, ◌≡◌, refl, ap, ◌∙◌, ◌≢◌, ◌⊎◌, inl, inr, Bool, true, false, List, [], ◌∷◌, ◌++◌, arith,
  ◌==◌, is_empty, all, length, ok, raise, conflict, not_found, Bool-cases, filter-append,
}
use mtg_vault.Base.Text.{Text, text_eq, same_text_iff}
use mtg_vault.Base.Dict.{is_some}
use mtg_vault.Audit.Rows.{Row, Entity, Tables}
use mtg_vault.Audit.Record.{AuditEntry}
use mtg_vault.Audit.Revert.{Progress, revert_step, revert_log, revert_batch, batch_of, starting}

module _ (violates : Entity → Row → Tables → Bool) (batch_id new_batch_id now note : Text) where
  abbrev step : AuditEntry → Progress → AuditEntry × Progress
  step = revert_step violates batch_id new_batch_id now note

  abbrev loop : List AuditEntry → Progress → List AuditEntry × Progress
  loop = revert_log violates batch_id new_batch_id now note

  step_counts :
      (entry : AuditEntry) (st : Progress)
      → (step entry st).1.reverted + (step entry st).1.skipped ≡ st.reverted + st.skipped + 1
  unfolding revert_step
  step_counts entry st = ground arith

  loop_counts :
      (log : List AuditEntry) (st : Progress)
      → let final = (loop log st).1 in
        final.reverted + final.skipped ≡ st.reverted + st.skipped + length (batch_of batch_id log)
  unfolding revert_log
  loop_counts [] st = ground arith
  loop_counts (entry ∷ log) st =
      ground (arith, step_counts entry st, loop_counts log (step entry st).1, loop_counts log st)

  -- An entry that the loop did not skip is marked as reverted.
  step_marks :
      (entry : AuditEntry) (st : Progress)
      → (((step entry st).1.skipped ≡ st.skipped) × (is_some (step entry st).0.reverted_at ≡ true))
        ⊎ ((step entry st).1.skipped ≡ st.skipped + 1)
  unfolding revert_step
  step_marks entry st = ground arith

  step_batch : (entry : AuditEntry) (st : Progress) → (step entry st).0.batch_id ≡ entry.batch_id
  unfolding revert_step
  step_batch entry st = ground arith

  loop_skips : (log : List AuditEntry) (st : Progress) → st.skipped ≤ (loop log st).1.skipped
  unfolding revert_log
  loop_skips [] st = omega arith
  loop_skips (entry ∷ log) st =
      ground (arith, step_marks entry st, loop_skips log (step entry st).1, loop_skips log st)

  -- With nothing skipped, every entry of the batch is marked.
  loop_marks :
      (log : List AuditEntry) (st : Progress)
      → (loop log st).1.skipped ≡ st.skipped
      → all (λ (e : AuditEntry). is_some e.reverted_at) (batch_of batch_id (loop log st).0) ≡ true
  unfolding revert_log
  loop_marks [] st h = refl
  loop_marks (entry ∷ log) st h = elim (Bool-cases (entry.batch_id == batch_id)) [
    | inl ours ↦ ground (
      arith,
      ours,
      step_batch entry st,
      step_marks entry st,
      loop_skips log (step entry st).1,
      loop_marks log (step entry st).1,
    )
    | inr theirs ↦ ground (arith, theirs, loop_marks log st)
  ]

  loop_keeps :
      (log : List AuditEntry) (st : Progress)
      → is_empty (batch_of batch_id (loop log st).0) ≡ is_empty (batch_of batch_id log)
  unfolding revert_log
  loop_keeps [] st = refl
  loop_keeps (entry ∷ log) st = elim (Bool-cases (entry.batch_id == batch_id)) [
    | inl ours ↦ ground (arith, ours, step_batch entry st)
    | inr theirs ↦ ground (arith, theirs, loop_keeps log st)
  ]

  module _ (fresh : new_batch_id ≢ batch_id) where
    -- What the loop records belongs to the new batch.
    step_written :
        (entry : AuditEntry) (st : Progress)
        → batch_of batch_id (step entry st).1.written ≡ batch_of batch_id st.written
    unfolding revert_step
    step_written entry st = ground (arith, same_text_iff new_batch_id batch_id)

    loop_written :
        (log : List AuditEntry) (st : Progress)
        → batch_of batch_id (loop log st).1.written ≡ batch_of batch_id st.written
    unfolding revert_log
    loop_written [] st = refl
    loop_written (entry ∷ log) st =
        ground
          (arith, step_written entry st, loop_written log (step entry st).1, loop_written log st)

  -- The revert is refused exactly when the log has no entry of the batch, or has some and all of
  -- them are reverted; otherwise it succeeds and counts each entry of the batch once, as reverted
  -- or as skipped.
  pub revert_batch-outcome :
      (log : List AuditEntry) (tables : Tables)
      → let entries = batch_of batch_id log in
        let outcome = revert_batch violates batch_id new_batch_id now note log tables in
        ((outcome ≡ raise not_found) × (entries ≡ []))
        ⊎ (((outcome ≡ raise conflict)
              × (entries ≢ [])
              × (all (λ (e : AuditEntry). is_some e.reverted_at) entries ≡ true))
            ⊎ ((log' : List AuditEntry) × (final : Progress) × (entries ≢ [])
                × (all (λ (e : AuditEntry). is_some e.reverted_at) entries ≡ false)
                × (outcome ≡ ok (log', final))
                × (final.reverted + final.skipped ≡ length entries)))
  unfolding revert_batch
  revert_batch-outcome log tables = elim (Bool-cases (is_empty (batch_of batch_id log))) [
    | inl nothing ↦ inl (ground (arith, nothing))
    | inr present ↦
        inr
          (elim (Bool-cases
            (all (λ (e : AuditEntry). is_some e.reverted_at) (batch_of batch_id log))) [
              | inl done ↦ inl (ground (arith, present, done))
              | inr open' ↦
                  let run = loop log (starting tables) in
                  inr (
                    run.1.written ++ run.0,
                    run.1,
                    (λ e. absurd (ground (arith, present, e))),
                    open',
                    rw (present, open') refl,
                    omega (arith, loop_counts log (starting tables)),
                  )
            ])
  ]

  all_reverted_conflict :
      (written marked : List AuditEntry) (tables : Tables)
      → batch_of batch_id written ≡ []
      → all (λ (e : AuditEntry). is_some e.reverted_at) (batch_of batch_id marked) ≡ true
      → is_empty (batch_of batch_id marked) ≡ false
      → revert_batch violates batch_id new_batch_id now note (written ++ marked) tables
        ≡ raise conflict
  unfolding revert_batch
  all_reverted_conflict written marked tables hw hm present =
      let joined : batch_of batch_id (written ++ marked) ≡ batch_of batch_id marked =
        filter-append _ written marked ∙ rw hw in
      rw (joined, present, hm)

-- A batch whose revert skipped nothing cannot be reverted again: a second call, on the log that
-- the first one leaves, raises the conflict. The new batch id is another one.
pub revert_batch_once :
    (violates : Entity → Row → Tables → Bool) (batch_id new_batch_id now note : Text)
    (log log' : List AuditEntry) (tables tables' : Tables) (final : Progress) (again now' : Text)
    → new_batch_id ≢ batch_id
    → revert_batch violates batch_id new_batch_id now note log tables ≡ ok (log', final)
    → final.skipped ≡ 0
    → revert_batch violates batch_id again now' note log' tables' ≡ raise conflict
unfolding revert_batch
revert_batch_once violates batch_id new_batch_id now note log log' tables tables' final again now'
      fresh h none_skipped =
    let (marked, done) = revert_log violates batch_id new_batch_id now note log (starting tables) in
    let kept = loop_keeps violates batch_id new_batch_id now note log (starting tables) in
    let written =
      loop_written violates batch_id new_batch_id now note fresh log (starting tables) in
    let marks = loop_marks violates batch_id new_batch_id now note log (starting tables) in
    let same_log : done.written ++ marked ≡ log' = ground arith in
    let same_final : done ≡ final = ground arith in
    let present : is_empty (batch_of batch_id log) ≡ false = ground arith in
    rw (← same_log) (
      all_reverted_conflict violates batch_id again now' note done.written marked tables' written
        (marks (ap (λ (p : Progress). p.skipped) same_final ∙ none_skipped)) (kept ∙ present))
