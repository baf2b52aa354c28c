-- ===== src/Audit/Single.antt =====
-- The revert of a batch that has one entry, the newest of the log (backend/app/services/audit.py).
use mtg_vault.Base.{
  ◌≡◌, refl, ap, ◌∙◌, inl, inr, Bool, true, false, some, List, [], ◌∷◌, ◌++◌, arith, ◌==◌,
  Bool-cases, ok,
}
use mtg_vault.Base.Text.{Text, text_eq, same_text_iff}
use mtg_vault.Base.Dict.{is_some}
use mtg_vault.Audit.Rows.{Row, Entity, Tables, is_revertible}
use mtg_vault.Audit.Record.{AuditEntry, record_entry}
use mtg_vault.Audit.Revert.{
  Effect, Progress, revert_action, revert_record, revert_log, revert_batch, batch_of,
}

module _ (violates : Entity → Row → Tables → Bool) (batch_id new_batch_id now note : Text) where
  -- The loop passes over a log without entries of the batch.
  revert_log-other :
      (log : List AuditEntry) (st : Progress)
      → batch_of batch_id log ≡ []
      → revert_log violates batch_id new_batch_id now note log st ≡ (log, st)
  unfolding revert_log
  revert_log-other [] st h = refl
  revert_log-other (entry ∷ log) st h = elim (Bool-cases (entry.batch_id == batch_id)) [
    | inl ours ↦ absurd (ground (arith, ours))
    | inr theirs ↦ rw (theirs, revert_log-other log st (ground (arith, theirs))) refl
  ]

  -- The progress after the one entry.
  abbrev pub one_reverted : AuditEntry → Effect → Progress
  one_reverted entry effect = record {
    tables = effect.tables;
    reverted = 1;
    skipped = 0;
    details = effect.notes;
    written = record_entry (revert_record violates batch_id new_batch_id now note entry) [];
  }

  -- An entry that is applied is reverted and marked, and the revert is recorded.
  pub revert_batch-single :
      (entry : AuditEntry) (log : List AuditEntry) (tables : Tables) (effect : Effect)
      → entry.batch_id ≡ batch_id
      → is_some entry.reverted_at ≡ false
      → is_revertible entry.entity_type ≡ true
      → batch_of batch_id log ≡ []
      → revert_action violates entry.action entry tables ≡ effect
      → effect.applied ≡ true
      → (log' : List AuditEntry) × (revert_batch violates batch_id new_batch_id now note
            (entry ∷ log)
            tables
          ≡ ok (log', one_reverted entry effect))
  unfolding revert_batch revert_log
  revert_batch-single entry log tables effect ours open' known fresh run applied =
      let same : (entry.batch_id == batch_id) ≡ true =
        (same_text_iff entry.batch_id batch_id).1 ours in
      let done = ap (λ (x : Effect). x.applied) run ∙ applied in
      let rest =
        revert_log-other log (one_reverted entry (revert_action violates entry.action entry tables))
          fresh in
      let log' =
        record_entry (revert_record violates batch_id new_batch_id now note entry) []
        ++ record entry { reverted_at = some now } ∷ log in
      (log', rw (same, open', known, done, rest) (ap (λ x. ok (log', one_reverted entry x)) run))
