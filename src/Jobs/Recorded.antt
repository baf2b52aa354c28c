-- ===== src/Jobs/Recorded.antt =====
-- What is recorded of a job when it has ended (backend/app/jobs/runner.py).
use mtg_vault.Base.{
  ℕ, ◌≡◌, refl, sym, ap, ◌∙◌, inl, inr, Bool, true, false, Option, none, some, List, [], ◌∷◌, ◌++◌,
  map, ◌⊎◌, arith, if◌then◌else◌, nat_beq, Bool-cases,
}
use mtg_vault.Base.Text.{Text, codes, text_eq, same_text_iff}
use mtg_vault.Base.Dict.{lookup, insert, lookup-insert}
use mtg_vault.Jobs.Runner.{
  Note, JobRun, JobContext, Ending, find_run, write_run, Body, final_status, final_detail, escapes,
  job_run,
}

-- A row of the table after the writes on the row of the run.
abbrev pub written : ℕ → (JobRun → JobRun) → ℕ → Option JobRun → Option JobRun
written run_id write i none = none
written run_id write i (some row) = some (if nat_beq i run_id then write row else row)

module _ (run_id i : ℕ) (write : JobRun → JobRun)
    (kept : (row : JobRun) → (write row).id ≡ row.id) where
  abbrev changed : JobRun → JobRun
  changed row = if nat_beq row.id run_id then write row else row

  changed-id : (row : JobRun) → (changed row).id ≡ row.id
  changed-id row = elim (Bool-cases (nat_beq row.id run_id)) [
    | inl ours ↦ rw ours (kept row)
    | inr theirs ↦ rw theirs refl
  ]

  find_run-write_run :
      (runs : List JobRun)
      → find_run i (write_run run_id write runs) ≡ written run_id write i (find_run i runs)
  unfolding find_run write_run
  find_run-write_run [] = refl
  find_run-write_run (row ∷ rows) = elim (Bool-cases (nat_beq row.id i)) [
    | inl here ↦
        let moved : nat_beq (changed row).id i ≡ true =
          ap (λ n. nat_beq n i) (changed-id row) ∙ here in
        let found : find_run i (changed row ∷ map changed rows) ≡ some (changed row) =
          rw moved refl in
        let before : find_run i (row ∷ rows) ≡ some row = rw here refl in
        let same : row.id ≡ i = ground arith in
        found
        ∙ (ap (λ n. some (if nat_beq n run_id then write row else row)) same
            ∙ ap (written run_id write i) (sym before))
    | inr there ↦
        let moved : nat_beq (changed row).id i ≡ false =
          ap (λ n. nat_beq n i) (changed-id row) ∙ there in
        let found : find_run i (changed row ∷ map changed rows) ≡ find_run i (map changed rows) =
          rw moved refl in
        let before : find_run i (row ∷ rows) ≡ find_run i rows = rw there refl in
        found ∙ (find_run-write_run rows ∙ ap (written run_id write i) (sym before))
  ]

-- What has been recorded for an ending.
abbrev record_of : ℕ → Text → Ending → JobContext → JobRun → JobRun
record_of duration now ending reported row = record row {
  status = final_status ending reported;
  finished_at = some now;
  detail_json = final_detail ending duration reported.detail;
}

written-other :
    (run_id i : ℕ) (write : JobRun → JobRun) (found : Option JobRun)
    → nat_beq i run_id ≡ false
    → written run_id write i found ≡ found
written-other run_id i write none h = refl
written-other run_id i write (some row) h = rw h refl

-- How an ending is recorded.
abbrev pub Recorded : Text → Ending → JobContext → Bool → JobRun → Type 0
Recorded now ending reported escaped ended =
    ((ending ≡ Ending.finished) × (escaped ≡ false) × (ended.status ≡ reported.status))
    ⊎ (((ending ≡ Ending.interrupted) × (escaped ≡ true) × (ended.status ≡ codes "ok"))
        ⊎ ((error : Text) × (ending ≡ Ending.failed error)
            × (escaped ≡ false)
            × (ended.status ≡ codes "failed")
            × (lookup (codes "error") ended.detail_json ≡ some (Note.text error))))

ending-Recorded :
    (duration : ℕ) (now : Text) (ending : Ending) (reported : JobContext) (row : JobRun)
    → Recorded now ending reported (escapes ending) (record_of duration now ending reported row)
ending-Recorded duration now Ending.finished reported row = inl (refl, refl, refl)
ending-Recorded duration now Ending.interrupted reported row = inr (inl (refl, refl, refl))
ending-Recorded duration now (Ending.failed error) reported row = inr (
    inr (
      error,
      refl,
      refl,
      refl,
      lookup-insert (codes "error") (codes "error") (Note.text error)
            (insert (codes "duration_ms") (Note.count duration) reported.detail)
          ∙ rw ((same_text_iff (codes "error") (codes "error")).1 refl) refl,
    ))

-- When the body of a job has ended, in whatever way, the row of its run, if the body has left it in
-- the table, has a time of finish, and every other row is as the body left it. Only an interrupt
-- escapes; its run is recorded with the status "ok". Without one, the status is what the body
-- reported, or "failed" with the text of the exception in the detail.
pub job_run-Recorded :
    (run_id duration : ℕ) (now name : Text) (sub_source : Option Text) (body : Body)
    (runs runs' : List JobRun) (ending : Ending) (reported : JobContext) (row : JobRun)
    → body
        (record { run_id = run_id; detail = []; status = codes "ok" })
        (runs
          ++ record {
            id = run_id;
            job_name = name;
            sub_source = sub_source;
            status = codes "running";
            finished_at = none;
            detail_json = [];
          }
            ∷ [])
      ≡ (ending, reported, runs')
    → find_run run_id runs' ≡ some row
    → let (escaped, after) = job_run run_id duration now name sub_source body runs in
      (ended : JobRun) × ((i : ℕ)
        → find_run i after ≡ (if nat_beq i run_id then some ended else find_run i runs'))
      × (ended.finished_at ≡ some now)
      × Recorded now ending reported escaped ended
unfolding job_run
job_run-Recorded run_id duration now name sub_source body runs runs' ending reported row ran left =
    rw ran (
      record_of duration now ending reported row,
      λ i.
          find_run-write_run run_id i (record_of duration now ending reported) (λ r. refl) runs'
          ∙ elim (Bool-cases (nat_beq i run_id)) [
            | inl ours ↦
                let same : i ≡ run_id = ground arith in
                let found : find_run i runs' ≡ some row = ap (λ n. find_run n runs') same ∙ left in
                ap (written run_id (record_of duration now ending reported) i) found ∙ rw ours refl
            | inr theirs ↦
                written-other run_id i (record_of duration now ending reported) (find_run i runs')
                  theirs
                ∙ rw theirs refl
          ],
      refl,
      ending-Recorded duration now ending reported row,
    )
