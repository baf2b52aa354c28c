-- ===== src/Jobs/Runner.antt =====
-- `JobContext` and `job_run` (backend/app/jobs/runner.py). The body of a job is a parameter, as are
-- the id that the database gives the run, the measured duration and the time.
use mtg_vault.Base.{
  ℕ, Bool, true, false, Option, none, some, List, [], ◌∷◌, ◌++◌, map, if◌then◌else◌, nat_beq, ◌==◌,
}
use mtg_vault.Base.Text.{Text, codes, text_eq}
use mtg_vault.Base.Dict.{Dict, insert}

-- A value of the detail: a text, a number (of tenths of a millisecond, for the duration), or the
-- reasons of a partial run.
pub data Note : Type 0 where
  text : Text → Note
  count : ℕ → Note
  reasons : List Text → Note

pub record JobRun : Type 0 where
  pub id : ℕ
  pub job_name : Text
  pub sub_source : Option Text
  pub status : Text
  pub finished_at : Option Text
  pub detail_json : Dict Text Note

pub record JobContext : Type 0 where
  pub run_id : ℕ
  pub detail : Dict Text Note
  pub status : Text

-- How the body of a job ends: it finishes, an `Exception` with its text, or one that is none, such
-- as a keyboard interrupt.
pub data Ending : Type 0 where
  finished interrupted : Ending
  failed : Text → Ending

-- `JobContext.report`
unfoldable pub report : Dict Text Note → JobContext → JobContext
report [] context = context
report ((key, value) ∷ values) context =
    report values (record context { detail = insert key value context.detail })

-- The reasons under the key, which no job reports by another call: `detail.setdefault("partial_reasons", []).append(reason)`.
unfoldable pub append_reason : Text → Dict Text Note → Dict Text Note
append_reason reason [] = (codes "partial_reasons", Note.reasons (reason ∷ [])) ∷ []
append_reason reason ((key, value) ∷ detail) =
    let rest = (key, value) ∷ append_reason reason detail in
    if key == codes "partial_reasons" then (key, appended reason value) ∷ detail else rest
  where
    appended : Text → Note → Note
    appended reason (Note.reasons earlier) = Note.reasons (earlier ++ reason ∷ [])
    appended reason (Note.text t) = Note.text t
    appended reason (Note.count n) = Note.count n

-- `JobContext.mark_partial`
unfoldable pub mark_partial : Text → JobContext → JobContext
unfolding append_reason
mark_partial reason context = record context {
  status = codes "partial";
  detail = append_reason reason context.detail;
}

-- `db.get(JobRun, run_id)`
unfoldable pub find_run : ℕ → List JobRun → Option JobRun
find_run run_id [] = none
find_run run_id (run ∷ runs) =
    let rest = find_run run_id runs in if nat_beq run.id run_id then some run else rest

-- Attribute writes on the row of the run, if it is there.
unfoldable pub write_run : ℕ → (JobRun → JobRun) → List JobRun → List JobRun
write_run run_id write = map (λ (run : JobRun). if nat_beq run.id run_id then write run else run)

-- The body of a job: what it does to the context and to the rows of the runs, and how it ends.
abbrev pub Body : Type 0
Body = JobContext → List JobRun → Ending × JobContext × List JobRun

-- `status` after the `try` statement: it is that of the fresh context until the body has finished.
abbrev pub final_status : Ending → JobContext → Text
final_status Ending.finished context = context.status
final_status (Ending.failed error) context = codes "failed"
final_status Ending.interrupted context = codes "ok"

-- The detail that is stored.
abbrev pub final_detail : Ending → ℕ → Dict Text Note → Dict Text Note
final_detail (Ending.failed error) duration detail =
    insert (codes "error") (Note.text error)
      (insert (codes "duration_ms") (Note.count duration) detail)
final_detail Ending.finished duration detail =
    insert (codes "duration_ms") (Note.count duration) detail
final_detail Ending.interrupted duration detail =
    insert (codes "duration_ms") (Note.count duration) detail

-- What leaves the `with` statement: an exception is swallowed, an interrupt is not.
abbrev pub escapes : Ending → Bool
escapes Ending.finished = false
escapes (Ending.failed error) = false
escapes Ending.interrupted = true

-- `job_run` around a body: whether something escapes, and the rows of the runs.
unfoldable pub job_run : ℕ → ℕ → Text → Text → Option Text → Body → List JobRun → Bool × List JobRun
job_run run_id duration now name sub_source body runs =
    let run : JobRun = record {
      id = run_id;
      job_name = name;
      sub_source = sub_source;
      status = codes "running";
      finished_at = none;
      detail_json = [];
    } in
    let context : JobContext = record { run_id = run_id; detail = []; status = codes "ok" } in
    let (ending, reported, runs') = body context (runs ++ run ∷ []) in
    (
      escapes ending,
      write_run run_id
          (λ (row : JobRun). record row {
            status = final_status ending reported;
            finished_at = some now;
            detail_json = final_detail ending duration reported.detail;
          })
          runs',
    )
