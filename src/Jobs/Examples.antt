-- ===== src/Jobs/Examples.antt =====
-- A partial run, a failed one and an interrupted one.
use mtg_vault.Base.{
  ℕ, ◌≡◌, refl, Bool, false, none, some, List, [], ◌∷◌, Option, if◌then◌else◌, nat_beq,
}
use mtg_vault.Base.Text.{Text, codes, same_text}
use mtg_vault.Jobs.Runner.{
  Note, JobRun, Ending, report, append_reason, mark_partial, find_run, write_run, Body, job_run,
}
use mtg_vault.Jobs.Recorded.{Recorded, job_run-Recorded}

program : Unit {0}
unfolding report append_reason mark_partial find_run write_run job_run same_text
program = tt

-- A body that reports a count and a partial failure, and ends in the given way.
abbrev body : Ending → Body
body ending context runs = (
  ending,
  mark_partial (codes "one source") (report ((codes "rows", Note.count 3) ∷ []) context),
  runs,
)

abbrev row : Text → Option Text → JobRun
row status finished_at = record {
  id = 1;
  job_name = codes "prices";
  sub_source = none;
  status = status;
  finished_at = finished_at;
  detail_json = [];
}

abbrev ran : Ending → Bool × List JobRun
ran ending = job_run 1 25 (codes "t1") (codes "prices") none (body ending) []

ran_test : ran Ending.finished ≡ (
  false,
  record (row (codes "partial") (some (codes "t1"))) {
    detail_json =
        (codes "rows", Note.count 3)
        ∷ (codes "partial_reasons", Note.reasons (codes "one source" ∷ []))
        ∷ (codes "duration_ms", Note.count 25)
        ∷ [];
  }
      ∷ [],
)
unfolding program
ran_test = refl

job_run-Recorded_example :
    let (escaped, after) = ran Ending.interrupted in
    (ended : JobRun) × ((i : ℕ)
      → find_run i after
        ≡ (if nat_beq i 1 then some ended else find_run i (row (codes "running") none ∷ [])))
    × (ended.finished_at ≡ some (codes "t1"))
    × Recorded
        (codes "t1")
        Ending.interrupted
        (mark_partial (codes "one source") (
          report
            ((codes "rows", Note.count 3) ∷ [])
            (record { run_id = 1; detail = []; status = codes "ok" })))
        escaped
        ended
unfolding program
job_run-Recorded_example =
    job_run-Recorded 1 25 (codes "t1") (codes "prices") none (body Ending.interrupted) []
      (row (codes "running") none ∷ []) Ending.interrupted _ (row (codes "running") none) refl refl
