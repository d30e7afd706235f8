-- ===== src/Ingestion/Clean/Loop.antt =====
-- `CleanAnimeJob.full_clean_loop` (app/ingestion/jobs/clean_raw_job.py): batch after batch, and the
-- record of the run. Wall times and rates of the summary are left out.
pub mod Resumes
pub mod Ends
use Prim.Native.Char.{Char}
use anime_app_backend.Prelude.{
  ℕ, zero, suc, ◌+◌, Bool, true, false, Option, none, some, String, List, if◌then◌else◌,
}
use anime_app_backend.Exec.{
  Exec, Result, ok, err, pure, modify, try_except, recover, continue, ◌>>=◌, ◌>>◌,
}
use anime_app_backend.Ingestion.Enums.{Key, RunStatus, succeeded, failed}
use anime_app_backend.Ingestion.Errors.{Exc, interrupted}
use anime_app_backend.Ingestion.Runs.{Run, last_succeeded_run_start}
use anime_app_backend.Ingestion.Runs
use anime_app_backend.Ingestion.Clean.{Counts, State, Outside, Job, tick, read}
use anime_app_backend.Ingestion.Clean.Collect.{no_counts}
use anime_app_backend.Ingestion.Clean.Batch.{clean_anime}

abbrev pub job_name : String
job_name = "clean_anime"

-- `_summary`, with `resume_after`
pub record Summary : Type 0 where
  pub totals : Counts
  pub rows_written : ℕ
  pub since : Option ℕ
  pub batches : ℕ
  pub resume_after : Option Key

-- The job's state, the session of the run history, and the variables of the loop.
pub record Running (D M : Type 0) : Type 0 where
  pub job : State D M
  pub runs_saved : List (Run Summary)
  pub runs_seen : List (Run Summary)
  pub after : Option Key
  pub totals : Counts
  pub batches : ℕ

-- `totals[key] += value` for every key
abbrev pub add_counts : Counts → Counts → Counts
add_counts a b = record {
  rows_read = a.rows_read + b.rows_read;
  anime_changed = a.anime_changed + b.anime_changed;
  tags_upserted = a.tags_upserted + b.tags_upserted;
  studios_upserted = a.studios_upserted + b.studios_upserted;
  tag_links_changed = a.tag_links_changed + b.tag_links_changed;
  studio_links_changed = a.studio_links_changed + b.studio_links_changed;
  relation_links_changed = a.relation_links_changed + b.relation_links_changed;
  statistics_written = a.statistics_written + b.statistics_written;
  episodes_written = a.episodes_written + b.episodes_written;
  reviews_written = a.reviews_written + b.reviews_written;
  parse_failed = a.parse_failed + b.parse_failed;
  skipped_no_anime = a.skipped_no_anime + b.skipped_no_anime;
  skipped_unsupported = a.skipped_unsupported + b.skipped_unsupported;
}

-- The sum over `ROW_WRITE_KEYS`.
abbrev pub rows_written_of : Counts → ℕ
rows_written_of c =
    c.anime_changed + c.tags_upserted + c.studios_upserted + c.statistics_written
    + c.episodes_written + c.reviews_written

abbrev pub summary_of : {D M : Type 0} → Option ℕ → Option Key → Running D M → Summary
summary_of since resume_after w = record {
  totals = w.totals;
  rows_written = rows_written_of w.totals;
  since = since;
  batches = w.batches;
  resume_after = resume_after;
}

abbrev pub Act : (D M : Type 0) → Type 0 → Type 0
Act D M A = Exec Exc (Running D M) A

-- A part of the job in the state of the run.
abbrev pub on_job : {D M A : Type 0} → Job D M A → Act D M A
on_job m w = let (r, j) = m w.job in (r, record w { job = j })

module _ {D M : Type 0} (out : Outside D M) (error_text : Exc → List Char) where
  -- A statement and a commit in the session of the run history.
  abbrev pub unless_run_fails :
      {A : Type 0} → (Running D M → Result Exc A × Running D M) → Act D M A
  unless_run_fails act w = elim (out.fails w.job.step) [
    | some e ↦ (err e, record w { job = tick w.job })
    | none ↦ act (record w { job = tick w.job })
  ]

  unfoldable pub query_runs :
      {A : Type 0} → (List (Run Summary) → A × List (Run Summary)) → Act D M A
  query_runs f =
      unless_run_fails (λ w. let (a, rs) = f w.runs_seen in (ok a, record w { runs_seen = rs }))

  unfoldable pub commit_runs : Act D M (Unit {0})
  commit_runs = unless_run_fails (λ w. (ok tt, record w { runs_saved = w.runs_seen }))

  -- `except Exception` of `_record_run`
  abbrev pub ignore : Exc → Running D M → Result Exc (Unit {0}) × Running D M
  ignore interrupted w = (err interrupted, w)
  ignore e w = (ok tt, w)

  -- `_record_run`
  unfoldable pub record_run : ℕ → RunStatus → Summary → Option (List Char) → Act D M (Unit {0})
  record_run run_id status summary error w =
      try_except
        (do
          query_runs (λ (rs : List (Run Summary)).
              (tt, Runs.finish_run (out.utc w.job.step) run_id status summary error rs))
          commit_runs)
        ignore w

  abbrev pub count_batch : Key → Counts → Running D M → Running D M
  count_batch key counts w = record w {
    after = some key;
    batches = w.batches + 1;
    totals = add_counts w.totals counts;
  }

  -- The rest of a turn: whether the loop ends, or goes on with `rest`.
  abbrev pub next_turn : Act D M Bool → Option Key × Counts → Act D M Bool
  next_turn rest (none, counts) w = (ok true, w)
  next_turn rest (some key, counts) w = rest (count_batch key counts w)

  -- `while True`; false is the end of the fuel.
  unfoldable pub clean_loop : ℕ → Option ℕ → ℕ → Act D M Bool
  clean_loop zero since batch_size w = (ok false, w)
  clean_loop (suc fuel) since batch_size w =
      continue (on_job (clean_anime out w.after since batch_size) w)
        (next_turn (clean_loop fuel since batch_size))

  -- The names that are stored, loaded once per run.
  unfoldable pub load_names : Act D M (Unit {0})
  load_names = do
    tags ← on_job (read out (λ (w : State D M). w.seen.tags))
    studios ← on_job (read out (λ (w : State D M). w.seen.studios))
    modify (λ (w : Running D M). record w { job = record w.job { tags = tags; studios = studios } })

  -- `except BaseException`
  unfoldable pub fail : ℕ → Option ℕ → Exc → Running D M → Result Exc Bool × Running D M
  fail run_id since e w =
      continue (record_run run_id failed (summary_of since w.after w) (some (error_text e)) w)
        (λ _ w'. (err e, w'))

  -- What follows the loop; without an answer where the fuel ran out.
  abbrev pub finished : ℕ → Option ℕ → Bool → Act D M (Option Summary)
  finished run_id since false w = (ok none, w)
  finished run_id since true w =
      let summary = summary_of since none w in
      continue (record_run run_id succeeded summary none w) (λ _ w'. (ok (some summary), w'))

  abbrev pub since_of : Bool → Option ℕ → Act D M (Option ℕ)
  since_of true since w = (ok none, w)
  since_of false (some t) w = (ok (some t), w)
  since_of false none w =
      query_runs (λ (rs : List (Run Summary)). (last_succeeded_run_start job_name rs, rs)) w

  -- `metric_repository.start_run`
  abbrev pub start_run : Act D M ℕ
  start_run w =
      query_runs (λ (rs : List (Run Summary)). Runs.start_run (out.utc w.job.step) job_name rs) w

  unfoldable pub full_clean_loop : ℕ → Option ℕ → Option Key → ℕ → Bool → Act D M (Option Summary)
  full_clean_loop fuel since after batch_size full_pass w =
      (do
        since ← since_of full_pass since
        modify (λ (w : Running D M). record w { after = after; totals = no_counts; batches = 0 })
        run_id ← start_run
        commit_runs
        is_finished ←
            try_except (do load_names; clean_loop fuel since batch_size) (fail run_id since)
        finished run_id since is_finished)
        w
