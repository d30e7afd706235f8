-- ===== src/Ingestion/Discovery/Whole.antt =====
-- `DiscoveryJob._run` around its loop, `_resume_page`, and the runs that are built on them.
pub mod Kept
pub mod Resume
use Prim.Native.String.{◌++◌}
use anime_app_backend.Prelude.{
  ℕ, ◌+◌, ◌-◌, Bool, true, false, Option, none, some, String, List, [], ◌∷◌, ltb, ◌==◌,
  if◌then◌else◌,
}
use anime_app_backend.Exec.{
  Exec, ok, err, pure, raise, modify, recover, continue, ◌>>=◌, ◌>>◌, try_except,
}
use anime_app_backend.Ingestion.Enums.{Resource, RunStatus, running, failed, succeeded}
use anime_app_backend.Ingestion.Errors.{Exc, interrupted}
use anime_app_backend.Ingestion.Runtime.{Outside}
use anime_app_backend.Ingestion.Runs
use anime_app_backend.Ingestion.Runs.{latest_run}
use anime_app_backend.Ingestion.World.{World, query_runs, commit_runs, event}
use anime_app_backend.Ingestion.Discovery.{
  Summary, State, Job, discovery_resources, monthly_resources, popular_pages, resume_max_age,
  start_vars, with_counters, page_loop,
}

-- What a failed run records: nothing of its last page was committed.
abbrev pub failed_summary : State → Summary
failed_summary w = record (with_counters w w.vars.summary) {
  failed_page = some w.vars.page;
  resume_page = some w.vars.page;
}

-- `_resume_page` on the rows of the run history; the page is 1 unless the last run of the job
-- failed at most `resume_max_age` ago.
abbrev pub page_or_one : Option ℕ → ℕ
page_or_one none = 1
page_or_one (some p) = if p == 0 then 1 else p

abbrev pub page_of_run : ℕ → RunStatus → ℕ → Option Summary → ℕ
page_of_run now failed started_at (some s) =
    if ltb resume_max_age (now - started_at) then 1 else page_or_one s.resume_page
page_of_run now status started_at summary = 1

unfoldable pub resume_page : ℕ → String → List (Runs.Run Summary) → ℕ
resume_page now job runs = elim (latest_run job runs) [
  | none ↦ 1
  | some run ↦ page_of_run now run.status run.started_at run.summary
]

-- The name under which one of several lists of a job is recorded.
abbrev pub list_name : String → String → String
list_name job_name list = job_name ++ list

abbrev pub is_exception : Exc → Bool
is_exception interrupted = false
is_exception e = true

module _ (out : Outside) where
  -- `_record_run`: a failure to record is swallowed.
  pub record_run : ℕ → RunStatus → Summary → Option Exc → Job (Unit {0})
  record_run run_id status summary error =
      try_except
        (do
          (λ w.
              query_runs out
                (λ (runs : List (Runs.Run Summary)). (
                  tt,
                  Runs.finish_run (out.utc (event out w)) run_id status summary
                      (elim error [ none ↦ none | some e ↦ some (out.describe e) ]) runs,
                ))
                w)
          commit_runs out)
        (λ e s. (if is_exception e then ok tt else err e, s))

  pub start_run : String → Job ℕ
  start_run job_name w =
      query_runs out
        (λ (runs : List (Runs.Run Summary)). Runs.start_run (out.utc (event out w)) job_name runs) w

  -- `except BaseException`
  pub fail : ℕ → Exc → Job Bool
  unfolding record_run
  fail run_id e = do
    (λ (w : State). record_run run_id failed (failed_summary w) (some e) w)
    raise e

  -- The end of a run whose loop has ended; `none` means that the fuel ran out.
  pub finish : ℕ → Bool → Job (Option Summary)
  unfolding record_run
  finish run_id false w = (ok none, w)
  finish run_id true w =
      let summary = record (with_counters w w.vars.summary) { resume_page = none } in
      continue (record_run run_id succeeded summary none w) (λ _ s. (ok (some summary), s))

  -- `_run`
  pub run :
      ℕ
      → String
      → ℕ
      → List (String × String)
      → List Resource
      → Bool
      → Option ℕ
      → Job (Option Summary)
  unfolding start_run fail finish
  run fuel job_name page filters resources reset_existing max_pages = do
    modify (λ (w : State). record w { vars = start_vars page w })
    run_id ← start_run job_name
    commit_runs out
    ended ← try_except (page_loop out fuel filters resources reset_existing max_pages) (fail run_id)
    finish run_id ended

  -- `run_job_overall`
  pub run_job_overall : ℕ → ℕ → Job (Option Summary)
  run_job_overall fuel page = run fuel "discovery_overall" page [] discovery_resources false none

  -- `run_job_refresh`
  pub run_job_refresh :
      ℕ → String → List (String × String) → List Resource → ℕ → Job (Option Summary)
  run_job_refresh fuel job_name filters resources page =
      run fuel job_name page filters resources true none

  -- `_run` from the page where the last run of the job stopped
  pub run_resumed :
      ℕ → String → List (String × String) → List Resource → Option ℕ → Job (Option Summary)
  run_resumed fuel job_name filters resources max_pages = do
    page ← (λ (w : State).
        query_runs out
          (λ (runs : List (Runs.Run Summary)).
            (resume_page (out.utc (event out w)) job_name runs, runs))
          w)
    run fuel job_name page filters resources true max_pages

  -- `run_job_monthly`; `last_year` is the text of the year before the current one.
  pub run_job_monthly : ℕ → String → String → List Resource → Job (Option Summary × Option Summary)
  unfolding run_resumed
  run_job_monthly fuel last_year job_name resources = do
    recent_years ←
        run_resumed fuel (list_name job_name "_recent_years") (("start_date", last_year) ∷ [])
          resources none
    popular ←
        run_resumed fuel (list_name job_name "_popular")
          (("order_by", "popularity") ∷ ("sort", "asc") ∷ []) resources (some popular_pages)
    pure (recent_years, popular)
