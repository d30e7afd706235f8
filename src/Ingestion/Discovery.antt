-- ===== src/Ingestion/Discovery.antt =====
-- `DiscoveryJob` (app/ingestion/jobs/discovery_job.py): the anime list of Tenrai is read page by
-- page, and the tasks of its anime are created or sent back to pending. Wall times and rates of
-- the summary are left out, as are log lines.
pub mod Whole
pub mod Weekly
pub mod Progress
pub mod Saved
use anime_app_backend.Prelude.{
  ℕ, zero, suc, ◌+◌, ◌-◌, ◌*◌, Bool, true, false, ◌&&◌, Option, none, some, String, List, [], ◌∷◌,
  leb, if◌then◌else◌,
}
use anime_app_backend.Prelude.Lists.{length}
use anime_app_backend.Exec.{
  Result, Exec, ok, err, pure, raise, modify, recover, continue, ◌>>=◌, ◌>>◌, try_except,
}
use anime_app_backend.Json.{Json}
use anime_app_backend.Ingestion.Enums.{
  Resource, details, statistics, reviews, episodes, RunStatus, failed, succeeded, Key,
}
use anime_app_backend.Ingestion.Errors.{Exc, database_error, unexpected, interrupted}
use anime_app_backend.Ingestion.Runtime.{Outside}
use anime_app_backend.Ingestion.Adapter.{Adapter, list_anime}
use anime_app_backend.Ingestion.Tasks.{seconds, is_refused, insert_tasks, insert_or_reset_tasks}
use anime_app_backend.Ingestion.Runs
use anime_app_backend.Ingestion.Runs.{Run}
use anime_app_backend.Ingestion.World.{
  World, Database, tick, query, commit, query_runs, commit_runs, on_adapter, event,
}
use anime_app_backend.Ingestion.Fetch.{has_next_page}
use anime_app_backend.Ingestion.Listing.{Tally, scan, distinct, entries}

abbrev pub discovery_resources : List Resource
discovery_resources = details ∷ statistics ∷ reviews ∷ episodes ∷ []

abbrev pub monthly_resources : List Resource
monthly_resources = details ∷ statistics ∷ reviews ∷ []

abbrev pub list_types : String
list_types = "tv,movie,ova,special,ona,tv_special"

abbrev pub popular_pages : ℕ
popular_pages = 5

abbrev pub resume_max_age : ℕ
resume_max_age = seconds (24 * 3600)

-- The summary of a run; the keys that only a failed run has are `none` before.
pub record Summary : Type 0 where
  pub start_page : ℕ
  pub pages : ℕ
  pub tally : Tally
  pub tasks_inserted : ℕ
  pub tasks_reset : ℕ
  pub tasks_unchanged : ℕ
  pub rate_limited_amount : ℕ
  pub requests : ℕ
  pub retries : ℕ
  pub failed_page : Option ℕ
  pub resume_page : Option ℕ

-- The local variables of `_run`.
pub record Vars : Type 0 where
  pub page : ℕ
  pub rate_limited_at_start : ℕ
  pub requests_at_start : ℕ
  pub retries_at_start : ℕ
  pub summary : Summary

abbrev pub State : Type 0
State = World (List (Run Summary)) Vars

abbrev pub Job : Type 0 → Type 0
Job A = Exec Exc State A

abbrev pub start_summary : ℕ → Summary
start_summary page = record {
  start_page = page;
  pages = 0;
  tally = record { seen = 0; skipped = 0; skipped_type = 0 };
  tasks_inserted = 0;
  tasks_reset = 0;
  tasks_unchanged = 0;
  rate_limited_amount = 0;
  requests = 0;
  retries = 0;
  failed_page = none;
  resume_page = none;
}

abbrev pub start_vars : ℕ → State → Vars
start_vars page w = record {
  page = page;
  rate_limited_at_start = w.adapter.rate_limited_count;
  requests_at_start = w.adapter.request_count;
  retries_at_start = w.adapter.retry_count;
  summary = start_summary page;
}

-- The counters of the adapter since the start of the run, as the summary takes them.
abbrev pub with_counters : State → Summary → Summary
with_counters w s = record s {
  rate_limited_amount = w.adapter.rate_limited_count - w.vars.rate_limited_at_start;
  requests = w.adapter.request_count - w.vars.requests_at_start;
  retries = w.adapter.retry_count - w.vars.retries_at_start;
}

abbrev pub set_summary : (Summary → Summary) → State → State
set_summary f w = record w { vars = record w.vars { summary = f w.vars.summary } }

-- `if max_pages and page >= max_pages: has_next = False`
abbrev pub limit : Option ℕ → ℕ → Bool → Bool
limit none page more = more
limit (some zero) page more = more
limit (some (suc m)) page more = if leb (suc m) page then false else more

-- After the entries were read; what was counted before an exception stays counted.
abbrev pub scanned : Option ℕ → Bool → Result Exc (List Key) × Tally → Job (Bool × List Key)
scanned max_pages more (ok rows, tally) w = (
  ok (limit max_pages w.vars.page more, distinct rows),
  set_summary (λ s. record s { tally = tally }) w,
)
scanned max_pages more (err e, tally) w = (err e, set_summary (λ s. record s { tally = tally }) w)

-- With what was read of the response, from the pagination to the entries.
abbrev pub read_entries :
    List Resource → Option ℕ → Option Bool → Option (List Json) → Job (Bool × List Key)
read_entries rs max_pages none animes w = (err unexpected, w)
read_entries rs max_pages (some more) none w = (err unexpected, w)
read_entries rs max_pages (some more) (some animes) w =
    scanned max_pages more (scan rs animes w.vars.summary.tally) w

-- From the response to whether there is a next page, and the rows without repetition.
pub read_page : List Resource → Option ℕ → Json → Job (Bool × List Key)
read_page rs max_pages response w =
    read_entries rs max_pages (has_next_page response) (entries response) w

-- The summary after a statement that wrote `rows`. The statement counts no row twice, so that the
-- difference is what Python computes.
abbrev pub count_rows : Bool → List Key → ℕ × ℕ → Summary → Summary
count_rows true rows (inserted, again) s = record s {
  tasks_inserted = s.tasks_inserted + inserted;
  tasks_reset = s.tasks_reset + again;
  tasks_unchanged = s.tasks_unchanged + (length rows - inserted - again);
}
count_rows false rows (inserted, again) s = record s {
  tasks_inserted = s.tasks_inserted + inserted;
}

-- The two statements, with the numbers of rows that were inserted and that were reset.
abbrev pub write_rows : Bool → List Key → Database → (ℕ × ℕ) × Database
write_rows true rows db =
    let (inserted, again, ts) = insert_or_reset_tasks rows db.tasks in
    ((inserted, again), record db { tasks = ts })
write_rows false rows db =
    let (inserted, ts) = insert_tasks rows db.tasks in ((inserted, 0), record db { tasks = ts })

module _ (out : Outside) where
  -- Postgres may refuse the second statement, which updates rows.
  unfoldable pub send_rows : Bool → List Key → Job (ℕ × ℕ)
  send_rows reset_existing rows w =
      if reset_existing && is_refused rows w.work.seen.tasks
      then (err database_error, tick out w)
      else query out (write_rows reset_existing rows) w

  -- `if not rows: return` stands in both statements: no row, nothing sent.
  pub save_rows : Bool → List Key → Job (ℕ × ℕ)
  save_rows reset_existing [] w = (ok (0, 0), w)
  save_rows reset_existing (k ∷ rows) w = send_rows reset_existing (k ∷ rows) w

  -- The loop's body behind the list request.
  pub save_page : Bool → Bool × List Key → Job Bool
  unfolding save_rows
  save_page reset_existing (more, rows) = do
    counts ← save_rows reset_existing rows
    modify (set_summary (count_rows reset_existing rows counts))
    commit out
    modify (λ (w : State).
        let counted = record w.vars.summary { pages = w.vars.summary.pages + 1 } in
        record w {
          vars = record w.vars { summary = with_counters w counted; page = w.vars.page + 1 };
        })
    pure more

  pub one_page : List (String × String) → List Resource → Bool → Option ℕ → Job Bool
  unfolding read_page save_page
  one_page filters resources reset_existing max_pages w =
      (do
        response ← on_adapter out (list_anime out w.vars.page (("type", list_types) ∷ filters))
        page ← read_page resources max_pages response
        save_page reset_existing page)
        w

  -- `while has_next`
  pub turn : Job Bool → Bool → Job Bool
  turn rest true w = rest w
  turn rest false w = (ok true, w)

  -- The loop, on fuel; `false` means that the fuel ran out.
  pub page_loop : ℕ → List (String × String) → List Resource → Bool → Option ℕ → Job Bool
  page_loop zero filters resources reset_existing max_pages w = (ok false, w)
  page_loop (suc fuel) filters resources reset_existing max_pages w =
      continue (one_page filters resources reset_existing max_pages w)
        (turn (page_loop fuel filters resources reset_existing max_pages))
