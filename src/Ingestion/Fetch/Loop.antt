-- ===== src/Ingestion/Fetch/Loop.antt =====
-- `FetchAnimeJob.fetch_from_tasks`: tasks are processed until none is claimable or the run has to
-- stop, and the run is recorded in `ingestion_run`.
pub mod Ledger
pub mod Ends
pub mod Total
use anime_app_backend.Prelude.{
  ℕ, zero, suc, ◌+◌, ◌-◌, Bool, true, false, ◌&&◌, Option, none, some, String, List, [], ◌∷◌, leb,
  ◌==◌, if◌then◌else◌,
}
use anime_app_backend.Exec.{
  Result, Exec, ok, err, pure, raise, raise_if, modify, recover, continue, ◌>>=◌, ◌>>◌, try_except,
}
use anime_app_backend.Ingestion.Enums.{
  Resource, rank, TaskStatus, pending, done, failed, dead, gone, RunStatus, succeeded,
}
use anime_app_backend.Ingestion.Errors.{Exc, access_denied, repeated_unexpected, interrupted}
use anime_app_backend.Ingestion.Runtime.{Outside}
use anime_app_backend.Ingestion.Tasks.{Counts, count_by_status}
use anime_app_backend.Ingestion.Runs
use anime_app_backend.Ingestion.Runs.{Run}
use anime_app_backend.Ingestion.World.{World, Database, query, query_runs, commit_runs, event}
use anime_app_backend.Ingestion.Fetch.{
  State, Job, Vars, Summary, Bucket, TaskOutcome, set_vars, is_done, fetch_job_from_tasks,
}

abbrev pub job_name : String
job_name = "fetch_tasks"

abbrev pub max_consecutive_unexpected : ℕ
max_consecutive_unexpected = 10

abbrev pub max_consecutive_denied : ℕ
max_consecutive_denied = 5

abbrev pub empty_summary : Summary
empty_summary = record {
  tasks = 0;
  done_count = 0;
  first_try_tasks = 0;
  done_first_try = 0;
  failed_count = 0;
  dead_count = 0;
  gone_count = 0;
  by_resource = [];
  rate_limited_amount = 0;
  requests = 0;
  retries = 0;
  raw_bytes = 0;
  stopped_by = none;
  queue_after = none;
}

abbrev pub one_if : Bool → ℕ
one_if true = 1
one_if false = 0

abbrev pub status_is : TaskStatus → TaskStatus → Bool
status_is done done = true
status_is failed failed = true
status_is dead dead = true
status_is gone gone = true
status_is s t = false

-- `by_resource.setdefault(…)["count"] += 1`
abbrev pub bump : Resource → List Bucket → List Bucket
bump r [] = record { resource = r; count = 1 } ∷ []
bump r (b ∷ bs) =
    let rest = bump r bs in
    if rank b.resource == rank r then record b { count = b.count + 1 } ∷ bs else b ∷ rest

-- `_record`; the status of an outcome is never pending.
unfoldable pub record_outcome : TaskOutcome → Summary → Summary
record_outcome o s = record s {
  tasks = s.tasks + 1;
  done_count = s.done_count + one_if (status_is o.status done);
  failed_count = s.failed_count + one_if (status_is o.status failed);
  dead_count = s.dead_count + one_if (status_is o.status dead);
  gone_count = s.gone_count + one_if (status_is o.status gone);
  first_try_tasks = s.first_try_tasks + one_if o.first_try;
  done_first_try = s.done_first_try + one_if (is_done o.status && o.first_try);
  by_resource = bump o.resource s.by_resource;
}

-- The counters of the adapter since the start of the run, as the summary takes them.
abbrev pub with_counters : State → Summary → Summary
with_counters w s = record s {
  rate_limited_amount = w.adapter.rate_limited_count - w.vars.rate_limited_at_start;
  requests = w.adapter.request_count - w.vars.requests_at_start;
  retries = w.adapter.retry_count - w.vars.retries_at_start;
  raw_bytes = w.vars.raw_bytes;
}

-- `except Exception`
abbrev pub is_exception : Exc → Bool
is_exception interrupted = false
is_exception e = true

-- The attributes that `fetch_from_tasks` sets before it starts.
abbrev pub start_vars : State → Vars
start_vars w = record {
  raw_bytes = 0;
  unexpected_in_a_row = 0;
  denied_in_a_row = 0;
  rate_limited_at_start = w.adapter.rate_limited_count;
  requests_at_start = w.adapter.request_count;
  retries_at_start = w.adapter.retry_count;
  summary = empty_summary;
}

module _ (out : Outside) where
  -- `_queue_counts`
  pub queue_counts : Job (Option Counts)
  queue_counts =
      try_except (query out (λ (db : Database). (some (count_by_status db.tasks), db)))
        (λ e s. (if is_exception e then ok none else err e, s))

  -- `_record_run`: a failure to record is swallowed.
  pub record_run : ℕ → RunStatus → Summary → Option Exc → Job (Unit {0})
  record_run run_id status summary error =
      try_except
        (do
          (λ w.
              query_runs out
                (λ (runs : List (Run Summary)). (
                  tt,
                  Runs.finish_run (out.utc (event out w)) run_id status summary
                      (elim error [ none ↦ none | some e ↦ some (out.describe e) ]) runs,
                ))
                w)
          commit_runs out)
        (λ e s. (if is_exception e then ok tt else err e, s))

  pub start_run : Job ℕ
  start_run w =
      query_runs out
        (λ (runs : List (Run Summary)). Runs.start_run (out.utc (event out w)) job_name runs) w

  -- The part of the loop's body behind the claim; `rest` is the next turn. It returns whether the
  -- queue was found empty.
  pub turn : Job Bool → Option TaskOutcome → Job Bool
  turn rest none w = (ok true, w)
  turn rest (some o) w =
      (do
        modify (λ (w : State). record w {
          vars = record w.vars { summary = with_counters w (record_outcome o w.vars.summary) };
        })
        (λ (w : State).
            raise_if (leb max_consecutive_unexpected w.vars.unexpected_in_a_row)
              (repeated_unexpected w.vars.unexpected_in_a_row) w)
        (λ (w : State).
            raise_if (leb max_consecutive_denied w.vars.denied_in_a_row) (access_denied none) w)
        rest)
        w

  -- `while True`, on fuel; `false` means that the fuel ran out.
  pub task_loop : ℕ → Job Bool
  task_loop zero w = (ok false, w)
  task_loop (suc fuel) w = continue (fetch_job_from_tasks out w) (turn (task_loop fuel))

  -- The handler of BaseException.
  pub stop : ℕ → Exc → Job Bool
  unfolding queue_counts record_run
  stop run_id e = do
    counts ← queue_counts
    (λ (w : State).
        record_run run_id RunStatus.failed
          (record (with_counters w w.vars.summary) { stopped_by = some e; queue_after = counts })
          (some e) w)
    raise e

  -- The end of a run that was not stopped.
  pub complete : ℕ → Job Summary
  unfolding queue_counts record_run
  complete run_id = do
    counts ← queue_counts
    (λ (w : State).
        let summary = record (with_counters w w.vars.summary) {
          stopped_by = none;
          queue_after = counts;
        } in
        continue (record_run run_id succeeded summary none w) (λ _ s. (ok summary, s)))

  -- `none` means that the fuel ran out.
  pub complete_if : ℕ → Bool → Job (Option Summary)
  unfolding complete
  complete_if run_id false w = (ok none, w)
  complete_if run_id true w = continue (complete run_id w) (λ summary s. (ok (some summary), s))

  pub fetch_from_tasks : ℕ → Job (Option Summary)
  unfolding start_run stop complete_if
  fetch_from_tasks fuel = do
    modify (λ (w : State). record w { vars = start_vars w })
    run_id ← start_run
    commit_runs out
    emptied ← try_except (task_loop fuel) (stop run_id)
    complete_if run_id emptied
