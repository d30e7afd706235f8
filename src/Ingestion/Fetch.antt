-- ===== src/Ingestion/Fetch.antt =====
-- `FetchAnimeJob.fetch_job_from_tasks` (app/ingestion/jobs/fetch_anime_job.py): claim a task, fetch
-- its resource, store the response, and record what became of the task. Logging is left out.
pub mod Loop
pub mod Steps
pub mod Outcome
pub mod Stored
pub mod Durable
use anime_app_backend.Prelude.{
  ℕ, zero, suc, ◌+◌, Bool, true, false, Option, none, some, List, [], ◌∷◌, ◌++◌, ◌==◌,
  if◌then◌else◌,
}
use anime_app_backend.Exec.{
  Result, Exec, ok, err, pure, raise, modify, gets, recover, continue, ◌>>=◌, ◌>>◌, try_except,
}
use anime_app_backend.Json
use anime_app_backend.Json.{Json, arr, obj, nil, cons, end, or_else, truthy}
use anime_app_backend.Ingestion.Enums.{
  Resource, details, statistics, reviews, episodes, characters, TaskStatus, done, failed, dead,
  gone, Key,
}
use anime_app_backend.Ingestion.Errors.{
  Exc, gone_error, permanent_error, access_denied, transient_error, network_error, circuit_open,
  raw_store_error, repeated_unexpected, database_error, unexpected, interrupted,
}
use anime_app_backend.Ingestion.Runtime.{Outside}
use anime_app_backend.Ingestion.Adapter.{
  Adapter, get_full, get_statistics, get_episodes, get_reviews,
}
use anime_app_backend.Ingestion.Tasks
use anime_app_backend.Ingestion.Tasks.{Task, Counts}
use anime_app_backend.Ingestion.Raw
use anime_app_backend.Ingestion.Runs.{Run}
use anime_app_backend.Ingestion.World.{
  World, Database, query, commit, rollback, put, on_adapter, event, tick,
}

abbrev pub max_episode_pages : ℕ
max_episode_pages = 100

pub record TaskOutcome : Type 0 where
  pub resource : Resource
  pub status : TaskStatus
  pub first_try : Bool

-- The counts of `by_resource`, for one resource.
pub record Bucket : Type 0 where
  pub resource : Resource
  pub count : ℕ

-- The summary of a run: its counts. The timings and the figures derived from them are left out.
pub record Summary : Type 0 where
  pub tasks : ℕ
  pub done_count : ℕ
  pub first_try_tasks : ℕ
  pub done_first_try : ℕ
  pub failed_count : ℕ
  pub dead_count : ℕ
  pub gone_count : ℕ
  pub by_resource : List Bucket
  pub rate_limited_amount : ℕ
  pub requests : ℕ
  pub retries : ℕ
  pub raw_bytes : ℕ
  pub stopped_by : Option Exc
  pub queue_after : Option Counts

-- The attributes of the job, and the summary that the run builds.
pub record Vars : Type 0 where
  pub raw_bytes : ℕ
  pub unexpected_in_a_row : ℕ
  pub denied_in_a_row : ℕ
  pub rate_limited_at_start : ℕ
  pub requests_at_start : ℕ
  pub retries_at_start : ℕ
  pub summary : Summary

abbrev pub State : Type 0
State = World (List (Run Summary)) Vars

abbrev pub Job : Type 0 → Type 0
Job A = Exec Exc State A

abbrev pub set_vars : (Vars → Vars) → Job (Unit {0})
set_vars f = modify (λ (w : State). record w { vars = f w.vars })

abbrev pub reset_denied : Vars → Vars
reset_denied v = record v { denied_in_a_row = 0 }

abbrev pub count_denied : Vars → Vars
count_denied v = record v { denied_in_a_row = v.denied_in_a_row + 1 }

abbrev pub count_unexpected : Vars → Vars
count_unexpected v = record v {
  unexpected_in_a_row = v.unexpected_in_a_row + 1;
  denied_in_a_row = 0;
}

abbrev pub is_done : TaskStatus → Bool
is_done done = true
is_done status = false

-- `(response.get("pagination") or {}).get("has_next_page")`, as a truth value; `none` is the
-- AttributeError where a value is no dict.
unfoldable pub has_next_page : Json → Option Bool
has_next_page response = elim (Json.get "pagination" response) [
  | none ↦ none
  | some pagination ↦ elim (Json.get "has_next_page" (or_else pagination (obj end))) [
    | none ↦ none
    | some v ↦ some (truthy v)
  ]
]

abbrev pub to_array : List Json → Json
to_array pages = arr (items pages)
  where
    items : List Json → Json.Items
    items [] = nil
    items (p ∷ ps) = cons p (items ps)

module _ (out : Outside) where
  -- The end of one page of `_fetch_episodes`: `rest` goes on with the next page.
  page_end : Option Bool → List Json → (List Json → Job Json) → Job Json
  page_end none pages rest s = (err unexpected, s)
  page_end (some true) pages rest s = rest pages s
  page_end (some false) pages rest s = (ok (to_array pages), s)

  episodes_page : ℕ → ℕ → List Json → (List Json → Job Json) → Job Json
  unfolding has_next_page page_end
  episodes_page mal_id page pages rest = do
    response ← on_adapter out (get_episodes out mal_id page)
    page_end (has_next_page response) (pages ++ response ∷ []) rest

  -- The loop of `_fetch_episodes`, with the number of further pages that are allowed.
  episodes_loop : ℕ → ℕ → ℕ → List Json → Job Json
  episodes_loop mal_id zero page pages =
      episodes_page mal_id page pages (λ _. raise (permanent_error none))
  episodes_loop mal_id (suc left) page pages =
      episodes_page mal_id page pages (episodes_loop mal_id left (page + 1))

  pub fetch_episodes : ℕ → Job Json
  fetch_episodes mal_id = episodes_loop mal_id 99 1 []

  -- `_fetch`
  fetch_resource : Resource → ℕ → Job Json
  fetch_resource episodes mal_id = fetch_episodes mal_id
  fetch_resource details mal_id = on_adapter out (get_full out mal_id)
  fetch_resource statistics mal_id = on_adapter out (get_statistics out mal_id)
  fetch_resource reviews mal_id = on_adapter out (get_reviews out mal_id 1)
  fetch_resource characters mal_id = raise (permanent_error none)

  pub fetch_payload : Key → Job Json
  unfolding fetch_resource
  fetch_payload key = fetch_resource key.resource key.mal_id

  -- A statement that returns nothing, on the task table.
  abbrev pub on_tasks : (List Task → List Task) → Job (Unit {0})
  on_tasks f = query out (λ (db : Database). (tt, record db { tasks = f db.tasks }))

  -- `claim_next`, at the time and with the locks of this moment
  pub claim : Job (Option Task)
  claim w =
      query out
        (λ (db : Database).
          (Tasks.claim_next (out.locked (event out w)) (out.utc (event out w)) db.tasks, db))
        w

  -- `raw_tenrai_repo.upsert`
  pub index_raw : Key → ℕ → Job (Unit {0})
  index_raw key size w =
      query out
        (λ (db : Database).
          (tt, record db { raw = Raw.upsert (out.utc (event out w)) key size db.raw }))
        w

  pub mark_failed : Task → Exc → Job (Unit {0})
  mark_failed task e w =
      on_tasks (Tasks.mark_failed (out.utc (event out w)) task (out.describe e)) w

  -- The body of the `try`: the status, and the size of what was stored.
  pub store_response : Task → Job (TaskStatus × ℕ)
  unfolding index_raw
  store_response task = do
    payload ← fetch_payload task.key
    stored ← put out task.key payload
    index_raw task.key stored
    on_tasks (Tasks.mark_done task)
    set_vars (λ (v : Vars). record v { unexpected_in_a_row = 0; denied_in_a_row = 0 })
    pure (done, stored)

  -- the handler of TransientError, and that of any other Exception
  pub transient_handler : Task → Exc → Job (TaskStatus × ℕ)
  unfolding mark_failed
  transient_handler task e = do set_vars reset_denied; mark_failed task e; pure (failed, 0)

  pub unexpected_handler : Task → Exc → Job (TaskStatus × ℕ)
  unfolding mark_failed
  unexpected_handler task e = do set_vars count_unexpected; mark_failed task e; pure (failed, 0)

  -- The `except` clauses, in their order.
  pub handle : Task → Exc → Job (TaskStatus × ℕ)
  unfolding mark_failed transient_handler unexpected_handler
  handle task (gone_error s) = do
    set_vars reset_denied
    on_tasks (Tasks.mark_gone task)
    pure (gone, 0)
  handle task (permanent_error s) = do
    set_vars reset_denied
    on_tasks (Tasks.mark_dead task (out.describe (permanent_error s)))
    pure (dead, 0)
  handle task (circuit_open t) = do rollback out; raise (circuit_open t)
  handle task raw_store_error = do rollback out; raise raw_store_error
  handle task (access_denied s) = do
    set_vars count_denied
    mark_failed task (access_denied s)
    pure (failed, 0)
  handle task (transient_error s) = transient_handler task (transient_error s)
  handle task (network_error s) = transient_handler task (network_error s)
  handle task database_error = do rollback out; raise database_error
  handle task (repeated_unexpected n) = unexpected_handler task (repeated_unexpected n)
  handle task unexpected = unexpected_handler task unexpected
  handle task interrupted = do rollback out; raise interrupted

  -- From the commit on, with the status of the task and the size of what was stored.
  pub finish : Task → TaskStatus × ℕ → Job (Option TaskOutcome)
  finish task (status, stored) = do
    commit out
    set_vars (λ (v : Vars). record v {
      raw_bytes = v.raw_bytes + (if is_done status then stored else 0);
    })
    pure (
        some (record {
          resource = task.key.resource;
          status = status;
          first_try = task.attempts == 0;
        }))

  -- From the `try` on, for a task that was claimed.
  pub process : Task → Job (Option TaskOutcome)
  unfolding store_response handle finish
  process task = do r ← try_except (store_response task) (handle task); finish task r

  -- `if not task: return None`
  pub process_claimed : Option Task → Job (Option TaskOutcome)
  process_claimed none w = (ok none, w)
  process_claimed (some task) w = process task w

  pub fetch_job_from_tasks : Job (Option TaskOutcome)
  unfolding claim process_claimed
  fetch_job_from_tasks = do task ← claim; process_claimed task
