-- ===== src/Tests/Queue.antt =====
-- The task queue and the fetch job at concrete inputs.
use anime_app_backend.Prelude.{◌+◌, ◌≡◌, refl, Bool, false, none, some, List, [], ◌∷◌, arith}
use anime_app_backend.Exec.Post.{Post}
use anime_app_backend.Json.{obj, end}
use anime_app_backend.Ingestion.Enums.{Key, same_key, key_ltb, details, statistics, failed, dead}
use anime_app_backend.Ingestion.Runtime.{Outside, response, absent}
use anime_app_backend.Ingestion.Adapter.{Adapter}
use anime_app_backend.Ingestion.Tasks.{
  Task, new_task, claim_next, mark_failed, insert_tasks, insert_or_reset_tasks, get_task,
}
use anime_app_backend.Ingestion.Tasks.Sound.{
  IsTable, mark_failed-IsTable, insert_or_reset_tasks-IsTable,
}
use anime_app_backend.Ingestion.Tasks.Claim.{Finds, claim_next-Finds, claim_next-IsClaimed}
use anime_app_backend.Ingestion.Tasks.Refresh.{
  is_missing, is_finished, count_keys, get-insert_tasks, get-insert_or_reset_tasks,
  counts-insert_or_reset_tasks,
}
use anime_app_backend.Ingestion.Fetch.{State, fetch_job_from_tasks}
use anime_app_backend.Ingestion.Fetch.Outcome.{Saves, Unsaved, fetch_job_from_tasks-Saves}
use anime_app_backend.Ingestion.Fetch.Durable.{IsDurable, fetch_job_from_tasks-IsDurable}
use anime_app_backend.Ingestion.Fetch.Loop.{empty_summary, fetch_from_tasks}
use anime_app_backend.Ingestion.Fetch.Loop.Total.{Completes, fetch_from_tasks-Completes}

abbrev first_key : Key
first_key = record { mal_id = 1; resource = details }

abbrev second_key : Key
second_key = record { mal_id = 1; resource = statistics }

abbrev third_key : Key
third_key = record { mal_id = 2; resource = details }

-- A task that failed once and is due at 500, and one that was given up.
abbrev failed_once : Task
failed_once = record {
  key = second_key;
  status = failed;
  attempts = 1;
  next_attempt_at = some 500;
  last_error = some [];
}

abbrev given_up : Task
given_up = record {
  key = third_key;
  status = dead;
  attempts = 3;
  next_attempt_at = none;
  last_error = some [];
}

abbrev queue : List Task
queue = given_up ∷ failed_once ∷ new_task first_key ∷ []

queue-IsTable : IsTable queue
unfolding same_key
queue-IsTable = ground arith

abbrev nobody : Key → Bool
nobody key = false

claims_first : claim_next nobody 100 queue ≡ some (new_task first_key)
unfolding claim_next same_key key_ltb
claims_first = refl

claims_when_due : claim_next nobody 500 (given_up ∷ failed_once ∷ []) ≡ some failed_once
unfolding claim_next same_key key_ltb
claims_when_due = refl

-- Everything answers at once with an empty object.
abbrev calm : Outside
calm = record {
  delay = λ n. 1;
  interrupts = λ n. false;
  answer = λ n request. response 200 absent (some (obj end));
  utc = λ n. 1000 + n;
  database_fault = λ n. none;
  storage_fault = λ n. none;
  locked = λ n key. false;
  describe = λ e. [];
  stored_size = λ payload. 20;
}

abbrev idle_adapter : Adapter
idle_adapter = record {
  limiter = record { interval = 600_000; last_request_time = none };
  breaker = record {
    failure_threshold = 5;
    cooldown = 300_000_000;
    consecutive_failures = 0;
    opened_at = none;
  };
  clock = record { time = 0; events = 0 };
  max_attempts = 5;
  request_count = 0;
  retry_count = 0;
  rate_limited_count = 0;
}

abbrev start : State
start = record {
  adapter = idle_adapter;
  work = record {
    saved = record { tasks = queue; raw = [] };
    seen = record { tasks = queue; raw = [] };
  };
  objects = [];
  runs = record { saved = []; seen = [] };
  vars = record {
    raw_bytes = 0;
    unexpected_in_a_row = 0;
    denied_in_a_row = 0;
    rate_limited_at_start = 0;
    requests_at_start = 0;
    retries_at_start = 0;
    summary = empty_summary;
  };
}

start-IsDurable : IsDurable start
start-IsDurable = ground arith

claim_next-Finds_example : Finds nobody 100 queue (claim_next nobody 100 queue)
claim_next-Finds_example = claim_next-Finds nobody 100 queue

mark_failed-IsTable_example : IsTable (mark_failed 100 (new_task first_key) [] queue)
mark_failed-IsTable_example =
    mark_failed-IsTable (new_task first_key) queue
      (claim_next-IsClaimed nobody 100 queue queue-IsTable claims_first) queue-IsTable 100 []

insert_or_reset_tasks-IsTable_example :
    IsTable (insert_or_reset_tasks (second_key ∷ third_key ∷ []) queue).2
insert_or_reset_tasks-IsTable_example =
    insert_or_reset_tasks-IsTable (second_key ∷ third_key ∷ []) queue queue-IsTable

get-insert_tasks_example :
    get_task third_key (insert_tasks (third_key ∷ []) []).1 ≡ some (new_task third_key)
unfolding get_task same_key
get-insert_tasks_example = get-insert_tasks third_key (third_key ∷ []) []

get-insert_or_reset_tasks_example :
    get_task second_key (insert_or_reset_tasks (second_key ∷ third_key ∷ []) queue).2
    ≡ some (new_task second_key)
unfolding get_task same_key
get-insert_or_reset_tasks_example =
    get-insert_or_reset_tasks second_key (second_key ∷ third_key ∷ []) queue (refl, (refl, tt))

counts-insert_or_reset_tasks_example :
    let rows = second_key ∷ third_key ∷ [] in
    let (inserted, again, ts') = insert_or_reset_tasks rows queue in
    (inserted ≡ count_keys is_missing rows queue) × (again ≡ count_keys is_finished rows queue)
unfolding same_key
counts-insert_or_reset_tasks_example =
    counts-insert_or_reset_tasks (second_key ∷ third_key ∷ []) queue (refl, (refl, tt))
      queue-IsTable

fetch_job_from_tasks-Saves_example :
    Post (Saves calm start) (λ _ w'. Unsaved calm start w') (fetch_job_from_tasks calm start)
fetch_job_from_tasks-Saves_example = fetch_job_from_tasks-Saves calm start

fetch_job_from_tasks-IsDurable_example : IsDurable (fetch_job_from_tasks calm start).1
fetch_job_from_tasks-IsDurable_example = fetch_job_from_tasks-IsDurable calm start start-IsDurable

fetch_from_tasks-Completes_example :
    Post (Completes calm queue) (λ _ _. Unit {0}) (fetch_from_tasks calm 6 start)
fetch_from_tasks-Completes_example =
    fetch_from_tasks-Completes calm 6 start refl queue-IsTable (omega arith)
