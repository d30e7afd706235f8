-- ===== src/Ingestion/Tasks.antt =====
-- `TaskRepository` (app/ingestion/repository/task_repository.py): each method's SQL statement as a
-- function on the rows of `ingestion_task`. The rows are a list in no particular order, with
-- (mal_id, resource) as the primary key. The columns created_at and updated_at are left out, since
-- no code reads them. A time is in microseconds, the resolution of `datetime`.
pub mod Sound
pub mod Claim
pub mod Refresh
pub mod Budget
use Prim.Native.Char.{Char}
use anime_app_backend.Prelude.{
  ℕ, ◌+◌, ◌*◌, ◌^◌, Bool, true, false, ◌&&◌, ◌||◌, Option, none, some, List, [], ◌∷◌, ◌++◌, ltb,
  leb, ◌==◌, min, if◌then◌else◌,
}
use anime_app_backend.Prelude.Lists.{take, any_of}
use anime_app_backend.Ingestion.Enums.{
  Resource, TaskStatus, pending, done, failed, dead, gone, Key, same_key, key_ltb, rank,
}

abbrev pub max_attempts : ℕ
max_attempts = 3

abbrev pub backoff_base_seconds : ℕ
backoff_base_seconds = 60

abbrev pub backoff_cap_seconds : ℕ
backoff_cap_seconds = 6 * 3600

abbrev pub last_error_max_chars : ℕ
last_error_max_chars = 500

-- `timedelta(seconds=n)`
abbrev pub seconds : ℕ → ℕ
seconds n = n * 1_000_000

-- A row of `ingestion_task` (app/ingestion/models.py).
pub record Task : Type 0 where
  pub key : Key
  pub status : TaskStatus
  pub attempts : ℕ
  pub next_attempt_at : Option ℕ
  pub last_error : Option (List Char)

-- The row that an insert of the key alone makes, by the columns' defaults.
abbrev pub new_task : Key → Task
new_task key = record {
  key = key;
  status = pending;
  attempts = 0;
  next_attempt_at = none;
  last_error = none;
}

-- `status.in_(REFRESHABLE_STATUSES)`
abbrev pub is_refreshable : TaskStatus → Bool
is_refreshable done = true
is_refreshable failed = true
is_refreshable status = false

-- `status.in_([PENDING, FAILED])`
abbrev pub is_open : TaskStatus → Bool
is_open pending = true
is_open failed = true
is_open status = false

abbrev pub has_key : Key → Task → Bool
has_key key t = same_key t.key key

-- `UPDATE … SET … WHERE …`, and the number of rows that the condition picks
abbrev pub update_where : (Task → Bool) → (Task → Task) → List Task → List Task
update_where test f [] = []
update_where test f (t ∷ ts) = (if test t then f t else t) ∷ update_where test f ts

abbrev pub count_where : (Task → Bool) → List Task → ℕ
count_where test [] = 0
count_where test (t ∷ ts) = (if test t then 1 else 0) + count_where test ts

-- `insert_tasks`: ON CONFLICT DO NOTHING. Returns the number of rows inserted.
unfoldable pub insert_tasks : List Key → List Task → ℕ × List Task
insert_tasks [] tasks = (0, tasks)
insert_tasks (key ∷ rows) tasks =
    let known = any_of (has_key key) tasks in
    let (inserted, tasks') =
      insert_tasks rows (if known then tasks else tasks ++ new_task key ∷ []) in
    ((if known then 0 else 1) + inserted, tasks')

-- `insert_or_reset_tasks` for one row: ON CONFLICT DO UPDATE … WHERE the status is refreshable.
abbrev pub reset : Task → Task
reset t = record t { status = pending; attempts = 0; next_attempt_at = none; last_error = none }

abbrev pub is_reset_by : Key → Task → Bool
is_reset_by key t = has_key key t && is_refreshable t.status

unfoldable pub insert_or_reset : Key → List Task → List Task
insert_or_reset key tasks =
    if any_of (has_key key) tasks
    then update_where (is_reset_by key) reset tasks
    else tasks ++ new_task key ∷ []

-- Whether Postgres refuses the statement below: it comes a second time to a row that it has
-- inserted or updated.
abbrev pub is_refused : List Key → List Task → Bool
is_refused [] tasks = false
is_refused (key ∷ rows) tasks =
    any_of (λ k. same_key k key) rows
      && (any_of (is_reset_by key) tasks || (if any_of (has_key key) tasks then false else true))
    || is_refused rows tasks

-- The whole statement, with the numbers of rows inserted and reset, where it is not refused.
-- The jobs send it through `send_rows` of Ingestion/Discovery, which raises where it is.
unfoldable pub insert_or_reset_tasks : List Key → List Task → ℕ × ℕ × List Task
unfolding insert_or_reset
insert_or_reset_tasks [] tasks = (0, 0, tasks)
insert_or_reset_tasks (key ∷ rows) tasks =
    let (inserted, again, tasks') = insert_or_reset_tasks rows (insert_or_reset key tasks) in
    (
      (if any_of (has_key key) tasks then 0 else 1) + inserted,
      (if any_of (is_reset_by key) tasks then 1 else 0) + again,
      tasks',
    )

-- `count_by_status`: every state is present.
pub record Counts : Type 0 where
  pub pending_count : ℕ
  pub done_count : ℕ
  pub failed_count : ℕ
  pub dead_count : ℕ
  pub gone_count : ℕ

abbrev pub same_status : TaskStatus → TaskStatus → Bool
same_status pending pending = true
same_status done done = true
same_status failed failed = true
same_status dead dead = true
same_status gone gone = true
same_status s t = false

abbrev pub has_status : TaskStatus → Task → Bool
has_status status t = same_status t.status status

unfoldable pub count_by_status : List Task → Counts
count_by_status tasks = record {
  pending_count = count_where (has_status pending) tasks;
  done_count = count_where (has_status done) tasks;
  failed_count = count_where (has_status failed) tasks;
  dead_count = count_where (has_status dead) tasks;
  gone_count = count_where (has_status gone) tasks;
}

abbrev pub is_due : ℕ → Option ℕ → Bool
is_due now none = true
is_due now (some t) = leb t now

-- The WHERE clause of `claim_next`, and SKIP LOCKED: `locked` says which rows other sessions hold.
abbrev pub is_claimable : (Key → Bool) → ℕ → Task → Bool
is_claimable locked now t =
    is_open t.status && is_due now t.next_attempt_at && (if locked t.key then false else true)

abbrev pub earlier : Task → Option Task → Task
earlier t none = t
earlier t (some u) = if key_ltb u.key t.key then u else t

-- `claim_next`: ORDER BY mal_id, resource LIMIT 1
unfoldable pub claim_next : (Key → Bool) → ℕ → List Task → Option Task
claim_next locked now [] = none
claim_next locked now (t ∷ ts) =
    let best = claim_next locked now ts in
    if is_claimable locked now t then some (earlier t best) else best

-- `_set`: the rows with the task's key get new values.
abbrev pub set : Task → (Task → Task) → List Task → List Task
set task f = update_where (has_key task.key) f

unfoldable pub mark_done : Task → List Task → List Task
mark_done task =
    set task (λ (t : Task). record t { status = done; next_attempt_at = none; last_error = none })

unfoldable pub mark_gone : Task → List Task → List Task
mark_gone task = set task (λ (t : Task). record t { status = gone; next_attempt_at = none })

unfoldable pub mark_dead : Task → List Char → List Task → List Task
mark_dead task error = set task (λ (t : Task). record t {
  status = dead;
  attempts = task.attempts + 1;
  next_attempt_at = none;
  last_error = some (take last_error_max_chars error);
})

-- The delay before the next attempt, in seconds.
abbrev pub backoff : ℕ → ℕ
backoff attempts = min (backoff_base_seconds * 2 ^ attempts) backoff_cap_seconds

unfoldable pub mark_failed : ℕ → Task → List Char → List Task → List Task
mark_failed now task error =
    let attempts = task.attempts + 1 in
    let is_last = leb max_attempts attempts in
    set task (λ (t : Task). record t {
      status = if is_last then dead else failed;
      attempts = attempts;
      next_attempt_at = if is_last then none else some (now + seconds (backoff attempts));
      last_error = some (take last_error_max_chars error);
    })

abbrev pub is_refreshed : List ℕ → List Resource → Task → Bool
is_refreshed mal_ids resources t =
    any_of (λ m. m == t.key.mal_id) mal_ids
    && any_of (λ r. rank r == rank t.key.resource) resources
    && is_refreshable t.status

-- `reset_tasks`: returns the number of rows reset.
unfoldable pub reset_tasks : List ℕ → List Resource → List Task → ℕ × List Task
reset_tasks mal_ids resources tasks = (
  count_where (is_refreshed mal_ids resources) tasks,
  update_where (is_refreshed mal_ids resources) reset tasks,
)

unfoldable pub get_task : Key → List Task → Option Task
get_task key [] = none
get_task key (t ∷ ts) = if has_key key t then some t else get_task key ts

unfoldable pub delete_task : Task → List Task → List Task
delete_task task [] = []
delete_task task (t ∷ ts) =
    let rest = delete_task task ts in if has_key task.key t then rest else t ∷ rest
