-- ===== src/Ingestion/Tasks/Refresh.antt =====
-- `insert_tasks` and `insert_or_reset_tasks` against a description by key: what each statement
-- makes of the task with a given key, and what it counts.
use anime_app_backend.Prelude.{
  ℕ, ◌+◌, ◌≡◌, ◌≢◌, refl, Bool, true, false, Option, none, some, List, [], ◌∷◌, ◌++◌, arith,
  if◌then◌else◌, Bool-cases, inl, inr,
}
use anime_app_backend.Prelude.Lists.{any_of}
use anime_app_backend.Ingestion.Tasks.Sound.{IsTable, Unique, insert_or_reset-IsTable}
use anime_app_backend.Ingestion.Enums.{
  TaskStatus, pending, done, failed, dead, gone, Key, same_key, same_key_comm, eq_of_same_key,
  same_key_refl,
}
use anime_app_backend.Ingestion.Tasks.{
  Task, new_task, has_key, update_where, reset, is_reset_by, insert_tasks, insert_or_reset,
  insert_or_reset_tasks, get_task,
}

-- The statuses that a refresh opens again.
abbrev pub is_settled : TaskStatus → Bool
is_settled pending = false
is_settled done = true
is_settled failed = true
is_settled dead = false
is_settled gone = false

-- A task that no attempt was made for.
abbrev pub reopened : Key → Task
reopened key = record {
  key = key;
  status = pending;
  attempts = 0;
  next_attempt_at = none;
  last_error = none;
}

-- What a discovery run makes of a task, and what a refresh makes of it.
abbrev pub discovered : Key → Option Task → Option Task
discovered key none = some (new_task key)
discovered key (some t) = some t

abbrev pub refreshed : Key → Option Task → Option Task
refreshed key none = some (new_task key)
refreshed key (some t) = some (if is_settled t.status then reopened t.key else t)

abbrev pub listed : Key → List Key → Bool
listed key = any_of (λ k. same_key k key)

-- No key is in the rows twice.
abbrev pub Distinct : List Key → Type 0
Distinct [] = Unit
Distinct (k ∷ rows) = (listed k rows ≡ false) × Distinct rows

get-append :
    (key k : Key) (ts : List Task)
    → any_of (has_key k) ts ≡ false
    → get_task key (ts ++ new_task k ∷ [])
      ≡ (if same_key k key then some (new_task key) else get_task key ts)
unfolding get_task
get-append key k [] h = ground (arith, eq_of_same_key k key)
get-append key k (t ∷ ts) h = ground (
  arith,
  get-append key k ts,
  eq_of_same_key t.key key,
  eq_of_same_key k key,
  same_key_comm t.key k,
  same_key_comm k key,
)

get-known : (key : Key) (ts : List Task) → any_of (has_key key) ts ≡ true → get_task key ts ≢ none
unfolding get_task
get-known key [] h e = cc
get-known key (t ∷ ts) h e = ground (arith, get-known key ts)

get-unknown :
    (key : Key) (ts : List Task) → any_of (has_key key) ts ≡ false → get_task key ts ≡ none
unfolding get_task
get-unknown key [] h = refl
get-unknown key (t ∷ ts) h = ground (arith, get-unknown key ts)

-- One row of `insert_tasks`.
get-insert_one :
    (key k : Key) (ts : List Task)
    → get_task key (if any_of (has_key k) ts then ts else ts ++ new_task k ∷ [])
      ≡ (if same_key k key then discovered key (get_task key ts) else get_task key ts)
get-insert_one key k ts = elim (Bool-cases (any_of (has_key k) ts)) [
  | inl e ↦ rw e (ground (arith, get-known k ts e, eq_of_same_key k key))
  | inr e ↦ rw e (ground (arith, get-append key k ts, get-unknown k ts e, eq_of_same_key k key))
]

discovered-discovered :
    (key : Key) (o : Option Task) → discovered key (discovered key o) ≡ discovered key o
discovered-discovered key none = refl
discovered-discovered key (some t) = refl

-- After `insert_tasks` every listed key has a task, a new pending one where it had none, and
-- every other task is as it was.
pub get-insert_tasks :
    (key : Key) (rows : List Key) (ts : List Task)
    → get_task key (insert_tasks rows ts).1
      ≡ (if listed key rows then discovered key (get_task key ts) else get_task key ts)
unfolding insert_tasks
get-insert_tasks key [] ts = refl
get-insert_tasks key (k ∷ rows) ts = ground (
  arith,
  get-insert_tasks key rows (if any_of (has_key k) ts then ts else ts ++ new_task k ∷ []),
  get-insert_one key k ts,
  discovered-discovered key (get_task key ts),
)

abbrev reset_if_done : Option Task → Option Task
reset_if_done none = none
reset_if_done (some t) = some (if is_settled t.status then reset t else t)

get-update :
    (key k : Key) (ts : List Task)
    → get_task key (update_where (is_reset_by k) reset ts)
      ≡ (if same_key k key then reset_if_done (get_task key ts) else get_task key ts)
unfolding get_task
get-update key k [] = ground arith
get-update key k (t ∷ ts) = ground (
  arith,
  get-update key k ts,
  eq_of_same_key t.key key,
  eq_of_same_key k key,
  eq_of_same_key t.key k,
  same_key_refl k,
)

get-insert_or_reset :
    (key k : Key) (ts : List Task)
    → get_task key (insert_or_reset k ts)
      ≡ (if same_key k key then refreshed key (get_task key ts) else get_task key ts)
unfolding insert_or_reset
get-insert_or_reset key k ts = elim (Bool-cases (any_of (has_key k) ts)) [
  | inl e ↦ rw e (ground (arith, get-update key k ts, get-known k ts e, eq_of_same_key k key))
  | inr e ↦ rw e (ground (arith, get-append key k ts, get-unknown k ts e, eq_of_same_key k key))
]

refreshed-refreshed :
    (key : Key) (o : Option Task) → refreshed key (refreshed key o) ≡ refreshed key o
refreshed-refreshed key none = refl
refreshed-refreshed key (some t) = ground arith

-- After `insert_or_reset_tasks`, for rows with no key twice, every listed key has a task: a new one where it had none, the
-- old one back at pending, with no attempts, next time or error, where it was done or failed,
-- and the old one as it was where it was pending, dead or gone. No other task changes.
pub get-insert_or_reset_tasks :
    (key : Key) (rows : List Key) (ts : List Task)
    → Distinct rows
    → get_task key (insert_or_reset_tasks rows ts).2
      ≡ (if listed key rows then refreshed key (get_task key ts) else get_task key ts)
unfolding insert_or_reset_tasks
get-insert_or_reset_tasks key [] ts d = refl
get-insert_or_reset_tasks key (k ∷ rows) ts d = ground (
  arith,
  get-insert_or_reset_tasks key rows (insert_or_reset k ts) d.1,
  get-insert_or_reset key k ts,
  refreshed-refreshed key (get_task key ts),
)

-- How many of the rows have no task yet, and how many have one that is done or failed.
abbrev pub is_missing : Option Task → Bool
is_missing none = true
is_missing (some t) = false

abbrev pub is_finished : Option Task → Bool
is_finished none = false
is_finished (some t) = is_settled t.status

abbrev pub count_keys : (Option Task → Bool) → List Key → List Task → ℕ
count_keys test [] ts = 0
count_keys test (k ∷ rows) ts = (if test (get_task k ts) then 1 else 0) + count_keys test rows ts

count-insert_or_reset :
    (test : Option Task → Bool) (k : Key) (rows : List Key) (ts : List Task)
    → listed k rows ≡ false
    → count_keys test rows (insert_or_reset k ts) ≡ count_keys test rows ts
count-insert_or_reset test k [] ts h = refl
count-insert_or_reset test k (j ∷ rows) ts h =
    ground
      (arith, count-insert_or_reset test k rows ts, get-insert_or_reset j k ts, same_key_comm j k)

any-missing :
    (k : Key) (ts : List Task)
    → any_of (has_key k) ts ≡ (if is_missing (get_task k ts) then false else true)
unfolding get_task
any-missing k [] = refl
any-missing k (t ∷ ts) = ground (arith, any-missing k ts)

any-finished :
    (k : Key) (ts : List Task) → Unique ts → any_of (is_reset_by k) ts ≡ is_finished (get_task k ts)
unfolding get_task
any-finished k [] u = refl
any-finished k (t ∷ ts) u =
    ground (arith, any-finished k ts u.1, u.0, eq_of_same_key t.key k, any-missing k ts)

-- The numbers that `insert_or_reset_tasks` returns, for rows with no key twice and a sound table:
-- how many of the keys had no task, and how many had one that was done or failed.
pub counts-insert_or_reset_tasks :
    (rows : List Key) (ts : List Task)
    → Distinct rows
    → IsTable ts
    → let (inserted, again, ts') = insert_or_reset_tasks rows ts in
      (inserted ≡ count_keys is_missing rows ts) × (again ≡ count_keys is_finished rows ts)
unfolding insert_or_reset_tasks
counts-insert_or_reset_tasks [] ts d h = (refl, refl)
counts-insert_or_reset_tasks (k ∷ rows) ts d h =
    let (ih₀, ih₁) =
      counts-insert_or_reset_tasks rows (insert_or_reset k ts) d.1
        (insert_or_reset-IsTable k ts h) in
    (
      ground (arith, ih₀, count-insert_or_reset is_missing k rows ts d.0, any-missing k ts),
      ground
          (arith, ih₁, count-insert_or_reset is_finished k rows ts d.0, any-finished k ts h.unique),
    )
