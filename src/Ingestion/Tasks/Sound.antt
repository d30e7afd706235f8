-- ===== src/Ingestion/Tasks/Sound.antt =====
-- The invariant of the task table, and the methods on it.
use Prim.Native.Char.{Char}
use anime_app_backend.Prelude.{
  ℕ, zero, suc, ◌≤◌, ◌<◌, ◌≡◌, refl, Bool, true, false, Option, none, some, is_some, List, [], ◌∷◌,
  ◌++◌, arith, Bool-cases, inl, inr,
}
use anime_app_backend.Prelude.Lists.{take, length, any_of, All, All-append}
use anime_app_backend.Ingestion.Enums.{
  TaskStatus, pending, done, failed, dead, gone, Key, Resource, same_key_comm,
}
use anime_app_backend.Ingestion.Tasks.{
  Task, new_task, has_key, update_where, insert_tasks, reset, is_reset_by, insert_or_reset,
  insert_or_reset_tasks, is_open, mark_done, mark_gone, mark_dead, mark_failed, reset_tasks,
  is_refreshed,
}

-- What the status of a task says about its attempts and its next attempt.
abbrev pub Fits : TaskStatus → ℕ → Option ℕ → Type 0
Fits pending n next = (n ≡ 0) × (next ≡ none)
Fits failed n next = (1 ≤ n) × (n < 3) × (is_some next ≡ true)
Fits done n next = (n < 3) × (next ≡ none)
Fits gone n next = (n < 3) × (next ≡ none)
Fits dead n next = (1 ≤ n) × (n ≤ 3) × (next ≡ none)

abbrev pub error_size : Option (List Char) → ℕ
error_size none = 0
error_size (some text) = length text

pub record IsSound (t : Task) : Type 0 where
  pub fits : Fits t.status t.attempts t.next_attempt_at
  pub error_cut : error_size t.last_error ≤ 500

-- No two rows have one key.
abbrev pub Unique : List Task → Type 0
Unique [] = Unit
Unique (t ∷ ts) = (any_of (has_key t.key) ts ≡ false) × Unique ts

pub record IsTable (tasks : List Task) : Type 0 where
  pub sound : All IsSound tasks
  pub unique : Unique tasks

pub length-take : (n : ℕ) (text : List Char) → length (take n text) ≤ n
length-take zero text = omega arith
length-take (suc n) [] = omega arith
length-take (suc n) (c ∷ text) = omega (arith, length-take n text)

module _ (test : Task → Bool) (f : Task → Task) (keeps_key : (t : Task) → (f t).key ≡ t.key) where
  any-update_where :
      (key : Key) (ts : List Task)
      → any_of (has_key key) (update_where test f ts) ≡ any_of (has_key key) ts
  any-update_where key [] = refl
  any-update_where key (t ∷ ts) = ground (arith, keeps_key t, any-update_where key ts)

  update_where-Unique : (ts : List Task) → Unique ts → Unique (update_where test f ts)
  update_where-Unique [] u = tt
  update_where-Unique (t ∷ ts) u = (
    elim (Bool-cases (test t)) [
      | inl e ↦ rw (e, keeps_key t, any-update_where t.key ts) u.0
      | inr e ↦ rw (e, any-update_where t.key ts) u.0
    ],
    update_where-Unique ts u.1,
  )

  update_where-All :
      {P Q : Task → Type 0} (ts : List Task)
      → ((t : Task) → test t ≡ true → P t → Q (f t))
      → ((t : Task) → test t ≡ false → P t → Q t)
      → All P ts
      → All Q (update_where test f ts)
  update_where-All [] h k p = tt
  update_where-All (t ∷ ts) h k p = (
    elim (Bool-cases (test t)) [ inl e ↦ rw e (h t e p.0) | inr e ↦ rw e (k t e p.0) ],
    update_where-All ts h k p.1,
  )

any-append :
    (key : Key) (ts us : List Task)
    → any_of (has_key key) ts ≡ false
    → any_of (has_key key) us ≡ false
    → any_of (has_key key) (ts ++ us) ≡ false
any-append key [] us h k = k
any-append key (t ∷ ts) us h k = ground (arith, any-append key ts us)

append-Unique :
    (key : Key) (ts : List Task)
    → any_of (has_key key) ts ≡ false
    → Unique ts
    → Unique (ts ++ new_task key ∷ [])
append-Unique key [] h u = (refl, tt)
append-Unique key (t ∷ ts) h u = (
  any-append t.key ts (new_task key ∷ []) u.0 (ground (arith, same_key_comm key t.key)),
  append-Unique key ts (ground arith) u.1,
)

new_task-IsSound : (key : Key) → IsSound (new_task key)
new_task-IsSound key = ground arith

append-IsTable :
    (key : Key) (ts : List Task)
    → any_of (has_key key) ts ≡ false
    → IsTable ts
    → IsTable (ts ++ new_task key ∷ [])
append-IsTable key ts fresh h = record {
  sound = All-append IsSound ts _ h.sound (new_task-IsSound key, tt);
  unique = append-Unique key ts fresh h.unique;
}

pub insert_tasks-IsTable :
    (rows : List Key) (ts : List Task) → IsTable ts → IsTable (insert_tasks rows ts).1
unfolding insert_tasks
insert_tasks-IsTable [] ts h = h
insert_tasks-IsTable (key ∷ rows) ts h = elim (Bool-cases (any_of (has_key key) ts)) [
  | inl e ↦ rw e (insert_tasks-IsTable rows ts h)
  | inr e ↦ rw e (insert_tasks-IsTable rows (ts ++ new_task key ∷ []) (append-IsTable key ts e h))
]

reset-IsTable :
    (test : Task → Bool) (ts : List Task) → IsTable ts → IsTable (update_where test reset ts)
reset-IsTable test ts h = record {
  sound = update_where-All test reset (λ t. refl) ts (λ t e s. ground arith) (λ t e s. s) h.sound;
  unique = update_where-Unique test reset (λ t. refl) ts h.unique;
}

pub insert_or_reset-IsTable :
    (key : Key) (ts : List Task) → IsTable ts → IsTable (insert_or_reset key ts)
unfolding insert_or_reset
insert_or_reset-IsTable key ts h = elim (Bool-cases (any_of (has_key key) ts)) [
  | inl e ↦ rw e (reset-IsTable (is_reset_by key) ts h)
  | inr e ↦ rw e (append-IsTable key ts e h)
]

pub insert_or_reset_tasks-IsTable :
    (rows : List Key) (ts : List Task) → IsTable ts → IsTable (insert_or_reset_tasks rows ts).2
unfolding insert_or_reset_tasks
insert_or_reset_tasks-IsTable [] ts h = h
insert_or_reset_tasks-IsTable (key ∷ rows) ts h =
    insert_or_reset_tasks-IsTable rows (insert_or_reset key ts) (insert_or_reset-IsTable key ts h)

pub reset_tasks-IsTable :
    (mal_ids : List ℕ) (resources : List Resource) (ts : List Task)
    → IsTable ts
    → IsTable (reset_tasks mal_ids resources ts).1
unfolding reset_tasks
reset_tasks-IsTable mal_ids resources ts h = reset-IsTable (is_refreshed mal_ids resources) ts h

-- The task is what the table holds under its key: nobody else has changed it since it was read.
abbrev pub IsCurrent : Task → List Task → Type 0
IsCurrent task = All (λ t. has_key task.key t ≡ true → t ≡ task)

All-zip : (P Q : Task → Type 0) (ts : List Task) → All P ts → All Q ts → All (λ t. P t × Q t) ts
All-zip P Q [] p q = tt
All-zip P Q (t ∷ ts) p q = ((p.0, q.0), All-zip P Q ts p.1 q.1)

-- A claimed task may be marked: it is claimable, sound, and what the table holds.
pub record IsClaimed (task : Task) (ts : List Task) : Type 0 where
  pub open_status : is_open task.status ≡ true
  pub sound : IsSound task
  pub current : IsCurrent task ts

module _ (task : Task) (ts : List Task) (claimed : IsClaimed task ts) (h : IsTable ts) where
  set-IsTable :
      (f : Task → Task)
      → ((t : Task) → (f t).key ≡ t.key)
      → IsSound (f task)
      → IsTable (update_where (has_key task.key) f ts)
  set-IsTable f keeps_key result = record {
    sound =
        update_where-All (has_key task.key) f keeps_key ts (λ t e p. rw (p.1 e) result)
          (λ t e p. p.0)
          (All-zip IsSound (λ t. has_key task.key t ≡ true → t ≡ task) ts h.sound claimed.current);
    unique = update_where-Unique (has_key task.key) f keeps_key ts h.unique;
  }

  attempts_left : task.attempts < 3
  attempts_left = ground (arith, claimed.open_status, claimed.sound.fits)

  pub mark_done-IsTable : IsTable (mark_done task ts)
  unfolding mark_done
  mark_done-IsTable = set-IsTable _ (λ t. refl) (ground (arith, attempts_left))

  pub mark_gone-IsTable : IsTable (mark_gone task ts)
  unfolding mark_gone
  mark_gone-IsTable =
      set-IsTable _ (λ t. refl) (ground (arith, attempts_left, claimed.sound.error_cut))

  pub mark_dead-IsTable : (error : List Char) → IsTable (mark_dead task error ts)
  unfolding mark_dead
  mark_dead-IsTable error =
      set-IsTable _ (λ t. refl) (ground (arith, attempts_left, length-take 500 error))

  -- `mark_failed`, on a task that was claimed from a sound table, leaves a sound table: no key
  -- twice, no attempts for a pending task, one or two and a next time for a failed one, one to
  -- three and no next time for a dead one, and error texts of at most 500 characters.
  pub mark_failed-IsTable : (now : ℕ) (error : List Char) → IsTable (mark_failed now task error ts)
  unfolding mark_failed
  mark_failed-IsTable now error =
      set-IsTable _ (λ t. refl) (ground (arith, attempts_left, length-take 500 error))
