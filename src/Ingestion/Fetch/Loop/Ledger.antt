-- ===== src/Ingestion/Fetch/Loop/Ledger.antt =====
-- The summary of a run against the task table: what the outcomes that it counts have made of the
-- tasks.
use Prim.Native.Char.{Char}
use anime_app_backend.Prelude.{
  ℕ, ◌+◌, ◌≤◌, ◌≡◌, refl, Bool, some, List, [], ◌∷◌, arith, if◌then◌else◌, subst, sym,
}
use anime_app_backend.Ingestion.Enums.{Key, TaskStatus, pending, done, failed, dead, gone}
use anime_app_backend.Ingestion.Tasks.{
  Task, has_key, update_where, count_where, has_status, claim_next, mark_done, mark_gone, mark_dead,
  mark_failed,
}
use anime_app_backend.Ingestion.Tasks.Sound.{IsTable}
use anime_app_backend.Ingestion.Tasks.Claim.{claim_next-IsClaimed, claim_next-Among}
use anime_app_backend.Ingestion.Tasks.Budget.{total, total-update}
use anime_app_backend.Ingestion.Fetch.{Summary, TaskOutcome}
use anime_app_backend.Ingestion.Fetch.Outcome.{Marked}
use anime_app_backend.Ingestion.Fetch.Loop.{one_if, status_is, record_outcome}

-- The failed attempts that a table holds.
abbrev pub attempts_made : List Task → ℕ
attempts_made = total (λ t. t.attempts)

abbrev pub how_many : TaskStatus → List Task → ℕ
how_many status = count_where (has_status status)

-- From `ts` to `ts'` as many tasks are newly done and gone as the summary counts, as many attempts
-- have failed as it counts failed and dead tasks, and at least as many tasks are newly dead.
pub record Ledger (ts ts' : List Task) (s : Summary) : Type 0 where
  pub done_tasks : how_many done ts' ≡ how_many done ts + s.done_count
  pub gone_tasks : how_many gone ts' ≡ how_many gone ts + s.gone_count
  pub dead_tasks : how_many dead ts + s.dead_count ≤ how_many dead ts'
  pub attempts : attempts_made ts' ≡ attempts_made ts + s.failed_count + s.dead_count

-- The same for one outcome.
pub record Moved (status : TaskStatus) (ts ts' : List Task) : Type 0 where
  pub done_tasks : how_many done ts' ≡ how_many done ts + one_if (status_is status done)
  pub gone_tasks : how_many gone ts' ≡ how_many gone ts + one_if (status_is status gone)
  pub dead_tasks : how_many dead ts + one_if (status_is status dead) ≤ how_many dead ts'
  pub attempts :
      attempts_made ts'
      ≡ attempts_made ts + one_if (status_is status failed) + one_if (status_is status dead)

pub Ledger-Moved :
    (ts ts' ts'' : List Task) (o : TaskOutcome) (s : Summary)
    → Ledger ts ts' s
    → Moved o.status ts' ts''
    → Ledger ts ts'' (record_outcome o s)
unfolding record_outcome
Ledger-Moved ts ts' ts'' o s l m = record {
  done_tasks = omega (arith, l.done_tasks, m.done_tasks);
  gone_tasks = omega (arith, l.gone_tasks, m.gone_tasks);
  dead_tasks = omega (arith, l.dead_tasks, m.dead_tasks);
  attempts = omega (arith, l.attempts, m.attempts);
}

one : (Task → Bool) → Task → ℕ
one test t = if test t then 1 else 0

count_where-total :
    (test : Task → Bool) (ts : List Task) → count_where test ts ≡ total (one test) ts
unfolding one
count_where-total test [] = refl
count_where-total test (t ∷ ts) = omega (arith, count_where-total test ts)

module _ (locked : Key → Bool) (now : ℕ) (ts : List Task) {task : Task} (h : IsTable ts)
    (claimed : claim_next locked now ts ≡ some task) where
  count-update :
      (test : Task → Bool) (f : Task → Task)
      → count_where test (update_where (has_key task.key) f ts) + one test task
        ≡ count_where test ts + one test (f task)
  count-update test f = omega (
    arith,
    count_where-total test ts,
    count_where-total test (update_where (has_key task.key) f ts),
    total-update (one test) task f ts h.unique (claim_next-Among locked now ts claimed),
  )

  Moved-intro :
      (status : TaskStatus) (f : Task → Task)
      → one (has_status done) (f task) ≡ one_if (status_is status done)
      → one (has_status gone) (f task) ≡ one_if (status_is status gone)
      → one_if (status_is status dead) ≤ one (has_status dead) (f task)
      → (f task).attempts
        ≡ task.attempts + one_if (status_is status failed) + one_if (status_is status dead)
      → Moved status ts (update_where (has_key task.key) f ts)
  unfolding one
  Moved-intro status f d g x n =
      let c = claim_next-IsClaimed locked now ts h claimed in
      record {
        done_tasks = ground (arith, d, c.open_status, count-update (has_status done) f);
        gone_tasks = ground (arith, g, c.open_status, count-update (has_status gone) f);
        dead_tasks = ground (arith, x, c.open_status, count-update (has_status dead) f);
        attempts = omega (
          arith,
          n,
          total-update (λ t. t.attempts) task f ts h.unique
              (claim_next-Among locked now ts claimed),
        );
      }

  mark_done-Moved : Moved done ts (mark_done task ts)
  unfolding mark_done one
  mark_done-Moved = Moved-intro done _ refl refl (omega arith) (omega arith)

  mark_gone-Moved : Moved gone ts (mark_gone task ts)
  unfolding mark_gone one
  mark_gone-Moved = Moved-intro gone _ refl refl (omega arith) (omega arith)

  mark_dead-Moved : (error : List Char) → Moved dead ts (mark_dead task error ts)
  unfolding mark_dead one
  mark_dead-Moved error = Moved-intro dead _ refl refl (omega arith) (omega arith)

  mark_failed-Moved : (at : ℕ) (error : List Char) → Moved failed ts (mark_failed at task error ts)
  unfolding mark_failed one
  mark_failed-Moved at error =
      Moved-intro failed _ (ground arith) (ground arith) (omega arith) (omega arith)

  -- A claimed task that is marked.
  pub Marked-Moved :
      (status : TaskStatus) (ts' : List Task) → Marked task ts status ts' → Moved status ts ts'
  Marked-Moved pending ts' m = elim m [ ]
  Marked-Moved done ts' m = subst (Moved done ts) (sym m) mark_done-Moved
  Marked-Moved gone ts' m = subst (Moved gone ts) (sym m) mark_gone-Moved
  Marked-Moved dead ts' (error, m) = subst (Moved dead ts) (sym m) (mark_dead-Moved error)
  Marked-Moved failed ts' (at, error, m) =
      subst (Moved failed ts) (sym m) (mark_failed-Moved at error)
