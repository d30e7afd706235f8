-- ===== src/Ingestion/Fetch/Loop/Ends.antt =====
-- The loop of a run: it ends within the attempts that the tasks have left, and its summary
-- accounts for every task.
use anime_app_backend.Prelude.{
  ℕ, zero, suc, ◌+◌, ◌≤◌, ◌<◌, ◌≡◌, ◌≢◌, refl, sym, ap, Bool, true, false, Option, none, some, List,
  [], ◌∷◌, arith, leb, subst,
}
use anime_app_backend.Exec.{continue, raise_if}
use anime_app_backend.Exec.Post.{Post, continue-Post, Post-mono}
use anime_app_backend.Ingestion.Enums.{Key, Resource, TaskStatus, pending, done, failed, dead, gone}
use anime_app_backend.Ingestion.Errors.{Exc, repeated_unexpected, access_denied}
use anime_app_backend.Ingestion.Runtime.{Outside}
use anime_app_backend.Ingestion.Tasks.{Task, claim_next}
use anime_app_backend.Ingestion.Tasks.Sound.{
  IsTable, mark_done-IsTable, mark_gone-IsTable, mark_dead-IsTable, mark_failed-IsTable,
}
use anime_app_backend.Ingestion.Tasks.Claim.{claim_next-IsClaimed}
use anime_app_backend.Ingestion.Tasks.Budget.{
  budget, mark_done-lt, mark_gone-lt, mark_dead-lt, mark_failed-lt,
}
use anime_app_backend.Ingestion.World.{Session, Database}
use anime_app_backend.Ingestion.Fetch.{
  State, Job, Vars, Summary, Bucket, TaskOutcome, fetch_job_from_tasks,
}
use anime_app_backend.Ingestion.Fetch.Outcome.{Marked, Saves, fetch_job_from_tasks-Saves}
use anime_app_backend.Ingestion.Fetch.Loop.Ledger.{Ledger, Ledger-Moved, Marked-Moved}
use anime_app_backend.Ingestion.Fetch.Loop.{turn, task_loop, record_outcome, bump, with_counters}

-- Marking a claimed task keeps the table sound and uses up attempts.
pub Marked-lt :
    (locked : Key → Bool) (now : ℕ) (ts : List Task) {task : Task} {ts' : List Task}
    (status : TaskStatus)
    → IsTable ts
    → claim_next locked now ts ≡ some task
    → Marked task ts status ts'
    → IsTable ts' × (budget ts' < budget ts)
Marked-lt locked now ts pending h c m = elim m [ ]
Marked-lt locked now ts {task} done h c m = rw m (
  mark_done-IsTable task ts (claim_next-IsClaimed locked now ts h c) h,
  mark_done-lt locked now ts h c,
)
Marked-lt locked now ts {task} gone h c m = rw m (
  mark_gone-IsTable task ts (claim_next-IsClaimed locked now ts h c) h,
  mark_gone-lt locked now ts h c,
)
Marked-lt locked now ts {task} dead h c (error, m) = rw m (
  mark_dead-IsTable task ts (claim_next-IsClaimed locked now ts h c) h error,
  mark_dead-lt locked now ts h c error,
)
Marked-lt locked now ts {task} failed h c (at, error, m) = rw m (
  mark_failed-IsTable task ts (claim_next-IsClaimed locked now ts h c) h at error,
  mark_failed-lt locked now ts h c at error,
)

abbrev pub bucket_sum : List Bucket → ℕ
bucket_sum [] = 0
bucket_sum (b ∷ bs) = b.count + bucket_sum bs

-- Every task of the summary is counted once by what became of it, and once by its resource.
pub record IsAccounted (s : Summary) : Type 0 where
  pub by_status : s.tasks ≡ s.done_count + s.failed_count + s.dead_count + s.gone_count
  pub by_bucket : s.tasks ≡ bucket_sum s.by_resource
  pub first_tries : s.done_first_try ≤ s.first_try_tasks
  pub done_first_tries : s.done_first_try ≤ s.done_count

bucket_sum-bump : (r : Resource) (bs : List Bucket) → bucket_sum (bump r bs) ≡ bucket_sum bs + 1
bucket_sum-bump r [] = refl
bucket_sum-bump r (b ∷ bs) = ground (arith, bucket_sum-bump r bs)

record_outcome-IsAccounted :
    (o : TaskOutcome) (s : Summary)
    → o.status ≢ pending
    → IsAccounted s
    → IsAccounted (record_outcome o s)
unfolding record_outcome
record_outcome-IsAccounted o s known h = ground (arith, bucket_sum-bump o.resource s.by_resource)

-- The run that began with the tasks `ts`, as it stands between two turns of the loop.
pub record IsRunning (ts : List Task) (w : State) : Type 0 where
  pub synced : w.work.saved ≡ w.work.seen
  pub ledger : Ledger ts w.work.saved.tasks w.vars.summary
  pub table : IsTable w.work.seen.tasks
  pub accounted : IsAccounted w.vars.summary
  pub few_unexpected : w.vars.unexpected_in_a_row < 10
  pub few_denied : w.vars.denied_in_a_row < 5

not_pending :
    (task : Task) (ts : List Task) (status : TaskStatus) (ts' : List Task)
    → Marked task ts status ts'
    → status ≢ pending
not_pending task ts pending ts' m e = m
not_pending task ts done ts' m e = cc
not_pending task ts failed ts' m e = cc
not_pending task ts dead ts' m e = cc
not_pending task ts gone ts' m e = cc

-- What a loop with enough fuel leaves when it returns: the queue was found empty.
abbrev pub Emptied : List Task → Bool → State → Type 0
Emptied ts emptied w =
    (emptied ≡ true)
    × Ledger ts w.work.saved.tasks w.vars.summary
    × IsAccounted w.vars.summary
    × (w.vars.unexpected_in_a_row < 10)
    × (w.vars.denied_in_a_row < 5)

module _ (out : Outside) (ts : List Task) where
  denied_check-Post :
      (rest : Job Bool) (e : Exc) (w : State) (c : Bool)
      → leb 5 w.vars.denied_in_a_row ≡ c
      → IsAccounted w.vars.summary
      → (w.vars.denied_in_a_row < 5
          → Post (Emptied ts) (λ _ w'. IsAccounted w'.vars.summary) (rest w))
      → Post
          (Emptied ts)
          (λ _ w'. IsAccounted w'.vars.summary)
          (continue (raise_if c e w) (λ _. rest))
  denied_check-Post rest e w true q acc next = acc
  denied_check-Post rest e w false q acc next = next (ground arith)

  checks-Post :
      (rest : Job Bool) (e e' : Exc) (w : State) (b : Bool)
      → leb 10 w.vars.unexpected_in_a_row ≡ b
      → w.work.saved ≡ w.work.seen
      → Ledger ts w.work.saved.tasks w.vars.summary
      → IsTable w.work.seen.tasks
      → IsAccounted w.vars.summary
      → (IsRunning ts w → Post (Emptied ts) (λ _ w'. IsAccounted w'.vars.summary) (rest w))
      → Post
          (Emptied ts)
          (λ _ w'. IsAccounted w'.vars.summary)
          (continue
            (raise_if b e w)
            (λ _ w'. continue (raise_if (leb 5 w'.vars.denied_in_a_row) e' w') (λ _. rest)))
  checks-Post rest e e' w true p synced ledger table acc next = acc
  checks-Post rest e e' w false p synced ledger table acc next =
      denied_check-Post rest e' w _ refl acc (λ few. next (record {
        synced = synced;
        ledger = ledger;
        table = table;
        accounted = acc;
        few_unexpected = ground arith;
        few_denied = few;
      }))

  turn-Post :
      (rest : Job Bool) (o : TaskOutcome) (w : State)
      → w.work.saved ≡ w.work.seen
      → Ledger ts w.work.saved.tasks (record_outcome o w.vars.summary)
      → IsTable w.work.seen.tasks
      → IsAccounted w.vars.summary
      → o.status ≢ pending
      → ((w' : State)
          → IsRunning ts w'
          → w'.work ≡ w.work
          → Post (Emptied ts) (λ _ w'. IsAccounted w'.vars.summary) (rest w'))
      → Post (Emptied ts) (λ _ w'. IsAccounted w'.vars.summary) (turn out rest (some o) w)
  unfolding turn
  turn-Post rest o w synced ledger table acc known next =
      let acc' = record_outcome-IsAccounted o w.vars.summary known acc in
      let w₁ : State = record w {
        vars = record w.vars { summary = with_counters w (record_outcome o w.vars.summary) };
      } in
      checks-Post rest (repeated_unexpected w.vars.unexpected_in_a_row) (access_denied none) w₁ _
        refl synced
        (record {
          done_tasks = ledger.done_tasks;
          gone_tasks = ledger.gone_tasks;
          dead_tasks = ledger.dead_tasks;
          attempts = ledger.attempts;
        })
        table
        (record {
          by_status = acc'.by_status;
          by_bucket = acc'.by_bucket;
          first_tries = acc'.first_tries;
          done_first_tries = acc'.done_first_tries;
        })
        (λ running. next w₁ running refl)

  -- From a sound table, with nothing unsaved and a summary that accounts for what was done so far,
  -- a loop with more fuel than the tasks have attempts left does not run out of it: it returns with
  -- the queue found empty, or it raises. Either way the summary accounts for every task; where it
  -- returns, it agrees with what became of the tasks. Where it returns, fewer than 10 unexpected
  -- errors and fewer than 5 refusals of access stand in a row.
  pub task_loop-Post :
      (fuel : ℕ) (w : State)
      → IsRunning ts w
      → budget w.work.seen.tasks < fuel
      → Post (Emptied ts) (λ _ w'. IsAccounted w'.vars.summary) (task_loop out fuel w)
  unfolding task_loop turn
  task_loop-Post zero w h less = absurd (omega arith)
  task_loop-Post (suc fuel) w h less =
      continue-Post (Saves out w) _ _ (fetch_job_from_tasks out w) (turn out (task_loop out fuel))
        (Post-mono _ _ _ _ (fetch_job_from_tasks out w) (fetch_job_from_tasks-Saves out w)
          (λ _ w' q. q) (λ _ w' x. subst IsAccounted (sym x.1) h.accounted))
        (go (task_loop-Post fuel))
    where
      go :
          ((w' : State)
            → IsRunning ts w'
            → budget w'.work.seen.tasks < fuel
            → Post (Emptied ts) (λ _ w''. IsAccounted w''.vars.summary) (task_loop out fuel w'))
          → (o : Option TaskOutcome) (w' : State) → Saves out w o w'
          → Post
              (Emptied ts)
              (λ _ w''. IsAccounted w''.vars.summary)
              (turn out (task_loop out fuel) o w')
      go ih none w' q =
          let t =
            subst
              (λ (v : Vars).
                Ledger ts w.work.saved.tasks v.summary
                × IsAccounted v.summary
                × (v.unexpected_in_a_row < 10)
                × (v.denied_in_a_row < 5))
              (sym q.1) (h.ledger, h.accounted, h.few_unexpected, h.few_denied) in
          (
            refl,
            subst (λ (d : Database). Ledger ts d.tasks w'.vars.summary) (sym q.0) t.0,
            t.1,
            t.2,
            t.3,
          )
      go ih (some o) w' (task, now, claimed, saved, marked, kept) =
          let (table, shorter) =
            Marked-lt (out.locked now) (out.utc now) w.work.seen.tasks o.status h.table claimed
              marked in
          let moved =
            Marked-Moved (out.locked now) (out.utc now) w.work.seen.tasks h.table claimed o.status
              w'.work.saved.tasks marked in
          let before : Ledger ts w.work.seen.tasks w.vars.summary =
            subst (λ (d : Database). Ledger ts d.tasks w.vars.summary) h.synced h.ledger in
          let after : Ledger ts w'.work.saved.tasks (record_outcome o w.vars.summary) =
            Ledger-Moved ts w.work.seen.tasks w'.work.saved.tasks o w.vars.summary before moved in
          turn-Post (task_loop out fuel) o w' saved
            (subst (λ (x : Summary). Ledger ts w'.work.saved.tasks (record_outcome o x)) (sym kept)
              after)
            (subst (λ (d : Database). IsTable d.tasks) saved table)
            (subst IsAccounted (sym kept) h.accounted)
            (not_pending task w.work.seen.tasks o.status w'.work.saved.tasks marked)
            (λ w'' running same. ih w'' running (
              omega (
                arith,
                shorter,
                ap (λ (x : Session Database). budget x.seen.tasks) same,
                ap (λ (d : Database). budget d.tasks) saved,
              )))
