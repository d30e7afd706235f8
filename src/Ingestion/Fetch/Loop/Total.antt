-- ===== src/Ingestion/Fetch/Loop/Total.antt =====
-- A whole run of `fetch_from_tasks`, from its record in `ingestion_run` to its summary.
use anime_app_backend.Prelude.{
  ℕ, ◌<◌, ◌≡◌, refl, sym, ◌∙◌, Bool, true, false, Option, none, some, List, arith, subst,
}
use anime_app_backend.Exec.{recover}
use anime_app_backend.Exec.Post.{any-Post, Post, continue-Post, recover-Post, Post-mono}
use anime_app_backend.Ingestion.Enums.{RunStatus, succeeded}
use anime_app_backend.Ingestion.Errors.{Exc}
use anime_app_backend.Ingestion.Runtime.{Outside}
use anime_app_backend.Ingestion.Tasks.{Task, Counts}
use anime_app_backend.Ingestion.Tasks.Sound.{IsTable}
use anime_app_backend.Ingestion.Tasks.Budget.{budget}
use anime_app_backend.Ingestion.World.{Session, Database, query, query_runs, commit_runs}
use anime_app_backend.Ingestion.Fetch.{State, Vars, Summary}
use anime_app_backend.Ingestion.Fetch.Loop.{
  empty_summary, start_vars, with_counters, task_loop, queue_counts, record_run, start_run, stop,
  complete, complete_if, fetch_from_tasks,
}
use anime_app_backend.Ingestion.Fetch.Loop.Ledger.{Ledger}
use anime_app_backend.Ingestion.Fetch.Loop.Ends.{IsAccounted, IsRunning, Emptied, task_loop-Post}

module _ (out : Outside) where
  start_run-Post :
      (w : State)
      → Post (λ _ w'. (w'.work ≡ w.work) × (w'.vars ≡ w.vars)) (λ _ _. Unit {0}) (start_run out w)
  unfolding start_run query_runs
  start_run-Post w = ground arith

  commit_runs-Post :
      (w : State)
      → Post (λ _ w'. (w'.work ≡ w.work) × (w'.vars ≡ w.vars)) (λ _ _. Unit {0}) (commit_runs out w)
  unfolding commit_runs
  commit_runs-Post w = ground arith

  -- The handler of an exception raises it again, or another one.
  stop-Post :
      (ts : List Task) (run_id : ℕ) (e : Exc) (w : State)
      → Post (Emptied ts) (λ _ _. Unit {0}) (stop out run_id e w)
  unfolding stop
  stop-Post ts run_id e w =
      continue-Post (λ _ _. Unit {0}) _ _ (queue_counts out w) _ (any-Post (queue_counts out w))
        (λ counts w₁ _.
          continue-Post (λ _ _. Unit {0}) _ _
            (record_run out run_id RunStatus.failed
              (record (with_counters w₁ w₁.vars.summary) {
                stopped_by = some e;
                queue_after = counts;
              })
              (some e) w₁)
            _
            (any-Post (
              record_run out run_id RunStatus.failed
                (record (with_counters w₁ w₁.vars.summary) {
                  stopped_by = some e;
                  queue_after = counts;
                })
                (some e) w₁))
            (λ _ w₂ _. tt))

  queue_counts-Post :
      (w : State)
      → Post
          (λ _ w'. (w'.work.saved ≡ w.work.saved) × (w'.vars ≡ w.vars))
          (λ _ _. Unit {0})
          (queue_counts out w)
  unfolding queue_counts query
  queue_counts-Post w = ground arith

  record_run-Post :
      (id : ℕ) (status : RunStatus) (s : Summary) (e : Option Exc) (w : State)
      → Post (λ _ w'. w'.work ≡ w.work) (λ _ _. Unit {0}) (record_run out id status s e w)
  unfolding record_run query_runs commit_runs
  record_run-Post id status s e w = ground arith

  -- The summary of a run that began with the tasks `ts` and was not stopped.
  abbrev pub Completes : List Task → Option Summary → State → Type 0
  Completes ts r w =
      (s : Summary) × (r ≡ some s)
      × Ledger ts w.work.saved.tasks s
      × IsAccounted s
      × (s.stopped_by ≡ none)

  counters-IsAccounted :
      (w : State) (s : Summary) (counts : Option Counts)
      → IsAccounted s
      → IsAccounted (record (with_counters w s) { stopped_by = none; queue_after = counts })
  counters-IsAccounted w s counts h = record {
    by_status = h.by_status;
    by_bucket = h.by_bucket;
    first_tries = h.first_tries;
    done_first_tries = h.done_first_tries;
  }

  counters-Ledger :
      (ts ts' : List Task) (w : State) (s : Summary) (counts : Option Counts)
      → Ledger ts ts' s
      → Ledger ts ts' (record (with_counters w s) { stopped_by = none; queue_after = counts })
  counters-Ledger ts ts' w s counts l = record {
    done_tasks = l.done_tasks;
    gone_tasks = l.gone_tasks;
    dead_tasks = l.dead_tasks;
    attempts = l.attempts;
  }

  abbrev Sums : List Task → Summary → State → Type 0
  Sums ts s w = Ledger ts w.work.saved.tasks s × IsAccounted s × (s.stopped_by ≡ none)

  complete-Post :
      (ts : List Task) (run_id : ℕ) (w : State)
      → Ledger ts w.work.saved.tasks w.vars.summary
      → IsAccounted w.vars.summary
      → Post (Sums ts) (λ _ _. Unit {0}) (complete out run_id w)
  unfolding complete
  complete-Post ts run_id w l h =
      continue-Post (λ _ w'. (w'.work.saved ≡ w.work.saved) × (w'.vars ≡ w.vars)) _ _
        (queue_counts out w) _ (queue_counts-Post w)
        (λ counts w₁ kept.
          let summary : Summary = record (with_counters w₁ w₁.vars.summary) {
            stopped_by = none;
            queue_after = counts;
          } in
          let ledger : Ledger ts w₁.work.saved.tasks w₁.vars.summary =
            subst (λ (v : Vars). Ledger ts w₁.work.saved.tasks v.summary) (sym kept.1)
              (subst (λ (d : Database). Ledger ts d.tasks w.vars.summary) (sym kept.0) l) in
          continue-Post (λ _ w'. w'.work ≡ w₁.work) _ _
            (record_run out run_id succeeded summary none w₁) _
            (record_run-Post run_id succeeded summary none w₁)
            (λ _ w₂ same. (
              subst (λ (x : Session Database). Ledger ts x.saved.tasks summary) (sym same)
                  (counters-Ledger ts w₁.work.saved.tasks w₁ w₁.vars.summary counts ledger),
              counters-IsAccounted w₁ w₁.vars.summary counts
                  (subst (λ (v : Vars). IsAccounted v.summary) (sym kept.1) h),
              refl,
            )))

  complete_if-Post :
      (ts : List Task) (run_id : ℕ) (emptied : Bool) (w : State)
      → Emptied ts emptied w
      → Post (Completes ts) (λ _ _. Unit {0}) (complete_if out run_id emptied w)
  unfolding complete_if
  complete_if-Post ts run_id false w h = absurd (cc (h.0))
  complete_if-Post ts run_id true w h =
      continue-Post (Sums ts) _ _ (complete out run_id w) _ (complete-Post ts run_id w h.1 h.2)
        (λ s w₁ q. (s, refl, q.0, q.1, q.2))

  started :
      (w w₂ : State)
      → w₂.work ≡ w.work
      → w₂.vars ≡ start_vars w
      → w.work.saved ≡ w.work.seen
      → IsTable w.work.seen.tasks
      → IsRunning w.work.saved.tasks w₂
  started w w₂ same fresh synced table = record {
    synced = subst (λ (x : Session Database). x.saved ≡ x.seen) (sym same) synced;
    ledger =
        subst (λ (v : Vars). Ledger w.work.saved.tasks w₂.work.saved.tasks v.summary) (sym fresh)
          (subst (λ (x : Session Database). Ledger w.work.saved.tasks x.saved.tasks empty_summary)
            (sym same) (ground arith));
    table = subst (λ (x : Session Database). IsTable x.seen.tasks) (sym same) table;
    accounted = subst (λ (v : Vars). IsAccounted v.summary) (sym fresh) (ground arith);
    few_unexpected = ground arith;
    few_denied = ground arith;
  }

  -- A run from a sound task table with nothing unsaved in its session, and with more fuel than the
  -- tasks have attempts left, does not run out of it: it returns a summary that names no exception
  -- that stopped it, or it raises. That summary agrees with the saved tasks: as many are newly done
  -- and as many newly gone as it counts, as many more attempts have failed as it counts failed and
  -- dead outcomes, and at least as many tasks are newly dead as it counts. Its number of tasks is
  -- the sum of these counts, and the sum of its counts by resource.
  pub fetch_from_tasks-Completes :
      (fuel : ℕ) (w : State)
      → w.work.saved ≡ w.work.seen
      → IsTable w.work.seen.tasks
      → budget w.work.seen.tasks < fuel
      → Post (Completes w.work.saved.tasks) (λ _ _. Unit {0}) (fetch_from_tasks out fuel w)
  unfolding fetch_from_tasks
  fetch_from_tasks-Completes fuel w synced table less =
      continue-Post (λ _ w'. (w'.work ≡ w.work) × (w'.vars ≡ start_vars w)) _ _
        (start_run out (record w { vars = start_vars w })) _
        (start_run-Post (record w { vars = start_vars w }))
        λ run_id w₁ q₁.
          continue-Post (λ _ w'. (w'.work ≡ w.work) × (w'.vars ≡ start_vars w)) _ _
            (commit_runs out w₁) _
            (Post-mono _ _ _ _ (commit_runs out w₁) (commit_runs-Post w₁)
              (λ _ w' q. (q.0 ∙ q₁.0, q.1 ∙ q₁.1)) (λ _ _ x. x))
            λ _ w₂ q₂.
              continue-Post (Emptied w.work.saved.tasks) _ _
                (recover (task_loop out fuel w₂) (stop out run_id)) _
                (recover-Post _ _ _ (task_loop out fuel w₂) (stop out run_id)
                  (task_loop-Post out w.work.saved.tasks fuel w₂
                    (started w w₂ q₂.0 q₂.1 synced table)
                    (subst (λ (x : Session Database). budget x.seen.tasks < fuel) (sym q₂.0) less))
                  (λ e w₃ _. stop-Post w.work.saved.tasks run_id e w₃))
                (complete_if-Post w.work.saved.tasks run_id)
