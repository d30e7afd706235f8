-- ===== src/Ingestion/Fetch/Outcome.antt =====
-- What one call of `fetch_job_from_tasks` saves: the task that it claimed is marked by how the
-- call ended, or, where an exception leaves the call, nothing.
use Prim.Native.Char.{Char}
use anime_app_backend.Prelude.{ℕ, ◌≡◌, refl, sym, ap, ◌∙◌, Option, none, some, List, arith}
use anime_app_backend.Exec.{Result, ok, err, continue, recover}
use anime_app_backend.Exec.Post.{Post, continue-Post, recover-Post, Post-mono}
use anime_app_backend.Json.{Json}
use anime_app_backend.Ingestion.Enums.{TaskStatus, pending, done, failed, dead, gone}
use anime_app_backend.Ingestion.Errors.{
  Exc, gone_error, permanent_error, access_denied, transient_error, network_error, circuit_open,
  raw_store_error, repeated_unexpected, database_error, unexpected, interrupted,
}
use anime_app_backend.Ingestion.Runtime.{Outside}
use anime_app_backend.Ingestion.Tasks
use anime_app_backend.Ingestion.Tasks.{Task, claim_next}
use anime_app_backend.Ingestion.World.{Session, Database, put, query, commit, rollback, event}
use anime_app_backend.Ingestion.Fetch.{
  State, TaskOutcome, Vars, fetch_payload, index_raw, store_response, handle, process,
  fetch_job_from_tasks, claim, process_claimed, finish, mark_failed, transient_handler,
  unexpected_handler, reset_denied, count_denied, count_unexpected, on_tasks,
}
use anime_app_backend.Ingestion.Fetch.Steps.{
  Same, fetch_payload-Same, put-Post, index_raw-Post, on_tasks-Post, commit-Post,
}

-- The rows `ts'` are `ts` with the task marked for this status. A task that failed may have become
-- dead: that is decided by its attempts.
abbrev pub Marked : Task → List Task → TaskStatus → List Task → Type 0
Marked task ts pending ts' = ⊥
Marked task ts done ts' = ts' ≡ Tasks.mark_done task ts
Marked task ts gone ts' = ts' ≡ Tasks.mark_gone task ts
Marked task ts dead ts' = (error : List Char) × (ts' ≡ Tasks.mark_dead task error ts)
Marked task ts failed ts' =
    (now : ℕ) × (error : List Char) × (ts' ≡ Tasks.mark_failed now task error ts)

module _ (out : Outside) (w₀ : State) where
  -- The tasks are as they were at `w₀`, in the session and in what is saved.
  pub record Before (w : State) : Type 0 where
    pub saved : w.work.saved ≡ w₀.work.saved
    pub tasks : w.work.seen.tasks ≡ w₀.work.seen.tasks
    pub summary : w.vars.summary ≡ w₀.vars.summary

  -- Nothing was saved, and the summary of the run is as it was.
  abbrev pub Unsaved : State → Type 0
  Unsaved w = (w.work.saved ≡ w₀.work.saved) × (w.vars.summary ≡ w₀.vars.summary)

  Before-Same : {w w' : State} → Before w → Same w w' → Before w'
  Before-Same b s = record {
    saved = ground (arith, b.saved, s.work);
    tasks = ground (arith, b.tasks, s.work);
    summary = ground (arith, b.summary, s.vars);
  }

  pub record After (task : Task) (status : TaskStatus) (w : State) : Type 0 where
    pub saved : w.work.saved ≡ w₀.work.saved
    pub marked : Marked task w₀.work.seen.tasks status w.work.seen.tasks
    pub summary : w.vars.summary ≡ w₀.vars.summary

  abbrev Marks : Task → TaskStatus × ℕ → State → Type 0
  Marks task r w = After task r.0 w

  -- A statement on the tasks that marks the task.
  marking-Post :
      (task : Task) (status : TaskStatus) (f : List Task → List Task)
      → ((ts ts' : List Task) → ts' ≡ f ts → Marked task ts status ts')
      → (w : State) → Before w
      → Post (λ _ w'. After task status w') (λ _ w'. Before w') (on_tasks out f w)
  marking-Post task status f marks w b =
      Post-mono _ _ _ _ (on_tasks out f w) (on_tasks-Post out f w)
        (λ _ w' q. record {
          saved = q.0 ∙ b.saved;
          marked = marks w₀.work.seen.tasks w'.work.seen.tasks (q.1 ∙ ap f b.tasks);
          summary = ap (λ (v : Vars). v.summary) q.4 ∙ b.summary;
        })
        (λ _ w' s. Before-Same b s)

  failing-Post :
      (task : Task) (e : Exc) (v : Vars) (w : State)
      → v.summary ≡ w.vars.summary
      → Before w
      → Post
          (Marks task)
          (λ _ w'. Unsaved w')
          (continue (mark_failed out task e (record w { vars = v })) (λ _ s. (ok (failed, 0), s)))
  unfolding mark_failed
  failing-Post task e v w kept b =
      continue-Post _ _ _ (mark_failed out task e (record w { vars = v })) _
        (Post-mono _ _ _ _ (mark_failed out task e (record w { vars = v }))
          (marking-Post task failed _ (λ ts ts' h. (out.utc (event out w), out.describe e, h))
            (record w { vars = v })
            (record { saved = b.saved; tasks = b.tasks; summary = kept ∙ b.summary }))
          (λ _ w' q. q) (λ _ w' x. (x.saved, x.summary)))
        (λ _ w' q. q)

  store_response-Post :
      (task : Task) (w : State)
      → Before w
      → Post (Marks task) (λ _ w'. Before w') (store_response out task w)
  unfolding store_response
  store_response-Post task w b =
      continue-Post (λ _ w'. Before w') _ _ (fetch_payload out task.key w) _
        (fetched (fetch_payload out task.key w) (fetch_payload-Same out task.key w))
        λ payload w₁ b₁.
          continue-Post (λ _ w'. Before w') _ _ (put out task.key payload w₁) _
            (Post-mono _ _ _ _ (put out task.key payload w₁) (put-Post out task.key payload w₁)
              (λ _ w' q. record {
                saved = ground (arith, q.0, b₁.saved);
                tasks = ground (arith, q.0, b₁.tasks);
                summary = ground (arith, q.2, b₁.summary);
              })
              (λ _ w' s. Before-Same b₁ s))
            λ size w₂ b₂.
              continue-Post (λ _ w'. Before w') _ _ (index_raw out task.key size w₂) _
                (Post-mono _ _ _ _ (index_raw out task.key size w₂)
                  (index_raw-Post out task.key size w₂)
                  (λ _ w' q. record {
                    saved = q.0 ∙ b₂.saved;
                    tasks = q.1 ∙ b₂.tasks;
                    summary = ground (arith, q.4, b₂.summary);
                  })
                  (λ _ w' s. Before-Same b₂ s))
                λ _ w₃ b₃.
                  continue-Post _ _ _ (on_tasks out (Tasks.mark_done task) w₃) _
                    (marking-Post task done (Tasks.mark_done task) (λ ts ts' h. h) w₃ b₃)
                    (λ _ w₄ a. record { saved = a.saved; marked = a.marked; summary = a.summary })
    where
      fetched :
          (end : Result Exc Json × State)
          → Same w end.1
          → Post (λ _ w'. Before w') (λ _ w'. Before w') end
      fetched (ok json, w') s = Before-Same b s
      fetched (err e, w') s = Before-Same b s

  handle-Post :
      (task : Task) (e : Exc) (w : State)
      → Before w
      → Post (Marks task) (λ _ w'. Unsaved w') (handle out task e w)
  unfolding handle query rollback transient_handler unexpected_handler
  handle-Post task (gone_error s) w b = ground arith
  handle-Post task (permanent_error s) w b =
      continue-Post _ _ _
        (on_tasks out (Tasks.mark_dead task (out.describe (permanent_error s)))
          (record w { vars = reset_denied w.vars }))
        _
        (Post-mono _ _ _ _
          (on_tasks out (Tasks.mark_dead task (out.describe (permanent_error s)))
            (record w { vars = reset_denied w.vars }))
          (marking-Post task dead _ (λ ts ts' h. (out.describe (permanent_error s), h))
            (record w { vars = reset_denied w.vars })
            (record { saved = b.saved; tasks = b.tasks; summary = b.summary }))
          (λ _ w' q. q) (λ _ w' x. (x.saved, x.summary)))
        (λ _ w' q. q)
  handle-Post task (access_denied s) w b =
      failing-Post task (access_denied s) (count_denied w.vars) w refl b
  handle-Post task (transient_error s) w b =
      failing-Post task (transient_error s) (reset_denied w.vars) w refl b
  handle-Post task (network_error s) w b =
      failing-Post task (network_error s) (reset_denied w.vars) w refl b
  handle-Post task (circuit_open t) w b = ground arith
  handle-Post task raw_store_error w b = ground arith
  handle-Post task database_error w b = ground arith
  handle-Post task (repeated_unexpected n) w b =
      failing-Post task (repeated_unexpected n) (count_unexpected w.vars) w refl b
  handle-Post task unexpected w b = failing-Post task unexpected (count_unexpected w.vars) w refl b
  handle-Post task interrupted w b = ground arith

  -- What a call has saved, by how it ended.
  abbrev pub Saves : Option TaskOutcome → State → Type 0
  Saves none w = (w.work.saved ≡ w₀.work.saved) × (w.vars ≡ w₀.vars)
  Saves (some o) w =
      (task : Task) × (now : ℕ) × (claim_next (out.locked now) (out.utc now) w₀.work.seen.tasks
        ≡ some task)
      × (w.work.saved ≡ w.work.seen)
      × (Marked task w₀.work.seen.tasks o.status w.work.saved.tasks)
      × (w.vars.summary ≡ w₀.vars.summary)

  finish-Post :
      (task : Task) (now : ℕ) (r : TaskStatus × ℕ) (w : State)
      → claim_next (out.locked now) (out.utc now) w₀.work.seen.tasks ≡ some task
      → After task r.0 w
      → Post Saves (λ _ w'. Unsaved w') (finish out task r w)
  unfolding finish
  finish-Post task now r w claimed a =
      continue-Post _ _ _ (commit out w) _
        (Post-mono _ _ _ _ (commit out w) (commit-Post out w) (λ _ w' q. q)
          (λ _ w' s. (
            ap (λ (x : Session Database). x.saved) s.work ∙ a.saved,
            ap (λ (x : Vars). x.summary) s.vars ∙ a.summary,
          )))
        λ _ w' q.
          (task, now, claimed, q.0 ∙ sym q.1, rw (q.0) a.marked, ground (arith, q.3, a.summary))

  process-Post :
      (task : Task) (now : ℕ) (w : State)
      → claim_next (out.locked now) (out.utc now) w₀.work.seen.tasks ≡ some task
      → Before w
      → Post Saves (λ _ w'. Unsaved w') (process out task w)
  unfolding process
  process-Post task now w claimed b =
      continue-Post (Marks task) _ _ (recover (store_response out task w) (handle out task)) _
        (recover-Post _ _ _ (store_response out task w) (handle out task)
          (store_response-Post task w b) (handle-Post task))
        (λ r w₁ a. finish-Post task now r w₁ claimed a)

-- What one call leaves saved, however Tenrai, S3 and the database behave: where it returns an
-- outcome, the tasks with the claimed one marked by the outcome's status; where it finds no task
-- or raises, what was saved before. It leaves the summary of the run alone, and where it finds no
-- task all the job's variables.
pub fetch_job_from_tasks-Saves :
    (out : Outside) (w : State)
    → Post (Saves out w) (λ _ w'. Unsaved out w w') (fetch_job_from_tasks out w)
unfolding fetch_job_from_tasks claim query
fetch_job_from_tasks-Saves out w =
    continue-Post
      (λ found w'.
        (found ≡ claim_next (out.locked (event out w)) (out.utc (event out w)) w.work.seen.tasks)
        × Before out w w'
        × (w'.vars ≡ w.vars))
      _ _ (claim out w) _ (ground arith) (λ found w' q. decide found w' q.0 q.1 q.2)
  where
    decide :
        (found : Option Task) (w' : State)
        → found ≡ claim_next (out.locked (event out w)) (out.utc (event out w)) w.work.seen.tasks
        → Before out w w'
        → w'.vars ≡ w.vars
        → Post (Saves out w) (λ _ w₁. Unsaved out w w₁) (process_claimed out found w')
    decide none w' e b v = (b.saved, v)
    decide (some task) w' e b v = process-Post out w task (event out w) w' (sym e) b
