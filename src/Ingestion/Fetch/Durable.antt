-- ===== src/Ingestion/Fetch/Durable.antt =====
-- The invariant of `Stored` over a whole call of `fetch_job_from_tasks`.
use anime_app_backend.Prelude.{ℕ, ◌≡◌, refl, true, Option, none, some, is_some, arith}
use anime_app_backend.Exec.{Result, ok, err, continue, recover}
use anime_app_backend.Exec.Post.{Post, continue-Post, recover-Post, Post-mono}
use anime_app_backend.Json.{Json}
use anime_app_backend.Ingestion.Enums.{Key, TaskStatus, done, failed}
use anime_app_backend.Ingestion.Errors.{
  Exc, gone_error, permanent_error, access_denied, transient_error, network_error, circuit_open,
  raw_store_error, repeated_unexpected, database_error, unexpected, interrupted,
}
use anime_app_backend.Ingestion.Runtime.{Outside}
use anime_app_backend.Ingestion.Tasks
use anime_app_backend.Ingestion.Tasks.{Task, has_key, update_where, mark_done, mark_gone, mark_dead}
use anime_app_backend.Ingestion.Raw.{find, upsert}
use anime_app_backend.Ingestion.World.{object, query, put, commit, rollback, event}
use anime_app_backend.Ingestion.Fetch.{
  State, Job, Vars, TaskOutcome, fetch_payload, index_raw, store_response, handle, finish, process,
  process_claimed, claim, fetch_job_from_tasks, mark_failed, transient_handler, unexpected_handler,
  on_tasks, reset_denied, count_denied, count_unexpected,
}
use anime_app_backend.Ingestion.Fetch.Steps.{
  Same, fetch_payload-Same, put-Post, index_raw-Post, on_tasks-Post, commit-Post, rollback-Post,
}
use anime_app_backend.Ingestion.Fetch.Stored.{
  IsStored, put-IsStored, index-IsStored, set-IsStored, object-put_self, find-upsert_self,
}

-- What is saved, and what the session sees, is stored.
pub record IsDurable (w : State) : Type 0 where
  pub saved : IsStored w.objects w.work.saved
  pub seen : IsStored w.objects w.work.seen

Same-IsDurable : {w w' : State} → IsDurable w → Same w w' → IsDurable w'
Same-IsDurable h s = record {
  saved = rw (s.work, s.objects) h.saved;
  seen = rw (s.work, s.objects) h.seen;
}

module _ (out : Outside) where
  abbrev Keeps : {A : Type 0} → Job A → Type 0
  Keeps m = (w : State) → IsDurable w → Post (λ _ w'. IsDurable w') (λ _ w'. IsDurable w') (m w)

  -- A statement that marks the rows of one key keeps the invariant, if it makes a row done only
  -- where the key has its index row.
  marking-Keeps :
      (key : Key) (f : Task → Task) (w : State)
      → ((t : Task) → (f t).key ≡ t.key)
      → ((t : Task) → (f t).status ≡ done → is_some (find key w.work.seen.raw) ≡ true)
      → IsDurable w
      → Post
          (λ _ w'. IsDurable w')
          (λ _ w'. IsDurable w')
          (on_tasks out (update_where (has_key key) f) w)
  marking-Keeps key f w keeps done_ok h =
      Post-mono _ _ _ _ (on_tasks out (update_where (has_key key) f) w)
        (on_tasks-Post out (update_where (has_key key) f) w)
        (λ _ w' q. record {
          saved = rw (q.0, q.3) h.saved;
          seen =
              rw q.3
                (tables w' q.1 q.2 (set-IsStored key f w.objects w.work.seen keeps done_ok h.seen));
        })
        (λ _ w' s. Same-IsDurable h s)
    where
      tables :
          (w' : State)
          → w'.work.seen.tasks ≡ update_where (has_key key) f w.work.seen.tasks
          → w'.work.seen.raw ≡ w.work.seen.raw
          → IsStored w.objects
              (record (w.work.seen) { tasks = update_where (has_key key) f w.work.seen.tasks })
          → IsStored w.objects w'.work.seen
      tables w' p q s = record { rows = rw q s.rows; done_tasks = rw (p, q) s.done_tasks }

  failing-Keeps :
      (task : Task) (e : Exc) (v : Vars) (w : State)
      → IsDurable w
      → Post
          (λ (_ : TaskStatus × ℕ) w'. IsDurable w')
          (λ _ w'. IsDurable w')
          (continue (mark_failed out task e (record w { vars = v })) (λ _ s. (ok (failed, 0), s)))
  unfolding mark_failed Tasks.mark_failed
  failing-Keeps task e v w h =
      continue-Post _ _ _ (mark_failed out task e (record w { vars = v })) _
        (marking-Keeps task.key _ (record w { vars = v }) (λ t. refl) (λ t d. ground arith)
          (record { saved = h.saved; seen = h.seen }))
        (λ _ w' q. record { saved = q.saved; seen = q.seen })

  rollback-Keeps :
      (e : Exc) (w : State)
      → IsDurable w
      → Post
          (λ (_ : TaskStatus × ℕ) w'. IsDurable w')
          (λ _ w'. IsDurable w')
          (continue (rollback out w) (λ _ s. (err e, s)))
  rollback-Keeps e w h =
      continue-Post (λ _ w'. IsDurable w') _ _ (rollback out w) _
        (Post-mono _ _ _ _ (rollback out w) (rollback-Post out w)
          (λ _ w' q. record { saved = rw (q.0, q.2) h.saved; seen = rw (q.1, q.2) h.saved })
          (λ _ w' s. Same-IsDurable h s))
        (λ _ w' q. q)

  handle-Keeps : (task : Task) (e : Exc) → Keeps (handle out task e)
  unfolding handle transient_handler unexpected_handler mark_gone mark_dead
  handle-Keeps task (gone_error s) w h =
      continue-Post _ _ _ (on_tasks out (mark_gone task) (record w { vars = reset_denied w.vars }))
        _
        (marking-Keeps task.key _ (record w { vars = reset_denied w.vars }) (λ t. refl) (λ t d. cc)
          (record { saved = h.saved; seen = h.seen }))
        (λ _ w' q. q)
  handle-Keeps task (permanent_error s) w h =
      continue-Post _ _ _
        (on_tasks out (mark_dead task (out.describe (permanent_error s)))
          (record w { vars = reset_denied w.vars }))
        _
        (marking-Keeps task.key _ (record w { vars = reset_denied w.vars }) (λ t. refl) (λ t d. cc)
          (record { saved = h.saved; seen = h.seen }))
        (λ _ w' q. q)
  handle-Keeps task (access_denied s) w h =
      failing-Keeps task (access_denied s) (count_denied w.vars) w h
  handle-Keeps task (transient_error s) w h =
      failing-Keeps task (transient_error s) (reset_denied w.vars) w h
  handle-Keeps task (network_error s) w h =
      failing-Keeps task (network_error s) (reset_denied w.vars) w h
  handle-Keeps task (circuit_open t) w h = rollback-Keeps (circuit_open t) w h
  handle-Keeps task raw_store_error w h = rollback-Keeps raw_store_error w h
  handle-Keeps task database_error w h = rollback-Keeps database_error w h
  handle-Keeps task (repeated_unexpected n) w h =
      failing-Keeps task (repeated_unexpected n) (count_unexpected w.vars) w h
  handle-Keeps task unexpected w h = failing-Keeps task unexpected (count_unexpected w.vars) w h
  handle-Keeps task interrupted w h = rollback-Keeps interrupted w h

  store_response-Keeps : (task : Task) → Keeps (store_response out task)
  unfolding store_response mark_done
  store_response-Keeps task w h =
      continue-Post (λ _ w'. IsDurable w') _ _ (fetch_payload out task.key w) _
        (fetched (fetch_payload out task.key w) (fetch_payload-Same out task.key w))
        λ payload w₁ h₁.
          continue-Post (λ _ w'. IsDurable w' × (is_some (object task.key w'.objects) ≡ true)) _ _
            (put out task.key payload w₁) _
            (Post-mono _ _ _ _ (put out task.key payload w₁) (put-Post out task.key payload w₁)
              (λ _ w' q. (
                record {
                  saved =
                      rw (q.0, q.1)
                        (put-IsStored task.key payload w₁.objects w₁.work.saved h₁.saved);
                  seen =
                      rw (q.0, q.1) (put-IsStored task.key payload w₁.objects w₁.work.seen h₁.seen);
                },
                rw q.1 (object-put_self task.key payload w₁.objects),
              ))
              (λ _ w' s. Same-IsDurable h₁ s))
            λ size w₂ h₂.
              continue-Post
                (λ _ w'. IsDurable w' × (is_some (find task.key w'.work.seen.raw) ≡ true)) _ _
                (index_raw out task.key size w₂) _
                (Post-mono _ _ _ _ (index_raw out task.key size w₂)
                  (index_raw-Post out task.key size w₂)
                  (λ _ w' q. indexed w₂ w' size h₂.0 h₂.1 q.0 q.1 q.2 q.3)
                  (λ _ w' s. Same-IsDurable h₂.0 s))
                λ _ w₃ h₃.
                  continue-Post _ _ _ (on_tasks out (mark_done task) w₃) _
                    (marking-Keeps task.key _ w₃ (λ t. refl) (λ t d. h₃.1) h₃.0)
                    (λ _ w₄ q. record { saved = q.saved; seen = q.seen })
    where
      fetched :
          (end : Result Exc Json × State)
          → Same w end.1
          → Post (λ _ w'. IsDurable w') (λ _ w'. IsDurable w') end
      fetched (ok json, w') s = Same-IsDurable h s
      fetched (err e, w') s = Same-IsDurable h s

      indexed :
          (w₂ w' : State) (size : ℕ)
          → IsDurable w₂
          → is_some (object task.key w₂.objects) ≡ true
          → w'.work.saved ≡ w₂.work.saved
          → w'.work.seen.tasks ≡ w₂.work.seen.tasks
          → w'.work.seen.raw ≡ upsert (out.utc (event out w₂)) task.key size w₂.work.seen.raw
          → w'.objects ≡ w₂.objects
          → IsDurable w' × (is_some (find task.key w'.work.seen.raw) ≡ true)
      indexed w₂ w' size h₂ there p q r o =
          let now = out.utc (event out w₂) in
          let s = index-IsStored now task.key size w₂.objects w₂.work.seen there h₂.seen in
          (
            record {
              saved = rw (p, o) h₂.saved;
              seen = record { rows = rw (r, o) s.rows; done_tasks = rw (q, r) s.done_tasks };
            },
            rw r (unfold upsert in find-upsert_self now task.key size w₂.work.seen.raw),
          )

  finish-Keeps : (task : Task) (r : TaskStatus × ℕ) → Keeps (finish out task r)
  unfolding finish
  finish-Keeps task r w h =
      continue-Post (λ _ w'. IsDurable w') _ _ (commit out w) _
        (Post-mono _ _ _ _ (commit out w) (commit-Post out w)
          (λ _ w' q. record { saved = rw (q.0, q.2) h.seen; seen = rw (q.1, q.2) h.seen })
          (λ _ w' s. Same-IsDurable h s))
        (λ _ w' q. record { saved = q.saved; seen = q.seen })

  process_claimed-Keeps : (found : Option Task) → Keeps (process_claimed out found)
  unfolding process_claimed process
  process_claimed-Keeps none w h = h
  process_claimed-Keeps (some task) w h =
      continue-Post (λ _ w'. IsDurable w') _ _
        (recover (store_response out task w) (handle out task)) _
        (recover-Post _ _ _ (store_response out task w) (handle out task)
          (store_response-Keeps task w h) (λ e w' h'. handle-Keeps task e w' h'))
        (λ r w' h'. finish-Keeps task r w' h')

  claim-Same : (w : State) → Post (λ _ w'. Same w w') (λ _ w'. Same w w') (claim out w)
  unfolding claim query
  claim-Same w = ground arith

  -- Whether a call of `fetch_job_from_tasks` returns or raises, and whatever fails in it: if every
  -- index row had its object and every done task its index row before, both in what is saved and
  -- in what the session sees, then so they have after it.
  pub fetch_job_from_tasks-IsDurable :
      (w : State) → IsDurable w → IsDurable (fetch_job_from_tasks out w).1
  unfolding fetch_job_from_tasks
  fetch_job_from_tasks-IsDurable w h = both (fetch_job_from_tasks out w) (
      continue-Post (λ _ w'. IsDurable w') _ _ (claim out w) (process_claimed out)
        (Post-mono _ _ _ _ (claim out w) (claim-Same w) (λ _ w' s. Same-IsDurable h s)
          (λ _ w' s. Same-IsDurable h s))
        (λ found w' h'. process_claimed-Keeps found w' h'))
    where
      both :
          (end : Result Exc (Option TaskOutcome) × State)
          → Post (λ _ w'. IsDurable w') (λ _ w'. IsDurable w') end
          → IsDurable end.1
      both (ok o, w') p = p
      both (err e, w') p = p
