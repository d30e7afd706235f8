-- ===== src/Ingestion/Discovery/Weekly/Chunks.antt =====
-- About the chunks in which the rows of the catalogue are written.
use anime_app_backend.Prelude.{
  ℕ, zero, suc, ◌+◌, ◌≤◌, ◌≡◌, refl, sym, ◌∙◌, ap, true, List, [], ◌∷◌, ◌++◌, arith,
}
use anime_app_backend.Prelude.Lists.{length, take, drop}
use anime_app_backend.Exec.Post.{Post, Post-mono, continue-Post}
use anime_app_backend.Ingestion.Enums.{Resource, Key}
use anime_app_backend.Ingestion.Runtime.{Outside}
use anime_app_backend.Ingestion.Tasks.{Task, insert_or_reset, insert_or_reset_tasks}
use anime_app_backend.Ingestion.World.{Session, Database, query, commit}
use anime_app_backend.Ingestion.Discovery.{State, send_rows}
use anime_app_backend.Ingestion.Discovery.Saved.{send_rows-Post, commit-Post}
use anime_app_backend.Ingestion.Discovery.Weekly.{
  Anime, active_ids, rows_of_all, chunks, reset_chunks, reset_active_from_catalogue,
  tasks_per_statement,
}

-- What the rows make of the tasks in one statement, and chunk by chunk.
abbrev pub at_once : List Key → List Task → List Task
at_once rows ts = (insert_or_reset_tasks rows ts).2

abbrev pub by_chunk : List (List Key) → List Task → List Task
by_chunk [] ts = ts
by_chunk (rows ∷ rest) ts = by_chunk rest (at_once rows ts)

at_once-append :
    (xs ys : List Key) (ts : List Task) → at_once (xs ++ ys) ts ≡ at_once ys (at_once xs ts)
unfolding insert_or_reset_tasks
at_once-append [] ys ts = refl
at_once-append (x ∷ xs) ys ts = at_once-append xs ys (insert_or_reset x ts)

take-drop : (n : ℕ) (rows : List Key) → take n rows ++ drop n rows ≡ rows
take-drop zero rows = refl
take-drop (suc n) [] = refl
take-drop (suc n) (k ∷ rows) = ap (λ (r : List Key). k ∷ r) (take-drop n rows)

length-drop : (n : ℕ) (rows : List Key) → length (drop n rows) ≤ length rows
length-drop zero rows = omega arith
length-drop (suc n) [] = omega arith
length-drop (suc n) (k ∷ rows) = omega (arith, length-drop n rows)

by_chunk-chunks :
    (fuel size : ℕ) (rows : List Key) (ts : List Task)
    → length rows ≤ fuel
    → by_chunk (chunks fuel (suc size) rows) ts ≡ at_once rows ts
unfolding chunks
by_chunk-chunks zero size [] ts h = unfold insert_or_reset_tasks in refl
by_chunk-chunks zero size (k ∷ rows) ts h = absurd (omega (arith, h))
by_chunk-chunks (suc fuel) size [] ts h = unfold insert_or_reset_tasks in refl
by_chunk-chunks (suc fuel) size (k ∷ rows) ts h =
    by_chunk-chunks fuel size (drop size rows) (at_once (k ∷ take size rows) ts)
      (omega (arith, h, length-drop size rows))
    ∙ sym (at_once-append (k ∷ take size rows) (drop size rows) ts)
    ∙ ap (λ (r : List Key). at_once (k ∷ r) ts) (take-drop size rows)

session_eq :
    (s : Session Database) {a b : Database}
    → s.saved ≡ a
    → s.seen ≡ b
    → s ≡ record { saved = a; seen = b }
session_eq s h k = ground (arith, h, k)

module _ (out : Outside) where
  reset_chunks-Post :
      (cs : List (List Key)) (sums : ℕ × ℕ) (w : State)
      → Post
          (λ _ w'.
            (w'.work.saved ≡ w.work.saved)
            × (w'.work.seen ≡ record w.work.seen { tasks = by_chunk cs w.work.seen.tasks }))
          (λ _ w'. w'.work.saved ≡ w.work.saved)
          (reset_chunks out cs sums w)
  unfolding reset_chunks
  reset_chunks-Post [] sums w = (refl, refl)
  reset_chunks-Post (rows ∷ rest) (i, r) w =
      continue-Post _ _ _ (send_rows out true rows w) _
        (Post-mono _ _ _ (λ _ w'. w'.work.saved ≡ w.work.saved) (send_rows out true rows w)
          (send_rows-Post out true rows w) (λ _ _ q. q)
          (λ _ w' q. ap (λ (x : Session Database). x.saved) q.0))
        (λ counts w₁ q.
          let saved = ap (λ (x : Session Database). x.saved) q.0 in
          let seen = ap (λ (x : Session Database). x.seen) q.0 in
          Post-mono _ _ _ _ (reset_chunks out rest (i + counts.0, r + counts.1) w₁)
            (reset_chunks-Post rest (i + counts.0, r + counts.1) w₁)
            (λ _ w' p. (
              p.0 ∙ saved,
              p.1 ∙ ap (λ (db : Database). record db { tasks = by_chunk rest db.tasks }) seen,
            ))
            (λ _ w' p. p ∙ saved))

  find_ids-Post :
      (ids : List ℕ) (w : State)
      → Post
          (λ found w'. (found ≡ ids) × (w'.work ≡ w.work))
          (λ _ w'. w'.work ≡ w.work)
          (query out (λ (db : Database). (ids, db)) w)
  unfolding query
  find_ids-Post ids w = ground arith

  -- The step of the weekly run that reads the catalogue saves, if it returns, what one statement
  -- with all its rows would make of the tasks, however many chunks they fill; if it raises, it
  -- saves nothing.
  pub reset_active_from_catalogue-by_chunk :
      (resources : List Resource) (catalogue : List Anime) (w : State)
      → let rows = rows_of_all resources (active_ids catalogue) in
        Post
          (λ _ w'.
            w'.work.saved
            ≡ record w.work.seen { tasks = (insert_or_reset_tasks rows w.work.seen.tasks).2 })
          (λ _ w'. w'.work.saved ≡ w.work.saved)
          (reset_active_from_catalogue out resources catalogue w)
  unfolding reset_active_from_catalogue
  reset_active_from_catalogue-by_chunk resources catalogue w =
      let ids = active_ids catalogue in
      let find = query out (λ (db : Database). (ids, db)) in
      continue-Post (λ found w₁. (found ≡ ids) × (w₁.work ≡ w.work)) _ _ (find w) _
        (Post-mono _ _ _ (λ _ w'. w'.work.saved ≡ w.work.saved) (find w) (find_ids-Post ids w)
          (λ _ _ q. q) (λ _ w' q. ap (λ (x : Session Database). x.saved) q))
        (λ found w₁ q.
          let rows = rows_of_all resources found in
          let cs = chunks (length rows) tasks_per_statement rows in
          continue-Post
            (λ _ w₂. w₂.work ≡ record w.work {
              seen = record w.work.seen { tasks = by_chunk cs w.work.seen.tasks };
            })
            _ _ (reset_chunks out cs (0, 0) w₁) _
            (Post-mono _ _ _ (λ _ w'. w'.work.saved ≡ w.work.saved) (reset_chunks out cs (0, 0) w₁)
              (reset_chunks-Post cs (0, 0) w₁)
              (λ _ w₂ p. session_eq w₂.work (p.0 ∙ ap (λ (x : Session Database). x.saved) q.1) (
                p.1
                ∙ ap (λ (x : Session Database). record x.seen { tasks = by_chunk cs x.seen.tasks })
                    q.1))
              (λ _ w' p. p ∙ ap (λ (x : Session Database). x.saved) q.1))
            (λ sums w₂ p.
              continue-Post (λ _ w₃. w₃.work.saved ≡ w₂.work.seen) _ _ (commit out w₂) _
                (Post-mono _ _ _ (λ _ w'. w'.work.saved ≡ w.work.saved) (commit out w₂)
                  (commit-Post out w₂) (λ _ w₃ x. ap (λ (x : Session Database). x.saved) x.0)
                  (λ _ w' x. ap (λ (x : Session Database). x.saved) (x.0 ∙ p)))
                (λ _ w₃ x.
                  x
                  ∙ ap (λ (x : Session Database). x.seen) p
                  ∙ ap (λ (ts : List Task). record w.work.seen { tasks = ts })
                      (by_chunk-chunks (length rows) 4999 rows w.work.seen.tasks (omega arith)
                        ∙ ap (λ (xs : List ℕ). at_once (rows_of_all resources xs) w.work.seen.tasks)
                            q.0))))
