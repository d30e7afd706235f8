-- ===== src/Ingestion/Clean/Loop/Ends.antt =====
-- About the end of a run of the clean job.
use Prim.Native.Char.{Char}
use anime_app_backend.Prelude.{
  ℕ, ◌<◌, ◌≤◌, zero, suc, ◌≡◌, refl, sym, ◌∙◌, subst, Bool, true, false, Option, none, some, List,
  [], ◌∷◌, arith,
}
use anime_app_backend.Prelude.Lists.{length}
use anime_app_backend.Exec.{Result, ok, err, recover, continue}
use anime_app_backend.Exec.Post.{Post, Post-mono, any-Post, recover-Post, continue-Post}
use anime_app_backend.Ingestion.Enums.{Key, failed, succeeded}
use anime_app_backend.Ingestion.Errors.{Exc}
use anime_app_backend.Ingestion.Raw.{RawRow, is_wanted, select_where, get_batch}
use anime_app_backend.Ingestion.Runs.{Run}
use anime_app_backend.Ingestion.Clean.{Counts, State, Outside, tick, read}
use anime_app_backend.Ingestion.Clean.Collect.{no_counts}
use anime_app_backend.Ingestion.Clean.Batch.{clean_batch, clean_anime}
use anime_app_backend.Ingestion.Clean.Batch.Held.{Holds}
use anime_app_backend.Ingestion.Clean.Batch.Saves.{IsSaved, clean_anime-Saves, clean_batch-Cursor}
use anime_app_backend.Ingestion.Clean.Batch.Progress.{cursor_of, rows_left, get_batch-Fewer}
use anime_app_backend.Ingestion.Clean.Loop.{
  Summary, summary_of, Running, query_runs, commit_runs, record_run, count_batch, next_turn,
  clean_loop, load_names, fail, finished, since_of, full_clean_loop,
}

module _ {D M : Type 0} (out : Outside D M) where
  -- The cursor of a batch is the key of its last row.
  clean_anime-Cursor :
      (after : Option Key) (since : Option ℕ) (size : ℕ) (w : State D M)
      → Post
          (λ r _. r.0 ≡ cursor_of (get_batch since after size w.index))
          (λ _ _. Unit {0})
          (clean_anime out after since size w)
  unfolding clean_anime read
  clean_anime-Cursor after since size w = by_read (out.fails w.step)
    where
      by_read :
          (o : Option Exc)
          → Post
              (λ r _. r.0 ≡ cursor_of (get_batch since after size w.index))
              (λ _ _. Unit {0})
              (continue
                (elim o [
                  | some e ↦ (err e, tick w)
                  | none ↦ (ok (get_batch since after size w.index), tick w)
                ])
                (clean_batch out))
      by_read (some e) = tt
      by_read none = clean_batch-Cursor out (get_batch since after size w.index) (tick w)

select_where-length :
    (test : RawRow → Bool) (rows : List RawRow) → length (select_where test rows) ≤ length rows
select_where-length test [] = omega arith
select_where-length test (row ∷ rows) = ground (arith, select_where-length test rows)

module _ {D M : Type 0} (out : Outside D M) (error_text : Exc → List Char) (since : Option ℕ)
    (size : ℕ) where
  abbrev pub Ends : Result Exc Bool × Running D M → Type 0
  Ends end = Post (λ finished _. finished ≡ true) (λ _ _. Unit {0}) end

  turn-Ends :
      (w : Running D M) (fuel : ℕ)
      → ((w₁ : Running D M)
          → rows_left since w₁.after w₁.job.index < rows_left since w.after w.job.index
          → Ends (clean_loop out error_text fuel since size w₁))
      → (end : Result Exc (Option Key × Counts) × State D M)
      → Post (λ r w'. IsSaved out w.job r.0 w') (λ _ w'. Holds w.job w') end
      → Post
          (λ r _. r.0 ≡ cursor_of (get_batch since w.after size w.job.index))
          (λ _ _. Unit {0})
          end
      → Ends (
          continue
            (end.0, record w { job = end.1 })
            (next_turn out error_text (clean_loop out error_text fuel since size)))
  turn-Ends w fuel rest (err x, j) p c = tt
  turn-Ends w fuel rest (ok (none, counts), j) p c = refl
  turn-Ends w fuel rest (ok (some key, counts), j) p c =
      rest (count_batch out error_text key counts (record w { job = j })) (
        subst
          (λ (rows : List RawRow).
            rows_left since (some key) rows < rows_left since w.after w.job.index)
          (sym p.1) (get_batch-Fewer since w.after size w.job.index key (sym c)))

  -- With more fuel than there are index rows behind the cursor.
  clean_loop-Ends :
      (fuel : ℕ) (w : Running D M)
      → rows_left since w.after w.job.index < fuel
      → Ends (clean_loop out error_text fuel since size w)
  unfolding clean_loop
  clean_loop-Ends zero w enough = ground (arith, enough)
  clean_loop-Ends (suc fuel) w enough =
      turn-Ends w fuel (λ w₁ fewer. clean_loop-Ends fuel w₁ (omega (arith, enough, fewer)))
        (clean_anime out w.after since size w.job) (clean_anime-Saves out w.after since size w.job)
        (clean_anime-Cursor out w.after since size w.job)

module _ {D M : Type 0} (out : Outside D M) (error_text : Exc → List Char) where
  -- The index rows stay.
  abbrev pub Keeps : {A : Type 0} → List RawRow → Result Exc A × Running D M → Type 0
  Keeps index end = Post (λ _ w'. w'.job.index ≡ index) (λ _ _. Unit {0}) end

  query_runs-Keeps :
      {A : Type 0} (f : List (Run Summary) → A × List (Run Summary)) (w : Running D M)
      → Keeps w.job.index (query_runs out error_text f w)
  unfolding query_runs
  query_runs-Keeps f w = ground arith

  commit_runs-Keeps : (w : Running D M) → Keeps w.job.index (commit_runs out error_text w)
  unfolding commit_runs
  commit_runs-Keeps w = ground arith

  since_of-Keeps :
      (full_pass : Bool) (since : Option ℕ) (w : Running D M)
      → Keeps w.job.index (since_of out error_text full_pass since w)
  since_of-Keeps true since w = refl
  since_of-Keeps false (some t) w = refl
  since_of-Keeps false none w = query_runs-Keeps _ w

  load_names-Keeps : (w : Running D M) → Keeps w.job.index (load_names out error_text w)
  unfolding load_names read
  load_names-Keeps w = ground arith

  fail-Raises :
      (run_id : ℕ) (since : Option ℕ) (e : Exc) (w : Running D M)
      → Post (λ _ _. ⊥) (λ _ _. Unit {0}) (fail out error_text run_id since e w)
  unfolding fail
  fail-Raises run_id since e w =
      continue-Post (λ _ _. Unit {0}) _ _ (record_run out error_text run_id failed _ _ w) _
        (any-Post (record_run out error_text run_id failed _ _ w)) (λ _ _ _. tt)

  finished-Answers :
      (run_id : ℕ) (since : Option ℕ) (b : Bool) (w : Running D M)
      → b ≡ true
      → Post
          (λ r _. (s : Summary) × (r ≡ some s))
          (λ _ _. Unit {0})
          (finished out error_text run_id since b w)
  finished-Answers run_id since true w e =
      let summary = summary_of since none w in
      continue-Post (λ _ _. Unit {0}) _ _
        (record_run out error_text run_id succeeded summary none w)
        (λ _ w'. (ok (some summary), w'))
        (any-Post (record_run out error_text run_id succeeded summary none w))
        (λ _ _ _. (summary, refl))
  finished-Answers run_id since false w e = cc e

  -- The body of the `try`.
  abbrev tried : ℕ → Option ℕ → ℕ → Running D M → Result Exc Bool × Running D M
  tried fuel since size w =
      continue (load_names out error_text w) (λ _. clean_loop out error_text fuel since size)

  tried-Ends :
      (fuel : ℕ) (since : Option ℕ) (size : ℕ) (w : Running D M)
      → length w.job.index < fuel
      → Post (λ b _. b ≡ true) (λ _ _. Unit {0}) (tried fuel since size w)
  tried-Ends fuel since size w enough =
      continue-Post (λ _ w₁. w₁.job.index ≡ w.job.index) _ _ (load_names out error_text w)
        (λ _. clean_loop out error_text fuel since size) (load_names-Keeps w)
        (λ _ w₁ k.
          let few : length w₁.job.index < fuel =
            subst (λ (rows : List RawRow). length rows < fuel) (sym k) enough in
          clean_loop-Ends out error_text since size fuel w₁
            (omega (arith, few, select_where-length (is_wanted since w₁.after) w₁.job.index)))

  -- A clean run, with more fuel than there are index rows, never runs out of it: it returns a
  -- summary or it raises.
  pub full_clean_loop-Answers :
      (fuel : ℕ) (since : Option ℕ) (after : Option Key) (size : ℕ) (full_pass : Bool)
      (w : Running D M)
      → length w.job.index < fuel
      → Post
          (λ r _. (s : Summary) × (r ≡ some s))
          (λ _ _. Unit {0})
          (full_clean_loop out error_text fuel since after size full_pass w)
  unfolding full_clean_loop
  full_clean_loop-Answers fuel since after size full_pass w enough =
      continue-Post (λ _ w₁. w₁.job.index ≡ w.job.index) _ _
        (since_of out error_text full_pass since w) _ (since_of-Keeps full_pass since w)
        (λ since' w₁ k₁.
          let w₂ : Running D M = record w₁ { after = after; totals = no_counts; batches = 0 } in
          continue-Post (λ _ w₃. w₃.job.index ≡ w₁.job.index) _ _ (query_runs out error_text _ w₂) _
            (query_runs-Keeps _ w₂)
            (λ run_id w₃ k₃.
              continue-Post (λ _ w₄. w₄.job.index ≡ w₃.job.index) _ _
                (commit_runs out error_text w₃) _ (commit_runs-Keeps w₃)
                (λ _ w₄ k₄.
                  continue-Post (λ b _. b ≡ true) _ _
                    (recover (tried fuel since' size w₄) (fail out error_text run_id since'))
                    (finished out error_text run_id since')
                    (recover-Post (λ b _. b ≡ true) (λ _ _. Unit {0}) _ (tried fuel since' size w₄)
                      (fail out error_text run_id since')
                      (tried-Ends fuel since' size w₄ (
                        subst (λ (rows : List RawRow). length rows < fuel) (sym (k₄ ∙ k₃ ∙ k₁))
                          enough))
                      (λ e w₅ _.
                        Post-mono (λ _ _. ⊥) _ (λ _ _. Unit {0}) _
                          (fail out error_text run_id since' e w₅) (fail-Raises run_id since' e w₅)
                          (λ _ _ never. absurd never) (λ _ _ _. tt)))
                    (λ b w₅ e. finished-Answers run_id since' b w₅ e))))
