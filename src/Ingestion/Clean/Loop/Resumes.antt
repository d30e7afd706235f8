-- ===== src/Ingestion/Clean/Loop/Resumes.antt =====
-- About where a run of the clean job can be resumed.
use Prim.Native.Char.{Char}
use anime_app_backend.Prelude.{ℕ, ◌+◌, zero, suc, ◌≡◌, refl, Option, none, some, List, arith}
use anime_app_backend.Exec.{Result, ok, err, continue}
use anime_app_backend.Exec.Post.{Post}
use anime_app_backend.Ingestion.Enums.{Key}
use anime_app_backend.Ingestion.Errors.{Exc}
use anime_app_backend.Ingestion.Clean.{Counts, State, Outside}
use anime_app_backend.Ingestion.Clean.Batch.{clean_anime}
use anime_app_backend.Ingestion.Clean.Batch.Held.{Holds}
use anime_app_backend.Ingestion.Clean.Batch.Saves.{IsSaved, clean_anime-Saves}
use anime_app_backend.Ingestion.Clean.Loop.{Running, count_batch, next_turn, clean_loop}

-- Batches, each of which returned its cursor, one after the other, with their number.
pub data Batches {D M : Type 0} (out : Outside D M) (since : Option ℕ) (batch_size : ℕ)
    (after : Option Key) (w : State D M) : Option Key → State D M → ℕ → Type 0 where
  nothing : Batches out since batch_size after w after w 0
  batch :
      {b : Option Key} {w₁ w₂ : State D M} {n : ℕ} (key : Key) (counts : Counts)
      → Batches out since batch_size after w b w₁ n
      → clean_anime out b since batch_size w₁ ≡ (ok (some key, counts), w₂)
      → Batches out since batch_size after w (some key) w₂ (suc n)

module _ {D M : Type 0} (out : Outside D M) (error_text : Exc → List Char) (since : Option ℕ)
    (batch_size : ℕ) where
  -- The loop stands at a cursor: the batches up to it, and no others, have been saved and counted.
  pub record StandsAt (begin : Running D M) (w : Running D M) : Type 0 where
    pub job : State D M
    pub n : ℕ
    pub batches : Batches out since batch_size begin.after begin.job w.after job n
    pub saved : w.job.saved ≡ job.saved
    pub counted : w.batches ≡ begin.batches + n

  abbrev pub Stands : {A : Type 0} → Running D M → Result Exc A × Running D M → Type 0
  Stands begin end = Post (λ _ w'. StandsAt begin w') (λ _ w'. StandsAt begin w') end

  from_turn :
      (begin w : Running D M) (n fuel : ℕ)
      → Batches out since batch_size begin.after begin.job w.after w.job n
      → w.batches ≡ begin.batches + n
      → ((w₁ : Running D M)
          → Batches out since batch_size begin.after begin.job w₁.after w₁.job (suc n)
          → w₁.batches ≡ begin.batches + suc n
          → Stands begin (clean_loop out error_text fuel since batch_size w₁))
      → (end : Result Exc (Option Key × Counts) × State D M)
      → clean_anime out w.after since batch_size w.job ≡ end
      → Post (λ r w'. IsSaved out w.job r.0 w') (λ _ w'. Holds w.job w') end
      → Stands begin (
          continue
            (end.0, record w { job = end.1 })
            (next_turn out error_text (clean_loop out error_text fuel since batch_size)))
  from_turn begin w n fuel bs counted rest (err x, j) e p = record {
    job = w.job;
    n = n;
    batches = bs;
    saved = p.saved;
    counted = counted;
  }
  from_turn begin w n fuel bs counted rest (ok (none, c), j) e p = record {
    job = w.job;
    n = n;
    batches = bs;
    saved = p.0.saved;
    counted = counted;
  }
  from_turn begin w n fuel bs counted rest (ok (some key, c), j) e p =
      rest (count_batch out error_text key c (record w { job = j })) (batch key c bs e)
        (omega (arith, counted))

  loop_from :
      (begin : Running D M) (fuel n : ℕ) (w : Running D M)
      → Batches out since batch_size begin.after begin.job w.after w.job n
      → w.batches ≡ begin.batches + n
      → Stands begin (clean_loop out error_text fuel since batch_size w)
  unfolding clean_loop
  loop_from begin zero n w bs counted = record {
    job = w.job;
    n = n;
    batches = bs;
    saved = refl;
    counted = counted;
  }
  loop_from begin (suc fuel) n w bs counted =
      from_turn begin w n fuel bs counted (λ w₁ bs₁ c₁. loop_from begin fuel (suc n) w₁ bs₁ c₁)
        (clean_anime out w.after since batch_size w.job) refl
        (clean_anime-Saves out w.after since batch_size w.job)

  -- However the loop of a clean run ends, also by an exception, what is saved is what the batches
  -- up to the cursor that it stands at have saved, each of which returned the cursor of the next
  -- one, and the run has counted exactly these batches: a run that resumes there skips none.
  pub clean_loop-StandsAt :
      (fuel : ℕ) (w : Running D M)
      → Post
          (λ _ w'. StandsAt w w')
          (λ _ w'. StandsAt w w')
          (clean_loop out error_text fuel since batch_size w)
  clean_loop-StandsAt fuel w = loop_from w fuel 0 w nothing (omega arith)
