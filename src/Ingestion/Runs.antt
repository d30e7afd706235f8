-- ===== src/Ingestion/Runs.antt =====
-- `MetricsRepository` (app/ingestion/repository/metrics_repository.py): the run history
-- `ingestion_run`, the newest row first. `S` is the type of the summaries.
use Prim.Native.Char.{Char}
use anime_app_backend.Prelude.{
  ℕ, ◌+◌, Bool, true, false, ◌&&◌, Option, none, some, String, List, [], ◌∷◌, ◌==◌, str_eq,
  if◌then◌else◌,
}
use anime_app_backend.Prelude.Lists.{take}
use anime_app_backend.Ingestion.Enums.{RunStatus, running, succeeded}

abbrev pub error_max_chars : ℕ
error_max_chars = 500

-- A row of `ingestion_run` (app/ingestion/models.py).
pub record Run (S : Type 0) : Type 0 where
  pub id : ℕ
  pub job : String
  pub status : RunStatus
  pub started_at : ℕ
  pub finished_at : Option ℕ
  pub summary : Option S
  pub error : Option (List Char)

abbrev pub is_succeeded : RunStatus → Bool
is_succeeded succeeded = true
is_succeeded status = false

-- `error[:ERROR_MAX_CHARS] if error else None`: an empty text is stored as NULL too
abbrev pub cut_error : Option (List Char) → Option (List Char)
cut_error none = none
cut_error (some []) = none
cut_error (some (c ∷ text)) = some (take error_max_chars (c ∷ text))

module _ {S : Type 0} where
  -- The ids that the database hands out grow: the newest run has the greatest.
  abbrev pub next_id : List (Run S) → ℕ
  next_id [] = 1
  next_id (run ∷ runs) = run.id + 1

  unfoldable pub start_run : ℕ → String → List (Run S) → ℕ × List (Run S)
  start_run now job runs = (
    next_id runs,
    record {
      id = next_id runs;
      job = job;
      status = running;
      started_at = now;
      finished_at = none;
      summary = none;
      error = none;
    }
        ∷ runs,
  )

  unfoldable pub finish_run :
      ℕ → ℕ → RunStatus → S → Option (List Char) → List (Run S) → List (Run S)
  finish_run now run_id status summary error [] = []
  finish_run now run_id status summary error (run ∷ runs) =
      (if run.id == run_id
        then record run {
          status = status;
          finished_at = some now;
          summary = some summary;
          error = cut_error error;
        }
        else run)
      ∷ finish_run now run_id status summary error runs

  unfoldable pub latest_run : String → List (Run S) → Option (Run S)
  latest_run job [] = none
  latest_run job (run ∷ runs) = if str_eq run.job job then some run else latest_run job runs

  unfoldable pub last_succeeded_run_start : String → List (Run S) → Option ℕ
  last_succeeded_run_start job [] = none
  last_succeeded_run_start job (run ∷ runs) =
      if str_eq run.job job && is_succeeded run.status
      then some run.started_at
      else last_succeeded_run_start job runs
