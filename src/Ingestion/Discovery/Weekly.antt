-- ===== src/Ingestion/Discovery/Weekly.antt =====
-- The weekly discovery run: Tenrai's airing and upcoming lists, then every anime that the catalogue
-- holds as live (app/ingestion/jobs/discovery_job.py).
pub mod Chunks
use anime_app_backend.Prelude.{
  ℕ, zero, suc, ◌+◌, Bool, true, false, ◌||◌, Option, none, some, String, List, [], ◌∷◌, ◌++◌, ltb,
  ◌==◌, str_eq, if◌then◌else◌,
}
use anime_app_backend.Prelude.Lists.{length, take, drop}
use anime_app_backend.Exec.{Exec, ok, err, pure, continue, ◌>>=◌, ◌>>◌}
use anime_app_backend.Ingestion.Enums.{Resource, Key}
use anime_app_backend.Ingestion.Errors.{Exc, unexpected}
use anime_app_backend.Ingestion.Runtime.{Outside}
use anime_app_backend.Ingestion.World.{World, Database, query, commit}
use anime_app_backend.Ingestion.Listing.{rows_of}
use anime_app_backend.Ingestion.Discovery.{Summary, State, Job, send_rows}
use anime_app_backend.Ingestion.Discovery.Whole.{list_name, run_resumed}

abbrev pub tasks_per_statement : ℕ
tasks_per_statement = 5000

-- What the job reads of a row of the catalogue.
pub record Anime : Type 0 where
  pub mal_id : ℕ
  pub status : Option String

-- `ACTIVE_CATALOGUE_STATUSES`
abbrev pub is_active : Option String → Bool
is_active none = false
is_active (some s) = str_eq s "Currently Airing" || str_eq s "Not yet aired"

-- Into an ascending list, unless it is there.
abbrev pub insert_id : ℕ → List ℕ → List ℕ
insert_id id [] = id ∷ []
insert_id id (x ∷ xs) =
    let rest = insert_id id xs in
    if ltb id x then id ∷ x ∷ xs else if id == x then x ∷ xs else x ∷ rest

-- `sorted(await anime_ids_with_status(ACTIVE_CATALOGUE_STATUSES))`
unfoldable pub active_ids : List Anime → List ℕ
active_ids [] = []
active_ids (a ∷ rest) =
    let ids = active_ids rest in if is_active a.status then insert_id a.mal_id ids else ids

-- `[(mal_id, resource) for mal_id in ids for resource in resources]`
unfoldable pub rows_of_all : List Resource → List ℕ → List Key
rows_of_all resources [] = []
rows_of_all resources (id ∷ ids) = rows_of id resources ++ rows_of_all resources ids

-- `rows[start : start + size] for start in range(0, len(rows), size)`; as much fuel as there are
-- rows is enough, for a size that is not 0.
unfoldable pub chunks : ℕ → ℕ → List Key → List (List Key)
chunks zero size rows = []
chunks (suc fuel) size [] = []
chunks (suc fuel) size (k ∷ rows) = take size (k ∷ rows) ∷ chunks fuel size (drop size (k ∷ rows))

module _ (out : Outside) where
  -- One statement for each chunk, with the numbers that they return added up.
  pub reset_chunks : List (List Key) → ℕ × ℕ → Job (ℕ × ℕ)
  reset_chunks [] sums w = (ok sums, w)
  reset_chunks (rows ∷ rest) (inserted, reset) w =
      continue (send_rows out true rows w)
        (λ counts. reset_chunks rest (inserted + counts.0, reset + counts.1))

  -- `_reset_active_from_catalogue`, which returns its numbers of anime, of inserted tasks and of
  -- reset tasks.
  pub reset_active_from_catalogue : List Resource → List Anime → Job (ℕ × ℕ × ℕ)
  unfolding reset_chunks
  reset_active_from_catalogue resources catalogue = do
    ids ← query out (λ (db : Database). (active_ids catalogue, db))
    (λ (w : State).
        let rows = rows_of_all resources ids in
        (do
          sums ← reset_chunks (chunks (length rows) tasks_per_statement rows) (0, 0)
          commit out
          pure (length ids, sums.0, sums.1))
          w)

  -- `run_job_weekly`; without a catalogue it raises a ValueError.
  pub run_job_weekly :
      ℕ
      → String
      → List Resource
      → Option (List Anime)
      → Job (Option Summary × Option Summary × (ℕ × ℕ × ℕ))
  unfolding reset_active_from_catalogue
  run_job_weekly fuel job_name resources none w = (err unexpected, w)
  run_job_weekly fuel job_name resources (some catalogue) w =
      (do
        airing ←
            run_resumed out fuel (list_name job_name "_airing") (("status", "airing") ∷ [])
              resources none
        upcoming ←
            run_resumed out fuel (list_name job_name "_upcoming") (("status", "upcoming") ∷ [])
              resources none
        counts ← reset_active_from_catalogue resources catalogue
        pure (airing, upcoming, counts))
        w
