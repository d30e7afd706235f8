-- ===== src/Ingestion/Clean.antt =====
-- `CleanAnimeJob` (app/ingestion/jobs/clean_raw_job.py): its state, and the single steps of the
-- session of the catalogue and of S3. Log lines and times are left out.
pub mod Collect
pub mod Batch
pub mod Loop
use anime_app_backend.Prelude.{
  ℕ, ◌+◌, Bool, true, false, Option, none, some, String, List, [], ◌∷◌, ◌++◌, str_eq, map,
  if◌then◌else◌,
}
use anime_app_backend.Prelude.Int.{ℤ, pos}
use anime_app_backend.Prelude.Lists.{any_of}
use anime_app_backend.Prelude.Dict.{put}
use anime_app_backend.Prelude.Dict
use anime_app_backend.Exec.{
  Exec, Result, ok, err, pure, modify, try_except, recover, continue, ◌>>=◌, ◌>>◌,
}
use anime_app_backend.Json.{Json}
use anime_app_backend.Catalogue.{Anime, AnimeStatisticsMal, Episode, Review}
use anime_app_backend.Catalogue.Upsert.{upsert}
use anime_app_backend.Catalogue.Repository.{
  Values, Tables, anime_model, name_model, statistics_model, episode_model, review_model,
  existing_anime_ids, to_set, replace_links,
}
use anime_app_backend.Ingestion.Enums.{
  Resource, Key, details, statistics, reviews, episodes, characters,
}
use anime_app_backend.Ingestion.Errors.{
  Exc, raw_store_error, database_error, unexpected, interrupted,
}
use anime_app_backend.Ingestion.Raw.{RawRow, get_batch}
use anime_app_backend.Ingestion.World.{object}
use anime_app_backend.Ingestion.Parsers.{Library, same_int}
use anime_app_backend.Ingestion.Parsers.Links.{
  Relation, same_relation, extract_tags, extract_studios, extract_relations,
}
use anime_app_backend.Ingestion.Parsers.Details.{clean_full}
use anime_app_backend.Ingestion.Parsers.Statistics.{clean_statistics}
use anime_app_backend.Ingestion.Parsers.Episodes.{clean_episodes}
use anime_app_backend.Ingestion.Parsers.Reviews.{clean_reviews}

-- `COUNT_KEYS`
pub record Counts : Type 0 where
  pub rows_read : ℕ
  pub anime_changed : ℕ
  pub tags_upserted : ℕ
  pub studios_upserted : ℕ
  pub tag_links_changed : ℕ
  pub studio_links_changed : ℕ
  pub relation_links_changed : ℕ
  pub statistics_written : ℕ
  pub episodes_written : ℕ
  pub reviews_written : ℕ
  pub parse_failed : ℕ
  pub skipped_no_anime : ℕ
  pub skipped_unsupported : ℕ

abbrev pub Names : Type 0
Names = List (ℤ × String)

-- `RawDoc`
pub record RawDoc : Type 0 where
  pub mal_id : ℤ
  pub resource : Resource
  pub payload : Json

-- `saved` is what is committed of the catalogue, `seen` what the session sees; `tags` and `studios`
-- are the dicts that all batches of a run share.
pub record State (D M : Type 0) : Type 0 where
  pub index : List RawRow
  pub objects : List (Key × Json)
  pub saved : Tables D M
  pub seen : Tables D M
  pub tags : Names
  pub studios : Names
  pub step : ℕ

-- What is outside: whether a step of the database or of S3 raises, and what; the time; Python's
-- library; and how Postgres keeps and compares values.
pub record Outside (D M : Type 0) : Type 0 where
  pub fails : ℕ → Option Exc
  pub utc : ℕ → ℕ
  pub lib : Library D M
  pub values : Values D M

abbrev pub Job : (D M : Type 0) → Type 0 → Type 0
Job D M A = Exec Exc (State D M) A

abbrev pub tick : {D M : Type 0} → State D M → State D M
tick w = record w { step = w.step + 1 }

module _ {D M : Type 0} (out : Outside D M) where
  -- A step that raises changes nothing.
  abbrev pub unless_fails : {A : Type 0} → (State D M → Result Exc A × State D M) → Job D M A
  unless_fails act w = elim (out.fails w.step) [ some e ↦ (err e, tick w) | none ↦ act (tick w) ]

  -- A read, and a write that returns a row count; `none` is a statement that Postgres refuses.
  unfoldable pub read : {A : Type 0} → (State D M → A) → Job D M A
  read f = unless_fails (λ w. (ok (f w), w))

  abbrev pub written : Option (ℕ × Tables D M) → State D M → Result Exc ℕ × State D M
  written none w = (err database_error, w)
  written (some (n, t)) w = (ok n, record w { seen = t })

  unfoldable pub write : (Tables D M → Option (ℕ × Tables D M)) → Job D M ℕ
  write f = unless_fails (λ w. written (f w.seen) w)

  unfoldable pub commit : Job D M (Unit {0})
  commit = unless_fails (λ w. (ok tt, record w { saved = w.seen }))

  unfoldable pub rollback : Job D M (Unit {0})
  rollback = unless_fails (λ w. (ok tt, record w { seen = w.saved }))

  -- `RawStore.get`: an object that is not there or not readable raises RawStoreError.
  abbrev pub found : RawRow → Option Json → State D M → Result Exc RawDoc × State D M
  found row none w = (err raw_store_error, w)
  found row (some payload) w = (
    ok (record { mal_id = pos row.key.mal_id; resource = row.key.resource; payload = payload }),
    w,
  )

  unfoldable pub load : RawRow → Job D M RawDoc
  load row = unless_fails (λ w. found row (object row.key w.objects) w)

  -- `_load_payloads`, one after the other.
  pub load_payloads : List RawRow → Job D M (List RawDoc)
  load_payloads [] w = (ok [], w)
  load_payloads (row ∷ rows) w = (do doc ← load row; docs ← load_payloads rows; pure (doc ∷ docs)) w
