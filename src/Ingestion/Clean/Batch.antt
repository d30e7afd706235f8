-- ===== src/Ingestion/Clean/Batch.antt =====
-- One batch of `CleanAnimeJob` (app/ingestion/jobs/clean_raw_job.py): from the index rows to the
-- tables of the catalogue.
pub mod Held
pub mod Saves
pub mod Progress
use anime_app_backend.Prelude.{
  ℕ, ◌+◌, Bool, true, false, Option, none, some, String, List, [], ◌∷◌, ◌++◌, str_eq, map,
  if◌then◌else◌,
}
use anime_app_backend.Prelude.Int.{ℤ, pos}
use anime_app_backend.Prelude.Lists.{any_of, length}
use anime_app_backend.Prelude.Dict.{find, put, put_all}
use anime_app_backend.Exec.{
  Exec, Result, ok, err, pure, modify, try_except, recover, continue, ◌>>=◌, ◌>>◌,
}
use anime_app_backend.Json.{Json}
use anime_app_backend.Catalogue.{Anime, AnimeStatisticsMal, Episode, Review}
use anime_app_backend.Catalogue.Upsert.{upsert}
use anime_app_backend.Catalogue.Repository.{
  Tables, anime_model, name_model, statistics_model, episode_model, review_model,
  existing_anime_ids, to_set, replace_links,
}
use anime_app_backend.Ingestion.Enums.{
  Resource, Key, details, statistics, reviews, episodes, characters,
}
use anime_app_backend.Ingestion.Errors.{Exc, unexpected, interrupted}
use anime_app_backend.Ingestion.Raw.{RawRow, get_batch}
use anime_app_backend.Ingestion.Parsers.{same_int}
use anime_app_backend.Ingestion.Parsers.Links.{
  Relation, same_relation, extract_tags, extract_studios, extract_relations,
}
use anime_app_backend.Ingestion.Parsers.Details.{clean_full}
use anime_app_backend.Ingestion.Parsers.Statistics.{clean_statistics}
use anime_app_backend.Ingestion.Parsers.Episodes.{clean_episodes}
use anime_app_backend.Ingestion.Parsers.Reviews.{clean_reviews}
use anime_app_backend.Ingestion.Clean.{
  Counts, Names, RawDoc, State, Outside, Job, read, write, commit, rollback, load_payloads,
}
use anime_app_backend.Ingestion.Clean.Collect.{
  no_counts, is_details, only_details, Collected, Learned, Others, ids_of, differs, new_names,
  collect_anime, collect, take_statistics, take_resource, take_all, no_others,
}

abbrev pub stored : {S T : Type 0} → (List S → T) → Option (ℕ × List S) → Option (ℕ × T)
stored f none = none
stored f (some (n, rows)) = some (n, f rows)

-- `_upsert` and `_replace_links` do nothing for no rows.
abbrev pub unless_empty : {S A : Type 0} → List A → Exec Exc S ℕ → Exec Exc S ℕ
unless_empty [] m = pure 0
unless_empty (a ∷ rows) m = m

abbrev pub last_key : RawRow → List RawRow → Key
last_key row [] = row.key
last_key row (next ∷ rows) = last_key next rows

module _ {D M : Type 0} (out : Outside D M) where
  -- The writes of `_clean_details`, in the order that the links need.
  pub write_details : Counts → Option (Collected D M) → Job D M (Counts × Learned)
  write_details counts none w = (err unexpected, w)
  write_details counts (some c) w =
      let now = out.utc w.step in
      (do
        anime_changed ← unless_empty c.animes (
            write out (λ (t : Tables D M).
              stored (λ rows. record t { animes = rows })
                (upsert (anime_model out.values now) c.animes t.animes)))
        tags_upserted ← unless_empty c.new_tags (
            write out (λ (t : Tables D M).
              stored (λ rows. record t { tags = rows }) (upsert name_model c.new_tags t.tags)))
        studios_upserted ← unless_empty c.new_studios (
            write out (λ (t : Tables D M).
              stored (λ rows. record t { studios = rows })
                (upsert name_model c.new_studios t.studios)))
        tag_links ← unless_empty c.tag_ids (
            write out (λ (t : Tables D M).
              stored (λ rows. record t { anime_tags = rows })
                (some (replace_links same_int (sets same_int c.tag_ids) t.anime_tags))))
        studio_links ← unless_empty c.studio_ids (
            write out (λ (t : Tables D M).
              stored (λ rows. record t { anime_studios = rows })
                (some (replace_links same_int (sets same_int c.studio_ids) t.anime_studios))))
        relation_links ← unless_empty c.relations (
            write out (λ (t : Tables D M).
              stored (λ rows. record t { relations = rows })
                (some (replace_links same_relation (sets same_relation c.relations) t.relations))))
        pure (
          record counts {
            anime_changed = anime_changed;
            tags_upserted = tags_upserted;
            studios_upserted = studios_upserted;
            tag_links_changed = tag_links;
            studio_links_changed = studio_links;
            relation_links_changed = relation_links;
            parse_failed = counts.parse_failed + c.parse_failed;
          },
          record { new_tags = c.new_tags; new_studios = c.new_studios },
        ))
        w
    where
      sets : {L : Type 0} → (L → L → Bool) → List (ℤ × List L) → List (ℤ × List L)
      sets same [] = []
      sets same ((id, links) ∷ d) = (id, to_set same links) ∷ sets same d

  abbrev pub present_of : List RawDoc → Job D M (List ℤ)
  present_of [] = pure []
  present_of (doc ∷ docs) = read out (λ (w : State D M).
      existing_anime_ids (map (λ (d : RawDoc). d.mal_id) (doc ∷ docs)) w.seen.animes)

  pub write_others : Counts → Others D M → Job D M Counts
  write_others counts o w =
      let now = out.utc w.step in
      (do
        statistics_written ← unless_empty o.statistics (
            write out (λ (t : Tables D M).
              stored (λ rows. record t { statistics = rows })
                (upsert (statistics_model now) o.statistics t.statistics)))
        episodes_written ← unless_empty o.episodes (
            write out (λ (t : Tables D M).
              stored (λ rows. record t { episodes = rows })
                (upsert (episode_model out.values) o.episodes t.episodes)))
        reviews_written ← unless_empty o.reviews (
            write out (λ (t : Tables D M).
              stored (λ rows. record t { reviews = rows })
                (upsert (review_model now) o.reviews t.reviews)))
        pure (record counts {
          statistics_written = statistics_written;
          episodes_written = episodes_written;
          reviews_written = reviews_written;
          parse_failed = counts.parse_failed + o.parse_failed;
          skipped_no_anime = o.skipped_no_anime;
          skipped_unsupported = o.skipped_unsupported;
        }))
        w

  -- `_clean_others`
  pub clean_others : List RawDoc → Counts → Job D M Counts
  unfolding write_others
  clean_others docs counts = do
    present ← present_of docs
    write_others counts (take_all out present docs (no_others out))

  -- `_clean_details`
  pub clean_details : List RawDoc → Counts → Job D M (Counts × Learned)
  unfolding write_details
  clean_details docs counts w =
      write_details counts
        (collect out w.tags w.studios docs (record {
          animes = [];
          tag_ids = [];
          studio_ids = [];
          relations = [];
          new_tags = [];
          new_studios = [];
          parse_failed = 0;
        }))
        w

  abbrev pub with_others : List RawDoc → Counts × Learned → Job D M (Counts × Learned)
  with_others docs written = do counts ← clean_others docs written.0; pure (counts, written.1)

  -- `_clean_rows`
  pub clean_rows : List RawDoc → Counts → Job D M (Counts × Learned)
  unfolding clean_details clean_others
  clean_rows docs counts = do
    written ← clean_details (only_details true docs) counts
    with_others (only_details false docs) written

  -- `except Exception: rollback; raise`, which lets an interruption pass
  pub roll_back : Exc → State D M → Result Exc (Counts × Learned) × State D M
  roll_back interrupted w = (err interrupted, w)
  roll_back e w = continue (rollback out w) (λ _ w'. (err e, w'))

  -- What follows the commit: the dicts learn the new names.
  abbrev pub learn : Learned → State D M → Result Exc (Unit {0}) × State D M
  learn l w = (
    ok tt,
    record w {
      tags = put_all same_int l.new_tags w.tags;
      studios = put_all same_int l.new_studios w.studios;
    },
  )

  abbrev pub committed : Counts × Learned → Job D M (Counts × Learned)
  committed written = do commit out; pure written

  -- The body of the `try`.
  abbrev pub write_batch : Counts → List RawDoc → Job D M (Counts × Learned)
  write_batch counts docs = do written ← clean_rows docs counts; committed written

  abbrev pub answer : Key → Counts × Learned → Job D M (Option Key × Counts)
  answer key written = do learn written.1; pure (some key, written.0)

  abbrev pub clean_docs : Key → Counts → List RawDoc → Job D M (Option Key × Counts)
  clean_docs key counts docs = do
    written ← try_except (write_batch counts docs) roll_back
    answer key written

  pub clean_batch : List RawRow → Job D M (Option Key × Counts)
  unfolding clean_rows roll_back
  clean_batch [] w = (ok (none, no_counts), w)
  clean_batch (row ∷ rows) w =
      (do
        docs ← load_payloads out (row ∷ rows)
        clean_docs (last_key row rows) (record no_counts { rows_read = length (row ∷ rows) }) docs)
        w

  -- `_clean_anime`, whose cursor is none when nothing was left to read.
  unfoldable pub clean_anime : Option Key → Option ℕ → ℕ → Job D M (Option Key × Counts)
  unfolding clean_batch
  clean_anime after since batch_size = do
    rows ← read out (λ (w : State D M). get_batch since after batch_size w.index)
    clean_batch rows
