-- ===== src/Ingestion/Clean/Collect.antt =====
-- What the loops of `CleanAnimeJob` collect from the documents of a batch
-- (app/ingestion/jobs/clean_raw_job.py), before anything is written.
use anime_app_backend.Prelude.{
  ℕ, ◌+◌, Bool, true, false, Option, none, some, String, List, [], ◌∷◌, ◌++◌, str_eq, if◌then◌else◌,
}
use anime_app_backend.Prelude.Int.{ℤ}
use anime_app_backend.Prelude.Lists.{any_of}
use anime_app_backend.Prelude.Dict.{find, put, put_all}
use anime_app_backend.Json.{Json}
use anime_app_backend.Catalogue.{Anime, AnimeStatisticsMal, Episode, Review}
use anime_app_backend.Ingestion.Enums.{Resource, details, statistics, reviews, episodes}
use anime_app_backend.Ingestion.Parsers.{same_int}
use anime_app_backend.Ingestion.Parsers.Links.{
  Relation, extract_tags, extract_studios, extract_relations,
}
use anime_app_backend.Ingestion.Parsers.Details.{clean_full}
use anime_app_backend.Ingestion.Parsers.Statistics.{clean_statistics}
use anime_app_backend.Ingestion.Parsers.Episodes.{clean_episodes}
use anime_app_backend.Ingestion.Parsers.Reviews.{clean_reviews}
use anime_app_backend.Ingestion.Clean.{Counts, Names, RawDoc, Outside}

abbrev pub no_counts : Counts
no_counts = record {
  rows_read = 0;
  anime_changed = 0;
  tags_upserted = 0;
  studios_upserted = 0;
  tag_links_changed = 0;
  studio_links_changed = 0;
  relation_links_changed = 0;
  statistics_written = 0;
  episodes_written = 0;
  reviews_written = 0;
  parse_failed = 0;
  skipped_no_anime = 0;
  skipped_unsupported = 0;
}

abbrev pub is_details : Resource → Bool
is_details details = true
is_details resource = false

-- The documents of `_clean_rows`, those of details and the others.
abbrev pub only_details : Bool → List RawDoc → List RawDoc
only_details wanted [] = []
only_details wanted (doc ∷ docs) =
    let rest = only_details wanted docs in
    if is_details doc.resource
    then (if wanted then doc ∷ rest else rest)
    else (if wanted then rest else doc ∷ rest)

-- What the loop of `_clean_details` collects.
pub record Collected (D M : Type 0) : Type 0 where
  pub animes : List (Anime D M)
  pub tag_ids : List (ℤ × List ℤ)
  pub studio_ids : List (ℤ × List ℤ)
  pub relations : List (ℤ × List Relation)
  pub new_tags : Names
  pub new_studios : Names
  pub parse_failed : ℕ

-- The new or renamed tags and studios that `_clean_rows` returns.
pub record Learned : Type 0 where
  pub new_tags : Names
  pub new_studios : Names

-- What the loop of `_clean_others` collects.
pub record Others (D M : Type 0) : Type 0 where
  pub statistics : List AnimeStatisticsMal
  pub episodes : List (Episode D M)
  pub reviews : List (Review M)
  pub parse_failed : ℕ
  pub skipped_no_anime : ℕ
  pub skipped_unsupported : ℕ

abbrev pub ids_of : Names → List ℤ
ids_of [] = []
ids_of ((id, name) ∷ names) = id ∷ ids_of names

-- `names.get(mal_id) != name`
abbrev pub differs : Option String → String → Bool
differs none name = true
differs (some old) name = if str_eq old name then false else true

-- The names that are new or changed.
abbrev pub new_names : Names → Names → Names
new_names known [] = []
new_names known ((id, name) ∷ names) =
    let rest = new_names known names in
    if differs (find same_int id known) name then (id, name) ∷ rest else rest

module _ {D M : Type 0} (out : Outside D M) where
  -- The rest of the body of the loop of `_clean_details`, for what `clean_full` made of a document.
  pub collect_anime : Names → Names → Json → Option (Anime D M) → Collected D M → Collected D M
  collect_anime tags studios payload none c = record c { parse_failed = c.parse_failed + 1 }
  collect_anime tags studios payload (some anime) c =
      let anime_tags = extract_tags out.lib payload in
      let anime_studios = extract_studios out.lib payload in
      record c {
        animes = c.animes ++ anime ∷ [];
        tag_ids = put same_int anime.mal_id (ids_of anime_tags) c.tag_ids;
        studio_ids = put same_int anime.mal_id (ids_of anime_studios) c.studio_ids;
        relations = put same_int anime.mal_id (extract_relations out.lib payload) c.relations;
        new_tags = put_all same_int (new_names tags anime_tags) c.new_tags;
        new_studios = put_all same_int (new_names studios anime_studios) c.new_studios;
      }

  -- The loop; `none` is an AttributeError of `clean_full`.
  unfoldable pub collect : Names → Names → List RawDoc → Collected D M → Option (Collected D M)
  unfolding collect_anime
  collect tags studios [] c = some c
  collect tags studios (doc ∷ docs) c = elim (clean_full out.lib doc.payload) [
    | none ↦ none
    | some anime ↦ collect tags studios docs (collect_anime tags studios doc.payload anime c)
  ]

  -- The body of the loop of `_clean_others`, for an anime that has a row or not.
  pub take_statistics : Option AnimeStatisticsMal → Others D M → Others D M
  take_statistics none o = record o { parse_failed = o.parse_failed + 1 }
  take_statistics (some row) o = record o { statistics = o.statistics ++ row ∷ [] }

  pub take_resource : Resource → RawDoc → Others D M → Others D M
  unfolding take_statistics
  take_resource statistics doc o =
      take_statistics (clean_statistics out.lib doc.payload doc.mal_id) o
  take_resource episodes doc o = record o {
    episodes = o.episodes ++ clean_episodes out.lib doc.payload doc.mal_id;
  }
  take_resource reviews doc o = record o {
    reviews = o.reviews ++ clean_reviews out.lib doc.payload doc.mal_id;
  }
  take_resource resource doc o = record o { skipped_unsupported = o.skipped_unsupported + 1 }

  unfoldable pub take_all : List ℤ → List RawDoc → Others D M → Others D M
  unfolding take_resource
  take_all present [] o = o
  take_all present (doc ∷ docs) o = take_all present docs (
      if any_of (same_int doc.mal_id) present
      then take_resource doc.resource doc o
      else record o { skipped_no_anime = o.skipped_no_anime + 1 })

  abbrev pub no_others : Others D M
  no_others = record {
    statistics = [];
    episodes = [];
    reviews = [];
    parse_failed = 0;
    skipped_no_anime = 0;
    skipped_unsupported = 0;
  }
