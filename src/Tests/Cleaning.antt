-- ===== src/Tests/Cleaning.antt =====
-- The catalogue and the clean job at concrete inputs.
use anime_app_backend.Prelude.{
  false, arith, ℕ, ◌/◌, ◌*◌, ◌≡◌, refl, none, some, String, List, [], ◌∷◌,
}
use anime_app_backend.Prelude.Int.{ℤ, pos}
use anime_app_backend.Prelude.Dict.{find}
use anime_app_backend.Exec.Post.{Post}
use anime_app_backend.Json.{Json, obj, end}
use anime_app_backend.Catalogue.{Anime}
use anime_app_backend.Catalogue.Upsert.{find_row, set_row, write_row, statement, statements, upsert}
use anime_app_backend.Catalogue.Columns.{is_distinct_from}
use anime_app_backend.Catalogue.Repository.{
  StoredAnime, Values, Tables, anime_model, links_of, is_in, replace_links,
}
use anime_app_backend.Catalogue.Repository.Mirrors.{
  columns_of, scores_of, last_anime, upsert_anime-Mirrors,
}
use anime_app_backend.Catalogue.Repository.Replaced.{is_wanted, replace_links-Replaces}
use anime_app_backend.Ingestion.Enums.{Key, details}
use anime_app_backend.Ingestion.Parsers.{same_int}
use anime_app_backend.Ingestion.Parsers.Links.Firsts.{same_int_refl, same_int_eq}
use anime_app_backend.Ingestion.Clean.{State, Outside}
use anime_app_backend.Ingestion.Clean.Collect.{no_counts}
use anime_app_backend.Ingestion.Clean.Batch.{clean_anime}
use anime_app_backend.Ingestion.Clean.Batch.Held.{Holds}
use anime_app_backend.Ingestion.Clean.Batch.Saves.{IsSaved, clean_anime-Saves}
use anime_app_backend.Ingestion.Clean.Loop.{Summary, Running, clean_loop, full_clean_loop}
use anime_app_backend.Ingestion.Clean.Loop.Ends.{full_clean_loop-Answers}
use anime_app_backend.Ingestion.Clean.Loop.Resumes.{StandsAt, clean_loop-StandsAt}
use anime_app_backend.Tests.Parsing.{raw_values}

abbrev anime : {D M : Type 0} → String → Anime D M
anime title = record {
  mal_id = pos 1;
  title = title;
  title_english = none;
  title_japanese = none;
  type = none;
  status = none;
  rating = none;
  source_material = none;
  season = none;
  year = none;
  episodes = none;
  duration_minutes = none;
  aired_from = none;
  aired_to = none;
  mal_score = none;
  scored_by_mal = none;
  members_mal = none;
  favorites_mal = none;
  rank_mal = none;
  popularity_mal = none;
  synopsis = none;
  synopsis_hash = none;
  background = none;
  image_url = none;
}

abbrev scored : String → ℤ → Anime ℤ ℤ
scored title score = record (anime title) { mal_score = some score }

abbrev stored_anime : String → ℤ → ℕ → StoredAnime ℤ ℤ
stored_anime title score at = record {
  columns = scored title score;
  anilist_score = none;
  imdb_score = some (pos 8);
  created_at = 0;
  updated_at = at;
}

-- A column of scores in tens.
abbrev tens : ℤ → ℤ
tens (pos n) = pos (n / 10 * 10)
tens n = n

abbrev integers : Values ℤ ℤ
integers = record { rounded = tens; same_decimal = same_int; same_moment = same_int }

abbrev update : List (Anime ℤ ℤ)
update = scored "b" (pos 76) ∷ []

abbrev before : List (StoredAnime ℤ ℤ)
before = stored_anime "a" (pos 60) 0 ∷ []

abbrev after : List (StoredAnime ℤ ℤ)
after = stored_anime "b" (pos 70) 5 ∷ []

-- A stored anime is renamed and scored again, and keeps its score of IMDb.
upsert_anime-Mirrors_example :
    (columns_of integers 5 (find_row (anime_model integers 5) (pos 1) after)
      ≡ last_anime integers 5
          (pos 1)
          update
          (columns_of integers 5 (find_row (anime_model integers 5) (pos 1) before)))
    × (scores_of integers 5 (find_row (anime_model integers 5) (pos 1) after)
        ≡ scores_of integers 5 (find_row (anime_model integers 5) (pos 1) before))
upsert_anime-Mirrors_example =
    upsert_anime-Mirrors integers 5 same_int_eq same_int_eq update before after 1
      (unfold upsert statements statement write_row find_row set_row is_distinct_from in refl)
      (pos 1)

-- The same new row once more is not distinct from the stored one, so nothing is written.
writes_once : upsert (anime_model integers 9) update after ≡ some (0, after)
unfolding upsert statements statement write_row find_row set_row is_distinct_from
writes_once = refl

-- The tags of anime 1 change from 4 to 5.
abbrev links : List (ℤ × ℤ)
links = (pos 1, pos 4) ∷ (pos 2, pos 4) ∷ []

abbrev wanted : List (ℤ × List ℤ)
wanted = (pos 1, pos 5 ∷ []) ∷ []

replace_links-Replaces_example :
    is_in same_int (pos 5) (links_of same_int (pos 1) (replace_links same_int wanted links).1)
    ≡ is_wanted same_int same_int_refl same_int_eq (pos 1) (pos 5) wanted links
replace_links-Replaces_example =
    replace_links-Replaces same_int same_int_refl same_int_eq wanted links
      (unfold find in (refl, tt)) (pos 1) (pos 5)

abbrev raw_columns : Values Json String
raw_columns = record { rounded = λ d. d; same_decimal = λ a b. false; same_moment = λ a b. false }

abbrev plain : Outside Json String
plain = record { fails = λ n. none; utc = λ n. n; lib = raw_values; values = raw_columns }

abbrev no_tables : Tables Json String
no_tables = record {
  animes = [];
  tags = [];
  studios = [];
  anime_tags = [];
  anime_studios = [];
  relations = [];
  statistics = [];
  episodes = [];
  reviews = [];
}

abbrev key : Key
key = record { mal_id = 1; resource = details }

-- One stored response, without data.
abbrev state : State Json String
state = record {
  index = record { key = key; size_bytes = 2; fetched_at = 0 } ∷ [];
  objects = (key, obj end) ∷ [];
  saved = no_tables;
  seen = no_tables;
  tags = [];
  studios = [];
  step = 0;
}

clean_anime-Saves_example :
    Post
      (λ r w'. IsSaved plain state r.0 w')
      (λ _ w'. Holds state w')
      (clean_anime plain none none 500 state)
clean_anime-Saves_example = clean_anime-Saves plain none none 500 state

abbrev running : Running Json String
running = record {
  job = state;
  runs_saved = [];
  runs_seen = [];
  after = none;
  totals = no_counts;
  batches = 0;
}

clean_loop-StandsAt_example :
    Post
      (λ _ w'. StandsAt plain (λ e. []) none 500 running w')
      (λ _ w'. StandsAt plain (λ e. []) none 500 running w')
      (clean_loop plain (λ e. []) 3 none 500 running)
clean_loop-StandsAt_example = clean_loop-StandsAt plain (λ e. []) none 500 3 running

full_clean_loop-Answers_example :
    Post
      (λ r _. (s : Summary) × (r ≡ some s))
      (λ _ _. Unit {0})
      (full_clean_loop plain (λ e. []) 2 none none 500 false running)
full_clean_loop-Answers_example =
    full_clean_loop-Answers plain (λ e. []) 2 none none 500 false running (omega arith)
