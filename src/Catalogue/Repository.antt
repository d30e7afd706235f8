-- ===== src/Catalogue/Repository.antt =====
-- The statements of `CatalogueRepository` (app/catalogue/repository.py) on the tables of the
-- catalogue, lists in no particular order. A read or a write is one step of the session here; the
-- foreign keys are left to the database, which may fail any step.
pub mod Mirrors
pub mod Replaced
use anime_app_backend.Prelude.{
  ℕ, suc, ◌+◌, Bool, true, false, ◌&&◌, not, Option, none, some, String, List, [], ◌∷◌, ◌++◌,
  str_eq, if◌then◌else◌,
}
use mathlib.Core.Option.{map as map_option}
use anime_app_backend.Prelude.Int.{ℤ}
use anime_app_backend.Prelude.Lists.{any_of, length}
use anime_app_backend.Prelude.Dict.{first_some}
use anime_app_backend.Catalogue.{Anime, AnimeStatisticsMal, Episode, Review}
use anime_app_backend.Catalogue.Upsert.{Model, upsert}
use anime_app_backend.Catalogue.Columns.{is_distinct_from}
use anime_app_backend.Ingestion.Parsers.{same_int}
use anime_app_backend.Ingestion.Parsers.Links.{Relation, same_relation}

-- A row of `anime` with the columns of other pipelines and of the database.
pub record StoredAnime (D M : Type 0) : Type 0 where
  pub columns : Anime D M
  pub anilist_score : Option D
  pub imdb_score : Option D
  pub created_at : ℕ
  pub updated_at : ℕ

pub record StoredStatistics : Type 0 where
  pub columns : AnimeStatisticsMal
  pub updated_at : ℕ

pub record StoredEpisode (D M : Type 0) : Type 0 where
  pub columns : Episode D M
  pub anilist_score : Option D
  pub imdb_score : Option D

pub record StoredReview (M : Type 0) : Type 0 where
  pub columns : Review M
  pub updated_at : ℕ

pub record Tables (D M : Type 0) : Type 0 where
  pub animes : List (StoredAnime D M)
  pub tags : List (ℤ × String)
  pub studios : List (ℤ × String)
  pub anime_tags : List (ℤ × ℤ)
  pub anime_studios : List (ℤ × ℤ)
  pub relations : List (ℤ × Relation)
  pub statistics : List StoredStatistics
  pub episodes : List (StoredEpisode D M)
  pub reviews : List (StoredReview M)

-- The primary key of an episode.
abbrev pub same_episode : ℤ × ℤ → ℤ × ℤ → Bool
same_episode (a, m) (b, n) = same_int a b && same_int m n

-- How Postgres keeps and compares the values of the columns that are not text, integers or Booleans:
-- a decimal is rounded to the column's type, `Numeric(4, 2)`.
pub record Values (D M : Type 0) : Type 0 where
  pub rounded : D → D
  pub same_decimal : D → D → Bool
  pub same_moment : M → M → Bool

-- The columns of a new row as they are stored, and as EXCLUDED has them.
abbrev pub stored_as : {D M : Type 0} → Values D M → Anime D M → Anime D M
stored_as values a = record a { mal_score = map_option values.rounded a.mal_score }

-- IS DISTINCT FROM compares the columns but for the key.
abbrev pub anime_model : {D M : Type 0} → Values D M → ℕ → Model ℤ (Anime D M) (StoredAnime D M)
anime_model values now = record {
  same = same_int;
  key = λ a. a.mal_id;
  stored_key = λ s. s.columns.mal_id;
  inserted = λ a. record {
    columns = stored_as values a;
    anilist_score = none;
    imdb_score = none;
    created_at = now;
    updated_at = now;
  };
  updated = λ a s. record s {
    columns = record (stored_as values a) { mal_id = s.columns.mal_id };
    updated_at = now;
  };
  is_update =
      λ a s. is_distinct_from values.same_decimal values.same_moment s.columns (stored_as values a);
}

abbrev pub name_model : Model ℤ (ℤ × String) (ℤ × String)
name_model = record {
  same = same_int;
  key = λ r. r.0;
  stored_key = λ s. s.0;
  inserted = λ r. r;
  updated = λ r s. (s.0, r.1);
  is_update = λ r s. true;
}

abbrev pub statistics_model : ℕ → Model ℤ AnimeStatisticsMal StoredStatistics
statistics_model now = record {
  same = same_int;
  key = λ r. r.anime_id;
  stored_key = λ s. s.columns.anime_id;
  inserted = λ r. record { columns = r; updated_at = now };
  updated =
      λ r s. record { columns = record r { anime_id = s.columns.anime_id }; updated_at = now };
  is_update = λ r s. true;
}

-- `keep_when_new_is_null` for the synopsis and its hash
abbrev pub episode_model :
    {D M : Type 0} → Values D M → Model (ℤ × ℤ) (Episode D M) (StoredEpisode D M)
episode_model values = record {
  same = same_episode;
  key = λ e. (e.anime_id, e.episode_number);
  stored_key = λ s. (s.columns.anime_id, s.columns.episode_number);
  inserted = λ e. record {
    columns = record e { mal_score = map_option values.rounded e.mal_score };
    anilist_score = none;
    imdb_score = none;
  };
  updated = λ e s. record s {
    columns = record e {
      anime_id = s.columns.anime_id;
      episode_number = s.columns.episode_number;
      mal_score = map_option values.rounded e.mal_score;
      synopsis = first_some e.synopsis s.columns.synopsis;
      synopsis_hash = first_some e.synopsis_hash s.columns.synopsis_hash;
    };
  };
  is_update = λ e s. true;
}

abbrev pub review_model : {M : Type 0} → ℕ → Model ℤ (Review M) (StoredReview M)
review_model now = record {
  same = same_int;
  key = λ r. r.mal_id;
  stored_key = λ s. s.columns.mal_id;
  inserted = λ r. record { columns = r; updated_at = now };
  updated = λ r s. record { columns = record r { mal_id = s.columns.mal_id }; updated_at = now };
  is_update = λ r s. true;
}

-- `existing_anime_ids`
unfoldable pub existing_anime_ids : {D M : Type 0} → List ℤ → List (StoredAnime D M) → List ℤ
existing_anime_ids ids [] = []
existing_anime_ids ids (s ∷ table) =
    let rest = existing_anime_ids ids table in
    if any_of (same_int s.columns.mal_id) ids then s.columns.mal_id ∷ rest else rest

-- `anime_exists`
unfoldable pub anime_exists : {D M : Type 0} → ℤ → List (StoredAnime D M) → Bool
anime_exists mal_id table = any_of (λ s. same_int s.columns.mal_id mal_id) table

-- `get_synopsis_hash`
unfoldable pub get_synopsis_hash : {D M : Type 0} → ℤ → List (StoredAnime D M) → Option String
get_synopsis_hash mal_id [] = none
get_synopsis_hash mal_id (s ∷ table) =
    if same_int s.columns.mal_id mal_id
    then s.columns.synopsis_hash
    else get_synopsis_hash mal_id table

-- `_replace_links` for links of the type `L`: the rows of a link table are anime with links.
module _ {L : Type 0} (same : L → L → Bool) where
  abbrev pub is_in : L → List L → Bool
  is_in l links = any_of (same l) links

  abbrev pub is_part : List L → List L → Bool
  is_part [] ys = true
  is_part (x ∷ xs) ys = is_in x ys && is_part xs ys

  -- `==` on sets
  abbrev pub same_set : List L → List L → Bool
  same_set xs ys = is_part xs ys && is_part ys xs

  -- `{link for link in links}`
  unfoldable pub to_set : List L → List L
  to_set [] = []
  to_set (l ∷ links) = let rest = to_set links in if is_in l rest then rest else l ∷ rest

  -- `current[anime_id]`
  unfoldable pub links_of : ℤ → List (ℤ × L) → List L
  links_of id [] = []
  links_of id ((a, l) ∷ table) =
      let rest = links_of id table in if same_int a id then l ∷ rest else rest

  -- The anime whose links differ, with the links they are to have.
  unfoldable pub changed_links : List (ℤ × List L) → List (ℤ × L) → List (ℤ × List L)
  changed_links [] table = []
  changed_links ((id, links) ∷ wanted) table =
      let rest = changed_links wanted table in
      if same_set (links_of id table) links then rest else (id, links) ∷ rest

  -- `DELETE … WHERE anime_id IN changed`
  unfoldable pub delete_links : List (ℤ × List L) → List (ℤ × L) → List (ℤ × L)
  delete_links changed [] = []
  delete_links changed ((a, l) ∷ table) =
      let rest = delete_links changed table in
      if any_of (λ (c : ℤ × List L). same_int a c.0) changed then rest else (a, l) ∷ rest

  abbrev pub rows_for : ℤ → List L → List (ℤ × L)
  rows_for id [] = []
  rows_for id (l ∷ links) = (id, l) ∷ rows_for id links

  unfoldable pub link_rows : List (ℤ × List L) → List (ℤ × L)
  link_rows [] = []
  link_rows ((id, links) ∷ changed) = rows_for id links ++ link_rows changed

  unfoldable pub replace_links : List (ℤ × List L) → List (ℤ × L) → ℕ × List (ℤ × L)
  replace_links wanted table =
      let changed = changed_links wanted table in
      (length changed, delete_links changed table ++ link_rows changed)
