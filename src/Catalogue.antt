-- ===== src/Catalogue.antt =====
-- The rows of the catalogue as the parsers build them: the columns that the Tenrai pipeline owns
-- (app/catalogue/models.py). `D` is the type of decimals, `M` that of moments.
pub mod Upsert
pub mod Columns
pub mod Repository
use anime_app_backend.Prelude.{ℕ, Bool, Option, String, List}
use anime_app_backend.Prelude.Int.{ℤ}

pub record Anime (D M : Type 0) : Type 0 where
  pub mal_id : ℤ
  pub title : String
  pub title_english : Option String
  pub title_japanese : Option String
  pub type : Option String
  pub status : Option String
  pub rating : Option String
  pub source_material : Option String
  pub season : Option String
  pub year : Option ℤ
  pub episodes : Option ℤ
  pub duration_minutes : Option ℕ
  pub aired_from : Option M
  pub aired_to : Option M
  pub mal_score : Option D
  pub scored_by_mal : Option ℤ
  pub members_mal : Option ℤ
  pub favorites_mal : Option ℤ
  pub rank_mal : Option ℤ
  pub popularity_mal : Option ℤ
  pub synopsis : Option String
  pub synopsis_hash : Option String
  pub background : Option String
  pub image_url : Option String

-- The counts are NOT NULL; `votes` has `votes_1` to `votes_10` by their score.
pub record AnimeStatisticsMal : Type 0 where
  pub anime_id : ℤ
  pub watching : ℤ
  pub completed : ℤ
  pub on_hold : ℤ
  pub dropped : ℤ
  pub plan_to_watch : ℤ
  pub total : ℤ
  pub votes : List (ℤ × Option ℤ)

pub record Episode (D M : Type 0) : Type 0 where
  pub anime_id : ℤ
  pub episode_number : ℤ
  pub title : Option String
  pub title_japanese : Option String
  pub title_romanji : Option String
  pub aired : Option M
  pub duration_seconds : Option ℤ
  pub synopsis : Option String
  pub synopsis_hash : Option String
  pub filler : Bool
  pub recap : Bool
  pub mal_score : Option D

pub record Reactions : Type 0 where
  pub overall : Option ℤ
  pub nice : Option ℤ
  pub love_it : Option ℤ
  pub funny : Option ℤ
  pub confusing : Option ℤ
  pub informative : Option ℤ
  pub well_written : Option ℤ
  pub creative : Option ℤ

pub record Review (M : Type 0) : Type 0 where
  pub mal_id : ℤ
  pub anime_id : ℤ
  pub score : Option ℤ
  pub review : String
  pub review_url : Option String
  pub username : Option String
  pub username_url : Option String
  pub date : Option M
  pub is_spoiler : Bool
  pub is_preliminary : Bool
  pub episodes_watched : Option ℤ
  pub reactions : Reactions
