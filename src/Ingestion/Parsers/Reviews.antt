-- ===== src/Ingestion/Parsers/Reviews.antt =====
-- A stored `/reviews` response (app/ingestion/parsers/reviews.py).
pub mod Lasts
use anime_app_backend.Prelude.{Bool, true, false, Option, none, some, String, List, [], ◌∷◌}
use anime_app_backend.Prelude.Int.{ℤ}
use anime_app_backend.Prelude.Dict.{put}
use anime_app_backend.Json.{Json, obj, truthy}
use anime_app_backend.Catalogue.{Review, Reactions}
use anime_app_backend.Ingestion.Parsers.{
  Library, get_of, list_of, clean_text, clean_html_text, to_int, to_datetime, same_int,
}
use anime_app_backend.Ingestion.Parsers.Episodes.{values}

-- `if review is not None: reviews[review.mal_id] = review`
abbrev pub set_review : {M : Type 0} → Option (Review M) → List (ℤ × Review M) → List (ℤ × Review M)
set_review none reviews = reviews
set_review (some r) reviews = put same_int r.mal_id r reviews

module _ {D M : Type 0} (lib : Library D M) where
  abbrev pub reactions_of : Json → Reactions
  reactions_of reactions = record {
    overall = to_int lib (get_of "overall" reactions);
    nice = to_int lib (get_of "nice" reactions);
    love_it = to_int lib (get_of "love_it" reactions);
    funny = to_int lib (get_of "funny" reactions);
    confusing = to_int lib (get_of "confusing" reactions);
    informative = to_int lib (get_of "informative" reactions);
    well_written = to_int lib (get_of "well_written" reactions);
    creative = to_int lib (get_of "creative" reactions);
  }

  -- A review without an id or without text is skipped.
  abbrev pub review_with : Json → ℤ → Option ℤ → Option String → Option (Review M)
  review_with item anime_id (some mal_id) (some text) =
      let user = get_of "user" item in
      some (record {
        mal_id = mal_id;
        anime_id = anime_id;
        score = to_int lib (get_of "score" item);
        review = text;
        review_url = clean_text lib (get_of "url" item);
        username = clean_text lib (get_of "username" user);
        username_url = clean_text lib (get_of "url" user);
        date = to_datetime lib (get_of "date" item);
        is_spoiler = truthy (get_of "is_spoiler" item);
        is_preliminary = truthy (get_of "is_preliminary" item);
        episodes_watched = to_int lib (get_of "episodes_watched" item);
        reactions = reactions_of (get_of "reactions" item);
      })
  review_with item anime_id mal_id text = none

  -- `_clean_review`
  unfoldable pub clean_review : Json → ℤ → Option (Review M)
  clean_review (obj fields) anime_id =
      review_with (obj fields) anime_id (to_int lib (get_of "mal_id" (obj fields)))
        (clean_html_text lib (get_of "review" (obj fields)))
  clean_review item anime_id = none

  unfoldable pub add_reviews : List Json → ℤ → List (ℤ × Review M) → List (ℤ × Review M)
  add_reviews [] anime_id reviews = reviews
  add_reviews (item ∷ items) anime_id reviews =
      add_reviews items anime_id (set_review (clean_review item anime_id) reviews)

  unfoldable pub clean_reviews : Json → ℤ → List (Review M)
  clean_reviews payload anime_id =
      values (add_reviews (list_of (get_of "data" payload)) anime_id [])
