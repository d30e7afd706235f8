-- ===== src/Tests/Parsing.antt =====
-- The parsers at concrete responses.
use anime_app_backend.Prelude.{
  ℕ, ◌+◌, ◌*◌, ◌≡◌, refl, ◌⊎◌, ◌≤◌, ◌<◌, arith, true, none, some, String, [], ◌∷◌,
}
use anime_app_backend.Prelude.Int.{ℤ, pos}
use anime_app_backend.Prelude.Dict.{find, setdefault, IsDistinct}
use anime_app_backend.Json.{lookup, Json, int, str, arr, obj, nil, cons, end, field}
use anime_app_backend.Catalogue.{Episode, Review}
use anime_app_backend.Ingestion.Parsers.{Library, clean_text, to_int, same_int, list_of, get_of}
use anime_app_backend.Ingestion.Parsers.Links.{add_lists, add_items, named_items, tag_lists}
use anime_app_backend.Ingestion.Parsers.Links.Firsts.{list_pairs, named_items-Firsts}
use anime_app_backend.Ingestion.Parsers.Episodes.{clean_episodes}
use anime_app_backend.Ingestion.Parsers.Episodes.Lasts.{
  AreLasts, items_of, episodes_of, clean_episodes-AreLasts,
}
use anime_app_backend.Ingestion.Parsers.Reviews.{clean_reviews}
use anime_app_backend.Ingestion.Parsers.Reviews.Lasts.{reviews_of, clean_reviews-AreLasts}
use anime_app_backend.Ingestion.Parsers.Details.{minutes_of}
use anime_app_backend.Ingestion.Parsers.Details.Minutes.{minutes_of-near}

-- Texts are taken as they are, and decimals are the values themselves.
abbrev pub raw_values : Library Json String
raw_values = record {
  strip = λ t. t;
  unescape = λ t. t;
  lower = λ t. t;
  replace = λ t old new. t;
  parse_int = λ t. none;
  decimal = λ v. some v;
  is_nonzero = λ v. true;
  doubled = λ v. v;
  fromisoformat = λ t. some t;
  sha256_hex = λ t. t;
  duration_parts = λ t. [];
}

abbrev action : String → Json
action name = obj (field "mal_id" (int (pos 1)) (field "name" (str name) end))

-- Two lists have the same id.
abbrev full : Json
full = obj (
    field "data"
      (obj (
        field "genres" (arr (cons (action "Action") nil))
          (field "themes" (arr (cons (action "Action again") nil)) end)))
      end)

named_items-Firsts_example :
    IsDistinct same_int (named_items raw_values full tag_lists)
    × ((id : ℤ)
        → find same_int id (named_items raw_values full tag_lists)
          ≡ find same_int id (list_pairs raw_values (get_of "data" full) tag_lists))
named_items-Firsts_example = named_items-Firsts raw_values full tag_lists

tags : named_items raw_values full tag_lists ≡ (pos 1, "Action") ∷ []
unfolding named_items
tags = unfold add_lists add_items setdefault clean_text to_int lookup in refl

abbrev item : ℕ → String → Json
item n text =
    obj (field "mal_id" (int (pos n)) (field "review" (str text) (field "title" (str text) end)))

abbrev page : Json → Json
page items = obj (field "data" items end)

-- The first episode comes again on the second page.
abbrev pages : Json
pages = arr (
    cons (page (arr (cons (item 1 "a") (cons (item 2 "b") nil))))
      (cons (page (arr (cons (item 1 "c") nil))) nil))

clean_episodes-AreLasts_example :
    AreLasts
      (λ (e : Episode Json String). e.episode_number)
      (episodes_of raw_values (pos 9) (items_of (list_of pages)))
      (clean_episodes raw_values pages (pos 9))
clean_episodes-AreLasts_example = clean_episodes-AreLasts raw_values (pos 9) pages

abbrev reviews : Json
reviews = page (arr (cons (item 1 "a") (cons (item 1 "b") nil)))

clean_reviews-AreLasts_example :
    AreLasts
      (λ (r : Review String). r.mal_id)
      (reviews_of raw_values (pos 9) (list_of (get_of "data" reviews)))
      (clean_reviews raw_values reviews (pos 9))
clean_reviews-AreLasts_example = clean_reviews-AreLasts raw_values (pos 9) reviews

abbrev votes : ℕ → Json
votes n = obj (field "score" (int (pos 7)) (field "votes" (int (pos n)) end))

abbrev statistics : Json
statistics = page (
    obj (
      field "watching" (int (pos 1)) (
        field "completed" (int (pos 2)) (
          field "on_hold" (int (pos 3)) (
            field "dropped" (int (pos 4)) (
              field "plan_to_watch" (int (pos 5)) (
                field "total" (int (pos 15))
                  (field "scores" (arr (cons (votes 3) (cons (votes 4) nil))) end))))))))

abbrev seconds : ℕ
seconds = 90

minutes_of-near_example :
    ((minutes_of seconds ≡ none) × (seconds ≡ 0))
    ⊎ ((m : ℕ) × (minutes_of seconds ≡ some m)
        × (0 < seconds)
        × (1 ≤ m)
        × (seconds ≤ 60 * m + 30)
        × ((m ≡ 1) ⊎ (60 * m ≤ seconds + 30)))
minutes_of-near_example = minutes_of-near seconds (omega arith)
