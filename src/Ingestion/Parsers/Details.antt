-- ===== src/Ingestion/Parsers/Details.antt =====
-- A stored `/full` response as a row of `anime` (app/ingestion/parsers/details.py).
pub mod Minutes
use anime_app_backend.Prelude.{
  ℕ, ◌+◌, ◌*◌, ◌/◌, ◌%◌, ◌==◌, ltb, max, Bool, true, false, ◌||◌, ◌&&◌, Option, none, some, String,
  List, [], ◌∷◌, str_eq, if◌then◌else◌,
}
use anime_app_backend.Prelude.Int.{ℤ}
use anime_app_backend.Prelude.Dict.{first_some}
use anime_app_backend.Json
use anime_app_backend.Json.{Json, str, obj, end, is_zero, or_else}
use anime_app_backend.Catalogue.{Anime}
use anime_app_backend.Ingestion.Parsers.{
  Library, TimeUnit, hr, min, sec, non_blank, get_of, clean_text, clean_html_text, to_int,
  to_decimal, to_datetime,
}
use anime_app_backend.Ingestion.Parsers.Episodes.{hash_of}

-- `none` is the AttributeError of a `.get` on a value that is no dict.
infixl 10 ◌>>=◌
abbrev ◌>>=◌ : {A B : Type 0} → Option A → (A → Option B) → Option B
none >>= f = none
(some a) >>= f = f a

-- `SECONDS_PER_UNIT`
abbrev pub seconds_per_unit : TimeUnit → ℕ
seconds_per_unit hr = 3600
seconds_per_unit min = 60
seconds_per_unit sec = 1

abbrev pub total_seconds : List (ℕ × TimeUnit) → ℕ
total_seconds [] = 0
total_seconds ((n, u) ∷ parts) = n * seconds_per_unit u + total_seconds parts

-- `round(seconds / 60)`, which rounds a half to the even number. The code divides floats: below
-- 2^50 seconds the float quotient rounds to the same integer, since it lies much closer to the
-- exact one than the 1/60 by which a quotient that is no half misses one.
abbrev pub rounded_minutes : ℕ → ℕ
rounded_minutes seconds =
    if ltb (seconds % 60) 30 || ((seconds % 60 == 30) && (seconds / 60 % 2 == 0))
    then seconds / 60
    else seconds / 60 + 1

-- `max(1, round(seconds / 60)) if seconds else None`
unfoldable pub minutes_of : ℕ → Option ℕ
minutes_of seconds = if seconds == 0 then none else some (max 1 (rounded_minutes seconds))

abbrev pub rewrite_tag : String
rewrite_tag = "[Written by MAL Rewrite]"

-- `text in PLACEHOLDER_SYNOPSES`
abbrev pub is_placeholder : String → Bool
is_placeholder text =
    str_eq text "no synopsis information has been added to this title."
    || str_eq text "no synopsis has been added for this title."

-- `value or {}`
abbrev pub or_empty : Json → Json
or_empty value = or_else value (obj end)

module _ {D M : Type 0} (lib : Library D M) where
  -- `_duration_minutes`
  unfoldable pub duration_minutes : Json → Option ℕ
  duration_minutes (str text) = minutes_of (total_seconds (lib.duration_parts text))
  duration_minutes value = none

  abbrev pub written : String → Option String
  written text = if str_eq text "" || is_placeholder (lib.lower text) then none else some text

  abbrev pub without_tag : Option String → Option String
  without_tag none = none
  without_tag (some text) = written (lib.strip (lib.replace text rewrite_tag ""))

  -- `_clean_synopsis`
  unfoldable pub clean_synopsis : Json → Option String
  clean_synopsis value = without_tag (clean_html_text lib value)

  abbrev pub year_or_aired : Option ℤ → Json → Option (Option ℤ)
  year_or_aired (some year) aired = some (some year)
  year_or_aired none aired = do
    prop ← Json.get "prop" aired
    from ← Json.get "from" (or_empty prop)
    year ← Json.get "year" (or_empty from)
    some (to_int lib year)

  -- `_year`
  unfoldable pub year_of : Json → Json → Option (Option ℤ)
  year_of body aired = year_or_aired (to_int lib (get_of "year" body)) aired

  abbrev pub url_or_webp : Option String → Json → Option (Option String)
  url_or_webp (some url) webp = some (some url)
  url_or_webp none webp = do large ← Json.get "large_image_url" webp; some (clean_text lib large)

  abbrev pub url_or_small : Option String → Json → Json → Option (Option String)
  url_or_small (some url) jpg webp = some (some url)
  url_or_small none jpg webp = do
    small ← Json.get "image_url" jpg
    url_or_webp (clean_text lib small) webp

  -- `_image_url`
  unfoldable pub image_url : Json → Option (Option String)
  image_url (obj fields) =
      let jpg = or_empty (get_of "jpg" (obj fields)) in
      let webp = or_empty (get_of "webp" (obj fields)) in
      do large ← Json.get "large_image_url" jpg; url_or_small (clean_text lib large) jpg webp
  image_url images = some none

  unfoldable pub title_of : Json → Option String
  title_of body = first_some (clean_html_text lib (get_of "title" body)) (
      first_some (clean_html_text lib (get_of "title_english" body))
        (clean_html_text lib (get_of "title_japanese" body)))

  unfoldable pub anime_of : Json → ℤ → String → Option (Option (Anime D M))
  anime_of body mal_id title =
      let aired = or_empty (get_of "aired" body) in
      let synopsis = clean_synopsis (get_of "synopsis" body) in
      do
        year ← year_of body aired
        from ← Json.get "from" aired
        to ← Json.get "to" aired
        url ← image_url (get_of "images" body)
        some (
            some (record {
              mal_id = mal_id;
              title = title;
              title_english = clean_html_text lib (get_of "title_english" body);
              title_japanese = clean_html_text lib (get_of "title_japanese" body);
              type = clean_text lib (get_of "type" body);
              status = clean_text lib (get_of "status" body);
              rating = clean_text lib (get_of "rating" body);
              source_material = clean_text lib (get_of "source" body);
              season = clean_text lib (get_of "season" body);
              year = year;
              episodes = to_int lib (get_of "episodes" body);
              duration_minutes = duration_minutes (get_of "duration" body);
              aired_from = to_datetime lib from;
              aired_to = to_datetime lib to;
              mal_score = to_decimal lib (get_of "score" body);
              scored_by_mal = to_int lib (get_of "scored_by" body);
              members_mal = to_int lib (get_of "members" body);
              favorites_mal = to_int lib (get_of "favorites" body);
              rank_mal = to_int lib (get_of "rank" body);
              popularity_mal = to_int lib (get_of "popularity" body);
              synopsis = synopsis;
              synopsis_hash = hash_of lib synopsis;
              background = clean_html_text lib (get_of "background" body);
              image_url = url;
            }))

  unfoldable pub with_id : Json → Option ℤ → Option String → Option (Option (Anime D M))
  with_id body (some mal_id) (some title) =
      if is_zero mal_id then some none else anime_of body mal_id title
  with_id body mal_id title = some none

  unfoldable pub clean_full : Json → Option (Option (Anime D M))
  clean_full payload = full_of (get_of "data" payload)
    where
      full_of : Json → Option (Option (Anime D M))
      full_of (obj fields) =
          with_id (obj fields) (to_int lib (get_of "mal_id" (obj fields))) (title_of (obj fields))
      full_of value = some none
