-- ===== src/Ingestion/Parsers/Episodes.antt =====
-- A stored episodes response (app/ingestion/parsers/episodes.py).
pub mod Lasts
use anime_app_backend.Prelude.{
  Bool, true, false, Option, none, some, String, List, [], ◌∷◌, if◌then◌else◌,
}
use anime_app_backend.Prelude.Int.{ℤ}
use anime_app_backend.Prelude.Dict.{put}
use anime_app_backend.Json.{Json, obj, truthy, is_zero}
use anime_app_backend.Catalogue.{Episode}
use anime_app_backend.Ingestion.Parsers.{
  Library, get_of, list_of, clean_html_text, to_int, to_decimal, to_datetime, same_int,
}

-- `number or None`
abbrev pub nonzero : Option ℤ → Option ℤ
nonzero none = none
nonzero (some n) = if is_zero n then none else some n

-- `list(d.values())`
abbrev pub values : {A : Type 0} → List (ℤ × A) → List A
values [] = []
values ((k, v) ∷ d) = v ∷ values d

-- `if episode is not None: episodes[episode.episode_number] = episode`
abbrev pub set_episode :
    {D M : Type 0} → Option (Episode D M) → List (ℤ × Episode D M) → List (ℤ × Episode D M)
set_episode none episodes = episodes
set_episode (some e) episodes = put same_int e.episode_number e episodes

module _ {D M : Type 0} (lib : Library D M) where
  abbrev pub hash_of : Option String → Option String
  hash_of none = none
  hash_of (some text) = some (lib.sha256_hex text)

  -- `score * 2 if score else None`
  abbrev pub doubled_score : Option D → Option D
  doubled_score none = none
  doubled_score (some score) = if lib.is_nonzero score then some (lib.doubled score) else none

  -- `_score`
  unfoldable pub score_of : Json → Option D
  score_of value = doubled_score (to_decimal lib value)

  abbrev pub episode_numbered : Json → ℤ → Option ℤ → Option (Episode D M)
  episode_numbered item anime_id none = none
  episode_numbered item anime_id (some number) =
      let synopsis = clean_html_text lib (get_of "synopsis" item) in
      some (record {
        anime_id = anime_id;
        episode_number = number;
        title = clean_html_text lib (get_of "title" item);
        title_japanese = clean_html_text lib (get_of "title_japanese" item);
        title_romanji = clean_html_text lib (get_of "title_romanji" item);
        aired = to_datetime lib (get_of "aired" item);
        duration_seconds = nonzero (to_int lib (get_of "duration" item));
        synopsis = synopsis;
        synopsis_hash = hash_of synopsis;
        filler = truthy (get_of "filler" item);
        recap = truthy (get_of "recap" item);
        mal_score = score_of (get_of "score" item);
      })

  -- `_clean_episode`
  unfoldable pub clean_episode : Json → ℤ → Option (Episode D M)
  clean_episode (obj fields) anime_id =
      episode_numbered (obj fields) anime_id (to_int lib (get_of "mal_id" (obj fields)))
  clean_episode item anime_id = none

  unfoldable pub add_page : List Json → ℤ → List (ℤ × Episode D M) → List (ℤ × Episode D M)
  add_page [] anime_id episodes = episodes
  add_page (item ∷ items) anime_id episodes =
      add_page items anime_id (set_episode (clean_episode item anime_id) episodes)

  unfoldable pub add_pages : List Json → ℤ → List (ℤ × Episode D M) → List (ℤ × Episode D M)
  add_pages [] anime_id episodes = episodes
  add_pages (page ∷ pages) anime_id episodes =
      add_pages pages anime_id (add_page (list_of (get_of "data" page)) anime_id episodes)

  unfoldable pub clean_episodes : Json → ℤ → List (Episode D M)
  clean_episodes payload anime_id = values (add_pages (list_of payload) anime_id [])
