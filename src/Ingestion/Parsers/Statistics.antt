-- ===== src/Ingestion/Parsers/Statistics.antt =====
-- A stored `/statistics` response (app/ingestion/parsers/statistics.py).
pub mod Votes
use anime_app_backend.Prelude.{
  ℕ, Bool, true, false, ◌&&◌, Option, none, some, String, List, [], ◌∷◌, leb, if◌then◌else◌,
}
use anime_app_backend.Prelude.Int.{ℤ, pos}
use anime_app_backend.Prelude.Dict.{put}
use anime_app_backend.Json.{Json, obj}
use anime_app_backend.Catalogue.{AnimeStatisticsMal}
use anime_app_backend.Ingestion.Parsers.{Library, get_of, list_of, to_int, same_int}

abbrev pub Votes : Type 0
Votes = List (ℤ × Option ℤ)

-- `{f"votes_{score}": None for score in SCORES}`
abbrev pub no_votes : Votes
no_votes =
    (pos 1, none)
    ∷ (pos 2, none)
    ∷ (pos 3, none)
    ∷ (pos 4, none)
    ∷ (pos 5, none)
    ∷ (pos 6, none)
    ∷ (pos 7, none)
    ∷ (pos 8, none)
    ∷ (pos 9, none)
    ∷ (pos 10, none)
    ∷ []

-- `score in SCORES`
abbrev pub is_score : ℤ → Bool
is_score (pos n) = leb 1 n && leb n 10
is_score n = false

-- `None` if any of the six counts is none.
unfoldable pub with_counts :
    ℤ
    → Votes
    → Option ℤ
    → Option ℤ
    → Option ℤ
    → Option ℤ
    → Option ℤ
    → Option ℤ
    → Option AnimeStatisticsMal
with_counts anime_id votes (some a) (some b) (some c) (some d) (some e) (some f) = some (record {
  anime_id = anime_id;
  watching = a;
  completed = b;
  on_hold = c;
  dropped = d;
  plan_to_watch = e;
  total = f;
  votes = votes;
})
with_counts anime_id votes a b c d e f = none

module _ {D M : Type 0} (lib : Library D M) where
  abbrev pub set_votes : Option ℤ → Json → Votes → Votes
  set_votes none item votes = votes
  set_votes (some score) item votes =
      if is_score score then put same_int score (to_int lib (get_of "votes" item)) votes else votes

  unfoldable pub add_votes : List Json → Votes → Votes
  add_votes [] votes = votes
  add_votes (item ∷ items) votes =
      add_votes items (set_votes (to_int lib (get_of "score" item)) item votes)

  unfoldable pub votes_of : Json → Votes
  votes_of scores = add_votes (list_of scores) no_votes

  unfoldable pub statistics_of : Json → ℤ → Option AnimeStatisticsMal
  statistics_of (obj fields) anime_id =
      let count : String → Option ℤ = λ name. to_int lib (get_of name (obj fields)) in
      with_counts anime_id (votes_of (get_of "scores" (obj fields))) (count "watching")
        (count "completed") (count "on_hold") (count "dropped") (count "plan_to_watch")
        (count "total")
  statistics_of body anime_id = none

  unfoldable pub clean_statistics : Json → ℤ → Option AnimeStatisticsMal
  clean_statistics payload anime_id = statistics_of (get_of "data" payload) anime_id
