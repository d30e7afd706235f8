-- ===== src/Ingestion/Parsers/Statistics/Votes.antt =====
-- About the statistics of a response.
use anime_app_backend.Prelude.{
  ◌≡◌, refl, ◌∙◌, ap, Bool, true, false, Option, none, some, is_some, ◌&&◌, String, List, [], ◌∷◌,
  ◌++◌, arith, if◌then◌else◌,
}
use anime_app_backend.Prelude.Int.{ℤ}
use anime_app_backend.Prelude.Dict.{find, find_last, put, put_all, first_some, find-put_all}
use anime_app_backend.Json.{Json, null, bool, int, real, str, arr, obj}
use anime_app_backend.Catalogue.{AnimeStatisticsMal}
use anime_app_backend.Ingestion.Parsers.{Library, get_of, list_of, to_int, same_int}
use anime_app_backend.Ingestion.Parsers.Links.Firsts.{same_int_refl, same_int_eq}
use anime_app_backend.Ingestion.Parsers.Statistics.{
  Votes, no_votes, is_score, set_votes, add_votes, votes_of, with_counts, statistics_of,
}

-- The vote that an item casts, if its score is one of 1 to 10.
abbrev pub vote_at : Option ℤ → Option ℤ → Votes
vote_at none votes = []
vote_at (some score) votes = if is_score score then (score, votes) ∷ [] else []

module _ {D M : Type 0} (lib : Library D M) where
  abbrev pub vote_pairs : List Json → Votes
  vote_pairs [] = []
  vote_pairs (item ∷ items) =
      vote_at (to_int lib (get_of "score" item)) (to_int lib (get_of "votes" item))
      ++ vote_pairs items

  add_votes-put_all :
      (items : List Json) (votes : Votes)
      → add_votes lib items votes ≡ put_all same_int (vote_pairs items) votes
  unfolding add_votes put_all
  add_votes-put_all [] votes = refl
  add_votes-put_all (item ∷ items) votes =
      by_score (to_int lib (get_of "score" item)) (add_votes-put_all items)
    where
      at_score :
          (score : ℤ) (b : Bool)
          → ((votes : Votes)
              → add_votes lib items votes ≡ put_all same_int (vote_pairs items) votes)
          → add_votes lib items
              (if b then put same_int score (to_int lib (get_of "votes" item)) votes else votes)
            ≡ put_all same_int
                ((if b then (score, to_int lib (get_of "votes" item)) ∷ [] else [])
                  ++ vote_pairs items)
                votes
      at_score score true rest = rest (put same_int score (to_int lib (get_of "votes" item)) votes)
      at_score score false rest = rest votes

      by_score :
          (score : Option ℤ)
          → ((votes : Votes)
              → add_votes lib items votes ≡ put_all same_int (vote_pairs items) votes)
          → add_votes lib items (set_votes lib score item votes)
            ≡ put_all same_int
                (vote_at score (to_int lib (get_of "votes" item)) ++ vote_pairs items)
                votes
      by_score none rest = rest votes
      by_score (some score) rest = at_score score (is_score score) rest

  -- The votes of each score are those of the last item with this score; a score of 1 to 10 without
  -- an item has none, and no other score has an entry.
  pub find-votes_of :
      (scores : Json) (n : ℤ)
      → find same_int n (votes_of lib scores)
        ≡ first_some (find_last same_int n (vote_pairs (list_of scores))) (find same_int n no_votes)
  unfolding votes_of
  find-votes_of scores n =
      ap (find same_int n) (add_votes-put_all (list_of scores) no_votes)
      ∙ find-put_all same_int same_int_refl same_int_eq n (vote_pairs (list_of scores)) no_votes

  -- The count under a key of the data.
  abbrev pub count_of : Json → String → Option ℤ
  count_of body name = to_int lib (get_of name body)

  abbrev pub has_all : Option ℤ → Option ℤ → Option ℤ → Option ℤ → Option ℤ → Option ℤ → Bool
  has_all a b c d e f = is_some a && is_some b && is_some c && is_some d && is_some e && is_some f

  abbrev pub HasCounts :
      Option ℤ → Option ℤ → Option ℤ → Option ℤ → Option ℤ → Option ℤ → AnimeStatisticsMal → Type 0
  HasCounts a b c d e f row =
      (a ≡ some row.watching)
      × (b ≡ some row.completed)
      × (c ≡ some row.on_hold)
      × (d ≡ some row.dropped)
      × (e ≡ some row.plan_to_watch)
      × (f ≡ some row.total)

  -- The row that counts and items give, or that a count is missing.
  abbrev pub IsRowOf :
      ℤ
      → List Json
      → Option ℤ
      → Option ℤ
      → Option ℤ
      → Option ℤ
      → Option ℤ
      → Option ℤ
      → Option AnimeStatisticsMal
      → Type 0
  IsRowOf anime_id items a b c d e f none = has_all a b c d e f ≡ false
  IsRowOf anime_id items a b c d e f (some row) =
      (row.anime_id ≡ anime_id)
      × HasCounts a b c d e f row
      × ((n : ℤ)
          → find same_int n row.votes
            ≡ first_some (find_last same_int n (vote_pairs items)) (find same_int n no_votes))

  abbrev pub IsRow : Json → ℤ → Option AnimeStatisticsMal → Type 0
  IsRow body anime_id =
      IsRowOf anime_id (list_of (get_of "scores" body)) (count_of body "watching")
        (count_of body "completed") (count_of body "on_hold") (count_of body "dropped")
        (count_of body "plan_to_watch") (count_of body "total")

  with_counts-IsRowOf :
      (anime_id : ℤ) (scores : Json) (a b c d e f : Option ℤ)
      → IsRowOf anime_id
          (list_of scores)
          a
          b
          c
          d
          e
          f
          (with_counts anime_id (votes_of lib scores) a b c d e f)
  unfolding with_counts
  with_counts-IsRowOf id v (some a) (some b) (some c) (some d) (some e) (some f) =
      (refl, (refl, refl, refl, refl, refl, refl), find-votes_of v)
  with_counts-IsRowOf id v none b c d e f = ground arith
  with_counts-IsRowOf id v (some a) none c d e f = ground arith
  with_counts-IsRowOf id v (some a) (some b) none d e f = ground arith
  with_counts-IsRowOf id v (some a) (some b) (some c) none e f = ground arith
  with_counts-IsRowOf id v (some a) (some b) (some c) (some d) none f = ground arith
  with_counts-IsRowOf id v (some a) (some b) (some c) (some d) (some e) none = ground arith

  pub statistics_of-IsRow :
      (body : Json) (anime_id : ℤ) → IsRow body anime_id (statistics_of lib body anime_id)
  unfolding statistics_of to_int
  statistics_of-IsRow (obj fields) anime_id =
      let body = obj fields in
      with_counts-IsRowOf anime_id (get_of "scores" body) (count_of body "watching")
        (count_of body "completed") (count_of body "on_hold") (count_of body "dropped")
        (count_of body "plan_to_watch") (count_of body "total")
  statistics_of-IsRow null anime_id = refl
  statistics_of-IsRow (bool b) anime_id = refl
  statistics_of-IsRow (int n) anime_id = refl
  statistics_of-IsRow (real m k) anime_id = refl
  statistics_of-IsRow (str t) anime_id = refl
  statistics_of-IsRow (arr xs) anime_id = refl
