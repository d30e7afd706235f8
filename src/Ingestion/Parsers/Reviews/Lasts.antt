-- ===== src/Ingestion/Parsers/Reviews/Lasts.antt =====
-- About the reviews of a response.
use anime_app_backend.Prelude.{◌≡◌, refl, sym, subst, map, Option, none, some, List, [], ◌∷◌}
use anime_app_backend.Prelude.Int.{ℤ}
use anime_app_backend.Prelude.Dict.{put_all}
use anime_app_backend.Json.{Json}
use anime_app_backend.Catalogue.{Review}
use anime_app_backend.Ingestion.Parsers.{Library, get_of, list_of, same_int}
use anime_app_backend.Ingestion.Parsers.Episodes.{values}
use anime_app_backend.Ingestion.Parsers.Episodes.Lasts.{keyed, somes, AreLasts, values-AreLasts}
use anime_app_backend.Ingestion.Parsers.Reviews.{
  set_review, clean_review, add_reviews, clean_reviews,
}

module _ {D M : Type 0} (lib : Library D M) (anime_id : ℤ) where
  abbrev pub reviews_of : List Json → List (Review M)
  reviews_of items = somes (map (λ item. clean_review lib item anime_id) items)

  add_reviews-put_all :
      (items : List Json) (d : List (ℤ × Review M))
      → add_reviews lib items anime_id d
        ≡ put_all same_int (keyed (λ r. r.mal_id) (reviews_of items)) d
  unfolding add_reviews put_all
  add_reviews-put_all [] d = refl
  add_reviews-put_all (item ∷ items) d =
      by_result (clean_review lib item anime_id) (add_reviews-put_all items)
    where
      by_result :
          (o : Option (Review M))
          → ((d : List (ℤ × Review M))
              → add_reviews lib items anime_id d
                ≡ put_all same_int (keyed (λ r. r.mal_id) (reviews_of items)) d)
          → add_reviews lib items anime_id (set_review o d)
            ≡ put_all same_int
                (keyed
                  (λ r. r.mal_id)
                  (somes (o ∷ map (λ item. clean_review lib item anime_id) items)))
                d
      by_result none rest = rest d
      by_result (some r) rest = rest (set_review (some r) d)

  -- No id stands twice among the reviews of a response, and the row of each id is the last one
  -- that an item makes for it.
  pub clean_reviews-AreLasts :
      (payload : Json)
      → AreLasts
          (λ (r : Review M). r.mal_id)
          (reviews_of (list_of (get_of "data" payload)))
          (clean_reviews lib payload anime_id)
  unfolding clean_reviews
  clean_reviews-AreLasts payload =
      let items = list_of (get_of "data" payload) in
      subst (λ d. AreLasts (λ (r : Review M). r.mal_id) (reviews_of items) (values d))
        (sym (add_reviews-put_all items []))
        (values-AreLasts (λ (r : Review M). r.mal_id) (reviews_of items))
