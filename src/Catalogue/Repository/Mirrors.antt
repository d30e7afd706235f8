-- ===== src/Catalogue/Repository/Mirrors.antt =====
-- About what an upsert of anime writes, and what it leaves to other pipelines.
use anime_app_backend.Prelude.{
  ℕ, ◌≡◌, refl, ◌∙◌, ap, true, Option, none, some, List, [], ◌∷◌, arith, if◌then◌else◌,
}
use mathlib.Core.Option.{map as map_option}
use anime_app_backend.Prelude.Int.{ℤ}
use anime_app_backend.Catalogue.{Anime}
use anime_app_backend.Catalogue.Upsert.{find_row, upsert}
use anime_app_backend.Catalogue.Upsert.Replay.{replayed, merged, upsert-Replays}
use anime_app_backend.Catalogue.Columns.{not_distinct-eq}
use anime_app_backend.Catalogue.Repository.{StoredAnime, Values, stored_as, anime_model}
use anime_app_backend.Ingestion.Parsers.{same_int}
use anime_app_backend.Ingestion.Parsers.Links.Firsts.{same_int_refl, same_int_eq}

rekeyed : {D M : Type 0} (r : Anime D M) (id : ℤ) → id ≡ r.mal_id → record r { mal_id = id } ≡ r
rekeyed r id e = ap (λ i. record r { mal_id = i }) e

module _ {D M : Type 0} (values : Values D M) (now : ℕ) where
  -- The last of the rows with an id, its score rounded as the column does.
  abbrev pub last_anime : ℤ → List (Anime D M) → Option (Anime D M) → Option (Anime D M)
  last_anime id [] a = a
  last_anime id (r ∷ rows) a = last_anime id rows (
      if same_int r.mal_id id
      then some (record r { mal_score = map_option values.rounded r.mal_score })
      else a)

  abbrev pub columns_of : Option (StoredAnime D M) → Option (Anime D M)
  columns_of none = none
  columns_of (some s) = some s.columns

  -- The columns of the other pipelines.
  abbrev pub scores_of : Option (StoredAnime D M) → Option D × Option D
  scores_of none = (none, none)
  scores_of (some s) = (s.anilist_score, s.imdb_score)

  -- One new row for an id.
  abbrev step : ℤ → Anime D M → Option (StoredAnime D M) → Option (StoredAnime D M)
  step id r o = if same_int r.mal_id id then some (merged (anime_model values now) r o) else o

  step-scores_of :
      (id : ℤ) (r : Anime D M) (o : Option (StoredAnime D M))
      → scores_of (step id r o) ≡ scores_of o
  step-scores_of id r none = ground arith
  step-scores_of id r (some s) = ground arith

  replay-scores_of :
      (id : ℤ) (rows : List (Anime D M)) (o : Option (StoredAnime D M))
      → scores_of (replayed (anime_model values now) id rows o) ≡ scores_of o
  replay-scores_of id [] o = refl
  replay-scores_of id (r ∷ rows) o = replay-scores_of id rows (step id r o) ∙ step-scores_of id r o

  -- A stored row with the id.
  abbrev pub HasId : ℤ → Option (StoredAnime D M) → Type 0
  HasId id none = Unit
  HasId id (some s) = s.columns.mal_id ≡ id

  step-HasId :
      (id : ℤ) (r : Anime D M) (o : Option (StoredAnime D M)) → HasId id o → HasId id (step id r o)
  step-HasId id r none h = ground (arith, same_int_eq r.mal_id id)
  step-HasId id r (some s) h = ground (arith, h)

  step-columns_of :
      ((a b : D) → values.same_decimal a b ≡ true → a ≡ b)
      → ((a b : M) → values.same_moment a b ≡ true → a ≡ b)
      → (id : ℤ) (r : Anime D M) (o : Option (StoredAnime D M)) → HasId id o
      → columns_of (step id r o)
        ≡ (if same_int r.mal_id id then some (stored_as values r) else columns_of o)
  step-columns_of decimal_eq moment_eq id r none h = ground arith
  step-columns_of decimal_eq moment_eq id r (some s) h = ground (
    arith,
    h,
    not_distinct-eq values.same_decimal values.same_moment decimal_eq moment_eq s.columns
        (stored_as values r),
    same_int_eq r.mal_id id,
    rekeyed (stored_as values r) s.columns.mal_id,
  )

  replay-columns_of :
      ((a b : D) → values.same_decimal a b ≡ true → a ≡ b)
      → ((a b : M) → values.same_moment a b ≡ true → a ≡ b)
      → (id : ℤ) (rows : List (Anime D M)) (o : Option (StoredAnime D M)) → HasId id o
      → columns_of (replayed (anime_model values now) id rows o) ≡ last_anime id rows (columns_of o)
  replay-columns_of decimal_eq moment_eq id [] o h = refl
  replay-columns_of decimal_eq moment_eq id (r ∷ rows) o h =
      replay-columns_of decimal_eq moment_eq id rows (step id r o) (step-HasId id r o h)
      ∙ ap (last_anime id rows) (step-columns_of decimal_eq moment_eq id r o h)

  find_row-HasId :
      (id : ℤ) (table : List (StoredAnime D M))
      → HasId id (find_row (anime_model values now) id table)
  unfolding find_row
  find_row-HasId id [] = tt
  find_row-HasId id (s ∷ table) =
      ground (arith, find_row-HasId id table, same_int_eq s.columns.mal_id id)

  -- If Postgres finds no two different decimals equal, and no two different moments, an upsert of
  -- anime that it does not refuse leaves each id the columns of the last new row with this id, with
  -- the score rounded as the column rounds it, or its old ones where there is none; and it leaves
  -- the scores that other pipelines own as they were.
  pub upsert_anime-Mirrors :
      ((a b : D) → values.same_decimal a b ≡ true → a ≡ b)
      → ((a b : M) → values.same_moment a b ≡ true → a ≡ b)
      → (rows : List (Anime D M)) (table table' : List (StoredAnime D M)) (n : ℕ)
      → upsert (anime_model values now) rows table ≡ some (n, table')
      → (id : ℤ)
      → (columns_of (find_row (anime_model values now) id table')
          ≡ last_anime id rows (columns_of (find_row (anime_model values now) id table)))
        × (scores_of (find_row (anime_model values now) id table')
            ≡ scores_of (find_row (anime_model values now) id table))
  upsert_anime-Mirrors decimal_eq moment_eq rows table table' n done id =
      let old = find_row (anime_model values now) id table in
      let replays =
        upsert-Replays (anime_model values now) same_int_refl same_int_eq (λ r. refl) (λ r s. refl)
          id rows table done in
      (
        ap columns_of replays
            ∙ replay-columns_of decimal_eq moment_eq id rows old (find_row-HasId id table),
        ap scores_of replays ∙ replay-scores_of id rows old,
      )
