-- ===== src/Catalogue/Columns.antt =====
-- The comparison of two rows of `anime` that `CatalogueRepository._upsert`
-- (app/catalogue/repository.py) asks for with IS DISTINCT FROM: column by column, but for the
-- primary key, with NULL equal to NULL.
use anime_app_backend.Prelude.{
  ℕ, ◌≡◌, refl, sym, ap, Bool, true, false, ◌&&◌, not, Option, none, some, String, str_eq, eq_iff,
  ◌==◌, arith,
}
use anime_app_backend.Catalogue.{Anime}
use anime_app_backend.Ingestion.Parsers.{same_int}
use anime_app_backend.Ingestion.Parsers.Links.Firsts.{same_int_eq}

abbrev pub same_option : {A : Type 0} → (A → A → Bool) → Option A → Option A → Bool
same_option same none none = true
same_option same (some a) (some b) = same a b
same_option same a b = false

same_option_eq :
    {A : Type 0} (same : A → A → Bool)
    → ((a b : A) → same a b ≡ true → a ≡ b)
    → (a b : Option A) → same_option same a b ≡ true
    → a ≡ b
same_option_eq same law none none h = refl
same_option_eq same law (some a) (some b) h = ap some (law a b h)
same_option_eq same law none (some b) h = absurd (cc h)
same_option_eq same law (some a) none h = absurd (cc h)

str_eq_eq : (a b : String) → str_eq a b ≡ true → a ≡ b
str_eq_eq a b h = (eq_iff a b).0 h

and_split : (x y : Bool) → (x && y) ≡ true → (x ≡ true) × (y ≡ true)
and_split true y h = (refl, h)
and_split false y h = absurd (cc h)

negated_false : (x : Bool) → not x ≡ false → x ≡ true
negated_false true h = refl
negated_false false h = absurd (cc h)

nat_eq : (a b : ℕ) → (a == b) ≡ true → a ≡ b
nat_eq a b h = ground arith

-- `same_decimal` and `same_moment` are Postgres's equality of decimals and of moments.
module _ {D M : Type 0} (same_decimal : D → D → Bool) (same_moment : M → M → Bool) where
  same_titles : Anime D M → Anime D M → Bool
  same_titles a b =
      str_eq a.title b.title
      && same_option str_eq a.title_english b.title_english
      && same_option str_eq a.title_japanese b.title_japanese
      && same_option str_eq a.type b.type
      && same_option str_eq a.status b.status
      && same_option str_eq a.rating b.rating
      && same_option str_eq a.source_material b.source_material
      && same_option str_eq a.season b.season

  same_facts : Anime D M → Anime D M → Bool
  same_facts a b =
      same_option same_int a.year b.year
      && same_option same_int a.episodes b.episodes
      && same_option (λ m n. m == n) a.duration_minutes b.duration_minutes
      && same_option same_moment a.aired_from b.aired_from
      && same_option same_moment a.aired_to b.aired_to
      && same_option same_decimal a.mal_score b.mal_score
      && same_option same_int a.scored_by_mal b.scored_by_mal
      && same_option same_int a.members_mal b.members_mal

  same_numbers : Anime D M → Anime D M → Bool
  same_numbers a b =
      same_option same_int a.favorites_mal b.favorites_mal
      && same_option same_int a.rank_mal b.rank_mal
      && same_option same_int a.popularity_mal b.popularity_mal
      && same_option str_eq a.synopsis b.synopsis
      && same_option str_eq a.synopsis_hash b.synopsis_hash
      && same_option str_eq a.background b.background
      && same_option str_eq a.image_url b.image_url

  unfoldable pub is_distinct_from : Anime D M → Anime D M → Bool
  unfolding same_titles same_facts same_numbers
  is_distinct_from a b = not (same_titles a b && same_facts a b && same_numbers a b)

  module _ (decimal_eq : (a b : D) → same_decimal a b ≡ true → a ≡ b)
      (moment_eq : (a b : M) → same_moment a b ≡ true → a ≡ b) where
    same_titles_eq :
        (a b : Anime D M)
        → same_titles a b ≡ true
        → (a.title ≡ b.title)
          × (a.title_english ≡ b.title_english)
          × (a.title_japanese ≡ b.title_japanese)
          × (a.type ≡ b.type)
          × (a.status ≡ b.status)
          × (a.rating ≡ b.rating)
          × (a.source_material ≡ b.source_material)
          × (a.season ≡ b.season)
    unfolding same_titles
    same_titles_eq a b h =
        let p7 =
          and_split
            (str_eq a.title b.title
              && same_option str_eq a.title_english b.title_english
              && same_option str_eq a.title_japanese b.title_japanese
              && same_option str_eq a.type b.type
              && same_option str_eq a.status b.status
              && same_option str_eq a.rating b.rating
              && same_option str_eq a.source_material b.source_material)
            (same_option str_eq a.season b.season) h in
        let p6 =
          and_split
            (str_eq a.title b.title
              && same_option str_eq a.title_english b.title_english
              && same_option str_eq a.title_japanese b.title_japanese
              && same_option str_eq a.type b.type
              && same_option str_eq a.status b.status
              && same_option str_eq a.rating b.rating)
            (same_option str_eq a.source_material b.source_material) p7.0 in
        let p5 =
          and_split
            (str_eq a.title b.title
              && same_option str_eq a.title_english b.title_english
              && same_option str_eq a.title_japanese b.title_japanese
              && same_option str_eq a.type b.type
              && same_option str_eq a.status b.status)
            (same_option str_eq a.rating b.rating) p6.0 in
        let p4 =
          and_split
            (str_eq a.title b.title
              && same_option str_eq a.title_english b.title_english
              && same_option str_eq a.title_japanese b.title_japanese
              && same_option str_eq a.type b.type)
            (same_option str_eq a.status b.status) p5.0 in
        let p3 =
          and_split
            (str_eq a.title b.title
              && same_option str_eq a.title_english b.title_english
              && same_option str_eq a.title_japanese b.title_japanese)
            (same_option str_eq a.type b.type) p4.0 in
        let p2 =
          and_split (str_eq a.title b.title && same_option str_eq a.title_english b.title_english)
            (same_option str_eq a.title_japanese b.title_japanese) p3.0 in
        let p1 =
          and_split (str_eq a.title b.title) (same_option str_eq a.title_english b.title_english)
            p2.0 in
        (
          str_eq_eq a.title b.title p1.0,
          same_option_eq str_eq str_eq_eq a.title_english b.title_english p1.1,
          same_option_eq str_eq str_eq_eq a.title_japanese b.title_japanese p2.1,
          same_option_eq str_eq str_eq_eq a.type b.type p3.1,
          same_option_eq str_eq str_eq_eq a.status b.status p4.1,
          same_option_eq str_eq str_eq_eq a.rating b.rating p5.1,
          same_option_eq str_eq str_eq_eq a.source_material b.source_material p6.1,
          same_option_eq str_eq str_eq_eq a.season b.season p7.1,
        )

    same_facts_eq :
        (a b : Anime D M)
        → same_facts a b ≡ true
        → (a.year ≡ b.year)
          × (a.episodes ≡ b.episodes)
          × (a.duration_minutes ≡ b.duration_minutes)
          × (a.aired_from ≡ b.aired_from)
          × (a.aired_to ≡ b.aired_to)
          × (a.mal_score ≡ b.mal_score)
          × (a.scored_by_mal ≡ b.scored_by_mal)
          × (a.members_mal ≡ b.members_mal)
    unfolding same_facts
    same_facts_eq a b h =
        let p7 =
          and_split
            (same_option same_int a.year b.year
              && same_option same_int a.episodes b.episodes
              && same_option (λ m n. m == n) a.duration_minutes b.duration_minutes
              && same_option same_moment a.aired_from b.aired_from
              && same_option same_moment a.aired_to b.aired_to
              && same_option same_decimal a.mal_score b.mal_score
              && same_option same_int a.scored_by_mal b.scored_by_mal)
            (same_option same_int a.members_mal b.members_mal) h in
        let p6 =
          and_split
            (same_option same_int a.year b.year
              && same_option same_int a.episodes b.episodes
              && same_option (λ m n. m == n) a.duration_minutes b.duration_minutes
              && same_option same_moment a.aired_from b.aired_from
              && same_option same_moment a.aired_to b.aired_to
              && same_option same_decimal a.mal_score b.mal_score)
            (same_option same_int a.scored_by_mal b.scored_by_mal) p7.0 in
        let p5 =
          and_split
            (same_option same_int a.year b.year
              && same_option same_int a.episodes b.episodes
              && same_option (λ m n. m == n) a.duration_minutes b.duration_minutes
              && same_option same_moment a.aired_from b.aired_from
              && same_option same_moment a.aired_to b.aired_to)
            (same_option same_decimal a.mal_score b.mal_score) p6.0 in
        let p4 =
          and_split
            (same_option same_int a.year b.year
              && same_option same_int a.episodes b.episodes
              && same_option (λ m n. m == n) a.duration_minutes b.duration_minutes
              && same_option same_moment a.aired_from b.aired_from)
            (same_option same_moment a.aired_to b.aired_to) p5.0 in
        let p3 =
          and_split
            (same_option same_int a.year b.year
              && same_option same_int a.episodes b.episodes
              && same_option (λ m n. m == n) a.duration_minutes b.duration_minutes)
            (same_option same_moment a.aired_from b.aired_from) p4.0 in
        let p2 =
          and_split
            (same_option same_int a.year b.year && same_option same_int a.episodes b.episodes)
            (same_option (λ m n. m == n) a.duration_minutes b.duration_minutes) p3.0 in
        let p1 =
          and_split (same_option same_int a.year b.year)
            (same_option same_int a.episodes b.episodes) p2.0 in
        (
          same_option_eq same_int same_int_eq a.year b.year p1.0,
          same_option_eq same_int same_int_eq a.episodes b.episodes p1.1,
          same_option_eq (λ m n. m == n) nat_eq a.duration_minutes b.duration_minutes p2.1,
          same_option_eq same_moment moment_eq a.aired_from b.aired_from p3.1,
          same_option_eq same_moment moment_eq a.aired_to b.aired_to p4.1,
          same_option_eq same_decimal decimal_eq a.mal_score b.mal_score p5.1,
          same_option_eq same_int same_int_eq a.scored_by_mal b.scored_by_mal p6.1,
          same_option_eq same_int same_int_eq a.members_mal b.members_mal p7.1,
        )

    same_numbers_eq :
        (a b : Anime D M)
        → same_numbers a b ≡ true
        → (a.favorites_mal ≡ b.favorites_mal)
          × (a.rank_mal ≡ b.rank_mal)
          × (a.popularity_mal ≡ b.popularity_mal)
          × (a.synopsis ≡ b.synopsis)
          × (a.synopsis_hash ≡ b.synopsis_hash)
          × (a.background ≡ b.background)
          × (a.image_url ≡ b.image_url)
    unfolding same_numbers
    same_numbers_eq a b h =
        let p6 =
          and_split
            (same_option same_int a.favorites_mal b.favorites_mal
              && same_option same_int a.rank_mal b.rank_mal
              && same_option same_int a.popularity_mal b.popularity_mal
              && same_option str_eq a.synopsis b.synopsis
              && same_option str_eq a.synopsis_hash b.synopsis_hash
              && same_option str_eq a.background b.background)
            (same_option str_eq a.image_url b.image_url) h in
        let p5 =
          and_split
            (same_option same_int a.favorites_mal b.favorites_mal
              && same_option same_int a.rank_mal b.rank_mal
              && same_option same_int a.popularity_mal b.popularity_mal
              && same_option str_eq a.synopsis b.synopsis
              && same_option str_eq a.synopsis_hash b.synopsis_hash)
            (same_option str_eq a.background b.background) p6.0 in
        let p4 =
          and_split
            (same_option same_int a.favorites_mal b.favorites_mal
              && same_option same_int a.rank_mal b.rank_mal
              && same_option same_int a.popularity_mal b.popularity_mal
              && same_option str_eq a.synopsis b.synopsis)
            (same_option str_eq a.synopsis_hash b.synopsis_hash) p5.0 in
        let p3 =
          and_split
            (same_option same_int a.favorites_mal b.favorites_mal
              && same_option same_int a.rank_mal b.rank_mal
              && same_option same_int a.popularity_mal b.popularity_mal)
            (same_option str_eq a.synopsis b.synopsis) p4.0 in
        let p2 =
          and_split
            (same_option same_int a.favorites_mal b.favorites_mal
              && same_option same_int a.rank_mal b.rank_mal)
            (same_option same_int a.popularity_mal b.popularity_mal) p3.0 in
        let p1 =
          and_split (same_option same_int a.favorites_mal b.favorites_mal)
            (same_option same_int a.rank_mal b.rank_mal) p2.0 in
        (
          same_option_eq same_int same_int_eq a.favorites_mal b.favorites_mal p1.0,
          same_option_eq same_int same_int_eq a.rank_mal b.rank_mal p1.1,
          same_option_eq same_int same_int_eq a.popularity_mal b.popularity_mal p2.1,
          same_option_eq str_eq str_eq_eq a.synopsis b.synopsis p3.1,
          same_option_eq str_eq str_eq_eq a.synopsis_hash b.synopsis_hash p4.1,
          same_option_eq str_eq str_eq_eq a.background b.background p5.1,
          same_option_eq str_eq str_eq_eq a.image_url b.image_url p6.1,
        )

    -- Rows that are not distinct are equal, but for the key.
    pub not_distinct-eq :
        (a b : Anime D M) → is_distinct_from a b ≡ false → record b { mal_id = a.mal_id } ≡ a
    unfolding is_distinct_from
    not_distinct-eq a b h =
        let (both, numbers) =
          and_split (same_titles a b && same_facts a b) (same_numbers a b)
            (negated_false (same_titles a b && same_facts a b && same_numbers a b) h) in
        let (names, facts) = and_split (same_titles a b) (same_facts a b) both in
        let x = same_titles_eq a b names in
        let y = same_facts_eq a b facts in
        let z = same_numbers_eq a b numbers in
        λ i. record {
          mal_id = a.mal_id;
          title = sym x.0 i;
          title_english = sym x.1 i;
          title_japanese = sym x.2 i;
          type = sym x.3 i;
          status = sym x.4 i;
          rating = sym x.5 i;
          source_material = sym x.6 i;
          season = sym x.7 i;
          year = sym y.0 i;
          episodes = sym y.1 i;
          duration_minutes = sym y.2 i;
          aired_from = sym y.3 i;
          aired_to = sym y.4 i;
          mal_score = sym y.5 i;
          scored_by_mal = sym y.6 i;
          members_mal = sym y.7 i;
          favorites_mal = sym z.0 i;
          rank_mal = sym z.1 i;
          popularity_mal = sym z.2 i;
          synopsis = sym z.3 i;
          synopsis_hash = sym z.4 i;
          background = sym z.5 i;
          image_url = sym z.6 i;
        }
