-- ===== src/Ingestion/Parsers/Episodes/Lasts.antt =====
-- About the episodes of a response.
use anime_app_backend.Prelude.{
  ◌≡◌, refl, sym, ◌∙◌, ap, subst, map, Option, none, some, List, [], ◌∷◌, ◌++◌, arith,
}
use anime_app_backend.Prelude.Int.{ℤ}
use anime_app_backend.Prelude.Dict.{
  find, find_last, put, put_all, first_some, IsDistinct, find-put_all, put_all-IsDistinct,
}
use anime_app_backend.Json.{Json}
use anime_app_backend.Catalogue.{Episode}
use anime_app_backend.Ingestion.Parsers.{Library, get_of, list_of, same_int}
use anime_app_backend.Ingestion.Parsers.Links.Firsts.{same_int_refl, same_int_eq}
use anime_app_backend.Ingestion.Parsers.Episodes.{
  values, set_episode, clean_episode, add_page, add_pages, clean_episodes,
}

-- Rows by the key that they have themselves.
abbrev pub keyed : {A : Type 0} → (A → ℤ) → List A → List (ℤ × A)
keyed key [] = []
keyed key (a ∷ rows) = (key a, a) ∷ keyed key rows

-- Every pair has the key of its row.
abbrev pub IsKeyed : {A : Type 0} → (A → ℤ) → List (ℤ × A) → Type 0
IsKeyed key [] = Unit
IsKeyed key ((k, a) ∷ d) = (k ≡ key a) × IsKeyed key d

pub keyed-values :
    {A : Type 0} (key : A → ℤ) (d : List (ℤ × A)) → IsKeyed key d → keyed key (values d) ≡ d
keyed-values key [] h = refl
keyed-values key ((k, a) ∷ d) h = cc (h.0, keyed-values key d h.1)

pub put-IsKeyed :
    {A : Type 0} (key : A → ℤ) (a : A) (d : List (ℤ × A))
    → IsKeyed key d
    → IsKeyed key (put same_int (key a) a d)
unfolding put
put-IsKeyed key a [] h = (refl, tt)
put-IsKeyed key a ((k, b) ∷ d) h =
    ground (arith, put-IsKeyed key a d h.1, same_int_eq k (key a), h.0)

put_all-IsKeyed :
    {A : Type 0} (key : A → ℤ) (rows : List A) (d : List (ℤ × A))
    → IsKeyed key d
    → IsKeyed key (put_all same_int (keyed key rows) d)
unfolding put_all
put_all-IsKeyed key [] d h = h
put_all-IsKeyed key (a ∷ rows) d h =
    put_all-IsKeyed key rows (put same_int (key a) a d) (put-IsKeyed key a d h)

-- The rows hold no key twice, and for each key the last row that was put in.
abbrev pub AreLasts : {A : Type 0} → (A → ℤ) → List A → List A → Type 0
AreLasts key rows result =
    IsDistinct same_int (keyed key result)
    × ((n : ℤ) → find same_int n (keyed key result) ≡ find_last same_int n (keyed key rows))

pub values-AreLasts :
    {A : Type 0} (key : A → ℤ) (rows : List A)
    → AreLasts key rows (values (put_all same_int (keyed key rows) []))
unfolding find
values-AreLasts {A = A} key rows =
    let d = put_all same_int (keyed key rows) [] in
    let back : keyed key (values d) ≡ d = keyed-values key d (put_all-IsKeyed key rows [] tt) in
    (
      subst (IsDistinct same_int) (sym back)
          (put_all-IsDistinct same_int same_int_refl same_int_eq (keyed key rows) [] tt),
      λ n.
          ap (find same_int n) back
          ∙ find-put_all same_int same_int_refl same_int_eq n (keyed key rows) []
          ∙ end_none (find_last same_int n (keyed key rows)),
    )
  where
    end_none : (o : Option A) → first_some o none ≡ o
    end_none none = refl
    end_none (some a) = refl

-- The rows that are there.
abbrev pub somes : {A : Type 0} → List (Option A) → List A
somes [] = []
somes (none ∷ os) = somes os
somes (some a ∷ os) = a ∷ somes os

-- The items of all pages, in order.
abbrev pub items_of : List Json → List Json
items_of [] = []
items_of (page ∷ pages) = list_of (get_of "data" page) ++ items_of pages

module _ {D M : Type 0} (lib : Library D M) (anime_id : ℤ) where
  abbrev pub episodes_of : List Json → List (Episode D M)
  episodes_of items = somes (map (λ item. clean_episode lib item anime_id) items)

  add_page-put_all :
      (items : List Json) (d : List (ℤ × Episode D M))
      → add_page lib items anime_id d
        ≡ put_all same_int (keyed (λ e. e.episode_number) (episodes_of items)) d
  unfolding add_page put_all
  add_page-put_all [] d = refl
  add_page-put_all (item ∷ items) d =
      by_result (clean_episode lib item anime_id) (add_page-put_all items)
    where
      by_result :
          (o : Option (Episode D M))
          → ((d : List (ℤ × Episode D M))
              → add_page lib items anime_id d
                ≡ put_all same_int (keyed (λ e. e.episode_number) (episodes_of items)) d)
          → add_page lib items anime_id (set_episode o d)
            ≡ put_all same_int
                (keyed
                  (λ e. e.episode_number)
                  (somes (o ∷ map (λ item. clean_episode lib item anime_id) items)))
                d
      by_result none rest = rest d
      by_result (some e) rest = rest (set_episode (some e) d)

  add_page-append :
      (xs ys : List Json) (d : List (ℤ × Episode D M))
      → add_page lib (xs ++ ys) anime_id d ≡ add_page lib ys anime_id (add_page lib xs anime_id d)
  unfolding add_page
  add_page-append [] ys d = refl
  add_page-append (x ∷ xs) ys d =
      add_page-append xs ys (set_episode (clean_episode lib x anime_id) d)

  add_pages-add_page :
      (pages : List Json) (d : List (ℤ × Episode D M))
      → add_pages lib pages anime_id d ≡ add_page lib (items_of pages) anime_id d
  unfolding add_pages add_page
  add_pages-add_page [] d = refl
  add_pages-add_page (page ∷ pages) d =
      let items = list_of (get_of "data" page) in
      add_pages-add_page pages (add_page lib items anime_id d)
      ∙ sym (add_page-append items (items_of pages) d)

  -- No episode number stands twice among the rows of a response, and the row of each number is
  -- the last one that an item of some page makes for it.
  pub clean_episodes-AreLasts :
      (payload : Json)
      → AreLasts
          (λ (e : Episode D M). e.episode_number)
          (episodes_of (items_of (list_of payload)))
          (clean_episodes lib payload anime_id)
  unfolding clean_episodes
  clean_episodes-AreLasts payload =
      let items = items_of (list_of payload) in
      subst (λ d. AreLasts (λ (e : Episode D M). e.episode_number) (episodes_of items) (values d))
        (sym (add_pages-add_page (list_of payload) [] ∙ add_page-put_all items []))
        (values-AreLasts (λ (e : Episode D M). e.episode_number) (episodes_of items))
