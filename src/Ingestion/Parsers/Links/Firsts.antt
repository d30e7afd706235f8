-- ===== src/Ingestion/Parsers/Links/Firsts.antt =====
-- About the tags, studios and relations that are found.
use anime_app_backend.Prelude.{◌≡◌, true, Option, none, some, String, List, [], ◌∷◌, ◌++◌, arith}
use anime_app_backend.Prelude.Int.{ℤ}
use anime_app_backend.Prelude.Dict.{
  find, first_some, IsDistinct, find-setdefault, setdefault-IsDistinct, find-append,
}
use anime_app_backend.Json.{Json, null, bool, int, real, str, arr, obj}
use anime_app_backend.Ingestion.Parsers.{Library, get_of, list_of, clean_text, to_int, same_int}
use anime_app_backend.Ingestion.Parsers.Links.{
  Found, set_named, add_item, add_items, add_lists, named_items,
}

pub same_int_refl : (a : ℤ) → same_int a a ≡ true
same_int_refl a = ground arith

pub same_int_eq : (a b : ℤ) → same_int a b ≡ true → a ≡ b
same_int_eq a b h = ground arith

-- The pair of an item with an id and a name.
abbrev pub pair_of : Option ℤ → Option String → Found
pair_of (some mal_id) (some name) = (mal_id, name) ∷ []
pair_of mal_id name = []

-- What a loop does: it keeps the first name of each id, and no id twice.
pub record Collects (pairs before after : Found) : Type 0 where
  pub first :
      (id : ℤ)
      → find same_int id after ≡ first_some (find same_int id before) (find same_int id pairs)
  pub distinct : IsDistinct same_int before → IsDistinct same_int after

Collects-refl : (d : Found) → Collects [] d d
unfolding find
Collects-refl d = record { first = λ id. ground arith; distinct = λ h. h }

Collects-trans : (xs ys a b c : Found) → Collects xs a b → Collects ys b c → Collects (xs ++ ys) a c
Collects-trans xs ys a b c p q = record {
  first = λ id. ground (arith, p.first id, q.first id, find-append same_int id xs ys);
  distinct = λ h. q.distinct (p.distinct h);
}

set_named-Collects :
    (id : Option ℤ) (name : Option String) (d : Found)
    → Collects (pair_of id name) d (set_named id name d)
unfolding find
set_named-Collects none name d = Collects-refl d
set_named-Collects (some id) none d = Collects-refl d
set_named-Collects (some id) (some name) d = record {
  first = λ j. find-setdefault same_int same_int_refl same_int_eq id j name d;
  distinct = setdefault-IsDistinct same_int same_int_refl same_int_eq id name d;
}

module _ {D M : Type 0} (lib : Library D M) where
  -- The pairs of the items of all the lists, in order, repeated ids included.
  abbrev pub item_pair : Json → Found
  item_pair (obj fields) =
      pair_of (to_int lib (get_of "mal_id" (obj fields)))
        (clean_text lib (get_of "name" (obj fields)))
  item_pair item = []

  abbrev pub item_pairs : List Json → Found
  item_pairs [] = []
  item_pairs (item ∷ items) = item_pair item ++ item_pairs items

  abbrev pub list_pairs : Json → List String → Found
  list_pairs body [] = []
  list_pairs body (name ∷ names) = item_pairs (list_of (get_of name body)) ++ list_pairs body names

  add_item-Collects : (item : Json) (d : Found) → Collects (item_pair item) d (add_item lib item d)
  add_item-Collects (obj fields) d =
      set_named-Collects (to_int lib (get_of "mal_id" (obj fields)))
        (clean_text lib (get_of "name" (obj fields))) d
  add_item-Collects null d = Collects-refl d
  add_item-Collects (bool b) d = Collects-refl d
  add_item-Collects (int n) d = Collects-refl d
  add_item-Collects (real m k) d = Collects-refl d
  add_item-Collects (str t) d = Collects-refl d
  add_item-Collects (arr xs) d = Collects-refl d

  add_items-Collects :
      (items : List Json) (d : Found) → Collects (item_pairs items) d (add_items lib items d)
  unfolding add_items
  add_items-Collects [] d = Collects-refl d
  add_items-Collects (item ∷ items) d =
      Collects-trans (item_pair item) (item_pairs items) d (add_item lib item d)
        (add_items lib items (add_item lib item d)) (add_item-Collects item d)
        (add_items-Collects items (add_item lib item d))

  add_lists-Collects :
      (body : Json) (names : List String) (d : Found)
      → Collects (list_pairs body names) d (add_lists lib body names d)
  unfolding add_lists
  add_lists-Collects body [] d = Collects-refl d
  add_lists-Collects body (name ∷ names) d =
      let items = list_of (get_of name body) in
      Collects-trans (item_pairs items) (list_pairs body names) d (add_items lib items d)
        (add_lists lib body names (add_items lib items d)) (add_items-Collects items d)
        (add_lists-Collects body names (add_items lib items d))

  -- Neither the tags nor the studios that are found have an id twice, and each id that an item
  -- with a name has in one of the lists has the name of the first such item; the pairs are those
  -- of no other items.
  pub named_items-Firsts :
      (payload : Json) (names : List String)
      → IsDistinct same_int (named_items lib payload names)
        × ((id : ℤ)
            → find same_int id (named_items lib payload names)
              ≡ find same_int id (list_pairs (get_of "data" payload) names))
  unfolding named_items find
  named_items-Firsts payload names =
      let c = add_lists-Collects (get_of "data" payload) names [] in (c.distinct tt, c.first)
