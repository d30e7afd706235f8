-- ===== src/Ingestion/Parsers/Links.antt =====
-- Tags, studios and relations of a stored `/full` response (app/ingestion/parsers/links.py).
pub mod Firsts
use anime_app_backend.Prelude.{
  Bool, ◌&&◌, Option, none, some, String, List, [], ◌∷◌, str_eq, true, false, if◌then◌else◌,
}
use anime_app_backend.Prelude.Int.{ℤ}
use anime_app_backend.Prelude.Dict.{put, setdefault}
use anime_app_backend.Json.{Json, str, obj}
use anime_app_backend.Ingestion.Parsers.{Library, get_of, list_of, clean_text, to_int, same_int}

abbrev pub tag_lists : List String
tag_lists = "genres" ∷ "themes" ∷ "demographics" ∷ []

abbrev pub studio_lists : List String
studio_lists = "studios" ∷ []

abbrev pub Found : Type 0
Found = List (ℤ × String)

-- A relation's name and the related anime's id, the keys of `found`.
abbrev pub Relation : Type 0
Relation = String × ℤ

abbrev pub same_relation : Relation → Relation → Bool
same_relation (a, m) (b, n) = str_eq a b && same_int m n

-- `entry.get("type") != "anime"`, negated
abbrev pub is_anime : Json → Bool
is_anime (str text) = str_eq text "anime"
is_anime v = false

-- `if mal_id is not None and name is not None: found.setdefault(mal_id, name)`
abbrev pub set_named : Option ℤ → Option String → Found → Found
set_named (some mal_id) (some name) found = setdefault same_int mal_id name found
set_named mal_id name found = found

-- `found[(relation, related_id)] = None`
abbrev pub set_relation :
    Option String → Option ℤ → List (Relation × Unit {0}) → List (Relation × Unit {0})
set_relation (some relation) (some related_id) found =
    put same_relation (relation, related_id) tt found
set_relation relation related_id found = found

-- `list(found)`
abbrev pub keys : List (Relation × Unit {0}) → List Relation
keys [] = []
keys ((relation, v) ∷ found) = relation ∷ keys found

module _ {D M : Type 0} (lib : Library D M) where
  abbrev pub add_item : Json → Found → Found
  add_item (obj fields) found =
      set_named (to_int lib (get_of "mal_id" (obj fields)))
        (clean_text lib (get_of "name" (obj fields))) found
  add_item item found = found

  unfoldable pub add_items : List Json → Found → Found
  add_items [] found = found
  add_items (item ∷ items) found = add_items items (add_item item found)

  unfoldable pub add_lists : Json → List String → Found → Found
  add_lists body [] found = found
  add_lists body (name ∷ names) found =
      add_lists body names (add_items (list_of (get_of name body)) found)

  unfoldable pub named_items : Json → List String → Found
  named_items payload names = add_lists (get_of "data" payload) names []

  abbrev pub extract_tags : Json → Found
  extract_tags payload = named_items payload tag_lists

  abbrev pub extract_studios : Json → Found
  extract_studios payload = named_items payload studio_lists

  abbrev pub add_entry :
      Option String → Json → List (Relation × Unit {0}) → List (Relation × Unit {0})
  add_entry relation (obj fields) found =
      if is_anime (get_of "type" (obj fields))
      then set_relation relation (to_int lib (get_of "mal_id" (obj fields))) found
      else found
  add_entry relation entry found = found

  unfoldable pub add_entries :
      Option String → List Json → List (Relation × Unit {0}) → List (Relation × Unit {0})
  add_entries relation [] found = found
  add_entries relation (entry ∷ entries) found =
      add_entries relation entries (add_entry relation entry found)

  abbrev pub add_group : Json → List (Relation × Unit {0}) → List (Relation × Unit {0})
  add_group (obj fields) found =
      add_entries (clean_text lib (get_of "relation" (obj fields)))
        (list_of (get_of "entry" (obj fields))) found
  add_group group found = found

  unfoldable pub add_groups : List Json → List (Relation × Unit {0}) → List (Relation × Unit {0})
  add_groups [] found = found
  add_groups (group ∷ groups) found = add_groups groups (add_group group found)

  unfoldable pub extract_relations : Json → List Relation
  extract_relations payload =
      keys (add_groups (list_of (get_of "relations" (get_of "data" payload))) [])
