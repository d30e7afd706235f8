-- ===== src/Ingestion/Listing.antt =====
-- One page of Tenrai's anime list as `DiscoveryJob._run` reads it
-- (app/ingestion/jobs/discovery_job.py): which anime are kept, and the rows of their tasks.
pub mod Rows
use anime_app_backend.Prelude.{
  ℕ, suc, ◌+◌, Bool, true, false, ◌||◌, Option, none, some, List, [], ◌∷◌, ◌++◌, str_eq,
  if◌then◌else◌,
}
use anime_app_backend.Exec.{Exec, ok, err, continue}
use anime_app_backend.Json
use anime_app_backend.Json.{Json, Fields, int, str, arr, obj, end, field, truthy}
use anime_app_backend.Prelude.Int.{pos}
use anime_app_backend.Ingestion.Enums.{Resource, Key, same_key}
use anime_app_backend.Ingestion.Errors.{Exc, unexpected}

-- `summary["anime_seen"]`, `["anime_skipped"]` and `["anime_skipped_type"]`
pub record Tally : Type 0 where
  pub seen : ℕ
  pub skipped : ℕ
  pub skipped_type : ℕ

-- `EXCLUDED_TYPES`; `none` is the TypeError of a value that cannot be looked up in a set.
abbrev pub is_excluded : Json → Option Bool
is_excluded (str s) = some (str_eq s "Music" || str_eq s "CM" || str_eq s "PV")
is_excluded (arr items) = none
is_excluded (obj fields) = none
is_excluded v = some false

-- `isinstance(mal_id, int) and not isinstance(mal_id, bool) and mal_id > 0`
abbrev pub positive_id : Json → Option ℕ
positive_id (int (pos (suc n))) = some (suc n)
positive_id v = none

-- What the loop's body makes of an entry; `broken` is the exception of a value of the wrong type.
pub data Entry : Type 0 where
  broken no_id excluded : Entry
  kept : ℕ → Entry

abbrev pub entry_of_type : ℕ → Option Bool → Entry
entry_of_type mal_id none = broken
entry_of_type mal_id (some true) = excluded
entry_of_type mal_id (some false) = kept mal_id

unfoldable pub read_entry : Json → Entry
read_entry anime = elim (Json.get "mal_id" anime) [
  | none ↦ broken
  | some v ↦ elim (positive_id v) [
    | none ↦ no_id
    | some mal_id ↦ elim (Json.get "type" anime) [
      | none ↦ broken
      | some t ↦ entry_of_type mal_id (is_excluded t)
    ]
  ]
]

-- `(mal_id, resource) for resource in resources`
abbrev pub rows_of : ℕ → List Resource → List Key
rows_of mal_id [] = []
rows_of mal_id (r ∷ rs) = record { mal_id = mal_id; resource = r } ∷ rows_of mal_id rs

-- The rest of the body for an entry, and then `rest`, the entries behind it.
abbrev pub take_entry :
    List Resource → Entry → Exec Exc Tally (List Key) → Exec Exc Tally (List Key)
take_entry rs broken rest t = (err unexpected, t)
take_entry rs no_id rest t = rest (record t { skipped = t.skipped + 1 })
take_entry rs excluded rest t = rest (record t { skipped_type = t.skipped_type + 1 })
take_entry rs (kept mal_id) rest t =
    continue (rest t) (λ rows t'. (ok (rows_of mal_id rs ++ rows), t'))

-- `for anime in …`
unfoldable pub scan : List Resource → List Json → Exec Exc Tally (List Key)
scan rs [] t = (ok [], t)
scan rs (anime ∷ rest) t =
    take_entry rs (read_entry anime) (scan rs rest) (record t { seen = t.seen + 1 })

abbrev pub without : Key → List Key → List Key
without key [] = []
without key (k ∷ ks) = let rest = without key ks in if same_key k key then rest else k ∷ rest

-- `list(dict.fromkeys(rows))`: the first of equal rows stays.
unfoldable pub distinct : List Key → List Key
distinct [] = []
distinct (k ∷ ks) = k ∷ without k (distinct ks)

abbrev pub names : Fields → List Json
names end = []
names (field name v rest) = str name ∷ names rest

-- What `for anime in result.get("data") or []` runs over; `none` is the TypeError of a value that
-- cannot be iterated. A text gives its characters, of which the first already breaks the loop, as
-- the text itself does here.
unfoldable pub entries : Json → Option (List Json)
entries result = elim (Json.get "data" result) [
  | none ↦ none
  | some animes ↦ if truthy animes then iterate animes else some []
]
  where
    iterate : Json → Option (List Json)
    iterate (arr items) = some (Json.elements items)
    iterate (obj fields) = some (names fields)
    iterate (str s) = some (str s ∷ [])
    iterate v = none
