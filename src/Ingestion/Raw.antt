-- ===== src/Ingestion/Raw.antt =====
-- `RawTenraiRepository` (app/ingestion/repository/raw_tenrai_repository.py): each method's SQL
-- statement as a function on the rows of `raw_tenrai`, a list in no particular order with
-- (mal_id, resource) as the primary key.
use anime_app_backend.Prelude.{
  ℕ, ◌+◌, Bool, true, ◌&&◌, Option, none, some, List, [], ◌∷◌, leb, if◌then◌else◌,
}
use anime_app_backend.Prelude.Lists.{take}
use anime_app_backend.Ingestion.Enums.{Key, same_key, key_ltb}

-- A row of `raw_tenrai` (app/ingestion/models.py).
pub record RawRow : Type 0 where
  pub key : Key
  pub size_bytes : ℕ
  pub fetched_at : ℕ

abbrev pub has_key : Key → RawRow → Bool
has_key key row = same_key row.key key

unfoldable pub find : Key → List RawRow → Option RawRow
find key [] = none
find key (row ∷ rows) = if has_key key row then some row else find key rows

-- `WHERE fetched_at >= since AND (mal_id, resource) > after`, each only where it is given
abbrev pub is_wanted : Option ℕ → Option Key → RawRow → Bool
is_wanted since after row =
    (elim since [ none ↦ true | some t ↦ leb t row.fetched_at ])
    && (elim after [ none ↦ true | some key ↦ key_ltb key row.key ])

abbrev pub select_where : (RawRow → Bool) → List RawRow → List RawRow
select_where test [] = []
select_where test (row ∷ rows) =
    let rest = select_where test rows in if test row then row ∷ rest else rest

-- `ORDER BY mal_id, resource`
unfoldable pub insert_sorted : RawRow → List RawRow → List RawRow
insert_sorted row [] = row ∷ []
insert_sorted row (other ∷ rows) =
    let rest = insert_sorted row rows in
    if key_ltb other.key row.key then other ∷ rest else row ∷ other ∷ rows

unfoldable pub sort_rows : List RawRow → List RawRow
sort_rows [] = []
sort_rows (row ∷ rows) = insert_sorted row (sort_rows rows)

unfoldable pub get_batch : Option ℕ → Option Key → ℕ → List RawRow → List RawRow
get_batch since after limit rows =
    take limit (sort_rows (select_where (is_wanted since after) rows))

-- One row of the INSERT … ON CONFLICT DO UPDATE of `upsert_many`, at the transaction's time.
unfoldable pub upsert_row : ℕ → Key → ℕ → List RawRow → List RawRow
upsert_row now key size [] = record { key = key; size_bytes = size; fetched_at = now } ∷ []
upsert_row now key size (row ∷ rows) =
    let rest = upsert_row now key size rows in
    if has_key key row
    then record row { size_bytes = size; fetched_at = now } ∷ rows
    else row ∷ rest

-- `upsert_many`, for rows with no key twice: returns how many were written.
unfoldable pub upsert_many : ℕ → List (Key × ℕ) → List RawRow → ℕ × List RawRow
upsert_many now [] rows = (0, rows)
upsert_many now ((key, size) ∷ new) rows =
    let (written, rows') = upsert_many now new (upsert_row now key size rows) in
    (1 + written, rows')

-- `upsert`
unfoldable pub upsert : ℕ → Key → ℕ → List RawRow → List RawRow
unfolding upsert_many
upsert now key size rows = (upsert_many now ((key, size) ∷ []) rows).1

unfoldable pub delete : Key → List RawRow → ℕ × List RawRow
delete key [] = (0, [])
delete key (row ∷ rows) =
    let (deleted, rest) = delete key rows in
    if has_key key row then (1 + deleted, rest) else (deleted, row ∷ rest)
