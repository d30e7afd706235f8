-- ===== src/Ingestion/Clean/Batch/Progress.antt =====
-- About the batches of index rows, each of which begins behind the last row of the one before.
use anime_app_backend.Prelude.{
  ℕ, suc, zero, ◌≤◌, ◌<◌, ◌≡◌, refl, subst, Bool, true, false, ◌&&◌, ◌||◌, Option, none, some, List,
  [], ◌∷◌, leb, arith, if◌then◌else◌,
}
use anime_app_backend.Prelude.Lists.{All, any_of, take, length}
use anime_app_backend.Ingestion.Enums.{Key, same_key, key_ltb, eq_of_same_key, same_key_refl}
use anime_app_backend.Ingestion.Raw.{
  RawRow, is_wanted, select_where, insert_sorted, sort_rows, get_batch,
}
use anime_app_backend.Ingestion.Clean.Batch.{last_key}

-- The cursor that a batch returns.
abbrev pub cursor_of : List RawRow → Option Key
cursor_of [] = none
cursor_of (row ∷ rows) = some (last_key row rows)

-- How many rows there are behind a cursor.
abbrev pub rows_left : Option ℕ → Option Key → List RawRow → ℕ
rows_left since after rows = length (select_where (is_wanted since after) rows)

abbrev pub is_behind : Option Key → Key → Bool
is_behind none key = true
is_behind (some a) key = key_ltb a key

key_ltb_irrefl : (a : Key) → key_ltb a a ≡ false
unfolding key_ltb
key_ltb_irrefl a = ground arith

is_behind_trans :
    (after : Option Key) (key k : Key)
    → is_behind after key ≡ true
    → key_ltb key k ≡ true
    → is_behind after k ≡ true
unfolding key_ltb
is_behind_trans none key k h g = refl
is_behind_trans (some a) key k h g = ground (arith, h, g)

All-mono :
    {A : Type 0} (P Q : A → Type 0) (xs : List A) → ((a : A) → P a → Q a) → All P xs → All Q xs
All-mono P Q [] f h = tt
All-mono P Q (x ∷ xs) f h = (f x h.0, All-mono P Q xs f h.1)

or_true : (a : Bool) {b : Bool} → b ≡ true → (a || b) ≡ true
or_true a h = ground (arith, h)

-- One of the rows has the key and passes the test.
abbrev pub HasRow : (RawRow → Bool) → List RawRow → Key → Type 0
HasRow test rows key = any_of (λ r. test r && same_key r.key key) rows ≡ true

abbrev pub AllHave : (RawRow → Bool) → List RawRow → List RawRow → Type 0
AllHave test rows = All (λ r. HasRow test rows r.key)

select_where-AllHave :
    (test : RawRow → Bool) (rows : List RawRow) → AllHave test rows (select_where test rows)
select_where-AllHave test [] = tt
select_where-AllHave test (row ∷ rows) = by_test (test row) refl (
    All-mono (λ r. HasRow test rows r.key) (λ r. HasRow test (row ∷ rows) r.key)
      (select_where test rows) (λ r h. or_true (test row && same_key row.key r.key) h)
      (select_where-AllHave test rows))
  where
    by_test :
        (b : Bool)
        → test row ≡ b
        → AllHave test (row ∷ rows) (select_where test rows)
        → AllHave test
            (row ∷ rows)
            (if b then row ∷ select_where test rows else select_where test rows)
    by_test true e rest = (ground (arith, e, same_key_refl row.key), rest)
    by_test false e rest = rest

insert_sorted-All :
    (P : RawRow → Type 0) (row : RawRow) (rows : List RawRow)
    → P row
    → All P rows
    → All P (insert_sorted row rows)
unfolding insert_sorted
insert_sorted-All P row [] h k = (h, tt)
insert_sorted-All P row (other ∷ rows) h k =
    by_order (key_ltb other.key row.key) (insert_sorted-All P row rows h k.1)
  where
    by_order :
        (b : Bool)
        → All P (insert_sorted row rows)
        → All P (if b then other ∷ insert_sorted row rows else row ∷ other ∷ rows)
    by_order true rest = (k.0, rest)
    by_order false rest = (h, k)

sort_rows-All : (P : RawRow → Type 0) (rows : List RawRow) → All P rows → All P (sort_rows rows)
unfolding sort_rows
sort_rows-All P [] h = tt
sort_rows-All P (row ∷ rows) h =
    insert_sorted-All P row (sort_rows rows) h.0 (sort_rows-All P rows h.1)

take-All : (P : RawRow → Type 0) (n : ℕ) (rows : List RawRow) → All P rows → All P (take n rows)
take-All P zero rows h = tt
take-All P (suc n) [] h = tt
take-All P (suc n) (row ∷ rows) h = (h.0, take-All P n rows h.1)

last_key-All :
    (P : Key → Type 0) (row : RawRow) (rows : List RawRow)
    → All (λ r. P r.key) (row ∷ rows)
    → P (last_key row rows)
last_key-All P row [] h = h.0
last_key-All P row (next ∷ rows) h = last_key-All P next rows h.1

abbrev is_recent : Option ℕ → RawRow → Bool
is_recent none row = true
is_recent (some t) row = leb t row.fetched_at

is_wanted_lem :
    (since : Option ℕ) (after : Option Key) (row : RawRow)
    → is_wanted since after row ≡ (is_recent since row && is_behind after row.key)
is_wanted_lem none none row = refl
is_wanted_lem none (some a) row = refl
is_wanted_lem (some t) none row = refl
is_wanted_lem (some t) (some a) row = refl

-- The key of a row that is wanted is behind the cursor.
HasRow-is_behind :
    (since : Option ℕ) (after : Option Key) (rows : List RawRow) (key : Key)
    → HasRow (is_wanted since after) rows key
    → is_behind after key ≡ true
HasRow-is_behind since after [] key h = cc h
HasRow-is_behind since after (row ∷ rows) key h = ground (
  arith,
  h,
  HasRow-is_behind since after rows key,
  eq_of_same_key row.key key,
  is_wanted_lem since after row,
)

-- Behind a later key there are fewer rows.
rows_left-fewer :
    (since : Option ℕ) (after : Option Key) (key : Key)
    → is_behind after key ≡ true
    → (rows : List RawRow)
    → (rows_left since (some key) rows ≤ rows_left since after rows)
      × (HasRow (is_wanted since after) rows key
          → rows_left since (some key) rows < rows_left since after rows)
rows_left-fewer since after key behind [] = (omega arith, λ h. cc h)
rows_left-fewer since after key behind (row ∷ rows) =
    let rest = rows_left-fewer since after key behind rows in
    let facts : (is_wanted since (some key) row ≡ true → is_wanted since after row ≡ true)
        × (same_key row.key key ≡ true → is_wanted since (some key) row ≡ false) =
      (
        (λ h. ground (
          arith,
          h,
          is_wanted_lem since after row,
          is_wanted_lem since (some key) row,
          is_behind_trans after key row.key behind,
        )),
        (λ h. ground (
          arith,
          h,
          is_wanted_lem since (some key) row,
          eq_of_same_key row.key key,
          key_ltb_irrefl key,
        )),
      ) in
    (ground (arith, rest.0, facts.0), λ h. ground (arith, h, rest.0, rest.1, facts.0, facts.1))

cursor_of-HasRow :
    (test : RawRow → Bool) (rows xs : List RawRow) (key : Key)
    → AllHave test rows xs
    → cursor_of xs ≡ some key
    → HasRow test rows key
cursor_of-HasRow test rows [] key h e = cc e
cursor_of-HasRow test rows (x ∷ xs) key h e =
    let same : last_key x xs ≡ key = cc e in
    subst (HasRow test rows) same (last_key-All (HasRow test rows) x xs h)

-- Behind the cursor that a batch returns, fewer rows are left than behind the one it began at.
pub get_batch-Fewer :
    (since : Option ℕ) (after : Option Key) (size : ℕ) (rows : List RawRow) (key : Key)
    → cursor_of (get_batch since after size rows) ≡ some key
    → rows_left since (some key) rows < rows_left since after rows
unfolding get_batch
get_batch-Fewer since after size rows key e =
    let test = is_wanted since after in
    let batch = take size (sort_rows (select_where test rows)) in
    let found : HasRow test rows key =
      cursor_of-HasRow test rows batch key
        (take-All (λ r. HasRow test rows r.key) size (sort_rows (select_where test rows))
          (sort_rows-All (λ r. HasRow test rows r.key) (select_where test rows)
            (select_where-AllHave test rows)))
        e in
    (rows_left-fewer since after key (HasRow-is_behind since after rows key found) rows).1 found
