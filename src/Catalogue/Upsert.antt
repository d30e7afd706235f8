-- ===== src/Catalogue/Upsert.antt =====
-- `CatalogueRepository._upsert` (app/catalogue/repository.py): INSERT … ON CONFLICT DO UPDATE in
-- statements of at most 500 rows. `K` is the type of the primary keys, `R` that of the new rows,
-- `S` that of the stored ones.
pub mod Replay
use anime_app_backend.Prelude.{
  ℕ, zero, suc, ◌+◌, Bool, true, false, ◌&&◌, Option, none, some, List, [], ◌∷◌, if◌then◌else◌,
}
use anime_app_backend.Prelude.Lists.{any_of, take, drop, length}

-- A table: what is stored for a new row, what an update makes of a stored row, and whether it is
-- updated at all (`only_if_changed`).
pub record Model (K R S : Type 0) : Type 0 where
  pub same : K → K → Bool
  pub key : R → K
  pub stored_key : S → K
  pub inserted : R → S
  pub updated : R → S → S
  pub is_update : R → S → Bool

abbrev pub rows_per_statement : ℕ
rows_per_statement = 500

-- The row counts of two statements.
abbrev pub counted : {A : Type 0} → ℕ → Option (ℕ × A) → Option (ℕ × A)
counted n none = none
counted n (some (m, a)) = some (n + m, a)

module _ {K R S : Type 0} (model : Model K R S) where
  unfoldable pub find_row : K → List S → Option S
  find_row k [] = none
  find_row k (s ∷ table) = if model.same (model.stored_key s) k then some s else find_row k table

  unfoldable pub set_row : R → List S → List S
  set_row r [] = []
  set_row r (s ∷ table) =
      let rest = set_row r table in
      if model.same (model.stored_key s) (model.key r) then model.updated r s ∷ table else s ∷ rest

  -- One row: whether it was written, and the table.
  abbrev pub write_found : R → List S → Option S → Bool × List S
  write_found r table none = (true, model.inserted r ∷ table)
  write_found r table (some s) =
      if model.is_update r s then (true, set_row r table) else (false, table)

  unfoldable pub write_row : R → List S → Bool × List S
  write_row r table = write_found r table (find_row (model.key r) table)

  -- One statement, with its row count. Postgres refuses (`none`) a row whose key the statement
  -- has already written, before it looks at the WHERE; `written` are those keys.
  unfoldable pub statement : List K → List R → List S → Option (ℕ × List S)
  statement written [] table = some (0, table)
  statement written (r ∷ rows) table =
      let (is_written, table') = write_row r table in
      let rest = statement (if is_written then model.key r ∷ written else written) rows table' in
      if any_of (model.same (model.key r)) written
      then none
      else counted (if is_written then 1 else 0) rest

  -- Statement by statement; as much fuel as there are rows is enough.
  unfoldable pub statements : ℕ → List R → List S → Option (ℕ × List S)
  statements zero rows table = some (0, table)
  statements (suc fuel) [] table = some (0, table)
  statements (suc fuel) (r ∷ rows) table =
      elim (statement [] (take rows_per_statement (r ∷ rows)) table) [
        | none ↦ none
        | some written ↦
            counted written.0 (statements fuel (drop rows_per_statement (r ∷ rows)) written.1)
      ]

  unfoldable pub upsert : List R → List S → Option (ℕ × List S)
  upsert rows table = statements (length rows) rows table
