-- ===== src/Catalogue/Upsert/Replay.antt =====
-- About an upsert, key by key.
use anime_app_backend.Prelude.{
  ℕ, zero, suc, ◌≤◌, ◌≡◌, refl, sym, ◌∙◌, ap, Bool, true, false, Option, none, some, List, [], ◌∷◌,
  ◌++◌, arith, if◌then◌else◌,
}
use anime_app_backend.Prelude.Lists.{any_of, take, drop, length}
use anime_app_backend.Catalogue.Upsert.{
  Model, rows_per_statement, counted, find_row, set_row, write_found, write_row, statement,
  statements, upsert,
}

-- What is counted was there.
counted-some :
    {A : Type 0} (c : ℕ) (b : Bool) (o : Option (ℕ × A)) {n : ℕ} {a : A}
    → (if b then none else counted c o) ≡ some (n, a)
    → (m : ℕ) × (o ≡ some (m, a))
counted-some c true o h = cc h
counted-some c false none h = cc h
counted-some c false (some (m, a')) {a = a} h = (m, ground (arith, h))

take-drop : {A : Type 0} (n : ℕ) (xs : List A) → take n xs ++ drop n xs ≡ xs
take-drop zero xs = refl
take-drop (suc n) [] = refl
take-drop (suc n) (x ∷ xs) = ap (λ ys. x ∷ ys) (take-drop n xs)

length-drop :
    {A : Type 0} (n : ℕ) (x : A) (xs : List A) → length (drop (suc n) (x ∷ xs)) ≤ length xs
length-drop zero x xs = omega arith
length-drop (suc n) x [] = omega arith
length-drop (suc n) x (y ∷ xs) = omega (arith, length-drop n y xs)

module _ {K R S : Type 0} (model : Model K R S) where
  -- What a new row makes of the stored row of its key, if there is one.
  abbrev pub merged : R → Option S → S
  merged r none = model.inserted r
  merged r (some s) = if model.is_update r s then model.updated r s else s

  -- What new rows make of the stored row of a key, one after the other.
  abbrev pub replayed : K → List R → Option S → Option S
  replayed k [] o = o
  replayed k (r ∷ rows) o =
      replayed k rows (if model.same (model.key r) k then some (merged r o) else o)

module _ {K R S : Type 0} (model : Model K R S) (same_refl : (a : K) → model.same a a ≡ true)
    (same_eq : (a b : K) → model.same a b ≡ true → a ≡ b)
    (key_inserted : (r : R) → model.stored_key (model.inserted r) ≡ model.key r)
    (key_updated : (r : R) (s : S)
      → model.stored_key (model.updated r s) ≡ model.stored_key s) where
  find-set_row :
      (k : K) (r : R) (table : List S)
      → find_row model k (set_row model r table) ≡ (
          if model.same (model.key r) k
          then (elim (find_row model k table) [ none ↦ none | some s ↦ some (model.updated r s) ])
          else find_row model k table)
  unfolding find_row set_row
  find-set_row k r [] = ground arith
  find-set_row k r (s ∷ table) = ground (
    arith,
    find-set_row k r table,
    key_updated r s,
    same_eq (model.stored_key s) (model.key r),
    same_eq (model.stored_key s) k,
    same_eq (model.key r) k,
    same_refl k,
    same_refl (model.key r),
  )

  find-write_row :
      (k : K) (r : R) (table : List S)
      → find_row model k (write_row model r table).1 ≡ (
          if model.same (model.key r) k
          then some (merged model r (find_row model k table))
          else find_row model k table)
  unfolding write_row find_row
  find-write_row k r table = by_found (find_row model (model.key r) table) refl
    where
      by_update :
          (s : S) (b : Bool)
          → find_row model (model.key r) table ≡ some s
          → (let step : Bool × List S =
                if b then (true, set_row model r table) else (false, table) in
              find_row model k step.1)
            ≡ (if model.same (model.key r) k
                then (elim (find_row model k table) [
                  | none ↦ some (model.inserted r)
                  | some s' ↦ some (if b then model.updated r s else s)
                ])
                else find_row model k table)
      by_update s true e = ground (arith, find-set_row k r table, e, same_eq (model.key r) k)
      by_update s false e = ground (arith, e, same_eq (model.key r) k)

      by_found :
          (o : Option S)
          → find_row model (model.key r) table ≡ o
          → find_row model k (write_found model r table o).1 ≡ (
              if model.same (model.key r) k
              then some (merged model r (find_row model k table))
              else find_row model k table)
      by_found none e = ground (arith, key_inserted r, e, same_eq (model.key r) k)
      by_found (some s) e =
          ground (arith, by_update s (model.is_update r s) e, e, same_eq (model.key r) k)

  statement-Replays :
      (k : K) (done : List K) (rows : List R) (table : List S) {n : ℕ} {table' : List S}
      → statement model done rows table ≡ some (n, table')
      → find_row model k table' ≡ replayed model k rows (find_row model k table)
  unfolding statement
  statement-Replays k done [] table h = ground arith
  statement-Replays k done (r ∷ rows) table h =
      let step = write_row model r table in
      let rest =
        counted-some (if step.0 then 1 else 0) (any_of (model.same (model.key r)) done)
          (statement model (if step.0 then model.key r ∷ done else done) rows step.1) h in
      statement-Replays k (if step.0 then model.key r ∷ done else done) rows step.1 rest.1
      ∙ ap (replayed model k rows) (find-write_row k r table)

  replayed-append :
      (k : K) (xs ys : List R) (o : Option S)
      → replayed model k (xs ++ ys) o ≡ replayed model k ys (replayed model k xs o)
  replayed-append k [] ys o = refl
  replayed-append k (r ∷ xs) ys o =
      replayed-append k xs ys (if model.same (model.key r) k then some (merged model r o) else o)

  statements-Replays :
      (k : K) (fuel : ℕ) (rows : List R) (table : List S) {n : ℕ} {table' : List S}
      → length rows ≤ fuel
      → statements model fuel rows table ≡ some (n, table')
      → find_row model k table' ≡ replayed model k rows (find_row model k table)
  unfolding statements
  statements-Replays k zero [] table enough h = ground arith
  statements-Replays k zero (r ∷ rows) table enough h = ground arith
  statements-Replays k (suc fuel) [] table enough h = ground arith
  statements-Replays k (suc fuel) (r ∷ rows) table {n = n} {table' = table'} enough h =
      by_first (statement model [] (take rows_per_statement (r ∷ rows)) table) refl
        (λ n t rest.
          statements-Replays k fuel (drop rows_per_statement (r ∷ rows)) t
            (omega (arith, enough, length-drop 499 r rows)) rest)
        h
    where
      first_rows : List R
      first_rows = take rows_per_statement (r ∷ rows)

      by_first :
          (o : Option (ℕ × List S))
          → statement model [] first_rows table ≡ o
          → ((n : ℕ) (t : List S)
              → statements model fuel (drop rows_per_statement (r ∷ rows)) t ≡ some (n, table')
              → find_row model k table'
                ≡ replayed model k (drop rows_per_statement (r ∷ rows)) (find_row model k t))
          → (elim o [
            | none ↦ none
            | some written ↦
                counted written.0
                  (statements model fuel (drop rows_per_statement (r ∷ rows)) written.1)
          ])
            ≡ some (n, table')
          → find_row model k table' ≡ replayed model k (r ∷ rows) (find_row model k table)
      by_first none e rest h = cc h
      by_first (some (m, t)) e rest h =
          let after =
            counted-some m false (statements model fuel (drop rows_per_statement (r ∷ rows)) t) h in
          rest after.0 t after.1
          ∙ ap (replayed model k (drop rows_per_statement (r ∷ rows)))
              (statement-Replays k [] first_rows table e)
          ∙ sym (
              replayed-append k first_rows (drop rows_per_statement (r ∷ rows))
                (find_row model k table))
          ∙ ap (λ xs. replayed model k xs (find_row model k table))
              (take-drop rows_per_statement (r ∷ rows))

  -- An upsert that Postgres does not refuse leaves each key the row that the new rows with this key
  -- make of the stored one, one after the other, in however many statements.
  pub upsert-Replays :
      (k : K) (rows : List R) (table : List S) {n : ℕ} {table' : List S}
      → upsert model rows table ≡ some (n, table')
      → find_row model k table' ≡ replayed model k rows (find_row model k table)
  unfolding upsert
  upsert-Replays k rows table h = statements-Replays k (length rows) rows table (omega arith) h
