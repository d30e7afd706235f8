-- ===== src/Ingestion/Fetch/Stored.antt =====
-- A task is saved as done only when its response is stored: the object, then the index row, then
-- the task, whatever fails in between.
use anime_app_backend.Prelude.{
  ℕ, ◌≡◌, refl, sym, ◌∙◌, Bool, true, false, is_some, List, [], ◌∷◌, arith, if◌then◌else◌,
  Bool-cases, inl, inr, subst,
}
use anime_app_backend.Prelude.Lists.{All}
use anime_app_backend.Json.{Json}
use anime_app_backend.Ingestion.Enums.{Key, same_key_refl, eq_of_same_key, done}
use anime_app_backend.Ingestion.Tasks.{Task, has_key, update_where}
use anime_app_backend.Ingestion.Raw
use anime_app_backend.Ingestion.Raw.{RawRow, find, upsert, upsert_row}
use anime_app_backend.Ingestion.World.{Database, Objects, object}

-- Every index row has its object, and every done task its index row.
pub record IsStored (objects : Objects) (db : Database) : Type 0 where
  pub rows : All (λ (row : RawRow). is_some (object row.key objects) ≡ true) db.raw
  pub done_tasks : All (λ (t : Task). t.status ≡ done → is_some (find t.key db.raw) ≡ true) db.tasks

All-map :
    {A : Type 0} (P Q : A → Type 0) (xs : List A) → ((x : A) → P x → Q x) → All P xs → All Q xs
All-map P Q [] f h = tt
All-map P Q (x ∷ xs) f h = (f x h.0, All-map P Q xs f h.1)

object-put :
    (k key : Key) (payload : Json) (objects : Objects)
    → is_some (object k objects) ≡ true
    → is_some (object k ((key, payload) ∷ objects)) ≡ true
unfolding object
object-put k key payload objects h = ground arith

pub object-put_self :
    (key : Key) (payload : Json) (objects : Objects)
    → is_some (object key ((key, payload) ∷ objects)) ≡ true
unfolding object
object-put_self key payload objects = ground (arith, same_key_refl key)

pub put-IsStored :
    (key : Key) (payload : Json) (objects : Objects) (db : Database)
    → IsStored objects db
    → IsStored ((key, payload) ∷ objects) db
put-IsStored key payload objects db h = record {
  rows = All-map _ _ db.raw (λ row r. object-put row.key key payload objects r) h.rows;
  done_tasks = h.done_tasks;
}

find-upsert :
    (k : Key) (now : ℕ) (key : Key) (size : ℕ) (rows : List RawRow)
    → is_some (find k rows) ≡ true
    → is_some (find k (upsert_row now key size rows)) ≡ true
unfolding find upsert_row
find-upsert k now key size [] h = cc
find-upsert k now key size (row ∷ rows) h = ground (arith, find-upsert k now key size rows)

pub find-upsert_self :
    (now : ℕ) (key : Key) (size : ℕ) (rows : List RawRow)
    → is_some (find key (upsert_row now key size rows)) ≡ true
unfolding find upsert_row
find-upsert_self now key size [] = ground (arith, same_key_refl key)
find-upsert_self now key size (row ∷ rows) = ground (arith, find-upsert_self now key size rows)

upsert-All :
    (P : Key → Type 0) (now : ℕ) (key : Key) (size : ℕ) (rows : List RawRow)
    → P key
    → All (λ (row : RawRow). P row.key) rows
    → All (λ (row : RawRow). P row.key) (upsert_row now key size rows)
unfolding upsert_row
upsert-All P now key size [] p h = (p, tt)
upsert-All P now key size (row ∷ rows) p h = elim (Bool-cases (Raw.has_key key row)) [
  | inl e ↦ rw e (h.0, h.1)
  | inr e ↦ rw e (h.0, upsert-All P now key size rows p h.1)
]

pub index-IsStored :
    (now : ℕ) (key : Key) (size : ℕ) (objects : Objects) (db : Database)
    → is_some (object key objects) ≡ true
    → IsStored objects db
    → IsStored objects (record db { raw = upsert now key size db.raw })
unfolding upsert
index-IsStored now key size objects db there h = record {
  rows = upsert-All (λ k. is_some (object k objects) ≡ true) now key size db.raw there h.rows;
  done_tasks =
      All-map _ _ db.tasks (λ t r d. find-upsert t.key now key size db.raw (r d)) h.done_tasks;
}

-- Setting the rows of a key: they may become done only if the key has its index row.
pub set-IsStored :
    (key : Key) (f : Task → Task) (objects : Objects) (db : Database)
    → ((t : Task) → (f t).key ≡ t.key)
    → ((t : Task) → (f t).status ≡ done → is_some (find key db.raw) ≡ true)
    → IsStored objects db
    → IsStored objects (record db { tasks = update_where (has_key key) f db.tasks })
set-IsStored key f objects db keeps done_ok h = record {
  rows = h.rows;
  done_tasks = go db.tasks h.done_tasks;
}
  where
    one :
        (t : Task) (b : Bool)
        → has_key key t ≡ b
        → (t.status ≡ done → is_some (find t.key db.raw) ≡ true)
        → (if b then f t else t).status ≡ done
        → is_some (find (if b then f t else t).key db.raw) ≡ true
    one t true e r d =
        subst (λ (k : Key). is_some (find k db.raw) ≡ true)
          (sym (keeps t ∙ eq_of_same_key t.key key e)) (done_ok t d)
    one t false e r d = r d

    go :
        (ts : List Task)
        → All (λ (t : Task). t.status ≡ done → is_some (find t.key db.raw) ≡ true) ts
        → All
            (λ (t : Task). t.status ≡ done → is_some (find t.key db.raw) ≡ true)
            (update_where (has_key key) f ts)
    go [] h' = tt
    go (t ∷ ts) h' = (one t (has_key key t) refl h'.0, go ts h'.1)
