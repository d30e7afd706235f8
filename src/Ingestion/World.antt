-- ===== src/Ingestion/World.antt =====
-- The state that the ingestion jobs share: the adapter, the database as the work session sees it,
-- the object store and the run history. A session sees its own writes; `saved` is what a commit
-- has made lasting, and a rollback goes back to it.
use anime_app_backend.Prelude.{ℕ, Option, none, some, List, [], ◌∷◌, if◌then◌else◌}
use anime_app_backend.Json.{Json}
use anime_app_backend.Exec.{Exec, ok, err}
use anime_app_backend.Ingestion.Enums.{Key, same_key}
use anime_app_backend.Ingestion.Errors.{Exc, raw_store_error}
use anime_app_backend.Ingestion.Runtime.{Outside, advance, client_error, other_fault}
use anime_app_backend.Ingestion.Adapter.{Adapter}
use anime_app_backend.Ingestion.Tasks.{Task}
use anime_app_backend.Ingestion.Raw.{RawRow}

pub record Database : Type 0 where
  pub tasks : List Task
  pub raw : List RawRow

pub record Session (T : Type 0) : Type 0 where
  pub saved : T
  pub seen : T

-- The objects of S3 by their key, the latest write of a key first (app/ingestion/storage).
abbrev pub Objects : Type 0
Objects = List (Key × Json)

unfoldable pub object : Key → Objects → Option Json
object key [] = none
object key ((k, payload) ∷ rest) = if same_key k key then some payload else object key rest

-- `R` is the run history, `V` the variables of the job that runs.
pub record World (R V : Type 0) : Type 0 where
  pub adapter : Adapter
  pub work : Session Database
  pub objects : Objects
  pub runs : Session R
  pub vars : V

module _ (out : Outside) {R V : Type 0} where
  abbrev pub tick : World R V → World R V
  tick w = record w { adapter = record w.adapter { clock = advance out 0 w.adapter.clock } }

  abbrev pub event : World R V → ℕ
  event w = w.adapter.clock.events

  -- A statement in the work session. If it fails, it has changed nothing.
  unfoldable pub query : {A : Type 0} → (Database → A × Database) → Exec Exc (World R V) A
  query f w = elim (out.database_fault (event w)) [
    | some e ↦ (err e, tick w)
    | none ↦
        let (a, db) = f w.work.seen in
        (ok a, record (tick w) { work = record w.work { seen = db } })
  ]

  unfoldable pub commit : Exec Exc (World R V) (Unit {0})
  commit w = elim (out.database_fault (event w)) [
    | some e ↦ (err e, tick w)
    | none ↦ (ok tt, record (tick w) { work = record w.work { saved = w.work.seen } })
  ]

  unfoldable pub rollback : Exec Exc (World R V) (Unit {0})
  rollback w = elim (out.database_fault (event w)) [
    | some e ↦ (err e, tick w)
    | none ↦ (ok tt, record (tick w) { work = record w.work { seen = w.work.saved } })
  ]

  -- The same for the session of the run history.
  unfoldable pub query_runs : {A : Type 0} → (R → A × R) → Exec Exc (World R V) A
  query_runs f w = elim (out.database_fault (event w)) [
    | some e ↦ (err e, tick w)
    | none ↦
        let (a, rs) = f w.runs.seen in
        (ok a, record (tick w) { runs = record w.runs { seen = rs } })
  ]

  unfoldable pub commit_runs : Exec Exc (World R V) (Unit {0})
  commit_runs w = elim (out.database_fault (event w)) [
    | some e ↦ (err e, tick w)
    | none ↦ (ok tt, record (tick w) { runs = record w.runs { saved = w.runs.seen } })
  ]

  -- `RawStore.put`: returns the size of the object.
  unfoldable pub put : Key → Json → Exec Exc (World R V) ℕ
  put key payload w = elim (out.storage_fault (event w)) [
    | none ↦
        (ok (out.stored_size payload), record (tick w) { objects = (key, payload) ∷ w.objects })
    | some client_error ↦ (err raw_store_error, tick w)
    | some (other_fault e) ↦ (err e, tick w)
  ]

  unfoldable pub on_adapter : {A : Type 0} → Exec Exc Adapter A → Exec Exc (World R V) A
  on_adapter m w = let (r, a) = m w.adapter in (r, record w { adapter = a })
