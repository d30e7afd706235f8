-- ===== src/Ingestion/Fetch/Steps.antt =====
-- What the steps of a task change: fetching changes the adapter alone, storing the objects,
-- indexing the raw rows that the session sees.
use anime_app_backend.Prelude.{
  ℕ, zero, suc, ◌+◌, ◌≡◌, refl, ◌∙◌, Bool, true, false, Option, none, some, List, [], ◌∷◌, ◌++◌,
  arith,
}
use anime_app_backend.Exec.{Result, ok, err, continue, ◌>>=◌}
use anime_app_backend.Exec.Post.{Post}
use anime_app_backend.Json.{Json}
use anime_app_backend.Ingestion.Enums.{
  Key, Resource, details, statistics, reviews, episodes, characters,
}
use anime_app_backend.Ingestion.Errors.{Exc}
use anime_app_backend.Ingestion.Runtime.{Outside}
use anime_app_backend.Ingestion.Adapter.{Adapter, get_episodes}
use anime_app_backend.Ingestion.Tasks.{Task}
use anime_app_backend.Ingestion.Raw.{upsert}
use anime_app_backend.Ingestion.World.{on_adapter, put, query, commit, rollback, event}
use anime_app_backend.Ingestion.Fetch.{
  State, Job, has_next_page, page_end, episodes_page, episodes_loop, fetch_resource, fetch_episodes,
  fetch_payload, on_tasks, index_raw,
}

-- Two states that differ at most in the adapter.
pub record Same (w w' : State) : Type 0 where
  pub work : w'.work ≡ w.work
  pub objects : w'.objects ≡ w.objects
  pub vars : w'.vars ≡ w.vars
  pub runs : w'.runs ≡ w.runs

pub Same-refl : (w : State) → Same w w
Same-refl w = record { work = refl; objects = refl; vars = refl; runs = refl }

pub Same-trans : {w w' w'' : State} → Same w w' → Same w' w'' → Same w w''
Same-trans a b = record {
  work = b.work ∙ a.work;
  objects = b.objects ∙ a.objects;
  vars = b.vars ∙ a.vars;
  runs = b.runs ∙ a.runs;
}

module _ (out : Outside) where
  -- A job that changes the adapter alone, whether it returns or raises.
  abbrev KeepsRest : {A : Type 0} → Job A → Type 0
  KeepsRest m = (w : State) → Same w (m w).1

  on_adapter-KeepsRest :
      {A : Type 0} (m : Adapter → Result Exc A × Adapter) → KeepsRest (on_adapter out m)
  unfolding on_adapter
  on_adapter-KeepsRest m w = record { work = refl; objects = refl; vars = refl; runs = refl }

  bind-KeepsRest :
      {A B : Type 0} (m : Job A) (f : A → Job B)
      → KeepsRest m
      → ((a : A) → KeepsRest (f a))
      → KeepsRest (m >>= f)
  bind-KeepsRest m f km kf w = continue_same (m w) (km w)
    where
      continue_same : (end : Result Exc _ × State) → Same w end.1 → Same w (continue end f).1
      continue_same (ok a, s) h = Same-trans h (kf a s)
      continue_same (err e, s) h = h

  page_end-KeepsRest :
      (more : Option Bool) (pages : List Json) (rest : List Json → Job Json)
      → ((ps : List Json) → KeepsRest (rest ps))
      → KeepsRest (page_end out more pages rest)
  unfolding page_end
  page_end-KeepsRest none pages rest k w = Same-refl w
  page_end-KeepsRest (some true) pages rest k w = k pages w
  page_end-KeepsRest (some false) pages rest k w = Same-refl w

  episodes_page-KeepsRest :
      (mal_id page : ℕ) (pages : List Json) (rest : List Json → Job Json)
      → ((ps : List Json) → KeepsRest (rest ps))
      → KeepsRest (episodes_page out mal_id page pages rest)
  unfolding episodes_page
  episodes_page-KeepsRest mal_id page pages rest k =
      bind-KeepsRest _ _ (on_adapter-KeepsRest (get_episodes out mal_id page))
        (λ response. page_end-KeepsRest (has_next_page response) (pages ++ response ∷ []) rest k)

  episodes_loop-KeepsRest :
      (mal_id left page : ℕ) (pages : List Json)
      → KeepsRest (episodes_loop out mal_id left page pages)
  unfolding episodes_loop
  episodes_loop-KeepsRest mal_id zero page pages =
      episodes_page-KeepsRest mal_id page pages _ (λ _ w. Same-refl w)
  episodes_loop-KeepsRest mal_id (suc left) page pages =
      episodes_page-KeepsRest mal_id page pages _ (episodes_loop-KeepsRest mal_id left (page + 1))

  fetch_resource-KeepsRest : (r : Resource) (mal_id : ℕ) → KeepsRest (fetch_resource out r mal_id)
  unfolding fetch_resource fetch_episodes
  fetch_resource-KeepsRest episodes mal_id = episodes_loop-KeepsRest mal_id 99 1 []
  fetch_resource-KeepsRest details mal_id = on_adapter-KeepsRest _
  fetch_resource-KeepsRest statistics mal_id = on_adapter-KeepsRest _
  fetch_resource-KeepsRest reviews mal_id = on_adapter-KeepsRest _
  fetch_resource-KeepsRest characters mal_id = λ w. Same-refl w

  pub fetch_payload-Same : (key : Key) (w : State) → Same w (fetch_payload out key w).1
  unfolding fetch_payload
  fetch_payload-Same key = fetch_resource-KeepsRest key.resource key.mal_id

  -- Storing an object, and the two kinds of statements: what they change when they succeed.
  pub put-Post :
      (key : Key) (payload : Json) (w : State)
      → Post
          (λ _ w'.
            (w'.work ≡ w.work) × (w'.objects ≡ (key, payload) ∷ w.objects) × (w'.vars ≡ w.vars))
          (λ _ w'. Same w w')
          (put out key payload w)
  unfolding put
  put-Post key payload w = ground arith

  pub index_raw-Post :
      (key : Key) (size : ℕ) (w : State)
      → Post
          (λ _ w'.
            (w'.work.saved ≡ w.work.saved)
            × (w'.work.seen.tasks ≡ w.work.seen.tasks)
            × (w'.work.seen.raw ≡ upsert (out.utc (event out w)) key size w.work.seen.raw)
            × (w'.objects ≡ w.objects)
            × (w'.vars ≡ w.vars))
          (λ _ w'. Same w w')
          (index_raw out key size w)
  unfolding index_raw query
  index_raw-Post key size w = ground arith

  pub on_tasks-Post :
      (f : List Task → List Task) (w : State)
      → Post
          (λ _ w'.
            (w'.work.saved ≡ w.work.saved)
            × (w'.work.seen.tasks ≡ f w.work.seen.tasks)
            × (w'.work.seen.raw ≡ w.work.seen.raw)
            × (w'.objects ≡ w.objects)
            × (w'.vars ≡ w.vars))
          (λ _ w'. Same w w')
          (on_tasks out f w)
  unfolding query
  on_tasks-Post f w = ground arith

  pub commit-Post :
      (w : State)
      → Post
          (λ _ w'.
            (w'.work.saved ≡ w.work.seen)
            × (w'.work.seen ≡ w.work.seen)
            × (w'.objects ≡ w.objects)
            × (w'.vars ≡ w.vars))
          (λ _ w'. Same w w')
          (commit out w)
  unfolding commit
  commit-Post w = ground arith

  pub rollback-Post :
      (w : State)
      → Post
          (λ _ w'.
            (w'.work.saved ≡ w.work.saved)
            × (w'.work.seen ≡ w.work.saved)
            × (w'.objects ≡ w.objects))
          (λ _ w'. Same w w')
          (rollback out w)
  unfolding rollback
  rollback-Post w = ground arith
