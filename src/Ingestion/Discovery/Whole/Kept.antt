-- ===== src/Ingestion/Discovery/Whole/Kept.antt =====
-- About what a whole discovery run has saved.
use anime_app_backend.Prelude.{
  ℕ, ◌+◌, ◌≡◌, refl, sym, ◌∙◌, Bool, true, false, Option, none, some, String, List, arith, ap,
  subst,
}
use anime_app_backend.Prelude.Lists.{length}
use anime_app_backend.Exec.{recover}
use anime_app_backend.Exec.Post.{Post, Post-mono, continue-Post, recover-Post}
use anime_app_backend.Ingestion.Enums.{Resource, RunStatus, Key}
use anime_app_backend.Ingestion.Errors.{Exc}
use anime_app_backend.Ingestion.Runtime.{Outside}
use anime_app_backend.Ingestion.World.{Session, Database, query_runs, commit_runs}
use anime_app_backend.Ingestion.Discovery.{
  Summary, State, Vars, start_vars, with_counters, page_loop,
}
use anime_app_backend.Ingestion.Discovery.Progress.{
  written_all, AllFrom, IsPageOf, IsSynced, HasSaved, HasSaved-none,
}
use anime_app_backend.Ingestion.Discovery.Saved.{page_loop-Post}
use anime_app_backend.Ingestion.Discovery.Whole.{
  failed_summary, record_run, start_run, fail, finish, run,
}

record Same (w w' : State) : Type 0 where
  work : w'.work ≡ w.work
  vars : w'.vars ≡ w.vars

HasSaved-Same :
    {P : ℕ → List Key → Type 0} {b : Bool} {w w₁ w' : State}
    → HasSaved P b w w₁
    → Same w₁ w'
    → HasSaved P b w w'
HasSaved-Same h s = record {
  batches = h.batches;
  good = h.good;
  saved = ap (λ (x : Session Database). x.saved) s.work ∙ h.saved;
  page = ap (λ (v : Vars). v.page) s.vars ∙ h.page;
  pages = ap (λ (v : Vars). v.summary.pages) s.vars ∙ h.pages;
}

Same-HasSaved :
    {P : ℕ → List Key → Type 0} {b : Bool} (w w₁ w' : State)
    → Same w w₁
    → HasSaved P b w₁ w'
    → HasSaved P b w w'
Same-HasSaved {P} {b} w w₁ w' s h = record {
  batches = h.batches;
  good = subst (λ (v : Vars). AllFrom P v.page h.batches) s.vars h.good;
  saved =
      h.saved
      ∙ ap
          (λ (x : Session Database). record x.saved {
            tasks = written_all b h.batches x.saved.tasks;
          })
          s.work;
  page = h.page ∙ ap (λ (v : Vars). v.page + length h.batches) s.vars;
  pages = h.pages ∙ ap (λ (v : Vars). v.summary.pages + length h.batches) s.vars;
}

module _ (out : Outside) where
  start_run-Same :
      (job : String) (w : State)
      → Post (λ _ w'. Same w w') (λ _ w'. Same w w') (start_run out job w)
  unfolding start_run query_runs
  start_run-Same job w = ground arith

  commit_runs-Same : (w : State) → Post (λ _ w'. Same w w') (λ _ w'. Same w w') (commit_runs out w)
  unfolding commit_runs
  commit_runs-Same w = ground arith

  record_run-Same :
      (id : ℕ) (status : RunStatus) (s : Summary) (e : Option Exc) (w : State)
      → Post (λ _ w'. Same w w') (λ _ w'. Same w w') (record_run out id status s e w)
  unfolding record_run query_runs commit_runs
  record_run-Same id status s e w = ground arith

  -- What a run that started at `w` has saved, and what its summary says of it.
  abbrev pub Reports : (ℕ → List Key → Type 0) → Bool → State → Option Summary → State → Type 0
  Reports P b w none w' = HasSaved P b w w'
  Reports P b w (some s) w' =
      HasSaved P b w w' × (s.pages ≡ w'.vars.summary.pages) × (s.resume_page ≡ none)

  fail-Post :
      (P : ℕ → List Key → Type 0) (b : Bool) (w : State) (id : ℕ) (e : Exc) (w₁ : State)
      → HasSaved P b w w₁
      → Post (λ _ w'. HasSaved P b w w') (λ _ w'. HasSaved P b w w') (fail out id e w₁)
  unfolding fail
  fail-Post P b w id e w₁ h =
      continue-Post (λ _ w'. Same w₁ w') _ _
        (record_run out id RunStatus.failed (failed_summary w₁) (some e) w₁) _
        (Post-mono (λ _ w'. Same w₁ w') (λ _ w'. Same w₁ w') (λ _ w'. Same w₁ w')
          (λ _ w'. HasSaved P b w w')
          (record_run out id RunStatus.failed (failed_summary w₁) (some e) w₁)
          (record_run-Same id RunStatus.failed (failed_summary w₁) (some e) w₁) (λ _ _ x. x)
          (λ _ w' s. HasSaved-Same {w₁ = w₁} h s))
        (λ _ w' s. HasSaved-Same {w₁ = w₁} h s)

  finish-Post :
      (P : ℕ → List Key → Type 0) (b : Bool) (w : State) (id : ℕ) (ended : Bool) (w₁ : State)
      → HasSaved P b w w₁
      → Post (Reports P b w) (λ _ w'. HasSaved P b w w') (finish out id ended w₁)
  unfolding finish
  finish-Post P b w id false w₁ h = h
  finish-Post P b w id true w₁ h =
      let summary : Summary = record (with_counters w₁ w₁.vars.summary) { resume_page = none } in
      continue-Post (λ _ w'. Same w₁ w') _ _ (record_run out id RunStatus.succeeded summary none w₁)
        _
        (Post-mono (λ _ w'. Same w₁ w') (λ _ w'. Same w₁ w') (λ _ w'. Same w₁ w')
          (λ _ w'. HasSaved P b w w') (record_run out id RunStatus.succeeded summary none w₁)
          (record_run-Same id RunStatus.succeeded summary none w₁) (λ _ _ x. x)
          (λ _ w' s. HasSaved-Same {w₁ = w₁} h s))
        (λ _ w' s.
          (HasSaved-Same {w₁ = w₁} h s, sym (ap (λ (v : Vars). v.summary.pages) s.vars), refl))

  -- A run that starts with nothing unsaved in its session, however it ends: what is saved is what
  -- lists of rows, one for each page that it has counted, make of the tasks one after the other.
  -- The list of a page holds no row twice, and holds exactly the rows of the anime, with each of
  -- the resources, that are among the entries of a JSON response that Tenrai gives for this page of
  -- the list. The page it stands at is as many pages behind the one it started with. The summary of
  -- a run that was not stopped has that number of pages and no page to resume at.
  pub run-Reports :
      (fuel : ℕ) (job : String) (page : ℕ) (filters : List (String × String)) (rs : List Resource)
      (b : Bool) (max_pages : Option ℕ) (w : State)
      → IsSynced w
      → let w₀ : State = record w { vars = start_vars page w } in
        Post
          (Reports (IsPageOf out filters rs) b w₀)
          (λ _ w'. HasSaved (IsPageOf out filters rs) b w₀ w')
          (run out fuel job page filters rs b max_pages w)
  unfolding run
  run-Reports fuel job page filters rs b max_pages w synced =
      let P = IsPageOf out filters rs in
      let w₀ : State = record w { vars = start_vars page w } in
      continue-Post (λ _ w'. Same w₀ w') _ _ (start_run out job w₀) _
        (Post-mono (λ _ w'. Same w₀ w') (λ _ w'. Same w₀ w') (λ _ w'. Same w₀ w')
          (λ _ w'. HasSaved P b w₀ w') (start_run out job w₀) (start_run-Same job w₀) (λ _ _ x. x)
          (λ _ w' s. HasSaved-Same {w₁ = w₀} (HasSaved-none w₀) s))
        (λ id w₁ s₁.
          continue-Post (λ _ w'. Same w₁ w') _ _ (commit_runs out w₁) _
            (Post-mono (λ _ w'. Same w₁ w') (λ _ w'. Same w₁ w') (λ _ w'. Same w₁ w')
              (λ _ w'. HasSaved P b w₀ w') (commit_runs out w₁) (commit_runs-Same w₁) (λ _ _ x. x)
              (λ _ w' s. Same-HasSaved w₀ w₁ w' s₁ (HasSaved-Same {w₁ = w₁} (HasSaved-none w₁) s)))
            (λ _ w₂ s₂.
              let s : Same w₀ w₂ = record { work = s₂.work ∙ s₁.work; vars = s₂.vars ∙ s₁.vars } in
              let loop = page_loop out fuel filters rs b max_pages in
              continue-Post (λ _ w'. HasSaved P b w₀ w') _ _ (recover (loop w₂) (fail out id)) _
                (recover-Post (λ _ w'. HasSaved P b w₀ w') (λ _ w'. HasSaved P b w₀ w')
                  (λ _ w'. HasSaved P b w₀ w') (loop w₂) (fail out id)
                  (Post-mono (λ _ w'. HasSaved P b w₂ w') (λ _ w'. HasSaved P b w₀ w')
                    (λ _ w'. HasSaved P b w₂ w') (λ _ w'. HasSaved P b w₀ w') (loop w₂)
                    (page_loop-Post out filters rs b max_pages fuel w₂
                      (subst (λ (x : Session Database). x.seen ≡ x.saved) (sym s.work) synced))
                    (λ _ w' h. Same-HasSaved w₀ w₂ w' s h) (λ _ w' h. Same-HasSaved w₀ w₂ w' s h))
                  (λ e w₃ h. fail-Post P b w₀ id e w₃ h))
                (λ ended w₃ h. finish-Post P b w₀ id ended w₃ h)))
