-- ===== src/Ingestion/Discovery/Progress.antt =====
-- The saved state of a discovery run, page after page: what a page adds, and what a part of the
-- loop's body leaves alone.
use anime_app_backend.Prelude.{
  ℕ, ◌+◌, ◌≡◌, refl, ◌∙◌, Bool, true, false, List, [], ◌∷◌, arith, ap, subst, Option, some, String,
}
use anime_app_backend.Prelude.Lists.{length}
use anime_app_backend.Exec.{Result, ok, err}
use anime_app_backend.Exec.Post.{Post}
use anime_app_backend.Ingestion.Errors.{Exc}
use anime_app_backend.Ingestion.Enums.{Key, Resource}
use anime_app_backend.Ingestion.Tasks.{Task, insert_tasks, insert_or_reset_tasks}
use anime_app_backend.Ingestion.Tasks.Refresh.{listed, Distinct}
use anime_app_backend.Json.{Json}
use anime_app_backend.Ingestion.Runtime.{Outside, anime_list}
use anime_app_backend.Ingestion.Adapter.Attempts.{Answered}
use anime_app_backend.Ingestion.Listing.{entries}
use anime_app_backend.Ingestion.Listing.Rows.{Picks, is_among}
use anime_app_backend.Ingestion.World.{Database, Session}
use anime_app_backend.Ingestion.Discovery.{State}

-- What the rows of one page make of the tasks.
abbrev pub written : Bool → List Key → List Task → List Task
written true rows ts = (insert_or_reset_tasks rows ts).2
written false rows ts = (insert_tasks rows ts).1

-- The rows of a page whose response has these entries: one for each resource of each anime among
-- the entries, none of them twice.
pub record FromPage (rs : List Resource) (found : Option (List Json)) (rows : List Key)
    : Type 0 where
  pub animes : List Json
  pub read : found ≡ some animes
  pub ids : List ℕ
  pub picked : Picks ids animes
  pub rows_of_ids : (key : Key) → listed key rows ≡ is_among rs key ids
  pub once : Distinct rows

-- The rows of the page that Tenrai answered with when asked for the page with this number.
pub record IsPageOf (out : Outside) (filters : List (String × String)) (rs : List Resource)
    (page : ℕ) (rows : List Key) : Type 0 where
  pub response : Json
  pub answered :
      Answered out
        (anime_list page 100 (
          ("rating", "g,pg,pg13,r17,r")
          ∷ ("type", "tv,movie,ova,special,ona,tv_special")
          ∷ filters))
        response
  pub from : FromPage rs (entries response) rows

-- What `P` says of a page and its rows holds of these, from this page on.
abbrev pub AllFrom : (ℕ → List Key → Type 0) → ℕ → List (List Key) → Type 0
AllFrom P page [] = Unit
AllFrom P page (rows ∷ batches) = P page rows × AllFrom P (page + 1) batches

-- Nothing saved, and no page counted.
pub record Stuck (w w' : State) : Type 0 where
  pub saved : w'.work.saved ≡ w.work.saved
  pub page : w'.vars.page ≡ w.vars.page
  pub pages : w'.vars.summary.pages ≡ w.vars.summary.pages

-- The rows of one page saved, and the page counted.
pub record Advanced (P : ℕ → List Key → Type 0) (reset_existing : Bool) (w w' : State)
    : Type 0 where
  pub rows : List Key
  pub good : P w.vars.page rows
  pub saved :
      w'.work.saved ≡ record w.work.seen { tasks = written reset_existing rows w.work.seen.tasks }
  pub synced : w'.work.seen ≡ w'.work.saved
  pub page : w'.vars.page ≡ w.vars.page + 1
  pub pages : w'.vars.summary.pages ≡ w.vars.summary.pages + 1

-- A part that leaves the session alone.
pub record Aside (w w' : State) : Type 0 where
  pub work : w'.work ≡ w.work
  pub page : w'.vars.page ≡ w.vars.page
  pub pages : w'.vars.summary.pages ≡ w.vars.summary.pages

pub Aside-trans : {w w₁ w₂ : State} → Aside w w₁ → Aside w₁ w₂ → Aside w w₂
Aside-trans a b = record {
  work = b.work ∙ a.work;
  page = b.page ∙ a.page;
  pages = b.pages ∙ a.pages;
}

pub Aside-Stuck : (w w' : State) → Aside w w' → Stuck w w'
Aside-Stuck w w' a = record {
  saved = ap (λ (x : Session Database). x.saved) a.work;
  page = a.page;
  pages = a.pages;
}

pub Stuck-after : {w w₁ w₂ : State} → Aside w w₁ → Stuck w₁ w₂ → Stuck w w₂
Stuck-after a s = record {
  saved = s.saved ∙ ap (λ (x : Session Database). x.saved) a.work;
  page = s.page ∙ a.page;
  pages = s.pages ∙ a.pages;
}

pub Advanced-after :
    {P : ℕ → List Key → Type 0} {b : Bool} {w w₁ w₂ : State}
    → Aside w w₁
    → Advanced P b w₁ w₂
    → Advanced P b w w₂
Advanced-after {P} {b} a s = record {
  rows = s.rows;
  good = subst (λ n. P n s.rows) a.page s.good;
  saved =
      s.saved
      ∙ ap (λ (x : Session Database). record x.seen { tasks = written b s.rows x.seen.tasks })
          a.work;
  synced = s.synced;
  page = s.page ∙ ap (λ (n : ℕ). n + 1) a.page;
  pages = s.pages ∙ ap (λ (n : ℕ). n + 1) a.pages;
}

pub after-Post :
    (P : ℕ → List Key → Type 0) (b : Bool) (w w₁ : State)
    → Aside w w₁
    → (end : Result Exc Bool × State) → Post (λ _ w'. Advanced P b w₁ w') (λ _ w'. Stuck w₁ w') end
    → Post (λ _ w'. Advanced P b w w') (λ _ w'. Stuck w w') end
after-Post P b w w₁ a (ok more, w') p = Advanced-after a p
after-Post P b w w₁ a (err e, w') p = Stuck-after a p

-- What the rows of several pages make of the tasks, page after page.
abbrev pub written_all : Bool → List (List Key) → List Task → List Task
written_all b [] ts = ts
written_all b (rows ∷ pages) ts = written_all b pages (written b rows ts)

abbrev pub IsSynced : State → Type 0
IsSynced w = w.work.seen ≡ w.work.saved

-- From `w` to `w'` the rows of some pages were saved, one page after the other, and `P` holds of
-- each page and its rows; the page and the number of pages have gone up by how many they are.
pub record HasSaved (P : ℕ → List Key → Type 0) (b : Bool) (w w' : State) : Type 0 where
  pub batches : List (List Key)
  pub good : AllFrom P w.vars.page batches
  pub saved :
      w'.work.saved ≡ record w.work.saved { tasks = written_all b batches w.work.saved.tasks }
  pub page : w'.vars.page ≡ w.vars.page + length batches
  pub pages : w'.vars.summary.pages ≡ w.vars.summary.pages + length batches

pub HasSaved-none : {P : ℕ → List Key → Type 0} {b : Bool} (w : State) → HasSaved P b w w
HasSaved-none w = record {
  batches = [];
  good = tt;
  saved = refl;
  page = omega arith;
  pages = omega arith;
}

pub Stuck-HasSaved :
    (P : ℕ → List Key → Type 0) (b : Bool) (w w' : State) → Stuck w w' → HasSaved P b w w'
Stuck-HasSaved P b w w' s = record {
  batches = [];
  good = tt;
  saved = s.saved;
  page = omega (arith, s.page);
  pages = omega (arith, s.pages);
}

pub HasSaved-more :
    {P : ℕ → List Key → Type 0} {b : Bool} {w w₁ w' : State}
    → IsSynced w
    → Advanced P b w w₁
    → HasSaved P b w₁ w'
    → HasSaved P b w w'
HasSaved-more {P} {b} {w} {w₁} {w'} s a h = record {
  batches = a.rows ∷ h.batches;
  good = (a.good, subst (λ n. AllFrom P n h.batches) a.page h.good);
  saved =
      h.saved
      ∙ ap (λ (db : Database). record db { tasks = written_all b h.batches db.tasks })
          (a.saved ∙ ap (λ (db : Database). record db { tasks = written b a.rows db.tasks }) s);
  page = omega (arith, a.page, h.page);
  pages = omega (arith, a.pages, h.pages);
}
