-- ===== src/Ingestion/Discovery/Saved.antt =====
-- What the loop of a discovery run has saved when it ends, and when it is cut short.
use anime_app_backend.Prelude.{
  ℕ, zero, suc, ◌+◌, ◌≡◌, refl, sym, ◌∙◌, Bool, true, false, ◌&&◌, if◌then◌else◌, Option, none,
  some, String, List, [], ◌∷◌, arith, ap, subst,
}
use anime_app_backend.Exec.{Result, ok, err, continue}
use anime_app_backend.Exec.Post.{Post, Post-mono, continue-Post}
use anime_app_backend.Json.{Json}
use anime_app_backend.Ingestion.Errors.{Exc, database_error}
use anime_app_backend.Ingestion.Enums.{Resource, Key}
use anime_app_backend.Ingestion.Runtime.{Outside}
use anime_app_backend.Ingestion.Adapter.{Adapter, list_anime}
use anime_app_backend.Ingestion.Adapter.Calls.{list_anime-Answered}
use anime_app_backend.Ingestion.Tasks.{is_refused, insert_tasks, insert_or_reset_tasks}
use anime_app_backend.Ingestion.World.{Database, Session, tick, query, commit, on_adapter}
use anime_app_backend.Ingestion.Fetch.{has_next_page}
use anime_app_backend.Ingestion.Listing.{scan, entries, Tally}
use anime_app_backend.Ingestion.Listing.Rows.{
  IsTallied, scan-IsTallied, listed-distinct, distinct-Distinct,
}
use anime_app_backend.Ingestion.Discovery.{
  Summary, State, Job, Vars, set_summary, count_rows, write_rows, scanned, read_entries, list_types,
  read_page, send_rows, save_rows, save_page, one_page, turn, page_loop,
}
use anime_app_backend.Ingestion.Discovery.Progress.{
  written, Stuck, Advanced, Aside, Aside-trans, Aside-Stuck, after-Post, IsSynced, HasSaved,
  HasSaved-none, FromPage, IsPageOf, Stuck-HasSaved, HasSaved-more,
}

abbrev Read : List Resource → Option (List Json) → State → Bool × List Key → State → Type 0
Read rs found w r w' = Aside w w' × FromPage rs found r.1

scanned-Post :
    (rs : List Resource) (animes : List Json) (t : Tally) (max_pages : Option ℕ) (more : Bool)
    (end : Result Exc (List Key) × Tally) (w : State)
    → Post (IsTallied rs animes t) (λ _ _. Unit {0}) end
    → Post (Read rs (some animes) w) (λ _ w'. Aside w w') (scanned max_pages more end w)
scanned-Post rs animes t max_pages more (ok rows, tally) w p = (
  record { work = refl; page = refl; pages = refl },
  record {
    animes = animes;
    read = refl;
    ids = p.ids;
    picked = p.picked;
    rows_of_ids = λ key. listed-distinct key rows ∙ p.rows_of_ids key;
    once = distinct-Distinct rows;
  },
)
scanned-Post rs animes t max_pages more (err e, tally) w p = record {
  work = refl;
  page = refl;
  pages = refl;
}

read_entries-Post :
    (rs : List Resource) (max_pages : Option ℕ) (h : Option Bool) (animes : Option (List Json))
    (w : State)
    → Post (Read rs animes w) (λ _ w'. Aside w w') (read_entries rs max_pages h animes w)
read_entries-Post rs max_pages none animes w = record { work = refl; page = refl; pages = refl }
read_entries-Post rs max_pages (some more) none w = record {
  work = refl;
  page = refl;
  pages = refl;
}
read_entries-Post rs max_pages (some more) (some animes) w =
    scanned-Post rs animes w.vars.summary.tally max_pages more (scan rs animes w.vars.summary.tally)
      w (scan-IsTallied rs animes w.vars.summary.tally)

pages-count_rows :
    (b : Bool) (rows : List Key) (counts : ℕ × ℕ) (s : Summary)
    → (count_rows b rows counts s).pages ≡ s.pages
pages-count_rows true rows (i, a) s = refl
pages-count_rows false rows (i, a) s = refl

pub record Wrote (reset_existing : Bool) (rows : List Key) (w w' : State) : Type 0 where
  pub saved : w'.work.saved ≡ w.work.saved
  pub seen :
      w'.work.seen ≡ record w.work.seen { tasks = written reset_existing rows w.work.seen.tasks }
  pub vars : w'.vars ≡ w.vars

write_rows-Database :
    (b : Bool) (rows : List Key) (db : Database)
    → (write_rows b rows db).1 ≡ record db { tasks = written b rows db.tasks }
write_rows-Database true rows db = refl
write_rows-Database false rows db = refl

module _ (out : Outside) where
  pub query-Post :
      {A : Type 0} (f : Database → A × Database) (w : State)
      → Post
          (λ _ w'. (w'.work ≡ record w.work { seen = (f w.work.seen).1 }) × (w'.vars ≡ w.vars))
          (λ _ w'. (w'.work ≡ w.work) × (w'.vars ≡ w.vars))
          (query out f w)
  unfolding query
  query-Post f w = ground arith

  -- The same for a statement that Postgres may refuse.
  pub send_rows-Post :
      (b : Bool) (rows : List Key) (w : State)
      → Post
          (λ _ w'.
            (w'.work ≡ record w.work { seen = (write_rows b rows w.work.seen).1 })
            × (w'.vars ≡ w.vars))
          (λ _ w'. (w'.work ≡ w.work) × (w'.vars ≡ w.vars))
          (send_rows out b rows w)
  unfolding send_rows
  send_rows-Post b rows w = by_repeat (b && is_refused rows w.work.seen.tasks)
    where
      by_repeat :
          (c : Bool)
          → Post
              (λ _ w'.
                (w'.work ≡ record w.work { seen = (write_rows b rows w.work.seen).1 })
                × (w'.vars ≡ w.vars))
              (λ _ w'. (w'.work ≡ w.work) × (w'.vars ≡ w.vars))
              (if c then (err database_error, tick out w) else query out (write_rows b rows) w)
      by_repeat true = (refl, refl)
      by_repeat false = query-Post (write_rows b rows) w

  pub commit-Post :
      (w : State)
      → Post
          (λ _ w'. (w'.work ≡ record w.work { saved = w.work.seen }) × (w'.vars ≡ w.vars))
          (λ _ w'. (w'.work ≡ w.work) × (w'.vars ≡ w.vars))
          (commit out w)
  unfolding commit
  commit-Post w = ground arith

  save_rows-Post :
      (b : Bool) (rows : List Key) (w : State)
      → Post (λ _ w'. Wrote b rows w w') (λ _ w'. Stuck w w') (save_rows out b rows w)
  unfolding save_rows insert_tasks insert_or_reset_tasks
  save_rows-Post true [] w = record { saved = refl; seen = refl; vars = refl }
  save_rows-Post false [] w = record { saved = refl; seen = refl; vars = refl }
  save_rows-Post b (k ∷ rows) w =
      Post-mono _ _ _ _ (send_rows out b (k ∷ rows) w) (send_rows-Post b (k ∷ rows) w)
        (λ _ w' q. record {
          saved = ap (λ (x : Session Database). x.saved) q.0;
          seen =
              ap (λ (x : Session Database). x.seen) q.0
              ∙ write_rows-Database b (k ∷ rows) w.work.seen;
          vars = q.1;
        })
        (λ _ w' q. record {
          saved = ap (λ (x : Session Database). x.saved) q.0;
          page = ap (λ (v : Vars). v.page) q.1;
          pages = ap (λ (v : Vars). v.summary.pages) q.1;
        })

  -- After the statement: the commit, and the page counted.
  save_page-Post :
      (P : ℕ → List Key → Type 0) (b more : Bool) (rows : List Key) (w : State)
      → P w.vars.page rows
      → Post (λ _ w'. Advanced P b w w') (λ _ w'. Stuck w w') (save_page out b (more, rows) w)
  unfolding save_page
  save_page-Post P b more rows w d =
      continue-Post (λ _ w'. Wrote b rows w w') _ _ (save_rows out b rows w) _
        (save_rows-Post b rows w)
        (λ counts w₁ q.
          let w₂ : State = set_summary (count_rows b rows counts) w₁ in
          let same : w₂.vars.summary.pages ≡ w.vars.summary.pages =
            pages-count_rows b rows counts w₁.vars.summary
            ∙ ap (λ (v : Vars). v.summary.pages) q.vars in
          continue-Post
            (λ _ w'. (w'.work ≡ record w₂.work { saved = w₂.work.seen }) × (w'.vars ≡ w₂.vars)) _ _
            (commit out w₂) _
            (Post-mono _ _ _ (λ _ w'. Stuck w w') (commit out w₂) (commit-Post w₂) (λ _ _ x. x)
              (λ _ w' x. record {
                saved = ap (λ (x : Session Database). x.saved) x.0 ∙ q.saved;
                page = ap (λ (v : Vars). v.page) x.1 ∙ ap (λ (v : Vars). v.page) q.vars;
                pages = ap (λ (v : Vars). v.summary.pages) x.1 ∙ same;
              }))
            (λ _ w₃ x. record {
              rows = rows;
              good = d;
              saved = ap (λ (x : Session Database). x.saved) x.0 ∙ q.seen;
              synced =
                  ap (λ (x : Session Database). x.seen) x.0
                  ∙ sym (ap (λ (x : Session Database). x.saved) x.0);
              page =
                  ap (λ (n : ℕ). n + 1)
                    (ap (λ (v : Vars). v.page) x.1 ∙ ap (λ (v : Vars). v.page) q.vars);
              pages = ap (λ (n : ℕ). n + 1) (ap (λ (v : Vars). v.summary.pages) x.1 ∙ same);
            }))

  on_adapter-Aside :
      {A : Type 0} (m : Adapter → Result Exc A × Adapter) (w : State)
      → Post
          (λ a w'. Aside w w' × ((m w.adapter).0 ≡ ok a))
          (λ _ w'. Aside w w')
          (on_adapter out m w)
  unfolding on_adapter
  on_adapter-Aside {A = A} m w = go (m w.adapter) refl
    where
      go :
          (end : Result Exc A × Adapter)
          → (m w.adapter).0 ≡ end.0
          → Post
              (λ a w'. Aside w w' × ((m w.adapter).0 ≡ ok a))
              (λ _ w'. Aside w w')
              (end.0, record w { adapter = end.1 })
      go (ok a, x) e = (record { work = refl; page = refl; pages = refl }, e)
      go (err e', x) e = record { work = refl; page = refl; pages = refl }

  module _ (filters : List (String × String)) (rs : List Resource) (b : Bool)
      (max_pages : Option ℕ) where
    abbrev P : ℕ → List Key → Type 0
    P = IsPageOf out filters rs

    read-Post :
        (w w₁ : State) (response : Json)
        → Aside w w₁
        → (list_anime out w.vars.page (("type", list_types) ∷ filters) w.adapter).0 ≡ ok response
        → Post
            (λ _ w'. Advanced P b w w')
            (λ _ w'. Stuck w w')
            (continue (read_page rs max_pages response w₁) (save_page out b))
    unfolding read_page
    read-Post w w₁ response x₁ got =
        let found = entries response in
        let end = read_entries rs max_pages (has_next_page response) found w₁ in
        continue-Post (Read rs found w₁) (λ _ w'. Advanced P b w w') (λ _ w'. Stuck w w') end _
          (Post-mono (Read rs found w₁) (Read rs found w₁) (λ _ w'. Aside w₁ w')
            (λ _ w'. Stuck w w') end
            (read_entries-Post rs max_pages (has_next_page response) found w₁) (λ _ _ x. x)
            (λ _ w' x. Aside-Stuck w w' (Aside-trans {w₁ = w₁} x₁ x)))
          (λ page w₂ x₂.
            let aside = Aside-trans {w₁ = w₁} x₁ x₂.0 in
            let from : IsPageOf out filters rs w.vars.page page.1 = record {
              response = response;
              answered =
                  list_anime-Answered out w.vars.page (("type", list_types) ∷ filters) w.adapter
                    got;
              from = x₂.1;
            } in
            after-Post P b w w₂ aside (save_page out b (page.0, page.1) w₂) (
              save_page-Post P b page.0 page.1 w₂
                (subst (λ n. IsPageOf out filters rs n page.1) (sym aside.page) from)))

    one_page-Post :
        (w : State)
        → Post
            (λ _ w'. Advanced P b w w')
            (λ _ w'. Stuck w w')
            (one_page out filters rs b max_pages w)
    unfolding one_page
    one_page-Post w =
        let request = list_anime out w.vars.page (("type", list_types) ∷ filters) in
        let got : Json → Type 0 = λ response. (request w.adapter).0 ≡ ok response in
        continue-Post (λ response w'. Aside w w' × got response) (λ _ w'. Advanced P b w w')
          (λ _ w'. Stuck w w') (on_adapter out request w) _
          (Post-mono (λ response w'. Aside w w' × got response)
            (λ response w'. Aside w w' × got response) (λ _ w'. Aside w w') (λ _ w'. Stuck w w')
            (on_adapter out request w) (on_adapter-Aside request w) (λ _ _ x. x)
            (λ _ w' x. Aside-Stuck w w' x))
          (λ response w₁ x₁. read-Post w w₁ response x₁.0 x₁.1)

    -- The invariant of the loop: what is saved is what the pages read so far make of the start.
    turn-Post :
        (w : State) (rest : Job Bool)
        → ((w₁ : State)
            → IsSynced w₁
            → Post (λ _ w'. HasSaved P b w₁ w') (λ _ w'. HasSaved P b w₁ w') (rest w₁))
        → (more : Bool) (w₁ : State) → IsSynced w
        → Advanced P b w w₁
        → Post (λ _ w'. HasSaved P b w w') (λ _ w'. HasSaved P b w w') (turn out rest more w₁)
    unfolding turn
    turn-Post w rest ih true w₁ s a =
        Post-mono (λ _ w'. HasSaved P b w₁ w') (λ _ w'. HasSaved P b w w')
          (λ _ w'. HasSaved P b w₁ w') (λ _ w'. HasSaved P b w w') (rest w₁) (ih w₁ a.synced)
          (λ _ w' h. HasSaved-more s a h) (λ _ w' h. HasSaved-more s a h)
    turn-Post w rest ih false w₁ s a = HasSaved-more s a (HasSaved-none w₁)

    pub page_loop-Post :
        (fuel : ℕ) (w : State)
        → IsSynced w
        → Post
            (λ _ w'. HasSaved P b w w')
            (λ _ w'. HasSaved P b w w')
            (page_loop out fuel filters rs b max_pages w)
    unfolding page_loop
    page_loop-Post zero w s = HasSaved-none w
    page_loop-Post (suc fuel) w s =
        continue-Post (λ _ w'. Advanced P b w w') _ _ (one_page out filters rs b max_pages w) _
          (Post-mono (λ _ w'. Advanced P b w w') (λ _ w'. Advanced P b w w') (λ _ w'. Stuck w w')
            (λ _ w'. HasSaved P b w w') (one_page out filters rs b max_pages w) (one_page-Post w)
            (λ _ _ x. x) (λ _ w' x. Stuck-HasSaved P b w w' x))
          (λ more w₁ a.
            turn-Post w (page_loop out fuel filters rs b max_pages) (page_loop-Post fuel) more w₁ s
              a)
