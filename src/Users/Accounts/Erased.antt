-- ===== src/Users/Accounts/Erased.antt =====
-- About the rows that a bulk delete takes away.
use anime_app_backend.Prelude.{
  ℕ, ◌≡◌, refl, sym, ◌∙◌, ap, subst, Bool, true, false, Option, none, some, List, [], ◌∷◌, ◌++◌,
  ◌==◌, if◌then◌else◌,
}
use anime_app_backend.Prelude.Lists.{any_of, All}
use anime_app_backend.Exec.{Result, ok, err}
use anime_app_backend.Exec.Post.{Post, Post-mono, continue-Post}
use anime_app_backend.Security.State.{
  Exc, redis_error, forbidden, User, Database, Outside, State, Job, commit, get_user_by_id,
}
use anime_app_backend.Security.State.Steps.{commit-Committed}
use anime_app_backend.Security.Tokens.Frame.{SameRows}
use anime_app_backend.Security.Service.{find_user_by_id}
use anime_app_backend.Users.Service.{delete_user_and_sessions}
use anime_app_backend.Users.Service.Erase.{
  erase, erase_all, IsOrdinary, get_user_by_id-id, erase-All, find_user_by_id-Queried,
  delete_user_and_sessions-Post,
}
use anime_app_backend.Users.Accounts.{
  BulkDeleteResult, add_id, bulk_deleted, bulk_step, bulk_loop,
  delete_multiple_users_by_ids_service,
}

append_assoc : (xs ys zs : List ℕ) → (xs ++ ys) ++ zs ≡ xs ++ (ys ++ zs)
append_assoc [] ys zs = refl
append_assoc (x ∷ xs) ys zs = ap (λ (l : List ℕ). x ∷ l) (append_assoc xs ys zs)

append_nil : (xs : List ℕ) → xs ++ [] ≡ xs
append_nil [] = refl
append_nil (x ∷ xs) = ap (λ (l : List ℕ). x ∷ l) (append_nil xs)

-- From `db` to `db'` the rows of some users went, none of them an admin's.
pub record Erases (ids : List ℕ) (db db' : Database) : Type 0 where
  pub rows : db' ≡ erase_all ids db
  pub ordinary : All (IsOrdinary db) ids

-- The answer names those whose rows went, besides what it named before.
abbrev Names : BulkDeleteResult → Database → BulkDeleteResult → Database → Type 0
Names r db r' db' = (ids : List ℕ) × (r'.deleted ≡ r.deleted ++ ids) × Erases ids db db'

abbrev pub SomeErased : Database → Database → Type 0
SomeErased db db' = (ids : List ℕ) × Erases ids db db'

none_erased : {db db' : Database} → db' ≡ db → Erases [] db db'
none_erased e = record { rows = e; ordinary = tt }

more_erased :
    (id : ℕ) (ids : List ℕ) {db db₁ db' : Database}
    → db₁ ≡ erase id db
    → IsOrdinary db id
    → Erases ids db₁ db'
    → Erases (id ∷ ids) db db'
more_erased id ids {db} {db₁} {db'} e plain h = record {
  rows = h.rows ∙ ap (λ (x : Database). erase_all ids x) e;
  ordinary =
      (plain, erase-All db id ids (subst (λ (x : Database). All (IsOrdinary x) ids) e h.ordinary));
}

module _ {T : Type 0} (out : Outside T) where
  -- What the loop does from `r` and `w` on.
  abbrev Loops : BulkDeleteResult → State → Result Exc BulkDeleteResult × State → Type 0
  Loops r w = Post (λ r' w'. Names r w.saved r' w'.saved) (λ _ w'. SomeErased w.saved w'.saved)

  abbrev LoopsFrom : (BulkDeleteResult → Job BulkDeleteResult) → Type 0
  LoopsFrom rest = (r : BulkDeleteResult) (w : State) → w.seen ≡ w.saved → Loops r w (rest r w)

  same_names :
      (r r₁ : BulkDeleteResult) (w w₁ : State) (end : Result Exc BulkDeleteResult × State)
      → r₁.deleted ≡ r.deleted
      → w₁.saved ≡ w.saved
      → Loops r₁ w₁ end
      → Loops r w end
  same_names r r₁ w w₁ end named same h =
      Post-mono _ _ _ _ end h
        (λ r' w' n. (
          n.0,
          n.1 ∙ ap (λ (l : List ℕ). l ++ n.0) named,
          subst (λ (db : Database). Erases n.0 db w'.saved) same n.2,
        ))
        (λ _ w' n. (n.0, subst (λ (db : Database). Erases n.0 db w'.saved) same n.1))

  bulk_deleted-Loops :
      (id : ℕ) (ids : List ℕ) (r : BulkDeleteResult)
      (rest : BulkDeleteResult → Job BulkDeleteResult) (w : State)
      → LoopsFrom rest
      → IsOrdinary w.saved id
      → (end : Result Exc (Unit {0}) × State)
      → Post
          (λ _ w'. (w'.seen ≡ erase id w.saved) × (w'.saved ≡ w.saved))
          (λ _ w'. w'.saved ≡ w.saved)
          end
      → Loops r w (bulk_deleted out id ids r rest end)
  unfolding bulk_deleted
  bulk_deleted-Loops id ids r rest w h plain (ok u, w₁) p =
      continue-Post (λ _ w₂. (w₂.saved ≡ erase id w.saved) × (w₂.seen ≡ w₂.saved)) _
        (λ _ w'. SomeErased w.saved w'.saved) (commit out w₁) _
        (Post-mono _ _ _ _ (commit out w₁) (commit-Committed out w₁)
          (λ _ w₂ c. (c.saved ∙ p.0, c.seen ∙ sym c.saved))
          (λ _ w₂ c. ([], none_erased (c.1.saved ∙ p.1))))
        (λ _ w₂ q.
          let r₁ : BulkDeleteResult = record r { deleted = add_id id r.deleted } in
          Post-mono _ _ _ _ (rest r₁ w₂) (h r₁ w₂ q.1)
            (λ r' w' n. (
              id ∷ n.0,
              n.1 ∙ append_assoc r.deleted (id ∷ []) n.0,
              more_erased id n.0 q.0 plain n.2,
            ))
            (λ _ w' n. (id ∷ n.0, more_erased id n.0 q.0 plain n.1)))
  bulk_deleted-Loops id ids r rest w h plain (err redis_error, w₁) p =
      ([], sym (append_nil r.deleted), none_erased p)
  bulk_deleted-Loops id ids r rest w h plain (err e, w₁) p = ([], none_erased p)

  bulk_step-Loops :
      (id : ℕ) (ids : List ℕ) (r : BulkDeleteResult)
      (rest : BulkDeleteResult → Job BulkDeleteResult) (user : Option User) (w : State)
      → LoopsFrom rest
      → w.seen ≡ w.saved
      → user ≡ get_user_by_id id w.saved.users
      → Loops r w (bulk_step out id ids r rest user w)
  unfolding bulk_step
  bulk_step-Loops id ids r rest none w h synced found =
      let r₁ : BulkDeleteResult = record r { not_found_ids = add_id id r.not_found_ids } in
      same_names r r₁ w w (rest r₁ w) refl refl (h r₁ w synced)
  bulk_step-Loops id ids r rest (some user) w h synced found = by_role user.is_admin refl
    where
      by_role :
          (b : Bool)
          → user.is_admin ≡ b
          → Loops r w (
              if b
              then rest (record r { skipped_admins = add_id id r.skipped_admins }) w
              else bulk_deleted out id ids r rest (delete_user_and_sessions out user w))
      by_role true e =
          let r₁ : BulkDeleteResult = record r { skipped_admins = add_id id r.skipped_admins } in
          same_names r r₁ w w (rest r₁ w) refl refl (h r₁ w synced)
      by_role false e =
          let known : user.id ≡ id = get_user_by_id-id id w.saved.users (sym found) in
          bulk_deleted-Loops id ids r rest w h (user, sym found, e)
            (delete_user_and_sessions out user w)
            (Post-mono _ _ _ _ (delete_user_and_sessions out user w)
              (delete_user_and_sessions-Post out user w)
              (λ _ w' p. (
                p.0
                    ∙ ap (λ (db : Database). erase user.id db) synced
                    ∙ ap (λ (k : ℕ). erase k w.saved) known,
                p.1,
              ))
              (λ _ w' p. p))

  bulk_loop-Loops : (ids : List ℕ) → LoopsFrom (bulk_loop out ids)
  unfolding bulk_loop
  bulk_loop-Loops [] r w synced = ([], sym (append_nil r.deleted), none_erased refl)
  bulk_loop-Loops (id ∷ ids) r w synced =
      continue-Post (λ user w₁. (user ≡ get_user_by_id id w.seen.users) × SameRows w w₁) _
        (λ _ w'. SomeErased w.saved w'.saved) (find_user_by_id out id w) _
        (Post-mono _ _ _ _ (find_user_by_id out id w) (find_user_by_id-Queried out id w)
          (λ _ _ q. q) (λ _ w' s. ([], none_erased s.saved)))
        (λ user w₁ q.
          let synced₁ = q.1.seen ∙ synced ∙ sym q.1.saved in
          let step = bulk_step out id ids r (bulk_loop out ids) user w₁ in
          same_names r r w w₁ step refl q.1.saved (
            bulk_step-Loops id ids r (bulk_loop out ids) user w₁ (bulk_loop-Loops ids) synced₁
              (q.0 ∙ ap (λ (db : Database). get_user_by_id id db.users) (synced ∙ sym q.1.saved))))

  -- A bulk delete that starts with nothing unsaved: if it answers, what is saved is what was saved
  -- without the rows of the users and the refresh tokens of exactly those that it names as
  -- deleted, none of whom was an admin. If it raises, what is saved lacks the rows of some users
  -- who are no admins, and nothing else.
  pub delete_multiple-Erases :
      (user_ids : List ℕ) (admin_id : ℕ) (w : State)
      → w.seen ≡ w.saved
      → Post
          (λ r w'. Erases r.deleted w.saved w'.saved)
          (λ _ w'. SomeErased w.saved w'.saved)
          (delete_multiple_users_by_ids_service out user_ids admin_id w)
  unfolding delete_multiple_users_by_ids_service
  delete_multiple-Erases user_ids admin_id w synced =
      by_test (any_of (λ id. id == admin_id) user_ids)
    where
      none_yet : BulkDeleteResult
      none_yet = record {
        deleted = [];
        not_found_ids = [];
        skipped_admins = [];
        not_processed = [];
      }

      by_test :
          (b : Bool)
          → Post
              (λ r w'. Erases r.deleted w.saved w'.saved)
              (λ _ w'. SomeErased w.saved w'.saved)
              (if b then (err forbidden, w) else bulk_loop out user_ids none_yet w)
      by_test true = ([], none_erased refl)
      by_test false =
          Post-mono _ _ _ _ (bulk_loop out user_ids none_yet w)
            (bulk_loop-Loops user_ids none_yet w synced)
            (λ r w' n. subst (λ (l : List ℕ). Erases l w.saved w'.saved) (sym n.1) n.2)
            (λ _ w' n. n)
