-- ===== src/Users/Accounts/Bulk.antt =====
-- About the bulk delete: what becomes of each id, and of the rows.
use anime_app_backend.Prelude.{
  ℕ, ◌+◌, ◌≡◌, refl, ap, Bool, true, false, Option, none, some, List, [], ◌∷◌, ◌++◌, ◌==◌, arith,
  if◌then◌else◌,
}
use anime_app_backend.Prelude.Lists.{any_of}
use anime_app_backend.Exec.{Result, ok, err}
use anime_app_backend.Exec.Post.{any-Post, Post, Post-mono, continue-Post}
use anime_app_backend.Security.State.{
  Exc, redis_error, forbidden, User, Outside, State, Job, commit,
}
use anime_app_backend.Security.State.Steps.{commit-Committed}
use anime_app_backend.Security.Service.{find_user_by_id}
use anime_app_backend.Users.Service.{delete_user_and_sessions}
use anime_app_backend.Users.Accounts.{
  BulkDeleteResult, add_id, bulk_deleted, bulk_step, bulk_loop,
  delete_multiple_users_by_ids_service,
}

abbrev pub count : ℕ → List ℕ → ℕ
count k [] = 0
count k (x ∷ xs) = (if x == k then 1 else 0) + count k xs

-- How often an id stands in one of the lists of the answer.
abbrev pub answered : ℕ → BulkDeleteResult → ℕ
answered k r =
    count k r.deleted + count k r.not_found_ids + count k r.skipped_admins + count k r.not_processed

count-append : (k : ℕ) (xs ys : List ℕ) → count k (xs ++ ys) ≡ count k xs + count k ys
count-append k [] ys = omega arith
count-append k (x ∷ xs) ys = omega (arith, count-append k xs ys)

abbrev Answers : List ℕ → BulkDeleteResult → BulkDeleteResult → Type 0
Answers ids r r' = (k : ℕ) → answered k r' ≡ answered k r + count k ids

module _ {T : Type 0} (out : Outside T) where
  bulk_deleted-Answers :
      (id : ℕ) (ids : List ℕ) (r : BulkDeleteResult)
      (rest : BulkDeleteResult → Job BulkDeleteResult)
      → r.not_processed ≡ []
      → ((r : BulkDeleteResult) (w : State)
          → r.not_processed ≡ []
          → Post (λ r' _. Answers ids r r') (λ _ _. Unit {0}) (rest r w))
      → (end : Result Exc (Unit {0}) × State)
      → Post
          (λ r' _. Answers (id ∷ ids) r r')
          (λ _ _. Unit {0})
          (bulk_deleted out id ids r rest end)
  unfolding bulk_deleted
  bulk_deleted-Answers id ids r rest empty h (ok u, w) =
      continue-Post (λ _ _. Unit {0}) _ _ (commit out w) _
        (Post-mono _ _ _ _ (commit out w) (commit-Committed out w) (λ _ _ _. tt) (λ _ _ _. tt))
        (λ _ w₁ _.
          Post-mono _ _ _ _ (rest (record r { deleted = add_id id r.deleted }) w₁)
            (h (record r { deleted = add_id id r.deleted }) w₁ empty)
            (λ r' _ a k. omega (arith, a k, count-append k r.deleted (id ∷ []))) (λ _ _ _. tt))
  bulk_deleted-Answers id ids r rest empty h (err redis_error, w) =
      λ k. omega (arith, ap (λ (xs : List ℕ). count k xs) empty)
  bulk_deleted-Answers id ids r rest empty h (err e, w) = tt

  bulk_step-Answers :
      (id : ℕ) (ids : List ℕ) (r : BulkDeleteResult)
      (rest : BulkDeleteResult → Job BulkDeleteResult)
      → r.not_processed ≡ []
      → ((r : BulkDeleteResult) (w : State)
          → r.not_processed ≡ []
          → Post (λ r' _. Answers ids r r') (λ _ _. Unit {0}) (rest r w))
      → (user : Option User) (w : State)
      → Post
          (λ r' _. Answers (id ∷ ids) r r')
          (λ _ _. Unit {0})
          (bulk_step out id ids r rest user w)
  unfolding bulk_step
  bulk_step-Answers id ids r rest empty h none w =
      Post-mono _ _ _ _ (rest (record r { not_found_ids = add_id id r.not_found_ids }) w)
        (h (record r { not_found_ids = add_id id r.not_found_ids }) w empty)
        (λ r' _ a k. omega (arith, a k, count-append k r.not_found_ids (id ∷ []))) (λ _ _ _. tt)
  bulk_step-Answers id ids r rest empty h (some user) w = by_role user.is_admin
    where
      by_role :
          (b : Bool)
          → Post
              (λ r' _. Answers (id ∷ ids) r r')
              (λ _ _. Unit {0})
              (if b
                then rest (record r { skipped_admins = add_id id r.skipped_admins }) w
                else bulk_deleted out id ids r rest (delete_user_and_sessions out user w))
      by_role true =
          Post-mono _ _ _ _ (rest (record r { skipped_admins = add_id id r.skipped_admins }) w)
            (h (record r { skipped_admins = add_id id r.skipped_admins }) w empty)
            (λ r' _ a k. omega (arith, a k, count-append k r.skipped_admins (id ∷ [])))
            (λ _ _ _. tt)
      by_role false =
          bulk_deleted-Answers id ids r rest empty h (delete_user_and_sessions out user w)

  bulk_loop-Answers :
      (ids : List ℕ) (r : BulkDeleteResult) (w : State)
      → r.not_processed ≡ []
      → Post (λ r' _. Answers ids r r') (λ _ _. Unit {0}) (bulk_loop out ids r w)
  unfolding bulk_loop
  bulk_loop-Answers [] r w empty = λ k. omega arith
  bulk_loop-Answers (id ∷ ids) r w empty =
      continue-Post (λ _ _. Unit {0}) _ _ (find_user_by_id out id w) _
        (any-Post (find_user_by_id out id w))
        (λ user w₁ _.
          bulk_step-Answers id ids r (bulk_loop out ids) empty (λ r w. bulk_loop-Answers ids r w)
            user w₁)

  -- An answer of the bulk delete names every requested id as often as it was requested, in its four
  -- lists together.
  pub delete_multiple-Answers :
      (user_ids : List ℕ) (admin_id : ℕ) (w : State)
      → Post
          (λ r _. (k : ℕ) → answered k r ≡ count k user_ids)
          (λ _ _. Unit {0})
          (delete_multiple_users_by_ids_service out user_ids admin_id w)
  unfolding delete_multiple_users_by_ids_service
  delete_multiple-Answers user_ids admin_id w = by_test (any_of (λ id. id == admin_id) user_ids)
    where
      none_yet : BulkDeleteResult
      none_yet = record {
        deleted = [];
        not_found_ids = [];
        skipped_admins = [];
        not_processed = [];
      }

      by_test :
          (b : Bool)
          → Post
              (λ r _. (k : ℕ) → answered k r ≡ count k user_ids)
              (λ _ _. Unit {0})
              (if b then (err forbidden, w) else bulk_loop out user_ids none_yet w)
      by_test true = tt
      by_test false =
          Post-mono _ _ _ _ (bulk_loop out user_ids none_yet w)
            (bulk_loop-Answers user_ids none_yet w refl) (λ r _ a k. omega (arith, a k))
            (λ _ _ _. tt)
