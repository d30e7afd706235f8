-- ===== src/Users/Accounts.antt =====
-- `UserService` (app/users/service.py): what a user or an admin does with an account.
pub mod Bulk
pub mod Erased
pub mod Password
use anime_app_backend.Prelude.{
  ℕ, zero, suc, ◌-◌, ◌*◌, ◌+◌, Bool, true, false, Option, none, some, String, List, [], ◌∷◌, ◌++◌,
  ◌==◌, str_eq, if◌then◌else◌,
}
use anime_app_backend.Prelude.Lists.{any_of}
use anime_app_backend.Exec.{
  Exec, Result, ok, err, pure, raise, recover, try_except, continue, ◌>>=◌, ◌>>◌,
}
use anime_app_backend.Security.State.{
  Exc, user_already_exists, not_found, forbidden, authentication, redis_error, User, Database,
  Outside, State, Job, query, commit,
}
use anime_app_backend.Security.Tokens.{revoke_access_to_all_tokens}
use anime_app_backend.Security.Service.{find_user_by_email, find_user_by_id}
use anime_app_backend.Users.Rows.{update_user, Filter, get_users, count_users}
use anime_app_backend.Users.Mailing.{verification, replace_token}
use anime_app_backend.Users.Service.{
  unless_conflict, delete_tokens_of, delete_user_and_sessions, change_password,
}

-- `BulkDeleteResult`
pub record BulkDeleteResult : Type 0 where
  pub deleted : List ℕ
  pub not_found_ids : List ℕ
  pub skipped_admins : List ℕ
  pub not_processed : List ℕ

-- `PaginatedUsersResponse`
pub record UsersPage : Type 0 where
  pub items : List User
  pub total : ℕ
  pub page_size : ℕ
  pub page : ℕ

-- `append`
abbrev pub add_id : ℕ → List ℕ → List ℕ
add_id id ids = ids ++ id ∷ []

module _ {T : Type 0} (out : Outside T) where
  -- From the new address on, when nobody had it.
  pub change_email : User → String → Job User
  change_email user email =
      let changed : User = record user { email = email; is_verified = false } in
      do
        result ← try_except (update_user out changed) unless_conflict
        delete_tokens_of out user.id
        commit out
        revoke_access_to_all_tokens out user.id
        replace_token out verification user.id email
        pure result

  pub if_free : User → String → Option User → Job User
  unfolding change_email
  if_free user email (some other) w = (err user_already_exists, w)
  if_free user email none w = change_email user email w

  -- The shared body of `update_email_service` and `update_user_email_by_id_service`.
  pub email_of : String → Option User → Job User
  unfolding if_free
  email_of email none w = (err not_found, w)
  email_of email (some user) w =
      if str_eq user.email email
      then (ok user, w)
      else (do existing ← find_user_by_email out email; if_free user email existing) w

  pub update_email_service : ℕ → String → Job User
  unfolding email_of
  update_email_service user_id email = do user ← find_user_by_id out user_id; email_of email user

  pub update_user_email_by_id_service : ℕ → String → Job User
  unfolding email_of
  update_user_email_by_id_service user_id email = do
    user ← find_user_by_id out user_id
    email_of email user

  pub update_fields : Option String → Option User → Job User
  update_fields username none w = (err not_found, w)
  update_fields none (some user) w = update_user out user w
  update_fields (some name) (some user) w = update_user out (record user { username = name }) w

  pub update_user_fields_service : Option String → ℕ → Job User
  unfolding update_fields
  update_user_fields_service username user_id = do
    user ← find_user_by_id out user_id
    update_fields username user

  -- No admin's account is deleted, neither by the admin nor by another one.
  pub delete_found : Option User → Job (Unit {0})
  delete_found none w = (err not_found, w)
  delete_found (some user) w =
      if user.is_admin then (err forbidden, w) else delete_user_and_sessions out user w

  pub delete_current_user_service : ℕ → Job (Unit {0})
  unfolding delete_found
  delete_current_user_service user_id = do user ← find_user_by_id out user_id; delete_found user

  pub delete_user_by_id_service : ℕ → ℕ → Job (Unit {0})
  unfolding delete_found
  delete_user_by_id_service user_id admin_id w =
      if admin_id == user_id
      then (err forbidden, w)
      else (do user ← find_user_by_id out user_id; delete_found user) w

  pub update_password : String → String → Option User → Job (Unit {0})
  update_password password old none w = (err not_found, w)
  update_password password old (some user) w =
      if out.check_password old user.password
      then change_password out (λ id w. (ok tt, w)) user password w
      else (err authentication, w)

  pub update_user_password_service : ℕ → String → String → Job (Unit {0})
  unfolding update_password
  update_user_password_service user_id password old = do
    user ← find_user_by_id out user_id
    update_password password old user

  pub found_user : Option User → Job User
  found_user none w = (err not_found, w)
  found_user (some user) w = (ok user, w)

  pub get_user_by_id_service : ℕ → Job User
  unfolding found_user
  get_user_by_id_service user_id = do user ← find_user_by_id out user_id; found_user user

  -- The pages count from 1. `order` and `ilike_prefix` are Postgres's.
  pub get_all_users_service :
      (String → String → Bool)
      → (Bool → List User → List User)
      → Filter
      → Bool
      → ℕ
      → ℕ
      → Job UsersPage
  get_all_users_service ilike_prefix order f by_username page page_size = do
    total ← query out (λ (db : Database). (count_users ilike_prefix f db.users, db))
    users ← query out (λ (db : Database). (
      get_users ilike_prefix order page_size ((page - 1) * page_size) f by_username db.users,
      db,
    ))
    pure (record { items = users; total = total; page_size = page_size; page = page })

  -- The body of the loop for a user that was looked up; `rest` goes on, `ids` are those from here on.
  pub bulk_deleted :
      ℕ
      → List ℕ
      → BulkDeleteResult
      → (BulkDeleteResult → Job BulkDeleteResult)
      → Result Exc (Unit {0}) × State
      → Result Exc BulkDeleteResult × State
  bulk_deleted id ids r rest (ok u, w) =
      (do commit out; rest (record r { deleted = add_id id r.deleted })) w
  bulk_deleted id ids r rest (err redis_error, w) = (ok (record r { not_processed = id ∷ ids }), w)
  bulk_deleted id ids r rest (err e, w) = (err e, w)

  pub bulk_step :
      ℕ
      → List ℕ
      → BulkDeleteResult
      → (BulkDeleteResult → Job BulkDeleteResult)
      → Option User
      → Job BulkDeleteResult
  unfolding bulk_deleted
  bulk_step id ids r rest none w = rest (record r { not_found_ids = add_id id r.not_found_ids }) w
  bulk_step id ids r rest (some user) w =
      if user.is_admin
      then rest (record r { skipped_admins = add_id id r.skipped_admins }) w
      else bulk_deleted id ids r rest (delete_user_and_sessions out user w)

  pub bulk_loop : List ℕ → BulkDeleteResult → Job BulkDeleteResult
  unfolding bulk_step
  bulk_loop [] r w = (ok r, w)
  bulk_loop (id ∷ ids) r w =
      (do user ← find_user_by_id out id; bulk_step id ids r (bulk_loop ids) user) w

  pub delete_multiple_users_by_ids_service : List ℕ → ℕ → Job BulkDeleteResult
  unfolding bulk_loop
  delete_multiple_users_by_ids_service user_ids admin_id w =
      if any_of (λ id. id == admin_id) user_ids
      then (err forbidden, w)
      else bulk_loop user_ids
          (record { deleted = []; not_found_ids = []; skipped_admins = []; not_processed = [] }) w
