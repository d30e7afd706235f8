-- ===== src/Tests/Accounts.antt =====
-- The accounts at concrete inputs.
use anime_app_backend.Prelude.{ℕ, ◌≡◌, refl, ◌⊎◌, Bool, true, false, some, [], ◌∷◌, arith}
use anime_app_backend.Exec.Post.{Post}
use anime_app_backend.Security.State.{
  too_many_requests, redis_error, User, Database, State, get_user_by_id, in_request, password_reset,
  email_verification, command,
}
use anime_app_backend.Users.Keys.{read, remove, get, setex, set_nx, enqueue}
use anime_app_backend.Users.Mailing.{
  reset, by_token, request_mail, request_acquired, replace_token, drop_previous, drop_token,
  send_token,
}
use anime_app_backend.Users.Mailing.Cooldown.{request_mail-Once}
use anime_app_backend.Users.Service.{reset_password_service_via_email, verify_user_email_service}
use anime_app_backend.Users.Service.Passwords.{HasChanged}
use anime_app_backend.Users.Service.Used.{IsSpent, reset_password-Once, verify_user_email-Once}
use anime_app_backend.Users.Accounts.{
  delete_multiple_users_by_ids_service, update_user_password_service,
}
use anime_app_backend.Users.Accounts.Bulk.{count, answered, delete_multiple-Answers}
use anime_app_backend.Users.Accounts.Erased.{Erases, SomeErased, delete_multiple-Erases}
use anime_app_backend.Users.Accounts.Password.{
  IsChanged, update_user_password-Changes, reset_password-Changes,
}
use anime_app_backend.Tests.Sessions.{plain, row}

abbrev user : ℕ → Bool → User
user id is_admin = record {
  id = id;
  email = "a@b.c";
  username = "a";
  password = "secret";
  is_admin = is_admin;
  is_verified = true;
  created_at = 0;
}

abbrev accounts : Database
accounts = record { users = user 1 false ∷ user 2 true ∷ []; tokens = row false ∷ [] }

-- A user, an admin, a session of the user, and a token of each kind for the user.
abbrev world : State
world = record {
  saved = accounts;
  seen = accounts;
  redis = record {
    revoked = [];
    tracked = [];
    entries =
        record { name = password_reset 50; content = 1; expires = 90_000_000 }
        ∷ record { name = email_verification 51; content = 1; expires = 90_000_000 }
        ∷ [];
  };
  mails = [];
  step = 0;
}

delete_multiple-Answers_example :
    Post
      (λ r _. (k : ℕ) → answered k r ≡ count k (1 ∷ 2 ∷ 3 ∷ []))
      (λ _ _. Unit {0})
      (delete_multiple_users_by_ids_service plain (1 ∷ 2 ∷ 3 ∷ []) 9 world)
delete_multiple-Answers_example = delete_multiple-Answers plain (1 ∷ 2 ∷ 3 ∷ []) 9 world

delete_multiple-Erases_example :
    Post
      (λ r w'. Erases r.deleted accounts w'.saved)
      (λ _ w'. SomeErased accounts w'.saved)
      (delete_multiple_users_by_ids_service plain (1 ∷ 2 ∷ 3 ∷ []) 9 world)
delete_multiple-Erases_example = delete_multiple-Erases plain (1 ∷ 2 ∷ 3 ∷ []) 9 world refl

update_user_password-Changes_example :
    Post
      (λ _ w'.
        (u : User) × (get_user_by_id 1 accounts.users ≡ some u)
        × (plain.check_password "secret" u.password ≡ true)
        × HasChanged plain u "new" w'.saved)
      (λ _ w'. w'.saved ≡ accounts)
      (in_request plain (update_user_password_service plain 1 "new" "secret") world)
update_user_password-Changes_example = update_user_password-Changes plain 1 "new" "secret" world

reset_password-Changes_example :
    Post
      (λ _ w'.
        (id : ℕ) × (read 5_000_000 (by_token reset 50) world.redis.entries ≡ some id)
        × IsChanged plain id "new" accounts w'.saved)
      (λ _ w'. w'.saved ≡ accounts)
      (in_request plain (reset_password_service_via_email plain 50 "new") world)
reset_password-Changes_example = reset_password-Changes plain 50 "new" world

reset_password-Once_example :
    Post
      (λ _ w'.
        Post
          (λ _ _. ⊥)
          (λ e w''. IsSpent plain w' e w'')
          (reset_password_service_via_email plain 50 "other" w'))
      (λ _ _. Unit {0})
      (reset_password_service_via_email plain 50 "new" world)
reset_password-Once_example = reset_password-Once plain 50 "new" "other" world

verify_user_email-Once_example :
    Post
      (λ _ w'.
        Post (λ _ _. ⊥) (λ e w''. IsSpent plain w' e w'') (verify_user_email_service plain 51 w'))
      (λ _ _. Unit {0})
      (verify_user_email_service plain 51 world)
verify_user_email-Once_example = verify_user_email-Once plain 51 world

abbrev asked : State
asked = (request_mail plain reset (user 1 false) world).1

request_mail-Once_example :
    Post
      (λ _ _. ⊥)
      (λ e w''. ((e ≡ too_many_requests) ⊎ (e ≡ redis_error)) × (w''.mails ≡ asked.mails))
      (request_mail plain reset (user 1 false) asked)
request_mail-Once_example =
    request_mail-Once plain reset (user 1 false) world asked
      (unfold request_mail request_acquired set_nx command read replace_token drop_previous
          drop_token get send_token setex enqueue remove in
        refl)
      (unfold request_mail request_acquired set_nx command read replace_token drop_previous
          drop_token get send_token setex enqueue remove in
        (ground arith))
