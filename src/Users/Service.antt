-- ===== src/Users/Service.antt =====
-- `UserService` (app/users/service.py): signing up, verification of the address and reset of the
-- password. The answers' texts and the logging are left out.
pub mod Erase
pub mod Passwords
pub mod Used
use anime_app_backend.Prelude.{
  ℕ, Bool, true, false, Option, none, some, String, List, if◌then◌else◌,
}
use anime_app_backend.Exec.{
  Exec, Result, ok, err, pure, raise, recover, try_except, continue, ◌>>=◌, ◌>>◌,
}
use anime_app_backend.Security.State.{
  Exc, user_already_exists, not_found, created_but_unsent, redis_error, service_unavailable,
  integrity_error, User, Database, Outside, State, Job, query, commit,
  delete_all_refresh_tokens_for_user,
}
use anime_app_backend.Security.Tokens.{revoke_access_to_all_tokens}
use anime_app_backend.Security.Service.{find_user_by_email, find_user_by_id}
use anime_app_backend.Users.Rows.{create_user, update_user, delete_user}
use anime_app_backend.Users.Keys.{delete}
use anime_app_backend.Users.Mailing.{
  Purpose, verification, reset, by_user, send_token, request_mail, redeem,
}

-- `except IntegrityError: raise UserAlreadyExistsError`
abbrev pub unless_conflict : Exc → State → Result Exc User × State
unless_conflict integrity_error w = (err user_already_exists, w)
unless_conflict e w = (err e, w)

-- `except (RedisError, ServiceUnavailableError)` of a signup: the account exists by then.
abbrev pub unless_unsent : Exc → State → Result Exc (Unit {0}) × State
unless_unsent redis_error w = (err created_but_unsent, w)
unless_unsent service_unavailable w = (err created_but_unsent, w)
unless_unsent e w = (err e, w)

module _ {T : Type 0} (out : Outside T) where
  unfoldable pub delete_tokens_of : ℕ → Job (Unit {0})
  delete_tokens_of user_id = query out (λ (db : Database).
      (tt, record db { tokens = delete_all_refresh_tokens_for_user user_id db.tokens }))

  -- `_delete_user_and_sessions`
  unfoldable pub delete_user_and_sessions : User → Job (Unit {0})
  unfolding delete_tokens_of
  delete_user_and_sessions user = do
    revoke_access_to_all_tokens out user.id
    delete_tokens_of user.id
    delete_user out user

  pub sign_up : String → String → String → Option User → Job User
  sign_up email username password (some user) w = (err user_already_exists, w)
  sign_up email username password none w =
      let user : User = record {
        id = out.uuid4 w.step;
        email = email;
        username = username;
        password = out.hash_password w.step password;
        is_admin = false;
        is_verified = false;
        created_at = out.utc w.step;
      } in
      (do
        result ← try_except (create_user out user) unless_conflict
        commit out
        try_except (send_token out verification result.id result.email) unless_unsent
        pure result)
        w

  pub create_user_service : String → String → String → Job User
  unfolding sign_up
  create_user_service email username password = do
    exists ← find_user_by_email out email
    sign_up email username password exists

  -- `user.is_verified = True`, for the user of a token
  unfoldable pub verify : Option User → Job (Unit {0})
  verify none w = (err not_found, w)
  verify (some user) w =
      (do
        update_user out (record user { is_verified = true })
        delete out (by_user verification user.id))
        w

  unfoldable pub verify_user_email_service : ℕ → Job (Unit {0})
  unfolding verify
  verify_user_email_service token =
      redeem out verification (λ user_id. do user ← find_user_by_id out user_id; verify user) token

  -- The answer does not tell whether the address is known.
  pub resend_to : Option User → Job (Unit {0})
  resend_to none w = (ok tt, w)
  resend_to (some user) w =
      if user.is_verified then (ok tt, w) else request_mail out verification user w

  pub resend_email_verification_service : String → Job (Unit {0})
  unfolding resend_to
  resend_email_verification_service email = do user ← find_user_by_email out email; resend_to user

  pub forgot_by : Option User → Job (Unit {0})
  forgot_by none w = (ok tt, w)
  forgot_by (some user) w = request_mail out reset user w

  pub forgot_password_service : String → Job (Unit {0})
  unfolding forgot_by
  forgot_password_service email = do user ← find_user_by_email out email; forgot_by user

  -- The new password, and the end of all sessions.
  pub change_password : (ℕ → Job (Unit {0})) → User → String → Job (Unit {0})
  unfolding delete_tokens_of
  change_password between user password w =
      let hashed = out.hash_password w.step password in
      (do
        update_user out (record user { password = hashed })
        between user.id
        delete_tokens_of user.id
        revoke_access_to_all_tokens out user.id)
        w

  unfoldable pub reset_password : String → Option User → Job (Unit {0})
  unfolding change_password
  reset_password password none w = (err not_found, w)
  reset_password password (some user) w =
      change_password (λ id. delete out (by_user reset id)) user password w

  unfoldable pub reset_password_service_via_email : ℕ → String → Job (Unit {0})
  unfolding reset_password
  reset_password_service_via_email token password =
      redeem out reset
        (λ user_id. do user ← find_user_by_id out user_id; reset_password password user) token
