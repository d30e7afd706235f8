-- ===== src/Users/Mailing.antt =====
-- Mails with a one-time token, as app/users/service.py sends and cancels them.
pub mod Cooldown
pub mod Once
use anime_app_backend.Prelude.{ℕ, Bool, true, false, Option, none, some, String, List, [], ◌∷◌}
use anime_app_backend.Exec.{
  Exec, Result, ok, err, raise, recover, try_except, continue, ◌>>=◌, ◌>>◌,
}
use anime_app_backend.Security.State.{
  Exc, too_many_requests, service_unavailable, wait_and_retry, redis_error, Name,
  email_verification, password_reset, email_verification_user, password_reset_user, resend_cooldown,
  forgot_password_cooldown, Mail, verification_mail, reset_mail, User, Outside, State, Job,
}
use anime_app_backend.Users.Keys.{get, getdel, delete, setex, set_nx, enqueue}

-- Verification of an address, and reset of a password: their keys and their mail.
pub data Purpose : Type 0 where
  verification reset : Purpose

abbrev pub by_token : Purpose → ℕ → Name
by_token verification = email_verification
by_token reset = password_reset

abbrev pub by_user : Purpose → ℕ → Name
by_user verification = email_verification_user
by_user reset = password_reset_user

abbrev pub cooldown : Purpose → ℕ → Name
cooldown verification = resend_cooldown
cooldown reset = forgot_password_cooldown

abbrev pub mail : Purpose → String → ℕ → Mail
mail verification = verification_mail
mail reset = reset_mail

module _ {T : Type 0} (out : Outside T) (purpose : Purpose) where
  -- `if previous_token: await redis_server.delete(…)`
  unfoldable pub drop_token : Option ℕ → Job (Unit {0})
  drop_token none w = (ok tt, w)
  drop_token (some token) w = delete out (by_token purpose token) w

  unfoldable pub drop_previous : ℕ → Job (Unit {0})
  unfolding drop_token
  drop_previous user_id = do previous ← get out (by_user purpose user_id); drop_token previous

  -- A new token for 900 seconds under both keys, and the mail.
  unfoldable pub send_token : ℕ → String → Job (Unit {0})
  send_token user_id email w =
      let token = out.token_urlsafe w.step in
      (do
        setex out (by_token purpose token) 900 user_id
        setex out (by_user purpose user_id) 900 token
        enqueue out (mail purpose email token))
        w

  unfoldable pub replace_token : ℕ → String → Job (Unit {0})
  unfolding drop_previous send_token
  replace_token user_id email = do drop_previous user_id; send_token user_id email

  -- `_fail_email_request`: raises in any case.
  pub release_failed : Exc → State → Result Exc (Unit {0}) × State
  release_failed redis_error w = (err wait_and_retry, w)
  release_failed e w = (err e, w)

  pub fail_email_request : ℕ → Job (Unit {0})
  unfolding release_failed
  fail_email_request user_id = do
    try_except (delete out (cooldown purpose user_id)) release_failed
    raise service_unavailable

  pub unless_unsent : ℕ → Exc → State → Result Exc (Unit {0}) × State
  unfolding fail_email_request
  unless_unsent user_id redis_error w = fail_email_request user_id w
  unless_unsent user_id service_unavailable w = fail_email_request user_id w
  unless_unsent user_id e w = (err e, w)

  -- With whether the cooldown was acquired.
  unfoldable pub request_acquired : User → Bool → Job (Unit {0})
  unfolding replace_token unless_unsent
  request_acquired user false w = (err too_many_requests, w)
  request_acquired user true w =
      try_except (replace_token user.id user.email) (unless_unsent user.id) w

  -- The common part of `resend_email_verification_service` and `forgot_password_service`, for a
  -- user who may ask for a mail.
  unfoldable pub request_mail : User → Job (Unit {0})
  unfolding request_acquired
  request_mail user = do
    acquired ← set_nx out (cooldown purpose user.id) 300
    request_acquired user acquired

  -- `getdel`, with what is done for the user of a live token.
  pub redeem_found : (ℕ → Job (Unit {0})) → Option ℕ → Job (Unit {0})
  redeem_found use_for none w = (err Exc.not_found, w)
  redeem_found use_for (some user_id) w = use_for user_id w

  pub redeem : (ℕ → Job (Unit {0})) → ℕ → Job (Unit {0})
  unfolding redeem_found
  redeem use_for token = do found ← getdel out (by_token purpose token); redeem_found use_for found
