-- ===== src/Security/State.antt =====
-- What the session and account services work on: the rows of `users` and `refresh_token`, Redis,
-- the mail queue, and the libraries they call (app/security/repository.py, app/security/models.py,
-- app/users/models.py).
pub mod Steps
use anime_app_backend.Prelude.{
  ℕ, ◌+◌, Bool, true, ◌&&◌, not, Option, none, some, String, List, [], ◌∷◌, ltb, ◌==◌, str_eq,
  if◌then◌else◌,
}
use anime_app_backend.Exec.{Exec, Result, ok, err}

-- The exceptions of app/security/exceptions.py and app/exceptions.py, told apart by their
-- messages, and those of Redis and of the database.
pub data Exc : Type 0 where
  invalid_token already_logged_in : Exc
  authentication session_invalid just_rotated wrong_login unverified_email : Exc
  forbidden missing_claim : Exc
  user_already_exists not_found too_many_requests : Exc
  service_unavailable wait_and_retry created_but_unsent : Exc
  redis_error database_error integrity_error : Exc

-- UUIDs are numbers; times are microseconds.
pub record User : Type 0 where
  pub id : ℕ
  pub email : String
  pub username : String
  pub password : String
  pub is_admin : Bool
  pub is_verified : Bool
  pub created_at : ℕ

pub record RefreshToken : Type 0 where
  pub jti : ℕ
  pub user_id : ℕ
  pub revoke : Bool
  pub revoked_at : Option ℕ
  pub expires_at : ℕ

-- The claims of a token, each of which may be missing.
pub data Kind : Type 0 where
  access refresh : Kind

pub record Claims : Type 0 where
  pub sub : Option ℕ
  pub kind : Option Kind
  pub jti : Option ℕ
  pub exp : Option ℕ

pub record Database : Type 0 where
  pub users : List User
  pub tokens : List RefreshToken

-- `revoked:{jti}` keys with the time at which they expire, and the sets `user_tokens:{user_id}`
-- with the score of each jti.
pub record Tracked : Type 0 where
  pub user_id : ℕ
  pub jti : ℕ
  pub score : ℕ

-- The keys of app/users/service.py. Their texts are `email_verification:{token}` and so on; the
-- tokens of `secrets.token_urlsafe` are numbers.
pub data Name : Type 0 where
  email_verification password_reset : (token : ℕ) → Name
  email_verification_user password_reset_user : (user_id : ℕ) → Name
  resend_cooldown forgot_password_cooldown : (user_id : ℕ) → Name

-- A key with its value, a user's id or a token, and the time at which it expires.
pub record Entry : Type 0 where
  pub name : Name
  pub content : ℕ
  pub expires : ℕ

-- The mails that were handed to Celery.
pub data Mail : Type 0 where
  verification_mail reset_mail : (address : String) → (token : ℕ) → Mail

pub record Redis : Type 0 where
  pub revoked : List (ℕ × ℕ)
  pub tracked : List Tracked
  pub entries : List Entry

-- What is outside: time and new UUIDs by the number of the step, which Redis and database calls
-- fail, PyJWT, and bcrypt. `decode` is jwt.decode: it returns no claims for a token with a bad
-- signature or one that has expired at the time that it is given.
pub record Outside (T : Type 0) : Type 0 where
  pub utc : ℕ → ℕ
  pub uuid4 : ℕ → ℕ
  pub database_fails : ℕ → Bool
  pub redis_fails : ℕ → Bool
  pub encode : Claims → T
  pub decode : ℕ → T → Option Claims
  pub check_password : String → String → Bool
  pub hash_password : ℕ → String → String
  pub token_urlsafe : ℕ → ℕ
  -- whether the Celery broker refuses a task, and whether another request takes an email first
  pub enqueue_fails : ℕ → Bool
  pub email_conflicts : ℕ → Bool
  pub access_lifetime : ℕ
  pub refresh_lifetime : ℕ
  pub refresh_grace : ℕ

-- `saved` is what is committed, `seen` what the request's session sees.
pub record State : Type 0 where
  pub saved : Database
  pub seen : Database
  pub redis : Redis
  pub mails : List Mail
  pub step : ℕ

abbrev pub Job : Type 0 → Type 0
Job A = Exec Exc State A

abbrev pub tick : State → State
tick w = record w { step = w.step + 1 }

module _ {T : Type 0} (out : Outside T) where
  -- A statement in the request's session. If it fails, it has changed nothing.
  unfoldable pub query : {A : Type 0} → (Database → A × Database) → Job A
  query f w =
      if out.database_fails w.step
      then (err database_error, tick w)
      else let (a, db) = f w.seen in (ok a, record (tick w) { seen = db })

  unfoldable pub commit : Job (Unit {0})
  commit w =
      if out.database_fails w.step
      then (err database_error, tick w)
      else (ok tt, record (tick w) { saved = w.seen })

  -- A Redis command.
  unfoldable pub command : {A : Type 0} → (Redis → A × Redis) → Job A
  command f w =
      if out.redis_fails w.step
      then (err redis_error, tick w)
      else let (a, r) = f w.redis in (ok a, record (tick w) { redis = r })

  -- `get_db`: a request ends with a commit, or with a rollback if it raises.
  abbrev pub end_request : {A : Type 0} → Result Exc A × State → Result Exc A × State
  end_request (ok a, w) =
      if out.database_fails w.step
      then (err database_error, record (tick w) { seen = w.saved })
      else (ok a, record (tick w) { saved = w.seen })
  end_request (err e, w) = (err e, record w { seen = w.saved })

  unfoldable pub in_request : {A : Type 0} → Job A → Job A
  in_request m w = end_request (m w)

-- The statements of `RefreshTokenRepository`.
unfoldable pub get_refresh_token_by_jti : ℕ → List RefreshToken → Option RefreshToken
get_refresh_token_by_jti jti [] = none
get_refresh_token_by_jti jti (t ∷ ts) =
    if t.jti == jti then some t else get_refresh_token_by_jti jti ts

abbrev pub revoked_now : ℕ → RefreshToken → RefreshToken
revoked_now now t = record t { revoke = true; revoked_at = some now }

-- `UPDATE … SET revoke, revoked_at WHERE test AND NOT revoke`, with its row count
unfoldable pub revoke_where : (RefreshToken → Bool) → ℕ → List RefreshToken → ℕ × List RefreshToken
revoke_where test now [] = (0, [])
revoke_where test now (t ∷ ts) =
    let (n, rest) = revoke_where test now ts in
    if test t && not t.revoke then (n + 1, revoked_now now t ∷ rest) else (n, t ∷ rest)

abbrev pub revoke_refresh_token : ℕ → ℕ → List RefreshToken → ℕ × List RefreshToken
revoke_refresh_token now jti = revoke_where (λ t. t.jti == jti) now

abbrev pub update_refresh_token_to_revoke : ℕ → ℕ → List RefreshToken → ℕ × List RefreshToken
update_refresh_token_to_revoke now user_id = revoke_where (λ t. t.user_id == user_id) now

unfoldable pub delete_all_refresh_tokens_for_user : ℕ → List RefreshToken → List RefreshToken
delete_all_refresh_tokens_for_user user_id [] = []
delete_all_refresh_tokens_for_user user_id (t ∷ ts) =
    let rest = delete_all_refresh_tokens_for_user user_id ts in
    if t.user_id == user_id then rest else t ∷ rest

-- `update_refresh_token` of a token whose `revoke` was set
unfoldable pub set_revoked : ℕ → List RefreshToken → List RefreshToken
set_revoked jti [] = []
set_revoked jti (t ∷ ts) =
    let rest = set_revoked jti ts in
    if t.jti == jti then record t { revoke = true } ∷ rest else t ∷ rest

unfoldable pub cleanup_expired_refresh_tokens : ℕ → List RefreshToken → ℕ × List RefreshToken
cleanup_expired_refresh_tokens now [] = (0, [])
cleanup_expired_refresh_tokens now (t ∷ ts) =
    let (n, rest) = cleanup_expired_refresh_tokens now ts in
    if ltb t.expires_at now then (n + 1, rest) else (n, t ∷ rest)

-- The lookups of `UserRepository` that the sessions need.
unfoldable pub get_user_by_email : String → List User → Option User
get_user_by_email email [] = none
get_user_by_email email (u ∷ us) =
    if str_eq u.email email then some u else get_user_by_email email us

unfoldable pub get_user_by_id : ℕ → List User → Option User
get_user_by_id id [] = none
get_user_by_id id (u ∷ us) = if u.id == id then some u else get_user_by_id id us
