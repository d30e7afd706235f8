-- ===== src/Security/Service.antt =====
-- `JWTService` (app/security/service.py): refresh, login and logout. Logging is left out.
pub mod Rotation
pub mod Once
use anime_app_backend.Prelude.{
  ℕ, ◌+◌, ◌-◌, Bool, true, false, not, Option, none, some, String, List, [], ◌∷◌, leb, ◌==◌,
  if◌then◌else◌,
}
use anime_app_backend.Exec.{
  Exec, Result, ok, err, pure, raise, recover, try_except, continue, ◌>>=◌, ◌>>◌,
}
use anime_app_backend.Security.State.{
  Exc, invalid_token, already_logged_in, missing_claim, session_invalid, just_rotated, wrong_login,
  unverified_email, forbidden, redis_error, database_error, User, RefreshToken, Claims, Kind,
  access, refresh, Database, Outside, State, Job, tick, query, commit, in_request,
  get_refresh_token_by_jti, revoke_refresh_token, update_refresh_token_to_revoke,
  delete_all_refresh_tokens_for_user, set_revoked, get_user_by_email, get_user_by_id,
}
use anime_app_backend.Security.Tokens.{
  now, revoke_single_access_token, revoke_access_to_all_tokens, decode_token, generate_access_token,
  generate_refresh_token,
}

pub record RefreshResponse (T : Type 0) : Type 0 where
  pub refresh_token : T
  pub access_token : T

-- `try: … except RedisError`, with nothing done about it
abbrev pub unless_redis : Exc → State → Result Exc (Unit {0}) × State
unless_redis redis_error w = (ok tt, w)
unless_redis e w = (err e, w)

-- the same for RedisError and InvalidTokenError
abbrev pub unless_redis_or_invalid : Exc → State → Result Exc (Unit {0}) × State
unless_redis_or_invalid redis_error w = (ok tt, w)
unless_redis_or_invalid invalid_token w = (ok tt, w)
unless_redis_or_invalid e w = (err e, w)

abbrev pub unless_invalid : Exc → State → Result Exc (Unit {0}) × State
unless_invalid invalid_token w = (ok tt, w)
unless_invalid e w = (err e, w)

module _ {T : Type 0} (out : Outside T) where
  unfoldable pub find_token : ℕ → Job (Option RefreshToken)
  find_token jti = query out (λ (db : Database). (get_refresh_token_by_jti jti db.tokens, db))

  unfoldable pub find_user_by_email : String → Job (Option User)
  find_user_by_email email = query out (λ (db : Database). (get_user_by_email email db.users, db))

  unfoldable pub find_user_by_id : ℕ → Job (Option User)
  find_user_by_id id = query out (λ (db : Database). (get_user_by_id id db.users, db))

  pub revoke_one : ℕ → Job ℕ
  revoke_one jti w =
      query out
        (λ (db : Database).
          let (n, ts) = revoke_refresh_token (now out w) jti db.tokens in
          (n, record db { tokens = ts }))
        w

  -- RefreshToken(jti, user_id, expires_at) from the claims of the new token: `claims["exp"]` and
  -- the like raise a KeyError where a claim is missing.
  pub new_row : Claims → Option RefreshToken
  new_row claims = elim (claims.jti) [
    | none ↦ none
    | some jti ↦ elim (claims.sub) [
      | none ↦ none
      | some sub ↦ elim (claims.exp) [
        | none ↦ none
        | some exp ↦ some (record {
          jti = jti;
          user_id = sub;
          revoke = false;
          revoked_at = none;
          expires_at = exp;
        })
      ]
    ]
  ]

  pub create_refresh_token : Option RefreshToken → Job (Unit {0})
  create_refresh_token none w = (err missing_claim, w)
  create_refresh_token (some row) w =
      query out (λ (db : Database). (tt, record db { tokens = row ∷ db.tokens })) w

  -- The new pair of tokens for a user, with the row of the refresh token: the end of a refresh and
  -- of a login.
  pub issue : ℕ → Option ℕ → Job (RefreshResponse T)
  unfolding new_row create_refresh_token
  issue user_id expiry = do
    new_refresh ← generate_refresh_token out user_id expiry
    claims ← decode_token out new_refresh refresh
    create_refresh_token (new_row claims)
    new_access ← generate_access_token out user_id
    pure (record { refresh_token = new_refresh; access_token = new_access })

  -- Whether a token that is already revoked was revoked within the grace period.
  abbrev pub is_within_grace : ℕ → Option RefreshToken → Bool
  is_within_grace at none = false
  is_within_grace at (some t) = elim (t.revoked_at) [
    | none ↦ false
    | some since ↦ leb (at - since) out.refresh_grace
  ]

  -- A token that was used before: all sessions of the user end, unless it was just rotated.
  pub wipe : ℕ → Job (RefreshResponse T)
  wipe sub = do
    query out (λ (db : Database).
        (tt, record db { tokens = delete_all_refresh_tokens_for_user sub db.tokens }))
    commit out
    try_except (revoke_access_to_all_tokens out sub) unless_redis
    raise session_invalid

  pub reused : ℕ → Option RefreshToken → Job (RefreshResponse T)
  unfolding wipe
  reused sub fresh w =
      if is_within_grace (now out w) fresh then (err just_rotated, w) else wipe sub w

  -- From the row count of the UPDATE on.
  pub rotated : ℕ → ℕ → ℕ → RefreshToken → ℕ → Job (RefreshResponse T)
  unfolding find_token reused issue
  rotated sub jti exp row count w =
      if count == 1
      then issue row.user_id (some exp) w
      else (do fresh ← find_token jti; reused sub fresh) w

  pub refresh_found : ℕ → ℕ → ℕ → Option RefreshToken → Job (RefreshResponse T)
  unfolding revoke_one rotated
  refresh_found sub jti exp none w = (err session_invalid, w)
  refresh_found sub jti exp (some row) w = (do n ← revoke_one jti; rotated sub jti exp row n) w

  -- With the claims of the token, each of which may be missing.
  pub refresh_claims : Option ℕ → Option ℕ → Option ℕ → Job (RefreshResponse T)
  unfolding find_token refresh_found
  refresh_claims (some jti) (some sub) (some exp) w =
      (do result ← find_token jti; refresh_found sub jti exp result) w
  refresh_claims jti sub exp w = (err invalid_token, w)

  pub refresh_access_token_service : T → Job (RefreshResponse T)
  unfolding refresh_claims
  refresh_access_token_service token = do
    claims ← decode_token out token refresh
    refresh_claims claims.jti claims.sub claims.exp

  -- The part of a login that looks at the refresh token of the caller.
  pub refuse_live : Option RefreshToken → Job (Unit {0})
  refuse_live none w = (ok tt, w)
  refuse_live (some t) w = (if t.revoke then ok tt else err already_logged_in, w)

  pub check_session_claims : Option ℕ → Option ℕ → Job (Unit {0})
  unfolding find_token refuse_live
  check_session_claims (some jti) (some sub) w = (do t ← find_token jti; refuse_live t) w
  check_session_claims jti sub w = (err invalid_token, w)

  pub check_session : Option T → Job (Unit {0})
  unfolding check_session_claims
  check_session none w = (ok tt, w)
  check_session (some token) w =
      try_except
        (do claims ← decode_token out token refresh; check_session_claims claims.jti claims.sub)
        unless_invalid w

  pub login_user : String → Option User → Job (RefreshResponse T)
  unfolding issue
  login_user password none w = (err wrong_login, w)
  login_user password (some user) w =
      if out.check_password password user.password
      then if user.is_verified then issue user.id none w else (err unverified_email, w)
      else (err wrong_login, w)

  pub login_service : String → String → Option T → Job (RefreshResponse T)
  unfolding check_session login_user find_user_by_email
  login_service email password token = do
    check_session token
    user ← find_user_by_email email
    login_user password user

  -- The access token of a logout: nothing about it stops the logout but a lost database.
  pub revoke_claims : Option ℕ → Option ℕ → Option ℕ → Job (Unit {0})
  revoke_claims (some jti) (some exp) (some sub) w = revoke_single_access_token out jti exp sub w
  revoke_claims jti exp sub w = (ok tt, w)

  pub revoke_access : Option T → Job (Unit {0})
  unfolding revoke_claims
  revoke_access none w = (ok tt, w)
  revoke_access (some token) w =
      try_except
        (do claims ← decode_token out token access; revoke_claims claims.jti claims.exp claims.sub)
        unless_redis_or_invalid w
