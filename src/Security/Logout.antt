-- ===== src/Security/Logout.antt =====
-- The logouts of `JWTService` (app/security/service.py).
use anime_app_backend.Prelude.{ℕ, Bool, true, false, Option, none, some, if◌then◌else◌}
use anime_app_backend.Exec.{Result, ok, err, ◌>>=◌, ◌>>◌}
use anime_app_backend.Security.State.{
  Exc, invalid_token, User, RefreshToken, Claims, refresh, Database, Outside, State, Job, query,
  update_refresh_token_to_revoke, set_revoked,
}
use anime_app_backend.Security.Tokens.{now, revoke_access_to_all_tokens, decode_token}
use anime_app_backend.Security.Service.{find_token, find_user_by_id, revoke_access}

module _ {T : Type 0} (out : Outside T) where
  -- `current_token.revoke = True`, without a `revoked_at`
  pub mark_revoked : ℕ → Job Bool
  mark_revoked jti w =
      (do
        query out (λ (db : Database). (tt, record db { tokens = set_revoked jti db.tokens }))
        (λ w. (ok true, w)))
        w

  -- What each logout does with the row that it found, unless it is missing or revoked.
  pub if_live : (ℕ → ℕ → Job Bool) → ℕ → ℕ → Option RefreshToken → Job Bool
  if_live rest sub jti none w = (ok false, w)
  if_live rest sub jti (some row) w = if row.revoke then (ok false, w) else rest sub jti w

  pub with_claims : (ℕ → ℕ → Job Bool) → Option ℕ → Option ℕ → Job Bool
  unfolding if_live
  with_claims rest (some sub) (some jti) w =
      (do row ← find_token out jti; if_live rest sub jti row) w
  with_claims rest sub jti w = (ok false, w)

  -- `except InvalidTokenError: return False` around the decoding alone.
  pub decoded : (ℕ → ℕ → Job Bool) → Result Exc Claims × State → Result Exc Bool × State
  unfolding with_claims
  decoded rest (ok claims, w) = with_claims rest claims.sub claims.jti w
  decoded rest (err invalid_token, w) = (ok false, w)
  decoded rest (err e, w) = (err e, w)

  pub with_session : (ℕ → ℕ → Job Bool) → Option T → Job Bool
  unfolding decoded
  with_session rest none w = (ok false, w)
  with_session rest (some token) w = decoded rest (decode_token out token refresh w)

  pub logout_service : Option T → Option T → Job Bool
  unfolding with_session mark_revoked
  logout_service refresh_token access_token = do
    revoke_access out access_token
    with_session (λ sub jti. mark_revoked jti) refresh_token

  pub end_sessions : ℕ → Option User → Job Bool
  end_sessions sub none w = (ok false, w)
  end_sessions sub (some user) w =
      (do
        (λ (w : State).
            query out
              (λ (db : Database).
                let (n, ts) = update_refresh_token_to_revoke (now out w) user.id db.tokens in
                (n, record db { tokens = ts }))
              w)
        revoke_access_to_all_tokens out sub
        (λ w. (ok true, w)))
        w

  pub end_all : ℕ → ℕ → Job Bool
  unfolding end_sessions
  end_all sub jti = do user ← find_user_by_id out sub; end_sessions sub user

  pub logout_all_accounts : Option T → Job Bool
  unfolding with_session end_all
  logout_all_accounts refresh_token = with_session end_all refresh_token
