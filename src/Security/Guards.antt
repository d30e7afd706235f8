-- ===== src/Security/Guards.antt =====
-- `get_current_user` and `require_admin` (app/core/deps.py).
pub mod Revoked
use anime_app_backend.Prelude.{ℕ, Bool, false, Option, none, some, if◌then◌else◌}
use anime_app_backend.Exec.{ok, err, raise, ◌>>=◌}
use anime_app_backend.Security.State.{
  authentication, forbidden, missing_claim, User, access, Redis, command, Outside, Job,
}
use anime_app_backend.Security.Tokens.{decode_token, is_token_revoked}
use anime_app_backend.Security.Service.{find_user_by_id}

module _ {T : Type 0} (out : Outside T) where
  -- What both guards do after the check of the token: with the user of the `sub` claim.
  pub user_of : (Option User → Job User) → Option ℕ → Job User
  user_of admit none w = (err missing_claim, w)
  user_of admit (some id) w = (do user ← find_user_by_id out id; admit user) w

  -- The key that is looked up for a token without a jti is `revoked:None`, which nothing sets.
  pub is_claim_revoked : Option ℕ → Job Bool
  is_claim_revoked none w = command out (λ (r : Redis). (false, r)) w
  is_claim_revoked (some jti) w = is_token_revoked out jti w

  pub guarded : (Option User → Job User) → T → Job User
  unfolding user_of is_claim_revoked
  guarded admit token = do
    claims ← decode_token out token access
    is_revoked ← is_claim_revoked claims.jti
    if is_revoked then raise authentication else user_of admit claims.sub

  pub known : Option User → Job User
  known none w = (err authentication, w)
  known (some user) w = (ok user, w)

  pub admin : Option User → Job User
  admin none w = (err forbidden, w)
  admin (some user) w = (if user.is_admin then ok user else err forbidden, w)

  pub get_current_user : T → Job User
  unfolding guarded known
  get_current_user token = guarded known token

  pub require_admin : T → Job User
  unfolding guarded admin
  require_admin token = guarded admin token
