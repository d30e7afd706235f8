-- ===== src/Tests/Sessions.antt =====
-- The exchange of refresh tokens at concrete inputs.
use anime_app_backend.Prelude.{
  ℕ, ◌+◌, ◌≡◌, ◌≢◌, refl, ap, sym, Bool, true, false, none, some, [], ◌∷◌, arith,
}
use anime_app_backend.Exec.Post.{Post}
use anime_app_backend.Security.State.{Claims, access, refresh, RefreshToken, Outside, State}
use anime_app_backend.Security.Tokens.{is_revoked_at}
use anime_app_backend.Security.Guards.{get_current_user, require_admin}
use anime_app_backend.Security.Guards.Revoked.{get_current_user-Revoked}
use anime_app_backend.Security.Service.{refresh_access_token_service}
use anime_app_backend.Security.Service.Rotation.{IsSpent, EndsSessions, refresh-Refused}
use anime_app_backend.Security.Service.Once.{refresh-Spends}

-- A token is its claims, and every token is accepted.
abbrev pub plain : Outside Claims
plain = record {
  utc = λ n. 5_000_000 + n;
  uuid4 = λ n. 100 + n;
  database_fails = λ n. false;
  redis_fails = λ n. false;
  encode = λ c. c;
  decode = λ at c. some c;
  check_password = λ a b. true;
  hash_password = λ n p. p;
  token_urlsafe = λ n. 1000 + n;
  enqueue_fails = λ n. false;
  email_conflicts = λ n. false;
  access_lifetime = 900_000_000;
  refresh_lifetime = 9_000_000_000;
  refresh_grace = 10_000_000;
}

abbrev token : Claims
token = record { sub = some 1; kind = some refresh; jti = some 7; exp = some 9_000_000_000 }

abbrev pub row : Bool → RefreshToken
row revoke = record {
  jti = 7;
  user_id = 1;
  revoke = revoke;
  revoked_at = none;
  expires_at = 9_000_000_000;
}

abbrev state : Bool → State
state revoke = record {
  saved = record { users = []; tokens = row revoke ∷ [] };
  seen = record { users = []; tokens = row revoke ∷ [] };
  redis = record { revoked = []; tracked = []; entries = [] };
  mails = [];
  step = 0;
}

refresh-Refused_example :
    Post
      (λ _ _. ⊥)
      (EndsSessions plain 7 1 (state true))
      (refresh_access_token_service plain token (state true))
refresh-Refused_example =
    refresh-Refused plain token (state true) {claims = token} refl refl refl refl

reads_back : (at : ℕ) (c d : Claims) → plain.decode at (plain.encode c) ≡ some d → d.jti ≡ c.jti
reads_back at c d h = let e : c ≡ d = cc h in sym (ap (λ (x : Claims). x.jti) e)

is_new : (n : ℕ) → plain.uuid4 n ≢ 7
is_new n h = omega (arith, h)

refresh-Spends_example :
    Post
      (λ _ w'. IsSpent 7 w'.seen.tokens)
      (λ _ _. Unit {0})
      (refresh_access_token_service plain token (state false))
refresh-Spends_example =
    refresh-Spends plain 7 reads_back is_new token (state false) {claims = token} refl refl

abbrev access_token : Claims
access_token = record { sub = some 1; kind = some access; jti = some 8; exp = some 9_000_000_000 }

-- The access token with jti 8 is revoked until 6 seconds.
abbrev logged_out : State
logged_out = record (state true) {
  redis = record { revoked = (8, 6_000_000) ∷ []; tracked = []; entries = [] };
}

get_current_user-Revoked_example :
    Post (λ _ _. ⊥) (λ _ _. Unit {0}) (get_current_user plain access_token logged_out)
    × Post (λ _ _. ⊥) (λ _ _. Unit {0}) (require_admin plain access_token logged_out)
get_current_user-Revoked_example =
    get_current_user-Revoked plain access_token logged_out {claims = access_token} refl refl
      (unfold is_revoked_at in refl)
