-- ===== src/Security/Tokens.antt =====
-- app/security/utils/jwt.py and app/security/utils/redis_util.py.
pub mod Frame
use anime_app_backend.Prelude.{
  ℕ, zero, ◌+◌, ◌-◌, ◌*◌, ◌/◌, Bool, true, false, ◌&&◌, ◌||◌, not, Option, none, some, List, [],
  ◌∷◌, ltb, leb, ◌==◌, if◌then◌else◌,
}
use anime_app_backend.Exec.{Exec, Result, ok, err, pure, raise, continue, ◌>>=◌, ◌>>◌}
use anime_app_backend.Security.State.{
  Exc, invalid_token, redis_error, Claims, Kind, access, refresh, Tracked, Redis, Outside, State,
  Job, tick, command,
}

-- A claim is a whole number of seconds.
abbrev pub floor_second : ℕ → ℕ
floor_second t = t / 1_000_000 * 1_000_000

abbrev pub same_kind : Kind → Option Kind → Bool
same_kind access (some access) = true
same_kind refresh (some refresh) = true
same_kind k other = false

-- ZREMRANGEBYSCORE user_tokens:{user_id} -inf now
unfoldable pub drop_expired : ℕ → ℕ → List Tracked → List Tracked
drop_expired user_id now [] = []
drop_expired user_id now (t ∷ ts) =
    let rest = drop_expired user_id now ts in
    if (t.user_id == user_id) && leb t.score now then rest else t ∷ rest

-- ZREM user_tokens:{user_id} jti
unfoldable pub untrack : ℕ → ℕ → List Tracked → List Tracked
untrack user_id jti [] = []
untrack user_id jti (t ∷ ts) =
    let rest = untrack user_id jti ts in
    if (t.user_id == user_id) && (t.jti == jti) then rest else t ∷ rest

-- ZRANGEBYSCORE user_tokens:{user_id} now +inf
unfoldable pub active_jtis : ℕ → ℕ → List Tracked → List ℕ
active_jtis user_id now [] = []
active_jtis user_id now (t ∷ ts) =
    let rest = active_jtis user_id now ts in
    if (t.user_id == user_id) && leb now t.score then t.jti ∷ rest else rest

-- ZSCORE user_tokens:{user_id} jti
unfoldable pub score_of : ℕ → ℕ → List Tracked → Option ℕ
score_of user_id jti [] = none
score_of user_id jti (t ∷ ts) =
    if (t.user_id == user_id) && (t.jti == jti) then some t.score else score_of user_id jti ts

-- EXISTS revoked:{jti}, at the time `now`
unfoldable pub is_revoked_at : ℕ → ℕ → List (ℕ × ℕ) → Bool
is_revoked_at now jti [] = false
is_revoked_at now jti ((j, until) ∷ rest) =
    ((j == jti) && ltb now until) || is_revoked_at now jti rest

module _ {T : Type 0} (out : Outside T) where
  abbrev pub now : State → ℕ
  now w = out.utc w.step

  -- SETEX revoked:{jti} ttl "1": Redis refuses a time to live of 0.
  unfoldable pub setex : ℕ → ℕ → Job (Unit {0})
  setex jti zero w = (err redis_error, tick w)
  setex jti ttl w =
      command out
        (λ (r : Redis). (tt, record r { revoked = (jti, now w + ttl * 1_000_000) ∷ r.revoked })) w

  pub is_token_revoked : ℕ → Job Bool
  is_token_revoked jti w = command out (λ (r : Redis). (is_revoked_at (now w) jti r.revoked, r)) w

  pub track_access_token : ℕ → ℕ → ℕ → Job (Unit {0})
  track_access_token user_id jti expires_at = do
    (λ (w : State).
        command out
          (λ (r : Redis). (tt, record r { tracked = drop_expired user_id (now w) r.tracked })) w)
    command out (λ (r : Redis). (
      tt,
      record r {
        tracked =
            record { user_id = user_id; jti = jti; score = expires_at }
            ∷ untrack user_id jti r.tracked;
      },
    ))

  -- `max(int(exp - now), 0)`: the time from `at` to `exp` in whole seconds
  abbrev pub ttl_of : ℕ → ℕ → ℕ
  ttl_of exp at = (exp - at) / 1_000_000

  -- SETEX and ZREM for one jti
  pub revoke_jti : ℕ → ℕ → ℕ → Job (Unit {0})
  revoke_jti user_id jti ttl = do
    setex jti ttl
    command out (λ (r : Redis). (tt, record r { tracked = untrack user_id jti r.tracked }))

  pub revoke_single_access_token : ℕ → ℕ → ℕ → Job (Unit {0})
  revoke_single_access_token jti exp user_id w = revoke_jti user_id jti (ttl_of exp (now w)) w

  -- The body of the loop, once the score is known.
  pub revoke_scored : ℕ → ℕ → ℕ → Option ℕ → Job (Unit {0})
  revoke_scored user_id at jti none w = (ok tt, w)
  revoke_scored user_id at jti (some score) w = revoke_jti user_id jti (ttl_of score at) w

  -- `for jti in active_jtis`
  pub revoke_each : ℕ → ℕ → List ℕ → Job (Unit {0})
  unfolding revoke_scored
  revoke_each user_id at [] w = (ok tt, w)
  revoke_each user_id at (jti ∷ jtis) w =
      (do
        score ← command out (λ (r : Redis). (score_of user_id jti r.tracked, r))
        revoke_scored user_id at jti score
        revoke_each user_id at jtis)
        w

  pub revoke_access_to_all_tokens : ℕ → Job (Unit {0})
  unfolding revoke_each
  revoke_access_to_all_tokens user_id w =
      (do
        command out
            (λ (r : Redis). (tt, record r { tracked = drop_expired user_id (now w) r.tracked }))
        jtis ← command out (λ (r : Redis). (active_jtis user_id (now w) r.tracked, r))
        revoke_each user_id (now w) jtis)
        w

  pub decode_token : T → Kind → Job Claims
  decode_token token expected w = elim (out.decode (now w) token) [
    | none ↦ (err invalid_token, tick w)
    | some claims ↦
        if same_kind expected claims.kind then (ok claims, tick w) else (err invalid_token, tick w)
  ]

  pub generate_access_token : ℕ → Job T
  unfolding track_access_token
  generate_access_token user_id w =
      let expires_at = now w + out.access_lifetime in
      let jti = out.uuid4 w.step in
      (do
        track_access_token user_id jti expires_at
        pure (
            out.encode (record {
              sub = some user_id;
              kind = some access;
              jti = some jti;
              exp = some (floor_second expires_at);
            })))
        w

  -- Without an expiry the token lives as long as the settings say.
  pub generate_refresh_token : ℕ → Option ℕ → Job T
  generate_refresh_token user_id expiry w =
      let expires_at : ℕ = elim expiry [ none ↦ now w + out.refresh_lifetime | some t ↦ t ] in
      (
        ok (
            out.encode (record {
              sub = some user_id;
              kind = some refresh;
              jti = some (out.uuid4 w.step);
              exp = some (floor_second expires_at);
            })),
        tick w,
      )
