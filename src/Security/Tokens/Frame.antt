-- ===== src/Security/Tokens/Frame.antt =====
-- About what the Redis helpers and the tokens leave alone.
use anime_app_backend.Prelude.{
  ℕ, zero, suc, ◌≡◌, refl, ◌∙◌, Option, none, some, List, [], ◌∷◌, arith, ◌+◌,
}
use anime_app_backend.Exec.{Result, ok, err, continue}
use anime_app_backend.Exec.Post.{Post, Post-mono}
use anime_app_backend.Security.State.{Exc, Redis, Claims, Kind, Outside, State, Job, command}
use anime_app_backend.Security.Tokens.{
  now, is_revoked_at, is_token_revoked, setex, drop_expired, active_jtis, score_of, revoke_jti,
  revoke_scored, revoke_each, revoke_access_to_all_tokens, decode_token, ttl_of, track_access_token,
  generate_access_token, generate_refresh_token,
}

pub record SameRows (w w' : State) : Type 0 where
  pub saved : w'.saved ≡ w.saved
  pub seen : w'.seen ≡ w.seen
  pub entries : w'.redis.entries ≡ w.redis.entries
  pub mails : w'.mails ≡ w.mails

pub SameRows-refl : (w : State) → SameRows w w
SameRows-refl w = record { saved = refl; seen = refl; entries = refl; mails = refl }

pub SameRows-trans : {w w₁ w₂ : State} → SameRows w w₁ → SameRows w₁ w₂ → SameRows w w₂
SameRows-trans a b = record {
  saved = b.saved ∙ a.saved;
  seen = b.seen ∙ a.seen;
  entries = b.entries ∙ a.entries;
  mails = b.mails ∙ a.mails;
}

abbrev pub Leaves : {A : Type 0} → State → Result Exc A × State → Type 0
Leaves w end = Post (λ _ w'. SameRows w w') (λ _ w'. SameRows w w') end

-- Two parts that leave the rows alone, one after the other.
pub continue-Leaves :
    {A B : Type 0} (w : State) (end : Result Exc A × State) (rest : A → Job B)
    → Leaves w end
    → ((a : A) (w₁ : State) → Leaves w₁ (rest a w₁))
    → Leaves w (continue end rest)
continue-Leaves w (ok a, w₁) rest h k =
    Post-mono (λ _ w'. SameRows w₁ w') (λ _ w'. SameRows w w') (λ _ w'. SameRows w₁ w')
      (λ _ w'. SameRows w w') (rest a w₁) (k a w₁) (λ _ w' s. SameRows-trans {w₁ = w₁} h s)
      (λ _ w' s. SameRows-trans {w₁ = w₁} h s)
continue-Leaves w (err e, w₁) rest h k = h

module _ {T : Type 0} (out : Outside T) where
  pub command-Leaves :
      {A : Type 0} (f : Redis → A × Redis) (w : State)
      → (f w.redis).1.entries ≡ w.redis.entries
      → Leaves w (command out f w)
  unfolding command
  command-Leaves f w keeps = ground arith

  setex-Leaves : (jti ttl : ℕ) (w : State) → Leaves w (setex out jti ttl w)
  unfolding setex
  setex-Leaves jti zero w = record { saved = refl; seen = refl; entries = refl; mails = refl }
  setex-Leaves jti (suc n) w = command-Leaves _ w refl

  revoke_jti-Leaves :
      (user_id jti ttl : ℕ) (w : State) → Leaves w (revoke_jti out user_id jti ttl w)
  unfolding revoke_jti
  revoke_jti-Leaves user_id jti ttl w =
      continue-Leaves w (setex out jti ttl w) _ (setex-Leaves jti ttl w)
        (λ _ w₁. command-Leaves _ w₁ refl)

  revoke_scored-Leaves :
      (user_id at jti : ℕ) (score : Option ℕ) (w : State)
      → Leaves w (revoke_scored out user_id at jti score w)
  unfolding revoke_scored
  revoke_scored-Leaves user_id at jti none w = SameRows-refl w
  revoke_scored-Leaves user_id at jti (some score) w =
      revoke_jti-Leaves user_id jti (ttl_of out score at) w

  revoke_each-Leaves :
      (user_id at : ℕ) (jtis : List ℕ) (w : State) → Leaves w (revoke_each out user_id at jtis w)
  unfolding revoke_each
  revoke_each-Leaves user_id at [] w = SameRows-refl w
  revoke_each-Leaves user_id at (jti ∷ jtis) w =
      let ask = command out (λ (r : Redis). (score_of user_id jti r.tracked, r)) in
      continue-Leaves w (ask w) _ (command-Leaves _ w refl) (λ score w₁.
        continue-Leaves w₁ (revoke_scored out user_id at jti score w₁) _
          (revoke_scored-Leaves user_id at jti score w₁)
          (λ _ w₂. revoke_each-Leaves user_id at jtis w₂))

  pub revoke_access_to_all_tokens-Leaves :
      (user_id : ℕ) (w : State) → Leaves w (revoke_access_to_all_tokens out user_id w)
  unfolding revoke_access_to_all_tokens
  revoke_access_to_all_tokens-Leaves user_id w =
      let drop =
        command out (λ (r : Redis).
          (tt, record r { tracked = drop_expired user_id (now out w) r.tracked })) in
      continue-Leaves w (drop w) _ (command-Leaves _ w refl) (λ _ w₁.
        let ask = command out (λ (r : Redis). (active_jtis user_id (now out w) r.tracked, r)) in
        continue-Leaves w₁ (ask w₁) _ (command-Leaves _ w₁ refl)
          (λ jtis w₂. revoke_each-Leaves user_id (now out w) jtis w₂))

  -- A token that is accepted is one that PyJWT decodes, of the expected kind.
  pub decode_token-Post :
      (token : T) (expected : Kind) (w : State)
      → Post
          (λ claims w'. SameRows w w' × (out.decode (now out w) token ≡ some claims))
          (λ e w'. (e ≡ Exc.invalid_token) × SameRows w w')
          (decode_token out token expected w)
  unfolding decode_token
  decode_token-Post token expected w = ground arith

  track_access_token-Leaves :
      (user_id jti expires_at : ℕ) (w : State)
      → Leaves w (track_access_token out user_id jti expires_at w)
  unfolding track_access_token
  track_access_token-Leaves user_id jti expires_at w =
      let drop =
        command out (λ (r : Redis).
          (tt, record r { tracked = drop_expired user_id (now out w) r.tracked })) in
      continue-Leaves w (drop w) _ (command-Leaves _ w refl) (λ _ w₁. command-Leaves _ w₁ refl)

  pub generate_access_token-Leaves :
      (user_id : ℕ) (w : State) → Leaves w (generate_access_token out user_id w)
  unfolding generate_access_token
  generate_access_token-Leaves user_id w =
      let jti = out.uuid4 w.step in
      let expires_at = now out w + out.access_lifetime in
      continue-Leaves w (track_access_token out user_id jti expires_at w) _
        (track_access_token-Leaves user_id jti expires_at w) (λ _ w₁. SameRows-refl w₁)

  -- A new refresh token is made of claims with a new jti.
  pub generate_refresh_token-Post :
      (user_id : ℕ) (expiry : Option ℕ) (w : State)
      → Post
          (λ token w'.
            SameRows w w'
            × (c : Claims) × (token ≡ out.encode c)
            × (c.jti ≡ some (out.uuid4 w.step)))
          (λ _ w'. SameRows w w')
          (generate_refresh_token out user_id expiry w)
  unfolding generate_refresh_token
  generate_refresh_token-Post user_id expiry w =
      (record { saved = refl; seen = refl; entries = refl; mails = refl }, _, refl, refl)

  -- The step after a token is decoded is asked of the same Redis.
  pub decode_token-Redis :
      (token : T) (expected : Kind) (w : State)
      → Post
          (λ claims w'.
            (out.decode (now out w) token ≡ some claims)
            × (w'.redis ≡ w.redis)
            × (w'.step ≡ w.step + 1))
          (λ _ _. Unit {0})
          (decode_token out token expected w)
  unfolding decode_token
  decode_token-Redis token expected w = ground arith

  pub is_token_revoked-Post :
      (jti : ℕ) (w : State)
      → Post
          (λ b _. b ≡ is_revoked_at (now out w) jti w.redis.revoked)
          (λ _ _. Unit {0})
          (is_token_revoked out jti w)
  unfolding is_token_revoked command
  is_token_revoked-Post jti w = ground arith
