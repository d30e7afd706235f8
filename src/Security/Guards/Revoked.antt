-- ===== src/Security/Guards/Revoked.antt =====
-- About access tokens that were revoked.
use anime_app_backend.Prelude.{ℕ, ◌+◌, ◌≡◌, ◌∙◌, ap, true, Option, some}
use anime_app_backend.Exec.Post.{Post, Post-mono, continue-Post}
use anime_app_backend.Security.State.{Claims, User, access, Redis, Outside, State, Job}
use anime_app_backend.Security.Tokens.{now, is_revoked_at, decode_token, is_token_revoked}
use anime_app_backend.Security.Tokens.Frame.{decode_token-Redis, is_token_revoked-Post}
use anime_app_backend.Security.Guards.{guarded, is_claim_revoked, get_current_user, require_admin}

module _ {T : Type 0} (out : Outside T) where
  guarded-Revoked :
      (admit : Option User → Job User) (token : T) (w : State) {claims : Claims} {jti : ℕ}
      → out.decode (now out w) token ≡ some claims
      → claims.jti ≡ some jti
      → is_revoked_at (out.utc (w.step + 1)) jti w.redis.revoked ≡ true
      → Post (λ _ _. ⊥) (λ _ _. Unit {0}) (guarded out admit token w)
  unfolding guarded is_claim_revoked
  guarded-Revoked admit token w {claims} {jti} decoded has_jti revoked =
      continue-Post (λ c w₁. (c ≡ claims) × (w₁.redis ≡ w.redis) × (w₁.step ≡ w.step + 1)) _ _
        (decode_token out token access w) _
        (Post-mono _ _ _ (λ _ _. Unit {0}) (decode_token out token access w)
          (decode_token-Redis out token access w) (λ c _ q. (cc (q.0, decoded), q.1, q.2))
          (λ _ _ _. tt))
        (λ c w₁ q.
          rw (ap (λ (x : Claims). x.jti) q.0, has_jti)
            (continue-Post (λ b _. b ≡ true) _ _ (is_token_revoked out jti w₁) _
              (Post-mono _ _ _ (λ _ _. Unit {0}) (is_token_revoked out jti w₁)
                (is_token_revoked-Post out jti w₁)
                (λ b _ e.
                  e
                  ∙ ap (λ (r : Redis). is_revoked_at (now out w₁) jti r.revoked) q.1
                  ∙ ap (λ (n : ℕ). is_revoked_at (out.utc n) jti w.redis.revoked) q.2
                  ∙ revoked)
                (λ _ _ _. tt))
              (λ b w₂ e. rw e tt)))

  -- An access token whose jti is revoked in Redis at the time it is looked up admits nobody,
  -- neither as a user nor as an admin.
  pub get_current_user-Revoked :
      (token : T) (w : State) {claims : Claims} {jti : ℕ}
      → out.decode (now out w) token ≡ some claims
      → claims.jti ≡ some jti
      → is_revoked_at (out.utc (w.step + 1)) jti w.redis.revoked ≡ true
      → Post (λ _ _. ⊥) (λ _ _. Unit {0}) (get_current_user out token w)
        × Post (λ _ _. ⊥) (λ _ _. Unit {0}) (require_admin out token w)
  unfolding get_current_user require_admin
  get_current_user-Revoked token w decoded has_jti revoked = (
    guarded-Revoked _ token w decoded has_jti revoked,
    guarded-Revoked _ token w decoded has_jti revoked,
  )
