-- ===== src/Security/Service/Rotation.antt =====
-- About a refresh token that is used again.
use anime_app_backend.Prelude.{
  ℕ, ◌≡◌, refl, sym, ◌∙◌, ap, subst, Bool, true, false, ◌&&◌, not, Option, none, some, List, [],
  ◌∷◌, ◌==◌, arith, if◌then◌else◌, inl, inr, ◌⊎◌,
}
use anime_app_backend.Prelude.Lists.{any_of}
use anime_app_backend.Exec.{Result, ok, err, recover, continue}
use anime_app_backend.Exec.Post.{Post, Post-mono, continue-Post}
use anime_app_backend.Security.State.{
  Exc, session_invalid, just_rotated, redis_error, database_error, RefreshToken, Claims, refresh,
  Database, Outside, State, query, commit, get_refresh_token_by_jti, revoke_refresh_token,
  revoke_where, delete_all_refresh_tokens_for_user,
}
use anime_app_backend.Security.Tokens.{now, decode_token, revoke_access_to_all_tokens}
use anime_app_backend.Security.Tokens.Frame.{
  Leaves, revoke_access_to_all_tokens-Leaves, decode_token-Post,
}
use anime_app_backend.Security.Service.{
  RefreshResponse, find_token, revoke_one, wipe, reused, is_within_grace, rotated, refresh_found,
  refresh_claims, refresh_access_token_service, unless_redis,
}

-- No row that is not revoked has the jti.
abbrev pub IsSpent : ℕ → List RefreshToken → Type 0
IsSpent jti ts = any_of (λ t. (t.jti == jti) && not t.revoke) ts ≡ false

-- No row belongs to the user.
abbrev pub HasNone : ℕ → List RefreshToken → Type 0
HasNone sub ts = any_of (λ t. t.user_id == sub) ts ≡ false

revoke_spent :
    (at jti : ℕ) (ts : List RefreshToken) → IsSpent jti ts → (revoke_refresh_token at jti ts).0 ≡ 0
unfolding revoke_where
revoke_spent at jti [] h = refl
revoke_spent at jti (t ∷ ts) h = ground (arith, revoke_spent at jti ts)

pub revoke_refresh_token-IsSpent :
    (at jti : ℕ) (ts : List RefreshToken) → IsSpent jti (revoke_refresh_token at jti ts).1
unfolding revoke_where
revoke_refresh_token-IsSpent at jti [] = refl
revoke_refresh_token-IsSpent at jti (t ∷ ts) =
    ground (arith, revoke_refresh_token-IsSpent at jti ts)

pub delete_all-HasNone :
    (sub : ℕ) (ts : List RefreshToken) → HasNone sub (delete_all_refresh_tokens_for_user sub ts)
unfolding delete_all_refresh_tokens_for_user
delete_all-HasNone sub [] = refl
delete_all-HasNone sub (t ∷ ts) = ground (arith, delete_all-HasNone sub ts)

module _ {T : Type 0} (out : Outside T) where
  -- A refusal that names an invalid session has ended all sessions of the user, for good, unless
  -- the token has no row at all.
  abbrev pub EndsSessions : ℕ → ℕ → State → Exc → State → Type 0
  EndsSessions jti sub w e w' =
      e ≡ session_invalid
      → (get_refresh_token_by_jti jti w.seen.tokens ≡ none) ⊎ HasNone sub w'.saved.tokens

  pub query-Post :
      {A : Type 0} (f : Database → A × Database) (w : State)
      → Post
          (λ a w'. (a ≡ (f w.seen).0) × (w'.seen ≡ (f w.seen).1) × (w'.saved ≡ w.saved))
          (λ e _. e ≡ database_error)
          (query out f w)
  unfolding query
  query-Post f w = ground arith

  commit-Post :
      (w : State) → Post (λ _ w'. w'.saved ≡ w.seen) (λ e _. e ≡ database_error) (commit out w)
  unfolding commit
  commit-Post w = ground arith

  abbrev Refused : (Exc → State → Type 0) → Result Exc (RefreshResponse T) × State → Type 0
  Refused X end = Post (λ _ _. ⊥) X end

  wiped :
      (jti sub : ℕ) (w w₁ : State) (end : Result Exc (Unit {0}) × State)
      → HasNone sub w₁.saved.tokens
      → Leaves w₁ end
      → Refused
          (EndsSessions jti sub w)
          (continue (recover end unless_redis) (λ _ w'. (err session_invalid, w')))
  wiped jti sub w w₁ (ok u, w₂) h s =
      λ _. inr (subst (λ (db : Database). HasNone sub db.tokens) (sym s.saved) h)
  wiped jti sub w w₁ (err redis_error, w₂) h s =
      λ _. inr (subst (λ (db : Database). HasNone sub db.tokens) (sym s.saved) h)
  wiped jti sub w w₁ (err e, w₂) h s =
      λ _. inr (subst (λ (db : Database). HasNone sub db.tokens) (sym s.saved) h)

  wipe-Post : (jti sub : ℕ) (w w₁ : State) → Refused (EndsSessions jti sub w) (wipe out sub w₁)
  unfolding wipe
  wipe-Post jti sub w w₁ =
      let f : Database → Unit {0} × Database = λ (db : Database).
        (tt, record db { tokens = delete_all_refresh_tokens_for_user sub db.tokens }) in
      continue-Post (λ _ w₂. HasNone sub w₂.seen.tokens) _ _ (query out f w₁) _
        (Post-mono _ _ _ (EndsSessions jti sub w) (query out f w₁) (query-Post f w₁)
          (λ _ w₂ q.
            subst (λ (db : Database). HasNone sub db.tokens) (sym q.1)
              (delete_all-HasNone sub w₁.seen.tokens))
          (λ e w₂ q c. cc (q, c)))
        (λ _ w₂ h.
          continue-Post (λ _ w₃. HasNone sub w₃.saved.tokens) _ _ (commit out w₂) _
            (Post-mono _ _ _ (EndsSessions jti sub w) (commit out w₂) (commit-Post w₂)
              (λ _ w₃ q. subst (λ (db : Database). HasNone sub db.tokens) (sym q) h)
              (λ e w₃ q c. cc (q, c)))
            (λ _ w₃ h'.
              wiped jti sub w w₃ (revoke_access_to_all_tokens out sub w₃) h'
                (revoke_access_to_all_tokens-Leaves out sub w₃)))

  pub reused-Post :
      (jti sub : ℕ) (fresh : Option RefreshToken) (w w₁ : State)
      → Refused (EndsSessions jti sub w) (reused out sub fresh w₁)
  unfolding reused
  reused-Post jti sub fresh w w₁ = go (is_within_grace out (now out w₁) fresh)
    where
      go :
          (b : Bool)
          → Refused (EndsSessions jti sub w) (if b then (err just_rotated, w₁) else wipe out sub w₁)
      go true = λ c. cc c
      go false = wipe-Post jti sub w w₁

  rotated-Post :
      (jti sub exp n : ℕ) (row : RefreshToken) (w w₁ : State)
      → n ≡ 0
      → Refused (EndsSessions jti sub w) (rotated out sub jti exp row n w₁)
  unfolding rotated find_token
  rotated-Post jti sub exp n row w w₁ zero_rows = rw zero_rows (
      continue-Post (λ _ _. Unit {0}) _ _ (find_token out jti w₁) _
        (Post-mono _ _ _ (EndsSessions jti sub w) (find_token out jti w₁) (query-Post _ w₁)
          (λ _ _ _. tt) (λ e w₂ q c. cc (q, c)))
        (λ fresh w₂ _. reused-Post jti sub fresh w w₂))

  refresh_found-Post :
      (jti sub exp : ℕ) (found : Option RefreshToken) (w w₁ : State)
      → found ≡ get_refresh_token_by_jti jti w.seen.tokens
      → IsSpent jti w₁.seen.tokens
      → Refused (EndsSessions jti sub w) (refresh_found out sub jti exp found w₁)
  unfolding refresh_found revoke_one
  refresh_found-Post jti sub exp none w w₁ found spent = λ _. inl (sym found)
  refresh_found-Post jti sub exp (some row) w w₁ found spent =
      continue-Post (λ n _. n ≡ 0) _ _ (revoke_one out jti w₁) _
        (Post-mono _ _ _ (EndsSessions jti sub w) (revoke_one out jti w₁) (query-Post _ w₁)
          (λ n w₂ q. q.0 ∙ revoke_spent (now out w₁) jti w₁.seen.tokens spent)
          (λ e w₂ q c. cc (q, c)))
        (λ n w₂ q. rotated-Post jti sub exp n row w w₂ q)

  refresh_claims-Post :
      (jti sub : ℕ) (exp : Option ℕ) (w w₁ : State)
      → w₁.seen ≡ w.seen
      → IsSpent jti w.seen.tokens
      → Refused (EndsSessions jti sub w) (refresh_claims out (some jti) (some sub) exp w₁)
  unfolding refresh_claims find_token
  refresh_claims-Post jti sub none w w₁ same spent = λ c. cc c
  refresh_claims-Post jti sub (some exp) w w₁ same spent =
      let ask = find_token out jti in
      continue-Post
        (λ found w₂. (found ≡ get_refresh_token_by_jti jti w.seen.tokens) × (w₂.seen ≡ w.seen)) _ _
        (ask w₁) _
        (Post-mono _ _ _ (EndsSessions jti sub w) (ask w₁) (query-Post _ w₁)
          (λ found w₂ q.
            (q.0 ∙ ap (λ (db : Database). get_refresh_token_by_jti jti db.tokens) same, q.1 ∙ same))
          (λ e w₂ q c. cc (q, c)))
        (λ found w₂ q.
          refresh_found-Post jti sub exp found w w₂ q.0
            (subst (λ (db : Database). IsSpent jti db.tokens) (sym q.1) spent))

  -- A refresh token of which no row is left that is not revoked is never exchanged for new tokens.
  -- If the refusal names an invalid session and the token has a row, then no row of its user is
  -- left in what is saved.
  pub refresh-Refused :
      (token : T) (w : State) {claims : Claims} {jti sub : ℕ}
      → out.decode (now out w) token ≡ some claims
      → claims.jti ≡ some jti
      → claims.sub ≡ some sub
      → IsSpent jti w.seen.tokens
      → Post (λ _ _. ⊥) (EndsSessions jti sub w) (refresh_access_token_service out token w)
  unfolding refresh_access_token_service
  refresh-Refused token w {claims} {jti} {sub} decoded has_jti has_sub spent =
      continue-Post (λ c w₁. (c ≡ claims) × (w₁.seen ≡ w.seen)) _ _
        (decode_token out token refresh w) _
        (Post-mono _ _ _ (EndsSessions jti sub w) (decode_token out token refresh w)
          (decode_token-Post out token refresh w) (λ c w₁ q. (cc (q.1, decoded), q.0.seen))
          (λ e w₁ q c. cc (q.0, c)))
        (λ c w₁ q.
          rw (ap (λ (x : Claims). x.jti) q.0, has_jti, ap (λ (x : Claims). x.sub) q.0, has_sub)
            (refresh_claims-Post jti sub c.exp w w₁ q.1 spent))
