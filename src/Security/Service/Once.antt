-- ===== src/Security/Service/Once.antt =====
-- What an exchange of a refresh token leaves behind.
use anime_app_backend.Prelude.{
  ℕ, ◌≡◌, ◌≢◌, refl, sym, ◌∙◌, ap, subst, Bool, true, false, Option, none, some, ◌∷◌, ◌==◌, arith,
  if◌then◌else◌,
}
use anime_app_backend.Exec.{Result, continue}
use anime_app_backend.Exec.Post.{Post, Post-mono, continue-Post}
use anime_app_backend.Security.State.{
  Exc, RefreshToken, Claims, refresh, Database, Outside, State, query,
}
use anime_app_backend.Security.Tokens.{
  now, decode_token, generate_access_token, generate_refresh_token,
}
use anime_app_backend.Security.Tokens.Frame.{
  SameRows, decode_token-Post, generate_access_token-Leaves, generate_refresh_token-Post,
}
use anime_app_backend.Security.Service.{
  find_token, revoke_one, new_row, create_refresh_token, issue, reused, rotated, refresh_found,
  refresh_claims, refresh_access_token_service,
}
use anime_app_backend.Security.Service.Rotation.{
  IsSpent, query-Post, revoke_refresh_token-IsSpent, reused-Post,
}

module _ {T : Type 0} (out : Outside T) (jti : ℕ)
    -- PyJWT reads back the jti of the claims that it encoded.
    (keeps_jti : (at : ℕ) (c d : Claims) → out.decode at (out.encode c) ≡ some d → d.jti ≡ c.jti)
    -- uuid4 never returns the jti again.
    (is_new : (n : ℕ) → out.uuid4 n ≢ jti) where
  abbrev Spends : {A : Type 0} → Result Exc A × State → Type 0
  Spends end = Post (λ _ w'. IsSpent jti w'.seen.tokens) (λ _ _. Unit {0}) end

  new_row_jti :
      (claims : Claims) (row : RefreshToken)
      → new_row out claims ≡ some row
      → claims.jti ≡ some row.jti
  unfolding new_row
  new_row_jti claims row h = ground arith

  create_refresh_token-Spends :
      (row : Option RefreshToken) (w : State)
      → ((r : RefreshToken) → row ≡ some r → r.jti ≢ jti)
      → IsSpent jti w.seen.tokens
      → Spends (create_refresh_token out row w)
  unfolding create_refresh_token
  create_refresh_token-Spends none w other h = tt
  create_refresh_token-Spends (some row) w other h =
      let add : Database → Unit {0} × Database =
        λ (db : Database). (tt, record db { tokens = row ∷ db.tokens }) in
      Post-mono _ _ _ _ (query out add w) (query-Post out add w)
        (λ _ w₁ q.
          subst (λ (db : Database). IsSpent jti db.tokens) (sym q.1)
            (ground (arith, other row refl, h)))
        (λ _ _ _. tt)

  issue-Spends :
      (user_id : ℕ) (expiry : Option ℕ) (w : State)
      → IsSpent jti w.seen.tokens
      → Spends (issue out user_id expiry w)
  unfolding issue
  issue-Spends user_id expiry w h =
      let make = generate_refresh_token out user_id expiry in
      continue-Post
        (λ token w₁.
          SameRows w w₁ × (c : Claims) × (token ≡ out.encode c) × (c.jti ≡ some (out.uuid4 w.step)))
        _ _ (make w) _
        (Post-mono _ _ _ (λ _ _. Unit {0}) (make w)
          (generate_refresh_token-Post out user_id expiry w) (λ _ _ q. q) (λ _ _ _. tt))
        (λ token w₁ q.
          let (same, c, made, fresh) = q in
          continue-Post (λ d w₂. SameRows w₁ w₂ × (out.decode (now out w₁) token ≡ some d)) _ _
            (decode_token out token refresh w₁) _
            (Post-mono _ _ _ (λ _ _. Unit {0}) (decode_token out token refresh w₁)
              (decode_token-Post out token refresh w₁) (λ _ _ x. x) (λ _ _ _. tt))
            (λ d w₂ x.
              let has : d.jti ≡ some (out.uuid4 w.step) =
                keeps_jti (now out w₁) c d
                  (ap (λ (t : T). out.decode (now out w₁) t) (sym made) ∙ x.1)
                ∙ fresh in
              continue-Post (λ _ w₃. IsSpent jti w₃.seen.tokens) _ _
                (create_refresh_token out (new_row out d) w₂) _
                (create_refresh_token-Spends (new_row out d) w₂
                  (λ r made_row e. is_new w.step (cc (has, new_row_jti d r made_row, e)))
                  (subst (λ (db : Database). IsSpent jti db.tokens) (sym (x.0.seen ∙ same.seen)) h))
                (λ _ w₃ h₃.
                  continue-Post (λ _ w₄. SameRows w₃ w₄) _ _ (generate_access_token out user_id w₃)
                    _
                    (Post-mono _ _ _ (λ _ _. Unit {0}) (generate_access_token out user_id w₃)
                      (generate_access_token-Leaves out user_id w₃) (λ _ _ x. x) (λ _ _ _. tt))
                    (λ _ w₄ s. subst (λ (db : Database). IsSpent jti db.tokens) (sym s.seen) h₃))))

  rotated-Spends :
      (sub exp n : ℕ) (row : RefreshToken) (w : State)
      → IsSpent jti w.seen.tokens
      → Spends (rotated out sub jti exp row n w)
  unfolding rotated find_token
  rotated-Spends sub exp n row w h = go (n == 1)
    where
      go :
          (b : Bool)
          → Spends (
              if b
              then issue out row.user_id (some exp) w
              else continue (find_token out jti w) (λ fresh. reused out sub fresh))
      go true = issue-Spends row.user_id (some exp) w h
      go false =
          continue-Post (λ _ _. Unit {0}) _ _ (find_token out jti w) _
            (Post-mono _ _ _ (λ _ _. Unit {0}) (find_token out jti w) (query-Post out _ w)
              (λ _ _ _. tt) (λ _ _ _. tt))
            (λ fresh w₁ _.
              Post-mono _ _ _ _ (reused out sub fresh w₁) (reused-Post out jti sub fresh w₁ w₁)
                (λ _ _ x. absurd x) (λ _ _ _. tt))

  refresh_found-Spends :
      (sub exp : ℕ) (found : Option RefreshToken) (w : State)
      → Spends (refresh_found out sub jti exp found w)
  unfolding refresh_found revoke_one
  refresh_found-Spends sub exp none w = tt
  refresh_found-Spends sub exp (some row) w =
      continue-Post (λ _ w₁. IsSpent jti w₁.seen.tokens) _ _ (revoke_one out jti w) _
        (Post-mono _ _ _ (λ _ _. Unit {0}) (revoke_one out jti w) (query-Post out _ w)
          (λ _ w₁ q.
            subst (λ (db : Database). IsSpent jti db.tokens) (sym q.1)
              (revoke_refresh_token-IsSpent (now out w) jti w.seen.tokens))
          (λ _ _ _. tt))
        (λ n w₁ h. rotated-Spends sub exp n row w₁ h)

  refresh_claims-Spends :
      (sub exp : Option ℕ) (w : State) → Spends (refresh_claims out (some jti) sub exp w)
  unfolding refresh_claims find_token
  refresh_claims-Spends none exp w = tt
  refresh_claims-Spends (some sub) none w = tt
  refresh_claims-Spends (some sub) (some exp) w =
      continue-Post (λ _ _. Unit {0}) _ _ (find_token out jti w) _
        (Post-mono _ _ _ (λ _ _. Unit {0}) (find_token out jti w) (query-Post out _ w) (λ _ _ _. tt)
          (λ _ _ _. tt))
        (λ found w₁ _. refresh_found-Spends sub exp found w₁)

  -- After a refresh that returned new tokens no row with the jti of the old one is left that is not
  -- revoked, if PyJWT reads back the jti that it encodes and uuid4 never returns that jti again.
  pub refresh-Spends :
      (token : T) (w : State) {claims : Claims}
      → out.decode (now out w) token ≡ some claims
      → claims.jti ≡ some jti
      → Post
          (λ _ w'. IsSpent jti w'.seen.tokens)
          (λ _ _. Unit {0})
          (refresh_access_token_service out token w)
  unfolding refresh_access_token_service
  refresh-Spends token w {claims} decoded has_jti =
      continue-Post (λ c _. c ≡ claims) _ _ (decode_token out token refresh w) _
        (Post-mono _ _ _ (λ _ _. Unit {0}) (decode_token out token refresh w)
          (decode_token-Post out token refresh w) (λ c _ q. cc (q.1, decoded)) (λ _ _ _. tt))
        (λ c w₁ q.
          rw (ap (λ (x : Claims). x.jti) q, has_jti) (refresh_claims-Spends c.sub c.exp w₁))
