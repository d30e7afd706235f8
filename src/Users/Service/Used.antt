-- ===== src/Users/Service/Used.antt =====
-- About a second use of the token of a mail.
use anime_app_backend.Prelude.{ℕ, ◌≡◌, ◌∙◌, ap, true, ◌⊎◌, Option, none, some, String, arith}
use anime_app_backend.Exec.{Result, continue}
use anime_app_backend.Exec.Post.{Post, Post-mono, continue-Post}
use anime_app_backend.Security.State.{
  Exc, not_found, redis_error, User, Redis, Database, Outside, State, Job, Name, query, command,
}
use anime_app_backend.Security.State.Steps.{
  Untouched, Queried, query-Queried, Commanded, command-Commanded,
}
use anime_app_backend.Security.Tokens.Frame.{SameRows, revoke_access_to_all_tokens-Leaves}
use anime_app_backend.Security.Tokens.{revoke_access_to_all_tokens}
use anime_app_backend.Security.Service.{find_user_by_id}
use anime_app_backend.Users.Rows.{flush_user, update_user}
use anime_app_backend.Users.Keys.{read, remove, delete}
use anime_app_backend.Users.Mailing.{reset, verification, by_token, by_user}
use anime_app_backend.Users.Mailing.Once.{HasNo, remove-HasNo, redeem-Refused, redeem-HasNo}
use anime_app_backend.Users.Service.{
  delete_tokens_of, change_password, verify, verify_user_email_service, reset_password,
  reset_password_service_via_email,
}

module _ {T : Type 0} (out : Outside T) (name : Name) where
  -- A part of a job that brings no entry for the key.
  abbrev pub StaysAway : {A : Type 0} → Result Exc A × State → Type 0
  StaysAway end = Post (λ _ w'. HasNo name w') (λ _ _. Unit {0}) end

  query-StaysAway :
      {A : Type 0} (f : Database → A × Database) (w : State)
      → HasNo name w
      → StaysAway (query out f w)
  query-StaysAway f w h =
      Post-mono (Queried out f w) _ (λ e w'. (e ≡ Exc.database_error) × Untouched w w') _
        (query out f w) (query-Queried out f w)
        (λ _ w' q now. ap (λ (r : Redis). read now name r.entries) q.redis ∙ h now) (λ _ _ _. tt)

  delete-StaysAway : (other : Name) (w : State) → HasNo name w → StaysAway (delete out other w)
  unfolding delete
  delete-StaysAway other w h =
      let f : Redis → Unit {0} × Redis =
        λ (r : Redis). (tt, record r { entries = remove other r.entries }) in
      Post-mono (Commanded out f w) _ (λ e w'. (e ≡ redis_error) × Untouched w w') _
        (command out f w) (command-Commanded out f w)
        (λ _ w' c now.
          ap (λ (r : Redis). read now name r.entries) c.redis
          ∙ remove-HasNo name other w.redis.entries h now)
        (λ _ _ _. tt)

  update_user-StaysAway :
      (user : User) (w : State) → HasNo name w → StaysAway (update_user out user w)
  unfolding flush_user
  update_user-StaysAway user w h = ground arith

  find_user_by_id-StaysAway :
      (id : ℕ) (w : State) → HasNo name w → StaysAway (find_user_by_id out id w)
  unfolding find_user_by_id
  find_user_by_id-StaysAway id w h = query-StaysAway _ w h

  revoke-StaysAway :
      (id : ℕ) (w : State) → HasNo name w → StaysAway (revoke_access_to_all_tokens out id w)
  revoke-StaysAway id w h =
      Post-mono (λ _ w'. SameRows w w') _ (λ _ w'. SameRows w w') _
        (revoke_access_to_all_tokens out id w) (revoke_access_to_all_tokens-Leaves out id w)
        (λ _ w' s now. ap (read now name) s.entries ∙ h now) (λ _ _ _. tt)

  -- Two parts, one after the other.
  continue-StaysAway :
      {A B : Type 0} (end : Result Exc A × State) (rest : A → Job B)
      → StaysAway end
      → ((a : A) (w : State) → HasNo name w → StaysAway (rest a w))
      → StaysAway (continue end rest)
  continue-StaysAway end rest h k = continue-Post (λ _ w'. HasNo name w') _ _ end rest h k

  change_password-StaysAway :
      (user : User) (password : String) (w : State)
      → HasNo name w
      → StaysAway (change_password out (λ id. delete out (by_user reset id)) user password w)
  unfolding change_password delete_tokens_of
  change_password-StaysAway user password w h =
      let hashed : User = record user { password = out.hash_password w.step password } in
      continue-StaysAway (update_user out hashed w) _ (update_user-StaysAway hashed w h) (λ _ w₁ h₁.
        continue-StaysAway (delete out (by_user reset user.id) w₁) _ (delete-StaysAway _ w₁ h₁)
          (λ _ w₂ h₂.
            continue-StaysAway (query out _ w₂) _ (query-StaysAway _ w₂ h₂)
              (λ _ w₃ h₃. revoke-StaysAway user.id w₃ h₃)))

  reset_password-StaysAway :
      (password : String) (found : Option User) (w : State)
      → HasNo name w
      → StaysAway (reset_password out password found w)
  unfolding reset_password
  reset_password-StaysAway password none w h = tt
  reset_password-StaysAway password (some user) w h = change_password-StaysAway user password w h

  verify-StaysAway :
      (found : Option User) (w : State) → HasNo name w → StaysAway (verify out found w)
  unfolding verify
  verify-StaysAway none w h = tt
  verify-StaysAway (some user) w h =
      continue-StaysAway (update_user out (record user { is_verified = true }) w) _
        (update_user-StaysAway (record user { is_verified = true }) w h)
        (λ _ w₁ h₁. delete-StaysAway _ w₁ h₁)

module _ {T : Type 0} (out : Outside T) where
  -- The second use finds no token, and changes no row.
  abbrev pub IsSpent : State → Exc → State → Type 0
  IsSpent w e w' = ((e ≡ not_found) ⊎ (e ≡ redis_error)) × (w'.seen ≡ w.seen) × (w'.saved ≡ w.saved)

  -- After a reset of the password that returns, the next use of the token raises, as not found
  -- unless Redis fails, and changes no row, whatever the second password is.
  pub reset_password-Once :
      (token : ℕ) (password second : String) (w : State)
      → Post
          (λ _ w'.
            Post
              (λ _ _. ⊥)
              (λ e w''. IsSpent w' e w'')
              (reset_password_service_via_email out token second w'))
          (λ _ _. Unit {0})
          (reset_password_service_via_email out token password w)
  unfolding reset_password_service_via_email
  reset_password-Once token password second w =
      let name = by_token reset token in
      Post-mono (λ _ w'. HasNo name w') _ (λ _ _. Unit {0}) _
        (reset_password_service_via_email out token password w)
        (redeem-HasNo out reset _ token w (λ id w₁ h.
          continue-StaysAway out name (find_user_by_id out id w₁) _
            (find_user_by_id-StaysAway out name id w₁ h)
            (λ found w₂ h₂. reset_password-StaysAway out name password found w₂ h₂)))
        (λ _ w' h. redeem-Refused out reset _ token w' h) (λ _ _ _. tt)

  -- After a verification of an address that returns, the next use of the token raises, as not
  -- found unless Redis fails, and changes no row.
  pub verify_user_email-Once :
      (token : ℕ) (w : State)
      → Post
          (λ _ w'.
            Post (λ _ _. ⊥) (λ e w''. IsSpent w' e w'') (verify_user_email_service out token w'))
          (λ _ _. Unit {0})
          (verify_user_email_service out token w)
  unfolding verify_user_email_service
  verify_user_email-Once token w =
      let name = by_token verification token in
      Post-mono (λ _ w'. HasNo name w') _ (λ _ _. Unit {0}) _
        (verify_user_email_service out token w)
        (redeem-HasNo out verification _ token w (λ id w₁ h.
          continue-StaysAway out name (find_user_by_id out id w₁) _
            (find_user_by_id-StaysAway out name id w₁ h)
            (λ found w₂ h₂. verify-StaysAway out name found w₂ h₂)))
        (λ _ w' h. redeem-Refused out verification _ token w' h) (λ _ _ _. tt)
