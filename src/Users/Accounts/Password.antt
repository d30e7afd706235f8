-- ===== src/Users/Accounts/Password.antt =====
-- About a password that its owner changes, or resets with a mailed token, as a whole request.
use anime_app_backend.Prelude.{
  ℕ, ◌≡◌, refl, sym, ◌∙◌, ap, Bool, true, false, Option, none, some, String, if◌then◌else◌,
}
use anime_app_backend.Exec.{Result, ok, err}
use anime_app_backend.Exec.Post.{Post, Post-mono, continue-Post}
use anime_app_backend.Security.State.{
  Exc, User, Redis, Database, Outside, State, Job, get_user_by_id, tick, in_request, end_request,
  command,
}
use anime_app_backend.Security.State.Steps.{Untouched, Commanded, command-Commanded}
use anime_app_backend.Security.Tokens.Frame.{SameRows}
use anime_app_backend.Security.Service.{find_user_by_id}
use anime_app_backend.Users.Keys.{read, remove, delete}
use anime_app_backend.Users.Mailing.{reset, by_token, by_user}
use anime_app_backend.Users.Mailing.Once.{redeem-Post}
use anime_app_backend.Users.Service.{
  change_password, reset_password, reset_password_service_via_email,
}
use anime_app_backend.Users.Service.Erase.{find_user_by_id-Queried, get_user_by_id-id}
use anime_app_backend.Users.Service.Passwords.{HasChanged, change_password-HasChanged}
use anime_app_backend.Users.Accounts.{update_password, update_user_password_service}

module _ {T : Type 0} (out : Outside T) where
  -- The database of a user whose row was found, with the new password.
  abbrev pub IsChanged : ℕ → String → Database → Database → Type 0
  IsChanged id password db db' =
      (user : User) × (get_user_by_id id db.users ≡ some user) × HasChanged out user password db'

  -- What holds of the rows that a job returns with holds of what its request saves.
  request-Post :
      (P : Database → Type 0) (job : Job (Unit {0})) (w : State)
      → Post (λ _ w'. P w'.seen × (w'.saved ≡ w.saved)) (λ _ w'. w'.saved ≡ w.saved) (job w)
      → Post (λ _ w'. P w'.saved) (λ _ w'. w'.saved ≡ w.saved) (in_request out job w)
  unfolding in_request
  request-Post P job w p = ended (job w) p
    where
      ended :
          (end : Result Exc (Unit {0}) × State)
          → Post (λ _ w'. P w'.seen × (w'.saved ≡ w.saved)) (λ _ w'. w'.saved ≡ w.saved) end
          → Post (λ _ w'. P w'.saved) (λ _ w'. w'.saved ≡ w.saved) (end_request out end)
      ended (ok u, w₁) p = closed (out.database_fails w₁.step)
        where
          closed :
              (fails : Bool)
              → Post
                  (λ _ w'. P w'.saved)
                  (λ _ w'. w'.saved ≡ w.saved)
                  (if fails
                    then (err Exc.database_error, record (tick w₁) { seen = w₁.saved })
                    else (ok u, record (tick w₁) { saved = w₁.seen }))
          closed true = p.1
          closed false = p.0
      ended (err e, w₁) p = p

  -- A change for the user that was found, in a session that began with other rows.
  found-Changes :
      (between : ℕ → Job (Unit {0})) (id : ℕ) (user : User) (password : String) (w w₁ : State)
      → ((id : ℕ) (w : State)
          → Post
              (λ _ w'. (w'.seen ≡ w.seen) × (w'.saved ≡ w.saved))
              (λ _ w'. w'.saved ≡ w.saved)
              (between id w))
      → get_user_by_id id w.seen.users ≡ some user
      → w₁.seen ≡ w.seen
      → w₁.saved ≡ w.saved
      → Post
          (λ _ w'. HasChanged out user password w'.seen × (w'.saved ≡ w.saved))
          (λ _ w'. w'.saved ≡ w.saved)
          (change_password out between user password w₁)
  found-Changes between id user password w w₁ side found seen saved =
      Post-mono (λ _ w'. HasChanged out user password w'.seen × (w'.saved ≡ w₁.saved)) _
        (λ _ w'. w'.saved ≡ w₁.saved) _ (change_password out between user password w₁)
        (change_password-HasChanged out between user password w₁ side (
          ap (λ (db : Database). get_user_by_id user.id db.users) seen
          ∙ ap (λ k. get_user_by_id k w.seen.users) (get_user_by_id-id id w.seen.users found)
          ∙ found))
        (λ _ w' c. (c.0, c.1 ∙ saved)) (λ _ w' c. c ∙ saved)

  update_password-Post :
      (password old : String) (id : ℕ) (found : Option User) (w w₁ : State)
      → found ≡ get_user_by_id id w.seen.users
      → w₁.seen ≡ w.seen
      → w₁.saved ≡ w.saved
      → Post
          (λ _ w'.
            ((user : User) × (get_user_by_id id w.seen.users ≡ some user)
              × (out.check_password old user.password ≡ true)
              × HasChanged out user password w'.seen)
            × (w'.saved ≡ w.saved))
          (λ _ w'. w'.saved ≡ w.saved)
          (update_password out password old found w₁)
  unfolding update_password
  update_password-Post password old id none w w₁ e seen saved = saved
  update_password-Post password old id (some user) w w₁ e seen saved =
      checked (out.check_password old user.password) refl
    where
      checked :
          (b : Bool)
          → out.check_password old user.password ≡ b
          → Post
              (λ _ w'.
                ((user : User) × (get_user_by_id id w.seen.users ≡ some user)
                  × (out.check_password old user.password ≡ true)
                  × HasChanged out user password w'.seen)
                × (w'.saved ≡ w.saved))
              (λ _ w'. w'.saved ≡ w.saved)
              (if b
                then change_password out (λ id w. (ok tt, w)) user password w₁
                else (err Exc.authentication, w₁))
      checked true right =
          Post-mono (λ _ w'. HasChanged out user password w'.seen × (w'.saved ≡ w.saved)) _
            (λ _ w'. w'.saved ≡ w.saved) _
            (change_password out (λ id w. (ok tt, w)) user password w₁)
            (found-Changes (λ id w. (ok tt, w)) id user password w w₁ (λ _ _. (refl, refl)) (sym e)
              seen saved)
            (λ _ w' c. ((user, sym e, right, c.0), c.1)) (λ _ _ c. c)
      checked false wrong = saved

  -- The change of a password saves only if the old password is that of the user. Then the user's
  -- row has the hash of the new one and is otherwise as before, and the user has no refresh token
  -- left. A request that raises saves nothing.
  pub update_user_password-Changes :
      (id : ℕ) (password old : String) (w : State)
      → Post
          (λ _ w'.
            (user : User) × (get_user_by_id id w.seen.users ≡ some user)
            × (out.check_password old user.password ≡ true)
            × HasChanged out user password w'.saved)
          (λ _ w'. w'.saved ≡ w.saved)
          (in_request out (update_user_password_service out id password old) w)
  unfolding update_user_password_service
  update_user_password-Changes id password old w =
      request-Post
        (λ db.
          (user : User) × (get_user_by_id id w.seen.users ≡ some user)
          × (out.check_password old user.password ≡ true)
          × HasChanged out user password db)
        (update_user_password_service out id password old) w
        (continue-Post (λ found w₁. (found ≡ get_user_by_id id w.seen.users) × SameRows w w₁) _ _
          (find_user_by_id out id w) _
          (Post-mono _ _ (λ _ w₁. SameRows w w₁) _ (find_user_by_id out id w)
            (find_user_by_id-Queried out id w) (λ _ _ q. q) (λ _ _ s. s.saved))
          (λ found w₁ q. update_password-Post password old id found w w₁ q.0 q.1.seen q.1.saved))

  delete-Leaves :
      (id : ℕ) (w : State)
      → Post
          (λ _ w'. (w'.seen ≡ w.seen) × (w'.saved ≡ w.saved))
          (λ _ w'. w'.saved ≡ w.saved)
          (delete out (by_user reset id) w)
  unfolding delete
  delete-Leaves id w =
      let f : Redis → Unit {0} × Redis =
        λ (r : Redis). (tt, record r { entries = remove (by_user reset id) r.entries }) in
      Post-mono (Commanded out f w) _ (λ e w'. (e ≡ Exc.redis_error) × Untouched w w') _
        (command out f w) (command-Commanded out f w) (λ _ _ c. (c.seen, c.saved))
        (λ _ _ c. c.1.saved)

  reset_password-Post :
      (password : String) (id : ℕ) (found : Option User) (w w₁ : State)
      → found ≡ get_user_by_id id w.seen.users
      → w₁.seen ≡ w.seen
      → w₁.saved ≡ w.saved
      → Post
          (λ _ w'. IsChanged id password w.seen w'.seen × (w'.saved ≡ w.saved))
          (λ _ w'. w'.saved ≡ w.saved)
          (reset_password out password found w₁)
  unfolding reset_password
  reset_password-Post password id none w w₁ e seen saved = saved
  reset_password-Post password id (some user) w w₁ e seen saved =
      Post-mono (λ _ w'. HasChanged out user password w'.seen × (w'.saved ≡ w.saved)) _
        (λ _ w'. w'.saved ≡ w.saved) _
        (change_password out (λ id. delete out (by_user reset id)) user password w₁)
        (found-Changes (λ id. delete out (by_user reset id)) id user password w w₁ delete-Leaves
          (sym e) seen saved)
        (λ _ w' c. ((user, sym e, c.0), c.1)) (λ _ _ c. c)

  -- The reset of a password saves only if Redis holds the token, not yet expired. Then the row of
  -- the user that it stands for has the hash of the new password and is otherwise as before, and
  -- the user has no refresh token left. A request that raises saves nothing.
  pub reset_password-Changes :
      (token : ℕ) (password : String) (w : State)
      → Post
          (λ _ w'.
            (id : ℕ) × (read (out.utc w.step) (by_token reset token) w.redis.entries ≡ some id)
            × IsChanged id password w.seen w'.saved)
          (λ _ w'. w'.saved ≡ w.saved)
          (in_request out (reset_password_service_via_email out token password) w)
  unfolding reset_password_service_via_email
  reset_password-Changes token password w =
      request-Post
        (λ db.
          (id : ℕ) × (read (out.utc w.step) (by_token reset token) w.redis.entries ≡ some id)
          × IsChanged id password w.seen db)
        (reset_password_service_via_email out token password) w
        (redeem-Post out reset _ _ _ token w
          (λ id w₁ live seen saved.
            continue-Post (λ found w₂. (found ≡ get_user_by_id id w₁.seen.users) × SameRows w₁ w₂) _
              _ (find_user_by_id out id w₁) _
              (Post-mono _ _ (λ _ w₂. SameRows w₁ w₂) _ (find_user_by_id out id w₁)
                (find_user_by_id-Queried out id w₁) (λ _ _ q. q) (λ _ _ s. s.saved ∙ saved))
              (λ found w₂ q.
                Post-mono (λ _ w'. IsChanged id password w.seen w'.seen × (w'.saved ≡ w.saved)) _
                  (λ _ w'. w'.saved ≡ w.saved) _ (reset_password out password found w₂)
                  (reset_password-Post password id found w w₂
                    (q.0 ∙ ap (λ (db : Database). get_user_by_id id db.users) seen)
                    (q.1.seen ∙ seen) (q.1.saved ∙ saved))
                  (λ _ w' c. ((id, live, c.0), c.1)) (λ _ _ c. c)))
          (λ e w₁ saved. saved))
