-- ===== src/Users/Mailing/Cooldown.antt =====
-- About mails that are asked for too soon.
use anime_app_backend.Prelude.{
  ℕ, ◌+◌, ◌*◌, ◌<◌, ◌≡◌, refl, ◌∙◌, ap, subst, Bool, true, false, Option, none, some, String, List,
  arith, ◌⊎◌,
}
use anime_app_backend.Exec.{Result, ok, continue}
use anime_app_backend.Exec.Post.{Post, Post-mono, continue-Post, recover-Post}
use anime_app_backend.Security.State.{
  Exc, redis_error, too_many_requests, Name, Entry, Redis, Mail, User, Outside, State, Job, command,
}
use anime_app_backend.Security.State.Steps.{Untouched, Commanded, command-Commanded}
use anime_app_backend.Users.Keys.{
  same_name, read, remove, write, get, delete, setex, set_nx, enqueue,
}
use anime_app_backend.Users.Mailing.{
  Purpose, verification, reset, mail, by_token, by_user, cooldown, drop_token, drop_previous,
  send_token, replace_token, release_failed, fail_email_request, unless_unsent, request_acquired,
  request_mail,
}
use anime_app_backend.Users.Mailing.Once.{read-remove, same_name_refl}

-- Until a time, the key is there.
abbrev pub Holds : Name → ℕ → State → Type 0
Holds name until w = (now : ℕ) → now < until → read now name w.redis.entries ≡ some 1

read-write :
    (now t seconds content : ℕ) (name other : Name) (es : List Entry)
    → same_name other name ≡ false
    → read now name (write t other seconds content es) ≡ read now name es
unfolding read
read-write now t seconds content name other es h = ground (arith, read-remove now name other es)

read-write_same :
    (now t seconds content : ℕ) (name : Name) (es : List Entry)
    → now < t + seconds * 1_000_000
    → read now name (write t name seconds content es) ≡ some content
unfolding read
read-write_same now t seconds content name es h = ground (arith, same_name_refl name)

-- The key of the cooldown is no other key of a request.
apart_token :
    (purpose : Purpose) (token user_id : ℕ)
    → same_name (by_token purpose token) (cooldown purpose user_id) ≡ false
apart_token verification token user_id = refl
apart_token reset token user_id = refl

apart_user :
    (purpose : Purpose) (id user_id : ℕ)
    → same_name (by_user purpose id) (cooldown purpose user_id) ≡ false
apart_user verification id user_id = refl
apart_user reset id user_id = refl

module _ {T : Type 0} (out : Outside T) (name : Name) (until : ℕ) where
  -- A part of a job that leaves the key there, if it returns.
  abbrev Kept : {A : Type 0} → Result Exc A × State → Type 0
  Kept end = Post (λ _ w'. Holds name until w') (λ _ _. Unit {0}) end

  command-Kept :
      {A : Type 0} (f : Redis → A × Redis) (w : State)
      → ((now : ℕ) → read now name (f w.redis).1.entries ≡ read now name w.redis.entries)
      → Holds name until w
      → Kept (command out f w)
  command-Kept f w same h =
      Post-mono (Commanded out f w) _ (λ e w'. (e ≡ redis_error) × Untouched w w') _
        (command out f w) (command-Commanded out f w)
        (λ _ w' c now soon.
          ap (λ (r : Redis). read now name r.entries) c.redis ∙ same now ∙ h now soon)
        (λ _ _ _. tt)

  delete-Kept :
      (other : Name) (w : State)
      → same_name other name ≡ false
      → Holds name until w
      → Kept (delete out other w)
  unfolding delete
  delete-Kept other w apart h =
      command-Kept (λ (r : Redis). (tt, record r { entries = remove other r.entries })) w
        (λ now. ground (arith, read-remove now name other w.redis.entries)) h

  get-Kept : (other : Name) (w : State) → Holds name until w → Kept (get out other w)
  unfolding get
  get-Kept other w h =
      command-Kept (λ (r : Redis). (read (out.utc w.step) other r.entries, r)) w (λ _. refl) h

  setex-Kept :
      (other : Name) (seconds content : ℕ) (w : State)
      → same_name other name ≡ false
      → Holds name until w
      → Kept (setex out other seconds content w)
  unfolding setex
  setex-Kept other seconds content w apart h =
      command-Kept
        (λ (r : Redis).
          (tt, record r { entries = write (out.utc w.step) other seconds content r.entries }))
        w (λ now. read-write now (out.utc w.step) seconds content name other w.redis.entries apart)
        h

  enqueue-Kept : (mail : Mail) (w : State) → Holds name until w → Kept (enqueue out mail w)
  unfolding enqueue
  enqueue-Kept mail w h = ground arith

  continue-Kept :
      {A B : Type 0} (end : Result Exc A × State) (rest : A → Job B)
      → Kept end
      → ((a : A) (w : State) → Holds name until w → Kept (rest a w))
      → Kept (continue end rest)
  continue-Kept end rest h k = continue-Post (λ _ w'. Holds name until w') _ _ end rest h k

set_nx-Writes :
    {T : Type 0} (out : Outside T) (name : Name) (seconds : ℕ) (w : State)
    → Post
        (λ acquired w₁.
          acquired ≡ true
          → w₁.redis.entries ≡ write (out.utc w.step) name seconds 1 w.redis.entries)
        (λ _ _. Unit {0})
        (set_nx out name seconds w)
unfolding set_nx command
set_nx-Writes out name seconds w = ground arith

module _ {T : Type 0} (out : Outside T) (purpose : Purpose) where
  replace_token-Kept :
      (user_id until : ℕ) (email : String) (w : State)
      → Holds (cooldown purpose user_id) until w
      → Kept out (cooldown purpose user_id) until (replace_token out purpose user_id email w)
  unfolding replace_token drop_previous drop_token send_token
  replace_token-Kept user_id until email w h =
      let name = cooldown purpose user_id in
      continue-Kept out name until (drop_previous out purpose user_id w) _
        (continue-Kept out name until (get out (by_user purpose user_id) w) _
          (get-Kept out name until (by_user purpose user_id) w h)
          (λ previous w₁ h₁. dropped previous w₁ h₁))
        (λ _ w₁ h₁.
          let token = out.token_urlsafe w₁.step in
          continue-Kept out name until (setex out (by_token purpose token) 900 user_id w₁) _
            (setex-Kept out name until (by_token purpose token) 900 user_id w₁
              (apart_token purpose token user_id) h₁)
            (λ _ w₂ h₂.
              continue-Kept out name until (setex out (by_user purpose user_id) 900 token w₂) _
                (setex-Kept out name until (by_user purpose user_id) 900 token w₂
                  (apart_user purpose user_id user_id) h₂)
                (λ _ w₃ h₃. enqueue-Kept out name until (mail purpose email token) w₃ h₃)))
    where
      dropped :
          (previous : Option ℕ) (w₁ : State)
          → Holds (cooldown purpose user_id) until w₁
          → Kept out (cooldown purpose user_id) until (drop_token out purpose previous w₁)
      dropped none w₁ h₁ = h₁
      dropped (some token) w₁ h₁ =
          delete-Kept out (cooldown purpose user_id) until (by_token purpose token) w₁
            (apart_token purpose token user_id) h₁

  unless_unsent-Raises :
      (user_id : ℕ) (e : Exc) (w : State)
      → Post (λ _ _. ⊥) (λ _ _. Unit {0}) (unless_unsent out purpose user_id e w)
  unfolding unless_unsent fail_email_request release_failed
  unless_unsent-Raises user_id e w = ground arith

  -- A request that returns leaves the key there for 300 seconds.
  request_mail-Cools :
      (user : User) (w : State)
      → Post
          (λ _ w'. Holds (cooldown purpose user.id) (out.utc w.step + 300_000_000) w')
          (λ _ _. Unit {0})
          (request_mail out purpose user w)
  unfolding request_mail request_acquired set_nx
  request_mail-Cools user w =
      let name = cooldown purpose user.id in
      let until = out.utc w.step + 300_000_000 in
      continue-Post (λ acquired w₁. acquired ≡ true → Holds name until w₁) _ _
        (set_nx out name 300 w) _
        (Post-mono
          (λ acquired w₁.
            acquired ≡ true → w₁.redis.entries ≡ write (out.utc w.step) name 300 1 w.redis.entries)
          _ (λ _ _. Unit {0}) _ (set_nx out name 300 w) (set_nx-Writes out name 300 w)
          (λ _ w₁ h e now soon.
            ap (read now name) (h e)
            ∙ read-write_same now (out.utc w.step) 300 1 name w.redis.entries soon)
          (λ _ _ _. tt))
        (λ acquired w₁ h. asked acquired w₁ h)
    where
      asked :
          (acquired : Bool) (w₁ : State)
          → (acquired ≡ true → Holds (cooldown purpose user.id) (out.utc w.step + 300_000_000) w₁)
          → Post
              (λ _ w'. Holds (cooldown purpose user.id) (out.utc w.step + 300_000_000) w')
              (λ _ _. Unit {0})
              (request_acquired out purpose user acquired w₁)
      asked false w₁ h = tt
      asked true w₁ h =
          let name = cooldown purpose user.id in
          let until = out.utc w.step + 300_000_000 in
          recover-Post (λ _ w'. Holds name until w') (λ _ _. Unit {0}) _
            (replace_token out purpose user.id user.email w₁) (unless_unsent out purpose user.id)
            (replace_token-Kept user.id until user.email w₁ (h refl))
            (λ e w₂ _.
              Post-mono (λ _ _. ⊥) _ (λ _ _. Unit {0}) _ (unless_unsent out purpose user.id e w₂)
                (unless_unsent-Raises user.id e w₂) (λ _ _ never. absurd never) (λ _ _ _. tt))

  -- As long as the key is there, a request is refused and sends no mail.
  request_mail-Refused :
      (user : User) (until : ℕ) (w : State)
      → Holds (cooldown purpose user.id) until w
      → out.utc w.step < until
      → Post
          (λ _ _. ⊥)
          (λ e w'. ((e ≡ too_many_requests) ⊎ (e ≡ redis_error)) × (w'.mails ≡ w.mails))
          (request_mail out purpose user w)
  unfolding request_mail request_acquired set_nx command
  request_mail-Refused user until w h soon = ground (arith, h (out.utc w.step) soon)

  -- A user who asks for a mail, successfully, and asks again within 300 seconds is refused the
  -- second time, unless Redis fails, and no second mail is sent.
  pub request_mail-Once :
      (user : User) (w w' : State)
      → request_mail out purpose user w ≡ (ok tt, w')
      → out.utc w'.step < out.utc w.step + 300_000_000
      → Post
          (λ _ _. ⊥)
          (λ e w''. ((e ≡ too_many_requests) ⊎ (e ≡ redis_error)) × (w''.mails ≡ w'.mails))
          (request_mail out purpose user w')
  request_mail-Once user w w' sent soon =
      request_mail-Refused user (out.utc w.step + 300_000_000) w'
        (subst
          (Post (λ _ w'. Holds (cooldown purpose user.id) (out.utc w.step + 300_000_000) w')
            (λ _ _. Unit {0}))
          sent (request_mail-Cools user w))
        soon
