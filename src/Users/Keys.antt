-- ===== src/Users/Keys.antt =====
-- The Redis commands on single keys that app/users/service.py uses.
use anime_app_backend.Prelude.{
  ℕ, ◌+◌, ◌*◌, Bool, true, false, Option, none, some, List, [], ◌∷◌, ltb, ◌==◌, if◌then◌else◌,
}
use anime_app_backend.Exec.{ok, err}
use anime_app_backend.Security.State.{
  Name, email_verification, password_reset, email_verification_user, password_reset_user,
  resend_cooldown, forgot_password_cooldown, Entry, Redis, Mail, service_unavailable, Outside, Job,
  tick, command,
}

abbrev pub same_name : Name → Name → Bool
same_name (email_verification a) (email_verification b) = a == b
same_name (password_reset a) (password_reset b) = a == b
same_name (email_verification_user a) (email_verification_user b) = a == b
same_name (password_reset_user a) (password_reset_user b) = a == b
same_name (resend_cooldown a) (resend_cooldown b) = a == b
same_name (forgot_password_cooldown a) (forgot_password_cooldown b) = a == b
same_name a b = false

-- What a key holds at the time `now`.
unfoldable pub read : ℕ → Name → List Entry → Option ℕ
read now name [] = none
read now name (e ∷ es) =
    if same_name e.name name
    then (if ltb now e.expires then some e.content else none)
    else read now name es

unfoldable pub remove : Name → List Entry → List Entry
remove name [] = []
remove name (e ∷ es) = let rest = remove name es in if same_name e.name name then rest else e ∷ rest

-- `seconds` from now on
abbrev pub write : ℕ → Name → ℕ → ℕ → List Entry → List Entry
write now name seconds content es =
    record { name = name; content = content; expires = now + seconds * 1_000_000 } ∷ remove name es

module _ {T : Type 0} (out : Outside T) where
  unfoldable pub get : Name → Job (Option ℕ)
  get name w = command out (λ (r : Redis). (read (out.utc w.step) name r.entries, r)) w

  unfoldable pub getdel : Name → Job (Option ℕ)
  getdel name w =
      command out
        (λ (r : Redis).
          (read (out.utc w.step) name r.entries, record r { entries = remove name r.entries }))
        w

  unfoldable pub delete : Name → Job (Unit {0})
  delete name = command out (λ (r : Redis). (tt, record r { entries = remove name r.entries }))

  unfoldable pub setex : Name → ℕ → ℕ → Job (Unit {0})
  setex name seconds content w =
      command out
        (λ (r : Redis).
          (tt, record r { entries = write (out.utc w.step) name seconds content r.entries }))
        w

  -- `SET name 1 NX EX seconds`: whether the key was set.
  unfoldable pub set_nx : Name → ℕ → Job Bool
  set_nx name seconds w =
      command out
        (λ (r : Redis). elim (read (out.utc w.step) name r.entries) [
          | some content ↦ (false, r)
          | none ↦ (true, record r { entries = write (out.utc w.step) name seconds 1 r.entries })
        ])
        w

  -- `enqueue` (app/core/workers/enqueue.py)
  unfoldable pub enqueue : Mail → Job (Unit {0})
  enqueue mail w =
      if out.enqueue_fails w.step
      then (err service_unavailable, tick w)
      else (ok tt, record (tick w) { mails = mail ∷ w.mails })
