-- ===== src/Users/Service/Erase.antt =====
-- About the deletion of one account.
use anime_app_backend.Prelude.{
  ℕ, ◌≡◌, ◌∙◌, ap, false, Option, none, some, List, [], ◌∷◌, ◌==◌, arith, if◌then◌else◌,
}
use anime_app_backend.Prelude.Lists.{All}
use anime_app_backend.Exec.Post.{Post, Post-mono, continue-Post}
use anime_app_backend.Security.State.{
  Exc, User, Redis, Database, Outside, State, get_user_by_id, delete_all_refresh_tokens_for_user,
  query,
}
use anime_app_backend.Security.State.Steps.{Untouched, Queried, query-Queried}
use anime_app_backend.Security.Tokens.Frame.{SameRows, revoke_access_to_all_tokens-Leaves}
use anime_app_backend.Security.Tokens.{revoke_access_to_all_tokens}
use anime_app_backend.Security.Service.{find_user_by_id}
use anime_app_backend.Users.Rows.{without_user, delete_user}
use anime_app_backend.Users.Service.{delete_tokens_of, delete_user_and_sessions}

-- The rows without those of one user, and without those of several.
abbrev pub erase : ℕ → Database → Database
erase id db = record {
  users = without_user id db.users;
  tokens = delete_all_refresh_tokens_for_user id db.tokens;
}

abbrev pub erase_all : List ℕ → Database → Database
erase_all [] db = db
erase_all (id ∷ ids) db = erase_all ids (erase id db)

-- The id of a user who is no admin.
abbrev pub IsOrdinary : Database → ℕ → Type 0
IsOrdinary db id = (u : User) × (get_user_by_id id db.users ≡ some u) × (u.is_admin ≡ false)

pub get-without_user :
    (k id : ℕ) (us : List User)
    → get_user_by_id k (without_user id us) ≡ (if id == k then none else get_user_by_id k us)
unfolding get_user_by_id without_user
get-without_user k id [] = ground arith
get-without_user k id (u ∷ us) = ground (arith, get-without_user k id us)

pub get_user_by_id-id :
    (k : ℕ) (us : List User) {u : User} → get_user_by_id k us ≡ some u → u.id ≡ k
unfolding get_user_by_id
get_user_by_id-id k [] h = cc
get_user_by_id-id k (x ∷ us) {u = u} h = ground (arith, get_user_by_id-id k us {u = u})

pub erase-IsOrdinary : (db : Database) (id k : ℕ) → IsOrdinary (erase id db) k → IsOrdinary db k
erase-IsOrdinary db id k (u, found, plain) =
    (u, ground (arith, found, get-without_user k id db.users), plain)

pub erase-All :
    (db : Database) (id : ℕ) (ids : List ℕ)
    → All (IsOrdinary (erase id db)) ids
    → All (IsOrdinary db) ids
erase-All db id [] h = tt
erase-All db id (k ∷ ids) h = (erase-IsOrdinary db id k h.0, erase-All db id ids h.1)

module _ {T : Type 0} (out : Outside T) where
  -- What a lookup returns, and that it leaves the rows alone.
  pub find_user_by_id-Queried :
      (id : ℕ) (w : State)
      → Post
          (λ user w'. (user ≡ get_user_by_id id w.seen.users) × SameRows w w')
          (λ _ w'. SameRows w w')
          (find_user_by_id out id w)
  unfolding find_user_by_id
  find_user_by_id-Queried id w =
      let look : Database → Option User × Database =
        λ (db : Database). (get_user_by_id id db.users, db) in
      Post-mono (Queried out look w) _ (λ e w'. (e ≡ Exc.database_error) × Untouched w w') _
        (query out look w) (query-Queried out look w)
        (λ user w' q. (
          q.result,
          record {
            saved = q.saved;
            seen = q.seen;
            entries = ap (λ (r : Redis). r.entries) q.redis;
            mails = q.mails;
          },
        ))
        (λ e w' q. record {
          saved = q.1.saved;
          seen = q.1.seen;
          entries = ap (λ (r : Redis). r.entries) q.1.redis;
          mails = q.1.mails;
        })

  -- A deletion takes the user and all refresh tokens of the user out of what the session sees; it
  -- saves nothing by itself.
  pub delete_user_and_sessions-Post :
      (user : User) (w : State)
      → Post
          (λ _ w'. (w'.seen ≡ erase user.id w.seen) × (w'.saved ≡ w.saved))
          (λ _ w'. w'.saved ≡ w.saved)
          (delete_user_and_sessions out user w)
  unfolding delete_user_and_sessions delete_tokens_of delete_user
  delete_user_and_sessions-Post user w =
      let drop_tokens : Database → Unit {0} × Database = λ (db : Database).
        (tt, record db { tokens = delete_all_refresh_tokens_for_user user.id db.tokens }) in
      let drop_user : Database → Unit {0} × Database =
        λ (db : Database). (tt, record db { users = without_user user.id db.users }) in
      continue-Post (λ _ w₁. SameRows w w₁) _ (λ _ w'. w'.saved ≡ w.saved)
        (revoke_access_to_all_tokens out user.id w) _
        (Post-mono (λ _ w'. SameRows w w') _ (λ _ w'. SameRows w w') _
          (revoke_access_to_all_tokens out user.id w)
          (revoke_access_to_all_tokens-Leaves out user.id w) (λ _ _ s. s) (λ _ _ s. s.saved))
        (λ _ w₁ s.
          continue-Post (Queried out drop_tokens w₁) _ (λ _ w'. w'.saved ≡ w.saved)
            (query out drop_tokens w₁) _
            (Post-mono (Queried out drop_tokens w₁) _
              (λ e w'. (e ≡ Exc.database_error) × Untouched w₁ w') _ (query out drop_tokens w₁)
              (query-Queried out drop_tokens w₁) (λ _ _ q. q) (λ _ _ q. q.1.saved ∙ s.saved))
            (λ _ w₂ q.
              Post-mono (Queried out drop_user w₂) _
                (λ e w'. (e ≡ Exc.database_error) × Untouched w₂ w') _ (query out drop_user w₂)
                (query-Queried out drop_user w₂)
                (λ _ w₃ p. (
                  p.seen
                      ∙ ap (λ (db : Database). record db { users = without_user user.id db.users })
                          q.seen
                      ∙ ap (λ (db : Database). erase user.id db) s.seen,
                  p.saved ∙ q.saved ∙ s.saved,
                ))
                (λ _ w₃ p. p.1.saved ∙ q.saved ∙ s.saved)))
