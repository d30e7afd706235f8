-- ===== src/Users/Service/Passwords.antt =====
-- About a change of the password.
use anime_app_backend.Prelude.{
  ℕ, ◌≡◌, sym, ◌∙◌, ap, subst, none, some, String, List, [], ◌∷◌, ◌==◌, arith, if◌then◌else◌,
}
use anime_app_backend.Exec.Post.{Post, Post-mono, continue-Post}
use anime_app_backend.Security.State.{
  Exc, User, Database, Outside, State, Job, get_user_by_id, delete_all_refresh_tokens_for_user,
  query,
}
use anime_app_backend.Security.State.Steps.{Untouched, Queried, query-Queried}
use anime_app_backend.Security.Tokens.Frame.{SameRows, revoke_access_to_all_tokens-Leaves}
use anime_app_backend.Security.Tokens.{revoke_access_to_all_tokens}
use anime_app_backend.Security.Service.Rotation.{HasNone, delete_all-HasNone}
use anime_app_backend.Users.Rows.{put_user, flush_user, update_user}
use anime_app_backend.Users.Service.{change_password}

pub get-put_user :
    (k : ℕ) (user : User) (us : List User)
    → get_user_by_id k (put_user user us) ≡ (
        if user.id == k
        then (elim (get_user_by_id k us) [ none ↦ none | some u ↦ some user ])
        else get_user_by_id k us)
unfolding get_user_by_id put_user
get-put_user k user [] = ground arith
get-put_user k user (u ∷ us) = ground (arith, get-put_user k user us)

-- A row that is written over is read back.
pub get-put_user_same :
    {old : User} (user : User) (us : List User)
    → get_user_by_id user.id us ≡ some old
    → get_user_by_id user.id (put_user user us) ≡ some user
get-put_user_same user us h = ground (arith, get-put_user user.id user us)

module _ {T : Type 0} (out : Outside T) where
  -- The flush of a changed user.
  pub record Updated (user : User) (w w' : State) : Type 0 where
    pub users : w'.seen.users ≡ put_user user w.seen.users
    pub tokens : w'.seen.tokens ≡ w.seen.tokens
    pub saved : w'.saved ≡ w.saved
    pub redis : w'.redis ≡ w.redis

  pub update_user-Updated :
      (user : User) (w : State)
      → Post (λ _ w'. Updated user w w') (λ _ w'. w'.saved ≡ w.saved) (update_user out user w)
  unfolding flush_user
  update_user-Updated user w = ground arith

  -- What a changed password leaves: the new hash in the row of the user, and no refresh token.
  pub record HasChanged (user : User) (password : String) (db : Database) : Type 0 where
    pub salt : ℕ
    pub row :
        get_user_by_id user.id db.users
        ≡ some (record user { password = out.hash_password salt password })
    pub ended : HasNone user.id db.tokens

  pub change_password-HasChanged :
      (between : ℕ → Job (Unit {0})) (user : User) (password : String) (w : State)
      → ((id : ℕ) (w : State)
          → Post
              (λ _ w'. (w'.seen ≡ w.seen) × (w'.saved ≡ w.saved))
              (λ _ w'. w'.saved ≡ w.saved)
              (between id w))
      → get_user_by_id user.id w.seen.users ≡ some user
      → Post
          (λ _ w'. HasChanged user password w'.seen × (w'.saved ≡ w.saved))
          (λ _ w'. w'.saved ≡ w.saved)
          (change_password out between user password w)
  unfolding change_password
  change_password-HasChanged between user password w side found =
      let hashed : User = record user { password = out.hash_password w.step password } in
      let drop_tokens : Database → Unit {0} × Database = λ (db : Database).
        (tt, record db { tokens = delete_all_refresh_tokens_for_user user.id db.tokens }) in
      continue-Post (λ _ w₁. Updated hashed w w₁) _ _ (update_user out hashed w) _
        (update_user-Updated hashed w)
        (λ _ w₁ u.
          continue-Post (λ _ w₂. (w₂.seen ≡ w₁.seen) × (w₂.saved ≡ w.saved)) _ _
            (between user.id w₁) _
            (Post-mono (λ _ w₂. (w₂.seen ≡ w₁.seen) × (w₂.saved ≡ w₁.saved)) _
              (λ _ w₂. w₂.saved ≡ w₁.saved) _ (between user.id w₁) (side user.id w₁)
              (λ _ w₂ s. (s.0, s.1 ∙ u.saved)) (λ _ w₂ s. s ∙ u.saved))
            (λ _ w₂ s.
              continue-Post (Queried out drop_tokens w₂) _ _ (query out drop_tokens w₂) _
                (Post-mono (Queried out drop_tokens w₂) _
                  (λ e w₃. (e ≡ Exc.database_error) × Untouched w₂ w₃) _ (query out drop_tokens w₂)
                  (query-Queried out drop_tokens w₂) (λ _ _ q. q) (λ _ _ q. q.1.saved ∙ s.1))
                (λ _ w₃ q.
                  Post-mono (λ _ w₄. SameRows w₃ w₄) _ (λ _ w₄. SameRows w₃ w₄) _
                    (revoke_access_to_all_tokens out user.id w₃)
                    (revoke_access_to_all_tokens-Leaves out user.id w₃)
                    (λ _ w₄ r. (
                      record {
                        salt = w.step;
                        row =
                            ap (λ (db : Database). get_user_by_id user.id db.users) r.seen
                            ∙ ap (λ (db : Database). get_user_by_id user.id db.users) q.seen
                            ∙ ap (λ (db : Database). get_user_by_id user.id db.users) s.0
                            ∙ ap (get_user_by_id user.id) u.users
                            ∙ get-put_user_same hashed w.seen.users found;
                        ended =
                            subst (λ (db : Database). HasNone user.id db.tokens) (sym r.seen)
                              (subst (λ (db : Database). HasNone user.id db.tokens) (sym q.seen)
                                (delete_all-HasNone user.id w₂.seen.tokens));
                      },
                      r.saved ∙ q.saved ∙ s.1,
                    ))
                    (λ _ w₄ r. r.saved ∙ q.saved ∙ s.1))))
