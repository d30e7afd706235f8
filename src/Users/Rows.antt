-- ===== src/Users/Rows.antt =====
-- The statements of `UserRepository` (app/users/repository.py).
use anime_app_backend.Prelude.{
  ℕ, Bool, true, false, ◌&&◌, ◌||◌, Option, none, some, String, List, [], ◌∷◌, leb, ◌==◌, str_eq,
  if◌then◌else◌,
}
use anime_app_backend.Prelude.Lists.{any_of, take, drop, length}
use anime_app_backend.Exec.{ok, err}
use anime_app_backend.Security.State.{
  integrity_error, database_error, User, Database, Outside, Job, tick, query,
}

-- `UPDATE users … WHERE id = …` for a user object whose attributes were set
unfoldable pub put_user : User → List User → List User
put_user user [] = []
put_user user (u ∷ us) = (if u.id == user.id then user else u) ∷ put_user user us

unfoldable pub without_user : ℕ → List User → List User
without_user id [] = []
without_user id (u ∷ us) = let rest = without_user id us in if u.id == id then rest else u ∷ rest

-- The unique index on `email`: a row of another user has the address.
abbrev pub is_taken : ℕ → String → List User → Bool
is_taken id email = any_of (λ u. str_eq u.email email && (if u.id == id then false else true))

-- Only a new address is checked against the index.
abbrev pub keeps_email : User → List User → Bool
keeps_email user = any_of (λ u. (u.id == user.id) && str_eq u.email user.email)

abbrev pub is_conflict : Bool → User → List User → Bool
is_conflict taken_first user us =
    if keeps_email user us then false else is_taken user.id user.email us || taken_first

module _ {T : Type 0} (out : Outside T) where
  -- The flush of a user whose new address another row has, or gets first, breaks the unique index.
  unfoldable pub flush_user : User → (List User → List User) → Job User
  flush_user user f w =
      if out.database_fails w.step
      then (err database_error, tick w)
      else if is_conflict (out.email_conflicts w.step) user w.seen.users
      then (err integrity_error, tick w)
      else (ok user, record (tick w) { seen = record w.seen { users = f w.seen.users } })

  abbrev pub create_user : User → Job User
  create_user user = flush_user user (λ us. user ∷ us)

  abbrev pub update_user : User → Job User
  update_user user = flush_user user (put_user user)

  unfoldable pub delete_user : User → Job (Unit {0})
  delete_user user =
      query out (λ (db : Database). (tt, record db { users = without_user user.id db.users }))

-- The filters of `get_users` and `count_users`; `ilike` with the text as a prefix is Postgres's.
pub record Filter : Type 0 where
  pub username : Option String
  pub email : Option String
  pub is_admin : Option Bool
  pub created_after : Option ℕ
  pub created_before : Option ℕ

abbrev pub same_flag : Bool → Bool → Bool
same_flag true b = b
same_flag false b = if b then false else true

module _ (ilike_prefix : String → String → Bool) where
  abbrev pub meets : {A : Type 0} → Option A → (A → Bool) → Bool
  meets none test = true
  meets (some a) test = test a

  abbrev pub is_selected : Filter → User → Bool
  is_selected f u =
      meets f.username (ilike_prefix u.username)
      && meets f.email (ilike_prefix u.email)
      && meets f.is_admin (same_flag u.is_admin)
      && meets f.created_after (λ t. leb t u.created_at)
      && meets f.created_before (λ t. leb u.created_at t)

  unfoldable pub select_users : Filter → List User → List User
  select_users f [] = []
  select_users f (u ∷ us) =
      let rest = select_users f us in if is_selected f u then u ∷ rest else rest

  -- `order` is ORDER BY username or created_at, as Postgres sorts.
  unfoldable pub get_users :
      (order : Bool → List User → List User) → ℕ → ℕ → Filter → Bool → List User → List User
  get_users order limit offset f by_username us =
      take limit (drop offset (order by_username (select_users f us)))

  unfoldable pub count_users : Filter → List User → ℕ
  count_users f us = length (select_users f us)
